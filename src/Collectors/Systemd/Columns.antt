-- ===== src/Collectors/Systemd/Columns.antt =====
-- src/collectors/systemd.rs, `list`: how a line of systemctl falls into fields.
use Prim.Native.String.{[], ◌∷◌, ◌++◌}
use mathlib.Core.List.{[] as nil, ◌∷◌ as cons}
use text.Mathlib.TextLemmas.{nil-append, cons-append}
use vps_monitor_webui.Prelude.{
  Each, ℕ, suc, String, Char, true, false, not, ◌≡◌, refl, ◌≢◌, ap, ◌∙◌, ◌==◌, eq_iff, some, arith,
  is_whitespace, retain,
}
use vps_monitor_webui.Collectors.Systemd.{splitn, push_front, parse_line, service_of}

-- A field: not empty, with no blank in it.
abbrev pub IsField : String → Type 0
IsField s = (s ≢ "") × Each (λ c. is_whitespace c ≡ false) s

is_given : (s : String) → s ≢ "" → (s == "") ≡ false
is_given s h = ground (arith, eq_iff s "")

module _ (b : Char) (blank : is_whitespace b ≡ true) where
  -- A piece ends at the first blank.
  splitn-piece :
      (n : ℕ) (s rest : String)
      → Each (λ c. is_whitespace c ≡ false) s
      → splitn (suc (suc n)) (s ++ (b ∷ rest)) ≡ cons s (splitn (suc n) rest)
  unfolding splitn
  splitn-piece n [] rest h = rw (nil-append (b ∷ rest), blank)
  splitn-piece n (c ∷ s) rest (h, hs) =
      rw (cons-append c s (b ∷ rest), h) (ap (push_front c) (splitn-piece n s rest hs))

  splitn-last : (s : String) → s ≢ "" → splitn 1 s ≡ cons s nil
  unfolding splitn
  splitn-last [] h = refl
  splitn-last (c ∷ s) h = refl

  -- A second blank makes an empty piece.
  splitn-blank :
      (n : ℕ) (rest : String) → splitn (suc (suc n)) (b ∷ rest) ≡ cons [] (splitn (suc n) rest)
  unfolding splitn
  splitn-blank n rest = rw blank

  -- A line whose fields stand one blank apart is read as its fields; what follows the fourth is the
  -- description, blanks included.
  pub parse_line_of_fields :
      (unit load active sub description : String)
      → IsField unit
      → IsField load
      → IsField active
      → IsField sub
      → description ≢ ""
      → parse_line (unit ++ (b ∷ (load ++ (b ∷ (active ++ (b ∷ (sub ++ (b ∷ description))))))))
        ≡ some (record {
          unit = unit;
          load = load;
          active = active;
          sub = sub;
          description = description;
        })
  unfolding parse_line
  parse_line_of_fields unit load active sub description u l a s d =
      ap (λ ps. service_of (retain (λ p. not (p == "")) ps))
        (splitn-piece 3 unit _ u.1
          ∙ ap (cons unit) (splitn-piece 2 load _ l.1)
          ∙ ap (λ ps. cons unit (cons load ps)) (splitn-piece 1 active _ a.1)
          ∙ ap (λ ps. cons unit (cons load (cons active ps))) (splitn-piece 0 sub _ s.1)
          ∙ ap (λ ps. cons unit (cons load (cons active (cons sub ps))))
              (splitn-last description d))
      ∙ rw (
        is_given unit u.0,
        is_given load l.0,
        is_given active a.0,
        is_given sub s.0,
        is_given description d,
      )

  -- A line in columns, with four blanks or more, all the same character, after the name of the unit,
  -- and something after them, is read as the unit and
  -- a load that is all the rest of the line; active, sub and description are empty.
  pub parse_line_of_columns :
      (unit rest : String)
      → IsField unit
      → rest ≢ ""
      → parse_line (unit ++ (b ∷ (b ∷ (b ∷ (b ∷ rest)))))
        ≡ some (record { unit = unit; load = rest; active = ""; sub = ""; description = "" })
  unfolding parse_line
  parse_line_of_columns unit rest u r =
      ap (λ ps. service_of (retain (λ p. not (p == "")) ps))
        (splitn-piece 3 unit _ u.1
          ∙ ap (cons unit) (splitn-blank 2 (b ∷ (b ∷ rest)))
          ∙ ap (λ ps. cons unit (cons [] ps)) (splitn-blank 1 (b ∷ rest))
          ∙ ap (λ ps. cons unit (cons [] (cons [] ps))) (splitn-blank 0 rest)
          ∙ ap (λ ps. cons unit (cons [] (cons [] (cons [] ps)))) (splitn-last rest r))
      ∙ rw (is_given unit u.0, is_given rest r)
