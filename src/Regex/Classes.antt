-- ===== src/Regex/Classes.antt =====
-- What a class of characters, and repetitions of it, match.
use Prim.Native.String.{[], ◌∷◌, ◌++◌}
use text.Mathlib.TextLemmas.{
  nil-append, cons-append, nil≢cons, head-eq_of_cons-eq, tail-eq_of_cons-eq,
}
use vps_monitor_webui.Prelude.{
  ℕ, zero, suc, ◌+◌, ◌≤◌, refl, sym, ap, ◌∙◌, subst, String, Char, code, utf8_len, Each, Bool, true,
  ◌≡◌, ◌≢◌, ◌↔◌, inl, inr, arith,
}
use vps_monitor_webui.Regex.{
  Regex, class, star, seq, plus, up_to, Matches, on_empty, on_class, on_seq, on_left, on_right,
  on_none, on_more,
}
use vps_monitor_webui.Regex.Laws.{seq_parts, alt_parts, empty_parts}

abbrev pub EachIn : (Char → Bool) → String → Type 0
EachIn p s = Each (λ c. p c ≡ true) s

pub class_parts :
    {p : Char → Bool} {s : String} → Matches (class p) s → (c : Char) × (s ≡ c ∷ []) × (p c ≡ true)
class_parts (on_class {c = c} h) = (c, refl, h)

pub Each-append : (p : Char → Bool) (s t : String) → EachIn p s → EachIn p t → EachIn p (s ++ t)
Each-append p [] t h k = subst (EachIn p) (sym (nil-append t)) k
Each-append p (c ∷ s) t (h, hs) k =
    subst (EachIn p) (sym (cons-append c s t)) (h, Each-append p s t hs k)

star_class_to : {p : Char → Bool} {s : String} → Matches (star (class p)) s → EachIn p s
star_class_to on_none = tt
star_class_to {p} (on_more c a b split m n) =
    let one = class_parts m in
    subst (EachIn p) (sym split) (
      subst (λ t. EachIn p (c ∷ (t ++ b))) (sym (tail-eq_of_cons-eq one.1))
        (
          ap p (head-eq_of_cons-eq one.1) ∙ one.2,
          subst (EachIn p) (sym (nil-append b)) (star_class_to n),
        ))

star_class_from : (p : Char → Bool) (s : String) → EachIn p s → Matches (star (class p)) s
star_class_from p [] h = on_none
star_class_from p (c ∷ s) (h, hs) =
    on_more c [] s (ap (λ t. c ∷ t) (sym (nil-append s))) (on_class h) (star_class_from p s hs)

-- A class and then a pattern: the first character, and what is left.
class_seq_parts :
    (p : Char → Bool) (r : Regex) (s : String)
    → Matches (seq (class p) r) s
    → (c : Char) × (b : String) × (s ≡ c ∷ b) × (p c ≡ true) × Matches r b
class_seq_parts p r s m =
    let q = seq_parts m in
    let one = class_parts q.first in
    (
      one.0,
      q.back,
      q.split
          ∙ ap (λ t. t ++ q.back) one.1
          ∙ cons-append one.0 [] q.back
          ∙ ap (λ t. one.0 ∷ t) (nil-append q.back),
      one.2,
      q.second,
    )

class_seq_from :
    (p : Char → Bool) (r : Regex) (c : Char) (s : String)
    → p c ≡ true
    → Matches r s
    → Matches (seq (class p) r) (c ∷ s)
class_seq_from p r c s h m =
    on_seq (c ∷ []) s (sym (cons-append c [] s ∙ ap (λ t. c ∷ t) (nil-append s))) (on_class h) m

pub plus_class_to :
    (p : Char → Bool) (s : String) → Matches (plus (class p)) s → (s ≢ "") × EachIn p s
plus_class_to p s m =
    let q = class_seq_parts p (star (class p)) s m in
    (λ e. nil≢cons (sym e ∙ q.2), subst (EachIn p) (sym q.2) (q.3, star_class_to q.4))

pub plus_class_from :
    (p : Char → Bool) (s : String) → s ≢ "" → EachIn p s → Matches (plus (class p)) s
plus_class_from p [] ne h = absurd (ne refl)
plus_class_from p (c ∷ s) ne (h, hs) =
    class_seq_from p (star (class p)) c s h (star_class_from p s hs)

-- A class of characters of one byte.
abbrev pub IsAscii : (Char → Bool) → Type 0
IsAscii p = (c : Char) → p c ≡ true → code c ≤ 127

utf8_len-cons :
    (p : Char → Bool) (c : Char) (s : String)
    → IsAscii p
    → p c ≡ true
    → utf8_len (c ∷ s) ≡ 1 + utf8_len s
unfolding utf8_len
utf8_len-cons p c s ascii h = ground (arith, ascii c h)

up_to_class_to :
    (p : Char → Bool) (n : ℕ) (s : String)
    → IsAscii p
    → Matches (up_to n (class p)) s
    → EachIn p s × (utf8_len s ≤ n)
unfolding utf8_len
up_to_class_to p zero s ascii m =
    subst (λ t. EachIn p t × (utf8_len t ≤ 0)) (sym (empty_parts m)) (tt, omega arith)
up_to_class_to p (suc n) s ascii m = elim (alt_parts m) [
  | inl e ↦ subst (λ t. EachIn p t × (utf8_len t ≤ suc n)) (sym (empty_parts e)) (tt, omega arith)
  | inr q ↦
      let one = class_seq_parts p (up_to n (class p)) s q in
      let rest = up_to_class_to p n one.1 ascii one.4 in
      subst (λ t. EachIn p t × (utf8_len t ≤ suc n)) (sym one.2)
        ((one.3, rest.0), omega (arith, utf8_len-cons p one.0 one.1 ascii one.3, rest.1))
]

up_to_class_from :
    (p : Char → Bool) (n : ℕ) (s : String)
    → IsAscii p
    → EachIn p s
    → utf8_len s ≤ n
    → Matches (up_to n (class p)) s
up_to_class_from p zero [] ascii h short = on_empty
up_to_class_from p zero (c ∷ s) ascii (h, hs) short =
    absurd (omega (arith, utf8_len-cons p c s ascii h))
up_to_class_from p (suc n) [] ascii h short = on_left on_empty
up_to_class_from p (suc n) (c ∷ s) ascii (h, hs) short = on_right (
    class_seq_from p (up_to n (class p)) c s h
      (up_to_class_from p n s ascii hs (omega (arith, utf8_len-cons p c s ascii h))))

some_from :
    (p : Char → Bool) (n : ℕ) (s : String)
    → IsAscii p
    → s ≢ ""
    → utf8_len s ≤ suc n
    → EachIn p s
    → Matches (seq (class p) (up_to n (class p))) s
some_from p n [] ascii given short h = absurd (given refl)
some_from p n (c ∷ s) ascii given short (h, hs) =
    class_seq_from p (up_to n (class p)) c s h
      (up_to_class_from p n s ascii hs (omega (arith, utf8_len-cons p c s ascii h)))

-- [p]{1,n+1}
pub some_up_to_class_iff :
    (p : Char → Bool) (n : ℕ) (s : String)
    → IsAscii p
    → Matches (seq (class p) (up_to n (class p))) s ↔ ((s ≢ "") × (utf8_len s ≤ suc n) × EachIn p s)
some_up_to_class_iff p n s ascii = (
  λ m.
      let one = class_seq_parts p (up_to n (class p)) s m in
      let rest = up_to_class_to p n one.1 ascii one.4 in
      (
        λ e. nil≢cons (sym e ∙ one.2),
        omega (arith, ap utf8_len one.2, utf8_len-cons p one.0 one.1 ascii one.3, rest.1),
        subst (EachIn p) (sym one.2) (one.3, rest.0),
      ),
  λ (given, short, chars). some_from p n s ascii given short chars,
)
