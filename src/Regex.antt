-- ===== src/Regex.antt =====
-- The regular expressions of src/collectors/systemd.rs and src/handlers/logs.rs: what a pattern
-- matches, as a relation, and a matcher that decides it by derivatives. A pattern of the sources
-- stands between `^` and `$`, so a text matches as a whole.
pub mod Laws
pub mod Classes
use Prim.Native.String.{[], ◌∷◌, ◌++◌}
use vps_monitor_webui.Prelude.{
  ℕ, zero, suc, String, Char, code, Bool, true, false, ◌&&◌, ◌||◌, ◌≡◌, nat_eq, if◌then◌else◌,
}

pub data Regex : Type 0 where
  never : Regex
  empty : Regex
  class : (Char → Bool) → Regex
  seq : Regex → Regex → Regex
  alt : Regex → Regex → Regex
  star : Regex → Regex

-- A text as a pattern.
abbrev pub literal : String → Regex
literal [] = empty
literal (c ∷ s) = seq (class (λ d. nat_eq (code d) (code c))) (literal s)

-- r+
abbrev pub plus : Regex → Regex
plus r = seq r (star r)

-- r{0,n}
abbrev pub up_to : ℕ → Regex → Regex
up_to zero r = empty
up_to (suc n) r = alt empty (seq r (up_to n r))

pub data Matches : Regex → String → Type 0 where
  on_empty : Matches empty []
  on_class : {p : Char → Bool} {c : Char} → p c ≡ true → Matches (class p) (c ∷ [])
  on_seq :
      {r q : Regex} {s : String} (a b : String)
      → s ≡ a ++ b
      → Matches r a
      → Matches q b
      → Matches (seq r q) s
  on_left : {r q : Regex} {s : String} → Matches r s → Matches (alt r q) s
  on_right : {r q : Regex} {s : String} → Matches q s → Matches (alt r q) s
  on_none : {r : Regex} → Matches (star r) []
  on_more :
      {r : Regex} {s : String} (c : Char) (a b : String)
      → s ≡ c ∷ (a ++ b)
      → Matches r (c ∷ a)
      → Matches (star r) b
      → Matches (star r) s

pub nullable : Regex → Bool
nullable never = false
nullable empty = true
nullable (class p) = false
nullable (seq r q) = nullable r && nullable q
nullable (alt r q) = nullable r || nullable q
nullable (star r) = true

-- What is left to match after a character.
pub deriv : Char → Regex → Regex
unfolding nullable
deriv c never = never
deriv c empty = never
deriv c (class p) = if p c then empty else never
deriv c (seq r q) =
    let rest = seq (deriv c r) q in if nullable r then alt rest (deriv c q) else rest
deriv c (alt r q) = alt (deriv c r) (deriv c q)
deriv c (star r) = seq (deriv c r) (star r)

-- Regex::is_match
unfoldable pub is_match : Regex → String → Bool
unfolding nullable deriv
is_match r [] = nullable r
is_match r (c ∷ s) = is_match (deriv c r) s
