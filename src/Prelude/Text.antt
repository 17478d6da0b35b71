-- ===== src/Prelude/Text.antt =====
-- The operations of Rust's `str` and `char` that the program calls, over the native texts.
use Prim.Native.Nat.{ℕ, ◌+◌}
use Prim.Native.Char.{Char, code}
use Prim.Native.String.{String, [], ◌∷◌}
use mathlib.Core.Bool.{Bool, true, false, ◌&&◌, ◌||◌}
use vps_monitor_webui.Prelude.Tests.{leb, nat_eq, if◌then◌else◌}

abbrev within : ℕ → ℕ → ℕ → Bool
within lo hi c = leb lo c && leb c hi

-- str::len: the bytes of the text in UTF-8
unfoldable pub utf8_len : String → ℕ
utf8_len [] = 0
utf8_len (c ∷ s) =
    (if leb (code c) 0x7f
      then 1
      else if leb (code c) 0x7ff
      then 2
      else if leb (code c) 0xffff
      then 3
      else 4)
    + utf8_len s

-- char::is_ascii_alphanumeric
unfoldable pub is_ascii_alphanumeric : Char → Bool
is_ascii_alphanumeric c =
    within b'A' b'Z' (code c) || within b'a' b'z' (code c) || within b'0' b'9' (code c)

-- The code point of a character in lower case, where it is an ASCII letter.
unfoldable pub to_ascii_lower : Char → ℕ
to_ascii_lower c = if within b'A' b'Z' (code c) then code c + 32 else code c

-- str::eq_ignore_ascii_case
unfoldable pub eq_ignore_ascii_case : String → String → Bool
unfolding to_ascii_lower
eq_ignore_ascii_case [] [] = true
eq_ignore_ascii_case (c ∷ s) (d ∷ t) =
    nat_eq (to_ascii_lower c) (to_ascii_lower d) && eq_ignore_ascii_case s t
eq_ignore_ascii_case _ _ = false

-- str.chars().all(p)
unfoldable pub all_chars : (Char → Bool) → String → Bool
all_chars p [] = true
all_chars p (c ∷ s) = p c && all_chars p s

-- char::is_whitespace: the property White_Space of Unicode
unfoldable pub is_whitespace : Char → Bool
is_whitespace c =
    let n = code c in
    within 9 13 n
    || nat_eq n 32
    || nat_eq n 0x85
    || nat_eq n 0xa0
    || nat_eq n 0x1680
    || within 0x2000 0x200a n
    || nat_eq n 0x2028
    || nat_eq n 0x2029
    || nat_eq n 0x202f
    || nat_eq n 0x205f
    || nat_eq n 0x3000

unfoldable pub trim_start : String → String
unfolding is_whitespace
trim_start [] = []
trim_start (c ∷ s) = if is_whitespace c then trim_start s else c ∷ s

abbrev drop_blank : Char → String → String
drop_blank c [] = if is_whitespace c then [] else c ∷ []
drop_blank c (d ∷ s) = c ∷ d ∷ s

unfoldable pub trim_end : String → String
unfolding is_whitespace
trim_end [] = []
trim_end (c ∷ s) = drop_blank c (trim_end s)

-- str::trim
unfoldable pub trim : String → String
unfolding trim_start trim_end
trim s = trim_end (trim_start s)

-- str.split(',').next()
unfoldable pub before_comma : String → String
before_comma [] = []
before_comma (c ∷ s) = if nat_eq (code c) b',' then [] else c ∷ before_comma s

-- Every character of a text has a property.
abbrev pub Each : (Char → Type 0) → String → Type 0
Each P [] = Unit
Each P (c ∷ s) = P c × Each P s
