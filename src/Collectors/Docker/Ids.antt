-- ===== src/Collectors/Docker/Ids.antt =====
-- src/collectors/docker.rs, `validate_id`: what an accepted id can hold.
use Prim.Native.String.{[], ◌∷◌}
use vps_monitor_webui.Prelude.{
  ◌≤◌, refl, ◌↔◌, String, Char, code, utf8_len, true, ◌≡◌, ◌≢◌, eq_iff, arith,
  is_ascii_alphanumeric, all_chars, Each,
}
use vps_monitor_webui.Collectors.Docker.{id_char, validate_id}

-- A letter, a digit, or one of `_`, `-` and `.`, by its code.
abbrev pub IsIdChar : Char → Type 0
IsIdChar c =
    (b'-' ≤ code c)
    × (code c ≤ b'z')
    × (code c ≢ b'/')
    × (code c ≢ b'`')
    × (code c ≢ b'^')
    × (code c ≢ 92)
    × (code c ≢ b'[')
    × (code c ≢ b']')
    × (code c ≢ b'@')
    × (code c ≢ b'?')
    × (code c ≢ b'>')
    × (code c ≢ b'=')
    × (code c ≢ b'<')
    × (code c ≢ b';')
    × (code c ≢ b':')

id_char_iff_to : (c : Char) → id_char c ≡ true → IsIdChar c
unfolding is_ascii_alphanumeric
id_char_iff_to c h = ground arith

id_char_iff_from : (c : Char) → IsIdChar c → id_char c ≡ true
unfolding is_ascii_alphanumeric
id_char_iff_from c h = ground arith

all_id_chars_to : (s : String) → all_chars id_char s ≡ true → Each IsIdChar s
unfolding all_chars
all_id_chars_to [] h = tt
all_id_chars_to (c ∷ s) h = (id_char_iff_to c (ground arith), all_id_chars_to s (ground arith))

all_id_chars_from : (s : String) → Each IsIdChar s → all_chars id_char s ≡ true
unfolding all_chars
all_id_chars_from [] h = refl
all_id_chars_from (c ∷ s) (h, hs) = ground (arith, id_char_iff_from c h, all_id_chars_from s hs)

-- `validate_id` accepts exactly the texts of 1 to 256 bytes that hold only ASCII letters, digits,
-- `_`, `-` and `.`: no slash, blank, quote or other character of a URL or a shell.
pub validate_id_iff :
    (id : String) → (validate_id id ≡ true) ↔ ((id ≢ "") × (utf8_len id ≤ 256) × Each IsIdChar id)
unfolding validate_id
validate_id_iff id = (
  λ h. (ground (arith, eq_iff id ""), ground arith, all_id_chars_to id (ground arith)),
  λ (given, short, chars). ground (arith, eq_iff id "", all_id_chars_from id chars),
)
