-- ===== src/Collectors/Systemd.antt =====
-- src/collectors/systemd.rs: units. The run of systemctl is a parameter: its status and its texts.
pub mod Units
pub mod Columns
use Prim.Native.String.{[], ◌∷◌, ◌++◌}
use mathlib.Core.List.{[] as nil, ◌∷◌ as cons}
use vps_monitor_webui.Prelude.{
  ℕ, zero, suc, String, Char, code, utf8_len, Bool, true, false, not, ◌&&◌, ◌||◌, ◌==◌, List,
  Option, none, some, leb, nat_eq, if◌then◌else◌, is_ascii_alphanumeric, is_whitespace, trim,
  retain,
}
use vps_monitor_webui.Result.{Result, ok, err, ◌>>=◌}
use vps_monitor_webui.Error.{Anyhow, msg}
use vps_monitor_webui.Regex.{Regex, class, seq, alt, literal, plus, is_match}

pub record SystemdService : Type 0 where
  pub unit : String
  pub load : String
  pub active : String
  pub sub : String
  pub description : String

-- [A-Za-z0-9@:._-]
abbrev pub unit_char : Char → Bool
unit_char c =
    is_ascii_alphanumeric c
    || nat_eq (code c) b'@'
    || nat_eq (code c) b':'
    || nat_eq (code c) b'.'
    || nat_eq (code c) b'_'
    || nat_eq (code c) b'-'

-- (service|socket|target|timer|mount|path)
abbrev unit_types : Regex
unit_types = alt (literal "service") (
    alt (literal "socket")
      (alt (literal "target") (alt (literal "timer") (alt (literal "mount") (literal "path")))))

abbrev pub unit_re : Regex
unit_re = seq (plus (class unit_char)) (seq (literal ".") unit_types)

unfoldable pub validate_unit : String → Bool
unfolding is_match is_ascii_alphanumeric
validate_unit name = not (name == "") && leb (utf8_len name) 256 && is_match unit_re name

-- What a command gave: whether it succeeded, its exit status and its two outputs as text.
pub record Output : Type 0 where
  pub success : Bool
  pub status : String
  pub stdout : String
  pub stderr : String

abbrev push_front : Char → List String → List String
push_front c nil = cons (c ∷ []) nil
push_front c (cons l ls) = cons (c ∷ l) ls

-- str::lines, but for the `\r` at the end of a line, which the `trim` of the caller takes away.
unfoldable pub lines : String → List String
lines [] = nil
lines (c ∷ s) = let more = lines s in if nat_eq (code c) 10 then cons [] more else push_front c more

-- splitn(n, char::is_whitespace): at most `n` pieces, the last one with all that is left.
unfoldable pub splitn : ℕ → String → List String
splitn zero s = nil
splitn (suc n) [] = cons [] nil
splitn (suc zero) (c ∷ s) = cons (c ∷ s) nil
splitn (suc (suc n)) (c ∷ s) =
    let next = cons [] (splitn (suc n) s) in
    let longer = push_front c (splitn (suc (suc n)) s) in if is_whitespace c then next else longer

-- parts.next(): the first piece and the others.
abbrev first_or : String → List String → String
first_or s nil = s
first_or s (cons p ps) = p

abbrev others : List String → List String
others nil = nil
others (cons p ps) = ps

abbrev service_of : List String → Option SystemdService
service_of nil = none
service_of (cons unit p1) = some (record {
  unit = unit;
  load = first_or "" p1;
  active = first_or "" (others p1);
  sub = first_or "" (others (others p1));
  description = first_or "" (others (others (others p1)));
})

-- A line that is trimmed and not empty.
unfoldable pub parse_line : String → Option SystemdService
unfolding splitn is_whitespace retain
parse_line line = service_of (retain (λ s. not (s == "")) (splitn 5 line))

abbrev push_row : Option SystemdService → List SystemdService → List SystemdService
push_row none rows = rows
push_row (some row) rows = cons row rows

unfoldable pub parse_rows : List String → List SystemdService
unfolding parse_line trim
parse_rows nil = nil
parse_rows (cons l ls) =
    let line = trim l in
    let rest = parse_rows ls in if line == "" then rest else push_row (parse_line line) rest

-- `spawned` is the result of the spawn.
unfoldable pub list : Result String Output → Result Anyhow (List SystemdService)
unfolding parse_rows lines
list (err e) = err (msg ("run systemctl: " ++ e))
list (ok out) =
    if not out.success
    then err (msg ("systemctl failed: " ++ out.stderr))
    else ok (parse_rows (lines out.stdout))
