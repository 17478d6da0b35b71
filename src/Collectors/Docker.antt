-- ===== src/Collectors/Docker.antt =====
-- src/collectors/docker.rs: containers. bollard, which talks to the daemon, is a parameter.
pub mod Ids
use Prim.Native.String.{[], ◌∷◌, ◌++◌}
use mathlib.Core.List.{[] as nil, ◌∷◌ as cons}
use mathlib.Core.Option
use vps_monitor_webui.Prelude.{
  ℕ, String, Char, code, utf8_len, Bool, true, false, ◌||◌, ◌==◌, List, map, Option, none, some,
  ltb, nat_eq, if◌then◌else◌, is_ascii_alphanumeric, all_chars,
}
use vps_monitor_webui.Prelude.Int.{ℤ, pos}
use vps_monitor_webui.Result.{Result, ok, err, unwrap_or, ◌>>=◌}
use vps_monitor_webui.Error.{Anyhow}

pub record DockerContainer : Type 0 where
  pub id : String
  pub names : List String
  pub image : String
  pub state : String
  pub status : String
  pub created : ℤ
  pub ports : List String

-- bollard's Port and ContainerSummary. `typ` is the type in lower case, as `{:?}` and
-- `to_lowercase` make it; the ports are shown in decimal by `show`.
pub record Port : Type 0 where
  pub public_port : Option ℕ
  pub private_port : ℕ
  pub typ : Option String

pub record ContainerSummary : Type 0 where
  pub id : Option String
  pub names : Option (List String)
  pub image : Option String
  pub state : Option String
  pub status : Option String
  pub created : Option ℤ
  pub ports : Option (List Port)

-- name.trim_start_matches('/')
unfoldable pub trim_slashes : String → String
trim_slashes [] = []
trim_slashes (c ∷ s) = if nat_eq (code c) b'/' then trim_slashes s else c ∷ s

module _ (show : ℕ → String) where
  abbrev pub port_text : Port → Option String
  port_text p = elim p.public_port [
    | none ↦ none
    | some n ↦ some (show n ++ "->" ++ show p.private_port ++ "/" ++ unwrap_or p.typ "")
  ]

  abbrev keep_some : Option String → List String → List String
  keep_some none rest = rest
  keep_some (some t) rest = cons t rest

  -- The filter_map over the ports: those that are not published are left out.
  unfoldable pub port_texts : List Port → List String
  port_texts nil = nil
  port_texts (cons p ps) = keep_some (port_text p) (port_texts ps)

  unfoldable pub to_container : ContainerSummary → DockerContainer
  unfolding port_texts trim_slashes
  to_container c = record {
    id = unwrap_or c.id "";
    names = map trim_slashes (unwrap_or c.names nil);
    image = unwrap_or c.image "";
    state = unwrap_or c.state "";
    status = unwrap_or c.status "";
    created = unwrap_or c.created (pos 0);
    ports = port_texts (unwrap_or c.ports nil);
  }

  -- `list_containers` is bollard's call with the option `all: true`.
  unfoldable pub list : Result Anyhow (List ContainerSummary) → Result Anyhow (List DockerContainer)
  unfolding to_container
  list list_containers = list_containers >>= λ cs. ok (map to_container cs)

-- The parts of bollard's ContainerInspectResponse that are read; a status is the text of its Debug.
pub record Inspected : Type 0 where
  pub name : Option String
  pub state : Option (Option String)

abbrev insert_some : String → Option String → List (String × String) → List (String × String)
insert_some key none m = m
insert_some key (some v) m = cons (key, v) m

abbrev flat : Option (Option String) → Option String
flat none = none
flat (some status) = status

-- `inspect_container` is bollard's call; the map is its entries.
unfoldable pub inspect_short : Result Anyhow Inspected → Result Anyhow (List (String × String))
inspect_short inspect_container = inspect_container >>= λ info. ok (
    insert_some "name" (Option.map trim_slashes info.name)
      (insert_some "status" (flat info.state) nil))

abbrev id_char : Char → Bool
id_char c =
    is_ascii_alphanumeric c || nat_eq (code c) b'_' || nat_eq (code c) b'-' || nat_eq (code c) b'.'

unfoldable pub validate_id : String → Bool
unfolding all_chars is_ascii_alphanumeric
validate_id id = if id == "" || ltb 256 (utf8_len id) then false else all_chars id_char id
