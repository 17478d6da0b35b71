-- ===== src/Handlers/Router.antt =====
-- src/handlers/mod.rs: the router. A request is one that axum's own extractors accept: its body, its
-- query and its path parameter are there as they parsed them. The layers that compress and trace leave
-- the answer what it is.
pub mod Paths
pub mod Laws
pub mod Matcher
pub mod Exact
pub mod Api
pub mod Documented
pub mod Answers
pub mod Guarded
pub mod LoggedIn
pub mod Kept
mod Tests
use Prim.Native.String.{[], ◌∷◌}
use mathlib.Core.List.{[] as nil, ◌∷◌ as cons}
use vps_monitor_webui.Prelude.{
  ℕ, String, Char, code, Bool, true, false, not, ◌&&◌, ◌==◌, nat_eq, List, Option, none, some,
  if◌then◌else◌,
}

pub data Method : Type 0 where
  get post head : Method
  unrouted : (name : String) → Method

-- The thirteen handlers of the table.
pub data Endpoint : Type 0 where
  login logout me current stream processes pm2 docker services audit : Endpoint
  ws_pm2 ws_docker ws_journal : Endpoint

pub record Route : Type 0 where
  pub path : String
  pub method : Method
  pub handler : Endpoint

abbrev route : String → Method → Endpoint → Route
route path method handler = record { path = path; method = method; handler = handler }

abbrev pub api : List Route
api = cons (route "/auth/login" post login) (
    cons (route "/auth/logout" post logout) (
      cons (route "/auth/me" get me) (
        cons (route "/metrics" get current) (
          cons (route "/metrics/stream" get stream) (
            cons (route "/processes" get processes) (
              cons (route "/pm2" get pm2) (
                cons (route "/docker" get docker) (
                  cons (route "/services" get services) (
                    cons (route "/audit" get audit) (
                      cons (route "/logs/pm2/:name" get ws_pm2) (
                        cons (route "/logs/docker/:id" get ws_docker)
                          (cons (route "/logs/journal/:unit" get ws_journal) nil))))))))))))

abbrev pub onto_first : Char → List String → List String
onto_first c nil = cons (c ∷ []) nil
onto_first c (cons s rest) = cons (c ∷ s) rest

-- The parts between slashes.
unfoldable pub split_slashes : String → List String
split_slashes [] = cons [] nil
split_slashes (c ∷ s) =
    let rest = split_slashes s in if nat_eq (code c) b'/' then cons [] rest else onto_first c rest

-- The segments of a path, which begins with a slash.
unfoldable pub segments : String → List String
segments [] = nil
segments (c ∷ s) = split_slashes s

abbrev pub is_capture : String → Bool
is_capture [] = false
is_capture (c ∷ s) = nat_eq (code c) b':'

-- Where a request goes: to a handler, with the captures of its path, to the answer 405, or to the
-- fallback.
pub data Target : Type 0 where
  to : (handler : Endpoint) (captures : List String) → Target
  method_not_allowed fallback : Target

-- axum's router: where one goes that nests a table under a prefix, and has a fallback.
pub record Axum : Type 0 where
  pub nest : (prefix : String) → List Route → Method → (path : String) → Target

-- nest("/api", api)
unfoldable pub resolve : Axum → Method → String → Target
resolve axum m path = axum.nest "/api" api m path
