-- ===== src/Handlers/Router/Laws.antt =====
-- src/handlers/mod.rs: what axum documents of a router, as far as the table of the program uses it.
use Prim.Native.String.{◌∷◌}
use mathlib.Core.List.{[] as nil, ◌∷◌ as cons}
use mathlib.Core.Logic.{◌↔◌}
use vps_monitor_webui.Prelude.{
  String, Bool, true, false, not, ◌&&◌, ◌||◌, ◌==◌, ◌≡◌, refl, List, if◌then◌else◌,
}
use vps_monitor_webui.Prelude.In.{In}
use vps_monitor_webui.Handlers.Router.{
  Method, get, post, head, Endpoint, Route, segments, is_capture, to, Axum,
}
use vps_monitor_webui.Handlers.Router.Paths.{slash, join_slashes, IsSlashless}

-- A pattern with its captures in their places.
abbrev pub fill : List String → List String → List String
fill nil captures = nil
fill (cons p ps) nil = cons p (fill ps nil)
fill (cons p ps) (cons c cs) =
    if is_capture p then cons c (fill ps cs) else cons p (fill ps (cons c cs))

-- The path of a route for some captures, in a table that is nested under a name.
abbrev pub url : String → Route → List String → String
url name r captures = slash ∷ join_slashes (cons name (fill (segments r.path) captures))

-- Captures that are in order for a pattern: as many as it has, none empty, none with a slash.
pub data Fitting : List String → List String → Type 0 where
  done : Fitting nil nil
  fixed :
      {p : String} {ps cs : List String}
      → is_capture p ≡ false
      → Fitting ps cs
      → Fitting (cons p ps) cs
  filled :
      {p c : String} {ps cs : List String}
      → is_capture p ≡ true
      → (c == "") ≡ false
      → IsSlashless c
      → Fitting ps cs
      → Fitting (cons p ps) (cons c cs)

pub fill_fixed :
    (p : String) (ps cs : List String)
    → is_capture p ≡ false
    → fill (cons p ps) cs ≡ cons p (fill ps cs)
fill_fixed p ps nil h = refl
fill_fixed p ps (cons c cs) h = rw h refl

-- The methods of a request that a route takes: `get` takes HEAD as well.
pub data Takes : Method → Method → Type 0 where
  get_get : Takes get get
  get_head : Takes get head
  post_post : Takes post post

-- A route of a table that takes a request of a method, by its path with some captures.
pub record Serves (name : String) (rs : List Route) (m : Method) (path : String) (e : Endpoint)
    (captures : List String) : Type 0 where
  pub r : Route
  pub listed : In r rs
  pub its_handler : r.handler ≡ e
  pub its_method : Takes r.method m
  pub its_captures : Fitting (segments r.path) captures
  pub its_path : path ≡ url name r captures

-- Two literal segments that differ.
abbrev pub clash : String → String → Bool
clash q p = not (is_capture q) && (not (is_capture p) && not (q == p))

abbrev pub disjoint : List String → List String → Bool
disjoint nil nil = false
disjoint nil (cons p ps) = true
disjoint (cons q qs) nil = true
disjoint (cons q qs) (cons p ps) = clash q p || disjoint qs ps

abbrev pub apart_from : Route → List Route → Bool
apart_from q nil = true
apart_from q (cons r rs) = disjoint (segments q.path) (segments r.path) && apart_from q rs

abbrev pub apart : List Route → Bool
apart nil = true
apart (cons r rs) = apart_from r rs && apart rs

-- A table that is nested under a name, and no two of whose routes fit the same path, sends a request
-- to a handler exactly where it has a route for it. A capture fits one segment that is not empty.
pub record AxumLaws (axum : Axum) : Type 0 where
  pub nest_serves :
      (name : String) (rs : List Route) (m : Method) (s : String) (e : Endpoint) (cs : List String)
      → IsSlashless name
      → apart rs ≡ true
      → (axum.nest (slash ∷ name) rs m (slash ∷ s) ≡ to e cs) ↔ Serves name rs m (slash ∷ s) e cs
