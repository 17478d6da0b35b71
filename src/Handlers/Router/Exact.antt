-- ===== src/Handlers/Router/Exact.antt =====
-- The router of the runs finds the only route that fits, where no two do.
use Prim.Native.String.{◌∷◌}
use mathlib.Core.List.{[] as nil, ◌∷◌ as cons}
use vps_monitor_webui.Prelude.{
  String, true, eq_refl, ◌≡◌, refl, ap, ◌∙◌, List, none, some, arith, Bool-cases, inl, inr, All,
}
use vps_monitor_webui.Prelude.In.{In, head, later}
use vps_monitor_webui.Handlers.Router.{Method, Endpoint, Route, segments, to}
use vps_monitor_webui.Handlers.Router.Paths.{slash, IsSlashless, split-join, segments-IsSlashless}
use vps_monitor_webui.Handlers.Router.Laws.{
  fill, fill_fixed, Fitting, done, fixed, filled, Serves, disjoint, apart_from, apart, AxumLaws,
}
use vps_monitor_webui.Handlers.Router.Matcher.{
  match_path, find_route, of_route, nested, matcher, matcher-Serves, Takes-accepts_method,
}

match_path-Fitting : (ps cs : List String) → Fitting ps cs → match_path ps (fill ps cs) ≡ some cs
unfolding match_path
match_path-Fitting _ _ done = refl
match_path-Fitting _ _ (fixed {p} {ps} {cs} h f) =
    rw (fill_fixed p ps cs h) (ground (arith, h, match_path-Fitting ps cs f, eq_refl p))
match_path-Fitting _ _ (filled {p} {c} {ps} {cs} h given k f) =
    ground (arith, h, given, match_path-Fitting ps cs f)

fill-IsSlashless :
    (ps cs : List String) → Fitting ps cs → All IsSlashless ps → All IsSlashless (fill ps cs)
fill-IsSlashless _ _ done k = tt
fill-IsSlashless _ _ (fixed {p} {ps} {cs} h f) k =
    rw (fill_fixed p ps cs h) (k.0, fill-IsSlashless ps cs f k.1)
fill-IsSlashless _ _ (filled {p} {c} {ps} {cs} h given slashless f) k =
    rw h (slashless, fill-IsSlashless ps cs f k.1)

match_path-disjoint :
    (qs ps cs : List String)
    → Fitting ps cs
    → disjoint qs ps ≡ true
    → match_path qs (fill ps cs) ≡ none
unfolding match_path
match_path-disjoint nil _ _ done h = absurd (ground arith)
match_path-disjoint (cons q qs) _ _ done h = refl
match_path-disjoint nil _ _ (fixed {p} {ps} {cs} c f) h = rw (fill_fixed p ps cs c) refl
match_path-disjoint nil _ _ (filled {p} c given k f) h = rw c refl
match_path-disjoint (cons q qs) _ _ (fixed {p} {ps} {cs} c f) h =
    rw (fill_fixed p ps cs c) (elim (Bool-cases (disjoint qs ps)) [
      | inl e ↦ rw (match_path-disjoint qs ps cs f e) refl
      | inr e ↦ ground (arith, h, e, c)
    ])
match_path-disjoint (cons q qs) _ _ (filled {p} {c} {ps} {cs} captures given k f) h =
    rw captures (rw (match_path-disjoint qs ps cs f (ground (arith, h, captures))) refl)

apart_from-In :
    (q r : Route) (rs : List Route)
    → In r rs
    → apart_from q rs ≡ true
    → disjoint (segments q.path) (segments r.path) ≡ true
apart_from-In q r _ head h = ground arith
apart_from-In q r _ (later {l = rs} i) h = apart_from-In q r rs i (ground arith)

find_route-Fitting :
    (r : Route) (cs : List String) (rs : List Route)
    → In r rs
    → apart rs ≡ true
    → Fitting (segments r.path) cs
    → find_route rs (fill (segments r.path) cs) ≡ some (r, cs)
unfolding find_route
find_route-Fitting r cs _ head h f = rw (find_route, match_path-Fitting (segments r.path) cs f) refl
find_route-Fitting r cs _ (later {b = q} {l = rs} i) h f =
    let before = apart_from-In q r rs i (ground arith) in
    rw (find_route, match_path-disjoint (segments q.path) (segments r.path) cs f before)
      (find_route-Fitting r cs rs i (ground arith) f)

matcher_complete :
    (name : String) (rs : List Route) (m : Method) (path : String) (e : Endpoint) (cs : List String)
    → IsSlashless name
    → apart rs ≡ true
    → Serves name rs m path e cs
    → matcher.nest (slash ∷ name) rs m path ≡ to e cs
unfolding segments
matcher_complete name rs m path e cs plain no_two s =
    let r = s.r in
    let l = fill (segments r.path) cs in
    let ok_l = fill-IsSlashless (segments r.path) cs s.its_captures (segments-IsSlashless r.path) in
    ap (matcher.nest (slash ∷ name) rs m) s.its_path
    ∙ ap (nested name rs m) (split-join name l (plain, ok_l))
    ∙ rw (eq_refl name) (
        ap (of_route m) (find_route-Fitting r cs rs s.listed no_two s.its_captures)
        ∙ rw (Takes-accepts_method s.its_method, s.its_handler) refl)

-- The router of the runs meets what axum documents.
pub matcher-AxumLaws : AxumLaws matcher
matcher-AxumLaws = record {
  nest_serves = λ name rs m s e cs plain no_two.
      (matcher-Serves name rs m s e cs, matcher_complete name rs m (slash ∷ s) e cs plain no_two);
}
