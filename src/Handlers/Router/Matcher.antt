-- ===== src/Handlers/Router/Matcher.antt =====
-- A router that meets what axum documents, by which concrete requests are run.
use Prim.Native.String.{[], ◌∷◌}
use mathlib.Core.List.{[] as nil, ◌∷◌ as cons}
use vps_monitor_webui.Prelude.{
  String, Bool, true, false, not, ◌==◌, eq_iff, ◌≡◌, refl, sym, ap, subst, ◌∙◌, List, Option, none,
  some, arith, if◌then◌else◌, Bool-cases, Option-cases, inl, inr, All,
}
use vps_monitor_webui.Result.{unwrap_or}
use vps_monitor_webui.Prelude.In.{In, head, later}
use vps_monitor_webui.Handlers.Router
use vps_monitor_webui.Handlers.Router.{
  Method, get, post, unrouted, Endpoint, Route, split_slashes, segments, is_capture, to,
  method_not_allowed, fallback, Target, Axum,
}
use vps_monitor_webui.Handlers.Router.Paths.{
  slash, join_slashes, IsSlashless, join-split, split-IsSlashless,
}
use vps_monitor_webui.Handlers.Router.Laws.{
  fill, fill_fixed, Fitting, done, fixed, filled, Takes, get_get, get_head, post_post, Serves,
}

-- One segment of a route against one of a path: a capture takes any but the empty one.
abbrev pub fits : String → String → Bool
fits p s = if is_capture p then not (s == "") else p == s

abbrev pub captured : String → String → List String → List String
captured p s rest = if is_capture p then cons s rest else rest

-- The captures of a path that the pattern fits.
unfoldable pub match_path : List String → List String → Option (List String)
match_path nil nil = some nil
match_path (cons p ps) (cons s ss) = elim (match_path ps ss) [
  | none ↦ none
  | some rest ↦ if fits p s then some (captured p s rest) else none
]
match_path _ _ = none

unfoldable pub find_route : List Route → List String → Option (Route × List String)
find_route nil segs = none
find_route (cons r rs) segs = elim (match_path (segments r.path) segs) [
  | some captures ↦ some (r, captures)
  | none ↦ find_route rs segs
]

-- `get` takes HEAD as well.
abbrev pub accepts_method : Method → Method → Bool
accepts_method get get = true
accepts_method get Router.head = true
accepts_method post post = true
accepts_method _ _ = false

abbrev pub of_route : Method → Option (Route × List String) → Target
of_route m none = fallback
of_route m (some (r, captures)) =
    if accepts_method r.method m then to r.handler captures else method_not_allowed

abbrev pub nested : String → List Route → Method → List String → Target
nested name rs m nil = fallback
nested name rs m (cons s rest) = if s == name then of_route m (find_route rs rest) else fallback

abbrev without_slash : String → String
without_slash [] = []
without_slash (c ∷ s) = s

abbrev pub matcher : Axum
matcher = record { nest = λ prefix rs m path. nested (without_slash prefix) rs m (segments path) }

accepts_method-Takes : (q m : Method) → accepts_method q m ≡ true → Takes q m
accepts_method-Takes get get h = get_get
accepts_method-Takes get Router.head h = get_head
accepts_method-Takes get post h = absurd (ground (arith, h))
accepts_method-Takes get (unrouted n) h = absurd (ground (arith, h))
accepts_method-Takes post post h = post_post
accepts_method-Takes post get h = absurd (ground (arith, h))
accepts_method-Takes post Router.head h = absurd (ground (arith, h))
accepts_method-Takes post (unrouted n) h = absurd (ground (arith, h))
accepts_method-Takes Router.head m h = absurd (ground (arith, h))
accepts_method-Takes (unrouted n) m h = absurd (ground (arith, h))

pub Takes-accepts_method : {q m : Method} → Takes q m → accepts_method q m ≡ true
Takes-accepts_method get_get = refl
Takes-accepts_method get_head = refl
Takes-accepts_method post_post = refl

match_path-fill :
    (ps ss cs : List String)
    → All IsSlashless ss
    → match_path ps ss ≡ some cs
    → (ss ≡ fill ps cs) × Fitting ps cs
unfolding match_path
match_path-fill nil nil cs k h =
    let none_left : nil ≡ cs = ground arith in (refl, subst (Fitting nil) none_left done)
match_path-fill nil (cons s ss) cs k h = absurd (ground arith)
match_path-fill (cons p ps) nil cs k h = absurd (ground arith)
match_path-fill (cons p ps) (cons s ss) cs k h = elim (Option-cases (match_path ps ss)) [
  | inl e ↦ absurd (ground (arith, rw e at h))
  | inr (rest, e) ↦
      let ih = match_path-fill ps ss rest k.1 e in
      elim (Bool-cases (is_capture p)) [
        | inl c ↦
            let same : cons s rest ≡ cs = ground (arith, rw (e, c) at h) in
            let given : (s == "") ≡ false = ground (arith, rw (e, c) at h) in
            subst (λ x. (cons s ss ≡ fill (cons p ps) x) × Fitting (cons p ps) x) same
              (rw c (ap (cons s) ih.0), filled c given k.0 ih.1)
        | inr c ↦
            let same : rest ≡ cs = ground (arith, rw (e, c) at h) in
            let literal : s ≡ p = ground (arith, rw (e, c) at h, eq_iff p s) in
            (
              rw literal (ap (cons p) (ih.0 ∙ ap (fill ps) same) ∙ sym (fill_fixed p ps cs c)),
              fixed c (subst (Fitting ps) same ih.1),
            )
      ]
]

find_route-In :
    (rs : List Route) (segs : List String) (r : Route) (cs : List String)
    → find_route rs segs ≡ some (r, cs)
    → In r rs × (match_path (segments r.path) segs ≡ some cs)
unfolding find_route
find_route-In nil segs r cs h = absurd (ground arith)
find_route-In (cons q rs) segs r cs h = elim (Option-cases (match_path (segments q.path) segs)) [
  | inr (found, e) ↦
      let same = ap (λ o. unwrap_or o (q, found)) (rw (find_route, e) at h) in
      subst (λ x. In x.0 (cons q rs) × (match_path (segments x.0.path) segs ≡ some x.1)) same
        (head, e)
  | inl e ↦
      let rest = find_route-In rs segs r cs (rw (find_route, e) at h) in (later rest.0, rest.1)
]

of_route-Serves :
    (name : String) (rs : List Route) (m : Method) (segs : List String)
    (o : Option (Route × List String)) (e : Endpoint) (cs : List String)
    → All IsSlashless segs
    → find_route rs segs ≡ o
    → of_route m o ≡ to e cs
    → Serves name rs m (slash ∷ join_slashes (cons name segs)) e cs
of_route-Serves name rs m segs none e cs k f h = absurd (ground arith)
of_route-Serves name rs m segs (some (r, captures)) e cs k f h =
    elim (Bool-cases (accepts_method r.method m)) [
      | inr no_method ↦ absurd (ground (arith, rw no_method at h))
      | inl fine ↦
          let found = find_route-In rs segs r captures f in
          let same : captures ≡ cs = ground (arith, rw fine at h) in
          let filled_in = match_path-fill (segments r.path) segs captures k found.1 in
          record {
            r = r;
            listed = found.0;
            its_handler = ground (arith, rw fine at h);
            its_method = accepts_method-Takes r.method m fine;
            its_captures = subst (Fitting (segments r.path)) same filled_in.1;
            its_path =
                ap (λ l. slash ∷ join_slashes (cons name l))
                  (filled_in.0 ∙ ap (fill (segments r.path)) same);
          }
    ]

nested-Serves :
    (name : String) (rs : List Route) (m : Method) (segs : List String) (e : Endpoint)
    (cs : List String)
    → All IsSlashless segs
    → nested name rs m segs ≡ to e cs
    → Serves name rs m (slash ∷ join_slashes segs) e cs
nested-Serves name rs m nil e cs k h = absurd (ground arith)
nested-Serves name rs m (cons s rest) e cs k h = elim (Bool-cases (s == name)) [
  | inr other ↦ absurd (ground (arith, rw other at h))
  | inl api_path ↦
      subst (λ x. Serves name rs m (slash ∷ join_slashes (cons x rest)) e cs)
        (sym ((eq_iff s name).0 api_path))
        (of_route-Serves name rs m rest (find_route rs rest) e cs k.1 refl (rw api_path at h))
]

-- A path that begins with a slash is served by a handler only as the path of one of its routes.
pub matcher-Serves :
    (name : String) (rs : List Route) (m : Method) (s : String) (e : Endpoint) (cs : List String)
    → matcher.nest (slash ∷ name) rs m (slash ∷ s) ≡ to e cs
    → Serves name rs m (slash ∷ s) e cs
unfolding segments
matcher-Serves name rs m s e cs h =
    subst (λ x. Serves name rs m (slash ∷ x) e cs) (join-split s)
      (nested-Serves name rs m (split_slashes s) e cs (split-IsSlashless s) h)
