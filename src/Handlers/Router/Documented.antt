-- ===== src/Handlers/Router/Documented.antt =====
-- src/handlers/mod.rs: the table of routes against the documented API (README.md, "API").
use Prim.Native.String.{◌∷◌}
use mathlib.Core.List.{[] as nil, ◌∷◌ as cons}
use mathlib.Core.Logic.{◌↔◌}
use vps_monitor_webui.Prelude.{
  String, true, false, ◌==◌, ◌≡◌, refl, sym, ap, ◌∙◌, subst, List, ◌⊎◌, inl, inr, arith, All,
}
use vps_monitor_webui.Prelude.In.{In, head, later}
use vps_monitor_webui.Handlers.Router
use vps_monitor_webui.Handlers.Router.{
  Method, get, post, Endpoint, Route, route, api, segments, split_slashes, is_capture, to, Axum,
  resolve,
}
use vps_monitor_webui.Handlers.Router.Paths.{slash, join_slashes, IsSlashless}
use vps_monitor_webui.Handlers.Router.Api.{
  Documented, for_login, for_logout, for_me, for_current, for_stream, for_processes, for_pm2,
  for_docker, for_services, for_audit, for_pm2_log, for_docker_log, for_journal_log,
}
use vps_monitor_webui.Handlers.Router.Laws.{
  fill, url, Fitting, done, fixed, filled, Takes, Serves, apart, AxumLaws,
}

-- What captures that are in order for a pattern look like.
abbrev Shape : List String → List String → Type 0
Shape nil cs = nil ≡ cs
Shape (cons p ps) cs =
    ((is_capture p ≡ false) × Fitting ps cs)
    ⊎ ((is_capture p ≡ true)
        × ((c : String) × (rest : List String) × (cons c rest ≡ cs)
            × ((c == "") ≡ false)
            × IsSlashless c
            × Fitting ps rest))

shape : {ps cs : List String} → Fitting ps cs → Shape ps cs
shape done = refl
shape (fixed h f) = inl (h, f)
shape (filled {c} {cs} h given plain f) = inr (h, (c, cs, refl, given, plain, f))

past :
    {p : String} {ps cs : List String}
    → is_capture p ≡ false
    → Fitting (cons p ps) cs
    → Fitting ps cs
past h f = elim (shape f) [ inl (k, g) ↦ g | inr (k, g) ↦ absurd (ground (arith, h, k)) ]

-- A route of the table serves only documented requests.
abbrev Serving : Route → Type 0
Serving r =
    (m : Method) (cs : List String)
    → Takes r.method m
    → Fitting (segments r.path) cs
    → Documented m (url "api" r cs) r.handler cs

module _ (method : Method) (handler : Endpoint) where
  one_segment :
      (p a : String)
      → segments p ≡ cons a nil
      → is_capture a ≡ false
      → ((m : Method)
          → Takes method m
          → Documented m (slash ∷ join_slashes (cons "api" (cons a nil))) handler nil)
      → Serving (route p method handler)
  one_segment p a split plain row m cs takes f =
      let none_left = shape (past plain (subst (λ ps. Fitting ps cs) split f)) in
      subst (λ x. Documented m (url "api" (route p method handler) x) handler x) none_left
        (subst (λ ps. Documented m (slash ∷ join_slashes (cons "api" (fill ps nil))) handler nil)
          (sym split) (row m takes))

  two_segments :
      (p a b : String)
      → segments p ≡ cons a (cons b nil)
      → is_capture a ≡ false
      → is_capture b ≡ false
      → ((m : Method)
          → Takes method m
          → Documented m (slash ∷ join_slashes (cons "api" (cons a (cons b nil)))) handler nil)
      → Serving (route p method handler)
  two_segments p a b split plain_a plain_b row m cs takes f =
      let none_left = shape (past plain_b (past plain_a (subst (λ ps. Fitting ps cs) split f))) in
      subst (λ x. Documented m (url "api" (route p method handler) x) handler x) none_left
        (subst (λ ps. Documented m (slash ∷ join_slashes (cons "api" (fill ps nil))) handler nil)
          (sym split) (row m takes))

abbrev log_path : String → String → String
log_path source name = slash ∷ join_slashes (cons "api" (cons "logs" (cons source (cons name nil))))

log_route :
    (p source capture : String) (handler : Endpoint)
    → segments p ≡ cons "logs" (cons source (cons capture nil))
    → is_capture source ≡ false
    → is_capture capture ≡ true
    → ((m : Method) (name : String)
        → Takes get m
        → (name == "") ≡ false
        → IsSlashless name
        → Documented m (log_path source name) handler (cons name nil))
    → Serving (route p get handler)
log_route p source capture handler split plain captures row m cs takes f =
    elim (shape (past plain (past refl (subst (λ ps. Fitting ps cs) split f)))) [
      | inl (k, g) ↦ absurd (ground (arith, captures, k))
      | inr (k, (c, rest, same, given, slashless, g)) ↦
          let only : cons c nil ≡ cs = ap (cons c) (shape g) ∙ same in
          subst (λ x. Documented m (url "api" (route p get handler) x) handler x) only
            (subst
              (λ ps.
                Documented m (slash ∷ join_slashes (cons "api" (fill ps (cons c nil)))) handler
                  (cons c nil))
              (sym split) (rw (plain, captures) (row m c takes given slashless)))
    ]

api-Serving : All Serving api
unfolding segments split_slashes
api-Serving = (
  two_segments post Router.login "/auth/login" "auth" "login" refl refl refl for_login,
  (
    two_segments post Router.logout "/auth/logout" "auth" "logout" refl refl refl for_logout,
    (
      two_segments get Router.me "/auth/me" "auth" "me" refl refl refl for_me,
      (
        one_segment get Router.current "/metrics" "metrics" refl refl for_current,
        (
          two_segments get Router.stream "/metrics/stream" "metrics" "stream" refl refl refl
              for_stream,
          (
            one_segment get Router.processes "/processes" "processes" refl refl for_processes,
            (
              one_segment get Router.pm2 "/pm2" "pm2" refl refl for_pm2,
              (
                one_segment get Router.docker "/docker" "docker" refl refl for_docker,
                (
                  one_segment get Router.services "/services" "services" refl refl for_services,
                  (
                    one_segment get Router.audit "/audit" "audit" refl refl for_audit,
                    (
                      log_route "/logs/pm2/:name" "pm2" ":name" Router.ws_pm2 refl refl refl
                          for_pm2_log,
                      (
                        log_route "/logs/docker/:id" "docker" ":id" Router.ws_docker refl refl refl
                            for_docker_log,
                        (
                          log_route "/logs/journal/:unit" "journal" ":unit" Router.ws_journal refl
                              refl refl for_journal_log,
                          tt,
                        ),
                      ),
                    ),
                  ),
                ),
              ),
            ),
          ),
        ),
      ),
    ),
  ),
)

All-at : (P : Route → Type 0) (r : Route) (rs : List Route) → All P rs → In r rs → P r
All-at P r _ h head = h.0
All-at P r _ h (later {l} i) = All-at P r l h.1 i

Serves-Documented :
    (m : Method) (path : String) (e : Endpoint) (cs : List String)
    → Serves "api" api m path e cs
    → Documented m path e cs
Serves-Documented m path e cs s =
    subst (λ x. Documented m x e cs) (sym s.its_path)
      (subst (λ x. Documented m (url "api" s.r cs) x cs) s.its_handler
        (All-at Serving s.r api api-Serving s.listed m cs s.its_method s.its_captures))

module _ (m : Method) (e : Endpoint) where
  listed_at :
      (method : Method) (p : String) (cs : List String)
      → In (route p method e) api
      → Takes method m
      → Fitting (segments p) cs
      → Serves "api" api m (url "api" (route p method e) cs) e cs
  listed_at method p cs i takes f = record {
    r = route p method e;
    listed = i;
    its_handler = refl;
    its_method = takes;
    its_captures = f;
    its_path = refl;
  }

Documented-Serves :
    (m : Method) (path : String) (e : Endpoint) (cs : List String)
    → Documented m path e cs
    → Serves "api" api m path e cs
unfolding segments split_slashes
Documented-Serves _ _ _ _ (for_login m t) =
    listed_at m Router.login post "/auth/login" nil head t (fixed refl (fixed refl done))
Documented-Serves _ _ _ _ (for_logout m t) =
    listed_at m Router.logout post "/auth/logout" nil (later head) t (fixed refl (fixed refl done))
Documented-Serves _ _ _ _ (for_me m t) =
    listed_at m Router.me get "/auth/me" nil (later (later head)) t (fixed refl (fixed refl done))
Documented-Serves _ _ _ _ (for_current m t) =
    listed_at m Router.current get "/metrics" nil (later (later (later head))) t (fixed refl done)
Documented-Serves _ _ _ _ (for_stream m t) =
    listed_at m Router.stream get "/metrics/stream" nil (later (later (later (later head)))) t
      (fixed refl (fixed refl done))
Documented-Serves _ _ _ _ (for_processes m t) =
    listed_at m Router.processes get "/processes" nil (later (later (later (later (later head))))) t
      (fixed refl done)
Documented-Serves _ _ _ _ (for_pm2 m t) =
    listed_at m Router.pm2 get "/pm2" nil (later (later (later (later (later (later head)))))) t
      (fixed refl done)
Documented-Serves _ _ _ _ (for_docker m t) =
    listed_at m Router.docker get "/docker" nil
      (later (later (later (later (later (later (later head))))))) t (fixed refl done)
Documented-Serves _ _ _ _ (for_services m t) =
    listed_at m Router.services get "/services" nil
      (later (later (later (later (later (later (later (later head)))))))) t (fixed refl done)
Documented-Serves _ _ _ _ (for_audit m t) =
    listed_at m Router.audit get "/audit" nil
      (later (later (later (later (later (later (later (later (later head))))))))) t
      (fixed refl done)
Documented-Serves _ _ _ _ (for_pm2_log m x t given plain) =
    listed_at m Router.ws_pm2 get "/logs/pm2/:name" (cons x nil)
      (later (later (later (later (later (later (later (later (later (later head)))))))))) t
      (fixed refl (fixed refl (filled refl given plain done)))
Documented-Serves _ _ _ _ (for_docker_log m x t given plain) =
    listed_at m Router.ws_docker get "/logs/docker/:id" (cons x nil)
      (later (later (later (later (later (later (later (later (later (later (later head))))))))))) t
      (fixed refl (fixed refl (filled refl given plain done)))
Documented-Serves _ _ _ _ (for_journal_log m x t given plain) =
    listed_at m Router.ws_journal get "/logs/journal/:unit" (cons x nil)
      (later (
        later (later (later (later (later (later (later (later (later (later (later head))))))))))))
      t (fixed refl (fixed refl (filled refl given plain done)))

apart-api : apart api ≡ true
unfolding segments split_slashes
apart-api = refl

module _ (axum : Axum) (laws : AxumLaws axum) where
  -- By what axum documents of a nested table no two of whose routes fit the same path: a request to a path
  -- that begins with a slash is sent to a handler with some captures exactly where the documented API has
  -- that method and that path for this handler, with these captures for its parameters.
  pub resolve_iff :
      (m : Method) (s : String) (e : Endpoint) (cs : List String)
      → (resolve axum m (slash ∷ s) ≡ to e cs) ↔ Documented m (slash ∷ s) e cs
  unfolding resolve
  resolve_iff m s e cs =
      let served = laws.nest_serves "api" api m s e cs (refl, (refl, (refl, tt))) apart-api in
      (
        λ h. Serves-Documented m (slash ∷ s) e cs (served.0 h),
        λ d. served.1 (Documented-Serves m (slash ∷ s) e cs d),
      )
