-- ===== src/Handlers/Router/Guarded.antt =====
-- src/handlers/mod.rs: what a route behind the extractor `AuthUser` promises.
use vps_monitor_webui.Prelude.{String, List, ◌≡◌, ◌≢◌, ◌⊎◌, inl, inr, refl, subst, arith, none}
use vps_monitor_webui.Result.{ok, err}
use vps_monitor_webui.Error.{AppError, unauthorized}
use vps_monitor_webui.Exec.{Exec, ◌>>=◌}
use vps_monitor_webui.Exec.Inversion.{bind_inv, bind_stops}
use vps_monitor_webui.Config.{Config}
use vps_monitor_webui.Db.{Env, World}
use vps_monitor_webui.Auth.Session.{cookie_name}
use vps_monitor_webui.Auth.Middleware.{Parts, AuthUser, from_request_parts}
use vps_monitor_webui.Auth.Middleware.Sound.{LetIn, guarded_ok, guarded_no_cookie}
use vps_monitor_webui.Collectors.System.{Float}
use vps_monitor_webui.Handlers.Audit.{audit_log}
use vps_monitor_webui.Handlers.Listings.{
  current, stream, list_processes, list_services, list_apps, list_containers,
}
use vps_monitor_webui.Handlers.Logs.{ws_pm2, ws_docker, ws_journal}
use vps_monitor_webui.Handlers.Router
use vps_monitor_webui.Handlers.Auth.{Cookie, LoginResponse}
use vps_monitor_webui.Handlers.StaticFiles.{StaticResponse, handler}
use vps_monitor_webui.Handlers.Router.{Endpoint, Target, to, method_not_allowed, fallback, resolve}
use vps_monitor_webui.Handlers.Router.Answers.{
  Site, Request, Reply, logged_in, page, no_method, run, answer, dispatch,
}

module _ (env : Env) (cfg : Config) (parts : Parts) where
  -- A request that was let in, and the state that the extractor left.
  pub record Guest (w : World) : Type 0 where
    pub user : AuthUser
    pub after : World
    pub let_in : LetIn env cfg parts w user after

  -- A block that returns only for a request with a session, and does nothing for one without cookie.
  pub record Guarded {A : Type 0} (m : Exec World AppError A) : Type 0 where
    pub lets_in : (w v : World) (a : A) → m w ≡ (ok a, v) → Guest w
    pub turns_away : parts.cookie cookie_name ≡ none → (w : World) → m w ≡ (err unauthorized, w)

  Guarded-extractor :
      {A : Type 0} (f : AuthUser → Exec World AppError A)
      → Guarded (from_request_parts env cfg parts >>= f)
  Guarded-extractor f = record {
    lets_in = λ w v a h.
        let g = guarded_ok env cfg parts f w v a h in
        record { user = g.0; after = g.1; let_in = g.2 };
    turns_away = λ without w. guarded_no_cookie env cfg parts f w without;
  }

  Guarded-bind :
      {A B : Type 0} (m : Exec World AppError A) (f : A → Exec World AppError B)
      → Guarded m
      → Guarded (m >>= f)
  Guarded-bind m f g = record {
    lets_in = λ w v b h. let i = bind_inv m f w b v h in g.lets_in w i.middle i.value i.first;
    turns_away = λ without w. bind_stops m f w w unauthorized (g.turns_away without w);
  }

ruleset guard_rules = (Guarded-extractor, Guarded-bind)

module _ (float : Float) (site : Site float) (req : Request) where
  run-Guarded :
      (e : Endpoint) (captures : List String)
      → e ≢ Router.login
      → Guarded site.env site.cfg req.parts (run float site req e captures)
  unfolding run current stream list_processes list_services list_apps list_containers audit_log
      ws_pm2 ws_docker ws_journal
  run-Guarded Router.login captures ne = absurd (ne refl)
  run-Guarded Router.logout captures ne = search guard_rules
  run-Guarded Router.me captures ne = search guard_rules
  run-Guarded Router.current captures ne = search guard_rules
  run-Guarded Router.stream captures ne = search guard_rules
  run-Guarded Router.processes captures ne = search guard_rules
  run-Guarded Router.pm2 captures ne = search guard_rules
  run-Guarded Router.docker captures ne = search guard_rules
  run-Guarded Router.services captures ne = search guard_rules
  run-Guarded Router.audit captures ne = search guard_rules
  run-Guarded Router.ws_pm2 captures ne = search guard_rules
  run-Guarded Router.ws_docker captures ne = search guard_rules
  run-Guarded Router.ws_journal captures ne = search guard_rules

  module _ (e : Endpoint) (captures : List String)
      (goes : resolve site.axum req.method req.path ≡ to e captures) (ne : e ≢ Router.login) where
    dispatch-Guarded : Guarded site.env site.cfg req.parts (dispatch float site req)
    unfolding dispatch answer
    dispatch-Guarded = rw goes (run-Guarded e captures ne)

    -- A request that is routed to any handler but the login, and carries no session cookie, is answered
    -- Unauthorized and changes nothing.
    pub dispatch_no_cookie :
        (w : World)
        → req.parts.cookie cookie_name ≡ none
        → dispatch float site req w ≡ (err unauthorized, w)
    dispatch_no_cookie w without = dispatch-Guarded.turns_away without w

  login_cases : (e : Endpoint) → (e ≡ Router.login) ⊎ (e ≢ Router.login)
  login_cases Router.login = inl refl
  login_cases Router.logout = inr λ h. absurd (ground (arith, h))
  login_cases Router.me = inr λ h. absurd (ground (arith, h))
  login_cases Router.current = inr λ h. absurd (ground (arith, h))
  login_cases Router.stream = inr λ h. absurd (ground (arith, h))
  login_cases Router.processes = inr λ h. absurd (ground (arith, h))
  login_cases Router.pm2 = inr λ h. absurd (ground (arith, h))
  login_cases Router.docker = inr λ h. absurd (ground (arith, h))
  login_cases Router.services = inr λ h. absurd (ground (arith, h))
  login_cases Router.audit = inr λ h. absurd (ground (arith, h))
  login_cases Router.ws_pm2 = inr λ h. absurd (ground (arith, h))
  login_cases Router.ws_docker = inr λ h. absurd (ground (arith, h))
  login_cases Router.ws_journal = inr λ h. absurd (ground (arith, h))

  -- The answers that need no session: of the login to a request that is routed to it, of the files of the
  -- browser to one that falls back to them, and of status 405 to one of a route's path by another method.
  pub data Open : Reply float → Type 0 where
    of_login :
        (a : Cookie × LoginResponse) (captures : List String)
        → resolve site.axum req.method req.path ≡ to Router.login captures
        → Open (logged_in a)
    of_page :
        (p : StaticResponse)
        → p ≡ handler site.embedded site.from_path site.from_str req.path
        → resolve site.axum req.method req.path ≡ fallback
        → Open (page p)
    of_method : resolve site.axum req.method req.path ≡ method_not_allowed → Open no_method

  module _ (w v : World) (r : Reply float) where
    login-Open :
        (captures : List String)
        → resolve site.axum req.method req.path ≡ to Router.login captures
        → run float site req Router.login captures w ≡ (ok r, v)
        → Open r
    unfolding run
    login-Open captures goes h =
        let b = bind_inv _ _ w r v h in
        subst Open (ground (arith, b.second)) (of_login b.value captures goes)

    answer-Guest :
        (t : Target)
        → resolve site.axum req.method req.path ≡ t
        → answer float site req t w ≡ (ok r, v)
        → Guest site.env site.cfg req.parts w ⊎ Open r
    unfolding answer
    answer-Guest (to e captures) goes h = elim (login_cases e) [
      | inl l ↦ inr (login-Open captures (rw l at goes) (rw l at h))
      | inr ne ↦ inl ((run-Guarded e captures ne).lets_in w v r h)
    ]
    answer-Guest method_not_allowed goes h = inr (subst Open (ground (arith, h)) (of_method goes))
    answer-Guest fallback goes h =
        let sent = handler site.embedded site.from_path site.from_str req.path in
        inr (subst Open (ground (arith, h)) (of_page sent refl goes))

    -- Every request of any path and method that is answered without an error had the cookie of a stored
    -- session of an existing user that was not expired, but where the request is routed to the login and
    -- the answer is the login's, where it falls back to the files of the browser and the answer is theirs for
    -- its path, or where its method is not allowed and the answer is that.
    pub dispatch-Guest :
        dispatch float site req w ≡ (ok r, v) → Guest site.env site.cfg req.parts w ⊎ Open r
    unfolding dispatch
    dispatch-Guest h = answer-Guest (resolve site.axum req.method req.path) refl h
