-- ===== src/Handlers/Router/LoggedIn.antt =====
-- src/handlers/mod.rs, src/handlers/auth.rs and src/auth together: a login over the router, and the
-- request for the current user that follows it.
use vps_monitor_webui.Prelude.{ℕ, ◌+◌, String, ◌≡◌, refl, ap, ◌∙◌, true, false, [], some, find}
use vps_monitor_webui.Prelude.Int.{◌<ℤ◌, as_i64, add_i64}
use vps_monitor_webui.Result.{ok}
use vps_monitor_webui.Exec.Inversion.{bind_runs}
use vps_monitor_webui.Db.{World, UserRow, seconds}
use vps_monitor_webui.Db.Facts.{IsHealthy}
use vps_monitor_webui.Db.Users.{named, has_id}
use vps_monitor_webui.Auth.Password.{accepts}
use vps_monitor_webui.Auth.Session.{cookie_name}
use vps_monitor_webui.Auth.Middleware.{AuthUser, from_request_parts}
use vps_monitor_webui.Collectors.System.{Float}
use vps_monitor_webui.Handlers.Auth
use vps_monitor_webui.Handlers.Auth.{
  Cookie, LoginResponse, require_xhr, is_missing, session_cookie, submit, login, authenticate,
}
use vps_monitor_webui.Handlers.Auth.Success.{NewTokens, LockOver}
use vps_monitor_webui.Handlers.Auth.Admitted.{authenticate-admits, login_runs}
use vps_monitor_webui.Handlers.Router
use vps_monitor_webui.Handlers.Router.{get, post, to, Axum, resolve}
use vps_monitor_webui.Handlers.Router.Laws.{AxumLaws, get_get, post_post}
use vps_monitor_webui.Handlers.Router.Api.{for_login, for_me}
use vps_monitor_webui.Handlers.Router.Documented.{resolve_iff}
use vps_monitor_webui.Handlers.Router.Answers.{
  Site, Request, logged_in, current_user, run, answer, dispatch,
}

module _ (axum : Axum) (laws : AxumLaws axum) where
  login_routed : resolve axum post "/api/auth/login" ≡ to Router.login []
  login_routed =
      (resolve_iff axum laws post "api/auth/login" Router.login []).1 (for_login post post_post)

  me_routed : resolve axum get "/api/auth/me" ≡ to Router.me []
  me_routed = (resolve_iff axum laws get "api/auth/me" Router.me []).1 (for_me get get_get)

module _ (float : Float) (site : Site float) (laws : AxumLaws site.axum) (req : Request) where
  login_dispatched :
      (w v : World) (id : ℕ) (token : String)
      → req.method ≡ post
      → req.path ≡ "/api/auth/login"
      → require_xhr req.parts ≡ ok tt
      → is_missing req.body ≡ false
      → authenticate site.crypto site.env site.cfg req.peer req.body w ≡ (ok (id, token), v)
      → dispatch float site req w ≡ (
        ok (
            logged_in (
              session_cookie token (as_i64 site.cfg.session_ttl_secs),
              record { username = req.body.username },
            )),
        v,
      )
  unfolding dispatch answer run
  login_dispatched w v id token m p xhr given h =
      ap (λ t. answer float site req t w)
        (ap (λ x. resolve site.axum x req.path) m
          ∙ ap (resolve site.axum post) p
          ∙ login_routed site.axum laws)
      ∙ bind_runs (login site.crypto site.env site.cfg req.peer req.body req.parts) _ w v
          (
            session_cookie token (as_i64 site.cfg.session_ttl_secs),
            record { username = req.body.username },
          )
          (login_runs site.crypto site.env site.cfg req.peer req.body req.parts w v id token xhr
            given h)

  me_dispatched :
      (v end : World) (a : AuthUser)
      → req.method ≡ get
      → req.path ≡ "/api/auth/me"
      → from_request_parts site.env site.cfg req.parts v ≡ (ok a, end)
      → dispatch float site req v ≡ (ok (current_user (a.username, a.user_id)), end)
  unfolding dispatch answer run Auth.me
  me_dispatched v end a m p h =
      ap (λ t. answer float site req t v)
        (ap (λ x. resolve site.axum x req.path) m
          ∙ ap (resolve site.axum get) p
          ∙ me_routed site.axum laws)
      ∙ bind_runs (from_request_parts site.env site.cfg req.parts) _ v end a h

-- Where nothing fails and no token that is drawn stands in the table, and by what axum documents of its
-- router: a POST of /api/auth/login with the
-- XHR header and the right password of a user, whose lock, if any, is over, and whose id is that of no
-- row before, is answered with a cookie for that name; and a GET of /api/auth/me that brings the value
-- of the cookie is answered with the name and the id of the user, if the clock it is checked by stands
-- before the end of a lifetime from the login, and the lifetime is that of the same configuration.
pub dispatch_login_me :
    (float : Float) (site later : Site float) (laws : AxumLaws site.axum)
    (later_laws : AxumLaws later.axum) (healthy : IsHealthy site.env)
    (later_healthy : IsHealthy later.env) (req : Request) (next : String → Request) (u : UserRow)
    (w : World)
    → later.cfg ≡ site.cfg
    → req.method ≡ post
    → req.path ≡ "/api/auth/login"
    → require_xhr req.parts ≡ ok tt
    → is_missing req.body ≡ false
    → find (named req.body.username) w.db.users ≡ some u
    → find (has_id u.id) w.db.users ≡ some u
    → NewTokens site.crypto site.env healthy site.cfg req.peer req.body w
    → LockOver site.crypto site.env healthy site.cfg req.peer req.body u.locked_until
        (seconds (site.env.system_time (w.at + 1 + 1)))
    → accepts site.crypto req.body.password u.password_hash ≡ true
    → ((token : String) → (next token).method ≡ get)
    → ((token : String) → (next token).path ≡ "/api/auth/me")
    → ((token : String) → (next token).parts.cookie cookie_name ≡ some token)
    → ((n m : ℕ)
        → seconds (later.env.system_time n)
          <ℤ add_i64 (seconds (site.env.system_time m)) (as_i64 site.cfg.session_ttl_secs))
    → (cookie : Cookie) × (v : World) × (end : World) × (cookie.name ≡ cookie_name)
      × (dispatch float site req w
          ≡ (ok (logged_in (cookie, record { username = req.body.username })), v))
      × (dispatch float later (next cookie.value) v ≡ (ok (current_user (u.username, u.id)), end))
dispatch_login_me float site later laws later_laws healthy later_healthy req next u w same_cfg m p
      xhr given named_u found new over right gets me brings before_end =
    let r =
      authenticate-admits site.crypto site.env healthy site.cfg req.peer req.body u w later.env
        later_healthy (λ token. (next token).parts) named_u found new over right brings
        before_end in
    let token = r.0 in
    let a = r.3.0 in
    let let_in =
      ap (λ c. from_request_parts later.env c (next token).parts r.1) same_cfg ∙ r.3.1.1 in
    (
      session_cookie token (as_i64 site.cfg.session_ttl_secs),
      r.1,
      r.3.1.0,
      refl,
      login_dispatched float site laws req w r.1 u.id token m p xhr given r.2,
      me_dispatched float later later_laws (next token) r.1 r.3.1.0 a (gets token) (me token) let_in
          ∙ ap (λ n. (ok (current_user (n, a.user_id)), r.3.1.0)) r.3.3
          ∙ ap (λ id. (ok (current_user (u.username, id)), r.3.1.0)) r.3.2,
    )
