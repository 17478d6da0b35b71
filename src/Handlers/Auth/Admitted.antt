-- ===== src/Handlers/Auth/Admitted.antt =====
-- src/handlers/auth.rs and src/auth/middleware.rs together: the session that a login opens admits
-- the requests that follow.
use vps_monitor_webui.Prelude.{ℕ, ◌+◌, String, ◌≡◌, refl, ◌∙◌, ap, true, false, none, some, find}
use vps_monitor_webui.Prelude.Int.{◌<ℤ◌, as_i64, add_i64}
use vps_monitor_webui.Result.{ok}
use vps_monitor_webui.Config.{Config}
use vps_monitor_webui.Db.{Env, World, UserRow, seconds}
use vps_monitor_webui.Db.Facts.{IsHealthy}
use vps_monitor_webui.Db.Users.{named, has_id, with_failures}
use vps_monitor_webui.Db.Sessions.{SessionRecord, select_active}
use vps_monitor_webui.Db.Sessions.Active.{select_active-append}
use vps_monitor_webui.Db.Sessions.Laws.{created_row}
use vps_monitor_webui.Auth.Password.{Crypto, accepts}
use vps_monitor_webui.Auth.Session.{cookie_name}
use vps_monitor_webui.Auth.Middleware.{Parts, AuthUser, from_request_parts}
use vps_monitor_webui.Auth.Middleware.Runs.{from_request_parts_runs}
use vps_monitor_webui.Exec.Inversion.{bind_runs}
use vps_monitor_webui.Handlers.Auth.{
  LoginRequest, require_xhr, is_missing, session_cookie, submit, login, authenticate,
}
use vps_monitor_webui.Handlers.Auth.Success.{NewTokens, LockOver, authenticate-Ready}

-- Where nothing fails and no token that is drawn stands in the table, the right password of a user
-- whose lock, if any, is over, and whose id is that of no row before, opens a session, and
-- a request that then brings the token of that session is let in as that user, if the clock it is
-- checked by stands before the end of a lifetime from the login.
pub authenticate-admits :
    (crypto : Crypto) (env : Env) (healthy : IsHealthy env) (cfg : Config) (ip : String)
    (req : LoginRequest) (u : UserRow) (w : World) (later_env : Env)
    (later_healthy : IsHealthy later_env) (next : String → Parts)
    → find (named req.username) w.db.users ≡ some u
    → find (has_id u.id) w.db.users ≡ some u
    → NewTokens crypto env healthy cfg ip req w
    → LockOver crypto env healthy cfg ip req u.locked_until
        (seconds (env.system_time (w.at + 1 + 1)))
    → accepts crypto req.password u.password_hash ≡ true
    → ((token : String) → (next token).cookie cookie_name ≡ some token)
    → ((n m : ℕ)
        → seconds (later_env.system_time n)
          <ℤ add_i64 (seconds (env.system_time m)) (as_i64 cfg.session_ttl_secs))
    → (token : String) × (v : World) × (authenticate crypto env cfg ip req w
        ≡ (ok (u.id, token), v))
      × ((a : AuthUser) × ((end : World) × (from_request_parts later_env cfg (next token) v
              ≡ (ok a, end)))
          × (a.user_id ≡ u.id)
          × (a.username ≡ u.username)
          × (a.token ≡ token))
authenticate-admits crypto env healthy cfg ip req u w later_env later_healthy next named_u found new
      over right brings before_end =
    let r = authenticate-Ready crypto env healthy cfg ip req u w named_u found new over right in
    let token = r.0 in
    let v = r.1.0 in
    let ready = r.1.2 in
    let row = created_row env token u.id (as_i64 cfg.session_ttl_secs) (some ip) ready.opened_at in
    let now = seconds (later_env.system_time (v.at + 1)) in
    let active =
      select_active-append token now v.db.users w.db.sessions row (with_failures 0 none u) ready.new
        refl (before_end (v.at + 1) ready.opened_at.at) ready.user in
    let s : SessionRecord = record {
      user_id = u.id;
      username = u.username;
      expires_at = row.expires_at;
    } in
    (
      token,
      v,
      r.1.1,
      from_request_parts_runs later_env later_healthy cfg (next token) token s v (brings token)
          (ap (λ ss. select_active token now v.db.users ss) ready.sessions ∙ active),
    )

-- What the handler answers, from what the closure on the blocking pool returned.
pub login_runs :
    (crypto : Crypto) (env : Env) (cfg : Config) (ip : String) (req : LoginRequest) (parts : Parts)
    (w v : World) (id : ℕ) (token : String)
    → require_xhr parts ≡ ok tt
    → is_missing req ≡ false
    → authenticate crypto env cfg ip req w ≡ (ok (id, token), v)
    → login crypto env cfg ip req parts w ≡ (
      ok (session_cookie token (as_i64 cfg.session_ttl_secs), record { username = req.username }),
      v,
    )
unfolding login submit
login_runs crypto env cfg ip req parts w v id token xhr given h =
    bind_runs _ _ w w tt (ap (λ r. (r, w)) xhr)
    ∙ rw given (bind_runs (authenticate crypto env cfg ip req) _ w v (id, token) h)
