-- ===== src/Handlers/Auth.antt =====
-- src/handlers/auth.rs: login, logout and the current user.
pub mod Login
pub mod Refused
pub mod Success
pub mod Locked
pub mod Logout
pub mod Admitted
pub mod Unknown
pub mod Counts
pub mod Paid
pub mod Cost
pub mod Stable
pub mod Consistent
mod Tests
use mathlib.Core.Option
use vps_monitor_webui.Prelude.{
  ℕ, ◌*◌, ◌%◌, ◌^◌, String, Bool, true, false, not, ◌||◌, ◌==◌, Option, none, some, if◌then◌else◌,
}
use vps_monitor_webui.Prelude.Int.{ℤ, pos, ltb_ℤ, as_i64, as_u64, sub_i64}
use vps_monitor_webui.Result.{Result, ok, err, unwrap_or}
use vps_monitor_webui.Error.{
  Anyhow, AppError, forbidden, account_locked, bad_credentials, bad_request, other, from_r2d2,
}
use vps_monitor_webui.Exec.{Exec, pure, fail, lift, map_err, ignore, choose, ◌>>=◌, ◌>>◌}
use vps_monitor_webui.Config.{Config}
use vps_monitor_webui.Db.{Env, World, now_unix, get_conn}
use vps_monitor_webui.Db.Users
use vps_monitor_webui.Db.Users.{UserAuth}
use vps_monitor_webui.Db.Sessions
use vps_monitor_webui.Db.Audit
use vps_monitor_webui.Db.Audit.{AuditWrite}
use vps_monitor_webui.Auth.Password
use vps_monitor_webui.Auth.Password.{Crypto}
use vps_monitor_webui.Auth.Session.{cookie_name, new_token}
use vps_monitor_webui.Auth.Middleware.{AuthUser, Parts, xhr_value, flatten}

pub record LoginRequest : Type 0 where
  pub username : String
  pub password : String

pub record LoginResponse : Type 0 where
  pub username : String

-- The guard of the login and the logout, a second `ensure_xhr`.
unfoldable pub require_xhr : Parts → Result AppError (Unit {0})
require_xhr parts =
    if unwrap_or (Option.map xhr_value (flatten (parts.header "x-requested-with"))) false
    then ok tt
    else err forbidden

abbrev pub is_missing : LoginRequest → Bool
is_missing req = req.username == "" || req.password == ""

pub data SameSite : Type 0 where
  strict lax unrestricted : SameSite

pub record Cookie : Type 0 where
  pub name : String
  pub value : String
  pub path : String
  pub http_only : Bool
  pub same_site : Option SameSite
  pub secure : Bool
  pub max_age : ℤ

abbrev pub audited : Option ℕ → String → Option String → String → Option String → AuditWrite
audited user_id username ip action detail = record {
  user_id = user_id;
  username = some username;
  ip = ip;
  action = action;
  target = none;
  detail = detail;
}

abbrev pub session_cookie : String → ℤ → Cookie
session_cookie token ttl = record {
  name = cookie_name;
  value = token;
  path = "/";
  http_only = true;
  same_site = some strict;
  secure = false;
  max_age = ttl;
}

-- The cookie that takes the session's place in the browser, already expired.
abbrev pub removal_cookie : Cookie
removal_cookie = record {
  name = cookie_name;
  value = "";
  path = "/";
  http_only = false;
  same_site = none;
  secure = false;
  max_age = pos 0;
}

-- (lockout_minutes * 60) as i64, in 64-bit arithmetic
abbrev pub lockout_secs : Config → ℤ
lockout_secs cfg = as_i64 (cfg.lockout_minutes * 60 % 2 ^ 64)

module _ (crypto : Crypto) (env : Env) where
  pub write_audit : AuditWrite → Exec World AppError (Unit {0})
  write_audit e = ignore (Audit.write env e)

  abbrev or_default : Result Anyhow String → String
  or_default (ok s) = s
  or_default (err e) = ""

  -- Lazy: the first use computes the hash, and an error leaves the empty text.
  unfoldable pub force_dummy_hash : Exec World AppError String
  force_dummy_hash w = elim w.dummy_hash [
    | some s ↦ (ok s, w)
    | none ↦
        let (r, w') = Password.hash crypto env "dummy-not-a-real-password-please-ignore" w in
        (ok (or_default r), record w' { dummy_hash = some (or_default r) })
  ]

  module _ (cfg : Config) (ip : String) (req : LoginRequest) where
    pub unknown_user : Exec World AppError (ℕ × String)
    unknown_user = do
      dummy ← force_dummy_hash
      matched ← Password.verify crypto req.password dummy
      write_audit (audited none req.username (some ip) "login_fail" (some "unknown user"))
      fail bad_credentials

    -- The return of AccountLocked, where the lock lies in the future.
    pub check_lock : UserAuth → Option ℤ → Exec World AppError (Unit {0})
    check_lock user none = pure tt
    check_lock user (some until) = do
      now ← now_unix env
      choose (ltb_ℤ now until)
          (do
            write_audit (audited (some user.id) user.username (some ip) "login_locked" none)
            fail (account_locked (as_u64 (sub_i64 until now))))
          (pure tt)

    pub wrong_password : UserAuth → Exec World AppError (ℕ × String)
    wrong_password user = do
      map_err other (Users.record_failed env user.id cfg.max_failed_logins (lockout_secs cfg))
      write_audit
          (audited (some user.id) user.username (some ip) "login_fail" (some "bad password"))
      fail bad_credentials

    pub open_session : UserAuth → Exec World AppError (ℕ × String)
    open_session user = do
      map_err other (Users.reset_failed env user.id)
      token ← new_token crypto env
      map_err other (Sessions.create env token user.id (as_i64 cfg.session_ttl_secs) (some ip))
      write_audit (audited (some user.id) user.username (some ip) "login_ok" none)
      pure (user.id, token)

    pub known_user : UserAuth → Exec World AppError (ℕ × String)
    known_user user = do
      check_lock user user.locked_until
      fits ← Password.verify crypto req.password user.password_hash
      choose fits (open_session user) (wrong_password user)

    pub by_user : Option UserAuth → Exec World AppError (ℕ × String)
    by_user none = unknown_user
    by_user (some user) = known_user user

    -- The closure that runs on the blocking pool.
    unfoldable pub authenticate : Exec World AppError (ℕ × String)
    authenticate = do
      map_err from_r2d2 (get_conn env)
      user ← map_err other (Users.find_for_auth env req.username)
      by_user user

    -- With the credentials given: the session, its cookie and the answer.
    pub submit : Exec World AppError (Cookie × LoginResponse)
    submit = do
      result ← authenticate
      pure (
        session_cookie result.1 (as_i64 cfg.session_ttl_secs),
        record { username = req.username },
      )

    unfoldable pub login : Parts → Exec World AppError (Cookie × LoginResponse)
    login parts = do
      lift (require_xhr parts)
      choose (is_missing req) (fail (bad_request "missing credentials")) submit

  module _ (user : AuthUser) where
    unfoldable pub logout : Parts → Exec World AppError Cookie
    logout parts = do
      lift (require_xhr parts)
      map_err from_r2d2 (get_conn env)
      map_err other (Sessions.delete env user.token)
      write_audit (audited (some user.user_id) user.username user.ip "logout" none)
      pure removal_cookie

unfoldable pub me : AuthUser → String × ℕ
me user = (user.username, user.user_id)
