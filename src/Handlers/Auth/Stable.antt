-- ===== src/Handlers/Auth/Stable.antt =====
-- src/handlers/auth.rs and src/auth/middleware.rs: requests keep what every statement keeps, whatever
-- they carry and whatever fails.
use vps_monitor_webui.Prelude.{String, Option, none, some}
use vps_monitor_webui.Prelude.Int.{ℤ}
use vps_monitor_webui.Exec.Keeps.{Keeps}
use vps_monitor_webui.Config.{Config}
use vps_monitor_webui.Db.{Env, Database}
use vps_monitor_webui.Db.Keeps.{OnDb}
use vps_monitor_webui.Db.Users.{UserAuth}
use vps_monitor_webui.Db.Audit.{AuditWrite}
use vps_monitor_webui.Db.Stable.{Stable}
use vps_monitor_webui.Db.Stable.Operations.{operation_rules}
use vps_monitor_webui.Auth.Password
use vps_monitor_webui.Auth.Password.{Crypto}
use vps_monitor_webui.Auth.Session.{new_token}
use vps_monitor_webui.Auth.Middleware.{Parts, AuthUser, active_session, from_request_parts}
use vps_monitor_webui.Handlers.Auth.{
  LoginRequest, submit, force_dummy_hash, authenticate, login, logout, write_audit, unknown_user,
  check_lock, wrong_password, open_session, known_user, by_user,
}
use vps_monitor_webui.Handlers.Auth.Refused.{force_dummy_hash-db}

module _ (env : Env) {P : Database → Type 0} (inv : Stable P) where
  active_session-Keeps : (ttl : ℤ) (token : String) → Keeps (OnDb P) (active_session env ttl token)
  unfolding active_session
  active_session-Keeps ttl token = search operation_rules depth 9

  pub from_request_parts-Keeps :
      (cfg : Config) (parts : Parts) → Keeps (OnDb P) (from_request_parts env cfg parts)
  unfolding from_request_parts
  from_request_parts-Keeps cfg parts = search (operation_rules, active_session-Keeps) depth 7

module _ (crypto : Crypto) (env : Env) {P : Database → Type 0} (inv : Stable P) where
  write_audit-Keeps : (e : AuditWrite) → Keeps (OnDb P) (write_audit crypto env e)
  unfolding write_audit
  write_audit-Keeps e = search operation_rules

  force_dummy_hash-Keeps : Keeps (OnDb P) (force_dummy_hash crypto env)
  force_dummy_hash-Keeps = record {
    after = λ w h. record { holds = rw (force_dummy_hash-db crypto env w) h.holds };
  }

  verify-Keeps :
      {E : Type 0} (pw phc : String) → Keeps (OnDb P) (Password.verify crypto {E = E} pw phc)
  unfolding Password.verify
  verify-Keeps pw phc = record { after = λ w h. record { holds = h.holds } }

  new_token-Keeps : {E : Type 0} → Keeps (OnDb P) (new_token crypto env {E = E})
  unfolding new_token
  new_token-Keeps = search operation_rules

ruleset login_rules =
    (operation_rules, write_audit-Keeps, force_dummy_hash-Keeps, verify-Keeps, new_token-Keeps)

module _ (crypto : Crypto) (env : Env) (cfg : Config) (ip : String) (req : LoginRequest)
    {P : Database → Type 0} (inv : Stable P) where
  unknown_user-Keeps : Keeps (OnDb P) (unknown_user crypto env cfg ip req)
  unfolding unknown_user
  unknown_user-Keeps = search login_rules depth 8

  check_lock-Keeps :
      (user : UserAuth) (lock : Option ℤ)
      → Keeps (OnDb P) (check_lock crypto env cfg ip req user lock)
  unfolding check_lock
  check_lock-Keeps user none = search login_rules
  check_lock-Keeps user (some until) = search login_rules depth 8

  wrong_password-Keeps :
      (user : UserAuth) → Keeps (OnDb P) (wrong_password crypto env cfg ip req user)
  unfolding wrong_password
  wrong_password-Keeps user = search login_rules depth 8

  open_session-Keeps : (user : UserAuth) → Keeps (OnDb P) (open_session crypto env cfg ip req user)
  unfolding open_session
  open_session-Keeps user = search login_rules depth 9

  known_user-Keeps : (user : UserAuth) → Keeps (OnDb P) (known_user crypto env cfg ip req user)
  unfolding known_user
  known_user-Keeps user =
      search (login_rules, check_lock-Keeps, wrong_password-Keeps, open_session-Keeps) depth 8

  by_user-Keeps : (user : Option UserAuth) → Keeps (OnDb P) (by_user crypto env cfg ip req user)
  unfolding by_user
  by_user-Keeps none = unknown_user-Keeps
  by_user-Keeps (some user) = known_user-Keeps user

  authenticate-Keeps : Keeps (OnDb P) (authenticate crypto env cfg ip req)
  unfolding authenticate
  authenticate-Keeps = search (login_rules, by_user-Keeps) depth 7

  submit-Keeps : Keeps (OnDb P) (submit crypto env cfg ip req)
  unfolding submit
  submit-Keeps = search (login_rules, authenticate-Keeps)

  pub login-Keeps : (parts : Parts) → Keeps (OnDb P) (login crypto env cfg ip req parts)
  unfolding login
  login-Keeps parts = search (login_rules, submit-Keeps)

pub logout-Keeps :
    (crypto : Crypto) (env : Env) {P : Database → Type 0} (inv : Stable P) (user : AuthUser)
    (parts : Parts)
    → Keeps (OnDb P) (logout crypto env user parts)
unfolding logout
logout-Keeps crypto env inv user parts = search login_rules depth 9
