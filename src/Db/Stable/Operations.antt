-- ===== src/Db/Stable/Operations.antt =====
-- src/db: each operation keeps what every statement keeps, whichever of its statements fail.
use vps_monitor_webui.Prelude.{ℕ, String, Option, none, some}
use vps_monitor_webui.Prelude.Int.{ℤ}
use vps_monitor_webui.Exec.Keeps.{Keeps}
use vps_monitor_webui.Db.{Env, Database}
use vps_monitor_webui.Db.Keeps.{OnDb}
use vps_monitor_webui.Db.Users
use vps_monitor_webui.Db.Users.{record_failed, reset_failed, set_password, find_for_auth}
use vps_monitor_webui.Db.Sessions
use vps_monitor_webui.Db.Sessions.{touch, find_active, purge_expired}
use vps_monitor_webui.Db.Audit
use vps_monitor_webui.Db.Audit.{AuditWrite, purge_older_than}
use vps_monitor_webui.Db.Stable.{Stable, stable_rules}

module _ (env : Env) {P : Database → Type 0} (inv : Stable P) where
  pub create_user-Keeps : (name hash : String) → Keeps (OnDb P) (Users.create env name hash)
  unfolding Users.create
  create_user-Keeps name hash = search stable_rules

  pub find_for_auth-Keeps : (name : String) → Keeps (OnDb P) (find_for_auth env name)
  unfolding find_for_auth
  find_for_auth-Keeps name = search stable_rules

  pub record_failed-Keeps :
      (id max : ℕ) (lockout : ℤ) → Keeps (OnDb P) (record_failed env id max lockout)
  unfolding record_failed
  record_failed-Keeps id max lockout = search stable_rules

  pub reset_failed-Keeps : (id : ℕ) → Keeps (OnDb P) (reset_failed env id)
  unfolding reset_failed
  reset_failed-Keeps id = search stable_rules

  pub set_password-Keeps : (name hash : String) → Keeps (OnDb P) (set_password env name hash)
  unfolding set_password
  set_password-Keeps name hash = search stable_rules

  pub create_session-Keeps :
      (token : String) (id : ℕ) (ttl : ℤ) (ip : Option String)
      → Keeps (OnDb P) (Sessions.create env token id ttl ip)
  unfolding Sessions.create
  create_session-Keeps token id ttl ip = search stable_rules

  pub find_active-Keeps : (token : String) → Keeps (OnDb P) (find_active env token)
  unfolding find_active
  find_active-Keeps token = search stable_rules

  pub touch-Keeps : (token : String) (to : Option ℤ) → Keeps (OnDb P) (touch env token to)
  unfolding touch
  touch-Keeps token none = search stable_rules
  touch-Keeps token (some e) = search stable_rules

  pub delete-Keeps : (token : String) → Keeps (OnDb P) (Sessions.delete env token)
  unfolding Sessions.delete
  delete-Keeps token = search stable_rules

  pub purge_expired-Keeps : Keeps (OnDb P) (purge_expired env)
  unfolding purge_expired
  purge_expired-Keeps = search stable_rules

  pub write-Keeps : (e : AuditWrite) → Keeps (OnDb P) (Audit.write env e)
  unfolding Audit.write
  write-Keeps e = search stable_rules

  pub purge_older_than-Keeps : (days : ℕ) → Keeps (OnDb P) (purge_older_than env days)
  unfolding purge_older_than
  purge_older_than-Keeps days = search stable_rules

pub ruleset operation_rules = (
  stable_rules, create_user-Keeps, find_for_auth-Keeps, record_failed-Keeps, reset_failed-Keeps,
  set_password-Keeps, create_session-Keeps, find_active-Keeps, touch-Keeps, delete-Keeps,
  purge_expired-Keeps, write-Keeps, purge_older_than-Keeps,
)
