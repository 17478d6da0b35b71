-- ===== src/Db/Users/Laws.antt =====
-- src/db/users.rs: what each operation on users returned and wrote, and what none of them touches.
use mathlib.Core.Option
use vps_monitor_webui.Prelude.{ℕ, ◌+◌, String, ◌≡◌, List, Option, none, arith, find}
use vps_monitor_webui.Prelude.Int.{ℤ}
use vps_monitor_webui.Result.{ok}
use vps_monitor_webui.Exec.Keeps.{Keeps, keeps_rules}
use vps_monitor_webui.Db.{Env, World, Database, SessionRow, AuditRow, tick, reading}
use vps_monitor_webui.Db.Facts.{statement_ok}
use vps_monitor_webui.Db.Keeps.{OnDb, Preserves, db_rules}
use vps_monitor_webui.Db.Users.{
  UserAuth, named, has_id, to_auth, update, with_failures, insert_user, select_next_count,
  update_failures, update_password, create, find_for_auth, record_failed, reset_failed,
  set_password,
}

-- The tables other than that of users.
pub record OtherTables (sessions : List SessionRow) (audit : List AuditRow) (db : Database)
    : Type 0 where
  pub same_sessions : db.sessions ≡ sessions
  pub same_audit : db.audit_log ≡ audit

module _ {sessions : List SessionRow} {audit : List AuditRow} where
  insert_user-others :
      (name hash : String) (now : ℤ)
      → Preserves (OtherTables sessions audit) (insert_user name hash now)
  unfolding insert_user
  insert_user-others name hash now = record { at = λ db db' a e h. ground arith }

  select_next_count-others :
      (id : ℕ) → Preserves (OtherTables sessions audit) (select_next_count id)
  unfolding select_next_count
  select_next_count-others id = record { at = λ db db' a e h. ground arith }

  update_failures-others :
      (next : ℕ) (lock : Option ℤ) (id : ℕ)
      → Preserves (OtherTables sessions audit) (update_failures next lock id)
  unfolding update_failures
  update_failures-others next lock id = record { at = λ db db' a e h. ground arith }

  update_password-others :
      (name hash : String) → Preserves (OtherTables sessions audit) (update_password name hash)
  unfolding update_password
  update_password-others name hash = record { at = λ db db' a e h. ground arith }

ruleset others_rules = (
  keeps_rules, db_rules, insert_user-others, select_next_count-others, update_failures-others,
  update_password-others,
)

module _ (env : Env) {sessions : List SessionRow} {audit : List AuditRow} where
  pub create-others :
      (name hash : String) → Keeps (OnDb (OtherTables sessions audit)) (create env name hash)
  unfolding create
  create-others name hash = search others_rules

  pub record_failed-others :
      (id max : ℕ) (lockout : ℤ)
      → Keeps (OnDb (OtherTables sessions audit)) (record_failed env id max lockout)
  unfolding record_failed
  record_failed-others id max lockout = search others_rules

  pub reset_failed-others :
      (id : ℕ) → Keeps (OnDb (OtherTables sessions audit)) (reset_failed env id)
  unfolding reset_failed
  reset_failed-others id = search others_rules

  pub set_password-others :
      (name hash : String) → Keeps (OnDb (OtherTables sessions audit)) (set_password env name hash)
  unfolding set_password
  set_password-others name hash = search others_rules

module _ (env : Env) where
  pub find_for_auth_ok :
      (name : String) (w v : World) (o : Option UserAuth)
      → find_for_auth env name w ≡ (ok o, v)
      → (o ≡ Option.map to_auth (find (named name) w.db.users)) × (v ≡ tick w)
  unfolding find_for_auth reading
  find_for_auth_ok name w v o h = ground (arith, statement_ok env _ w v o h)

  pub reset_failed_ok :
      (id : ℕ) (w v : World) (u : Unit {0})
      → reset_failed env id w ≡ (ok u, v)
      → v ≡ record w {
        db = record w.db { users = update (has_id id) (with_failures 0 none) w.db.users };
        at = w.at + 1;
      }
  unfolding reset_failed update_failures
  reset_failed_ok id w v u h = ground (arith, statement_ok env _ w v u h)
