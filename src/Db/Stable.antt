-- ===== src/Db/Stable.antt =====
-- src/db: properties of the tables that every statement of the program keeps. What is shown of one
-- block of code for all of them holds of each.
pub mod Operations
use vps_monitor_webui.Prelude.{ℕ, String, Option}
use vps_monitor_webui.Prelude.Int.{ℤ}
use vps_monitor_webui.Exec.Keeps.{keeps_rules}
use vps_monitor_webui.Db.{Database, SessionRow}
use vps_monitor_webui.Db.Keeps.{Preserves, db_rules}
use vps_monitor_webui.Db.Users.{insert_user, select_next_count, update_failures, update_password}
use vps_monitor_webui.Db.Sessions.{
  insert_session, update_session, delete_session, delete_expired, seen, slid,
}
use vps_monitor_webui.Db.Audit.{AuditWrite, insert_audit, delete_older}

-- One field for each statement that the program executes, but the readings.
pub record Stable (P : Database → Type 0) : Type 0 where
  pub add_user : (name hash : String) (now : ℤ) → Preserves P (insert_user name hash now)
  pub next_count : (id : ℕ) → Preserves P (select_next_count id)
  pub set_failures :
      (next : ℕ) (lock : Option ℤ) (id : ℕ) → Preserves P (update_failures next lock id)
  pub set_hash : (name hash : String) → Preserves P (update_password name hash)
  pub add_session : (s : SessionRow) → Preserves P (insert_session s)
  pub see : (token : String) (now : ℤ) → Preserves P (update_session token (seen now))
  pub extend : (token : String) (now e : ℤ) → Preserves P (update_session token (slid now e))
  pub end_session : (token : String) → Preserves P (delete_session token)
  pub purge_sessions : (now : ℤ) → Preserves P (delete_expired now)
  pub add_entry : (now : ℤ) (e : AuditWrite) → Preserves P (insert_audit now e)
  pub purge_entries : (cutoff : ℤ) → Preserves P (delete_older cutoff)

module _ {P : Database → Type 0} where
  pub stable_user :
      Stable P → (name hash : String) (now : ℤ) → Preserves P (insert_user name hash now)
  stable_user inv = inv.add_user

  pub stable_count : Stable P → (id : ℕ) → Preserves P (select_next_count id)
  stable_count inv = inv.next_count

  pub stable_failures :
      Stable P → (next : ℕ) (lock : Option ℤ) (id : ℕ) → Preserves P (update_failures next lock id)
  stable_failures inv = inv.set_failures

  pub stable_hash : Stable P → (name hash : String) → Preserves P (update_password name hash)
  stable_hash inv = inv.set_hash

  pub stable_session : Stable P → (s : SessionRow) → Preserves P (insert_session s)
  stable_session inv = inv.add_session

  pub stable_seen :
      Stable P → (token : String) (now : ℤ) → Preserves P (update_session token (seen now))
  stable_seen inv = inv.see

  pub stable_slid :
      Stable P → (token : String) (now e : ℤ) → Preserves P (update_session token (slid now e))
  stable_slid inv = inv.extend

  pub stable_delete : Stable P → (token : String) → Preserves P (delete_session token)
  stable_delete inv = inv.end_session

  pub stable_expired : Stable P → (now : ℤ) → Preserves P (delete_expired now)
  stable_expired inv = inv.purge_sessions

  pub stable_entry : Stable P → (now : ℤ) (e : AuditWrite) → Preserves P (insert_audit now e)
  stable_entry inv = inv.add_entry

  pub stable_older : Stable P → (cutoff : ℤ) → Preserves P (delete_older cutoff)
  stable_older inv = inv.purge_entries

pub ruleset stable_rules = (
  keeps_rules, db_rules, stable_user, stable_count, stable_failures, stable_hash, stable_session,
  stable_seen, stable_slid, stable_delete, stable_expired, stable_entry, stable_older,
)
