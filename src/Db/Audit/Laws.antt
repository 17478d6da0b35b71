-- ===== src/Db/Audit/Laws.antt =====
-- src/db/audit.rs: what writing an entry touches.
use vps_monitor_webui.Prelude.{◌≡◌, List, arith}
use vps_monitor_webui.Prelude.Int.{ℤ}
use vps_monitor_webui.Exec.Keeps.{Keeps, keeps_rules}
use vps_monitor_webui.Db.{Env, Database, UserRow, SessionRow}
use vps_monitor_webui.Db.Keeps.{OnDb, Preserves, db_rules}
use vps_monitor_webui.Db.Audit.{AuditWrite, insert_audit, write}

-- The tables of users and of sessions.
pub record Accounts (users : List UserRow) (sessions : List SessionRow) (db : Database)
    : Type 0 where
  pub same_users : db.users ≡ users
  pub same_sessions : db.sessions ≡ sessions

module _ {users : List UserRow} {sessions : List SessionRow} where
  insert_audit-Accounts :
      (now : ℤ) (e : AuditWrite) → Preserves (Accounts users sessions) (insert_audit now e)
  unfolding insert_audit
  insert_audit-Accounts now e = record { at = λ db db' a h k. ground arith }

  pub write-Accounts :
      (env : Env) (e : AuditWrite) → Keeps (OnDb (Accounts users sessions)) (write env e)
  unfolding write
  write-Accounts env e = search (keeps_rules, db_rules, insert_audit-Accounts)
