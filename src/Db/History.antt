-- ===== src/Db/History.antt =====
-- src/db: the tables as the statements of the program make them, one after another. The handlers, the
-- tasks and the commands run on connections of one pool, so theirs may come in any order.
use vps_monitor_webui.Prelude.{ℕ, String, ◌≡◌, Option}
use vps_monitor_webui.Prelude.Int.{ℤ}
use vps_monitor_webui.Result.{ok}
use vps_monitor_webui.Db.{Database, SessionRow, fresh_database}
use vps_monitor_webui.Db.Users.{insert_user, update_failures, update_password}
use vps_monitor_webui.Db.Sessions.{
  insert_session, update_session, delete_session, delete_expired, seen, slid,
}
use vps_monitor_webui.Db.Audit.{AuditWrite, insert_audit, delete_older}
use vps_monitor_webui.Db.Stable.{Stable}
use vps_monitor_webui.Db.Consistent.{IsConsistent}
use vps_monitor_webui.Db.Consistent.Statements.{Stable-IsConsistent, fresh_database-IsConsistent}

-- One statement that wrote.
pub data Write (a b : Database) : Type 0 where
  user_added :
      (name hash : String) (now : ℤ) (id : ℕ) → insert_user name hash now a ≡ ok (id, b) → Write a b
  failures_set :
      (next : ℕ) (lock : Option ℤ) (id : ℕ) (u : Unit {0})
      → update_failures next lock id a ≡ ok (u, b)
      → Write a b
  hash_set : (name hash : String) (n : ℕ) → update_password name hash a ≡ ok (n, b) → Write a b
  session_added : (s : SessionRow) (u : Unit {0}) → insert_session s a ≡ ok (u, b) → Write a b
  session_seen :
      (token : String) (now : ℤ) (u : Unit {0})
      → update_session token (seen now) a ≡ ok (u, b)
      → Write a b
  session_slid :
      (token : String) (now e : ℤ) (u : Unit {0})
      → update_session token (slid now e) a ≡ ok (u, b)
      → Write a b
  session_ended : (token : String) (u : Unit {0}) → delete_session token a ≡ ok (u, b) → Write a b
  sessions_purged : (now : ℤ) (n : ℕ) → delete_expired now a ≡ ok (n, b) → Write a b
  entry_added :
      (now : ℤ) (e : AuditWrite) (u : Unit {0}) → insert_audit now e a ≡ ok (u, b) → Write a b
  entries_purged : (cutoff : ℤ) (n : ℕ) → delete_older cutoff a ≡ ok (n, b) → Write a b

-- The tables that some statements make of `a`.
pub data Reach (a : Database) : Database → Type 0 where
  start : Reach a a
  next : {b c : Database} → Reach a b → Write b c → Reach a c

Write-Stable : {P : Database → Type 0} {a b : Database} → Stable P → Write a b → P a → P b
Write-Stable inv (user_added name hash now id e) h = (inv.add_user name hash now).at _ _ _ e h
Write-Stable inv (failures_set n lock id m e) h = (inv.set_failures n lock id).at _ _ _ e h
Write-Stable inv (hash_set name hash n e) h = (inv.set_hash name hash).at _ _ _ e h
Write-Stable inv (session_added s u e) h = (inv.add_session s).at _ _ _ e h
Write-Stable inv (session_seen token now u e) h = (inv.see token now).at _ _ _ e h
Write-Stable inv (session_slid token now x u e) h = (inv.extend token now x).at _ _ _ e h
Write-Stable inv (session_ended token u e) h = (inv.end_session token).at _ _ _ e h
Write-Stable inv (sessions_purged now n e) h = (inv.purge_sessions now).at _ _ _ e h
Write-Stable inv (entry_added now w u e) h = (inv.add_entry now w).at _ _ _ e h
Write-Stable inv (entries_purged c n e) h = (inv.purge_entries c).at _ _ _ e h

-- What every statement keeps holds after any of them.
pub Reach-Stable : {P : Database → Type 0} {a b : Database} → Stable P → Reach a b → P a → P b
Reach-Stable inv start h = h
Reach-Stable inv (next r w) h = Write-Stable inv w (Reach-Stable inv r h)

-- Whatever statements of the program ran on an empty database, in whatever order, the tables are
-- consistent: unique names and ids of users, unique tokens, sessions only of users that exist.
pub Reach-IsConsistent : (db : Database) → Reach fresh_database db → IsConsistent db
Reach-IsConsistent db r = Reach-Stable Stable-IsConsistent r fresh_database-IsConsistent
