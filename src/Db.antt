-- ===== src/Db.antt =====
-- src/db/mod.rs and migrations/001_init.sql: the three tables, and how the program reaches them.
-- A table is the list of its rows, in the order of insertion. What the machine gives (the time,
-- whether a connection or a statement fails, random bytes) is read from an environment, the n-th
-- answer at the n-th request, so that a run is determined and every schedule is a run.
pub mod Users
pub mod Sessions
pub mod Audit
pub mod Facts
pub mod Keeps
pub mod Stable
pub mod Consistent
pub mod History
use vps_monitor_webui.Prelude.{ℕ, ◌+◌, String, Bool, List, [], Option, none, some, if◌then◌else◌}
use vps_monitor_webui.Prelude.Int.{ℤ, pos, as_i64}
use vps_monitor_webui.Result.{Result, ok, err}
use vps_monitor_webui.Error.{Anyhow, sql, pool, SqlError, statement_failed}
use vps_monitor_webui.Exec.{Exec, ◌>>=◌, ◌>>◌}

pub record UserRow : Type 0 where
  pub id : ℕ
  pub username : String
  pub password_hash : String
  pub failed_count : ℕ
  pub locked_until : Option ℤ
  pub created_at : ℤ

pub record SessionRow : Type 0 where
  pub token : String
  pub user_id : ℕ
  pub created_at : ℤ
  pub expires_at : ℤ
  pub last_seen : ℤ
  pub ip : Option String

pub record AuditRow : Type 0 where
  pub id : ℕ
  pub ts : ℤ
  pub user_id : Option ℕ
  pub username : Option String
  pub ip : Option String
  pub action : String
  pub target : Option String
  pub detail : Option String

-- The two counters are those of AUTOINCREMENT: the ids that were never given.
pub record Database : Type 0 where
  pub users : List UserRow
  pub sessions : List SessionRow
  pub audit_log : List AuditRow
  pub next_user : ℕ
  pub next_audit : ℕ

-- What SCHEMA makes of an empty file.
abbrev pub fresh_database : Database
fresh_database = record { users = []; sessions = []; audit_log = []; next_user = 1; next_audit = 1 }

-- `system_time n` is none where the clock stands before the epoch.
pub record Env : Type 0 where
  pub system_time : ℕ → Option ℕ
  pub pool_fails : ℕ → Bool
  pub statement_fails : ℕ → Bool
  pub random_bytes : ℕ → List ℕ

-- `at` counts what was asked of the environment, `verifications` the runs of argon2 that compared a
-- password, and `dummy_hash` is the cell of the lazy DUMMY_HASH.
pub record World : Type 0 where
  pub db : Database
  pub at : ℕ
  pub verifications : ℕ
  pub dummy_hash : Option String

abbrev pub tick : World → World
tick w = record w { at = w.at + 1 }

abbrev pub seconds : Option ℕ → ℤ
seconds none = pos 0
seconds (some s) = as_i64 s

-- A SELECT: what it answers, with the tables as they are.
unfoldable pub reading : {A : Type 0} → (Database → A) → Database → Result SqlError (A × Database)
reading f db = ok (f db, db)

module _ (env : Env) where
  unfoldable pub now_unix : {E : Type 0} → Exec World E ℤ
  now_unix w = (ok (seconds (env.system_time w.at)), tick w)

  -- OsRng: the bytes of one request.
  unfoldable pub fill_bytes : {E : Type 0} → Exec World E (List ℕ)
  fill_bytes w = (ok (env.random_bytes w.at), tick w)

  -- pool.get()
  unfoldable pub get_conn : Exec World Anyhow (Unit {0})
  get_conn w = if env.pool_fails w.at then (err pool, tick w) else (ok tt, tick w)

  abbrev answer : {A : Type 0} → World → Result SqlError (A × Database) → Result Anyhow A × World
  answer w (ok (a, db)) = (ok a, record w { db = db; at = w.at + 1 })
  answer w (err e) = (err (sql e), tick w)

  -- One statement: it fails with nothing written, or does what its SQL says.
  unfoldable pub statement :
      {A : Type 0} → (Database → Result SqlError (A × Database)) → World → Result Anyhow A × World
  statement q w =
      if env.statement_fails w.at then (err (sql statement_failed), tick w) else answer w (q w.db)

  -- The manager connects once when the pool is built.
  unfoldable pub open_pool : Exec World Anyhow (Unit {0})
  open_pool = get_conn

  -- SCHEMA has only CREATE … IF NOT EXISTS, and the tables are there.
  unfoldable pub migrate : Exec World Anyhow (Unit {0})
  migrate = do open_pool; get_conn; statement (reading λ db. tt)
