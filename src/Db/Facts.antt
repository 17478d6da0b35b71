-- ===== src/Db/Facts.antt =====
-- src/db: what one request to the environment and one statement did, from the fact that it returned.
use vps_monitor_webui.Prelude.{ℕ, ◌+◌, false, ◌≡◌, refl, arith}
use vps_monitor_webui.Prelude.Int.{ℤ}
use vps_monitor_webui.Result.{Result, ok, err}
use vps_monitor_webui.Error.{Anyhow, SqlError}
use vps_monitor_webui.Db.{
  Database, Env, World, tick, seconds, answer, now_unix, get_conn, statement,
}

module _ (env : Env) where
  pub now_unix_ok :
      {E : Type 0} (w v : World) (t : ℤ)
      → now_unix env {E = E} w ≡ (ok t, v)
      → (t ≡ seconds (env.system_time w.at)) × (v ≡ tick w)
  unfolding now_unix
  now_unix_ok w v t h = ground arith

  pub now_unix_runs :
      {E : Type 0} (w : World)
      → now_unix env {E = E} w ≡ (ok (seconds (env.system_time w.at)), tick w)
  unfolding now_unix
  now_unix_runs w = refl

  pub get_conn_ok : (w v : World) (u : Unit {0}) → get_conn env w ≡ (ok u, v) → v ≡ tick w
  unfolding get_conn
  get_conn_ok w v u h = ground arith

  module _ {A : Type 0} where
    answer_ok :
        (w v : World) (a : A) (r : Result SqlError (A × Database))
        → answer env w r ≡ (ok a, v)
        → (r ≡ ok (a, v.db)) × (v ≡ record w { db = v.db; at = w.at + 1 })
    answer_ok w v a (ok (b, db)) h = ground arith
    answer_ok w v a (err e) h = ground arith

    pub statement_ok :
        (q : Database → Result SqlError (A × Database)) (w v : World) (a : A)
        → statement env q w ≡ (ok a, v)
        → (q w.db ≡ ok (a, v.db)) × (v ≡ record w { db = v.db; at = w.at + 1 })
    unfolding statement
    statement_ok q w v a h = ground (arith, answer_ok w v a (q w.db))

    answer_err :
        (w v : World) (x : Anyhow) (r : Result SqlError (A × Database))
        → answer env w r ≡ (err x, v)
        → v ≡ tick w
    answer_err w v x (ok (b, db)) h = ground arith
    answer_err w v x (err e) h = ground arith

    -- A statement that fails has written nothing.
    pub statement_err :
        (q : Database → Result SqlError (A × Database)) (w v : World) (x : Anyhow)
        → statement env q w ≡ (err x, v)
        → v ≡ tick w
    unfolding statement
    statement_err q w v x h = ground (arith, answer_err w v x (q w.db))

-- An environment in which no connection and no statement fails.
pub record IsHealthy (env : Env) : Type 0 where
  pub connects : (n : ℕ) → env.pool_fails n ≡ false
  pub executes : (n : ℕ) → env.statement_fails n ≡ false

module _ (env : Env) (healthy : IsHealthy env) where
  pub get_conn_runs : (w : World) → get_conn env w ≡ (ok tt, tick w)
  unfolding get_conn
  get_conn_runs w = rw (healthy.connects w.at)

  pub statement_runs :
      {A : Type 0} (q : Database → Result SqlError (A × Database)) (w : World) (a : A)
      (db : Database)
      → q w.db ≡ ok (a, db)
      → statement env q w ≡ (ok a, record w { db = db; at = w.at + 1 })
  unfolding statement
  statement_runs q w a db h = rw (healthy.executes w.at, h)
