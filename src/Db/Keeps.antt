-- ===== src/Db/Keeps.antt =====
-- src/db: what a property of the tables needs of each statement to survive any use of the database,
-- whatever connections and statements fail.
use vps_monitor_webui.Prelude.{◌≡◌, refl, arith, subst}
use vps_monitor_webui.Result.{Result, ok, err, ok_snd}
use vps_monitor_webui.Error.{Anyhow, SqlError}
use vps_monitor_webui.Exec.Keeps.{Keeps}
use vps_monitor_webui.Exec.Atomic.{FailsSafe}
use vps_monitor_webui.Db.{Env, World, Database, now_unix, fill_bytes, get_conn, reading, statement}
use vps_monitor_webui.Db.Facts.{statement_ok, statement_err}

-- A property of the tables, as one of the whole state.
pub record OnDb (P : Database → Type 0) (w : World) : Type 0 where
  pub holds : P w.db

-- What a statement writes, if it does not fail, keeps the property.
pub record Preserves {A : Type 0} (P : Database → Type 0)
    (q : Database → Result SqlError (A × Database)) : Type 0 where
  pub at : (db db' : Database) (a : A) → q db ≡ ok (a, db') → P db → P db'

get_conn-db : (env : Env) (w : World) → (get_conn env w).1.db ≡ w.db
unfolding get_conn
get_conn-db env w = ground arith

pub Preserves-reading :
    {A : Type 0} {P : Database → Type 0} (f : Database → A) → Preserves P (reading f)
unfolding reading
Preserves-reading {P} f = record { at = λ db db' a e h. subst P (ok_snd e) h }

module _ (env : Env) {P : Database → Type 0} where
  pub Keeps-now_unix : {E : Type 0} → Keeps (OnDb P) (now_unix env {E = E})
  unfolding now_unix
  Keeps-now_unix = record { after = λ s h. record { holds = h.holds } }

  pub Keeps-fill_bytes : {E : Type 0} → Keeps (OnDb P) (fill_bytes env {E = E})
  unfolding fill_bytes
  Keeps-fill_bytes = record { after = λ s h. record { holds = h.holds } }

  pub Keeps-get_conn : Keeps (OnDb P) (get_conn env)
  Keeps-get_conn = record { after = λ s h. record { holds = rw (get_conn-db env s) h.holds } }

  module _ {A : Type 0} where
    statement_keeps :
        (q : Database → Result SqlError (A × Database))
        → Preserves P q
        → (w v : World) (r : Result Anyhow A) → statement env q w ≡ (r, v)
        → P w.db
        → P v.db
    statement_keeps q p w v (ok a) h x = p.at w.db v.db a (statement_ok env q w v a h).0 x
    statement_keeps q p w v (err e) h x = rw (statement_err env q w v e h) x

    pub Keeps-statement :
        (q : Database → Result SqlError (A × Database))
        → Preserves P q
        → Keeps (OnDb P) (statement env q)
    Keeps-statement q p = record {
      after = λ w h. record {
        holds = statement_keeps q p w (statement env q w).1 (statement env q w).0 refl h.holds;
      };
    }

  -- A statement that fails has written nothing.
  pub FailsSafe-statement :
      {A : Type 0} (q : Database → Result SqlError (A × Database))
      → FailsSafe (OnDb P) (statement env q)
  FailsSafe-statement q = record {
    after = λ w v e h f. record { holds = rw (statement_err env q w v e f) h.holds };
  }

pub ruleset db_rules =
    (Keeps-now_unix, Keeps-fill_bytes, Keeps-get_conn, Keeps-statement, Preserves-reading)
