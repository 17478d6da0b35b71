-- ===== src/Handlers/Auth/Counts.antt =====
-- src/handlers/auth.rs: the blocks of the login that compare no password.
use vps_monitor_webui.Prelude.{ℕ, String, ◌≡◌, refl, ap, ◌∙◌, Option, arith}
use vps_monitor_webui.Prelude.Int.{ℤ}
use vps_monitor_webui.Result.{Result, ok, err}
use vps_monitor_webui.Error.{Anyhow, SqlError}
use vps_monitor_webui.Exec.Keeps.{Keeps, keeps_rules}
use vps_monitor_webui.Db.{Env, World, Database, now_unix, fill_bytes, get_conn, statement}
use vps_monitor_webui.Db.Facts.{statement_ok, statement_err}
use vps_monitor_webui.Db.Users.{find_for_auth, record_failed, reset_failed}
use vps_monitor_webui.Db.Sessions
use vps_monitor_webui.Db.Audit
use vps_monitor_webui.Db.Audit.{AuditWrite}
use vps_monitor_webui.Auth.Password.{Crypto}
use vps_monitor_webui.Auth.Session.{new_token}
use vps_monitor_webui.Handlers.Auth.{write_audit}

-- How often a password was compared so far.
pub record Counts (n : ℕ) (w : World) : Type 0 where
  pub counted : w.verifications ≡ n

statement-verifications :
    (env : Env) {A : Type 0} (q : Database → Result SqlError (A × Database)) (w v : World)
    (r : Result Anyhow A)
    → statement env q w ≡ (r, v)
    → v.verifications ≡ w.verifications
statement-verifications env q w v (ok a) h =
    ap (λ (x : World). x.verifications) (statement_ok env q w v a h).1
statement-verifications env q w v (err e) h =
    ap (λ (x : World). x.verifications) (statement_err env q w v e h)

module _ (env : Env) {n : ℕ} where
  statement-Counts :
      {A : Type 0} (q : Database → Result SqlError (A × Database))
      → Keeps (Counts n) (statement env q)
  statement-Counts q = record {
    after = λ w h. record {
      counted =
          statement-verifications env q w (statement env q w).1 (statement env q w).0 refl
          ∙ h.counted;
    };
  }

  get_conn-Counts : Keeps (Counts n) (get_conn env)
  unfolding get_conn
  get_conn-Counts = record { after = λ w h. record { counted = ground (arith, h.counted) } }

  now_unix-Counts : {E : Type 0} → Keeps (Counts n) (now_unix env {E = E})
  unfolding now_unix
  now_unix-Counts = record { after = λ w h. record { counted = h.counted } }

  fill_bytes-Counts : {E : Type 0} → Keeps (Counts n) (fill_bytes env {E = E})
  unfolding fill_bytes
  fill_bytes-Counts = record { after = λ w h. record { counted = h.counted } }

ruleset count_rules =
    (keeps_rules, statement-Counts, get_conn-Counts, now_unix-Counts, fill_bytes-Counts)

module _ (crypto : Crypto) (env : Env) {n : ℕ} where
  pub find_for_auth-Counts : (name : String) → Keeps (Counts n) (find_for_auth env name)
  unfolding find_for_auth
  find_for_auth-Counts name = search count_rules

  pub record_failed-Counts :
      (id max : ℕ) (lockout : ℤ) → Keeps (Counts n) (record_failed env id max lockout)
  unfolding record_failed
  record_failed-Counts id max lockout = search count_rules

  pub reset_failed-Counts : (id : ℕ) → Keeps (Counts n) (reset_failed env id)
  unfolding reset_failed
  reset_failed-Counts id = search count_rules

  pub create-Counts :
      (token : String) (id : ℕ) (ttl : ℤ) (ip : Option String)
      → Keeps (Counts n) (Sessions.create env token id ttl ip)
  unfolding Sessions.create
  create-Counts token id ttl ip = search count_rules

  pub new_token-Counts : {E : Type 0} → Keeps (Counts n) (new_token crypto env {E = E})
  unfolding new_token
  new_token-Counts = search count_rules

  pub write_audit-Counts : (e : AuditWrite) → Keeps (Counts n) (write_audit crypto env e)
  unfolding write_audit Audit.write
  write_audit-Counts e = search count_rules
