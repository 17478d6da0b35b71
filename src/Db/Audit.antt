-- ===== src/Db/Audit.antt =====
-- src/db/audit.rs: the audit log.
pub mod Laws
use vps_monitor_webui.Prelude.{
  ℕ, ◌+◌, String, Bool, not, List, [], ◌∷◌, ◌++◌, map, Option, length, retain, take,
}
use vps_monitor_webui.Prelude.Int.{ℤ, pos, negsuc, ltb_ℤ, leb_ℤ, as_i64, sub_i64, mul_i64}
use vps_monitor_webui.Prelude.Sort.{sort_by}
use vps_monitor_webui.Result.{Result, ok}
use vps_monitor_webui.Error.{Anyhow, SqlError}
use vps_monitor_webui.Exec.{Exec, ◌>>=◌}
use vps_monitor_webui.Db.{AuditRow, Database, Env, World, now_unix, reading, statement}

pub record AuditEntry : Type 0 where
  pub id : ℕ
  pub ts : ℤ
  pub username : Option String
  pub ip : Option String
  pub action : String
  pub target : Option String
  pub detail : Option String

pub record AuditWrite : Type 0 where
  pub user_id : Option ℕ
  pub username : Option String
  pub ip : Option String
  pub action : String
  pub target : Option String
  pub detail : Option String

abbrev pub audit_row : ℕ → ℤ → AuditWrite → AuditRow
audit_row id ts e = record {
  id = id;
  ts = ts;
  user_id = e.user_id;
  username = e.username;
  ip = e.ip;
  action = e.action;
  target = e.target;
  detail = e.detail;
}

unfoldable pub insert_audit : ℤ → AuditWrite → Database → Result SqlError (Unit {0} × Database)
insert_audit now e db = ok (
  tt,
  record db {
    audit_log = db.audit_log ++ audit_row db.next_audit now e ∷ [];
    next_audit = db.next_audit + 1;
  },
)

abbrev pub to_entry : AuditRow → AuditEntry
to_entry r = record {
  id = r.id;
  ts = r.ts;
  username = r.username;
  ip = r.ip;
  action = r.action;
  target = r.target;
  detail = r.detail;
}

-- ORDER BY ts DESC
abbrev pub newer : AuditRow → AuditRow → Bool
newer a b = leb_ℤ b.ts a.ts

-- LIMIT: a negative limit is none.
unfoldable pub limit_rows {ℓ} : {A : Type ℓ} → ℤ → List A → List A
limit_rows (pos n) rows = take n rows
limit_rows (negsuc n) rows = rows

unfoldable pub select_entries : ℤ → List AuditRow → List AuditEntry
unfolding limit_rows
select_entries limit rows = map to_entry (limit_rows limit (sort_by newer rows))

abbrev pub is_older : ℤ → AuditRow → Bool
is_older cutoff r = ltb_ℤ r.ts cutoff

-- now_unix() - (retain_days as i64) * 86400
unfoldable pub cutoff_at : ℤ → ℕ → ℤ
cutoff_at now retain_days = sub_i64 now (mul_i64 (as_i64 retain_days) (pos 86400))

-- DELETE FROM audit_log WHERE ts < ?1, with the number of rows.
unfoldable pub delete_older : ℤ → Database → Result SqlError (ℕ × Database)
delete_older cutoff db = ok (
  length (retain (is_older cutoff) db.audit_log),
  record db { audit_log = retain (λ r. not (is_older cutoff r)) db.audit_log },
)

module _ (env : Env) where
  unfoldable pub write : AuditWrite → Exec World Anyhow (Unit {0})
  write e = do now ← now_unix env; statement env (insert_audit now e)

  unfoldable pub list : ℤ → Exec World Anyhow (List AuditEntry)
  list limit = statement env (reading λ db. select_entries limit db.audit_log)

  unfoldable pub purge_older_than : ℕ → Exec World Anyhow ℕ
  purge_older_than retain_days = do
    now ← now_unix env
    statement env (delete_older (cutoff_at now retain_days))
