-- ===== src/Handlers/Audit.antt =====
-- src/handlers/audit.rs: the listing of the audit log.
use mathlib.Core.List.{Perm}
use Prim.Native.Nat.{min}
use vps_monitor_webui.Prelude.{
  ℕ, ◌≤◌, ◌<◌, ltb, ◌≡◌, refl, true, false, List, ◌++◌, map, Option, none, some, arith, Bool-cases,
  inl, inr, All, length, take, if◌then◌else◌,
}
use vps_monitor_webui.Prelude.Int.{ℤ, pos, negsuc, ltb_ℤ}
use vps_monitor_webui.Prelude.Sort.{sort_by, IsSorted}
use vps_monitor_webui.Prelude.Top.{take-sort_by}
use vps_monitor_webui.Result.{ok, unwrap_or}
use vps_monitor_webui.Error.{AppError, other, from_r2d2}
use vps_monitor_webui.Exec.{Exec, map_err, ◌>>=◌, ◌>>◌}
use vps_monitor_webui.Exec.Inversion.{bind_inv, map_err_inv}
use vps_monitor_webui.Config.{Config}
use vps_monitor_webui.Db.{Env, World, AuditRow, get_conn, reading}
use vps_monitor_webui.Db.Facts.{get_conn_ok, statement_ok}
use vps_monitor_webui.Db.Audit
use vps_monitor_webui.Db.Audit.{AuditEntry, to_entry, newer, limit_rows, select_entries}
use vps_monitor_webui.Auth.Middleware.{Parts, AuthUser, from_request_parts}
use vps_monitor_webui.Auth.Middleware.Sound.{LetIn, from_request_parts-LetIn}

-- Ord::clamp
abbrev clamp : ℤ → ℤ → ℤ → ℤ
clamp lo hi z = if ltb_ℤ z lo then lo else if ltb_ℤ hi z then hi else z

abbrev pub audit_limit : Option ℤ → ℤ
audit_limit limit = clamp (pos 1) (pos 1000) (unwrap_or limit (pos 100))

-- The handler, with its extractor.
unfoldable pub audit_log : Env → Config → Parts → Option ℤ → Exec World AppError (List AuditEntry)
audit_log env cfg parts limit = do
  user ← from_request_parts env cfg parts
  map_err from_r2d2 (get_conn env)
  map_err other (Audit.list env (audit_limit limit))

-- How many entries are asked for: a hundred where no number is given, and else the number, but one at
-- least and a thousand at most.
pub data Asked : Option ℤ → ℕ → Type 0 where
  by_default : Asked none 100
  too_few : (z : ℤ) → ltb_ℤ z (pos 1) ≡ true → Asked (some z) 1
  in_range : (n : ℕ) → 1 ≤ n → n ≤ 1000 → Asked (some (pos n)) n
  too_many : (n : ℕ) → 1000 < n → Asked (some (pos n)) 1000

audit_limit-Asked : (limit : Option ℤ) → (n : ℕ) × (audit_limit limit ≡ pos n) × Asked limit n
audit_limit-Asked none = (100, refl, by_default)
audit_limit-Asked (some (negsuc k)) = (1, ground arith, too_few (negsuc k) (ground arith))
audit_limit-Asked (some (pos k)) = elim (Bool-cases (ltb k 1)) [
  | inl low ↦ (1, ground (arith, low), too_few (pos k) (ground (arith, low)))
  | inr enough ↦ elim (Bool-cases (ltb 1000 k)) [
    | inl high ↦ (1000, ground (arith, enough, high), too_many k (ground (arith, high)))
    | inr fits ↦ (
      k,
      ground (arith, enough, fits),
      in_range k (ground (arith, enough)) (ground (arith, fits)),
    )
  ]
]

newer_trans : (x y z : AuditRow) → newer x y ≡ true → newer y z ≡ true → newer x z ≡ true
newer_trans x y z h k = ground arith

newer_total : (x y : AuditRow) → newer x y ≡ false → newer y x ≡ true
newer_total x y h = ground arith

list_ok :
    (env : Env) (limit : ℤ) (w v : World) (entries : List AuditEntry)
    → Audit.list env limit w ≡ (ok entries, v)
    → (entries ≡ select_entries limit w.db.audit_log) × (v.db ≡ w.db)
unfolding Audit.list reading
list_ok env limit w v entries h = let row = statement_ok env _ w v entries h in ground (arith, row)

-- An answer of the listing went to a request with a session. It has as many entries as were asked for,
-- or all that there are: 100 where no number is given, one at least and 1000 at most. They stand the
-- newest first, made of rows of the log, of which the others are no newer.
pub audit_log-newest :
    (env : Env) (cfg : Config) (parts : Parts) (limit : Option ℤ) (w v : World)
    (entries : List AuditEntry)
    → audit_log env cfg parts limit w ≡ (ok entries, v)
    → ((u : AuthUser) × (t : World) × LetIn env cfg parts w u t)
      × ((rows : List AuditRow) × (rest : List AuditRow) × (entries ≡ map to_entry rows)
          × Perm (rows ++ rest) w.db.audit_log
          × IsSorted newer rows
          × All (λ kept. All (λ left. newer kept left ≡ true) rest) rows
          × ((n : ℕ) × Asked limit n × (length rows ≡ min n (length w.db.audit_log))))
unfolding audit_log select_entries limit_rows
audit_log-newest env cfg parts limit w v entries h =
    let b = bind_inv _ _ w entries v h in
    let c = bind_inv _ _ b.middle entries v b.second in
    let letin = from_request_parts-LetIn env cfg parts w b.middle b.value b.first in
    let conn =
      get_conn_ok env b.middle c.middle c.value
        (map_err_inv _ _ b.middle c.value c.middle c.first) in
    let got =
      list_ok env (audit_limit limit) c.middle v entries
        (map_err_inv _ _ c.middle entries v c.second) in
    let n = audit_limit-Asked limit in
    let top = take-sort_by newer newer_trans newer_total n.0 w.db.audit_log in
    (
      (b.value, b.middle, letin),
      (
        take n.0 (sort_by newer w.db.audit_log),
        top.0,
        ground (arith, got, conn, n.1, letin.same_audit),
        top.1,
        top.2,
        top.3,
        (n.0, n.2, top.4),
      ),
    )
