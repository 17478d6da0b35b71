-- ===== src/State/Retention.antt =====
-- src/state.rs, `spawn_audit_purge`, and src/db/audit.rs: which entries of the log a tick leaves.
use mathlib.Core.Logic.{◌↔◌}
use vps_monitor_webui.Prelude.{
  ℕ, ◌+◌, ◌*◌, ◌<◌, ◌^◌, ◌≡◌, ◌⊎◌, refl, ap, ◌∙◌, sym, subst, true, not, retain, Bool-cases, inl,
  inr, arith,
}
use vps_monitor_webui.Prelude.Int.{
  ℤ, pos, ◌≤ℤ◌, ◌+ℤ◌, ◌-ℤ◌, ◌*ℤ◌, ltb_ℤ, as_i64, sub_i64, mul_i64, wrap_i64, -ℤ_parts, +ℤ_parts,
}
use vps_monitor_webui.Exec.{ignore, ◌>>=◌}
use vps_monitor_webui.Db.{Env, World, Database, AuditRow, seconds, now_unix, get_conn, statement}
use vps_monitor_webui.Prelude.In.{In, In-retain}
use vps_monitor_webui.Db.Audit.{is_older, cutoff_at, delete_older, purge_older_than}
use vps_monitor_webui.State.{audit_purge}
use vps_monitor_webui.State.Purges.{TickFails}

-- Without overflow the cutoff is the moment that many days ago.
cutoff_at_lem :
    (now : ℕ) (days : ℕ)
    → now < 2 ^ 63
    → days * 86400 < 2 ^ 63
    → cutoff_at (pos now) days ≡ pos now -ℤ pos (days * 86400)
unfolding cutoff_at as_i64 mul_i64 sub_i64 ◌*ℤ◌ ◌-ℤ◌ wrap_i64
cutoff_at_lem now days h k = ground arith

not_older : (ts c : ℤ) → (not (ltb_ℤ ts c) ≡ true) ↔ (c ≤ℤ ts)
not_older ts c = ground arith

moved_over : (a d ts : ℤ) → (a -ℤ d ≤ℤ ts) ↔ (a ≤ℤ ts +ℤ d)
moved_over a d ts =
    let difference = -ℤ_parts a d in let sum = +ℤ_parts ts d in (λ h. omega arith, λ h. omega arith)

-- Whether an entry is kept, in exact arithmetic.
young :
    (days now : ℕ) (r : AuditRow)
    → now < 2 ^ 63
    → days * 86400 < 2 ^ 63
    → (not (is_older (cutoff_at (pos now) days) r) ≡ true) ↔ (pos now ≤ℤ r.ts +ℤ pos (days * 86400))
young days now r h k = rw (cutoff_at_lem now days h k) (
    let d : ℤ = pos (days * 86400) in
    let older = not_older r.ts (pos now -ℤ d) in
    let over = moved_over (pos now) d r.ts in (λ x. over.0 (older.0 x), λ x. older.1 (over.1 x)))

module _ (env : Env) (w : World) (days : ℕ) where
  abbrev cutoff : ℤ
  cutoff = cutoff_at (seconds (env.system_time (w.at + 1))) days

  audit_purge_lem :
      (TickFails env w × ((audit_purge env days w).1.db ≡ w.db))
      ⊎ ((audit_purge env days w).1.db
          ≡ record w.db { audit_log = retain (λ r. not (is_older cutoff r)) w.db.audit_log })
  unfolding audit_purge ignore ◌>>=◌ get_conn purge_older_than now_unix statement delete_older
  audit_purge_lem = elim (Bool-cases (env.pool_fails w.at)) [
    | inl e ↦ inl (inl e, rw e refl)
    | inr e ↦ elim (Bool-cases (env.statement_fails (w.at + 1 + 1))) [
      | inl f ↦ inl (inr f, rw e (rw f refl))
      | inr f ↦ inr (rw e (rw f refl))
    ]
  ]

  kept_In :
      (now : ℕ)
      → seconds (env.system_time (w.at + 1)) ≡ pos now
      → now < 2 ^ 63
      → days * 86400 < 2 ^ 63
      → {db : Database}
      → db ≡ record w.db { audit_log = retain (λ r. not (is_older cutoff r)) w.db.audit_log }
      → (r : AuditRow)
      → In r db.audit_log ↔ ((In r w.db.audit_log) × (pos now ≤ℤ r.ts +ℤ pos (days * 86400)))
  kept_In now clock h k e r =
      let kept_if = λ (c : ℤ) (x : AuditRow). not (is_older c x) in
      let exact : cutoff ≡ cutoff_at (pos now) days = ap (λ t. cutoff_at t days) clock in
      let at_exact = In-retain (kept_if (cutoff_at (pos now) days)) r w.db.audit_log in
      let keeps = young days now r h k in
      let log =
        ap (λ (d : Database). d.audit_log) e ∙ ap (λ c. retain (kept_if c) w.db.audit_log) exact in
      (
        λ i. let x = at_exact.0 (subst (In r) log i) in (x.0, keeps.0 x.1),
        λ x. subst (In r) (sym log) (at_exact.1 (x.0, keeps.1 x.1)),
      )

  -- A tick of the purge of the log, for a number of days whose seconds fit 63 bits, on a clock after the
  -- epoch: unless its connection or its statement fails, where the tables stay as they were, it leaves
  -- exactly the entries whose time and the days after it reach the reading of the clock; users and
  -- sessions stay in any case.
  pub audit_purge-In :
      (now : ℕ)
      → seconds (env.system_time (w.at + 1)) ≡ pos now
      → now < 2 ^ 63
      → days * 86400 < 2 ^ 63
      → let db = (audit_purge env days w).1.db in
        ((TickFails env w × (db ≡ w.db))
          ⊎ ((r : AuditRow)
              → In r db.audit_log
                ↔ ((In r w.db.audit_log) × (pos now ≤ℤ r.ts +ℤ pos (days * 86400)))))
        × (db.users ≡ w.db.users)
        × (db.sessions ≡ w.db.sessions)
  audit_purge-In now clock h k = elim audit_purge_lem [
    | inl (why, e) ↦
        (inl (why, e), ap (λ (d : Database). d.users) e, ap (λ (d : Database). d.sessions) e)
    | inr e ↦ (
      inr (kept_In now clock h k e),
      ap (λ (d : Database). d.users) e,
      ap (λ (d : Database). d.sessions) e,
    )
  ]
