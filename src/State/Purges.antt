-- ===== src/State/Purges.antt =====
-- src/state.rs, `spawn_session_purge`: what a tick leaves to the requests.
use vps_monitor_webui.Prelude.{
  All, arith, true, [], ◌∷◌, ◌+◌, String, ◌≡◌, ◌⊎◌, refl, not, List, retain, Bool-cases, inl, inr,
}
use vps_monitor_webui.Prelude.Int.{ℤ, ◌≤ℤ◌}
use vps_monitor_webui.Exec.{ignore, ◌>>=◌}
use vps_monitor_webui.Db.{Env, World, SessionRow, seconds, now_unix, get_conn, statement}
use vps_monitor_webui.Db.Sessions.{select_active, is_expired, delete_expired, purge_expired}
use vps_monitor_webui.Db.Sessions.Active.{select_active-purge}
use vps_monitor_webui.State.{session_purge}

retain-All :
    (now : ℤ) (ss : List SessionRow)
    → All (λ s. now ≤ℤ s.expires_at) (retain (λ s. not (is_expired now s)) ss)
unfolding retain
retain-All now [] = tt
retain-All now (s ∷ ss) = elim (Bool-cases (is_expired now s)) [
  | inl e ↦ rw e (retain-All now ss)
  | inr e ↦ rw e (ground (arith, e), retain-All now ss)
]

module _ (env : Env) (w : World) where
  abbrev kept : List SessionRow
  kept = retain (λ s. not (is_expired (seconds (env.system_time (w.at + 1))) s)) w.db.sessions

  -- The connection or the statement fails.
  abbrev pub TickFails : Type 0
  TickFails = (env.pool_fails w.at ≡ true) ⊎ (env.statement_fails (w.at + 1 + 1) ≡ true)

  -- What a tick leaves: everything, or everything but the sessions that had expired.
  session_purge_lem :
      (TickFails × ((session_purge env w).1.db ≡ w.db))
      ⊎ ((session_purge env w).1.db ≡ record w.db { sessions = kept })
  unfolding session_purge ignore ◌>>=◌ get_conn purge_expired now_unix statement delete_expired
  session_purge_lem = elim (Bool-cases (env.pool_fails w.at)) [
    | inl e ↦ inl (inl e, rw e refl)
    | inr e ↦ elim (Bool-cases (env.statement_fails (w.at + 1 + 1))) [
      | inl f ↦ inl (inr f, rw e (rw f refl))
      | inr f ↦ inr (rw e (rw f refl))
    ]
  ]

  -- A tick of the purge, whether it fails or not, changes nothing for the requests that come after its
  -- reading of the clock: each token finds the session that it would have found without the tick. And
  -- it leaves only sessions that had not expired by that reading, unless its connection or its statement
  -- fails, where the tables stay as they were.
  pub session_purge-select_active :
      (token : String) (now : ℤ)
      → seconds (env.system_time (w.at + 1)) ≤ℤ now
      → let db = (session_purge env w).1.db in
        (select_active token now db.users db.sessions
          ≡ select_active token now w.db.users w.db.sessions)
        × ((TickFails × (db ≡ w.db))
            ⊎ All (λ s. seconds (env.system_time (w.at + 1)) ≤ℤ s.expires_at) db.sessions)
  session_purge-select_active token now h = elim session_purge_lem [
    | inl (why, e) ↦ (rw e refl, inl (why, e))
    | inr e ↦ (
      rw e (select_active-purge token now w.db.users _ w.db.sessions h),
      inr (rw e (retain-All (seconds (env.system_time (w.at + 1))) w.db.sessions)),
    )
  ]
