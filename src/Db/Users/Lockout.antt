-- ===== src/Db/Users/Lockout.antt =====
-- src/db/users.rs, `record_failed`: counting the failures of a user, and the lock.
use vps_monitor_webui.Prelude.{
  ℕ, zero, suc, ◌+◌, ◌%◌, ◌^◌, ◌<◌, ◌≤◌, ◌≡◌, refl, ◌∙◌, List, [], ◌∷◌, Option, none, some, arith,
  find, leb, if◌then◌else◌, Bool-cases, inl, inr,
}
use vps_monitor_webui.Prelude.Int.{ℤ, add_i64}
use vps_monitor_webui.Result.{ok}
use vps_monitor_webui.Error.{Anyhow}
use vps_monitor_webui.Exec.{Exec, pure, ◌>>=◌, ◌>>◌}
use vps_monitor_webui.Exec.Inversion.{bind_runs}
use vps_monitor_webui.Db.{Env, World, Database, UserRow, seconds, tick, now_unix}
use vps_monitor_webui.Db.Facts.{IsHealthy, statement_runs}
use vps_monitor_webui.Db.Users.{
  has_id, update, with_failures, select_next_count, update_failures, lock_after, record_failed,
}

-- The row of a user after a change of that row, which keeps its id.
pub find-update :
    (id : ℕ) (f : UserRow → UserRow) (users : List UserRow) (u : UserRow)
    → ((r : UserRow) → (f r).id ≡ r.id)
    → find (has_id id) users ≡ some u
    → find (has_id id) (update (has_id id) f users) ≡ some (f u)
unfolding find update
find-update id f [] u same h = absurd (ground arith)
find-update id f (r ∷ rest) u same h = ground (arith, find-update id f rest u same, same r)

-- The lock that the failure number `next` sets at a reading of the clock.
abbrev pub lock_at : ℕ → ℕ → ℤ → ℤ → Option ℤ
lock_at next max_failures lockout now =
    if leb max_failures (next % 2 ^ 32) then some (add_i64 now lockout) else none

module _ (env : Env) (healthy : IsHealthy env) (id max_failures : ℕ) (lockout : ℤ) where
  lock_after_runs :
      (next : ℕ) (w : World)
      → (v : World) × (lock_after env next max_failures lockout w
          ≡ (ok (lock_at next max_failures lockout (seconds (env.system_time w.at))), v))
        × (v.db ≡ w.db)
        × (w.at ≤ v.at)
  unfolding lock_after now_unix ◌>>=◌
  lock_after_runs next w = elim (Bool-cases (leb max_failures (next % 2 ^ 32))) [
    | inl reached ↦ (tick w, rw reached, refl, omega arith)
    | inr below ↦ (w, rw below, refl, omega arith)
  ]

  -- One failure: the count goes up by one, and the lock is set from the limit on, for the lockout
  -- from now, and cleared below it.
  pub record_failed_runs :
      (w : World) (u : UserRow)
      → find (has_id id) w.db.users ≡ some u
      → u.failed_count + 1 < 2 ^ 63
      → (v : World) × (record_failed env id max_failures lockout w ≡ (ok tt, v))
        × (v.db ≡ record w.db {
          users =
              update
                (has_id id)
                (with_failures (u.failed_count + 1) (
                  lock_at
                    (u.failed_count + 1)
                    max_failures
                    lockout
                    (seconds (env.system_time (w.at + 1)))))
                w.db.users;
        })
        × (w.at + 1 < v.at)
  unfolding record_failed
  record_failed_runs w u found room =
      let next = u.failed_count + 1 in
      let now = seconds (env.system_time (w.at + 1)) in
      let select =
        statement_runs env healthy (select_next_count id) w next w.db
          (unfold select_next_count in ground arith) in
      let db' : Database = record w.db {
        users =
            update (has_id id) (with_failures next (lock_at next max_failures lockout now))
              w.db.users;
      } in
      let p = lock_after_runs next (tick w) in
      let write =
        statement_runs env healthy (update_failures next (lock_at next max_failures lockout now) id)
          p.0 tt db' (unfold update_failures in ground (arith, p.2)) in
      (
        record p.0 { db = db'; at = p.0.at + 1 },
        bind_runs _ _ w (tick w) next select ∙ bind_runs _ _ (tick w) p.0 _ p.1 ∙ write,
        refl,
        omega (arith, p.3),
      )

  -- The failures of several attempts, one after the other.
  unfoldable pub failures : ℕ → Exec World Anyhow (Unit {0})
  failures zero = pure tt
  failures (suc n) = do failures n; record_failed env id max_failures lockout

  -- The lock was set for the lockout from a reading of the clock during the last of `n` failures.
  pub record LockedLast (n : ℕ) (w v : World) (lock : Option ℤ) : Type 0 where
    pub before : World
    pub reading : ℕ
    pub earlier : ℕ
    pub last : n ≡ suc earlier
    pub up_to : failures earlier w ≡ (ok tt, before)
    pub begun : before.at ≤ reading
    pub over : reading < v.at
    pub until : lock ≡ some (add_i64 (seconds (env.system_time reading)) lockout)

  -- The row of a user after a number of failures in a row: all are counted, and the lock stands
  -- exactly if the count has reached the limit, from the last failure on.
  pub record Counted (u : UserRow) (n : ℕ) (w v : World) : Type 0 where
    pub row : UserRow
    pub stored : find (has_id id) v.db.users ≡ some row
    pub count : row.failed_count ≡ u.failed_count + n
    pub locked : 0 < n → max_failures ≤ row.failed_count → LockedLast n w v row.locked_until
    pub open_below : 0 < n → row.failed_count < max_failures → row.locked_until ≡ none
    pub same_hash : row.password_hash ≡ u.password_hash
    pub same_name : row.username ≡ u.username

  -- Where nothing fails, and while the count stays below 2^32, `n` failed attempts in a row on an
  -- existing user are all counted. After one attempt or more, if the count has reached `max_failures`,
  -- the user has a lock that ends the lockout after a reading of the clock during the last attempt, and
  -- else no lock; name and hash stay.
  pub failures-Counted :
      (n : ℕ) (w : World) (u : UserRow)
      → find (has_id id) w.db.users ≡ some u
      → u.failed_count + n < 2 ^ 32
      → (v : World) × (failures n w ≡ (ok tt, v)) × Counted u n w v
  unfolding failures
  failures-Counted zero w u found room = (
    w,
    refl,
    record {
      row = u;
      stored = found;
      count = omega arith;
      locked = λ h. absurd (omega arith);
      open_below = λ h. absurd (omega arith);
      same_hash = refl;
      same_name = refl;
    },
  )
  failures-Counted (suc n) w u found room =
      let before = failures-Counted n w u found (omega arith) in
      let c = before.2 in
      let step = record_failed_runs before.0 c.row c.stored (omega (arith, c.count)) in
      let now = seconds (env.system_time (before.0.at + 1)) in
      let next = c.row.failed_count + 1 in
      (
        step.0,
        bind_runs (failures n) _ w before.0 tt before.1 ∙ step.1,
        record {
          row = with_failures next (lock_at next max_failures lockout now) c.row;
          stored = rw step.2 (
              find-update id (with_failures next (lock_at next max_failures lockout now))
                before.0.db.users c.row (λ r. refl) c.stored);
          count = omega (arith, c.count);
          locked = λ h reached. record {
            before = before.0;
            reading = before.0.at + 1;
            earlier = n;
            last = refl;
            up_to = before.1;
            begun = omega arith;
            over = step.3;
            until = ground (arith, c.count);
          };
          open_below = λ h below. ground (arith, c.count);
          same_hash = c.same_hash;
          same_name = c.same_name;
        },
      )
