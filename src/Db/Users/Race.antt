-- ===== src/Db/Users/Race.antt =====
-- src/db/users.rs, `record_failed`, by several attempts at once: its SELECT and its UPDATE are two
-- statements with no transaction around them, so that those of other attempts may stand between.
use vps_monitor_webui.Prelude.{
  ℕ, zero, suc, ◌+◌, ◌^◌, ◌<◌, ◌≡◌, refl, List, [], ◌∷◌, some, arith, find,
}
use vps_monitor_webui.Prelude.Int.{ℤ}
use vps_monitor_webui.Result.{Result, ok, ◌>>=◌}
use vps_monitor_webui.Error.{SqlError}
use vps_monitor_webui.Db.{Database, UserRow}
use vps_monitor_webui.Db.Users.{has_id, update, with_failures, select_next_count, update_failures}
use vps_monitor_webui.Db.Users.Lockout.{find-update, lock_at}

module _ (id max_failures : ℕ) (lockout now : ℤ) where
  -- The SELECTs of a number of attempts, one after the other: what each has read.
  unfoldable pub selects : ℕ → Database → Result SqlError (List ℕ × Database)
  selects zero db = ok ([], db)
  selects (suc n) db = do
    seen ← select_next_count id db
    rest ← selects n seen.1
    ok (seen.0 ∷ rest.0, rest.1)

  -- The UPDATE of each attempt, by what it has read.
  unfoldable pub updates : List ℕ → Database → Result SqlError Database
  updates [] db = ok db
  updates (next ∷ rest) db = do
    written ← update_failures next (lock_at next max_failures lockout now) id db
    updates rest written.1

  -- All attempts SELECT before the first of them UPDATEs.
  unfoldable pub at_once : ℕ → Database → Result SqlError Database
  unfolding selects updates
  at_once n db = do seen ← selects n db; updates seen.0 seen.1

  abbrev repeat : ℕ → ℕ → List ℕ
  repeat zero a = []
  repeat (suc n) a = a ∷ repeat n a

  selects_lem :
      (n : ℕ) (db : Database) (u : UserRow)
      → find (has_id id) db.users ≡ some u
      → u.failed_count + 1 < 2 ^ 63
      → selects n db ≡ ok (repeat n (u.failed_count + 1), db)
  unfolding selects select_next_count
  selects_lem zero db u found room = refl
  selects_lem (suc n) db u found room = ground (arith, selects_lem n db u found room)

  updates_lem :
      (n next : ℕ) (db : Database) (u : UserRow)
      → find (has_id id) db.users ≡ some u
      → (db' : Database) × (updates (repeat (suc n) next) db ≡ ok db')
        × (find (has_id id) db'.users
            ≡ some (with_failures next (lock_at next max_failures lockout now) u))
  unfolding updates update_failures
  updates_lem zero next db u found =
      let f = with_failures next (lock_at next max_failures lockout now) in
      (
        record db { users = update (has_id id) f db.users },
        refl,
        find-update id f db.users u (λ r. refl) found,
      )
  updates_lem (suc n) next db u found =
      let f = with_failures next (lock_at next max_failures lockout now) in
      updates_lem n next (record db { users = update (has_id id) f db.users }) (f u)
        (find-update id f db.users u (λ r. refl) found)

  -- However many failed attempts on an existing user overlap so that all of them read the count
  -- before the first writes it, the count, which has room in 64 bits, goes up by one only, and the lock is
  -- that of one failure.
  pub at_once_lem :
      (n : ℕ) (db : Database) (u : UserRow)
      → find (has_id id) db.users ≡ some u
      → u.failed_count + 1 < 2 ^ 63
      → (db' : Database) × (at_once (suc n) db ≡ ok db')
        × (find (has_id id) db'.users
            ≡ some (
                with_failures
                  (u.failed_count + 1)
                  (lock_at (u.failed_count + 1) max_failures lockout now)
                  u))
  unfolding at_once
  at_once_lem n db u found room =
      let p = updates_lem n (u.failed_count + 1) db u found in
      (p.0, rw (selects_lem (suc n) db u found room) p.1, p.2)
