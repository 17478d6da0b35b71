-- ===== src/Db/Users.antt =====
-- src/db/users.rs: the table of users.
pub mod Laws
pub mod Lockout
pub mod Race
use mathlib.Core.Option
use vps_monitor_webui.Prelude.{
  ℕ, ◌+◌, ◌%◌, ◌^◌, String, Bool, true, false, ◌==◌, List, [], ◌∷◌, map, Option, none, some, ltb,
  leb, nat_eq, if◌then◌else◌, find, any, length, retain,
}
use mathlib.Core.List.{◌++◌ as append}
use Prim.Native.String.{◌++◌}
use vps_monitor_webui.Prelude.Int.{ℤ, add_i64}
use vps_monitor_webui.Prelude.Sort.{sort_by}
use vps_monitor_webui.Result.{Result, ok, err}
use vps_monitor_webui.Error.{
  Anyhow, msg, SqlError, constraint_violation, query_returned_no_rows, invalid_column_type,
}
use vps_monitor_webui.Exec.{Exec, pure, fail, choose, ◌>>=◌, ◌>>◌}
use vps_monitor_webui.Db.{UserRow, Database, Env, World, now_unix, reading, statement}

pub record User : Type 0 where
  pub id : ℕ
  pub username : String
  pub created_at : ℤ

pub record UserAuth : Type 0 where
  pub id : ℕ
  pub username : String
  pub password_hash : String
  pub failed_count : ℕ
  pub locked_until : Option ℤ

abbrev pub named : String → UserRow → Bool
named username u = u.username == username

abbrev pub has_id : ℕ → UserRow → Bool
has_id id u = nat_eq u.id id

-- UPDATE users SET … WHERE …, with the number of rows that it changed.
unfoldable pub update : (UserRow → Bool) → (UserRow → UserRow) → List UserRow → List UserRow
update p f [] = []
update p f (u ∷ us) = (if p u then f u else u) ∷ update p f us

-- INSERT INTO users …: a taken name violates UNIQUE.
unfoldable pub insert_user : String → String → ℤ → Database → Result SqlError (ℕ × Database)
insert_user username password_hash now db =
    if any (named username) db.users
    then err constraint_violation
    else ok (
      db.next_user,
      record db {
        users = append db.users (
            record {
              id = db.next_user;
              username = username;
              password_hash = password_hash;
              failed_count = 0;
              locked_until = none;
              created_at = now;
            }
            ∷ []);
        next_user = db.next_user + 1;
      },
    )

abbrev to_user : UserRow → User
to_user u = record { id = u.id; username = u.username; created_at = u.created_at }

-- The column is an INTEGER of 64 bits, read `as u32`.
abbrev pub to_auth : UserRow → UserAuth
to_auth u = record {
  id = u.id;
  username = u.username;
  password_hash = u.password_hash;
  failed_count = u.failed_count % 2 ^ 32;
  locked_until = u.locked_until;
}

abbrev by_id : UserRow → UserRow → Bool
by_id a b = leb a.id b.id

-- SELECT failed_count + 1 …: past the last i64 SQLite answers with a REAL, which `r.get` refuses.
unfoldable pub select_next_count : ℕ → Database → Result SqlError (ℕ × Database)
select_next_count user_id db = elim (find (has_id user_id) db.users) [
  | none ↦ err query_returned_no_rows
  | some u ↦
      if ltb (u.failed_count + 1) (2 ^ 63)
      then ok (u.failed_count + 1, db)
      else err invalid_column_type
]

abbrev pub with_failures : ℕ → Option ℤ → UserRow → UserRow
with_failures next lock u = record u { failed_count = next; locked_until = lock }

unfoldable pub update_failures : ℕ → Option ℤ → ℕ → Database → Result SqlError (Unit {0} × Database)
update_failures next lock user_id db =
    ok (tt, record db { users = update (has_id user_id) (with_failures next lock) db.users })

abbrev pub with_password : String → UserRow → UserRow
with_password password_hash u = record u {
  password_hash = password_hash;
  failed_count = 0;
  locked_until = none;
}

unfoldable pub update_password : String → String → Database → Result SqlError (ℕ × Database)
update_password username password_hash db = ok (
  length (retain (named username) db.users),
  record db { users = update (named username) (with_password password_hash) db.users },
)

module _ (env : Env) where
  unfoldable pub create : String → String → Exec World Anyhow ℕ
  create username password_hash = do
    now ← now_unix env
    statement env (insert_user username password_hash now)

  unfoldable pub list : Exec World Anyhow (List User)
  list = statement env (reading λ db. map to_user (sort_by by_id db.users))

  unfoldable pub find_for_auth : String → Exec World Anyhow (Option UserAuth)
  find_for_auth username =
      statement env (reading λ db. Option.map to_auth (find (named username) db.users))

  -- The lock of the next state: the clock is read only where the limit is reached.
  lock_after : ℕ → ℕ → ℤ → Exec World Anyhow (Option ℤ)
  lock_after next max_failures lockout_secs =
      choose (leb max_failures (next % 2 ^ 32))
        (do now ← now_unix env; pure (some (add_i64 now lockout_secs))) (pure none)

  unfoldable pub record_failed : ℕ → ℕ → ℤ → Exec World Anyhow (Unit {0})
  unfolding lock_after
  record_failed user_id max_failures lockout_secs = do
    next ← statement env (select_next_count user_id)
    lock ← lock_after next max_failures lockout_secs
    statement env (update_failures next lock user_id)

  unfoldable pub reset_failed : ℕ → Exec World Anyhow (Unit {0})
  reset_failed user_id = statement env (update_failures 0 none user_id)

  unfoldable pub set_password : String → String → Exec World Anyhow (Unit {0})
  set_password username password_hash = do
    n ← statement env (update_password username password_hash)
    choose (nat_eq n 0) (fail (msg ("user '" ++ username ++ "' not found"))) (pure tt)
