-- ===== src/Db/Sessions.antt =====
-- src/db/sessions.rs: the table of sessions.
pub mod Laws
pub mod Active
pub mod Store
pub mod Refined
use vps_monitor_webui.Prelude.{
  ℕ, String, Bool, not, ◌&&◌, ◌==◌, List, [], ◌∷◌, ◌++◌, Option, none, some, if◌then◌else◌, find,
  any, retain, length,
}
use vps_monitor_webui.Prelude.Int.{ℤ, ltb_ℤ, add_i64}
use vps_monitor_webui.Result.{Result, ok, err}
use vps_monitor_webui.Error.{Anyhow, SqlError, constraint_violation}
use vps_monitor_webui.Exec.{Exec, ◌>>=◌}
use vps_monitor_webui.Db.{UserRow, SessionRow, Database, Env, World, now_unix, reading, statement}
use vps_monitor_webui.Db.Users.{has_id}

pub record SessionRecord : Type 0 where
  pub user_id : ℕ
  pub username : String
  pub expires_at : ℤ

abbrev pub with_token : String → SessionRow → Bool
with_token token s = s.token == token

-- INSERT INTO sessions …: `token` is the primary key, and `user_id` a foreign key into users.
unfoldable pub insert_session : SessionRow → Database → Result SqlError (Unit {0} × Database)
insert_session s db =
    if any (with_token s.token) db.sessions
    then err constraint_violation
    else if any (has_id s.user_id) db.users
    then ok (tt, record db { sessions = db.sessions ++ s ∷ [] })
    else err constraint_violation

abbrev join_user : SessionRow → Option UserRow → Option SessionRecord → Option SessionRecord
join_user s none later = later
join_user s (some u) later =
    some (record { user_id = s.user_id; username = u.username; expires_at = s.expires_at })

-- The first row of sessions JOIN users … WHERE token = ?1 AND expires_at > ?2.
unfoldable pub select_active : String → ℤ → List UserRow → List SessionRow → Option SessionRecord
select_active token now users [] = none
select_active token now users (s ∷ rest) =
    let later = select_active token now users rest in
    if with_token token s && ltb_ℤ now s.expires_at
    then join_user s (find (has_id s.user_id) users) later
    else later

-- UPDATE sessions SET … WHERE token = …
unfoldable pub update_token : String → (SessionRow → SessionRow) → List SessionRow → List SessionRow
update_token token f [] = []
update_token token f (s ∷ rest) =
    (if with_token token s then f s else s) ∷ update_token token f rest

abbrev pub seen : ℤ → SessionRow → SessionRow
seen now s = record s { last_seen = now }

abbrev pub slid : ℤ → ℤ → SessionRow → SessionRow
slid now new_exp s = record s { last_seen = now; expires_at = new_exp }

unfoldable pub update_session :
    String → (SessionRow → SessionRow) → Database → Result SqlError (Unit {0} × Database)
update_session token f db = ok (tt, record db { sessions = update_token token f db.sessions })

-- DELETE FROM sessions WHERE token = ?1
unfoldable pub delete_session : String → Database → Result SqlError (Unit {0} × Database)
delete_session token db =
    ok (tt, record db { sessions = retain (λ s. not (with_token token s)) db.sessions })

abbrev pub is_expired : ℤ → SessionRow → Bool
is_expired now s = ltb_ℤ s.expires_at now

-- DELETE FROM sessions WHERE expires_at < ?1, with the number of rows.
unfoldable pub delete_expired : ℤ → Database → Result SqlError (ℕ × Database)
delete_expired now db = ok (
  length (retain (is_expired now) db.sessions),
  record db { sessions = retain (λ s. not (is_expired now s)) db.sessions },
)

module _ (env : Env) where
  unfoldable pub create : String → ℕ → ℤ → Option String → Exec World Anyhow (Unit {0})
  create token user_id ttl_secs ip = do
    now ← now_unix env
    statement env (
        insert_session (record {
          token = token;
          user_id = user_id;
          created_at = now;
          expires_at = add_i64 now ttl_secs;
          last_seen = now;
          ip = ip;
        }))

  unfoldable pub find_active : String → Exec World Anyhow (Option SessionRecord)
  find_active token = do
    now ← now_unix env
    statement env (reading λ db. select_active token now db.users db.sessions)

  unfoldable pub touch : String → Option ℤ → Exec World Anyhow (Unit {0})
  touch token (some new_exp) = do
    now ← now_unix env
    statement env (update_session token (slid now new_exp))
  touch token none = do now ← now_unix env; statement env (update_session token (seen now))

  unfoldable pub delete : String → Exec World Anyhow (Unit {0})
  delete token = statement env (delete_session token)

  -- The number of deleted rows, and their deletion.
  unfoldable pub purge_expired : Exec World Anyhow ℕ
  purge_expired = do now ← now_unix env; statement env (delete_expired now)
