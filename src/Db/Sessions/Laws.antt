-- ===== src/Db/Sessions/Laws.antt =====
-- src/db/sessions.rs: what opening a session wrote.
use vps_monitor_webui.Prelude.{
  ℕ, ◌+◌, String, ◌≡◌, true, false, [], ◌∷◌, ◌++◌, Option, none, some, arith, any,
}
use vps_monitor_webui.Prelude.Int.{ℤ, add_i64}
use vps_monitor_webui.Result.{ok}
use vps_monitor_webui.Exec.Inversion.{bind_inv}
use vps_monitor_webui.Db.{Env, World, Database, SessionRow, seconds, reading}
use vps_monitor_webui.Db.Facts.{now_unix_ok, statement_ok}
use vps_monitor_webui.Db.Users.{has_id}
use vps_monitor_webui.Db.Sessions.{
  with_token, SessionRecord, select_active, update_token, update_session, seen, slid,
  insert_session, create, find_active, touch,
}

pub insert_session_ok :
    (s : SessionRow) (db db' : Database) (u : Unit {0})
    → insert_session s db ≡ ok (u, db')
    → (any (with_token s.token) db.sessions ≡ false)
      × (any (has_id s.user_id) db.users ≡ true)
      × (db' ≡ record db { sessions = db.sessions ++ s ∷ [] })
unfolding insert_session
insert_session_ok s db db' u h = ground arith

-- The row that `create` writes, with the reading of the clock that it is stamped with.
abbrev pub new_session : String → ℕ → ℤ → Option String → ℤ → SessionRow
new_session token user_id ttl_secs ip now = record {
  token = token;
  user_id = user_id;
  created_at = now;
  expires_at = add_i64 now ttl_secs;
  last_seen = now;
  ip = ip;
}

module _ (env : Env) (token : String) (user_id : ℕ) (ttl : ℤ) (ip : Option String) where
  abbrev pub created_row : World → SessionRow
  created_row w = new_session token user_id ttl ip (seconds (env.system_time w.at))

  pub create_ok :
      (w v : World) (u : Unit {0})
      → create env token user_id ttl ip w ≡ (ok u, v)
      → (any (with_token token) w.db.sessions ≡ false)
        × (any (has_id user_id) w.db.users ≡ true)
        × (v.db ≡ record w.db { sessions = w.db.sessions ++ created_row w ∷ [] })
        × (v.at ≡ w.at + 1 + 1)
  unfolding create
  create_ok w v u h =
      let b = bind_inv _ _ w u v h in
      let clock = now_unix_ok env w b.middle b.value b.first in
      let row = statement_ok env _ b.middle v u b.second in
      ground (
        arith,
        insert_session_ok (new_session token user_id ttl ip b.value) b.middle.db v.db u row.0,
      )

module _ (env : Env) where
  pub find_active_ok :
      (token : String) (w v : World) (o : Option SessionRecord)
      → find_active env token w ≡ (ok o, v)
      → (o ≡ select_active token (seconds (env.system_time w.at)) w.db.users w.db.sessions)
        × (v ≡ record w { at = w.at + 1 + 1 })
  unfolding find_active reading
  find_active_ok token w v o h =
      let b = bind_inv _ _ w o v h in
      let clock = now_unix_ok env w b.middle b.value b.first in
      let row = statement_ok env _ b.middle v o b.second in ground (arith, clock, row)

  -- The change of the row that `touch` makes at a reading of the clock.
  abbrev pub touched : Option ℤ → ℤ → SessionRow → SessionRow
  touched none now = seen now
  touched (some new_exp) now = slid now new_exp

  pub touch_ok :
      (token : String) (to : Option ℤ) (w v : World) (u : Unit {0})
      → touch env token to w ≡ (ok u, v)
      → v ≡ record w {
        db = record w.db {
          sessions = update_token token (touched to (seconds (env.system_time w.at))) w.db.sessions;
        };
        at = w.at + 1 + 1;
      }
  unfolding touch update_session
  touch_ok token none w v u h =
      let b = bind_inv _ _ w u v h in
      let clock = now_unix_ok env w b.middle b.value b.first in
      let row = statement_ok env _ b.middle v u b.second in ground (arith, clock, row)
  touch_ok token (some e) w v u h =
      let b = bind_inv _ _ w u v h in
      let clock = now_unix_ok env w b.middle b.value b.first in
      let row = statement_ok env _ b.middle v u b.second in ground (arith, clock, row)
