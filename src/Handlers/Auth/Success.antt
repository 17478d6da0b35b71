-- ===== src/Handlers/Auth/Success.antt =====
-- src/handlers/auth.rs: where nothing fails, the right password opens a session.
use vps_monitor_webui.Prelude.{
  ◌≤◌, ℕ, ◌+◌, String, ◌≡◌, refl, sym, ap, ◌∙◌, true, false, List, [], ◌∷◌, ◌++◌, Option, none,
  some, arith, any, find, Bool,
}
use vps_monitor_webui.Prelude.Int.{ℤ, ltb_ℤ, as_i64}
use vps_monitor_webui.Result.{ok}
use vps_monitor_webui.Error.{AppError, other}
use vps_monitor_webui.Exec.Inversion.{bind_runs, map_err_runs}
use vps_monitor_webui.Config.{Config}
use vps_monitor_webui.Db.{Env, World, Database, UserRow, tick, seconds, now_unix, get_conn, reading}
use vps_monitor_webui.Db.Facts.{IsHealthy, now_unix_runs, get_conn_runs, statement_runs}
use vps_monitor_webui.Db.Users.{
  UserAuth, named, has_id, to_auth, update, with_failures, update_failures, find_for_auth,
  reset_failed,
}
use vps_monitor_webui.Db.Users.Lockout.{find-update}
use vps_monitor_webui.Db.Sessions
use vps_monitor_webui.Db.Sessions.{with_token, insert_session}
use vps_monitor_webui.Db.Sessions.Laws.{created_row, new_session}
use vps_monitor_webui.Auth.Password
use vps_monitor_webui.Auth.Password.{Crypto, accepts, verify-db, verify_runs}
use vps_monitor_webui.Auth.Session.{new_token, new_token_runs}
use vps_monitor_webui.Handlers.Auth.{
  LoginRequest, authenticate, write_audit, check_lock, open_session, known_user, by_user, audited,
}
use vps_monitor_webui.Handlers.Auth.Login.{write_audit_runs, write_audit_ok}

any-find : {A : Type 0} (p : A → Bool) (l : List A) (a : A) → find p l ≡ some a → any p l ≡ true
unfolding find any
any-find p [] a h = absurd (ground arith)
any-find p (x ∷ l) a h = ground (arith, any-find p l a)

pub find_for_auth_runs :
    (env : Env) (healthy : IsHealthy env) (name : String) (u : UserRow) (w : World)
    → find (named name) w.db.users ≡ some u
    → find_for_auth env name w ≡ (ok (some (to_auth u)), tick w)
unfolding find_for_auth
find_for_auth_runs env healthy name u w found =
    statement_runs env healthy _ w (some (to_auth u)) w.db (unfold reading in ground arith)

module _ (env : Env) (healthy : IsHealthy env) where
  create_runs :
      (token : String) (id : ℕ) (ttl : ℤ) (ip : Option String) (w : World)
      → any (with_token token) w.db.sessions ≡ false
      → any (has_id id) w.db.users ≡ true
      → (v : World) × (Sessions.create env token id ttl ip w ≡ (ok tt, v))
        × (v.db
            ≡ record w.db { sessions = w.db.sessions ++ created_row env token id ttl ip w ∷ [] })
  unfolding Sessions.create
  create_runs token id ttl ip w new known =
      let now = seconds (env.system_time w.at) in
      let s = new_session token id ttl ip now in
      let db' : Database = record w.db { sessions = w.db.sessions ++ s ∷ [] } in
      (
        record w { db = db'; at = w.at + 1 + 1 },
        bind_runs (now_unix env) _ w (tick w) now (now_unix_runs env w)
            ∙ statement_runs env healthy (insert_session s) (tick w) tt db'
                (unfold insert_session in ground arith),
        refl,
      )

module _ (crypto : Crypto) (env : Env) (healthy : IsHealthy env) (cfg : Config) (ip : String)
    (req : LoginRequest) where
  -- A token that no session has.
  abbrev pub NewTokens : World → Type 0
  NewTokens w =
      (n : ℕ) → any (with_token (crypto.hex_encode (env.random_bytes n))) w.db.sessions ≡ false

  -- The session that a successful login has opened, in the table and of an existing user.
  pub record Ready (u : UserRow) (w : World) (token : String) (v : World) : Type 0 where
    pub opened_at : World
    pub sessions :
        v.db.sessions
        ≡ w.db.sessions
          ++ created_row env token u.id (as_i64 cfg.session_ttl_secs) (some ip) opened_at ∷ []
    pub new : any (with_token token) w.db.sessions ≡ false
    pub user : find (has_id u.id) v.db.users ≡ some (with_failures 0 none u)

  open_session_runs :
      (u : UserRow) (w : World)
      → find (has_id u.id) w.db.users ≡ some u
      → NewTokens w
      → (token : String) × ((v : World) × (open_session crypto env cfg ip req (to_auth u) w
            ≡ (ok (u.id, token), v))
          × Ready u w token v)
  unfolding open_session
  open_session_runs u w found new =
      let ttl = as_i64 cfg.session_ttl_secs in
      let cleared = update (has_id u.id) (with_failures 0 none) w.db.users in
      let w1 : World = record w { db = record w.db { users = cleared }; at = w.at + 1 } in
      let token = crypto.hex_encode (env.random_bytes w1.at) in
      let reset = map_err_runs other (reset_failed env u.id) w w1 tt (
        unfold reset_failed in
        statement_runs env healthy (update_failures 0 none u.id) w tt w1.db
          (unfold update_failures in refl)) in
      let stays = find-update u.id (with_failures 0 none) w.db.users u (λ r. refl) found in
      let made =
        create_runs env healthy token u.id ttl (some ip) (tick w1) (new w1.at)
          (any-find (has_id u.id) cleared _ stays) in
      let entry = audited (some u.id) u.username (some ip) "login_ok" none in
      let end = (write_audit crypto env entry made.0).1 in
      let kept =
        write_audit_ok crypto env entry made.0 end (ok tt)
          (write_audit_runs crypto env entry made.0) in
      (
        token,
        (
          end,
          bind_runs _ _ w w1 tt reset
              ∙ bind_runs (new_token crypto env) _ w1 (tick w1) token (new_token_runs crypto env w1)
              ∙ bind_runs _ _ (tick w1) made.0 tt (map_err_runs other _ (tick w1) made.0 tt made.1)
              ∙ bind_runs (write_audit crypto env entry) _ made.0 end tt
                  (write_audit_runs crypto env entry made.0),
          record {
            opened_at = tick w1;
            sessions = kept.same_sessions ∙ ap (λ d. d.sessions) made.2;
            new = new w1.at;
            user = rw (kept.same_users ∙ ap (λ d. d.users) made.2) stays;
          },
        ),
      )

  -- What was read before, with the tables as they were.
  Ready-from :
      (u : UserRow) (w w' : World) (token : String) (v : World)
      → w.db ≡ w'.db
      → Ready u w token v
      → Ready u w' token v
  Ready-from u w w' token v same r = record {
    opened_at = r.opened_at;
    sessions =
        r.sessions
        ∙ ap
            (λ (d : Database).
              d.sessions
              ++ created_row env token u.id (as_i64 cfg.session_ttl_secs) (some ip) r.opened_at
                ∷ [])
            same;
    new = ap (λ (d : Database). any (with_token token) d.sessions) (sym same) ∙ r.new;
    user = r.user;
  }

  -- A lock that is over, at a reading of the clock.
  abbrev pub LockOver : Option ℤ → ℤ → Type 0
  LockOver lock now = (until : ℤ) → lock ≡ some until → ltb_ℤ now until ≡ false

  pub check_lock_runs :
      (user : UserAuth) (lock : Option ℤ) (w : World)
      → LockOver lock (seconds (env.system_time w.at))
      → (v : World) × (check_lock crypto env cfg ip req user lock w ≡ (ok tt, v))
        × (v.db ≡ w.db)
        × (w.at ≤ v.at)
  unfolding check_lock
  check_lock_runs user none w over = (w, refl, refl, omega arith)
  check_lock_runs user (some until) w over = (
    tick w,
    bind_runs (now_unix env) _ w (tick w) _ (now_unix_runs env w) ∙ rw (over until refl),
    refl,
    omega arith,
  )

  known_user_runs :
      (u : UserRow) (w : World)
      → find (has_id u.id) w.db.users ≡ some u
      → NewTokens w
      → LockOver u.locked_until (seconds (env.system_time w.at))
      → accepts crypto req.password u.password_hash ≡ true
      → (token : String) × ((v : World) × (known_user crypto env cfg ip req (to_auth u) w
            ≡ (ok (u.id, token), v))
          × Ready u w token v)
  unfolding known_user
  known_user_runs u w found new over right =
      let past = check_lock_runs (to_auth u) u.locked_until w over in
      let w2 = (Password.verify crypto {E = AppError} req.password u.password_hash past.0).1 in
      let db2 : w2.db ≡ w.db =
        verify-db crypto AppError req.password u.password_hash past.0 ∙ past.2 in
      let o = open_session_runs u w2 (rw db2 found) (λ n. rw db2 (new n)) in
      (
        o.0,
        (
          o.1.0,
          bind_runs _ _ w past.0 tt past.1
              ∙ bind_runs (Password.verify crypto req.password u.password_hash) _ past.0 w2 true
                  (verify_runs crypto req.password u.password_hash past.0 right)
              ∙ o.1.1,
          Ready-from u w2 w o.0 o.1.0 db2 o.1.2,
        ),
      )

  -- Where nothing fails: the right password of a user whose lock, if any, is over, and whose id is
  -- that of no other row, opens a session under a new token, where no token that is
  -- drawn stands in the table.
  pub authenticate-Ready :
      (u : UserRow) (w : World)
      → find (named req.username) w.db.users ≡ some u
      → find (has_id u.id) w.db.users ≡ some u
      → NewTokens w
      → LockOver u.locked_until (seconds (env.system_time (w.at + 1 + 1)))
      → accepts crypto req.password u.password_hash ≡ true
      → (token : String) × ((v : World) × (authenticate crypto env cfg ip req w
            ≡ (ok (u.id, token), v))
          × Ready u w token v)
  unfolding authenticate by_user
  authenticate-Ready u w named_u found new over right =
      let w2 = tick (tick w) in
      let query =
        map_err_runs other (find_for_auth env req.username) (tick w) w2 (some (to_auth u))
          (find_for_auth_runs env healthy req.username u (tick w) named_u) in
      let k = known_user_runs u w2 found new over right in
      (
        k.0,
        (
          k.1.0,
          bind_runs _ _ w (tick w) tt
                (map_err_runs other (get_conn env) w (tick w) tt (get_conn_runs env healthy w))
              ∙ bind_runs _ _ (tick w) w2 (some (to_auth u)) query
              ∙ k.1.1,
          Ready-from u w2 w k.0 k.1.0 refl k.1.2,
        ),
      )
