-- ===== src/Handlers/Auth/Login.antt =====
-- src/handlers/auth.rs, `login`: what a successful login needed and what it wrote.
use mathlib.Core.Option
use vps_monitor_webui.Prelude.{
  ℕ, ◌+◌, String, ◌≡◌, refl, true, [], ◌∷◌, ◌++◌, Option, none, some, arith, find, inl, inr, subst,
}
use vps_monitor_webui.Prelude.Int.{ℤ, ◌≤ℤ◌, ltb_ℤ, as_i64, add_i64}
use vps_monitor_webui.Result.{Result, ok}
use vps_monitor_webui.Error.{AppError, bad_request}
use vps_monitor_webui.Exec.{◌>>=◌, fail, ignore}
use vps_monitor_webui.Exec.Inversion.{bind_inv, map_err_inv, choose_inv, then_fail}
use vps_monitor_webui.Exec.Keeps.{Keeps-ends, Keeps-ignore}
use vps_monitor_webui.Config.{Config}
use vps_monitor_webui.Db.{Env, World, UserRow, SessionRow, seconds}
use vps_monitor_webui.Db.Facts.{now_unix_ok, get_conn_ok}
use vps_monitor_webui.Db.Users.{UserAuth, named, to_auth}
use vps_monitor_webui.Db.Users.Laws.{find_for_auth_ok, reset_failed_ok}
use vps_monitor_webui.Db.Sessions.Laws.{created_row, create_ok}
use vps_monitor_webui.Db.Audit
use vps_monitor_webui.Db.Audit.{AuditWrite}
use vps_monitor_webui.Db.Audit.Laws.{Accounts, write-Accounts}
use vps_monitor_webui.Auth.Password
use vps_monitor_webui.Auth.Password.{Crypto, accepts}
use vps_monitor_webui.Auth.Middleware.{Parts}
use vps_monitor_webui.Auth.Session.{cookie_name, new_token-db}
use vps_monitor_webui.Handlers.Auth.{
  require_xhr, LoginRequest, LoginResponse, Cookie, strict, is_missing, submit, login, authenticate,
  write_audit, unknown_user, check_lock, wrong_password, open_session, known_user, by_user,
}

module _ (crypto : Crypto) (env : Env) where
  -- The entry may be lost, and the handler goes on.
  pub write_audit_runs :
      (e : AuditWrite) (w : World)
      → write_audit crypto env e w ≡ (ok tt, (write_audit crypto env e w).1)
  unfolding write_audit ignore
  write_audit_runs e w = refl

  pub write_audit_ok :
      (e : AuditWrite) (w v : World) (r : Result AppError (Unit {0}))
      → write_audit crypto env e w ≡ (r, v)
      → Accounts w.db.users w.db.sessions v.db
  unfolding write_audit
  write_audit_ok e w v r h =
      (Keeps-ends (Keeps-ignore (Audit.write env e) (write-Accounts env e)) h
        (record { holds = record { same_users = refl; same_sessions = refl } })).holds

module _ (crypto : Crypto) (env : Env) (cfg : Config) (ip : String) (req : LoginRequest) where
  unknown_user_fails :
      (w v : World) (r : ℕ × String) → unknown_user crypto env cfg ip req w ≡ (ok r, v) → ⊥
  unfolding unknown_user ◌>>=◌
  unknown_user_fails w v r h = ground arith

  wrong_password_fails :
      (user : UserAuth) (w v : World) (r : ℕ × String)
      → wrong_password crypto env cfg ip req user w ≡ (ok r, v)
      → ⊥
  unfolding wrong_password
  wrong_password_fails user w v r h =
      let b = bind_inv _ _ w r v h in
      let c = bind_inv _ _ b.middle r v b.second in ground (arith, c.second)

  -- Past the lock's check: nothing was written, and the clock was read once where there is a lock.
  check_lock_ok :
      (user : UserAuth) (lock : Option ℤ) (w v : World) (u : Unit {0})
      → check_lock crypto env cfg ip req user lock w ≡ (ok u, v)
      → (v.db ≡ w.db) × ((until : ℤ) → lock ≡ some until → until ≤ℤ seconds (env.system_time w.at))
  unfolding check_lock
  check_lock_ok user none w v u h = ground arith
  check_lock_ok user (some until) w v u h =
      let b = bind_inv _ _ w u v h in
      let clock = now_unix_ok env w b.middle b.value b.first in
      elim (choose_inv (ltb_ℤ b.value until) _ _ b.middle v (ok u) b.second) [
        | inl (locked, fails) ↦ absurd (then_fail _ _ b.middle v u fails)
        | inr (free, passes) ↦
            (ground (arith, clock, passes), λ u' same. ground (arith, clock, free, same))
      ]

  -- The user whose password was right, and the session that was opened for it.
  pub record Opened (w : World) (id : ℕ) (token : String) (v : World) : Type 0 where
    pub user : UserRow
    pub session : SessionRow
    pub found : find (named req.username) w.db.users ≡ some user
    pub right_password : accepts crypto req.password user.password_hash ≡ true
    pub not_locked :
        (until : ℤ)
        → user.locked_until ≡ some until
        → until ≤ℤ seconds (env.system_time (w.at + 1 + 1))
    pub its_id : id ≡ user.id
    pub its_token : session.token ≡ token
    pub its_user : session.user_id ≡ user.id
    pub its_expiry : session.expires_at ≡ add_i64 session.created_at (as_i64 cfg.session_ttl_secs)
    pub opened : v.db.sessions ≡ w.db.sessions ++ session ∷ []

  open_session_ok :
      (user : UserAuth) (w v : World) (id : ℕ) (token : String)
      → open_session crypto env cfg ip req user w ≡ (ok (id, token), v)
      → (id ≡ user.id)
        × ((s : SessionRow) × (s.token ≡ token)
            × (s.user_id ≡ user.id)
            × (s.expires_at ≡ add_i64 s.created_at (as_i64 cfg.session_ttl_secs))
            × (v.db.sessions ≡ w.db.sessions ++ s ∷ []))
  unfolding open_session
  open_session_ok user w v id token h =
      let b1 = bind_inv _ _ w (id, token) v h in
      let b2 = bind_inv _ _ b1.middle (id, token) v b1.second in
      let b3 = bind_inv _ _ b2.middle (id, token) v b2.second in
      let b4 = bind_inv _ _ b3.middle (id, token) v b3.second in
      let clear =
        reset_failed_ok env user.id w b1.middle b1.value
          (map_err_inv _ _ w b1.value b1.middle b1.first) in
      let fresh = new_token-db crypto env b1.middle b2.middle b2.value b2.first in
      let row =
        create_ok env b2.value user.id (as_i64 cfg.session_ttl_secs) (some ip) b2.middle b3.middle
          b3.value (map_err_inv _ _ b2.middle b3.value b3.middle b3.first) in
      let kept = write_audit_ok crypto env _ b3.middle b4.middle (ok b4.value) b4.first in
      (
        ground (arith, b4.second),
        (
          created_row env b2.value user.id (as_i64 cfg.session_ttl_secs) (some ip) b2.middle,
          ground (arith, b4.second),
          refl,
          refl,
          ground (arith, clear, fresh, row, kept, b4.second),
        ),
      )

  module _ (user : UserAuth) (w v : World) (id : ℕ) (token : String) where
    known_user_ok :
        known_user crypto env cfg ip req user w ≡ (ok (id, token), v)
        → (accepts crypto req.password user.password_hash ≡ true)
          × ((until : ℤ) → user.locked_until ≡ some until → until ≤ℤ seconds (env.system_time w.at))
          × (id ≡ user.id)
          × ((s : SessionRow) × (s.token ≡ token)
              × (s.user_id ≡ user.id)
              × (s.expires_at ≡ add_i64 s.created_at (as_i64 cfg.session_ttl_secs))
              × (v.db.sessions ≡ w.db.sessions ++ s ∷ []))
    unfolding known_user Password.verify
    known_user_ok h =
        let b = bind_inv _ _ w (id, token) v h in
        let past = check_lock_ok user user.locked_until w b.middle b.value b.first in
        let c = bind_inv _ _ b.middle (id, token) v b.second in
        elim (choose_inv c.value _ _ c.middle v (ok (id, token)) c.second) [
          | inl (fits, opens) ↦
              let o = open_session_ok user c.middle v id token opens in
              (
                ground (arith, c.first),
                past.1,
                o.0,
                (o.1.0, o.1.1, o.1.2, o.1.3, ground (arith, c.first, o.1.4, past.0)),
              )
          | inr (wrong, fails) ↦ absurd (wrong_password_fails user c.middle v (id, token) fails)
        ]

  by_user_ok :
      (o : Option UserRow) (w v : World) (id : ℕ) (token : String)
      → by_user crypto env cfg ip req (Option.map to_auth o) w ≡ (ok (id, token), v)
      → (u : UserRow) × (o ≡ some u)
        × (known_user crypto env cfg ip req (to_auth u) w ≡ (ok (id, token), v))
  unfolding by_user
  by_user_ok none w v id token h = absurd (unknown_user_fails w v (id, token) h)
  by_user_ok (some u) w v id token h = (u, refl, h)

  -- If the closure of the login returns an id and a token, then a user of the requested name exists
  -- whose stored hash accepts the password and whose lock, if any, was over at the reading of the
  -- clock; the id is that user's, and the sessions are the old ones and one new row for this user
  -- and token, which expires a lifetime after its creation.
  pub authenticate-Opened :
      (w v : World) (id : ℕ) (token : String)
      → authenticate crypto env cfg ip req w ≡ (ok (id, token), v)
      → Opened w id token v
  unfolding authenticate
  authenticate-Opened w v id token h =
      let b = bind_inv _ _ w (id, token) v h in
      let conn = get_conn_ok env w b.middle b.value (map_err_inv _ _ w b.value b.middle b.first) in
      let c = bind_inv _ _ b.middle (id, token) v b.second in
      let row =
        find_for_auth_ok env req.username b.middle c.middle c.value
          (map_err_inv _ _ b.middle c.value c.middle c.first) in
      let p = by_user_ok (find (named req.username) b.middle.db.users) c.middle v id token (
        subst (λ o. by_user crypto env cfg ip req o c.middle ≡ (ok (id, token), v)) row.0
          c.second) in
      let k = known_user_ok (to_auth p.0) c.middle v id token p.2 in
      record {
        user = p.0;
        session = k.3.0;
        found = ground (arith, conn, p.1);
        right_password = k.0;
        not_locked = λ until e. ground (arith, conn, row.1, k.1 until e);
        its_id = k.2;
        its_token = k.3.1;
        its_user = k.3.2;
        its_expiry = k.3.3;
        opened = ground (arith, conn, row.1, k.3.4);
      }

  -- A login that returns a cookie came with an XHR header; the cookie is the HttpOnly, SameSite=Strict
  -- session cookie whose token was opened for the user named in the request, as `Opened` says.
  pub login-Opened :
      (parts : Parts) (w v : World) (c : Cookie) (r : LoginResponse)
      → login crypto env cfg ip req parts w ≡ (ok (c, r), v)
      → (require_xhr parts ≡ ok tt)
        × (c.name ≡ cookie_name)
        × (c.http_only ≡ true)
        × (c.same_site ≡ some strict)
        × (r.username ≡ req.username)
        × ((id : ℕ) × Opened w id c.value v)
  unfolding login submit
  login-Opened parts w v c r h =
      let b = bind_inv _ _ w (c, r) v h in
      elim (choose_inv (is_missing req) (fail (bad_request "missing credentials"))
        (submit crypto env cfg ip req) b.middle v (ok (c, r)) b.second) [
          | inl (empty, fails) ↦ absurd (ground arith)
          | inr (given, runs) ↦
              let p = bind_inv _ _ b.middle (c, r) v runs in
              let from : b.middle ≡ w = ground arith in
              (
                ground arith,
                ground (arith, p.second),
                ground (arith, p.second),
                ground (arith, p.second),
                ground (arith, p.second),
                (
                  p.value.0,
                  authenticate-Opened w v p.value.0 c.value
                      (ground (arith, p.first, p.second, from)),
                ),
              )
        ]
