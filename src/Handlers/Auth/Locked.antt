-- ===== src/Handlers/Auth/Locked.antt =====
-- src/handlers/auth.rs: what a login gives that is not let in, where nothing fails: for a locked
-- account, for a wrong password and for a user that does not exist.
use vps_monitor_webui.Prelude.{
  ℕ, ◌+◌, ◌^◌, ◌<◌, ◌≤◌, String, ◌≡◌, ap, ◌∙◌, true, false, none, some, find, arith,
}
use vps_monitor_webui.Prelude.Int.{ℤ, ltb_ℤ, as_u64, sub_i64}
use vps_monitor_webui.Result.{ok, err}
use vps_monitor_webui.Error.{AppError, other, account_locked, bad_credentials}
use vps_monitor_webui.Exec.{fail, ignore, ◌>>=◌}
use vps_monitor_webui.Exec.Inversion.{bind_runs, bind_stops, map_err_runs}
use vps_monitor_webui.Config.{Config}
use vps_monitor_webui.Db.{Env, World, UserRow, tick, seconds, now_unix, get_conn, statement}
use vps_monitor_webui.Db.Facts.{IsHealthy, now_unix_runs, get_conn_runs}
use vps_monitor_webui.Db.Users.{
  UserAuth, named, has_id, to_auth, update, with_failures, find_for_auth, record_failed,
}
use vps_monitor_webui.Db.Users.Lockout.{lock_at, record_failed_runs}
use vps_monitor_webui.Db.Audit
use vps_monitor_webui.Db.Audit.{AuditWrite, insert_audit}
use vps_monitor_webui.Auth.Password
use vps_monitor_webui.Auth.Password.{Crypto, accepts, verify-db, verify-at, verify_wrong}
use vps_monitor_webui.Handlers.Auth.{
  LoginRequest, authenticate, write_audit, check_lock, known_user, wrong_password, by_user, audited,
  lockout_secs,
}
use vps_monitor_webui.Handlers.Auth.Login.{write_audit_runs, write_audit_ok}
use vps_monitor_webui.Handlers.Auth.Success.{LockOver, check_lock_runs, find_for_auth_runs}

module _ (crypto : Crypto) (env : Env) (healthy : IsHealthy env) (cfg : Config) (ip : String)
    (req : LoginRequest) where
  -- The entry of the log and the error after it.
  audit_then_fail :
      (A : Type 0) (e : AuditWrite) (x : AppError) (w : World)
      → (write_audit crypto env e >>= λ _. fail {A = A} x) w
        ≡ (err x, (write_audit crypto env e w).1)
  audit_then_fail A e x w =
      bind_runs (write_audit crypto env e) (λ _. fail {A = A} x) w (write_audit crypto env e w).1 tt
        (write_audit_runs crypto env e w)

  audit_kept :
      (e : AuditWrite) (w : World)
      → ((write_audit crypto env e w).1.db.users ≡ w.db.users)
        × ((write_audit crypto env e w).1.db.sessions ≡ w.db.sessions)
  audit_kept e w =
      let k =
        write_audit_ok crypto env e w (write_audit crypto env e w).1 (ok tt)
          (write_audit_runs crypto env e w) in
      (k.same_users, k.same_sessions)

  write_audit-at : (e : AuditWrite) (w : World) → w.at ≤ (write_audit crypto env e w).1.at
  unfolding write_audit ignore Audit.write ◌>>=◌ now_unix statement insert_audit
  write_audit-at e w = ground arith

  check_lock_stops :
      (user : UserAuth) (until : ℤ) (w : World)
      → ltb_ℤ (seconds (env.system_time w.at)) until ≡ true
      → (v : World) × (check_lock crypto env cfg ip req user (some until) w
          ≡ (err (account_locked (as_u64 (sub_i64 until (seconds (env.system_time w.at))))), v))
        × (v.db.users ≡ w.db.users)
        × (v.db.sessions ≡ w.db.sessions)
  unfolding check_lock
  check_lock_stops user until w ahead =
      let e = audited (some user.id) user.username (some ip) "login_locked" none in
      let kept = audit_kept e (tick w) in
      (
        (write_audit crypto env e (tick w)).1,
        bind_runs (now_unix env) _ w (tick w) _ (now_unix_runs env w)
            ∙ rw ahead (audit_then_fail (Unit {0}) e _ (tick w)),
        kept.0,
        kept.1,
      )

  -- From the query of the user on, `authenticate` is the branch of that user.
  to_known_user :
      (u : UserRow) (w : World)
      → find (named req.username) w.db.users ≡ some u
      → authenticate crypto env cfg ip req w
        ≡ known_user crypto env cfg ip req (to_auth u) (tick (tick w))
  unfolding authenticate by_user
  to_known_user u w found =
      bind_runs _ _ w (tick w) tt
        (map_err_runs other (get_conn env) w (tick w) tt (get_conn_runs env healthy w))
      ∙ bind_runs _ _ (tick w) (tick (tick w)) (some (to_auth u)) (
          map_err_runs other (find_for_auth env req.username) (tick w) (tick (tick w))
            (some (to_auth u)) (find_for_auth_runs env healthy req.username u (tick w) found))

  -- Where no connection and no statement fails: while the lock of the user of the requested name lies
  -- in the future, whatever the password, the login answers
  -- AccountLocked with the seconds that are left, and changes no user and no session.
  pub authenticate_locked :
      (u : UserRow) (until : ℤ) (w : World)
      → find (named req.username) w.db.users ≡ some u
      → u.locked_until ≡ some until
      → ltb_ℤ (seconds (env.system_time (w.at + 1 + 1))) until ≡ true
      → (v : World) × (authenticate crypto env cfg ip req w ≡ (
        err (account_locked (as_u64 (sub_i64 until (seconds (env.system_time (w.at + 1 + 1)))))),
        v,
      ))
        × (v.db.users ≡ w.db.users)
        × (v.db.sessions ≡ w.db.sessions)
  unfolding known_user
  authenticate_locked u until w found lock ahead =
      let s = check_lock_stops (to_auth u) until (tick (tick w)) ahead in
      (
        s.0,
        to_known_user u w found
            ∙ bind_stops _ _ (tick (tick w)) s.0 _ (
                ap (λ l. check_lock crypto env cfg ip req (to_auth u) l (tick (tick w))) lock
                ∙ s.1),
        s.2,
        s.3,
      )

  -- Where no connection and no statement fails: a wrong password of a user whose lock, if any, is
  -- over, whose id is that of no row before it, and whose count has room in 64 bits, is answered by
  -- BadCredentials; the count goes up by one, with the lock that `lock_at` gives for a reading of the
  -- clock during the attempt, and the sessions stay.
  pub authenticate_wrong :
      (u : UserRow) (w : World)
      → find (named req.username) w.db.users ≡ some u
      → find (has_id u.id) w.db.users ≡ some u
      → u.failed_count + 1 < 2 ^ 63
      → LockOver crypto env healthy cfg ip req u.locked_until
          (seconds (env.system_time (w.at + 1 + 1)))
      → accepts crypto req.password u.password_hash ≡ false
      → (v : World) × (authenticate crypto env cfg ip req w ≡ (err bad_credentials, v))
        × ((n : ℕ) × (w.at ≤ n)
            × (n < v.at)
            × (v.db.users
                ≡ update
                    (has_id u.id)
                    (with_failures (u.failed_count + 1) (
                      lock_at
                        (u.failed_count + 1)
                        cfg.max_failed_logins
                        (lockout_secs cfg)
                        (seconds (env.system_time n))))
                    w.db.users))
        × (v.db.sessions ≡ w.db.sessions)
  unfolding known_user wrong_password
  authenticate_wrong u w named_u found room over wrong =
      let past =
        check_lock_runs crypto env healthy cfg ip req (to_auth u) u.locked_until (tick (tick w))
          over in
      let w2 = (Password.verify crypto {E = AppError} req.password u.password_hash past.0).1 in
      let db2 : w2.db ≡ w.db =
        verify-db crypto AppError req.password u.password_hash past.0 ∙ past.2 in
      let counted =
        record_failed_runs env healthy u.id cfg.max_failed_logins (lockout_secs cfg) w2 u
          (ap (λ d. find (has_id u.id) d.users) db2 ∙ found) room in
      let count = with_failures (u.failed_count + 1) (
        lock_at (u.failed_count + 1) cfg.max_failed_logins (lockout_secs cfg)
          (seconds (env.system_time (w2.at + 1)))) in
      let e = audited (some u.id) u.username (some ip) "login_fail" (some "bad password") in
      let kept = audit_kept e counted.0 in
      (
        (write_audit crypto env e counted.0).1,
        to_known_user u w named_u
            ∙ bind_runs _ _ (tick (tick w)) past.0 tt past.1
            ∙ bind_runs (Password.verify crypto req.password u.password_hash) _ past.0 w2 false
                (verify_wrong crypto req.password u.password_hash past.0 wrong)
            ∙ bind_runs _ _ w2 counted.0 tt (
                map_err_runs other (record_failed env u.id cfg.max_failed_logins (lockout_secs cfg))
                  w2 counted.0 tt counted.1)
            ∙ audit_then_fail (ℕ × String) e bad_credentials counted.0,
        (
          w2.at + 1,
          omega (arith, past.3, verify-at crypto AppError req.password u.password_hash past.0),
          omega (arith, counted.3, write_audit-at e counted.0),
          kept.0 ∙ ap (λ d. d.users) counted.2 ∙ ap (λ d. update (has_id u.id) count d.users) db2,
        ),
        kept.1 ∙ ap (λ d. d.sessions) counted.2 ∙ ap (λ d. d.sessions) db2,
      )
