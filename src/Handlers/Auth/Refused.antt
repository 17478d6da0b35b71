-- ===== src/Handlers/Auth/Refused.antt =====
-- src/handlers/auth.rs: a login that does not succeed opens no session, whatever fails on the way.
use vps_monitor_webui.Prelude.{
  ℕ, String, ◌≡◌, refl, List, Option, none, some, arith, Option-cases, inl, inr,
}
use vps_monitor_webui.Prelude.Int.{ℤ}
use vps_monitor_webui.Result.{err}
use vps_monitor_webui.Error.{AppError, bad_request}
use vps_monitor_webui.Exec.{fail, ◌>>=◌}
use vps_monitor_webui.Exec.Keeps.{Keeps, keeps_rules}
use vps_monitor_webui.Exec.Atomic.{
  FailsSafe, FailsSafe-of_Keeps, FailsSafe-choose, FailsSafe-map_err, FailsSafe-bind,
  FailsSafe-last, Returns-pure, Returns-ignore, Returns-bind,
}
use vps_monitor_webui.Config.{Config}
use vps_monitor_webui.Db.{Env, World, Database, SessionRow, fill_bytes}
use vps_monitor_webui.Db.Keeps.{OnDb, Preserves, db_rules, Keeps-now_unix, FailsSafe-statement}
use vps_monitor_webui.Db.Users.{
  UserAuth, select_next_count, update_failures, find_for_auth, record_failed, reset_failed,
}
use vps_monitor_webui.Db.Sessions
use vps_monitor_webui.Db.Audit
use vps_monitor_webui.Db.Audit.{insert_audit, AuditWrite}
use vps_monitor_webui.Auth.Password
use vps_monitor_webui.Auth.Password.{Crypto}
use vps_monitor_webui.Auth.Session.{new_token}
use vps_monitor_webui.Auth.Middleware.{Parts}
use vps_monitor_webui.Handlers.Auth.{
  LoginRequest, force_dummy_hash, is_missing, submit, authenticate, login, write_audit,
  unknown_user, check_lock, wrong_password, open_session, known_user, by_user,
}

-- The table of sessions.
pub record SameSessions (sessions : List SessionRow) (db : Database) : Type 0 where
  pub same : db.sessions ≡ sessions

module _ {ss : List SessionRow} where
  select_next_count-same : (id : ℕ) → Preserves (SameSessions ss) (select_next_count id)
  unfolding select_next_count
  select_next_count-same id = record { at = λ db db' a e h. ground arith }

  update_failures-same :
      (next : ℕ) (lock : Option ℤ) (id : ℕ)
      → Preserves (SameSessions ss) (update_failures next lock id)
  unfolding update_failures
  update_failures-same next lock id = record { at = λ db db' a e h. ground arith }

  insert_audit-same : (now : ℤ) (e : AuditWrite) → Preserves (SameSessions ss) (insert_audit now e)
  unfolding insert_audit
  insert_audit-same now e = record { at = λ db db' a h k. ground arith }

ruleset same_rules =
    (keeps_rules, db_rules, select_next_count-same, update_failures-same, insert_audit-same)

module _ (env : Env) {ss : List SessionRow} where
  find_for_auth-same : (name : String) → Keeps (OnDb (SameSessions ss)) (find_for_auth env name)
  unfolding find_for_auth
  find_for_auth-same name = search same_rules

  record_failed-same :
      (id max : ℕ) (lockout : ℤ) → Keeps (OnDb (SameSessions ss)) (record_failed env id max lockout)
  unfolding record_failed
  record_failed-same id max lockout = search same_rules

  reset_failed-same : (id : ℕ) → Keeps (OnDb (SameSessions ss)) (reset_failed env id)
  unfolding reset_failed
  reset_failed-same id = search same_rules

  -- A failed statement writes nothing.
  create-safe :
      (token : String) (id : ℕ) (ttl : ℤ) (ip : Option String)
      → FailsSafe (OnDb (SameSessions ss)) (Sessions.create env token id ttl ip)
  unfolding Sessions.create
  create-safe token id ttl ip =
      FailsSafe-bind _ _ (Keeps-now_unix env) λ now. FailsSafe-statement env _

module _ (crypto : Crypto) (env : Env) where
  hash-db : (pw : String) (w : World) → (Password.hash crypto env pw w).1.db ≡ w.db
  unfolding Password.hash ◌>>=◌ fill_bytes
  hash-db pw w = refl

  pub force_dummy_hash-db : (w : World) → (force_dummy_hash crypto env w).1.db ≡ w.db
  unfolding force_dummy_hash
  force_dummy_hash-db w = elim (Option-cases w.dummy_hash) [
    | inl e ↦ rw (e, force_dummy_hash) (hash-db _ w)
    | inr (s, e) ↦ rw (e, force_dummy_hash)
  ]

module _ (crypto : Crypto) (env : Env) {ss : List SessionRow} where
  write_audit-same : (e : AuditWrite) → Keeps (OnDb (SameSessions ss)) (write_audit crypto env e)
  unfolding write_audit Audit.write
  write_audit-same e = search same_rules

  force_dummy_hash-same : Keeps (OnDb (SameSessions ss)) (force_dummy_hash crypto env)
  force_dummy_hash-same = record {
    after = λ w h. record { holds = rw (force_dummy_hash-db crypto env w) h.holds };
  }

  verify-same :
      {E : Type 0} (pw phc : String)
      → Keeps (OnDb (SameSessions ss)) (Password.verify crypto {E = E} pw phc)
  unfolding Password.verify
  verify-same pw phc = record { after = λ w h. record { holds = h.holds } }

  new_token-same : {E : Type 0} → Keeps (OnDb (SameSessions ss)) (new_token crypto env {E = E})
  unfolding new_token
  new_token-same = search same_rules

  unknown_user-same :
      (cfg : Config) (ip : String) (req : LoginRequest)
      → Keeps (OnDb (SameSessions ss)) (unknown_user crypto env cfg ip req)
  unfolding unknown_user
  unknown_user-same cfg ip req =
      search (same_rules, force_dummy_hash-same, verify-same, write_audit-same)

  check_lock-same :
      (cfg : Config) (ip : String) (req : LoginRequest) (user : UserAuth) (lock : Option ℤ)
      → Keeps (OnDb (SameSessions ss)) (check_lock crypto env cfg ip req user lock)
  unfolding check_lock
  check_lock-same cfg ip req user none = search same_rules
  check_lock-same cfg ip req user (some until) = search (same_rules, write_audit-same) depth 8

  wrong_password-same :
      (cfg : Config) (ip : String) (req : LoginRequest) (user : UserAuth)
      → Keeps (OnDb (SameSessions ss)) (wrong_password crypto env cfg ip req user)
  unfolding wrong_password
  wrong_password-same cfg ip req user =
      search (same_rules, write_audit-same, record_failed-same) depth 8

  open_session-safe :
      (cfg : Config) (ip : String) (req : LoginRequest) (user : UserAuth)
      → FailsSafe (OnDb (SameSessions ss)) (open_session crypto env cfg ip req user)
  unfolding open_session write_audit
  open_session-safe cfg ip req user =
      FailsSafe-bind _ _ (search (same_rules, reset_failed-same)) λ _.
        FailsSafe-bind _ _ new_token-same λ token.
          FailsSafe-last _ _ (FailsSafe-map_err _ _ (create-safe env token _ _ _))
            λ _. Returns-bind _ _ (Returns-ignore _) λ _. Returns-pure _

  known_user-safe :
      (cfg : Config) (ip : String) (req : LoginRequest) (user : UserAuth)
      → FailsSafe (OnDb (SameSessions ss)) (known_user crypto env cfg ip req user)
  unfolding known_user
  known_user-safe cfg ip req user =
      FailsSafe-bind _ _ (check_lock-same cfg ip req user user.locked_until) λ _.
        FailsSafe-bind _ _ (verify-same req.password user.password_hash) λ fits.
          FailsSafe-choose fits _ _ (open_session-safe cfg ip req user)
            (FailsSafe-of_Keeps _ (wrong_password-same cfg ip req user))

  by_user-safe :
      (cfg : Config) (ip : String) (req : LoginRequest) (user : Option UserAuth)
      → FailsSafe (OnDb (SameSessions ss)) (by_user crypto env cfg ip req user)
  unfolding by_user
  by_user-safe cfg ip req none = FailsSafe-of_Keeps _ (unknown_user-same cfg ip req)
  by_user-safe cfg ip req (some user) = known_user-safe cfg ip req user

  authenticate-safe :
      (cfg : Config) (ip : String) (req : LoginRequest)
      → FailsSafe (OnDb (SameSessions ss)) (authenticate crypto env cfg ip req)
  unfolding authenticate
  authenticate-safe cfg ip req =
      FailsSafe-bind _ _ (search same_rules)
        λ _. FailsSafe-bind _ _ (search (same_rules, find_for_auth-same)) (by_user-safe cfg ip req)

  submit-safe :
      (cfg : Config) (ip : String) (req : LoginRequest)
      → FailsSafe (OnDb (SameSessions ss)) (submit crypto env cfg ip req)
  unfolding submit
  submit-safe cfg ip req = FailsSafe-last _ _ (authenticate-safe cfg ip req) λ _. Returns-pure _

  login-safe :
      (cfg : Config) (ip : String) (req : LoginRequest) (parts : Parts)
      → FailsSafe (OnDb (SameSessions ss)) (login crypto env cfg ip req parts)
  unfolding login
  login-safe cfg ip req parts = FailsSafe-bind _ _ (search keeps_rules) λ _.
      FailsSafe-choose (is_missing req) (fail (bad_request "missing credentials")) _
        (FailsSafe-of_Keeps _ (search keeps_rules)) (submit-safe cfg ip req)

-- A login that fails, with whatever error and whatever connections or statements failed on the
-- way, leaves the table of sessions as it was.
pub login_refused :
    (crypto : Crypto) (env : Env) (cfg : Config) (ip : String) (req : LoginRequest) (parts : Parts)
    (w v : World) (e : AppError)
    → login crypto env cfg ip req parts w ≡ (err e, v)
    → v.db.sessions ≡ w.db.sessions
login_refused crypto env cfg ip req parts w v e h =
    ((login-safe crypto env cfg ip req parts).after w v e
      (record { holds = record { same = refl } }) h).holds.same
