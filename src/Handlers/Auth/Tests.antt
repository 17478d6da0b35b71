-- ===== src/Handlers/Auth/Tests.antt =====
-- Runs of src/handlers/auth.rs and src/auth/middleware.rs on one user and one session.
use vps_monitor_webui.Prelude.{
  ℕ, ◌≤◌, ◌<◌, ◌≡◌, refl, true, [], ◌∷◌, some, arith, find, any, eq_ignore_ascii_case, retain, ◌≢◌,
}
use vps_monitor_webui.Prelude.Int.{pos, as_i64, sub_i64, half_ℤ, as_u64}
use vps_monitor_webui.Result.{ok, err}
use vps_monitor_webui.Error.{bad_credentials, account_locked}
use vps_monitor_webui.Exec.{◌>>=◌, map_err, ignore}
use vps_monitor_webui.Db.{seconds, World, reading, now_unix, fill_bytes, get_conn, statement}
use vps_monitor_webui.Db.Users.{
  select_next_count, update_failures, update, with_failures, has_id, find_for_auth, record_failed,
  reset_failed,
}
use vps_monitor_webui.Db.Users.Lockout.{lock_at}
use vps_monitor_webui.Db.Sessions
use vps_monitor_webui.Db.Sessions.{
  insert_session, select_active, update_token, update_session, delete_session, find_active, touch,
}
use vps_monitor_webui.Db.Audit
use vps_monitor_webui.Db.Audit.{insert_audit}
use vps_monitor_webui.Auth.Password
use vps_monitor_webui.Auth.Password.{accepts}
use vps_monitor_webui.Auth.Session.{cookie_name, new_token}
use vps_monitor_webui.Auth.Middleware.{
  Parts, AuthUser, ensure_xhr, client_ip, slide, active_session, from_request_parts,
}
use vps_monitor_webui.Auth.Middleware.Sound.{LetIn, from_request_parts-LetIn}
use vps_monitor_webui.Handlers.Auth.{
  require_xhr, LoginRequest, LoginResponse, Cookie, strict, session_cookie, submit, login,
  authenticate, write_audit, check_lock, wrong_password, open_session, known_user, by_user,
  lockout_secs, logout, removal_cookie,
}
use vps_monitor_webui.Handlers.Auth.Login.{Opened, login-Opened}
use vps_monitor_webui.Handlers.Auth.Unknown.{Hashes, authenticate_unknown}
use vps_monitor_webui.Handlers.Auth.Logout.{logout-ends}
use vps_monitor_webui.Handlers.Auth.Refused.{login_refused}
use vps_monitor_webui.Handlers.Auth.Success.{LockOver}
use vps_monitor_webui.Handlers.Auth.Locked.{authenticate_locked, authenticate_wrong}
use vps_monitor_webui.Handlers.Auth.Cost.{authenticate-Paid}
use vps_monitor_webui.Handlers.Auth.Paid.{Paid}
use vps_monitor_webui.Example.{
  quiet, quiet-IsHealthy, plain, plain-CryptoLaws, settings, admin, locked_admin, old_session,
  world_of, before, parts,
}

abbrev right_login : LoginRequest
right_login = record { username = "admin"; password = "secret" }

abbrev wrong_login : LoginRequest
wrong_login = record { username = "admin"; password = "guess" }

abbrev visitor : AuthUser
visitor = record { user_id = 1; username = "admin"; token = "cafe"; ip = some "127.0.0.1" }

abbrev after_login : World
after_login = (login plain quiet settings "127.0.0.1" right_login parts before).1

abbrev after_wrong : World
after_wrong = (login plain quiet settings "127.0.0.1" wrong_login parts before).1

abbrev after_request : World
after_request = (from_request_parts quiet settings parts before).1

login_runs :
    login plain quiet settings "127.0.0.1" right_login parts before
    ≡ (ok (session_cookie "0708" (pos 600), record { username = "admin" }), after_login)
unfolding login submit authenticate by_user known_user check_lock open_session write_audit ignore
    ◌>>=◌ map_err get_conn statement now_unix fill_bytes reading find_for_auth reset_failed
    update_failures update Sessions.create insert_session Audit.write insert_audit Password.verify
    accepts new_token require_xhr eq_ignore_ascii_case find any as_i64
login_runs = refl

wrong_login_runs :
    login plain quiet settings "127.0.0.1" wrong_login parts before
    ≡ (err bad_credentials, after_wrong)
unfolding login submit authenticate by_user known_user check_lock wrong_password write_audit ignore
    ◌>>=◌ map_err get_conn statement now_unix reading find_for_auth record_failed select_next_count
    update_failures update Audit.write insert_audit Password.verify accepts require_xhr
    eq_ignore_ascii_case find as_i64
wrong_login_runs = refl

request_runs : from_request_parts quiet settings parts before ≡ (ok visitor, after_request)
unfolding from_request_parts active_session ◌>>=◌ map_err get_conn statement now_unix reading
    find_active select_active touch update_session update_token client_ip slide as_i64 find sub_i64
    half_ℤ
request_runs = refl

-- The two guards are one.
require_xhr-ensure_xhr : (p : Parts) → require_xhr p ≡ ensure_xhr p
unfolding require_xhr ensure_xhr
require_xhr-ensure_xhr p = refl

abbrev cookie : Cookie
cookie = session_cookie "0708" (pos 600)

abbrev answer : LoginResponse
answer = record { username = "admin" }

login-Opened_example :
    (require_xhr parts ≡ ok tt)
    × (cookie.name ≡ cookie_name)
    × (cookie.http_only ≡ true)
    × (cookie.same_site ≡ some strict)
    × (answer.username ≡ right_login.username)
    × ((id : ℕ) × Opened plain quiet settings "127.0.0.1" right_login before id "0708" after_login)
login-Opened_example =
    login-Opened plain quiet settings "127.0.0.1" right_login parts before after_login cookie answer
      login_runs

from_request_parts-LetIn_example : LetIn quiet settings parts before visitor after_request
from_request_parts-LetIn_example =
    from_request_parts-LetIn quiet settings parts before after_request visitor request_runs

login_refused_example : after_wrong.db.sessions ≡ old_session ∷ []
login_refused_example =
    login_refused plain quiet settings "127.0.0.1" wrong_login parts before after_wrong
      bad_credentials wrong_login_runs

abbrev locked : World
locked = world_of locked_admin

authenticate_locked_example :
    (v : World) × (authenticate plain quiet settings "127.0.0.1" right_login locked
      ≡ (err (account_locked (as_u64 (sub_i64 (pos 1100) (seconds (some 1000))))), v))
    × (v.db.users ≡ locked_admin ∷ [])
    × (v.db.sessions ≡ old_session ∷ [])
unfolding as_i64 find
authenticate_locked_example =
    authenticate_locked plain quiet quiet-IsHealthy settings "127.0.0.1" right_login locked_admin
      (pos 1100) locked refl refl refl

-- The lock of the user was over a hundred seconds ago.
admin-LockOver :
    LockOver plain quiet quiet-IsHealthy settings "127.0.0.1" right_login admin.locked_until
      (seconds (some 1000))
unfolding as_i64
admin-LockOver until e = ground (arith, e)

wrong-LockOver :
    LockOver plain quiet quiet-IsHealthy settings "127.0.0.1" wrong_login admin.locked_until
      (seconds (some 1000))
unfolding as_i64
wrong-LockOver until e = ground (arith, e)

authenticate_wrong_example :
    (v : World) × (authenticate plain quiet settings "127.0.0.1" wrong_login before
      ≡ (err bad_credentials, v))
    × ((n : ℕ) × (before.at ≤ n)
        × (n < v.at)
        × (v.db.users
            ≡ update
                (has_id 1)
                (with_failures 3 (
                  lock_at 3 settings.max_failed_logins
                    (lockout_secs settings)
                    (seconds (quiet.system_time n))))
                (admin ∷ [])))
    × (v.db.sessions ≡ old_session ∷ [])
unfolding find accepts
authenticate_wrong_example =
    authenticate_wrong plain quiet quiet-IsHealthy settings "127.0.0.1" wrong_login admin before
      refl refl (omega arith) wrong-LockOver refl

-- Two sessions of the user, of which one is closed.
abbrev two_sessions : World
two_sessions = record before {
  db = record before.db { sessions = old_session ∷ record old_session { token = "beef" } ∷ [] };
}

abbrev other_visitor : AuthUser
other_visitor = record visitor { token = "beef" }

abbrev after_logout : World
after_logout = (logout plain quiet other_visitor parts two_sessions).1

abbrev after_both : World
after_both = (from_request_parts quiet settings parts after_logout).1

logout_runs :
    logout plain quiet other_visitor parts two_sessions ≡ (ok removal_cookie, after_logout)
unfolding logout write_audit ignore ◌>>=◌ map_err get_conn statement now_unix Sessions.delete
    delete_session Audit.write insert_audit require_xhr eq_ignore_ascii_case retain as_i64
logout_runs = refl

request_after_logout_runs :
    from_request_parts quiet settings parts after_logout ≡ (ok visitor, after_both)
unfolding from_request_parts active_session ◌>>=◌ map_err get_conn statement now_unix reading
    find_active select_active touch update_session update_token client_ip slide as_i64 find sub_i64
    half_ℤ logout write_audit ignore Sessions.delete delete_session Audit.write insert_audit
    require_xhr eq_ignore_ascii_case retain
request_after_logout_runs = refl

logout-ends_example : visitor.token ≢ other_visitor.token
logout-ends_example =
    logout-ends plain quiet quiet settings other_visitor parts parts two_sessions after_logout
      after_both removal_cookie visitor logout_runs request_after_logout_runs

abbrev nobody_login : LoginRequest
nobody_login = record { username = "nobody"; password = "guess" }

plain-Hashes : Hashes plain quiet
plain-Hashes = record { hashes = λ n. ("dummy-not-a-real-password-please-ignore", refl) }

authenticate_unknown_example :
    (v : World) × (authenticate plain quiet settings "127.0.0.1" nobody_login before
      ≡ (err bad_credentials, v))
    × (v.verifications ≡ 1)
    × (v.db.users ≡ admin ∷ [])
    × (v.db.sessions ≡ old_session ∷ [])
unfolding find
authenticate_unknown_example =
    authenticate_unknown plain plain-CryptoLaws quiet plain-Hashes quiet-IsHealthy settings
      "127.0.0.1" nobody_login before refl (λ phc e. (phc, refl))

authenticate-Paid_example :
    Paid 0 (authenticate plain quiet settings "127.0.0.1" wrong_login before)
authenticate-Paid_example =
    authenticate-Paid plain plain-CryptoLaws quiet plain-Hashes settings "127.0.0.1" wrong_login
      before (λ u e. (u.password_hash, refl)) (λ phc e. (phc, refl))
