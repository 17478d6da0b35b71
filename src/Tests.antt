-- ===== src/Tests.antt =====
-- Runs of src/db, src/auth and src/config.rs on small inputs.
use vps_monitor_webui.Prelude.{
  any, false, String, none, retain, utf8_len, ◌+◌, ◌≤◌, ◌/◌, ◌≡◌, ◌↔◌, refl, true, some, arith,
  find,
}
use vps_monitor_webui.Prelude.Int.{pos, as_i64}
use vps_monitor_webui.Error.{Anyhow, pool, msg}
use vps_monitor_webui.Result.{Result, ok, err, unwrap_or}
use vps_monitor_webui.Exec.{pure, ◌>>=◌}
use vps_monitor_webui.Cli.{cmd_user_add, cmd_user_passwd}
use vps_monitor_webui.Cli.Added.{cmd_user_add-admits}
use vps_monitor_webui.Cli.Serve.{Host, serve}
use vps_monitor_webui.Cli.Serve.Refused.{serve_refused}
use vps_monitor_webui.Cli.Accounts.{cmd_user_passwd-accepts}
use vps_monitor_webui.Db.{
  UserRow, migrate, now_unix, reading, open_pool, get_conn, statement, Database, World, fill_bytes,
}
use vps_monitor_webui.Db.Users
use vps_monitor_webui.Db.Users.{
  named, insert_user, set_password, update_password, update, has_id, with_failures,
}
use vps_monitor_webui.Db.Users.Lockout.{lock_at, failures, Counted, failures-Counted}
use vps_monitor_webui.Db.Users.Race.{at_once, at_once_lem}
use vps_monitor_webui.Auth.Password.{accepts, hash}
use vps_monitor_webui.Auth.Middleware.{slide, AuthUser, from_request_parts}
use vps_monitor_webui.Handlers.Auth.{LoginRequest, authenticate}
use vps_monitor_webui.Handlers.Auth.Success.{NewTokens}
use vps_monitor_webui.Auth.Middleware.Sliding.{next_expiry, slide_bounds}
use vps_monitor_webui.Config.Bind.{is_safe_bind, v4, v6, SocketAddr, refusal}
use vps_monitor_webui.Config.Bind.Blocks6.{InPrivateBlocks6, v6_number, is_safe_bind_iff}
use vps_monitor_webui.Example.{
  quiet, quiet-IsHealthy, plain, plain-CryptoLaws, settings, admin, before, before-IsConsistent,
  with_cookie, before_end,
}

failures-Counted_example :
    (v : World) × (failures quiet quiet-IsHealthy 1 3 (pos 900) 2 before ≡ (ok tt, v))
    × Counted quiet quiet-IsHealthy 1 3 (pos 900) admin 2 before v
unfolding find
failures-Counted_example =
    failures-Counted quiet quiet-IsHealthy 1 3 (pos 900) 2 before admin refl (omega arith)

-- Two attempts, after two failures: the third is counted, the fourth is not.
at_once_lem_example :
    (db' : Database) × (at_once 1 3 (pos 900) (pos 1000) 2 before.db ≡ ok db')
    × (find (has_id 1) db'.users ≡ some (with_failures 3 (lock_at 3 3 (pos 900) (pos 1000)) admin))
unfolding find
at_once_lem_example = at_once_lem 1 3 (pos 900) (pos 1000) 1 before.db admin refl (omega arith)

slide_bounds_example :
    (unwrap_or (slide (pos 600) (pos 1200) (pos 1000)) (pos 1200) ≡ pos (next_expiry 600 1200 1000))
    × (1000 + 600 / 2 ≤ next_expiry 600 1200 1000)
    × (next_expiry 600 1200 1000 ≤ 1000 + 600)
    × (1200 ≤ next_expiry 600 1200 1000)
slide_bounds_example =
    slide_bounds 600 1200 1000 (omega arith) (omega arith) (omega arith) (omega arith) (omega arith)

is_safe_bind_iff_example :
    (is_safe_bind (v6 0xfd00 0 0 0 0 0 0 1) ≡ true)
    ↔ InPrivateBlocks6 (v6_number 0xfd00 0 0 0 0 0 0 1)
is_safe_bind_iff_example = is_safe_bind_iff (v6 0xfd00 0 0 0 0 0 0 1) (
  omega arith,
  omega arith,
  omega arith,
  omega arith,
  omega arith,
  omega arith,
  omega arith,
  omega arith,
)

abbrev typed : Result Anyhow String
typed = ok "longsecret"

abbrev after_passwd : World
after_passwd = (cmd_user_passwd plain quiet typed typed "admin" before).1

passwd_runs : cmd_user_passwd plain quiet typed typed "admin" before ≡ (ok tt, after_passwd)
unfolding cmd_user_passwd open_pool get_conn hash fill_bytes set_password update_password statement
    retain update utf8_len ◌>>=◌
passwd_runs = refl

cmd_user_passwd-accepts_example :
    (pw : String) × (typed ≡ ok pw)
    × (typed ≡ ok pw)
    × (8 ≤ utf8_len pw)
    × ((u : UserRow) × (find (named "admin") after_passwd.db.users ≡ some u)
        × (accepts plain pw u.password_hash ≡ true)
        × (u.failed_count ≡ 0)
        × (u.locked_until ≡ none))
    × (after_passwd.db.sessions ≡ before.db.sessions)
cmd_user_passwd-accepts_example =
    cmd_user_passwd-accepts plain quiet typed typed plain-CryptoLaws "admin" before after_passwd
      passwd_runs

abbrev public_address : SocketAddr
public_address = record { ip = v4 8 8 8 8; port = 8080 }

-- A host whose loop would go on if it were asked.
abbrev host : Host (Unit {0})
host = record {
  parse = λ s. ok public_address;
  show_ip = λ ip. "8.8.8.8";
  show_port = λ port. "8080";
  connect = λ address. err pool;
  Listener = Unit;
  listen = λ bind. ok tt;
  axum_serve = λ listener state. pure tt;
  read_to_string = λ path. ok "";
  from_str = λ s. err pool;
  prompt = ok "";
  confirm = ok "";
  runtime = ok tt;
}

serve_refused_example :
    serve host plain quiet settings before
    ≡ (err (msg (refusal host.parse host.show_ip host.show_port public_address)), before)
serve_refused_example =
    serve_refused host plain quiet settings public_address before refl
      (omega arith, omega arith, omega arith, omega arith) (λ h. absurd (ground (arith, h)))

abbrev after_add : World
after_add = (cmd_user_add plain quiet typed typed "eve" before).1

add_runs : cmd_user_add plain quiet typed typed "eve" before ≡ (ok tt, after_add)
unfolding cmd_user_add migrate open_pool get_conn hash fill_bytes Users.create insert_user now_unix
    statement reading utf8_len any as_i64 ◌>>=◌
add_runs = refl

new_tokens :
    (req : LoginRequest) → NewTokens plain quiet quiet-IsHealthy settings "127.0.0.1" req after_add
unfolding cmd_user_add migrate open_pool get_conn hash fill_bytes Users.create insert_user now_unix
    statement reading utf8_len any as_i64 ◌>>=◌
new_tokens req n = refl

cmd_user_add-admits_example :
    (pw : String) × (typed ≡ ok pw)
    × (typed ≡ ok pw)
    × (8 ≤ utf8_len pw)
    × ((token : String) × (after : World) × (authenticate plain quiet settings "127.0.0.1"
            (record { username = "eve"; password = pw })
            after_add
          ≡ (ok (2, token), after))
        × ((a : AuthUser) × ((end : World) × (from_request_parts quiet settings
                  (with_cookie token)
                  after
                ≡ (ok a, end)))
            × (a.user_id ≡ 2)
            × (a.username ≡ "eve")
            × (a.token ≡ token)))
cmd_user_add-admits_example =
    cmd_user_add-admits plain quiet typed typed "eve" quiet quiet-IsHealthy settings "127.0.0.1"
      quiet quiet-IsHealthy with_cookie plain-CryptoLaws before after_add after_add add_runs
      before-IsConsistent refl new_tokens (λ t. refl) before_end

-- The unit tests of src/config.rs.
rejects_public_v4 : (is_safe_bind (v4 8 8 8 8) ≡ false) × (is_safe_bind (v4 0 0 0 0) ≡ false)
unfolding is_safe_bind
rejects_public_v4 = (refl, refl)

allows_loopback_and_private :
    (is_safe_bind (v4 127 0 0 1) ≡ true)
    × (is_safe_bind (v4 10 0 0 5) ≡ true)
    × (is_safe_bind (v4 192 168 1 1) ≡ true)
    × (is_safe_bind (v4 100 64 0 1) ≡ true)
    × (is_safe_bind (v6 0 0 0 0 0 0 0 1) ≡ true)
unfolding is_safe_bind
allows_loopback_and_private = (refl, refl, refl, refl, refl)
