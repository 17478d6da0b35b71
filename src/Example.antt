-- ===== src/Example.antt =====
-- One machine on which nothing fails, one user and one session, for the runs of the tests.
use vps_monitor_webui.Prelude.{
  ℕ, List, Option, String, refl, true, false, ◌==◌, if◌then◌else◌, arith, [], ◌∷◌, none, some,
  eq_refl, any,
}
use vps_monitor_webui.Prelude.Int.{pos, as_i64, add_i64, ◌<ℤ◌}
use vps_monitor_webui.Result.{Result, ok, err}
use vps_monitor_webui.Db.{Env, World, seconds, UserRow, SessionRow}
use vps_monitor_webui.Db.Facts.{IsHealthy}
use vps_monitor_webui.Db.Consistent.{IsConsistent}
use vps_monitor_webui.Auth.Password.{Crypto}
use vps_monitor_webui.Auth.Password.RoundTrip.{CryptoLaws}
use vps_monitor_webui.Auth.Middleware.{Parts}
use vps_monitor_webui.Config.{Config}
use vps_monitor_webui.Collectors.Systemd.{Output}
use vps_monitor_webui.Collectors.System.{Float, default_snapshot}
use vps_monitor_webui.Collectors.Pm2.{RawApp}
use vps_monitor_webui.Machine.{Machine}

-- The clock stands at second 1000.
abbrev pub quiet : Env
quiet = record {
  system_time = λ n. some 1000;
  pool_fails = λ n. false;
  statement_fails = λ n. false;
  random_bytes = λ n. 7 ∷ 8 ∷ [];
}

pub quiet-IsHealthy : IsHealthy quiet
quiet-IsHealthy = record { connects = λ n. refl; executes = λ n. refl }

-- A hash that is the password itself.
abbrev pub plain : Crypto
plain = record {
  PasswordHash = String;
  hash_password = λ params password salt. ok password;
  verify_password = λ params password h. password == h;
  parse = λ s. some s;
  show = λ h. h;
  hex_encode = λ bytes. "0708";
}

pub plain-CryptoLaws : CryptoLaws plain
plain-CryptoLaws = record {
  parse-show = λ h. refl;
  verify-hash = λ params password salt h e. ground (arith, e, eq_refl password);
}

abbrev pub settings : Config
settings = record {
  bind = "127.0.0.1:8080";
  db_path = "vps.db";
  session_ttl_secs = 600;
  audit_retention_days = 90;
  max_failed_logins = 3;
  lockout_minutes = 15;
  pm2_homes = [];
  docker_socket = none;
}

abbrev pub admin : UserRow
admin = record {
  id = 1;
  username = "admin";
  password_hash = "secret";
  failed_count = 2;
  locked_until = some (pos 900);
  created_at = pos 10;
}

abbrev pub locked_admin : UserRow
locked_admin = record admin { failed_count = 3; locked_until = some (pos 1100) }

-- Less than half of its lifetime is left.
abbrev pub old_session : SessionRow
old_session = record {
  token = "cafe";
  user_id = 1;
  created_at = pos 600;
  expires_at = pos 1200;
  last_seen = pos 700;
  ip = none;
}

abbrev pub world_of : UserRow → World
world_of u = record {
  db = record {
    users = u ∷ [];
    sessions = old_session ∷ [];
    audit_log = [];
    next_user = 2;
    next_audit = 1;
  };
  at = 0;
  verifications = 0;
  dummy_hash = none;
}

abbrev pub before : World
before = world_of admin

-- A request of the browser's fetch, with the cookie of the old session.
abbrev pub parts : Parts
parts = record {
  header = λ name. if name == "x-requested-with" then some (some "fetch") else none;
  cookie = λ name. some "cafe";
  connect_ip = some "127.0.0.1";
}

pub before-IsConsistent : IsConsistent before.db
unfolding any
before-IsConsistent = record {
  users = (omega arith, refl, tt, tt);
  sessions = (refl, refl, tt);
  log = tt;
}

abbrev pub with_cookie : String → Parts
with_cookie token = record parts { cookie = λ name. some token }

-- The clock stands still, so that no session ends.
pub before_end :
    (n m : ℕ)
    → seconds (quiet.system_time n)
      <ℤ add_i64 (seconds (quiet.system_time m)) (as_i64 settings.session_ttl_secs)
unfolding as_i64 add_i64
before_end n m = omega arith

-- Floats that are never compared.
abbrev pub floats : Float
floats = record { F = ℕ; zero = 0; add = λ a b. a; div_by = λ a n. a; partial_cmp = λ a b. none }

abbrev pub raw_app : RawApp floats
raw_app = record {
  name = "web";
  pid = some 7;
  pm2_env = record {
    status = "online";
    pm_uptime = none;
    restart_time = none;
    pm_out_log_path = some "/var/log/web.log";
    pm_err_log_path = none;
    pm_exec_path = none;
    pm_cwd = none;
    username = none;
  };
  monit = none;
}

abbrev pub jlist : Option String → Result String Output
jlist home = ok (record { success = true; status = "0"; stdout = "[{}]"; stderr = "" })

abbrev pub from_str : String → Result String (List (RawApp floats))
from_str s = ok (raw_app ∷ [])

-- A host with one app of PM2 and no Docker.
abbrev pub machine : Machine floats
machine = record {
  docker = none;
  systemctl = err "no systemctl";
  jlist = jlist;
  from_str = from_str;
  now = pos 0;
  discovered = "/root/.pm2" ∷ [];
  processes = [];
  user_by_id = λ uid. none;
  snapshot = default_snapshot floats;
  show = λ n. "";
  to_lowercase = λ s. s;
}
