-- ===== src/Handlers/Logs.antt =====
-- src/handlers/logs.rs: the log streams. A handler takes a request whose upgrade to a socket axum
-- has accepted; it returns what runs on the socket, and the entry of the audit log that a task of its
-- own writes, before or after the response.
pub mod Tail
pub mod Streams
pub mod Opened
mod Tests
use Prim.Native.String.{◌++◌}
use vps_monitor_webui.Prelude.{
  ℕ, String, Char, code, Bool, not, ◌||◌, nat_eq, Option, none, some, is_ascii_alphanumeric,
}
use vps_monitor_webui.Result.{Result, ok, err, ok_or}
use vps_monitor_webui.Regex.{Regex, class, seq, up_to, is_match}
use vps_monitor_webui.Error.{Anyhow, AppError, bad_request, not_found, other}
use vps_monitor_webui.Exec.{Exec, pure, fail, lift, choose, map_err, ignore, ◌>>=◌, ◌>>◌}
use vps_monitor_webui.Config.{Config}
use vps_monitor_webui.Db.{Env, World, get_conn}
use vps_monitor_webui.Db.Audit
use vps_monitor_webui.Db.Audit.{AuditWrite}
use vps_monitor_webui.Auth.Middleware.{AuthUser, Parts, from_request_parts}
use vps_monitor_webui.Collectors.Docker.{validate_id}
use vps_monitor_webui.Collectors.Systemd.{validate_unit}
use vps_monitor_webui.Collectors.Pm2.{Pm2App, find_app}
use vps_monitor_webui.Collectors.System.{Float}
use vps_monitor_webui.Machine.{Machine}

-- [A-Za-z0-9._\-]
abbrev pub name_char : Char → Bool
name_char c =
    is_ascii_alphanumeric c || nat_eq (code c) b'.' || nat_eq (code c) b'_' || nat_eq (code c) b'-'

-- {1,128}
abbrev pub pm2_name_re : Regex
pm2_name_re = seq (class name_char) (up_to 127 (class name_char))

-- What runs on the socket: `tail_file`, `stream_docker` or `stream_journal`.
pub data LogStream : Type 0 where
  pm2_stream docker_stream journal_stream : (source : String) → LogStream

pub record Upgrade : Type 0 where
  pub stream : LogStream
  pub spawned : AuditWrite

-- The entry that `audit_log` builds.
abbrev pub view_entry : AuthUser → String → AuditWrite
view_entry user target = record {
  user_id = some user.user_id;
  username = some user.username;
  ip = user.ip;
  action = "view_logs";
  target = some target;
  detail = none;
}

-- The task that `audit_log` spawns: whether it gets a connection or not, nothing comes of a failure.
unfoldable pub audit_log : Env → AuditWrite → Exec World AppError (Unit {0})
audit_log env e = ignore (get_conn env >> Audit.write env e)

abbrev upgraded : AuthUser → String → LogStream → Upgrade
upgraded user target s = record { stream = s; spawned = view_entry user target }

module _ (float : Float) (env : Env) (cfg : Config) (machine : Machine float) (parts : Parts) where
  unfoldable pub open_pm2 : AuthUser → String → Exec World AppError Upgrade
  open_pm2 user name = do
    found ← map_err other (
        lift (
          find_app float machine.jlist machine.from_str machine.now machine.discovered name
            cfg.pm2_homes))
    app ← lift (ok_or found not_found)
    log_path ←
        lift (ok_or app.log_out (bad_request "pm2 app has no out_log_path; check pm2 describe"))
    pure (upgraded user ("pm2:" ++ name) (pm2_stream log_path))

  unfoldable pub ws_pm2 : String → Exec World AppError Upgrade
  unfolding open_pm2
  ws_pm2 name = do
    user ← from_request_parts env cfg parts
    choose (not (is_match pm2_name_re name)) (fail (bad_request "invalid pm2 name"))
        (open_pm2 user name)

  unfoldable pub open_docker : AuthUser → String → Exec World AppError Upgrade
  open_docker user id = do
    docker ← lift (ok_or machine.docker (bad_request "docker not available"))
    pure (upgraded user ("docker:" ++ id) (docker_stream id))

  unfoldable pub ws_docker : String → Exec World AppError Upgrade
  unfolding open_docker
  ws_docker id = do
    user ← from_request_parts env cfg parts
    choose (not (validate_id id)) (fail (bad_request "invalid container id")) (open_docker user id)

  unfoldable pub ws_journal : String → Exec World AppError Upgrade
  ws_journal unit = do
    user ← from_request_parts env cfg parts
    choose (not (validate_unit unit)) (fail (bad_request "invalid unit name"))
        (pure (upgraded user ("journal:" ++ unit) (journal_stream unit)))
