-- ===== src/Config.antt =====
-- src/config.rs: the configuration, its defaults, and the refusal of public bind addresses.
pub mod Bind
use vps_monitor_webui.Prelude.{ℕ, ◌*◌, String, Bool, List, [], Option, none, some}
use vps_monitor_webui.Result.{Result, ok, err, unwrap_or, ◌>>=◌}
use vps_monitor_webui.Error.{Anyhow}

pub record Config : Type 0 where
  pub bind : String
  pub db_path : String
  pub session_ttl_secs : ℕ
  pub audit_retention_days : ℕ
  pub max_failed_logins : ℕ
  pub lockout_minutes : ℕ
  pub pm2_homes : List String
  pub docker_socket : Option String

abbrev default_session_ttl : ℕ
default_session_ttl = 7 * 24 * 3600

abbrev default_audit_retention : ℕ
default_audit_retention = 90

abbrev default_max_failed_logins : ℕ
default_max_failed_logins = 5

abbrev default_lockout_minutes : ℕ
default_lockout_minutes = 15

-- What the TOML reader finds in a file: `none` for a key that is not there.
pub record RawConfig : Type 0 where
  pub bind : String
  pub db_path : String
  pub session_ttl_secs : Option ℕ
  pub audit_retention_days : Option ℕ
  pub max_failed_logins : Option ℕ
  pub lockout_minutes : Option ℕ
  pub pm2_homes : Option (List String)
  pub docker_socket : Option String

-- The attributes `#[serde(default = …)]`.
unfoldable pub with_defaults : RawConfig → Config
with_defaults r = record {
  bind = r.bind;
  db_path = r.db_path;
  session_ttl_secs = unwrap_or r.session_ttl_secs default_session_ttl;
  audit_retention_days = unwrap_or r.audit_retention_days default_audit_retention;
  max_failed_logins = unwrap_or r.max_failed_logins default_max_failed_logins;
  lockout_minutes = unwrap_or r.lockout_minutes default_lockout_minutes;
  pm2_homes = unwrap_or r.pm2_homes [];
  docker_socket = r.docker_socket;
}

-- Config::load, over the file system and the TOML reader.
module _ (read_to_string : String → Result Anyhow String)
    (from_str : String → Result Anyhow RawConfig) where
  unfoldable pub load : String → Result Anyhow Config
  unfolding with_defaults
  load path = do s ← read_to_string path; raw ← from_str s; ok (with_defaults raw)
