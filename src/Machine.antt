-- ===== src/Machine.antt =====
-- What the host answers while one request is handled: src/state.rs (`docker`, `system`) and the
-- commands of src/collectors. Every field is code or a service outside the repository.
use vps_monitor_webui.Prelude.{ℕ, String, List, Option}
use vps_monitor_webui.Prelude.Int.{ℤ}
use vps_monitor_webui.Result.{Result}
use vps_monitor_webui.Error.{Anyhow}
use vps_monitor_webui.Collectors.Docker.{ContainerSummary}
use vps_monitor_webui.Collectors.Systemd.{Output}
use vps_monitor_webui.Collectors.Pm2.{RawApp}
use vps_monitor_webui.Collectors.System.{Float, MetricsSnapshot, Process}
use vps_monitor_webui.Collectors.System.Collector.{Sysinfo, SystemCollector, snapshot}

-- `docker` is none where no client could be made at the start; `processes` are those that sysinfo
-- has, in its order, `user_by_id` the name of a user, and `snapshot` the last one of the refresher. `jlist`, `from_str`, `now` and
-- `discovered` are those of Collectors/Pm2, `to_lowercase` the one of std, by the tables of Unicode.
pub record Machine (float : Float) : Type 0 where
  pub docker : Option (Result Anyhow (List ContainerSummary))
  pub systemctl : Result String Output
  pub jlist : Option String → Result String Output
  pub from_str : String → Result String (List (RawApp float))
  pub now : ℤ
  pub discovered : List String
  pub processes : List (Process float)
  pub user_by_id : String → Option String
  pub snapshot : MetricsSnapshot float
  pub show : ℕ → String
  pub to_lowercase : String → String

-- The host with what a collector holds.
abbrev pub with_system :
    {float : Float}
    → (sysinfo : Sysinfo float) → SystemCollector float sysinfo
    → Machine float
    → Machine float
with_system {float} sysinfo c m = record m {
  processes = sysinfo.processes c.sys;
  user_by_id = sysinfo.get_user_by_id c.users;
  snapshot = snapshot float sysinfo c;
}
