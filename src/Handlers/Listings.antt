-- ===== src/Handlers/Listings.antt =====
-- src/handlers/metrics.rs, processes.rs, services.rs, pm2.rs and docker.rs: the listings, each with
-- its extractor. One reading of the host is a `Machine`.
pub mod Processes
pub mod Services
use vps_monitor_webui.Prelude.{
  ℕ, String, Bool, ◌||◌, List, [], map, Option, none, some, ltb, retain, eq_ignore_ascii_case,
  if◌then◌else◌,
}
use vps_monitor_webui.Result.{Result, ok, err, unwrap_or}
use vps_monitor_webui.Error.{Anyhow, AppError, other}
use vps_monitor_webui.Exec.{Exec, pure, lift, map_err, ◌>>=◌}
use vps_monitor_webui.Config.{Config}
use vps_monitor_webui.Db.{Env, World}
use vps_monitor_webui.Auth.Middleware.{Parts, from_request_parts}
use vps_monitor_webui.Collectors.Docker
use vps_monitor_webui.Collectors.Docker.{DockerContainer, ContainerSummary}
use vps_monitor_webui.Collectors.Systemd
use vps_monitor_webui.Collectors.Systemd.{SystemdService}
use vps_monitor_webui.Collectors.Pm2
use vps_monitor_webui.Collectors.Pm2.{Pm2App}
use vps_monitor_webui.Collectors.System.{
  Float, MetricsSnapshot, ProcessRow, parse, to_row, top_processes,
}
use vps_monitor_webui.Machine.{Machine}

-- An event of the stream of metrics.
pub record SseEvent : Type 0 where
  pub event : String
  pub data_text : String

-- `limit.unwrap_or(20).clamp(1, 200)`
abbrev pub process_limit : Option ℕ → ℕ
process_limit limit =
    let n = unwrap_or limit 20 in if ltb n 1 then 1 else if ltb 200 n then 200 else n

-- A service in the state that was asked for, which stands in lower case.
abbrev pub in_state : String → SystemdService → Bool
in_state f s = eq_ignore_ascii_case s.active f || eq_ignore_ascii_case s.sub f

module _ (float : Float) where
  -- The payload of a snapshot; `to_json` is serde_json's.
  unfoldable pub metrics_event :
      (MetricsSnapshot float → Result String String) → MetricsSnapshot float → SseEvent
  metrics_event to_json snap = record {
    event = "metrics";
    data_text = elim (to_json snap) [ ok s ↦ s | err e ↦ "{}" ];
  }

  module _ (env : Env) (cfg : Config) (machine : Machine float) (parts : Parts) where
    unfoldable pub current : Exec World AppError (MetricsSnapshot float)
    current = do user ← from_request_parts env cfg parts; pure machine.snapshot

    -- The stream yields an event for each snapshot that it is woken with.
    unfoldable pub stream :
        (MetricsSnapshot float → Result String String)
        → Exec World AppError (List (MetricsSnapshot float) → List SseEvent)
    stream to_json = do
      user ← from_request_parts env cfg parts
      pure (λ snaps. map (metrics_event to_json) snaps)

    unfoldable pub list_processes :
        Option String → Option ℕ → Exec World AppError (List (ProcessRow float))
    list_processes sort limit = do
      user ← from_request_parts env cfg parts
      pure (
          top_processes float (parse (unwrap_or sort "cpu")) (process_limit limit)
            (map (to_row float machine.user_by_id) machine.processes))

    abbrev pub keep_state : Option String → List SystemdService → List SystemdService
    keep_state none svcs = svcs
    keep_state (some filter) svcs = retain (in_state (machine.to_lowercase filter)) svcs

    unfoldable pub list_services : Option String → Exec World AppError (List SystemdService)
    list_services filter = do
      user ← from_request_parts env cfg parts
      svcs ← map_err other (lift (Systemd.list machine.systemctl))
      pure (keep_state filter svcs)

    unfoldable pub list_apps : Exec World AppError (List (Pm2App float))
    list_apps = do
      user ← from_request_parts env cfg parts
      map_err other (
          lift (
            Pm2.list float machine.jlist machine.from_str machine.now machine.discovered
              cfg.pm2_homes))

    abbrev pub containers_of :
        Option (Result Anyhow (List ContainerSummary)) → Result Anyhow (List DockerContainer)
    containers_of none = ok []
    containers_of (some answer) = Docker.list machine.show answer

    unfoldable pub list_containers : Exec World AppError (List DockerContainer)
    list_containers = do
      user ← from_request_parts env cfg parts
      map_err other (lift (containers_of machine.docker))
