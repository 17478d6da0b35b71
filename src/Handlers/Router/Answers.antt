-- ===== src/Handlers/Router/Answers.antt =====
-- src/handlers/mod.rs: each route with its handler, and what comes back.
use vps_monitor_webui.Prelude.{ℕ, String, List, [], ◌∷◌, Option}
use vps_monitor_webui.Prelude.Int.{ℤ}
use vps_monitor_webui.Result.{Result}
use vps_monitor_webui.Error.{AppError}
use vps_monitor_webui.Exec.{Exec, pure, ◌>>=◌}
use vps_monitor_webui.Config.{Config}
use vps_monitor_webui.Db.{Env, World}
use vps_monitor_webui.Db.Audit.{AuditEntry}
use vps_monitor_webui.Auth.Password.{Crypto}
use vps_monitor_webui.Auth.Middleware.{Parts, from_request_parts}
use vps_monitor_webui.Collectors.Docker.{DockerContainer}
use vps_monitor_webui.Collectors.Systemd.{SystemdService}
use vps_monitor_webui.Collectors.Pm2.{Pm2App}
use vps_monitor_webui.Collectors.System.{Float, MetricsSnapshot, ProcessRow}
use vps_monitor_webui.Machine.{Machine}
use vps_monitor_webui.Handlers.Auth
use vps_monitor_webui.Handlers.Auth.{LoginRequest, LoginResponse, Cookie}
use vps_monitor_webui.Handlers.Audit
use vps_monitor_webui.Handlers.Listings
use vps_monitor_webui.Handlers.Listings.{SseEvent}
use vps_monitor_webui.Handlers.Logs
use vps_monitor_webui.Handlers.Logs.{Upgrade}
use vps_monitor_webui.Handlers.StaticFiles
use vps_monitor_webui.Handlers.StaticFiles.{StaticResponse}
use vps_monitor_webui.Handlers.Router
use vps_monitor_webui.Handlers.Router.{
  Method, Endpoint, Target, to, method_not_allowed, fallback, Axum, resolve,
}

-- `peer` is the address that the connection came from; `body` is what the login takes.
pub record Request : Type 0 where
  pub method : Method
  pub path : String
  pub parts : Parts
  pub peer : String
  pub body : LoginRequest
  pub sort : Option String
  pub limit : Option ℕ
  pub filter : Option String
  pub audit_limit : Option ℤ

pub data Reply (float : Float) : Type 0 where
  logged_in : Cookie × LoginResponse → Reply float
  logged_out : Cookie → Reply float
  current_user : String × ℕ → Reply float
  metrics : MetricsSnapshot float → Reply float
  events : (List (MetricsSnapshot float) → List SseEvent) → Reply float
  process_rows : List (ProcessRow float) → Reply float
  apps : List (Pm2App float) → Reply float
  containers : List DockerContainer → Reply float
  units : List SystemdService → Reply float
  entries : List AuditEntry → Reply float
  socket : Upgrade → Reply float
  page : StaticResponse → Reply float
  no_method : Reply float

-- The program while one request is handled: its state, the host, and what is outside the repository;
-- `decode` is the percent-decoding of a path parameter.
pub record Site (float : Float) : Type 1 where
  pub axum : Axum
  pub env : Env
  pub cfg : Config
  pub crypto : Crypto
  pub machine : Machine float
  pub to_json : MetricsSnapshot float → Result String String
  pub embedded : String → Option (List ℕ)
  pub from_path : String → String
  pub from_str : String → Option String
  pub decode : String → String

abbrev first_capture : List String → String
first_capture [] = ""
first_capture (s ∷ rest) = s

module _ (float : Float) (site : Site float) (req : Request) where
  abbrev parameter : List String → String
  parameter captures = site.decode (first_capture captures)

  unfoldable pub run : Endpoint → List String → Exec World AppError (Reply float)
  run Router.login captures =
      Auth.login site.crypto site.env site.cfg req.peer req.body req.parts >>= λ a.
      pure (logged_in a)
  run Router.logout captures = from_request_parts site.env site.cfg req.parts >>= λ user.
      Auth.logout site.crypto site.env user req.parts >>= λ a. pure (logged_out a)
  run Router.me captures =
      from_request_parts site.env site.cfg req.parts >>= λ user. pure (current_user (Auth.me user))
  run Router.current captures =
      Listings.current float site.env site.cfg site.machine req.parts >>= λ a. pure (metrics a)
  run Router.stream captures =
      Listings.stream float site.env site.cfg site.machine req.parts site.to_json >>= λ a.
      pure (events a)
  run Router.processes captures =
      Listings.list_processes float site.env site.cfg site.machine req.parts req.sort req.limit
      >>= λ a. pure (process_rows a)
  run Router.pm2 captures =
      Listings.list_apps float site.env site.cfg site.machine req.parts >>= λ a. pure (apps a)
  run Router.docker captures =
      Listings.list_containers float site.env site.cfg site.machine req.parts >>= λ a.
      pure (containers a)
  run Router.services captures =
      Listings.list_services float site.env site.cfg site.machine req.parts req.filter >>= λ a.
      pure (units a)
  run Router.audit captures =
      Audit.audit_log site.env site.cfg req.parts req.audit_limit >>= λ a. pure (entries a)
  run Router.ws_pm2 captures =
      Logs.ws_pm2 float site.env site.cfg site.machine req.parts (parameter captures) >>= λ a.
      pure (socket a)
  run Router.ws_docker captures =
      Logs.ws_docker float site.env site.cfg site.machine req.parts (parameter captures) >>= λ a.
      pure (socket a)
  run Router.ws_journal captures =
      Logs.ws_journal float site.env site.cfg site.machine req.parts (parameter captures) >>= λ a.
      pure (socket a)

  unfoldable pub answer : Target → Exec World AppError (Reply float)
  answer (to handler captures) = run handler captures
  answer method_not_allowed = pure no_method
  answer fallback =
      pure (page (StaticFiles.handler site.embedded site.from_path site.from_str req.path))

  unfoldable pub dispatch : Exec World AppError (Reply float)
  dispatch = answer (resolve site.axum req.method req.path)
