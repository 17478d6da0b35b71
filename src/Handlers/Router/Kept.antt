-- ===== src/Handlers/Router/Kept.antt =====
-- src/handlers/mod.rs: properties of the tables under a request, whatever it carries.
use vps_monitor_webui.Prelude.{String, List}
use vps_monitor_webui.Prelude.Int.{ℤ}
use vps_monitor_webui.Exec.Keeps.{Keeps}
use vps_monitor_webui.Db.{Database}
use vps_monitor_webui.Db.Keeps.{OnDb}
use vps_monitor_webui.Db.Audit
use vps_monitor_webui.Db.Stable.{Stable}
use vps_monitor_webui.Db.Stable.Operations.{operation_rules}
use vps_monitor_webui.Collectors.System.{Float}
use vps_monitor_webui.Handlers.Auth.Stable.{from_request_parts-Keeps, login-Keeps, logout-Keeps}
use vps_monitor_webui.Handlers.Audit.{audit_log}
use vps_monitor_webui.Handlers.Listings.{
  current, stream, list_processes, list_services, list_apps, list_containers,
}
use vps_monitor_webui.Handlers.Logs.{open_pm2, open_docker, ws_pm2, ws_docker, ws_journal}
use vps_monitor_webui.Handlers.Router
use vps_monitor_webui.Handlers.Router.{Endpoint, Target, to, method_not_allowed, fallback}
use vps_monitor_webui.Handlers.Router.Answers.{Site, Request, run, answer, dispatch}

ruleset handler_rules = (operation_rules, from_request_parts-Keeps, login-Keeps, logout-Keeps)

module _ {P : Database → Type 0} (inv : Stable P) (float : Float) (site : Site float)
    (req : Request) where
  list_log-Keeps : (limit : ℤ) → Keeps (OnDb P) (Audit.list site.env limit)
  unfolding Audit.list
  list_log-Keeps limit = search operation_rules

  run-Keeps :
      (e : Endpoint) (captures : List String) → Keeps (OnDb P) (run float site req e captures)
  unfolding run current stream list_processes list_services list_apps list_containers audit_log
      ws_pm2 ws_docker ws_journal open_pm2 open_docker
  run-Keeps Router.login captures = search handler_rules depth 8
  run-Keeps Router.logout captures = search handler_rules depth 8
  run-Keeps Router.me captures = search handler_rules depth 8
  run-Keeps Router.current captures = search handler_rules depth 8
  run-Keeps Router.stream captures = search handler_rules depth 8
  run-Keeps Router.processes captures = search handler_rules depth 8
  run-Keeps Router.pm2 captures = search handler_rules depth 8
  run-Keeps Router.docker captures = search handler_rules depth 8
  run-Keeps Router.services captures = search handler_rules depth 8
  run-Keeps Router.audit captures = search (handler_rules, list_log-Keeps) depth 8
  run-Keeps Router.ws_pm2 captures = search handler_rules depth 10
  run-Keeps Router.ws_docker captures = search handler_rules depth 10
  run-Keeps Router.ws_journal captures = search handler_rules depth 10

  answer-Keeps : (t : Target) → Keeps (OnDb P) (answer float site req t)
  unfolding answer
  answer-Keeps (to handler captures) = run-Keeps handler captures
  answer-Keeps method_not_allowed = search handler_rules
  answer-Keeps fallback = search handler_rules

  -- A request keeps what every statement keeps.
  pub dispatch-Keeps : Keeps (OnDb P) (dispatch float site req)
  unfolding dispatch
  dispatch-Keeps = search answer-Keeps
