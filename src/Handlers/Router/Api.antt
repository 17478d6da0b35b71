-- ===== src/Handlers/Router/Api.antt =====
-- src/handlers/mod.rs: the requests that the API promises (README.md, "API").
use Prim.Native.String.{◌∷◌}
use mathlib.Core.List.{[] as nil, ◌∷◌ as cons}
use vps_monitor_webui.Prelude.{String, false, ◌==◌, ◌≡◌, List}
use vps_monitor_webui.Handlers.Router
use vps_monitor_webui.Handlers.Router.{Method, get, post, Endpoint}
use vps_monitor_webui.Handlers.Router.Paths.{slash, join_slashes, IsSlashless}
use vps_monitor_webui.Handlers.Router.Laws.{Takes}

-- The requests of the documented API, with the handler and the parameter of each. The segment in place
-- of a parameter is not empty, and has no slash; a GET stands for a HEAD as well.
pub data Documented : Method → String → Endpoint → List String → Type 0 where
  for_login : (m : Method) → Takes post m → Documented m "/api/auth/login" Router.login nil
  for_logout : (m : Method) → Takes post m → Documented m "/api/auth/logout" Router.logout nil
  for_me : (m : Method) → Takes get m → Documented m "/api/auth/me" Router.me nil
  for_current : (m : Method) → Takes get m → Documented m "/api/metrics" Router.current nil
  for_stream : (m : Method) → Takes get m → Documented m "/api/metrics/stream" Router.stream nil
  for_processes : (m : Method) → Takes get m → Documented m "/api/processes" Router.processes nil
  for_pm2 : (m : Method) → Takes get m → Documented m "/api/pm2" Router.pm2 nil
  for_docker : (m : Method) → Takes get m → Documented m "/api/docker" Router.docker nil
  for_services : (m : Method) → Takes get m → Documented m "/api/services" Router.services nil
  for_audit : (m : Method) → Takes get m → Documented m "/api/audit" Router.audit nil
  for_pm2_log :
      (m : Method) (name : String)
      → Takes get m
      → (name == "") ≡ false
      → IsSlashless name
      → Documented m
          (slash ∷ join_slashes (cons "api" (cons "logs" (cons "pm2" (cons name nil)))))
          Router.ws_pm2
          (cons name nil)
  for_docker_log :
      (m : Method) (id : String)
      → Takes get m
      → (id == "") ≡ false
      → IsSlashless id
      → Documented m
          (slash ∷ join_slashes (cons "api" (cons "logs" (cons "docker" (cons id nil)))))
          Router.ws_docker
          (cons id nil)
  for_journal_log :
      (m : Method) (unit : String)
      → Takes get m
      → (unit == "") ≡ false
      → IsSlashless unit
      → Documented m
          (slash ∷ join_slashes (cons "api" (cons "logs" (cons "journal" (cons unit nil)))))
          Router.ws_journal
          (cons unit nil)
