-- ===== src/Handlers/Auth/Consistent.antt =====
-- src/handlers/auth.rs and src/auth/middleware.rs: requests keep the tables consistent, whatever
-- they carry and whatever fails.
use vps_monitor_webui.Prelude.{String}
use vps_monitor_webui.Exec.Keeps.{Keeps}
use vps_monitor_webui.Config.{Config}
use vps_monitor_webui.Db.{Env}
use vps_monitor_webui.Db.Keeps.{OnDb}
use vps_monitor_webui.Db.Consistent.{IsConsistent}
use vps_monitor_webui.Db.Consistent.Statements.{Stable-IsConsistent}
use vps_monitor_webui.Auth.Password.{Crypto}
use vps_monitor_webui.Auth.Middleware.{Parts, AuthUser, from_request_parts}
use vps_monitor_webui.Handlers.Auth.{LoginRequest, login, logout}
use vps_monitor_webui.Handlers.Auth.Stable.{from_request_parts-Keeps, login-Keeps, logout-Keeps}

module _ (env : Env) where
  -- The extractor of the session keeps the tables consistent, whether it lets the request in or not.
  from_request_parts-IsConsistent :
      (cfg : Config) (parts : Parts) → Keeps (OnDb IsConsistent) (from_request_parts env cfg parts)
  from_request_parts-IsConsistent cfg parts =
      from_request_parts-Keeps env Stable-IsConsistent cfg parts

module _ (crypto : Crypto) (env : Env) (cfg : Config) (ip : String) (req : LoginRequest) where
  -- A login keeps the tables consistent, whether it succeeds or fails.
  login-IsConsistent :
      (parts : Parts) → Keeps (OnDb IsConsistent) (login crypto env cfg ip req parts)
  login-IsConsistent parts = login-Keeps crypto env cfg ip req Stable-IsConsistent parts

-- A logout keeps the tables consistent, whether it succeeds or fails.
logout-IsConsistent :
    (crypto : Crypto) (env : Env) (user : AuthUser) (parts : Parts)
    → Keeps (OnDb IsConsistent) (logout crypto env user parts)
logout-IsConsistent crypto env user parts = logout-Keeps crypto env Stable-IsConsistent user parts
