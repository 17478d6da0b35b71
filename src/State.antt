-- ===== src/State.antt =====
-- src/state.rs: the state that the handlers share, and the two tasks that purge the database, of which
-- a tick is one run of the loop's body. How often they tick is tokio's.
pub mod Purges
pub mod Retention
pub mod Service
mod Tests
use vps_monitor_webui.Prelude.{ℕ, String, Option, none, some}
use vps_monitor_webui.Result.{Result, ok, err}
use vps_monitor_webui.Error.{Anyhow}
use vps_monitor_webui.Exec.{Exec, pure, ignore, ◌>>=◌, ◌>>◌}
use vps_monitor_webui.Config.{Config}
use vps_monitor_webui.Db.{Env, World, get_conn, open_pool}
use vps_monitor_webui.Db.Sessions.{purge_expired}
use vps_monitor_webui.Db.Audit.{purge_older_than}

-- Where bollard looks for the daemon: at a socket, with a timeout in seconds, or by its defaults.
pub data DockerAddress : Type 0 where
  with_unix : (path : String) (timeout : ℕ) → DockerAddress
  with_local_defaults : DockerAddress

-- `Client` is bollard's `Docker`. The pool is the database of the World, and the collector a Machine.
pub record AppState (Client : Type 0) : Type 0 where
  pub cfg : Config
  pub docker : Option Client

abbrev pub docker_address : Option String → DockerAddress
docker_address none = with_local_defaults
docker_address (some path) = with_unix path 120

-- Result::ok
abbrev discard {ℓ} : {E A : Type ℓ} → Result E A → Option A
discard (ok a) = some a
discard (err e) = none

module _ (env : Env) where
  unfoldable pub new :
      {Client : Type 0}
      → (DockerAddress → Result Anyhow Client)
      → Config
      → Exec World Anyhow (AppState Client)
  new connect cfg = do
    open_pool env
    pure (record { cfg = cfg; docker = discard (connect (docker_address cfg.docker_socket)) })

  -- A tick of `spawn_session_purge`.
  unfoldable pub session_purge : Exec World Anyhow (Unit {0})
  session_purge = ignore {E = Anyhow} (get_conn env >> purge_expired env)

  -- A tick of `spawn_audit_purge`.
  unfoldable pub audit_purge : ℕ → Exec World Anyhow (Unit {0})
  audit_purge retain = ignore {E = Anyhow} (get_conn env >> purge_older_than env retain)
