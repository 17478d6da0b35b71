-- ===== src/Cli/Serve.antt =====
-- src/main.rs: the commands of the program, and the start of the server. The listener, axum's loop, the
-- reading of the configuration and the prompts are outside the repository.
pub mod Refused
use vps_monitor_webui.Prelude.{ℕ, String, Option}
use vps_monitor_webui.Result.{Result}
use vps_monitor_webui.Error.{Anyhow}
use vps_monitor_webui.Exec.{Exec, pure, lift, ◌>>=◌, ◌>>◌}
use vps_monitor_webui.Config.{Config, RawConfig, load}
use vps_monitor_webui.Config.Bind.{IpAddr, SocketAddr, validate_bind}
use vps_monitor_webui.Db.{Env, World, migrate}
use vps_monitor_webui.Auth.Password.{Crypto}
use vps_monitor_webui.State
use vps_monitor_webui.State.{DockerAddress, AppState}
use vps_monitor_webui.Cli.{cmd_user_add, cmd_user_list, cmd_user_passwd}

pub data Cmd : Type 0 where
  serve_at : (config : String) → Cmd
  migrate_at : (db : String) → Cmd
  user_add user_passwd : (username db : String) → Cmd
  user_list : (db : String) → Cmd

-- `parse`, `show_ip` and `show_port` are those of Config/Bind, `connect` is bollard's, `listen` is
-- TcpListener::bind with local_addr, and `axum_serve` runs the router until the shutdown.
pub record Host (Client : Type 0) : Type 1 where
  pub parse : String → Result String SocketAddr
  pub show_ip : IpAddr → String
  pub show_port : ℕ → String
  pub connect : DockerAddress → Result Anyhow Client
  pub Listener : Type 0
  pub listen : String → Result Anyhow Listener
  pub axum_serve : Listener → AppState Client → Exec World Anyhow (Unit {0})
  pub read_to_string : String → Result Anyhow String
  pub from_str : String → Result Anyhow RawConfig
  pub prompt : Result Anyhow String
  pub confirm : Result Anyhow String
  pub runtime : Result Anyhow (Unit {0})

module _ {Client : Type 0} (host : Host Client) (crypto : Crypto) (env : Env) where
  unfoldable pub serve : Config → Exec World Anyhow (Unit {0})
  serve cfg = do
    lift (validate_bind host.parse host.show_ip host.show_port cfg)
    migrate env
    app_state ← State.new env host.connect cfg
    listener ← lift (host.listen cfg.bind)
    host.axum_serve listener app_state

  -- The database of the World is the one at the path of the command.
  unfoldable pub main : Cmd → Exec World Anyhow (Unit {0})
  main (serve_at config) = do
    cfg ← lift (load host.read_to_string host.from_str config)
    lift host.runtime
    serve cfg
  main (migrate_at db) = migrate env
  main (user_add username db) = cmd_user_add crypto env host.prompt host.confirm username
  main (user_list db) = do users ← cmd_user_list env; pure tt
  main (user_passwd username db) = cmd_user_passwd crypto env host.prompt host.confirm username
