-- ===== src/Cli/Kept.antt =====
-- src/main.rs: the commands on users keep what every statement keeps, also where they fail on the way.
use vps_monitor_webui.Prelude.{String}
use vps_monitor_webui.Result.{Result}
use vps_monitor_webui.Error.{Anyhow}
use vps_monitor_webui.Exec.Keeps.{Keeps}
use vps_monitor_webui.Db.{Env, Database, migrate, open_pool}
use vps_monitor_webui.Db.Keeps.{OnDb}
use vps_monitor_webui.Db.Stable.{Stable}
use vps_monitor_webui.Db.Stable.Operations.{operation_rules}
use vps_monitor_webui.Auth.Password
use vps_monitor_webui.Auth.Password.{Crypto}
use vps_monitor_webui.Cli.{new_password, cmd_user_add, cmd_user_passwd}

module _ {P : Database → Type 0} (inv : Stable P) where
  pub migrate-Keeps : (env : Env) → Keeps (OnDb P) (migrate env)
  unfolding migrate open_pool
  migrate-Keeps env = search operation_rules

  hash-Keeps :
      (crypto : Crypto) (env : Env) (password : String)
      → Keeps (OnDb P) (Password.hash crypto env password)
  unfolding Password.hash
  hash-Keeps crypto env password = search operation_rules

  module _ (crypto : Crypto) (env : Env) (prompt confirm : Result Anyhow String) where
    new_password-Keeps : Keeps (OnDb P) (new_password crypto env prompt confirm)
    unfolding new_password
    new_password-Keeps = search operation_rules depth 8

    pub cmd_user_add-Keeps :
        (username : String) → Keeps (OnDb P) (cmd_user_add crypto env prompt confirm username)
    unfolding cmd_user_add open_pool
    cmd_user_add-Keeps username =
        search (operation_rules, migrate-Keeps, hash-Keeps, new_password-Keeps) depth 8

    pub cmd_user_passwd-Keeps :
        (username : String) → Keeps (OnDb P) (cmd_user_passwd crypto env prompt confirm username)
    unfolding cmd_user_passwd open_pool
    cmd_user_passwd-Keeps username =
        search (operation_rules, hash-Keeps, new_password-Keeps) depth 8
