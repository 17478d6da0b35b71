-- ===== src/Cli.antt =====
-- src/main.rs: the commands on users. What the two prompts return is an argument; what is printed
-- is left out.
pub mod Accounts
pub mod Added
pub mod Kept
pub mod Serve
use vps_monitor_webui.Prelude.{String, List, utf8_len, ltb, not, ◌==◌}
use vps_monitor_webui.Result.{Result}
use vps_monitor_webui.Error.{Anyhow, msg}
use vps_monitor_webui.Exec.{Exec, pure, fail, lift, choose, ◌>>=◌, ◌>>◌}
use vps_monitor_webui.Db.{Env, World, get_conn, open_pool, migrate}
use vps_monitor_webui.Db.Users
use vps_monitor_webui.Db.Users.{User}
use vps_monitor_webui.Auth.Password
use vps_monitor_webui.Auth.Password.{Crypto}

module _ (crypto : Crypto) (env : Env) (prompt confirm : Result Anyhow String) where
  -- The new password: typed twice alike, and of eight bytes at least.
  pub new_password : Exec World Anyhow String
  new_password = do
    pw1 ← lift prompt
    pw2 ← lift confirm
    choose (not (pw1 == pw2)) (fail (msg "passwords do not match")) (
        choose (ltb (utf8_len pw1) 8) (fail (msg "password must be at least 8 characters"))
          (pure pw1))

  unfoldable pub cmd_user_add : String → Exec World Anyhow (Unit {0})
  unfolding new_password
  cmd_user_add username = do
    migrate env
    open_pool env
    pw ← new_password
    phc ← Password.hash crypto env pw
    get_conn env
    id ← Users.create env username phc
    pure tt

  unfoldable pub cmd_user_passwd : String → Exec World Anyhow (Unit {0})
  unfolding new_password
  cmd_user_passwd username = do
    open_pool env
    pw ← new_password
    phc ← Password.hash crypto env pw
    get_conn env
    Users.set_password env username phc

-- The users that the command prints, a line for each.
unfoldable pub cmd_user_list : Env → Exec World Anyhow (List User)
cmd_user_list env = do open_pool env; get_conn env; Users.list env
