-- ===== src/Auth/Session.antt =====
-- src/auth/session.rs: the tokens of sessions.
use vps_monitor_webui.Prelude.{String, ◌≡◌, arith, refl}
use vps_monitor_webui.Result.{ok}
use vps_monitor_webui.Exec.{Exec, pure, ◌>>=◌}
use vps_monitor_webui.Db.{Env, World, tick, fill_bytes}
use vps_monitor_webui.Auth.Password.{Crypto}

abbrev pub cookie_name : String
cookie_name = "vps_monitor_session"

unfoldable pub new_token : Crypto → Env → {E : Type 0} → Exec World E String
new_token crypto env = do buf ← fill_bytes env; pure (crypto.hex_encode buf)

-- A token costs randomness, and the database does not know of it yet.
pub new_token-db :
    (crypto : Crypto) (env : Env) {E : Type 0} (w v : World) (token : String)
    → new_token crypto env {E = E} w ≡ (ok token, v)
    → v.db ≡ w.db
unfolding new_token fill_bytes ◌>>=◌
new_token-db crypto env w v token h = ground arith

pub new_token_runs :
    (crypto : Crypto) (env : Env) {E : Type 0} (w : World)
    → new_token crypto env {E = E} w ≡ (ok (crypto.hex_encode (env.random_bytes w.at)), tick w)
unfolding new_token fill_bytes ◌>>=◌
new_token_runs crypto env w = refl
