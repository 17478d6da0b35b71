-- ===== src/Cli/Serve/Refused.antt =====
-- src/main.rs, `serve`: the start on an address that is refused.
use vps_monitor_webui.Prelude.{ℕ, String, ◌≡◌, refl, false, Bool-cases, inl, inr}
use vps_monitor_webui.Result.{Result, ok, err}
use vps_monitor_webui.Error.{msg}
use vps_monitor_webui.Exec.Inversion.{bind_stops}
use vps_monitor_webui.Config.{Config}
use vps_monitor_webui.Config.Bind.{IpAddr, SocketAddr, is_safe_bind, validate_bind, refusal}
use vps_monitor_webui.Config.Bind.Blocks6.{IsAddress, IsPrivate, is_safe_bind_iff}
use vps_monitor_webui.Db.{Env, World}
use vps_monitor_webui.Auth.Password.{Crypto}
use vps_monitor_webui.Cli.Serve.{Host, serve}

validate_bind_err :
    (parse : String → Result String SocketAddr) (show_ip : IpAddr → String) (show_port : ℕ → String)
    (cfg : Config) (addr : SocketAddr)
    → parse cfg.bind ≡ ok addr
    → is_safe_bind addr.ip ≡ false
    → validate_bind parse show_ip show_port cfg ≡ err (msg (refusal parse show_ip show_port addr))
unfolding validate_bind
validate_bind_err parse show_ip show_port cfg addr p f = rw p (rw f refl)

unsafe : (ip : IpAddr) → IsAddress ip → ¬ IsPrivate ip → is_safe_bind ip ≡ false
unsafe ip form outside = elim (Bool-cases (is_safe_bind ip)) [
  | inl e ↦ absurd (outside ((is_safe_bind_iff ip form).0 e))
  | inr e ↦ e
]

-- A server that is told to listen on an address outside the private blocks of IPv4 and IPv6 fails before
-- it does anything: the database is as it was, and neither the listener nor axum's loop is asked for,
-- whatever they would answer.
pub serve_refused :
    {Client : Type 0} (host : Host Client) (crypto : Crypto) (env : Env) (cfg : Config)
    (addr : SocketAddr) (w : World)
    → host.parse cfg.bind ≡ ok addr
    → IsAddress addr.ip
    → ¬ IsPrivate addr.ip
    → serve host crypto env cfg w
      ≡ (err (msg (refusal host.parse host.show_ip host.show_port addr)), w)
unfolding serve
serve_refused host crypto env cfg addr w p form outside =
    let r =
      validate_bind_err host.parse host.show_ip host.show_port cfg addr p
        (unsafe addr.ip form outside) in
    bind_stops _ _ w w _ (λ i. (r i, w))
