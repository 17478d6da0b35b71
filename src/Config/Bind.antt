-- ===== src/Config/Bind.antt =====
-- src/config.rs: `is_safe_bind` and `validate_bind`. The tests on addresses are those of std::net.
pub mod Blocks
pub mod Blocks6
use Prim.Native.Nat.{bit_and}
use Prim.Native.String.{◌++◌}
use vps_monitor_webui.Prelude.{
  ℕ, String, Bool, true, false, ◌&&◌, ◌||◌, not, leb, ltb, nat_eq, if◌then◌else◌,
}
use vps_monitor_webui.Result.{Result, ok, err, ◌>>=◌}
use vps_monitor_webui.Error.{Anyhow, msg}
use vps_monitor_webui.Config.{Config}

pub data IpAddr : Type 0 where
  v4 : (a b c d : ℕ) → IpAddr
  v6 : (s0 s1 s2 s3 s4 s5 s6 s7 : ℕ) → IpAddr

-- Ipv4Addr::is_loopback, is_private, is_link_local, is_unspecified, by the octets.
abbrev is_loopback : ℕ → Bool
is_loopback a = nat_eq a 127

abbrev is_private : ℕ → ℕ → Bool
is_private a b =
    nat_eq a 10 || (nat_eq a 172 && (leb 16 b && leb b 31)) || (nat_eq a 192 && nat_eq b 168)

abbrev is_link_local : ℕ → ℕ → Bool
is_link_local a b = nat_eq a 169 && nat_eq b 254

abbrev is_unspecified : ℕ → ℕ → ℕ → ℕ → Bool
is_unspecified a b c d = nat_eq a 0 && nat_eq b 0 && nat_eq c 0 && nat_eq d 0

-- Ipv6Addr::is_loopback
abbrev pub is_loopback_v6 : (s0 s1 s2 s3 s4 s5 s6 s7 : ℕ) → Bool
is_loopback_v6 s0 s1 s2 s3 s4 s5 s6 s7 =
    nat_eq s0 0
    && nat_eq s1 0
    && nat_eq s2 0
    && nat_eq s3 0
    && nat_eq s4 0
    && nat_eq s5 0
    && nat_eq s6 0
    && nat_eq s7 1

unfoldable pub is_safe_bind : IpAddr → Bool
is_safe_bind (v4 a b c d) =
    is_loopback a
    || is_private a b
    || is_link_local a b
    || (not (is_unspecified a b c d) && (nat_eq a 100 && (leb 64 b && ltb b 128)))
is_safe_bind (v6 s0 s1 s2 s3 s4 s5 s6 s7) =
    is_loopback_v6 s0 s1 s2 s3 s4 s5 s6 s7
    || nat_eq (bit_and s0 0xfe00) 0xfc00
    || nat_eq (bit_and s0 0xffc0) 0xfe80

pub record SocketAddr : Type 0 where
  pub ip : IpAddr
  pub port : ℕ

-- `parse` is the FromStr of SocketAddr, and `show_ip` and `show_port` the Display of its parts.
module _ (parse : String → Result String SocketAddr) (show_ip : IpAddr → String)
    (show_port : ℕ → String) where
  parse_bind : String → Result String SocketAddr → Result Anyhow SocketAddr
  parse_bind bind (ok addr) = ok addr
  parse_bind bind (err e) = err (msg ("invalid bind '" ++ bind ++ "': " ++ e))

  pub refusal : SocketAddr → String
  refusal addr =
      "refusing to bind to public address "
      ++ show_ip addr.ip
      ++ ". Only loopback or private addresses are allowed. Use SSH tunnel: ssh -L "
      ++ show_port addr.port
      ++ ":localhost:"
      ++ show_port addr.port
      ++ " <user>@<host>"

  unfoldable pub validate_bind : Config → Result Anyhow (Unit {0})
  unfolding parse_bind refusal
  validate_bind cfg = do
    addr ← parse_bind cfg.bind (parse cfg.bind)
    if not (is_safe_bind addr.ip) then err (msg (refusal addr)) else ok tt
