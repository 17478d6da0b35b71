-- ===== src/Config/Bind/Blocks.antt =====
-- The addresses that the server may listen on, as CIDR blocks: src/config.rs, `is_safe_bind`.
use vps_monitor_webui.Prelude.{ℕ, ◌+◌, ◌*◌, ◌^◌, ◌<◌, ◌≤◌, ◌≡◌, ◌↔◌, ◌⊎◌, true, arith}
use vps_monitor_webui.Config.Bind.{v4, is_safe_bind}

-- The address as one number, as it is on the wire.
abbrev pub v4_number : ℕ → ℕ → ℕ → ℕ → ℕ
v4_number a b c d = ((a * 256 + b) * 256 + c) * 256 + d

-- A block: the first address, and the number of host bits.
abbrev pub InBlock : ℕ → ℕ → ℕ → Type 0
InBlock first host_bits n = (first ≤ n) × (n < first + 2 ^ host_bits)

-- 127.0.0.0/8, 10.0.0.0/8, 172.16.0.0/12, 192.168.0.0/16, 169.254.0.0/16 and 100.64.0.0/10.
abbrev pub InPrivateBlocks : ℕ → Type 0
InPrivateBlocks n =
    InBlock (v4_number 127 0 0 0) 24 n
    ⊎ InBlock (v4_number 10 0 0 0) 24 n
    ⊎ InBlock (v4_number 172 16 0 0) 20 n
    ⊎ InBlock (v4_number 192 168 0 0) 16 n
    ⊎ InBlock (v4_number 169 254 0 0) 16 n
    ⊎ InBlock (v4_number 100 64 0 0) 22 n

abbrev pub IsOctet : ℕ → Type 0
IsOctet n = n < 256

safe_v4_sound :
    (a b c d : ℕ)
    → IsOctet a
    → IsOctet b
    → IsOctet c
    → IsOctet d
    → is_safe_bind (v4 a b c d) ≡ true
    → InPrivateBlocks (v4_number a b c d)
unfolding is_safe_bind
safe_v4_sound a b c d ha hb hc hd h = ground arith

safe_v4_complete :
    (a b c d : ℕ)
    → IsOctet a
    → IsOctet b
    → IsOctet c
    → IsOctet d
    → InPrivateBlocks (v4_number a b c d)
    → is_safe_bind (v4 a b c d) ≡ true
unfolding is_safe_bind
safe_v4_complete a b c d ha hb hc hd h = ground arith

-- `is_safe_bind` accepts an IPv4 address, of four octets, exactly if it lies in one of the blocks
-- 127.0.0.0/8, 10.0.0.0/8, 172.16.0.0/12, 192.168.0.0/16, 169.254.0.0/16 and 100.64.0.0/10.
pub is_safe_bind_v4 :
    (a b c d : ℕ)
    → IsOctet a
    → IsOctet b
    → IsOctet c
    → IsOctet d
    → (is_safe_bind (v4 a b c d) ≡ true) ↔ InPrivateBlocks (v4_number a b c d)
is_safe_bind_v4 a b c d ha hb hc hd =
    (safe_v4_sound a b c d ha hb hc hd, safe_v4_complete a b c d ha hb hc hd)
