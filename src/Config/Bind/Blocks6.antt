-- ===== src/Config/Bind/Blocks6.antt =====
-- The IPv6 addresses that the server may listen on, as CIDR blocks, and all addresses together:
-- src/config.rs, `is_safe_bind`.
use Prim.Native.Nat.{bit_and}
use vps_monitor_webui.Prelude.{
  ℕ, ◌+◌, ◌*◌, ◌/◌, ◌^◌, ◌<◌, ◌≡◌, ◌↔◌, ◌⊎◌, true, arith, Bool, ◌||◌, nat_eq, nat_eq_iff, refl, sym,
  ◌∙◌, inl, inr,
}
use vps_monitor_webui.Prelude.Bits.{mask_7, mask_10}
use vps_monitor_webui.Config.Bind.{IpAddr, v4, v6, is_loopback_v6, is_safe_bind}
use vps_monitor_webui.Config.Bind.Blocks.{
  InBlock, InPrivateBlocks, IsOctet, v4_number, is_safe_bind_v4,
}

abbrev pub IsSegment : ℕ → Type 0
IsSegment n = n < 2 ^ 16

-- The lower seven segments as one number, and the whole address.
abbrev lower : (s1 s2 s3 s4 s5 s6 s7 : ℕ) → ℕ
lower s1 s2 s3 s4 s5 s6 s7 =
    (((((s1 * 2 ^ 16 + s2) * 2 ^ 16 + s3) * 2 ^ 16 + s4) * 2 ^ 16 + s5) * 2 ^ 16 + s6) * 2 ^ 16 + s7

abbrev pub v6_number : (s0 s1 s2 s3 s4 s5 s6 s7 : ℕ) → ℕ
v6_number s0 s1 s2 s3 s4 s5 s6 s7 = s0 * 2 ^ 112 + lower s1 s2 s3 s4 s5 s6 s7

-- ::1/128, fc00::/7 and fe80::/10.
abbrev pub InPrivateBlocks6 : ℕ → Type 0
InPrivateBlocks6 n =
    InBlock 1 0 n
    ⊎ InBlock (v6_number 0xfc00 0 0 0 0 0 0 0) 121 n
    ⊎ InBlock (v6_number 0xfe80 0 0 0 0 0 0 0) 118 n

-- The form of an address: four octets or eight segments.
abbrev pub IsAddress : IpAddr → Type 0
IsAddress (v4 a b c d) = IsOctet a × IsOctet b × IsOctet c × IsOctet d
IsAddress (v6 s0 s1 s2 s3 s4 s5 s6 s7) =
    IsSegment s0
    × IsSegment s1
    × IsSegment s2
    × IsSegment s3
    × IsSegment s4
    × IsSegment s5
    × IsSegment s6
    × IsSegment s7

abbrev pub IsPrivate : IpAddr → Type 0
IsPrivate (v4 a b c d) = InPrivateBlocks (v4_number a b c d)
IsPrivate (v6 s0 s1 s2 s3 s4 s5 s6 s7) = InPrivateBlocks6 (v6_number s0 s1 s2 s3 s4 s5 s6 s7)

-- The first segment against the first bits of a block, whatever stands below.
module _ (s r : ℕ) (low : r < 2 ^ 112) where
  unique_local :
      (s / 512 * 512 ≡ 0xfc00) ↔ InBlock (v6_number 0xfc00 0 0 0 0 0 0 0) 121 (s * 2 ^ 112 + r)
  unique_local = (λ h. (omega arith, omega arith), λ h. omega (arith, h.0, h.1))

  link_local :
      (s / 64 * 64 ≡ 0xfe80) ↔ InBlock (v6_number 0xfe80 0 0 0 0 0 0 0) 118 (s * 2 ^ 112 + r)
  link_local = (λ h. (omega arith, omega arith), λ h. omega (arith, h.0, h.1))

module _ (s0 s1 s2 s3 s4 s5 s6 s7 : ℕ) where
  loopback_to :
      is_loopback_v6 s0 s1 s2 s3 s4 s5 s6 s7 ≡ true
      → InBlock 1 0 (v6_number s0 s1 s2 s3 s4 s5 s6 s7)
  loopback_to h = ground arith

  loopback_from :
      InBlock 1 0 (v6_number s0 s1 s2 s3 s4 s5 s6 s7)
      → is_loopback_v6 s0 s1 s2 s3 s4 s5 s6 s7 ≡ true
  loopback_from (h, k) =
      let z0 : s0 ≡ 0 = omega arith in
      let z1 : s1 ≡ 0 = omega arith in
      let z2 : s2 ≡ 0 = omega arith in
      let z3 : s3 ≡ 0 = omega arith in
      let z4 : s4 ≡ 0 = omega arith in
      let z5 : s5 ≡ 0 = omega arith in
      let z6 : s6 ≡ 0 = omega arith in
      let z7 : s7 ≡ 1 = omega arith in rw (z0, z1, z2, z3, z4, z5, z6, z7) refl

or_inv : (a b c : Bool) → (a || b || c) ≡ true → (a ≡ true) ⊎ (b ≡ true) ⊎ (c ≡ true)
or_inv a b c h = ground arith

or_second : (a b c : Bool) → b ≡ true → (a || b || c) ≡ true
or_second a b c h = ground arith

or_third : (a b c : Bool) → c ≡ true → (a || b || c) ≡ true
or_third a b c h = ground arith

module _ (s0 s1 s2 s3 s4 s5 s6 s7 : ℕ) (fits : IsAddress (v6 s0 s1 s2 s3 s4 s5 s6 s7)) where
  lower-lt : lower s1 s2 s3 s4 s5 s6 s7 < 2 ^ 112
  lower-lt = omega (arith, fits)

  safe_v6_sound :
      is_safe_bind (v6 s0 s1 s2 s3 s4 s5 s6 s7) ≡ true
      → InPrivateBlocks6 (v6_number s0 s1 s2 s3 s4 s5 s6 s7)
  unfolding is_safe_bind
  safe_v6_sound h = elim (or_inv _ _ _ h) [
    | inl l ↦ inl (loopback_to s0 s1 s2 s3 s4 s5 s6 s7 l)
    | inr (inl u) ↦ inr (
        inl (
          (unique_local s0 (lower s1 s2 s3 s4 s5 s6 s7) lower-lt).0
            (sym (mask_7 s0 fits.0) ∙ (nat_eq_iff _ _).0 u)))
    | inr (inr k) ↦ inr (
        inr (
          (link_local s0 (lower s1 s2 s3 s4 s5 s6 s7) lower-lt).0
            (sym (mask_10 s0 fits.0) ∙ (nat_eq_iff _ _).0 k)))
  ]

  safe_v6_complete :
      InPrivateBlocks6 (v6_number s0 s1 s2 s3 s4 s5 s6 s7)
      → is_safe_bind (v6 s0 s1 s2 s3 s4 s5 s6 s7) ≡ true
  unfolding is_safe_bind
  safe_v6_complete (inl l) = rw (loopback_from s0 s1 s2 s3 s4 s5 s6 s7 l) refl
  safe_v6_complete (inr (inl u)) = or_second (is_loopback_v6 s0 s1 s2 s3 s4 s5 s6 s7) _ _ (
      (nat_eq_iff _ _).1
        (mask_7 s0 fits.0 ∙ (unique_local s0 (lower s1 s2 s3 s4 s5 s6 s7) lower-lt).1 u))
  safe_v6_complete (inr (inr k)) =
      or_third (is_loopback_v6 s0 s1 s2 s3 s4 s5 s6 s7) (nat_eq (bit_and s0 0xfe00) 0xfc00) _ (
        (nat_eq_iff _ _).1
          (mask_10 s0 fits.0 ∙ (link_local s0 (lower s1 s2 s3 s4 s5 s6 s7) lower-lt).1 k))

-- `is_safe_bind` accepts an address, of four octets or of eight segments of 16 bits, exactly if it lies
-- in one of the blocks 127.0.0.0/8, 10.0.0.0/8, 172.16.0.0/12, 192.168.0.0/16, 169.254.0.0/16 and
-- 100.64.0.0/10 of IPv4, or ::1/128, fc00::/7 and fe80::/10 of IPv6.
pub is_safe_bind_iff : (ip : IpAddr) → IsAddress ip → (is_safe_bind ip ≡ true) ↔ IsPrivate ip
is_safe_bind_iff (v4 a b c d) (ha, hb, hc, hd) = is_safe_bind_v4 a b c d ha hb hc hd
is_safe_bind_iff (v6 s0 s1 s2 s3 s4 s5 s6 s7) ok =
    (safe_v6_sound s0 s1 s2 s3 s4 s5 s6 s7 ok, safe_v6_complete s0 s1 s2 s3 s4 s5 s6 s7 ok)
