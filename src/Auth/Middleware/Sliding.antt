-- ===== src/Auth/Middleware/Sliding.antt =====
-- src/auth/middleware.rs: the sliding expiry, over times that a clock can show.
use vps_monitor_webui.Prelude.{
  ℕ, ◌+◌, ◌-◌, ◌/◌, ◌^◌, ◌≤◌, ◌<◌, ◌≡◌, none, some, arith, ltb, if◌then◌else◌,
}
use vps_monitor_webui.Prelude.Int.{pos, half_ℤ, add_i64, sub_i64, sub_ℕ}
use vps_monitor_webui.Result.{unwrap_or}
use vps_monitor_webui.Auth.Middleware.{slide}

-- Times and lifetimes for which no i64 overflows: below 2^62 seconds.
abbrev pub IsTime : ℕ → Type 0
IsTime t = t < 2 ^ 62

add_time : (a b : ℕ) → IsTime a → IsTime b → add_i64 (pos a) (pos b) ≡ pos (a + b)
unfolding add_i64
add_time a b ha hb = ground arith

sub_time : (a b : ℕ) → IsTime a → IsTime b → sub_i64 (pos a) (pos b) ≡ sub_ℕ a b
unfolding sub_i64
sub_time a b ha hb = ground arith

-- The expiry that a use at `now` leaves behind.
abbrev pub next_expiry : ℕ → ℕ → ℕ → ℕ
next_expiry ttl expires_at now = if ltb (expires_at - now) (ttl / 2) then now + ttl else expires_at

pub slide_lem :
    (ttl expires_at now : ℕ)
    → IsTime ttl
    → IsTime expires_at
    → IsTime now
    → now < expires_at
    → slide (pos ttl) (pos expires_at) (pos now)
      ≡ (if ltb (expires_at - now) (ttl / 2) then some (pos (now + ttl)) else none)
unfolding slide half_ℤ
slide_lem ttl expires_at now ht he hn active =
    ground (arith, add_time now ttl hn ht, sub_time expires_at now he hn)

-- For times and lifetimes below 2^62 seconds: after the use of an active session of which at most a
-- lifetime `ttl` is left, its expiry is at least half a
-- lifetime and at most a lifetime ahead, and is never moved back. It is moved, to a whole lifetime
-- from now, exactly where less than half of the lifetime was left.
pub slide_bounds :
    (ttl expires_at now : ℕ)
    → IsTime ttl
    → IsTime expires_at
    → IsTime now
    → now < expires_at
    → expires_at ≤ now + ttl
    → (unwrap_or (slide (pos ttl) (pos expires_at) (pos now)) (pos expires_at)
        ≡ pos (next_expiry ttl expires_at now))
      × (now + ttl / 2 ≤ next_expiry ttl expires_at now)
      × (next_expiry ttl expires_at now ≤ now + ttl)
      × (expires_at ≤ next_expiry ttl expires_at now)
slide_bounds ttl expires_at now ht he hn active within =
    ground (arith, slide_lem ttl expires_at now ht he hn active)
