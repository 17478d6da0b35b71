-- ===== src/Prelude/Bits.antt =====
-- Masks of 16-bit words as arithmetic. The native `bit_and` stands for a loop over binary digits with
-- as much fuel as its first argument; each lemma follows that loop under a mask of ones.
use Prim.Native.Nat.{
  ℕ, zero, suc, ◌+◌, ◌*◌, ◌/◌, ◌≤◌, ◌<◌, ◌^◌, min, bit_and, digits, bit_and-bitwise,
}
use mathlib.Core.Path.{◌≡◌, refl, ap, ◌∙◌}
use native.Mathlib.Omega.{arith}

-- k binary ones.
ones : ℕ → ℕ
ones zero = 0
ones (suc k) = ones k * 2 + 1

-- j zeros after the digits of m, and a without its last j digits.
above : ℕ → ℕ → ℕ
above zero m = m
above (suc j) m = above j m * 2

drop_digits : ℕ → ℕ → ℕ
drop_digits zero a = a
drop_digits (suc j) a = drop_digits j (a / 2)

odd_half : (m : ℕ) → (m * 2 + 1) / 2 ≡ m
odd_half m = omega arith

even_half : (m : ℕ) → m * 2 / 2 ≡ m
even_half m = omega arith

abbrev masked : ℕ → ℕ → ℕ → ℕ
masked fuel a m = digits (λ b. 0) min fuel a m

-- A number of at most k digits is what k ones let through.
masked-ones : (fuel k a : ℕ) → a ≤ fuel → a ≤ ones k → masked fuel a (ones k) ≡ a
unfolding ones
masked-ones zero k zero enough fits = refl
masked-ones (suc fuel) k zero enough fits = refl
masked-ones zero k (suc a) enough fits = absurd (omega arith)
masked-ones (suc fuel) zero (suc a) enough fits = absurd (omega arith)
masked-ones (suc fuel) (suc k) (suc a) enough fits =
    let rest = ap (masked fuel (suc a / 2)) (odd_half (ones k)) in
    let kept = masked-ones fuel k (suc a / 2) (omega arith) (omega arith) in
    omega (arith, rest, kept)

above-zero : (j : ℕ) → above j (drop_digits j 0) ≡ 0
unfolding above drop_digits
above-zero zero = refl
above-zero (suc j) = omega (arith, above-zero j)

-- The last j digits go.
masked-above :
    (j fuel k a : ℕ)
    → a ≤ fuel
    → drop_digits j a ≤ ones k
    → masked fuel a (above j (ones k)) ≡ above j (drop_digits j a)
unfolding above drop_digits
masked-above zero fuel k a enough fits = masked-ones fuel k a enough fits
masked-above (suc j) zero k zero enough fits = omega (arith, above-zero j)
masked-above (suc j) (suc fuel) k zero enough fits = omega (arith, above-zero j)
masked-above (suc j) zero k (suc a) enough fits = absurd (omega arith)
masked-above (suc j) (suc fuel) k (suc a) enough fits =
    let rest = ap (masked fuel (suc a / 2)) (even_half (above j (ones k))) in
    let kept = masked-above j fuel k (suc a / 2) (omega arith) fits in omega (arith, rest, kept)

bit_and-above :
    (j k a : ℕ)
    → drop_digits j a ≤ ones k
    → bit_and a (above j (ones k)) ≡ above j (drop_digits j a)
bit_and-above j k a fits =
    bit_and-bitwise a (above j (ones k)) ∙ masked-above j a k a (omega arith) fits

-- The two masks of the blocks of IPv6.
pub mask_7 : (a : ℕ) → a < 2 ^ 16 → bit_and a 0xfe00 ≡ a / 512 * 512
unfolding ones above drop_digits
mask_7 a h = omega (arith, bit_and-above 9 7 a (omega arith))

pub mask_10 : (a : ℕ) → a < 2 ^ 16 → bit_and a 0xffc0 ≡ a / 64 * 64
unfolding ones above drop_digits
mask_10 a h = omega (arith, bit_and-above 6 10 a (omega arith))
