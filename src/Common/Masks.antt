-- ===== src/Common/Masks.antt =====
-- Masks of low bits and fields put side by side: `x & (2^k - 1)` and `low | (high << k)`.
use Prim.Native.Nat.{
  ℕ, zero, suc, ◌+◌, ◌-◌, ◌*◌, ◌/◌, ◌%◌, ◌^◌, ◌≤◌, ◌<◌, bit_and, bit_or, bit_or-bitwise,
}
use mathlib.Core.Path.{◌≡◌, ap, sym, ◌∙◌}
use native.Mathlib.Nat.{pow-suc, pow-succ', div-add-mod', div-div-eq-div-mul}
use native.Mathlib.Omega.{arith}
use uesim.Common.Bits.{bit_or_halves, bit_and_halves, bit_and-zero, mul_pow_half}

pow_pos : (k : ℕ) → 1 ≤ 2 ^ k
pow_pos zero = omega arith
pow_pos (suc k) = omega (arith, pow-suc 2 k, pow_pos k)

half_mask : (k : ℕ) → (2 ^ suc k - 1) / 2 ≡ 2 ^ k - 1
half_mask k = omega (arith, pow-suc 2 k, pow_pos k)

mod_halves : (k a : ℕ) → a % 2 ^ suc k ≡ 2 * (a / 2 % 2 ^ k) + a % 2
mod_halves k a =
    let quotient : a / 2 ^ suc k ≡ a / 2 / 2 ^ k =
      ap (λ d. a / d) (pow-succ' 2 k) ∙ sym (div-div-eq-div-mul a 2 (2 ^ k)) in
    omega (
      arith,
      div-add-mod' a (2 ^ suc k),
      div-add-mod' (a / 2) (2 ^ k),
      ap (λ t. t * 2 ^ suc k) quotient,
      mul_pow_half (a / 2 / 2 ^ k) k,
    )

-- Masking with `k` ones keeps the `k` low bits.
pub bit_and-mask : (k a : ℕ) → bit_and a (2 ^ k - 1) ≡ a % 2 ^ k
bit_and-mask zero a = omega (arith, bit_and-zero a a)
bit_and-mask (suc k) a = omega (
  arith,
  bit_and_halves a (2 ^ suc k - 1),
  ap (bit_and (a / 2)) (half_mask k),
  bit_and-mask k (a / 2),
  mod_halves k a,
  pow-suc 2 k,
  pow_pos k,
)

-- A field of `k` bits with another above it.
pub bit_or_above : (k r q : ℕ) → r < 2 ^ k → bit_or r (q * 2 ^ k) ≡ q * 2 ^ k + r
bit_or_above zero r q h =
    let none_left : r ≡ 0 = omega arith in rw none_left (simp bit_or-bitwise (omega arith))
bit_or_above (suc k) r q h =
    let high : q * 2 ^ suc k / 2 ≡ q * 2 ^ k = omega (arith, mul_pow_half q k) in
    omega (
      arith,
      bit_or_halves r (q * 2 ^ suc k),
      mul_pow_half q k,
      ap (bit_or (r / 2)) high,
      bit_or_above k (r / 2) q (omega (arith, pow-suc 2 k)),
    )
