-- ===== src/Common/Bits.antt =====
-- Single bits of a number under `|` and `&`, for C's shift-and-mask code.
use Prim.Native.Nat.{
  ℕ, zero, suc, ◌+◌, ◌*◌, ◌/◌, ◌%◌, ◌^◌, ◌≤◌, ◌<◌, min, max, bit_and, bit_or, digits,
  bit_and-bitwise, bit_or-bitwise,
}
use mathlib.Core.Path.{◌≡◌, refl, sym, ap, ap₂, ◌∙◌}
use mathlib.Core.Logic.{◌⊎◌}
use native.Mathlib.Nat.{pow-suc, pow-succ', div-div-eq-div-mul, div-add-mod', zero-div}
use native.Mathlib.Omega.{arith}
use uesim.Common.Tests.{◌==◌, if◌then◌else◌}

-- Bit `k` of `a`, C's `(a >> k) & 1`.
abbrev pub bit : ℕ → ℕ → ℕ
bit a k = a / 2 ^ k % 2

pub bit_lt : (a k : ℕ) → bit a k < 2
bit_lt a k = omega arith

pub bit_zero : (a : ℕ) → bit a 0 ≡ a % 2
bit_zero a = omega arith

pub bit-suc : (a k : ℕ) → bit a (suc k) ≡ bit (a / 2) k
bit-suc a k =
    ap (λ d. a / d % 2) (pow-succ' 2 k) ∙ ap (λ q. q % 2) (sym (div-div-eq-div-mul a 2 (2 ^ k)))

pub zero-bit : (k : ℕ) → bit 0 k ≡ 0
zero-bit k = ap (λ q. q % 2) (zero-div (2 ^ k))

-- The digit recursion behind `bit_and` and `bit_or` needs no more fuel than its first argument.
module _ (lone : ℕ → ℕ) (both : ℕ → ℕ → ℕ) where
  spare_fuel : (a b n m : ℕ) → a ≤ n → a ≤ m → digits lone both n a b ≡ digits lone both m a b
  spare_fuel zero b zero zero p q = refl
  spare_fuel zero b zero (suc m) p q = refl
  spare_fuel zero b (suc n) zero p q = refl
  spare_fuel zero b (suc n) (suc m) p q = refl
  spare_fuel (suc a) b zero m p q = absurd (omega arith)
  spare_fuel (suc a) b (suc n) zero p q = absurd (omega arith)
  spare_fuel (suc a) b (suc n) (suc m) p q =
      ap (λ d. d * 2 + both (suc a % 2) (b % 2))
        (spare_fuel (suc a / 2) (b / 2) n m (omega arith) (omega arith))

  half_fuel :
      (a b : ℕ)
      → digits lone both (suc a) (suc a) b
        ≡ 2 * digits lone both (suc a / 2) (suc a / 2) (b / 2) + both (suc a % 2) (b % 2)
  half_fuel a b =
      omega (arith, spare_fuel (suc a / 2) (b / 2) a (suc a / 2) (omega arith) (omega arith))

pub bit_or_halves : (a b : ℕ) → bit_or a b ≡ 2 * bit_or (a / 2) (b / 2) + max (a % 2) (b % 2)
bit_or_halves zero b = simp bit_or-bitwise (omega arith)
bit_or_halves (suc a) b = simp bit_or-bitwise (half_fuel (λ y. y) max a b)

pub bit_and_halves : (a b : ℕ) → bit_and a b ≡ 2 * bit_and (a / 2) (b / 2) + min (a % 2) (b % 2)
bit_and_halves zero b = simp bit_and-bitwise (omega arith)
bit_and_halves (suc a) b = simp bit_and-bitwise (half_fuel (λ y. 0) min a b)

pub bit_or-zero : (n a : ℕ) → a ≤ n → bit_or a 0 ≡ a
bit_or-zero n zero h = refl
bit_or-zero zero (suc a) h = absurd (omega arith)
bit_or-zero (suc n) (suc a) h =
    omega (arith, bit_or_halves (suc a) 0, bit_or-zero n (suc a / 2) (omega arith))

pub bit_and-zero : (n a : ℕ) → a ≤ n → bit_and a 0 ≡ 0
bit_and-zero n zero h = refl
bit_and-zero zero (suc a) h = absurd (omega arith)
bit_and-zero (suc n) (suc a) h =
    omega (arith, bit_and_halves (suc a) 0, bit_and-zero n (suc a / 2) (omega arith))

half_pow : (b : ℕ) → 2 ^ suc b / 2 ≡ 2 ^ b
half_pow b = omega (arith, pow-suc 2 b)

bit_or_one-half : (a : ℕ) → bit_or a (2 ^ 0) / 2 ≡ a / 2
bit_or_one-half a = omega (arith, bit_or_halves a 1, bit_or-zero (a / 2) (a / 2))

bit_or_pow-half : (a b : ℕ) → bit_or a (2 ^ suc b) / 2 ≡ bit_or (a / 2) (2 ^ b)
bit_or_pow-half a b =
    omega (arith, bit_or_halves a (2 ^ suc b), ap (bit_or (a / 2)) (half_pow b), pow-suc 2 b)

-- Setting bit `b` sets that bit and no other.
pub bit-bit_or : (a b k : ℕ) → bit (bit_or a (2 ^ b)) k ≡ (if k == b then 1 else bit a k)
bit-bit_or a zero zero = omega (arith, bit_or_halves a 1)
bit-bit_or a zero (suc k) =
    bit-suc (bit_or a (2 ^ 0)) k
    ∙ ap (λ q. bit q k) (bit_or_one-half a)
    ∙ ground (arith, bit-suc a k)
bit-bit_or a (suc b) zero = ground (arith, bit_or_halves a (2 ^ suc b), pow-suc 2 b)
bit-bit_or a (suc b) (suc k) =
    bit-suc (bit_or a (2 ^ suc b)) k
    ∙ ap (λ q. bit q k) (bit_or_pow-half a b)
    ∙ bit-bit_or (a / 2) b k
    ∙ ground (arith, bit-suc a k)

-- Masking with `1 << b` leaves that bit alone in its place.
pub bit_and-two_pow : (b a : ℕ) → bit_and a (2 ^ b) ≡ bit a b * 2 ^ b
bit_and-two_pow zero a = omega (arith, bit_and_halves a 1, bit_and-zero (a / 2) (a / 2))
bit_and-two_pow (suc b) a = omega (
  arith,
  bit_and_halves a (2 ^ suc b),
  ap (bit_and (a / 2)) (half_pow b),
  pow-suc 2 b,
  bit_and-two_pow b (a / 2),
  ap (λ q. q * 2 ^ suc b) (bit-suc a b),
  ap (λ q. bit (a / 2) b * q) (pow-suc 2 b),
)

pub mul_pow_half : (q b : ℕ) → q * 2 ^ suc b ≡ 2 * (q * 2 ^ b)
mul_pow_half q b = omega (arith, ap (λ p. q * p) (pow-suc 2 b))

-- Setting the bit under the lowest one that can be set adds it.
pub bit_or_below : (q i : ℕ) → bit_or (q * 2 ^ suc i) (2 ^ i) ≡ (2 * q + 1) * 2 ^ i
bit_or_below q zero = omega (arith, bit_or_halves (q * 2) 1, bit_or-zero (q * 2 / 2) (q * 2 / 2))
bit_or_below q (suc i) =
    let low : q * 2 ^ suc (suc i) / 2 ≡ q * 2 ^ suc i = omega (arith, mul_pow_half q (suc i)) in
    omega (
      arith,
      bit_or_halves (q * 2 ^ suc (suc i)) (2 ^ suc i),
      mul_pow_half q (suc i),
      pow-suc 2 i,
      ap₂ bit_or low (half_pow i),
      bit_or_below q i,
      mul_pow_half (2 * q + 1) i,
    )

-- The low bits of a number, from its highest of them and the rest.
pub mod-two_pow_suc : (v n : ℕ) → v % 2 ^ suc n ≡ bit v n * 2 ^ n + v % 2 ^ n
mod-two_pow_suc v n =
    let quotient : v / 2 ^ suc n ≡ v / 2 ^ n / 2 =
      ap (λ d. v / d) (pow-suc 2 n) ∙ sym (div-div-eq-div-mul v (2 ^ n) 2) in
    let halves : v / 2 ^ n ≡ 2 * (v / 2 ^ n / 2) + v / 2 ^ n % 2 = omega arith in
    omega (
      arith,
      div-add-mod' v (2 ^ n),
      div-add-mod' v (2 ^ suc n),
      ap (λ t. t * 2 ^ suc n) quotient,
      mul_pow_half (v / 2 ^ n / 2) n,
      ap (λ t. t * 2 ^ n) halves,
    )

pub bit_cases : (a k : ℕ) → (bit a k ≡ 0) ⊎ (bit a k ≡ 1)
bit_cases a k = omega arith

-- `|` of a number with `k` zero bits at the end and one of `k` bits is their sum.
pub bit_or_disjoint : (k q r : ℕ) → r < 2 ^ k → bit_or (q * 2 ^ k) r ≡ q * 2 ^ k + r
bit_or_disjoint zero q r h =
    let none_left : r ≡ 0 = omega arith in rw none_left (omega (arith, bit_or-zero (q * 1) (q * 1)))
bit_or_disjoint (suc k) q r h =
    let high : q * 2 ^ suc k / 2 ≡ q * 2 ^ k = omega (arith, mul_pow_half q k) in
    omega (
      arith,
      bit_or_halves (q * 2 ^ suc k) r,
      mul_pow_half q k,
      ap (λ a. bit_or a (r / 2)) high,
      bit_or_disjoint k q (r / 2) (omega (arith, pow-suc 2 k)),
    )
