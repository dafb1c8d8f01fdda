-- ===== src/Per/Decode.antt =====
-- What `asn1_decode_bits` reads, and that it reads inside the data.
use Prim.Native.Nat.{bit_and}
use native.Mathlib.Nat.{zero-add, zero-mul, one-mul, one-le-pow}
use uesim.Common.{
  ℕ, zero, suc, ◌+◌, ◌-◌, ◌*◌, ◌/◌, ◌%◌, ◌^◌, ◌≤◌, ◌<◌, ◌≡◌, refl, sym, ap, ap₂, ◌∙◌, arith, List,
  false, Bool-cases, inl, inr, ltb, ◌==◌, length, get_or, get_elem?-eq-get_or, get_elem?-past,
  ltb→lt, ltb→le, le→ltb,
}
use uesim.Common.Bits.{bit, bit_cases, bit_and-two_pow, bit_or_below, mod-two_pow_suc, mul_pow_half}
use uesim.Per.{done, overrun, take_bit, decode_loop, decode_bits}
use uesim.Per.Stream.{bit_at, bits_from, to_bits, of_bits, length-to_bits}

length-bits_from : (bytes : List ℕ) (j n : ℕ) → length (bits_from bytes j n) ≡ n
length-bits_from bytes j zero = refl
length-bits_from bytes j (suc n) = ap suc (length-bits_from bytes (j + 1) n)

-- The bits of a value, read back.
pub of_bits-to_bits : (v n : ℕ) → of_bits (to_bits v n) ≡ v % 2 ^ n
of_bits-to_bits v zero = omega arith
of_bits-to_bits v (suc i) =
    ap₂ ◌+◌ (ap (λ k. bit v i * 2 ^ k) (length-to_bits v i)) (of_bits-to_bits v i)
    ∙ sym (mod-two_pow_suc v i)

-- One round shifts the bit read into the value.
take_bit_lem : (byte k q i : ℕ) → take_bit byte k (q * 2 ^ suc i) i ≡ (2 * q + bit byte k) * 2 ^ i
unfolding take_bit
take_bit_lem byte k q i = elim (bit_cases byte k) [
  | inl unset ↦
      let masked : bit_and byte (2 ^ k) ≡ 0 =
        bit_and-two_pow k byte ∙ ap (λ b. b * 2 ^ k) unset ∙ zero-mul (2 ^ k) in
      rw (masked, unset) (omega (arith, mul_pow_half q i))
  | inr one ↦
      let masked : bit_and byte (2 ^ k) ≡ 2 ^ k =
        bit_and-two_pow k byte ∙ ap (λ b. b * 2 ^ k) one ∙ one-mul (2 ^ k) in
      let nonzero : (2 ^ k == 0) ≡ false = ground (arith, one-le-pow k 2) in
      rw (masked, nonzero, one) (bit_or_below q i)
]

decode_loop-value :
    (bytes : List ℕ) (j q n : ℕ)
    → j + n ≤ 8 * length bytes
    → decode_loop bytes j (q * 2 ^ n) n ≡ done (q * 2 ^ n + of_bits (bits_from bytes j n)) (j + n)
unfolding decode_loop
decode_loop-value bytes j q zero h = ap₂ done (omega arith) (omega arith)
decode_loop-value bytes j q (suc i) h =
    rw
      (
        get_elem?-eq-get_or bytes (j / 8) 0 (omega arith),
        decode_loop,
        take_bit_lem (get_or bytes (j / 8) 0) (7 - j % 8) q i,
        decode_loop-value bytes (j + 1) (2 * q + bit_at bytes j) i (omega arith),
        length-bits_from bytes (j + 1) i,
      )
      (ap₂ done (omega (arith, mul_pow_half q i)) (omega arith))

-- Where at least `n` bits are left, and `n` is at most 32, `asn1_decode_bits` gives the number that the
-- next `n` bits spell, most significant first, moves past them and does not read past the data.
pub decode_bits-value :
    (bytes : List ℕ) (j n : ℕ)
    → n ≤ 32
    → j + n ≤ 8 * length bytes
    → decode_bits bytes j n ≡ done (of_bits (bits_from bytes j n)) (j + n)
unfolding decode_bits
decode_bits-value bytes j n narrow h = rw (le→ltb 32 n narrow) (
    ap (λ v. decode_loop bytes j v n) (sym (zero-mul (2 ^ n)))
    ∙ decode_loop-value bytes j 0 n h
    ∙ ap (λ v. done (v + of_bits (bits_from bytes j n)) (j + n)) (zero-mul (2 ^ n))
    ∙ ap (λ v. done v (j + n)) (zero-add (of_bits (bits_from bytes j n))))

-- With fewer bits left it reads past the end.
decode_loop_past :
    (bytes : List ℕ) (j v n : ℕ)
    → 8 * length bytes < j + n
    → j ≤ 8 * length bytes
    → decode_loop bytes j v n ≡ overrun
unfolding decode_loop
decode_loop_past bytes j v zero h inside = absurd (omega arith)
decode_loop_past bytes j v (suc i) h inside = elim (Bool-cases (ltb (j / 8) (length bytes))) [
  | inl here ↦
      rw (get_elem?-eq-get_or bytes (j / 8) 0 (ltb→lt _ _ here), decode_loop)
        (decode_loop_past bytes (j + 1) _ i (omega arith) (omega (arith, ltb→lt _ _ here)))
  | inr past ↦ rw (get_elem?-past bytes (j / 8) (ltb→le _ _ past), decode_loop)
]

pub decode_bits_past :
    (bytes : List ℕ) (j n : ℕ)
    → n ≤ 32
    → j ≤ 8 * length bytes
    → 8 * length bytes < j + n
    → decode_bits bytes j n ≡ overrun
unfolding decode_bits
decode_bits_past bytes j n narrow inside h =
    rw (le→ltb 32 n narrow) (decode_loop_past bytes j 0 n h inside)
