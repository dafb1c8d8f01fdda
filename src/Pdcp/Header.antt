-- ===== src/Pdcp/Header.antt =====
-- The header that src/protocol/pdcp.c writes for a sequence number.
use Prim.Native.Nat.{bit_and, bit_or}
use uesim.Common.{
  ℕ, ◌+◌, ◌*◌, ◌/◌, ◌%◌, ◌^◌, ◌≤◌, ◌<◌, ◌≡◌, ap, ap₂, ◌∙◌, arith, List, [], ◌∷◌, Option, none, some,
  leb, leb→le, if◌then◌else◌, Bool-cases, inl, inr, length, Status,
}
use uesim.Common.Bits.{bit_or_disjoint}
use uesim.Common.Masks.{bit_and-mask}

-- `pdcp_encode_header`: the bytes written, of the number in `pdu->sn`.
unfoldable pub encode_header : ℕ → List ℕ
encode_header sn =
    if leb sn 127
    then bit_and sn 127 ∷ []
    else if leb sn 4095
    then bit_or 128 (bit_and (sn / 2 ^ 8) 15) ∷ bit_and sn 255 ∷ []
    else bit_or 240 (bit_and (sn / 2 ^ 16) 3) ∷ bit_and (sn / 2 ^ 8) 255 ∷ bit_and sn 255 ∷ []

-- `pdcp_decode_header`: what is stored in `pdu->sn`, a `uint16_t`.
unfoldable pub decode_header : List ℕ → Status × Option ℕ
decode_header [] = (Status.invalid_param, none)
decode_header (a ∷ []) = (Status.success, some (bit_and a 127))
decode_header (a ∷ b ∷ []) = (Status.success, some (bit_or (bit_and a 15 * 2 ^ 8) b))
decode_header (a ∷ b ∷ c ∷ []) =
    (Status.success, some (bit_or (bit_or (bit_and a 3 * 2 ^ 16) (b * 2 ^ 8)) c % 2 ^ 16))
decode_header (a ∷ b ∷ c ∷ d ∷ rest) = (Status.invalid_param, none)

two_bytes :
    (sn : ℕ)
    → sn ≤ 4095
    → bit_or (bit_and (bit_or 128 (bit_and (sn / 2 ^ 8) 15)) 15 * 2 ^ 8) (bit_and sn 255) ≡ sn
two_bytes sn low =
    let field : bit_and (sn / 2 ^ 8) 15 ≡ sn / 2 ^ 8 % 2 ^ 4 = bit_and-mask 4 (sn / 2 ^ 8) in
    let joined : bit_or 128 (sn / 2 ^ 8 % 2 ^ 4) ≡ 8 * 2 ^ 4 + sn / 2 ^ 8 % 2 ^ 4 =
      bit_or_disjoint 4 8 (sn / 2 ^ 8 % 2 ^ 4) (omega arith) in
    let back : bit_and (8 * 2 ^ 4 + sn / 2 ^ 8 % 2 ^ 4) 15
        ≡ (8 * 2 ^ 4 + sn / 2 ^ 8 % 2 ^ 4) % 2 ^ 4 =
      bit_and-mask 4 (8 * 2 ^ 4 + sn / 2 ^ 8 % 2 ^ 4) in
    let high : bit_and (bit_or 128 (bit_and (sn / 2 ^ 8) 15)) 15 ≡ sn / 2 ^ 8 =
      ap (λ x. bit_and (bit_or 128 x) 15) field
      ∙ ap (λ x. bit_and x 15) joined
      ∙ back
      ∙ omega arith in
    let last : bit_and sn 255 ≡ sn % 2 ^ 8 = bit_and-mask 8 sn in
    ap₂ (λ x y. bit_or (x * 2 ^ 8) y) high last
    ∙ bit_or_disjoint 8 (sn / 2 ^ 8) (sn % 2 ^ 8) (omega arith)
    ∙ omega arith

three_bytes :
    (sn : ℕ)
    → sn < 2 ^ 16
    → bit_or
          (bit_or
            (bit_and (bit_or 240 (bit_and (sn / 2 ^ 16) 3)) 3 * 2 ^ 16)
            (bit_and (sn / 2 ^ 8) 255 * 2 ^ 8))
          (bit_and sn 255)
        % 2 ^ 16
      ≡ sn
three_bytes sn low =
    let none_above : sn / 2 ^ 16 ≡ 0 = omega arith in
    let top : bit_and (bit_or 240 (bit_and (sn / 2 ^ 16) 3)) 3 ≡ 0 =
      ap (λ x. bit_and (bit_or 240 (bit_and x 3)) 3) none_above in
    let middle : bit_and (sn / 2 ^ 8) 255 ≡ sn / 2 ^ 8 =
      bit_and-mask 8 (sn / 2 ^ 8) ∙ omega arith in
    let last : bit_and sn 255 ≡ sn % 2 ^ 8 = bit_and-mask 8 sn in
    let upper : bit_or (0 * 2 ^ 16) (sn / 2 ^ 8 * 2 ^ 8) ≡ sn / 2 ^ 8 * 2 ^ 8 =
      bit_or_disjoint 16 0 (sn / 2 ^ 8 * 2 ^ 8) (omega arith) ∙ omega arith in
    let whole : bit_or
          (bit_or (bit_and (bit_or 240 (bit_and (sn / 2 ^ 16) 3)) 3 * 2 ^ 16)
            (bit_and (sn / 2 ^ 8) 255 * 2 ^ 8))
          (bit_and sn 255)
        ≡ sn =
      ap₂ bit_or (ap₂ (λ x y. bit_or (x * 2 ^ 16) (y * 2 ^ 8)) top middle ∙ upper) last
      ∙ bit_or_disjoint 8 (sn / 2 ^ 8) (sn % 2 ^ 8) (omega arith)
      ∙ omega arith in
    omega (arith, whole)

-- The header of every number that `pdu->sn` can hold, one to three bytes by its size, is decoded to the
-- same number.
decode_header-encode_header :
    (sn : ℕ)
    → sn < 2 ^ 16
    → (decode_header (encode_header sn) ≡ (Status.success, some sn))
      × (length (encode_header sn) ≤ 3)
unfolding encode_header decode_header
decode_header-encode_header sn low = elim (Bool-cases (leb sn 127)) [
  | inl short ↦
      let small = leb→le sn 127 short in
      let once : bit_and sn 127 ≡ sn % 2 ^ 7 = bit_and-mask 7 sn in
      let twice : bit_and (sn % 2 ^ 7) 127 ≡ sn % 2 ^ 7 % 2 ^ 7 = bit_and-mask 7 (sn % 2 ^ 7) in
      let same : bit_and (bit_and sn 127) 127 ≡ sn =
        ap (λ x. bit_and x 127) once ∙ twice ∙ omega arith in
      rw short (ap (λ x. (Status.success, some x)) same, omega arith)
  | inr long ↦ elim (Bool-cases (leb sn 4095)) [
    | inl medium ↦
        rw (long, medium)
          (ap (λ x. (Status.success, some x)) (two_bytes sn (leb→le sn 4095 medium)), omega arith)
    | inr high ↦
        rw (long, high) (ap (λ x. (Status.success, some x)) (three_bytes sn low), omega arith)
  ]
]
