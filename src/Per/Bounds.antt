-- ===== src/Per/Bounds.antt =====
-- Which length checks of the message decoders keep them inside the data.
use uesim.Common.{
  ℕ, ◌+◌, ◌*◌, ◌≤◌, ◌<◌, ◌≡◌, refl, arith, List, length, Status, ltb, ltb→lt, ltb→le, le→ltb,
  Bool-cases, ◌⊎◌, inl, inr,
}
use uesim.Per.{
  Read, done, refused, overrun, decode_enumerated, bit_width, bit_width_loop, decode_boolean,
}
use uesim.Per.Stream.{bit_at}
use uesim.Per.Decode.{decode_bits-value, decode_bits_past}
use uesim.Per.Decoder.{◌>>=◌}
use uesim.Per.Connection.{
  UeIdentity, take_identity, decode_setup_request, decode_reest_request, decode_connection_release,
  take_earfcn,
}

-- The decoder comes to a value, at an offset inside the data.
abbrev pub Succeeds {ℓ} : {A : Type ℓ} → List ℕ → Read A → Type ℓ
Succeeds {A} bytes r = (a : A) × (k : ℕ) × (r ≡ done a k) × (k ≤ 8 * length bytes)

-- An identity is 40 bits.
take_identity-Succeeds :
    (bytes : List ℕ) (j : ℕ)
    → j + 40 ≤ 8 * length bytes
    → (id : UeIdentity) × (take_identity bytes j ≡ done id (j + 1 + 31 + 8))
unfolding take_identity
take_identity-Succeeds bytes j h =
    rw
      (
        decode_bits-value bytes j 1 (omega arith) (omega arith),
        decode_bits-value bytes (j + 1) 31 (omega arith) (omega arith),
        decode_bits-value bytes (j + 1 + 31) 8 (omega arith) (omega arith),
        take_identity,
        ◌>>=◌,
      )
      (_, refl)

setup_request_long :
    (bytes : List ℕ) → 6 ≤ length bytes → Succeeds bytes (decode_setup_request bytes)
unfolding decode_setup_request decode_enumerated bit_width bit_width_loop
setup_request_long bytes h =
    let (id, e) = take_identity-Succeeds bytes 3 (omega arith) in
    rw
      (
        le→ltb (length bytes) 6 h,
        decode_bits-value bytes 0 2 (omega arith) (omega arith),
        decode_bits-value bytes 2 1 (omega arith) (omega arith),
        e,
        decode_setup_request,
        ◌>>=◌,
      )
      (_, _, refl, omega arith)

reest_request_long :
    (bytes : List ℕ) → 12 ≤ length bytes → Succeeds bytes (decode_reest_request bytes)
unfolding decode_reest_request decode_enumerated bit_width bit_width_loop
reest_request_long bytes h =
    let (id, e) = take_identity-Succeeds bytes 50 (omega arith) in
    rw
      (
        le→ltb (length bytes) 12 h,
        decode_bits-value bytes 0 2 (omega arith) (omega arith),
        decode_bits-value bytes 2 16 (omega arith) (omega arith),
        decode_bits-value bytes 18 16 (omega arith) (omega arith),
        decode_bits-value bytes 34 8 (omega arith) (omega arith),
        decode_bits-value bytes 42 8 (omega arith) (omega arith),
        e,
        decode_reest_request,
        ◌>>=◌,
      )
      (_, _, refl, omega arith)

-- A setup request shorter than 6 bytes is refused as an invalid parameter; any other byte string is
-- decoded, without a read past its end.
setup_request_bounds :
    (bytes : List ℕ)
    → ((length bytes < 6) × (decode_setup_request bytes ≡ refused Status.invalid_param))
      ⊎ Succeeds bytes (decode_setup_request bytes)
unfolding decode_setup_request
setup_request_bounds bytes = elim (Bool-cases (ltb (length bytes) 6)) [
  | inl short ↦ inl (ltb→lt _ _ short, rw short)
  | inr long ↦ inr (setup_request_long bytes (ltb→le _ _ long))
]

-- A reestablishment request shorter than 12 bytes is refused as an invalid parameter; any other byte
-- string is decoded, without a read past its end.
reest_request_bounds :
    (bytes : List ℕ)
    → ((length bytes < 12) × (decode_reest_request bytes ≡ refused Status.invalid_param))
      ⊎ Succeeds bytes (decode_reest_request bytes)
unfolding decode_reest_request
reest_request_bounds bytes = elim (Bool-cases (ltb (length bytes) 12)) [
  | inl short ↦ inl (ltb→lt _ _ short, rw short)
  | inr long ↦ inr (reest_request_long bytes (ltb→le _ _ long))
]

-- Each connection release of 2 bytes that announces a redirection is read past its end.
pub connection_release_overrun :
    (bytes : List ℕ)
    → length bytes ≡ 2
    → bit_at bytes 3 ≡ 1
    → decode_connection_release bytes ≡ overrun
unfolding decode_connection_release decode_boolean take_earfcn
connection_release_overrun bytes two redirect = rw (
  two,
  decode_bits-value bytes 0 3 (omega arith) (omega arith),
  decode_bits-value bytes 3 1 (omega arith) (omega arith),
  redirect,
  decode_connection_release,
  ◌>>=◌,
  decode_boolean,
  take_earfcn,
  decode_bits_past bytes 4 16 (omega arith) (omega arith) (omega arith),
)
