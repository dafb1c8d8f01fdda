-- ===== src/Per/Decoder.antt =====
-- The message decoders of src/protocol/asn1_per.c in sequence form: each step reads at the offset that
-- the one before it left. A failed read ends the chain; no step of a message decoder asks for more
-- than 32 bits, so the one failure that the C code would pass over does not arise.
use uesim.Common.{ℕ, List, Bool, Status, ltb, length, if◌then◌else◌}
use uesim.Per.{Read, done, refused, overrun, decode_bits, decode_boolean, decode_enumerated}

abbrev pub Decoder {ℓ} : Type ℓ → Type ℓ
Decoder A = List ℕ → ℕ → Read A

infixl 5 ◌>>=◌ ◌>>◌
abbrev pub ◌>>=◌ {ℓ κ} : {A : Type ℓ} {B : Type κ} → Decoder A → (A → Decoder B) → Decoder B
◌>>=◌ m f bytes j = elim (m bytes j) [
  | done a k ↦ f a bytes k
  | refused s ↦ refused s
  | overrun ↦ overrun
]

abbrev pub ◌>>◌ {ℓ κ} : {A : Type ℓ} {B : Type κ} → Decoder A → Decoder B → Decoder B
m >> k = m >>= λ _. k

abbrev pub result {ℓ} : {A : Type ℓ} → A → Decoder A
result a bytes j = done a j

-- Calls of `asn1_decode_bits`, `asn1_decode_boolean` and `asn1_decode_enumerated`.
abbrev pub take_bits : ℕ → Decoder ℕ
take_bits n bytes j = decode_bits bytes j n

abbrev pub take_boolean : Decoder Bool
take_boolean bytes j = decode_boolean bytes j

abbrev pub take_enumerated : ℕ → Decoder ℕ
take_enumerated num_values bytes j = decode_enumerated bytes j num_values

-- `if (len < least) return UESIM_ERROR_INVALID_PARAM`, then the decoder from offset 0.
abbrev pub decode_message {ℓ} : {A : Type ℓ} → ℕ → Decoder A → List ℕ → Read A
decode_message least m bytes =
    if ltb (length bytes) least then refused Status.invalid_param else m bytes 0
