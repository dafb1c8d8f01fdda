-- ===== src/Per.antt =====
-- src/protocol/asn1_per.c: the bit buffer, the primitive encoders and the primitive decoders. The
-- children prove what they do, and model the RRC messages that are built from them.
pub mod Stream
pub mod Decode
pub mod Fields
pub mod Decoder
pub mod Connection
pub mod ConnectionTrip
pub mod Bounds
pub mod Measure
mod Tests
use Prim.Native.Nat.{bit_and, bit_or}
use uesim.Common.{
  ℕ, zero, suc, ◌+◌, ◌-◌, ◌*◌, ◌/◌, ◌%◌, ◌^◌, List, [], ◌∷◌, Bool, true, false, Option, none, some,
  ltb, leb, ◌==◌, if◌then◌else◌, length, get_or, get_elem?, set, replicate, blit, Status,
}

-- `asn1_buffer_t`
pub record Buffer : Type 0 where
  pub bytes : List ℕ
  pub size : ℕ
  pub capacity : ℕ
  pub bit_offset : ℕ
  pub own_data : Bool

-- `asn1_buffer_init` over storage that the caller owns.
unfoldable pub buffer_init : List ℕ → ℕ → Status × Option Buffer
buffer_init storage capacity = if capacity == 0 then (Status.invalid_param, none) else (
  Status.success,
  some
      (record { bytes = storage; size = 0; capacity = capacity; bit_offset = 0; own_data = false }),
)

-- `asn1_buffer_alloc`; the first argument is what `uesim_malloc` returned.
unfoldable pub buffer_alloc : Option (List ℕ) → ℕ → Status × Option Buffer
buffer_alloc none capacity =
    if capacity == 0 then (Status.invalid_param, none) else (Status.memory, none)
buffer_alloc (some storage) capacity = if capacity == 0 then (Status.invalid_param, none) else (
  Status.success,
  some (record { bytes = storage; size = 0; capacity = capacity; bit_offset = 0; own_data = true }),
)

-- `asn1_buffer_length`
unfoldable pub buffer_length : Buffer → ℕ
buffer_length buf = (buf.bit_offset + 7) / 8

-- One round of the loop in `asn1_encode_bits`, past its capacity check.
unfoldable pub put_bit : Buffer → ℕ → Buffer
put_bit buf b =
    let byte_idx = buf.bit_offset / 8 in
    let bit_idx = 7 - buf.bit_offset % 8 in
    record buf {
      bytes =
          if b == 1
          then set buf.bytes byte_idx (bit_or (get_or buf.bytes byte_idx 0) (2 ^ bit_idx))
          else buf.bytes;
      bit_offset = buf.bit_offset + 1;
    }

-- The loop, with the number of bits still to write.
unfoldable pub encode_loop : Buffer → ℕ → ℕ → Status × Buffer
encode_loop buf value zero = (Status.success, record buf { size = (buf.bit_offset + 7) / 8 })
encode_loop buf value (suc i) =
    let rest = encode_loop (put_bit buf (value / 2 ^ i % 2)) value i in
    if leb buf.capacity (buf.bit_offset / 8) then (Status.capacity, buf) else rest

-- `asn1_encode_bits`
unfoldable pub encode_bits : Buffer → ℕ → ℕ → Status × Buffer
encode_bits buf value num_bits =
    if ltb 32 num_bits then (Status.invalid_param, buf) else encode_loop buf value num_bits

-- What a decoder comes to: a value with the offset behind it, an error code, or a read past the end
-- of the data, which the code does not check for.
pub data Read {ℓ} (A : Type ℓ) : Type ℓ where
  done : A → ℕ → Read A
  refused : Status → Read A
  overrun : Read A

-- One round of the loop in `asn1_decode_bits`, once the byte is read: the value after it.
unfoldable pub take_bit : ℕ → ℕ → ℕ → ℕ → ℕ
take_bit byte bit_idx value i =
    if bit_and byte (2 ^ bit_idx) == 0 then value else bit_or value (2 ^ i)

unfoldable pub decode_loop : List ℕ → ℕ → ℕ → ℕ → Read ℕ
decode_loop bytes offset value zero = done value offset
decode_loop bytes offset value (suc i) = elim (get_elem? bytes (offset / 8)) [
  | none ↦ overrun
  | some byte ↦ decode_loop bytes (offset + 1) (take_bit byte (7 - offset % 8) value i) i
]

-- `asn1_decode_bits`
unfoldable pub decode_bits : List ℕ → ℕ → ℕ → Read ℕ
decode_bits bytes offset num_bits =
    if ltb 32 num_bits then refused Status.invalid_param else decode_loop bytes offset 0 num_bits

-- `asn1_encode_boolean`, `asn1_decode_boolean`
unfoldable pub encode_boolean : Buffer → Bool → Status × Buffer
encode_boolean buf value = encode_bits buf (if value then 1 else 0) 1

unfoldable pub decode_boolean : List ℕ → ℕ → Read Bool
decode_boolean bytes offset = elim (decode_bits bytes offset 1) [
  | done v next ↦ done (if v == 0 then false else true) next
  | refused s ↦ refused s
  | overrun ↦ overrun
]

-- `while (tmp) { bits++; tmp >>= 1; }` for a 32-bit `tmp`, with the rounds that it may take.
unfoldable pub bit_width_loop : ℕ → ℕ → ℕ → ℕ
bit_width_loop zero tmp bits = bits
bit_width_loop (suc fuel) tmp bits =
    let rest = bit_width_loop fuel (tmp / 2) (bits + 1) in if tmp == 0 then bits else rest

unfoldable pub bit_width : ℕ → ℕ
bit_width tmp = bit_width_loop 64 tmp 0

-- `asn1_encode_enumerated`, `asn1_decode_enumerated`
unfoldable pub encode_enumerated : Buffer → ℕ → ℕ → Status × Buffer
encode_enumerated buf value num_values =
    if leb num_values 1
    then (Status.success, buf)
    else encode_bits buf value (bit_width (num_values - 1))

unfoldable pub decode_enumerated : List ℕ → ℕ → ℕ → Read ℕ
decode_enumerated bytes offset num_values =
    if leb num_values 1
    then done 0 offset
    else decode_bits bytes offset (bit_width (num_values - 1))

-- `asn1_count_bits`
unfoldable pub count_bits : ℕ → ℕ
count_bits value = let bits = bit_width value in if bits == 0 then 1 else bits

-- `asn1_encode_length`. The status of the first of two writes is dropped.
unfoldable pub encode_length : Buffer → ℕ → Status × Buffer
encode_length buf len =
    if ltb len 128
    then encode_bits buf len 8
    else if ltb len 256
    then encode_bits (encode_bits buf 0x81 8).1 len 8
    else encode_bits (encode_bits buf 0x82 8).1 (len % 2 ^ 32) 16

-- `asn1_encode_octet_string` once the length is written.
unfoldable pub put_octets : Buffer → List ℕ → Status × Buffer
put_octets buf octets =
    if ltb buf.capacity (buf.size + length octets) then (Status.capacity, buf) else (
      Status.success,
      record buf {
        bytes = blit buf.bytes buf.size octets;
        bit_offset = buf.bit_offset + length octets * 8;
        size = buf.size + length octets;
      },
    )

-- `asn1_encode_octet_string`
unfoldable pub encode_octet_string : Buffer → List ℕ → Status × Buffer
encode_octet_string buf octets =
    let (s, buf') = encode_length buf (length octets) in
    elim s [ Status.success ↦ put_octets buf' octets | other ↦ (other, buf') ]

-- The start of every message encoder: `memset` of the data, and both positions at 0.
unfoldable pub clear : Buffer → Buffer
clear buf = record buf { bytes = replicate buf.capacity 0; size = 0; bit_offset = 0 }
