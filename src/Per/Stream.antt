-- ===== src/Per/Stream.antt =====
-- The bytes of a buffer as a stream of bits, most significant bit first, and what the encoder appends.
use Prim.Native.Nat.{bit_or}
use native.Mathlib.Decide.{ℕ_discrete}
use uesim.Common.{
  ℕ, zero, suc, ◌+◌, ◌-◌, ◌*◌, ◌/◌, ◌%◌, ◌^◌, ◌≤◌, ◌<◌, ◌≡◌, refl, sym, ap, ap₂, ◌∙◌, arith, List,
  [], ◌∷◌, false, Bool-cases, inl, inr, leb, ◌==◌, if◌then◌else◌, length, get_or, set, length-set,
  length-replicate, get_or-set_self, get_or-set_ne, get_or-replicate, Status, lt→leb, le→ltb,
  ==_iff, ==_self,
}
use uesim.Common.Bits.{bit, bit_lt, bit-bit_or, zero-bit}
use uesim.Per.{Buffer, put_bit, encode_loop, encode_bits, clear}

-- The bit at a position, as `asn1_decode_bits` counts them.
abbrev pub bit_at : List ℕ → ℕ → ℕ
bit_at bytes j = bit (get_or bytes (j / 8) 0) (7 - j % 8)

-- `n` bits from a position on.
abbrev pub bits_from : List ℕ → ℕ → ℕ → List ℕ
bits_from bytes j zero = []
bits_from bytes j (suc n) = bit_at bytes j ∷ bits_from bytes (j + 1) n

-- The `n` low bits of a value, and the value of a list of bits.
abbrev pub to_bits : ℕ → ℕ → List ℕ
to_bits v zero = []
to_bits v (suc i) = bit v i ∷ to_bits v i

abbrev pub of_bits : List ℕ → ℕ
of_bits [] = 0
of_bits (b ∷ bs) = b * 2 ^ length bs + of_bits bs

pub length-to_bits : (v n : ℕ) → length (to_bits v n) ≡ n
length-to_bits v zero = refl
length-to_bits v (suc i) = ap suc (length-to_bits v i)

pub bits_from_ext :
    (xs ys : List ℕ) (j n : ℕ)
    → ((i : ℕ) → j ≤ i → i < j + n → bit_at xs i ≡ bit_at ys i)
    → bits_from xs j n ≡ bits_from ys j n
bits_from_ext xs ys j zero h = refl
bits_from_ext xs ys j (suc n) h =
    ap₂ ◌∷◌ (h j (omega arith) (omega arith))
      (bits_from_ext xs ys (j + 1) n (λ i lo hi. h i (omega arith) (omega arith)))

-- A buffer between two writes: its bytes fill its capacity, and no bit behind the offset is set.
pub record IsOpen (buf : Buffer) : Type 0 where
  pub whole : length buf.bytes ≡ buf.capacity
  pub inside : buf.bit_offset ≤ 8 * buf.capacity
  pub unset : (j : ℕ) → buf.bit_offset ≤ j → bit_at buf.bytes j ≡ 0

-- Two positions of one byte have the same place in it only if they are the same.
same_place : (j p : ℕ) → j / 8 ≡ p / 8 → (7 - j % 8 == 7 - p % 8) ≡ (j == p)
same_place j p e = ground arith

bit_at-set :
    (bytes : List ℕ) (p j : ℕ)
    → p / 8 < length bytes
    → bit_at (set bytes (p / 8) (bit_or (get_or bytes (p / 8) 0) (2 ^ (7 - p % 8)))) j
      ≡ (if j == p then 1 else bit_at bytes j)
bit_at-set bytes p j inside = elim (ℕ_discrete (j / 8) (p / 8)) [
  | yes same ↦ rw (
    same,
    get_or-set_self bytes (p / 8) (bit_or (get_or bytes (p / 8) 0) (2 ^ (7 - p % 8))) 0 inside,
    bit-bit_or (get_or bytes (p / 8) 0) (7 - p % 8) (7 - j % 8),
    same_place j p same,
  )
  | no other ↦
      let apart : (j == p) ≡ false = ground (arith, ap (λ (k : ℕ). k / 8)) in
      rw (apart, get_or-set_ne bytes (p / 8) (j / 8) _ 0 (λ e. other (sym e)))
]

-- The bit written is there, and no other bit changes.
pub bit_at-put_bit :
    (buf : Buffer) (b j : ℕ)
    → IsOpen buf
    → buf.bit_offset < 8 * buf.capacity
    → b < 2
    → bit_at (put_bit buf b).bytes j ≡ (if j == buf.bit_offset then b else bit_at buf.bytes j)
unfolding put_bit
bit_at-put_bit buf b j o room small = elim (Bool-cases (b == 1)) [
  | inl one ↦
      rw one
        (rw ((==_iff b 1).0 one) (bit_at-set buf.bytes buf.bit_offset j (omega (arith, o.whole))))
  | inr nothing ↦ rw nothing (ground (arith, o.unset j))
]

length-put_bit : (buf : Buffer) (b : ℕ) → length (put_bit buf b).bytes ≡ length buf.bytes
unfolding put_bit
length-put_bit buf b = ground (
  arith,
  length-set buf.bytes (buf.bit_offset / 8)
      (bit_or (get_or buf.bytes (buf.bit_offset / 8) 0) (2 ^ (7 - buf.bit_offset % 8))),
)

-- What a put leaves in the other fields.
put_bit_frame :
    (buf : Buffer) (b : ℕ)
    → ((put_bit buf b).capacity ≡ buf.capacity) × ((put_bit buf b).bit_offset ≡ buf.bit_offset + 1)
unfolding put_bit
put_bit_frame buf b = (refl, refl)

module _ (buf : Buffer) (b : ℕ) (o : IsOpen buf) (room : buf.bit_offset < 8 * buf.capacity)
    (small : b < 2) where
  put_bit-IsOpen : IsOpen (put_bit buf b)
  put_bit-IsOpen = record {
    whole = omega (arith, length-put_bit buf b, put_bit_frame buf b, o.whole);
    inside = omega (arith, put_bit_frame buf b);
    unset = λ j h.
        let past : (j == buf.bit_offset) ≡ false = ground (arith, put_bit_frame buf b) in
        bit_at-put_bit buf b j o room small
        ∙ rw past (o.unset j (omega (arith, put_bit_frame buf b)));
  }

  put_bit_kept : (j : ℕ) → j < buf.bit_offset → bit_at (put_bit buf b).bytes j ≡ bit_at buf.bytes j
  put_bit_kept j h =
      let before : (j == buf.bit_offset) ≡ false = ground arith in
      bit_at-put_bit buf b j o room small ∙ rw before

  put_bit_written : bit_at (put_bit buf b).bytes buf.bit_offset ≡ b
  put_bit_written = bit_at-put_bit buf b buf.bit_offset o room small ∙ rw ==_self

-- What a successful write of the `n` low bits of `v` comes to.
pub record Appends (buf : Buffer) (v n : ℕ) (s : Status) (out : Buffer) : Type 0 where
  pub succeeds : s ≡ Status.success
  pub open_after : IsOpen out
  pub same_capacity : out.capacity ≡ buf.capacity
  pub moved : out.bit_offset ≡ buf.bit_offset + n
  pub sized : out.size ≡ (out.bit_offset + 7) / 8
  pub kept : (j : ℕ) → j < buf.bit_offset → bit_at out.bytes j ≡ bit_at buf.bytes j
  pub written : bits_from out.bytes buf.bit_offset n ≡ to_bits v n

-- One more bit in front of what the rest of the loop appends.
put_bit-Appends :
    (buf : Buffer) (v i : ℕ) (s : Status) (out : Buffer)
    → IsOpen buf
    → buf.bit_offset < 8 * buf.capacity
    → Appends (put_bit buf (bit v i)) v i s out
    → Appends buf v (suc i) s out
put_bit-Appends buf v i s out o here rest = record {
  succeeds = rest.succeeds;
  open_after = rest.open_after;
  same_capacity = rest.same_capacity ∙ frame.0;
  moved = omega (arith, rest.moved, frame);
  sized = rest.sized;
  kept = λ j h.
      rest.kept j (omega (arith, frame)) ∙ put_bit_kept buf (bit v i) o here (bit_lt v i) j h;
  written =
      ap₂ ◌∷◌
        (rest.kept buf.bit_offset (omega (arith, frame))
          ∙ put_bit_written buf (bit v i) o here (bit_lt v i))
        (ap (λ p. bits_from out.bytes p i) (sym frame.1) ∙ rest.written);
}
  where
    frame :
        ((put_bit buf (bit v i)).capacity ≡ buf.capacity)
        × ((put_bit buf (bit v i)).bit_offset ≡ buf.bit_offset + 1)
    frame = put_bit_frame buf (bit v i)

encode_loop-Appends :
    (buf : Buffer) (v n : ℕ)
    → IsOpen buf
    → buf.bit_offset + n ≤ 8 * buf.capacity
    → Appends buf v n (encode_loop buf v n).0 (encode_loop buf v n).1
unfolding encode_loop
encode_loop-Appends buf v zero o room = record {
  succeeds = refl;
  open_after = record { whole = o.whole; inside = o.inside; unset = o.unset };
  same_capacity = refl;
  moved = omega arith;
  sized = refl;
  kept = λ j h. refl;
  written = refl;
}
encode_loop-Appends buf v (suc i) o room =
    let here : buf.bit_offset < 8 * buf.capacity = omega arith in
    rw (lt→leb buf.capacity (buf.bit_offset / 8) (omega arith)) (
      put_bit-Appends buf v i _ _ o here (
        encode_loop-Appends (put_bit buf (bit v i)) v i
          (put_bit-IsOpen buf (bit v i) o here (bit_lt v i))
          (omega (arith, put_bit_frame buf (bit v i)))))

-- On an open buffer with room for them, `asn1_encode_bits` of at most 32 bits succeeds, appends the `n`
-- low bits of the value, most significant first, touches no earlier bit, counts the bytes in use, and
-- leaves the buffer open.
pub encode_bits-Appends :
    (buf : Buffer) (v n : ℕ)
    → IsOpen buf
    → n ≤ 32
    → buf.bit_offset + n ≤ 8 * buf.capacity
    → Appends buf v n (encode_bits buf v n).0 (encode_bits buf v n).1
unfolding encode_bits
encode_bits-Appends buf v n o narrow room =
    rw (le→ltb 32 n narrow) (encode_loop-Appends buf v n o room)

-- A message starts on an open buffer at offset 0.
pub clear-IsOpen : (buf : Buffer) → IsOpen (clear buf)
unfolding clear
clear-IsOpen buf = record {
  whole = length-replicate buf.capacity 0;
  inside = omega arith;
  unset = λ j h.
      ap (λ q. bit q (7 - j % 8)) (get_or-replicate buf.capacity (j / 8) 0) ∙ zero-bit (7 - j % 8);
}

-- Without room it stops at the last whole bit with UESIM_ERROR_CAPACITY.
encode_loop_full :
    (buf : Buffer) (v n : ℕ)
    → IsOpen buf
    → 8 * buf.capacity < buf.bit_offset + n
    → (encode_loop buf v n).0 ≡ Status.capacity
unfolding encode_loop
encode_loop_full buf v zero o over = absurd (omega (arith, o.inside))
encode_loop_full buf v (suc i) o over = elim (Bool-cases (leb buf.capacity (buf.bit_offset / 8))) [
  | inl full ↦ rw full
  | inr room ↦
      let here : buf.bit_offset < 8 * buf.capacity = ground arith in
      rw room (
        encode_loop_full (put_bit buf (bit v i)) v i
          (put_bit-IsOpen buf (bit v i) o here (bit_lt v i))
          (omega (arith, put_bit_frame buf (bit v i))))
]

pub encode_bits_full :
    (buf : Buffer) (v n : ℕ)
    → IsOpen buf
    → n ≤ 32
    → 8 * buf.capacity < buf.bit_offset + n
    → (encode_bits buf v n).0 ≡ Status.capacity
unfolding encode_bits
encode_bits_full buf v n o narrow over = rw (le→ltb 32 n narrow) (encode_loop_full buf v n o over)
