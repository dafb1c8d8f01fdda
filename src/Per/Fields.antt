-- ===== src/Per/Fields.antt =====
-- A row of bit fields written one after another by `asn1_encode_bits`, as every message encoder does
-- (statuses dropped), and read back by `asn1_decode_bits`.
use uesim.Common.{
  ℕ, ◌+◌, ◌-◌, ◌*◌, ◌/◌, ◌%◌, ◌^◌, ◌≤◌, ◌<◌, ◌≡◌, refl, ap, ◌∙◌, subst, arith, List, [], ◌∷◌,
  length, length-take, take, get_or-take, Status,
}
use uesim.Common.Bits.{bit}
use uesim.Per.{Buffer, done, encode_bits, decode_bits, clear}
use uesim.Per.Stream.{
  bit_at, bits_from, bits_from_ext, to_bits, of_bits, IsOpen, Appends, encode_bits-Appends,
  clear-IsOpen,
}
use uesim.Per.Decode.{decode_bits-value, of_bits-to_bits}

-- A value and its width.
abbrev pub Field : Type 0
Field = ℕ × ℕ

-- A call of `asn1_encode_bits` whose status is not looked at.
abbrev pub put : Buffer → ℕ → ℕ → Buffer
put buf value num_bits = (encode_bits buf value num_bits).1

abbrev pub put_all : Buffer → List Field → Buffer
put_all buf [] = buf
put_all buf ((v, n) ∷ fs) = put_all (put buf v n) fs

abbrev pub total : List Field → ℕ
total [] = 0
total ((v, n) ∷ fs) = n + total fs

abbrev pub AreNarrow : List Field → Type 0
AreNarrow [] = Unit {0}
AreNarrow ((v, n) ∷ fs) = (n ≤ 32) × AreNarrow fs

-- The bits at a position spell the fields.
abbrev pub Spells : List ℕ → ℕ → List Field → Type 0
Spells bytes j [] = Unit {0}
Spells bytes j ((v, n) ∷ fs) = (bits_from bytes j n ≡ to_bits v n) × Spells bytes (j + n) fs

-- A decoder that reads fields of these widths finds these values.
abbrev pub Decodes : List ℕ → ℕ → List Field → Type 0
Decodes bytes j [] = Unit {0}
Decodes bytes j ((v, n) ∷ fs) =
    (decode_bits bytes j n ≡ done (v % 2 ^ n) (j + n)) × Decodes bytes (j + n) fs

-- The buffer that is left after the fields are written behind `buf`.
pub record Holds (buf : Buffer) (fs : List Field) (out : Buffer) : Type 0 where
  pub open_after : IsOpen out
  pub same_capacity : out.capacity ≡ buf.capacity
  pub moved : out.bit_offset ≡ buf.bit_offset + total fs
  pub sized : out.size ≡ (out.bit_offset + 7) / 8
  pub kept : (j : ℕ) → j < buf.bit_offset → bit_at out.bytes j ≡ bit_at buf.bytes j
  pub spells : Spells out.bytes buf.bit_offset fs

Holds-cons :
    (buf mid out : Buffer) (v n : ℕ) (s : Status) (fs : List Field)
    → Appends buf v n s mid
    → Holds mid fs out
    → Holds buf ((v, n) ∷ fs) out
Holds-cons buf mid out v n s fs a h = record {
  open_after = h.open_after;
  same_capacity = h.same_capacity ∙ a.same_capacity;
  moved = omega (arith, h.moved, a.moved);
  sized = h.sized;
  kept = λ j lt. h.kept j (omega (arith, a.moved)) ∙ a.kept j lt;
  spells = (
    bits_from_ext out.bytes mid.bytes buf.bit_offset n
          (λ i lo hi. h.kept i (omega (arith, a.moved)))
        ∙ a.written,
    subst (λ p. Spells out.bytes p fs) a.moved h.spells,
  );
}

-- Fields written one after another where there is room for all of them.
pub put_all-Holds :
    (buf : Buffer) (fs : List Field)
    → IsOpen buf
    → buf.size ≡ (buf.bit_offset + 7) / 8
    → AreNarrow fs
    → buf.bit_offset + total fs ≤ 8 * buf.capacity
    → Holds buf fs (put_all buf fs)
put_all-Holds buf [] o sized narrow room = record {
  open_after = o;
  same_capacity = refl;
  moved = omega arith;
  sized = sized;
  kept = λ j h. refl;
  spells = tt;
}
put_all-Holds buf ((v, n) ∷ fs) o sized narrow room =
    let a : Appends buf v n (encode_bits buf v n).0 (put buf v n) =
      encode_bits-Appends buf v n o narrow.0 (omega arith) in
    Holds-cons buf (put buf v n) _ v n _ fs a (
      put_all-Holds (put buf v n) fs a.open_after a.sized narrow.1
        (omega (arith, a.moved, a.same_capacity)))

-- Cutting off what lies behind the fields changes nothing.
Spells-take :
    (bytes : List ℕ) (s j : ℕ) (fs : List Field)
    → j + total fs ≤ 8 * s
    → Spells bytes j fs
    → Spells (take s bytes) j fs
Spells-take bytes s j [] h sp = tt
Spells-take bytes s j ((v, n) ∷ fs) h sp = (
  bits_from_ext (take s bytes) bytes j n
        (λ i lo hi. ap (λ byte. bit byte (7 - i % 8)) (get_or-take bytes s (i / 8) 0 (omega arith)))
      ∙ sp.0,
  Spells-take bytes s (j + n) fs (omega arith) sp.1,
)

pub Spells-Decodes :
    (bytes : List ℕ) (j : ℕ) (fs : List Field)
    → AreNarrow fs
    → j + total fs ≤ 8 * length bytes
    → Spells bytes j fs
    → Decodes bytes j fs
Spells-Decodes bytes j [] narrow h sp = tt
Spells-Decodes bytes j ((v, n) ∷ fs) narrow h sp = (
  decode_bits-value bytes j n narrow.0 (omega arith)
      ∙ ap (λ w. done w (j + n)) (ap of_bits sp.0 ∙ of_bits-to_bits v n),
  Spells-Decodes bytes (j + n) fs narrow.1 (omega arith) sp.1,
)

-- What a sender puts on the wire: the first `size` bytes.
abbrev pub wire : Buffer → List ℕ
wire buf = take buf.size buf.bytes

-- Fields of at most 32 bits each, written one after another from the start of a cleared buffer that has
-- room for them all, are read back from the bytes sent, each cut to its width, and the message is as
-- many bytes as its bits need.
pub put_all-round_trip :
    (buf : Buffer) (fs : List Field)
    → AreNarrow fs
    → total fs ≤ 8 * buf.capacity
    → Decodes (wire (put_all (clear buf) fs)) 0 fs
      × (length (wire (put_all (clear buf) fs)) ≡ (total fs + 7) / 8)
unfolding clear
put_all-round_trip buf fs narrow room =
    let h : Holds (clear buf) fs (put_all (clear buf) fs) =
      put_all-Holds (clear buf) fs (clear-IsOpen buf) refl narrow (omega arith) in
    let out : Buffer = put_all (clear buf) fs in
    let long : length (wire out) ≡ (total fs + 7) / 8 = omega (
      arith,
      length-take out.size out.bytes,
      h.sized,
      h.moved,
      h.open_after.whole,
      h.open_after.inside,
    ) in
    (
      Spells-Decodes (wire out) 0 fs narrow (omega (arith, long))
          (Spells-take out.bytes out.size 0 fs (omega (arith, h.sized, h.moved)) h.spells),
      long,
    )
