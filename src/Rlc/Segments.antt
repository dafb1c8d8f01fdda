-- ===== src/Rlc/Segments.antt =====
-- What the segment loop of src/protocol/rlc.c makes of an SDU.
use uesim.Common.{
  ℕ, zero, suc, ◌+◌, ◌-◌, ◌*◌, ◌%◌, ◌^◌, ◌≤◌, ◌<◌, ◌≡◌, ◌∙◌, refl, ap, subst, sym, arith, List, [],
  ◌∷◌, append-nil, Bool, true, false, some, ◌==◌, ==_ne, if◌then◌else◌, Bool-cases, inl, inr,
  length, get_elem?, slice, slice-add, length-slice, Status,
}
use uesim.Rlc.{Pdu, framing, data_pdu, segment_loop}
use uesim.Rlc.Transfer.{concat_data}

abbrev segment_size : Bool → ℕ → ℕ
segment_size last remaining = if last then remaining else 8192

-- The PDUs that `rounds` rounds make from segment `i` on, when memory suffices.
unfoldable pub segments : List ℕ → ℕ → ℕ → ℕ → ℕ → List Pdu
segments sdu num_pdus i zero counter = []
segments sdu num_pdus i (suc rounds) counter =
    record (data_pdu
      (slice sdu (i * 8192) (segment_size (i == num_pdus - 1) (length sdu - i * 8192)))) {
        sn = counter % 2 ^ 16;
        fi = framing num_pdus i;
      }
    ∷ segments sdu num_pdus (i + 1) rounds ((counter + 1) % 2 ^ 32)

pub segment_loop-segments :
    (alloc : ℕ → Bool) (sdu : List ℕ) (num_pdus i rounds counter : ℕ)
    → ((k : ℕ) → alloc k ≡ true)
    → counter < 2 ^ 32
    → segment_loop alloc sdu num_pdus i rounds counter
      ≡ (Status.success, (counter + rounds) % 2 ^ 32, segments sdu num_pdus i rounds counter)
unfolding segment_loop segments
segment_loop-segments alloc sdu num_pdus i zero counter plenty small =
    let e : (counter + 0) % 2 ^ 32 ≡ counter = omega arith in rw e refl
segment_loop-segments alloc sdu num_pdus i (suc rounds) counter plenty small =
    let e : ((counter + 1) % 2 ^ 32 + rounds) % 2 ^ 32 ≡ (counter + suc rounds) % 2 ^ 32 =
      omega arith in
    let rest =
      segment_loop-segments alloc sdu num_pdus (i + 1) rounds ((counter + 1) % 2 ^ 32) plenty
        (omega arith) in
    rw (plenty i, rest, e) refl

-- The bytes of the last `rounds` segments are the rest of the SDU.
pub concat_data-segments :
    (sdu : List ℕ) (num_pdus i rounds counter : ℕ)
    → i + suc rounds ≡ num_pdus
    → (num_pdus - 1) * 8192 < length sdu
    → concat_data (segments sdu num_pdus i (suc rounds) counter)
      ≡ slice sdu (i * 8192) (length sdu - i * 8192)
unfolding concat_data segments
concat_data-segments sdu num_pdus i zero counter at low =
    let last : (i == num_pdus - 1) ≡ true = ground arith in
    rw last (append-nil (slice sdu (i * 8192) (length sdu - i * 8192)))
concat_data-segments sdu num_pdus i (suc rounds) counter at low =
    let early : (i == num_pdus - 1) ≡ false = ground arith in
    let next : (i + 1) * 8192 ≡ i * 8192 + 8192 = omega arith in
    let rest =
      concat_data-segments sdu num_pdus (i + 1) rounds ((counter + 1) % 2 ^ 32) (omega arith) low in
    let all : length sdu - i * 8192 ≡ 8192 + (length sdu - (i + 1) * 8192) = omega arith in
    rw (early, rest, all, slice-add sdu (i * 8192) 8192 (length sdu - (i + 1) * 8192), next) refl

pub length-segments :
    (sdu : List ℕ) (num_pdus i rounds counter : ℕ)
    → length (segments sdu num_pdus i rounds counter) ≡ rounds
unfolding segments
length-segments sdu num_pdus i zero counter = refl
length-segments sdu num_pdus i (suc rounds) counter =
    ap suc (length-segments sdu num_pdus (i + 1) rounds ((counter + 1) % 2 ^ 32))

segment_size_bounds :
    (num_pdus i n : ℕ)
    → i < num_pdus
    → (num_pdus - 1) * 8192 < n
    → n ≤ num_pdus * 8192
    → (i * 8192 + segment_size (i == num_pdus - 1) (n - i * 8192) ≤ n)
      × (1 ≤ segment_size (i == num_pdus - 1) (n - i * 8192))
      × (segment_size (i == num_pdus - 1) (n - i * 8192) ≤ 8192)
segment_size_bounds num_pdus i n inside low high = elim (Bool-cases (i == num_pdus - 1)) [
  | inl last ↦
      let at : i ≡ num_pdus - 1 = ground (arith, last) in
      rw last (omega arith, omega arith, omega arith)
  | inr early ↦
      let at : ¬ (i ≡ num_pdus - 1) = ==_ne i (num_pdus - 1) early in
      let before : i < num_pdus - 1 = omega (arith, at) in
      rw early (omega arith, omega arith, omega arith)
]

-- What segment `k` from the `i`-th on carries.
pub segments-get_elem? :
    (sdu : List ℕ) (num_pdus i rounds counter k : ℕ) {p : Pdu}
    → i + rounds ≡ num_pdus
    → (num_pdus - 1) * 8192 < length sdu
    → length sdu ≤ num_pdus * 8192
    → get_elem? (segments sdu num_pdus i rounds counter) k ≡ some p
    → (p.sn ≡ (counter + k) % 2 ^ 16)
      × (p.fi ≡ framing num_pdus (i + k))
      × (1 ≤ length p.data_bytes)
      × (length p.data_bytes ≤ 8192)
unfolding segments
segments-get_elem? sdu num_pdus i zero counter k at low high e = absurd cc
segments-get_elem? sdu num_pdus i (suc rounds) counter zero {p = p} at low high e =
    let q =
      record (data_pdu
        (slice sdu (i * 8192) (segment_size (i == num_pdus - 1) (length sdu - i * 8192)))) {
          sn = counter % 2 ^ 16;
          fi = framing num_pdus i;
        } in
    let same : q ≡ p = cc in
    let (fits, low', high') = segment_size_bounds num_pdus i (length sdu) (omega arith) low high in
    let len =
      length-slice sdu (i * 8192) (segment_size (i == num_pdus - 1) (length sdu - i * 8192)) fits in
    let zero_right : i + 0 ≡ i = omega arith in
    subst
      (λ x.
        (x.sn ≡ (counter + 0) % 2 ^ 16)
        × (x.fi ≡ framing num_pdus (i + 0))
        × (1 ≤ length x.data_bytes)
        × (length x.data_bytes ≤ 8192))
      same
      (omega arith, ap (framing num_pdus) (sym zero_right), omega (arith, len), omega (arith, len))
segments-get_elem? sdu num_pdus i (suc rounds) counter (suc k) {p = p} at low high e =
    let rest =
      segments-get_elem? sdu num_pdus (i + 1) rounds ((counter + 1) % 2 ^ 32) k {p = p}
        (omega arith) low high e in
    let next : i + 1 + k ≡ i + suc k = omega arith in
    (omega (arith, rest.0), rest.1 ∙ ap (framing num_pdus) next, rest.2, rest.3)
