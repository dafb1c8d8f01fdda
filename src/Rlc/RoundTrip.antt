-- ===== src/Rlc/RoundTrip.antt =====
-- SDUs through two entities of src/protocol/rlc.c, and the shape of what goes between them.
use uesim.Common.{
  ℕ, suc, ◌+◌, ◌-◌, ◌*◌, ◌/◌, ◌%◌, ◌^◌, ◌≤◌, ◌<◌, ◌≡◌, ◌∙◌, refl, ap, subst, sym, arith, List, [],
  ◌∷◌, Bool, true, false, some, ◌==◌, ltb, if◌then◌else◌, ◌⊎◌, inl, inr, length, get_elem?,
  get_elem?-bound, slice, take_all, Status,
}
use uesim.Rlc.{Mode, State, Entity, Pdu, framing}
use uesim.Rlc.Segments.{
  segments, segment_loop-segments, concat_data-segments, length-segments, segments-get_elem?,
}
use uesim.Rlc.Transfer.{
  tm_process_tx_data, segmented_tx_data, tx_by_mode, process_tx_data, concat_data, rx_by_mode,
  process_rx_data,
}

-- An entity that passes data.
unfoldable pub IsOpen : Entity → Type 0
IsOpen e = (e.active ≡ true) × (e.status ≡ State.active)

-- An entity that segments.
unfoldable pub IsSegmenting : Entity → Type 0
IsSegmenting e = (e.mode ≡ Mode.um) ⊎ (e.mode ≡ Mode.am)

Mode-cases : (m : Mode) → (m ≡ Mode.tm) ⊎ (m ≡ Mode.um) ⊎ (m ≡ Mode.am)
Mode-cases Mode.tm = inl refl
Mode-cases Mode.um = inr (inl refl)
Mode-cases Mode.am = inr (inr refl)

nonempty : (n : ℕ) → 1 ≤ n → (n == 0) ≡ false
nonempty n h = ground arith

process_tx_data-open :
    (alloc : ℕ → Bool) (e : Entity) (sdu : List ℕ)
    → IsOpen e
    → 1 ≤ length sdu
    → process_tx_data alloc e sdu ≡ tx_by_mode alloc e sdu
unfolding IsOpen process_tx_data
process_tx_data-open alloc e sdu (on, up) some_bytes =
    simp (process_tx_data, nonempty (length sdu) some_bytes, on, up) refl

-- The number of segments.
abbrev pdus_for : ℕ → ℕ
pdus_for n = (n + 8192 - 1) / 8192

segmented_tx_data-segments :
    (alloc : ℕ → Bool) (e : Entity) (sdu : List ℕ)
    → ((k : ℕ) → alloc k ≡ true)
    → e.pdu_counter < 2 ^ 32
    → segmented_tx_data alloc e sdu ≡ (
      Status.success,
      record e { pdu_counter = (e.pdu_counter + pdus_for (length sdu)) % 2 ^ 32 },
      segments sdu (pdus_for (length sdu)) 0 (pdus_for (length sdu)) e.pdu_counter,
    )
unfolding segmented_tx_data
segmented_tx_data-segments alloc e sdu plenty small =
    let made =
      segment_loop-segments alloc sdu (pdus_for (length sdu)) 0 (pdus_for (length sdu))
        e.pdu_counter plenty small in
    rw made refl

tx_by_mode-segmenting :
    (alloc : ℕ → Bool) (e : Entity) (sdu : List ℕ)
    → IsSegmenting e
    → tx_by_mode alloc e sdu ≡ segmented_tx_data alloc e sdu
unfolding IsSegmenting tx_by_mode
tx_by_mode-segmenting alloc e sdu (inl um) = simp (tx_by_mode, um) refl
tx_by_mode-segmenting alloc e sdu (inr am) = simp (tx_by_mode, am) refl

-- Any list but the empty one, received in a mode that reassembles.
received :
    (e : Entity) (pdus : List Pdu)
    → e.active ≡ true
    → e.status ≡ State.active
    → IsSegmenting e
    → 1 ≤ length pdus
    → process_rx_data true e pdus ≡ (Status.success, some (concat_data pdus))
unfolding IsSegmenting process_rx_data rx_by_mode
received e [] on up segmenting some_pdu = absurd (omega arith)
received e (p ∷ ps) on up (inl um) some_pdu = rw (process_rx_data, on, up, um) refl
received e (p ∷ ps) on up (inr am) some_pdu = rw (process_rx_data, on, up, am) refl

-- The segments of a nonempty SDU, received in a mode that reassembles.
process_rx_data-segments :
    (e : Entity) (sdu : List ℕ) (counter : ℕ)
    → IsOpen e
    → IsSegmenting e
    → 1 ≤ length sdu
    → process_rx_data true e
        (segments sdu (pdus_for (length sdu)) 0 (pdus_for (length sdu)) counter)
      ≡ (Status.success, some sdu)
unfolding IsOpen IsSegmenting process_rx_data rx_by_mode segments
process_rx_data-segments e sdu counter (on, up) segmenting some_bytes =
    let n = pdus_for (length sdu) in
    let count : n ≡ suc (n - 1) = omega arith in
    let size : length sdu - 0 * 8192 ≡ length sdu = omega arith in
    let whole : slice sdu (0 * 8192) (length sdu - 0 * 8192) ≡ sdu =
      ap (λ k. slice sdu 0 k) size ∙ take_all (length sdu) sdu (omega arith) in
    received e (segments sdu n 0 n counter) on up segmenting
      (subst (λ m. 1 ≤ length (segments sdu n 0 m counter)) (sym count) (omega arith))
    ∙ ap (λ bytes. (Status.success, some bytes))
        (subst
            (λ m.
              concat_data (segments sdu n 0 m counter)
              ≡ slice sdu (0 * 8192) (length sdu - 0 * 8192))
            (sym count) (concat_data-segments sdu n 0 (n - 1) counter (omega arith) (omega arith))
          ∙ whole)

-- Two entities that pass data, in the same mode, with memory enough and the sender's counter within 32
-- bits: sending a nonempty SDU of any length succeeds, and receiving the PDUs that it gives yields that
-- SDU. This holds in all three modes.
pub process_rx_data-process_tx_data :
    (alloc : ℕ → Bool) (sender receiver : Entity) (sdu : List ℕ)
    → ((k : ℕ) → alloc k ≡ true)
    → IsOpen sender
    → IsOpen receiver
    → receiver.mode ≡ sender.mode
    → sender.pdu_counter < 2 ^ 32
    → 1 ≤ length sdu
    → ((process_tx_data alloc sender sdu).0 ≡ Status.success)
      × (process_rx_data true receiver (process_tx_data alloc sender sdu).2
          ≡ (Status.success, some sdu))
unfolding tx_by_mode tm_process_tx_data process_rx_data rx_by_mode IsOpen IsSegmenting
process_rx_data-process_tx_data alloc sender receiver sdu plenty sends receives same small long =
    rw (process_tx_data-open alloc sender sdu sends long)
      (elim (Mode-cases sender.mode) [ inl tm ↦ in_tm tm | inr segmenting ↦ in_others segmenting ])
  where
    in_tm :
        sender.mode ≡ Mode.tm
        → ((tx_by_mode alloc sender sdu).0 ≡ Status.success)
          × (process_rx_data true receiver (tx_by_mode alloc sender sdu).2
              ≡ (Status.success, some sdu))
    in_tm tm =
        rw (tx_by_mode, tm, tm_process_tx_data, plenty 0)
          (refl, rw (process_rx_data, receives.0, receives.1, same ∙ tm) refl)

    in_others :
        (sender.mode ≡ Mode.um) ⊎ (sender.mode ≡ Mode.am)
        → ((tx_by_mode alloc sender sdu).0 ≡ Status.success)
          × (process_rx_data true receiver (tx_by_mode alloc sender sdu).2
              ≡ (Status.success, some sdu))
    in_others segmenting =
        rw
          (
            tx_by_mode-segmenting alloc sender sdu segmenting,
            segmented_tx_data-segments alloc sender sdu plenty small,
          )
          (
            refl,
            process_rx_data-segments receiver sdu sender.pdu_counter receives
                (subst (λ m. (m ≡ Mode.um) ⊎ (m ≡ Mode.am)) (sym same) segmenting) long,
          )

-- The two bits of the framing information: whether bytes follow the segment, and whether some precede it.
abbrev pub framing_bits : ℕ → ℕ → ℕ
framing_bits size k = (if ltb (8192 * (k + 1)) size then 1 else 0) + (if ltb 0 k then 2 else 0)

framing-bits :
    (size k : ℕ) → k < (size + 8191) / 8192 → framing ((size + 8191) / 8192) k ≡ framing_bits size k
unfolding framing
framing-bits size k within = ground arith

-- An entity that passes data in one of the two segmenting modes, with memory enough and its counter
-- within 32 bits, cuts a nonempty SDU of `n` bytes into `n / 8192` PDUs,
-- rounded up. Each carries between 1 and 8192 bytes; the sequence numbers run on from the counter, 16
-- bits wide; the framing information is 1 where bytes of the SDU follow the PDU's, plus 2 where bytes
-- precede them, so it tells a lone PDU, the first, the last and those between apart.
pub process_tx_data-framing :
    (alloc : ℕ → Bool) (e : Entity) (sdu : List ℕ) (k : ℕ) {p : Pdu}
    → ((i : ℕ) → alloc i ≡ true)
    → IsOpen e
    → IsSegmenting e
    → e.pdu_counter < 2 ^ 32
    → 1 ≤ length sdu
    → get_elem? (process_tx_data alloc e sdu).2 k ≡ some p
    → (length (process_tx_data alloc e sdu).2 ≡ (length sdu + 8191) / 8192)
      × (p.sn ≡ (e.pdu_counter + k) % 2 ^ 16)
      × (p.fi ≡ framing_bits (length sdu) k)
      × (1 ≤ length p.data_bytes)
      × (length p.data_bytes ≤ 8192)
process_tx_data-framing alloc e sdu k {p = p} plenty sends segmenting small long at =
    let n = pdus_for (length sdu) in
    let count : n ≡ (length sdu + 8191) / 8192 = omega arith in
    let sent : (process_tx_data alloc e sdu).2 ≡ segments sdu n 0 n e.pdu_counter =
      rw
        (
          process_tx_data-open alloc e sdu sends long,
          tx_by_mode-segmenting alloc e sdu segmenting,
          segmented_tx_data-segments alloc e sdu plenty small,
        )
        refl in
    let index : 0 + k ≡ k = omega arith in
    let facts =
      segments-get_elem? sdu n 0 n e.pdu_counter k {p = p} (omega arith) (omega arith) (omega arith)
        (rw sent at at) in
    let size = ap length sent ∙ length-segments sdu n 0 n e.pdu_counter ∙ count in
    let within : k < (length sdu + 8191) / 8192 =
      omega (arith, size, get_elem?-bound (process_tx_data alloc e sdu).2 k {x = p} at) in
    (
      size,
      facts.0,
      facts.1
          ∙ ap (framing n) index
          ∙ ap (λ m. framing m k) count
          ∙ framing-bits (length sdu) k within,
      facts.2,
      facts.3,
    )
