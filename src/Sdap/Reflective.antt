-- ===== src/Sdap/Reflective.antt =====
-- What a repeated reflective indication does to the mapping table of src/protocol/sdap.c.
use uesim.Common.{
  ℕ, zero, suc, ◌+◌, ◌%◌, ◌≤◌, ◌<◌, min, ◌≡◌, refl, ap, ◌∙◌, arith, List, ◌∷◌, Bool, true, false,
  ltb, le→ltb, Option-cases, inl, inr, length, length-update_first, Status, find_first, count,
  count-found, count-absent,
}
use uesim.Sdap.{Entity}
use uesim.Sdap.Table.{is_free, fill, map_qos_flow}
use uesim.Sdap.Data.{header, process_dl_pdu}
use uesim.Sdap.Slots.{is_used, count_free, map-count_used}
use uesim.Sdap.Framing.{all_granted, parse_header, create_buffer_ok}

-- The same reflective data PDU received so many times.
unfoldable pub receive_times : ℕ → Entity → List ℕ → ℕ → ℕ → Entity
receive_times zero e sdu qfi drb_id = e
receive_times (suc n) e sdu qfi drb_id =
    receive_times n (process_dl_pdu e (header qfi true ∷ sdu) drb_id all_granted).1 sdu qfi drb_id

-- The slots in use and the table's size, after a mapping was asked for.
map-fills :
    (e : Entity) (q d : ℕ) (r : Bool)
    → q < 64
    → length e.qos_flow_map ≡ 64
    → (count is_used (map_qos_flow e q d r true).1.qos_flow_map
        ≡ min 64 (count is_used e.qos_flow_map + 1))
      × (length (map_qos_flow e q d r true).1.qos_flow_map ≡ 64)
unfolding map_qos_flow
map-fills e q d r low whole =
    let within : ltb 63 q ≡ false = le→ltb 63 q (omega arith) in
    elim (Option-cases (find_first is_free e.qos_flow_map)) [
      | inl full ↦
          simp (map_qos_flow, within, full)
            (
              omega (
                arith,
                count-absent is_free e.qos_flow_map full,
                count_free e.qos_flow_map,
                whole,
              ),
              whole,
            )
      | inr (slot, room) ↦
          simp (map_qos_flow, within, room)
            (
              omega (
                arith,
                map-count_used e.qos_flow_map q d r room,
                count-found is_free e.qos_flow_map room,
                count_free e.qos_flow_map,
                whole,
              ),
              length-update_first is_free (fill q d r) e.qos_flow_map ∙ whole,
            )
    ]

-- A received reflective PDU asks for a mapping, whatever the table says of its flow.
receive-map :
    (e : Entity) (sdu : List ℕ) (q d : ℕ)
    → q < 64
    → (process_dl_pdu e (header q true ∷ sdu) d all_granted).1.qos_flow_map
      ≡ (map_qos_flow e q d true true).1.qos_flow_map
unfolding process_dl_pdu
receive-map e sdu q d low =
    let same : q % 64 ≡ q = omega arith in
    simp (parse_header sdu q true, create_buffer_ok (length sdu), same) refl

receive_times-fills :
    (n : ℕ) (e : Entity) (sdu : List ℕ) (q d : ℕ)
    → q < 64
    → length e.qos_flow_map ≡ 64
    → (count is_used (receive_times n e sdu q d).qos_flow_map
        ≡ min 64 (count is_used e.qos_flow_map + n))
      × (length (receive_times n e sdu q d).qos_flow_map ≡ 64)
unfolding receive_times
receive_times-fills zero e sdu q d low whole =
    (omega (arith, count_free e.qos_flow_map, whole), whole)
receive_times-fills (suc n) e sdu q d low whole =
    let next : Entity = (process_dl_pdu e (header q true ∷ sdu) d all_granted).1 in
    let (filled, kept) = map-fills e q d true low whole in
    let (all_filled, all_kept) =
      receive_times-fills n next sdu q d low (rw (receive-map e sdu q d low) kept) in
    (omega (arith, all_filled, ap (count is_used) (receive-map e sdu q d low), filled), all_kept)

map-refused :
    (e : Entity) (q d : ℕ) (r : Bool)
    → q < 64
    → length e.qos_flow_map ≡ 64
    → count is_used e.qos_flow_map ≡ 64
    → map_qos_flow e q d r true ≡ (Status.capacity, e)
unfolding map_qos_flow
map-refused e q d r low whole all =
    let within : ltb 63 q ≡ false = le→ltb 63 q (omega arith) in
    elim (Option-cases (find_first is_free e.qos_flow_map)) [
      | inl full ↦ simp (map_qos_flow, within, full) refl
      | inr (slot, room) ↦
          absurd (omega (arith, count-found is_free e.qos_flow_map room, count_free e.qos_flow_map))
    ]

-- Each reflective PDU of one flow takes a slot of its own: after `m` of them the table of 64 has
-- `min 64 (used + m)` slots in use, for every `m`. So after `n` of them with `used + n` at least 64 no flow
-- whatever can be mapped any more, though only one flow may have been received.
pub receive_times-exhausts :
    (m n : ℕ) (e : Entity) (sdu : List ℕ) (q d q' d' : ℕ) (r : Bool)
    → q < 64
    → q' < 64
    → length e.qos_flow_map ≡ 64
    → 64 ≤ count is_used e.qos_flow_map + n
    → (count is_used (receive_times m e sdu q d).qos_flow_map
        ≡ min 64 (count is_used e.qos_flow_map + m))
      × (map_qos_flow (receive_times n e sdu q d) q' d' r true
          ≡ (Status.capacity, receive_times n e sdu q d))
receive_times-exhausts m n e sdu q d q' d' r low low' whole enough =
    let (filled, kept) = receive_times-fills n e sdu q d low whole in
    (
      (receive_times-fills m e sdu q d low whole).0,
      map-refused (receive_times n e sdu q d) q' d' r low' kept (omega (arith, filled)),
    )
