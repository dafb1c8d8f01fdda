-- ===== src/Sdap/Lookup.antt =====
-- The bearer that src/protocol/sdap.c finds for a flow that was just mapped.
use uesim.Common.{
  ℕ, ◌+◌, ◌≤◌, ◌<◌, ◌≡◌, ◌≢◌, refl, ap, ◌∙◌, arith, List, Bool, true, false, none, some, ltb,
  le→ltb, Status, find_first,
}
use uesim.Common.Int8.{int8, int8_high, is_negative}
use uesim.Sdap.{Mapping, Entity}
use uesim.Sdap.Table.{is_free, carries, map_qos_flow, get_drb_for_qos, is_reflective_qos}
use uesim.Sdap.Data.{process_ul_sdu, mapping_error}
use uesim.Sdap.Slots.{map-find_new, map-find_other}

-- Mapping a flow below 64 that no slot carries, in a table with a free slot, when the lock is taken:
-- the call succeeds, the flow's bearer is the given one read as an `int8_t`, its reflective flag is the
-- given one, and every other flow keeps its answers.
map_qos_flow-lookup :
    (e : Entity) (q d : ℕ) (r : Bool) (slot : Mapping) (q' : ℕ)
    → q < 64
    → find_first (carries q) e.qos_flow_map ≡ none
    → find_first is_free e.qos_flow_map ≡ some slot
    → q ≢ q'
    → ((map_qos_flow e q d r true).0 ≡ Status.success)
      × (get_drb_for_qos (map_qos_flow e q d r true).1 q ≡ int8 d)
      × (is_reflective_qos (map_qos_flow e q d r true).1 q ≡ r)
      × (get_drb_for_qos (map_qos_flow e q d r true).1 q' ≡ get_drb_for_qos e q')
      × (is_reflective_qos (map_qos_flow e q d r true).1 q' ≡ is_reflective_qos e q')
unfolding map_qos_flow get_drb_for_qos is_reflective_qos
map_qos_flow-lookup e q d r slot q' low absent room apart =
    let within : ltb 63 q ≡ false = le→ltb 63 q (omega arith) in
    let new = map-find_new e.qos_flow_map q d r room absent in
    let old = map-find_other e.qos_flow_map q d r room q' apart in
    simp (map_qos_flow, within, room)
      (
        refl,
        simp (get_drb_for_qos, new) refl,
        simp (is_reflective_qos, new) refl,
        simp (get_drb_for_qos, old) refl,
        simp (is_reflective_qos, old) refl,
      )

map-active :
    (e : Entity) (q d : ℕ) (r : Bool) (slot : Mapping)
    → q < 64
    → find_first is_free e.qos_flow_map ≡ some slot
    → (map_qos_flow e q d r true).1.active ≡ e.active
unfolding map_qos_flow
map-active e q d r slot low room =
    let within : ltb 63 q ≡ false = le→ltb 63 q (omega arith) in
    simp (map_qos_flow, within, room) refl

-- In an active entity with room, a flow that has no mapping yet and is mapped to a bearer from 128 to 255
-- is lost, although mapping it succeeds: the bearer is read back as a negative number, and an SDU of the
-- flow is refused as one without a mapping.
pub process_ul_sdu-high_bearer :
    (e : Entity) (sdu : List ℕ) (q d : ℕ) (r : Bool) (slot : Mapping)
    (allocated buffer locked : Bool)
    → q < 64
    → find_first (carries q) e.qos_flow_map ≡ none
    → find_first is_free e.qos_flow_map ≡ some slot
    → e.active ≡ true
    → 128 ≤ d
    → ((map_qos_flow e q d r true).0 ≡ Status.success)
      × (process_ul_sdu (map_qos_flow e q d r true).1 sdu q allocated buffer locked
          ≡ (Status.not_found, mapping_error (map_qos_flow e q d r true).1, none))
unfolding process_ul_sdu
process_ul_sdu-high_bearer e sdu q d r slot allocated buffer locked low absent room on high =
    let found =
      map_qos_flow-lookup e q d r slot (q + 1) low absent room (λ same. omega (arith, same)) in
    let still_on : (map_qos_flow e q d r true).1.active ≡ true =
      map-active e q d r slot low room ∙ on in
    let minus : is_negative (get_drb_for_qos (map_qos_flow e q d r true).1 q) ≡ true =
      ap is_negative (found.1 ∙ int8_high d high) in
    (found.0, simp (still_on, minus) refl)
