-- ===== src/Sdap/Count.antt =====
-- The counter `config.num_qos_flows` of src/protocol/sdap.c against the slots in use.
use uesim.Common.{
  ℕ, ◌≡◌, refl, ◌∙◌, arith, Bool, true, false, ltb, Bool-cases, Option-cases, inl, inr, length,
  length-update_first, find_first, count, count-found,
}
use uesim.Sdap.{Entity, max_qos_flows}
use uesim.Sdap.Table.{
  is_free, carries, fill, clear_slot, redirect, map_qos_flow, unmap_qos_flow, update_qos_mapping,
}
use uesim.Sdap.Slots.{is_used, count_free, map-count_used, unmap-count_used, update-count}

-- The counter is the number of slots in use, of 64.
unfoldable pub IsCounted : Entity → Type 0
IsCounted e =
    (e.config.num_qos_flows ≡ count is_used e.qos_flow_map)
    × (length e.qos_flow_map ≡ max_qos_flows)

pub map-IsCounted :
    (e : Entity) (q d : ℕ) (r locked : Bool)
    → IsCounted e
    → IsCounted (map_qos_flow e q d r locked).1
unfolding IsCounted map_qos_flow
map-IsCounted e q d r locked (counted, whole) = elim (Bool-cases (ltb 63 q)) [
  | inl high ↦ simp (map_qos_flow, high) (counted, whole)
  | inr low ↦ elim (Bool-cases locked) [
    | inr refused ↦ simp (map_qos_flow, low, refused) (counted, whole)
    | inl held ↦ elim (Option-cases (find_first is_free e.qos_flow_map)) [
      | inl full ↦ simp (map_qos_flow, low, held, full) (counted, whole)
      | inr (slot, room) ↦
          simp (map_qos_flow, low, held, room)
            (
              omega (
                arith,
                map-count_used e.qos_flow_map q d r room,
                count-found is_free e.qos_flow_map room,
                count_free e.qos_flow_map,
                counted,
                whole,
              ),
              length-update_first is_free (fill q d r) e.qos_flow_map ∙ whole,
            )
    ]
  ]
]

pub unmap-IsCounted :
    (e : Entity) (q : ℕ) (locked : Bool) → IsCounted e → IsCounted (unmap_qos_flow e q locked).1
unfolding IsCounted unmap_qos_flow
unmap-IsCounted e q false ok = ok
unmap-IsCounted e q true (counted, whole) =
    elim (Option-cases (find_first (carries q) e.qos_flow_map)) [
      | inl absent ↦ simp (unmap_qos_flow, absent) (counted, whole)
      | inr (slot, found) ↦
          simp (unmap_qos_flow, found)
            (
              omega (
                arith,
                unmap-count_used e.qos_flow_map q found,
                count_free e.qos_flow_map,
                counted,
                whole,
              ),
              length-update_first (carries q) clear_slot e.qos_flow_map ∙ whole,
            )
    ]

pub update-IsCounted :
    (e : Entity) (q d : ℕ) (locked : Bool)
    → IsCounted e
    → IsCounted (update_qos_mapping e q d locked).1
unfolding IsCounted update_qos_mapping
update-IsCounted e q d false ok = ok
update-IsCounted e q d true (counted, whole) =
    elim (Option-cases (find_first (carries q) e.qos_flow_map)) [
      | inl absent ↦ simp (update_qos_mapping, absent) (counted, whole)
      | inr (slot, found) ↦
          simp (update_qos_mapping, found)
            (
              omega (arith, update-count (carries q) is_used d e.qos_flow_map (λ x. refl), counted),
              length-update_first (carries q) (redirect d) e.qos_flow_map ∙ whole,
            )
    ]
