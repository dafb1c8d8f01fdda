-- ===== src/Sdap/Refinement.antt =====
-- The mapping table of src/protocol/sdap.c implements its specification.
use uesim.Common.{
  ℕ, ◌≡◌, refl, sym, ap, ◌∙◌, arith, List, [], ◌∷◌, Bool, true, false, none, some, ltb, ◌==◌,
  ==_iff, Bool-cases, Option-cases, inl, inr, length-update_first, Status, find_first, update_first,
  find_first-update_self, count_zero, count-found, count-absent, count,
}
use uesim.Sdap.{Mapping, Entity}
use uesim.Sdap.Table.{
  is_free, carries, fill, clear_slot, redirect, map_qos_flow, unmap_qos_flow, update_qos_mapping,
}
use uesim.Sdap.Slots.{
  is_used, count_free, map-find_new, map-find_other, map-count_used, map-count_new, map-count_other,
  unmap-count_used, unmap-count_gone, unmap-find_other, unmap-count_other, update-find_other,
  update-count,
}
use uesim.Sdap.Refine.{
  Request, serve, serve_all, Spec, spec_serve, spec_serve_all, IsFreshFor, AreFresh, entry_of,
  Refines, entry-none, agree-put, IsDistinct-put,
}

-- A call and its specification give the same status and stay related.
abbrev Agree : Status × Entity → Status × Spec → Type 0
Agree got promised = (got.0 ≡ promised.0) × Refines got.1 promised.1

map-room :
    (e : Entity) (t : Spec) (qfi drb_id : ℕ) (reflective : Bool)
    → Refines e t
    → t.bearer qfi ≡ none
    → ltb 63 qfi ≡ false
    → {slot : Mapping} → find_first is_free e.qos_flow_map ≡ some slot
    → Agree
        (map_qos_flow e qfi drb_id reflective true)
        (spec_serve t (Request.map_flow qfi drb_id reflective true))
unfolding map_qos_flow spec_serve
map-room e t qfi drb_id reflective ok fresh low {slot = s} room =
    let slots = e.qos_flow_map in
    let absent : find_first (carries qfi) slots ≡ none = entry-none _ (ok.same qfi ∙ fresh) in
    let some_left : (t.used == 64) ≡ false = ground (
      arith,
      count-found is_free slots room,
      count_free slots,
      ok.used,
      ok.whole,
      ==_iff t.used 64,
    ) in
    simp (low, room, some_left)
      (
        refl,
        record {
          same =
              agree-put (update_first is_free (fill qfi drb_id reflective) slots) t.bearer qfi
                (some (drb_id, reflective))
                (ap entry_of (map-find_new slots qfi drb_id reflective room absent))
                (λ q apart.
                  ap entry_of (map-find_other slots qfi drb_id reflective room q apart)
                  ∙ ok.same q);
          used = omega (arith, map-count_used slots qfi drb_id reflective room, ok.used);
          whole = length-update_first is_free (fill qfi drb_id reflective) slots ∙ ok.whole;
          distinct =
              IsDistinct-put slots (update_first is_free (fill qfi drb_id reflective) slots) qfi
                ok.distinct
                (omega (
                  arith,
                  map-count_new slots qfi drb_id reflective room,
                  count-absent (carries qfi) slots absent,
                ))
                (map-count_other slots qfi drb_id reflective room);
        },
      )

map-full :
    (e : Entity) (t : Spec) (qfi drb_id : ℕ) (reflective : Bool)
    → Refines e t
    → ltb 63 qfi ≡ false
    → find_first is_free e.qos_flow_map ≡ none
    → Agree
        (map_qos_flow e qfi drb_id reflective true)
        (spec_serve t (Request.map_flow qfi drb_id reflective true))
unfolding map_qos_flow spec_serve
map-full e t qfi drb_id reflective ok low full =
    let none_left : (t.used == 64) ≡ true = ground (
      arith,
      count-absent is_free e.qos_flow_map full,
      count_free e.qos_flow_map,
      ok.used,
      ok.whole,
      ==_iff t.used 64,
    ) in
    simp (low, full, none_left) (refl, ok)

map-Agree :
    (e : Entity) (t : Spec) (qfi drb_id : ℕ) (reflective locked : Bool)
    → Refines e t
    → t.bearer qfi ≡ none
    → Agree
        (map_qos_flow e qfi drb_id reflective locked)
        (spec_serve t (Request.map_flow qfi drb_id reflective locked))
unfolding map_qos_flow spec_serve
map-Agree e t qfi drb_id reflective false ok fresh = elim (Bool-cases (ltb 63 qfi)) [
  | inl high ↦ simp high (refl, ok)
  | inr low ↦ simp low (refl, ok)
]
map-Agree e t qfi drb_id reflective true ok fresh = elim (Bool-cases (ltb 63 qfi)) [
  | inl high ↦ simp high (refl, ok)
  | inr low ↦ elim (Option-cases (find_first is_free e.qos_flow_map)) [
    | inl full ↦ map-full e t qfi drb_id reflective ok low full
    | inr (slot, room) ↦ map-room e t qfi drb_id reflective ok fresh low room
  ]
]

unmap-Agree :
    (e : Entity) (t : Spec) (qfi : ℕ) (locked : Bool)
    → Refines e t
    → Agree (unmap_qos_flow e qfi locked) (spec_serve t (Request.unmap_flow qfi locked))
unfolding unmap_qos_flow spec_serve
unmap-Agree e t qfi false ok = (refl, ok)
unmap-Agree e t qfi true ok =
    let slots = e.qos_flow_map in
    let cleared = update_first (carries qfi) clear_slot slots in
    elim (Option-cases (find_first (carries qfi) slots)) [
      | inl absent ↦
          let unknown : t.bearer qfi ≡ none = sym (ok.same qfi) ∙ ap entry_of absent in
          simp (spec_serve, absent, unknown) (refl, ok)
      | inr (slot, found) ↦
          let known : t.bearer qfi ≡ some (slot.drb_id, slot.reflective_qos) =
            sym (ok.same qfi) ∙ ap entry_of found in
          let left : count (carries qfi) cleared ≡ 0 =
            omega (arith, unmap-count_gone slots qfi found, ok.distinct qfi) in
          simp (spec_serve, found, known)
            (
              refl,
              record {
                same =
                    agree-put cleared t.bearer qfi none
                      (ap entry_of (count_zero (carries qfi) cleared left))
                      (λ q apart. ap entry_of (unmap-find_other slots qfi q apart) ∙ ok.same q);
                used = omega (arith, unmap-count_used slots qfi found, ok.used);
                whole = length-update_first (carries qfi) clear_slot slots ∙ ok.whole;
                distinct =
                    IsDistinct-put slots cleared qfi ok.distinct (omega (arith, left))
                      (unmap-count_other slots qfi);
              },
            )
    ]

update-Agree :
    (e : Entity) (t : Spec) (qfi drb_id : ℕ) (locked : Bool)
    → Refines e t
    → Agree
        (update_qos_mapping e qfi drb_id locked)
        (spec_serve t (Request.update_flow qfi drb_id locked))
unfolding update_qos_mapping spec_serve
update-Agree e t qfi drb_id false ok = (refl, ok)
update-Agree e t qfi drb_id true ok =
    let slots = e.qos_flow_map in
    let changed = update_first (carries qfi) (redirect drb_id) slots in
    elim (Option-cases (find_first (carries qfi) slots)) [
      | inl absent ↦
          let unknown : t.bearer qfi ≡ none = sym (ok.same qfi) ∙ ap entry_of absent in
          simp (spec_serve, absent, unknown) (refl, ok)
      | inr (slot, found) ↦
          let known : t.bearer qfi ≡ some (slot.drb_id, slot.reflective_qos) =
            sym (ok.same qfi) ∙ ap entry_of found in
          simp (spec_serve, found, known)
            (
              refl,
              record {
                same =
                    agree-put changed t.bearer qfi (some (drb_id, slot.reflective_qos))
                      (ap entry_of (
                        find_first-update_self (carries qfi) (redirect drb_id) slots (λ y. refl)
                          found))
                      (λ q apart.
                        ap entry_of (update-find_other slots qfi q apart drb_id) ∙ ok.same q);
                used = update-count (carries qfi) is_used drb_id slots (λ x. refl) ∙ ok.used;
                whole = length-update_first (carries qfi) (redirect drb_id) slots ∙ ok.whole;
                distinct = λ q. omega (
                  arith,
                  update-count (carries qfi) (carries q) drb_id slots (λ x. refl),
                  ok.distinct q,
                );
              },
            )
    ]

serve-Agree :
    (e : Entity) (t : Spec) (r : Request)
    → Refines e t
    → IsFreshFor t r
    → Agree (serve e r) (spec_serve t r)
unfolding serve
serve-Agree e t (Request.map_flow qfi drb_id reflective locked) ok fresh =
    map-Agree e t qfi drb_id reflective locked ok fresh
serve-Agree e t (Request.unmap_flow qfi locked) ok fresh = unmap-Agree e t qfi locked ok
serve-Agree e t (Request.update_flow qfi drb_id locked) ok fresh =
    update-Agree e t qfi drb_id locked ok

-- A table that implements a finite map goes on implementing it, whatever calls map, unmap and update
-- make and whatever locks fail, as long as no call maps a flow that already has a bearer: all statuses
-- are the specification's (`capacity` exactly when 64 flows are mapped), the table's answer for each
-- flow is the map's, and no flow is carried twice.
pub serve_all-Refines :
    (e : Entity) (t : Spec) (rs : List Request)
    → Refines e t
    → AreFresh t rs
    → ((serve_all e rs).0 ≡ (spec_serve_all t rs).0)
      × Refines (serve_all e rs).1 (spec_serve_all t rs).1
unfolding serve_all spec_serve_all AreFresh
serve_all-Refines e t [] ok fresh = (refl, ok)
serve_all-Refines e t (r ∷ rs) ok (now, later) =
    let (status, kept) = serve-Agree e t r ok now in
    let (statuses, end) = serve_all-Refines (serve e r).1 (spec_serve t r).1 rs kept later in
    (rw (status, statuses) refl, end)
