-- ===== src/Sdap/Refine.antt =====
-- The mapping table of src/protocol/sdap.c as a finite map: what runs of map, unmap and update promise
-- as long as no flow is mapped twice.
use native.Mathlib.Decide.{ℕ_discrete}
use uesim.Common.{
  ℕ, ◌+◌, ◌-◌, ◌≤◌, ◌≡◌, ◌≢◌, refl, sym, ap, subst, ◌∙◌, arith, List, [], ◌∷◌, Bool, true, false,
  Option, none, some, ltb, ◌==◌, ==_iff, if◌then◌else◌, length, Status, find_first, count,
}
use uesim.Sdap.{Mapping, Entity}
use uesim.Sdap.Table.{carries, map_qos_flow, unmap_qos_flow, update_qos_mapping}
use uesim.Sdap.Slots.{is_used, IsDistinct, ==_other}

-- The calls on the table, with their locks.
pub data Request : Type 0 where
  map_flow : ℕ → ℕ → Bool → Bool → Request
  unmap_flow : ℕ → Bool → Request
  update_flow : ℕ → ℕ → Bool → Request

unfoldable pub serve : Entity → Request → Status × Entity
serve e (Request.map_flow qfi drb_id reflective locked) =
    map_qos_flow e qfi drb_id reflective locked
serve e (Request.unmap_flow qfi locked) = unmap_qos_flow e qfi locked
serve e (Request.update_flow qfi drb_id locked) = update_qos_mapping e qfi drb_id locked

-- The statuses of a run, and the entity it ends in.
unfoldable pub serve_all : Entity → List Request → List Status × Entity
serve_all e [] = ([], e)
serve_all e (r ∷ rs) =
    ((serve e r).0 ∷ (serve_all (serve e r).1 rs).0, (serve_all (serve e r).1 rs).1)

-- The specification: a map from flows to a bearer and its reflective flag, and the number of flows.
pub record Spec : Type 0 where
  pub bearer : ℕ → Option (ℕ × Bool)
  pub used : ℕ

abbrev pub put : (ℕ → Option (ℕ × Bool)) → ℕ → Option (ℕ × Bool) → ℕ → Option (ℕ × Bool)
put bearer qfi value q = if qfi == q then value else bearer q

unfoldable pub spec_serve : Spec → Request → Status × Spec
spec_serve t (Request.map_flow qfi drb_id reflective true) =
    if ltb 63 qfi
    then (Status.invalid_param, t)
    else if t.used == 64
    then (Status.capacity, t)
    else (
      Status.success,
      record { bearer = put t.bearer qfi (some (drb_id, reflective)); used = t.used + 1 },
    )
spec_serve t (Request.map_flow qfi drb_id reflective false) =
    (if ltb 63 qfi then Status.invalid_param else Status.thread, t)
spec_serve t (Request.unmap_flow qfi false) = (Status.thread, t)
spec_serve t (Request.unmap_flow qfi true) = elim (t.bearer qfi) [
  | none ↦ (Status.not_found, t)
  | some entry ↦ (Status.success, record { bearer = put t.bearer qfi none; used = t.used - 1 })
]
spec_serve t (Request.update_flow qfi drb_id false) = (Status.thread, t)
spec_serve t (Request.update_flow qfi drb_id true) = elim (t.bearer qfi) [
  | none ↦ (Status.not_found, t)
  | some entry ↦ (Status.success, record t { bearer = put t.bearer qfi (some (drb_id, entry.1)) })
]

unfoldable pub spec_serve_all : Spec → List Request → List Status × Spec
spec_serve_all t [] = ([], t)
spec_serve_all t (r ∷ rs) = (
  (spec_serve t r).0 ∷ (spec_serve_all (spec_serve t r).1 rs).0,
  (spec_serve_all (spec_serve t r).1 rs).1,
)

-- No request of a run maps a flow that has a bearer.
abbrev pub IsFreshFor : Spec → Request → Type 0
IsFreshFor t (Request.map_flow qfi drb_id reflective locked) = t.bearer qfi ≡ none
IsFreshFor t (Request.unmap_flow qfi locked) = Unit {0}
IsFreshFor t (Request.update_flow qfi drb_id locked) = Unit {0}

unfoldable pub AreFresh : Spec → List Request → Type 0
AreFresh t [] = Unit {0}
AreFresh t (r ∷ rs) = IsFreshFor t r × AreFresh (spec_serve t r).1 rs

abbrev pub entry_of : Option Mapping → Option (ℕ × Bool)
entry_of none = none
entry_of (some slot) = some (slot.drb_id, slot.reflective_qos)

-- What the table says of a flow.
abbrev pub view : List Mapping → ℕ → Option (ℕ × Bool)
view slots qfi = entry_of (find_first (carries qfi) slots)

-- The table implements the specification's state.
pub record Refines (e : Entity) (t : Spec) : Type 0 where
  pub same : (q : ℕ) → view e.qos_flow_map q ≡ t.bearer q
  pub used : count is_used e.qos_flow_map ≡ t.used
  pub whole : length e.qos_flow_map ≡ 64
  pub distinct : IsDistinct e.qos_flow_map

pub entry-none : (o : Option Mapping) → entry_of o ≡ none → o ≡ none
entry-none none e = refl
entry-none (some slot) e = cc

-- A change at one flow makes the table agree with `put`, if it agrees at that flow and elsewhere.
pub agree-put :
    (slots : List Mapping) (bearer : ℕ → Option (ℕ × Bool)) (qfi : ℕ) (value : Option (ℕ × Bool))
    → view slots qfi ≡ value
    → ((q : ℕ) → qfi ≢ q → view slots q ≡ bearer q)
    → (q : ℕ) → view slots q ≡ put bearer qfi value q
agree-put slots bearer qfi value here there q = elim (ℕ_discrete qfi q) [
  | yes equal ↦
      let hit : (qfi == q) ≡ true = ground (arith, equal, ==_iff qfi q) in
      rw hit (ap (view slots) (sym equal) ∙ here)
  | no apart ↦ rw (==_other qfi q apart) (there q apart)
]

pub IsDistinct-put :
    (before after : List Mapping) (qfi : ℕ)
    → IsDistinct before
    → count (carries qfi) after ≤ 1
    → ((q : ℕ) → qfi ≢ q → count (carries q) after ≡ count (carries q) before)
    → IsDistinct after
IsDistinct-put before after qfi ok here there q = elim (ℕ_discrete qfi q) [
  | yes equal ↦ subst (λ k. count (carries k) after ≤ 1) equal here
  | no apart ↦ omega (arith, there q apart, ok q)
]
