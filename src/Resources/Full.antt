-- ===== src/Resources/Full.antt =====
-- The table of src/core/resource_tracker.c, whose entries are never used again.
use uesim.Common.{
  ℕ, ◌≤◌, ◌≡◌, ◌≢◌, refl, arith, Bool, ◌&&◌, ◌==◌, le→leb, List, [], ◌∷◌, Option, find_first,
  length, Bool-cases, Option-cases, inl, inr, length-update_first,
}
use uesim.Resources.{
  ResourceType, ResourceState, Entry, Stats, Tracker, Result, max_entries, holds, is_active,
  with_state, released_stats, number,
}
use uesim.Resources.Operations.{
  track, untrack, release, update_state, cleanup_by_owner, cleanup_by_type, check_leaks,
  needs_handle, cleanup_loop, leaks_loop, new_entry,
}
use uesim.Resources.Counted.{length-append_one}
use uesim.Resources.Runs.{Call, serve, run_calls}

length-cleanup_loop :
    (p : Entry → Bool) (es : List Entry) (stats : Stats)
    → length (cleanup_loop p es stats).0 ≡ length es
unfolding cleanup_loop
length-cleanup_loop p [] stats = refl
length-cleanup_loop p (e ∷ es) stats = elim (Bool-cases (p e && is_active e)) [
  | inl hit ↦ rw hit (omega (arith, length-cleanup_loop p es (released_stats e stats)))
  | inr miss ↦ rw miss (omega (arith, length-cleanup_loop p es stats))
]

length-leaks_loop : (es : List Entry) → length (leaks_loop es).0 ≡ length es
unfolding leaks_loop
length-leaks_loop [] = refl
length-leaks_loop (e ∷ es) = ground (arith, length-leaks_loop es)

length-track :
    (t : Tracker) (type : ResourceType) (handle : ℕ) (name : Option (List ℕ)) (owner size now : ℕ)
    → length t.resources ≤ length (track t type handle name owner size now).0.resources
unfolding track
length-track t type handle name owner size now =
    ground (arith, length-append_one t.resources (new_entry type handle name owner size now))

length-untrack :
    (t : Tracker) (handle : ℕ) → length t.resources ≤ length (untrack t handle).0.resources
unfolding untrack
length-untrack t handle =
    ground
      (arith, length-update_first (holds handle) (with_state ResourceState.released) t.resources)

length-release :
    (t : Tracker) (handle : ℕ) → length t.resources ≤ length (release t handle).0.resources
unfolding release
length-release t handle =
    ground
      (arith, length-update_first (holds handle) (with_state ResourceState.released) t.resources)

length-update_state :
    (t : Tracker) (handle : ℕ) (state : ResourceState)
    → length t.resources ≤ length (update_state t handle state).0.resources
unfolding update_state
length-update_state t handle state =
    ground (arith, length-update_first (holds handle) (with_state state) t.resources)

length-cleanup_by_owner :
    (t : Tracker) (owner : ℕ) → length t.resources ≤ length (cleanup_by_owner t owner).0.resources
unfolding cleanup_by_owner
length-cleanup_by_owner t owner =
    ground (arith, length-cleanup_loop (λ e. e.owner_id == owner) t.resources t.stats)

length-cleanup_by_type :
    (t : Tracker) (type : ResourceType)
    → length t.resources ≤ length (cleanup_by_type t type).0.resources
unfolding cleanup_by_type
length-cleanup_by_type t type =
    ground (arith, length-cleanup_loop (λ e. number e.type == number type) t.resources t.stats)

length-check_leaks : (t : Tracker) → length t.resources ≤ length (check_leaks t).0.resources
unfolding check_leaks
length-check_leaks t = ground (arith, length-leaks_loop t.resources)

length-serve : (t : Tracker) (c : Call) → length t.resources ≤ length (serve t c).resources
unfolding serve
length-serve t (Call.add type handle name owner size now) =
    length-track t type handle name owner size now
length-serve t (Call.forget handle) = length-untrack t handle
length-serve t (Call.close handle) = length-release t handle
length-serve t (Call.update handle state) = length-update_state t handle state
length-serve t (Call.by_owner owner) = length-cleanup_by_owner t owner
length-serve t (Call.by_type type) = length-cleanup_by_type t type
length-serve t Call.leaks = length-check_leaks t

length-run_calls :
    (t : Tracker) (cs : List Call) → length t.resources ≤ length (run_calls t cs).resources
unfolding run_calls
length-run_calls t [] = omega arith
length-run_calls t (c ∷ cs) = omega (arith, length-serve t c, length-run_calls (serve t c) cs)

track-full :
    (t : Tracker) (type : ResourceType) (handle : ℕ) (name : Option (List ℕ)) (owner size now : ℕ)
    → max_entries ≤ length t.resources
    → (track t type handle name owner size now).1 ≢ Result.success
unfolding track
track-full t type handle name owner size now full = elim (Bool-cases t.initialized) [
  | inr off ↦ rw off (λ e. cc)
  | inl on ↦ elim (Bool-cases (handle == 0 && needs_handle type)) [
    | inl empty ↦ simp (on, empty) (λ e. cc)
    | inr given ↦ elim (Option-cases (find_first (holds handle) t.resources)) [
      | inr (e, found) ↦ simp (on, given, found) (λ e. cc)
      | inl new ↦ simp (on, given, new, le→leb max_entries (length t.resources) full) (λ e. cc)
    ]
  ]
]

-- Once the table has its 4,096 entries, no resource is tracked any more, however many of them the calls
-- after that release: only `resource_tracker_cleanup`, which is not among them, empties the table.
pub run_calls-stays_full :
    (t : Tracker) (cs : List Call) (type : ResourceType) (handle : ℕ) (name : Option (List ℕ))
    (owner size now : ℕ)
    → max_entries ≤ length t.resources
    → (track (run_calls t cs) type handle name owner size now).1 ≢ Result.success
run_calls-stays_full t cs type handle name owner size now full =
    track-full (run_calls t cs) type handle name owner size now
      (omega (arith, full, length-run_calls t cs))
