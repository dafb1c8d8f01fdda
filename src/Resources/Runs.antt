-- ===== src/Resources/Runs.antt =====
-- Rows of calls of src/core/resource_tracker.c.
use uesim.Common.{ℕ, ◌≡◌, Bool, true, false, List, [], ◌∷◌, Option}
use uesim.Resources.{ResourceType, ResourceState, Tracker}
use uesim.Resources.Operations.{
  track, untrack, release, update_state, cleanup_by_owner, cleanup_by_type, check_leaks,
}
use uesim.Resources.Counted.{
  IsCounted, track-IsCounted, untrack-IsCounted, release-IsCounted, cleanup_by_owner-IsCounted,
  cleanup_by_type-IsCounted,
}

-- The calls that a tracker serves until it is cleaned up.
pub data Call : Type 0 where
  add : ResourceType → ℕ → Option (List ℕ) → ℕ → ℕ → ℕ → Call
  forget close : ℕ → Call
  update : ℕ → ResourceState → Call
  by_owner : ℕ → Call
  by_type : ResourceType → Call
  leaks : Call

unfoldable pub serve : Tracker → Call → Tracker
serve t (Call.add type handle name owner size now) = (track t type handle name owner size now).0
serve t (Call.forget handle) = (untrack t handle).0
serve t (Call.close handle) = (release t handle).0
serve t (Call.update handle state) = (update_state t handle state).0
serve t (Call.by_owner owner) = (cleanup_by_owner t owner).0
serve t (Call.by_type type) = (cleanup_by_type t type).0
serve t Call.leaks = (check_leaks t).0

unfoldable pub run_calls : Tracker → List Call → Tracker
run_calls t [] = t
run_calls t (c ∷ cs) = run_calls (serve t c) cs

-- The calls other than `resource_update_state` and `resource_check_leaks`, which write states only.
abbrev pub keeps_count : Call → Bool
keeps_count (Call.update handle state) = false
keeps_count Call.leaks = false
keeps_count c = true

unfoldable pub AllKeep : List Call → Type 0
AllKeep [] = Unit {0}
AllKeep (c ∷ cs) = (keeps_count c ≡ true) × AllKeep cs

serve-IsCounted :
    (t : Tracker) (c : Call) → keeps_count c ≡ true → IsCounted t → IsCounted (serve t c)
unfolding serve
serve-IsCounted t (Call.add type handle name owner size now) keeps ok =
    track-IsCounted t type handle name owner size now ok
serve-IsCounted t (Call.forget handle) keeps ok = untrack-IsCounted t handle ok
serve-IsCounted t (Call.close handle) keeps ok = release-IsCounted t handle ok
serve-IsCounted t (Call.update handle state) keeps ok = cc
serve-IsCounted t (Call.by_owner owner) keeps ok = cleanup_by_owner-IsCounted t owner ok
serve-IsCounted t (Call.by_type type) keeps ok = cleanup_by_type-IsCounted t type ok
serve-IsCounted t Call.leaks keeps ok = cc

-- Whatever resources are tracked, untracked, released or cleaned up in a row, without a state written by
-- `resource_update_state` or `resource_check_leaks` between, `current_active` stays the number of
-- active entries, of which the table has at most 4,096.
pub run_calls-IsCounted :
    (t : Tracker) (cs : List Call) → AllKeep cs → IsCounted t → IsCounted (run_calls t cs)
unfolding run_calls AllKeep
run_calls-IsCounted t [] keep ok = ok
run_calls-IsCounted t (c ∷ cs) (first, rest) ok =
    run_calls-IsCounted (serve t c) cs rest (serve-IsCounted t c first ok)
