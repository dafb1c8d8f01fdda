-- ===== src/Resources/Tests.antt =====
-- Runs of the resource tracker, and its theorems at concrete inputs.
use uesim.Common.{
  ◌≡◌, ◌≢◌, refl, arith, List, [], ◌∷◌, true, false, none, replicate, length-replicate, find_first,
  count,
}
use uesim.Resources.{
  ResourceType, ResourceState, Entry, Tracker, Result, Closing, no_stats, closing, with_state,
}
use uesim.Resources.Operations.{
  init, track, cleanup_loop, cleanup_by_owner, check_leaks, leaks_loop, new_entry,
}
use uesim.Resources.Counted.{IsCounted}
use uesim.Resources.Runs.{Call, serve, run_calls, AllKeep, run_calls-IsCounted}
use uesim.Resources.Full.{run_calls-stays_full}

abbrev empty : Tracker
empty = init (record { resources = []; stats = no_stats; initialized = false })

-- A block of 64 bytes at 4096 and the socket 5, both of UE 1.
abbrev both : List Call
both =
    Call.add ResourceType.memory 4096 none 1 64 0 ∷ Call.add ResourceType.socket 5 none 1 0 0 ∷ []

counted_both : (run_calls empty both).stats.current_active ≡ 2
unfolding run_calls serve find_first track
counted_both = refl

closed_both :
    (cleanup_by_owner (run_calls empty both) 1).2 ≡ Closing.free 4096 ∷ Closing.close 5 ∷ []
unfolding run_calls serve find_first track cleanup_by_owner cleanup_loop closing
closed_both = refl

-- A check for leaks marks both entries, and leaves the count of active resources at 2.
leaked_both :
    ((check_leaks (run_calls empty both)).0.stats.current_active ≡ 2)
    × ((check_leaks (run_calls empty both)).1 ≡ 2)
unfolding run_calls serve find_first track check_leaks leaks_loop
leaked_both = (refl, refl)

run_calls-IsCounted_example : IsCounted (
    run_calls empty
      (Call.add ResourceType.memory 4096 none 1 64 0 ∷ Call.close 4096 ∷ Call.by_owner 1 ∷ []))
unfolding AllKeep IsCounted count
run_calls-IsCounted_example =
    run_calls-IsCounted empty
      (Call.add ResourceType.memory 4096 none 1 64 0 ∷ Call.close 4096 ∷ Call.by_owner 1 ∷ [])
      (refl, (refl, (refl, tt))) (refl, omega arith)

-- A released entry, and a table of such entries.
abbrev old : Entry
old = with_state ResourceState.released (new_entry ResourceType.timer 7 none 1 0 0)

abbrev full : Tracker
full = record { resources = replicate 4096 old; stats = no_stats; initialized = true }

run_calls-stays_full_example :
    (track
      (run_calls full (Call.close 7 ∷ Call.by_owner 1 ∷ []))
      ResourceType.memory
      4096
      none
      1
      64
      0).1
    ≢ Result.success
run_calls-stays_full_example =
    run_calls-stays_full full (Call.close 7 ∷ Call.by_owner 1 ∷ []) ResourceType.memory 4096 none 1
      64 0 (omega (arith, length-replicate 4096 old))
