-- ===== src/Rlf/Tests.antt =====
-- Runs of the radio link failure detection, and its theorems at concrete inputs.
use uesim.Common.{ℕ, ◌≡◌, refl, arith, List, [], ◌∷◌, ◌++◌, true, false, none}
use uesim.Rrc
use uesim.Rrc.{Ue, change_state}
use uesim.Rrc.Refusals.{quiet, env_with}
use uesim.Rlf.{
  State, ReestResult, Context, System, fresh_context, abort_recovery, go_to_idle, declare_failure,
}
use uesim.Rlf.Sync.{Indication, Outcome, handle_sync_indication, handle_all}
use uesim.Rlf.Timers.{check_timers}
use uesim.Rlf.Recovery.{Tick, IsOver, check_all, declare_failure-ends}
use uesim.Rlf.Thresholds.{Returns, handle_all-never_starts, handle_all-never_stops}
use uesim.Rlf.Deadlock.{losses, handle_all-blocks}

abbrev ue_in : Rrc.State → Ue
ue_in s = record {
  current_state = s;
  state_change_time = 0;
  serving_gnb = none;
  candidate_gnbs = [];
  transaction_id_counter = 0;
}

abbrev system_with : Context → System
system_with rlf = record { ue = ue_in Rrc.State.connected; rlf = rlf }

-- With the defaults, one indication starts T310.
out_of_sync_once :
    handle_sync_indication (system_with fresh_context) Indication.out_of_sync 7
    ≡ Outcome.returned (
        system_with (record fresh_context {
          total_out_of_sync_indications = 1;
          out_of_sync_count = 1;
          t310_start_time = 7;
          t310_running = true;
          current_state = State.t310_running;
        }))
unfolding handle_sync_indication
out_of_sync_once = refl

-- Recovery is not reset if the UE is idle already.
abort_idle :
    (abort_recovery
      (record { ue = ue_in Rrc.State.idle; rlf = fresh_context })
      ReestResult.t311_expiry
      5).1.rlf.current_state
    ≡ State.failed
unfolding abort_recovery go_to_idle change_state
abort_idle = refl

abbrev row : List (Indication × ℕ)
row = (Indication.out_of_sync, 1) ∷ (Indication.out_of_sync, 2) ∷ (Indication.in_sync, 3) ∷ []

abbrev patient : System
patient = system_with (record fresh_context { n310_threshold = 2 })

handle_all-never_starts_example :
    Returns
      (λ s'.
        (s'.rlf.t310_running ≡ false)
        × ((check_timers s' (env_with 9000 (λ r. quiet)) 9000 0).1.rlf.total_rlf_count ≡ 0))
      (handle_all (Outcome.returned patient) row)
handle_all-never_starts_example =
    handle_all-never_starts patient row (env_with 9000 (λ r. quiet)) 9000 0 (omega arith) refl refl
      refl

abbrev failing : System
failing =
    system_with (record fresh_context { t310_running = true; current_state = State.t310_running })

abbrev back : List (Indication × ℕ)
back = (Indication.in_sync, 1) ∷ (Indication.in_sync, 2) ∷ (Indication.in_sync, 3) ∷ []

handle_all-never_stops_example :
    Returns
      (λ s'.
        (s'.rlf.t310_running ≡ true)
        × (s'.rlf.t310_start_time ≡ 0)
        × ((check_timers s' (env_with 1500 (λ r. quiet)) 1500 0).1.rlf.total_rlf_count ≡ 1))
      (handle_all (Outcome.returned failing) back)
handle_all-never_stops_example =
    handle_all-never_stops failing back (env_with 1500 (λ r. quiet)) 1500 0 (omega arith) refl refl
      refl (omega arith)

abbrev hasty : System
hasty = system_with (record fresh_context {
  n311_threshold = 1;
  t310_running = true;
  current_state = State.t310_running;
})

handle_all-blocks_example :
    handle_all
      (Outcome.returned hasty)
      (losses (4 ∷ 5 ∷ []) ++ (Indication.in_sync, 6) ∷ (Indication.out_of_sync, 7) ∷ [])
    ≡ Outcome.blocked
handle_all-blocks_example =
    handle_all-blocks hasty (4 ∷ 5 ∷ []) 6 ((Indication.out_of_sync, 7) ∷ []) (omega arith) refl
      refl

abbrev tick : ℕ → Tick
tick now = record { env = env_with now (λ r. quiet); now = now; clock = 0 }

declare_failure-ends_example :
    let after : System =
      check_all
        (declare_failure (system_with fresh_context) (env_with 500 (λ r. quiet)) 500 0).1
        (tick 900 ∷ tick 1500 ∷ []) in
    IsOver (check_timers after (env_with 3600 (λ r. quiet)) 3600 0).1
declare_failure-ends_example =
    declare_failure-ends (system_with fresh_context) (env_with 500 (λ r. quiet)) 500 0
      (tick 900 ∷ tick 1500 ∷ []) (tick 3600) refl (omega arith) (omega arith)
