-- ===== src/Rrc/Tests.antt =====
-- Runs of the radio resource control layer, and its theorems at concrete inputs.
use uesim.Common.{ℕ, false, ◌≡◌, ◌≢◌, refl, List, [], ◌∷◌, true, none, some, Status, find_first}
use uesim.Common.Int8.{ℤ, negsuc}
use uesim.Rrc.{State, Gnb, Ue, Response, Answers, change_state, handle_procedure_response}
use uesim.Rrc.Procedures.{
  ProcedureType, Env, Wake, Round, handle_all, execute_procedure, execute_registration,
  execute_reestablishment, best_candidate, best_loop, execute_handover, start_procedure,
  request_loop, wait_procedure_complete, handle_procedure_failure,
}
use uesim.Rrc.Runs.{Event, run, registers_in, IsAllowed, run-IsAllowed}
use uesim.Rrc.Attempts.{asked, execute_registration-handles}
use uesim.Rrc.Completion.{execute_procedure-fails}
use uesim.Rrc.Refusals.{
  IsRefused, quiet, answered, env_with, rounds_from, quiet_before,
  execute_reestablishment-IsRefused, execute_registration-unanswered,
}
use uesim.Rrc.Handover.{best_candidate-maximal}
use uesim.Rrc.Procedures.{less}
use uesim.Common.{◌⊎◌}
use mathlib.Core.List.{Memᴰ}

abbrev cell : ℕ → ℤ → Gnb
cell id rsrp = record { gnb_id = id; cell_id = id; rsrp = rsrp; rsrq = negsuc 9 }

abbrev gnbs : List Gnb
gnbs = cell 1 (negsuc 99) ∷ cell 2 (negsuc 79) ∷ cell 3 (negsuc 149) ∷ []

abbrev ue_in : State → Ue
ue_in s = record {
  current_state = s;
  state_change_time = 0;
  serving_gnb = none;
  candidate_gnbs = gnbs;
  transaction_id_counter = 0;
}

abbrev granted : Answers
granted = record {
  allocated = true;
  sent = Status.success;
  gnb_connected = Status.success;
  now = 9;
}

best_candidate_second : best_candidate gnbs ≡ some (cell 2 (negsuc 79))
unfolding best_candidate best_loop
best_candidate_second = refl

-- A setup message connects a UE that has asked for nothing.
setup_unasked :
    (handle_procedure_response (ue_in State.idle) (Response.setup (some 0)) granted).1.current_state
    ≡ State.connected
unfolding handle_procedure_response change_state
setup_unasked = refl

execute_procedure-fails_example :
    (execute_procedure (ue_in State.connected) ProcedureType.handover (env_with 5 (λ r. quiet))).0
    ≢ Status.success
execute_procedure-fails_example =
    execute_procedure-fails (ue_in State.connected) ProcedureType.handover (env_with 5 (λ r. quiet))

connected-awake : State.connected ≢ State.inactive
connected-awake e = cc

execute_reestablishment-IsRefused_example :
    IsRefused
      (ue_in State.connected)
      (execute_reestablishment (ue_in State.connected) (env_with 5 (λ r. quiet)))
    × (execute_reestablishment (ue_in State.connected) (env_with 5 (λ r. quiet))
        ≡ execute_reestablishment
            (ue_in State.connected)
            (env_with 5 (rounds_from (answered granted))))
execute_reestablishment-IsRefused_example =
    execute_reestablishment-IsRefused (ue_in State.connected) (env_with 5 (λ r. quiet))
      (rounds_from (answered granted)) connected-awake

execute_registration-unanswered_example :
    let env : Env = env_with 5 (quiet_before (λ r. answered granted)) in
    let stuck : Ue = (execute_registration (ue_in State.idle) env).1 in
    ((execute_registration (ue_in State.idle) env).0 ≡ Status.timeout)
    × (stuck.current_state ≡ State.connecting)
    × ((env' : Env) → execute_registration stuck env' ≡ (Status.protocol, stuck))
    × ((env' : Env) → IsRefused stuck (execute_reestablishment stuck env'))
execute_registration-unanswered_example =
    execute_registration-unanswered (ue_in State.idle) 5 (λ r. answered granted) refl

-- The network sets the connection up in each attempt, and releases it at once.
abbrev up_and_down : ℕ → Round
up_and_down r = record {
  sent = Status.success;
  incoming = (Response.setup (some r), granted) ∷ (Response.connection_release, granted) ∷ [];
  wakes = Wake.expired ∷ [];
}

execute_registration-handles_example :
    execute_registration (ue_in State.idle) (env_with 5 up_and_down) ≡ (
      Status.timeout,
      handle_all (asked (ue_in State.idle) 5) (
          (Response.setup (some 0), granted)
          ∷ (Response.connection_release, granted)
          ∷ (Response.setup (some 1), granted)
          ∷ (Response.connection_release, granted)
          ∷ (Response.setup (some 2), granted)
          ∷ (Response.connection_release, granted)
          ∷ (Response.setup (some 3), granted)
          ∷ (Response.connection_release, granted)
          ∷ []),
    )
execute_registration-handles_example =
    execute_registration-handles (ue_in State.idle) 5 up_and_down refl (λ r. refl) (λ r. refl)

abbrev events : List Event
events =
    Event.execute ProcedureType.registration (env_with 5 (rounds_from (answered granted)))
    ∷ Event.execute ProcedureType.handover (env_with 6 (λ r. quiet))
    ∷ Event.receive (Response.handover_command (some 2)) granted
    ∷ Event.receive Response.connection_release granted
    ∷ []

-- A UE that registers and is told to hand over, and released in the end.
events_end : (run (ue_in State.idle) events).current_state ≡ State.idle
unfolding run execute_procedure execute_registration execute_handover start_procedure change_state
    request_loop wait_procedure_complete handle_all handle_procedure_response
    handle_procedure_failure best_candidate best_loop find_first
events_end = refl

-- No registration among them.
abbrev later_events : List Event
later_events =
    Event.execute ProcedureType.reestablishment (env_with 6 (λ r. quiet))
    ∷ Event.execute ProcedureType.handover (env_with 7 (λ r. quiet))
    ∷ Event.receive (Response.handover_command (some 2)) granted
    ∷ Event.fall_back 8
    ∷ []

later_events-none : registers_in later_events ≡ false
unfolding registers_in
later_events-none = refl

connected_later : IsAllowed (registers_in later_events) State.connected
unfolding IsAllowed
connected_later = tt

run-IsAllowed_example :
    IsAllowed (registers_in later_events) (run (ue_in State.connected) later_events).current_state
run-IsAllowed_example = run-IsAllowed (ue_in State.connected) later_events connected_later

best_candidate-maximal_example :
    ((best_candidate gnbs ≡ none) × ((g : Gnb) → Memᴰ g gnbs → less (negsuc 139) g.rsrp ≡ false))
    ⊎ ((best : Gnb) × (best_candidate gnbs ≡ some best)
        × Memᴰ best gnbs
        × (less (negsuc 139) best.rsrp ≡ true)
        × ((g : Gnb) → Memᴰ g gnbs → less best.rsrp g.rsrp ≡ false))
best_candidate-maximal_example = best_candidate-maximal gnbs
