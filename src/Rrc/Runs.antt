-- ===== src/Rrc/Runs.antt =====
-- What runs of procedures and messages do to a UE's state in src/protocol/rrc.c.
use uesim.Common.{
  ℕ, ◌≡◌, ◌≢◌, refl, sym, subst, arith, List, [], ◌∷◌, Bool, true, false, ◌||◌, Bool-cases, inl,
  inr,
}
use uesim.Rrc.{State, Ue, Response, Answers, handle_procedure_response, fallback_to_idle}
use uesim.Rrc.Procedures.{ProcedureType, Env, execute_procedure}
use uesim.Rrc.Keeps.{change_state-Keeps, handle-Keeps}
use uesim.Rrc.Execution.{execute-Keeps, execute_handover-Keeps}
use uesim.Rrc.Refusals.{execute_reestablishment-IsRefused}

-- What a UE goes through: its own procedures, the network's messages, and the fall-back to idle.
pub data Event : Type 0 where
  execute : ProcedureType → Env → Event
  receive : Response → Answers → Event
  fall_back : ℕ → Event

unfoldable pub run : Ue → List Event → Ue
run ue [] = ue
run ue (execute procedure env ∷ events) = run (execute_procedure ue procedure env).1 events
run ue (receive response a ∷ events) = run (handle_procedure_response ue response a).1 events
run ue (fall_back now ∷ events) = run (fallback_to_idle ue now).1 events

-- Whether a procedure is a registration, or the establishment, which is the same.
abbrev pub registers : ProcedureType → Bool
registers ProcedureType.registration = true
registers ProcedureType.establishment = true
registers procedure = false

-- Whether one is executed in a run.
unfoldable pub registers_in : List Event → Bool
registers_in [] = false
registers_in (execute procedure env ∷ events) = registers procedure || registers_in events
registers_in (receive response a ∷ events) = registers_in events
registers_in (fall_back now ∷ events) = registers_in events

-- The states that a run can be in, with a registration in it or without one.
unfoldable pub IsAllowed : Bool → State → Type 0
IsAllowed registered State.idle = Unit {0}
IsAllowed registered State.connected = Unit {0}
IsAllowed registered State.connecting = registered ≡ true
IsAllowed registered State.inactive = ⊥

allowed-awake : (s : State) → IsAllowed false s → s ≢ State.inactive
unfolding IsAllowed
allowed-awake State.inactive held e = held
allowed-awake State.idle held e = cc
allowed-awake State.connected held e = cc
allowed-awake State.connecting held e = cc

idle-IsAllowed : (b : Bool) → IsAllowed b State.idle
unfolding IsAllowed
idle-IsAllowed b = tt

connected-IsAllowed : (b : Bool) → IsAllowed b State.connected
unfolding IsAllowed
connected-IsAllowed b = tt

connecting-IsAllowed : IsAllowed true State.connecting
unfolding IsAllowed
connecting-IsAllowed = refl

execute-IsAllowed :
    (ue : Ue) (procedure : ProcedureType) (env : Env)
    → registers procedure ≡ false
    → IsAllowed false ue.current_state
    → IsAllowed false (execute_procedure ue procedure env).1.current_state
unfolding execute_procedure
execute-IsAllowed ue ProcedureType.registration env none_ held = cc
execute-IsAllowed ue ProcedureType.establishment env none_ held = cc
execute-IsAllowed ue ProcedureType.reestablishment env none_ held =
    let refused =
      execute_reestablishment-IsRefused ue env env.rounds (allowed-awake ue.current_state held) in
    subst (IsAllowed false) (sym refused.0.1) held
execute-IsAllowed ue ProcedureType.handover env none_ held =
    execute_handover-Keeps (IsAllowed false) (idle-IsAllowed false) (connected-IsAllowed false) ue
      env held

either : (a b : Bool) → (a || b) ≡ false → (a ≡ false) × (b ≡ false)
either a b e = ground arith

run_registered-IsAllowed :
    (ue : Ue) (events : List Event)
    → IsAllowed true ue.current_state
    → IsAllowed true (run ue events).current_state
unfolding run
run_registered-IsAllowed ue [] held = held
run_registered-IsAllowed ue (execute procedure env ∷ events) held =
    run_registered-IsAllowed (execute_procedure ue procedure env).1 events (
      execute-Keeps (IsAllowed true) (idle-IsAllowed true) (connected-IsAllowed true)
        connecting-IsAllowed ue procedure env held)
run_registered-IsAllowed ue (receive response a ∷ events) held =
    run_registered-IsAllowed (handle_procedure_response ue response a).1 events (
      handle-Keeps (IsAllowed true) (idle-IsAllowed true) (connected-IsAllowed true) ue response a
        held)
run_registered-IsAllowed ue (fall_back now ∷ events) held =
    run_registered-IsAllowed (fallback_to_idle ue now).1 events (
      change_state-Keeps (IsAllowed true) (idle-IsAllowed true) (connected-IsAllowed true) ue
        State.idle now (idle-IsAllowed true) held)

run_settled-IsAllowed :
    (ue : Ue) (events : List Event)
    → registers_in events ≡ false
    → IsAllowed false ue.current_state
    → IsAllowed false (run ue events).current_state
unfolding run registers_in
run_settled-IsAllowed ue [] none_ held = held
run_settled-IsAllowed ue (execute procedure env ∷ events) none_ held =
    let (here, later) = either (registers procedure) (registers_in events) none_ in
    run_settled-IsAllowed (execute_procedure ue procedure env).1 events later
      (execute-IsAllowed ue procedure env here held)
run_settled-IsAllowed ue (receive response a ∷ events) none_ held =
    run_settled-IsAllowed (handle_procedure_response ue response a).1 events none_ (
      handle-Keeps (IsAllowed false) (idle-IsAllowed false) (connected-IsAllowed false) ue response
        a held)
run_settled-IsAllowed ue (fall_back now ∷ events) none_ held =
    run_settled-IsAllowed (fallback_to_idle ue now).1 events none_ (
      change_state-Keeps (IsAllowed false) (idle-IsAllowed false) (connected-IsAllowed false) ue
        State.idle now (idle-IsAllowed false) held)

-- Whatever procedures a UE executes, messages it is sent and answers it gets: if no registration or
-- establishment is among the procedures, an idle or connected UE is idle or connected in the end, also
-- after re-establishments and handovers that fail; with one among them, an idle, connected or connecting
-- UE is idle, connected or connecting. So no such run leads to inactive, and without a registration or
-- establishment none leads to connecting.
pub run-IsAllowed :
    (ue : Ue) (events : List Event)
    → IsAllowed (registers_in events) ue.current_state
    → IsAllowed (registers_in events) (run ue events).current_state
run-IsAllowed ue events held = elim (Bool-cases (registers_in events)) [
  | inl some_ ↦
      subst (λ b. IsAllowed b (run ue events).current_state) (sym some_)
        (run_registered-IsAllowed ue events (subst (λ b. IsAllowed b ue.current_state) some_ held))
  | inr none_ ↦
      subst (λ b. IsAllowed b (run ue events).current_state) (sym none_)
        (run_settled-IsAllowed ue events none_
          (subst (λ b. IsAllowed b ue.current_state) none_ held))
]
