-- ===== src/Rrc/Completion.antt =====
-- How the procedures of src/protocol/rrc.c end.
use uesim.Common.{
  ℕ, zero, suc, ◌+◌, ◌≡◌, ◌≢◌, refl, List, [], ◌∷◌, false, some, if◌then◌else◌, Bool-cases,
  Option-cases, ◌⊎◌, inl, inr, Status,
}
use uesim.Rrc.{State, Ue, change_state, take_transaction_id}
use uesim.Rrc.Procedures.{
  ProcedureType, ErrorCause, Procedure, Wake, Round, Env, started, start_procedure,
  wait_procedure_complete, handle_all, waited, is_done, request_loop, finish, request_sent,
  request_started, execute_registration, execute_reestablishment, best_candidate, handover_sent,
  handover_started, has_candidates, execute_handover, execute_procedure,
}

-- A context that nobody has completed.
abbrev pub IsPending : Procedure → Type 0
IsPending p = (p.completed ≡ false) × (p.success ≡ false)

-- A result that is no success, with a context still pending.
abbrev HasFailed : Status × Procedure → Type 0
HasFailed (status, p) = (status ≢ Status.success) × IsPending p

wait-HasFailed :
    (p : Procedure) (wakes : List Wake) → IsPending p → HasFailed (wait_procedure_complete p wakes)
unfolding wait_procedure_complete
wait-HasFailed p [] (open_, lost) = simp (wait_procedure_complete, open_) ((λ e. cc), (refl, lost))
wait-HasFailed p (Wake.signalled ∷ wakes) (open_, lost) =
    simp (wait_procedure_complete, open_) (wait-HasFailed p wakes (open_, lost))
wait-HasFailed p (Wake.expired ∷ wakes) (open_, lost) =
    simp (wait_procedure_complete, open_) ((λ e. cc), (refl, lost))
wait-HasFailed p (Wake.broken ∷ wakes) (open_, lost) =
    simp (wait_procedure_complete, open_) ((λ e. cc), (refl, lost))

waited-HasFailed :
    (s : Status) (p : Procedure) (wakes : List Wake) → IsPending p → HasFailed (waited s p wakes)
waited-HasFailed Status.success p wakes ok = wait-HasFailed p wakes ok
waited-HasFailed s p wakes ok = ((λ e. cc), ok)

is_done-pending : (s : Status) (p : Procedure) → IsPending p → is_done s p ≡ false
is_done-pending Status.success p (open_, lost) = lost
is_done-pending s p ok = refl

loop-HasFailed :
    (left retry : ℕ) (rounds : ℕ → Round) (last : Status) (ue : Ue) (p : Procedure)
    → last ≢ Status.success
    → IsPending p
    → ((request_loop left retry rounds last ue p).0 ≢ Status.success)
      × IsPending (request_loop left retry rounds last ue p).2
unfolding request_loop
loop-HasFailed zero retry rounds last ue p failed ok = (failed, ok)
loop-HasFailed (suc left) retry rounds last ue p failed ok =
    let p' : Procedure = record p { retry_count = retry } in
    let round = rounds retry in
    let (missed, open_) = waited-HasFailed round.sent p' round.wakes ok in
    let (result, p'') = waited round.sent p' round.wakes in
    rw (is_done-pending result p'' open_) (
      loop-HasFailed left (retry + 1) rounds result (handle_all ue round.incoming) p'' missed open_)

finish-fails :
    (otherwise : ErrorCause) (now : ℕ) (s : Status) (ue : Ue) (p : Procedure)
    → s ≢ Status.success
    → IsPending p
    → (finish otherwise now (s, ue, p)).0 ≢ Status.success
finish-fails otherwise now s ue p failed ok = rw (is_done-pending s p ok) failed

sent-fails :
    (env : Env) (p : Procedure) (r : Status × Ue)
    → IsPending p
    → (request_sent env p r).0 ≢ Status.success
sent-fails env p (Status.success, ue) ok = elim (Bool-cases env.data_allocated) [
  | inr refused ↦ rw refused (λ e. cc)
  | inl granted ↦
      let (failed, open_) = loop-HasFailed 4 0 env.rounds Status.protocol ue p (λ e. cc) ok in
      rw granted (finish-fails ErrorCause.max_retries env.now _ _ _ failed open_)
]
sent-fails env p (s, ue) ok = λ e. cc

request-fails :
    (ue : Ue) (procedure : ProcedureType) (env : Env)
    → (request_started env (start_procedure ue procedure env)).0 ≢ Status.success
unfolding start_procedure
request-fails ue procedure env = elim (Bool-cases env.allocated) [
  | inr refused ↦ simp (start_procedure, refused) (λ e. cc)
  | inl granted ↦ elim (Bool-cases env.ready) [
    | inr broken ↦ simp (start_procedure, granted, broken) (λ e. cc)
    | inl ready ↦
        simp (start_procedure, granted, ready)
          (sent-fails env (started ue procedure env)
            (change_state (take_transaction_id ue) State.connecting env.now) (refl, refl))
  ]
]

pub State-cases :
    (s : State)
    → (s ≡ State.idle) ⊎ ((s ≡ State.connected) ⊎ ((s ≡ State.inactive) ⊎ (s ≡ State.connecting)))
State-cases State.idle = inl refl
State-cases State.connected = inr (inl refl)
State-cases State.inactive = inr (inr (inl refl))
State-cases State.connecting = inr (inr (inr refl))

registration-fails : (ue : Ue) (env : Env) → (execute_registration ue env).0 ≢ Status.success
unfolding execute_registration
registration-fails ue env = elim (State-cases ue.current_state) [
  | inl here ↦ simp (execute_registration, here) (request-fails ue ProcedureType.registration env)
  | inr (inl here) ↦ simp (execute_registration, here) (λ e. cc)
  | inr (inr (inl here)) ↦ simp (execute_registration, here) (λ e. cc)
  | inr (inr (inr here)) ↦ simp (execute_registration, here) (λ e. cc)
]

reestablishment-fails : (ue : Ue) (env : Env) → (execute_reestablishment ue env).0 ≢ Status.success
unfolding execute_reestablishment
reestablishment-fails ue env =
    let failing = request-fails ue ProcedureType.reestablishment env in
    elim (State-cases ue.current_state) [
      | inl here ↦ simp (execute_reestablishment, here) (λ e. cc)
      | inr (inl here) ↦ simp (execute_reestablishment, here) failing
      | inr (inr (inl here)) ↦ simp (execute_reestablishment, here) failing
      | inr (inr (inr here)) ↦ simp (execute_reestablishment, here) failing
    ]

handover_sent-fails :
    (s : Status) (env : Env) (ue : Ue) (p : Procedure)
    → (env.rounds 0).sent ≡ s
    → IsPending p
    → (handover_sent env ue p).0 ≢ Status.success
handover_sent-fails Status.success env ue p sent ok =
    let (failed, open_) = wait-HasFailed p (env.rounds 0).wakes ok in
    simp (handover_sent, sent) (finish-fails ErrorCause.handover_failed env.now _ _ _ failed open_)
handover_sent-fails s env ue p sent ok = simp (handover_sent, sent) (λ e. cc)

handover_started-fails :
    (env : Env) (ue : Ue) (p : Procedure)
    → IsPending p
    → (handover_started env (Status.success, ue, some p)).0 ≢ Status.success
handover_started-fails env ue p ok = elim (Option-cases (best_candidate ue.candidate_gnbs)) [
  | inl absent ↦ simp (handover_started, absent) (λ e. cc)
  | inr (best, found) ↦ elim (Bool-cases env.data_allocated) [
    | inr refused ↦ simp (handover_started, found, refused) (λ e. cc)
    | inl granted ↦
        simp (handover_started, found, granted)
          (handover_sent-fails (env.rounds 0).sent env ue p refl ok)
  ]
]

from_connected :
    (ue : Ue) (env : Env)
    → (if has_candidates ue.candidate_gnbs
        then handover_started env (start_procedure ue ProcedureType.handover env)
        else (Status.not_found, ue)).0
      ≢ Status.success
unfolding start_procedure
from_connected ue env = elim (Bool-cases (has_candidates ue.candidate_gnbs)) [
  | inr empty ↦ simp empty (λ e. cc)
  | inl some_ ↦ elim (Bool-cases env.allocated) [
    | inr refused ↦ simp (start_procedure, some_, refused) (λ e. cc)
    | inl granted ↦ elim (Bool-cases env.ready) [
      | inr broken ↦ simp (start_procedure, some_, granted, broken) (λ e. cc)
      | inl ready ↦
          simp (start_procedure, some_, granted, ready)
            (handover_started-fails env (take_transaction_id ue)
              (started ue ProcedureType.handover env) (refl, refl))
    ]
  ]
]

handover-fails : (ue : Ue) (env : Env) → (execute_handover ue env).0 ≢ Status.success
unfolding execute_handover
handover-fails ue env = elim (State-cases ue.current_state) [
  | inl here ↦ simp (execute_handover, here) (λ e. cc)
  | inr (inl here) ↦ simp (execute_handover, here) (from_connected ue env)
  | inr (inr (inl here)) ↦ simp (execute_handover, here) (λ e. cc)
  | inr (inr (inr here)) ↦ simp (execute_handover, here) (λ e. cc)
]

-- No procedure ever reports success, whatever the network answers and however the waits end: nothing
-- sets the flag `success` of a procedure's context, which only the procedure itself can reach.
pub execute_procedure-fails :
    (ue : Ue) (procedure : ProcedureType) (env : Env)
    → (execute_procedure ue procedure env).0 ≢ Status.success
unfolding execute_procedure
execute_procedure-fails ue ProcedureType.registration env = registration-fails ue env
execute_procedure-fails ue ProcedureType.establishment env = registration-fails ue env
execute_procedure-fails ue ProcedureType.reestablishment env = reestablishment-fails ue env
execute_procedure-fails ue ProcedureType.handover env = handover-fails ue env
