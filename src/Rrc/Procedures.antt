-- ===== src/Rrc/Procedures.antt =====
-- The procedures of src/protocol/rrc.c. While one waits on its condition variable, the thread that reads
-- the socket handles the messages that come in; a procedure's context is on no list, so nobody else
-- changes it. The random identities in a request and the pauses between attempts are left out.
use uesim.Common.{
  ℕ, zero, suc, ◌+◌, List, [], ◌∷◌, Bool, true, false, Option, none, some, ltb, if◌then◌else◌,
  Status,
}
use uesim.Common.Int8.{ℤ, pos, negsuc}
use uesim.Rrc.{
  State, Gnb, Ue, Response, Answers, change_state, take_transaction_id, handle_procedure_response,
  fallback_to_idle,
}

-- `rrc_procedure_t`
pub data ProcedureType : Type 0 where
  registration establishment reestablishment handover : ProcedureType

-- `rrc_proc_status_t`, and the part of `rrc_error_cause_t` that the procedures use.
pub data ProcStatus : Type 0 where
  ongoing succeeded timed_out failed retrying : ProcStatus

pub data ErrorCause : Type 0 where
  success timeout max_retries network_failure radio_link_failure handover_failed : ErrorCause

-- `rrc_procedure_context_t`
pub record Procedure : Type 0 where
  pub procedure_type : ProcedureType
  pub transaction_id : ℕ
  pub start_time : ℕ
  pub retry_count : ℕ
  pub timeout_ms : ℕ
  pub status : ProcStatus
  pub error_cause : ErrorCause
  pub completed : Bool
  pub success : Bool

-- How one call of `pthread_cond_timedwait` ends.
pub data Wake : Type 0 where
  signalled expired broken : Wake

-- One attempt: what sending the request answers, the messages handled while the procedure waits, and how
-- the waits end.
pub record Round : Type 0 where
  pub sent : Status
  pub incoming : List (Response × Answers)
  pub wakes : List Wake

-- What one execution of a procedure meets.
pub record Env : Type 0 where
  pub allocated : Bool
  pub ready : Bool
  pub data_allocated : Bool
  pub now : ℕ
  pub rounds : ℕ → Round

-- `rrc_get_procedure_timeout`
abbrev get_procedure_timeout : ProcedureType → ℕ
get_procedure_timeout ProcedureType.handover = 2000
get_procedure_timeout procedure = 1000

-- The context that `rrc_start_procedure` fills in.
abbrev pub started : Ue → ProcedureType → Env → Procedure
started ue procedure env = record {
  procedure_type = procedure;
  transaction_id = ue.transaction_id_counter;
  start_time = env.now;
  retry_count = 0;
  timeout_ms = get_procedure_timeout procedure;
  status = ProcStatus.ongoing;
  error_cause = ErrorCause.success;
  completed = false;
  success = false;
}

-- `rrc_start_procedure`
unfoldable pub start_procedure : Ue → ProcedureType → Env → Status × Ue × Option Procedure
start_procedure ue procedure env =
    if env.allocated
    then if env.ready
      then (Status.success, take_transaction_id ue, some (started ue procedure env))
      else (Status.thread, take_transaction_id ue, none)
    else (Status.memory, ue, none)

abbrev pub expire : Procedure → Procedure
expire p = record p { status = ProcStatus.timed_out; error_cause = ErrorCause.timeout }

-- `rrc_wait_procedure_complete`: the loop ends at the latest when the time is over.
unfoldable pub wait_procedure_complete : Procedure → List Wake → Status × Procedure
wait_procedure_complete p [] =
    if p.completed then (Status.success, p) else (Status.timeout, expire p)
wait_procedure_complete p (Wake.signalled ∷ wakes) =
    let rest = wait_procedure_complete p wakes in if p.completed then (Status.success, p) else rest
wait_procedure_complete p (Wake.expired ∷ wakes) =
    if p.completed then (Status.success, p) else (Status.timeout, expire p)
wait_procedure_complete p (Wake.broken ∷ wakes) =
    if p.completed then (Status.success, p) else (Status.thread, p)

-- The messages that come in one after the other, their statuses dropped.
unfoldable pub handle_all : Ue → List (Response × Answers) → Ue
handle_all ue [] = ue
handle_all ue ((response, a) ∷ rest) = handle_all (handle_procedure_response ue response a).1 rest

abbrev pub waited : Status → Procedure → List Wake → Status × Procedure
waited Status.success p wakes = wait_procedure_complete p wakes
waited status p wakes = (status, p)

-- `result == UESIM_SUCCESS && atomic_load(&proc_ctx->success)`
abbrev pub is_done : Status → Procedure → Bool
is_done Status.success p = p.success
is_done status p = false

-- The loop that sends a request and waits, for the attempts that are left.
unfoldable pub request_loop :
    ℕ → ℕ → (ℕ → Round) → Status → Ue → Procedure → Status × Ue × Procedure
request_loop zero retry rounds last ue p = (last, ue, p)
request_loop (suc left) retry rounds last ue p =
    let round = rounds retry in
    let (result, p') = waited round.sent (record p { retry_count = retry }) round.wakes in
    let ue' = handle_all ue round.incoming in
    let rest = request_loop left (retry + 1) rounds result ue' p' in
    if is_done result p' then (result, ue', p') else rest

abbrev is_critical : ErrorCause → Bool
is_critical ErrorCause.max_retries = true
is_critical ErrorCause.radio_link_failure = true
is_critical cause = false

-- `rrc_handle_procedure_failure`
unfoldable pub handle_procedure_failure : Ue → Procedure → ErrorCause → ℕ → Status × Ue × Procedure
handle_procedure_failure ue p cause now =
    let p' : Procedure = record p {
      status = ProcStatus.failed;
      error_cause = cause;
      completed = true;
      success = false;
    } in
    if is_critical cause
    then ((fallback_to_idle ue now).0, (fallback_to_idle ue now).1, p')
    else (Status.success, ue, p')

abbrev pub cause_of : Status → ErrorCause → ErrorCause
cause_of Status.timeout otherwise = ErrorCause.timeout
cause_of status otherwise = otherwise

-- The end of a procedure: its failure is handled, and its last result returned.
abbrev pub finish : ErrorCause → ℕ → Status × Ue × Procedure → Status × Ue
finish otherwise now (result, ue, p) =
    if is_done result p
    then (Status.success, ue)
    else (result, (handle_procedure_failure ue p (cause_of result otherwise) now).1)

abbrev pub request_sent : Env → Procedure → Status × Ue → Status × Ue
request_sent env p (Status.success, ue) =
    if env.data_allocated
    then finish ErrorCause.max_retries env.now (request_loop 4 0 env.rounds Status.protocol ue p)
    else (Status.memory, ue)
request_sent env p (status, ue) = (status, ue)

abbrev pub request_started : Env → Status × Ue × Option Procedure → Status × Ue
request_started env (Status.success, ue, some p) =
    request_sent env p (change_state ue State.connecting env.now)
request_started env (status, ue, p) = (status, ue)

-- `rrc_execute_registration`, and `rrc_execute_establishment`, which is the same.
unfoldable pub execute_registration : Ue → Env → Status × Ue
execute_registration ue env = elim ue.current_state [
  | State.idle ↦ request_started env (start_procedure ue ProcedureType.registration env)
  | _ ↦ (Status.protocol, ue)
]

-- `rrc_execute_reestablishment`
unfoldable pub execute_reestablishment : Ue → Env → Status × Ue
execute_reestablishment ue env = elim ue.current_state [
  | State.idle ↦ (Status.protocol, ue)
  | _ ↦ request_started env (start_procedure ue ProcedureType.reestablishment env)
]

abbrev pub less : ℤ → ℤ → Bool
less (pos a) (pos b) = ltb a b
less (pos a) (negsuc b) = false
less (negsuc a) (pos b) = true
less (negsuc a) (negsuc b) = ltb b a

-- The loop over the candidates: the best one so far, and its RSRP or -140.
unfoldable pub best_loop : List Gnb → Option Gnb → ℤ → Option Gnb × ℤ
best_loop [] best rsrp = (best, rsrp)
best_loop (candidate ∷ rest) best rsrp =
    let kept = best_loop rest best rsrp in
    let changed = best_loop rest (some candidate) candidate.rsrp in
    if less rsrp candidate.rsrp then changed else kept

-- The candidate that `rrc_execute_handover` selects.
unfoldable pub best_candidate : List Gnb → Option Gnb
best_candidate candidates = (best_loop candidates none (negsuc 139)).0

abbrev pub handover_sent : Env → Ue → Procedure → Status × Ue
handover_sent env ue p =
    let round = env.rounds 0 in
    let ue' = handle_all ue round.incoming in
    elim round.sent [
      | Status.success ↦
          let (result, p') = wait_procedure_complete p round.wakes in
          finish ErrorCause.handover_failed env.now (result, ue', p')
      | status ↦ (status, ue')
    ]

abbrev pub handover_started : Env → Status × Ue × Option Procedure → Status × Ue
handover_started env (Status.success, ue, some p) = elim (best_candidate ue.candidate_gnbs) [
  | none ↦ (Status.not_found, ue)
  | some best ↦ if env.data_allocated then handover_sent env ue p else (Status.memory, ue)
]
handover_started env (status, ue, p) = (status, ue)

abbrev pub has_candidates : List Gnb → Bool
has_candidates [] = false
has_candidates (gnb ∷ rest) = true

-- `rrc_execute_handover`
unfoldable pub execute_handover : Ue → Env → Status × Ue
execute_handover ue env = elim ue.current_state [
  | State.connected ↦
      if has_candidates ue.candidate_gnbs
      then handover_started env (start_procedure ue ProcedureType.handover env)
      else (Status.not_found, ue)
  | _ ↦ (Status.protocol, ue)
]

-- `rrc_execute_procedure`
unfoldable pub execute_procedure : Ue → ProcedureType → Env → Status × Ue
execute_procedure ue ProcedureType.registration env = execute_registration ue env
execute_procedure ue ProcedureType.establishment env = execute_registration ue env
execute_procedure ue ProcedureType.reestablishment env = execute_reestablishment ue env
execute_procedure ue ProcedureType.handover env = execute_handover ue env

-- `rrc_execute_measurement_report`, given what the allocator and the transport answer.
unfoldable pub execute_measurement_report : Ue → Bool → Status → Status × Ue
execute_measurement_report ue allocated sent = elim ue.current_state [
  | State.connected ↦ (if allocated then sent else Status.memory, take_transaction_id ue)
  | _ ↦ (Status.protocol, ue)
]

-- `rrc_execute_reconfiguration`
unfoldable pub execute_reconfiguration : Ue → Status
execute_reconfiguration ue = elim ue.current_state [
  | State.connected ↦ Status.success
  | _ ↦ Status.protocol
]
