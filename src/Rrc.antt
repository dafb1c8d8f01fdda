-- ===== src/Rrc.antt =====
-- src/protocol/rrc.c: the connection states of a UE, the handlers of the network's messages, and the
-- procedures that the UE starts. What the transport answers to a message, what the allocator and
-- `pthread_mutex_init` answer and what the clock reads are arguments; so is the status of
-- `uesim_connect_gnb`, which opens sockets. `pthread_mutex_lock` on an initialised mutex succeeds. Of a
-- message only the fields that a handler reads are kept, and closing the sockets of a gNB is left out.
pub mod Procedures
pub mod Keeps
pub mod Execution
pub mod Runs
pub mod Completion
pub mod Refusals
pub mod Attempts
pub mod Handover
mod Tests
use uesim.Common.{
  ℕ, ◌+◌, ◌%◌, ◌^◌, List, [], ◌∷◌, ◌++◌, Bool, true, false, Option, none, some, ltb, ◌==◌,
  if◌then◌else◌, length, Status, find_first, remove_first,
}
use uesim.Common.Int8.{ℤ}

-- `rrc_state_t`
pub data State : Type 0 where
  idle connected inactive connecting : State

-- `gnb_context_t`, the fields that the procedures read.
pub record Gnb : Type 0 where
  pub gnb_id : ℕ
  pub cell_id : ℕ
  pub rsrp : ℤ
  pub rsrq : ℤ

-- `ue_context_t`, its fields for this layer, with the counter `g_transaction_id_counter`.
pub record Ue : Type 0 where
  pub current_state : State
  pub state_change_time : ℕ
  pub serving_gnb : Option Gnb
  pub candidate_gnbs : List Gnb
  pub transaction_id_counter : ℕ

-- `g_valid_state_transitions` and `rrc_is_valid_state_transition`
abbrev pub is_valid_state_transition : State → State → Bool
is_valid_state_transition State.idle State.connected = true
is_valid_state_transition State.idle State.connecting = true
is_valid_state_transition State.connected State.idle = true
is_valid_state_transition State.connected State.inactive = true
is_valid_state_transition State.inactive State.idle = true
is_valid_state_transition State.inactive State.connected = true
is_valid_state_transition State.inactive State.connecting = true
is_valid_state_transition State.connecting State.idle = true
is_valid_state_transition State.connecting State.connected = true
is_valid_state_transition from to = false

-- `rrc_change_state`
unfoldable pub change_state : Ue → State → ℕ → Status × Ue
change_state ue new_state now =
    if is_valid_state_transition ue.current_state new_state
    then (Status.success, record ue { current_state = new_state; state_change_time = now })
    else (Status.protocol, ue)

-- The messages that `rrc_handle_procedure_response` tells apart, each with its data where the handler
-- asks for some: the transaction's identifier, or the target cell of a handover.
pub data Response : Type 0 where
  setup reestablishment reconfiguration handover_command : Option ℕ → Response
  ue_capability_enquiry connection_release other : Response

-- What the environment answers while a message is handled.
pub record Answers : Type 0 where
  pub allocated : Bool
  pub sent : Status
  pub gnb_connected : Status
  pub now : ℕ

-- `result = ...; if (result != UESIM_SUCCESS) return result;`
abbrev pub on_success : Status × Ue → (Ue → Status × Ue) → Status × Ue
on_success (Status.success, ue) next = next ue
on_success (status, ue) next = (status, ue)

-- `atomic_fetch_add(&g_transaction_id_counter, 1)`
abbrev pub take_transaction_id : Ue → Ue
take_transaction_id ue = record ue {
  transaction_id_counter = (ue.transaction_id_counter + 1) % 2 ^ 32;
}

-- `rrc_send_setup_complete`
abbrev pub send_setup_complete : Ue → Answers → Status × Ue
send_setup_complete ue a = (if a.allocated then a.sent else Status.memory, take_transaction_id ue)

-- `rrc_send_reest_complete`
abbrev pub send_reest_complete : Ue → Answers → Status × Ue
send_reest_complete ue a = (a.sent, take_transaction_id ue)

-- `rrc_send_reconfig_complete`
abbrev pub send_reconfig_complete : Ue → Answers → Status × Ue
send_reconfig_complete ue a = (a.sent, take_transaction_id ue)

-- `rrc_send_handover_confirm`
abbrev pub send_handover_confirm : Ue → Answers → Status × Ue
send_handover_confirm ue a = (a.sent, take_transaction_id ue)

-- `rrc_send_capability_info`
abbrev pub send_capability_info : Ue → Answers → Status × Ue
send_capability_info ue a = (if a.allocated then a.sent else Status.memory, take_transaction_id ue)

-- `rrc_handle_setup_response`
abbrev pub handle_setup_response : Ue → Option ℕ → Answers → Status × Ue
handle_setup_response ue none a = (Status.protocol, ue)
handle_setup_response ue (some id) a =
    on_success (send_setup_complete ue a) (λ ue'. change_state ue' State.connected a.now)

-- `rrc_handle_reestablishment_response`
abbrev pub handle_reestablishment_response : Ue → Option ℕ → Answers → Status × Ue
handle_reestablishment_response ue none a = (Status.protocol, ue)
handle_reestablishment_response ue (some id) a =
    on_success (send_reest_complete ue a) (λ ue'. change_state ue' State.connected a.now)

-- `rrc_handle_reconfiguration_response`
abbrev pub handle_reconfiguration_response : Ue → Option ℕ → Answers → Status × Ue
handle_reconfiguration_response ue none a = (Status.protocol, ue)
handle_reconfiguration_response ue (some id) a = send_reconfig_complete ue a

abbrev pub has_cell : ℕ → Gnb → Bool
has_cell pci gnb = gnb.cell_id == pci

-- `MAX_GNB_CANDIDATES`
abbrev pub max_gnb_candidates : ℕ
max_gnb_candidates = 8

-- The candidates with the old serving gNB behind them, where there is room.
abbrev pub with_old_serving : Option Gnb → List Gnb → List Gnb
with_old_serving none candidates = candidates
with_old_serving (some old) candidates =
    if ltb (length candidates) max_gnb_candidates then candidates ++ old ∷ [] else candidates

-- `uesim_switch_serving_gnb` of src/core/uesim_core.c, to the candidate that the search by `pci` found.
abbrev pub switch_serving_gnb : Ue → ℕ → Gnb → Status × Ue
switch_serving_gnb ue pci target = (
  Status.success,
  record ue {
    serving_gnb = some target;
    candidate_gnbs =
        remove_first (has_cell pci) (with_old_serving ue.serving_gnb ue.candidate_gnbs);
  },
)

-- `rrc_handle_handover_command`
abbrev pub handle_handover_command : Ue → Option ℕ → Answers → Status × Ue
handle_handover_command ue none a = (Status.protocol, ue)
handle_handover_command ue (some pci) a = elim (find_first (has_cell pci) ue.candidate_gnbs) [
  | none ↦ (Status.not_found, ue)
  | some target ↦
      on_success (a.gnb_connected, ue)
        (λ ue'.
          on_success (send_handover_confirm ue' a) (λ ue''. switch_serving_gnb ue'' pci target))
]

-- `rrc_handle_connection_release`
abbrev pub handle_connection_release : Ue → Answers → Status × Ue
handle_connection_release ue a = change_state ue State.idle a.now

-- `rrc_handle_procedure_response`
unfoldable pub handle_procedure_response : Ue → Response → Answers → Status × Ue
handle_procedure_response ue (Response.setup id) a = handle_setup_response ue id a
handle_procedure_response ue (Response.reestablishment id) a =
    handle_reestablishment_response ue id a
handle_procedure_response ue (Response.reconfiguration id) a =
    handle_reconfiguration_response ue id a
handle_procedure_response ue (Response.handover_command pci) a = handle_handover_command ue pci a
handle_procedure_response ue Response.ue_capability_enquiry a = send_capability_info ue a
handle_procedure_response ue Response.connection_release a = handle_connection_release ue a
handle_procedure_response ue Response.other a = (Status.protocol, ue)

-- `rrc_fallback_to_idle`
abbrev pub fallback_to_idle : Ue → ℕ → Status × Ue
fallback_to_idle ue now = change_state ue State.idle now
