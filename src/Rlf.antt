-- ===== src/Rlf.antt =====
-- src/protocol/rlf_recovery.c: the detection of radio link failures and the recovery from them, on top of
-- the procedures of the Rrc modules. Times are the milliseconds of a `uint32_t`, read once per call.
-- `pthread_mutex_lock` succeeds, except on a mutex that the thread itself holds: that call never returns.
pub mod Timers
pub mod Recovery
pub mod Sync
pub mod Failures
pub mod Thresholds
pub mod Deadlock
mod Tests
use uesim.Common.{
  ℕ, ◌+◌, ◌-◌, ◌%◌, ◌^◌, Bool, true, false, not, ◌&&◌, Option, none, some, ltb, leb, if◌then◌else◌,
  Status,
}
use uesim.Rrc
use uesim.Rrc.{Ue, Gnb, change_state}
use uesim.Rrc.Procedures.{Env, execute_reestablishment}

-- `rlf_state_t`
pub data State : Type 0 where
  normal out_of_sync t310_running in_sync_recovery detected reestablishing recovered failed : State

-- `rlf_cause_t`
pub data Cause : Type 0 where
  no_cause t310_expiry random_access_failure rlc_max_retx handover_failure t304_expiry : Cause
  connection_release physical_layer_error : Cause

-- `rlf_reest_result_t`
pub data ReestResult : Type 0 where
  reest_success t301_expiry t311_expiry cell_reselection released no_suitable_cell : ReestResult
  network_reject : ReestResult

-- `rlf_context_t`, less the backup of identifiers that nothing restores.
pub record Context : Type 0 where
  pub current_state : State
  pub detection_cause : Cause
  pub detection_time : ℕ
  pub out_of_sync_count : ℕ
  pub in_sync_count : ℕ
  pub t310_start_time : ℕ
  pub t311_start_time : ℕ
  pub t301_start_time : ℕ
  pub t310_running : Bool
  pub t311_running : Bool
  pub t301_running : Bool
  pub t310_value_ms : ℕ
  pub t311_value_ms : ℕ
  pub t301_value_ms : ℕ
  pub n310_threshold : ℕ
  pub n311_threshold : ℕ
  pub reest_attempt_count : ℕ
  pub max_reest_attempts : ℕ
  pub last_reest_result : ReestResult
  pub pre_rlf_state : Rrc.State
  pub pre_rlf_pci : ℕ
  pub total_rlf_count : ℕ
  pub successful_recovery_count : ℕ
  pub failed_recovery_count : ℕ
  pub total_out_of_sync_indications : ℕ
  pub total_in_sync_indications : ℕ

-- A UE with the context that its `rrc_meas_ctx` points to.
pub record System : Type 0 where
  pub ue : Ue
  pub rlf : Context

-- What `rlf_create_context` fills in.
abbrev pub fresh_context : Context
fresh_context = record {
  current_state = State.normal;
  detection_cause = Cause.no_cause;
  detection_time = 0;
  out_of_sync_count = 0;
  in_sync_count = 0;
  t310_start_time = 0;
  t311_start_time = 0;
  t301_start_time = 0;
  t310_running = false;
  t311_running = false;
  t301_running = false;
  t310_value_ms = 1000;
  t311_value_ms = 3000;
  t301_value_ms = 1000;
  n310_threshold = 1;
  n311_threshold = 2;
  reest_attempt_count = 0;
  max_reest_attempts = 3;
  last_reest_result = ReestResult.reest_success;
  pre_rlf_state = Rrc.State.idle;
  pre_rlf_pci = 0;
  total_rlf_count = 0;
  successful_recovery_count = 0;
  failed_recovery_count = 0;
  total_out_of_sync_indications = 0;
  total_in_sync_indications = 0;
}

-- `rlf_create_context`, given what the allocator and the two initialisations answer.
unfoldable pub create_context : Bool → Bool → Bool → Status × Option Context
create_context allocated mutex cond =
    if allocated
    then if mutex
      then if cond then (Status.success, some fresh_context) else (Status.thread, none)
      else (Status.thread, none)
    else (Status.memory, none)

-- `rlf_configure`
unfoldable pub configure : Context → ℕ → ℕ → ℕ → ℕ → ℕ → Context
configure rlf t310_ms t311_ms t301_ms n310 n311 = record rlf {
  t310_value_ms = t310_ms;
  t311_value_ms = t311_ms;
  t301_value_ms = t301_ms;
  n310_threshold = n310;
  n311_threshold = n311;
}

-- `rlf_go_to_idle`, and `rlf_trigger_cell_reselection`, which only calls it: the context is reset if the
-- state could be changed.
abbrev pub idle_reached : System → Status × Ue → Status × System
idle_reached s (Status.success, ue) = (
  Status.success,
  record {
    ue = ue;
    rlf = record s.rlf {
      current_state = State.normal;
      out_of_sync_count = 0;
      in_sync_count = 0;
      reest_attempt_count = 0;
    };
  },
)
idle_reached s (status, ue) = (status, record s { ue = ue })

unfoldable pub go_to_idle : System → ℕ → Status × System
go_to_idle s now = idle_reached s (change_state s.ue Rrc.State.idle now)

abbrev pub stop_timers : Context → Context
stop_timers rlf = record rlf { t310_running = false; t311_running = false; t301_running = false }

-- `rlf_abort_recovery`
unfoldable pub abort_recovery : System → ReestResult → ℕ → Status × System
abort_recovery s result now =
    go_to_idle
      (record s {
        rlf = record (stop_timers s.rlf) {
          current_state = State.failed;
          failed_recovery_count = (s.rlf.failed_recovery_count + 1) % 2 ^ 64;
          last_reest_result = result;
        };
      })
      now

-- `rlf_complete_recovery`: the state `recovered` lasts until the lock is given back.
unfoldable pub complete_recovery : System → System
complete_recovery s = record s {
  rlf = record (stop_timers s.rlf) {
    current_state = State.normal;
    successful_recovery_count = (s.rlf.successful_recovery_count + 1) % 2 ^ 64;
    reest_attempt_count = 0;
  };
}

-- `rlf_handle_reestablishment_response`
unfoldable pub handle_reestablishment_response : System → Bool → ℕ → Status × System
handle_reestablishment_response s success now =
    if success
    then (Status.success, complete_recovery s)
    else abort_recovery s ReestResult.network_reject now

-- `rlf_start_t301` and `rlf_start_t311`
abbrev pub start_t301 : Context → ℕ → Context
start_t301 rlf now = record rlf { t301_start_time = now; t301_running = true }

abbrev pub start_t311 : Context → ℕ → Context
start_t311 rlf now = record rlf { t311_start_time = now; t311_running = true }

-- `rlf_start_reestablishment`, whose context is no longer looked at once the procedure runs.
unfoldable pub start_reestablishment : System → Env → ℕ → Status × System
start_reestablishment s env now =
    let rlf : Context =
      start_t301
        (record s.rlf {
          current_state = State.reestablishing;
          reest_attempt_count = (s.rlf.reest_attempt_count + 1) % 2 ^ 8;
        })
        now in
    let (status, ue) = execute_reestablishment s.ue env in (status, record { ue = ue; rlf = rlf })

-- `rlf_initiate_recovery`
unfoldable pub initiate_recovery : System → Env → ℕ → Status × System
initiate_recovery s env now =
    start_reestablishment (record s { rlf = start_t311 s.rlf now }) env now

-- `rlf_declare_failure`, `rlf_detect_failure`, which drops its cause, and `rlf_handle_t310_expiry`.
-- `time(NULL)` is `clock`.
unfoldable pub declare_failure : System → Env → ℕ → ℕ → Status × System
declare_failure s env now clock =
    initiate_recovery
      (record s {
        rlf = record s.rlf {
          t310_running = false;
          current_state = State.detected;
          detection_time = clock;
          detection_cause = Cause.t310_expiry;
          total_rlf_count = (s.rlf.total_rlf_count + 1) % 2 ^ 64;
          pre_rlf_state = s.ue.current_state;
        };
      })
      env now

unfoldable pub detect_failure : System → Cause → Env → ℕ → ℕ → Status × System
detect_failure s cause env now clock = declare_failure s env now clock

abbrev cell_id_or : Option Gnb → ℕ → ℕ
cell_id_or none pci = pci
cell_id_or (some gnb) pci = gnb.cell_id

-- `rlf_backup_state`
unfoldable pub backup_state : System → System
backup_state s = record s {
  rlf = record s.rlf {
    pre_rlf_state = s.ue.current_state;
    pre_rlf_pci = cell_id_or s.ue.serving_gnb s.rlf.pre_rlf_pci;
  };
}

-- `rlf_restore_state`
unfoldable pub restore_state : System → ℕ → Status × System
restore_state s now =
    let (status, ue) = change_state s.ue s.rlf.pre_rlf_state now in (status, record s { ue = ue })

-- `rlf_reset_stats`
unfoldable pub reset_stats : Context → Context
reset_stats rlf = record rlf {
  total_rlf_count = 0;
  successful_recovery_count = 0;
  failed_recovery_count = 0;
  total_out_of_sync_indications = 0;
  total_in_sync_indications = 0;
}
