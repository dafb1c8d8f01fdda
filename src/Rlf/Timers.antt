-- ===== src/Rlf/Timers.antt =====
-- The timers of src/protocol/rlf_recovery.c.
use uesim.Common.{ℕ, ◌+◌, ◌-◌, ◌%◌, ◌^◌, Bool, false, not, ◌&&◌, ltb, leb, if◌then◌else◌, Status}
use uesim.Rrc.Procedures.{Env}
use uesim.Rlf.{ReestResult, Context, System, start_reestablishment, abort_recovery, declare_failure}

-- `rlf_handle_t311_expiry`
unfoldable pub handle_t311_expiry : System → ℕ → Status × System
handle_t311_expiry s now = abort_recovery s ReestResult.t311_expiry now

-- `rlf_handle_t301_expiry`
unfoldable pub handle_t301_expiry : System → Env → ℕ → Status × System
handle_t301_expiry s env now =
    if ltb s.rlf.reest_attempt_count s.rlf.max_reest_attempts
    then start_reestablishment s env now
    else abort_recovery s ReestResult.t301_expiry now

-- `current_time - start_time`, on 32 bits.
abbrev pub elapsed : ℕ → ℕ → ℕ
elapsed now start = (now + 2 ^ 32 - start) % 2 ^ 32

abbrev pub is_over : Bool → ℕ → ℕ → ℕ → Bool
is_over running now start value = running && leb value (elapsed now start)

abbrev pub t310_over : Context → ℕ → Bool
t310_over rlf now = is_over rlf.t310_running now rlf.t310_start_time rlf.t310_value_ms

abbrev pub t311_over : Context → ℕ → Bool
t311_over rlf now = is_over rlf.t311_running now rlf.t311_start_time rlf.t311_value_ms

abbrev pub t301_over : Context → ℕ → Bool
t301_over rlf now = is_over rlf.t301_running now rlf.t301_start_time rlf.t301_value_ms

-- The default case of the switch on what expired: T311 if it is not running but was started once, else
-- T301 likewise.
abbrev pub expired : System → Env → ℕ → Status × System
expired s env now =
    if ltb 0 s.rlf.t311_start_time && not s.rlf.t311_running
    then handle_t311_expiry s now
    else if ltb 0 s.rlf.t301_start_time && not s.rlf.t301_running
    then handle_t301_expiry s env now
    else (Status.success, s)

-- `rlf_check_timers`: one timer at most is handled per call.
unfoldable pub check_timers : System → Env → ℕ → ℕ → Status × System
check_timers s env now clock =
    if t310_over s.rlf now
    then declare_failure (record s { rlf = record s.rlf { t310_running = false } }) env now clock
    else if t311_over s.rlf now
    then expired (record s { rlf = record s.rlf { t311_running = false } }) env now
    else if t301_over s.rlf now
    then expired (record s { rlf = record s.rlf { t301_running = false } }) env now
    else (Status.success, s)
