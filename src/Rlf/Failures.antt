-- ===== src/Rlf/Failures.antt =====
-- The failures that a look at the timers of src/protocol/rlf_recovery.c counts.
use uesim.Common.{
  ℕ, ◌+◌, ◌%◌, ◌^◌, ◌≤◌, ◌≡◌, refl, Bool, true, false, not, ◌&&◌, ltb, le→leb, if◌then◌else◌,
  Status,
}
use uesim.Rrc
use uesim.Rrc.{Ue, change_state}
use uesim.Rrc.Procedures.{Env}
use uesim.Rlf.{
  State, ReestResult, Context, System, stop_timers, go_to_idle, idle_reached, abort_recovery,
  start_reestablishment, initiate_recovery, declare_failure,
}
use uesim.Rlf.Timers.{
  elapsed, t310_over, t311_over, t301_over, expired, handle_t311_expiry, handle_t301_expiry,
  check_timers,
}

-- The same number of failures after a call.
abbrev Counts : ℕ → Status × System → Type 0
Counts failures (status, s) = s.rlf.total_rlf_count ≡ failures

idle-Counts : (s : System) (r : Status × Ue) → Counts s.rlf.total_rlf_count (idle_reached s r)
idle-Counts s (Status.success, ue) = refl
idle-Counts s (status, ue) = refl

abort-Counts :
    (s : System) (result : ReestResult) (now : ℕ)
    → Counts s.rlf.total_rlf_count (abort_recovery s result now)
unfolding abort_recovery go_to_idle
abort-Counts s result now =
    let failed : System = record s {
      rlf = record (stop_timers s.rlf) {
        current_state = State.failed;
        failed_recovery_count = (s.rlf.failed_recovery_count + 1) % 2 ^ 64;
        last_reest_result = result;
      };
    } in
    idle-Counts failed (change_state s.ue Rrc.State.idle now)

choose-Counts :
    (failures : ℕ) (b : Bool) (x y : Status × System)
    → Counts failures x
    → Counts failures y
    → Counts failures (if b then x else y)
choose-Counts failures true x y first second = first
choose-Counts failures false x y first second = second

expired-Counts :
    (s : System) (env : Env) (now : ℕ) → Counts s.rlf.total_rlf_count (expired s env now)
unfolding handle_t311_expiry handle_t301_expiry start_reestablishment
expired-Counts s env now =
    let n = s.rlf.total_rlf_count in
    let t301 = ltb 0 s.rlf.t301_start_time && not s.rlf.t301_running in
    choose-Counts n (ltb 0 s.rlf.t311_start_time && not s.rlf.t311_running)
      (handle_t311_expiry s now)
      (if t301 then handle_t301_expiry s env now else (Status.success, s))
      (abort-Counts s ReestResult.t311_expiry now)
      (choose-Counts n t301 (handle_t301_expiry s env now) (Status.success, s)
        (choose-Counts n (ltb s.rlf.reest_attempt_count s.rlf.max_reest_attempts)
          (start_reestablishment s env now) (abort_recovery s ReestResult.t301_expiry now) refl
          (abort-Counts s ReestResult.t301_expiry now))
        refl)

-- Without T310, a look at the timers counts no failure.
pub check-no_failure :
    (s : System) (env : Env) (now clock : ℕ)
    → s.rlf.t310_running ≡ false
    → (check_timers s env now clock).1.rlf.total_rlf_count ≡ s.rlf.total_rlf_count
unfolding check_timers
check-no_failure s env now clock off =
    let t310 : t310_over s.rlf now ≡ false = rw off refl in
    let without_t301 : System = record s { rlf = record s.rlf { t301_running = false } } in
    let without_t311 : System = record s { rlf = record s.rlf { t311_running = false } } in
    let n = s.rlf.total_rlf_count in
    rw t310 (
      choose-Counts n (t311_over s.rlf now) (expired without_t311 env now)
        (if t301_over s.rlf now then expired without_t301 env now else (Status.success, s))
        (expired-Counts without_t311 env now)
        (choose-Counts n (t301_over s.rlf now) (expired without_t301 env now) (Status.success, s)
          (expired-Counts without_t301 env now) refl))

-- With T310 over, it counts one.
pub check-failure :
    (first : Context) (s : System) (env : Env) (now clock : ℕ)
    → s.rlf.t310_running ≡ true
    → s.rlf.t310_start_time ≡ first.t310_start_time
    → s.rlf.t310_value_ms ≡ first.t310_value_ms
    → first.t310_value_ms ≤ elapsed now first.t310_start_time
    → (check_timers s env now clock).1.rlf.total_rlf_count ≡ (s.rlf.total_rlf_count + 1) % 2 ^ 64
unfolding check_timers declare_failure initiate_recovery start_reestablishment
check-failure first s env now clock on start value over =
    let expires : t310_over s.rlf now ≡ true =
      rw (on, start, value, le→leb first.t310_value_ms (elapsed now first.t310_start_time) over)
        refl in
    rw expires refl
