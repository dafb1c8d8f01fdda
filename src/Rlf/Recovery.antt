-- ===== src/Rlf/Recovery.antt =====
-- How the recovery of src/protocol/rlf_recovery.c ends for a connected UE.
use uesim.Common.{
  ℕ, ◌≤◌, ◌<◌, ◌≡◌, ◌≢◌, refl, ◌∙◌, arith, List, [], ◌∷◌, Bool, true, false, not, ◌&&◌, ltb, lt→ltb,
  le→leb, if◌then◌else◌, Bool-cases, ◌⊎◌, inl, inr, Status,
}
use uesim.Rrc
use uesim.Rrc.{Ue, change_state}
use uesim.Rrc.Procedures.{Env}
use uesim.Rrc.Refusals.{execute_reestablishment-IsRefused}
use uesim.Rlf.{
  State, ReestResult, System, go_to_idle, abort_recovery, start_reestablishment, initiate_recovery,
  declare_failure,
}
use uesim.Rlf.Timers.{
  handle_t311_expiry, handle_t301_expiry, elapsed, t310_over, t311_over, t301_over, expired,
  check_timers,
}

-- Still connected, with T311 running since a given time.
pub record IsRecovering (since value : ℕ) (s : System) : Type 0 where
  pub connected : s.ue.current_state ≡ Rrc.State.connected
  pub t310_off : s.rlf.t310_running ≡ false
  pub t311_on : s.rlf.t311_running ≡ true
  pub t311_since : s.rlf.t311_start_time ≡ since
  pub t311_value : s.rlf.t311_value_ms ≡ value

-- Idle, ready for a new registration, with no timer left running.
pub record IsOver (s : System) : Type 0 where
  pub idle : s.ue.current_state ≡ Rrc.State.idle
  pub normal : s.rlf.current_state ≡ State.normal
  pub t310_off : s.rlf.t310_running ≡ false
  pub t311_off : s.rlf.t311_running ≡ false
  pub t301_off : s.rlf.t301_running ≡ false

abort-IsOver :
    (s : System) (result : ReestResult) (now : ℕ)
    → s.ue.current_state ≡ Rrc.State.connected
    → IsOver (abort_recovery s result now).1
unfolding abort_recovery go_to_idle change_state
abort-IsOver s result now here =
    simp (change_state, here)
      (record { idle = refl; normal = refl; t310_off = refl; t311_off = refl; t301_off = refl })

connected-awake : {s : Rrc.State} → s ≡ Rrc.State.connected → s ≢ Rrc.State.inactive
connected-awake here e = cc

restart-IsRecovering :
    (since value : ℕ) (s : System) (env : Env) (now : ℕ)
    → IsRecovering since value s
    → IsRecovering since value (start_reestablishment s env now).1
unfolding start_reestablishment
restart-IsRecovering since value s env now ok =
    let refused =
      execute_reestablishment-IsRefused s.ue env env.rounds (connected-awake ok.connected) in
    record {
      connected = refused.0.1 ∙ ok.connected;
      t310_off = ok.t310_off;
      t311_on = ok.t311_on;
      t311_since = ok.t311_since;
      t311_value = ok.t311_value;
    }

abbrev Goes : ℕ → ℕ → System → Type 0
Goes since value s = IsRecovering since value s ⊎ IsOver s

t301-Goes :
    (since value : ℕ) (s : System) (env : Env) (now : ℕ)
    → IsRecovering since value s
    → Goes since value (handle_t301_expiry s env now).1
unfolding handle_t301_expiry
t301-Goes since value s env now ok =
    elim (Bool-cases (ltb s.rlf.reest_attempt_count s.rlf.max_reest_attempts)) [
      | inl again ↦
          simp (handle_t301_expiry, again) (inl (restart-IsRecovering since value s env now ok))
      | inr enough ↦
          simp (handle_t301_expiry, enough)
            (inr (abort-IsOver s ReestResult.t301_expiry now ok.connected))
    ]

choose-Goes :
    (since value : ℕ) (b : Bool) (x y : Status × System)
    → Goes since value x.1
    → Goes since value y.1
    → Goes since value (if b then x else y).1
choose-Goes since value true x y first second = first
choose-Goes since value false x y first second = second

-- Whatever branch is taken after T301 expired while T311 runs.
t301_expired-Goes :
    (since value : ℕ) (s : System) (env : Env) (now : ℕ)
    → IsRecovering since value s
    → Goes since value (expired s env now).1
unfolding handle_t311_expiry
t301_expired-Goes since value s env now ok =
    let t301 = ltb 0 s.rlf.t301_start_time && not s.rlf.t301_running in
    choose-Goes since value (ltb 0 s.rlf.t311_start_time && not s.rlf.t311_running)
      (handle_t311_expiry s now)
      (if t301 then handle_t301_expiry s env now else (Status.success, s))
      (inr (abort-IsOver s ReestResult.t311_expiry now ok.connected))
      (choose-Goes since value t301 (handle_t301_expiry s env now) (Status.success, s)
        (t301-Goes since value s env now ok) (inl ok))

-- T311, once it expired, ends the recovery.
t311_expired-IsOver :
    (since value : ℕ) (s : System) (env : Env) (now : ℕ)
    → 0 < since
    → IsRecovering since value s
    → IsOver (expired (record s { rlf = record s.rlf { t311_running = false } }) env now).1
unfolding handle_t311_expiry
t311_expired-IsOver since value s env now later ok =
    let begun : ltb 0 s.rlf.t311_start_time ≡ true =
      lt→ltb 0 s.rlf.t311_start_time (omega (arith, ok.t311_since)) in
    rw begun (
      abort-IsOver (record s { rlf = record s.rlf { t311_running = false } })
        ReestResult.t311_expiry now ok.connected)

t301_off-IsRecovering :
    (since value : ℕ) (s : System)
    → IsRecovering since value s
    → IsRecovering since value (record s { rlf = record s.rlf { t301_running = false } })
t301_off-IsRecovering since value s ok = record {
  connected = ok.connected;
  t310_off = ok.t310_off;
  t311_on = ok.t311_on;
  t311_since = ok.t311_since;
  t311_value = ok.t311_value;
}

check-Goes :
    (since value : ℕ) (s : System) (env : Env) (now clock : ℕ)
    → 0 < since
    → IsRecovering since value s
    → Goes since value (check_timers s env now clock).1
unfolding check_timers
check-Goes since value s env now clock later ok =
    let t310 : t310_over s.rlf now ≡ false = rw ok.t310_off refl in
    let without_t301 : System = record s { rlf = record s.rlf { t301_running = false } } in
    let without_t311 : System = record s { rlf = record s.rlf { t311_running = false } } in
    rw t310 (
      choose-Goes since value (t311_over s.rlf now) (expired without_t311 env now)
        (if t301_over s.rlf now then expired without_t301 env now else (Status.success, s))
        (inr (t311_expired-IsOver since value s env now later ok))
        (choose-Goes since value (t301_over s.rlf now) (expired without_t301 env now)
          (Status.success, s)
          (t301_expired-Goes since value without_t301 env now
            (t301_off-IsRecovering since value s ok))
          (inl ok)))

-- At the latest when T311 is over.
check-IsOver :
    (since value : ℕ) (s : System) (env : Env) (now clock : ℕ)
    → 0 < since
    → value ≤ elapsed now since
    → IsRecovering since value s
    → IsOver (check_timers s env now clock).1
unfolding check_timers
check-IsOver since value s env now clock later reached ok =
    let t310 : t310_over s.rlf now ≡ false = rw ok.t310_off refl in
    let t311 : t311_over s.rlf now ≡ true =
      rw (ok.t311_on, ok.t311_since, ok.t311_value, le→leb value (elapsed now since) reached)
        refl in
    rw (t310, t311) (t311_expired-IsOver since value s env now later ok)

check-stays :
    (s : System) (env : Env) (now clock : ℕ) → IsOver s → IsOver (check_timers s env now clock).1
unfolding check_timers
check-stays s env now clock over =
    let t310 : t310_over s.rlf now ≡ false = rw over.t310_off refl in
    let t311 : t311_over s.rlf now ≡ false = rw over.t311_off refl in
    let t301 : t301_over s.rlf now ≡ false = rw over.t301_off refl in rw (t310, t311, t301) over

-- A look at the timers: what the procedures meet, the milliseconds and the clock.
pub record Tick : Type 0 where
  pub env : Env
  pub now : ℕ
  pub clock : ℕ

unfoldable pub check_all : System → List Tick → System
check_all s [] = s
check_all s (t ∷ ts) = check_all (check_timers s t.env t.now t.clock).1 ts

check_all-IsOver : (s : System) (ts : List Tick) → IsOver s → IsOver (check_all s ts)
unfolding check_all
check_all-IsOver s [] over = over
check_all-IsOver s (t ∷ ts) over =
    check_all-IsOver (check_timers s t.env t.now t.clock).1 ts
      (check-stays s t.env t.now t.clock over)

all-Goes :
    (since value : ℕ) (s : System) (ts : List Tick)
    → 0 < since
    → IsRecovering since value s
    → Goes since value (check_all s ts)
unfolding check_all
all-Goes since value s [] later ok = inl ok
all-Goes since value s (t ∷ ts) later ok =
    elim (check-Goes since value s t.env t.now t.clock later ok) [
      | inl ok' ↦ all-Goes since value (check_timers s t.env t.now t.clock).1 ts later ok'
      | inr over ↦ inr (check_all-IsOver (check_timers s t.env t.now t.clock).1 ts over)
    ]

declare-IsRecovering :
    (s : System) (env : Env) (now clock : ℕ)
    → s.ue.current_state ≡ Rrc.State.connected
    → IsRecovering now s.rlf.t311_value_ms (declare_failure s env now clock).1
unfolding declare_failure initiate_recovery
declare-IsRecovering s env now clock here =
    restart-IsRecovering now s.rlf.t311_value_ms _ env now (record {
      connected = here;
      t310_off = refl;
      t311_on = refl;
      t311_since = refl;
      t311_value = refl;
    })

-- A radio link failure of a connected UE, declared at a time other than 0, is always over in the end:
-- however often and whenever the timers are looked at in between, whatever the network does in the
-- re-establishments, a look once T311's time has passed leaves the UE idle, the context in its normal
-- state, and no timer running.
pub declare_failure-ends :
    (s : System) (env : Env) (now clock : ℕ) (ts : List Tick) (last : Tick)
    → s.ue.current_state ≡ Rrc.State.connected
    → 0 < now
    → s.rlf.t311_value_ms ≤ elapsed last.now now
    → IsOver
        (check_timers
          (check_all (declare_failure s env now clock).1 ts)
          last.env
          last.now
          last.clock).1
declare_failure-ends s env now clock ts last here later reached =
    let start = (declare_failure s env now clock).1 in
    let begun = declare-IsRecovering s env now clock here in
    elim (all-Goes now s.rlf.t311_value_ms start ts later begun) [
      | inl still ↦
          check-IsOver now s.rlf.t311_value_ms (check_all start ts) last.env last.now last.clock
            later reached still
      | inr over ↦ check-stays (check_all start ts) last.env last.now last.clock over
    ]
