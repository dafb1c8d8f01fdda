-- ===== src/Rrc/Refusals.antt =====
-- Procedures of src/protocol/rrc.c that are refused, and registrations that get no answer.
use uesim.Common.{
  ℕ, zero, suc, ◌+◌, ◌%◌, ◌^◌, ◌≡◌, ◌≢◌, refl, sym, ◌∙◌, subst, [], ◌∷◌, true, false, some,
  Bool-cases, inl, inr, Status,
}
use uesim.Rrc.{State, Ue, Response, Answers, change_state, is_valid_state_transition}
use uesim.Rrc.Procedures.{
  ProcedureType, Wake, Round, Env, start_procedure, wait_procedure_complete, handle_all,
  request_loop, handle_procedure_failure, request_started, execute_registration,
  execute_reestablishment,
}
use uesim.Rrc.Completion.{State-cases}

-- What a procedure leaves that could not turn the state to connecting.
abbrev pub IsRefused : Ue → Status × Ue → Type 0
IsRefused ue (status, ue') =
    (status ≢ Status.success)
    × (ue'.current_state ≡ ue.current_state)
    × (ue'.serving_gnb ≡ ue.serving_gnb)

request-IsRefused :
    (ue : Ue) (procedure : ProcedureType) (env : Env)
    → is_valid_state_transition ue.current_state State.connecting ≡ false
    → IsRefused ue (request_started env (start_procedure ue procedure env))
unfolding start_procedure change_state
request-IsRefused ue procedure env barred = elim (Bool-cases env.allocated) [
  | inr refused ↦ simp (start_procedure, refused) ((λ e. cc), refl, refl)
  | inl granted ↦ elim (Bool-cases env.ready) [
    | inr broken ↦ simp (start_procedure, granted, broken) ((λ e. cc), refl, refl)
    | inl ready ↦
        simp (start_procedure, change_state, granted, ready, barred) ((λ e. cc), refl, refl)
  ]
]

-- Nor does it matter what its attempts would have met.
request-independent :
    (ue : Ue) (procedure : ProcedureType) (env : Env) (rounds : ℕ → Round)
    → is_valid_state_transition ue.current_state State.connecting ≡ false
    → request_started env (start_procedure ue procedure env)
      ≡ request_started
          (record env { rounds = rounds })
          (start_procedure ue procedure (record env { rounds = rounds }))
unfolding start_procedure change_state
request-independent ue procedure env rounds barred = elim (Bool-cases env.allocated) [
  | inr refused ↦ simp (start_procedure, refused) refl
  | inl granted ↦ elim (Bool-cases env.ready) [
    | inr broken ↦ simp (start_procedure, granted, broken) refl
    | inl ready ↦ simp (start_procedure, change_state, granted, ready, barred) refl
  ]
]

asking-IsRefused :
    (ue : Ue) (env : Env) (rounds : ℕ → Round)
    → is_valid_state_transition ue.current_state State.connecting ≡ false
    → execute_reestablishment ue env
      ≡ request_started env (start_procedure ue ProcedureType.reestablishment env)
    → execute_reestablishment ue (record env { rounds = rounds })
      ≡ request_started
          (record env { rounds = rounds })
          (start_procedure ue ProcedureType.reestablishment (record env { rounds = rounds }))
    → IsRefused ue (execute_reestablishment ue env)
      × (execute_reestablishment ue env
          ≡ execute_reestablishment ue (record env { rounds = rounds }))
asking-IsRefused ue env rounds barred one two = (
  subst (IsRefused ue) (sym one) (request-IsRefused ue ProcedureType.reestablishment env barred),
  one ∙ request-independent ue ProcedureType.reestablishment env rounds barred ∙ sym two,
)

-- Unless the UE is inactive, a re-establishment is over before its first attempt: it ends without
-- success, leaves the connection's state and the serving gNB as they were, and its whole result is the
-- same whatever its attempts would meet, the status of sending, the messages and the waits.
pub execute_reestablishment-IsRefused :
    (ue : Ue) (env : Env) (rounds : ℕ → Round)
    → ue.current_state ≢ State.inactive
    → IsRefused ue (execute_reestablishment ue env)
      × (execute_reestablishment ue env
          ≡ execute_reestablishment ue (record env { rounds = rounds }))
unfolding execute_reestablishment
execute_reestablishment-IsRefused ue env rounds awake = elim (State-cases ue.current_state) [
  | inl here ↦ simp (execute_reestablishment, here) (((λ e. cc), refl, refl), refl)
  | inr (inl here) ↦
      asking-IsRefused ue env rounds (rw here refl) (simp (execute_reestablishment, here) refl)
        (simp (execute_reestablishment, here) refl)
  | inr (inr (inl here)) ↦ absurd (awake here)
  | inr (inr (inr here)) ↦
      asking-IsRefused ue env rounds (rw here refl) (simp (execute_reestablishment, here) refl)
        (simp (execute_reestablishment, here) refl)
]

-- An attempt that is sent and never answered.
abbrev pub quiet : Round
quiet = record { sent = Status.success; incoming = []; wakes = Wake.expired ∷ [] }

-- An attempt during which the network's setup message is handled.
abbrev pub answered : Answers → Round
answered a = record {
  sent = Status.success;
  incoming = (Response.setup (some 0), a) ∷ [];
  wakes = Wake.expired ∷ [];
}

abbrev pub env_with : ℕ → (ℕ → Round) → Env
env_with now rounds = record {
  allocated = true;
  ready = true;
  data_allocated = true;
  now = now;
  rounds = rounds;
}

abbrev pub rounds_from : Round → ℕ → Round
rounds_from first zero = first
rounds_from first (suc n) = quiet

-- No answer to the first four attempts, and anything in those after them.
abbrev pub quiet_before : (ℕ → Round) → ℕ → Round
quiet_before later (suc (suc (suc (suc r)))) = later r
quiet_before later r = quiet

-- An idle UE that registers and gets no answer to any of its requests, of which there are no more than
-- four whatever later ones would meet, ends with `timeout` in the state connecting. There every further
-- registration changes nothing, and a re-establishment fails and leaves the state and the serving gNB.
pub execute_registration-unanswered :
    (ue : Ue) (now : ℕ) (later : ℕ → Round)
    → ue.current_state ≡ State.idle
    → let stuck : Ue = (execute_registration ue (env_with now (quiet_before later))).1 in
      ((execute_registration ue (env_with now (quiet_before later))).0 ≡ Status.timeout)
      × (stuck.current_state ≡ State.connecting)
      × ((env : Env) → execute_registration stuck env ≡ (Status.protocol, stuck))
      × ((env : Env) → IsRefused stuck (execute_reestablishment stuck env))
unfolding execute_registration execute_reestablishment start_procedure change_state request_loop
    wait_procedure_complete handle_all handle_procedure_failure
execute_registration-unanswered ue now later here =
    let stuck : Ue = record ue {
      current_state = State.connecting;
      state_change_time = now;
      transaction_id_counter = (ue.transaction_id_counter + 1) % 2 ^ 32;
    } in
    let ends : execute_registration ue (env_with now (quiet_before later))
        ≡ (Status.timeout, stuck) =
      simp (execute_registration, here) refl in
    rw ends (
      refl,
      refl,
      (λ env. refl),
      λ env. request-IsRefused stuck ProcedureType.reestablishment env refl,
    )
