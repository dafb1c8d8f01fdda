-- ===== src/Rrc/Execution.antt =====
-- What the procedures of src/protocol/rrc.c keep of a UE's state.
use uesim.Common.{
  ℕ, zero, suc, ◌+◌, ◌≡◌, refl, some, if◌then◌else◌, Bool-cases, Option-cases, inl, inr, Status,
}
use uesim.Rrc.{State, Ue, change_state, take_transaction_id}
use uesim.Rrc.Procedures.{
  ProcedureType, ErrorCause, Procedure, Round, Env, started, cause_of, start_procedure,
  wait_procedure_complete, handle_all, waited, is_done, request_loop, handle_procedure_failure,
  finish, request_sent, request_started, execute_registration, execute_reestablishment,
  best_candidate, handover_sent, handover_started, has_candidates, execute_handover,
  execute_procedure,
}
use uesim.Rrc.Keeps.{change_state-Keeps, handle_all-Keeps}

module _ (P : State → Type 0) (at_idle : P State.idle) (at_connected : P State.connected) where
  abbrev Kept : Ue → Ue → Type 0
  Kept ue ue' = P ue.current_state → P ue'.current_state

  then_keeps : (ue ue' ue'' : Ue) → Kept ue ue' → Kept ue' ue'' → Kept ue ue''
  then_keeps ue ue' ue'' one two held = two (one held)

  loop-Keeps :
      (left retry : ℕ) (rounds : ℕ → Round) (last : Status) (ue : Ue) (p : Procedure)
      → Kept ue (request_loop left retry rounds last ue p).1
  unfolding request_loop
  loop-Keeps zero retry rounds last ue p = λ held. held
  loop-Keeps (suc left) retry rounds last ue p =
      let round = rounds retry in
      let (result, p') = waited round.sent (record p { retry_count = retry }) round.wakes in
      let ue' = handle_all ue round.incoming in
      let here = handle_all-Keeps P at_idle at_connected ue round.incoming in
      elim (Bool-cases (is_done result p')) [
        | inl done ↦ rw done here
        | inr more ↦ rw more (
            then_keeps ue ue' (request_loop left (retry + 1) rounds result ue' p').1 here
              (loop-Keeps left (retry + 1) rounds result ue' p'))
      ]

  failure-Keeps :
      (ue : Ue) (p : Procedure) (cause : ErrorCause) (now : ℕ)
      → Kept ue (handle_procedure_failure ue p cause now).1
  unfolding handle_procedure_failure
  failure-Keeps ue p ErrorCause.max_retries now =
      change_state-Keeps P at_idle at_connected ue State.idle now at_idle
  failure-Keeps ue p ErrorCause.radio_link_failure now =
      change_state-Keeps P at_idle at_connected ue State.idle now at_idle
  failure-Keeps ue p cause now = λ held. held

  finish-Keeps :
      (otherwise : ErrorCause) (now : ℕ) (s : Status) (ue : Ue) (p : Procedure)
      → Kept ue (finish otherwise now (s, ue, p)).1
  finish-Keeps otherwise now s ue p = elim (Bool-cases (is_done s p)) [
    | inl done ↦ rw done (λ held. held)
    | inr failed ↦ rw failed (failure-Keeps ue p (cause_of s otherwise) now)
  ]

  sent-Keeps : (env : Env) (p : Procedure) (r : Status × Ue) → Kept r.1 (request_sent env p r).1
  sent-Keeps env p (Status.success, ue) = elim (Bool-cases env.data_allocated) [
    | inr refused ↦ rw refused (λ held. held)
    | inl granted ↦ rw granted (
        let (s, ue', p') = request_loop 4 0 env.rounds Status.protocol ue p in
        then_keeps ue ue' (finish ErrorCause.max_retries env.now (s, ue', p')).1
          (loop-Keeps 4 0 env.rounds Status.protocol ue p)
          (finish-Keeps ErrorCause.max_retries env.now s ue' p'))
  ]
  sent-Keeps env p (s, ue) = λ held. held

  request-Keeps :
      P State.connecting
      → (ue : Ue) (procedure : ProcedureType) (env : Env)
      → Kept ue (request_started env (start_procedure ue procedure env)).1
  unfolding start_procedure
  request-Keeps at_connecting ue procedure env = elim (Bool-cases env.allocated) [
    | inr refused ↦ simp (start_procedure, refused) (λ held. held)
    | inl granted ↦ elim (Bool-cases env.ready) [
      | inr broken ↦ simp (start_procedure, granted, broken) (λ held. held)
      | inl ready ↦
          simp (start_procedure, granted, ready)
            (let asked = change_state (take_transaction_id ue) State.connecting env.now in
              then_keeps (take_transaction_id ue) asked.1
                (request_sent env (started ue procedure env) asked).1
                (change_state-Keeps P at_idle at_connected (take_transaction_id ue) State.connecting
                  env.now at_connecting)
                (sent-Keeps env (started ue procedure env) asked))
    ]
  ]

  handover_sent-Keeps :
      (sent : Status) (env : Env) (ue : Ue) (p : Procedure)
      → (env.rounds 0).sent ≡ sent
      → Kept ue (handover_sent env ue p).1
  handover_sent-Keeps Status.success env ue p sent =
      let ue' = handle_all ue (env.rounds 0).incoming in
      let (result, p') = wait_procedure_complete p (env.rounds 0).wakes in
      simp (handover_sent, sent)
        (then_keeps ue ue' (finish ErrorCause.handover_failed env.now (result, ue', p')).1
          (handle_all-Keeps P at_idle at_connected ue (env.rounds 0).incoming)
          (finish-Keeps ErrorCause.handover_failed env.now result ue' p'))
  handover_sent-Keeps s env ue p sent =
      simp (handover_sent, sent)
        (handle_all-Keeps P at_idle at_connected ue (env.rounds 0).incoming)

  handover_started-Keeps :
      (env : Env) (ue : Ue) (p : Procedure)
      → Kept ue (handover_started env (Status.success, ue, some p)).1
  handover_started-Keeps env ue p = elim (Option-cases (best_candidate ue.candidate_gnbs)) [
    | inl absent ↦ simp (handover_started, absent) (λ held. held)
    | inr (best, found) ↦ elim (Bool-cases env.data_allocated) [
      | inr refused ↦ simp (handover_started, found, refused) (λ held. held)
      | inl granted ↦
          simp (handover_started, found, granted)
            (handover_sent-Keeps (env.rounds 0).sent env ue p refl)
    ]
  ]

  from_connected-Keeps :
      (ue : Ue) (env : Env)
      → Kept ue
          (if has_candidates ue.candidate_gnbs
            then handover_started env (start_procedure ue ProcedureType.handover env)
            else (Status.not_found, ue)).1
  unfolding start_procedure
  from_connected-Keeps ue env = elim (Bool-cases (has_candidates ue.candidate_gnbs)) [
    | inr empty ↦ simp empty (λ held. held)
    | inl some_ ↦ elim (Bool-cases env.allocated) [
      | inr refused ↦ simp (start_procedure, some_, refused) (λ held. held)
      | inl granted ↦ elim (Bool-cases env.ready) [
        | inr broken ↦ simp (start_procedure, some_, granted, broken) (λ held. held)
        | inl ready ↦
            simp (start_procedure, some_, granted, ready)
              (handover_started-Keeps env (take_transaction_id ue)
                (started ue ProcedureType.handover env))
      ]
    ]
  ]

  -- A case distinction on the state, each case a walk.
  by_state-Keeps :
      (s : State) (ue : Ue) (a b c d : Status × Ue)
      → Kept ue a.1
      → Kept ue b.1
      → Kept ue c.1
      → Kept ue d.1
      → let chosen : Status × Ue = elim s [
        | State.idle ↦ a
        | State.connected ↦ b
        | State.inactive ↦ c
        | State.connecting ↦ d
      ] in
        Kept ue chosen.1
  by_state-Keeps State.idle ue a b c d wa wb wc wd = wa
  by_state-Keeps State.connected ue a b c d wa wb wc wd = wb
  by_state-Keeps State.inactive ue a b c d wa wb wc wd = wc
  by_state-Keeps State.connecting ue a b c d wa wb wc wd = wd

  pub execute_handover-Keeps : (ue : Ue) (env : Env) → Kept ue (execute_handover ue env).1
  unfolding execute_handover
  execute_handover-Keeps ue env =
      by_state-Keeps ue.current_state ue _ _ _ _ (λ held. held) (from_connected-Keeps ue env)
        (λ held. held) (λ held. held)

  pub execute-Keeps :
      P State.connecting
      → (ue : Ue) (procedure : ProcedureType) (env : Env)
      → Kept ue (execute_procedure ue procedure env).1
  unfolding execute_procedure execute_registration execute_reestablishment
  execute-Keeps at_connecting ue ProcedureType.registration env =
      by_state-Keeps ue.current_state ue _ _ _ _
        (request-Keeps at_connecting ue ProcedureType.registration env) (λ held. held)
        (λ held. held) (λ held. held)
  execute-Keeps at_connecting ue ProcedureType.establishment env =
      by_state-Keeps ue.current_state ue _ _ _ _
        (request-Keeps at_connecting ue ProcedureType.registration env) (λ held. held)
        (λ held. held) (λ held. held)
  execute-Keeps at_connecting ue ProcedureType.reestablishment env =
      let asked = request-Keeps at_connecting ue ProcedureType.reestablishment env in
      by_state-Keeps ue.current_state ue _ _ _ _ (λ held. held) asked asked asked
  execute-Keeps at_connecting ue ProcedureType.handover env = execute_handover-Keeps ue env
