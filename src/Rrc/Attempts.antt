-- ===== src/Rrc/Attempts.antt =====
-- What the attempts of a registration in src/protocol/rrc.c do to a UE.
use uesim.Common.{
  ℕ, zero, suc, ◌+◌, ◌%◌, ◌^◌, ◌≡◌, refl, sym, append-nil, ap, ap₂, ◌∙◌, List, [], ◌∷◌, ◌++◌, false,
  if◌then◌else◌, Status,
}
use uesim.Rrc.{State, Ue, Response, Answers, change_state, handle_procedure_response}
use uesim.Rrc.Procedures.{
  ProcedureType, ErrorCause, Procedure, Wake, Round, Env, started, expire, start_procedure,
  wait_procedure_complete, handle_all, waited, request_loop, handle_procedure_failure, finish,
  execute_registration,
}
use uesim.Rrc.Completion.{IsPending}
use uesim.Rrc.Refusals.{env_with}

handle_all-append :
    (ue : Ue) (xs ys : List (Response × Answers))
    → handle_all ue (xs ++ ys) ≡ handle_all (handle_all ue xs) ys
unfolding handle_all
handle_all-append ue [] ys = refl
handle_all-append ue ((response, a) ∷ xs) ys =
    handle_all-append (handle_procedure_response ue response a).1 xs ys

-- The messages of so many attempts, from one on.
unfoldable pub incoming_from : ℕ → ℕ → (ℕ → Round) → List (Response × Answers)
incoming_from zero retry rounds = []
incoming_from (suc left) retry rounds =
    (rounds retry).incoming ++ incoming_from left (retry + 1) rounds

-- The context after the attempts have all run out of time.
unfoldable expired_times : ℕ → ℕ → Procedure → Procedure
expired_times zero retry p = p
expired_times (suc left) retry p =
    expired_times left (retry + 1) (expire (record p { retry_count = retry }))

-- The last result is a timeout, unless there was no attempt.
abbrev result_of : ℕ → Status → Status
result_of zero last = last
result_of (suc left) last = Status.timeout

timeout-result_of : (left : ℕ) → result_of left Status.timeout ≡ Status.timeout
timeout-result_of zero = refl
timeout-result_of (suc left) = refl

waited-expires :
    (s : Status) (p : Procedure) (wakes : List Wake)
    → s ≡ Status.success
    → wakes ≡ Wake.expired ∷ []
    → p.completed ≡ false
    → waited s p wakes ≡ (Status.timeout, expire p)
unfolding wait_procedure_complete
waited-expires s p wakes sent late open_ =
    ap (λ s'. waited s' p wakes) sent
    ∙ ap (wait_procedure_complete p) late
    ∙ ap (λ b. if b then (Status.success, p) else (Status.timeout, expire p)) open_

loop-expires :
    (left retry : ℕ) (rounds : ℕ → Round) (last : Status) (ue : Ue) (p : Procedure)
    → ((r : ℕ) → (rounds r).sent ≡ Status.success)
    → ((r : ℕ) → (rounds r).wakes ≡ Wake.expired ∷ [])
    → IsPending p
    → request_loop left retry rounds last ue p ≡ (
      result_of left last,
      handle_all ue (incoming_from left retry rounds),
      expired_times left retry p,
    )
unfolding request_loop handle_all incoming_from expired_times wait_procedure_complete
loop-expires zero retry rounds last ue p sent wakes ok = refl
loop-expires (suc left) retry rounds last ue p sent wakes (open_, lost) =
    let p' : Procedure = expire (record p { retry_count = retry }) in
    let ue' : Ue = handle_all ue (rounds retry).incoming in
    let later = incoming_from left (retry + 1) rounds in
    rw
      (waited-expires (rounds retry).sent (record p { retry_count = retry }) (rounds retry).wakes
        (sent retry) (wakes retry) open_)
      (loop-expires left (retry + 1) rounds Status.timeout ue' p' sent wakes (open_, lost)
        ∙ ap₂ (λ r ue''. (r, ue'', expired_times left (retry + 1) p')) (timeout-result_of left)
            (sym (handle_all-append ue (rounds retry).incoming later)))

-- The idle UE once it has asked for a registration.
abbrev pub asked : Ue → ℕ → Ue
asked ue now = record ue {
  current_state = State.connecting;
  state_change_time = now;
  transaction_id_counter = (ue.transaction_id_counter + 1) % 2 ^ 32;
}

-- An idle UE whose requests are all sent, and whose waits all run out of time, makes exactly four
-- attempts at a registration, whatever messages come in: it ends with `timeout`, and is what the messages
-- of these four attempts, handled in their order, make of the UE that has asked.
pub execute_registration-handles :
    (ue : Ue) (now : ℕ) (rounds : ℕ → Round)
    → ue.current_state ≡ State.idle
    → ((r : ℕ) → (rounds r).sent ≡ Status.success)
    → ((r : ℕ) → (rounds r).wakes ≡ Wake.expired ∷ [])
    → execute_registration ue (env_with now rounds) ≡ (
      Status.timeout,
      handle_all (asked ue now) (
          (rounds 0).incoming
          ++ ((rounds 1).incoming ++ ((rounds 2).incoming ++ (rounds 3).incoming))),
    )
unfolding execute_registration start_procedure change_state handle_procedure_failure incoming_from
execute_registration-handles ue now rounds here sent wakes =
    let env : Env = env_with now rounds in
    let made =
      loop-expires 4 0 rounds Status.protocol (asked ue now)
        (started ue ProcedureType.registration env) sent wakes (refl, refl) in
    simp (execute_registration, here)
      (ap (finish ErrorCause.max_retries now) made
        ∙ ap
            (λ last. (
              Status.timeout,
              handle_all (asked ue now)
                  ((rounds 0).incoming ++ ((rounds 1).incoming ++ ((rounds 2).incoming ++ last))),
            ))
            (append-nil (rounds 3).incoming))
