-- ===== src/Rlf/Sync.antt =====
-- The indications of the physical layer in src/protocol/rlf_recovery.c, which start and stop T310.
use uesim.Common.{ℕ, ◌+◌, ◌%◌, ◌^◌, List, [], ◌∷◌, Bool, true, false, not, ◌&&◌, leb, if◌then◌else◌}
use uesim.Rrc
use uesim.Rrc.{Ue}
use uesim.Rlf.{State, Context, System}

-- `sync_indication_t`
pub data Indication : Type 0 where
  out_of_sync in_sync : Indication

-- A call returns, or waits for ever for a mutex that its own thread holds.
pub data Outcome : Type 0 where
  returned : System → Outcome
  blocked : Outcome

-- `pthread_mutex_lock(&ctx->rlf_mutex)` and what comes after it, given whether the thread holds the mutex.
abbrev pub acquire : Bool → System → (System → Outcome) → Outcome
acquire true s next = Outcome.blocked
acquire false s next = next s

-- A call, and what comes after it.
abbrev pub and_then : Outcome → (System → Outcome) → Outcome
and_then (Outcome.returned s) next = next s
and_then Outcome.blocked next = Outcome.blocked

-- `rlf_start_t310`
abbrev pub t310_started : Context → ℕ → Context
t310_started rlf now = record rlf {
  t310_start_time = now;
  t310_running = true;
  current_state = State.t310_running;
}

abbrev pub start_t310 : Bool → System → ℕ → Outcome
start_t310 held s now =
    acquire held s (λ s'. Outcome.returned (record s' { rlf = t310_started s'.rlf now }))

-- `rlf_stop_t310`
abbrev pub stop_t310 : Bool → System → Outcome
stop_t310 held s = acquire held s (λ s'.
    Outcome.returned
      (record s' { rlf = record s'.rlf { t310_running = false; out_of_sync_count = 0 } }))

-- An indication that counts towards N310: the mutex is given back before T310 is started.
abbrev pub count_out_of_sync : System → Context → ℕ → Outcome
count_out_of_sync s rlf now =
    let counted : Context = record rlf {
      out_of_sync_count = (rlf.out_of_sync_count + 1) % 2 ^ 8;
      current_state = State.out_of_sync;
    } in
    if leb counted.n310_threshold counted.out_of_sync_count && not counted.t310_running
    then start_t310 false (record s { rlf = counted }) now
    else Outcome.returned (record s { rlf = counted })

-- The branch of the connected UE, in the state given.
abbrev pub out_of_sync_in : State → System → Context → ℕ → Outcome
out_of_sync_in State.normal s rlf now = count_out_of_sync s rlf now
out_of_sync_in State.in_sync_recovery s rlf now = count_out_of_sync s rlf now
out_of_sync_in state s rlf now = Outcome.returned (record s { rlf = rlf })

-- An indication that counts towards N311: where the count is reached, `rlf_stop_t310` is called while
-- the mutex is held.
abbrev pub in_sync_in : State → System → Context → Outcome
in_sync_in State.t310_running s rlf =
    let counted : Context = record rlf {
      in_sync_count = (rlf.in_sync_count + 1) % 2 ^ 8;
      current_state = State.in_sync_recovery;
    } in
    if leb counted.n311_threshold counted.in_sync_count
    then and_then (stop_t310 true (record s { rlf = counted })) (λ s'.
      Outcome.returned (record s' { rlf = record s'.rlf { current_state = State.normal } }))
    else Outcome.returned (record s { rlf = counted })
in_sync_in state s rlf = Outcome.returned (record s { rlf = rlf })

abbrev pub out_of_sync_of : Rrc.State → System → Context → ℕ → Outcome
out_of_sync_of Rrc.State.connected s rlf now =
    out_of_sync_in rlf.current_state s (record rlf { in_sync_count = 0 }) now
out_of_sync_of state s rlf now = Outcome.returned (record s { rlf = rlf })

-- `rlf_handle_sync_indication`, called by a thread that does not hold the mutex.
abbrev pub handle_locked : Indication → ℕ → System → Outcome
handle_locked Indication.out_of_sync now s =
    out_of_sync_of s.ue.current_state s
      (record s.rlf {
        total_out_of_sync_indications = (s.rlf.total_out_of_sync_indications + 1) % 2 ^ 64;
      })
      now
handle_locked Indication.in_sync now s = in_sync_in s.rlf.current_state s (record s.rlf {
  total_in_sync_indications = (s.rlf.total_in_sync_indications + 1) % 2 ^ 64;
  out_of_sync_count = 0;
})

unfoldable pub handle_sync_indication : System → Indication → ℕ → Outcome
handle_sync_indication s indication now = acquire false s (handle_locked indication now)

-- A row of indications, each with its time.
unfoldable pub handle_all : Outcome → List (Indication × ℕ) → Outcome
handle_all outcome [] = outcome
handle_all Outcome.blocked (i ∷ rest) = Outcome.blocked
handle_all (Outcome.returned s) ((indication, now) ∷ rest) =
    handle_all (handle_sync_indication s indication now) rest
