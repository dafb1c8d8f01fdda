-- ===== src/Rlf/Thresholds.antt =====
-- What rows of indications do to T310 in src/protocol/rlf_recovery.c, by the thresholds N310 and N311.
use uesim.Common.{
  ℕ, ◌+◌, ap, ◌∙◌, ◌%◌, ◌^◌, ◌≤◌, ◌≡◌, refl, arith, List, [], ◌∷◌, true, false, leb, lt→leb,
  Bool-cases, ◌⊎◌, inl, inr,
}
use uesim.Rrc
use uesim.Rrc.{Ue}
use uesim.Rrc.Procedures.{Env}
use uesim.Rlf.{State, Context, System}
use uesim.Rlf.Timers.{elapsed, check_timers}
use uesim.Rlf.Failures.{check-failure, check-no_failure}
use uesim.Rlf.Sync.{
  Indication, Outcome, count_out_of_sync, out_of_sync_of, handle_sync_indication, handle_all,
}

-- The call returned, with a UE and its context that satisfies a predicate.
abbrev pub Returns : (System → Type 0) → Outcome → Type 0
Returns P (Outcome.returned s) = P s
Returns P Outcome.blocked = ⊥

Returns-map :
    (P Q : System → Type 0) (o : Outcome) → ((s : System) → P s → Q s) → Returns P o → Returns Q o
Returns-map P Q (Outcome.returned s) weaken ok = weaken s ok
Returns-map P Q Outcome.blocked weaken ok = elim ok [ ]

-- A predicate that each indication keeps holds after a row of them.
all-Returns :
    (P : System → Type 0)
    → ((s : System) (i : Indication) (now : ℕ) → P s → Returns P (handle_sync_indication s i now))
    → (o : Outcome) (row : List (Indication × ℕ)) → Returns P o
    → Returns P (handle_all o row)
unfolding handle_all
all-Returns P kept o [] ok = ok
all-Returns P kept (Outcome.returned s) ((i, now) ∷ row) ok =
    all-Returns P kept (handle_sync_indication s i now) row (kept s i now ok)
all-Returns P kept Outcome.blocked (i ∷ row) ok = elim ok [ ]

-- T310 is not running, and cannot be started: N310 is at least two, and nothing has been counted yet, or
-- the state is the one in which nothing is counted. The failures counted are those of before.
abbrev IsDeaf : ℕ → System → Type 0
IsDeaf failures s =
    (2 ≤ s.rlf.n310_threshold)
    × (s.rlf.t310_running ≡ false)
    × (s.rlf.total_rlf_count ≡ failures)
    × (((s.rlf.current_state ≡ State.normal) × (s.rlf.out_of_sync_count ≡ 0))
        ⊎ (s.rlf.current_state ≡ State.out_of_sync))

count-IsDeaf :
    (failures : ℕ) (s : System) (rlf : Context) (now : ℕ)
    → 2 ≤ rlf.n310_threshold
    → rlf.t310_running ≡ false
    → rlf.total_rlf_count ≡ failures
    → rlf.out_of_sync_count ≡ 0
    → Returns (IsDeaf failures) (count_out_of_sync s rlf now)
count-IsDeaf failures s rlf now high off total none_yet =
    let short : leb rlf.n310_threshold ((rlf.out_of_sync_count + 1) % 2 ^ 8) ≡ false =
      lt→leb rlf.n310_threshold ((rlf.out_of_sync_count + 1) % 2 ^ 8) (omega arith) in
    rw short (high, off, total, inr refl)

out_of_sync-IsDeaf :
    (failures : ℕ) (state : Rrc.State) (s : System) (rlf : Context) (now : ℕ)
    → IsDeaf failures (record s { rlf = rlf })
    → Returns (IsDeaf failures) (out_of_sync_of state s rlf now)
out_of_sync-IsDeaf failures Rrc.State.connected s rlf now
      (high, off, total, inl (still, none_yet)) =
    rw still
      (count-IsDeaf failures s (record rlf { in_sync_count = 0 }) now high off total none_yet)
out_of_sync-IsDeaf failures Rrc.State.connected s rlf now (high, off, total, inr lost) =
    rw lost (high, off, total, inr refl)
out_of_sync-IsDeaf failures state s rlf now ok = ok

handle-IsDeaf :
    (failures : ℕ) (s : System) (i : Indication) (now : ℕ)
    → IsDeaf failures s
    → Returns (IsDeaf failures) (handle_sync_indication s i now)
unfolding handle_sync_indication
handle-IsDeaf failures s Indication.out_of_sync now ok =
    out_of_sync-IsDeaf failures s.ue.current_state s
      (record s.rlf {
        total_out_of_sync_indications = (s.rlf.total_out_of_sync_indications + 1) % 2 ^ 64;
      })
      now ok
handle-IsDeaf failures s Indication.in_sync now (high, off, total, inl (still, none_yet)) =
    simp still (high, off, total, inl (refl, refl))
handle-IsDeaf failures s Indication.in_sync now (high, off, total, inr lost) =
    simp lost (high, off, total, inr refl)

-- With a threshold N310 of two or more, T310 is never started from a context that has counted nothing:
-- after any row of indications, however many of them say that synchronisation is lost, T310 is not
-- running, and a look at the timers, at whatever time, leaves the number of failures as it was.
pub handle_all-never_starts :
    (s : System) (row : List (Indication × ℕ)) (env : Env) (now clock : ℕ)
    → 2 ≤ s.rlf.n310_threshold
    → s.rlf.t310_running ≡ false
    → s.rlf.current_state ≡ State.normal
    → s.rlf.out_of_sync_count ≡ 0
    → Returns
        (λ s'.
          (s'.rlf.t310_running ≡ false)
          × ((check_timers s' env now clock).1.rlf.total_rlf_count ≡ s.rlf.total_rlf_count))
        (handle_all (Outcome.returned s) row)
handle_all-never_starts s row env now clock high off still none_yet =
    Returns-map (IsDeaf s.rlf.total_rlf_count) _ (handle_all (Outcome.returned s) row)
      (λ s' deaf. (deaf.1, check-no_failure s' env now clock deaf.1 ∙ deaf.2))
      (all-Returns (IsDeaf s.rlf.total_rlf_count) (handle-IsDeaf s.rlf.total_rlf_count)
        (Outcome.returned s) row (high, off, refl, inl (still, none_yet)))

-- T310 is running since a time of `first`, and cannot be stopped.
abbrev IsHeld : Context → System → Type 0
IsHeld first s =
    (2 ≤ s.rlf.n311_threshold)
    × (s.rlf.t310_running ≡ true)
    × ((s.rlf.t310_start_time ≡ first.t310_start_time)
        × (s.rlf.t310_value_ms ≡ first.t310_value_ms)
        × (s.rlf.total_rlf_count ≡ first.total_rlf_count))
    × (((s.rlf.current_state ≡ State.t310_running) × (s.rlf.in_sync_count ≡ 0))
        ⊎ ((s.rlf.current_state ≡ State.in_sync_recovery)
            ⊎ (s.rlf.current_state ≡ State.out_of_sync)))

count-IsHeld :
    (first : Context) (s : System) (rlf : Context) (now : ℕ)
    → 2 ≤ rlf.n311_threshold
    → rlf.t310_running ≡ true
    → (rlf.t310_start_time ≡ first.t310_start_time)
      × (rlf.t310_value_ms ≡ first.t310_value_ms)
      × (rlf.total_rlf_count ≡ first.total_rlf_count)
    → Returns (IsHeld first) (count_out_of_sync s rlf now)
count-IsHeld first s rlf now high on same =
    elim (Bool-cases (leb rlf.n310_threshold ((rlf.out_of_sync_count + 1) % 2 ^ 8))) [
      | inl reached ↦ simp (reached, on) (high, refl, same, inr (inr refl))
      | inr short ↦ simp short (high, on, same, inr (inr refl))
    ]

out_of_sync-IsHeld :
    (first : Context) (state : Rrc.State) (s : System) (rlf : Context) (now : ℕ)
    → IsHeld first (record s { rlf = rlf })
    → Returns (IsHeld first) (out_of_sync_of state s rlf now)
out_of_sync-IsHeld first Rrc.State.connected s rlf now (high, on, same, inl (running, none_yet)) =
    rw running (high, on, same, inl (refl, refl))
out_of_sync-IsHeld first Rrc.State.connected s rlf now (high, on, same, inr (inl back)) =
    rw back (count-IsHeld first s (record rlf { in_sync_count = 0 }) now high on same)
out_of_sync-IsHeld first Rrc.State.connected s rlf now (high, on, same, inr (inr lost)) =
    rw lost (high, on, same, inr (inr refl))
out_of_sync-IsHeld first state s rlf now ok = ok

handle-IsHeld :
    (first : Context) (s : System) (i : Indication) (now : ℕ)
    → IsHeld first s
    → Returns (IsHeld first) (handle_sync_indication s i now)
unfolding handle_sync_indication
handle-IsHeld first s Indication.out_of_sync now ok =
    out_of_sync-IsHeld first s.ue.current_state s
      (record s.rlf {
        total_out_of_sync_indications = (s.rlf.total_out_of_sync_indications + 1) % 2 ^ 64;
      })
      now ok
handle-IsHeld first s Indication.in_sync now (high, on, same, inl (running, none_yet)) =
    let short : leb s.rlf.n311_threshold ((s.rlf.in_sync_count + 1) % 2 ^ 8) ≡ false =
      lt→leb s.rlf.n311_threshold ((s.rlf.in_sync_count + 1) % 2 ^ 8) (omega arith) in
    simp (running, short) (high, on, same, inr (inl refl))
handle-IsHeld first s Indication.in_sync now (high, on, same, inr (inl back)) =
    simp back (high, on, same, inr (inl refl))
handle-IsHeld first s Indication.in_sync now (high, on, same, inr (inr lost)) =
    simp lost (high, on, same, inr (inr refl))

-- With a threshold N311 of two or more (the default is two), no row of indications stops T310 once it
-- runs with nothing counted, also when all of them say that synchronisation is back: T310 goes on
-- running from the same start, and a look at the timers when its time is over counts one failure more.
pub handle_all-never_stops :
    (s : System) (row : List (Indication × ℕ)) (env : Env) (now clock : ℕ)
    → 2 ≤ s.rlf.n311_threshold
    → s.rlf.t310_running ≡ true
    → s.rlf.current_state ≡ State.t310_running
    → s.rlf.in_sync_count ≡ 0
    → s.rlf.t310_value_ms ≤ elapsed now s.rlf.t310_start_time
    → Returns
        (λ s'.
          (s'.rlf.t310_running ≡ true)
          × (s'.rlf.t310_start_time ≡ s.rlf.t310_start_time)
          × ((check_timers s' env now clock).1.rlf.total_rlf_count
              ≡ (s.rlf.total_rlf_count + 1) % 2 ^ 64))
        (handle_all (Outcome.returned s) row)
handle_all-never_stops s row env now clock high on running none_yet over =
    Returns-map (IsHeld s.rlf) _ (handle_all (Outcome.returned s) row)
      (λ s' held. (
        held.1,
        held.2.0,
        check-failure s.rlf s' env now clock held.1 held.2.0 held.2.1 over
            ∙ ap (λ n. (n + 1) % 2 ^ 64) held.2.2,
      ))
      (all-Returns (IsHeld s.rlf) (handle-IsHeld s.rlf) (Outcome.returned s) row
        (high, on, (refl, refl, refl), inl (running, none_yet)))
