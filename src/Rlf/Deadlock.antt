-- ===== src/Rlf/Deadlock.antt =====
-- The thread of src/protocol/rlf_recovery.c that waits for itself.
use uesim.Common.{
  ℕ, ◌+◌, ◌%◌, ◌^◌, ◌≤◌, ◌≡◌, refl, ap, ◌∙◌, true, arith, List, [], ◌∷◌, ◌++◌, leb, le→leb,
}
use uesim.Rrc
use uesim.Rlf.{State, Context, System}
use uesim.Rlf.Sync.{Indication, Outcome, out_of_sync_of, handle_sync_indication, handle_all}
use uesim.Rlf.Thresholds.{Returns}

-- Indications that synchronisation is lost, at these times.
unfoldable pub losses : List ℕ → List (Indication × ℕ)
losses [] = []
losses (now ∷ times) = (Indication.out_of_sync, now) ∷ losses times

-- T310 is running, with nothing counted towards an N311 of at most one.
abbrev IsArmed : System → Type 0
IsArmed s =
    (s.rlf.n311_threshold ≤ 1)
    × (s.rlf.current_state ≡ State.t310_running)
    × (s.rlf.in_sync_count ≡ 0)

loss-IsArmed :
    (state : Rrc.State) (s : System) (rlf : Context) (now : ℕ)
    → IsArmed (record s { rlf = rlf })
    → Returns IsArmed (out_of_sync_of state s rlf now)
loss-IsArmed Rrc.State.connected s rlf now (low, running, none_yet) = rw running (low, refl, refl)
loss-IsArmed state s rlf now ok = ok

back-blocks :
    (s : System) (now : ℕ)
    → IsArmed s
    → handle_sync_indication s Indication.in_sync now ≡ Outcome.blocked
unfolding handle_sync_indication
back-blocks s now (low, running, none_yet) =
    let reached : leb s.rlf.n311_threshold ((s.rlf.in_sync_count + 1) % 2 ^ 8) ≡ true =
      le→leb s.rlf.n311_threshold ((s.rlf.in_sync_count + 1) % 2 ^ 8) (omega arith) in
    simp (running, reached) refl

stays_blocked : (row : List (Indication × ℕ)) → handle_all Outcome.blocked row ≡ Outcome.blocked
unfolding handle_all
stays_blocked [] = refl
stays_blocked (i ∷ row) = refl

losses-blocks :
    (o : Outcome) (times : List ℕ) (now : ℕ) (rest : List (Indication × ℕ))
    → Returns IsArmed o
    → handle_all o (losses times ++ (Indication.in_sync, now) ∷ rest) ≡ Outcome.blocked
unfolding handle_all losses handle_sync_indication
losses-blocks (Outcome.returned s) [] now rest ok =
    ap (λ o. handle_all o rest) (back-blocks s now ok) ∙ stays_blocked rest
losses-blocks (Outcome.returned s) (t ∷ times) now rest ok =
    losses-blocks (handle_sync_indication s Indication.out_of_sync t) times now rest (
      loss-IsArmed s.ue.current_state s
        (record s.rlf {
          total_out_of_sync_indications = (s.rlf.total_out_of_sync_indications + 1) % 2 ^ 64;
        })
        t ok)
losses-blocks Outcome.blocked times now rest ok = elim ok [ ]

-- With a threshold N311 of at most one, while T310 runs with nothing counted: whatever number of losses
-- of synchronisation comes before it, the first indication that synchronisation is back ends in a wait
-- for a mutex that the thread itself holds, and no indication after it is handled.
pub handle_all-blocks :
    (s : System) (times : List ℕ) (now : ℕ) (rest : List (Indication × ℕ))
    → s.rlf.n311_threshold ≤ 1
    → s.rlf.current_state ≡ State.t310_running
    → s.rlf.in_sync_count ≡ 0
    → handle_all (Outcome.returned s) (losses times ++ (Indication.in_sync, now) ∷ rest)
      ≡ Outcome.blocked
handle_all-blocks s times now rest low running none_yet =
    losses-blocks (Outcome.returned s) times now rest (low, running, none_yet)
