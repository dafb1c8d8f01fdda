-- ===== src/PduSession/Sessions.antt =====
-- What a run of creates, releases and changes does to the sessions of src/nas/pdu_session.c.
use uesim.Common.{
  ℕ, ◌+◌, ◌≡◌, refl, ap, arith, true, false, none, some, ◌==◌, Option-cases, ◌⊎◌, inl, inr, length,
  Status, find_first, length-remove_first, find_first-remove_other, find_first-update_self,
  find_first-update_other,
}
use uesim.PduSession.{
  Session, SessionState, Config, Manager, has_id, find_by_id, release, change, modify, activate,
  suspend, resume, with_state, with_config, rate_or,
}

-- The changes that a session goes through by its identifier.
pub data Change : Type 0 where
  modified : Config → ℕ → Change
  activated suspend_requested resumed : Change

-- The function of the source for each.
unfoldable pub run_change : Manager → ℕ → Change → Status × Manager
run_change m session_id (Change.modified config now) = modify m session_id config now
run_change m session_id Change.activated = activate m session_id
run_change m session_id Change.suspend_requested = suspend m session_id
run_change m session_id Change.resumed = resume m session_id

-- What `change` does, for a function that keeps the identifier.
change-find_by_id :
    (m : Manager) (f : Session → Session) (session_id other : ℕ)
    → ((s : Session) → (f s).session_id ≡ s.session_id)
    → ¬ (other ≡ session_id)
    → (change m session_id f ≡ (Status.not_found, m))
      ⊎ ((s : Session) × (find_by_id m session_id ≡ some s)
          × ((change m session_id f).0 ≡ Status.success)
          × (find_by_id (change m session_id f).1 session_id ≡ some (f s))
          × (find_by_id (change m session_id f).1 other ≡ find_by_id m other))
unfolding change find_by_id
change-find_by_id m f session_id other keeps apart =
    elim (Option-cases (find_first (has_id session_id) m.sessions)) [
      | inl missing ↦ inl (rw (missing, change) refl)
      | inr (s, found) ↦
          rw (found, change)
            (inr (
              s,
              refl,
              refl,
              find_first-update_self (has_id session_id) f m.sessions
                  (λ x. ap (λ i. i == session_id) (keeps x)) found,
              find_first-update_other (has_id session_id) (has_id other) f m.sessions
                  (λ x same. apart_lem x.session_id same) (λ x. ap (λ i. i == other) (keeps x)),
            ))
    ]
  where
    apart_lem : (q : ℕ) → (q == session_id) ≡ true → (q == other) ≡ false
    apart_lem q same = ground (arith, apart)

-- The session as each change leaves it.
unfoldable pub changed : Change → Session → Session
changed (Change.modified config now) s = record s {
  config = record s.config {
    session_ambr_ul = rate_or s.config.session_ambr_ul config.session_ambr_ul;
    session_ambr_dl = rate_or s.config.session_ambr_dl config.session_ambr_dl;
  };
  modify_time = now;
  state = SessionState.active;
}
changed Change.activated s = record s { state = SessionState.active }
changed Change.suspend_requested s = record s { state = SessionState.suspended }
changed Change.resumed s = record s { state = SessionState.active }

-- Modifying, activating, suspending or resuming an identifier that no session has gives `not_found`
-- and changes nothing. Else the search gives the session found before, with exactly that change, and
-- every other identifier gives what it gave.
run_change-find_by_id :
    (m : Manager) (c : Change) (session_id other : ℕ)
    → ¬ (other ≡ session_id)
    → (run_change m session_id c ≡ (Status.not_found, m))
      ⊎ ((s : Session) × (find_by_id m session_id ≡ some s)
          × ((run_change m session_id c).0 ≡ Status.success)
          × (find_by_id (run_change m session_id c).1 session_id ≡ some (changed c s))
          × (find_by_id (run_change m session_id c).1 other ≡ find_by_id m other))
unfolding run_change changed modify activate suspend resume with_config
run_change-find_by_id m (Change.modified config now) session_id other apart =
    change-find_by_id m (with_config config now) session_id other (λ s. refl) apart
run_change-find_by_id m Change.activated session_id other apart =
    change-find_by_id m (with_state SessionState.active) session_id other (λ s. refl) apart
run_change-find_by_id m Change.suspend_requested session_id other apart =
    change-find_by_id m (with_state SessionState.suspended) session_id other (λ s. refl) apart
run_change-find_by_id m Change.resumed session_id other apart =
    change-find_by_id m (with_state SessionState.active) session_id other (λ s. refl) apart

change-next_session_id :
    (m : Manager) (session_id : ℕ) (f : Session → Session)
    → (change m session_id f).1.next_session_id ≡ m.next_session_id
unfolding change
change-next_session_id m session_id f = elim (Option-cases (find_by_id m session_id)) [
  | inl missing ↦ rw (missing, change) refl
  | inr (s, found) ↦ rw (found, change) refl
]

pub run_change-next_session_id :
    (m : Manager) (session_id : ℕ) (c : Change)
    → (run_change m session_id c).1.next_session_id ≡ m.next_session_id
unfolding run_change modify activate suspend resume
run_change-next_session_id m session_id (Change.modified config now) =
    change-next_session_id m session_id (with_config config now)
run_change-next_session_id m session_id Change.activated =
    change-next_session_id m session_id (with_state SessionState.active)
run_change-next_session_id m session_id Change.suspend_requested =
    change-next_session_id m session_id (with_state SessionState.suspended)
run_change-next_session_id m session_id Change.resumed =
    change-next_session_id m session_id (with_state SessionState.active)

pub release-next_session_id :
    (m : Manager) (session_id : ℕ) → (release m session_id).1.next_session_id ≡ m.next_session_id
unfolding release
release-next_session_id m session_id = elim (Option-cases (find_by_id m session_id)) [
  | inl missing ↦ rw (missing, release) refl
  | inr (s, found) ↦ rw (found, release) refl
]

-- Releasing an identifier that no session has gives `not_found` and changes nothing. Else one session
-- goes, and a search for any other identifier gives what it gave before.
release-find_by_id :
    (m : Manager) (session_id other : ℕ)
    → ¬ (other ≡ session_id)
    → ((find_by_id m session_id ≡ none) × (release m session_id ≡ (Status.not_found, m)))
      ⊎ (((release m session_id).0 ≡ Status.success)
          × (length (release m session_id).1.sessions + 1 ≡ length m.sessions)
          × (find_by_id (release m session_id).1 other ≡ find_by_id m other))
unfolding release find_by_id
release-find_by_id m session_id other apart =
    elim (Option-cases (find_first (has_id session_id) m.sessions)) [
      | inl missing ↦ inl (missing, rw (missing, release) refl)
      | inr (s, found) ↦
          rw (found, release)
            (inr (
              refl,
              length-remove_first (has_id session_id) m.sessions found,
              find_first-remove_other (has_id session_id) (has_id other) m.sessions
                  (λ x same. apart_lem x.session_id same),
            ))
    ]
  where
    apart_lem : (q : ℕ) → (q == session_id) ≡ true → (q == other) ≡ false
    apart_lem q same = ground (arith, apart)
