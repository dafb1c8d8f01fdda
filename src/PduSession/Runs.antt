-- ===== src/PduSession/Runs.antt =====
-- Runs of creates, releases and changes on the sessions of src/nas/pdu_session.c: the array's bound, and
-- the identifiers that are given out.
use uesim.Common.{
  ℕ, ◌+◌, ◌%◌, ◌^◌, ◌≤◌, ◌<◌, ◌≡◌, ◌∙◌, subst, refl, arith, List, [], ◌∷◌, ◌++◌, Bool, Option, none,
  some, leb, leb→le, leb→lt, le→leb, lt→leb, lt→ltb, ◌==◌, if◌then◌else◌, Bool-cases, Option-cases,
  ◌⊎◌, inl, inr, length, length-append, Status, find_first, remove_first, update_first, or_else,
  find_first-append_one, length-update_first, length-remove_first,
}
use uesim.QosFlow
use uesim.QosFlow.{Flow}
use uesim.PduSession.Sessions.{
  Change, run_change, run_change-next_session_id, release-next_session_id,
}
use uesim.PduSession.{
  Session, SessionType, SscMode, Snssai, Manager, Resources, SessionState, wrap_id, with_state,
  with_config, modify, activate, suspend, resume, blank_session, with_flow, add_session, create,
  has_id, find_by_id, release, change, internet_arp,
}

with_flow-session_id :
    (s : Session) (r : Status × QosFlow.Manager × Option Flow)
    → (with_flow s r).session_id ≡ s.session_id
with_flow-session_id s (Status.success, flows, some flow) = refl
with_flow-session_id s (Status.success, flows, none) = refl
with_flow-session_id s (status, flows, flow) = refl

add_session-cases :
    (m : Manager) (blank : Session) (r : Resources) (now : ℕ)
    (flows : Status × Option QosFlow.Manager)
    → ((t : Status) × (add_session m blank r now flows ≡ (t, m, none)))
      ⊎ ((s : Session) × (s.session_id ≡ blank.session_id)
          × (add_session m blank r now flows
              ≡ (Status.success, record m { sessions = m.sessions ++ s ∷ [] }, some s)))
add_session-cases m blank r now (Status.success, some flows) =
    let s =
      with_flow blank (QosFlow.create flows 9 (some internet_arp) none none now r.flow_mutex) in
    elim (Bool-cases r.session_mutex) [
      | inl made ↦ inr (s, with_flow-session_id blank _, rw made refl)
      | inr failed ↦ inl (Status.thread, rw failed refl)
    ]
add_session-cases m blank r now (Status.success, none) = inl (Status.success, refl)
add_session-cases m blank r now (status, flows) = inl (status, refl)

-- The manager with its counter moved on.
abbrev pub counted : Manager → Manager
counted m = record m { next_session_id = (m.next_session_id + 1) % 2 ^ 8 }

-- The three ways a create ends.
pub create-cases :
    (m : Manager) (kind : SessionType) (mode : SscMode) (snssai : Option Snssai) (now : ℕ)
    (r : Resources)
    → ((16 ≤ length m.sessions) × (create m kind mode snssai now r ≡ (Status.capacity, m, none)))
      ⊎ (((length m.sessions < 16)
            × (t : Status) × (create m kind mode snssai now r ≡ (t, counted m, none)))
          ⊎ ((length m.sessions < 16)
              × (s : Session) × (s.session_id ≡ wrap_id m.next_session_id)
              × (create m kind mode snssai now r ≡ (
                Status.success,
                record (counted m) { sessions = m.sessions ++ s ∷ [] },
                some s,
              ))))
unfolding create blank_session
create-cases m kind mode snssai now r = elim (Bool-cases (leb 16 (length m.sessions))) [
  | inl full ↦ inl (leb→le 16 (length m.sessions) full, rw (full, create) refl)
  | inr room ↦
      let short = leb→lt 16 (length m.sessions) room in
      let split =
        add_session-cases (counted m) (blank_session m kind mode snssai now) r now
          (QosFlow.create_manager r.flows_allocated r.flows_mutex) in
      elim split [
        | inl (t, e) ↦ inr (inl (short, t, rw (room, create) e))
        | inr (s, same, e) ↦ inr (inr (short, s, same, rw (room, create) e))
      ]
]

-- The calls that change a UE's sessions.
pub data Request : Type 0 where
  create_session : SessionType → SscMode → Option Snssai → ℕ → Resources → Request
  release_session : ℕ → Request
  change_session : ℕ → Change → Request

-- One call, its status dropped.
unfoldable pub apply : Manager → Request → Manager
apply m (Request.create_session kind mode snssai now r) = (create m kind mode snssai now r).1
apply m (Request.release_session session_id) = (release m session_id).1
apply m (Request.change_session session_id c) = (run_change m session_id c).1

unfoldable pub apply_all : Manager → List Request → Manager
apply_all m [] = m
apply_all m (q ∷ qs) = apply_all (apply m q) qs

-- Whether a call takes an identifier from the counter: a create while there is room.
unfoldable pub takes : Manager → Request → ℕ
takes m (Request.create_session kind mode snssai now r) =
    if leb 16 (length m.sessions) then 0 else 1
takes m q = 0

unfoldable pub taken : Manager → List Request → ℕ
taken m [] = 0
taken m (q ∷ qs) = takes m q + taken (apply m q) qs

-- Only a create moves the counter.
apply-next_session_id :
    (m : Manager) (q : Request)
    → (apply m q).next_session_id % 2 ^ 8 ≡ (m.next_session_id + takes m q) % 2 ^ 8
unfolding apply takes
apply-next_session_id m (Request.create_session kind mode snssai now r) =
    elim (create-cases m kind mode snssai now r) [
      | inl (full, e) ↦ rw (apply, takes, e, le→leb 16 (length m.sessions) full) omega arith
      | inr (inl (room, t, e)) ↦
          rw (apply, takes, e, lt→leb 16 (length m.sessions) room) omega arith
      | inr (inr (room, s, same, e)) ↦
          rw (apply, takes, e, lt→leb 16 (length m.sessions) room) omega arith
    ]
apply-next_session_id m (Request.release_session session_id) =
    rw (apply, takes, release-next_session_id m session_id) omega arith
apply-next_session_id m (Request.change_session session_id c) =
    rw (apply, takes, run_change-next_session_id m session_id c) omega arith

apply_all-next_session_id :
    (m : Manager) (qs : List Request)
    → (apply_all m qs).next_session_id % 2 ^ 8 ≡ (m.next_session_id + taken m qs) % 2 ^ 8
unfolding apply_all taken
apply_all-next_session_id m [] = omega arith
apply_all-next_session_id m (q ∷ qs) =
    omega (arith, apply-next_session_id m q, apply_all-next_session_id (apply m q) qs)

wrap_id_high : {n : ℕ} → 15 < n → wrap_id n ≡ 1
unfolding wrap_id
wrap_id_high {n = n} high = rw (lt→ltb 15 n high) refl

-- However sessions come and go: once between 15 and 254 identifiers have been taken from a counter that
-- started at 1, every further create that succeeds gives its session the identifier 1, whether or not
-- an older session still has it.
pub create-session_id_late :
    (m : Manager) (qs : List Request) (kind : SessionType) (mode : SscMode) (snssai : Option Snssai)
    (now : ℕ) (r : Resources) {s : Session}
    → m.next_session_id ≡ 1
    → 15 ≤ taken m qs
    → taken m qs ≤ 254
    → (create (apply_all m qs) kind mode snssai now r).2 ≡ some s
    → s.session_id ≡ 1
create-session_id_late m qs kind mode snssai now r {s = s} start low high made =
    elim (create-cases (apply_all m qs) kind mode snssai now r) [
      | inl (full, e) ↦ absurd cc
      | inr (inl (room, t, e)) ↦ absurd cc
      | inr (inr (room, s', same, e)) ↦
          let behind : 15 < (apply_all m qs).next_session_id =
            omega (arith, apply_all-next_session_id m qs) in
          let one : s'.session_id ≡ 1 = same ∙ wrap_id_high behind in
          let made_it : s' ≡ s = cc in subst (λ x. x.session_id ≡ 1) made_it one
    ]

-- Every session has an identifier of at most 15.
unfoldable pub AreNumbered : List Session → Type 0
AreNumbered [] = Unit {0}
AreNumbered (s ∷ ss) = (s.session_id ≤ 15) × AreNumbered ss

AreNumbered-append_one :
    (ss : List Session) (s : Session)
    → AreNumbered ss
    → s.session_id ≤ 15
    → AreNumbered (ss ++ s ∷ [])
unfolding AreNumbered
AreNumbered-append_one [] s ok low = (low, tt)
AreNumbered-append_one (t ∷ ss) s (t_low, ok) low = (t_low, AreNumbered-append_one ss s ok low)

AreNumbered-remove_first :
    (p : Session → Bool) (ss : List Session) → AreNumbered ss → AreNumbered (remove_first p ss)
unfolding AreNumbered remove_first
AreNumbered-remove_first p [] ok = ok
AreNumbered-remove_first p (t ∷ ss) (t_low, ok) = elim (Bool-cases (p t)) [
  | inl hit ↦ rw hit ok
  | inr miss ↦ rw miss (t_low, AreNumbered-remove_first p ss ok)
]

AreNumbered-update_first :
    (p : Session → Bool) (f : Session → Session) (ss : List Session)
    → ((s : Session) → (f s).session_id ≡ s.session_id)
    → AreNumbered ss
    → AreNumbered (update_first p f ss)
unfolding AreNumbered update_first
AreNumbered-update_first p f [] keeps ok = ok
AreNumbered-update_first p f (t ∷ ss) keeps (t_low, ok) = elim (Bool-cases (p t)) [
  | inl hit ↦ rw hit (omega (arith, keeps t), ok)
  | inr miss ↦ rw miss (t_low, AreNumbered-update_first p f ss keeps ok)
]

unfoldable pub IsValid : Manager → Type 0
IsValid m = (length m.sessions ≤ 16) × AreNumbered m.sessions

wrap_id_bound : (n : ℕ) → wrap_id n ≤ 15
unfolding wrap_id
wrap_id_bound n = ground arith

apply-IsValid-create :
    (m : Manager) (kind : SessionType) (mode : SscMode) (snssai : Option Snssai) (now : ℕ)
    (r : Resources)
    → IsValid m
    → IsValid (create m kind mode snssai now r).1
unfolding IsValid
apply-IsValid-create m kind mode snssai now r (bound, numbered) =
    elim (create-cases m kind mode snssai now r) [
      | inl (full, e) ↦ rw e (bound, numbered)
      | inr (inl (room, t, e)) ↦ rw e (bound, numbered)
      | inr (inr (room, s, same, e)) ↦ rw e (
        omega (arith, length-append m.sessions (s ∷ [])),
        AreNumbered-append_one m.sessions s numbered
            (omega (arith, same, wrap_id_bound m.next_session_id)),
      )
    ]

apply-IsValid-release :
    (m : Manager) (session_id : ℕ) → IsValid m → IsValid (release m session_id).1
unfolding IsValid release find_by_id
apply-IsValid-release m session_id (bound, numbered) =
    elim (Option-cases (find_first (has_id session_id) m.sessions)) [
      | inl missing ↦ rw (missing, release) (bound, numbered)
      | inr (s, found) ↦
          rw (found, release)
            (
              omega (arith, length-remove_first (has_id session_id) m.sessions found),
              AreNumbered-remove_first (has_id session_id) m.sessions numbered,
            )
    ]

apply-IsValid-change :
    (m : Manager) (session_id : ℕ) (f : Session → Session)
    → ((s : Session) → (f s).session_id ≡ s.session_id)
    → IsValid m
    → IsValid (change m session_id f).1
unfolding IsValid change find_by_id
apply-IsValid-change m session_id f keeps (bound, numbered) =
    elim (Option-cases (find_first (has_id session_id) m.sessions)) [
      | inl missing ↦ rw (missing, change) (bound, numbered)
      | inr (s, found) ↦
          rw (found, change)
            (
              omega (arith, length-update_first (has_id session_id) f m.sessions),
              AreNumbered-update_first (has_id session_id) f m.sessions keeps numbered,
            )
    ]

apply-IsValid : (m : Manager) (q : Request) → IsValid m → IsValid (apply m q)
unfolding apply run_change modify activate suspend resume with_config
apply-IsValid m (Request.create_session kind mode snssai now r) ok =
    apply-IsValid-create m kind mode snssai now r ok
apply-IsValid m (Request.release_session session_id) ok = apply-IsValid-release m session_id ok
apply-IsValid m (Request.change_session session_id (Change.modified config now)) ok =
    apply-IsValid-change m session_id (with_config config now) (λ s. refl) ok
apply-IsValid m (Request.change_session session_id Change.activated) ok =
    apply-IsValid-change m session_id (with_state SessionState.active) (λ s. refl) ok
apply-IsValid m (Request.change_session session_id Change.suspend_requested) ok =
    apply-IsValid-change m session_id (with_state SessionState.suspended) (λ s. refl) ok
apply-IsValid m (Request.change_session session_id Change.resumed) ok =
    apply-IsValid-change m session_id (with_state SessionState.active) (λ s. refl) ok

-- Whatever is asked of a UE's sessions: there are never more than sixteen, and no identifier is above
-- 15, though the counter runs through 256 values.
pub apply_all-IsValid : (m : Manager) (qs : List Request) → IsValid m → IsValid (apply_all m qs)
unfolding apply_all
apply_all-IsValid m [] ok = ok
apply_all-IsValid m (q ∷ qs) ok = apply_all-IsValid (apply m q) qs (apply-IsValid m q ok)

-- After a create that succeeds, a search gives what it gave before, and the new session only where no
-- older one has the identifier asked for.
create-find_by_id :
    (m : Manager) (kind : SessionType) (mode : SscMode) (snssai : Option Snssai)
    (now session_id : ℕ) (r : Resources) {s : Session}
    → (create m kind mode snssai now r).2 ≡ some s
    → find_by_id (create m kind mode snssai now r).1 session_id
      ≡ or_else (find_by_id m session_id) (if s.session_id == session_id then some s else none)
unfolding find_by_id
create-find_by_id m kind mode snssai now session_id r {s = s} made =
    elim (create-cases m kind mode snssai now r) [
      | inl (full, e) ↦ absurd cc
      | inr (inl (room, t, e)) ↦ absurd cc
      | inr (inr (room, s', same, e)) ↦
          let made_it : s' ≡ s = cc in
          rw e (rw (find_first-append_one (has_id session_id) m.sessions s') (rw made_it refl))
    ]
