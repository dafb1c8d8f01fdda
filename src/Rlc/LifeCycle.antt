-- ===== src/Rlc/LifeCycle.antt =====
-- The life cycle of an entity of src/protocol/rlc.c: what its two flags, `active` and `status`, say
-- together.
use uesim.Common.{
  ℕ, ◌<◌, ◌≡◌, leb, leb→lt, refl, List, [], ◌∷◌, Bool, true, false, Option, none, some, ◌==◌,
  if◌then◌else◌, Bool-cases, ◌⊎◌, inl, inr, length, Status,
}
use uesim.Rlc.{
  Mode, State, Config, Entity, Pdu, create_entity, configure_entity, activate_entity,
  deactivate_entity, suspend_entity, resume_entity, fresh_entity,
}
use uesim.Rlc.Transfer.{process_tx_data, process_rx_data}

-- The calls that change an entity's state; the flag says whether the lock was taken.
pub data Call : Type 0 where
  configure : Config → Bool → Call
  activate deactivate suspend resume : Bool → Call

unfoldable pub apply : Entity → Call → Entity
apply e (Call.configure config locked) = (configure_entity e config locked).1
apply e (Call.activate locked) = (activate_entity e locked).1
apply e (Call.deactivate locked) = (deactivate_entity e locked).1
apply e (Call.suspend locked) = (suspend_entity e locked).1
apply e (Call.resume locked) = (resume_entity e locked).1

unfoldable pub apply_all : Entity → List Call → Entity
apply_all e [] = e
apply_all e (c ∷ cs) = apply_all (apply e c) cs

-- The two flags agree, and no entity that was created is idle.
unfoldable pub IsCoherent : Entity → Type 0
IsCoherent e =
    ((e.active ≡ true) × (e.status ≡ State.active))
    ⊎ ((e.active ≡ false) × ((e.status ≡ State.configured) ⊎ (e.status ≡ State.suspended)))

resume-IsCoherent :
    (e : Entity) (locked : Bool) → IsCoherent e → IsCoherent (resume_entity e locked).1
unfolding IsCoherent resume_entity
resume-IsCoherent e true (inl (on, up)) = rw (resume_entity, up) (inl (on, up))
resume-IsCoherent e false (inl (on, up)) = rw (resume_entity, up) (inl (on, up))
resume-IsCoherent e true (inr (off, inl ready)) = rw (resume_entity, ready) (inr (off, inl ready))
resume-IsCoherent e false (inr (off, inl ready)) = rw (resume_entity, ready) (inr (off, inl ready))
resume-IsCoherent e true (inr (off, inr held)) = rw (resume_entity, held) (inl (refl, refl))
resume-IsCoherent e false (inr (off, inr held)) = rw (resume_entity, held) (inr (off, inr held))

apply-IsCoherent : (e : Entity) (c : Call) → IsCoherent e → IsCoherent (apply e c)
unfolding IsCoherent apply configure_entity activate_entity deactivate_entity suspend_entity
apply-IsCoherent e (Call.configure config true) ok = ok
apply-IsCoherent e (Call.configure config false) ok = ok
apply-IsCoherent e (Call.activate true) ok = inl (refl, refl)
apply-IsCoherent e (Call.activate false) ok = ok
apply-IsCoherent e (Call.deactivate true) ok = inr (refl, inl refl)
apply-IsCoherent e (Call.deactivate false) ok = ok
apply-IsCoherent e (Call.suspend true) ok = inr (refl, inr refl)
apply-IsCoherent e (Call.suspend false) ok = ok
apply-IsCoherent e (Call.resume locked) ok = resume-IsCoherent e locked ok

-- Whatever calls an entity goes through, failed locks and refused resumes included: if its two flags
-- agreed, they agree after, so the second check that the data functions make never decides.
pub apply_all-IsCoherent :
    (e : Entity) (cs : List Call) → IsCoherent e → IsCoherent (apply_all e cs)
unfolding apply_all
apply_all-IsCoherent e [] ok = ok
apply_all-IsCoherent e (c ∷ cs) ok = apply_all-IsCoherent (apply e c) cs (apply-IsCoherent e c ok)

-- What `rlc_create_entity` may answer: an entity that is configured and not active, in the mode asked
-- for, with `success`, or none with an error.
unfoldable pub HandsOut : Mode → Status × Option Entity → Type 0
HandsOut mode answer =
    ((e : Entity) × (answer ≡ (Status.success, some e))
      × (e.active ≡ false)
      × (e.status ≡ State.configured)
      × (e.mode ≡ mode)
      × (e.bearer_type < 32))
    ⊎ ((answer ≡ (Status.invalid_param, none))
        ⊎ (answer ≡ (Status.memory, none))
        ⊎ (answer ≡ (Status.thread, none)))

-- Whatever the system's calls answer, `rlc_create_entity` hands out an entity exactly when it reports
-- success; the entity is configured and not active, in the mode asked for, on a bearer below 32.
create_entity-HandsOut :
    (id : ℕ) (allocated mutex cond mode_mutex mode_cond : Bool) (bearer direction : ℕ) (mode : Mode)
    (config : Option Config)
    → HandsOut mode
        (create_entity id allocated mutex cond mode_mutex mode_cond bearer direction mode config)
unfolding create_entity HandsOut
create_entity-HandsOut id allocated mutex cond mode_mutex mode_cond bearer direction mode config =
    elim (Bool-cases (leb 32 bearer)) [
      | inl high ↦ rw (create_entity, high) (inr (inl refl))
      | inr low ↦
          rw (create_entity, low)
            (created allocated mutex cond mode_mutex mode_cond (leb→lt 32 bearer low))
    ]
  where
    created :
        (a m c mm mc : Bool)
        → bearer < 32
        → HandsOut mode (
            if a
            then if m
              then if c
                then if mm
                  then if mc
                    then (Status.success, some (fresh_entity id bearer direction mode config))
                    else (Status.thread, none)
                  else (Status.thread, none)
                else (Status.thread, none)
              else (Status.thread, none)
            else (Status.memory, none))
    created true true true true true low = inl (_, refl, refl, refl, refl, low)
    created true true true true false low = inr (inr (inr refl))
    created true true true false mc low = inr (inr (inr refl))
    created true true false mm mc low = inr (inr (inr refl))
    created true false c mm mc low = inr (inr (inr refl))
    created false m c mm mc low = inr (inr (inl refl))

-- An entity that is not active passes nothing either way: both data functions answer `invalid_param`,
-- send no PDU, hand out no SDU and leave the entity as it was.
process_data-inactive :
    (alloc : ℕ → Bool) (allocated : Bool) (e : Entity) (sdu : List ℕ) (pdus : List Pdu)
    → e.active ≡ false
    → (process_tx_data alloc e sdu ≡ (Status.invalid_param, e, []))
      × (process_rx_data allocated e pdus ≡ (Status.invalid_param, none))
unfolding process_tx_data process_rx_data
process_data-inactive alloc allocated e sdu pdus off = (sending, receiving pdus)
  where
    sending : process_tx_data alloc e sdu ≡ (Status.invalid_param, e, [])
    sending = elim (Bool-cases (length sdu == 0)) [
      | inl empty ↦ rw (process_tx_data, empty) refl
      | inr full ↦ rw (process_tx_data, full, off) refl
    ]

    receiving : (ps : List Pdu) → process_rx_data allocated e ps ≡ (Status.invalid_param, none)
    receiving [] = refl
    receiving (p ∷ ps) = rw (process_rx_data, off) refl
