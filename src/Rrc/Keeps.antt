-- ===== src/Rrc/Keeps.antt =====
-- What the handlers of the network's messages in src/protocol/rrc.c keep of a UE's state.
use uesim.Common.{
  ℕ, List, [], ◌∷◌, none, some, Bool-cases, Option-cases, inl, inr, Status, find_first,
}
use uesim.Rrc.{
  State, Ue, Response, Answers, is_valid_state_transition, change_state, on_success, has_cell,
  handle_procedure_response, send_setup_complete, send_reest_complete, send_handover_confirm,
  handle_handover_command,
}
use uesim.Rrc.Procedures.{handle_all}

-- A predicate that holds of idle and of connected, the states that messages lead to.
module _ (P : State → Type 0) (at_idle : P State.idle) (at_connected : P State.connected) where
  -- If it holds before, then after as well.
  abbrev pub Keeps : Ue → Ue → Type 0
  Keeps ue ue' = P ue.current_state → P ue'.current_state

  pub change_state-Keeps :
      (ue : Ue) (target : State) (now : ℕ) → P target → Keeps ue (change_state ue target now).1
  unfolding change_state
  change_state-Keeps ue target now allowed held =
      elim (Bool-cases (is_valid_state_transition ue.current_state target)) [
        | inl valid ↦ simp (change_state, valid) allowed
        | inr barred ↦ simp (change_state, barred) held
      ]

  on_success-Keeps :
      (ue : Ue) (r : Status × Ue) (next : Ue → Status × Ue)
      → Keeps ue r.1
      → ((ue' : Ue) → Keeps ue' (next ue').1)
      → Keeps ue (on_success r next).1
  on_success-Keeps ue (Status.success, ue') next one two = λ held. two ue' (one held)
  on_success-Keeps ue (s, ue') next one two = one

  handover_command-Keeps :
      (ue : Ue) (pci : ℕ) (a : Answers) → Keeps ue (handle_handover_command ue (some pci) a).1
  handover_command-Keeps ue pci a =
      elim (Option-cases (find_first (has_cell pci) ue.candidate_gnbs)) [
        | inl absent ↦ simp (handle_handover_command, absent) (λ held. held)
        | inr (target, found) ↦
            simp (handle_handover_command, found)
              (on_success-Keeps ue (a.gnb_connected, ue) _ (λ held. held)
                (λ ue'.
                  on_success-Keeps ue' (send_handover_confirm ue' a) _ (λ held. held)
                    (λ ue'' held. held)))
      ]

  pub handle-Keeps :
      (ue : Ue) (response : Response) (a : Answers)
      → Keeps ue (handle_procedure_response ue response a).1
  unfolding handle_procedure_response
  handle-Keeps ue (Response.setup none) a held = held
  handle-Keeps ue (Response.setup (some id)) a held =
      on_success-Keeps ue (send_setup_complete ue a) (λ ue'. change_state ue' State.connected a.now)
        (λ held'. held') (λ ue'. change_state-Keeps ue' State.connected a.now at_connected) held
  handle-Keeps ue (Response.reestablishment none) a held = held
  handle-Keeps ue (Response.reestablishment (some id)) a held =
      on_success-Keeps ue (send_reest_complete ue a) (λ ue'. change_state ue' State.connected a.now)
        (λ held'. held') (λ ue'. change_state-Keeps ue' State.connected a.now at_connected) held
  handle-Keeps ue (Response.reconfiguration none) a held = held
  handle-Keeps ue (Response.reconfiguration (some id)) a held = held
  handle-Keeps ue (Response.handover_command none) a held = held
  handle-Keeps ue (Response.handover_command (some pci)) a held =
      handover_command-Keeps ue pci a held
  handle-Keeps ue Response.ue_capability_enquiry a held = held
  handle-Keeps ue Response.connection_release a held =
      change_state-Keeps ue State.idle a.now at_idle held
  handle-Keeps ue Response.other a held = held

  pub handle_all-Keeps :
      (ue : Ue) (incoming : List (Response × Answers)) → Keeps ue (handle_all ue incoming)
  unfolding handle_all
  handle_all-Keeps ue [] held = held
  handle_all-Keeps ue ((response, a) ∷ rest) held =
      handle_all-Keeps (handle_procedure_response ue response a).1 rest
        (handle-Keeps ue response a held)
