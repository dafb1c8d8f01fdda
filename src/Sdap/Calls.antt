-- ===== src/Sdap/Calls.antt =====
-- All calls on an entity of src/protocol/sdap.c keep its counter of flows.
use Prim.Native.Nat.{bit_and, bit_or}
use uesim.Common.{
  ℕ, ◌≡◌, count, ◌==◌, List, [], ◌∷◌, Bool, true, false, Option, none, some, ltb, if◌then◌else◌,
  Bool-cases, inl, inr, length, Status,
}
use uesim.Common.Int8.{is_negative}
use uesim.Sdap.{
  Config, Entity, max_qos_flows, configure_entity, activate_entity, deactivate_entity, reset_stats,
}
use uesim.Sdap.Table.{
  map_qos_flow, unmap_qos_flow, update_qos_mapping, get_drb_for_qos, is_reflective_qos,
}
use uesim.Sdap.Data.{
  Pdu, Parsed, Sdu, Answers, build_data_pdu, parse_data_pdu, create_buffer, process_ul_sdu,
  process_dl_pdu, process_dl_sdu, count_rx, counted_tx, reflect, delivered, parsed_dl,
  mapping_error,
}
use uesim.Sdap.Control.{
  send_end_marker, send_reflective_qos, handle_control_pdu, count_rx_control, sent,
  apply_reflective,
}
use uesim.Sdap.Slots.{is_used}
use uesim.Sdap.Count.{IsCounted, map-IsCounted, unmap-IsCounted, update-IsCounted}

-- The calls on an entity, with the answers of locks and allocator.
pub data Call : Type 0 where
  map_flow : ℕ → ℕ → Bool → Bool → Call
  unmap_flow : ℕ → Bool → Call
  update_flow : ℕ → ℕ → Bool → Call
  send : List ℕ → ℕ → Bool → Bool → Bool → Call
  receive : List ℕ → ℕ → Answers → Call
  deliver : Sdu → Bool → Call
  control : List ℕ → Bool → Call
  end_marker : ℕ → Bool → Bool → Call
  announce : ℕ → ℕ → Bool → Bool → Call
  activate deactivate reset : Bool → Call
  configure : Config → Bool → Call

unfoldable pub apply : Entity → Call → Entity
apply e (Call.map_flow q d r locked) = (map_qos_flow e q d r locked).1
apply e (Call.unmap_flow q locked) = (unmap_qos_flow e q locked).1
apply e (Call.update_flow q d locked) = (update_qos_mapping e q d locked).1
apply e (Call.send sdu q allocated buffer locked) =
    (process_ul_sdu e sdu q allocated buffer locked).1
apply e (Call.receive pdu d answers) = (process_dl_pdu e pdu d answers).1
apply e (Call.deliver sdu locked) = (process_dl_sdu e sdu locked).1
apply e (Call.control pdu locked) = (handle_control_pdu e pdu locked).1
apply e (Call.end_marker q allocated buffer) = (send_end_marker e q allocated buffer).1
apply e (Call.announce q d allocated buffer) = (send_reflective_qos e q d allocated buffer).1
apply e (Call.activate locked) = (activate_entity e locked).1
apply e (Call.deactivate locked) = (deactivate_entity e locked).1
apply e (Call.reset locked) = (reset_stats e locked).1
apply e (Call.configure config locked) = (configure_entity e config locked).1

unfoldable pub apply_all : Entity → List Call → Entity
apply_all e [] = e
apply_all e (c ∷ cs) = apply_all (apply e c) cs

count_rx-IsCounted :
    (e : Entity) (n : ℕ) (locked : Bool) → IsCounted e → IsCounted (count_rx e n locked)
unfolding IsCounted
count_rx-IsCounted e n true ok = ok
count_rx-IsCounted e n false ok = ok

reflect-IsCounted :
    (e : Entity) (p : Parsed) (d : ℕ) (locked : Bool)
    → IsCounted e
    → IsCounted (reflect e p d locked)
reflect-IsCounted e p d locked ok = elim (Bool-cases p.rqi) [
  | inl on ↦ simp on (map-IsCounted e p.qfi d true locked ok)
  | inr off ↦ simp off ok
]

delivered-IsCounted :
    (e : Entity) (p : Parsed) (d : ℕ) (a : Answers) (s : Status)
    → IsCounted e
    → IsCounted (delivered e p d a s).1
delivered-IsCounted e p d a Status.success ok =
    count_rx-IsCounted (reflect e p d a.map_locked) (length p.sdu_data) a.stats_locked
      (reflect-IsCounted e p d a.map_locked ok)
delivered-IsCounted e p d a s ok = ok

parsed_dl-IsCounted :
    (e : Entity) (d : ℕ) (a : Answers) (r : Status × Option Parsed)
    → IsCounted e
    → IsCounted (parsed_dl e d a r).1
parsed_dl-IsCounted e d a (s, some p) ok =
    delivered-IsCounted e p d a
      (create_buffer (length p.sdu_data) a.sdu_allocated a.buffer_allocated) ok
parsed_dl-IsCounted e d a (s, none) ok = ok

send-IsCounted :
    (e : Entity) (n : ℕ) (locked : Bool) (r : Status × Option Pdu)
    → IsCounted e
    → IsCounted (counted_tx e n locked r).1
unfolding IsCounted
send-IsCounted e n true (Status.success, pdu) ok = ok
send-IsCounted e n false (Status.success, pdu) ok = ok
send-IsCounted e n locked (s, pdu) ok = ok

mapping_error-IsCounted : (e : Entity) → IsCounted e → IsCounted (mapping_error e)
unfolding IsCounted
mapping_error-IsCounted e ok = ok

-- Whichever branch a test selects.
choose-IsCounted :
    {A : Type 0} (b : Bool) (x y : Status × Entity × A)
    → IsCounted x.1
    → IsCounted y.1
    → IsCounted (if b then x else y).1
choose-IsCounted true x y kept other = kept
choose-IsCounted false x y other kept = kept

choose_pair-IsCounted :
    (b : Bool) (x y : Status × Entity)
    → IsCounted x.1
    → IsCounted y.1
    → IsCounted (if b then x else y).1
choose_pair-IsCounted true x y kept other = kept
choose_pair-IsCounted false x y other kept = kept

ul-IsCounted :
    (e : Entity) (sdu : List ℕ) (q : ℕ) (allocated buffer locked : Bool)
    → IsCounted e
    → IsCounted (process_ul_sdu e sdu q allocated buffer locked).1
unfolding process_ul_sdu
ul-IsCounted e sdu q allocated buffer locked ok =
    choose-IsCounted e.active _ _
      (choose-IsCounted (is_negative (get_drb_for_qos e q)) _ _ (mapping_error-IsCounted e ok) (
        send-IsCounted e (length sdu) locked
          (build_data_pdu sdu q (is_reflective_qos e q) allocated buffer) ok))
      ok

deliver-IsCounted :
    (e : Entity) (sdu : Sdu) (locked : Bool)
    → IsCounted e
    → IsCounted (process_dl_sdu e sdu locked).1
unfolding process_dl_sdu
deliver-IsCounted e sdu locked ok =
    choose_pair-IsCounted e.active _ _
      (choose_pair-IsCounted (ltb 63 sdu.qfi) _ _ ok (
        choose_pair-IsCounted (is_negative (get_drb_for_qos e sdu.qfi)) _ _
          (mapping_error-IsCounted e ok) (count_rx-IsCounted e (length sdu.bytes) locked ok)))
      ok

sent-IsCounted : (e : Entity) (pdu : List ℕ) (s : Status) → IsCounted e → IsCounted (sent e pdu s).1
unfolding IsCounted
sent-IsCounted e pdu Status.success ok = ok
sent-IsCounted e pdu s ok = ok

count_rx_control-IsCounted : (e : Entity) → IsCounted e → IsCounted (count_rx_control e)
unfolding IsCounted
count_rx_control-IsCounted e ok = ok

apply_reflective-IsCounted :
    (e : Entity) (q : ℕ) (rest : List ℕ) (locked : Bool)
    → IsCounted e
    → IsCounted (apply_reflective e q rest locked)
apply_reflective-IsCounted e q [] locked ok = ok
apply_reflective-IsCounted e q (d ∷ rest) locked ok = map-IsCounted e q d true locked ok

control-IsCounted :
    (e : Entity) (pdu : List ℕ) (locked : Bool)
    → IsCounted e
    → IsCounted (handle_control_pdu e pdu locked).1
unfolding handle_control_pdu
control-IsCounted e [] locked ok = ok
control-IsCounted e (first ∷ []) locked ok = ok
control-IsCounted e (first ∷ q ∷ rest) locked ok =
    let kept = count_rx_control-IsCounted e ok in
    elim (Bool-cases (bit_and first 15 == 0)) [
      | inl marker ↦ simp (handle_control_pdu, marker) kept
      | inr other ↦ elim (Bool-cases (bit_and first 15 == 1)) [
        | inl mapping ↦
            simp (handle_control_pdu, other, mapping)
              (apply_reflective-IsCounted (count_rx_control e) q rest locked kept)
        | inr unknown ↦ simp (handle_control_pdu, other, unknown) kept
      ]
    ]

switch-IsCounted :
    (e : Entity) (locked : Bool)
    → IsCounted e
    → IsCounted (activate_entity e locked).1
      × IsCounted (deactivate_entity e locked).1
      × IsCounted (reset_stats e locked).1
unfolding IsCounted activate_entity deactivate_entity reset_stats
switch-IsCounted e true ok = (ok, ok, ok)
switch-IsCounted e false ok = (ok, ok, ok)

-- A configuration comes with a table of 64 slots, and with the number of those in use.
unfoldable pub IsConfiguring : Call → Type 0
IsConfiguring (Call.configure config locked) =
    (config.num_qos_flows ≡ count is_used config.qos_mappings)
    × (length config.qos_mappings ≡ max_qos_flows)
IsConfiguring c = Unit {0}

unfoldable pub AllConfiguring : List Call → Type 0
AllConfiguring [] = Unit {0}
AllConfiguring (c ∷ cs) = IsConfiguring c × AllConfiguring cs

configure-IsCounted :
    (e : Entity) (config : Config) (locked : Bool)
    → (config.num_qos_flows ≡ count is_used config.qos_mappings)
      × (length config.qos_mappings ≡ max_qos_flows)
    → IsCounted e
    → IsCounted (configure_entity e config locked).1
unfolding configure_entity IsCounted
configure-IsCounted e config true right ok = right
configure-IsCounted e config false right ok = ok

apply-IsCounted : (e : Entity) (c : Call) → IsConfiguring c → IsCounted e → IsCounted (apply e c)
unfolding apply process_dl_pdu send_end_marker send_reflective_qos IsConfiguring
apply-IsCounted e (Call.map_flow q d r locked) right ok = map-IsCounted e q d r locked ok
apply-IsCounted e (Call.unmap_flow q locked) right ok = unmap-IsCounted e q locked ok
apply-IsCounted e (Call.update_flow q d locked) right ok = update-IsCounted e q d locked ok
apply-IsCounted e (Call.send sdu q allocated buffer locked) right ok =
    ul-IsCounted e sdu q allocated buffer locked ok
apply-IsCounted e (Call.receive pdu d answers) right ok =
    parsed_dl-IsCounted e d answers (parse_data_pdu pdu answers.copy_allocated) ok
apply-IsCounted e (Call.deliver sdu locked) right ok = deliver-IsCounted e sdu locked ok
apply-IsCounted e (Call.control pdu locked) right ok = control-IsCounted e pdu locked ok
apply-IsCounted e (Call.end_marker q allocated buffer) right ok =
    sent-IsCounted e (bit_or 128 0 ∷ q ∷ []) (create_buffer 2 allocated buffer) ok
apply-IsCounted e (Call.announce q d allocated buffer) right ok =
    sent-IsCounted e (bit_or 128 1 ∷ q ∷ d ∷ []) (create_buffer 3 allocated buffer) ok
apply-IsCounted e (Call.activate locked) right ok = (switch-IsCounted e locked ok).0
apply-IsCounted e (Call.deactivate locked) right ok = (switch-IsCounted e locked ok).1
apply-IsCounted e (Call.reset locked) right ok = (switch-IsCounted e locked ok).2
apply-IsCounted e (Call.configure config locked) right ok =
    configure-IsCounted e config locked right ok

-- Through all calls on an entity, with any failure of a lock or an allocation: if `num_qos_flows` is the
-- number of slots in use of a table of 64, it stays so, although it is counted on eight bits. A
-- configuration brings a table and a number of its own, and is required to bring them in agreement.
pub apply_all-IsCounted :
    (e : Entity) (cs : List Call) → AllConfiguring cs → IsCounted e → IsCounted (apply_all e cs)
unfolding apply_all AllConfiguring
apply_all-IsCounted e [] right ok = ok
apply_all-IsCounted e (c ∷ cs) (first, rest) ok =
    apply_all-IsCounted (apply e c) cs rest (apply-IsCounted e c first ok)
