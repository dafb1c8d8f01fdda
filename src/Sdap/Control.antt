-- ===== src/Sdap/Control.antt =====
-- The control PDUs of src/protocol/sdap.c: the end marker and the reflective mapping.
use Prim.Native.Nat.{bit_and, bit_or}
use uesim.Common.{
  ℕ, ◌+◌, ◌%◌, ◌^◌, List, [], ◌∷◌, Bool, true, Option, none, some, ◌==◌, if◌then◌else◌, Status,
}
use uesim.Sdap.{Entity}
use uesim.Sdap.Table.{map_qos_flow}
use uesim.Sdap.Data.{Pdu, create_buffer}

abbrev count_tx_control : Entity → Entity
count_tx_control entity = record entity {
  stats = record entity.stats { tx_control_pdus = (entity.stats.tx_control_pdus + 1) % 2 ^ 64 };
}

abbrev pub count_rx_control : Entity → Entity
count_rx_control entity = record entity {
  stats = record entity.stats { rx_control_pdus = (entity.stats.rx_control_pdus + 1) % 2 ^ 64 };
}

abbrev pub sent : Entity → List ℕ → Status → Status × Entity × Option Pdu
sent entity bytes Status.success = (
  Status.success,
  count_tx_control entity,
  some (record { bytes = bytes; qfi = 0; is_control = true }),
)
sent entity bytes status = (status, entity, none)

-- `sdap_send_end_marker`
unfoldable pub send_end_marker : Entity → ℕ → Bool → Bool → Status × Entity × Option Pdu
send_end_marker entity qfi allocated buffer =
    sent entity (bit_or 128 0 ∷ qfi ∷ []) (create_buffer 2 allocated buffer)

-- `sdap_send_reflective_qos`
unfoldable pub send_reflective_qos : Entity → ℕ → ℕ → Bool → Bool → Status × Entity × Option Pdu
send_reflective_qos entity qfi drb_id allocated buffer =
    sent entity (bit_or 128 1 ∷ qfi ∷ drb_id ∷ []) (create_buffer 3 allocated buffer)

-- The case of `SDAP_CTRL_REFLECTIVE_QOS`, on the bytes behind the identifier.
abbrev pub apply_reflective : Entity → ℕ → List ℕ → Bool → Entity
apply_reflective entity qfi [] locked = entity
apply_reflective entity qfi (drb_id ∷ rest) locked = (map_qos_flow entity qfi drb_id true locked).1

-- `sdap_handle_control_pdu`
unfoldable pub handle_control_pdu : Entity → List ℕ → Bool → Status × Entity
handle_control_pdu entity [] locked = (Status.invalid_param, entity)
handle_control_pdu entity (first ∷ []) locked = (Status.invalid_param, entity)
handle_control_pdu entity (first ∷ qfi ∷ rest) locked =
    let pdu_type = bit_and first 15 in
    let counted = count_rx_control entity in
    if pdu_type == 0
    then (Status.success, counted)
    else if pdu_type == 1
    then (Status.success, apply_reflective counted qfi rest locked)
    else (Status.protocol, counted)
