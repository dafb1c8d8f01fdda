-- ===== src/Sdap/Data.antt =====
-- The data PDUs of src/protocol/sdap.c: a header byte with the flow's identifier and the reflective
-- indication, then the SDU. A `data` pointer with its length is the list of the bytes; the check for a
-- null pointer with a length has nothing to refuse. A buffer fresh from the allocator has no contents
-- here: all callers overwrite it or its pointer.
use Prim.Native.Nat.{bit_and, bit_or}
use uesim.Common.{
  ℕ, ◌+◌, ◌/◌, ◌%◌, ◌^◌, List, [], ◌∷◌, Bool, true, false, not, ◌&&◌, Option, none, some, ltb, ◌==◌,
  if◌then◌else◌, length, Status,
}
use uesim.Common.Int8.{is_negative, to_uint8}
use uesim.Sdap.{Entity}
use uesim.Sdap.Table.{map_qos_flow, get_drb_for_qos, is_reflective_qos}

-- `sdap_pdu_t`
pub record Pdu : Type 0 where
  pub bytes : List ℕ
  pub qfi : ℕ
  pub is_control : Bool

-- `sdap_sdu_t`
pub record Sdu : Type 0 where
  pub bytes : List ℕ
  pub qfi : ℕ
  pub drb_id : ℕ

-- `sdap_create_pdu` and `sdap_create_sdu`: their status, from the length of the buffer and whether the
-- structure and the buffer were allocated.
unfoldable pub create_buffer : ℕ → Bool → Bool → Status
create_buffer data_length allocated buffer =
    if allocated
    then if ltb 0 data_length && not buffer then Status.memory else Status.success
    else Status.memory

abbrev pub rqi_bit : Bool → ℕ
rqi_bit rqi = if rqi then 2 ^ 6 else 0

-- The header byte: `(qfi & 0x3F) | ((rqi ? 1 : 0) << 6)`.
abbrev pub header : ℕ → Bool → ℕ
header qfi rqi = bit_or (bit_and qfi 63) (rqi_bit rqi)

abbrev pub built : Status → Pdu → Status × Option Pdu
built Status.success pdu = (Status.success, some pdu)
built status pdu = (status, none)

-- `sdap_build_data_pdu`
unfoldable pub build_data_pdu : List ℕ → ℕ → Bool → Bool → Bool → Status × Option Pdu
build_data_pdu sdu_data qfi rqi allocated buffer =
    built (create_buffer (1 + length sdu_data) allocated buffer)
      (record { bytes = header qfi rqi ∷ sdu_data; qfi = qfi; is_control = false })

-- What `sdap_parse_data_pdu` writes through its pointers.
pub record Parsed : Type 0 where
  pub qfi : ℕ
  pub rqi : Bool
  pub sdu_data : List ℕ

-- `sdap_parse_data_pdu`; the `Bool` says whether the copy of the SDU was allocated.
unfoldable pub parse_data_pdu : List ℕ → Bool → Status × Option Parsed
parse_data_pdu [] allocated = (Status.invalid_param, none)
parse_data_pdu (first ∷ rest) allocated =
    if ltb 0 (length rest) && not allocated then (Status.memory, none) else (
      Status.success,
      some (record { qfi = bit_and first 63; rqi = first / 2 ^ 6 % 2 == 1; sdu_data = rest }),
    )

abbrev pub mapping_error : Entity → Entity
mapping_error entity = record entity {
  stats = record entity.stats { mapping_errors = (entity.stats.mapping_errors + 1) % 2 ^ 64 };
}

abbrev pub count_tx : Entity → ℕ → Bool → Entity
count_tx entity bytes locked =
    if locked
    then record entity {
      stats = record entity.stats {
        tx_pdus = (entity.stats.tx_pdus + 1) % 2 ^ 64;
        tx_bytes = (entity.stats.tx_bytes + bytes) % 2 ^ 64;
      };
    }
    else entity

abbrev pub count_rx : Entity → ℕ → Bool → Entity
count_rx entity bytes locked =
    if locked
    then record entity {
      stats = record entity.stats {
        rx_pdus = (entity.stats.rx_pdus + 1) % 2 ^ 64;
        rx_bytes = (entity.stats.rx_bytes + bytes) % 2 ^ 64;
      };
    }
    else entity

abbrev pub counted_tx : Entity → ℕ → Bool → Status × Option Pdu → Status × Entity × Option Pdu
counted_tx entity bytes locked (Status.success, pdu) =
    (Status.success, count_tx entity bytes locked, pdu)
counted_tx entity bytes locked (status, pdu) = (status, entity, pdu)

-- `sdap_process_ul_sdu`: the PDU to send, with the allocations' and the lock's answers.
unfoldable pub process_ul_sdu :
    Entity → List ℕ → ℕ → Bool → Bool → Bool → Status × Entity × Option Pdu
process_ul_sdu entity bytes qfi allocated buffer locked =
    if entity.active
    then if is_negative (get_drb_for_qos entity qfi)
      then (Status.not_found, mapping_error entity, none)
      else counted_tx entity (length bytes) locked
          (build_data_pdu bytes qfi (is_reflective_qos entity qfi) allocated buffer)
    else (Status.invalid_param, entity, none)

-- `sdap_process_ul_pdu`: the bearer of a PDU.
unfoldable pub process_ul_pdu : Entity → Pdu → Status × Option ℕ
process_ul_pdu entity pdu =
    let drb = get_drb_for_qos entity pdu.qfi in
    if is_negative drb then (Status.not_found, none) else (Status.success, some (to_uint8 drb))

-- What the allocator and the two locks answer to one call of `sdap_process_dl_pdu`.
pub record Answers : Type 0 where
  pub copy_allocated : Bool
  pub sdu_allocated : Bool
  pub buffer_allocated : Bool
  pub map_locked : Bool
  pub stats_locked : Bool

-- The mapping that a reflective indication asks for, its status dropped.
abbrev pub reflect : Entity → Parsed → ℕ → Bool → Entity
reflect entity parsed drb_id locked =
    if parsed.rqi then (map_qos_flow entity parsed.qfi drb_id true locked).1 else entity

abbrev pub delivered : Entity → Parsed → ℕ → Answers → Status → Status × Entity × Option Sdu
delivered entity parsed drb_id answers Status.success = (
  Status.success,
  count_rx (reflect entity parsed drb_id answers.map_locked) (length parsed.sdu_data)
      answers.stats_locked,
  some (record { bytes = parsed.sdu_data; qfi = parsed.qfi; drb_id = drb_id }),
)
delivered entity parsed drb_id answers status = (status, entity, none)

abbrev pub parsed_dl : Entity → ℕ → Answers → Status × Option Parsed → Status × Entity × Option Sdu
parsed_dl entity drb_id answers (status, some parsed) =
    delivered entity parsed drb_id answers
      (create_buffer (length parsed.sdu_data) answers.sdu_allocated answers.buffer_allocated)
parsed_dl entity drb_id answers (status, none) = (status, entity, none)

-- `sdap_process_dl_pdu`
unfoldable pub process_dl_pdu : Entity → List ℕ → ℕ → Answers → Status × Entity × Option Sdu
process_dl_pdu entity pdu_data drb_id answers =
    parsed_dl entity drb_id answers (parse_data_pdu pdu_data answers.copy_allocated)

-- The check of the packet in an SDU: an IP header that is cut short is refused, and what is neither
-- version is raw data.
unfoldable pub check_packet : List ℕ → Status
check_packet [] = Status.success
check_packet (first ∷ rest) =
    let version = bit_and (first / 2 ^ 4) 15 in
    let size = length (first ∷ rest) in
    if version == 4
    then if ltb size 20 then Status.protocol else Status.success
    else if version == 6
    then if ltb size 40 then Status.protocol else Status.success
    else Status.success

-- `sdap_process_dl_sdu`
unfoldable pub process_dl_sdu : Entity → Sdu → Bool → Status × Entity
process_dl_sdu entity sdu locked =
    if entity.active
    then if ltb 63 sdu.qfi
      then (Status.invalid_param, entity)
      else if is_negative (get_drb_for_qos entity sdu.qfi)
      then (Status.not_found, mapping_error entity)
      else (check_packet sdu.bytes, count_rx entity (length sdu.bytes) locked)
    else (Status.invalid_param, entity)
