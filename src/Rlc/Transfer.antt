-- ===== src/Rlc/Transfer.antt =====
-- The data path of src/protocol/rlc.c: SDUs to PDUs and back, and the receive queues.
use uesim.Common.{
  ℕ, ◌+◌, ◌-◌, ◌/◌, List, [], ◌∷◌, ◌++◌, Bool, Option, none, some, ◌==◌, if◌then◌else◌, length,
  Status,
}
use uesim.Rlc.{Mode, State, Entity, Pdu, data_pdu, segment_loop}

-- `rlc_tm_process_tx_data`
unfoldable pub tm_process_tx_data : (ℕ → Bool) → Entity → List ℕ → Status × Entity × List Pdu
tm_process_tx_data alloc entity sdu =
    if alloc 0 then (Status.success, entity, data_pdu sdu ∷ []) else (Status.memory, entity, [])

abbrev counted : Entity → Status × ℕ × List Pdu → Status × Entity × List Pdu
counted entity (status, counter, pdus) = (status, record entity { pdu_counter = counter }, pdus)

-- `rlc_um_process_tx_data` and `rlc_am_process_tx_data`
unfoldable pub segmented_tx_data : (ℕ → Bool) → Entity → List ℕ → Status × Entity × List Pdu
segmented_tx_data alloc entity sdu =
    let num_pdus = (length sdu + 8192 - 1) / 8192 in
    counted entity (segment_loop alloc sdu num_pdus 0 num_pdus entity.pdu_counter)

-- The mode's function, for an entity that may pass data.
unfoldable pub tx_by_mode : (ℕ → Bool) → Entity → List ℕ → Status × Entity × List Pdu
tx_by_mode alloc entity sdu = elim entity.mode [
  | Mode.tm ↦ tm_process_tx_data alloc entity sdu
  | Mode.um ↦ segmented_tx_data alloc entity sdu
  | Mode.am ↦ segmented_tx_data alloc entity sdu
]

-- `rlc_process_tx_data`: the status, the entity, and the list that `*pdu_list` is set to. `alloc i` says
-- whether the `i`-th PDU finds memory.
unfoldable pub process_tx_data : (ℕ → Bool) → Entity → List ℕ → Status × Entity × List Pdu
process_tx_data alloc entity sdu =
    if length sdu == 0
    then (Status.invalid_param, entity, [])
    else if entity.active
    then elim entity.status [
      | State.active ↦ tx_by_mode alloc entity sdu
      | _ ↦ (Status.invalid_param, entity, [])
    ]
    else (Status.invalid_param, entity, [])

-- The two copy loops of `rlc_um_process_rx_data` and `rlc_am_process_rx_data`: all the bytes in order.
unfoldable pub concat_data : List Pdu → List ℕ
concat_data [] = []
concat_data (pdu ∷ pdus) = pdu.data_bytes ++ concat_data pdus

-- `rlc_tm_process_rx_data` takes the first PDU only; the other modes take them all.
unfoldable pub rx_by_mode : Mode → Pdu → List Pdu → List ℕ
rx_by_mode Mode.tm first rest = first.data_bytes
rx_by_mode Mode.um first rest = concat_data (first ∷ rest)
rx_by_mode Mode.am first rest = concat_data (first ∷ rest)

-- `rlc_process_rx_data`: the status and the SDU. An empty list is the `NULL` that it refuses.
unfoldable pub process_rx_data : Bool → Entity → List Pdu → Status × Option (List ℕ)
process_rx_data allocated entity [] = (Status.invalid_param, none)
process_rx_data allocated entity (first ∷ rest) =
    if entity.active
    then elim entity.status [
      | State.active ↦
          if allocated
          then (Status.success, some (rx_by_mode entity.mode first rest))
          else (Status.memory, none)
      | _ ↦ (Status.invalid_param, none)
    ]
    else (Status.invalid_param, none)
