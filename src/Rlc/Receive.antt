-- ===== src/Rlc/Receive.antt =====
-- The queues of src/protocol/rlc.c: what arrives in the transparent and the unacknowledged mode, what
-- is queued for sending, the counters, and the configuration functions. `none` stands for the use of a
-- member of the entity's union that was not set up, which a change of mode makes possible.
use uesim.Common.{
  ℕ, ◌+◌, ◌%◌, ◌^◌, ◌≤◌, ◌<◌, ◌≡◌, ◌∙◌, refl, sym, ap, List, [], ◌∷◌, ◌++◌, append-nil,
  append_assoc, Bool, true, false, Option, none, some, ◌==◌, ◌||◌, if◌then◌else◌, length, Status,
}
use uesim.Rlc.{Mode, Config, ModeConfig, Buffers, Entity, Pdu, Sdu}
use uesim.Rlc.Transfer.{process_tx_data, process_rx_data}
use uesim.Rlc.RoundTrip.{IsOpen, process_rx_data-process_tx_data}

abbrev um_queue : Bool → Entity → Pdu → Buffers → Option (Status × Entity)
um_queue allocated e pdu (Buffers.um_buffers rx) =
    if allocated
    then some (Status.success, record e { buffers = Buffers.um_buffers (rx ++ pdu ∷ []) })
    else some (Status.memory, e)
um_queue allocated e pdu (Buffers.tm_buffers tx rx) = none
um_queue allocated e pdu (Buffers.am_buffers tx rx) = none

-- `rlc_um_receive_pdu`: a copy of the PDU goes to the end of the receive buffer.
unfoldable pub um_receive_pdu : Bool → Bool → Entity → Pdu → Option (Status × Entity)
um_receive_pdu locked allocated e pdu = elim e.mode [
  | Mode.um ↦ if locked then um_queue allocated e pdu e.buffers else some (Status.thread, e)
  | _ ↦ some (Status.invalid_param, e)
]

abbrev tm_queue : Bool → ℕ → Entity → Pdu → Buffers → Option (Status × Entity)
tm_queue allocated now e pdu (Buffers.tm_buffers tx rx) =
    let sdu : Sdu = record {
      data_bytes = pdu.data_bytes;
      sdu_id = e.sdu_counter % 2 ^ 16;
      creation_time = now % 2 ^ 32;
    } in
    if allocated
    then some (
      Status.success,
      record e {
        buffers = Buffers.tm_buffers tx (rx ++ sdu ∷ []);
        sdu_counter = (e.sdu_counter + 1) % 2 ^ 32;
      },
    )
    else some (Status.memory, e)
tm_queue allocated now e pdu (Buffers.um_buffers rx) = none
tm_queue allocated now e pdu (Buffers.am_buffers tx rx) = none

-- `rlc_tm_receive_pdu`: the PDU's bytes become an SDU at the end of the receive buffer.
unfoldable pub tm_receive_pdu : Bool → Bool → ℕ → Entity → Pdu → Option (Status × Entity)
tm_receive_pdu locked allocated now e pdu = elim e.mode [
  | Mode.tm ↦ if locked then tm_queue allocated now e pdu e.buffers else some (Status.thread, e)
  | _ ↦ some (Status.invalid_param, e)
]

abbrev queued : Entity → Sdu → Buffers → Option (Status × Entity)
queued e sdu (Buffers.tm_buffers tx rx) =
    some (Status.success, record e { buffers = Buffers.tm_buffers (tx ++ sdu ∷ []) rx })
queued e sdu (Buffers.am_buffers tx rx) =
    some (Status.success, record e { buffers = Buffers.am_buffers (tx ++ sdu ∷ []) rx })
queued e sdu (Buffers.um_buffers rx) = none

abbrev is_of_mode : Mode → Buffers → Bool
is_of_mode Mode.tm (Buffers.tm_buffers tx rx) = true
is_of_mode Mode.um (Buffers.um_buffers rx) = true
is_of_mode Mode.am (Buffers.am_buffers tx rx) = true
is_of_mode mode buffers = false

-- `rlc_queue_sdu`: the SDU goes to the end of the transmit buffer; the unacknowledged mode has none.
unfoldable pub queue_sdu : Bool → Entity → Sdu → Option (Status × Entity)
queue_sdu locked e sdu = elim e.mode [
  | Mode.um ↦ some (Status.invalid_param, e)
  | mode ↦
      if is_of_mode e.mode e.buffers
      then if locked then queued e sdu e.buffers else some (Status.thread, e)
      else none
]

-- `rlc_get_sequence_number`
unfoldable pub get_sequence_number : Entity → ℕ
get_sequence_number e = e.pdu_counter % 2 ^ 16

-- `rlc_increment_sequence_number`
unfoldable pub increment_sequence_number : Entity → Entity
increment_sequence_number e = record e { pdu_counter = (e.pdu_counter + 1) % 2 ^ 32 }

-- `rlc_set_tm_config` sets the mode and leaves the rest.
unfoldable pub set_tm_config : Config → Status × Config
set_tm_config config = (Status.success, record config { mode = Mode.tm })

-- `rlc_set_um_config`
unfoldable pub set_um_config : Config → ℕ → ℕ → Status × Config
set_um_config config sn_length t_reassembly =
    if sn_length == 6 || sn_length == 12
    then (
      Status.success,
      record { mode = Mode.um; config = ModeConfig.um_config sn_length t_reassembly true },
    )
    else (Status.invalid_param, config)

-- `rlc_set_am_config`
unfoldable pub set_am_config : Config → ℕ → ℕ → ℕ → ℕ → ℕ → ℕ → ℕ → Status × Config
set_am_config config sn_length t_poll_retransmit t_reassembly t_status_prohibit poll_pdu poll_byte
      max_retx_threshold =
    if sn_length == 12 || sn_length == 18
    then (
      Status.success,
      record {
        mode = Mode.am;
        config =
            ModeConfig.am_config sn_length t_poll_retransmit t_reassembly t_status_prohibit poll_pdu
              poll_byte max_retx_threshold;
      },
    )
    else (Status.invalid_param, config)

-- The PDUs of a list arrive one after another, as long as each call succeeds.
unfoldable pub receive_all : Entity → List Pdu → Option Entity
receive_all e [] = some e
receive_all e (pdu ∷ pdus) = elim (um_receive_pdu true true e pdu) [
  | some (Status.success, e') ↦ receive_all e' pdus
  | _ ↦ none
]

received :
    (e : Entity) (rx : List Pdu) (p : Pdu)
    → e.mode ≡ Mode.um
    → um_receive_pdu true true (record e { buffers = Buffers.um_buffers rx }) p
      ≡ some (Status.success, record e { buffers = Buffers.um_buffers (rx ++ p ∷ []) })
unfolding um_receive_pdu
received e rx p um = simp (um_receive_pdu, um) refl

receive_all-queue :
    (e : Entity) (rx pdus : List Pdu)
    → e.mode ≡ Mode.um
    → receive_all (record e { buffers = Buffers.um_buffers rx }) pdus
      ≡ some (record e { buffers = Buffers.um_buffers (rx ++ pdus) })
unfolding receive_all
receive_all-queue e rx [] um =
    ap (λ ps. some (record e { buffers = Buffers.um_buffers ps })) (sym (append-nil rx))
receive_all-queue e rx (p ∷ ps) um =
    rw (receive_all, received e rx p um) (receive_all-queue e (rx ++ p ∷ []) ps um)
    ∙ ap (λ qs. some (record e { buffers = Buffers.um_buffers qs })) (append_assoc rx (p ∷ []) ps)

-- An SDU of at least one byte goes from one entity in the unacknowledged mode to another, both passing
-- data, the receiver's buffer empty, and memory enough: when every PDU sent has been received in turn,
-- the receiver's buffer holds exactly those PDUs in order, nothing else of it has changed, and
-- reassembling the buffer gives the SDU.
pub um_receive_pdu-delivers :
    (alloc : ℕ → Bool) (sender receiver : Entity) (sdu : List ℕ)
    → ((k : ℕ) → alloc k ≡ true)
    → IsOpen sender
    → IsOpen receiver
    → sender.mode ≡ Mode.um
    → receiver.mode ≡ Mode.um
    → receiver.buffers ≡ Buffers.um_buffers []
    → sender.pdu_counter < 2 ^ 32
    → 1 ≤ length sdu
    → let pdus = (process_tx_data alloc sender sdu).2 in
      let receiver' = record receiver { buffers = Buffers.um_buffers pdus } in
      (receive_all receiver pdus ≡ some receiver')
      × (process_rx_data true receiver' pdus ≡ (Status.success, some sdu))
unfolding IsOpen
um_receive_pdu-delivers alloc sender receiver sdu plenty sends receives tx_um rx_um empty small
      long =
    let pdus = (process_tx_data alloc sender sdu).2 in
    let receiver' : Entity = record receiver { buffers = Buffers.um_buffers pdus } in
    let start : record receiver { buffers = Buffers.um_buffers [] } ≡ receiver =
      ap (λ b. record receiver { buffers = b }) (sym empty) in
    (
      ap (λ r. receive_all r pdus) (sym start) ∙ receive_all-queue receiver [] pdus rx_um,
      (process_rx_data-process_tx_data alloc sender receiver' sdu plenty sends receives
          (rx_um ∙ sym tx_um) small long).1,
    )
