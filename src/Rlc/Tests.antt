-- ===== src/Rlc/Tests.antt =====
-- Runs of the link control layer, and its theorems at concrete inputs.
use uesim.Common.{
  ℕ, ◌+◌, ◌/◌, ◌%◌, ◌^◌, ◌≤◌, ◌<◌, ◌≡◌, refl, arith, List, [], ◌∷◌, none, some, true, false, length,
  get_elem?, get_or, Status, inl, inr,
}
use uesim.Rlc.{Mode, State, Config, ModeConfig, Entity, Pdu, fresh_entity, framing, data_pdu}
use uesim.Rlc.Transfer.{process_tx_data, process_rx_data}
use uesim.Rlc.Receive.{receive_all, set_um_config, set_am_config, um_receive_pdu-delivers}
use uesim.Rlc.RoundTrip.{
  IsOpen, IsSegmenting, process_rx_data-process_tx_data, process_tx_data-framing,
}
use uesim.Rlc.LifeCycle.{Call, apply_all, IsCoherent, apply_all-IsCoherent}
use uesim.Rlc
use uesim.Rlc.TxWindow
use uesim.Rlc.TxWindow.{TxWindow, tx_window_insert, tx_window_get, modulus, tx_window_insert_far}
use uesim.Rlc.RxWindow
use uesim.Rlc.RxWindow.{RxWindow, rx_window_insert, rx_window_get, advance, rx_window_insert_stuck}

abbrev created : Entity
created = fresh_entity 1 4 2 Mode.um none

abbrev sender : Entity
sender = record created { active = true; status = State.active; pdu_counter = 65535 }

abbrev receiver : Entity
receiver = record created { active = true; status = State.active }

abbrev hello : List ℕ
hello = 104 ∷ 105 ∷ []

abbrev calls : List Call
calls = Call.activate true ∷ Call.suspend true ∷ Call.resume false ∷ Call.resume true ∷ []

created-IsCoherent : IsCoherent created
unfolding IsCoherent
created-IsCoherent = inr (refl, inl refl)

apply_all-IsCoherent_example : IsCoherent (apply_all created calls)
apply_all-IsCoherent_example = apply_all-IsCoherent created calls created-IsCoherent

sender-IsOpen : IsOpen sender
unfolding IsOpen
sender-IsOpen = (refl, refl)

receiver-IsOpen : IsOpen receiver
unfolding IsOpen
receiver-IsOpen = (refl, refl)

sender-IsSegmenting : IsSegmenting sender
unfolding IsSegmenting
sender-IsSegmenting = inl refl

process_rx_data-process_tx_data_example :
    ((process_tx_data (λ k. true) sender hello).0 ≡ Status.success)
    × (process_rx_data true receiver (process_tx_data (λ k. true) sender hello).2
        ≡ (Status.success, some hello))
process_rx_data-process_tx_data_example =
    process_rx_data-process_tx_data (λ k. true) sender receiver hello (λ k. refl) sender-IsOpen
      receiver-IsOpen refl (omega arith) (omega arith)

abbrev hello_pdu : Pdu
hello_pdu = record (data_pdu hello) { sn = 65535 }

sent_hello : get_elem? (process_tx_data (λ k. true) sender hello).2 0 ≡ some hello_pdu
unfolding process_tx_data Rlc.Transfer.tx_by_mode Rlc.Transfer.segmented_tx_data Rlc.segment_loop
    framing
sent_hello = refl

process_tx_data-framing_example :
    (length (process_tx_data (λ k. true) sender hello).2 ≡ (length hello + 8191) / 8192)
    × (hello_pdu.sn ≡ (sender.pdu_counter + 0) % 2 ^ 16)
    × (hello_pdu.fi ≡ 0)
    × (1 ≤ length hello_pdu.data_bytes)
    × (length hello_pdu.data_bytes ≤ 8192)
process_tx_data-framing_example =
    process_tx_data-framing (λ k. true) sender hello 0 {p = hello_pdu} (λ k. refl) sender-IsOpen
      sender-IsSegmenting (omega arith) (omega arith) sent_hello

abbrev sending : TxWindow
sending = record { slots = [] ∷ [] ∷ []; window_size = 2; vt_a = 4095; vt_ms = 2; vt_s = 4095 }

abbrev numbered : ℕ → Pdu
numbered sn = record (data_pdu hello) { sn = sn }

sending-IsValid : TxWindow.IsValid sending
unfolding TxWindow.IsValid
sending-IsValid = (omega arith, refl, omega arith)

tx_window_insert_far_example :
    (tx_window_insert sending (numbered 40000) 18 true).0 ≡ Status.success
tx_window_insert_far_example =
    tx_window_insert_far sending (numbered 40000) 18 (λ same. absurd (omega (arith, same)))
      (omega arith) (omega arith) (omega arith)

-- Number 1 arrived, number 0 is awaited.
abbrev waiting : RxWindow
waiting = record {
  slots = [] ∷ (numbered 1 ∷ []) ∷ [];
  window_size = 2;
  vr_r = 0;
  vr_mr = 2;
  vr_x = 0;
  vr_ms = 0;
  vr_h = 1;
}

waiting-IsValid : RxWindow.IsValid waiting
unfolding RxWindow.IsValid
waiting-IsValid = (omega arith, refl)

waiting-others : (i : ℕ) → i < 2 → ¬ (i ≡ 0) → ¬ (get_or waiting.slots i [] ≡ [])
waiting-others i low apart = let one : i ≡ 1 = omega (arith, apart) in rw one (λ e. cc)

rx_window_insert_stuck_example : rx_window_insert 1000 waiting (numbered 0) 12 true ≡ none
rx_window_insert_stuck_example =
    rx_window_insert_stuck waiting (numbered 0) waiting-IsValid (omega arith) (omega arith)
      (omega arith) (omega arith) waiting-others 1000

abbrev in_order : RxWindow
in_order = record waiting { slots = (numbered 0 ∷ []) ∷ [] ∷ [] }

in_order-run : (k : ℕ) → k < 1 → RxWindow.is_filled (rx_window_get in_order (0 + k)) ≡ true
unfolding rx_window_get
in_order-run k low = let zero_one : 0 + k ≡ 0 = omega arith in rw zero_one refl

in_order-gap : rx_window_get in_order (0 + 1) ≡ []
unfolding rx_window_get
in_order-gap = refl

um_receive_pdu-delivers_example :
    let pdus = (process_tx_data (λ k. true) sender hello).2 in
    let receiver' = record receiver { buffers = Rlc.Buffers.um_buffers pdus } in
    (receive_all receiver pdus ≡ some receiver')
    × (process_rx_data true receiver' pdus ≡ (Status.success, some hello))
um_receive_pdu-delivers_example =
    um_receive_pdu-delivers (λ k. true) sender receiver hello (λ k. refl) sender-IsOpen
      receiver-IsOpen refl refl refl (omega arith) (omega arith)

-- A configuration with a length of 18 bits is for the acknowledged mode alone.
set_config-lengths :
    (config : Config)
    → ((set_um_config config 18 100).0 ≡ Status.invalid_param)
      × ((set_am_config config 18 1 2 3 4 5 6).0 ≡ Status.success)
unfolding set_um_config set_am_config
set_config-lengths config = (refl, refl)
