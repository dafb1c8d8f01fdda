-- ===== src/Sdap/Framing.antt =====
-- The framing of the data PDUs of src/protocol/sdap.c, from one entity's uplink to another's downlink.
use Prim.Native.Nat.{bit_and}
use uesim.Common.{
  ℕ, ◌+◌, ◌/◌, ◌%◌, ◌^◌, ◌<◌, ◌≡◌, refl, arith, List, ◌∷◌, Bool, true, false, some, ltb, ◌==◌,
  if◌then◌else◌, length, Status, Bool-cases, inl, inr,
}
use uesim.Common.Bits.{bit_or-zero}
use uesim.Common.Masks.{bit_and-mask, bit_or_above}
use uesim.Common.Int8.{is_negative}
use uesim.Sdap.{Entity}
use uesim.Sdap.Table.{map_qos_flow, get_drb_for_qos, is_reflective_qos}
use uesim.Sdap.Data.{
  Pdu, Answers, create_buffer, header, rqi_bit, build_data_pdu, parse_data_pdu, process_ul_sdu,
  process_dl_pdu, count_rx, count_tx,
}

-- The header byte holds the indication above the six bits of the identifier.
header_value : (qfi : ℕ) (rqi : Bool) → header qfi rqi ≡ rqi_bit rqi + qfi % 64
header_value qfi true =
    let low : bit_and qfi 63 ≡ qfi % 2 ^ 6 = bit_and-mask 6 qfi in
    rw low (bit_or_above 6 (qfi % 2 ^ 6) 1 (omega arith))
header_value qfi false =
    let low : bit_and qfi 63 ≡ qfi % 2 ^ 6 = bit_and-mask 6 qfi in
    rw low (omega (arith, bit_or-zero (qfi % 2 ^ 6) (qfi % 2 ^ 6)))

header-qfi : (qfi : ℕ) (rqi : Bool) → bit_and (header qfi rqi) 63 ≡ qfi % 64
header-qfi qfi true = omega (arith, bit_and-mask 6 (header qfi true), header_value qfi true)
header-qfi qfi false = omega (arith, bit_and-mask 6 (header qfi false), header_value qfi false)

header-rqi : (qfi : ℕ) (rqi : Bool) → (header qfi rqi / 2 ^ 6 % 2 == 1) ≡ rqi
header-rqi qfi true = rw (header_value qfi true) (ground arith)
header-rqi qfi false = rw (header_value qfi false) (ground arith)

pub create_buffer_ok : (n : ℕ) → create_buffer n true true ≡ Status.success
unfolding create_buffer
create_buffer_ok n = elim (Bool-cases (ltb 0 n)) [
  | inl some_ ↦ rw some_ refl
  | inr none_ ↦ rw none_ refl
]

pub parse_header :
    (sdu : List ℕ) (qfi : ℕ) (rqi : Bool)
    → parse_data_pdu (header qfi rqi ∷ sdu) true
      ≡ (Status.success, some (record { qfi = qfi % 64; rqi = rqi; sdu_data = sdu }))
unfolding parse_data_pdu
parse_header sdu qfi rqi = elim (Bool-cases (ltb 0 (length sdu))) [
  | inl full ↦ simp (full, header-qfi qfi rqi, header-rqi qfi rqi) refl
  | inr empty ↦ simp (empty, header-qfi qfi rqi, header-rqi qfi rqi) refl
]

-- For every SDU, identifier and indication, when the memory is there: building a data PDU succeeds, the
-- PDU is one byte longer than the SDU, and parsing it gives back the SDU, the indication and the
-- identifier modulo 64.
pub parse_data_pdu-build_data_pdu :
    (sdu : List ℕ) (qfi : ℕ) (rqi : Bool)
    → (pdu : Pdu) × (build_data_pdu sdu qfi rqi true true ≡ (Status.success, some pdu))
      × (length pdu.bytes ≡ 1 + length sdu)
      × (parse_data_pdu pdu.bytes true
          ≡ (Status.success, some (record { qfi = qfi % 64; rqi = rqi; sdu_data = sdu })))
unfolding build_data_pdu
parse_data_pdu-build_data_pdu sdu qfi rqi = (
  record { bytes = header qfi rqi ∷ sdu; qfi = qfi; is_control = false },
  rw (create_buffer_ok (1 + length sdu)) refl,
  omega arith,
  parse_header sdu qfi rqi,
)

-- Every allocation and every lock succeeds.
abbrev pub all_granted : Answers
all_granted = record {
  copy_allocated = true;
  sdu_allocated = true;
  buffer_allocated = true;
  map_locked = true;
  stats_locked = true;
}

-- An SDU of a flow below 64 that an active entity has a bearer for (with memory and locks at hand on
-- both sides) is sent as a PDU from which any receiving entity, active or not, delivers the same bytes
-- under the same identifier on the bearer it came by. Exactly if the sender's mapping is reflective,
-- the receiver also maps the flow to that bearer; nothing else changes but the two statistics.
pub process_dl_pdu-process_ul_sdu :
    (sender receiver : Entity) (sdu : List ℕ) (qfi drb_id : ℕ)
    → sender.active ≡ true
    → is_negative (get_drb_for_qos sender qfi) ≡ false
    → qfi < 64
    → (pdu : Pdu) × (process_ul_sdu sender sdu qfi true true true
        ≡ (Status.success, count_tx sender (length sdu) true, some pdu))
      × (process_dl_pdu receiver pdu.bytes drb_id all_granted ≡ (
        Status.success,
        count_rx
            (if is_reflective_qos sender qfi
              then (map_qos_flow receiver qfi drb_id true true).1
              else receiver)
            (length sdu)
            true,
        some (record { bytes = sdu; qfi = qfi; drb_id = drb_id }),
      ))
unfolding process_ul_sdu process_dl_pdu build_data_pdu
process_dl_pdu-process_ul_sdu sender receiver sdu qfi drb_id on found low =
    let same : qfi % 64 ≡ qfi = omega arith in
    (
      record {
        bytes = header qfi (is_reflective_qos sender qfi) ∷ sdu;
        qfi = qfi;
        is_control = false;
      },
      simp (on, found, create_buffer_ok (1 + length sdu)) refl,
      simp
          (parse_header sdu qfi (is_reflective_qos sender qfi), create_buffer_ok (length sdu), same)
          refl,
    )
