-- ===== src/Per/Tests.antt =====
-- Runs of the PER codec, and its theorems at concrete inputs.
use uesim.Common.{
  ℕ, ◌-◌, ◌^◌, ◌≡◌, refl, arith, List, [], ◌∷◌, true, false, Status, length, replicate,
}
use uesim.Per.{
  Buffer, done, refused, overrun, put_bit, encode_loop, encode_bits, take_bit, decode_loop,
  decode_bits, clear, encode_enumerated, bit_width, bit_width_loop,
}
use uesim.Per.Fields.{put_all, Decodes, wire, put_all-round_trip}
use uesim.Per.Connection.{
  SetupRequest, encode_setup_request, decode_setup_request, put_identity, ReestRequest,
  encode_reest_request, decode_reest_request, ConnectionRelease, encode_connection_release,
  decode_connection_release,
}
use uesim.Per.ConnectionTrip.{
  setup_request-round_trip, reest_request-round_trip, connection_release-round_trip,
}
use uesim.Per.Bounds.{connection_release_overrun}
use uesim.Per.Measure.{
  MeasurementReport, encode_measurement_report, decode_measurement_report,
  measurement_report-refused, decode_ue_cap_enquiry, ue_cap_enquiry_overrun,
}

abbrev room16 : Buffer
room16 = record {
  bytes = replicate 16 0xff;
  size = 16;
  capacity = 16;
  bit_offset = 128;
  own_data = false;
}

-- MT_DATA, the fifth of the six causes of `rrc_establishment_cause_t`.
abbrev request : SetupRequest
request = record {
  ue_identity = record { type = 1; random_value = 0x1234567890 };
  establishment_cause = 4;
}

-- The bits 00 (the cause, cut), 0, 1, and the value: MT_DATA goes out as EMERGENCY.
wire-request :
    wire (encode_setup_request room16 request).1 ≡ 0x12 ∷ 0x46 ∷ 0x8a ∷ 0xcf ∷ 0x12 ∷ 0x00 ∷ []
unfolding encode_setup_request put_identity encode_enumerated encode_bits encode_loop put_bit
    bit_width bit_width_loop clear
wire-request = refl

setup_request-round_trip_example :
    decode_setup_request (wire (encode_setup_request room16 request).1)
    ≡ done
        (record {
          ue_identity = record { type = 1; random_value = 0x1234567890 };
          establishment_cause = 0;
        })
        43
setup_request-round_trip_example = setup_request-round_trip room16 request (omega arith)

abbrev reestablish : ReestRequest
reestablish = record {
  ue_identity = record { type = 0; random_value = 77 };
  reestablishment_cause = 2;
  pci = 500;
  c_rnti = 0x1234;
  short_mac_i_0 = 0xab;
  short_mac_i_1 = 0xcd;
}

reest_request-round_trip_example :
    decode_reest_request (wire (encode_reest_request room16 reestablish).1) ≡ done reestablish 90
reest_request-round_trip_example = reest_request-round_trip room16 reestablish (omega arith)

abbrev redirect : ConnectionRelease
redirect = record { release_cause = 5; redirect_carrier = true; redirect_earfcn = 6300 }

connection_release-round_trip_example :
    decode_connection_release (wire (encode_connection_release room16 redirect).1)
    ≡ done redirect 20
connection_release-round_trip_example = connection_release-round_trip room16 redirect (omega arith)

abbrev two_bytes : List ℕ
two_bytes = 0x10 ∷ 0x00 ∷ []

connection_release_overrun_example : decode_connection_release two_bytes ≡ overrun
connection_release_overrun_example = connection_release_overrun two_bytes refl refl

abbrev report : MeasurementReport
report = record { meas_id = 3; rsrp = 2 ^ 32 - 95; rsrq = 2 ^ 32 - 10; pci = 17; cell_id = 99 }

measurement_report-refused_example :
    (length (wire (encode_measurement_report room16 report).1) ≡ 9)
    × (decode_measurement_report (wire (encode_measurement_report room16 report).1)
        ≡ refused Status.invalid_param)
measurement_report-refused_example = measurement_report-refused room16 report (omega arith)

-- Two bytes that promise eight entries.
ue_cap_enquiry_overrun_example : decode_ue_cap_enquiry (0x08 ∷ 0xff ∷ []) ≡ overrun
unfolding decode_bits decode_loop take_bit
ue_cap_enquiry_overrun_example =
    ue_cap_enquiry_overrun (0x08 ∷ 0xff ∷ []) 8 (omega arith) refl (omega arith) (omega arith)

put_all-round_trip_example :
    Decodes (wire (put_all (clear room16) ((300, 8) ∷ (1, 3) ∷ []))) 0 ((300, 8) ∷ (1, 3) ∷ [])
    × (length (wire (put_all (clear room16) ((300, 8) ∷ (1, 3) ∷ []))) ≡ 2)
put_all-round_trip_example =
    put_all-round_trip room16 ((300, 8) ∷ (1, 3) ∷ []) (omega arith) (omega arith)
