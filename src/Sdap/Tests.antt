-- ===== src/Sdap/Tests.antt =====
-- Runs of the service data adaptation entity, and its theorems at concrete inputs.
use uesim.Common.{
  ℕ, ◌≡◌, refl, arith, List, [], ◌∷◌, true, false, none, some, length, Status, if◌then◌else◌,
  find_first, update_first, count, min, ◌+◌,
}
use uesim.Common.Int8.{ℤ, is_negative}
use uesim.Sdap.{Entity, empty_map, no_mapping, no_stats, config_or_default}
use uesim.Sdap.Table.{is_free, carries, map_qos_flow, get_drb_for_qos, is_reflective_qos}
use uesim.Sdap.Data.{
  Pdu, build_data_pdu, parse_data_pdu, process_ul_sdu, process_dl_pdu, count_tx, count_rx,
  mapping_error, header, check_packet,
}
use uesim.Sdap.Slots.{is_used}
use uesim.Sdap.Count.{IsCounted}
use uesim.Sdap.Calls.{Call, IsConfiguring, AllConfiguring, apply_all, apply_all-IsCounted}
use uesim.Sdap.Lookup.{process_ul_sdu-high_bearer}
use uesim.Sdap.Refine.{Request, serve_all, Spec, spec_serve, spec_serve_all, AreFresh, Refines}
use uesim.Sdap.Refinement.{serve_all-Refines}
use uesim.Sdap.Framing.{all_granted, parse_data_pdu-build_data_pdu, process_dl_pdu-process_ul_sdu}
use uesim.Sdap.Reflective.{receive_times, receive_times-exhausts}

-- What `sdap_create_entity` gives, active.
abbrev fresh_entity : Entity
fresh_entity = record {
  entity_id = 0;
  pdu_session_id = 1;
  config = config_or_default 1 none;
  qos_flow_map = empty_map;
  stats = no_stats;
  active = true;
}

-- Flow 5 on bearer 2, reflective.
abbrev one_flow : Entity
one_flow = (map_qos_flow fresh_entity 5 2 true true).1

abbrev packet : List ℕ
packet = 69 ∷ 0 ∷ 7 ∷ []

header_example : header 5 true ≡ 69
header_example = refl

check_packet-short : check_packet packet ≡ Status.protocol
unfolding check_packet
check_packet-short = refl

-- Mapping a mapped flow again succeeds, and the first mapping goes on answering.
map_twice :
    ((map_qos_flow one_flow 5 9 false true).0 ≡ Status.success)
    × (get_drb_for_qos (map_qos_flow one_flow 5 9 false true).1 5 ≡ ℤ.pos 2)
unfolding map_qos_flow get_drb_for_qos find_first update_first
map_twice = (refl, refl)

fresh_entity-IsCounted : IsCounted fresh_entity
unfolding IsCounted count
fresh_entity-IsCounted = (refl, refl)

abbrev calls : List Call
calls =
    Call.map_flow 5 2 true true
    ∷ Call.receive (69 ∷ 1 ∷ []) 3 all_granted
    ∷ Call.unmap_flow 5 true
    ∷ Call.control (129 ∷ 7 ∷ 4 ∷ []) true
    ∷ Call.configure fresh_entity.config true
    ∷ Call.map_flow 6 3 true true
    ∷ []

calls-AllConfiguring : AllConfiguring calls
unfolding AllConfiguring IsConfiguring count
calls-AllConfiguring = (tt, (tt, (tt, (tt, ((refl, refl), (tt, tt))))))

apply_all-IsCounted_example : IsCounted (apply_all fresh_entity calls)
apply_all-IsCounted_example =
    apply_all-IsCounted fresh_entity calls calls-AllConfiguring fresh_entity-IsCounted

parse_data_pdu-build_data_pdu_example :
    (pdu : Pdu) × (build_data_pdu packet 5 true true true ≡ (Status.success, some pdu))
    × (length pdu.bytes ≡ 4)
    × (parse_data_pdu pdu.bytes true
        ≡ (Status.success, some (record { qfi = 5; rqi = true; sdu_data = packet })))
parse_data_pdu-build_data_pdu_example = parse_data_pdu-build_data_pdu packet 5 true

one_flow-drb : is_negative (get_drb_for_qos one_flow 5) ≡ false
unfolding map_qos_flow get_drb_for_qos find_first update_first
one_flow-drb = refl

one_flow-active : one_flow.active ≡ true
unfolding map_qos_flow find_first
one_flow-active = refl

process_dl_pdu-process_ul_sdu_example :
    (pdu : Pdu) × (process_ul_sdu one_flow packet 5 true true true
      ≡ (Status.success, count_tx one_flow 3 true, some pdu))
    × (process_dl_pdu fresh_entity pdu.bytes 2 all_granted ≡ (
      Status.success,
      count_rx
          (if is_reflective_qos one_flow 5
            then (map_qos_flow fresh_entity 5 2 true true).1
            else fresh_entity)
          3
          true,
      some (record { bytes = packet; qfi = 5; drb_id = 2 }),
    ))
process_dl_pdu-process_ul_sdu_example =
    process_dl_pdu-process_ul_sdu one_flow fresh_entity packet 5 2 one_flow-active one_flow-drb
      (omega arith)

abbrev no_bearers : Spec
no_bearers = record { bearer = λ q. none; used = 0 }

fresh_entity-absent : (q : ℕ) → find_first (carries q) fresh_entity.qos_flow_map ≡ none
unfolding find_first
fresh_entity-absent q = refl

fresh_entity-Refines : Refines fresh_entity no_bearers
unfolding find_first count
fresh_entity-Refines = record {
  same = λ q. refl;
  used = refl;
  whole = refl;
  distinct = λ q. omega arith;
}

abbrev requests : List Request
requests =
    Request.map_flow 5 2 true true
    ∷ Request.update_flow 5 7 true
    ∷ Request.unmap_flow 6 true
    ∷ Request.unmap_flow 5 true
    ∷ Request.map_flow 5 1 false true
    ∷ []

requests-fresh : AreFresh no_bearers requests
unfolding AreFresh spec_serve
requests-fresh = (refl, (tt, (tt, (tt, (refl, tt)))))

serve_all-Refines_example :
    ((serve_all fresh_entity requests).0 ≡ (spec_serve_all no_bearers requests).0)
    × Refines (serve_all fresh_entity requests).1 (spec_serve_all no_bearers requests).1
serve_all-Refines_example =
    serve_all-Refines fresh_entity no_bearers requests fresh_entity-Refines requests-fresh

fresh_entity-room : find_first is_free fresh_entity.qos_flow_map ≡ some no_mapping
unfolding find_first
fresh_entity-room = refl

process_ul_sdu-high_bearer_example :
    ((map_qos_flow fresh_entity 5 200 true true).0 ≡ Status.success)
    × (process_ul_sdu (map_qos_flow fresh_entity 5 200 true true).1 packet 5 true true true
        ≡ (Status.not_found, mapping_error (map_qos_flow fresh_entity 5 200 true true).1, none))
process_ul_sdu-high_bearer_example =
    process_ul_sdu-high_bearer fresh_entity packet 5 200 true no_mapping true true true
      (omega arith) (fresh_entity-absent 5) fresh_entity-room refl (omega arith)

receive_times-exhausts_example :
    (count is_used (receive_times 3 fresh_entity packet 5 2).qos_flow_map
      ≡ min 64 (count is_used fresh_entity.qos_flow_map + 3))
    × (map_qos_flow (receive_times 64 fresh_entity packet 5 2) 6 1 false true
        ≡ (Status.capacity, receive_times 64 fresh_entity packet 5 2))
receive_times-exhausts_example =
    receive_times-exhausts 3 64 fresh_entity packet 5 2 6 1 false (omega arith) (omega arith) refl
      (omega arith)
