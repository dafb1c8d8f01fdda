-- ===== src/PduSession/Tests.antt =====
-- Runs of the session manager, and its theorems at concrete inputs.
use uesim.Common.{
  ℕ, ◌≡◌, refl, arith, List, [], ◌∷◌, ◌++◌, map, none, some, true, false, replicate, find_first,
  remove_first,
}
use uesim.QosFlow
use uesim.PduSession.{
  Session, SessionType, SscMode, Manager, Resources, wrap_id, blank_session, create, find_by_id,
  release,
}
use uesim.PduSession.Runs.{
  Request, apply, apply_all, takes, taken, AreNumbered, IsValid, create-session_id_late,
  apply_all-IsValid,
}
use uesim.PduSession.Bearers
use uesim.PduSession.Bearers.{AreDistinct, HasBearers, apply_all-HasBearers}

abbrev fresh : Manager
fresh = record {
  sessions = [];
  next_session_id = 1;
  default_snssai = record { sst = 1; sd = replicate 8 0; sd_len = 0 };
}

abbrev plenty : Resources
plenty = record {
  flows_allocated = true;
  flows_mutex = true;
  flow_mutex = true;
  session_mutex = true;
}

abbrev bare : ℕ → Session
bare id = record (blank_session fresh SessionType.ipv4 SscMode.ssc_mode_1 none 0) {
  session_id = id;
}

abbrev busy : Manager
busy = record fresh { sessions = bare 1 ∷ bare 2 ∷ []; next_session_id = 3 }

abbrev open_one : Request
open_one = Request.create_session SessionType.ipv4 SscMode.ssc_mode_1 none 0 plenty

abbrev open_many : List Request
open_many = replicate 15 open_one ++ Request.release_session 3 ∷ []

abbrev twins : Manager
twins = (create (apply_all fresh open_many) SessionType.ipv4 SscMode.ssc_mode_1 none 0 plenty).1

-- Fifteen sessions are created and the third released: the next gets the identifier 1, which the first
-- still has.
twins-session_id :
    map (λ s. s.session_id) twins.sessions
    ≡ 1 ∷ 2 ∷ 4 ∷ 5 ∷ 6 ∷ 7 ∷ 8 ∷ 9 ∷ 10 ∷ 11 ∷ 12 ∷ 13 ∷ 14 ∷ 15 ∷ 1 ∷ []
unfolding apply apply_all create blank_session wrap_id release find_by_id find_first remove_first
    QosFlow.create QosFlow.create_manager QosFlow.new_flow QosFlow.activate QosFlow.find_by_qfi
twins-session_id = refl

create-session_id_late_example :
    (s : Session) × ((create
        (apply_all fresh open_many)
        SessionType.ipv4
        SscMode.ssc_mode_1
        none
        0
        plenty).2
      ≡ some s)
    × (s.session_id ≡ 1)
unfolding apply apply_all takes taken create blank_session wrap_id release find_by_id find_first
    remove_first QosFlow.create QosFlow.create_manager QosFlow.new_flow QosFlow.activate
    QosFlow.find_by_qfi
create-session_id_late_example = (
  _,
  refl,
  create-session_id_late fresh open_many SessionType.ipv4 SscMode.ssc_mode_1 none 0 plenty refl
      (omega arith) (omega arith) refl,
)

fresh-IsValid : IsValid fresh
unfolding IsValid AreNumbered
fresh-IsValid = (omega arith, tt)

apply_all-IsValid_example : IsValid (apply_all fresh open_many)
apply_all-IsValid_example = apply_all-IsValid fresh open_many fresh-IsValid

abbrev third : Session
third = record (blank_session busy SessionType.ipv6 SscMode.ssc_mode_2 none 9) {
  qos_manager = some (record {
    flows =
        record (QosFlow.new_flow 0 9
          (some (record {
            priority_level = 8;
            pre_emption_capability = false;
            pre_emption_vulnerability = false;
          }))
          none none 9) { state = QosFlow.FlowState.active }
        ∷ [];
    default_qfi = 1;
    next_rule_id = 1;
    session_ambr = record { uplink = 100000; downlink = 200000 };
    session_bytes_sent = 0;
    session_bytes_received = 0;
  });
  default_qos_flow_qfi = 1;
}

abbrev bound_twice : Session
bound_twice = record (bare 1) { drb_ids = 4 ∷ 5 ∷ [] }

bound_twice-HasBearers : HasBearers bound_twice
unfolding HasBearers AreDistinct find_first
bound_twice-HasBearers = (omega arith, (refl, (refl, tt)))

abbrev rebinding : List Bearers.Request
rebinding = Bearers.Request.bind 6 ∷ Bearers.Request.unbind 4 ∷ Bearers.Request.bind 6 ∷ []

apply_all-HasBearers_example : HasBearers (Bearers.apply_all bound_twice rebinding)
apply_all-HasBearers_example = apply_all-HasBearers bound_twice rebinding bound_twice-HasBearers
