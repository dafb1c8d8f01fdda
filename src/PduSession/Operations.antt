-- ===== src/PduSession/Operations.antt =====
-- The operations of src/nas/pdu_session.c on one session that a pointer names: its flows, its data
-- radio bearers, its addresses and its statistics.
use uesim.Common.{
  ℕ, ◌+◌, ◌%◌, ◌^◌, List, [], ◌∷◌, ◌++◌, Bool, Option, none, some, ltb, leb, ◌==◌, if◌then◌else◌,
  length, take, Status, remove_first,
}
use uesim.QosFlow
use uesim.QosFlow.{Flow, Arp, BitRate}
use uesim.PduSession.{Session, SessionType, no_stats, is_bound}

abbrev added_flow : Session → Status × QosFlow.Manager × Option Flow → Status × Session × Option ℕ
added_flow session (Status.success, flows, some flow) = (
  Status.success,
  record session { qos_manager = some (QosFlow.activate flows flow.qfi).1 },
  some flow.qfi,
)
added_flow session (status, flows, flow) = (status, session, none)

-- `pdu_session_add_qos_flow`: the status, the session, and what `*qfi` is set to.
unfoldable pub add_qos_flow :
    Session
    → ℕ
    → Option Arp
    → Option BitRate
    → Option BitRate
    → ℕ
    → Bool
    → Status × Session × Option ℕ
add_qos_flow session five_qi arp gbr mbr now mutex = elim session.qos_manager [
  | none ↦ (Status.invalid_param, session, none)
  | some flows ↦ added_flow session (QosFlow.create flows five_qi arp gbr mbr now mutex)
]

-- `pdu_session_remove_qos_flow`
unfoldable pub remove_qos_flow : Session → ℕ → Status × Session
remove_qos_flow session qfi = elim session.qos_manager [
  | none ↦ (Status.invalid_param, session)
  | some flows ↦
      let (status, flows') = QosFlow.release flows qfi in
      (status, record session { qos_manager = some flows' })
]

-- `pdu_session_get_qos_flow`, and the lookup that the other functions make, which gives `NULL` for a
-- manager that is `NULL` too.
unfoldable pub get_qos_flow : Session → ℕ → Option Flow
get_qos_flow session qfi = elim session.qos_manager [
  | none ↦ none
  | some flows ↦ QosFlow.find_by_qfi flows qfi
]

-- `pdu_session_set_default_qos_flow`
unfoldable pub set_default_qos_flow : Session → ℕ → Status × Session
set_default_qos_flow session qfi = elim (get_qos_flow session qfi) [
  | none ↦ (Status.not_found, session)
  | some flow ↦ (Status.success, record session { default_qos_flow_qfi = qfi })
]

-- `pdu_session_bind_drb`
unfoldable pub bind_drb : Session → ℕ → Status × Session
bind_drb session drb_id =
    if leb 8 (length session.drb_ids)
    then (Status.capacity, session)
    else if is_bound drb_id session
    then (Status.already_exists, session)
    else (Status.success, record session { drb_ids = session.drb_ids ++ drb_id ∷ [] })

-- `pdu_session_unbind_drb`
unfoldable pub unbind_drb : Session → ℕ → Status × Session
unbind_drb session drb_id =
    if is_bound drb_id session
    then (
      Status.success,
      record session { drb_ids = remove_first (λ drb. drb == drb_id) session.drb_ids },
    )
    else (Status.not_found, session)

abbrev pub first_drb : List ℕ → ℕ
first_drb [] = 0
first_drb (drb ∷ drbs) = drb

-- `pdu_session_get_drb_for_qos`: the flow's own bearer, else the session's first, else 0.
unfoldable pub get_drb_for_qos : Session → ℕ → ℕ
get_drb_for_qos session qfi = elim (get_qos_flow session qfi) [
  | none ↦ first_drb session.drb_ids
  | some flow ↦ if ltb 0 flow.drb_id then flow.drb_id else first_drb session.drb_ids
]

-- `pdu_session_set_ipv4_address`
unfoldable pub set_ipv4_address : Session → ℕ → Session
set_ipv4_address session addr = record session {
  config = record session.config {
    pdu_address = record session.config.pdu_address {
      ipv4_addr = addr;
      kind = some SessionType.ipv4;
    };
  };
}

-- `pdu_session_set_ipv6_address`: 16 bytes from `addr` on.
unfoldable pub set_ipv6_address : Session → List ℕ → ℕ → Session
set_ipv6_address session addr prefix_len = record session {
  config = record session.config {
    pdu_address = record session.config.pdu_address {
      ipv6_addr = take 16 addr;
      ipv6_prefix_len = prefix_len;
      kind = some SessionType.ipv6;
    };
  };
}

-- `pdu_session_set_ambr`: the session's rates, and those of its flow manager where there is one.
unfoldable pub set_ambr : Session → ℕ → ℕ → Session
set_ambr session ul_kbps dl_kbps = record session {
  config = record session.config { session_ambr_ul = ul_kbps; session_ambr_dl = dl_kbps };
  qos_manager = elim session.qos_manager [
    | none ↦ none
    | some flows ↦ some (QosFlow.set_session_ambr flows ul_kbps dl_kbps)
  ];
}

abbrev pub add_u64 : ℕ → ℕ → ℕ
add_u64 a b = (a + b) % 2 ^ 64

-- `pdu_session_update_stats`
unfoldable pub update_stats : Session → ℕ → ℕ → ℕ → ℕ → ℕ → Session
update_stats session ul_bytes dl_bytes ul_packets dl_packets now =
    let stats = session.stats in
    record session {
      last_activity = now;
      stats = record stats {
        ul_bytes = add_u64 stats.ul_bytes ul_bytes;
        dl_bytes = add_u64 stats.dl_bytes dl_bytes;
        ul_packets = add_u64 stats.ul_packets ul_packets;
        dl_packets = add_u64 stats.dl_packets dl_packets;
        last_ul_activity = if ltb 0 ul_bytes then now else stats.last_ul_activity;
        last_dl_activity = if ltb 0 dl_bytes then now else stats.last_dl_activity;
      };
    }

-- `pdu_session_reset_stats`
unfoldable pub reset_stats : Session → Session
reset_stats session = record session { stats = no_stats }
