-- ===== src/PduSession.antt =====
-- src/nas/pdu_session.c: the sessions of one UE, in an array of at most sixteen, each with the manager
-- of its quality-of-service flows and its data radio bearers. `time(NULL)`, `uesim_calloc` and
-- `pthread_mutex_init` are arguments. Mutexes and log lines are left out.
pub mod Operations
pub mod Bearers
pub mod Sessions
pub mod Runs
mod Tests
use uesim.Common.{
  ℕ, ◌+◌, ◌-◌, ◌%◌, ◌^◌, List, [], ◌∷◌, ◌++◌, Bool, true, false, Option, none, some, ltb, leb, ◌==◌,
  if◌then◌else◌, length, Status, find_first, remove_first, update_first, replicate,
}
use uesim.QosFlow
use uesim.QosFlow.{Flow, Arp, BitRate}

-- `pdu_session_type_t`
pub data SessionType : Type 0 where
  ipv4 ipv6 ipv4v6 ethernet : SessionType

-- `ssc_mode_t`
pub data SscMode : Type 0 where
  ssc_mode_1 ssc_mode_2 ssc_mode_3 : SscMode

-- `pdu_session_state_t`
pub data SessionState : Type 0 where
  inactive creating active modifying releasing suspended : SessionState

-- `snssai_t`
pub record Snssai : Type 0 where
  pub sst : ℕ
  pub sd : List ℕ
  pub sd_len : ℕ

-- `pdu_address_t`. The type that `memset` leaves, 0, is `none`.
pub record PduAddress : Type 0 where
  pub kind : Option SessionType
  pub ipv4_addr : ℕ
  pub ipv6_addr : List ℕ
  pub ipv6_prefix_len : ℕ

-- `pdu_session_config_t`, less the fields that no function reads or sets: the selection mode, the
-- always-on flags and the DNS servers.
pub record Config : Type 0 where
  pub session_type : SessionType
  pub ssc_mode : SscMode
  pub snssai : Snssai
  pub pdu_address : PduAddress
  pub session_ambr_ul : ℕ
  pub session_ambr_dl : ℕ

-- `pdu_session_stats_t`
pub record Stats : Type 0 where
  pub ul_packets : ℕ
  pub dl_packets : ℕ
  pub ul_bytes : ℕ
  pub dl_bytes : ℕ
  pub ul_dropped : ℕ
  pub dl_dropped : ℕ
  pub last_ul_activity : ℕ
  pub last_dl_activity : ℕ

-- `pdu_session_t`, less the transaction identifiers, which no function reads or sets. `drb_ids` holds
-- the first `num_drbs` entries of the array.
pub record Session : Type 0 where
  pub session_id : ℕ
  pub state : SessionState
  pub config : Config
  pub qos_manager : Option QosFlow.Manager
  pub default_qos_flow_qfi : ℕ
  pub drb_ids : List ℕ
  pub stats : Stats
  pub create_time : ℕ
  pub last_activity : ℕ
  pub modify_time : ℕ

-- `pdu_session_manager_t`, less two defaults that no function reads: `sessions` holds the first
-- `num_sessions` entries of the array.
pub record Manager : Type 0 where
  pub sessions : List Session
  pub next_session_id : ℕ
  pub default_snssai : Snssai

-- `pdu_session_create_manager`, given what `uesim_calloc` and `pthread_mutex_init` answered.
unfoldable pub create_manager : Bool → Bool → Status × Option Manager
create_manager allocated mutex =
    if allocated
    then if mutex
      then (
        Status.success,
        some (record {
          sessions = [];
          next_session_id = 1;
          default_snssai = record { sst = 1; sd = replicate 8 0; sd_len = 0 };
        }),
      )
      else (Status.thread, none)
    else (Status.memory, none)

abbrev pub no_stats : Stats
no_stats = record {
  ul_packets = 0;
  dl_packets = 0;
  ul_bytes = 0;
  dl_bytes = 0;
  ul_dropped = 0;
  dl_dropped = 0;
  last_ul_activity = 0;
  last_dl_activity = 0;
}

abbrev snssai_or : Snssai → Option Snssai → Snssai
snssai_or default none = default
snssai_or default (some snssai) = snssai

-- The identifier that `pdu_session_create` takes from the counter.
unfoldable pub wrap_id : ℕ → ℕ
wrap_id next = if ltb 15 next then 1 else next

-- The entry that `pdu_session_create` fills in before it creates the flows.
unfoldable pub blank_session : Manager → SessionType → SscMode → Option Snssai → ℕ → Session
blank_session manager kind mode snssai now = record {
  session_id = wrap_id manager.next_session_id;
  state = SessionState.creating;
  config = record {
    session_type = kind;
    ssc_mode = mode;
    snssai = snssai_or manager.default_snssai snssai;
    pdu_address = record {
      kind = none;
      ipv4_addr = 0;
      ipv6_addr = replicate 16 0;
      ipv6_prefix_len = 0;
    };
    session_ambr_ul = 100000;
    session_ambr_dl = 200000;
  };
  qos_manager = none;
  default_qos_flow_qfi = 0;
  drb_ids = [];
  stats = no_stats;
  create_time = now;
  last_activity = 0;
  modify_time = 0;
}

abbrev pub internet_arp : Arp
internet_arp = record {
  priority_level = 8;
  pre_emption_capability = false;
  pre_emption_vulnerability = false;
}

-- The default flow, where it could be created.
abbrev pub with_flow : Session → Status × QosFlow.Manager × Option Flow → Session
with_flow session (Status.success, flows, some flow) = record session {
  qos_manager = some (QosFlow.activate flows flow.qfi).1;
  default_qos_flow_qfi = flow.qfi;
}
with_flow session (status, flows, flow) = record session { qos_manager = some flows }

-- What `pthread_mutex_init` answers at the three places of one create, and whether the flow manager
-- could be allocated.
pub record Resources : Type 0 where
  pub flows_allocated : Bool
  pub flows_mutex : Bool
  pub flow_mutex : Bool
  pub session_mutex : Bool

abbrev pub add_session :
    Manager
    → Session
    → Resources
    → ℕ
    → Status × Option QosFlow.Manager
    → Status × Manager × Option Session
add_session manager blank resources now (Status.success, some flows) =
    let session =
      with_flow blank
        (QosFlow.create flows 9 (some internet_arp) none none now resources.flow_mutex) in
    if resources.session_mutex
    then (
      Status.success,
      record manager { sessions = manager.sessions ++ session ∷ [] },
      some session,
    )
    else (Status.thread, manager, none)
add_session manager blank resources now (status, flows) = (status, manager, none)

-- `pdu_session_create`: the status, the manager, and the session that `*session` points to. The counter
-- moves on even when a later step fails.
unfoldable pub create :
    Manager
    → SessionType
    → SscMode
    → Option Snssai
    → ℕ
    → Resources
    → Status × Manager × Option Session
create manager kind mode snssai now resources =
    let counted = record manager { next_session_id = (manager.next_session_id + 1) % 2 ^ 8 } in
    if leb 16 (length manager.sessions)
    then (Status.capacity, manager, none)
    else add_session counted (blank_session manager kind mode snssai now) resources now
        (QosFlow.create_manager resources.flows_allocated resources.flows_mutex)

abbrev pub has_id : ℕ → Session → Bool
has_id session_id session = session.session_id == session_id

-- `pdu_session_find_by_id`
unfoldable pub find_by_id : Manager → ℕ → Option Session
find_by_id manager session_id = find_first (has_id session_id) manager.sessions

abbrev pub is_bound : ℕ → Session → Bool
is_bound drb_id session = elim (find_first (λ drb. drb == drb_id) session.drb_ids) [
  | none ↦ false
  | some drb ↦ true
]

-- `pdu_session_find_by_drb`
unfoldable pub find_by_drb : Manager → ℕ → Option Session
find_by_drb manager drb_id = find_first (is_bound drb_id) manager.sessions

-- `pdu_session_find_default`
unfoldable pub find_default : Manager → Option Session
find_default manager = elim manager.sessions [ [] ↦ none | session ∷ rest ↦ some session ]

-- `pdu_session_release`: the entries behind the session move down by one.
unfoldable pub release : Manager → ℕ → Status × Manager
release manager session_id = elim (find_by_id manager session_id) [
  | none ↦ (Status.not_found, manager)
  | some session ↦ (
    Status.success,
    record manager { sessions = remove_first (has_id session_id) manager.sessions },
  )
]

-- What modify, activate, suspend and resume share: the lookup, `not_found`, and the change in place.
unfoldable pub change : Manager → ℕ → (Session → Session) → Status × Manager
change manager session_id f = elim (find_by_id manager session_id) [
  | none ↦ (Status.not_found, manager)
  | some session ↦ (
    Status.success,
    record manager { sessions = update_first (has_id session_id) f manager.sessions },
  )
]

abbrev pub with_state : SessionState → Session → Session
with_state state session = record session { state = state }

-- The new value of a rate of the configuration: 0 leaves it.
abbrev pub rate_or : ℕ → ℕ → ℕ
rate_or old new = if ltb 0 new then new else old

unfoldable pub with_config : Config → ℕ → Session → Session
with_config new_config now session = record session {
  config = record session.config {
    session_ambr_ul = rate_or session.config.session_ambr_ul new_config.session_ambr_ul;
    session_ambr_dl = rate_or session.config.session_ambr_dl new_config.session_ambr_dl;
  };
  modify_time = now;
  state = SessionState.active;
}

-- `pdu_session_modify`
unfoldable pub modify : Manager → ℕ → Config → ℕ → Status × Manager
modify manager session_id new_config now = change manager session_id (with_config new_config now)

-- `pdu_session_activate`
unfoldable pub activate : Manager → ℕ → Status × Manager
activate manager session_id = change manager session_id (with_state SessionState.active)

-- `pdu_session_suspend`
unfoldable pub suspend : Manager → ℕ → Status × Manager
suspend manager session_id = change manager session_id (with_state SessionState.suspended)

-- `pdu_session_resume`
unfoldable pub resume : Manager → ℕ → Status × Manager
resume manager session_id = change manager session_id (with_state SessionState.active)
