-- ===== src/QosFlow.antt =====
-- src/nas/qos_flow.c: the quality-of-service flows of one PDU session, in an array of at most eight.
-- The clock's reading and the result of each `pthread_mutex_init` are arguments; a `NULL` for an
-- optional argument is `none`. `rule`, which no function sets, and the mutexes are left out.
pub mod Flows
mod Tests
use uesim.Common.{
  ℕ, ◌+◌, ◌-◌, ◌%◌, ◌^◌, List, [], ◌∷◌, ◌++◌, Bool, true, false, Option, none, some, leb, ◌==◌,
  if◌then◌else◌, length, Status, find_first, remove_first, update_first,
}

pub data FlowState : Type 0 where
  inactive active suspended : FlowState

-- `arp_t`
pub record Arp : Type 0 where
  pub priority_level : ℕ
  pub pre_emption_capability : Bool
  pub pre_emption_vulnerability : Bool

-- `bit_rate_t`
pub record BitRate : Type 0 where
  pub uplink : ℕ
  pub downlink : ℕ

-- `qos_flow_t`
pub record Flow : Type 0 where
  pub qfi : ℕ
  pub five_qi : ℕ
  pub state : FlowState
  pub arp : Arp
  pub gbr : BitRate
  pub mbr : BitRate
  pub current_rate : BitRate
  pub bytes_sent : ℕ
  pub bytes_received : ℕ
  pub packets_dropped : ℕ
  pub drb_id : ℕ
  pub create_time : ℕ
  pub last_activity : ℕ

-- `qos_flow_manager_t`: `flows` holds the first `num_flows` entries of the array.
pub record Manager : Type 0 where
  pub flows : List Flow
  pub default_qfi : ℕ
  pub next_rule_id : ℕ
  pub session_ambr : BitRate
  pub session_bytes_sent : ℕ
  pub session_bytes_received : ℕ

-- `g_5qi_profiles`
unfoldable pub profiles : List (ℕ × Bool)
profiles =
    (1, true)
    ∷ (2, true)
    ∷ (3, true)
    ∷ (4, true)
    ∷ (5, false)
    ∷ (6, false)
    ∷ (7, false)
    ∷ (8, false)
    ∷ (9, false)
    ∷ (65, true)
    ∷ (66, true)
    ∷ (67, true)
    ∷ (68, true)
    ∷ (69, false)
    ∷ (70, false)
    ∷ (75, true)
    ∷ (76, true)
    ∷ (79, true)
    ∷ (80, false)
    ∷ (84, false)
    ∷ (85, false)
    ∷ []

abbrev gbr_of : Option (ℕ × Bool) → Bool
gbr_of none = false
gbr_of (some (five_qi, gbr)) = gbr

-- `qos_flow_is_gbr`
unfoldable pub is_gbr : ℕ → Bool
is_gbr five_qi = gbr_of (find_first (λ profile. profile.0 == five_qi) profiles)

abbrev no_rate : BitRate
no_rate = record { uplink = 0; downlink = 0 }

-- `qos_flow_create_manager`, given what `uesim_calloc` and `pthread_mutex_init` answered.
unfoldable pub create_manager : Bool → Bool → Status × Option Manager
create_manager allocated mutex =
    if allocated
    then if mutex
      then (
        Status.success,
        some (record {
          flows = [];
          default_qfi = 0;
          next_rule_id = 1;
          session_ambr = record { uplink = 100000; downlink = 200000 };
          session_bytes_sent = 0;
          session_bytes_received = 0;
        }),
      )
      else (Status.thread, none)
    else (Status.memory, none)

-- The argument, or what the `memset` left where there is none.
abbrev or_zero : Option BitRate → BitRate
or_zero none = no_rate
or_zero (some rate) = rate

abbrev arp_or_default : Option Arp → Arp
arp_or_default none = record {
  priority_level = 8;
  pre_emption_capability = false;
  pre_emption_vulnerability = false;
}
arp_or_default (some arp) = arp

-- The entry that `qos_flow_create` fills in behind `num_flows` others.
unfoldable pub new_flow : ℕ → ℕ → Option Arp → Option BitRate → Option BitRate → ℕ → Flow
new_flow num_flows five_qi arp gbr mbr now = record {
  qfi = (num_flows + 1) % 2 ^ 8;
  five_qi = five_qi;
  state = FlowState.inactive;
  arp = arp_or_default arp;
  gbr = or_zero gbr;
  mbr = or_zero mbr;
  current_rate = no_rate;
  bytes_sent = 0;
  bytes_received = 0;
  packets_dropped = 0;
  drb_id = 0;
  create_time = now;
  last_activity = 0;
}

-- `qos_flow_create`: the status, the manager, and the flow that `*flow` points to.
unfoldable pub create :
    Manager
    → ℕ
    → Option Arp
    → Option BitRate
    → Option BitRate
    → ℕ
    → Bool
    → Status × Manager × Option Flow
create manager five_qi arp gbr mbr now mutex =
    let flow = new_flow (length manager.flows) five_qi arp gbr mbr now in
    if leb 8 (length manager.flows)
    then (Status.capacity, manager, none)
    else if mutex
    then (
      Status.success,
      record manager {
        flows = manager.flows ++ flow ∷ [];
        default_qfi = if manager.default_qfi == 0 then flow.qfi else manager.default_qfi;
      },
      some flow,
    )
    else (Status.thread, manager, none)

abbrev pub has_qfi : ℕ → Flow → Bool
has_qfi qfi flow = flow.qfi == qfi

-- `qos_flow_find_by_qfi`
unfoldable pub find_by_qfi : Manager → ℕ → Option Flow
find_by_qfi manager qfi = find_first (has_qfi qfi) manager.flows

-- `qos_flow_find_default`
unfoldable pub find_default : Manager → Option Flow
find_default manager = find_by_qfi manager manager.default_qfi

-- `qos_flow_release`: the entries behind the flow move down by one.
unfoldable pub release : Manager → ℕ → Status × Manager
release manager qfi = elim (find_by_qfi manager qfi) [
  | none ↦ (Status.not_found, manager)
  | some flow ↦
      (Status.success, record manager { flows = remove_first (has_qfi qfi) manager.flows })
]

abbrev pub set_active : Flow → Flow
set_active flow = record flow { state = FlowState.active }

-- `qos_flow_activate`
unfoldable pub activate : Manager → ℕ → Status × Manager
activate manager qfi = elim (find_by_qfi manager qfi) [
  | none ↦ (Status.not_found, manager)
  | some flow ↦ (
    Status.success,
    record manager { flows = update_first (has_qfi qfi) set_active manager.flows },
  )
]

-- `qos_flow_set_session_ambr`
unfoldable pub set_session_ambr : Manager → ℕ → ℕ → Manager
set_session_ambr manager ul dl = record manager {
  session_ambr = record { uplink = ul; downlink = dl };
}

-- `qos_flow_update_session_stats`
unfoldable pub update_session_stats : Manager → ℕ → ℕ → Manager
update_session_stats manager sent recv = record manager {
  session_bytes_sent = (manager.session_bytes_sent + sent) % 2 ^ 64;
  session_bytes_received = (manager.session_bytes_received + recv) % 2 ^ 64;
}

-- `qos_flow_bind_to_drb`, on the flow that the pointer names.
unfoldable pub bind_to_drb : Flow → ℕ → Flow
bind_to_drb flow drb_id = record flow { drb_id = drb_id }

-- `qos_flow_get_drb_id`
unfoldable pub get_drb_id : Flow → ℕ
get_drb_id flow = flow.drb_id

-- `qos_flow_init`: `g_qos_initialized` and `g_default_manager`.
pub record Module : Type 0 where
  pub initialized : Bool
  pub default_manager : Option Manager

abbrev default_bearer_arp : Arp
default_bearer_arp = record {
  priority_level = 8;
  pre_emption_capability = false;
  pre_emption_vulnerability = true;
}

abbrev with_default_flow : Module → Manager → Status × Manager × Option Flow → Status × Module
with_default_flow globals manager (Status.success, created, some flow) = (
  Status.success,
  record { initialized = true; default_manager = some (activate created flow.qfi).1 },
)
with_default_flow globals manager (status, created, flow) =
    (status, record globals { default_manager = none })

abbrev with_manager : Module → ℕ → Bool → Status × Option Manager → Status × Module
with_manager globals now mutex (Status.success, some manager) =
    with_default_flow globals manager
      (create manager 9 (some default_bearer_arp) none none now mutex)
with_manager globals now mutex (status, manager) = (status, globals)

unfoldable pub init : Module → ℕ → Bool → Bool → Bool → Status × Module
init globals now allocated manager_mutex flow_mutex =
    if globals.initialized
    then (Status.success, globals)
    else with_manager globals now flow_mutex (create_manager allocated manager_mutex)
