-- ===== src/Sdap.antt =====
-- src/protocol/sdap.c: the entity that maps the quality-of-service flows of a PDU session to its data
-- radio bearers. The answers of `pthread_mutex_lock`, `pthread_mutex_init` and the allocator are
-- arguments. The mutex and the `next` pointers are left out: no function here reads them.
pub mod Table
pub mod Data
pub mod Control
pub mod Slots
pub mod Count
pub mod Calls
pub mod Lookup
pub mod Refine
pub mod Refinement
pub mod Framing
pub mod Reflective
mod Tests
use uesim.Common.{
  ℕ, ◌+◌, ◌%◌, ◌^◌, List, Bool, true, false, Option, none, some, if◌then◌else◌, replicate, Status,
}

-- `SDAP_MAX_QOS_FLOWS`
abbrev pub max_qos_flows : ℕ
max_qos_flows = 64

-- `sdap_qos_mapping_t`
pub record Mapping : Type 0 where
  pub qfi : ℕ
  pub drb_id : ℕ
  pub reflective_qos : Bool
  pub active : Bool

-- `sdap_config_t`
pub record Config : Type 0 where
  pub pdu_session_id : ℕ
  pub num_qos_flows : ℕ
  pub qos_mappings : List Mapping
  pub default_drb_configured : Bool
  pub default_drb_id : ℕ

-- `sdap_stats_t`
pub record Stats : Type 0 where
  pub tx_pdus : ℕ
  pub tx_bytes : ℕ
  pub rx_pdus : ℕ
  pub rx_bytes : ℕ
  pub tx_control_pdus : ℕ
  pub rx_control_pdus : ℕ
  pub mapping_errors : ℕ

-- `sdap_entity_t`
pub record Entity : Type 0 where
  pub entity_id : ℕ
  pub pdu_session_id : ℕ
  pub config : Config
  pub qos_flow_map : List Mapping
  pub stats : Stats
  pub active : Bool

-- What `uesim_calloc` and `memset` leave.
abbrev pub no_mapping : Mapping
no_mapping = record { qfi = 0; drb_id = 0; reflective_qos = false; active = false }

abbrev pub no_stats : Stats
no_stats = record {
  tx_pdus = 0;
  tx_bytes = 0;
  rx_pdus = 0;
  rx_bytes = 0;
  tx_control_pdus = 0;
  rx_control_pdus = 0;
  mapping_errors = 0;
}

abbrev pub empty_map : List Mapping
empty_map = replicate max_qos_flows no_mapping

-- The configuration that a new entity starts with where none is given.
abbrev pub config_or_default : ℕ → Option Config → Config
config_or_default pdu_session_id (some config) = config
config_or_default pdu_session_id none = record {
  pdu_session_id = pdu_session_id;
  num_qos_flows = 0;
  qos_mappings = empty_map;
  default_drb_configured = false;
  default_drb_id = 0;
}

-- `sdap_create_entity`, at the global counter's value: the status, the counter, and `*entity`. The
-- last two arguments are the answers of `uesim_calloc` and `pthread_mutex_init`.
unfoldable pub create_entity : ℕ → ℕ → Option Config → Bool → Bool → Status × ℕ × Option Entity
create_entity counter pdu_session_id config allocated mutex =
    let start = config_or_default pdu_session_id config in
    if allocated
    then if mutex
      then (
        Status.success,
        (counter + 1) % 2 ^ 32,
        some (record {
          entity_id = counter;
          pdu_session_id = pdu_session_id;
          config = start;
          qos_flow_map = start.qos_mappings;
          stats = no_stats;
          active = false;
        }),
      )
      else (Status.thread, (counter + 1) % 2 ^ 32, none)
    else (Status.memory, counter, none)

-- `sdap_configure_entity`
unfoldable pub configure_entity : Entity → Config → Bool → Status × Entity
configure_entity entity config locked =
    if locked
    then (Status.success, record entity { config = config; qos_flow_map = config.qos_mappings })
    else (Status.thread, entity)

-- `sdap_activate_entity`
unfoldable pub activate_entity : Entity → Bool → Status × Entity
activate_entity entity locked =
    if locked then (Status.success, record entity { active = true }) else (Status.thread, entity)

-- `sdap_deactivate_entity`
unfoldable pub deactivate_entity : Entity → Bool → Status × Entity
deactivate_entity entity locked =
    if locked then (Status.success, record entity { active = false }) else (Status.thread, entity)

abbrev activated : ℕ → Status × Entity → Status × ℕ × Option Entity
activated counter (Status.success, entity) = (Status.success, counter, some entity)
activated counter (status, entity) = (status, counter, none)

abbrev activate_created : Bool → Status × ℕ × Option Entity → Status × ℕ × Option Entity
activate_created locked (Status.success, counter, some entity) =
    activated counter (activate_entity entity locked)
activate_created locked (status, counter, entity) = (status, counter, none)

-- `sdap_init`: an active entity for session 1 without a configuration; one that cannot be activated is
-- destroyed.
unfoldable pub init : ℕ → Bool → Bool → Bool → Status × ℕ × Option Entity
init counter allocated mutex locked =
    activate_created locked (create_entity counter 1 none allocated mutex)

-- `sdap_get_stats`
unfoldable pub get_stats : Entity → Bool → Status × Option Stats
get_stats entity locked =
    if locked then (Status.success, some entity.stats) else (Status.thread, none)

-- `sdap_reset_stats`
unfoldable pub reset_stats : Entity → Bool → Status × Entity
reset_stats entity locked =
    if locked then (Status.success, record entity { stats = no_stats }) else (Status.thread, entity)
