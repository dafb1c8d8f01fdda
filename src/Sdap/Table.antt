-- ===== src/Sdap/Table.antt =====
-- The mapping table of src/protocol/sdap.c: 64 slots, searched from the first on. A call whose second
-- `Bool` is false is one whose `pthread_mutex_lock` fails.
use uesim.Common.{
  ℕ, ◌+◌, ◌%◌, ◌^◌, Bool, true, false, not, ◌&&◌, none, some, ltb, ◌==◌, if◌then◌else◌, Status,
  find_first, update_first,
}
use uesim.Common.Int8.{ℤ, negsuc, int8}
use uesim.Sdap.{Mapping, Entity}

abbrev pub is_free : Mapping → Bool
is_free slot = not slot.active

abbrev pub carries : ℕ → Mapping → Bool
carries qfi slot = slot.active && (slot.qfi == qfi)

-- The slot after `sdap_map_qos_flow` has written its four fields.
abbrev pub fill : ℕ → ℕ → Bool → Mapping → Mapping
fill qfi drb_id reflective slot = record {
  qfi = qfi;
  drb_id = drb_id;
  reflective_qos = reflective;
  active = true;
}

abbrev pub clear_slot : Mapping → Mapping
clear_slot slot = record slot { active = false }

abbrev pub redirect : ℕ → Mapping → Mapping
redirect drb_id slot = record slot { drb_id = drb_id }

-- `config.num_qos_flows++` and `--`, on eight bits.
abbrev pub one_more : ℕ → ℕ
one_more n = (n + 1) % 2 ^ 8

abbrev pub one_less : ℕ → ℕ
one_less n = (n + 255) % 2 ^ 8

-- `sdap_map_qos_flow`
unfoldable pub map_qos_flow : Entity → ℕ → ℕ → Bool → Bool → Status × Entity
map_qos_flow entity qfi drb_id reflective locked =
    if ltb 63 qfi
    then (Status.invalid_param, entity)
    else if locked
    then elim (find_first is_free entity.qos_flow_map) [
      | none ↦ (Status.capacity, entity)
      | some slot ↦ (
        Status.success,
        record entity {
          config = record entity.config { num_qos_flows = one_more entity.config.num_qos_flows };
          qos_flow_map = update_first is_free (fill qfi drb_id reflective) entity.qos_flow_map;
        },
      )
    ]
    else (Status.thread, entity)

-- `sdap_unmap_qos_flow`
unfoldable pub unmap_qos_flow : Entity → ℕ → Bool → Status × Entity
unmap_qos_flow entity qfi locked =
    if locked
    then elim (find_first (carries qfi) entity.qos_flow_map) [
      | none ↦ (Status.not_found, entity)
      | some slot ↦ (
        Status.success,
        record entity {
          config = record entity.config { num_qos_flows = one_less entity.config.num_qos_flows };
          qos_flow_map = update_first (carries qfi) clear_slot entity.qos_flow_map;
        },
      )
    ]
    else (Status.thread, entity)

-- `sdap_update_qos_mapping`
unfoldable pub update_qos_mapping : Entity → ℕ → ℕ → Bool → Status × Entity
update_qos_mapping entity qfi drb_id locked =
    if locked
    then elim (find_first (carries qfi) entity.qos_flow_map) [
      | none ↦ (Status.not_found, entity)
      | some slot ↦ (
        Status.success,
        record entity {
          qos_flow_map = update_first (carries qfi) (redirect drb_id) entity.qos_flow_map;
        },
      )
    ]
    else (Status.thread, entity)

-- `sdap_get_drb_for_qos`: the result is an `int8_t`, and -1 stands for no bearer.
unfoldable pub get_drb_for_qos : Entity → ℕ → ℤ
get_drb_for_qos entity qfi = elim (find_first (carries qfi) entity.qos_flow_map) [
  | none ↦
      if entity.config.default_drb_configured then int8 entity.config.default_drb_id else negsuc 0
  | some slot ↦ int8 slot.drb_id
]

-- `sdap_is_reflective_qos`
unfoldable pub is_reflective_qos : Entity → ℕ → Bool
is_reflective_qos entity qfi = elim (find_first (carries qfi) entity.qos_flow_map) [
  | none ↦ false
  | some slot ↦ slot.reflective_qos
]
