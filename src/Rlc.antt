-- ===== src/Rlc.antt =====
-- src/protocol/rlc.c: an entity of the radio link control layer, its life cycle and its data path in the
-- transparent, unacknowledged and acknowledged modes. Answers of `malloc`, of the thread library and of
-- the clock are arguments. The code keeps an entity's buffers in a union that `mode` tells apart, which
-- `rlc_configure_entity` does not change: `Buffers` says which member was set up.
pub mod Segments
pub mod LifeCycle
pub mod Transfer
pub mod RoundTrip
pub mod Receive
pub mod TxWindow
pub mod RxWindow
mod Tests
use uesim.Common.{
  ℕ, zero, suc, ◌+◌, ◌-◌, ◌*◌, ◌/◌, ◌%◌, ◌^◌, List, [], ◌∷◌, ◌++◌, Bool, true, false, Option, none,
  some, ltb, leb, ◌==◌, if◌then◌else◌, length, slice, Status,
}

-- `rlc_mode_t`
pub data Mode : Type 0 where
  tm um am : Mode

-- `rlc_status_t`
pub data State : Type 0 where
  idle configured active suspended : State

-- `rlc_tm_config_t`, `rlc_um_config_t` and `rlc_am_config_t`
pub data ModeConfig : Type 0 where
  tm_config : ℕ → ModeConfig
  um_config : ℕ → ℕ → Bool → ModeConfig
  am_config : ℕ → ℕ → ℕ → ℕ → ℕ → ℕ → ℕ → ModeConfig

-- `rlc_config_t`
pub record Config : Type 0 where
  pub mode : Mode
  pub config : ModeConfig

-- `rlc_pdu_t`; `next` is the rest of the list that a PDU stands in.
pub record Pdu : Type 0 where
  pub data_bytes : List ℕ
  pub sn : ℕ
  pub fi : ℕ
  pub so : ℕ
  pub is_segment : Bool

-- `rlc_sdu_t`
pub record Sdu : Type 0 where
  pub data_bytes : List ℕ
  pub sdu_id : ℕ
  pub creation_time : ℕ

-- The queues of `rlc_tm_entity_t` (`tx_buffer`, `rx_buffer`), `rlc_um_entity_t` (`rx_buffer`) and
-- `rlc_am_entity_t` (`tx_buffer`, `rx_buffer`).
pub data Buffers : Type 0 where
  tm_buffers : List Sdu → List Sdu → Buffers
  um_buffers : List Pdu → Buffers
  am_buffers : List Sdu → List Pdu → Buffers

-- `rlc_entity_t`. A `config` of `none` is the zeroes that the allocation left.
pub record Entity : Type 0 where
  pub entity_id : ℕ
  pub bearer_type : ℕ
  pub direction : ℕ
  pub mode : Mode
  pub status : State
  pub config : Option Config
  pub buffers : Buffers
  pub sdu_counter : ℕ
  pub pdu_counter : ℕ
  pub active : Bool

abbrev empty_buffers : Mode → Buffers
empty_buffers Mode.tm = Buffers.tm_buffers [] []
empty_buffers Mode.um = Buffers.um_buffers []
empty_buffers Mode.am = Buffers.am_buffers [] []

-- The entity as `rlc_create_entity` leaves it.
abbrev pub fresh_entity : ℕ → ℕ → ℕ → Mode → Option Config → Entity
fresh_entity entity_id bearer direction mode config = record {
  entity_id = entity_id;
  bearer_type = bearer;
  direction = direction;
  mode = mode;
  status = State.configured;
  config = config;
  buffers = empty_buffers mode;
  sdu_counter = 0;
  pdu_counter = 0;
  active = false;
}

-- `rlc_create_entity`, after `g_rlc_entity_counter` gave `entity_id`: whether the allocation succeeded,
-- and whether the mutex and condition variable of the entity, then those of its mode, could be set up.
unfoldable pub create_entity :
    ℕ → Bool → Bool → Bool → Bool → Bool → ℕ → ℕ → Mode → Option Config → Status × Option Entity
create_entity entity_id allocated mutex cond mode_mutex mode_cond bearer direction mode config =
    if leb 32 bearer
    then (Status.invalid_param, none)
    else if allocated
    then if mutex
      then if cond
        then if mode_mutex
          then if mode_cond
            then (Status.success, some (fresh_entity entity_id bearer direction mode config))
            else (Status.thread, none)
          else (Status.thread, none)
        else (Status.thread, none)
      else (Status.thread, none)
    else (Status.memory, none)

-- `rlc_configure_entity`, given whether the lock was taken, like those below.
unfoldable pub configure_entity : Entity → Config → Bool → Status × Entity
configure_entity entity config locked =
    if locked
    then (Status.success, record entity { config = some config; mode = config.mode })
    else (Status.thread, entity)

-- `rlc_activate_entity`
unfoldable pub activate_entity : Entity → Bool → Status × Entity
activate_entity entity locked =
    if locked
    then (Status.success, record entity { active = true; status = State.active })
    else (Status.thread, entity)

-- `rlc_deactivate_entity`
unfoldable pub deactivate_entity : Entity → Bool → Status × Entity
deactivate_entity entity locked =
    if locked
    then (Status.success, record entity { active = false; status = State.configured })
    else (Status.thread, entity)

-- `rlc_suspend_entity`
unfoldable pub suspend_entity : Entity → Bool → Status × Entity
suspend_entity entity locked =
    if locked
    then (Status.success, record entity { active = false; status = State.suspended })
    else (Status.thread, entity)

-- `rlc_resume_entity`
unfoldable pub resume_entity : Entity → Bool → Status × Entity
resume_entity entity locked = elim entity.status [
  | suspended ↦
      if locked
      then (Status.success, record entity { active = true; status = State.active })
      else (Status.thread, entity)
  | _ ↦ (Status.invalid_param, entity)
]

-- A fresh PDU with `data_bytes` copied in: `rlc_create_pdu` and the `memcpy` after it.
abbrev pub data_pdu : List ℕ → Pdu
data_pdu bytes = record { data_bytes = bytes; sn = 0; fi = 0; so = 0; is_segment = false }

-- The framing information of segment `i` of `num_pdus`.
unfoldable pub framing : ℕ → ℕ → ℕ
framing num_pdus i =
    if num_pdus == 1 then 0 else if i == 0 then 1 else if i == num_pdus - 1 then 2 else 3

-- What one round of the segment loop adds in front of the later rounds' list. A later round that fails
-- destroys the list.
abbrev link : Pdu → Status × ℕ × List Pdu → Status × ℕ × List Pdu
link pdu (Status.success, counter, pdus) = (Status.success, counter, pdu ∷ pdus)
link pdu (status, counter, pdus) = (status, counter, [])

-- The loop of `rlc_um_process_tx_data` and `rlc_am_process_tx_data`, which are the same, from segment
-- `i` on, with the rounds left: the status, `pdu_counter` (an `unsigned int`, whose low 16 bits are the
-- sequence number) and the list. `alloc i` says whether `rlc_create_pdu` finds memory.
unfoldable pub segment_loop : (ℕ → Bool) → List ℕ → ℕ → ℕ → ℕ → ℕ → Status × ℕ × List Pdu
segment_loop alloc sdu num_pdus i zero counter = (Status.success, counter, [])
segment_loop alloc sdu num_pdus i (suc rounds) counter =
    let segment_size = if i == num_pdus - 1 then length sdu - i * 8192 else 8192 in
    let pdu = record (data_pdu (slice sdu (i * 8192) segment_size)) {
      sn = counter % 2 ^ 16;
      fi = framing num_pdus i;
    } in
    let rest = segment_loop alloc sdu num_pdus (i + 1) rounds ((counter + 1) % 2 ^ 32) in
    if alloc i then link pdu rest else (Status.memory, counter, [])
