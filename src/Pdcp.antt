-- ===== src/Pdcp.antt =====
-- src/protocol/pdcp.c: the entity that numbers, protects and ciphers the packets of a bearer. The
-- algorithms of aes.c, snow3g.c and zuc.c are a parameter, the record `Crypto`. The answers of the
-- allocator and of `pthread_mutex_init` and `pthread_mutex_lock` are arguments.
pub mod Data
pub mod Header
pub mod Counts
pub mod RoundTrip
pub mod Sending
mod Tests
use Prim.Native.Nat.{bit_and}
use uesim.Common.{
  ℕ, ◌+◌, ◌*◌, ◌-◌, ◌%◌, ◌/◌, ◌^◌, List, Bool, true, false, ◌&&◌, ◌||◌, Option, none, some, ltb,
  leb, ◌==◌, if◌then◌else◌, replicate, Status,
}

-- `pdcp_ciphering_alg_t` and `pdcp_integrity_alg_t`
pub data CipheringAlg : Type 0 where
  nea0 nea1 nea2 nea3 : CipheringAlg

pub data IntegrityAlg : Type 0 where
  nia0 nia1 nia2 nia3 : IntegrityAlg

-- `pdcp_cipher_params_t`
pub record CipherParams : Type 0 where
  pub count : ℕ
  pub bearer : ℕ
  pub direction : ℕ

-- `pdcp_crypto_ops_t` for each algorithm: key, parameters and bytes.
pub record Crypto : Type 0 where
  pub encrypt : CipheringAlg → List ℕ → CipherParams → List ℕ → Status × List ℕ
  pub decrypt : CipheringAlg → List ℕ → CipherParams → List ℕ → Status × List ℕ
  pub compute_mac : IntegrityAlg → List ℕ → CipherParams → List ℕ → Status × ℕ

-- `pdcp_security_context_t`
pub record SecurityContext : Type 0 where
  pub ciphering_key : List ℕ
  pub integrity_key : List ℕ
  pub ciphering_alg : CipheringAlg
  pub integrity_alg : IntegrityAlg
  pub key_refresh_count : ℕ

-- `pdcp_entity_t`
pub record Entity : Type 0 where
  pub entity_id : ℕ
  pub bearer_type : ℕ
  pub direction : ℕ
  pub sn_length : ℕ
  pub next_pdcp_sn : ℕ
  pub next_expected_sn : ℕ
  pub tx_hfn : ℕ
  pub rx_hfn : ℕ
  pub last_tx_sn : ℕ
  pub last_rx_sn : ℕ
  pub sn_mask : ℕ
  pub sn_max : ℕ
  pub hfn_max : ℕ
  pub security_ctx : Option SecurityContext
  pub active : Bool

-- `pdcp_pdu_t`
pub record Pdu : Type 0 where
  pub sn : ℕ
  pub bytes : List ℕ
  pub mac_i : ℕ
  pub ciphered : Bool
  pub integrity_protected : Bool

-- `pdcp_init_sn_params`
abbrev sn_params_with : Entity → ℕ → ℕ → ℕ → Entity
sn_params_with entity mask max hfn_max = record entity {
  tx_hfn = 0;
  rx_hfn = 0;
  last_tx_sn = 0;
  last_rx_sn = 0;
  sn_mask = mask;
  sn_max = max;
  hfn_max = hfn_max;
}

unfoldable pub init_sn_params : Entity → Entity
init_sn_params entity =
    if entity.sn_length == 5
    then sn_params_with entity 31 32 134217727
    else if entity.sn_length == 18
    then sn_params_with entity 262143 262144 16383
    else sn_params_with entity 4095 4096 1048575

-- What `uesim_calloc` and the assignments before `pdcp_init_sn_params` leave.
abbrev blank_entity : ℕ → ℕ → ℕ → Entity
blank_entity entity_id bearer direction = record {
  entity_id = entity_id;
  bearer_type = bearer;
  direction = direction;
  sn_length = if leb bearer 3 then 5 else 12;
  next_pdcp_sn = 0;
  next_expected_sn = 0;
  tx_hfn = 0;
  rx_hfn = 0;
  last_tx_sn = 0;
  last_rx_sn = 0;
  sn_mask = 0;
  sn_max = 0;
  hfn_max = 0;
  security_ctx = none;
  active = false;
}

-- `pdcp_create_entity`, at the global counter's value: the status, the counter and `*entity`.
unfoldable pub create_entity : ℕ → ℕ → ℕ → Bool → Bool → Bool → Status × ℕ × Option Entity
create_entity counter bearer direction allocated mutex cond =
    if leb 32 bearer
    then (Status.invalid_param, counter, none)
    else if allocated
    then if mutex && cond
      then (
        Status.success,
        (counter + 1) % 2 ^ 32,
        some (init_sn_params (blank_entity counter bearer direction)),
      )
      else (Status.thread, (counter + 1) % 2 ^ 32, none)
    else (Status.memory, counter, none)

-- `pdcp_check_hfn_overflow`
unfoldable pub check_hfn_overflow : Entity → Bool
check_hfn_overflow entity = leb entity.hfn_max entity.tx_hfn || leb entity.hfn_max entity.rx_hfn

-- `pdcp_get_tx_count` and `pdcp_get_count`
unfoldable pub get_tx_count : Entity → ℕ
get_tx_count entity =
    (bit_and entity.next_pdcp_sn entity.sn_mask + entity.sn_max * entity.tx_hfn) % 2 ^ 32

-- `pdcp_detect_sn_wraparound`
unfoldable pub detect_sn_wraparound : ℕ → ℕ → ℕ → Bool
detect_sn_wraparound last_sn new_sn sn_max =
    (ltb (sn_max / 2) last_sn && ltb new_sn (sn_max / 2)) && ltb (sn_max / 2) (last_sn - new_sn)

-- `pdcp_get_rx_count`: the count, and the entity with its receiving numbers.
unfoldable pub get_rx_count : Entity → ℕ → ℕ × Entity
get_rx_count entity received =
    let sn = bit_and received entity.sn_mask in
    let first = entity.last_rx_sn == 0 in
    let wrapped = detect_sn_wraparound entity.last_rx_sn sn entity.sn_max in
    let hfn =
      if first
      then entity.rx_hfn
      else if wrapped
      then (entity.rx_hfn + 1) % 2 ^ 32
      else entity.rx_hfn in
    ((sn + entity.sn_max * hfn) % 2 ^ 32, record entity { rx_hfn = hfn; last_rx_sn = sn })

-- `pdcp_increment_count`
unfoldable pub increment_count : Entity → Entity
increment_count entity = record entity { next_pdcp_sn = (entity.next_pdcp_sn + 1) % 2 ^ 32 }

-- `pdcp_create_security_context`; a key that is not given is the zeros of `uesim_calloc`.
abbrev key_or_zero : Option (List ℕ) → List ℕ
key_or_zero none = replicate 16 0
key_or_zero (some key) = key

unfoldable pub create_security_context :
    CipheringAlg
    → IntegrityAlg
    → Option (List ℕ)
    → Option (List ℕ)
    → Bool
    → Bool
    → Status × Option SecurityContext
create_security_context cipher_alg integrity_alg cipher_key integrity_key allocated mutex =
    if allocated
    then if mutex
      then (
        Status.success,
        some (record {
          ciphering_key = key_or_zero cipher_key;
          integrity_key = key_or_zero integrity_key;
          ciphering_alg = cipher_alg;
          integrity_alg = integrity_alg;
          key_refresh_count = 0;
        }),
      )
      else (Status.thread, none)
    else (Status.memory, none)

-- `pdcp_update_security_context`
unfoldable pub update_security_context :
    SecurityContext → CipheringAlg → IntegrityAlg → Bool → Status × SecurityContext
update_security_context ctx cipher_alg integrity_alg locked =
    if locked
    then (
      Status.success,
      record ctx {
        ciphering_alg = cipher_alg;
        integrity_alg = integrity_alg;
        key_refresh_count = (ctx.key_refresh_count + 1) % 2 ^ 32;
      },
    )
    else (Status.thread, ctx)

-- `pdcp_perform_key_refresh`, with the two locks.
unfoldable pub perform_key_refresh : Entity → List ℕ → List ℕ → Bool → Bool → Status × Entity
perform_key_refresh entity cipher_key integrity_key locked security_locked =
    elim entity.security_ctx [
      | none ↦ (Status.invalid_param, entity)
      | some ctx ↦
          if locked && security_locked
          then (
            Status.success,
            record entity {
              security_ctx = some (record ctx {
                ciphering_key = cipher_key;
                integrity_key = integrity_key;
                key_refresh_count = (ctx.key_refresh_count + 1) % 2 ^ 32;
              });
              tx_hfn = 0;
              rx_hfn = 0;
              last_tx_sn = 0;
              last_rx_sn = 0;
              next_pdcp_sn = 0;
              next_expected_sn = 0;
            },
          )
          else (Status.thread, entity)
    ]

-- `pdcp_activate_entity` and `pdcp_deactivate_entity`
unfoldable pub activate_entity : Entity → Bool → Status × Entity
activate_entity entity locked =
    if locked then (Status.success, record entity { active = true }) else (Status.thread, entity)

unfoldable pub deactivate_entity : Entity → Bool → Status × Entity
deactivate_entity entity locked =
    if locked then (Status.success, record entity { active = false }) else (Status.thread, entity)
