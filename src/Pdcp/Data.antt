-- ===== src/Pdcp/Data.antt =====
-- The data path of src/protocol/pdcp.c: numbering, integrity protection and ciphering.
use Prim.Native.Nat.{bit_and}
use uesim.Common.{
  ℕ, ◌+◌, ◌%◌, ◌^◌, List, [], ◌∷◌, Bool, true, false, ◌&&◌, Option, none, some, ltb, ◌==◌,
  if◌then◌else◌, Status,
}
use uesim.Pdcp.{
  CipheringAlg, IntegrityAlg, CipherParams, Crypto, SecurityContext, Entity, Pdu, get_tx_count,
}

-- The parameters of all four operations: the count is that of the entity's own transmissions.
abbrev pub cipher_params : Entity → CipherParams
cipher_params entity = record {
  count = get_tx_count entity;
  bearer = entity.bearer_type;
  direction = entity.direction;
}

-- What a transmission allocates: the PDU, its data, and the buffer for the cipher.
pub record Allocations : Type 0 where
  pub pdu : Bool
  pub bytes : Bool
  pub cipher : Bool

abbrev pub with_mac : Pdu → Status × ℕ → Status × Pdu
with_mac pdu (Status.success, mac) =
    (Status.success, record pdu { mac_i = mac; integrity_protected = true })
with_mac pdu (status, mac) = (status, pdu)

abbrev pub with_bytes : Pdu → Bool → Status × List ℕ → Status × Pdu
with_bytes pdu ciphered (Status.success, bytes) =
    (Status.success, record pdu { bytes = bytes; ciphered = ciphered })
with_bytes pdu ciphered (status, bytes) = (status, pdu)

-- `pdcp_compute_integrity_protect`, under a security context.
unfoldable pub compute_integrity_protect : Crypto → Entity → SecurityContext → Pdu → Status × Pdu
compute_integrity_protect crypto entity ctx pdu = elim ctx.integrity_alg [
  | IntegrityAlg.nia0 ↦ (Status.success, record pdu { integrity_protected = false })
  | alg ↦
      with_mac pdu
        (crypto.compute_mac ctx.integrity_alg ctx.integrity_key (cipher_params entity) pdu.bytes)
]

-- `pdcp_encrypt_pdu` and `pdcp_decrypt_pdu`, under a security context.
unfoldable pub encrypt_pdu : Crypto → Entity → SecurityContext → Pdu → Bool → Status × Pdu
encrypt_pdu crypto entity ctx pdu allocated = elim ctx.ciphering_alg [
  | CipheringAlg.nea0 ↦ (Status.success, record pdu { ciphered = false })
  | alg ↦
      if allocated
      then with_bytes pdu true
          (crypto.encrypt ctx.ciphering_alg ctx.ciphering_key (cipher_params entity) pdu.bytes)
      else (Status.memory, pdu)
]

unfoldable pub decrypt_pdu : Crypto → Entity → SecurityContext → Pdu → Bool → Status × Pdu
decrypt_pdu crypto entity ctx pdu allocated = elim ctx.ciphering_alg [
  | CipheringAlg.nea0 ↦ (Status.success, record pdu { ciphered = false })
  | alg ↦
      if allocated
      then with_bytes pdu false
          (crypto.decrypt ctx.ciphering_alg ctx.ciphering_key (cipher_params entity) pdu.bytes)
      else (Status.memory, pdu)
]

abbrev pub compared : ℕ → Status × ℕ → Status × Bool
compared mac (Status.success, expected) = (Status.success, expected == mac)
compared mac (status, expected) = (status, false)

-- `pdcp_verify_integrity_protect`, under a security context: the status and `*valid`.
unfoldable pub verify_integrity_protect : Crypto → Entity → SecurityContext → Pdu → Status × Bool
verify_integrity_protect crypto entity ctx pdu = elim ctx.integrity_alg [
  | IntegrityAlg.nia0 ↦ (Status.success, true)
  | alg ↦
      compared pdu.mac_i
        (crypto.compute_mac ctx.integrity_alg ctx.integrity_key (cipher_params entity) pdu.bytes)
]

-- The next sequence number, and the entity after it was taken: the hyper frame number is counted up when
-- the sequence number is back at 0.
abbrev pub current_sn : Entity → ℕ
current_sn entity = bit_and entity.next_pdcp_sn entity.sn_mask

unfoldable pub take_sn : Entity → Entity
take_sn entity = record entity {
  next_pdcp_sn = (entity.next_pdcp_sn + 1) % 2 ^ 32;
  tx_hfn =
      if (current_sn entity == 0) && ltb 0 entity.last_tx_sn
      then (entity.tx_hfn + 1) % 2 ^ 32
      else entity.tx_hfn;
  last_tx_sn = current_sn entity;
}

abbrev pub plain_pdu : ℕ → List ℕ → Pdu
plain_pdu sn bytes = record {
  sn = sn % 2 ^ 16;
  bytes = bytes;
  mac_i = 0;
  ciphered = false;
  integrity_protected = false;
}

abbrev pub handed_out : Entity → Status × Pdu → Status × Entity × Option Pdu
handed_out entity (Status.success, pdu) = (Status.success, entity, some pdu)
handed_out entity (status, pdu) = (status, entity, none)

abbrev pub encrypted :
    Crypto → Entity → SecurityContext → Bool → Status × Pdu → Status × Entity × Option Pdu
encrypted crypto entity ctx allocated (Status.success, pdu) =
    handed_out entity (encrypt_pdu crypto entity ctx pdu allocated)
encrypted crypto entity ctx allocated (status, pdu) = (status, entity, none)

abbrev pub secured :
    Crypto → Entity → Option SecurityContext → Pdu → Bool → Status × Entity × Option Pdu
secured crypto entity none pdu allocated = (Status.success, entity, some pdu)
secured crypto entity (some ctx) pdu allocated =
    encrypted crypto entity ctx allocated (compute_integrity_protect crypto entity ctx pdu)

-- `pdcp_process_tx_data`
unfoldable pub process_tx_data :
    Crypto → Entity → List ℕ → Allocations → Status × Entity × Option Pdu
process_tx_data crypto entity [] allocations = (Status.invalid_param, entity, none)
process_tx_data crypto entity (b ∷ bytes) allocations =
    if entity.active
    then if allocations.pdu && allocations.bytes
      then secured crypto (take_sn entity) entity.security_ctx
          (plain_pdu (current_sn entity) (b ∷ bytes)) allocations.cipher
      else (Status.memory, entity, none)
    else (Status.invalid_param, entity, none)

abbrev pub received : Entity → Pdu → Status × Pdu → Status × Entity × Option (List ℕ)
received entity pdu (Status.success, plain) =
    (Status.success, record entity { next_expected_sn = (pdu.sn + 1) % 2 ^ 32 }, some plain.bytes)
received entity pdu (status, plain) = (status, entity, none)

abbrev pub deciphered :
    Crypto → Entity → Option SecurityContext → Pdu → Bool → Bool → Status × Entity × Option (List ℕ)
deciphered crypto entity none pdu copied allocated =
    received entity pdu (if copied then (Status.success, pdu) else (Status.memory, pdu))
deciphered crypto entity (some ctx) pdu copied allocated = received entity pdu (
    if copied
    then if pdu.ciphered then decrypt_pdu crypto entity ctx pdu allocated else (Status.success, pdu)
    else (Status.memory, pdu))

abbrev pub verified : Status × Bool → Status
verified (Status.success, valid) = if valid then Status.success else Status.protocol
verified (status, valid) = status

-- The check at the start, and what comes after it.
abbrev pub check_integrity : Crypto → Entity → Option SecurityContext → Pdu → Status
check_integrity crypto entity none pdu = Status.success
check_integrity crypto entity (some ctx) pdu =
    if pdu.integrity_protected
    then verified (verify_integrity_protect crypto entity ctx pdu)
    else Status.success

abbrev pub accepted :
    Crypto → Entity → Pdu → Bool → Bool → Status → Status × Entity × Option (List ℕ)
accepted crypto entity pdu copied allocated Status.success =
    deciphered crypto entity entity.security_ctx pdu copied allocated
accepted crypto entity pdu copied allocated status = (status, entity, none)

-- `pdcp_process_rx_data`; the `Bool`s say whether the copy of the data and the cipher's buffer were
-- allocated.
unfoldable pub process_rx_data :
    Crypto → Entity → Pdu → Bool → Bool → Status × Entity × Option (List ℕ)
process_rx_data crypto entity pdu copied allocated =
    if entity.active
    then accepted crypto entity pdu copied allocated
        (check_integrity crypto entity entity.security_ctx pdu)
    else (Status.invalid_param, entity, none)
