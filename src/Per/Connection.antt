-- ===== src/Per/Connection.antt =====
-- RRC connection messages of src/protocol/asn1_per.c that consist of bit fields alone: setup request,
-- reestablishment request, connection release, and the answers that carry a transaction id.
use Prim.Native.Nat.{bit_or}
use uesim.Common.{ℕ, ◌*◌, ◌/◌, ◌%◌, ◌^◌, List, Bool, true, false, if◌then◌else◌, Status}
use uesim.Per.{Buffer, Read, encode_enumerated, encode_boolean, clear}
use uesim.Per.Fields.{put}
use uesim.Per.Decoder.{
  Decoder, ◌>>=◌, ◌>>◌, result, take_bits, take_boolean, take_enumerated, decode_message,
}

-- `rrc_ue_identity_t`: an 8-bit type and a 64-bit random value.
pub record UeIdentity : Type 0 where
  pub type : ℕ
  pub random_value : ℕ

-- `rrc_setup_request_t`
pub record SetupRequest : Type 0 where
  pub ue_identity : UeIdentity
  pub establishment_cause : ℕ

-- The identity as both requests write it: the type, bits 8 and up of the value, and its low byte.
unfoldable pub put_identity : Buffer → UeIdentity → Buffer
put_identity buf id =
    let buf' = put buf id.type 1 in
    let buf'' = put buf' (id.random_value / 2 ^ 8 % 2 ^ 32) 31 in
    put buf'' (id.random_value % 256) 8

unfoldable pub take_identity : Decoder UeIdentity
take_identity = do
  type ← take_bits 1
  high ← take_bits 31
  low ← take_bits 8
  result (record { type = type; random_value = bit_or (high * 2 ^ 8) low })

-- `rrc_encode_setup_request`
unfoldable pub encode_setup_request : Buffer → SetupRequest → Status × Buffer
encode_setup_request buf msg =
    let cleared = clear buf in
    let buf' = (encode_enumerated cleared msg.establishment_cause 4).1 in
    let buf'' = put buf' 0 1 in (Status.success, put_identity buf'' msg.ue_identity)

-- `rrc_decode_setup_request`
unfoldable pub decode_setup_request : List ℕ → Read SetupRequest
decode_setup_request = decode_message 6 (do
  cause ← take_enumerated 4
  take_bits 1
  identity ← take_identity
  result (record { ue_identity = identity; establishment_cause = cause }))

-- `rrc_reest_request_t`
pub record ReestRequest : Type 0 where
  pub ue_identity : UeIdentity
  pub reestablishment_cause : ℕ
  pub pci : ℕ
  pub c_rnti : ℕ
  pub short_mac_i_0 : ℕ
  pub short_mac_i_1 : ℕ

-- `rrc_encode_reest_request`
unfoldable pub encode_reest_request : Buffer → ReestRequest → Status × Buffer
encode_reest_request buf msg =
    let cleared = clear buf in
    let buf1 = (encode_enumerated cleared msg.reestablishment_cause 3).1 in
    let buf2 = put buf1 msg.pci 16 in
    let buf3 = put buf2 msg.c_rnti 16 in
    let buf4 = put buf3 msg.short_mac_i_0 8 in
    let buf5 = put buf4 msg.short_mac_i_1 8 in (Status.success, put_identity buf5 msg.ue_identity)

-- `rrc_decode_reest_request`
unfoldable pub decode_reest_request : List ℕ → Read ReestRequest
decode_reest_request = decode_message 12 (do
  cause ← take_enumerated 3
  pci ← take_bits 16
  crnti ← take_bits 16
  mac0 ← take_bits 8
  mac1 ← take_bits 8
  identity ← take_identity
  result (record {
    ue_identity = identity;
    reestablishment_cause = cause;
    pci = pci;
    c_rnti = crnti;
    short_mac_i_0 = mac0;
    short_mac_i_1 = mac1;
  }))

-- `rrc_connection_release_t`
pub record ConnectionRelease : Type 0 where
  pub release_cause : ℕ
  pub redirect_carrier : Bool
  pub redirect_earfcn : ℕ

-- `rrc_encode_connection_release`
unfoldable pub encode_connection_release : Buffer → ConnectionRelease → Status × Buffer
encode_connection_release buf msg =
    let cleared = clear buf in
    let buf' = put cleared msg.release_cause 3 in
    let flagged = (encode_boolean buf' msg.redirect_carrier).1 in
    let redirected = put flagged msg.redirect_earfcn 16 in
    (Status.success, put (if msg.redirect_carrier then redirected else flagged) 0 5)

-- The carrier frequency, if the flag says that it follows.
unfoldable pub take_earfcn : Bool → Decoder ℕ
take_earfcn true = take_bits 16
take_earfcn false = result 0

-- `rrc_decode_connection_release`
unfoldable pub decode_connection_release : List ℕ → Read ConnectionRelease
decode_connection_release = decode_message 2 (do
  cause ← take_bits 3
  redirect ← take_boolean
  earfcn ← take_earfcn redirect
  result (record { release_cause = cause; redirect_carrier = redirect; redirect_earfcn = earfcn }))

-- `rrc_encode_reest_complete`, and word for word `rrc_encode_reconfig_complete`,
-- `rrc_encode_handover_confirm` and `rrc_encode_security_mode_complete`.
unfoldable pub encode_reconfig_complete : Buffer → ℕ → Status × Buffer
encode_reconfig_complete buf rrc_transaction_id =
    let cleared = clear buf in
    let buf' = put cleared rrc_transaction_id 2 in (Status.success, put buf' 0 6)

-- `rrc_decode_reconfig_complete`
unfoldable pub decode_reconfig_complete : List ℕ → Read ℕ
decode_reconfig_complete = decode_message 1 (take_bits 2)
