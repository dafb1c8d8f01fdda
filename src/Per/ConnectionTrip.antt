-- ===== src/Per/ConnectionTrip.antt =====
-- Encoding a connection message and decoding the bytes sent.
use Prim.Native.Nat.{bit_or}
use uesim.Common.{
  if◌then◌else◌, ℕ, ◌+◌, ◌*◌, ◌/◌, ◌%◌, ◌^◌, ◌≤◌, ◌≡◌, ap, arith, List, [], ◌∷◌, length, Bool, true,
  false,
}
use uesim.Common.Bits.{bit_or_disjoint}
use uesim.Per.{
  Buffer, done, clear, encode_enumerated, decode_enumerated, bit_width, bit_width_loop,
  encode_boolean, decode_boolean,
}
use uesim.Per.Fields.{Field, put_all, Decodes, wire, put_all-round_trip}
use uesim.Per.Decoder.{◌>>=◌}
use uesim.Per.Connection.{
  UeIdentity, put_identity, take_identity, SetupRequest, encode_setup_request, decode_setup_request,
  ReestRequest, encode_reest_request, decode_reest_request, ConnectionRelease,
  encode_connection_release, decode_connection_release, take_earfcn,
}

-- The fields of an identity, and the identity with its value cut to the 39 bits that are sent.
abbrev identity_fields : UeIdentity → List Field
identity_fields id =
    (id.type, 1) ∷ (id.random_value / 2 ^ 8 % 2 ^ 32, 31) ∷ (id.random_value % 256, 8) ∷ []

abbrev pub cut_identity : UeIdentity → UeIdentity
cut_identity id = record { type = id.type % 2; random_value = id.random_value % 2 ^ 39 }

take_identity_lem :
    (bytes : List ℕ) (j : ℕ) (id : UeIdentity)
    → Decodes bytes j (identity_fields id)
    → take_identity bytes j ≡ done (cut_identity id) (j + 1 + 31 + 8)
unfolding take_identity
take_identity_lem bytes j id d =
    rw (d.0, d.1.0, d.1.1.0, take_identity, ◌>>=◌)
      (ap (λ v. done (record { type = id.type % 2; random_value = v }) (j + 1 + 31 + 8)) value)
  where
    high : ℕ
    high = id.random_value / 2 ^ 8 % 2 ^ 32 % 2 ^ 31

    low : ℕ
    low = id.random_value % 256 % 2 ^ 8

    value : bit_or (high * 2 ^ 8) low ≡ id.random_value % 2 ^ 39
    value = omega (arith, bit_or_disjoint 8 high low (omega arith))

abbrev setup_request_fields : SetupRequest → List Field
setup_request_fields msg = (msg.establishment_cause, 2) ∷ (0, 1) ∷ identity_fields msg.ue_identity

-- A setup request encoded into a buffer of at least 6 bytes, and decoded from the bytes sent, comes back
-- with its cause cut to 2 bits, its identity type to 1 and its random value to 39.
pub setup_request-round_trip :
    (buf : Buffer) (msg : SetupRequest)
    → 6 ≤ buf.capacity
    → decode_setup_request (wire (encode_setup_request buf msg).1)
      ≡ done
          (record {
            ue_identity = cut_identity msg.ue_identity;
            establishment_cause = msg.establishment_cause % 4;
          })
          43
unfolding encode_setup_request decode_setup_request put_identity encode_enumerated decode_enumerated
    bit_width bit_width_loop
setup_request-round_trip buf msg room = rw (
  trip.1,
  trip.0.0,
  trip.0.1.0,
  take_identity_lem _ 3 msg.ue_identity trip.0.1.1,
  decode_setup_request,
  ◌>>=◌,
)
  where
    trip :
        Decodes (wire (put_all (clear buf) (setup_request_fields msg))) 0 (setup_request_fields msg)
        × (length (wire (put_all (clear buf) (setup_request_fields msg))) ≡ 6)
    trip = put_all-round_trip buf (setup_request_fields msg) (omega arith) (omega arith)

abbrev reest_request_fields : ReestRequest → List Field
reest_request_fields msg =
    (msg.reestablishment_cause, 2)
    ∷ (msg.pci, 16)
    ∷ (msg.c_rnti, 16)
    ∷ (msg.short_mac_i_0, 8)
    ∷ (msg.short_mac_i_1, 8)
    ∷ identity_fields msg.ue_identity

-- A reestablishment request encoded into a buffer of at least 12 bytes, and decoded from the bytes sent,
-- comes back with every field cut to the width that it is sent with.
pub reest_request-round_trip :
    (buf : Buffer) (msg : ReestRequest)
    → 12 ≤ buf.capacity
    → decode_reest_request (wire (encode_reest_request buf msg).1)
      ≡ done
          (record {
            ue_identity = cut_identity msg.ue_identity;
            reestablishment_cause = msg.reestablishment_cause % 4;
            pci = msg.pci % 2 ^ 16;
            c_rnti = msg.c_rnti % 2 ^ 16;
            short_mac_i_0 = msg.short_mac_i_0 % 2 ^ 8;
            short_mac_i_1 = msg.short_mac_i_1 % 2 ^ 8;
          })
          90
unfolding encode_reest_request decode_reest_request put_identity encode_enumerated decode_enumerated
    bit_width bit_width_loop
reest_request-round_trip buf msg room = rw (
  trip.1,
  trip.0.0,
  trip.0.1.0,
  trip.0.1.1.0,
  trip.0.1.1.1.0,
  trip.0.1.1.1.1.0,
  take_identity_lem _ 50 msg.ue_identity trip.0.1.1.1.1.1,
  decode_reest_request,
  ◌>>=◌,
)
  where
    trip :
        Decodes (wire (put_all (clear buf) (reest_request_fields msg))) 0 (reest_request_fields msg)
        × (length (wire (put_all (clear buf) (reest_request_fields msg))) ≡ 12)
    trip = put_all-round_trip buf (reest_request_fields msg) (omega arith) (omega arith)

-- The fields of a release, by its flag.
abbrev release_fields : ℕ → ℕ → Bool → List Field
release_fields cause earfcn false = (cause, 3) ∷ (0, 1) ∷ (0, 5) ∷ []
release_fields cause earfcn true = (cause, 3) ∷ (1, 1) ∷ (earfcn, 16) ∷ (0, 5) ∷ []

release_helper :
    (buf : Buffer) (cause earfcn : ℕ) (redirect : Bool)
    → 4 ≤ buf.capacity
    → decode_connection_release (
        wire
          (encode_connection_release buf (record {
            release_cause = cause;
            redirect_carrier = redirect;
            redirect_earfcn = earfcn;
          })).1)
      ≡ done
          (record {
            release_cause = cause % 2 ^ 3;
            redirect_carrier = redirect;
            redirect_earfcn = if redirect then earfcn % 2 ^ 16 else 0;
          })
          (if redirect then 20 else 4)
unfolding encode_connection_release decode_connection_release encode_boolean decode_boolean
    take_earfcn
release_helper buf cause earfcn true room = rw (
  trip.1, trip.0.0, trip.0.1.0, trip.0.1.1.0, decode_connection_release, ◌>>=◌, decode_boolean,
  take_earfcn,
)
  where
    trip :
        Decodes
          (wire (put_all (clear buf) (release_fields cause earfcn true)))
          0
          (release_fields cause earfcn true)
        × (length (wire (put_all (clear buf) (release_fields cause earfcn true))) ≡ 4)
    trip = put_all-round_trip buf (release_fields cause earfcn true) (omega arith) (omega arith)
release_helper buf cause earfcn false room =
    rw (trip.1, trip.0.0, trip.0.1.0, decode_connection_release, ◌>>=◌, decode_boolean, take_earfcn)
  where
    trip :
        Decodes
          (wire (put_all (clear buf) (release_fields cause earfcn false)))
          0
          (release_fields cause earfcn false)
        × (length (wire (put_all (clear buf) (release_fields cause earfcn false))) ≡ 2)
    trip = put_all-round_trip buf (release_fields cause earfcn false) (omega arith) (omega arith)

-- A connection release encoded into a buffer of at least 4 bytes, and decoded from the bytes sent, comes
-- back with its cause cut to 3 bits and its frequency to 16; a frequency
-- that the flag does not announce comes back as 0.
pub connection_release-round_trip :
    (buf : Buffer) (msg : ConnectionRelease)
    → 4 ≤ buf.capacity
    → decode_connection_release (wire (encode_connection_release buf msg).1)
      ≡ done
          (record {
            release_cause = msg.release_cause % 2 ^ 3;
            redirect_carrier = msg.redirect_carrier;
            redirect_earfcn = if msg.redirect_carrier then msg.redirect_earfcn % 2 ^ 16 else 0;
          })
          (if msg.redirect_carrier then 20 else 4)
connection_release-round_trip buf msg room =
    release_helper buf msg.release_cause msg.redirect_earfcn msg.redirect_carrier room
