-- ===== src/Pdcp/RoundTrip.antt =====
-- From the sender's entity of src/protocol/pdcp.c to the receiver's.
use uesim.Common.{
  ℕ, ◌+◌, ◌%◌, ◌^◌, ◌≡◌, ◌≢◌, refl, arith, List, ◌∷◌, true, false, Option, none, some, ◌==◌, ==_iff,
  Status,
}
use uesim.Pdcp.{CipheringAlg, IntegrityAlg, Crypto, SecurityContext, Entity, Pdu}
use uesim.Pdcp.Data.{
  Allocations, cipher_params, compute_integrity_protect, encrypt_pdu, decrypt_pdu,
  verify_integrity_protect, current_sn, take_sn, plain_pdu, with_bytes, with_mac, compared,
  process_tx_data, process_rx_data,
}

-- Every allocation succeeds.
abbrev pub all_allocated : Allocations
all_allocated = record { pdu = true; bytes = true; cipher = true }

-- What the receiver makes of a PDU that it accepts.
abbrev pub accepted_as : Entity → ℕ → List ℕ → Status × Entity × Option (List ℕ)
accepted_as e sn sdu =
    (Status.success, record e { next_expected_sn = (sn % 2 ^ 16 + 1) % 2 ^ 32 }, some sdu)

-- Two entities that cipher alike: the same context, and the same parameters once the sender has taken its
-- number.
pub record IsPaired (ctx : SecurityContext) (sender receiver : Entity) : Type 0 where
  pub sender_active : sender.active ≡ true
  pub receiver_active : receiver.active ≡ true
  pub sender_ctx : sender.security_ctx ≡ some ctx
  pub receiver_ctx : receiver.security_ctx ≡ some ctx
  pub same_params : cipher_params receiver ≡ cipher_params (take_sn sender)

-- The PDU of an SDU whose bytes became `cipher`, with the code `mac`.
abbrev pub protected_pdu : Entity → List ℕ → ℕ → Pdu
protected_pdu sender cipher mac = record {
  sn = current_sn sender % 2 ^ 16;
  bytes = cipher;
  mac_i = mac;
  ciphered = true;
  integrity_protected = true;
}

abbrev pub ciphered_pdu : Entity → List ℕ → Pdu
ciphered_pdu sender cipher = record {
  sn = current_sn sender % 2 ^ 16;
  bytes = cipher;
  mac_i = 0;
  ciphered = true;
  integrity_protected = false;
}

-- A security context, by its keys, how often they were refreshed, and its algorithms.
abbrev pub keyed : List ℕ → List ℕ → ℕ → CipheringAlg → IntegrityAlg → SecurityContext
keyed ckey ikey refreshes cipher integrity = record {
  ciphering_key = ckey;
  integrity_key = ikey;
  ciphering_alg = cipher;
  integrity_alg = integrity;
  key_refresh_count = refreshes;
}

module _ (crypto : Crypto) (ckey ikey : List ℕ) (refreshes b : ℕ) (rest : List ℕ) where
  abbrev context : CipheringAlg → IntegrityAlg → SecurityContext
  context cipher integrity = keyed ckey ikey refreshes cipher integrity

  pub encrypt-context :
      (alg : CipheringAlg) (i : IntegrityAlg) (e : Entity) (pdu : Pdu)
      → alg ≢ CipheringAlg.nea0
      → encrypt_pdu crypto e (context alg i) pdu true
        ≡ with_bytes pdu true (crypto.encrypt alg ckey (cipher_params e) pdu.bytes)
  unfolding encrypt_pdu
  encrypt-context CipheringAlg.nea0 i e pdu on = absurd (on refl)
  encrypt-context CipheringAlg.nea1 i e pdu on = refl
  encrypt-context CipheringAlg.nea2 i e pdu on = refl
  encrypt-context CipheringAlg.nea3 i e pdu on = refl

  decrypt-context :
      (alg : CipheringAlg) (i : IntegrityAlg) (e : Entity) (pdu : Pdu)
      → alg ≢ CipheringAlg.nea0
      → decrypt_pdu crypto e (context alg i) pdu true
        ≡ with_bytes pdu false (crypto.decrypt alg ckey (cipher_params e) pdu.bytes)
  unfolding decrypt_pdu
  decrypt-context CipheringAlg.nea0 i e pdu on = absurd (on refl)
  decrypt-context CipheringAlg.nea1 i e pdu on = refl
  decrypt-context CipheringAlg.nea2 i e pdu on = refl
  decrypt-context CipheringAlg.nea3 i e pdu on = refl

  protect-context :
      (alg : CipheringAlg) (i : IntegrityAlg) (e : Entity) (pdu : Pdu)
      → i ≢ IntegrityAlg.nia0
      → compute_integrity_protect crypto e (context alg i) pdu
        ≡ with_mac pdu (crypto.compute_mac i ikey (cipher_params e) pdu.bytes)
  unfolding compute_integrity_protect
  protect-context alg IntegrityAlg.nia0 e pdu on = absurd (on refl)
  protect-context alg IntegrityAlg.nia1 e pdu on = refl
  protect-context alg IntegrityAlg.nia2 e pdu on = refl
  protect-context alg IntegrityAlg.nia3 e pdu on = refl

  verify-context :
      (alg : CipheringAlg) (i : IntegrityAlg) (e : Entity) (pdu : Pdu)
      → i ≢ IntegrityAlg.nia0
      → verify_integrity_protect crypto e (context alg i) pdu
        ≡ compared pdu.mac_i (crypto.compute_mac i ikey (cipher_params e) pdu.bytes)
  unfolding verify_integrity_protect
  verify-context alg IntegrityAlg.nia0 e pdu on = absurd (on refl)
  verify-context alg IntegrityAlg.nia1 e pdu on = refl
  verify-context alg IntegrityAlg.nia2 e pdu on = refl
  verify-context alg IntegrityAlg.nia3 e pdu on = refl

  -- With any cipher and no integrity protection, between entities that cipher alike, with memory enough,
  -- where the cipher encrypts this SDU and decrypts it again: the receiver gets the SDU, and expects the number behind the
  -- sender's.
  pub process_rx_data-ciphered :
      (alg : CipheringAlg) (sender receiver : Entity) (cipher : List ℕ)
      → alg ≢ CipheringAlg.nea0
      → IsPaired (context alg IntegrityAlg.nia0) sender receiver
      → crypto.encrypt alg ckey (cipher_params (take_sn sender)) (b ∷ rest)
        ≡ (Status.success, cipher)
      → crypto.decrypt alg ckey (cipher_params (take_sn sender)) cipher ≡ (Status.success, b ∷ rest)
      → (process_tx_data crypto sender (b ∷ rest) all_allocated
          ≡ (Status.success, take_sn sender, some (ciphered_pdu sender cipher)))
        × (process_rx_data crypto receiver (ciphered_pdu sender cipher) true true
            ≡ accepted_as receiver (current_sn sender) (b ∷ rest))
  unfolding process_tx_data process_rx_data compute_integrity_protect
  process_rx_data-ciphered alg sender receiver cipher on pair encrypts decrypts =
      let ctx = context alg IntegrityAlg.nia0 in
      let coded =
        encrypt-context alg IntegrityAlg.nia0 (take_sn sender)
          (plain_pdu (current_sn sender) (b ∷ rest)) on in
      let decoded =
        decrypt-context alg IntegrityAlg.nia0 receiver (ciphered_pdu sender cipher) on in
      (
        simp (pair.sender_active, pair.sender_ctx, coded, encrypts) refl,
        simp (pair.receiver_active, pair.receiver_ctx, decoded, pair.same_params, decrypts) refl,
      )

  -- With both a cipher and integrity protection, between entities that cipher alike: the code is computed
  -- over the SDU, but checked over the ciphered bytes. Where the two codes differ, the receiver refuses
  -- the packet that it was sent.
  pub process_rx_data-protected :
      (alg : CipheringAlg) (i : IntegrityAlg) (sender receiver : Entity) (cipher : List ℕ)
      (mac mac' : ℕ)
      → alg ≢ CipheringAlg.nea0
      → i ≢ IntegrityAlg.nia0
      → IsPaired (context alg i) sender receiver
      → crypto.compute_mac i ikey (cipher_params (take_sn sender)) (b ∷ rest)
        ≡ (Status.success, mac)
      → crypto.encrypt alg ckey (cipher_params (take_sn sender)) (b ∷ rest)
        ≡ (Status.success, cipher)
      → crypto.compute_mac i ikey (cipher_params (take_sn sender)) cipher ≡ (Status.success, mac')
      → mac' ≢ mac
      → (process_tx_data crypto sender (b ∷ rest) all_allocated
          ≡ (Status.success, take_sn sender, some (protected_pdu sender cipher mac)))
        × (process_rx_data crypto receiver (protected_pdu sender cipher mac) true true
            ≡ (Status.protocol, receiver, none))
  unfolding process_tx_data process_rx_data
  process_rx_data-protected alg i sender receiver cipher mac mac' on safe pair codes encrypts
        recodes apart =
      let differ : (mac' == mac) ≡ false = ground (arith, ==_iff mac' mac, apart) in
      let signed =
        protect-context alg i (take_sn sender) (plain_pdu (current_sn sender) (b ∷ rest)) safe in
      let coded =
        encrypt-context alg i (take_sn sender)
          (record (plain_pdu (current_sn sender) (b ∷ rest)) {
            mac_i = mac;
            integrity_protected = true;
          })
          on in
      let checked = verify-context alg i receiver (protected_pdu sender cipher mac) safe in
      (
        simp (pair.sender_active, pair.sender_ctx, signed, codes, coded, encrypts) refl,
        simp (pair.receiver_active, pair.receiver_ctx, checked, pair.same_params, recodes, differ)
            refl,
      )
