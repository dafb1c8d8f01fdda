-- ===== src/Pdcp/Sending.antt =====
-- The packets that an entity of src/protocol/pdcp.c sends one after the other.
use uesim.Common.{
  ℕ, zero, suc, ◌^◌, ◌≤◌, ◌<◌, ◌≡◌, ◌≢◌, refl, sym, ap, ap₂, ◌∙◌, arith, List, [], ◌∷◌, Bool, true,
  Option, none, some, length, Status,
}
use uesim.Pdcp.{CipheringAlg, IntegrityAlg, CipherParams, Crypto, SecurityContext, Entity, Pdu}
use uesim.Pdcp.Data.{
  cipher_params, compute_integrity_protect, encrypt_pdu, current_sn, take_sn, plain_pdu, with_bytes,
  handed_out, encrypted, secured, process_tx_data,
}
use uesim.Pdcp.Counts.{IsSnSpace, IsFresh, count_of, take_times, get_tx_count-take_times}
use uesim.Pdcp.RoundTrip.{all_allocated, keyed, encrypt-context}

-- The entity after the first packets, `packets 0`, `packets 1` and so on, with memory enough.
unfoldable pub sent : Crypto → (ℕ → List ℕ) → ℕ → Entity → Entity
sent crypto packets zero e = e
sent crypto packets (suc n) e =
    (process_tx_data crypto (sent crypto packets n e) (packets n) all_allocated).1

handed_out-entity : (e : Entity) (r : Status × Pdu) → (handed_out e r).1 ≡ e
handed_out-entity e (Status.success, pdu) = refl
handed_out-entity e (status, pdu) = refl

encrypted-entity :
    (crypto : Crypto) (e : Entity) (ctx : SecurityContext) (allocated : Bool) (r : Status × Pdu)
    → (encrypted crypto e ctx allocated r).1 ≡ e
encrypted-entity crypto e ctx allocated (Status.success, pdu) =
    handed_out-entity e (encrypt_pdu crypto e ctx pdu allocated)
encrypted-entity crypto e ctx allocated (status, pdu) = refl

secured-entity :
    (crypto : Crypto) (e : Entity) (ctx : Option SecurityContext) (pdu : Pdu) (allocated : Bool)
    → (secured crypto e ctx pdu allocated).1 ≡ e
secured-entity crypto e none pdu allocated = refl
secured-entity crypto e (some ctx) pdu allocated =
    encrypted-entity crypto e ctx allocated (compute_integrity_protect crypto e ctx pdu)

process_tx_data-open :
    (crypto : Crypto) (e : Entity) (bytes : List ℕ)
    → e.active ≡ true
    → 1 ≤ length bytes
    → process_tx_data crypto e bytes all_allocated
      ≡ secured crypto (take_sn e) e.security_ctx (plain_pdu (current_sn e) bytes) true
unfolding process_tx_data
process_tx_data-open crypto e [] on some_ = absurd (omega arith)
process_tx_data-open crypto e (b ∷ bytes) on some_ = simp on refl

process_tx_data-entity :
    (crypto : Crypto) (e : Entity) (bytes : List ℕ)
    → e.active ≡ true
    → 1 ≤ length bytes
    → (process_tx_data crypto e bytes all_allocated).1 ≡ take_sn e
process_tx_data-entity crypto e bytes on some_ =
    ap (λ r. r.1) (process_tx_data-open crypto e bytes on some_)
    ∙ secured-entity crypto (take_sn e) e.security_ctx (plain_pdu (current_sn e) bytes) true

-- What taking numbers leaves alone.
record IsSame (e e' : Entity) : Type 0 where
  active : e'.active ≡ e.active
  security_ctx : e'.security_ctx ≡ e.security_ctx
  bearer_type : e'.bearer_type ≡ e.bearer_type
  direction : e'.direction ≡ e.direction

take_times-IsSame : (n : ℕ) (e : Entity) → IsSame e (take_times n e)
unfolding take_times take_sn
take_times-IsSame zero e = record {
  active = refl;
  security_ctx = refl;
  bearer_type = refl;
  direction = refl;
}
take_times-IsSame (suc n) e =
    let ok = take_times-IsSame n e in
    record {
      active = ok.active;
      security_ctx = ok.security_ctx;
      bearer_type = ok.bearer_type;
      direction = ok.direction;
    }

sent-take_times :
    (crypto : Crypto) (packets : ℕ → List ℕ) (n : ℕ) (e : Entity)
    → e.active ≡ true
    → ((m : ℕ) → 1 ≤ length (packets m))
    → sent crypto packets n e ≡ take_times n e
unfolding sent take_times
sent-take_times crypto packets zero e on filled = refl
sent-take_times crypto packets (suc n) e on filled =
    ap (λ e'. (process_tx_data crypto e' (packets n) all_allocated).1)
      (sent-take_times crypto packets n e on filled)
    ∙ process_tx_data-entity crypto (take_times n e) (packets n)
        ((take_times-IsSame n e).active ∙ on) (filled n)

-- The packet `m` is handed out with what the algorithm makes of its bytes under a count.
abbrev pub IsCipheredWith : Crypto → (ℕ → List ℕ) → Entity → CipheringAlg → List ℕ → ℕ → ℕ → Type 0
IsCipheredWith crypto packets e alg key m count =
    process_tx_data crypto (sent crypto packets m e) (packets m) all_allocated
    ≡ handed_out (sent crypto packets (suc m) e) (
        with_bytes (plain_pdu (current_sn (sent crypto packets m e)) (packets m)) true (
          crypto.encrypt alg key
            (record { count = count; bearer = e.bearer_type; direction = e.direction })
            (packets m)))

abbrev params_of : ℕ → ℕ → ℕ → CipherParams
params_of bearer direction count = record { count = count; bearer = bearer; direction = direction }

module _ (crypto : Crypto) (ckey ikey : List ℕ) (refreshes : ℕ) (alg : CipheringAlg) where
  abbrev context : SecurityContext
  context = keyed ckey ikey refreshes alg IntegrityAlg.nia0

  process_tx_data-encrypts :
      (e : Entity) (bytes : List ℕ)
      → alg ≢ CipheringAlg.nea0
      → e.active ≡ true
      → e.security_ctx ≡ some context
      → 1 ≤ length bytes
      → process_tx_data crypto e bytes all_allocated
        ≡ handed_out (take_sn e) (
            with_bytes
              (plain_pdu (current_sn e) bytes)
              true
              (crypto.encrypt alg ckey (cipher_params (take_sn e)) bytes))
  unfolding compute_integrity_protect
  process_tx_data-encrypts e bytes ciphers on keys some_ =
      process_tx_data-open crypto e bytes on some_
      ∙ ap (λ ctx. secured crypto (take_sn e) ctx (plain_pdu (current_sn e) bytes) true) keys
      ∙ ap (handed_out (take_sn e)) (
          encrypt-context crypto ckey ikey refreshes 0 [] alg IntegrityAlg.nia0 (take_sn e)
            (plain_pdu (current_sn e) bytes) ciphers)

  module _ {size mask : ℕ} (space : IsSnSpace size mask) (packets : ℕ → List ℕ)
      (filled : (m : ℕ) → 1 ≤ length (packets m)) (e : Entity) (ciphers : alg ≢ CipheringAlg.nea0)
      (on : e.active ≡ true) (keys : e.security_ctx ≡ some context)
      (fresh : IsFresh size mask e) where
    params_at :
        (m : ℕ)
        → suc m < 2 ^ 32
        → cipher_params (take_times (suc m) e)
          ≡ record { count = count_of size m; bearer = e.bearer_type; direction = e.direction }
    params_at m low =
        let e' : Entity = take_times (suc m) e in
        let same = take_times-IsSame (suc m) e in
        ap (params_of e'.bearer_type e'.direction) (get_tx_count-take_times space m e low fresh)
        ∙ ap (λ b. params_of b e'.direction (count_of size m)) same.bearer_type
        ∙ ap (λ d. params_of e.bearer_type d (count_of size m)) same.direction

    sent-IsCipheredWith :
        (m : ℕ) → suc m < 2 ^ 32 → IsCipheredWith crypto packets e alg ckey m (count_of size m)
    unfolding take_times
    sent-IsCipheredWith m low =
        let same = take_times-IsSame m e in
        let here = sent-take_times crypto packets m e on filled in
        let next = sent-take_times crypto packets (suc m) e on filled in
        let out : Entity → Entity → CipherParams → Status × Entity × Option Pdu =
          λ after before params. handed_out after (
            with_bytes (plain_pdu (current_sn before) (packets m)) true
              (crypto.encrypt alg ckey params (packets m))) in
        ap (λ e'. process_tx_data crypto e' (packets m) all_allocated) here
        ∙ process_tx_data-encrypts (take_times m e) (packets m) ciphers (same.active ∙ on)
            (same.security_ctx ∙ keys) (filled m)
        ∙ ap (out (take_times (suc m) e) (take_times m e)) (params_at m low)
        ∙ ap₂
            (λ after before.
              out after before (params_of e.bearer_type e.direction (count_of size m)))
            (sym next) (sym here)

    -- An entity that is as it was created, or as its keys were refreshed, with a cipher and without
    -- integrity protection, that sends nonempty packets with memory enough: two different packets, both
    -- among the first 2^32 - 1, are ciphered with different counts, the packet `m` from 0 with
    -- `size * (m / size) + (m + 1) % size`. Nothing else in the cipher's parameters changes.
    pub process_tx_data-distinct :
        (i j : ℕ)
        → suc i < 2 ^ 32
        → suc j < 2 ^ 32
        → i ≢ j
        → IsCipheredWith crypto packets e alg ckey i (count_of size i)
          × IsCipheredWith crypto packets e alg ckey j (count_of size j)
          × (count_of size i ≢ count_of size j)
    process_tx_data-distinct i j low_i low_j apart = (
      sent-IsCipheredWith i low_i,
      sent-IsCipheredWith j low_j,
      λ same. apart (space.distinct i j same),
    )
