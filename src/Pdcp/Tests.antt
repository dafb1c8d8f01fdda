-- ===== src/Pdcp/Tests.antt =====
-- Runs of the packet data convergence entity, and its theorems at concrete inputs.
use uesim.Common.{
  ℕ, ◌+◌, ◌-◌, ◌%◌, ◌≡◌, ◌≢◌, refl, arith, List, [], ◌∷◌, map, true, false, none, some, Status,
}
use uesim.Pdcp.{
  CipheringAlg, IntegrityAlg, Crypto, SecurityContext, Entity, create_entity, init_sn_params,
  get_tx_count,
}
use uesim.Pdcp.Data.{current_sn, take_sn, cipher_params, process_tx_data, process_rx_data}
use uesim.Pdcp.Counts.{IsFresh, twelve_bits}
use uesim.Pdcp.Sending.{IsCipheredWith, process_tx_data-distinct}
use uesim.Pdcp.RoundTrip.{
  all_allocated, accepted_as, IsPaired, protected_pdu, ciphered_pdu, keyed,
  process_rx_data-ciphered, process_rx_data-protected,
}

-- A cipher that adds the count to each byte, with the sum of the bytes as the code.
abbrev sum : List ℕ → ℕ
sum [] = 0
sum (x ∷ xs) = x + sum xs

abbrev toy : Crypto
toy = record {
  encrypt = λ alg key params text. (Status.success, map (λ x. (x + params.count) % 256) text);
  decrypt = λ alg key params text. (Status.success, map (λ x. (x + 256 - params.count) % 256) text);
  compute_mac = λ alg key params text. (Status.success, sum text);
}

abbrev entity_at : ℕ → SecurityContext → Entity
entity_at next ctx = record {
  entity_id = 0;
  bearer_type = 4;
  direction = 2;
  sn_length = 12;
  next_pdcp_sn = next;
  next_expected_sn = 0;
  tx_hfn = 0;
  rx_hfn = 0;
  last_tx_sn = 0;
  last_rx_sn = 0;
  sn_mask = 4095;
  sn_max = 4096;
  hfn_max = 1048575;
  security_ctx = some ctx;
  active = true;
}

abbrev ciphering : SecurityContext
ciphering = keyed [] [] 0 CipheringAlg.nea2 IntegrityAlg.nia0

abbrev both : SecurityContext
both = keyed [] [] 0 CipheringAlg.nea2 IntegrityAlg.nia2

data_bearer-mask :
    (create_entity 0 4 2 true true true).2
    ≡ some (record (entity_at 0 both) { security_ctx = none; active = false })
unfolding create_entity init_sn_params
data_bearer-mask = refl

far_apart : ◌≢◌ {A = ℕ} 3 4098
far_apart e = omega (arith, e)

ciphers : CipheringAlg.nea2 ≢ CipheringAlg.nea0
ciphers e = cc

ciphering-IsFresh : IsFresh 4096 4095 (entity_at 0 ciphering)
ciphering-IsFresh = record { next = refl; hfn = refl; last = refl; mask_is = refl; size_is = refl }

abbrev pings : ℕ → List ℕ
pings n = n % 256 ∷ 7 ∷ []

-- The packets 3 and 4098: after 4096 packets the hyper frame number is one.
process_tx_data-distinct_example :
    IsCipheredWith toy pings (entity_at 0 ciphering) CipheringAlg.nea2 [] 3 4
    × IsCipheredWith toy pings (entity_at 0 ciphering) CipheringAlg.nea2 [] 4098 4099
    × (◌≢◌ {A = ℕ} 4 4099)
process_tx_data-distinct_example =
    process_tx_data-distinct toy [] [] 0 CipheringAlg.nea2 twelve_bits pings (λ m. omega arith)
      (entity_at 0 ciphering) ciphers refl refl ciphering-IsFresh 3 4098 (omega arith) (omega arith)
      far_apart

protects : IntegrityAlg.nia2 ≢ IntegrityAlg.nia0
protects e = cc

paired : (ctx : SecurityContext) → IsPaired ctx (entity_at 0 ctx) (entity_at 1 ctx)
unfolding take_sn get_tx_count
paired ctx = record {
  sender_active = refl;
  receiver_active = refl;
  sender_ctx = refl;
  receiver_ctx = refl;
  same_params = refl;
}

ciphered_sum :
    toy.encrypt CipheringAlg.nea2 []
      (cipher_params (take_sn (entity_at 0 ciphering)))
      (7 ∷ 255 ∷ [])
    ≡ (Status.success, 8 ∷ 0 ∷ [])
unfolding take_sn get_tx_count
ciphered_sum = refl

deciphered_sum :
    toy.decrypt CipheringAlg.nea2 [] (cipher_params (take_sn (entity_at 0 ciphering))) (8 ∷ 0 ∷ [])
    ≡ (Status.success, 7 ∷ 255 ∷ [])
unfolding take_sn get_tx_count
deciphered_sum = refl

process_rx_data-ciphered_example :
    (process_tx_data toy (entity_at 0 ciphering) (7 ∷ 255 ∷ []) all_allocated ≡ (
      Status.success,
      take_sn (entity_at 0 ciphering),
      some (ciphered_pdu (entity_at 0 ciphering) (8 ∷ 0 ∷ [])),
    ))
    × (process_rx_data toy
          (entity_at 1 ciphering)
          (ciphered_pdu (entity_at 0 ciphering) (8 ∷ 0 ∷ []))
          true
          true
        ≡ accepted_as (entity_at 1 ciphering) (current_sn (entity_at 0 ciphering)) (7 ∷ 255 ∷ []))
process_rx_data-ciphered_example =
    process_rx_data-ciphered toy [] [] 0 7 (255 ∷ []) CipheringAlg.nea2 (entity_at 0 ciphering)
      (entity_at 1 ciphering) (8 ∷ 0 ∷ []) ciphers (paired ciphering) ciphered_sum deciphered_sum

both-ciphered :
    toy.encrypt CipheringAlg.nea2 [] (cipher_params (take_sn (entity_at 0 both))) (7 ∷ 255 ∷ [])
    ≡ (Status.success, 8 ∷ 0 ∷ [])
unfolding take_sn get_tx_count
both-ciphered = refl

sums_apart : ◌≢◌ {A = ℕ} 8 262
sums_apart e = omega (arith, e)

process_rx_data-protected_example :
    (process_tx_data toy (entity_at 0 both) (7 ∷ 255 ∷ []) all_allocated ≡ (
      Status.success,
      take_sn (entity_at 0 both),
      some (protected_pdu (entity_at 0 both) (8 ∷ 0 ∷ []) 262),
    ))
    × (process_rx_data toy
          (entity_at 1 both)
          (protected_pdu (entity_at 0 both) (8 ∷ 0 ∷ []) 262)
          true
          true
        ≡ (Status.protocol, entity_at 1 both, none))
process_rx_data-protected_example =
    process_rx_data-protected toy [] [] 0 7 (255 ∷ []) CipheringAlg.nea2 IntegrityAlg.nia2
      (entity_at 0 both) (entity_at 1 both) (8 ∷ 0 ∷ []) 262 8 ciphers protects (paired both) refl
      both-ciphered refl sums_apart
