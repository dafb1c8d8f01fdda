-- ===== src/Pdcp/Counts.antt =====
-- The counts that src/protocol/pdcp.c ciphers its packets with.
use Prim.Native.Nat.{bit_and}
use uesim.Common.{
  ℕ, zero, suc, ◌+◌, ◌*◌, ◌/◌, ◌%◌, ◌^◌, ◌≤◌, ◌<◌, ◌≡◌, ◌≢◌, refl, ap, ap₂, ◌∙◌, arith, Bool, true,
  false, ◌&&◌, ltb, lt→ltb, ◌==◌, ==_iff, ==_ne, Bool-cases, inl, inr,
}
use uesim.Common.Masks.{bit_and-mask}
use uesim.Pdcp.{Entity, get_tx_count}
use uesim.Pdcp.Data.{current_sn, take_sn}

-- The entity after so many sequence numbers were taken.
unfoldable pub take_times : ℕ → Entity → Entity
take_times zero e = e
take_times (suc n) e = take_sn (take_times n e)

-- The count of the packet `m`, counted from 0, for a space of `size` numbers.
abbrev pub count_of : ℕ → ℕ → ℕ
count_of size m = size * (m / size) + suc m % size

-- What the numbering uses of the size of the space and of its mask.
pub record IsSnSpace (size mask : ℕ) : Type 0 where
  pub masked : (a : ℕ) → bit_and a mask ≡ a % size
  pub wraps : (m : ℕ) → suc m % size ≡ 0 → (0 < m % size) × (suc m / size ≡ m / size + 1)
  pub stays : (m : ℕ) → suc m % size ≢ 0 → suc m / size ≡ m / size
  pub bounded : (m : ℕ) → count_of size m ≤ suc m
  pub distinct : (i j : ℕ) → count_of size i ≡ count_of size j → i ≡ j
  pub shrinks : (m : ℕ) → m / size ≤ m

-- The five bits of signalling bearers, and the twelve of data bearers.
pub five_bits : IsSnSpace 32 31
five_bits = record {
  masked = bit_and-mask 5;
  wraps = λ m e. omega arith;
  stays = λ m h. ground (arith, h);
  bounded = λ m. omega arith;
  distinct = λ i j e. omega arith;
  shrinks = λ m. omega arith;
}

pub twelve_bits : IsSnSpace 4096 4095
twelve_bits = record {
  masked = bit_and-mask 12;
  wraps = λ m e. omega arith;
  stays = λ m h. ground (arith, h);
  bounded = λ m. omega arith;
  distinct = λ i j e. omega arith;
  shrinks = λ m. omega arith;
}

-- An entity as it is created, or after its keys were refreshed.
pub record IsFresh (size mask : ℕ) (e : Entity) : Type 0 where
  pub next : e.next_pdcp_sn ≡ 0
  pub hfn : e.tx_hfn ≡ 0
  pub last : e.last_tx_sn ≡ 0
  pub mask_is : e.sn_mask ≡ mask
  pub size_is : e.sn_max ≡ size

-- An entity that has just taken the number of packet `m`.
record HasTaken (size mask m : ℕ) (e : Entity) : Type 0 where
  next : e.next_pdcp_sn ≡ suc m
  hfn : e.tx_hfn ≡ m / size
  last : e.last_tx_sn ≡ m % size
  mask_is : e.sn_mask ≡ mask
  size_is : e.sn_max ≡ size

and_false : (b : Bool) → (b && false) ≡ false
and_false true = refl
and_false false = refl

module _ {size mask : ℕ} (space : IsSnSpace size mask) where
  first-HasTaken : (e : Entity) → IsFresh size mask e → HasTaken size mask 0 (take_sn e)
  unfolding take_sn
  first-HasTaken e fresh =
      let unwrapped : ((current_sn e == 0) && ltb 0 e.last_tx_sn) ≡ false =
        ap (λ l. (current_sn e == 0) && ltb 0 l) fresh.last ∙ and_false (current_sn e == 0) in
      record {
        next = omega (arith, fresh.next);
        hfn = rw unwrapped (omega (arith, fresh.hfn, space.shrinks 0));
        last = ap₂ bit_and fresh.next fresh.mask_is ∙ space.masked 0;
        mask_is = fresh.mask_is;
        size_is = fresh.size_is;
      }

  next-HasTaken :
      (m : ℕ) (e : Entity)
      → suc (suc m) < 2 ^ 32
      → HasTaken size mask m e
      → HasTaken size mask (suc m) (take_sn e)
  unfolding take_sn
  next-HasTaken m e low ok =
      let current : current_sn e ≡ suc m % size =
        ap₂ bit_and ok.next ok.mask_is ∙ space.masked (suc m) in
      let next : (e.next_pdcp_sn + 1) % 2 ^ 32 ≡ suc (suc m) = omega (arith, ok.next) in
      elim (Bool-cases (suc m % size == 0)) [
        | inl zero_ ↦
            let (above, up) = space.wraps m ((==_iff (suc m % size) 0).0 zero_) in
            let wrapped : ((current_sn e == 0) && ltb 0 e.last_tx_sn) ≡ true =
              rw (current, zero_, lt→ltb 0 e.last_tx_sn (omega (arith, ok.last, above))) refl in
            record {
              next = next;
              hfn = rw wrapped (omega (arith, ok.hfn, up, space.shrinks m));
              last = current;
              mask_is = ok.mask_is;
              size_is = ok.size_is;
            }
        | inr other ↦
            let level = space.stays m (==_ne (suc m % size) 0 other) in
            let unwrapped : ((current_sn e == 0) && ltb 0 e.last_tx_sn) ≡ false =
              rw (current, other) refl in
            record {
              next = next;
              hfn = rw unwrapped (omega (arith, ok.hfn, level));
              last = current;
              mask_is = ok.mask_is;
              size_is = ok.size_is;
            }
      ]

  take_times-HasTaken :
      (m : ℕ) (e : Entity)
      → suc m < 2 ^ 32
      → IsFresh size mask e
      → HasTaken size mask m (take_times (suc m) e)
  unfolding take_times
  take_times-HasTaken zero e low fresh = first-HasTaken e fresh
  take_times-HasTaken (suc m) e low fresh =
      next-HasTaken m (take_times (suc m) e) low (take_times-HasTaken m e (omega arith) fresh)

  -- The packet `m` of an entity, counted from 0 since its keys were set, is ciphered with the count
  -- `size * (m / size) + (m + 1) % size`, for all packets before the 2^32 - 1st: the sequence number is
  -- one ahead of the packet's, and the hyper frame number follows one packet later.
  pub get_tx_count-take_times :
      (m : ℕ) (e : Entity)
      → suc m < 2 ^ 32
      → IsFresh size mask e
      → get_tx_count (take_times (suc m) e) ≡ count_of size m
  unfolding get_tx_count
  get_tx_count-take_times m e low fresh =
      let ok = take_times-HasTaken m e low fresh in
      let whole : bit_and (take_times (suc m) e).next_pdcp_sn (take_times (suc m) e).sn_mask
            + (take_times (suc m) e).sn_max * (take_times (suc m) e).tx_hfn
          ≡ suc m % size + size * (m / size) =
        ap₂ ◌+◌ (ap₂ bit_and ok.next ok.mask_is ∙ space.masked (suc m))
          (ap₂ ◌*◌ ok.size_is ok.hfn) in
      omega (arith, whole, space.bounded m)
