-- ===== src/Memory/Blocks.antt =====
-- The blocks that the pool of src/core/memory.c hands out.
use uesim.Common.{
  ℕ, ◌+◌, ◌%◌, ◌^◌, ◌≤◌, ◌<◌, ◌≡◌, refl, subst, arith, List, [], ◌∷◌, true, false, leb, leb→le,
  le→leb, ◌==◌, ==_iff, if◌then◌else◌, Bool-cases, inl, inr,
}
use uesim.Memory.{Pool, has_room, malloc}

-- A row of calls of `uesim_malloc` that get the lock, and the blocks that they take from the pool, each
-- with its address and its size. The system answers `system` to all calls that the pool cannot serve.
unfoldable pub take_all : Pool → List ℕ → ℕ → List (ℕ × ℕ) × Pool
take_all pool [] system = ([], pool)
take_all pool (size ∷ sizes) system =
    let (ptr, pool') = malloc pool size true system in
    let (blocks, end) = take_all pool' sizes system in
    if has_room pool size then ((ptr, size) ∷ blocks, end) else (blocks, end)

-- Blocks in a row, from an address to another, none reaching into the next.
unfoldable pub IsPacked : ℕ → ℕ → List (ℕ × ℕ) → Type 0
IsPacked low high [] = low ≤ high
IsPacked low high ((start, size) ∷ blocks) = (low ≤ start) × IsPacked (start + size) high blocks

-- Every size is below 2^63, so that none wraps in the pool.
unfoldable pub AreSmall : List ℕ → Type 0
AreSmall [] = Unit {0}
AreSmall (size ∷ sizes) = (size < 2 ^ 63) × AreSmall sizes

-- A pool that was initialised.
pub record IsReady (pool : Pool) : Type 0 where
  pub based : 0 < pool.base_address
  pub within : pool.used_size ≤ pool.total_size
  pub small : pool.total_size < 2 ^ 63

taken-IsReady :
    (pool : Pool) (size : ℕ)
    → size < 2 ^ 63
    → has_room pool size ≡ true
    → IsReady pool
    → IsReady (record pool { used_size = (pool.used_size + size) % 2 ^ 64 })
taken-IsReady pool size low room ready = record {
  based = ready.based;
  within = leb→le ((pool.used_size + size) % 2 ^ 64) pool.total_size room;
  small = ready.small;
}

-- All blocks of at most 2^63 - 1 bytes that an initialised pool hands out lie in the pool, behind what is
-- in use already, and no two of them overlap, whatever sizes the system has to serve in between.
pub take_all-IsPacked :
    (pool : Pool) (sizes : List ℕ) (system : ℕ)
    → IsReady pool
    → AreSmall sizes
    → IsPacked
        (pool.base_address + pool.used_size)
        (pool.base_address + pool.total_size)
        (take_all pool sizes system).0
unfolding take_all IsPacked AreSmall malloc
take_all-IsPacked pool [] system ready small = omega (arith, ready.within)
take_all-IsPacked pool (size ∷ sizes) system ready (low, small) =
    elim (Bool-cases (has_room pool size)) [
      | inl room ↦
          let taken : Pool = record pool { used_size = (pool.used_size + size) % 2 ^ 64 } in
          let rest =
            take_all-IsPacked taken sizes system (taken-IsReady pool size low room ready) small in
          let there : (pool.base_address + pool.used_size == 0) ≡ false =
            ground (arith, ready.based, ==_iff (pool.base_address + pool.used_size) 0) in
          let next : pool.base_address + (pool.used_size + size) % 2 ^ 64
              ≡ pool.base_address + pool.used_size + size =
            omega (arith, ready.within, ready.small) in
          rw (room, there)
            (
              omega arith,
              subst
                  (λ a.
                    IsPacked a (pool.base_address + pool.total_size)
                      (take_all taken sizes system).0)
                  next rest,
            )
      | inr full ↦ rw full (take_all-IsPacked pool sizes system ready small)
    ]

-- A size for which the sum wraps is served although the pool is far too small, and moves the mark of what
-- is in use back: the next call for a byte more gets an address inside blocks that are in use.
pub malloc-wraps :
    (pool : Pool) (size system : ℕ)
    → IsReady pool
    → 0 < pool.used_size
    → size < 2 ^ 64
    → 2 ^ 64 ≤ pool.used_size + size
    → let (ptr, after) = malloc pool size true system in
      (ptr ≡ pool.base_address + pool.used_size)
      × (after.used_size < pool.used_size)
      × ((malloc after 1 true system).0 < ptr)
unfolding malloc
malloc-wraps pool size system ready some_ low wraps =
    let mark : ℕ = (pool.used_size + size) % 2 ^ 64 in
    let back : mark < pool.used_size = omega (arith, ready.within, ready.small) in
    let room : has_room pool size ≡ true =
      le→leb mark pool.total_size (omega (arith, ready.within)) in
    let there : (pool.base_address + pool.used_size == 0) ≡ false =
      ground (arith, ready.based, ==_iff (pool.base_address + pool.used_size) 0) in
    let room' : leb ((mark + 1) % 2 ^ 64) pool.total_size ≡ true =
      le→leb ((mark + 1) % 2 ^ 64) pool.total_size (omega (arith, ready.within, ready.small)) in
    let there' : (pool.base_address + mark == 0) ≡ false =
      ground (arith, ready.based, ==_iff (pool.base_address + mark) 0) in
    rw (room, there, room', there') (refl, back, omega arith)
