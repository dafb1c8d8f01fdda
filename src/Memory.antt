-- ===== src/Memory.antt =====
-- src/core/memory.c: the pool that the program allocates from. Addresses are numbers, 0 is `NULL`; what
-- the system's `malloc` and the lock answer are arguments. A block is never given back to the pool.
pub mod Blocks
mod Tests
use uesim.Common.{
  ℕ, ◌+◌, ◌*◌, ◌%◌, ◌^◌, Bool, true, false, ◌&&◌, leb, ltb, ◌==◌, if◌then◌else◌, Status,
}

-- `memory_pool_t`
pub record Pool : Type 0 where
  pub base_address : ℕ
  pub total_size : ℕ
  pub used_size : ℕ

-- `memory_init`, given the heap that the system allocates and whether the lock could be initialised.
unfoldable pub init : Pool → ℕ → ℕ → Bool → Status × Pool
init pool heap_size heap mutex =
    if heap == 0
    then (Status.memory, record pool { base_address = 0 })
    else if mutex
    then (Status.success, record { base_address = heap; total_size = heap_size; used_size = 0 })
    else (Status.thread, record { base_address = 0; total_size = heap_size; used_size = 0 })

-- `memory_cleanup`
unfoldable pub cleanup : Pool → Pool
cleanup pool = record { base_address = 0; total_size = 0; used_size = 0 }

-- Whether the pool has room: `used_size + size <= total_size`, on 64 bits.
abbrev pub has_room : Pool → ℕ → Bool
has_room pool size = leb ((pool.used_size + size) % 2 ^ 64) pool.total_size

-- The pointer that is returned: the system's, where the pool gave none.
abbrev pub or_system : ℕ → ℕ → ℕ
or_system ptr system = if ptr == 0 then system else ptr

-- `uesim_malloc`: the pointer and the pool.
unfoldable pub malloc : Pool → ℕ → Bool → ℕ → ℕ × Pool
malloc pool size locked system =
    if locked
    then if has_room pool size
      then (
        or_system (pool.base_address + pool.used_size) system,
        record pool { used_size = (pool.used_size + size) % 2 ^ 64 },
      )
      else (system, pool)
    else (system, pool)

-- `uesim_calloc`, less the zeros that it writes.
unfoldable pub calloc : Pool → ℕ → ℕ → Bool → ℕ → ℕ × Pool
calloc pool nmemb size locked system = malloc pool (nmemb * size % 2 ^ 64) locked system

-- `uesim_free`: whether the pointer is handed to the system's `free`.
unfoldable pub frees : Pool → ℕ → Bool
frees pool ptr =
    if leb pool.base_address ptr && ltb ptr (pool.base_address + pool.total_size)
    then false
    else true
