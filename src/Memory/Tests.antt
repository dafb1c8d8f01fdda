-- ===== src/Memory/Tests.antt =====
-- Runs of the memory pool, and its theorems at concrete inputs.
use uesim.Common.{ℕ, ◌^◌, ◌≡◌, refl, arith, [], ◌∷◌, true, false, Status, ◌<◌}
use uesim.Memory.{Pool, init, malloc, calloc, frees}
use uesim.Memory.Blocks.{IsPacked, take_all, AreSmall, take_all-IsPacked, malloc-wraps}

abbrev nothing_yet : Pool
nothing_yet = record { base_address = 0; total_size = 0; used_size = 0 }

abbrev of_hundred : ℕ → Pool
of_hundred used = record { base_address = 4096; total_size = 100; used_size = used }

initialised : init nothing_yet 100 4096 true ≡ (Status.success, of_hundred 0)
unfolding init
initialised = refl

-- The call for 90 bytes does not fit behind the 30 in use, and the one after it does.
three_taken :
    take_all (of_hundred 0) (30 ∷ 90 ∷ 20 ∷ []) 9000 ≡ ((4096, 30) ∷ (4126, 20) ∷ [], of_hundred 50)
unfolding take_all malloc
three_taken = refl

-- The product of `uesim_calloc` wraps to 0, and the block is empty.
calloc_empty : calloc (of_hundred 30) (2 ^ 32) (2 ^ 32) true 9000 ≡ (4126, of_hundred 30)
unfolding calloc malloc
calloc_empty = refl

kept : frees (of_hundred 30) 4126 ≡ false
unfolding frees
kept = refl

take_all-IsPacked_example : IsPacked 4096 4196 (take_all (of_hundred 0) (30 ∷ 90 ∷ 20 ∷ []) 9000).0
unfolding AreSmall
take_all-IsPacked_example =
    take_all-IsPacked (of_hundred 0) (30 ∷ 90 ∷ 20 ∷ []) 9000
      (record { based = omega arith; within = omega arith; small = omega arith })
      (omega arith, (omega arith, (omega arith, tt)))

malloc-wraps_example :
    let (ptr, after) = malloc (of_hundred 30) (0xfffffffffffffff6) true 9000 in
    (ptr ≡ 4126) × (after.used_size < 30) × ((malloc after 1 true 9000).0 < ptr)
malloc-wraps_example =
    malloc-wraps (of_hundred 30) (0xfffffffffffffff6) 9000
      (record { based = omega arith; within = omega arith; small = omega arith }) (omega arith)
      (omega arith) (omega arith)
