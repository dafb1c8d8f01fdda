-- ===== src/RingBuffer/Tests.antt =====
-- Runs of the ring, and the ring's theorems at concrete inputs.
use uesim.Common.{ℕ, ◌-◌, ◌^◌, ◌≡◌, refl, arith, List, [], ◌∷◌, true, none, some, Status}
use uesim.RingBuffer.{
  RingBuffer, init, available, used, first_part, copy_in, copy_out, write_chunk, read_chunk,
}
use uesim.RingBuffer.Window.{window}
use uesim.RingBuffer.Invariant.{IsValid, contents}
use uesim.RingBuffer.Threads.{
  System, Event, lock_head, commit_write, lock_tail, commit_read, look_free, look_used, write_now,
  read_now, step, run, IsCoherent, run-IsCoherent,
}

abbrev storage : List ℕ
storage = 0 ∷ 0 ∷ 0 ∷ 0 ∷ []

abbrev fresh : RingBuffer
fresh = record { buffer = storage; size = 4; head = 0; tail = 0 }

-- 7 at index 3, 8 at index 0: the next write goes to index 1.
abbrev wrapped : RingBuffer
wrapped = record { buffer = 8 ∷ 0 ∷ 0 ∷ 7 ∷ []; size = 4; head = 1; tail = 3 }

abbrev idle : System
idle = record { ring = wrapped; writing = none; reading = none; sent = 7 ∷ 8 ∷ []; received = [] }

contents-wrapped : contents wrapped ≡ 7 ∷ 8 ∷ []
unfolding window used
contents-wrapped = refl

-- Two threads: the reader copies out between the writer's look and its copy.
abbrev schedule : List Event
schedule =
    lock_head (9 ∷ 10 ∷ [])
    ∷ lock_tail 5
    ∷ commit_read
    ∷ commit_write
    ∷ lock_tail 5
    ∷ commit_read
    ∷ []

run-schedule : (run idle schedule).received ≡ 7 ∷ 8 ∷ 9 ∷ []
unfolding run step look_free look_used write_now read_now available used write_chunk read_chunk
    copy_in copy_out first_part
run-schedule = refl

-- `ring_buffer_init` accepts a size of 0, and the ring then claims 2^64 - 1 free bytes.
init_zero :
    (init (some []) true true true true 0
      ≡ (Status.success, some (record { buffer = []; size = 0; head = 0; tail = 0 })))
    × (available (record { buffer = []; size = 0; head = 0; tail = 0 }) ≡ 2 ^ 64 - 1)
unfolding init available
init_zero = (refl, refl)

fresh-IsValid : IsValid fresh
fresh-IsValid = omega arith

wrapped-IsValid : IsValid wrapped
wrapped-IsValid = omega arith

idle-IsCoherent : IsCoherent idle
unfolding window used
idle-IsCoherent = record { valid = wrapped-IsValid; writer = tt; reader = tt; in_order = refl }

run-IsCoherent_example : IsCoherent (run idle schedule)
run-IsCoherent_example = run-IsCoherent idle schedule idle-IsCoherent
