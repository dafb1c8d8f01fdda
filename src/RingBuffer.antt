-- ===== src/RingBuffer.antt =====
-- src/utils/ring_buffer.c: the byte ring that two sides of a channel share. A writer holds
-- `head_lock` and a reader `tail_lock`, so one of each can be inside at a time; `head` and `tail`
-- are atomic. Here are the functions; `Threads` runs writers and readers against each other.
pub mod Window
pub mod Invariant
pub mod Threads
mod Tests
use uesim.Common.{
  ℕ, ◌+◌, ◌-◌, ◌%◌, ◌^◌, List, [], Bool, true, false, Option, none, some, ltb, leb, ◌==◌,
  if◌then◌else◌, length, take, drop, slice, blit, ◌++◌, Status,
}

-- `ring_buffer_t`, less its locks and condition variables.
pub record RingBuffer : Type 0 where
  pub buffer : List ℕ
  pub size : ℕ
  pub head : ℕ
  pub tail : ℕ

-- `size_t` addition and subtraction.
abbrev pub add_size : ℕ → ℕ → ℕ
add_size a b = (a + b) % 2 ^ 64

abbrev pub sub_size : ℕ → ℕ → ℕ
sub_size a b = (a + 2 ^ 64 - b) % 2 ^ 64

-- `ring_buffer_init`. The arguments are what `uesim_malloc` returned and whether each of the four
-- `pthread_*_init` calls succeeded.
unfoldable pub init : Option (List ℕ) → Bool → Bool → Bool → Bool → ℕ → Status × Option RingBuffer
init none head_lock tail_lock not_empty not_full size = (Status.memory, none)
init (some storage) head_lock tail_lock not_empty not_full size =
    if head_lock
    then if tail_lock
      then if not_empty
        then if not_full
          then (Status.success, some (record { buffer = storage; size = size; head = 0; tail = 0 }))
          else (Status.thread, none)
        else (Status.thread, none)
      else (Status.thread, none)
    else (Status.thread, none)

-- `ring_buffer_available`
unfoldable pub available : RingBuffer → ℕ
available rb =
    if leb rb.tail rb.head
    then sub_size (sub_size rb.size (sub_size rb.head rb.tail)) 1
    else sub_size (sub_size rb.tail rb.head) 1

-- `ring_buffer_used`
unfoldable pub used : RingBuffer → ℕ
used rb =
    if leb rb.tail rb.head
    then sub_size rb.head rb.tail
    else add_size (sub_size rb.size rb.tail) rb.head

-- `ring_buffer_is_empty`
unfoldable pub is_empty : RingBuffer → Bool
is_empty rb = rb.head == rb.tail

-- `ring_buffer_is_full`
unfoldable pub is_full : RingBuffer → Bool
is_full rb = available rb == 0

-- How many of `n` bytes lie between index `i` and the end of the buffer: `first_write`, `first_read`.
unfoldable pub first_part : ℕ → ℕ → ℕ → ℕ
first_part size i n = let contiguous = sub_size size i in if ltb n contiguous then n else contiguous

-- The two `memcpy` calls of `ring_buffer_write`: the first part from `head` on, the rest in front.
unfoldable pub copy_in : List ℕ → ℕ → ℕ → List ℕ → List ℕ
copy_in buffer size head src =
    let first = first_part size head (length src) in
    let second = sub_size (length src) first in
    let buffer' = blit buffer head (take first src) in
    if ltb 0 second then blit buffer' 0 (take second (drop first src)) else buffer'

-- The two `memcpy` calls of `ring_buffer_read`.
unfoldable pub copy_out : List ℕ → ℕ → ℕ → ℕ → List ℕ
copy_out buffer size tail n =
    let first = first_part size tail n in
    let second = sub_size n first in
    if ltb 0 second
    then slice buffer tail first ++ slice buffer 0 second
    else slice buffer tail first

-- How much one round of a loop moves: what is left of the request, or what is there.
abbrev pub chunk : ℕ → ℕ → ℕ
chunk wanted there = if ltb wanted there then wanted else there

-- One round of `ring_buffer_write`'s loop, from the size calculation to the update of `head`. `src`
-- is what is left of the request, and `free` what `ring_buffer_available` said.
unfoldable pub write_chunk : RingBuffer → List ℕ → ℕ → RingBuffer
write_chunk rb src free =
    let write_size = chunk (length src) free in
    record rb {
      buffer = copy_in rb.buffer rb.size rb.head (take write_size src);
      head = add_size rb.head write_size % rb.size;
    }

-- One round of `ring_buffer_read`'s loop: the bytes that go to the caller, and the ring after.
unfoldable pub read_chunk : RingBuffer → ℕ → ℕ → List ℕ × RingBuffer
read_chunk rb wanted filled =
    let read_size = chunk wanted filled in
    (
      copy_out rb.buffer rb.size rb.tail read_size,
      record rb { tail = add_size rb.tail read_size % rb.size },
    )
