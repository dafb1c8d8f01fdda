-- ===== src/RingBuffer/Invariant.antt =====
-- The invariant of `ring_buffer_t`, and what one round of the two loops does to the bytes it holds.
use uesim.Common.{
  ℕ, ◌+◌, ◌-◌, ◌%◌, ◌^◌, ◌≤◌, ◌<◌, min, ◌≡◌, ◌↔◌, arith, List, ◌++◌, Bool, true, some, length,
  length-blit, take, drop, blit, length-take, length-append, slice, length-slice, Status, ltb,
  ltb→lt, ltb→le, Bool-cases, inl, inr, if◌then◌else◌, sym, ◌∙◌,
}
use native.Mathlib.Nat.{mod-eq_of_lt, mod-eq-sub-mod}
use uesim.RingBuffer.{
  RingBuffer, init, available, used, is_empty, is_full, copy_in, chunk, write_chunk, read_chunk,
  add_size, sub_size, first_part,
}
use uesim.RingBuffer.Window.{window, window-copy_in, window-add, copy_out-window}

-- The ring lies in its buffer, and one slot always stays free.
pub record IsValid (rb : RingBuffer) : Type 0 where
  pub whole : rb.size ≡ length rb.buffer
  pub small : rb.size ≤ 2 ^ 63
  pub head_in : rb.head < rb.size
  pub tail_in : rb.tail < rb.size

-- The bytes that the ring holds, oldest first.
abbrev pub contents : RingBuffer → List ℕ
contents rb = window rb.buffer rb.size rb.tail (used rb)

-- For a size from 1 to 2^63 and an allocation of that size, a ring that `ring_buffer_init` hands out is
-- valid and empty.
init-IsValid :
    (storage : List ℕ) (head_lock tail_lock not_empty not_full : Bool) (size : ℕ) {rb : RingBuffer}
    → size ≡ length storage
    → 0 < size
    → size ≤ 2 ^ 63
    → init (some storage) head_lock tail_lock not_empty not_full size ≡ (Status.success, some rb)
    → IsValid rb × (used rb ≡ 0)
unfolding init used
init-IsValid storage a b c d size len pos small e = ground arith

-- In a valid ring the free and the used bytes make up the size but for one slot.
pub available-add-used : {rb : RingBuffer} → IsValid rb → available rb + used rb + 1 ≡ rb.size
unfolding available used
available-add-used v = ground arith

pub used-le : {rb : RingBuffer} → IsValid rb → used rb < rb.size
used-le v = omega (arith, available-add-used v)

-- Where the writer's index stands, seen from the reader's.
head-at :
    {rb : RingBuffer}
    → IsValid rb
    → rb.head
      ≡ (if ltb (rb.tail + used rb) rb.size then rb.tail + used rb else rb.tail + used rb - rb.size)
unfolding used
head-at v = ground arith

wrap-at :
    (size i n : ℕ)
    → size ≤ 2 ^ 63
    → i < size
    → n ≤ size
    → add_size i n % size ≡ (if ltb (i + n) size then i + n else i + n - size)
wrap-at size i n small hi hn =
    let exact : add_size i n ≡ i + n = omega arith in
    elim (Bool-cases (ltb (i + n) size)) [
      | inl inside ↦ rw (inside, exact) (mod-eq_of_lt (ltb→lt _ _ inside))
      | inr past ↦
          let over : size ≤ i + n = ltb→le _ _ past in
          rw (past, exact)
            (omega (
              arith,
              mod-eq-sub-mod {n = i + n} {m = size} over,
              mod-eq_of_lt {n = i + n - size} {m = size} (omega arith),
            ))
    ]

used_of_write :
    (rb : RingBuffer) (n : ℕ) (buffer : List ℕ)
    → IsValid rb
    → n ≤ available rb
    → used (record rb { buffer = buffer; head = add_size rb.head n % rb.size }) ≡ used rb + n
unfolding used available
used_of_write rb n buffer v h = ground (arith, wrap-at rb.size rb.head n)

used_of_read :
    (rb : RingBuffer) (n : ℕ)
    → IsValid rb
    → n ≤ used rb
    → n + used (record rb { tail = add_size rb.tail n % rb.size }) ≡ used rb
unfolding used
used_of_read rb n v h = ground (arith, wrap-at rb.size rb.tail n)

pub chunk-min : (a b : ℕ) → chunk a b ≡ min a b
chunk-min a b = ground arith

length-copy_in :
    (buf : List ℕ) (size h : ℕ) (xs : List ℕ) → length (copy_in buf size h xs) ≡ length buf
unfolding copy_in
length-copy_in buf size h xs = ground (
  arith,
  length-blit buf h (take first xs),
  length-blit (blit buf h (take first xs)) 0 (take (sub_size (length xs) first) (drop first xs)),
)
  where
    first : ℕ
    first = first_part size h (length xs)

module _ {rb : RingBuffer} (v : IsValid rb) where
  module _ (src : List ℕ) (free : ℕ) (h : free ≤ available rb) where
    -- A round of the write loop keeps the invariant.
    pub write_chunk-IsValid : IsValid (write_chunk rb src free)
    unfolding write_chunk
    write_chunk-IsValid = record {
      whole = v.whole ∙ sym (length-copy_in rb.buffer rb.size rb.head _);
      small = v.small;
      head_in = omega (arith, v.head_in);
      tail_in = v.tail_in;
    }

    -- It appends as many bytes as fit, in order.
    pub write_chunk-contents :
        0 < length src
        → 0 < free
        → contents (write_chunk rb src free) ≡ contents rb ++ take (min (length src) free) src
    unfolding write_chunk
    write_chunk-contents some_left some_free =
        rw (chunk-min (length src) free, grown)
          (window-copy_in rb.buffer rb.size rb.tail (used rb) rb.head xs v.whole
            (omega (arith, v.small)) v.tail_in (omega (arith, available-add-used v, long))
            (omega (arith, long)) (head-at v))
      where
        n : ℕ
        n = min (length src) free

        xs : List ℕ
        xs = take n src

        long : length xs ≡ n
        long = omega (arith, length-take n src)

        buffer' : List ℕ
        buffer' = copy_in rb.buffer rb.size rb.head xs

        grown :
            used (record rb { buffer = buffer'; head = add_size rb.head n % rb.size })
            ≡ used rb + length xs
        grown = omega (arith, used_of_write rb n buffer' v (omega arith), long)

    pub used-write_chunk : used (write_chunk rb src free) ≡ used rb + min (length src) free
    unfolding write_chunk
    used-write_chunk = rw (chunk-min (length src) free) (used_of_write rb _ _ v (omega arith))

  module _ (wanted filled : ℕ) (h : filled ≤ used rb) where
    pub used-read_chunk : min wanted filled + used (read_chunk rb wanted filled).1 ≡ used rb
    unfolding read_chunk
    used-read_chunk = rw (chunk-min wanted filled) (used_of_read rb _ v (omega arith))

    -- A round of the read loop keeps the invariant.
    pub read_chunk-IsValid : IsValid (read_chunk rb wanted filled).1
    unfolding read_chunk
    read_chunk-IsValid = record {
      whole = v.whole;
      small = v.small;
      head_in = v.head_in;
      tail_in = omega (arith, v.tail_in);
    }

    -- It hands out the oldest bytes, as many as are wanted and there, and leaves the others.
    pub read_chunk-contents :
        let (bytes, rb') = read_chunk rb wanted filled in bytes ++ contents rb' ≡ contents rb
    unfolding read_chunk
    read_chunk-contents =
        rw
          (
            chunk-min wanted filled,
            copy_out-window rb.buffer rb.size rb.tail n (omega (arith, v.small))
                (omega (arith, v.tail_in)) (omega (arith, used-le v)),
            ← split,
          )
          (sym (
            window-add rb.buffer rb.size rb.tail n _ (add_size rb.tail n % rb.size)
              (omega (arith, v.tail_in)) (omega (arith, split, used-le v))
              (wrap-at rb.size rb.tail n v.small v.tail_in (omega (arith, used-le v)))))
      where
        n : ℕ
        n = min wanted filled

        split : n + used (record rb { tail = add_size rb.tail n % rb.size }) ≡ used rb
        split = used_of_read rb n v (omega arith)

length-window :
    (buf : List ℕ) (size t k : ℕ)
    → size ≡ length buf
    → t < size
    → k ≤ size
    → length (window buf size t k) ≡ k
unfolding window
length-window buf size t k whole ht hk = ground (
  arith,
  length-slice buf t k,
  length-slice buf t (size - t),
  length-slice buf 0 (t + k - size),
  length-append (slice buf t (size - t)) (slice buf 0 (t + k - size)),
)

-- The ring holds as many bytes as `ring_buffer_used` says.
pub length-contents : {rb : RingBuffer} → IsValid rb → length (contents rb) ≡ used rb
length-contents {rb} v =
    length-window rb.buffer rb.size rb.tail (used rb) v.whole v.tail_in (omega (arith, used-le v))

-- `ring_buffer_is_empty` says whether a valid ring holds no bytes.
pub is_empty_iff :
    {rb : RingBuffer} → IsValid rb → (is_empty rb ≡ true) ↔ (length (contents rb) ≡ 0)
unfolding is_empty used
is_empty_iff {rb} v = ground (arith, length-contents v)

-- `ring_buffer_is_full` says whether a valid ring holds one byte less than its size.
is_full_iff :
    {rb : RingBuffer} → IsValid rb → (is_full rb ≡ true) ↔ (length (contents rb) + 1 ≡ rb.size)
unfolding is_full
is_full_iff {rb} v = ground (arith, length-contents v, available-add-used v)

-- A round of the read loop hands out as many bytes as it says.
pub read_chunk-length :
    {rb : RingBuffer} (v : IsValid rb) (wanted filled : ℕ)
    → filled ≤ used rb
    → length (read_chunk rb wanted filled).0 ≡ min wanted filled
unfolding read_chunk
read_chunk-length {rb} v wanted filled h =
    let few : min wanted filled ≤ rb.size = omega (arith, used-le v) in
    rw
      (
        chunk-min wanted filled,
        copy_out-window rb.buffer rb.size rb.tail (min wanted filled) (omega (arith, v.small))
            (omega (arith, v.tail_in)) few,
      )
      (length-window rb.buffer rb.size rb.tail (min wanted filled) v.whole v.tail_in few)
