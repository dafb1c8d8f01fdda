-- ===== src/RingBuffer/Threads.antt =====
-- Writers and readers of one ring, interleaved. A round of `ring_buffer_write` takes `head_lock`,
-- reads `available`, copies, moves `head`, and lets the lock go; a round of `ring_buffer_read` does the
-- same under `tail_lock`. The two locks exclude writers from one another and readers from one another,
-- but a reader may move between a writer's look at `available` and its copy, and the other way round.
use uesim.Common.{
  ℕ, ◌≤◌, ◌<◌, min, ◌≡◌, refl, sym, ap, ◌∙◌, arith, List, [], ◌∷◌, ◌++◌, false, Option, none, some,
  length, take, take_all, append_assoc, ◌==◌, Bool-cases, inl, inr, if◌then◌else◌,
}
use native.Mathlib.Nat.{le_refl}
use uesim.RingBuffer.{RingBuffer, available, used, chunk, write_chunk, read_chunk}
use uesim.RingBuffer.Invariant.{
  IsValid, contents, available-add-used, write_chunk-IsValid, write_chunk-contents,
  read_chunk-IsValid, read_chunk-contents, read_chunk-length, chunk-min, used-write_chunk,
  used-read_chunk,
}

-- The ring, what the holder of `head_lock` has left to write and saw as free, what the holder of
-- `tail_lock` wants and saw as used, and the bytes that all writers put in and all readers took out.
pub record System : Type 0 where
  pub ring : RingBuffer
  pub writing : Option (List ℕ × ℕ)
  pub reading : Option (ℕ × ℕ)
  pub sent : List ℕ
  pub received : List ℕ

-- What a thread can do next: lock and look, or copy and unlock.
pub data Event : Type 0 where
  lock_head : List ℕ → Event
  commit_write : Event
  lock_tail : ℕ → Event
  commit_read : Event

-- A writer with `src` left takes the lock. With no space it lets the lock go and tries again.
unfoldable pub look_free : System → List ℕ → Option (List ℕ × ℕ) → System
look_free s src (some held) = s
look_free s [] none = s
look_free s (x ∷ src) none =
    if available s.ring == 0 then s else record s { writing = some (x ∷ src, available s.ring) }

unfoldable pub look_used : System → ℕ → Option (ℕ × ℕ) → System
look_used s wanted (some held) = s
look_used s wanted none =
    if wanted == 0
    then s
    else if used s.ring == 0
    then s
    else record s { reading = some (wanted, used s.ring) }

unfoldable pub write_now : System → Option (List ℕ × ℕ) → System
write_now s none = s
write_now s (some (src, free)) = record s {
  ring = write_chunk s.ring src free;
  writing = none;
  sent = s.sent ++ take (chunk (length src) free) src;
}

unfoldable pub read_now : System → Option (ℕ × ℕ) → System
read_now s none = s
read_now s (some (wanted, filled)) =
    let (bytes, rb) = read_chunk s.ring wanted filled in
    record s { ring = rb; reading = none; received = s.received ++ bytes }

unfoldable pub step : System → Event → System
step s (lock_head src) = look_free s src s.writing
step s commit_write = write_now s s.writing
step s (lock_tail wanted) = look_used s wanted s.reading
step s commit_read = read_now s s.reading

unfoldable pub run : System → List Event → System
run s [] = s
run s (e ∷ es) = run (step s e) es

-- What a thread inside saw is still there: the other side only adds to it.
abbrev pub CanWrite : RingBuffer → Option (List ℕ × ℕ) → Type 0
CanWrite rb none = Unit {0}
CanWrite rb (some (src, free)) = (0 < length src) × (0 < free) × (free ≤ available rb)

abbrev pub CanRead : RingBuffer → Option (ℕ × ℕ) → Type 0
CanRead rb none = Unit {0}
CanRead rb (some (wanted, filled)) = filled ≤ used rb

pub record IsCoherent (s : System) : Type 0 where
  pub valid : IsValid s.ring
  pub writer : CanWrite s.ring s.writing
  pub reader : CanRead s.ring s.reading
  pub in_order : s.sent ≡ s.received ++ contents s.ring

size-write_chunk :
    (rb : RingBuffer) (src : List ℕ) (free : ℕ) → (write_chunk rb src free).size ≡ rb.size
unfolding write_chunk
size-write_chunk rb src free = refl

size-read_chunk :
    (rb : RingBuffer) (wanted filled : ℕ) → (read_chunk rb wanted filled).1.size ≡ rb.size
unfolding read_chunk
size-read_chunk rb wanted filled = refl

-- A reader inside is not disturbed by a write, nor a writer by a read.
CanRead-write :
    (rb rb' : RingBuffer) (r : Option (ℕ × ℕ)) → used rb ≤ used rb' → CanRead rb r → CanRead rb' r
CanRead-write rb rb' none more ok = tt
CanRead-write rb rb' (some (wanted, filled)) more ok = omega arith

CanWrite-read :
    (rb rb' : RingBuffer) (w : Option (List ℕ × ℕ))
    → available rb ≤ available rb'
    → CanWrite rb w
    → CanWrite rb' w
CanWrite-read rb rb' none more ok = tt
CanWrite-read rb rb' (some (src, free)) more ok = (ok.0, ok.1, omega arith)

module _ (s : System) (c : IsCoherent s) where
  look_free-IsCoherent : (src : List ℕ) (w : Option (List ℕ × ℕ)) → IsCoherent (look_free s src w)
  unfolding look_free
  look_free-IsCoherent src (some held) = c
  look_free-IsCoherent [] none = c
  look_free-IsCoherent (x ∷ src) none = elim (Bool-cases (available s.ring == 0)) [
    | inl full ↦ rw full c
    | inr free ↦ rw free (record {
      valid = c.valid;
      writer = (omega arith, ground arith, omega arith);
      reader = c.reader;
      in_order = c.in_order;
    })
  ]

  look_used-IsCoherent : (wanted : ℕ) (r : Option (ℕ × ℕ)) → IsCoherent (look_used s wanted r)
  unfolding look_used
  look_used-IsCoherent wanted (some held) = c
  look_used-IsCoherent wanted none = elim (Bool-cases (wanted == 0)) [
    | inl nothing ↦ rw nothing c
    | inr asked ↦ rw asked (elim (Bool-cases (used s.ring == 0)) [
      | inl empty ↦ rw empty c
      | inr there ↦ rw there (record {
        valid = c.valid;
        writer = c.writer;
        reader = omega arith;
        in_order = c.in_order;
      })
    ])
  ]

  write_now-IsCoherent : (w : Option (List ℕ × ℕ)) → CanWrite s.ring w → IsCoherent (write_now s w)
  unfolding write_now
  write_now-IsCoherent none ok = c
  write_now-IsCoherent (some (src, free)) ok = record {
    valid = write_chunk-IsValid c.valid src free ok.2;
    writer = tt;
    reader =
        CanRead-write s.ring _ s.reading (omega (arith, used-write_chunk c.valid src free ok.2))
          c.reader;
    in_order = rw (
      chunk-min (length src) free,
      write_chunk-contents c.valid src free ok.2 ok.0 ok.1,
      c.in_order,
      append_assoc s.received (contents s.ring),
    );
  }

  read_now-IsCoherent : (r : Option (ℕ × ℕ)) → CanRead s.ring r → IsCoherent (read_now s r)
  unfolding read_now
  read_now-IsCoherent none ok = c
  read_now-IsCoherent (some (wanted, filled)) ok = record {
    valid = read_chunk-IsValid c.valid wanted filled ok;
    writer = CanWrite-read s.ring (read_chunk s.ring wanted filled).1 s.writing more c.writer;
    reader = tt;
    in_order =
        c.in_order
        ∙ ap (◌++◌ s.received) (sym (read_chunk-contents c.valid wanted filled ok))
        ∙ sym (append_assoc s.received _ _);
  }
    where
      more : available s.ring ≤ available (read_chunk s.ring wanted filled).1
      more = omega (
        arith,
        available-add-used c.valid,
        available-add-used (read_chunk-IsValid c.valid wanted filled ok),
        used-read_chunk c.valid wanted filled ok,
        size-read_chunk s.ring wanted filled,
      )

-- Whatever a thread does next, the ring stays valid, what the threads inside saw stays true, and the
-- bytes sent are those received and then those in the ring.
pub step-IsCoherent : (s : System) (e : Event) → IsCoherent s → IsCoherent (step s e)
unfolding step
step-IsCoherent s (lock_head src) c = look_free-IsCoherent s c src s.writing
step-IsCoherent s commit_write c = write_now-IsCoherent s c s.writing c.writer
step-IsCoherent s (lock_tail wanted) c = look_used-IsCoherent s c wanted s.reading
step-IsCoherent s commit_read c = read_now-IsCoherent s c s.reading c.reader

-- However the rounds of any number of writers and readers interleave, from a coherent start: the ring
-- stays valid, what a writer saw as free is still free and what a reader saw as used still used, and
-- the bytes sent are those received followed by those in the ring, so none is lost, repeated or moved.
pub run-IsCoherent : (s : System) (es : List Event) → IsCoherent s → IsCoherent (run s es)
unfolding run
run-IsCoherent s [] c = c
run-IsCoherent s (e ∷ es) c = run-IsCoherent (step s e) es (step-IsCoherent s e c)

-- So what has been received is the front of what has been sent.
pub run_fifo :
    (s : System) (es : List Event)
    → IsCoherent s
    → (rest : List ℕ) × ((run s es).sent ≡ (run s es).received ++ rest)
run_fifo s es c = (contents (run s es).ring, (run-IsCoherent s es c).in_order)

min_self : (a b : ℕ) → a ≤ b → min a b ≡ a
min_self a b h = omega arith

write_now_all :
    (s : System) (src : List ℕ)
    → IsCoherent s
    → 0 < length src
    → length src ≤ available s.ring
    → let s' = write_now s (some (src, available s.ring)) in
      (s'.sent ≡ s.sent ++ src) × (contents s'.ring ≡ contents s.ring ++ src) × (s'.writing ≡ none)
unfolding write_now
write_now_all s src c h room =
    let whole : take (min (length src) (available s.ring)) src ≡ src =
      take_all _ src (omega arith) in
    (
      ap (◌++◌ s.sent) (ap (λ n. take n src) (chunk-min (length src) (available s.ring)) ∙ whole),
      write_chunk-contents c.valid src (available s.ring) (le_refl _) h (omega arith)
          ∙ ap (◌++◌ (contents s.ring)) whole,
      refl,
    )

-- In a coherent system with no writer inside, a write that finds room for all of its bytes, at least
-- one, is over after one round: all of them are sent, and the ring holds them behind what it held.
write_alone :
    (s : System) (src : List ℕ)
    → IsCoherent s
    → s.writing ≡ none
    → 0 < length src
    → length src ≤ available s.ring
    → let s' = run s (lock_head src ∷ commit_write ∷ []) in
      (s'.sent ≡ s.sent ++ src) × (contents s'.ring ≡ contents s.ring ++ src) × (s'.writing ≡ none)
unfolding run step look_free write_now
write_alone s [] c free h room = absurd (omega arith)
write_alone s (x ∷ xs) c free h room =
    let open_ring : (available s.ring == 0) ≡ false = ground arith in
    rw (free, look_free, open_ring) (write_now_all s (x ∷ xs) c h room)

-- In a coherent system with no reader inside, a read that finds as many bytes as it wants, at least one,
-- is over after one round, and hands out the oldest: they and what is left make up what the ring held.
read_alone :
    (s : System) (wanted : ℕ)
    → IsCoherent s
    → s.reading ≡ none
    → 0 < wanted
    → wanted ≤ used s.ring
    → let s' = run s (lock_tail wanted ∷ commit_read ∷ []) in
      (out : List ℕ) × (length out ≡ wanted)
      × (s'.received ≡ s.received ++ out)
      × (out ++ contents s'.ring ≡ contents s.ring)
      × (s'.reading ≡ none)
unfolding run step look_used read_now
read_alone s wanted c free h there =
    let asked : (wanted == 0) ≡ false = ground arith in
    let filled : (used s.ring == 0) ≡ false = ground arith in
    rw (free, look_used, asked, filled)
      (
        (read_chunk s.ring wanted (used s.ring)).0,
        read_chunk-length c.valid wanted (used s.ring) (le_refl _) ∙ min_self wanted _ there,
        refl,
        read_chunk-contents c.valid wanted (used s.ring) (le_refl _),
        refl,
      )
