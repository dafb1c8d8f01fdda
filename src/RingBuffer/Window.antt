-- ===== src/RingBuffer/Window.antt =====
-- The bytes between two indices of a ring, and how the two-part copies change them.
use uesim.Common.{
  ℕ, ◌+◌, ◌-◌, ◌≤◌, ◌<◌, ◌^◌, min, ◌≡◌, refl, sym, ap, arith, List, ◌++◌, append_assoc, append-nil,
  leb, if◌then◌else◌, length, take, drop, slice, blit, slice-add, slice-blit_self,
  slice-blit_before, slice-blit_after, length-blit, length-take, length-drop, take_all,
  take-append-drop, Bool-cases, ltb, ltb→lt, ltb→le, le→leb, lt→leb, inl, inr, leb→le, leb→lt,
  lt→ltb,
}
use uesim.RingBuffer.{first_part, copy_in, copy_out, sub_size}

-- The `k` bytes from index `t` on, going round at `size`.
unfoldable pub window : List ℕ → ℕ → ℕ → ℕ → List ℕ
window buf size t k =
    if leb (t + k) size then slice buf t k else slice buf t (size - t) ++ slice buf 0 (t + k - size)

module _ (buf : List ℕ) (size t : ℕ) where
  window_flat : (k : ℕ) → t + k ≤ size → window buf size t k ≡ slice buf t k
  unfolding window
  window_flat k h = rw (le→leb _ _ h)

  window_wrapped :
      (k : ℕ)
      → size < t + k
      → window buf size t k ≡ slice buf t (size - t) ++ slice buf 0 (t + k - size)
  unfolding window
  window_wrapped k h = rw (lt→leb _ _ h)

-- At the end itself both readings agree.
window_past :
    (buf : List ℕ) (size t k : ℕ)
    → size ≤ t + k
    → t ≤ size
    → window buf size t k ≡ slice buf t (size - t) ++ slice buf 0 (t + k - size)
window_past buf size t k h ht = elim (Bool-cases (ltb size (t + k))) [
  | inl past ↦ window_wrapped buf size t k (ltb→lt _ _ past)
  | inr at_end ↦
      let here : t + k ≤ size = ltb→le _ _ at_end in
      let whole : size - t ≡ k = omega arith in
      let no_rest : t + k - size ≡ 0 = omega arith in
      rw (window_flat buf size t k here, whole, no_rest) (sym (append-nil (slice buf t k)))
]

first_part-min : (size i n : ℕ) → size < 2 ^ 64 → i ≤ size → first_part size i n ≡ min n (size - i)
unfolding first_part
first_part-min size i n small h = ground arith

-- The copy stays in one piece while it does not run over the end.
copy_in_flat :
    (buf : List ℕ) (size h : ℕ) (xs : List ℕ)
    → size < 2 ^ 64
    → h + length xs ≤ size
    → copy_in buf size h xs ≡ blit buf h xs
unfolding copy_in
copy_in_flat buf size h xs small fits =
    let first : first_part size h (length xs) ≡ length xs =
      omega (arith, first_part-min size h (length xs)) in
    let rest : sub_size (length xs) (length xs) ≡ 0 = omega arith in
    rw (first, rest, take_all (length xs) xs (omega arith))

copy_in_wrapped :
    (buf : List ℕ) (size h : ℕ) (xs : List ℕ)
    → size < 2 ^ 64
    → h < size
    → length xs ≤ size
    → size < h + length xs
    → copy_in buf size h xs ≡ blit (blit buf h (take (size - h) xs)) 0 (drop (size - h) xs)
unfolding copy_in
copy_in_wrapped buf size h xs small hh hn over =
    let first : first_part size h (length xs) ≡ size - h =
      omega (arith, first_part-min size h (length xs)) in
    let n = length xs - (size - h) in
    let rest : sub_size (length xs) (size - h) ≡ n = omega arith in
    rw (first, rest, lt→ltb 0 n (omega arith))
      (ap (blit (blit buf h (take (size - h) xs)) 0)
        (take_all n (drop (size - h) xs) (omega (arith, length-drop (size - h) xs))))

-- What `ring_buffer_read` copies out is the window of that length.
pub copy_out-window :
    (buf : List ℕ) (size t n : ℕ)
    → size < 2 ^ 64
    → t ≤ size
    → n ≤ size
    → copy_out buf size t n ≡ window buf size t n
unfolding copy_out
copy_out-window buf size t n small ht hn = elim (Bool-cases (leb (t + n) size)) [
  | inl fits ↦
      let first : first_part size t n ≡ n =
        omega (arith, first_part-min size t n, leb→le _ _ fits) in
      let rest : sub_size n n ≡ 0 = omega arith in
      rw (first, rest) (sym (window_flat buf size t n (leb→le _ _ fits)))
  | inr over ↦
      let past : size < t + n = leb→lt _ _ over in
      let first : first_part size t n ≡ size - t = omega (arith, first_part-min size t n) in
      let rest : sub_size n (size - t) ≡ t + n - size = omega arith in
      rw (first, rest, lt→ltb 0 (t + n - size) (omega arith))
        (sym (window_wrapped buf size t n past))
]

-- Writing `xs` behind a window extends it by `xs`: in one piece, over the end, or past the end.
window-copy_in_flat :
    (buf : List ℕ) (size t k : ℕ) (xs : List ℕ)
    → size ≡ length buf
    → size < 2 ^ 64
    → t + k + length xs ≤ size
    → window (copy_in buf size (t + k) xs) size t (k + length xs) ≡ window buf size t k ++ xs
window-copy_in_flat buf size t k xs len small fits = rw (
  copy_in_flat buf size (t + k) xs small fits,
  window_flat (blit buf (t + k) xs) size t (k + length xs) (omega arith),
  window_flat buf size t k (omega arith),
  slice-add (blit buf (t + k) xs) t k (length xs),
  slice-blit_before buf (t + k) xs t k (omega arith),
  slice-blit_self buf (t + k) xs (length xs) refl (omega arith),
)

window-copy_in_cross :
    (buf : List ℕ) (size t k : ℕ) (xs : List ℕ)
    → size ≡ length buf
    → size < 2 ^ 64
    → t + k < size
    → size < t + k + length xs
    → k + length xs < size
    → window (copy_in buf size (t + k) xs) size t (k + length xs) ≡ window buf size t k ++ xs
window-copy_in_cross buf size t k xs len small inside over room = rw (
  copy_in_wrapped buf size (t + k) xs small inside (omega arith) over,
  window_wrapped buf' size t (k + length xs) (omega arith),
  slice-blit_after (blit buf (t + k) (take f xs)) 0 (drop f xs) t (size - t)
      (omega (arith, length-drop f xs)),
  split,
  slice-add (blit buf (t + k) (take f xs)) t k f,
  slice-blit_before buf (t + k) (take f xs) t k (omega arith),
  slice-blit_self buf (t + k) (take f xs) f (omega (arith, length-take f xs)) (omega arith),
  slice-blit_self (blit buf (t + k) (take f xs)) 0 (drop f xs) (t + (k + length xs) - size)
      (omega (arith, length-drop f xs)) (omega (arith, length-blit buf (t + k) (take f xs))),
  append_assoc (slice buf t k) (take f xs) (drop f xs),
  take-append-drop f xs,
  window_flat buf size t k (omega arith),
)
  where
    f : ℕ
    f = size - (t + k)

    buf' : List ℕ
    buf' = blit (blit buf (t + k) (take f xs)) 0 (drop f xs)

    split : size - t ≡ k + f
    split = omega arith

window-copy_in_past :
    (buf : List ℕ) (size t k : ℕ) (xs : List ℕ)
    → size ≡ length buf
    → size < 2 ^ 64
    → size ≤ t + k
    → t < size
    → k + length xs < size
    → 0 < length xs
    → window (copy_in buf size (t + k - size) xs) size t (k + length xs) ≡ window buf size t k ++ xs
window-copy_in_past buf size t k xs len small past ht room nonempty = rw (
  copy_in_flat buf size h xs small (omega arith),
  window_wrapped (blit buf h xs) size t (k + length xs) (omega (arith, nonempty)),
  slice-blit_after buf h xs t (size - t) (omega arith),
  split,
  slice-add (blit buf h xs) 0 h (length xs),
  front,
  slice-blit_before buf h xs 0 h (omega arith),
  slice-blit_self buf h xs (length xs) refl (omega arith),
  window_past buf size t k past (omega arith),
  append_assoc (slice buf t (size - t)) (slice buf 0 h) xs,
)
  where
    h : ℕ
    h = t + k - size

    front : 0 + h ≡ h
    front = omega arith

    split : t + (k + length xs) - size ≡ h + length xs
    split = omega arith

-- Writing `xs` behind a window extends it by `xs`.
pub window-copy_in :
    (buf : List ℕ) (size t k h : ℕ) (xs : List ℕ)
    → size ≡ length buf
    → size < 2 ^ 64
    → t < size
    → k + length xs < size
    → 0 < length xs
    → h ≡ (if ltb (t + k) size then t + k else t + k - size)
    → window (copy_in buf size h xs) size t (k + length xs) ≡ window buf size t k ++ xs
window-copy_in buf size t k h xs len small ht room nonempty at =
    elim (Bool-cases (ltb (t + k) size)) [
      | inl inside ↦
          let here : h ≡ t + k = rw inside at at in
          rw here (elim (Bool-cases (ltb size (t + k + length xs))) [
            | inl over ↦
                window-copy_in_cross buf size t k xs len small (ltb→lt _ _ inside) (ltb→lt _ _ over)
                  room
            | inr fits ↦ window-copy_in_flat buf size t k xs len small (ltb→le _ _ fits)
          ])
      | inr past ↦
          let here : h ≡ t + k - size = rw past at at in
          rw here (window-copy_in_past buf size t k xs len small (ltb→le _ _ past) ht room nonempty)
    ]

-- A window is its first `n` bytes and the window from the index after them.
window-add_flat :
    (buf : List ℕ) (size t n m : ℕ)
    → t + n < size
    → t ≤ size
    → window buf size t (n + m) ≡ window buf size t n ++ window buf size (t + n) m
window-add_flat buf size t n m inside ht = elim (Bool-cases (leb (t + n + m) size)) [
  | inl fits ↦
      let all : t + n + m ≤ size = leb→le _ _ fits in
      rw
        (
          window_flat buf size t (n + m) (omega arith),
          window_flat buf size t n (omega arith),
          window_flat buf size (t + n) m all,
        )
        (slice-add buf t n m)
  | inr over ↦
      let past : size < t + n + m = leb→lt _ _ over in
      let split : size - t ≡ n + (size - (t + n)) = omega arith in
      let rest : t + (n + m) - size ≡ t + n + m - size = omega arith in
      rw (
        window_wrapped buf size t (n + m) (omega arith),
        window_flat buf size t n (omega arith),
        window_wrapped buf size (t + n) m past,
        rest,
        split,
        slice-add buf t n (size - (t + n)),
        append_assoc (slice buf t n),
      )
]

window-add_past :
    (buf : List ℕ) (size t n m : ℕ)
    → size ≤ t + n
    → t ≤ size
    → n + m ≤ size
    → window buf size t (n + m) ≡ window buf size t n ++ window buf size (t + n - size) m
window-add_past buf size t n m past ht room = rw (
  window_past buf size t (n + m) (omega arith) ht,
  window_past buf size t n past ht,
  window_flat buf size (t + n - size) m (omega arith),
  rest,
  slice-add buf 0 (t + n - size) m,
  front,
  append_assoc (slice buf t (size - t)),
)
  where
    front : 0 + (t + n - size) ≡ t + n - size
    front = omega arith

    rest : t + (n + m) - size ≡ t + n - size + m
    rest = omega arith

pub window-add :
    (buf : List ℕ) (size t n m t' : ℕ)
    → t ≤ size
    → n + m ≤ size
    → t' ≡ (if ltb (t + n) size then t + n else t + n - size)
    → window buf size t (n + m) ≡ window buf size t n ++ window buf size t' m
window-add buf size t n m t' ht room at = elim (Bool-cases (ltb (t + n) size)) [
  | inl inside ↦
      let here : t' ≡ t + n = rw inside at at in
      rw here (window-add_flat buf size t n m (ltb→lt _ _ inside) ht)
  | inr past ↦
      let here : t' ≡ t + n - size = rw past at at in
      rw here (window-add_past buf size t n m (ltb→le _ _ past) ht room)
]
