-- ===== src/Common/Slices.antt =====
-- `memcpy` from and into a byte array: the slice that is read, and the array after a write.
use Prim.Native.Nat.{ℕ, zero, suc, ◌+◌, ◌≤◌}
use mathlib.Core.Path.{◌≡◌, refl, ap}
use mathlib.Core.List.{List, [], ◌∷◌, ◌++◌}
use native.Mathlib.Omega.{arith}
use uesim.Common.Lists.{length, take, drop, length-take, length-drop}

module _ {ℓ} {A : Type ℓ} where
  -- The `n` entries from index `i` on.
  abbrev pub slice : List A → ℕ → ℕ → List A
  slice xs i n = take n (drop i xs)

  -- `memcpy(xs + i, ys, |ys|)`. What would run over the end of `xs` is not written.
  abbrev pub blit : List A → ℕ → List A → List A
  blit [] i ys = []
  blit (x ∷ xs) (suc i) ys = x ∷ blit xs i ys
  blit (x ∷ xs) zero [] = x ∷ xs
  blit (x ∷ xs) zero (y ∷ ys) = y ∷ blit xs zero ys

  pub length-blit : (xs : List A) (i : ℕ) (ys : List A) → length (blit xs i ys) ≡ length xs
  length-blit [] i ys = refl
  length-blit (x ∷ xs) (suc i) ys = ap suc (length-blit xs i ys)
  length-blit (x ∷ xs) zero [] = refl
  length-blit (x ∷ xs) zero (y ∷ ys) = ap suc (length-blit xs zero ys)

  pub take-nil : (n : ℕ) → take {A = A} n [] ≡ []
  take-nil zero = refl
  take-nil (suc n) = refl

  pub drop-nil : (n : ℕ) → drop {A = A} n [] ≡ []
  drop-nil zero = refl
  drop-nil (suc n) = refl

  pub length-slice : (xs : List A) (i n : ℕ) → i + n ≤ length xs → length (slice xs i n) ≡ n
  length-slice xs i n h = omega (arith, length-take n (drop i xs), length-drop i xs)

  pub take_zero_of : (n : ℕ) (xs : List A) → n ≡ 0 → take n xs ≡ []
  take_zero_of zero xs e = refl
  take_zero_of (suc n) xs e = absurd (omega arith)

  -- A slice is two shorter ones in a row.
  pub slice-add :
      (xs : List A) (i m n : ℕ) → slice xs i (m + n) ≡ slice xs i m ++ slice xs (i + m) n
  slice-add [] i m n = cc (
    ap (take (m + n)) (drop-nil i),
    take-nil (m + n),
    ap (take m) (drop-nil i),
    take-nil m,
    ap (take n) (drop-nil (i + m)),
    take-nil n,
  )
  slice-add (x ∷ xs) (suc i) m n =
      let e : suc i + m ≡ suc (i + m) = omega arith in rw e (slice-add xs i m n)
  slice-add (x ∷ xs) zero zero n = let e : zero + n ≡ n = omega arith in rw e
  slice-add (x ∷ xs) zero (suc m) n =
      let e : suc m + n ≡ suc (m + n) = omega arith in
      let e' : zero + suc m ≡ suc (zero + m) = omega arith in
      rw (e, e') (ap (◌∷◌ x) (slice-add xs zero m n))

  pub slice-blit_self :
      (xs : List A) (i : ℕ) (ys : List A) (n : ℕ)
      → n ≡ length ys
      → i + n ≤ length xs
      → slice (blit xs i ys) i n ≡ ys
  slice-blit_self [] i [] n e h = ap (λ k. take k (drop i [])) e
  slice-blit_self [] i (y ∷ ys) n e h = absurd (omega arith)
  slice-blit_self (x ∷ xs) (suc i) ys n e h = slice-blit_self xs i ys n e (omega arith)
  slice-blit_self (x ∷ xs) zero [] n e h = ap (λ k. take k (x ∷ xs)) e
  slice-blit_self (x ∷ xs) zero (y ∷ ys) zero e h = absurd (omega arith)
  slice-blit_self (x ∷ xs) zero (y ∷ ys) (suc n) e h =
      ap (◌∷◌ y) (slice-blit_self xs zero ys n (omega arith) (omega arith))

  pub slice-blit_before :
      (xs : List A) (i : ℕ) (ys : List A) (j n : ℕ)
      → j + n ≤ i
      → slice (blit xs i ys) j n ≡ slice xs j n
  slice-blit_before [] i ys j n h = refl
  slice-blit_before (x ∷ xs) zero ys zero zero h = refl
  slice-blit_before (x ∷ xs) zero ys zero (suc n) h = absurd (omega arith)
  slice-blit_before (x ∷ xs) zero ys (suc j) n h = absurd (omega arith)
  slice-blit_before (x ∷ xs) (suc i) ys (suc j) n h = slice-blit_before xs i ys j n (omega arith)
  slice-blit_before (x ∷ xs) (suc i) ys zero zero h = refl
  slice-blit_before (x ∷ xs) (suc i) ys zero (suc n) h =
      ap (◌∷◌ x) (slice-blit_before xs i ys zero n (omega arith))

  pub slice-blit_after :
      (xs : List A) (i : ℕ) (ys : List A) (j n : ℕ)
      → i + length ys ≤ j
      → slice (blit xs i ys) j n ≡ slice xs j n
  slice-blit_after [] i ys j n h = refl
  slice-blit_after (x ∷ xs) zero [] j n h = refl
  slice-blit_after (x ∷ xs) zero (y ∷ ys) zero n h = absurd (omega arith)
  slice-blit_after (x ∷ xs) zero (y ∷ ys) (suc j) n h =
      slice-blit_after xs zero ys j n (omega arith)
  slice-blit_after (x ∷ xs) (suc i) ys zero n h = absurd (omega arith)
  slice-blit_after (x ∷ xs) (suc i) ys (suc j) n h = slice-blit_after xs i ys j n (omega arith)
