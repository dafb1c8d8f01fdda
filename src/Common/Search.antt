-- ===== src/Common/Search.antt =====
-- `for (i = 0; i < n; i++) if (match(a[i])) ...` over the entries in use of a C array: the first entry
-- that matches, the array without it, and the array with it changed.
use Prim.Native.Nat.{ℕ, ◌+◌, ◌≤◌}
use mathlib.Core.Path.{◌≡◌, refl}
use mathlib.Core.Bool.{Bool, true, false}
use mathlib.Core.List.{List, [], ◌∷◌, ◌++◌}
use mathlib.Core.Option.{Option, none, some}
use native.Mathlib.Omega.{arith}
use uesim.Common.Tests.{if◌then◌else◌, Bool-cases}
use mathlib.Core.Logic.{inl, inr}
use uesim.Common.Lists.{length}

module _ {ℓ} {A : Type ℓ} where
  unfoldable pub find_first : (A → Bool) → List A → Option A
  find_first p [] = none
  find_first p (x ∷ xs) = if p x then some x else find_first p xs

  -- The entries behind the match move down by one.
  unfoldable pub remove_first : (A → Bool) → List A → List A
  remove_first p [] = []
  remove_first p (x ∷ xs) = if p x then xs else x ∷ remove_first p xs

  unfoldable pub update_first : (A → Bool) → (A → A) → List A → List A
  update_first p f [] = []
  update_first p f (x ∷ xs) = if p x then f x ∷ xs else x ∷ update_first p f xs

  abbrev pub or_else : Option A → Option A → Option A
  or_else none b = b
  or_else (some a) b = some a

  -- An entry added at the end is found only if none before it matches.
  pub find_first-append_one :
      (p : A → Bool) (xs : List A) (y : A)
      → find_first p (xs ++ y ∷ []) ≡ or_else (find_first p xs) (if p y then some y else none)
  unfolding find_first
  find_first-append_one p [] y = refl
  find_first-append_one p (x ∷ xs) y = ground (arith, find_first-append_one p xs y)

  pub find_first-matches :
      (p : A → Bool) (xs : List A) {x : A} → find_first p xs ≡ some x → p x ≡ true
  unfolding find_first
  find_first-matches p [] e = cc
  find_first-matches p (x ∷ xs) {x = y} e = elim (Bool-cases (p x)) [
    | inl hit ↦ ground (arith, hit)
    | inr miss ↦ find_first-matches p xs (ground (arith, miss))
  ]

  pub length-update_first :
      (p : A → Bool) (f : A → A) (xs : List A) → length (update_first p f xs) ≡ length xs
  unfolding update_first
  length-update_first p f [] = refl
  length-update_first p f (x ∷ xs) = ground (arith, length-update_first p f xs)

  -- Removing takes away one entry if there is a match, and nothing otherwise.
  pub length-remove_first :
      (p : A → Bool) (xs : List A) {x : A}
      → find_first p xs ≡ some x
      → length (remove_first p xs) + 1 ≡ length xs
  unfolding find_first remove_first
  length-remove_first p [] e = cc
  length-remove_first p (x ∷ xs) {x = y} e = ground (arith, length-remove_first p xs {x = y})

  pub remove_first-none :
      (p : A → Bool) (xs : List A) → find_first p xs ≡ none → remove_first p xs ≡ xs
  unfolding find_first remove_first
  remove_first-none p [] e = refl
  remove_first-none p (x ∷ xs) e = ground (arith, remove_first-none p xs)

  -- A search that skips every entry the removal matches does not see it.
  pub find_first-remove_other :
      (p q : A → Bool) (xs : List A)
      → ((x : A) → p x ≡ true → q x ≡ false)
      → find_first q (remove_first p xs) ≡ find_first q xs
  unfolding find_first remove_first
  find_first-remove_other p q [] apart = refl
  find_first-remove_other p q (x ∷ xs) apart =
      ground (arith, apart x, find_first-remove_other p q xs apart)

  pub find_first-update_self :
      (p : A → Bool) (f : A → A) (xs : List A) {x : A}
      → ((y : A) → p (f y) ≡ p y)
      → find_first p xs ≡ some x
      → find_first p (update_first p f xs) ≡ some (f x)
  unfolding find_first update_first
  find_first-update_self p f [] same e = cc
  find_first-update_self p f (x ∷ xs) {x = y} same e =
      ground (arith, same x, find_first-update_self p f xs {x = y} same)

  pub find_first-update_other :
      (p q : A → Bool) (f : A → A) (xs : List A)
      → ((x : A) → p x ≡ true → q x ≡ false)
      → ((x : A) → q (f x) ≡ q x)
      → find_first q (update_first p f xs) ≡ find_first q xs
  unfolding find_first update_first
  find_first-update_other p q f [] apart same = refl
  find_first-update_other p q f (x ∷ xs) apart same =
      ground (arith, apart x, same x, find_first-update_other p q f xs apart same)

  -- An entry found before a change of other entries is found after it, if the changed entry matches
  -- neither before nor after.
  pub find_first-update_apart :
      (p q : A → Bool) (f : A → A) (xs : List A)
      → ((x : A) → p x ≡ true → q x ≡ false)
      → ((x : A) → p x ≡ true → q (f x) ≡ false)
      → find_first q (update_first p f xs) ≡ find_first q xs
  unfolding find_first update_first
  find_first-update_apart p q f [] before after = refl
  find_first-update_apart p q f (x ∷ xs) before after = elim (Bool-cases (p x)) [
    | inl hit ↦ rw (hit, before x hit, after x hit) refl
    | inr miss ↦ rw miss (elim (Bool-cases (q x)) [
      | inl found ↦ rw found refl
      | inr passed ↦ rw passed (find_first-update_apart p q f xs before after)
    ])
  ]

  -- An entry changed to match is found, if no entry matched before.
  pub find_first-update_new :
      (p q : A → Bool) (f : A → A) (xs : List A) {x : A}
      → ((y : A) → q (f y) ≡ true)
      → find_first q xs ≡ none
      → find_first p xs ≡ some x
      → find_first q (update_first p f xs) ≡ some (f x)
  unfolding find_first update_first
  find_first-update_new p q f [] new absent found = cc
  find_first-update_new p q f (x ∷ xs) {x = y} new absent found = elim (Bool-cases (q x)) [
    | inl match ↦ absurd (ground (arith, match))
    | inr other ↦ elim (Bool-cases (p x)) [
      | inl hit ↦ ground (arith, hit, other, new x)
      | inr miss ↦
          rw (miss, other)
            (find_first-update_new p q f xs {x = y} new (ground (arith, other))
              (ground (arith, miss)))
    ]
  ]

  -- How many entries match.
  unfoldable pub count : (A → Bool) → List A → ℕ
  count p [] = 0
  count p (x ∷ xs) = if p x then 1 + count p xs else count p xs

  pub count_zero : (p : A → Bool) (xs : List A) → count p xs ≡ 0 → find_first p xs ≡ none
  unfolding count find_first
  count_zero p [] e = refl
  count_zero p (x ∷ xs) e = ground (arith, count_zero p xs)

  pub count-found : (p : A → Bool) (xs : List A) {x : A} → find_first p xs ≡ some x → 1 ≤ count p xs
  unfolding count find_first
  count-found p [] e = cc
  count-found p (x ∷ xs) {x = y} e = ground (arith, count-found p xs {x = y})

  pub count-absent : (p : A → Bool) (xs : List A) → find_first p xs ≡ none → count p xs ≡ 0
  unfolding count find_first
  count-absent p [] e = refl
  count-absent p (x ∷ xs) e = ground (arith, count-absent p xs)

  -- One entry more matches `q` after the first match of `p` was changed to match.
  pub count-update_new :
      (p q : A → Bool) (f : A → A) (xs : List A) {x : A}
      → ((y : A) → p y ≡ true → q y ≡ false)
      → ((y : A) → q (f y) ≡ true)
      → find_first p xs ≡ some x
      → count q (update_first p f xs) ≡ count q xs + 1
  unfolding count find_first update_first
  count-update_new p q f [] apart new e = cc
  count-update_new p q f (x ∷ xs) {x = y} apart new e =
      ground (arith, apart x, new x, count-update_new p q f xs {x = y} apart new)

  -- One entry less matches after the first match was changed not to.
  pub count-update_gone :
      (p q : A → Bool) (f : A → A) (xs : List A) {x : A}
      → ((y : A) → p y ≡ true → q y ≡ true)
      → ((y : A) → q (f y) ≡ false)
      → find_first p xs ≡ some x
      → count q (update_first p f xs) + 1 ≡ count q xs
  unfolding count find_first update_first
  count-update_gone p q f [] within gone e = cc
  count-update_gone p q f (x ∷ xs) {x = y} within gone e =
      ground (arith, within x, gone x, count-update_gone p q f xs {x = y} within gone)

  -- A change that does not touch `q` where it happens leaves its count.
  pub count-update_same :
      (p q : A → Bool) (f : A → A) (xs : List A)
      → ((y : A) → p y ≡ true → q (f y) ≡ q y)
      → count q (update_first p f xs) ≡ count q xs
  unfolding count update_first
  count-update_same p q f [] same = refl
  count-update_same p q f (x ∷ xs) same = elim (Bool-cases (p x)) [
    | inl hit ↦ rw (hit, same x hit) refl
    | inr miss ↦ rw miss (ground (arith, count-update_same p q f xs same))
  ]
