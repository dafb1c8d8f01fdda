-- ===== src/Sdap/Slots.antt =====
-- What filling, clearing and redirecting a slot does to the searches and counts over the table of
-- src/protocol/sdap.c.
use uesim.Common.{
  ℕ, ◌+◌, ◌≤◌, ◌≡◌, ◌≢◌, refl, arith, List, [], ◌∷◌, Bool, true, false, none, some, ◌==◌, ==_iff,
  ==_self, Bool-cases, inl, inr, length, find_first, update_first, find_first-update_apart,
  find_first-update_new, find_first-update_other, count, count-update_new, count-update_gone,
  count-update_same,
}
use uesim.Sdap.{Mapping}
use uesim.Sdap.Table.{is_free, carries, fill, clear_slot, redirect}

abbrev pub is_used : Mapping → Bool
is_used slot = slot.active

-- No two slots carry the same flow.
abbrev pub IsDistinct : List Mapping → Type 0
IsDistinct slots = (qfi : ℕ) → count (carries qfi) slots ≤ 1

pub free-carries : (q : ℕ) (x : Mapping) → is_free x ≡ true → carries q x ≡ false
free-carries q x free = elim (Bool-cases x.active) [
  | inl on ↦ absurd (ground (arith, on))
  | inr off ↦ rw off refl
]

pub free-used : (x : Mapping) → is_free x ≡ true → is_used x ≡ false
free-used x free = ground arith

pub carries-used : (q : ℕ) (x : Mapping) → carries q x ≡ true → is_used x ≡ true
carries-used q x hit = ground arith

pub ==_other : (a b : ℕ) → a ≢ b → (a == b) ≡ false
==_other a b h = ground (arith, ==_iff a b)

pub carries-other : (q q' : ℕ) → q ≢ q' → (x : Mapping) → carries q x ≡ true → carries q' x ≡ false
carries-other q q' apart x hit = ground (arith, ==_iff x.qfi q, ==_iff x.qfi q', apart)

pub fill-other :
    (q q' d : ℕ) (r : Bool) → q ≢ q' → (x : Mapping) → carries q' (fill q d r x) ≡ false
fill-other q q' d r apart x = ==_other q q' apart

pub count_free : (xs : List Mapping) → count is_free xs + count is_used xs ≡ length xs
unfolding count
count_free [] = refl
count_free (x ∷ xs) = ground (arith, count_free xs)

module _ (slots : List Mapping) (q d : ℕ) (r : Bool) {slot : Mapping}
    (room : find_first is_free slots ≡ some slot) where
  pub map-find_new :
      find_first (carries q) slots ≡ none
      → find_first (carries q) (update_first is_free (fill q d r) slots) ≡ some (fill q d r slot)
  map-find_new absent =
      find_first-update_new is_free (carries q) (fill q d r) slots (λ y. ==_self q) absent room

  pub map-find_other :
      (q' : ℕ)
      → q ≢ q'
      → find_first (carries q') (update_first is_free (fill q d r) slots)
        ≡ find_first (carries q') slots
  map-find_other q' apart =
      find_first-update_apart is_free (carries q') (fill q d r) slots (free-carries q')
        (λ x free. fill-other q q' d r apart x)

  pub map-count_used :
      count is_used (update_first is_free (fill q d r) slots) ≡ count is_used slots + 1
  map-count_used = count-update_new is_free is_used (fill q d r) slots free-used (λ y. refl) room

  pub map-count_new :
      count (carries q) (update_first is_free (fill q d r) slots) ≡ count (carries q) slots + 1
  map-count_new =
      count-update_new is_free (carries q) (fill q d r) slots (free-carries q) (λ y. ==_self q) room

  pub map-count_other :
      (q' : ℕ)
      → q ≢ q'
      → count (carries q') (update_first is_free (fill q d r) slots) ≡ count (carries q') slots
  map-count_other q' apart =
      count-update_same is_free (carries q') (fill q d r) slots
        (λ x free. rw (free-carries q' x free) (fill-other q q' d r apart x))

module _ (slots : List Mapping) (q : ℕ) {slot : Mapping}
    (found : find_first (carries q) slots ≡ some slot) where
  pub unmap-count_used :
      count is_used (update_first (carries q) clear_slot slots) + 1 ≡ count is_used slots
  unmap-count_used =
      count-update_gone (carries q) is_used clear_slot slots (carries-used q) (λ y. refl) found

  pub unmap-count_gone :
      count (carries q) (update_first (carries q) clear_slot slots) + 1 ≡ count (carries q) slots
  unmap-count_gone =
      count-update_gone (carries q) (carries q) clear_slot slots (λ y h. h) (λ y. refl) found

module _ (slots : List Mapping) (q q' : ℕ) (apart : q ≢ q') where
  pub unmap-find_other :
      find_first (carries q') (update_first (carries q) clear_slot slots)
      ≡ find_first (carries q') slots
  unmap-find_other =
      find_first-update_apart (carries q) (carries q') clear_slot slots (carries-other q q' apart)
        (λ x hit. refl)

  pub unmap-count_other :
      count (carries q') (update_first (carries q) clear_slot slots) ≡ count (carries q') slots
  unmap-count_other =
      count-update_same (carries q) (carries q') clear_slot slots
        (λ x hit. rw (carries-other q q' apart x hit) refl)

  pub update-find_other :
      (d : ℕ)
      → find_first (carries q') (update_first (carries q) (redirect d) slots)
        ≡ find_first (carries q') slots
  update-find_other d =
      find_first-update_other (carries q) (carries q') (redirect d) slots (carries-other q q' apart)
        (λ x. refl)

pub update-count :
    (p q : Mapping → Bool) (d : ℕ) (slots : List Mapping)
    → ((x : Mapping) → q (redirect d x) ≡ q x)
    → count q (update_first p (redirect d) slots) ≡ count q slots
update-count p q d slots same = count-update_same p q (redirect d) slots (λ x hit. same x)
