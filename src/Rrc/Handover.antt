-- ===== src/Rrc/Handover.antt =====
-- The candidate that a handover of src/protocol/rrc.c is prepared for.
use uesim.Common.{
  ◌≡◌, refl, sym, ap, subst, arith, List, [], ◌∷◌, true, false, Option, none, some, Bool-cases, ◌⊎◌,
  inl, inr,
}
use mathlib.Core.List.{Memᴰ}
use mathlib.Core.List.Memᴰ.{head, tail, not-nil}
use uesim.Common.Int8.{ℤ, pos, negsuc}
use uesim.Rrc.{Gnb}
use uesim.Rrc.Procedures.{less, best_loop, best_candidate}

less_irrefl : (a : ℤ) → less a a ≡ false
less_irrefl (pos n) = ground arith
less_irrefl (negsuc n) = ground arith

less-asym : (a b : ℤ) → less a b ≡ true → less b a ≡ false
less-asym (pos a) (pos b) e = ground arith
less-asym (pos a) (negsuc b) e = cc
less-asym (negsuc a) (pos b) e = refl
less-asym (negsuc a) (negsuc b) e = ground arith

-- `a <= b`
abbrev AtMost : ℤ → ℤ → Type 0
AtMost a b = less b a ≡ false

AtMost-trans : (a b c : ℤ) → AtMost a b → AtMost b c → AtMost a c
AtMost-trans (pos a) (pos b) (pos c) p q = ground arith
AtMost-trans (pos a) (pos b) (negsuc c) p q = cc
AtMost-trans (pos a) (negsuc b) c p q = cc
AtMost-trans (negsuc a) (pos b) (pos c) p q = refl
AtMost-trans (negsuc a) (pos b) (negsuc c) p q = cc
AtMost-trans (negsuc a) (negsuc b) (pos c) p q = refl
AtMost-trans (negsuc a) (negsuc b) (negsuc c) p q = ground arith

less-AtMost : (a b c : ℤ) → less a b ≡ true → AtMost b c → less a c ≡ true
less-AtMost (pos a) (pos b) (pos c) p q = ground arith
less-AtMost (pos a) (pos b) (negsuc c) p q = cc
less-AtMost (pos a) (negsuc b) c p q = cc
less-AtMost (negsuc a) (pos b) (pos c) p q = refl
less-AtMost (negsuc a) (pos b) (negsuc c) p q = cc
less-AtMost (negsuc a) (negsuc b) (pos c) p q = refl
less-AtMost (negsuc a) (negsuc b) (negsuc c) p q = ground arith

-- The loop's result: no candidate is above the RSRP it ends with, which has not sunk, and which is either
-- the one it started with, or that of a candidate that it has chosen.
record IsBest (gnbs : List Gnb) (start : Option Gnb) (low : ℤ) (r : Option Gnb × ℤ) : Type 0 where
  above : (g : Gnb) → Memᴰ g gnbs → AtMost g.rsrp r.1
  risen : AtMost low r.1
  chosen :
      (r ≡ (start, low))
      ⊎ ((g : Gnb) × Memᴰ g gnbs × (r.0 ≡ some g) × (r.1 ≡ g.rsrp) × (less low g.rsrp ≡ true))

-- Every member of a longer list, from its head and the rest.
all_cons :
    (c : Gnb) (gnbs : List Gnb) (r : ℤ)
    → AtMost c.rsrp r
    → ((g : Gnb) → Memᴰ g gnbs → AtMost g.rsrp r)
    → (g : Gnb) → Memᴰ g (c ∷ gnbs)
    → AtMost g.rsrp r
all_cons c gnbs r first rest g (head same) = subst (λ x. AtMost x.rsrp r) (sym same) first
all_cons c gnbs r first rest g (tail mem) = rest g mem

take-IsBest :
    (gnbs : List Gnb) (c : Gnb) (start : Option Gnb) (low : ℤ) {r : Option Gnb × ℤ}
    → less low c.rsrp ≡ true
    → IsBest gnbs (some c) c.rsrp r
    → IsBest (c ∷ gnbs) start low r
take-IsBest gnbs c start low {r = r} higher best = record {
  above = all_cons c gnbs r.1 best.risen best.above;
  risen = AtMost-trans low c.rsrp r.1 (less-asym low c.rsrp higher) best.risen;
  chosen = elim best.chosen [
    | inl same ↦ inr (c, head refl, ap (λ x. x.0) same, ap (λ x. x.1) same, higher)
    | inr (g, mem, found, level, above) ↦ inr (
      g,
      tail mem,
      found,
      level,
      less-AtMost low c.rsrp g.rsrp higher (less-asym c.rsrp g.rsrp above),
    )
  ];
}

keep-IsBest :
    (gnbs : List Gnb) (c : Gnb) (start : Option Gnb) (low : ℤ) {r : Option Gnb × ℤ}
    → less low c.rsrp ≡ false
    → IsBest gnbs start low r
    → IsBest (c ∷ gnbs) start low r
keep-IsBest gnbs c start low {r = r} lower best = record {
  above = all_cons c gnbs r.1 (AtMost-trans c.rsrp low r.1 lower best.risen) best.above;
  risen = best.risen;
  chosen = elim best.chosen [
    | inl same ↦ inl same
    | inr (g, mem, found, level, above) ↦ inr (g, tail mem, found, level, above)
  ];
}

loop-IsBest :
    (gnbs : List Gnb) (start : Option Gnb) (low : ℤ)
    → IsBest gnbs start low (best_loop gnbs start low)
unfolding best_loop
loop-IsBest [] start low = record {
  above = λ g mem. absurd (not-nil mem);
  risen = less_irrefl low;
  chosen = inl refl;
}
loop-IsBest (c ∷ gnbs) start low = elim (Bool-cases (less low c.rsrp)) [
  | inl higher ↦ rw higher (take-IsBest gnbs c start low higher (loop-IsBest gnbs (some c) c.rsrp))
  | inr lower ↦ rw lower (keep-IsBest gnbs c start low lower (loop-IsBest gnbs start low))
]

-- A handover is prepared for a candidate whose RSRP is above -140 and not below that of any other; if it
-- finds none, no candidate's RSRP is above -140.
pub best_candidate-maximal :
    (gnbs : List Gnb)
    → ((best_candidate gnbs ≡ none) × ((g : Gnb) → Memᴰ g gnbs → less (negsuc 139) g.rsrp ≡ false))
      ⊎ ((best : Gnb) × (best_candidate gnbs ≡ some best)
          × Memᴰ best gnbs
          × (less (negsuc 139) best.rsrp ≡ true)
          × ((g : Gnb) → Memᴰ g gnbs → less best.rsrp g.rsrp ≡ false))
unfolding best_candidate
best_candidate-maximal gnbs =
    let result = loop-IsBest gnbs none (negsuc 139) in
    elim result.chosen [
      | inl same ↦ inl (
        ap (λ r. r.0) same,
        λ g mem. subst (λ r. less r g.rsrp ≡ false) (ap (λ r. r.1) same) (result.above g mem),
      )
      | inr (g, mem, found, level, above) ↦ inr (
        g,
        found,
        mem,
        above,
        λ h other. subst (λ r. less r h.rsrp ≡ false) level (result.above h other),
      )
    ]
