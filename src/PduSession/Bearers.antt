-- ===== src/PduSession/Bearers.antt =====
-- The data radio bearers of a session of src/nas/pdu_session.c: binding and unbinding them.
use uesim.Common.{
  ℕ, ◌≤◌, ◌<◌, ◌≡◌, ◌∙◌, subst, refl, arith, List, [], ◌∷◌, ◌++◌, Bool, true, false, none, some,
  leb, leb→lt, lt→leb, ◌==◌, ==_self, Bool-cases, Option-cases, inl, inr, length, length-append,
  Status, find_first, remove_first, find_first-append_one, length-remove_first,
}
use uesim.PduSession.{Session, is_bound}
use uesim.PduSession.Operations.{bind_drb, unbind_drb}

-- No bearer stands twice.
unfoldable pub AreDistinct : List ℕ → Type 0
AreDistinct [] = Unit {0}
AreDistinct (d ∷ ds) = (find_first (λ drb. drb == d) ds ≡ none) × AreDistinct ds

-- At most eight bearers, none of them twice.
unfoldable pub HasBearers : Session → Type 0
HasBearers s = (length s.drb_ids ≤ 8) × AreDistinct s.drb_ids

AreDistinct-append_one :
    (ds : List ℕ) (d : ℕ)
    → AreDistinct ds
    → find_first (λ drb. drb == d) ds ≡ none
    → AreDistinct (ds ++ d ∷ [])
unfolding AreDistinct find_first
AreDistinct-append_one [] d ok free = (refl, tt)
AreDistinct-append_one (c ∷ ds) d (c_free, ok) free = elim (Bool-cases (c == d)) [
  | inl same ↦ absurd (ground (arith, same))
  | inr apart ↦ (
    find_first-append_one (λ drb. drb == c) ds d ∙ rw c_free ground (arith, apart),
    AreDistinct-append_one ds d ok (rw apart at free),
  )
]

-- What is not in a list is not in it after a removal either.
find_first-remove_first-none :
    (p q : ℕ → Bool) (ds : List ℕ)
    → find_first q ds ≡ none
    → find_first q (remove_first p ds) ≡ none
unfolding find_first remove_first
find_first-remove_first-none p q [] free = refl
find_first-remove_first-none p q (d ∷ ds) free = ground (arith, find_first-remove_first-none p q ds)

AreDistinct-remove_first :
    (p : ℕ → Bool) (ds : List ℕ) → AreDistinct ds → AreDistinct (remove_first p ds)
unfolding AreDistinct remove_first
AreDistinct-remove_first p [] ok = ok
AreDistinct-remove_first p (d ∷ ds) (d_free, ok) = elim (Bool-cases (p d)) [
  | inl hit ↦ rw hit ok
  | inr miss ↦
      rw miss (
        find_first-remove_first-none p (λ drb. drb == d) ds d_free,
        AreDistinct-remove_first p ds ok,
      )
]

-- The one entry that matches, at the end, is the one removed.
remove_first-append_one :
    (d : ℕ) (ds : List ℕ)
    → find_first (λ drb. drb == d) ds ≡ none
    → remove_first (λ drb. drb == d) (ds ++ d ∷ []) ≡ ds
unfolding find_first remove_first
remove_first-append_one d [] free = rw (==_self d) refl
remove_first-append_one d (c ∷ ds) free = ground (arith, remove_first-append_one d ds)

-- Once a bearer is removed from a list without repetitions, it is not in it.
remove_first-free :
    (d : ℕ) (ds : List ℕ)
    → AreDistinct ds
    → find_first (λ drb. drb == d) (remove_first (λ drb. drb == d) ds) ≡ none
unfolding AreDistinct find_first remove_first
remove_first-free d [] ok = refl
remove_first-free d (c ∷ ds) (c_free, ok) = elim (Bool-cases (c == d)) [
  | inl same ↦
      let e : c ≡ d = ground (arith, same) in
      rw same (subst (λ x. find_first (λ drb. drb == x) ds ≡ none) e c_free)
  | inr apart ↦ rw (apart, apart) (remove_first-free d ds ok)
]

is_bound-none :
    (s : Session) (d : ℕ) → find_first (λ drb. drb == d) s.drb_ids ≡ none → is_bound d s ≡ false
is_bound-none s d e = rw (is_bound, e) refl

is_bound-some :
    (s : Session) (d : ℕ) {c : ℕ}
    → find_first (λ drb. drb == d) s.drb_ids ≡ some c
    → is_bound d s ≡ true
is_bound-some s d e = rw (is_bound, e) refl

bind_drb-HasBearers : (s : Session) (d : ℕ) → HasBearers s → HasBearers (bind_drb s d).1
unfolding HasBearers bind_drb
bind_drb-HasBearers s d (bound, distinct) = elim (Bool-cases (leb 8 (length s.drb_ids))) [
  | inl full ↦ rw (full, bind_drb) (bound, distinct)
  | inr room ↦
      let short = leb→lt 8 (length s.drb_ids) room in
      elim (Option-cases (find_first (λ drb. drb == d) s.drb_ids)) [
        | inr (found, e) ↦ rw (bind_drb, room, is_bound-some s d e) (bound, distinct)
        | inl free ↦
            rw (bind_drb, room, is_bound-none s d free)
              (
                omega (arith, length-append s.drb_ids (d ∷ [])),
                AreDistinct-append_one s.drb_ids d distinct free,
              )
      ]
]

unbind_drb-HasBearers : (s : Session) (d : ℕ) → HasBearers s → HasBearers (unbind_drb s d).1
unfolding HasBearers unbind_drb
unbind_drb-HasBearers s d (bound, distinct) =
    elim (Option-cases (find_first (λ drb. drb == d) s.drb_ids)) [
      | inl free ↦ rw (unbind_drb, is_bound-none s d free) (bound, distinct)
      | inr (found, e) ↦
          rw (unbind_drb, is_bound-some s d e)
            (
              omega (arith, length-remove_first (λ drb. drb == d) s.drb_ids e),
              AreDistinct-remove_first (λ drb. drb == d) s.drb_ids distinct,
            )
    ]

pub data Request : Type 0 where
  bind unbind : ℕ → Request

unfoldable pub apply_all : Session → List Request → Session
apply_all s [] = s
apply_all s (Request.bind d ∷ rs) = apply_all (bind_drb s d).1 rs
apply_all s (Request.unbind d ∷ rs) = apply_all (unbind_drb s d).1 rs

-- However bearers are bound to a session and unbound from it, it has at most eight, and none twice.
pub apply_all-HasBearers :
    (s : Session) (rs : List Request) → HasBearers s → HasBearers (apply_all s rs)
unfolding apply_all
apply_all-HasBearers s [] ok = ok
apply_all-HasBearers s (Request.bind d ∷ rs) ok =
    apply_all-HasBearers (bind_drb s d).1 rs (bind_drb-HasBearers s d ok)
apply_all-HasBearers s (Request.unbind d ∷ rs) ok =
    apply_all-HasBearers (unbind_drb s d).1 rs (unbind_drb-HasBearers s d ok)

-- Binding a bearer to a session with fewer than eight, none of them this one, succeeds; unbinding it
-- then succeeds too and gives back the session as it was, to which it is not bound.
unbind_drb-bind_drb :
    (s : Session) (d : ℕ)
    → length s.drb_ids < 8
    → is_bound d s ≡ false
    → ((bind_drb s d).0 ≡ Status.success)
      × (is_bound d (bind_drb s d).1 ≡ true)
      × (unbind_drb (bind_drb s d).1 d ≡ (Status.success, s))
unfolding bind_drb unbind_drb
unbind_drb-bind_drb s d room free = elim (Option-cases (find_first (λ drb. drb == d) s.drb_ids)) [
  | inr (found, e) ↦ absurd (cc)
  | inl none_there ↦
      let found : find_first (λ drb. drb == d) (s.drb_ids ++ d ∷ []) ≡ some d =
        find_first-append_one (λ drb. drb == d) s.drb_ids d ∙ rw (none_there, ==_self d) refl in
      let s' = record s { drb_ids = s.drb_ids ++ d ∷ [] } in
      let bound : bind_drb s d ≡ (Status.success, s') =
        rw (bind_drb, lt→leb 8 (length s.drb_ids) room, free) refl in
      rw bound (
        refl,
        is_bound-some s' d found,
        rw (unbind_drb, is_bound-some s' d found, remove_first-append_one d s.drb_ids none_there)
            refl,
      )
]

-- After an unbinding, whatever its status, the bearer is not bound to a session that had none twice.
unbind_drb-is_bound : (s : Session) (d : ℕ) → HasBearers s → is_bound d (unbind_drb s d).1 ≡ false
unfolding HasBearers unbind_drb
unbind_drb-is_bound s d (bound, distinct) =
    elim (Option-cases (find_first (λ drb. drb == d) s.drb_ids)) [
      | inl free ↦ rw (unbind_drb, is_bound-none s d free) (is_bound-none s d free)
      | inr (found, e) ↦
          rw (unbind_drb, is_bound-some s d e)
            (is_bound-none (record s { drb_ids = remove_first (λ drb. drb == d) s.drb_ids }) d
              (remove_first-free d s.drb_ids distinct))
    ]
