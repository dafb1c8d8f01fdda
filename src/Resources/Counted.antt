-- ===== src/Resources/Counted.antt =====
-- The number of active resources that src/core/resource_tracker.c keeps, against its table.
use uesim.Common.{
  ℕ, ◌+◌, ◌^◌, ◌≤◌, ◌<◌, ◌≡◌, refl, arith, Bool, true, ◌&&◌, leb, leb→lt, lt→ltb, ◌==◌, List, [],
  ◌∷◌, ◌++◌, Option, some, find_first, update_first, length, Bool-cases, Option-cases, inl, inr,
  count, count-update_gone, length-update_first,
}
use uesim.Resources.{
  ResourceType, ResourceState, Entry, Stats, Tracker, max_entries, holds, is_active, number,
  with_state, released_stats,
}
use uesim.Resources.Operations.{
  track, new_entry, untrack, release, cleanup_loop, cleanup_where, cleanup_by_owner,
  cleanup_by_type, needs_handle,
}

-- The statistics count the active entries of the table, which has room for 4,096.
unfoldable pub IsCounted : Tracker → Type 0
IsCounted t =
    (t.stats.current_active ≡ count is_active t.resources) × (length t.resources ≤ max_entries)

count-append_active :
    (es : List Entry) (e : Entry)
    → is_active e ≡ true
    → count is_active (es ++ e ∷ []) ≡ count is_active es + 1
unfolding count
count-append_active [] e on = ground (arith, on)
count-append_active (x ∷ es) e on = ground (arith, count-append_active es e on)

pub length-append_one : (es : List Entry) (e : Entry) → length (es ++ e ∷ []) ≡ length es + 1
length-append_one [] e = refl
length-append_one (x ∷ es) e = ground (arith, length-append_one es e)

count≤length : (es : List Entry) → count is_active es ≤ length es
unfolding count
count≤length [] = omega arith
count≤length (e ∷ es) = ground (arith, count≤length es)

pub track-IsCounted :
    (t : Tracker) (type : ResourceType) (handle : ℕ) (name : Option (List ℕ)) (owner size now : ℕ)
    → IsCounted t
    → IsCounted (track t type handle name owner size now).0
unfolding IsCounted track
track-IsCounted t type handle name owner size now (counted, fits) =
    elim (Bool-cases t.initialized) [
      | inr off ↦ simp (track, off) (counted, fits)
      | inl on ↦ elim (Bool-cases (handle == 0 && needs_handle type)) [
        | inl empty ↦ simp (track, on, empty) (counted, fits)
        | inr given ↦ elim (Option-cases (find_first (holds handle) t.resources)) [
          | inr (e, found) ↦ simp (track, on, given, found) (counted, fits)
          | inl new ↦ elim (Bool-cases (leb max_entries (length t.resources))) [
            | inl full ↦ simp (track, on, given, new, full) (counted, fits)
            | inr room ↦
                let added : Entry = new_entry type handle name owner size now in
                simp (track, on, given, new, room)
                  (
                    omega (
                      arith,
                      counted,
                      fits,
                      count≤length t.resources,
                      count-append_active t.resources added refl,
                    ),
                    omega (
                      arith,
                      length-append_one t.resources added,
                      leb→lt max_entries (length t.resources) room,
                    ),
                  )
          ]
        ]
      ]
    ]

holds-is_active : (handle : ℕ) (e : Entry) → holds handle e ≡ true → is_active e ≡ true
holds-is_active handle e h = ground (arith, h)

gone :
    (handle : ℕ) (es : List Entry) {e : Entry}
    → find_first (holds handle) es ≡ some e
    → count is_active (update_first (holds handle) (with_state ResourceState.released) es) + 1
      ≡ count is_active es
gone handle es {e = e} found =
    count-update_gone (holds handle) is_active (with_state ResourceState.released) es {x = e}
      (holds-is_active handle) (λ x. refl) found

fewer :
    (handle : ℕ) (es : List Entry)
    → length (update_first (holds handle) (with_state ResourceState.released) es) ≡ length es
fewer handle es = length-update_first (holds handle) (with_state ResourceState.released) es

pub untrack-IsCounted : (t : Tracker) (handle : ℕ) → IsCounted t → IsCounted (untrack t handle).0
unfolding IsCounted untrack
untrack-IsCounted t handle (counted, fits) = elim (Bool-cases t.initialized) [
  | inr off ↦ simp (untrack, off) (counted, fits)
  | inl on ↦ elim (Bool-cases (handle == 0)) [
    | inl empty ↦ simp (untrack, on, empty) (counted, fits)
    | inr given ↦ elim (Option-cases (find_first (holds handle) t.resources)) [
      | inl none_held ↦ simp (untrack, on, given, none_held) (counted, fits)
      | inr (e, found) ↦
          simp (untrack, on, given, found)
            (
              rw
                  (lt→ltb 0 t.stats.current_active
                    (omega (arith, counted, gone handle t.resources found)))
                  (omega (arith, counted, gone handle t.resources found)),
              omega (arith, fits, fewer handle t.resources),
            )
    ]
  ]
]

pub release-IsCounted : (t : Tracker) (handle : ℕ) → IsCounted t → IsCounted (release t handle).0
unfolding IsCounted release
release-IsCounted t handle (counted, fits) = elim (Bool-cases t.initialized) [
  | inr off ↦ simp (release, off) (counted, fits)
  | inl on ↦ elim (Bool-cases (handle == 0)) [
    | inl empty ↦ simp (release, on, empty) (counted, fits)
    | inr given ↦ elim (Option-cases (find_first (holds handle) t.resources)) [
      | inl none_held ↦ simp (release, on, given, none_held) (counted, fits)
      | inr (e, found) ↦
          simp (release, on, given, found)
            (
              omega (arith, counted, fits, count≤length t.resources, gone handle t.resources found),
              omega (arith, fits, fewer handle t.resources),
            )
    ]
  ]
]

-- The loop takes from the count what it takes from the table.
cleanup_loop-counts :
    (p : Entry → Bool) (es : List Entry) (stats : Stats)
    → count is_active es ≤ stats.current_active
    → stats.current_active < 2 ^ 32
    → let (es', stats', closed, cleaned) = cleanup_loop p es stats in
      (stats'.current_active + count is_active es ≡ stats.current_active + count is_active es')
      × (length es' ≡ length es)
      × (cleaned + count is_active es' ≡ count is_active es)
unfolding cleanup_loop count
cleanup_loop-counts p [] stats enough low = (refl, refl, refl)
cleanup_loop-counts p (e ∷ es) stats enough low = elim (Bool-cases (p e && is_active e)) [
  | inl hit ↦
      let on : is_active e ≡ true = ground (arith, hit) in
      let one : count is_active (e ∷ es) ≡ 1 + count is_active es = rw on refl in
      let (counts, fits, took) =
        cleanup_loop-counts p es (released_stats e stats) (omega (arith, one, enough, low))
          (omega (arith, one, enough, low)) in
      rw (hit, on)
        (omega (arith, one, enough, low, counts), omega (arith, fits), omega (arith, took))
  | inr miss ↦ elim (Bool-cases (is_active e)) [
    | inl on ↦
        let one : count is_active (e ∷ es) ≡ 1 + count is_active es = rw on refl in
        let (counts, fits, took) =
          cleanup_loop-counts p es stats (omega (arith, one, enough)) low in
        rw (miss, on) (omega (arith, counts), omega (arith, fits), omega (arith, took))
    | inr off ↦
        let same : count is_active (e ∷ es) ≡ count is_active es = rw off refl in
        let (counts, fits, took) =
          cleanup_loop-counts p es stats (omega (arith, same, enough)) low in
        rw (miss, off) (omega (arith, counts), omega (arith, fits), omega (arith, took))
  ]
]

cleanup_where-IsCounted :
    (t : Tracker) (p : Entry → Bool) → IsCounted t → IsCounted (cleanup_where t p).0
unfolding IsCounted
cleanup_where-IsCounted t p (counted, fits) =
    let (counts, same, took) =
      cleanup_loop-counts p t.resources t.stats (omega (arith, counted))
        (omega (arith, counted, fits, count≤length t.resources)) in
    (omega (arith, counts, counted), omega (arith, same, fits))

pub cleanup_by_owner-IsCounted :
    (t : Tracker) (owner : ℕ) → IsCounted t → IsCounted (cleanup_by_owner t owner).0
unfolding cleanup_by_owner IsCounted
cleanup_by_owner-IsCounted t owner ok = elim (Bool-cases t.initialized) [
  | inr off ↦ rw off ok
  | inl on ↦ rw on (cleanup_where-IsCounted t (λ e. e.owner_id == owner) ok)
]

pub cleanup_by_type-IsCounted :
    (t : Tracker) (type : ResourceType) → IsCounted t → IsCounted (cleanup_by_type t type).0
unfolding cleanup_by_type IsCounted
cleanup_by_type-IsCounted t type ok = elim (Bool-cases t.initialized) [
  | inr off ↦ rw off ok
  | inl on ↦ rw on (cleanup_where-IsCounted t (λ e. number e.type == number type) ok)
]
