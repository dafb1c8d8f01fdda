-- ===== src/Resources/Operations.antt =====
-- The operations of src/core/resource_tracker.c.
use uesim.Common.{
  ℕ, ◌+◌, Bool, true, false, ◌&&◌, not, leb, ◌==◌, if◌then◌else◌, List, [], ◌∷◌, ◌++◌, Option, none,
  some, find_first, update_first, length, take,
}
use uesim.Resources.{
  ResourceType, ResourceState, Entry, Stats, Tracker, Result, Closing, max_entries, holds,
  is_active, closing, with_state, released_stats, untracked_stats, tracked_stats, no_stats, number,
}

-- `resource_tracker_init`
abbrev pub init : Tracker → Tracker
init t =
    if t.initialized then t else record { resources = []; stats = no_stats; initialized = true }

abbrev pub needs_handle : ResourceType → Bool
needs_handle ResourceType.mutex = false
needs_handle ResourceType.cond = false
needs_handle t = true

abbrev pub name_or_empty : Option (List ℕ) → List ℕ
name_or_empty none = []
name_or_empty (some name) = take 31 name

-- The entry that `resource_track` adds.
abbrev pub new_entry : ResourceType → ℕ → Option (List ℕ) → ℕ → ℕ → ℕ → Entry
new_entry type handle name owner size now = record {
  type = type;
  state = ResourceState.active;
  handle = handle;
  name = name_or_empty name;
  owner_id = owner;
  size = size;
  alloc_time_ms = now;
  flags = 0;
}

-- `resource_track`
unfoldable pub track : Tracker → ResourceType → ℕ → Option (List ℕ) → ℕ → ℕ → ℕ → Tracker × Result
track t type handle name owner size now =
    if not t.initialized
    then (t, Result.not_initialized)
    else if handle == 0 && needs_handle type
    then (t, Result.invalid_param)
    else elim (find_first (holds handle) t.resources) [
      | some e ↦ (t, Result.already_tracked)
      | none ↦ if leb max_entries (length t.resources) then (t, Result.capacity) else (
        record t {
          resources = t.resources ++ new_entry type handle name owner size now ∷ [];
          stats = tracked_stats type size t.stats;
        },
        Result.success,
      )
    ]

-- The start of the operations that take a handle: what they do with the entry that holds it.
abbrev pub with_entry :
    Tracker → ℕ → (Entry → Tracker × Result × List Closing) → Tracker × Result × List Closing
with_entry t handle act =
    if not t.initialized
    then (t, Result.not_initialized, [])
    else if handle == 0
    then (t, Result.invalid_param, [])
    else elim (find_first (holds handle) t.resources) [
      | none ↦ (t, Result.not_found, [])
      | some e ↦ act e
    ]

-- `resource_untrack`
unfoldable pub untrack : Tracker → ℕ → Tracker × Result × List Closing
untrack t handle = with_entry t handle (λ e. (
  record t {
    resources = update_first (holds handle) (with_state ResourceState.released) t.resources;
    stats = untracked_stats e t.stats;
  },
  Result.success,
  [],
))

-- `resource_release`
unfoldable pub release : Tracker → ℕ → Tracker × Result × List Closing
release t handle = with_entry t handle (λ e. (
  record t {
    resources = update_first (holds handle) (with_state ResourceState.released) t.resources;
    stats = released_stats e t.stats;
  },
  Result.success,
  closing e.type e.handle,
))

-- `resource_update_state`
unfoldable pub update_state : Tracker → ℕ → ResourceState → Tracker × Result × List Closing
update_state t handle state = with_entry t handle (λ e. (
  record t { resources = update_first (holds handle) (with_state state) t.resources },
  Result.success,
  [],
))

-- The loop that releases the active entries that a test picks: the entries, the statistics, what the
-- system is asked for, and how many were released.
unfoldable pub cleanup_loop :
    (Entry → Bool) → List Entry → Stats → List Entry × Stats × List Closing × ℕ
cleanup_loop p [] stats = ([], stats, [], 0)
cleanup_loop p (e ∷ es) stats =
    let hit = p e && is_active e in
    let (es', stats', closed, cleaned) =
      cleanup_loop p es (if hit then released_stats e stats else stats) in
    if hit
    then (
      with_state ResourceState.released e ∷ es',
      stats',
      closing e.type e.handle ++ closed,
      cleaned + 1,
    )
    else (e ∷ es', stats', closed, cleaned)

-- The loop's part of `resource_cleanup_by_owner` and of `resource_cleanup_by_type`.
abbrev pub cleanup_where : Tracker → (Entry → Bool) → Tracker × ℕ × List Closing
cleanup_where t p =
    let (es, stats, closed, cleaned) = cleanup_loop p t.resources t.stats in
    (record t { resources = es; stats = stats }, cleaned, closed)

-- `resource_cleanup_by_owner`
unfoldable pub cleanup_by_owner : Tracker → ℕ → Tracker × ℕ × List Closing
cleanup_by_owner t owner =
    if t.initialized then cleanup_where t (λ e. e.owner_id == owner) else (t, 0, [])

-- `resource_cleanup_by_type`
unfoldable pub cleanup_by_type : Tracker → ResourceType → Tracker × ℕ × List Closing
cleanup_by_type t type =
    if t.initialized then cleanup_where t (λ e. number e.type == number type) else (t, 0, [])

-- `resource_tracker_cleanup`: the tracker, and what the system is asked for.
unfoldable pub cleanup : Tracker → Tracker × List Closing
cleanup t =
    if t.initialized
    then (let (es, stats, closed, cleaned) = cleanup_loop (λ e. true) t.resources t.stats in
        (record { resources = []; stats = stats; initialized = false }, closed))
    else (t, [])

-- The loop of `resource_check_leaks`, and how many entries it marks.
unfoldable pub leaks_loop : List Entry → List Entry × ℕ
leaks_loop [] = ([], 0)
leaks_loop (e ∷ es) =
    let (es', leaks) = leaks_loop es in
    if is_active e then (with_state ResourceState.leaked e ∷ es', leaks + 1) else (e ∷ es', leaks)

-- `resource_check_leaks`
unfoldable pub check_leaks : Tracker → Tracker × ℕ
check_leaks t =
    if t.initialized
    then (let (es, leaks) = leaks_loop t.resources in
        (record t { resources = es; stats = record t.stats { leaks_detected = leaks } }, leaks))
    else (t, 0)
