-- ===== src/Resources.antt =====
-- src/core/resource_tracker.c, as it is compiled outside Windows: the table of what the program has
-- allocated, and its statistics. Handles are numbers of 64 bits, 0 is `NULL`; the clock is an argument.
pub mod Operations
pub mod Counted
pub mod Runs
pub mod Full
mod Tests
use uesim.Common.{
  ℕ, ◌+◌, ◌-◌, ◌%◌, ◌^◌, Bool, true, false, ◌&&◌, ◌||◌, not, leb, ltb, ◌==◌, if◌then◌else◌, List,
  [], ◌∷◌, ◌++◌, Option, none, some, find_first, update_first, length, take,
}

-- `resource_type_t`
pub data ResourceType : Type 0 where
  memory socket thread mutex cond timer context buffer file : ResourceType

-- The number of a type.
abbrev pub number : ResourceType → ℕ
number ResourceType.memory = 0
number ResourceType.socket = 1
number ResourceType.thread = 2
number ResourceType.mutex = 3
number ResourceType.cond = 4
number ResourceType.timer = 5
number ResourceType.context = 6
number ResourceType.buffer = 7
number ResourceType.file = 8

-- `resource_state_t`
pub data ResourceState : Type 0 where
  active released leaked : ResourceState

-- `resource_entry_t`; a name is the list of its characters, less the 0 behind them.
pub record Entry : Type 0 where
  pub type : ResourceType
  pub state : ResourceState
  pub handle : ℕ
  pub name : List ℕ
  pub owner_id : ℕ
  pub size : ℕ
  pub alloc_time_ms : ℕ
  pub flags : ℕ

-- `resource_stats_t`
pub record Stats : Type 0 where
  pub total_allocated : ℕ
  pub total_released : ℕ
  pub current_active : ℕ
  pub memory_bytes_allocated : ℕ
  pub memory_bytes_active : ℕ
  pub sockets_open : ℕ
  pub threads_running : ℕ
  pub leaks_detected : ℕ

-- The state of the file: the entries of `g_resources` that `g_resource_count` counts, and the rest.
pub record Tracker : Type 0 where
  pub resources : List Entry
  pub stats : Stats
  pub initialized : Bool

-- `resource_error_t`
pub data Result : Type 0 where
  success invalid_param not_found capacity already_tracked not_initialized : Result

-- What the system is asked to do for a resource that is released.
pub data Closing : Type 0 where
  free close destroy_mutex destroy_cond : ℕ → Closing

abbrev pub max_entries : ℕ
max_entries = 4096

abbrev pub is_live : ResourceState → Bool
is_live ResourceState.active = true
is_live s = false

abbrev pub is_active : Entry → Bool
is_active e = is_live e.state

-- What `find_resource_index` looks for.
abbrev pub holds : ℕ → Entry → Bool
holds handle e = e.handle == handle && is_active e

abbrev pub has_bytes : ResourceType → Bool
has_bytes ResourceType.memory = true
has_bytes ResourceType.buffer = true
has_bytes t = false

abbrev pub is_socket : ResourceType → Bool
is_socket ResourceType.socket = true
is_socket t = false

abbrev pub is_thread : ResourceType → Bool
is_thread ResourceType.thread = true
is_thread t = false

-- What the `switch` of `release_resource_internal` asks for: nothing for threads, timers and files.
unfoldable pub closing : ResourceType → ℕ → List Closing
closing ResourceType.memory h = if h == 0 then [] else Closing.free h ∷ []
closing ResourceType.socket h = if ltb h (2 ^ 63) then Closing.close (h % 2 ^ 32) ∷ [] else []
closing ResourceType.mutex h = if h == 0 then [] else Closing.destroy_mutex h ∷ Closing.free h ∷ []
closing ResourceType.cond h = if h == 0 then [] else Closing.destroy_cond h ∷ Closing.free h ∷ []
closing ResourceType.context h = if h == 0 then [] else Closing.free h ∷ []
closing ResourceType.buffer h = if h == 0 then [] else Closing.free h ∷ []
closing t h = []

abbrev pub count_down : Bool → ℕ → ℕ
count_down counted n = if counted && ltb 0 n then n - 1 else n

abbrev pub with_state : ResourceState → Entry → Entry
with_state s e = record e { state = s }

-- The statistics after `release_resource_internal`, whose differences can wrap.
abbrev pub released_stats : Entry → Stats → Stats
released_stats e stats = record stats {
  total_released = (stats.total_released + 1) % 2 ^ 32;
  current_active = (stats.current_active + 2 ^ 32 - 1) % 2 ^ 32;
  memory_bytes_active =
      if has_bytes e.type
      then (stats.memory_bytes_active + 2 ^ 32 - e.size) % 2 ^ 32
      else stats.memory_bytes_active;
  sockets_open = count_down (is_socket e.type) stats.sockets_open;
  threads_running = count_down (is_thread e.type) stats.threads_running;
}

-- The statistics after `resource_untrack`, which counts no number below 0.
abbrev pub untracked_stats : Entry → Stats → Stats
untracked_stats e stats = record stats {
  total_released = (stats.total_released + 1) % 2 ^ 32;
  current_active = count_down true stats.current_active;
  memory_bytes_active =
      if has_bytes e.type && leb e.size stats.memory_bytes_active
      then stats.memory_bytes_active - e.size
      else stats.memory_bytes_active;
  sockets_open = count_down (is_socket e.type) stats.sockets_open;
  threads_running = count_down (is_thread e.type) stats.threads_running;
}

-- The statistics after `resource_track`.
abbrev pub tracked_stats : ResourceType → ℕ → Stats → Stats
tracked_stats t size stats = record stats {
  total_allocated = (stats.total_allocated + 1) % 2 ^ 32;
  current_active = (stats.current_active + 1) % 2 ^ 32;
  memory_bytes_allocated =
      if has_bytes t
      then (stats.memory_bytes_allocated + size) % 2 ^ 32
      else stats.memory_bytes_allocated;
  memory_bytes_active =
      if has_bytes t
      then (stats.memory_bytes_active + size) % 2 ^ 32
      else stats.memory_bytes_active;
  sockets_open = if is_socket t then (stats.sockets_open + 1) % 2 ^ 32 else stats.sockets_open;
  threads_running =
      if is_thread t then (stats.threads_running + 1) % 2 ^ 32 else stats.threads_running;
}

abbrev pub no_stats : Stats
no_stats = record {
  total_allocated = 0;
  total_released = 0;
  current_active = 0;
  memory_bytes_allocated = 0;
  memory_bytes_active = 0;
  sockets_open = 0;
  threads_running = 0;
  leaks_detected = 0;
}
