-- ===== src/Manager/Schedule.antt =====
-- The priorities and the dependency tree of `StreamManager`.
use dummy_h.Prelude.{
  ℕ, Bool, false, ◌&&◌, ◌||◌, Option, none, some, List, [], ◌∷◌, ◌++◌, ltb, ◌==◌, if◌then◌else◌,
}
use dummy_h.Prelude.Table.{Table, get, insert}
use dummy_h.Error.{ok, err}
use dummy_h.Stream
use dummy_h.Stream.{StreamPriority, urgent, high, normal, low, background, StreamType, StreamState}
use dummy_h.Manager.{StreamManager, PriorityEntry, Call, create_stream}

-- The fields of an entry, which `StreamSchedule` shares but for the stream's identifier.
pub record StreamSchedule : Type 0 where
  pub priority : StreamPriority
  pub weight : ℕ
  pub dependent_on : Option ℕ
  pub exclusive : Bool

-- `StreamSchedule::default()`
abbrev pub default_schedule : StreamSchedule
default_schedule = record { priority = normal; weight = 16; dependent_on = none; exclusive = false }

unfoldable pub entry_of : ℕ → StreamSchedule → PriorityEntry
entry_of id schedule = record {
  stream_id = id;
  priority = schedule.priority;
  weight = schedule.weight;
  dependent_on = schedule.dependent_on;
  exclusive = schedule.exclusive;
}

-- `if let Some(parent_id) = … { ….entry(parent_id).or_insert_with(Vec::new).push(stream_id) }`
unfoldable pub add_child : Table (List ℕ) → Option ℕ → ℕ → Table (List ℕ)
add_child t none id = t
add_child t (some parent) id =
    insert t parent (elim (get t parent) [ none ↦ id ∷ [] | some children ↦ children ++ id ∷ [] ])

unfoldable pub add_priority : Call ℕ → StreamSchedule → Call ℕ
unfolding entry_of add_child
add_priority (m, err e) schedule = (m, err e)
add_priority (m, ok id) schedule = (
  record m {
    priority_queue = m.priority_queue ++ entry_of id schedule ∷ [];
    dependency_tree = add_child m.dependency_tree schedule.dependent_on id;
  },
  ok id,
)

unfoldable pub create_stream_with_priority :
    StreamManager → StreamType → StreamSchedule → ℕ → Call ℕ
unfolding add_priority
create_stream_with_priority m t schedule now = add_priority (create_stream m t now) schedule

-- `iter_mut().find(|e| e.stream_id == stream_id)`: the first entry of the stream.
unfoldable pub reschedule : List PriorityEntry → ℕ → StreamSchedule → List PriorityEntry
unfolding entry_of
reschedule [] id schedule = []
reschedule (e ∷ es) id schedule =
    let rest = reschedule es id schedule in
    if e.stream_id == id then entry_of id schedule ∷ es else e ∷ rest

-- `children.retain(|&id| id != stream_id)`
unfoldable pub without : List ℕ → ℕ → List ℕ
without [] id = []
without (x ∷ xs) id = let rest = without xs id in if x == id then rest else x ∷ rest

unfoldable pub without_child : Table (List ℕ) → ℕ → Table (List ℕ)
unfolding without
without_child [] id = []
without_child ((parent, children) ∷ t) id = (parent, without children id) ∷ without_child t id

unfoldable pub update_stream_priority : StreamManager → ℕ → StreamSchedule → Call (Unit {0})
unfolding reschedule without_child add_child
update_stream_priority m id schedule = (
  record m {
    priority_queue = reschedule m.priority_queue id schedule;
    dependency_tree = add_child (without_child m.dependency_tree id) schedule.dependent_on id;
  },
  ok tt,
)

unfoldable pub get_stream_children : StreamManager → ℕ → List ℕ
get_stream_children m id = elim (get m.dependency_tree id) [ none ↦ [] | some children ↦ children ]

-- The derived order of `StreamPriority` is that of its variants.
abbrev pub rank : StreamPriority → ℕ
rank urgent = 0
rank high = 1
rank normal = 2
rank low = 3
rank background = 4

-- Whether the closure of `sort_by` puts the second entry strictly before the first.
unfoldable pub goes_after : PriorityEntry → PriorityEntry → Bool
goes_after a b =
    ltb (rank b.priority) (rank a.priority)
    || (rank a.priority == rank b.priority && ltb a.weight b.weight)

-- `sort_by` is stable: an entry stays in front of those that are equal and came later.
unfoldable pub place : PriorityEntry → List PriorityEntry → List PriorityEntry
unfolding goes_after
place a [] = a ∷ []
place a (b ∷ bs) = let rest = place a bs in if goes_after a b then b ∷ rest else a ∷ b ∷ bs

unfoldable pub sort_entries : List PriorityEntry → List PriorityEntry
unfolding place
sort_entries [] = []
sort_entries (e ∷ es) = place e (sort_entries es)

-- `stream.can_send() && stream.send_window > 0`, on a stream that exists.
unfoldable pub is_sendable : Table StreamState → PriorityEntry → Bool
is_sendable streams e = elim (get streams e.stream_id) [
  | none ↦ false
  | some s ↦ Stream.can_send s && ltb 0 s.send_window
]

unfoldable pub sendable_ids : Table StreamState → List PriorityEntry → List ℕ
unfolding is_sendable
sendable_ids streams [] = []
sendable_ids streams (e ∷ es) =
    let rest = sendable_ids streams es in if is_sendable streams e then e.stream_id ∷ rest else rest

unfoldable pub get_sendable_streams : StreamManager → List ℕ
unfolding sort_entries sendable_ids
get_sendable_streams m = sendable_ids m.streams (sort_entries m.priority_queue)

unfoldable pub window_updates : Table StreamState → List (ℕ × ℕ)
window_updates [] = []
window_updates ((id, s) ∷ rest) =
    let updates = window_updates rest in
    if Stream.needs_window_update s
    then (s.id, Stream.calculate_window_update s) ∷ updates
    else updates

unfoldable pub get_streams_needing_window_updates : StreamManager → List (ℕ × ℕ)
unfolding window_updates
get_streams_needing_window_updates m = window_updates m.streams
