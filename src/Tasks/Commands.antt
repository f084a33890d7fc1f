-- ===== src/Tasks/Commands.antt =====
-- The documented effect of the Redis commands that the task queue uses, on its keys: the sorted set
-- of the tasks, and for each task a sorted set of data and a flag. Times to live are not modelled.
use common_build.Common.{
  ℕ, Bool, true, false, ◌&&◌, List, [], Option, none, some, if◌then◌else◌, take, map, keep,
}
use common_build.Common.Text.{Text, ◌==◌}
use common_build.Common.Int.{ℤ, le_int}
use common_build.Redis.Commands.{zinsert, zremove, is_some}

-- `task:entries:<queue>`, `task:data:<queue>:<uid>` and `task:handled:<queue>:<uid>`
pub data TaskKey : Type 0 where
  entry_key : TaskKey
  data_key handled_key : Text → TaskKey

unfoldable pub same_task_key : TaskKey → TaskKey → Bool
same_task_key entry_key entry_key = true
same_task_key (data_key u) (data_key v) = u == v
same_task_key (handled_key u) (handled_key v) = u == v
same_task_key _ _ = false

pub record TaskStore : Type 0 where
  pub sorted : TaskKey → List (Text × ℤ)
  pub strings : TaskKey → Option Text

unfoldable pub set_at {ℓ} : {V : Type ℓ} → (TaskKey → V) → TaskKey → V → TaskKey → V
set_at f k v j = if same_task_key k j then v else f j

unfoldable pub zadd : TaskKey → ℤ → Text → TaskStore → TaskStore
zadd k score m s = record s {
  sorted = set_at s.sorted k (zinsert (m, score) (zremove m (s.sorted k)));
}

unfoldable pub zrem : TaskKey → Text → TaskStore → TaskStore
zrem k m s = record s { sorted = set_at s.sorted k (zremove m (s.sorted k)) }

-- `ZRANGE key low high BYSCORE LIMIT 0 count`
unfoldable pub zrange_by_score : TaskKey → ℤ → ℤ → ℕ → TaskStore → List Text
zrange_by_score k low high count s =
    take count (map (λ e. e.0) (keep (λ e. le_int low e.1 && le_int e.1 high) (s.sorted k)))

-- `ZRANGE key 0 <count - 1>`
unfoldable pub zrange : TaskKey → ℕ → TaskStore → List Text
zrange k count s = take count (map (λ e. e.0) (s.sorted k))

unfoldable pub del : TaskKey → TaskStore → TaskStore
del k s = record { sorted = set_at s.sorted k []; strings = set_at s.strings k none }

-- `SET key value NX`, and whether it answers "OK"
unfoldable pub set_nx : TaskKey → Text → TaskStore → Bool × TaskStore
set_nx k v s =
    if is_some (s.strings k)
    then (false, s)
    else (true, record s { strings = set_at s.strings k (some v) })
