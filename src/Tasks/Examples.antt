-- ===== src/Tasks/Examples.antt =====
-- The theorems about times and about the queue of tasks at concrete values.
use common_build.Common.{refl, inl, arith, All, List, [], ◌∷◌, none, false, ◌≡◌}
use common_build.Common.Text.{Text, codes, ◌==◌}
use common_build.Redis.Commands.{zinsert, zremove}
use common_build.Tasks.Commands.{TaskStore, zadd, del, set_at, same_task_key, set_nx, zrange}
use common_build.Tasks.Redis.{documented}
use common_build.Tasks.Queue.{Entry, take_expired, upsert, pop_expired, take_all, take_one}
use common_build.Tasks.Queue.Calls.{Call, upserted, run, upserts, taken_once}
use common_build.Tasks.Queue.Popped.{PopEffect, upsert-pop_expired}
use common_build.Tasks.Time.{no_duration, Time, Duration, add_duration, from_seconds}

abbrev sample_time : Time
sample_time = record { epoch_ms = 1700 }

abbrev sample_duration : Duration
sample_duration = record { milliseconds = 2600 }

-- A task with two data: a wait of 2 s from 1 s on, and one taken earlier.
abbrev first_task : Text
first_task = codes "t1"

abbrev with_task : TaskStore
with_task =
    upsert documented (record { epoch_ms = 0 }) 1 first_task no_duration (codes "abort")
      (record { sorted = λ _. []; strings = λ _. none })

abbrev taken_entry : Entry
taken_entry = record { uid = first_task; payload = codes "abort" ∷ [] }

abbrev other_calls : List Call
other_calls = upserted (record { epoch_ms = 5 }) 2 (codes "t2") no_duration (codes "go") ∷ []

taken_once_example :
    All
      (λ e'. (e'.uid == first_task) ≡ false)
      (take_expired documented 2 (first_task ∷ codes "t2" ∷ []) (
        run documented other_calls
          (take_expired documented 2 (first_task ∷ []) with_task).1)).0.entries
unfolding take_expired take_all take_one set_nx upsert del set_at same_task_key ◌==◌ zrange zadd
    zinsert zremove upserts
taken_once_example =
    taken_once documented 2 (first_task ∷ []) with_task taken_entry other_calls 2
      (first_task ∷ codes "t2" ∷ []) (inl refl) (refl, tt)

upsert-pop_expired_example : PopEffect first_task (codes "queued") with_task (
    pop_expired documented 2
      (record { epoch_ms = 3000 })
      (upsert documented
        (record { epoch_ms = 1000 })
        2
        first_task
        (from_seconds 2)
        (codes "queued")
        with_task))
unfolding add_duration upsert del set_at same_task_key zadd zinsert zremove ◌==◌
upsert-pop_expired_example =
    upsert-pop_expired documented 2 (record { epoch_ms = 1000 }) (record { epoch_ms = 3000 }) 2
      first_task (from_seconds 2) (codes "queued") with_task (omega arith) (omega arith)
      (omega arith)
