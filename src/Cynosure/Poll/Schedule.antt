-- ===== src/Cynosure/Poll/Schedule.antt =====
-- What a poll does to the jobs that it takes, and when the next one comes.
use common_build.Common.{
  ◌≡◌, refl, ◌++◌, Bool, true, List, [], ◌∷◌, Option, none, some, if◌then◌else◌,
}
use common_build.Common.Text.{Text}
use common_build.Common.Result.{ok, err}
use common_build.Domain.JobRef.{JobKey, deserialize_key}
use common_build.Tasks.Time.{Duration}
use common_build.Tasks.Queue.{Entry}
use common_build.Cynosure.States.{Json, JobState}
use common_build.Cynosure.Acts.{Action, Act}
use common_build.Cynosure.Executor.{
  TaskQueue, reverse_onto, deserialize_states, last_abort, repoll_delayed, repoll_direct,
}
use common_build.Cynosure.Executor.Continues.{IsAccepting}
use common_build.Cynosure.Executor.Decisions.{IsDecided, IsOnce}
use common_build.Cynosure.Poll.{
  Connectors, handle_entry, handle_entries, process, Executor, reschedule, fire,
}

-- A task that is a job's: its name and its data can be read, its states, the last first, are some
-- and no abort, and the task queue does not refuse twice in a step to take it again.
pub record IsRegular (json : Json) (tasks : TaskQueue) (entry : Entry) : Type 0 where
  pub key : JobKey
  pub named : deserialize_key entry.uid ≡ ok key
  pub states : List JobState
  pub read : deserialize_states json entry.payload ≡ ok states
  pub first : JobState
  pub others : List JobState
  pub reversed : reverse_onto states [] ≡ first ∷ others
  pub none_aborted : last_abort (first ∷ others) ≡ none
  pub accepting : IsAccepting tasks entry.uid

-- The calls are those for each task in turn: its own job is kept or told to be at its end, once, and
-- no call of them is about another job.
unfoldable pub DecidedEach : List Entry → List Action → Type 0
DecidedEach [] actions = actions ≡ []
DecidedEach (entry ∷ entries) actions =
    (key : JobKey) × (mine : List Action) × (rest : List Action) × (deserialize_key entry.uid
      ≡ ok key)
    × (actions ≡ mine ++ rest)
    × IsDecided entry.uid key mine
    × DecidedEach entries rest

module _ (json : Json) (tasks : TaskQueue) (connectors : Connectors) where
  -- A task whose step decides once
  abbrev IsBegun : Entry → JobKey → Type 0
  IsBegun entry key =
      (a : Act Unit) × (handle_entry json tasks connectors entry ≡ ok a) × IsOnce entry.uid key a

-- The state of the executor behind a poll
abbrev pub next_wait : Bool → Option Duration
next_wait has_more = some (if has_more then repoll_direct else repoll_delayed)

-- When the timer goes off and the task queue does not answer, or the name or the data of the first
-- task that it gave cannot be read, nothing is done for any of the tasks taken, and no timer is set:
-- the executor does not poll again by itself.
pub fire-stopped :
    (json : Json) (tasks : TaskQueue) (connectors : Connectors) (first : Entry)
    (entries : List Entry) (has_more : Bool) (message refusal : Text) (x : Executor)
    → x.has_listener ≡ true
    → handle_entry json tasks connectors first ≡ err message
    → (fire json tasks connectors (err refusal) x ≡ ([], record x { timer = none }))
      × (fire json tasks connectors
            (ok (record { entries = first ∷ entries; has_more = has_more }))
            x
          ≡ ([], record x { timer = none }))
unfolding fire process handle_entries reschedule
fire-stopped json tasks connectors first entries has_more message refusal x listening thrown =
    (rw listening refl, rw (listening, thrown) refl)
