-- ===== src/Cynosure/Poll.antt =====
-- backend/src/cynosure/job-executor/cynosure-job-executor.ts: the polling of the task queue, its
-- timer, and the calls of the executor's clients.
pub mod Stored
pub mod Aborted
pub mod Restarted
pub mod Schedule
use common_build.Common.{
  ℕ, Bool, true, false, List, [], ◌∷◌, ◌++◌, Option, none, some, if◌then◌else◌,
}
use common_build.Common.Text.{Text, codes}
use common_build.Common.Result.{Result, ok, err}
use common_build.Domain.JobRef.{JobKey, deserialize_key, sha_of, serialize_key}
use common_build.Tasks.Time.{Duration, no_duration}
use common_build.Tasks.Queue.{Entry, Entries}
use common_build.Cynosure.States.{Json, JobState, job_queued, job_abort}
use common_build.Common.Promises.{pure, fail, emit, ask, tell, done, catch, first_error, ◌>>=◌}
use common_build.Cynosure.Acts.{Action, Connector, Act, info_url_set, on_job_error}
use common_build.Cynosure.Executor.{
  TaskQueue, repoll_delayed, repoll_direct, reverse_onto, deserialize_states, given, step, upsert,
}

-- `CynosureApiConnectorFactory.createApiConnector`
abbrev pub Connectors : Type 0
Connectors = Text → Option Connector

module _ (json : Json) (tasks : TaskQueue) (connectors : Connectors) where
  abbrev pub stepped : Connector → Text → JobKey → Result (List JobState) → Result (Act Unit)
  stepped connector uid key (err message) = err message
  stepped connector uid key (ok states) = ok (step tasks connector uid key (reverse_onto states []))

  unfoldable pub with_connector : Option Connector → Entry → JobKey → Result (Act Unit)
  with_connector none entry key = ok (emit (on_job_error key))
  with_connector (some connector) entry key =
      stepped connector entry.uid key (deserialize_states json entry.payload)

  abbrev pub with_key : Entry → Result JobKey → Result (Act Unit)
  with_key entry (err message) = err message
  with_key entry (ok key) = with_connector (connectors key.source.id) entry key

  -- What the map makes of an entry: it throws, or begins a promise.
  unfoldable pub handle_entry : Entry → Result (Act Unit)
  handle_entry entry = with_key entry (deserialize_key entry.uid)

  abbrev pub begun : Result (Act Unit) → Act Unit → Act Unit
  begun (err message) rest = fail message
  begun (ok act) rest = (act.0 ++ rest.0, first_error act.1 rest.1)

  -- `Promise.all(entries.map(...))`: an entry that throws ends the map. What was begun goes on.
  unfoldable pub handle_entries : List Entry → Act Unit
  handle_entries [] = pure tt
  handle_entries (entry ∷ entries) = begun (handle_entry entry) (handle_entries entries)

  -- `process`, with a listener, on what `popExpired` gave
  unfoldable pub process : Result Entries → Act Bool
  process popped = ask popped >>= (λ es. handle_entries es.entries >>= (λ _. pure es.has_more))

-- The executor's own state: the timer that is set, with its wait
pub record Executor : Type 0 where
  pub active : Bool
  pub has_listener : Bool
  pub timer : Option Duration

-- `scheduleProcess`
unfoldable pub schedule_process : Duration → Executor → Executor
schedule_process wait x = if x.active then record x { timer = some wait } else x

unfoldable pub shutdown : Executor → Executor
shutdown x = record x { active = false; timer = none }

unfoldable pub set_listener : Executor → Executor
set_listener x = schedule_process no_duration (record x { has_listener = true })

-- The rest of the timer's callback, behind `process`: there is no `catch`.
unfoldable pub reschedule : Result Bool → Executor → Executor
reschedule (ok true) x = schedule_process repoll_direct x
reschedule (ok false) x = schedule_process repoll_delayed x
reschedule (err message) x = x

module _ (json : Json) (tasks : TaskQueue) (connectors : Connectors) where
  -- The timer goes off, at the time when the task queue answers `popped`. Without a listener,
  -- `process` schedules itself and asks nothing.
  unfoldable pub fire : Result Entries → Executor → List Action × Executor
  fire popped x =
      let fired = record x { timer = none } in
      if x.has_listener
      then (
        (process json tasks connectors popped).0,
        reschedule (process json tasks connectors popped).1 fired,
      )
      else ([], reschedule (ok false) (schedule_process repoll_delayed fired))

module _ (tasks : TaskQueue) where
  -- `startJob` and `abortJob`: the `finally` schedules, whatever the task queue answers.
  unfoldable pub start_job : JobKey → Executor → Act Unit × Executor
  start_job key x = (
    upsert tasks 0 (serialize_key key) no_duration (job_queued 0),
    schedule_process no_duration x,
  )

  unfoldable pub abort_job : JobKey → Executor → Act Unit × Executor
  abort_job key x = (
    upsert tasks 0 (serialize_key key) no_duration
        (job_abort (codes "Activity aborted by Common Build.")),
    schedule_process no_duration x,
  )

-- `setInfoUrl`, whose failure is only logged
unfoldable pub set_product_url : Connector → JobKey → Text → Option Text → Act Unit
set_product_url connector key url none = pure tt
set_product_url connector key url (some product) =
    catch
      (tell (info_url_set product (sha_of key.job_ref) url)
        (connector.set_info_url product (sha_of key.job_ref) url))
      (λ e. pure tt)

unfoldable pub url_of : Option Connector → JobKey → Text → Act Unit
url_of none key url = pure tt
url_of (some connector) key url =
    ask (connector.find_product_id key.source.path)
    >>= (λ product. set_product_url connector key url (given product))

unfoldable pub set_info_url : Connectors → JobKey → Text → Act Unit
set_info_url connectors key url = url_of (connectors key.source.id) key url
