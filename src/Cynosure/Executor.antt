-- ===== src/Cynosure/Executor.antt =====
-- backend/src/cynosure/job-executor/cynosure-job-executor.ts: one step of each job whose time has
-- come, by the last of its states. Cynosure and the task queue's answers to `upsert` are parameters.
pub mod Aborts
pub mod Aborting
pub mod Decisions
pub mod Continues
pub mod Retries
use common_build.Common.{
  ℕ, zero, suc, ◌+◌, ◌%◌, Bool, true, false, List, [], ◌∷◌, ◌++◌, Option, none, some, if◌then◌else◌,
  ltb, ◌==◌,
}
use common_build.Common.Text.{Text, codes}
use common_build.Common.Decimal.{print}
use common_build.Common.Result.{Result, ok, err}
use common_build.Domain.JobRef.{JobKey, deserialize_key, sha_of, serialize_key}
use common_build.Tasks.Time.{Duration, from_seconds, no_duration}
use common_build.Tasks.Queue.{Entry, Entries}
use common_build.Cynosure.States.{
  Json, JobState, job_starting, job_started, job_queued, job_abort, failure_count, state_name,
  with_new_failure,
}
use common_build.Cynosure.States
use common_build.Common.Promises.{pure, fail, emit, ask, tell, both, done, catch, ◌>>=◌}
use common_build.Cynosure.Acts.{
  Action, Activity, ActivityState, ActivityVerdict, Connector, Act, state_finished, verdict_passed,
  verdict_failed, verdict_errored, verdict_skipped, verdict_aborted, verdict_other, tag_add,
  level_warning, activity_started, tag_changed, activity_aborted, info_url_set, on_job_started,
  on_job_failure, on_job_success, on_job_aborted, on_job_error, on_job_log, upserted,
}

pub record WaitRetryConfig : Type 0 where
  pub retry_count : ℕ
  pub wait : Duration

abbrev config : ℕ → ℕ → WaitRetryConfig
config count seconds = record { retry_count = count; wait = from_seconds seconds }

-- `Constants`
abbrev pub error_config : WaitRetryConfig
error_config = config 20 30

abbrev pub queued_find_product : WaitRetryConfig
queued_find_product = config 3 3

abbrev pub queued_start_activity : WaitRetryConfig
queued_start_activity = config 30 30

abbrev pub starting_find_activity : WaitRetryConfig
starting_find_activity = config 100 10

abbrev pub started_poll_interval : Duration
started_poll_interval = from_seconds 10

abbrev pub started_find_activity : WaitRetryConfig
started_find_activity = config 3 10

abbrev pub repoll_delayed : Duration
repoll_delayed = from_seconds 10

abbrev pub repoll_direct : Duration
repoll_direct = no_duration

-- The last state of each class: `findState` on the reversed states
abbrev pub Latest : Type 0
Latest = List JobState

unfoldable pub last_queued : List JobState → Option ℕ
last_queued [] = none
last_queued (job_queued failures ∷ states) = some failures
last_queued (_ ∷ states) = last_queued states

unfoldable pub last_starting : List JobState → Option (Text × ℕ)
last_starting [] = none
last_starting (job_starting product failures ∷ states) = some (product, failures)
last_starting (_ ∷ states) = last_starting states

unfoldable pub last_started : List JobState → Option (Text × Text × ℕ)
last_started [] = none
last_started (job_started product activity failures ∷ states) = some (product, activity, failures)
last_started (_ ∷ states) = last_started states

unfoldable pub last_abort : List JobState → Option Text
last_abort [] = none
last_abort (job_abort reason ∷ states) = some reason
last_abort (_ ∷ states) = last_abort states

-- `states.reverse()`
abbrev pub reverse_onto : List JobState → List JobState → List JobState
reverse_onto [] later = later
reverse_onto (s ∷ states) later = reverse_onto states (s ∷ later)

abbrev cons_state : Result JobState → Result (List JobState) → Result (List JobState)
cons_state (err message) states = err message
cons_state (ok state) (err message) = err message
cons_state (ok state) (ok states) = ok (state ∷ states)

-- `entry.data.map(s => JobState.deserialize(s))`, which may throw
unfoldable pub deserialize_states : Json → List Text → Result (List JobState)
deserialize_states json [] = ok []
deserialize_states json (text ∷ texts) =
    cons_state (States.deserialize json text) (deserialize_states json texts)

-- A value that is there, and true: an empty text counts as none.
unfoldable pub given : Option Text → Option Text
given none = none
given (some []) = none
given (some (c ∷ t)) = some (c ∷ t)

abbrev pub log_message : JobState → ℕ → Text
log_message state count =
    codes "Waiting for Cynosure in state `"
    ++ (state_name state
        ++ (codes "` Attempts: "
            ++ (print (failure_count state + 1) ++ (codes "/" ++ (print count ++ codes ".")))))

-- Whether the task queue takes an `upsert`: the first of a step, or the second, after a failure
abbrev pub TaskQueue : Type 0
TaskQueue = ℕ → Text → Duration → JobState → Result {0} Unit

abbrev taken : Action → Result {0} Unit → Act Unit
taken action (ok tt) = emit action
taken action (err message) = fail message

module _ (tasks : TaskQueue) where
  unfoldable pub upsert : ℕ → Text → Duration → JobState → Act Unit
  upsert attempt uid wait state = taken (upserted uid wait state) (tasks attempt uid wait state)

  -- `handleError`
  unfoldable pub handle_error : ℕ → Text → JobKey → JobState → WaitRetryConfig → Act Unit
  handle_error attempt uid key state config =
      if ltb (failure_count state) config.retry_count
      then ((if ((failure_count state + 1) % 5) == 0
            then emit (on_job_log key (log_message state config.retry_count) level_warning)
            else pure tt)
          >>= (λ _. upsert attempt uid config.wait (with_new_failure state)))
      else emit (on_job_error key)

  -- The verdict of a finished activity
  unfoldable pub finish : JobKey → ActivityVerdict → Act Unit
  finish key verdict_passed = emit (on_job_success key)
  finish key verdict_aborted = emit (on_job_aborted key)
  finish key verdict_failed = emit (on_job_failure key)
  finish key verdict_errored = emit (on_job_error key)
  finish key verdict_skipped = emit (on_job_aborted key)
  finish key (verdict_other text) = emit (on_job_error key)

  module _ (connector : Connector) (uid : Text) (key : JobKey) where
    -- A job that was started is polled.
    unfoldable pub polled : Text → Text → ℕ → Option Activity → Act Unit
    polled product activity failures none =
        handle_error 0 uid key (job_started product activity failures) started_find_activity
    polled product activity failures (some found) = elim found.state [
      | state_finished ↦ finish key found.verdict
      | _ ↦ upsert 0 uid started_poll_interval (job_started product activity 0)
    ]

    unfoldable pub abort_started : Text → Text → Text → Act Unit
    abort_started product activity reason =
        both
          (done (
            tell (tag_changed product (sha_of key.job_ref) (codes "aborted") tag_add)
              (connector.change_tag product (sha_of key.job_ref) (codes "aborted") tag_add)))
          (done (
            tell (activity_aborted activity (sha_of key.job_ref) reason)
              (connector.abort_activity activity (sha_of key.job_ref) reason)))

    unfoldable pub step_started : Text → Text → ℕ → Option Text → Act Unit
    step_started product activity failures (some reason) = abort_started product activity reason
    step_started product activity failures none =
        catch
          (ask (connector.find_activity product (sha_of key.job_ref))
            >>= (λ found. polled product activity failures found))
          (λ e. handle_error 1 uid key (job_started product activity failures) error_config)

    -- A job that Cynosure was told to start
    unfoldable pub looked_up : Text → ℕ → Option Text → Option Activity → Act Unit
    looked_up product failures abort none =
        handle_error 0 uid key (job_starting product failures) starting_find_activity
    looked_up product failures (some reason) (some found) =
        abort_started product found.activity_id reason
    looked_up product failures none (some found) =
        emit (on_job_started key)
        >>= (λ _. upsert 0 uid started_poll_interval (job_started product found.activity_id 0))

    unfoldable pub step_starting : Text → ℕ → Option Text → Act Unit
    step_starting product failures abort =
        catch
          (ask (connector.find_activity product (sha_of key.job_ref))
            >>= (λ found. looked_up product failures abort found))
          (λ e. handle_error 1 uid key (job_starting product failures) error_config)

    -- A job that waits to be started
    unfoldable pub start_answered : Text → ℕ → Bool → Act Unit
    start_answered product failures true =
        upsert 0 uid starting_find_activity.wait (job_starting product 0)
    start_answered product failures false =
        handle_error 0 uid key (job_queued failures) queued_start_activity

    unfoldable pub found_product : ℕ → Option Text → Option Text → Act Unit
    found_product failures abort none =
        handle_error 0 uid key (job_queued failures) queued_find_product
    found_product failures (some reason) (some product) = done (
        tell (tag_changed product (sha_of key.job_ref) (codes "aborted") tag_add)
          (connector.change_tag product (sha_of key.job_ref) (codes "aborted") tag_add))
    found_product failures none (some product) =
        tell (activity_started product (sha_of key.job_ref))
          (connector.start_activity product (sha_of key.job_ref))
        >>= (λ started. start_answered product failures started)

    unfoldable pub step_queued : ℕ → Option Text → Act Unit
    step_queued failures abort =
        catch
          (ask (connector.find_product_id key.source.path)
            >>= (λ product. found_product failures abort (given product)))
          (λ e. handle_error 1 uid key (job_queued failures) error_config)

    -- The branches by the last states: started, else starting, else queued, else nothing
    unfoldable pub by_queued : Option ℕ → Option Text → Act Unit
    by_queued none abort = pure tt
    by_queued (some failures) abort = step_queued failures abort

    unfoldable pub by_starting : Option (Text × ℕ) → List JobState → Option Text → Act Unit
    by_starting (some (product, failures)) states abort = step_starting product failures abort
    by_starting none states abort = by_queued (last_queued states) abort

    unfoldable pub by_started : Option (Text × Text × ℕ) → List JobState → Option Text → Act Unit
    by_started (some (product, activity, failures)) states abort =
        step_started product activity failures abort
    by_started none states abort = by_starting (last_starting states) states abort

    -- On the states, the last first
    unfoldable pub step : List JobState → Act Unit
    step states = by_started (last_started states) states (last_abort states)
