-- ===== src/Cynosure/Executor/Continues.antt =====
-- A step of a job that was not aborted neither loses the job nor doubles it.
use common_build.Common.{
  ◌≡◌, ◌⊎◌, refl, inl, inr, ℕ, Bool, true, false, List, [], ◌∷◌, Option, none, some, Option-cases,
}
use common_build.Common.Text.{Text}
use common_build.Common.Result.{ok}
use common_build.Domain.JobRef.{JobKey, sha_of}
use common_build.Tasks.Time.{Duration}
use common_build.Cynosure.States.{JobState, job_starting, job_started, job_queued, job_abort}
use common_build.Cynosure.Acts.{
  Activity, ActivityState, ActivityVerdict, Connector, activity_started, on_job_started,
  state_unknown, state_finished, state_allocated, state_ongoing, state_queued, verdict_passed,
  verdict_failed, verdict_errored, verdict_skipped, verdict_aborted, verdict_other,
}
use common_build.Cynosure.Executor.{
  WaitRetryConfig, TaskQueue, upsert, handle_error, finish, polled, step_started, looked_up,
  step_starting, start_answered, found_product, step_queued, by_queued, by_starting, by_started,
  step, last_abort, last_queued, last_starting, last_started, given,
}
use common_build.Cynosure.Executor.Decisions.{
  decides, decisions, IsFor, IsOnce, IsOpen, catch-IsOnce, behind, answered, upsert-IsOpen,
  handle_error-IsOpen,
}

abbrev IsSome : {A : Type 0} → Option A → Type 0
IsSome none = ⊥
IsSome (some a) = Unit

last_present :
    (first : JobState) (states : List JobState)
    → last_abort (first ∷ states) ≡ none
    → IsSome (last_started (first ∷ states))
      ⊎ IsSome (last_starting (first ∷ states))
      ⊎ IsSome (last_queued (first ∷ states))
unfolding last_started last_starting last_queued last_abort
last_present (job_started product activity failures) states h = inl tt
last_present (job_starting product failures) states h = inr (inl tt)
last_present (job_queued failures) states h = inr (inr tt)
last_present (job_abort reason) states h = cc

-- Of the answers to the second `upsert` of a step, none is a refusal.
abbrev pub IsAccepting : TaskQueue → Text → Type 0
IsAccepting tasks uid = (wait : Duration) (s : JobState) → tasks 1 uid wait s ≡ ok tt

module _ (tasks : TaskQueue) (uid : Text) (accepting : IsAccepting tasks uid) where
  pub handler-IsOnce :
      (key : JobKey) (s : JobState) (c : WaitRetryConfig)
      → IsOnce uid key (handle_error tasks 1 uid key s c)
  handler-IsOnce key s c =
      elim (handle_error-IsOpen uid key tasks ⊥ 1 (λ wait s m h. let no = accepting wait s in cc) s
        c) [ inl h ↦ h | inr h ↦ elim h.0 [ ] ]

  module _ (connector : Connector) (key : JobKey) where
    finish-IsOnce : (v : ActivityVerdict) → IsOnce uid key (finish tasks key v)
    unfolding finish decisions decides IsFor
    finish-IsOnce verdict_passed = ((refl, (refl, tt)), refl)
    finish-IsOnce verdict_aborted = ((refl, (refl, tt)), refl)
    finish-IsOnce verdict_failed = ((refl, (refl, tt)), refl)
    finish-IsOnce verdict_errored = ((refl, (refl, tt)), refl)
    finish-IsOnce verdict_skipped = ((refl, (refl, tt)), refl)
    finish-IsOnce (verdict_other t) = ((refl, (refl, tt)), refl)

    opened : (wait : Duration) (s : JobState) → IsOpen Unit uid key (upsert tasks 0 uid wait s)
    opened = upsert-IsOpen uid key tasks Unit 0 (λ _ _ _ _. tt)

    pub retried :
        (s : JobState) (c : WaitRetryConfig)
        → IsOpen Unit uid key (handle_error tasks 0 uid key s c)
    retried = handle_error-IsOpen uid key tasks Unit 0 (λ _ _ _ _. tt)

    by_state :
        (st : ActivityState) (v : ActivityVerdict) (product activity : Text) (failures : ℕ)
        (id : Text)
        → IsOpen Unit uid key (
            polled tasks connector uid key product activity failures
              (some (record { activity_id = id; state = st; verdict = v })))
    unfolding polled
    by_state state_finished v product activity failures id = inl (finish-IsOnce v)
    by_state state_unknown v product activity failures id = opened _ _
    by_state state_allocated v product activity failures id = opened _ _
    by_state state_ongoing v product activity failures id = opened _ _
    by_state state_queued v product activity failures id = opened _ _

    polled-IsOpen :
        (product activity : Text) (failures : ℕ) (found : Option Activity)
        → IsOpen Unit uid key (polled tasks connector uid key product activity failures found)
    unfolding polled
    polled-IsOpen product activity failures none = retried _ _
    polled-IsOpen product activity failures (some a) =
        by_state a.state a.verdict product activity failures a.activity_id

    step_started-IsOnce :
        (product activity : Text) (failures : ℕ)
        → IsOnce uid key (step_started tasks connector uid key product activity failures none)
    unfolding step_started decisions
    step_started-IsOnce product activity failures =
        catch-IsOnce uid key _ _
          (answered uid key [] (connector.find_activity product (sha_of key.job_ref)) _ (refl, tt)
            (polled-IsOpen product activity failures))
          (λ m. handler-IsOnce key _ _)

    looked_up-IsOpen :
        (product : Text) (failures : ℕ) (found : Option Activity)
        → IsOpen Unit uid key (looked_up tasks connector uid key product failures none found)
    unfolding looked_up decisions decides IsFor
    looked_up-IsOpen product failures none = retried _ _
    looked_up-IsOpen product failures (some a) =
        behind uid key Unit (on_job_started key ∷ []) _ (refl, (refl, tt)) (opened _ _)

    step_starting-IsOnce :
        (product : Text) (failures : ℕ)
        → IsOnce uid key (step_starting tasks connector uid key product failures none)
    unfolding step_starting decisions
    step_starting-IsOnce product failures =
        catch-IsOnce uid key _ _
          (answered uid key [] (connector.find_activity product (sha_of key.job_ref)) _ (refl, tt)
            (looked_up-IsOpen product failures))
          (λ m. handler-IsOnce key _ _)

    start_answered-IsOpen :
        (product : Text) (failures : ℕ) (started : Bool)
        → IsOpen Unit uid key (start_answered tasks connector uid key product failures started)
    unfolding start_answered
    start_answered-IsOpen product failures true = opened _ _
    start_answered-IsOpen product failures false = retried _ _

    found_product-IsOpen :
        (failures : ℕ) (product : Option Text)
        → IsOpen Unit uid key (found_product tasks connector uid key failures none product)
    unfolding found_product decisions decides IsFor
    found_product-IsOpen failures none = retried _ _
    found_product-IsOpen failures (some product) =
        answered uid key (activity_started product (sha_of key.job_ref) ∷ [])
          (connector.start_activity product (sha_of key.job_ref)) _ (refl, (refl, tt))
          (start_answered-IsOpen product failures)

    step_queued-IsOnce :
        (failures : ℕ) → IsOnce uid key (step_queued tasks connector uid key failures none)
    unfolding step_queued decisions
    step_queued-IsOnce failures =
        catch-IsOnce uid key _ _
          (answered uid key [] (connector.find_product_id key.source.path) _ (refl, tt)
            (λ product. found_product-IsOpen failures (given product)))
          (λ m. handler-IsOnce key _ _)

    by_starting-IsOnce :
        (o : Option (Text × ℕ)) (states : List JobState)
        → IsSome o ⊎ IsSome (last_queued states)
        → IsOnce uid key (by_starting tasks connector uid key o states none)
    unfolding by_starting by_queued
    by_starting-IsOnce (some (product, failures)) states h = step_starting-IsOnce product failures
    by_starting-IsOnce none states (inl h) = elim h [ ]
    by_starting-IsOnce none states (inr h) = elim (Option-cases (last_queued states)) [
      | inl e ↦ elim (rw e at h) [ ]
      | inr (failures, e) ↦ rw e (step_queued-IsOnce failures)
    ]

    by_started-IsOnce :
        (o : Option (Text × Text × ℕ)) (states : List JobState)
        → IsSome o ⊎ IsSome (last_starting states) ⊎ IsSome (last_queued states)
        → IsOnce uid key (by_started tasks connector uid key o states none)
    unfolding by_started
    by_started-IsOnce (some (product, activity, failures)) states h =
        step_started-IsOnce product activity failures
    by_started-IsOnce none states (inl h) = elim h [ ]
    by_started-IsOnce none states (inr h) = by_starting-IsOnce (last_starting states) states h

    -- A step of a job with a state, none of whose states is an abort, either keeps the job in the
    -- task queue, by exactly one accepted `upsert`, of the job's own task, or tells the listener the
    -- end of this job, exactly once, and is not rejected, and none of its calls is of another task,
    -- key or sha: whatever Cynosure answers, errors included, and whatever the task queue answers to
    -- the first `upsert`, if the one that would follow its rejection is accepted.
    pub step-IsOnce :
        (first : JobState) (states : List JobState)
        → last_abort (first ∷ states) ≡ none
        → IsOnce uid key (step tasks connector uid key (first ∷ states))
    unfolding step
    step-IsOnce first states h = rw h (
        by_started-IsOnce (last_started (first ∷ states)) (first ∷ states)
          (last_present first states h))
