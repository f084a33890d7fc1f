-- ===== src/Cynosure/Executor/Retries.antt =====
-- A job whose activity Cynosure never shows is given up.
use common_build.Common.{
  ◌≡◌, ◌≢◌, ltb→lt, refl, ap, ◌∙◌, inl, inr, ℕ, zero, suc, ◌+◌, ◌%◌, ◌≤◌, ◌<◌, Bool, true, false,
  List, [], ◌∷◌, Option, none, some, if◌then◌else◌, ltb, ◌==◌, Bool-cases, arith,
}
use common_build.Common.Text.{Text}
use common_build.Common.Result.{Result, ok, err}
use common_build.Domain.JobRef.{JobKey, sha_of}
use common_build.Tasks.Time.{Duration}
use common_build.Cynosure.States.{JobState, job_starting, failure_count, with_new_failure}
use common_build.Cynosure.Acts.{Action, Activity, Connector, upserted}
use common_build.Cynosure.Executor.{
  WaitRetryConfig, TaskQueue, upsert, handle_error, looked_up, step_starting, by_starting,
  by_started, step, last_abort, last_starting, last_started, error_config, starting_find_activity,
}

-- The state that a step leaves in the task queue
unfoldable pub left_of : List Action → Option JobState
left_of [] = none
left_of (upserted uid wait state ∷ actions) = some state
left_of (_ ∷ actions) = left_of actions

-- Whether a job is out of the task queue after so many steps at most: `answers` are those of
-- Cynosure in the step with so many steps to come.
abbrev follow : Option JobState → (JobState → Bool) → Bool
follow none f = true
follow (some state) f = f state

unfoldable pub is_over : TaskQueue → (ℕ → Connector) → Text → JobKey → ℕ → List JobState → Bool
is_over tasks answers uid key zero states = false
is_over tasks answers uid key (suc steps) states =
    follow (left_of (step tasks (answers steps) uid key states).0)
      (λ state. is_over tasks answers uid key steps (state ∷ states))

module _ (tasks : TaskQueue) (uid : Text) (key : JobKey)
    (accepted : (attempt : ℕ) (wait : Duration) (s : JobState)
      → tasks attempt uid wait s ≡ ok tt) where
  handle_error-left :
      (attempt : ℕ) (s : JobState) (c : WaitRetryConfig)
      → (left_of (handle_error tasks attempt uid key s c).0
          ≡ (if ltb (failure_count s) c.retry_count then some (with_new_failure s) else none))
        × ((handle_error tasks attempt uid key s c).1 ≡ ok tt)
  unfolding handle_error upsert left_of
  handle_error-left attempt s c = elim (Bool-cases (ltb (failure_count s) c.retry_count)) [
    | inr h ↦ rw h (refl, refl)
    | inl h ↦ elim (Bool-cases (((failure_count s + 1) % 5) == 0)) [
      | inl k ↦ rw (h, k, accepted attempt c.wait (with_new_failure s)) (refl, refl)
      | inr k ↦ rw (h, k, accepted attempt c.wait (with_new_failure s)) (refl, refl)
    ]
  ]

  -- Cynosure does not show the activity: it answers that there is none, or with an error.
  abbrev pub IsMissing : Text → Connector → Type 0
  IsMissing product c = (a : Activity) → c.find_activity product (sha_of key.job_ref) ≢ ok (some a)

  abbrev limit_of : Result (Option Activity) → ℕ
  limit_of (ok found) = 100
  limit_of (err m) = 20

  left-step :
      (connector : Connector) (product : Text) (failures : ℕ) (answer : Result (Option Activity))
      → connector.find_activity product (sha_of key.job_ref) ≡ answer
      → ((a : Activity) → answer ≢ ok (some a))
      → left_of (step_starting tasks connector uid key product failures none).0 ≡ (
          if ltb failures (limit_of answer)
          then some (job_starting product (failures + 1))
          else none)
  unfolding step_starting looked_up failure_count with_new_failure
  left-step connector product failures (ok (some a)) h missing = elim (missing a refl) [ ]
  left-step connector product failures (ok none) h missing =
      let (left, fine) =
        handle_error-left 0 (job_starting product failures) starting_find_activity in
      rw (h, fine) left
  left-step connector product failures (err m) h missing =
      let (left, fine) = handle_error-left 1 (job_starting product failures) error_config in
      rw h left

  -- Of the last states, the one that counts is a start that was asked for.
  abbrev pub IsStarting : Text → ℕ → List JobState → Type 0
  IsStarting product failures states =
      (last_started states ≡ none)
      × (last_abort states ≡ none)
      × (last_starting states ≡ some (product, failures))

  step-left :
      (connector : Connector) (product : Text) (failures : ℕ) (states : List JobState)
      → IsStarting product failures states
      → step tasks connector uid key states
        ≡ step_starting tasks connector uid key product failures none
  unfolding step by_started by_starting
  step-left connector product failures states (started, aborted, starting) =
      rw (started, aborted, starting) refl

  limit-le :
      (failures : ℕ) (answer : Result (Option Activity))
      → ltb failures (limit_of answer) ≡ true
      → failures < 100
  limit-le failures (ok found) h = ltb→lt failures 100 h
  limit-le failures (err m) h = let few = ltb→lt failures 20 h in omega arith

  next-IsStarting :
      (product : Text) (failures : ℕ) (states : List JobState)
      → IsStarting product failures states
      → IsStarting product (failures + 1) (job_starting product (failures + 1) ∷ states)
  unfolding last_started last_abort last_starting
  next-IsStarting product failures states (started, aborted, starting) = (started, aborted, refl)

  is_over-lem :
      (answers : ℕ → Connector) (product : Text)
      → ((n : ℕ) → IsMissing product (answers n))
      → (steps failures : ℕ) (states : List JobState) → IsStarting product failures states
      → 1 ≤ steps
      → 101 ≤ failures + steps
      → is_over tasks answers uid key steps states ≡ true
  unfolding is_over
  is_over-lem answers product missing zero failures states starting some_steps enough =
      let no : ⊥ = omega arith in elim no [ ]
  is_over-lem answers product missing (suc steps) failures states starting some_steps enough =
      let connector = answers steps in
      let answer = connector.find_activity product (sha_of key.job_ref) in
      let left =
        ap (λ a. left_of a.0) (step-left connector product failures states starting)
        ∙ left-step connector product failures answer refl (missing steps) in
      elim (Bool-cases (ltb failures (limit_of answer))) [
        | inr over ↦ rw (left, over) refl
        | inl again ↦
            let few = limit-le failures answer again in
            rw (left, again)
              (is_over-lem answers product missing steps (failures + 1)
                (job_starting product (failures + 1) ∷ states)
                (next-IsStarting product failures states starting) (omega arith) (omega arith))
      ]

-- A job that Cynosure was told to start, and whose activity it never shows, whatever it answers
-- else in each of the steps, is out of the task queue after 101 steps at most, less those that have
-- failed already: its retries end. The job was not aborted, and the task queue takes all `upsert`s.
pub retries_end :
    (tasks : TaskQueue) (uid : Text) (key : JobKey) (answers : ℕ → Connector) (product : Text)
    (failures steps : ℕ) (states : List JobState)
    → ((attempt : ℕ) (wait : Duration) (s : JobState) → tasks attempt uid wait s ≡ ok tt)
    → ((n : ℕ) (a : Activity)
        → (answers n).find_activity product (sha_of key.job_ref) ≢ ok (some a))
    → last_started states ≡ none
    → last_abort states ≡ none
    → last_starting states ≡ some (product, failures)
    → 1 ≤ steps
    → 101 ≤ failures + steps
    → is_over tasks answers uid key steps states ≡ true
retries_end tasks uid key answers product failures steps states accepted missing started aborted
      starting some_steps enough =
    is_over-lem tasks uid key accepted answers product missing steps failures states
      (started, aborted, starting) some_steps enough
