-- ===== src/Cynosure/Executor/Aborts.antt =====
-- A step of a job that has an abort among its states
use common_build.Common.{
  ◌≡◌, refl, inl, inr, ℕ, ◌+◌, ◌%◌, Bool, true, false, List, [], ◌∷◌, All, All-append, Option, none,
  some, ltb, ◌==◌, Bool-cases,
}
use common_build.Common.Text.{Text, codes}
use common_build.Common.Result.{Result, ok, err}
use common_build.Domain.JobRef.{JobKey, sha_of}
use common_build.Cynosure.States.{JobState, failure_count, with_new_failure}
use common_build.Common.Promises.Laws.{All-chain, All-recover}
use common_build.Common.Promises.{pure}
use common_build.Cynosure.Acts.{
  Action, Activity, Connector, activity_started, tag_changed, activity_aborted, info_url_set,
  on_job_started, on_job_failure, on_job_success, on_job_aborted, on_job_error, on_job_log,
  upserted, tag_add,
}
use common_build.Cynosure.Executor.{
  WaitRetryConfig, TaskQueue, upsert, taken, handle_error, abort_started, step_started, looked_up,
  step_starting, found_product, step_queued, by_queued, by_starting, by_started, step, last_abort,
  last_queued, last_starting, last_started, given,
}

-- The calls that start an activity, or tell the listener that a job was started or came to an end
-- of its own
unfoldable pub advances : Action → Bool
advances (activity_started product sha) = true
advances (on_job_started key) = true
advances (on_job_success key) = true
advances (on_job_failure key) = true
advances (on_job_aborted key) = false
advances (on_job_error key) = false
advances (on_job_log key message level) = false
advances (tag_changed product sha tag op) = false
advances (activity_aborted activity sha reason) = false
advances (info_url_set product sha url) = false
advances (upserted uid wait state) = false

abbrev pub IsStill : List Action → Type 0
IsStill actions = All (λ a. advances a ≡ false) actions

taken-IsStill :
    (action : Action) (r : Result {0} Unit) → advances action ≡ false → IsStill (taken action r).0
taken-IsStill action (ok tt) h = (h, tt)
taken-IsStill action (err m) h = tt

module _ (tasks : TaskQueue) (connector : Connector) (uid : Text) (key : JobKey) where
  handle_error-IsStill :
      (attempt : ℕ) (s : JobState) (c : WaitRetryConfig)
      → IsStill (handle_error tasks attempt uid key s c).0
  unfolding handle_error upsert advances
  handle_error-IsStill attempt s c = elim (Bool-cases (ltb (failure_count s) c.retry_count)) [
    | inr h ↦ rw h (refl, tt)
    | inl h ↦ elim (Bool-cases (((failure_count s + 1) % 5) == 0)) [
      | inl k ↦
          rw (h, k) (refl, taken-IsStill _ (tasks attempt uid c.wait (with_new_failure s)) refl)
      | inr k ↦ rw (h, k) (taken-IsStill _ (tasks attempt uid c.wait (with_new_failure s)) refl)
    ]
  ]

  abort_started-IsStill :
      (product activity reason : Text)
      → IsStill (abort_started tasks connector uid key product activity reason).0
  unfolding abort_started advances
  abort_started-IsStill product activity reason =
      All-append _ _ _
        (All-chain _ (tag_changed product (sha_of key.job_ref) (codes "aborted") tag_add ∷ [])
          (connector.change_tag product (sha_of key.job_ref) (codes "aborted") tag_add)
          (λ _. pure tt) (refl, tt) (λ _. tt))
        (All-chain _ (activity_aborted activity (sha_of key.job_ref) reason ∷ [])
          (connector.abort_activity activity (sha_of key.job_ref) reason) (λ _. pure tt) (refl, tt)
          (λ _. tt))

  looked_up-IsStill :
      (product : Text) (failures : ℕ) (reason : Text) (found : Option Activity)
      → IsStill (looked_up tasks connector uid key product failures (some reason) found).0
  unfolding looked_up
  looked_up-IsStill product failures reason none = handle_error-IsStill 0 _ _
  looked_up-IsStill product failures reason (some a) =
      abort_started-IsStill product a.activity_id reason

  found_product-IsStill :
      (failures : ℕ) (reason : Text) (product : Option Text)
      → IsStill (found_product tasks connector uid key failures (some reason) product).0
  unfolding found_product advances
  found_product-IsStill failures reason none = handle_error-IsStill 0 _ _
  found_product-IsStill failures reason (some product) =
      All-chain _ (tag_changed product (sha_of key.job_ref) (codes "aborted") tag_add ∷ [])
        (connector.change_tag product (sha_of key.job_ref) (codes "aborted") tag_add) (λ _. pure tt)
        (refl, tt) (λ _. tt)

  by_queued-IsStill :
      (o : Option ℕ) (reason : Text) → IsStill (by_queued tasks connector uid key o (some reason)).0
  unfolding by_queued step_queued
  by_queued-IsStill none reason = tt
  by_queued-IsStill (some failures) reason =
      All-recover _ _ _ _
        (All-chain _ [] (connector.find_product_id key.source.path) _ tt
          (λ product. found_product-IsStill failures reason (given product)))
        (λ m. handle_error-IsStill 1 _ _)

  by_starting-IsStill :
      (o : Option (Text × ℕ)) (states : List JobState) (reason : Text)
      → IsStill (by_starting tasks connector uid key o states (some reason)).0
  unfolding by_starting step_starting
  by_starting-IsStill none states reason = by_queued-IsStill (last_queued states) reason
  by_starting-IsStill (some (product, failures)) states reason =
      All-recover _ _ _ _
        (All-chain _ [] (connector.find_activity product (sha_of key.job_ref)) _ tt
          (looked_up-IsStill product failures reason))
        (λ m. handle_error-IsStill 1 _ _)

  by_started-IsStill :
      (o : Option (Text × Text × ℕ)) (states : List JobState) (reason : Text)
      → IsStill (by_started tasks connector uid key o states (some reason)).0
  unfolding by_started step_started
  by_started-IsStill none states reason = by_starting-IsStill (last_starting states) states reason
  by_started-IsStill (some (product, activity, failures)) states reason =
      abort_started-IsStill product activity reason

  pub step-IsStill :
      (states : List JobState) (reason : Text)
      → last_abort states ≡ some reason
      → IsStill (step tasks connector uid key states).0
  unfolding step
  step-IsStill states reason h = rw h (by_started-IsStill (last_started states) states reason)
