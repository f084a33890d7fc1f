-- ===== src/Cynosure/Executor/Aborting.antt =====
-- What a step of a job that has an abort among its states calls.
use mathlib.Core.List.{append-nil}
use common_build.Common.{
  ◌≡◌, ◌≢◌, ◌⊎◌, refl, sym, ◌∙◌, inl, inr, ℕ, List, [], ◌∷◌, ◌++◌, Option, none, some,
}
use common_build.Common.Text.{Text, codes}
use common_build.Common.Result.{Result, ok, err, Result-cases}
use common_build.Common.Promises.{catch, done, tell}
use common_build.Domain.JobRef.{JobKey, sha_of}
use common_build.Cynosure.States.{JobState, job_starting, job_queued}
use common_build.Cynosure.Acts.{
  Action, Act, Activity, Connector, tag_changed, activity_aborted, tag_add,
}
use common_build.Cynosure.Executor.{
  TaskQueue, abort_started, step_started, looked_up, step_starting, found_product, step_queued,
  by_queued, by_starting, by_started, step, last_abort, last_queued, last_starting, last_started,
  given, error_config, handle_error, WaitRetryConfig, starting_find_activity, queued_find_product,
}
use common_build.Cynosure.Executor.Continues.{IsAccepting, handler-IsOnce, retried}
use common_build.Cynosure.Executor.Decisions.{IsDecided, IsOnce, catch-IsOnce}

abbrev pub tagged : JobKey → Text → Action
tagged key product = tag_changed product (sha_of key.job_ref) (codes "aborted") tag_add

abbrev pub both_calls : JobKey → Text → Text → Text → List Action
both_calls key reason product activity =
    tagged key product ∷ activity_aborted activity (sha_of key.job_ref) reason ∷ []

abbrev pub found_calls : JobKey → Text → Text → Result (Option Activity) → List Action
found_calls key reason product (err m) = []
found_calls key reason product (ok none) = []
found_calls key reason product (ok (some found)) = both_calls key reason product found.activity_id

abbrev pub product_calls : JobKey → Result (Option Text) → List Action
product_calls key (err m) = []
product_calls key (ok none) = []
product_calls key (ok (some [])) = []
product_calls key (ok (some (c ∷ product))) = tagged key (c ∷ product) ∷ []

-- The calls that abort a job: its product is tagged, and its activity, if it is known or found,
-- aborted. The arguments are the last start that was seen and the last that was asked for.
abbrev pub abort_calls :
    Connector → JobKey → Text → Option (Text × Text × ℕ) → Option (Text × ℕ) → List Action
abort_calls connector key reason (some (product, activity, failures)) starting =
    both_calls key reason product activity
abort_calls connector key reason none (some (product, failures)) =
    found_calls key reason product (connector.find_activity product (sha_of key.job_ref))
abort_calls connector key reason none none =
    product_calls key (connector.find_product_id key.source.path)

-- These calls come first. Behind them nothing follows, if there are some, or the job is kept or its
-- end told, once, and no call is about another job.
pub record IsAnswered (uid : Text) (key : JobKey) (calls actions : List Action) : Type 0 where
  pub rest : List Action
  pub parts : actions ≡ calls ++ rest
  pub settled : ((calls ≢ []) × (rest ≡ [])) ⊎ IsDecided uid key rest

module _ (tasks : TaskQueue) (uid : Text) (accepting : IsAccepting tasks uid)
    (connector : Connector) (key : JobKey) where
  recovered :
      (calls : List Action) (a : Act Unit) (f : Text → Act Unit)
      → a.0 ≡ calls
      → calls ≢ []
      → ((m : Text) → IsOnce uid key (f m))
      → IsAnswered uid key calls (catch a f).0
  recovered calls a f h some_calls handled = elim (Result-cases a.1) [
    | inl (m, e) ↦ rw e (record { rest = (f m).0; parts = rw h refl; settled = inr (handled m).0 })
    | inr (_, e) ↦
        rw e (record {
          rest = [];
          parts = h ∙ sym (append-nil calls);
          settled = inl (some_calls, refl);
        })
  ]

  decided : (actions : List Action) → IsDecided uid key actions → IsAnswered uid key [] actions
  decided actions h = record { rest = actions; parts = refl; settled = inr h }

  told :
      {A : Type 0} (action : Action) (answer : Result A)
      → (done (tell action answer)).0 ≡ action ∷ []
  told action (ok a) = refl
  told action (err m) = refl

  abort_started-calls :
      (product activity reason : Text)
      → (abort_started tasks connector uid key product activity reason).0
        ≡ both_calls key reason product activity
  unfolding abort_started
  abort_started-calls product activity reason =
      rw
        (
          told (tagged key product)
              (connector.change_tag product (sha_of key.job_ref) (codes "aborted") tag_add),
          told (activity_aborted activity (sha_of key.job_ref) reason)
              (connector.abort_activity activity (sha_of key.job_ref) reason),
        )
        refl

  handled : (s : JobState) (m : Text) → IsOnce uid key (handle_error tasks 1 uid key s error_config)
  handled s m = handler-IsOnce tasks uid accepting key s error_config

  retried-IsAnswered :
      (s : JobState) (c : WaitRetryConfig)
      → IsAnswered uid key []
          (catch
            (handle_error tasks 0 uid key s c)
            (λ e. handle_error tasks 1 uid key s error_config)).0
  retried-IsAnswered s c =
      decided _
        (catch-IsOnce uid key (handle_error tasks 0 uid key s c)
          (λ e. handle_error tasks 1 uid key s error_config)
          (retried tasks uid accepting connector key s c) (handled s)).0

  starting-IsAnswered :
      (product : Text) (failures : ℕ) (reason : Text) (answer : Result (Option Activity))
      → connector.find_activity product (sha_of key.job_ref) ≡ answer
      → IsAnswered uid key
          (found_calls key reason product answer)
          (step_starting tasks connector uid key product failures (some reason)).0
  unfolding step_starting looked_up
  starting-IsAnswered product failures reason (err m) h = rw h (decided _ (handled _ m).0)
  starting-IsAnswered product failures reason (ok none) h =
      rw h (retried-IsAnswered (job_starting product failures) starting_find_activity)
  starting-IsAnswered product failures reason (ok (some found)) h = rw h (
      recovered (both_calls key reason product found.activity_id)
        (abort_started tasks connector uid key product found.activity_id reason)
        (λ e. handle_error tasks 1 uid key (job_starting product failures) error_config)
        (abort_started-calls product found.activity_id reason) (λ e. cc)
        (handled (job_starting product failures)))

  queued-IsAnswered :
      (failures : ℕ) (reason : Text) (answer : Result (Option Text))
      → connector.find_product_id key.source.path ≡ answer
      → IsAnswered uid key
          (product_calls key answer)
          (step_queued tasks connector uid key failures (some reason)).0
  unfolding step_queued found_product given
  queued-IsAnswered failures reason (err m) h = rw h (decided _ (handled _ m).0)
  queued-IsAnswered failures reason (ok none) h =
      rw h (retried-IsAnswered (job_queued failures) queued_find_product)
  queued-IsAnswered failures reason (ok (some [])) h =
      rw h (retried-IsAnswered (job_queued failures) queued_find_product)
  queued-IsAnswered failures reason (ok (some (c ∷ product))) h = rw h (
      recovered (tagged key (c ∷ product) ∷ [])
        (done (
          tell (tagged key (c ∷ product))
            (connector.change_tag (c ∷ product) (sha_of key.job_ref) (codes "aborted") tag_add)))
        (λ e. handle_error tasks 1 uid key (job_queued failures) error_config)
        (told (tagged key (c ∷ product)) _) (λ e. cc) (handled (job_queued failures)))

  started-IsAnswered :
      (product activity reason : Text) (failures : ℕ)
      → IsAnswered uid key
          (both_calls key reason product activity)
          (step_started tasks connector uid key product activity failures (some reason)).0
  unfolding step_started
  started-IsAnswered product activity reason failures = record {
    rest = [];
    parts =
        abort_started-calls product activity reason
        ∙ sym (append-nil (both_calls key reason product activity));
    settled = inl ((λ e. cc), refl);
  }

  by_started-IsAnswered :
      (started : Option (Text × Text × ℕ)) (starting : Option (Text × ℕ)) (states : List JobState)
      (reason : Text) (failures : ℕ)
      → last_starting states ≡ starting
      → last_queued states ≡ some failures
      → IsAnswered uid key
          (abort_calls connector key reason started starting)
          (by_started tasks connector uid key started states (some reason)).0
  unfolding by_started by_starting by_queued
  by_started-IsAnswered (some (product, activity, n)) starting states reason failures h k =
      started-IsAnswered product activity reason n
  by_started-IsAnswered none (some (product, n)) states reason failures h k =
      rw h (starting-IsAnswered product n reason _ refl)
  by_started-IsAnswered none none states reason failures h k =
      rw (h, k) (queued-IsAnswered failures reason _ refl)

  pub step-IsAnswered :
      (states : List JobState) (reason : Text) (failures : ℕ)
      → last_abort states ≡ some reason
      → last_queued states ≡ some failures
      → IsAnswered uid key
          (abort_calls connector key reason (last_started states) (last_starting states))
          (step tasks connector uid key states).0
  unfolding step
  step-IsAnswered states reason failures h k = rw h (
      by_started-IsAnswered (last_started states) (last_starting states) states reason failures refl
        k)
