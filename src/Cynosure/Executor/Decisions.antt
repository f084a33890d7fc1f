-- ===== src/Cynosure/Executor/Decisions.antt =====
-- What becomes of a job in a step: the calls that decide it, their number, and whose they are.
use common_build.Common.{
  ◌≡◌, ◌⊎◌, refl, ◌∙◌, inl, inr, ℕ, ◌+◌, ◌%◌, Bool, true, false, List, [], ◌∷◌, ◌++◌, if◌then◌else◌,
  ltb, ◌==◌, Bool-cases, All, All-append, arith,
}
use common_build.Common.Text.{Text}
use common_build.Common.Result.{Result, ok, err}
use common_build.Domain.JobRef.{JobKey, sha_of}
use common_build.Tasks.Time.{Duration}
use common_build.Cynosure.States.{JobState, failure_count, with_new_failure}
use common_build.Common.Promises.{catch, chain}
use common_build.Cynosure.Acts.{
  Action, Act, activity_started, tag_changed, activity_aborted, info_url_set, on_job_started,
  on_job_failure, on_job_success, on_job_aborted, on_job_error, on_job_log, upserted, level_warning,
}
use common_build.Cynosure.Executor.{
  WaitRetryConfig, TaskQueue, upsert, taken, handle_error, log_message,
}

-- The calls that keep a job in the task queue, or tell the listener its end
unfoldable pub decides : Action → Bool
decides (on_job_failure key) = true
decides (on_job_success key) = true
decides (on_job_aborted key) = true
decides (on_job_error key) = true
decides (upserted uid wait state) = true
decides (activity_started product sha) = false
decides (tag_changed product sha tag op) = false
decides (activity_aborted activity sha reason) = false
decides (info_url_set product sha url) = false
decides (on_job_started key) = false
decides (on_job_log key message level) = false

unfoldable pub decisions : List Action → ℕ
decisions [] = 0
decisions (a ∷ actions) = (if decides a then 1 else 0) + decisions actions

-- The call is about the job: its task, its key or its sha.
unfoldable pub IsFor : Text → JobKey → Action → Type 0
IsFor uid key (upserted u wait state) = u ≡ uid
IsFor uid key (on_job_started k) = k ≡ key
IsFor uid key (on_job_failure k) = k ≡ key
IsFor uid key (on_job_success k) = k ≡ key
IsFor uid key (on_job_aborted k) = k ≡ key
IsFor uid key (on_job_error k) = k ≡ key
IsFor uid key (on_job_log k message level) = k ≡ key
IsFor uid key (activity_started product sha) = sha ≡ sha_of key.job_ref
IsFor uid key (tag_changed product sha tag op) = sha ≡ sha_of key.job_ref
IsFor uid key (activity_aborted activity sha reason) = sha ≡ sha_of key.job_ref
IsFor uid key (info_url_set product sha url) = sha ≡ sha_of key.job_ref

-- One call keeps the job, by its own task, or tells its end, and no call is about another job.
abbrev pub IsDecided : Text → JobKey → List Action → Type 0
IsDecided uid key actions = (decisions actions ≡ 1) × All (IsFor uid key) actions

abbrev pub IsOnce : Text → JobKey → Act Unit → Type 0
IsOnce uid key a = IsDecided uid key a.0 × (a.1 ≡ ok tt)

-- Nothing is decided, and no call is about another job.
abbrev pub IsUndecided : Text → JobKey → List Action → Type 0
IsUndecided uid key actions = (decisions actions ≡ 0) × All (IsFor uid key) actions

-- Nothing is decided, and the rejection, which there is under `F` only, is still to be handled.
abbrev pub IsFailed : Type 0 → Text → JobKey → Act Unit → Type 0
IsFailed F uid key a = F × IsUndecided uid key a.0 × (m : Text) × (a.1 ≡ err m)

abbrev pub IsOpen : Type 0 → Text → JobKey → Act Unit → Type 0
IsOpen F uid key a = IsOnce uid key a ⊎ IsFailed F uid key a

pub decisions-append : (xs ys : List Action) → decisions (xs ++ ys) ≡ decisions xs + decisions ys
unfolding decisions
decisions-append [] ys = omega arith
decisions-append (x ∷ xs) ys = omega (arith, decisions-append xs ys)

module _ (uid : Text) (key : JobKey) where
  pub undecided-IsDecided :
      (xs ys : List Action)
      → IsUndecided uid key xs
      → IsDecided uid key ys
      → IsDecided uid key (xs ++ ys)
  undecided-IsDecided xs ys (none_yet, for_xs) (one, for_ys) = (
    decisions-append xs ys ∙ omega (arith, none_yet, one),
    All-append (IsFor uid key) xs ys for_xs for_ys,
  )

  -- A handler that decides once behind what is open
  pub catch-IsOnce :
      (a : Act Unit) (f : Text → Act Unit)
      → IsOpen Unit uid key a
      → ((m : Text) → IsOnce uid key (f m))
      → IsOnce uid key (catch a f)
  catch-IsOnce a f (inl (one, done)) h = rw done (one, refl)
  catch-IsOnce a f (inr (_, none_yet, m, failed)) h =
      rw failed (undecided-IsDecided a.0 (f m).0 none_yet (h m).0, (h m).1)

  -- What follows calls that decide nothing
  pub behind :
      (F : Type 0) (actions : List Action) (a : Act Unit)
      → IsUndecided uid key actions
      → IsOpen F uid key a
      → IsOpen F uid key (actions ++ a.0, a.1)
  behind F actions a h (inl (one, done)) = inl (undecided-IsDecided actions a.0 h one, done)
  behind F actions a (h, for_actions) (inr (f, (no_one, for_a), m, failed)) = inr (
    f,
    (
      decisions-append actions a.0 ∙ omega (arith, h, no_one),
      All-append (IsFor uid key) actions a.0 for_actions for_a,
    ),
    m,
    failed,
  )

  pub answered :
      {A : Type 0} (actions : List Action) (answer : Result A) (f : A → Act Unit)
      → IsUndecided uid key actions
      → ((a : A) → IsOpen Unit uid key (f a))
      → IsOpen Unit uid key (chain actions answer f)
  answered actions (err m) f h k = inr (tt, h, m, refl)
  answered actions (ok a) f h k = behind Unit actions (f a) h (k a)

  taken-IsOpen :
      (F : Type 0) (wait : Duration) (state : JobState) (r : Result {0} Unit)
      → ((m : Text) → r ≡ err m → F)
      → IsOpen F uid key (taken (upserted uid wait state) r)
  unfolding decisions decides IsFor
  taken-IsOpen F wait state (ok tt) f = inl ((refl, (refl, tt)), refl)
  taken-IsOpen F wait state (err m) f = inr (f m refl, (refl, tt), m, refl)

  module _ (tasks : TaskQueue) (F : Type 0) (attempt : ℕ)
      (refused : (wait : Duration) (s : JobState) (m : Text)
        → tasks attempt uid wait s ≡ err m
        → F) where
    pub upsert-IsOpen :
        (wait : Duration) (s : JobState) → IsOpen F uid key (upsert tasks attempt uid wait s)
    unfolding upsert
    upsert-IsOpen wait s = taken-IsOpen F wait s (tasks attempt uid wait s) (refused wait s)

    pub handle_error-IsOpen :
        (s : JobState) (c : WaitRetryConfig)
        → IsOpen F uid key (handle_error tasks attempt uid key s c)
    unfolding handle_error decides decisions IsFor
    handle_error-IsOpen s c = elim (Bool-cases (ltb (failure_count s) c.retry_count)) [
      | inr h ↦ rw h (inl ((refl, (refl, tt)), refl))
      | inl h ↦ elim (Bool-cases (((failure_count s + 1) % 5) == 0)) [
        | inl k ↦
            rw (h, k)
              (behind F (on_job_log key (log_message s c.retry_count) level_warning ∷ [])
                (upsert tasks attempt uid c.wait (with_new_failure s)) (refl, (refl, tt))
                (upsert-IsOpen c.wait (with_new_failure s)))
        | inr k ↦
            rw (h, k)
              (behind F [] (upsert tasks attempt uid c.wait (with_new_failure s)) (refl, tt)
                (upsert-IsOpen c.wait (with_new_failure s)))
      ]
    ]
