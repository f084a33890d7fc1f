-- ===== src/BuildSystem/Transition/Queueing.antt =====
-- Which transitions start waiting jobs.
use common_build.Common.{
  ◌≡◌, refl, Bool, true, false, not, ◌&&◌, ◌||◌, List, [], ◌∷◌, All, Option, none, some, keep,
  if◌then◌else◌,
}
use common_build.Common.Text.{Text, ◌==◌}
use common_build.Common.Result.{Result}
use common_build.Common.Promises.{chain, recover, pure}
use common_build.Common.Promises.Laws.{All-chain, All-recover, keep-none}
use common_build.Lodash.{Lodash}
use common_build.Domain.Refs.{ShaRef, Branch}
use common_build.Domain.JobRef.{JobKey, JobRef, update_ref, branch_ref, sha_of}
use common_build.Queue.States.{
  State, text_of, is_state_terminal, state_transitions, queued, starting, started, cancelled,
  success, failure, aborted, error, timeout, conflict, dependency, rebased,
}
use common_build.Repository.Reader.{minor_version}
use common_build.Scanner.Graph.{MultipleVersionsProblem, get_problems}
use common_build.BuildSystem.Actions.{PostAction, nothing, merge, release, RepositoryConfig}
use common_build.BuildSystem.Effects.{
  Effect, Services, Run, queue_started, merged, tag_created, meta_data_added, valid_build_set,
}
use common_build.BuildSystem.Effects
use common_build.BuildSystem.Release.{released}
use common_build.BuildSystem.Release.Calls.{released-All}
use common_build.BuildSystem.Transition.{
  update_queue, log_problems, start_on, rebase_answered, on_starting, merged_to, merge_change, act,
  action_of, post_process, on_success, start_jobs_from_queue, by_state, on_queue_transition,
}

unfoldable pub starts : Effect → Bool
starts (queue_started count) = true
starts _ = false

abbrev IsQuiet : List Effect → Type 0
IsQuiet effects = All (λ e. starts e ≡ false) effects

abbrev chained :
    {A B : Type 0} (effects : List Effect) (answer : Result A) (f : A → Run B)
    → IsQuiet effects
    → ((a : A) → IsQuiet (f a).0)
    → IsQuiet (chain effects answer f).0
chained = All-chain (λ e. starts e ≡ false)

abbrev recovered :
    {A : Type 0} (effects : List Effect) (answer : Result A) (f : Text → Run A)
    → IsQuiet effects
    → ((m : Text) → IsQuiet (f m).0)
    → IsQuiet (recover effects answer f).0
recovered = All-recover (λ e. starts e ≡ false)

told :
    {A B : Type 0} (e : Effect) (answer : Result A) (f : A → Run B)
    → starts e ≡ false
    → ((a : A) → IsQuiet (f a).0)
    → IsQuiet (chain (e ∷ []) answer f).0
told e answer f h k = chained (e ∷ []) answer f (h, tt) k

told_or :
    {A : Type 0} (e : Effect) (answer : Result A) (f : Text → Run A)
    → starts e ≡ false
    → ((m : Text) → IsQuiet (f m).0)
    → IsQuiet (recover (e ∷ []) answer f).0
told_or e answer f h k = recovered (e ∷ []) answer f (h, tt) k

module _ (services : Services) (lodash : Lodash) where
  module _ (job : JobKey) where
    update_queue-IsQuiet : (state : State) → IsQuiet (update_queue services job state).0
    unfolding update_queue starts
    update_queue-IsQuiet state = told_or _ _ _ refl (λ m. (refl, tt))

    log_problems-IsQuiet :
        (ps : List MultipleVersionsProblem) → IsQuiet (log_problems services lodash job ps).0
    unfolding log_problems starts
    log_problems-IsQuiet [] = tt
    log_problems-IsQuiet (p ∷ ps) = (refl, tt)

    rebase_answered-IsQuiet :
        (new_sha : Option ShaRef) → IsQuiet (rebase_answered services lodash job new_sha).0
    unfolding rebase_answered start_on starts
    rebase_answered-IsQuiet (some sha) = (refl, update_queue-IsQuiet rebased)
    rebase_answered-IsQuiet none = (
      refl,
      chained [] (services.dependency_graph job.source (sha_of job.job_ref)) _ tt (λ gs.
          chained [] (get_problems lodash gs) _ tt
            (λ ps. (refl, chained _ _ _ (log_problems-IsQuiet ps) (λ _. (refl, tt))))),
    )

    on_starting-IsQuiet : (r : JobRef) → IsQuiet (on_starting services lodash job r).0
    unfolding on_starting starts
    on_starting-IsQuiet (update_ref update_id target sha) =
        recovered _ _ _
          (told (Effects.rebased job.source.id job.source.path update_id)
            (services.rebase job.source.id job.source.path update_id)
            (rebase_answered services lodash job) refl rebase_answered-IsQuiet)
          (λ m. update_queue-IsQuiet conflict)
    on_starting-IsQuiet (branch_ref b sha) = tt

    merged_to-IsQuiet :
        (update_id : Text) (action : PostAction) (updated : Branch)
        → IsQuiet (merged_to services lodash job update_id action updated).0
    unfolding merged_to starts
    merged_to-IsQuiet update_id nothing updated = (refl, (refl, tt))
    merged_to-IsQuiet update_id merge updated = (refl, (refl, tt))
    merged_to-IsQuiet update_id release updated = (
      refl,
      (
        refl,
        recovered _ _ _
            (chained (released services lodash job.source updated minor_version).0
              (released services lodash job.source updated minor_version).1 (λ _. pure tt)
              (released-All services lodash job.source updated (λ e. starts e ≡ false)
                (λ m l s c. refl) (λ r h v. refl) (λ i p h n m. refl) minor_version)
              (λ _. tt))
            (λ m. (refl, tt)),
      ),
    )

    merge_change-IsQuiet :
        (update_id : Text) (action : PostAction)
        → IsQuiet (merge_change services lodash job update_id action).0
    unfolding merge_change starts
    merge_change-IsQuiet update_id action =
        recovered _ _ _
          (told (merged job.source.id job.source.path update_id)
            (services.merge job.source.id job.source.path update_id)
            (merged_to services lodash job update_id action) refl
            (merged_to-IsQuiet update_id action))
          (λ m. (refl, tt))

    act-IsQuiet :
        (update_id : Text) (action : PostAction)
        → IsQuiet (act services lodash job update_id action).0
    unfolding act starts
    act-IsQuiet update_id nothing = (refl, tt)
    act-IsQuiet update_id merge = merge_change-IsQuiet update_id merge
    act-IsQuiet update_id release = merge_change-IsQuiet update_id release

    post_process-IsQuiet :
        (update_id : Text) (sha : ShaRef) (config : Option RepositoryConfig)
        → IsQuiet (post_process services lodash job update_id sha config).0
    unfolding post_process starts
    post_process-IsQuiet update_id sha none = tt
    post_process-IsQuiet update_id sha (some config) = told _ _ _ refl (λ _. told _ _ _ refl (λ _.
        recovered _ _ _
          (chained [] (services.labels job.source.id update_id) _ tt
            (λ labels. act-IsQuiet update_id (action_of services lodash job config labels)))
          (λ m. (refl, tt))))

    on_success-IsQuiet : (r : JobRef) → IsQuiet (on_success services lodash job r).0
    unfolding on_success
    on_success-IsQuiet (update_ref update_id target sha) =
        recovered _ _ _
          (chained [] (services.repository_config job.source) _ tt
            (post_process-IsQuiet update_id sha))
          (λ m. tt)
    on_success-IsQuiet (branch_ref b sha) = tt

-- The states after which waiting jobs are started: QUEUED, and all terminal ones but SUCCESS
unfoldable pub is_followed : State → Bool
is_followed state =
    text_of state == text_of queued
    || (is_state_terminal state && not (text_of state == text_of success))

-- A transition of a job starts up to ten waiting jobs, once, if the new state is QUEUED or a terminal
-- state other than SUCCESS, and else starts none, whatever the services answer. After SUCCESS, the
-- state of a job that has left its place in the queue, no waiting job is started.
pub on_queue_transition-starts :
    (services : Services) (lodash : Lodash) (job : JobKey) (state : State)
    → keep starts (on_queue_transition services lodash job state).0
      ≡ (if is_followed state then queue_started 10 ∷ [] else [])
unfolding on_queue_transition by_state start_jobs_from_queue starts is_followed text_of
    is_state_terminal state_transitions ◌==◌
on_queue_transition-starts services lodash job starting =
    keep-none starts _ (on_starting-IsQuiet services lodash job job.job_ref)
on_queue_transition-starts services lodash job success =
    keep-none starts _ (on_success-IsQuiet services lodash job job.job_ref)
on_queue_transition-starts services lodash job queued = refl
on_queue_transition-starts services lodash job started = refl
on_queue_transition-starts services lodash job cancelled = refl
on_queue_transition-starts services lodash job failure = refl
on_queue_transition-starts services lodash job aborted = refl
on_queue_transition-starts services lodash job error = refl
on_queue_transition-starts services lodash job timeout = refl
on_queue_transition-starts services lodash job conflict = refl
on_queue_transition-starts services lodash job dependency = refl
on_queue_transition-starts services lodash job rebased = refl
