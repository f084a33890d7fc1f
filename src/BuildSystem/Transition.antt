-- ===== src/BuildSystem/Transition.antt =====
-- backend/src/system/build-system-impl.ts: the executor's messages to the queue, and what is done
-- when a job in the queue has come to a new state. What the source does not wait for is done in the
-- order in which it is begun.
pub mod Starting
pub mod Merging
pub mod Queueing
use common_build.Common.{
  ℕ, zero, suc, ◌+◌, ◌*◌, Bool, true, false, List, [], ◌∷◌, ◌++◌, map, Option, none, some,
  if◌then◌else◌,
}
use common_build.Common.Text.{Text, codes, join}
use common_build.Common.Result.{Result, ok, err}
use common_build.Common.Promises.{pure, fail, emit, ask, tell, catch, ◌>>=◌}
use common_build.Lodash.{Lodash}
use common_build.Domain.Source.{RepositorySource}
use common_build.Domain.Refs.{ShaRef, Branch, branch_name}
use common_build.Domain.JobRef.{
  JobKey, JobRef, update_ref, branch_ref, canonical_id, sha_of, to_string as shown_ref,
}
use common_build.Domain.Version.{Version, as_string}
use common_build.Domain.DependencyRef.{to_string}
use common_build.Queue.States.{
  State, text_of, is_state_terminal, queued, starting, started, cancelled, success, failure,
  aborted, error, timeout, conflict, dependency, rebased,
}
use common_build.Repository.Reader.{minor_version}
use common_build.Scanner.Graph.{Graphs, Visit, traverse, get_problems, MultipleVersionsProblem}
use common_build.BuildSystem.Actions.{
  PostAction, nothing, merge, release, RepositoryConfig, calculate_action,
}
use common_build.BuildSystem.Effects.{
  Effect, Services, Run, LogLevel, level_info, level_warning, level_error, logged, queue_started,
  state_added, job_started, job_aborted, rebased as rebase_called, valid_build_set, merged,
  meta_data_added,
}
use common_build.BuildSystem.Effects
use common_build.BuildSystem.Release.{released, shown_error}

abbrev pub log : JobKey → Text → LogLevel → Run Unit
log job message level = emit (logged message level job.source (canonical_id job.job_ref))

-- `_.repeat(text, n)`, of a text of one space
abbrev spaces : ℕ → Text
spaces zero = []
spaces (suc n) = b' ' ∷ spaces n

abbrev newline : Text
newline = 10 ∷ []

abbrev tree_line : Visit → Text
tree_line v =
    spaces ((v.depth + 1) * 2)
    ++ (codes "* " ++ (to_string v.ref ++ (codes ": " ++ as_string v.version)))

abbrev tree_message : Graphs → Text
tree_message gs =
    codes "Dependency tree:" ++ (newline ++ (newline ++ join newline (map tree_line (traverse gs))))

-- `MultipleVersionsProblem.message`
abbrev problem_message : MultipleVersionsProblem → Text
problem_message p =
    codes "Multiple versions of "
    ++ (to_string p.ref
        ++ (codes " (" ++ (join (codes ", ") (map (λ v. as_string v) p.versions) ++ codes ")")))

abbrev problems_message : List MultipleVersionsProblem → Text
problems_message ps =
    codes "Diamond problem guard inactivated by platform."
    ++ (newline
        ++ (newline
            ++ (codes "Information: "
                ++ (newline
                    ++ (codes " "
                        ++ join newline (map (λ p. codes "* " ++ problem_message p) ps))))))

unfoldable pub text_of_action : PostAction → Text
text_of_action nothing = codes "nothing"
text_of_action merge = codes "merge"
text_of_action release = codes "release"

module _ (services : Services) where
  -- `updateQueue`
  unfoldable pub update_queue : JobKey → State → Run Unit
  update_queue job state = catch (tell (state_added job state) (services.add_state job state)) (λ e.
      log job
        (codes "Unexpected error when updating queue: "
          ++ (shown_error e ++ codes ". Please report."))
        level_warning)

  unfoldable pub on_job_started : JobKey → Run Unit
  on_job_started job = update_queue job started

  unfoldable pub on_job_error : JobKey → Run Unit
  on_job_error job = update_queue job error

  unfoldable pub on_job_failure : JobKey → Run Unit
  on_job_failure job = update_queue job failure

  unfoldable pub on_job_aborted : JobKey → Run Unit
  on_job_aborted job = update_queue job aborted

  unfoldable pub on_job_success : JobKey → Run Unit
  on_job_success job = update_queue job success

  module _ (lodash : Lodash) (job : JobKey) where
    -- The state STARTING
    unfoldable pub log_problems : List MultipleVersionsProblem → Run Unit
    log_problems [] = pure tt
    log_problems (p ∷ ps) = log job (problems_message (p ∷ ps)) level_warning

    unfoldable pub start_on : Graphs → Run Unit
    start_on gs = ask (get_problems lodash gs) >>= (λ problems.
        log job (tree_message gs) level_info
        >>= (λ _. log_problems problems >>= (λ _. emit (job_started job))))

    unfoldable pub rebase_answered : Option ShaRef → Run Unit
    rebase_answered (some new_sha) =
        log job (codes "Rebased on tip of target branch to `" ++ (new_sha.sha ++ codes "`."))
          level_info
        >>= (λ _. update_queue job rebased)
    rebase_answered none =
        log job (codes "No rebase necessary. Fast-forward possible.") level_info >>= (λ _.
          ask (services.dependency_graph job.source (sha_of job.job_ref)) >>= (λ gs. start_on gs))

    unfoldable pub on_starting : JobRef → Run Unit
    on_starting (update_ref update_id target sha) =
        catch
          (tell (rebase_called job.source.id job.source.path update_id)
              (services.rebase job.source.id job.source.path update_id)
            >>= (λ new_sha. rebase_answered new_sha))
          (λ e. update_queue job conflict)
    on_starting (branch_ref b sha) = fail (
        codes "Only Update builds are supported: "
        ++ (shown_ref (branch_ref b sha) ++ codes " builds not supported. "))

    -- The state SUCCESS
    unfoldable pub merged_to : Text → PostAction → Branch → Run Unit
    merged_to update_id action updated =
        let merged_ref = branch_ref updated.ref updated.sha in
        log job
          (codes "Merged to target branch `"
            ++ (branch_name updated.ref
                ++ (codes "` Post-process action `"
                    ++ (text_of_action action
                        ++ (codes "`. Continued [log]("
                            ++ (canonical_id merged_ref ++ codes ")"))))))
          level_info
        >>= (λ _.
            log (record { source = job.source; job_ref = merged_ref })
              (codes "Merged update `"
                ++ (update_id
                    ++ (codes "`. Previous [log](" ++ (canonical_id job.job_ref ++ codes ")"))))
              level_info
            >>= (λ _. elim action [
              | release ↦
                  catch
                    (released services lodash job.source updated minor_version
                      >>= (λ version. pure tt))
                    (λ e. log job (codes "Could not release: " ++ shown_error e) level_error)
              | _ ↦ pure tt
            ]))

    unfoldable pub merge_change : Text → PostAction → Run Unit
    merge_change update_id action =
        catch
          (tell (merged job.source.id job.source.path update_id)
              (services.merge job.source.id job.source.path update_id)
            >>= (λ updated. merged_to update_id action updated))
          (λ e. log job (codes "Could not merge: " ++ shown_error e) level_error)

    unfoldable pub act : Text → PostAction → Run Unit
    act update_id nothing =
        log job (codes "Post processing action `nothing` resolved. Change left un-merged.")
          level_info
    act update_id merge = merge_change update_id merge
    act update_id release = merge_change update_id release

    abbrev labels_or_none : Option (List Text) → List Text
    labels_or_none none = []
    labels_or_none (some labels) = labels

    abbrev action_or_default : PostAction → Option PostAction → PostAction
    action_or_default default_action none = default_action
    action_or_default default_action (some action) = action

    unfoldable pub action_of : RepositoryConfig → Option (List Text) → PostAction
    action_of config labels =
        action_or_default config.build_automation.default_action
          (calculate_action (labels_or_none labels) config.build_automation.labels)

    unfoldable pub post_process : Text → ShaRef → Option RepositoryConfig → Run Unit
    post_process update_id sha none = pure tt
    post_process update_id sha (some config) =
        tell (meta_data_added job.source sha) (services.add_meta_data job.source sha) >>= (λ _.
          tell (valid_build_set job.source.id job.source.id update_id sha)
            (services.set_valid_build job.source.id job.source.id update_id sha)
          >>= (λ _.
              catch
                (ask (services.labels job.source.id update_id)
                  >>= (λ labels. act update_id (action_of config labels)))
                (λ e.
                  log job (codes "Coult not post-proces change: " ++ shown_error e) level_info)))

    unfoldable pub on_success : JobRef → Run Unit
    on_success (update_ref update_id target sha) =
        catch
          (ask (services.repository_config job.source)
            >>= (λ config. post_process update_id sha config))
          (λ e. pure tt)
    on_success (branch_ref b sha) = pure tt

    unfoldable pub start_jobs_from_queue : Run Unit
    start_jobs_from_queue = emit (queue_started 10)

    -- The branches by the new state
    unfoldable pub by_state : State → Run Unit
    by_state starting = on_starting job.job_ref
    by_state success = on_success job.job_ref
    by_state queued = start_jobs_from_queue
    by_state aborted = emit (job_aborted job) >>= (λ _. start_jobs_from_queue)
    by_state state = if is_state_terminal state then start_jobs_from_queue else pure tt

    -- `onQueueTransition`
    unfoldable pub on_queue_transition : State → Run Unit
    on_queue_transition state =
        log job
          (codes "Job `"
            ++ (text_of state ++ (codes "` for `" ++ ((sha_of job.job_ref).sha ++ codes "`."))))
          level_info
        >>= (λ _. by_state state)
