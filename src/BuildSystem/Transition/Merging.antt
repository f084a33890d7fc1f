-- ===== src/BuildSystem/Transition/Merging.antt =====
-- When a change that was built is merged.
use common_build.Common.{
  ◌≡◌, refl, ap, ◌∙◌, inl, inr, Bool, true, false, List, [], ◌∷◌, ◌++◌, All, keep, Option, none,
  some,
}
use common_build.Common.Text.{Text, codes}
use common_build.Common.Result.{Result, ok, err, Result-cases}
use common_build.Common.Promises.{chain, pure}
use common_build.Common.Promises.Laws.{All-chain, All-recover, keep-none, keep-recover-quiet}
use common_build.Lodash.{Lodash}
use common_build.Domain.Refs.{ShaRef, Branch}
use common_build.Domain.JobRef.{JobKey, update_ref}
use common_build.Repository.Reader.{minor_version}
use common_build.BuildSystem.Actions.{PostAction, nothing, merge, release, RepositoryConfig}
use common_build.BuildSystem.Effects.{level_info, Effect, Services, Run, merged}
use common_build.BuildSystem.Release.{released, shown_error}
use common_build.BuildSystem.Release.Calls.{released-All}
use common_build.BuildSystem.Transition.{
  log, merged_to, merge_change, act, action_of, post_process, on_success,
}

unfoldable pub merges : Effect → Bool
merges (merged id path update_id) = true
merges _ = false

-- The merge that is made for an action
unfoldable pub merge_of : JobKey → Text → PostAction → List Effect
merge_of job update_id nothing = []
merge_of job update_id merge = merged job.source.id job.source.path update_id ∷ []
merge_of job update_id release = merged job.source.id job.source.path update_id ∷ []

-- The merges by the answers: of the repository's configuration, of storing the meta data and the
-- valid build, and of the labels
unfoldable pub success_merges :
    JobKey
    → Text
    → (RepositoryConfig → Option (List Text) → PostAction)
    → Result (Option RepositoryConfig)
    → Result {0} Unit
    → Result {0} Unit
    → Result (Option (List Text))
    → List Effect
success_merges job update_id action (ok (some config)) (ok _) (ok _) (ok labels) =
    merge_of job update_id (action config labels)
success_merges job update_id action (ok none) meta valid labels = []
success_merges job update_id action (err e) meta valid labels = []
success_merges job update_id action (ok (some config)) (err e) valid labels = []
success_merges job update_id action (ok (some config)) (ok _) (err e) labels = []
success_merges job update_id action (ok (some config)) (ok _) (ok _) (err e) = []

module _ (services : Services) (lodash : Lodash) (job : JobKey) (update_id : Text) where
  merged_to-none :
      (action : PostAction) (updated : Branch)
      → All (λ e. merges e ≡ false) (merged_to services lodash job update_id action updated).0
  unfolding merged_to merges
  merged_to-none nothing updated = (refl, (refl, tt))
  merged_to-none merge updated = (refl, (refl, tt))
  merged_to-none release updated = (
    refl,
    (
      refl,
      All-recover (λ e. merges e ≡ false) _ _ _
          (All-chain (λ e. merges e ≡ false)
            (released services lodash job.source updated minor_version).0
            (released services lodash job.source updated minor_version).1 (λ _. pure tt)
            (released-All services lodash job.source updated (λ e. merges e ≡ false)
              (λ m l s c. refl) (λ r h v. refl) (λ i p h n m. refl) minor_version)
            (λ _. tt))
          (λ m. (refl, tt)),
    ),
  )

  merge_change-merges :
      (action : PostAction)
      → keep merges (merge_change services lodash job update_id action).0
        ≡ merged job.source.id job.source.path update_id ∷ []
  unfolding merge_change merges
  merge_change-merges action =
      elim (Result-cases (services.merge job.source.id job.source.path update_id)) [
        | inl (m, h) ↦ rw h refl
        | inr (updated, h) ↦ rw h (
            keep-recover-quiet merges _ (merged_to services lodash job update_id action updated).1 _
              (λ m. refl)
            ∙ ap (λ l. merged job.source.id job.source.path update_id ∷ l)
                (keep-none merges (merged_to services lodash job update_id action updated).0
                  (merged_to-none action updated)))
      ]

  act-merges :
      (action : PostAction)
      → keep merges (act services lodash job update_id action).0 ≡ merge_of job update_id action
  unfolding act merges merge_of
  act-merges nothing = refl
  act-merges merge = merge_change-merges merge
  act-merges release = merge_change-merges release

  labelled :
      (config : RepositoryConfig) (labels : Result (Option (List Text)))
      → keep merges
          (chain [] labels
            (λ l. act services lodash job update_id (action_of services lodash job config l))).0
        ≡ success_merges job update_id
            (action_of services lodash job)
            (ok (some config))
            (ok tt)
            (ok tt)
            labels
  unfolding success_merges
  labelled config (err e) = refl
  labelled config (ok l) = act-merges (action_of services lodash job config l)

  post_process-merges :
      (sha : ShaRef) (config : Option RepositoryConfig)
      → keep merges (post_process services lodash job update_id sha config).0
        ≡ success_merges job update_id
            (action_of services lodash job)
            (ok config)
            (services.add_meta_data job.source sha)
            (services.set_valid_build job.source.id job.source.id update_id sha)
            (services.labels job.source.id update_id)
  unfolding post_process success_merges merges
  post_process-merges sha none = refl
  post_process-merges sha (some config) =
      elim (Result-cases (services.add_meta_data job.source sha)) [
        | inl (m, a) ↦ rw a refl
        | inr (_, a) ↦
            elim (Result-cases
              (services.set_valid_build job.source.id job.source.id update_id sha)) [
                | inl (m, b) ↦ rw (a, b) refl
                | inr (_, b) ↦
                    let asked : Run Unit = chain [] (services.labels job.source.id update_id) (λ l.
                      act services lodash job update_id (action_of services lodash job config l)) in
                    let handler : Text → Run Unit = λ e.
                      log job (codes "Coult not post-proces change: " ++ shown_error e)
                        level_info in
                    rw (a, b)
                      (keep-recover-quiet merges asked.0 asked.1 handler (λ m. refl)
                        ∙ labelled config (services.labels job.source.id update_id))
              ]
      ]

-- When the job of an update has succeeded, its change is merged at most once, and exactly if the
-- configuration of its repository could be had and is there, the meta data were added and the valid
-- build was set, the labels of the change could be had, and the action by labels and configuration
-- is to merge or to release.
pub on_success-merges :
    (services : Services) (lodash : Lodash) (job : JobKey) (update_id target : Text) (sha : ShaRef)
    → keep merges (on_success services lodash job (update_ref update_id target sha)).0
      ≡ success_merges job update_id
          (action_of services lodash job)
          (services.repository_config job.source)
          (services.add_meta_data job.source sha)
          (services.set_valid_build job.source.id job.source.id update_id sha)
          (services.labels job.source.id update_id)
unfolding on_success success_merges
on_success-merges services lodash job update_id target sha =
    elim (Result-cases (services.repository_config job.source)) [
      | inl (m, h) ↦ rw h refl
      | inr (config, h) ↦
          let quiet : Text → Run Unit = λ e. pure tt in
          rw h (
            keep-recover-quiet merges (post_process services lodash job update_id sha config).0
              (post_process services lodash job update_id sha config).1 quiet (λ m. refl)
            ∙ post_process-merges services lodash job update_id sha config)
    ]
