-- ===== src/BuildSystem/Examples.antt =====
-- The theorems about the build system at concrete answers of its services.
use common_build.Common.{◌≡◌, ◌↔◌, refl, true, false, [], ◌∷◌, keep, none, some, if◌then◌else◌}
use common_build.Common.Text.{codes, ◌==◌}
use common_build.Common.Result.{ok}
use common_build.Lodash.Laws.{documented}
use common_build.Domain.Source.{RepositorySource}
use common_build.Domain.Refs.{branch_name, ShaRef, Branch, branch, entity, of_branch}
use common_build.Domain.JobRef.{JobKey, update_ref}
use common_build.Queue.States.{success}
use common_build.Repository.Model.{RawData}
use common_build.Repository.Converter.{convert_model}
use common_build.Repository.Converter.Order.{convert_model-IsOrdered}
use common_build.Repository.Normalized.{normalize, normalize_branch, main_branch}
use common_build.Repository.Reader.{minor_version}
use common_build.Scanner.Graph.{no_graphs}
use common_build.BuildSystem.Actions.{RepositoryConfig, merge, release, calculate_action}
use common_build.BuildSystem.Actions.Release.{is_wanted, calculate_action-release_iff}
use common_build.BuildSystem.Effects.{Services, queue_started}
use common_build.BuildSystem.Events.{Update, on_update}
use common_build.BuildSystem.Events.Updates.{queues, update_calls, on_update-calls}
use common_build.BuildSystem.Release.Order.{ReleaseEffect, released-ReleaseEffect}
use common_build.BuildSystem.Transition.{on_starting, on_success, on_queue_transition, action_of}
use common_build.BuildSystem.Transition.Starting.{
  decides, decision, problems_in, on_starting-decision,
}
use common_build.BuildSystem.Transition.Queueing.{starts, is_followed, on_queue_transition-starts}
use common_build.BuildSystem.Transition.Merging.{merges, success_merges, on_success-merges}

abbrev sample_source : RepositorySource
sample_source = record { id = codes "g"; path = codes "r" }

abbrev sample_sha : ShaRef
sample_sha = record { sha = codes "ab" }

abbrev main : Branch
main = record { ref = branch (codes "main"); sha = sample_sha }

abbrev sample_config : RepositoryConfig
sample_config = record {
  build_automation = record {
    default_action = merge;
    labels = record { id = codes "rel"; action = release } ∷ [];
  };
  active_system = none;
  major_serie = none;
}

abbrev sample_raw : RawData
sample_raw = record {
  main = record { name = codes "main"; sha = codes "m0" };
  release_tags = record { first = 1; others = 0 ∷ 0 ∷ []; sha = codes "r0" } ∷ [];
  patch_branches = [];
  major_tags = [];
}

-- Services that do all that is asked, with a change that is labelled for a release
abbrev sample_services : Services
sample_services = record {
  log_url = λ source id. codes "http://log";
  rebase = λ id path update_id. ok none;
  dependency_graph = λ source sha. ok no_graphs;
  repository_config = λ source. ok (some sample_config);
  build_config = λ source sha strict. ok true;
  add_meta_data = λ source sha. ok tt;
  set_valid_build = λ id path update_id sha. ok tt;
  labels = λ id update_id. ok (some (codes "rel" ∷ []));
  merge = λ id path update_id. ok main;
  model = λ source. ok (convert_model documented sample_raw);
  publications = λ source r. ok [];
  publish = λ refs sha v. ok tt;
  create_tag = λ id path sha name message. ok tt;
  add_state = λ job state. ok tt;
  push = λ job. ok tt;
  ensure_ref = λ source r spec. ok tt;
  ensure_entity = λ source e spec. ok tt;
  ensure_deleted = λ source r. ok tt;
  fetch_all_defaults = λ source. ok tt;
  prune = λ source. ok tt;
  register_dependencies = λ source. ok tt;
  invalidate = λ refs. ok tt;
}

abbrev sample_job : JobKey
sample_job = record {
  source = sample_source;
  job_ref = update_ref (codes "7") (codes "main") sample_sha;
}

calculate_action-release_example :
    (calculate_action (codes "rel" ∷ []) sample_config.build_automation.labels ≡ some release)
    ↔ (is_wanted (codes "rel" ∷ []) release sample_config.build_automation.labels ≡ true)
calculate_action-release_example =
    calculate_action-release_iff (codes "rel" ∷ []) sample_config.build_automation.labels

on_starting-decision_example :
    keep decides
      (on_starting sample_services documented sample_job
        (update_ref (codes "7") (codes "main") sample_sha)).0
    ≡ decision sample_job (ok none) (problems_in documented (ok no_graphs)) ∷ []
on_starting-decision_example =
    on_starting-decision sample_services documented sample_job (codes "7") (codes "main") sample_sha

on_queue_transition-starts_example :
    keep starts (on_queue_transition sample_services documented sample_job success).0
    ≡ (if is_followed success then queue_started 10 ∷ [] else [])
on_queue_transition-starts_example =
    on_queue_transition-starts sample_services documented sample_job success

on_success-merges_example :
    keep merges
      (on_success sample_services documented sample_job
        (update_ref (codes "7") (codes "main") sample_sha)).0
    ≡ success_merges sample_job
        (codes "7")
        (action_of sample_services documented sample_job)
        (ok (some sample_config))
        (ok tt)
        (ok tt)
        (ok (some (codes "rel" ∷ [])))
on_success-merges_example =
    on_success-merges sample_services documented sample_job (codes "7") (codes "main") sample_sha

main_is_main :
    normalize (entity (of_branch (branch (codes "main")))) ≡ some (main_branch (codes "main"))
unfolding normalize normalize_branch branch_name ◌==◌
main_is_main = refl

released-ReleaseEffect_example :
    ReleaseEffect sample_services documented sample_source main
      (convert_model documented sample_raw)
      minor_version
released-ReleaseEffect_example =
    released-ReleaseEffect sample_services documented sample_source main
      (convert_model documented sample_raw) minor_version (codes "main") refl
      (convert_model-IsOrdered documented sample_raw) main_is_main

abbrev sample_update : Update
sample_update = record {
  source = sample_source;
  id = codes "7";
  sha = sample_sha;
  target = codes "main";
  ref_spec = codes "+refs/changes/7";
}

on_update-calls_example :
    (keep queues
        (on_update
          (codes "staging")
          (codes "build.yml")
          sample_services
          sample_update
          (codes "new")
          false).0
      ≡ update_calls
          (codes "staging")
          sample_update
          false
          (ok tt)
          (ok (some sample_config))
          (ok true))
    × ((on_update
          (codes "staging")
          (codes "build.yml")
          sample_services
          sample_update
          (codes "new")
          false).1
        ≡ ok tt)
on_update-calls_example =
    on_update-calls (codes "staging") (codes "build.yml") sample_services sample_update
      (codes "new") false
