-- ===== src/Domain/Examples.antt =====
-- The theorems about the domain model at concrete values.
use common_build.Common.{ℕ, some, ◌≡◌, ◌↔◌, refl, List, [], ◌∷◌, arith}
use common_build.Common.Text.{codes, join}
use common_build.Common.Result.{ok}
use common_build.Domain.Source.{RepositorySource}
use common_build.Domain.DependencyRef
use common_build.Domain.DependencyRef.RoundTrip as DependencyTexts
use common_build.Domain.Source
use common_build.Domain.Refs.{EntityRef, of_branch, branch, meta_config, ShaRef, tag, entity}
use common_build.Domain.Refs
use common_build.Domain.JobRef.{JobRef, JobKey, update_ref, branch_ref}
use common_build.Domain.JobRef
use common_build.Domain.JobRef.RoundTrip.{IsStorable}
use common_build.Domain.JobRef.RoundTrip as JobRefTexts
use common_build.Domain.JobRef.Laws
use common_build.Domain.Version.{Version}

abbrev service : RepositorySource
service = record { id = codes "gerrit"; path = codes "csp/service" }

abbrev sha_1 : ShaRef
sha_1 = record { sha = codes "0123456789abcdef0123456789abcdef01234567" }

abbrev update_7 : JobRef
update_7 = update_ref (codes "7") (codes "main") sha_1

abbrev key_7 : JobKey
key_7 = record { source = service; job_ref = update_7 }

key_7-IsStorable : IsStorable key_7
unfolding Source.as_string JobRef.serialize JobRef.fields JobRef.constructor_name join Refs.is_sha
key_7-IsStorable = record {
  source_plain = record { named = λ e. cc; no_slash = omega arith };
  source_free = omega arith;
  job_clean = (omega arith, omega arith, omega arith, refl);
  job_free = omega arith;
}

job_key_example : JobRef.deserialize_key (JobRef.serialize_key key_7) ≡ ok key_7
job_key_example = JobRefTexts.deserialize_key-serialize_key key_7 key_7-IsStorable

with_sha_example :
    ((JobRef.queue_id (JobRef.with_sha update_7 sha_1) ≡ JobRef.queue_id update_7)
      × (JobRef.canonical_id (JobRef.with_sha update_7 sha_1) ≡ JobRef.canonical_id update_7))
    ↔ (codes "7" ≡ codes "main")
with_sha_example = Laws.with_sha-queue_id_iff (codes "7") (codes "main") sha_1 sha_1

abbrev v : List ℕ → Version
v segments = record { segments = segments }

abbrev base_image : DependencyRef.DependencyRef
base_image = DependencyRef.image_ref (some (codes "docker")) (some (codes "team/base"))

dependency_ref_example :
    DependencyRef.deserialize (DependencyRef.serialize base_image) ≡ ok base_image
dependency_ref_example =
    DependencyTexts.deserialize-serialize_dependency_ref base_image ((omega arith), (omega arith))

abbrev two_segments : Version
two_segments = record { segments = 12 ∷ 0 ∷ [] }
