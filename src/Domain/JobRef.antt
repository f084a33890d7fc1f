-- ===== src/Domain/JobRef.antt =====
-- backend/src/domain-model/job-ref/job-ref.ts, and `JobExecutor.Key` of
-- backend/src/system/job-executor/job-executor.ts: what is built, and the texts by which jobs are
-- stored and compared. The class names are the tags of the serialized form.
pub mod RoundTrip
pub mod Laws
use common_build.Common.{ℕ, Bool, ◌&&◌, List, [], ◌∷◌, ◌++◌, if◌then◌else◌, false}
use common_build.Common.Text.{Text, codes, ◌==◌, split, join}
use common_build.Common.Result.{Result, ok, err, ◌>>=◌}
use common_build.Domain.Source.{RepositorySource}
use common_build.Domain.Source
use common_build.Domain.Refs.{
  BranchRef, branch, ShaRef, create_sha, branch_name, of_sha, entity, of_branch,
}
use common_build.Domain.Refs

pub data JobRef : Type 0 where
  -- `UpdateRef`: update id, target branch, sha
  update_ref : Text → Text → ShaRef → JobRef
  branch_ref : BranchRef → ShaRef → JobRef

unfoldable pub sha_of : JobRef → ShaRef
sha_of (update_ref update_id target sha) = sha
sha_of (branch_ref b sha) = sha

-- The id of the `Key` that names the local queue of the job.
unfoldable pub queue_id : JobRef → Text
queue_id (update_ref update_id target sha) = codes "integration_" ++ target
queue_id (branch_ref b sha) = branch_name b ++ (codes "-" ++ sha.sha)

unfoldable pub key : JobRef → Text
key (update_ref update_id target sha) = update_id
key (branch_ref b sha) = branch_name b ++ (codes "-" ++ sha.sha)

unfoldable pub canonical_id : JobRef → Text
canonical_id (update_ref update_id target sha) = codes "update-" ++ update_id
canonical_id (branch_ref b sha) = branch_name b ++ (codes "-" ++ sha.sha)

-- The arguments of `new UpdateRef(this.targetBranch, this.updateId, sha)` stand as in the source.
unfoldable pub with_sha : JobRef → ShaRef → JobRef
with_sha (update_ref update_id target sha) sha' = update_ref target update_id sha'
with_sha (branch_ref b sha) sha' = branch_ref b sha'

abbrev pub delimiter : Text
delimiter = codes "::"

unfoldable pub fields : JobRef → List Text
fields (update_ref update_id target sha) = update_id ∷ target ∷ sha.sha ∷ []
fields (branch_ref b sha) = branch_name b ∷ sha.sha ∷ []

-- `this.constructor.name`
unfoldable pub constructor_name : JobRef → Text
constructor_name (update_ref update_id target sha) = codes "UpdateRef"
constructor_name (branch_ref b sha) = codes "BranchRef"

unfoldable pub serialize : JobRef → Text
serialize r = join delimiter (constructor_name r ∷ fields r)

-- A field that is not there is `undefined`, which `ShaRef.create` tests as the text "undefined".
unfoldable pub create_update : List Text → Result JobRef
create_update (id ∷ target ∷ sha ∷ _) = do s ← create_sha sha; ok (update_ref id target s)
create_update _ = err (codes "Bad sha ref: undefined")

unfoldable pub create_branch : List Text → Result JobRef
create_branch (b ∷ sha ∷ _) = do s ← create_sha sha; ok (branch_ref (branch b) s)
create_branch _ = err (codes "Bad sha ref: undefined")

unfoldable pub from_parts : List Text → Result JobRef
from_parts [] = err (codes "Uknown job-ref-type: undefined.")
from_parts (head ∷ tail) =
    if head == codes "UpdateRef"
    then create_update tail
    else if head == codes "BranchRef"
    then create_branch tail
    else err (codes "Uknown job-ref-type: " ++ (head ++ codes "."))

unfoldable pub deserialize : Text → Result JobRef
deserialize serialized = from_parts (split delimiter serialized)

unfoldable pub equals : JobRef → JobRef → Bool
equals (update_ref id target sha) (update_ref id' target' sha') =
    Refs.equals (of_sha sha') (of_sha sha) && (id' == id && target' == target)
equals (branch_ref b sha) (branch_ref b' sha') =
    Refs.equals (of_sha sha') (of_sha sha)
    && Refs.equals (entity (of_branch b')) (entity (of_branch b))
equals _ _ = false

-- `JobExecutor.Key`
pub record JobKey : Type 0 where
  pub source : RepositorySource
  pub job_ref : JobRef

abbrev pub bar : Text
bar = b'|' ∷ []

unfoldable pub serialize_key : JobKey → Text
serialize_key k = Source.as_string k.source ++ (bar ++ serialize k.job_ref)

unfoldable pub key_from_parts : List Text → Result JobKey
key_from_parts (source ∷ ref ∷ _) = do
  s ← Source.create_from_string source
  r ← deserialize ref
  ok (record { source = s; job_ref = r })
key_from_parts (source ∷ []) = do
  s ← Source.create_from_string source
  err (codes "Cannot read properties of undefined (reading 'split')")
key_from_parts [] = err (codes "Cannot read properties of undefined (reading 'split')")

unfoldable pub deserialize_key : Text → Result JobKey
deserialize_key serialized = key_from_parts (split bar serialized)

unfoldable pub equals_key : JobKey → JobKey → Bool
equals_key this other = Source.equals this.source other.source && equals this.job_ref other.job_ref

unfoldable pub to_string : JobRef → Text
to_string (update_ref update_id target sha) =
    codes "UpdateJobRef:" ++ (update_id ++ (codes "@" ++ sha.sha))
to_string (branch_ref b sha) = codes "BranchJobRef:" ++ (branch_name b ++ (codes "@" ++ sha.sha))

unfoldable pub key_to_string : JobKey → Text
key_to_string k =
    codes "Job: "
    ++ (Source.as_string k.source ++ (codes "[" ++ (to_string k.job_ref ++ codes "]")))
