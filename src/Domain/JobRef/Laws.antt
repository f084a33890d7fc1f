-- ===== src/Domain/JobRef/Laws.antt =====
-- What identifies a job: equality, the queue that it stands in, and a change of its sha.
use common_build.Common.{◌≡◌, ◌↔◌, arith, true}
use common_build.Common.Text.{Text, eq_iff}
use common_build.Domain.Refs.{ShaRef, branch_name}
use common_build.Domain.Refs
use common_build.Domain.JobRef.{
  JobRef, update_ref, branch_ref, equals, constructor_name, fields, queue_id, canonical_id,
  with_sha,
}

-- Two job refs are equal exactly if their serialized forms have the same tag and fields.
pub equals_iff :
    (r s : JobRef)
    → (equals r s ≡ true) ↔ ((constructor_name r ≡ constructor_name s) × (fields r ≡ fields s))
unfolding equals constructor_name fields Refs.equals
equals_iff (update_ref id target sha) (update_ref id' target' sha') =
    ground (arith, eq_iff sha.sha sha'.sha, eq_iff id' id, eq_iff target' target)
equals_iff (branch_ref b sha) (branch_ref b' sha') =
    ground (arith, eq_iff sha.sha sha'.sha, eq_iff (branch_name b) (branch_name b'))
equals_iff (update_ref id target sha) (branch_ref b sha') = ground arith
equals_iff (branch_ref b sha) (update_ref id target sha') = ground arith

-- `withSha` of an update exchanges its id and its target: the copy stands in the same queue, and
-- in the same place of it, only if the two texts are the same.
pub with_sha-queue_id_iff :
    (id target : Text) (sha sha' : ShaRef)
    → let r = update_ref id target sha in
      ((queue_id (with_sha r sha') ≡ queue_id r)
        × (canonical_id (with_sha r sha') ≡ canonical_id r))
      ↔ (id ≡ target)
unfolding queue_id canonical_id with_sha
with_sha-queue_id_iff id target sha sha' = ground arith
