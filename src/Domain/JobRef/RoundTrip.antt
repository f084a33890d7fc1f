-- ===== src/Domain/JobRef/RoundTrip.antt =====
-- Job refs and job keys survive the texts under which they are stored.
use common_build.Common.{◌≡◌, refl, [], ◌∷◌, arith, true, ◌≡◌}
use common_build.Common.Text.{codes, ◌==◌}
use common_build.Common.Text.Split.{split-cons, split-one, split-join, IsFree}
use common_build.Common.Result.{ok}
use common_build.Domain.Source.{RepositorySource}
use common_build.Domain.Source
use common_build.Domain.Source.RoundTrip.{HasPlainId, create_from_string-as_string}
use common_build.Domain.Refs.{ShaRef, branch, branch_name, is_sha, create_sha}
use common_build.Domain.JobRef.{
  JobRef, JobKey, update_ref, branch_ref, serialize, deserialize, fields, constructor_name,
  from_parts, create_update, create_branch, serialize_key, deserialize_key, key_from_parts,
}

-- The fields hold no colon, the sha is one, and a branch is a plain one.
abbrev pub IsClean : JobRef → Type 0
IsClean (update_ref id target sha) =
    IsFree b':' id × IsFree b':' target × IsFree b':' sha.sha × (is_sha sha.sha ≡ true)
IsClean (branch_ref (branch n) sha) = IsFree b':' n × IsFree b':' sha.sha × (is_sha sha.sha ≡ true)
IsClean (branch_ref _ sha) = ⊥

create_sha_lem : (s : ShaRef) → is_sha s.sha ≡ true → create_sha s.sha ≡ ok s
unfolding create_sha
create_sha_lem s h = rw h refl

-- A job ref whose fields hold no colon, whose sha is one and whose branch is not the meta-config one
-- is read back from its serialized form.
deserialize-serialize_job_ref : (r : JobRef) → IsClean r → deserialize (serialize r) ≡ ok r
unfolding deserialize serialize fields branch_name constructor_name from_parts create_update
    create_branch ◌==◌
deserialize-serialize_job_ref (update_ref id target sha) h =
    rw
      (split-join b':' (b':' ∷ []) (codes "UpdateRef") (id ∷ target ∷ sha.sha ∷ [])
        (omega arith, (h.0, (h.1, (h.2, tt)))))
      (rw (create_sha_lem sha h.3) refl)
deserialize-serialize_job_ref (branch_ref (branch n) sha) h =
    rw
      (split-join b':' (b':' ∷ []) (codes "BranchRef") (n ∷ sha.sha ∷ [])
        (omega arith, (h.0, (h.1, tt))))
      (rw (create_sha_lem sha h.2) refl)
deserialize-serialize_job_ref (branch_ref _ sha) h = absurd h

-- What the queue needs of a job to store it under its text and read it back.
pub record IsStorable (k : JobKey) : Type 0 where
  pub source_plain : HasPlainId k.source
  pub source_free : IsFree b'|' (Source.as_string k.source)
  pub job_clean : IsClean k.job_ref
  pub job_free : IsFree b'|' (serialize k.job_ref)

-- A job key whose source has a plain id, whose job ref is clean, and both of whose texts hold no bar
-- is read back from its serialized form.
pub deserialize_key-serialize_key :
    (k : JobKey) → IsStorable k → deserialize_key (serialize_key k) ≡ ok k
unfolding deserialize_key serialize_key key_from_parts
deserialize_key-serialize_key k h =
    rw (split-cons b'|' [] (Source.as_string k.source) (serialize k.job_ref) h.source_free) (
      rw (split-one b'|' [] (serialize k.job_ref) h.job_free) (
        rw (create_from_string-as_string k.source h.source_plain)
          (rw (deserialize-serialize_job_ref k.job_ref h.job_clean) refl)))
