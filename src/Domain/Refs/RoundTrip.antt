-- ===== src/Domain/Refs/RoundTrip.antt =====
-- The remote name of a ref determines it.
use common_build.Common.{◌≡◌, refl, ap, ◌∙◌, ◌↔◌, List, [], ◌∷◌, ◌++◌, arith, true}
use common_build.Common.Text.{Text, split, codes, ◌==◌}
use common_build.Common.Text.Split.{split-cons, join-split, IsFree}
use common_build.Common.Result.{ok}
use common_build.Domain.Source.{slash}
use common_build.Domain.Refs.{
  EntityRef, of_branch, branch, meta_config, tag, remote_ref, branch_name, from_ref_parts,
  create_from_remote_ref, origin_ref, entity, create_sha, is_sha, ShaRef,
}

-- The two first parts of a remote ref.
split-refs :
    (a b rest : Text)
    → IsFree b'/' a
    → IsFree b'/' b
    → split slash (a ++ (slash ++ (b ++ (slash ++ rest)))) ≡ a ∷ b ∷ split slash rest
split-refs a b rest h k =
    split-cons b'/' [] a (b ++ (slash ++ rest)) h
    ∙ ap (λ (t : List Text). a ∷ t) (split-cons b'/' [] b rest k)

-- Every branch, tag and meta-config ref is read back from its remote name.
pub create_from_remote_ref-remote_ref :
    (r : EntityRef) → create_from_remote_ref (remote_ref r) ≡ ok r
unfolding create_from_remote_ref remote_ref from_ref_parts branch_name ◌==◌
create_from_remote_ref-remote_ref (of_branch (branch n)) =
    rw (split-refs (codes "refs") (codes "heads") n (omega arith) (omega arith))
      (ap (λ (t : Text). ok (of_branch (branch t))) (join-split b'/' [] n))
create_from_remote_ref-remote_ref (of_branch meta_config) = unfold split in refl
create_from_remote_ref-remote_ref (tag n) =
    rw (split-refs (codes "refs") (codes "tags") n (omega arith) (omega arith))
      (ap (λ (t : Text). ok (tag t)) (join-split b'/' [] n))

-- A branch is read back from its name among the remotes of the local clone.
create_from_remote_ref-origin_ref :
    (n : Text)
    → create_from_remote_ref (origin_ref (entity (of_branch (branch n))))
      ≡ ok (of_branch (branch n))
unfolding create_from_remote_ref origin_ref from_ref_parts branch_name ◌==◌
create_from_remote_ref-origin_ref n =
    rw
      (split-refs (codes "refs") (codes "remotes") (codes "origin/" ++ n) (omega arith)
        (omega arith))
      (rw (split-cons b'/' [] (codes "origin") n (omega arith))
        (ap (λ (t : Text). ok (of_branch (branch t))) (join-split b'/' [] n)))

-- `ShaRef.create` keeps the text that it accepts, which is then forty hexadecimal digits.
create_sha-eq-ok_iff :
    (t : Text) (s : ShaRef) → (create_sha t ≡ ok s) ↔ ((s.sha ≡ t) × (is_sha t ≡ true))
unfolding create_sha
create_sha-eq-ok_iff t s = ground arith
