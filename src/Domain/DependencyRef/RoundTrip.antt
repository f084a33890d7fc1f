-- ===== src/Domain/DependencyRef/RoundTrip.antt =====
-- Dependency refs survive the texts under which they are stored.
use common_build.Common.{◌≡◌, ◌∙◌, ap, refl, arith, List, some, [], ◌∷◌}
use common_build.Common.Text.{codes, ◌==◌, split, Text, join}
use common_build.Common.Text.Split.{split-cons, split-join, IsFree}
use common_build.Common.Result.{ok}
use common_build.Domain.Source
use common_build.Domain.Source.{RepositorySource}
use common_build.Domain.Source.RoundTrip as SourceTexts
use common_build.Domain.DependencyRef.{
  DependencyRef, artifact_ref, image_ref, git_ref, serialize, deserialize, fields, constructor_name,
  from_parts, create_artifact, create_image, create_git, delimiter,
}

-- The fields of an artifact or an image hold no colon; a source is read back from its own text, in
-- which the delimiter does not stand.
abbrev pub IsClean : DependencyRef → Type 0
IsClean (artifact_ref (some remote) (some repository) (some path)) =
    IsFree b':' remote × IsFree b':' repository × IsFree b':' path
IsClean (artifact_ref _ _ _) = ⊥
IsClean (image_ref (some remote) (some repository)) = IsFree b':' remote × IsFree b':' repository
IsClean (image_ref _ _) = ⊥
IsClean (git_ref source) =
    SourceTexts.IsSerializable source
    × (split delimiter (Source.serialize source) ≡ Source.serialize source ∷ [])

split-serialize_git :
    (source : RepositorySource)
    → split delimiter (Source.serialize source) ≡ Source.serialize source ∷ []
    → split delimiter (serialize (git_ref source)) ≡ codes "GitRef" ∷ Source.serialize source ∷ []
unfolding serialize fields constructor_name join
split-serialize_git source h =
    split-cons b':' (b':' ∷ []) (codes "GitRef") (Source.serialize source) (omega arith)
    ∙ ap (λ (ts : List Text). codes "GitRef" ∷ ts) h

split-serialize_artifact :
    (remote repository path : Text)
    → IsFree b':' remote
    → IsFree b':' repository
    → IsFree b':' path
    → split delimiter (serialize (artifact_ref (some remote) (some repository) (some path)))
      ≡ codes "ArtifactRef" ∷ remote ∷ repository ∷ path ∷ []
unfolding serialize fields constructor_name
split-serialize_artifact remote repository path h k l =
    split-join b':' (b':' ∷ []) (codes "ArtifactRef") (remote ∷ repository ∷ path ∷ [])
      (omega arith, (h, (k, (l, tt))))

split-serialize_image :
    (remote repository : Text)
    → IsFree b':' remote
    → IsFree b':' repository
    → split delimiter (serialize (image_ref (some remote) (some repository)))
      ≡ codes "ImageRef" ∷ remote ∷ repository ∷ []
unfolding serialize fields constructor_name
split-serialize_image remote repository h k =
    split-join b':' (b':' ∷ []) (codes "ImageRef") (remote ∷ repository ∷ [])
      (omega arith, (h, (k, tt)))

-- A dependency ref with all its fields is read back from its serialized form, if the fields of an
-- artifact or an image hold no colon, and if a source is serializable and its text is not split at
-- the delimiter.
pub deserialize-serialize_dependency_ref :
    (ref : DependencyRef) → IsClean ref → deserialize (serialize ref) ≡ ok ref
unfolding deserialize fields constructor_name from_parts create_artifact create_image create_git
    ◌==◌
deserialize-serialize_dependency_ref (artifact_ref (some remote) (some repository) (some path))
      (h, k, l) =
    rw (split-serialize_artifact remote repository path h k l) refl
deserialize-serialize_dependency_ref (artifact_ref _ _ _) h = absurd h
deserialize-serialize_dependency_ref (image_ref (some remote) (some repository)) (h, k) =
    rw (split-serialize_image remote repository h k) refl
deserialize-serialize_dependency_ref (image_ref _ _) h = absurd h
deserialize-serialize_dependency_ref (git_ref source) (h, k) =
    rw (split-serialize_git source k) (rw (SourceTexts.deserialize-serialize source h) refl)
