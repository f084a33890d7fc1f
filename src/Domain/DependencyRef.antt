-- ===== src/Domain/DependencyRef.antt =====
-- backend/src/domain-model/system-config/dependency-ref.ts: what a repository depends on, and the
-- texts by which it is stored. The class names are the tags of the serialized form.
pub mod RoundTrip
use common_build.Common.{
  Bool, ◌&&◌, List, [], ◌∷◌, ◌++◌, any, if◌then◌else◌, true, false, Option, none, some, map,
  get_elem?,
}
use common_build.Common.Text.{Text, codes, ◌==◌, split, join}
use common_build.Common.Result.{Result, ok, err, ◌>>=◌}
use common_build.Domain.Source.{RepositorySource}
use common_build.Domain.Source

-- A field that `create` does not find is `undefined`, which is kept as it is.
pub data DependencyRef : Type 0 where
  -- `ArtifactRef`: remote, repository, path
  artifact_ref : Option Text → Option Text → Option Text → DependencyRef
  -- `ImageRef`: remote, repository
  image_ref : Option Text → Option Text → DependencyRef
  git_ref : RepositorySource → DependencyRef

abbrev pub delimiter : Text
delimiter = codes "::"

-- `this.constructor.name`
unfoldable pub constructor_name : DependencyRef → Text
constructor_name (artifact_ref remote repository path) = codes "ArtifactRef"
constructor_name (image_ref remote repository) = codes "ImageRef"
constructor_name (git_ref source) = codes "GitRef"

unfoldable pub fields : DependencyRef → List (Option Text)
fields (artifact_ref remote repository path) = remote ∷ repository ∷ path ∷ []
fields (image_ref remote repository) = remote ∷ repository ∷ []
fields (git_ref source) = some (Source.serialize source) ∷ []

-- `join` writes nothing for `undefined`.
abbrev pub joined : Option Text → Text
joined none = []
joined (some t) = t

unfoldable pub serialize : DependencyRef → Text
serialize ref = join delimiter (constructor_name ref ∷ map joined (fields ref))

unfoldable pub create_artifact : List Text → DependencyRef
create_artifact parts = artifact_ref (get_elem? parts 0) (get_elem? parts 1) (get_elem? parts 2)

unfoldable pub create_image : List Text → DependencyRef
create_image parts = image_ref (get_elem? parts 0) (get_elem? parts 1)

unfoldable pub create_git : List Text → Result DependencyRef
create_git [] = err (codes "Cannot read properties of undefined (reading 'split')")
create_git (serialized ∷ _) = do s ← Source.deserialize serialized; ok (git_ref s)

unfoldable pub from_parts : List Text → Result DependencyRef
from_parts [] = err (codes "Uknown ref-type: undefined.")
from_parts (head ∷ tail) =
    if head == codes "ArtifactRef"
    then ok (create_artifact tail)
    else if head == codes "ImageRef"
    then ok (create_image tail)
    else if head == codes "GitRef"
    then create_git tail
    else err (codes "Uknown ref-type: " ++ (head ++ codes "."))

unfoldable pub deserialize : Text → Result DependencyRef
deserialize serialized = from_parts (split delimiter serialized)

abbrev same_field : Option Text → Option Text → Bool
same_field none none = true
same_field (some x) (some y) = x == y
same_field _ _ = false

-- `_.isEqual`
abbrev same_fields : List (Option Text) → List (Option Text) → Bool
same_fields [] [] = true
same_fields (x ∷ xs) (y ∷ ys) = same_field x y && same_fields xs ys
same_fields _ _ = false

unfoldable pub equals : DependencyRef → DependencyRef → Bool
equals this other =
    constructor_name this == constructor_name other && same_fields (fields other) (fields this)

abbrev shown : Option Text → Text
shown none = codes "undefined"
shown (some t) = t

unfoldable pub to_string : DependencyRef → Text
to_string (artifact_ref remote repository path) =
    codes "Artifact:"
    ++ (shown remote ++ (codes "/" ++ (shown repository ++ (codes "/" ++ shown path))))
to_string (image_ref remote repository) =
    codes "Image:" ++ (shown remote ++ (codes "/" ++ shown repository))
to_string (git_ref source) = codes "Git:" ++ Source.to_string source

-- `_.uniq`
unfoldable pub uniq : List Text → List Text → List Text
uniq acc [] = acc
uniq acc (t ∷ ts) = uniq (if any (λ s. s == t) acc then acc else acc ++ t ∷ []) ts

abbrev serialize_all : List DependencyRef → List Text
serialize_all [] = []
serialize_all (ref ∷ refs) = serialize ref ∷ serialize_all refs

unfoldable pub deserialize_all : List Text → Result (List DependencyRef)
deserialize_all [] = ok []
deserialize_all (t ∷ ts) = do ref ← deserialize t; refs ← deserialize_all ts; ok (ref ∷ refs)

unfoldable pub unique_refs : List DependencyRef → Result (List DependencyRef)
unique_refs refs = deserialize_all (uniq [] (serialize_all refs))
