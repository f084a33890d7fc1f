-- ===== src/Publisher/Listed.antt =====
-- The publications of a configuration are the refs that it lists.
use common_build.Common.{◌≡◌, refl, ℕ, suc, List, [], ◌∷◌, ◌++◌, map, Option, none, some}
use common_build.Common.Text.{Text}
use common_build.Common.Result.{Result, ok, err}
use common_build.Domain.DependencyRef.{DependencyRef, artifact_ref, image_ref}
use common_build.Publisher.{
  Artifact, Artifacts, Image, Images, PublicationConfig, or_else, required, then_required,
  artifact_publication, image_publication, cons_result, map_items, artifact_publications,
  image_publications, append_results, config_publications, publications,
}

-- The refs that a configuration lists: an item's own remote and repository go before the common ones.
abbrev artifact_listed : Artifacts → Artifact → DependencyRef
artifact_listed config item =
    artifact_ref (or_else item.remote config.remote) (or_else item.repository config.repository)
      (some item.path)

abbrev image_listed : Images → Image → DependencyRef
image_listed config item = image_ref (or_else item.remote config.remote) (some item.name)

abbrev artifacts_listed : Option Artifacts → List DependencyRef
artifacts_listed none = []
artifacts_listed (some config) = map (artifact_listed config) config.items

abbrev images_listed : Option Images → List DependencyRef
images_listed none = []
images_listed (some config) = map (image_listed config) config.items

unfoldable pub listed : Result (Option PublicationConfig) → List DependencyRef
listed (err m) = []
listed (ok none) = []
listed (ok (some config)) = artifacts_listed config.artifacts ++ images_listed config.images

abbrev pub IsOf : {A : Type 0} → Result A → A → Type 0
IsOf (err m) expected = Unit
IsOf (ok a) expected = a ≡ expected

then-IsOf :
    (o : Option Text) (failure : Text) (f : Text → Result DependencyRef) (expected : DependencyRef)
    → ((t : Text) → o ≡ some t → IsOf (f t) expected)
    → IsOf (then_required (required o (err failure)) f) expected
unfolding required
then-IsOf none failure f expected h = tt
then-IsOf (some []) failure f expected h = tt
then-IsOf (some (c ∷ t)) failure f expected h = h (c ∷ t) refl

artifact-IsOf :
    (config : Artifacts) (item : Artifact) (index : ℕ)
    → IsOf (artifact_publication config item index) (artifact_listed config item)
unfolding artifact_publication
artifact-IsOf config item index =
    then-IsOf (or_else item.repository config.repository) _ _ _ (λ repository h.
      then-IsOf (or_else item.remote config.remote) _ _ _ (λ remote k. rw (h, k) refl))

image-IsOf :
    (config : Images) (item : Image) (index : ℕ)
    → IsOf (image_publication config item index) (image_listed config item)
unfolding image_publication
image-IsOf config item index =
    then-IsOf (or_else item.remote config.remote) _ _ _ (λ remote k. rw k refl)

cons-IsOf :
    (r : Result DependencyRef) (rs : Result (List DependencyRef)) (e : DependencyRef)
    (es : List DependencyRef)
    → IsOf r e
    → IsOf rs es
    → IsOf (cons_result r rs) (e ∷ es)
cons-IsOf (err m) rs e es h k = tt
cons-IsOf (ok r) (err m) e es h k = tt
cons-IsOf (ok r) (ok rs) e es h k = rw (h, k) refl

map_items-IsOf :
    {A : Type 0} (f : A → ℕ → Result DependencyRef) (g : A → DependencyRef) (index : ℕ)
    (xs : List A)
    → ((x : A) (i : ℕ) → IsOf (f x i) (g x))
    → IsOf (map_items f index xs) (map g xs)
unfolding map_items
map_items-IsOf f g index [] h = refl
map_items-IsOf f g index (x ∷ xs) h =
    cons-IsOf (f x index) (map_items f (suc index) xs) (g x) (map g xs) (h x index)
      (map_items-IsOf f g (suc index) xs h)

append-IsOf :
    (rs ss : Result (List DependencyRef)) (es fs : List DependencyRef)
    → IsOf rs es
    → IsOf ss fs
    → IsOf (append_results rs ss) (es ++ fs)
append-IsOf (err m) ss es fs h k = tt
append-IsOf (ok rs) (err m) es fs h k = tt
append-IsOf (ok rs) (ok ss) es fs h k = rw (h, k) refl

artifacts-IsOf : (a : Option Artifacts) → IsOf (artifact_publications a) (artifacts_listed a)
artifacts-IsOf none = refl
artifacts-IsOf (some config) =
    map_items-IsOf (artifact_publication config) (artifact_listed config) 0 config.items
      (artifact-IsOf config)

images-IsOf : (i : Option Images) → IsOf (image_publications i) (images_listed i)
images-IsOf none = refl
images-IsOf (some config) =
    map_items-IsOf (image_publication config) (image_listed config) 0 config.items
      (image-IsOf config)

pub publications-IsOf :
    (config : Result (Option PublicationConfig)) → IsOf (publications config) (listed config)
unfolding publications config_publications listed
publications-IsOf (err m) = tt
publications-IsOf (ok none) = refl
publications-IsOf (ok (some config)) =
    append-IsOf (artifact_publications config.artifacts) (image_publications config.images)
      (artifacts_listed config.artifacts) (images_listed config.images)
      (artifacts-IsOf config.artifacts) (images-IsOf config.images)
