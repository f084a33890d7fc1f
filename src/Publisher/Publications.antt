-- ===== src/Publisher/Publications.antt =====
-- The publications of a configuration are complete, and can all be published.
use common_build.Common.{
  ◌≡◌, refl, ℕ, suc, Bool, true, false, List, [], ◌∷◌, map, All, All-append, Option, none, some,
}
use common_build.Common.Text.{Text}
use common_build.Common.Result.{Result, ok, err}
use common_build.Domain.Source.{is_truthy}
use common_build.Domain.Refs.{ShaRef}
use common_build.Domain.Version.{Version}
use common_build.Domain.Version
use common_build.Domain.DependencyRef.{DependencyRef, artifact_ref, image_ref, git_ref}
use common_build.Publisher.Listed.{listed, publications-IsOf}
use common_build.Publisher.{
  Artifact, Artifacts, Image, Images, PublicationConfig, or_else, required, then_required,
  artifact_publication, image_publication, cons_result, map_items, artifact_publications,
  image_publications, append_results, config_publications, publications, Storage, publish_artifact,
  publish_image, publish_one, publish, StorageCall, artifact_copied, image_copied,
}

unfoldable pub given : Option Text → Bool
given none = false
given (some t) = is_truthy t

-- A publication with all its parts
unfoldable pub IsComplete : DependencyRef → Type 0
IsComplete (artifact_ref remote repository path) = (given remote ≡ true) × (given repository ≡ true)
IsComplete (image_ref remote repository) = given remote ≡ true
IsComplete (git_ref source) = ⊥

abbrev AllComplete : Result (List DependencyRef) → Type 0
AllComplete (err m) = Unit
AllComplete (ok refs) = All IsComplete refs

abbrev OneComplete : Result DependencyRef → Type 0
OneComplete (err m) = Unit
OneComplete (ok r) = IsComplete r

then-OneComplete :
    (o : Option Text) (failure : Text) (f : Text → Result DependencyRef)
    → ((t : Text) → is_truthy t ≡ true → OneComplete (f t))
    → OneComplete (then_required (required o (err failure)) f)
unfolding required
then-OneComplete none failure f h = tt
then-OneComplete (some []) failure f h = tt
then-OneComplete (some (c ∷ t)) failure f h = h (c ∷ t) refl

artifact-OneComplete :
    (config : Artifacts) (artifact : Artifact) (index : ℕ)
    → OneComplete (artifact_publication config artifact index)
unfolding artifact_publication IsComplete given
artifact-OneComplete config artifact index =
    then-OneComplete (or_else artifact.repository config.repository) _ _ (λ repository h.
      then-OneComplete (or_else artifact.remote config.remote) _ _ (λ remote k. (k, h)))

image-OneComplete :
    (config : Images) (image : Image) (index : ℕ)
    → OneComplete (image_publication config image index)
unfolding image_publication IsComplete given
image-OneComplete config image index =
    then-OneComplete (or_else image.remote config.remote) _ _ (λ remote k. k)

cons-AllComplete :
    (r : Result DependencyRef) (rs : Result (List DependencyRef))
    → OneComplete r
    → AllComplete rs
    → AllComplete (cons_result r rs)
cons-AllComplete (err m) rs h k = tt
cons-AllComplete (ok r) (err m) h k = tt
cons-AllComplete (ok r) (ok rs) h k = (h, k)

map_items-AllComplete :
    {A : Type 0} (f : A → ℕ → Result DependencyRef) (index : ℕ) (xs : List A)
    → ((x : A) (i : ℕ) → OneComplete (f x i))
    → AllComplete (map_items f index xs)
unfolding map_items
map_items-AllComplete f index [] h = tt
map_items-AllComplete f index (x ∷ xs) h =
    cons-AllComplete (f x index) (map_items f (suc index) xs) (h x index)
      (map_items-AllComplete f (suc index) xs h)

append-AllComplete :
    (rs ss : Result (List DependencyRef))
    → AllComplete rs
    → AllComplete ss
    → AllComplete (append_results rs ss)
append-AllComplete (err m) ss h k = tt
append-AllComplete (ok rs) (err m) h k = tt
append-AllComplete (ok rs) (ok ss) h k = All-append IsComplete rs ss h k

artifacts-AllComplete : (a : Option Artifacts) → AllComplete (artifact_publications a)
artifacts-AllComplete none = tt
artifacts-AllComplete (some config) =
    map_items-AllComplete (artifact_publication config) 0 config.items (artifact-OneComplete config)

images-AllComplete : (i : Option Images) → AllComplete (image_publications i)
images-AllComplete none = tt
images-AllComplete (some config) =
    map_items-AllComplete (image_publication config) 0 config.items (image-OneComplete config)

publications-AllComplete :
    (config : Result (Option PublicationConfig)) → AllComplete (publications config)
unfolding publications config_publications
publications-AllComplete (err m) = tt
publications-AllComplete (ok none) = tt
publications-AllComplete (ok (some config)) =
    append-AllComplete (artifact_publications config.artifacts) (image_publications config.images)
      (artifacts-AllComplete config.artifacts) (images-AllComplete config.images)

-- A storage that has a registry for every remote, and copies all that is asked
pub record IsWilling (storage : Storage) : Type 0 where
  pub copies :
      (remote repository path : Option Text) (from to : Text)
      → storage.copy_artifact remote repository path from to ≡ ok tt
  pub has_registry : (remote : Option Text) → storage.registry remote ≡ true
  pub copies_images :
      (remote repository : Option Text) (from to : Text)
      → storage.copy_image remote repository from to ≡ ok tt

-- The copies that publish the refs: an artifact's and an image's name, from the sha to the version
unfoldable pub copies : List DependencyRef → ShaRef → Version → List StorageCall
copies [] sha v = []
copies (artifact_ref remote repository path ∷ refs) sha v =
    artifact_copied remote repository path sha.sha (Version.as_string v) ∷ copies refs sha v
copies (image_ref remote repository ∷ refs) sha v =
    image_copied remote repository sha.sha (Version.as_string v) ∷ copies refs sha v
copies (git_ref source ∷ refs) sha v = copies refs sha v

module _ (storage : Storage) (willing : IsWilling storage) (sha : ShaRef) (v : Version) where
  publish_complete :
      (refs : List DependencyRef)
      → All IsComplete refs
      → ((publish storage refs sha v).0 ≡ copies refs sha v)
        × ((publish storage refs sha v).1 ≡ ok (map (λ _. true) refs))
  unfolding publish publish_one publish_artifact publish_image copies IsComplete
  publish_complete [] h = (refl, refl)
  publish_complete (artifact_ref remote repository path ∷ rs) (h, hs) =
      let (others, all_done) = publish_complete rs hs in
      rw (willing.copies remote repository path sha.sha _, others, all_done) (refl, refl)
  publish_complete (image_ref remote repository ∷ rs) (h, hs) =
      let (others, all_done) = publish_complete rs hs in
      rw
        (
          willing.has_registry remote,
          willing.copies_images remote repository sha.sha _,
          others,
          all_done,
        )
        (refl, refl)
  publish_complete (git_ref source ∷ rs) (h, hs) = absurd h

-- The publications of a repository, if they are given, are those that its configuration lists (the
-- artifacts and then the images, an item's own remote and repository before the common ones), are
-- complete and none is a repository's ref, and where the storage copies all that it is asked, publishing them makes exactly one copy for
-- each, in order, of its remote, repository and path, from the sha to the version's text, and
-- answers true for each.
pub publish-publications :
    (storage : Storage) (config : Result (Option PublicationConfig)) (refs : List DependencyRef)
    (sha : ShaRef) (v : Version)
    → IsWilling storage
    → publications config ≡ ok refs
    → (refs ≡ listed config)
      × All IsComplete refs
      × ((publish storage refs sha v).0 ≡ copies refs sha v)
      × ((publish storage refs sha v).1 ≡ ok (map (λ _. true) refs))
publish-publications storage config refs sha v willing h =
    let complete : All IsComplete refs = rw h at (publications-AllComplete config) in
    let (copied, results) = publish_complete storage willing sha v refs complete in
    (rw h at (publications-IsOf config), complete, copied, results)
