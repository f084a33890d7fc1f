-- ===== src/Publisher/Examples.antt =====
-- The theorem about publications at a concrete configuration: an artifact and an image.
use common_build.Common.{◌≡◌, refl, List, [], ◌∷◌, All, map, true, none, some}
use common_build.Common.Text.{codes}
use common_build.Common.Result.{ok}
use common_build.Domain.DependencyRef.{DependencyRef, artifact_ref, image_ref}
use common_build.Publisher.{
  PublicationConfig, Storage, publications, publish, config_publications, artifact_publication,
  image_publication, or_else, required, map_items,
}
use common_build.Publisher.Listed.{listed}
use common_build.Publisher.Publications.{IsComplete, IsWilling, copies, publish-publications}

abbrev sample_config : PublicationConfig
sample_config = record {
  artifacts = some (record {
    items = record { path = codes "p"; remote = none; repository = none; properties = [] } ∷ [];
    remote = some (codes "a");
    repository = some (codes "r");
  });
  images = some (record {
    items = record { remote = some (codes "d"); name = codes "i" } ∷ [];
    remote = none;
  });
}

abbrev sample_refs : List DependencyRef
sample_refs =
    artifact_ref (some (codes "a")) (some (codes "r")) (some (codes "p"))
    ∷ image_ref (some (codes "d")) (some (codes "i"))
    ∷ []

abbrev sample_storage : Storage
sample_storage = record {
  copy_artifact = λ remote repository path from to. ok tt;
  registry = λ remote. true;
  copy_image = λ remote repository from to. ok tt;
  add_properties = λ remote repository path sha properties. ok tt;
}

sample_storage-IsWilling : IsWilling sample_storage
sample_storage-IsWilling = record {
  copies = λ remote repository path from to. refl;
  has_registry = λ remote. refl;
  copies_images = λ remote repository from to. refl;
}

sample_refs-published : publications (ok (some sample_config)) ≡ ok sample_refs
unfolding publications config_publications artifact_publication image_publication or_else required
    map_items
sample_refs-published = refl

publish-publications_example :
    (sample_refs ≡ listed (ok (some sample_config)))
    × All IsComplete sample_refs
    × ((publish sample_storage sample_refs
          (record { sha = codes "ab" })
          (record { segments = 1 ∷ 0 ∷ [] })).0
        ≡ copies sample_refs (record { sha = codes "ab" }) (record { segments = 1 ∷ 0 ∷ [] }))
    × ((publish sample_storage sample_refs
          (record { sha = codes "ab" })
          (record { segments = 1 ∷ 0 ∷ [] })).1
        ≡ ok (map (λ _. true) sample_refs))
publish-publications_example =
    publish-publications sample_storage (ok (some sample_config)) sample_refs
      (record { sha = codes "ab" }) (record { segments = 1 ∷ 0 ∷ [] }) sample_storage-IsWilling
      sample_refs-published
