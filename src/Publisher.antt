-- ===== src/Publisher.antt =====
-- backend/src/repositories/publisher/publisher-manager-impl.ts, with the classes of
-- backend/src/domain-model/system-config/publication-config.ts that it reads: what a repository
-- publishes. The configuration, Artifactory and the image registries are parameters.
pub mod Listed
pub mod Publications
mod Examples
use common_build.Common.{
  ℕ, suc, Bool, true, false, List, [], ◌∷◌, ◌++◌, map, Option, none, some, if◌then◌else◌,
}
use common_build.Common.Text.{Text, codes, ◌==◌}
use common_build.Common.Decimal.{print}
use common_build.Common.Result.{Result, ok, err}
use common_build.Common.Promises.{Promise, pure, fail, ask, tell, catch, both, done, ◌>>=◌}
use common_build.Domain.Source.{RepositorySource, as_string}
use common_build.Domain.Refs.{ShaRef}
use common_build.Domain.Version.{Version}
use common_build.Domain.Version
use common_build.Domain.DependencyRef.{DependencyRef, artifact_ref, image_ref, git_ref, to_string}

-- `PublicationConfig.Artifact`, without its qualifiers, and `Artifacts`
pub record Artifact : Type 0 where
  pub path : Text
  pub remote : Option Text
  pub repository : Option Text
  pub properties : List (Text × Text)

pub record Artifacts : Type 0 where
  pub items : List Artifact
  pub remote : Option Text
  pub repository : Option Text

pub record Image : Type 0 where
  pub remote : Option Text
  pub name : Text

pub record Images : Type 0 where
  pub items : List Image
  pub remote : Option Text

pub record PublicationConfig : Type 0 where
  pub artifacts : Option Artifacts
  pub images : Option Images

-- `a || b`
unfoldable pub or_else : Option Text → Option Text → Option Text
or_else none b = b
or_else (some []) b = b
or_else (some (c ∷ t)) b = some (c ∷ t)

abbrev missing {ℓ} : {A : Type ℓ} → Text → Text → ℕ → Result A
missing field kind index = err (
    codes "Missing "
    ++ (field ++ (codes " for " ++ (kind ++ (codes "[" ++ (print index ++ codes "]"))))))

-- A text that `if (!text)` lets pass
unfoldable pub required : Option Text → Result Text → Result Text
required none failure = failure
required (some []) failure = failure
required (some (c ∷ t)) failure = ok (c ∷ t)

abbrev pub then_required : {A : Type 0} → Result Text → (Text → Result A) → Result A
then_required (err m) f = err m
then_required (ok t) f = f t

unfoldable pub artifact_publication : Artifacts → Artifact → ℕ → Result DependencyRef
artifact_publication config artifact index =
    then_required
      (required (or_else artifact.repository config.repository)
        (missing (codes "repository") (codes "artifact") index))
      (λ repository.
        then_required
          (required (or_else artifact.remote config.remote)
            (missing (codes "remote") (codes "artifact") index))
          (λ remote. ok (artifact_ref (some remote) (some repository) (some artifact.path))))

unfoldable pub image_publication : Images → Image → ℕ → Result DependencyRef
image_publication config image index =
    then_required
      (required (or_else image.remote config.remote)
        (missing (codes "remote") (codes "image") index))
      (λ remote. ok (image_ref (some remote) (some image.name)))

abbrev pub cons_result :
    Result DependencyRef → Result (List DependencyRef) → Result (List DependencyRef)
cons_result (err m) rest = err m
cons_result (ok r) (err m) = err m
cons_result (ok r) (ok rs) = ok (r ∷ rs)

-- `items.map((item, index) => ...)`, from an index on
unfoldable pub map_items :
    {A : Type 0} → (A → ℕ → Result DependencyRef) → ℕ → List A → Result (List DependencyRef)
map_items f index [] = ok []
map_items f index (x ∷ xs) = cons_result (f x index) (map_items f (suc index) xs)

abbrev pub artifact_publications : Option Artifacts → Result (List DependencyRef)
artifact_publications none = ok []
artifact_publications (some config) = map_items (artifact_publication config) 0 config.items

abbrev pub image_publications : Option Images → Result (List DependencyRef)
image_publications none = ok []
image_publications (some config) = map_items (image_publication config) 0 config.items

abbrev pub append_results :
    Result (List DependencyRef) → Result (List DependencyRef) → Result (List DependencyRef)
append_results (err m) rest = err m
append_results (ok rs) (err m) = err m
append_results (ok rs) (ok ss) = ok (rs ++ ss)

unfoldable pub config_publications : Option PublicationConfig → Result (List DependencyRef)
config_publications none = ok []
config_publications (some config) =
    append_results (artifact_publications config.artifacts) (image_publications config.images)

-- `publications`, on the configuration's file
unfoldable pub publications : Result (Option PublicationConfig) → Result (List DependencyRef)
publications (err m) = err m
publications (ok config) = config_publications config

-- The calls of Artifactory and of a registry
pub data StorageCall : Type 0 where
  -- remote, repository, path, from, to
  artifact_copied : Option Text → Option Text → Option Text → Text → Text → StorageCall
  image_copied : Option Text → Option Text → Text → Text → StorageCall
  -- remote, repository, path, sha, properties
  properties_added : Option Text → Option Text → Text → ShaRef → List (Text × Text) → StorageCall

pub record Storage : Type 0 where
  pub copy_artifact : Option Text → Option Text → Option Text → Text → Text → Result {0} Unit
  -- `none` where no registry is configured for the remote
  pub registry : Option Text → Bool
  pub copy_image : Option Text → Option Text → Text → Text → Result {0} Unit
  pub add_properties :
      Option Text → Option Text → Text → ShaRef → List (Text × Text) → Result {0} Unit

abbrev remote_text : Option Text → Text
remote_text none = codes "undefined"
remote_text (some t) = t

-- `record[k] = v`
unfoldable pub set_property : Text → Text → List (Text × Text) → List (Text × Text)
set_property k v [] = (k, v) ∷ []
set_property k v ((j, w) ∷ rest) =
    let later = set_property k v rest in if j == k then (j, v) ∷ rest else (j, w) ∷ later

unfoldable pub set_properties : List (Text × Text) → List (Text × Text) → List (Text × Text)
set_properties [] acc = acc
set_properties ((k, v) ∷ entries) acc = set_properties entries (set_property k v acc)

-- `PublicationRepositoryMetaDataKeys.id`
abbrev pub repository_id_key : Text
repository_id_key = codes "repository.id"

module _ (storage : Storage) where
  unfoldable pub publish_artifact :
      Option Text → Option Text → Option Text → ShaRef → Version → Promise StorageCall Unit
  publish_artifact remote repository path sha v =
      tell (artifact_copied remote repository path sha.sha (Version.as_string v))
        (storage.copy_artifact remote repository path sha.sha (Version.as_string v))

  unfoldable pub publish_image :
      Option Text → Option Text → ShaRef → Version → Promise StorageCall Unit
  publish_image remote repository sha v =
      if storage.registry remote
      then tell (image_copied remote repository sha.sha (Version.as_string v))
          (storage.copy_image remote repository sha.sha (Version.as_string v))
      else fail (
          codes "Can not publish docker-image to "
          ++ (remote_text remote ++ codes ". Missing configuration."))

  unfoldable pub publish_one : DependencyRef → ShaRef → Version → Promise StorageCall Bool
  publish_one (artifact_ref remote repository path) sha v =
      publish_artifact remote repository path sha v >>= (λ _. pure true)
  publish_one (image_ref remote repository) sha v =
      publish_image remote repository sha v >>= (λ _. pure true)
  publish_one (git_ref source) sha v = pure false

  abbrev pub collected : Result Bool → Result (List Bool) → Result (List Bool)
  collected (err m) rest = err m
  collected (ok b) (err m) = err m
  collected (ok b) (ok bs) = ok (b ∷ bs)

  -- `publish`: all copies are begun, whatever becomes of the others.
  unfoldable pub publish : List DependencyRef → ShaRef → Version → Promise StorageCall (List Bool)
  publish [] sha v = pure []
  publish (r ∷ rs) sha v = (
    (publish_one r sha v).0 ++ (publish rs sha v).0,
    collected (publish_one r sha v).1 (publish rs sha v).1,
  )

  unfoldable pub add_artifact_data :
      RepositorySource → ShaRef → Artifacts → Artifact → Promise StorageCall Unit
  add_artifact_data source sha config item =
      let remote = or_else item.remote config.remote in
      let repository = or_else item.repository config.repository in
      let properties =
        set_property repository_id_key (as_string source) (set_properties item.properties []) in
      catch
        (tell (properties_added remote repository item.path sha properties)
          (storage.add_properties remote repository item.path sha properties))
        (λ e. fail (
          codes "Failed to publish meta-data for artifact "
          ++ (to_string (artifact_ref remote repository (some item.path))
              ++ (codes " in " ++ (sha.sha ++ (codes ": Error: " ++ e))))))

  unfoldable pub add_all_data :
      RepositorySource → ShaRef → Artifacts → List Artifact → Promise StorageCall Unit
  add_all_data source sha config [] = pure tt
  add_all_data source sha config (item ∷ items) =
      both (add_artifact_data source sha config item) (add_all_data source sha config items)

  abbrev artifacts_data : RepositorySource → ShaRef → Option Artifacts → Promise StorageCall Unit
  artifacts_data source sha none = pure tt
  artifacts_data source sha (some config) = add_all_data source sha config config.items

  abbrev config_data :
      RepositorySource → ShaRef → Option PublicationConfig → Promise StorageCall Unit
  config_data source sha none = pure tt
  config_data source sha (some config) = artifacts_data source sha config.artifacts

  -- `addMetaData`, on the configuration's file. Images have no meta data.
  unfoldable pub add_meta_data :
      RepositorySource → ShaRef → Result (Option PublicationConfig) → Promise StorageCall Unit
  add_meta_data source sha config = ask config >>= (λ c. config_data source sha c)
