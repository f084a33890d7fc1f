-- ===== src/BuildSystem/Release/Order.antt =====
-- What a release publishes and tags, in which order, and what becomes of errors.
use common_build.Common.{◌≡◌, refl, inl, inr, Bool, true, false, List, [], ◌∷◌, All, keep, some}
use common_build.Common.Text.{Text}
use common_build.Common.Result.{Result, ok, err, Result-cases}
use common_build.Lodash.{Lodash}
use common_build.Domain.Source.{RepositorySource}
use common_build.Domain.Refs.{Branch, of_sha, of_branch, entity}
use common_build.Domain.Version.{Version, compare, negative}
use common_build.Domain.DependencyRef.{DependencyRef}
use common_build.Repository.Model.{Root}
use common_build.Repository.Normalized.{normalize, main_branch}
use common_build.Repository.Ordered.{IsOrdered}
use common_build.Repository.Reader.{VersionType, next_version, all_versions}
use common_build.Repository.Reader.Next.{next_version-main}
use common_build.BuildSystem.Effects.{Effect, Services, published, tag_created}
use common_build.BuildSystem.Release.{
  tag_name, tag_message, publish_all, create_release_tag, release_version, released,
}

-- The calls that make a version public
unfoldable pub is_public : Effect → Bool
is_public (published refs sha v) = true
is_public (tag_created id path sha name message) = true
is_public _ = false

abbrev pub tag_of : RepositorySource → Branch → Version → Effect
tag_of source b v = tag_created source.id source.path b.sha (tag_name v) tag_message

abbrev if_ok : Result {0} Unit → Effect → List Effect
if_ok (err e) effect = []
if_ok (ok _) effect = effect ∷ []

abbrev then_ok : Result {0} Unit → Result Version → Result Version
then_ok (err e) result = err e
then_ok (ok _) result = result

-- These calls, by the answers about the publications and of publishing them
unfoldable pub release_calls :
    RepositorySource
    → Branch
    → Version
    → Result (List DependencyRef)
    → (List DependencyRef → Result {0} Unit)
    → List Effect
release_calls source b v (err e) publish = []
release_calls source b v (ok []) publish = tag_of source b v ∷ []
release_calls source b v (ok (r ∷ rs)) publish =
    published (r ∷ rs) b.sha v ∷ if_ok (publish (r ∷ rs)) (tag_of source b v)

-- The result, by the same answers and that of creating the tag
unfoldable pub release_result :
    Version
    → Result (List DependencyRef)
    → (List DependencyRef → Result {0} Unit)
    → Result {0} Unit
    → Result Version
release_result v (err e) publish tag = err e
release_result v (ok []) publish tag = then_ok tag (ok v)
release_result v (ok (r ∷ rs)) publish tag = then_ok (publish (r ∷ rs)) (then_ok tag (ok v))

module _ (services : Services) (lodash : Lodash) (source : RepositorySource) (b : Branch)
    (v : Version) where
  abbrev publish_answer : List DependencyRef → Result {0} Unit
  publish_answer refs = services.publish refs b.sha v

  abbrev tag_answer : Result {0} Unit
  tag_answer = services.create_tag source.id source.path b.sha (tag_name v) tag_message

  abbrev IsReleased : Result (List DependencyRef) → Type 0
  IsReleased publications =
      (keep is_public (release_version services lodash source b v).0
        ≡ release_calls source b v publications publish_answer)
      × ((release_version services lodash source b v).1
          ≡ release_result v publications publish_answer tag_answer)

  release_version-lem :
      (publications : Result (List DependencyRef))
      → services.publications source (of_sha b.sha) ≡ publications
      → IsReleased publications
  unfolding release_version publish_all create_release_tag is_public release_calls release_result
  release_version-lem (err e) h = rw h (refl, refl)
  release_version-lem (ok []) h = elim (Result-cases tag_answer) [
    | inl (m, t) ↦ rw (h, t) (refl, refl)
    | inr (_, t) ↦ rw (h, t) (refl, refl)
  ]
  release_version-lem (ok (r ∷ rs)) h = elim (Result-cases (publish_answer (r ∷ rs))) [
    | inl (m, p) ↦ rw (h, p) (refl, refl)
    | inr (_, p) ↦ elim (Result-cases tag_answer) [
      | inl (m, t) ↦ rw (h, p, t) (refl, refl)
      | inr (_, t) ↦ rw (h, p, t) (refl, refl)
    ]
  ]

-- What `release` of a branch does, with `v` the next version
pub record ReleaseEffect (services : Services) (lodash : Lodash) (source : RepositorySource)
    (b : Branch) (model : Root) (type : VersionType) : Type 0 where
  pub v : Version
  pub next : next_version lodash model b.ref type ≡ ok v
  pub above : All (λ w. compare w v ≡ negative) (all_versions model)
  pub calls :
      keep is_public (released services lodash source b type).0
      ≡ release_calls source b v
          (services.publications source (of_sha b.sha))
          (λ refs. services.publish refs b.sha v)
  pub result :
      (released services lodash source b type).1
      ≡ release_result v
          (services.publications source (of_sha b.sha))
          (λ refs. services.publish refs b.sha v)
          (services.create_tag source.id source.path b.sha (tag_name v) tag_message)

-- A release of the main branch, of a repository whose model is ordered, is of a version above every
-- version of the model. Its publications, if there are any, are published with that version before
-- the version is tagged; if they cannot be had or published, there is no tag; if the tag cannot be
-- created, they are published all the same. The release is rejected with the first of these errors,
-- and else gives the version.
pub released-ReleaseEffect :
    (services : Services) (lodash : Lodash) (source : RepositorySource) (b : Branch) (model : Root)
    (type : VersionType) (name : Text)
    → services.model source ≡ ok model
    → IsOrdered model
    → normalize (entity (of_branch b.ref)) ≡ some (main_branch name)
    → ReleaseEffect services lodash source b model type
unfolding released
released-ReleaseEffect services lodash source b model type name has_model ordered main =
    let (v, next, above) = next_version-main lodash model b.ref type name ordered main in
    let (calls, result) = release_version-lem services lodash source b v _ refl in
    record {
      v = v;
      next = next;
      above = above;
      calls = rw (has_model, next) calls;
      result = rw (has_model, next) result;
    }
