-- ===== src/BuildSystem/Release/Calls.antt =====
-- What a release calls: the build log, the publisher, and the creation of the tag.
use common_build.Common.{List, [], ◌∷◌, All}
use common_build.Common.Text.{Text}
use common_build.Common.Promises.Laws.{All-chain, All-recover}
use common_build.Lodash.{Lodash}
use common_build.Domain.Source.{RepositorySource}
use common_build.Domain.Refs.{ShaRef, Branch, of_sha}
use common_build.Domain.Version.{Version}
use common_build.Domain.DependencyRef.{DependencyRef}
use common_build.Repository.Reader.{VersionType, next_version}
use common_build.BuildSystem.Effects.{Effect, Services, LogLevel, logged, published, tag_created}
use common_build.BuildSystem.Release.{
  tag_name, tag_message, publish_all, create_release_tag, release_version, released,
}

module _ (services : Services) (lodash : Lodash) (source : RepositorySource) (b : Branch)
    (P : Effect → Type 0)
    (of_log : (message : Text) (level : LogLevel) (s : RepositorySource) (canonical : Text)
      → P (logged message level s canonical))
    (of_publish : (refs : List DependencyRef) (sha : ShaRef) (v : Version)
      → P (published refs sha v))
    (of_tag : (id path : Text) (sha : ShaRef) (n m : Text) → P (tag_created id path sha n m)) where
  publish_all-All :
      (v : Version) (refs : List DependencyRef)
      → All P (publish_all services lodash source b v refs).0
  unfolding publish_all
  publish_all-All v [] = tt
  publish_all-All v (r ∷ rs) =
      All-chain P (published (r ∷ rs) b.sha v ∷ []) (services.publish (r ∷ rs) b.sha v) _
        (of_publish _ _ _, tt) (λ _. (of_log _ _ _ _, tt))

  create_release_tag-All : (v : Version) → All P (create_release_tag services lodash source b v).0
  unfolding create_release_tag
  create_release_tag-All v =
      All-recover P _ _ _
        (All-chain P (tag_created source.id source.path b.sha (tag_name v) tag_message ∷ [])
          (services.create_tag source.id source.path b.sha (tag_name v) tag_message) _
          (of_tag _ _ _ _ _, tt) (λ _. (of_log _ _ _ _, tt)))
        (λ m. (of_log _ _ _ _, tt))

  -- What holds of these calls holds of every call of a release.
  pub released-All : (type : VersionType) → All P (released services lodash source b type).0
  unfolding released release_version
  released-All type = All-chain P [] (services.model source) _ tt (λ model.
      All-chain P [] (next_version lodash model b.ref type) _ tt (λ v.
        All-recover P _ _ _
          (All-chain P [] (services.publications source (of_sha b.sha)) _ tt (λ refs.
            All-chain P (publish_all services lodash source b v refs).0
              (publish_all services lodash source b v refs).1 _ (publish_all-All v refs)
              (λ _. create_release_tag-All v)))
          (λ m. (of_log _ _ _ _, tt))))
