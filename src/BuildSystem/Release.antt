-- ===== src/BuildSystem/Release.antt =====
-- backend/src/system/build-system-impl.ts: `release`, the next version of a branch published and
-- tagged.
pub mod Calls
pub mod Order
use common_build.Common.{Bool, true, false, List, [], ◌∷◌, ◌++◌, map, Option, none, some}
use common_build.Common.Text.{Text, codes, join}
use common_build.Common.Result.{Result, ok, err}
use common_build.Common.Promises.{pure, fail, emit, ask, tell, catch, ◌>>=◌}
use common_build.Lodash.{Lodash}
use common_build.Domain.Source.{RepositorySource}
use common_build.Domain.Refs.{ShaRef, Branch, Ref, of_sha}
use common_build.Domain.JobRef.{branch_ref, canonical_id}
use common_build.Domain.Version.{Version, as_string}
use common_build.Domain.DependencyRef.{DependencyRef, to_string}
use common_build.Repository.Model.{Root}
use common_build.Repository.Reader.{VersionType, next_version}
use common_build.BuildSystem.Effects.{
  Effect, Services, Run, LogLevel, level_info, level_error, logged, published, tag_created,
}

-- An `Error` in a template text
abbrev pub shown_error : Text → Text
shown_error message = codes "Error: " ++ message

abbrev pub tag_message : Text
tag_message = codes "Released by Common-build"

abbrev pub tag_name : Version → Text
tag_name v = codes "v" ++ as_string v

abbrev published_ref : Version → DependencyRef → Text
published_ref v ref = codes "`" ++ (to_string ref ++ (codes ":" ++ (as_string v ++ codes "`")))

module _ (services : Services) (lodash : Lodash) (source : RepositorySource) (b : Branch) where
  abbrev log_branch : Text → LogLevel → Run Unit
  log_branch message level =
      emit (logged message level source (canonical_id (branch_ref b.ref b.sha)))

  unfoldable pub publish_all : Version → List DependencyRef → Run Unit
  publish_all v [] = pure tt
  publish_all v (r ∷ rs) =
      tell (published (r ∷ rs) b.sha v) (services.publish (r ∷ rs) b.sha v) >>= (λ _.
        log_branch
          (codes "Published references: " ++ join (codes ", ") (map (published_ref v) (r ∷ rs)))
          level_info)

  unfoldable pub create_release_tag : Version → Run Version
  create_release_tag v =
      catch
        (tell (tag_created source.id source.path b.sha (tag_name v) tag_message)
            (services.create_tag source.id source.path b.sha (tag_name v) tag_message)
          >>= (λ _.
              log_branch (codes "Released version `" ++ (as_string v ++ codes "`")) level_info
              >>= (λ _. pure v)))
        (λ e.
          log_branch (codes "Could not create Git-release: " ++ shown_error e) level_error
          >>= (λ _. fail e))

  unfoldable pub release_version : Version → Run Version
  release_version v =
      catch
        (ask (services.publications source (of_sha b.sha))
          >>= (λ refs. publish_all v refs >>= (λ _. create_release_tag v)))
        (λ e.
          log_branch (codes "Could not publish binaries. " ++ shown_error e) level_error
          >>= (λ _. fail e))

  -- `release`
  unfoldable pub released : VersionType → Run Version
  released type =
      ask (services.model source)
      >>= (λ model. ask (next_version lodash model b.ref type) >>= (λ v. release_version v))
