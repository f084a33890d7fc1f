-- ===== src/BuildSystem/Events.antt =====
-- backend/src/system/build-system-impl.ts: what is done when a change, a branch or a tag was updated
-- or deleted at a repository.
pub mod Updates
use common_build.Common.{Bool, true, false, List, [], ◌∷◌, ◌++◌, Option, none, some, if◌then◌else◌}
use common_build.Common.Text.{Text, codes}
use common_build.Common.Result.{Result, ok, err}
use common_build.Common.Promises.{pure, fail, emit, ask, tell, catch, ◌>>=◌}
use common_build.Domain.Source.{RepositorySource}
use common_build.Domain.Refs.{ShaRef, Ref, EntityRef, of_branch, of_sha, entity, ref_spec}
use common_build.Domain.JobRef.{JobKey, update_ref, canonical_id}
use common_build.Domain.DependencyRef.{DependencyRef, git_ref}
use common_build.Repository.Normalized.{NormalizedRef, normalize, main_branch, release_tag}
use common_build.BuildSystem.Actions.{RepositoryConfig, is_active}
use common_build.BuildSystem.Effects.{
  Effect, Entity, Services, Run, LogLevel, level_info, level_warning, level_error, logged,
  queue_pushed, info_url_set, activated, deactivated, ref_ensured, entity_ensured, deletion_ensured,
  defaults_fetched, pruned, dependencies_registered, lookups_invalidated, processed_except,
}
use common_build.BuildSystem.Release.{shown_error}

-- `Update`, without its title, labels and url
pub record Update : Type 0 where
  pub source : RepositorySource
  pub id : Text
  pub sha : ShaRef
  pub target : Text
  pub ref_spec : Text

-- `BuildConfig.Config | false | Error`
pub data BuildCheck : Type 0 where
  no_config has_config : BuildCheck
  bad_config : Text → BuildCheck

abbrev check_of : Result Bool → BuildCheck
check_of (ok true) = has_config
check_of (ok false) = no_config
check_of (err e) = bad_config e

abbrev job_of : Update → JobKey
job_of u = record { source = u.source; job_ref = update_ref u.id u.target u.sha }

-- `BuildConfig.FILE_PATH` is a parameter: `DomainFiles` builds it.
module _ (system_id file_path : Text) (services : Services) where
  -- `getBuildConfigIfActive`
  unfoldable pub build_config_if_active : RepositorySource → ShaRef → Run BuildCheck
  build_config_if_active source sha = ask (services.repository_config source) >>= (λ config. pure (
      if is_active system_id config
      then check_of (services.build_config source sha true)
      else no_config))

  abbrev log_update : Update → Text → LogLevel → Run Unit
  log_update u message level =
      emit (logged message level u.source (canonical_id (job_of u).job_ref))

  -- `setInfoUrl`, whose promise is not waited for
  abbrev set_info_url : Update → Run Unit
  set_info_url u =
      emit (info_url_set (job_of u) (services.log_url u.source (canonical_id (job_of u).job_ref)))

  unfoldable pub update_checked : Update → Text → Bool → BuildCheck → Run Unit
  update_checked u message is_error no_config = pure tt
  update_checked u message is_error (bad_config e) = set_info_url u >>= (λ _.
      log_update u (codes "Parse error on `" ++ (file_path ++ (codes "`: " ++ shown_error e)))
        level_error)
  update_checked u message true has_config =
      set_info_url u >>= (λ _. log_update u message level_warning)
  update_checked u message false has_config = set_info_url u >>= (λ _.
      log_update u message level_info >>= (λ _.
        emit (activated u.source)
        >>= (λ _. tell (queue_pushed (job_of u)) (services.push (job_of u)))))

  -- `onUpdate`
  unfoldable pub on_update : Update → Text → Bool → Run Unit
  on_update u message is_error =
      catch
        (tell (ref_ensured u.source (of_sha u.sha) u.ref_spec)
            (services.ensure_ref u.source (of_sha u.sha) u.ref_spec)
          >>= (λ _.
              build_config_if_active u.source u.sha
              >>= (λ check. update_checked u message is_error check)))
        (λ e. pure tt)

  -- The cache is told of a branch with its sha, of a tag by itself.
  unfoldable pub ensure : RepositorySource → Entity → EntityRef → Run Unit
  ensure source e (of_branch b) =
      tell (entity_ensured source e (ref_spec (of_branch b)))
        (services.ensure_entity source e (ref_spec (of_branch b)))
  ensure source e r =
      tell (ref_ensured source (entity r) (ref_spec r))
        (services.ensure_ref source (entity r) (ref_spec r))

  unfoldable pub released_tag : RepositorySource → EntityRef → Run Unit
  released_tag source r = ask (services.publications source (entity r)) >>= (λ publications.
      catch
        (tell (lookups_invalidated (git_ref source ∷ publications))
            (services.invalidate (git_ref source ∷ publications))
          >>= (λ _. emit (processed_except source (git_ref source ∷ publications))))
        (λ e. pure tt))

  unfoldable pub main_pushed : RepositorySource → ShaRef → Run Unit
  main_pushed source sha =
      ask (services.build_config source sha false)
      >>= (λ has. if has then emit (activated source) else emit (deactivated source))

  unfoldable pub registered : RepositorySource → Entity → NormalizedRef → Run Unit
  registered source e (main_branch name) = main_pushed source e.sha
  registered source e (release_tag first others) = released_tag source e.ref
  registered source e _ = pure tt

  unfoldable pub normalized : RepositorySource → Entity → Option NormalizedRef → Run Unit
  normalized source e none = pure tt
  normalized source e (some r) =
      tell (dependencies_registered source) (services.register_dependencies source)
      >>= (λ _. registered source e r)

  unfoldable pub push_checked : RepositorySource → Entity → BuildCheck → Run Unit
  push_checked source e has_config = normalized source e (normalize (entity e.ref))
  push_checked source e _ = pure tt

  -- One run of `command` in `onPush`
  unfoldable pub push_command : RepositorySource → Entity → Run Unit
  push_command source e =
      ensure source e e.ref
      >>= (λ _. build_config_if_active source e.sha >>= (λ check. push_checked source e check))

  abbrev if_active : Run Unit → Option RepositoryConfig → Run Unit
  if_active action config = if is_active system_id config then action else pure tt

  -- `onDelete`
  unfoldable pub on_delete : RepositorySource → EntityRef → Run Unit
  on_delete source r =
      catch
        (ask (services.repository_config source) >>= (λ config.
          if_active (tell (deletion_ensured source r) (services.ensure_deleted source r)) config))
        (λ e. pure tt)

  -- `onPrune`
  unfoldable pub on_prune : RepositorySource → Run Unit
  on_prune source =
      ask (services.repository_config source)
      >>= (λ config. if_active (tell (pruned source) (services.prune source)) config)

-- `onPush`: the command again, after all was fetched, where the services may answer anew
unfoldable pub on_push : Text → Text → Services → Services → RepositorySource → Entity → Run Unit
on_push system_id file_path first second source e =
    catch
      (catch (push_command system_id file_path first source e) (λ message.
        tell (defaults_fetched source) (first.fetch_all_defaults source)
        >>= (λ _. push_command system_id file_path second source e)))
      (λ message. pure tt)
