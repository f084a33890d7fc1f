-- ===== src/BuildSystem/Effects.antt =====
-- The services that the build system calls: their answers, which are parameters, and the calls that
-- change something, in order. Interfaces: backend/src/repositories/repository-access,
-- publisher/publisher-manager.ts and scanner/scanner-manager.ts beside it, and backend/src/system.
use common_build.Common.{ℕ, Bool, List, Option}
use common_build.Common.Text.{Text}
use common_build.Common.Result.{Result}
use common_build.Common.Promises.{Promise}
use common_build.Domain.Source.{RepositorySource}
use common_build.Domain.Refs.{ShaRef, Ref, EntityRef, Branch}
use common_build.Domain.JobRef.{JobKey}
use common_build.Domain.DependencyRef.{DependencyRef}
use common_build.Domain.Version.{Version}
use common_build.Queue.States.{State}
use common_build.Repository.Model.{Root}
use common_build.Scanner.Graph.{Graphs}
use common_build.BuildSystem.Actions.{RepositoryConfig}

-- `BuildLogEvents.Level`
pub data LogLevel : Type 0 where
  level_debug level_info level_warning level_error : LogLevel

-- A `Refs.Entity`: a branch or a tag with its sha
pub record Entity : Type 0 where
  pub ref : EntityRef
  pub sha : ShaRef

pub data Effect : Type 0 where
  -- the build log: message, level, repository, canonical id
  logged : Text → LogLevel → RepositorySource → Text → Effect
  -- the queue
  queue_pushed : JobKey → Effect
  queue_started : ℕ → Effect
  state_added : JobKey → State → Effect
  -- the job executor
  job_started : JobKey → Effect
  job_aborted : JobKey → Effect
  info_url_set : JobKey → Text → Effect
  -- the access to the repository store with this id: rebase, setValidBuild, merge, createTag
  rebased : Text → Text → Text → Effect
  valid_build_set : Text → Text → Text → ShaRef → Effect
  merged : Text → Text → Text → Effect
  tag_created : Text → Text → ShaRef → Text → Text → Effect
  -- the publisher
  meta_data_added : RepositorySource → ShaRef → Effect
  published : List DependencyRef → ShaRef → Version → Effect
  -- active repositories
  activated deactivated : RepositorySource → Effect
  -- the source cache
  ref_ensured : RepositorySource → Ref → Text → Effect
  entity_ensured : RepositorySource → Entity → Text → Effect
  deletion_ensured : RepositorySource → EntityRef → Effect
  defaults_fetched : RepositorySource → Effect
  pruned : RepositorySource → Effect
  -- the scanner, and the cache of its lookups
  dependencies_registered : RepositorySource → Effect
  lookups_invalidated : List DependencyRef → Effect
  -- `processByReferences`, for all repositories but this one
  processed_except : RepositorySource → List DependencyRef → Effect

-- A promise of the build system
abbrev pub Run : Type 0 → Type 0
Run A = Promise Effect A

-- What the services answer while one event is handled
pub record Services : Type 0 where
  pub log_url : RepositorySource → Text → Text
  pub rebase : Text → Text → Text → Result (Option ShaRef)
  pub dependency_graph : RepositorySource → ShaRef → Result Graphs
  pub repository_config : RepositorySource → Result (Option RepositoryConfig)
  -- whether there is a build configuration, read strictly or not, or the error of parsing it
  pub build_config : RepositorySource → ShaRef → Bool → Result Bool
  pub add_meta_data : RepositorySource → ShaRef → Result {0} Unit
  pub set_valid_build : Text → Text → Text → ShaRef → Result {0} Unit
  pub labels : Text → Text → Result (Option (List Text))
  pub merge : Text → Text → Text → Result Branch
  pub model : RepositorySource → Result Root
  pub publications : RepositorySource → Ref → Result (List DependencyRef)
  pub publish : List DependencyRef → ShaRef → Version → Result {0} Unit
  pub create_tag : Text → Text → ShaRef → Text → Text → Result {0} Unit
  pub add_state : JobKey → State → Result {0} Unit
  pub push : JobKey → Result {0} Unit
  pub ensure_ref : RepositorySource → Ref → Text → Result {0} Unit
  pub ensure_entity : RepositorySource → Entity → Text → Result {0} Unit
  pub ensure_deleted : RepositorySource → EntityRef → Result {0} Unit
  pub fetch_all_defaults : RepositorySource → Result {0} Unit
  pub prune : RepositorySource → Result {0} Unit
  pub register_dependencies : RepositorySource → Result {0} Unit
  pub invalidate : List DependencyRef → Result {0} Unit
