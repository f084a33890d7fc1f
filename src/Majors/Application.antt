-- ===== src/Majors/Application.antt =====
-- backend/src/repositories/majors/major-application-service.ts: a new value of a major serie is
-- applied to a repository by a tag on its main branch. The configuration, the model and the creation
-- of the tag are parameters.
pub mod Created
use common_build.Common.{
  ℕ, Bool, true, false, ◌||◌, List, [], ◌∷◌, ◌++◌, Option, none, some, if◌then◌else◌, ltb,
}
use common_build.Common.Text.{Text, codes, ◌==◌}
use common_build.Common.Decimal.{print}
use common_build.Common.Result.{Result, ok, err}
use common_build.Common.Promises.{Promise, pure, ask, tell, catch, ◌>>=◌}
use common_build.Domain.Source.{RepositorySource}
use common_build.Domain.Refs.{ShaRef, create_sha}
use common_build.Majors.{Value}
use common_build.Repository.Model.{Root}
use common_build.BuildSystem.Actions.{RepositoryConfig, MajorSerie}

-- `MajorApplicationResult.Action`
pub data ApplyAction : Type 0 where
  exists created manual not_subscribed missing_config failed : ApplyAction

-- A tag that was asked for: repository, sha, name
pub record TagCall : Type 0 where
  pub source : RepositorySource
  pub sha : ShaRef
  pub name : Text

pub record Services : Type 0 where
  pub repository_config : RepositorySource → Result (Option RepositoryConfig)
  pub model : RepositorySource → Result Root
  pub create_tag : RepositorySource → ShaRef → Text → Result {0} Unit

abbrev pub major_name : ℕ → Text
major_name n = codes "major-" ++ print n

module _ (services : Services) (source : RepositorySource) (value : Value) where
  unfoldable pub create_major_tag : ShaRef → Promise TagCall ApplyAction
  create_major_tag sha =
      catch
        (tell (record { source = source; sha = sha; name = major_name value.value })
            (services.create_tag source sha (major_name value.value))
          >>= (λ _. pure created))
        (λ e. pure exists)

  unfoldable pub apply_to : Root → Promise TagCall ApplyAction
  apply_to model =
      if ltb model.main.major value.value
      then (ask (create_sha model.main.main.sha) >>= (λ sha. create_major_tag sha))
      else pure exists

  unfoldable pub process_serie : Bool → MajorSerie → Promise TagCall ApplyAction
  process_serie force_apply serie =
      if serie.id == value.id
      then (if serie.auto_apply || force_apply
          then (ask (services.model source) >>= (λ model. apply_to model))
          else pure manual)
      else pure not_subscribed

  abbrev pub subscribed : Bool → Option MajorSerie → Promise TagCall ApplyAction
  subscribed force_apply none = pure not_subscribed
  subscribed force_apply (some serie) = process_serie force_apply serie

  abbrev pub configured : Bool → Option RepositoryConfig → Promise TagCall ApplyAction
  configured force_apply none = pure missing_config
  configured force_apply (some config) = subscribed force_apply config.major_serie

  -- `processSource`
  unfoldable pub process_source : Bool → Promise TagCall ApplyAction
  process_source force_apply =
      catch (ask (services.repository_config source) >>= (λ config. configured force_apply config))
        (λ e. pure failed)

  -- `applyMajor`
  unfoldable pub apply_major : Promise TagCall ApplyAction
  apply_major = process_source true

-- `MajorApplicationResult.Result`
pub record Applied : Type 0 where
  pub action : ApplyAction
  pub source : RepositorySource

abbrev add_result :
    RepositorySource
    → Promise TagCall ApplyAction
    → Promise TagCall (List Applied)
    → Promise TagCall (List Applied)
add_result source one rest = one >>= (λ action.
    rest >>= (λ results. pure (record { action = action; source = source } ∷ results)))

-- `applyMajors`
unfoldable pub apply_majors :
    Services → Value → List RepositorySource → Promise TagCall (List Applied)
apply_majors services value [] = pure []
apply_majors services value (source ∷ sources) =
    add_result source (process_source services source value false)
      (apply_majors services value sources)
