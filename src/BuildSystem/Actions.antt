-- ===== src/BuildSystem/Actions.antt =====
-- backend/src/system/action-calculator.ts, with the classes of
-- backend/src/domain-model/system-config/repository-config.ts that it reads, and
-- backend/src/active-system: what is done with a change that was built, and where.
pub mod Release
use common_build.Common.{
  Bool, true, false, List, [], ◌∷◌, ◌++◌, Option, none, some, map, keep, find, any, if◌then◌else◌,
  not,
}
use common_build.Common.Text.{Text, codes, ◌==◌}

-- `RepositoryConfig.Action`
pub data PostAction : Type 0 where
  nothing merge release : PostAction

unfoldable pub same_action : PostAction → PostAction → Bool
same_action nothing nothing = true
same_action merge merge = true
same_action release release = true
same_action _ _ = false

pub record LabelAction : Type 0 where
  pub id : Text
  pub action : PostAction

pub record BuildAutomation : Type 0 where
  pub default_action : PostAction
  pub labels : List LabelAction

pub record MajorSerie : Type 0 where
  pub id : Text
  pub auto_apply : Bool

pub record RepositoryConfig : Type 0 where
  pub build_automation : BuildAutomation
  pub active_system : Option Text
  pub major_serie : Option MajorSerie

abbrev action_or : PostAction → Option LabelAction → PostAction
action_or default_action none = default_action
action_or default_action (some l) = l.action

-- `BuildAutomation.findAction`
unfoldable pub find_action : BuildAutomation → Text → PostAction
find_action automation label =
    action_or automation.default_action (find (λ l. l.id == label) automation.labels)

abbrev pub includes : List Text → Text → Bool
includes texts t = any (λ u. u == t) texts

abbrev pub includes_action : List PostAction → PostAction → Bool
includes_action actions a = any (λ b. same_action b a) actions

-- `BuildYamlScanner.DEFAULT_TOOL_LABEL`
abbrev pub default_tool_label : Text
default_tool_label = codes "build-tools"

abbrev pub valid_actions : List Text → List LabelAction → List LabelAction
valid_actions update_labels config_actions =
    keep (λ ca. includes update_labels ca.id) config_actions

unfoldable pub all_actions : List Text → List LabelAction → List PostAction
all_actions update_labels config_actions =
    let valid = valid_actions update_labels config_actions in
    let actions = map (λ ca. ca.action) valid in
    if any (λ ca. ca.id == default_tool_label) valid
    then actions
    else (if includes update_labels default_tool_label then actions ++ merge ∷ [] else actions)

abbrev pub strongest : List PostAction → Option PostAction
strongest actions =
    if includes_action actions release
    then some release
    else if includes_action actions merge
    then some merge
    else if includes_action actions nothing
    then some nothing
    else none

-- `calculateAction`
unfoldable pub calculate_action : List Text → List LabelAction → Option PostAction
calculate_action update_labels config_actions = strongest (all_actions update_labels config_actions)

abbrev or_default : Text → Option Text → Text
or_default default_system none = default_system
or_default default_system (some []) = default_system
or_default default_system (some (c ∷ t)) = c ∷ t

-- `ActiveSystemUtil.isRepositoryOnCurrentSystem`
unfoldable pub is_repository_on_current_system : Option Text → Text → Text → Bool
is_repository_on_current_system repository_system default_system current_system =
    or_default default_system repository_system == current_system

abbrev system_of : Option RepositoryConfig → Option Text
system_of none = none
system_of (some config) = config.active_system

-- `ActiveSystemImpl.isActive`, on the configuration of the repository
unfoldable pub is_active : Text → Option RepositoryConfig → Bool
is_active system_id config =
    is_repository_on_current_system (system_of config) (codes "staging") system_id
