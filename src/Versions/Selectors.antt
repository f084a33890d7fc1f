-- ===== src/Versions/Selectors.antt =====
-- backend/src/repositories/scanner/dependency-lookup.ts: which version of a dependency an update
-- picks. A serie's name that may be undefined is an option.
use common_build.Common.{ℕ, Option, none, some, if◌then◌else◌, Bool, false}
use common_build.Common.Text.{Text, ◌==◌}
use common_build.Common.Result.{Result}
use common_build.Lodash.{Lodash}
use common_build.Domain.Version.{Version, major}
use common_build.Versions.{ModelComposite, get_highest}

-- The classes that implement `DependencySelector`
pub data Selector : Type 0 where
  highest_in_major_or_highest : ℕ → Text → Selector
  highest_in_major_or_keep_major : ℕ → Text → Selector
  highest : Selector
  highest_minor_keep_major : Selector

-- `this.targetSerie === serieName`
abbrev pub is_serie : Text → Option Text → Bool
is_serie target none = false
is_serie target (some name) = target == name

-- The major that a selector asks `getHighest` for
unfoldable pub bound : Selector → Version → Option Text → Option ℕ
bound (highest_in_major_or_highest target_major target_serie) current serie =
    if is_serie target_serie serie then some target_major else none
bound (highest_in_major_or_keep_major target_major target_serie) current serie =
    if is_serie target_serie serie then some target_major else major current
bound highest current serie = none
bound highest_minor_keep_major current serie = major current

-- `pick`
unfoldable pub pick :
    Lodash → Selector → ModelComposite → Version → Option Text → Result (Option Version)
pick lodash selector versions current serie =
    get_highest lodash (bound selector current serie) versions

-- The instances that the classes keep: the last class keeps one of the class before it.
abbrev pub highest_instance : Selector
highest_instance = highest

abbrev pub highest_minor_keep_major_instance : Selector
highest_minor_keep_major_instance = highest
