-- ===== src/Versions.antt =====
-- backend/src/repositories/scanner/version-container.ts and dependency-lookup.ts: the versions of a
-- dependency, kept as a tree by segments, and which of them an update picks.
pub mod Members
pub mod Highest
pub mod Selectors
pub mod Cache
pub mod Provider
mod Examples
use common_build.Common.{
  ℕ, ◌+◌, suc, ◌==◌, leb, List, [], ◌∷◌, ◌++◌, map, any, keep, length, Option, none, some,
  if◌then◌else◌, Bool, true, false, ◌&&◌, ◌||◌,
}
use common_build.Common.Result.{Result, ok, err, ◌>>=◌}
use common_build.Lodash.{Lodash}
use common_build.Domain.Version.{Version, from_segments}

-- `ModelComposite`, whose `branches` are a list of `SegmentHolder`: an index and a model.
mutual
  pub data ModelComposite : Type 0 where
    composite : Branches → List ℕ → ModelComposite

  pub data Branches : Type 0 where
    no_branches : Branches
    holder : ℕ → ModelComposite → Branches → Branches

abbrev pub empty : ModelComposite
empty = composite no_branches []

unfoldable mutual
  -- `size`
  pub size : ModelComposite → ℕ
  size (composite bs releases) = length releases + lower_size bs

  pub lower_size : Branches → ℕ
  lower_size no_branches = 0
  lower_size (holder index model rest) = size model + lower_size rest

-- The holder with the index is found and its model changed, or a new one stands at the end.
unfoldable pub change_holder : (ModelComposite → ModelComposite) → ℕ → Branches → Branches
change_holder f head no_branches = holder head (f empty) no_branches
change_holder f head (holder index model rest) =
    let later = change_holder f head rest in
    if index == head then holder index (f model) rest else holder index model later

unfoldable pub push_release : ℕ → List ℕ → List ℕ
push_release part releases =
    if any (λ r. r == part) releases then releases else releases ++ (part ∷ [])

-- `add`
unfoldable pub add : List ℕ → ModelComposite → ModelComposite
add [] m = m
add (part ∷ []) (composite bs releases) = composite bs (push_release part releases)
add (head ∷ next ∷ rest) (composite bs releases) =
    composite (change_holder (add (next ∷ rest)) head bs) releases

-- `fromVersions`
unfoldable pub add_all : List Version → ModelComposite → ModelComposite
add_all [] m = m
add_all (v ∷ vs) m = add_all vs (add v.segments m)

unfoldable pub from_versions : List Version → ModelComposite
from_versions vs = add_all vs empty

abbrev pub within : Option ℕ → ℕ → Bool
within none index = true
within (some max) index = leb index max

abbrev pub version_of : List ℕ → Result (Option Version)
version_of [] = ok none
version_of (s ∷ segments) = do v ← from_segments (s ∷ segments); ok (some v)

abbrev pub of_releases : Option ℕ → List ℕ
of_releases none = []
of_releases (some r) = r ∷ []

module _ (lodash : Lodash) where
  abbrev pub of_segment : List ℕ → Option (ℕ × List ℕ) → List ℕ
  of_segment releases (some (index, segments)) = index ∷ segments
  of_segment releases none = of_releases (lodash.max_by _ releases (λ r. r))

  -- `getHighest`, which looks into the chosen holder alone: here each holder comes with the result
  -- that it would give.
  unfoldable mutual
    pub get_highest_segments : Option ℕ → ModelComposite → List ℕ
    get_highest_segments max (composite bs releases) =
        of_segment releases
          (lodash.max_by _ (lodash.filter _ (highest_in bs) (λ s. within max s.0)) (λ s. s.0))

    pub highest_in : Branches → List (ℕ × List ℕ)
    highest_in no_branches = []
    highest_in (holder index model rest) =
        (index, get_highest_segments none model) ∷ highest_in rest

  -- `getHighestVersion`, which `VersionContainer.getHighest` calls
  unfoldable pub get_highest : Option ℕ → ModelComposite → Result (Option Version)
  get_highest max m = version_of (get_highest_segments max m)
