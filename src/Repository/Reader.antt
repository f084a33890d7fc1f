-- ===== src/Repository/Reader.antt =====
-- backend/src/repositories/repository/repository-model-reader.ts: what is read from a repository's
-- model. `undefined` is `none`, and a call that throws is an `err`.
pub mod Versions
pub mod Kept
pub mod Highest
pub mod Next
pub mod Patches
use common_build.Common.{
  ℕ, zero, suc, ◌+◌, ◌-◌, Bool, ◌&&◌, List, [], ◌∷◌, ◌++◌, map, Option, none, some, if◌then◌else◌,
  leb, ltb, find, find_index, get_elem?, true, false,
}
use common_build.Common.{◌==◌ as nat_eq}
use common_build.Common.Text.{Text, codes}
use common_build.Common.Decimal.{print}
use common_build.Common.Result.{Result, ok, err, ◌>>=◌}
use mathlib.Core.List.{flat_map}
use common_build.Lodash.{Lodash}
use common_build.Domain.Version.{Version, from_segments}
use common_build.Domain.Refs.{
  ShaRef, Branch, BranchRef, branch, create_sha, create_branch, branch_name, entity, of_branch,
}
use common_build.Repository.Model.{
  Root, MainContainer, MajorContainer, MinorContainer, Release, TopContainer, of_main, of_major,
  top_major, top_minors, truthy,
}
use common_build.Repository.Normalized.{
  NormalizedRef, normalize, patch_branch, main_branch, release_tag, major_tag,
}

pub data VersionType : Type 0 where
  minor_version patch_version : VersionType

pub record WriteBranch : Type 0 where
  pub sha : ShaRef
  pub branch : BranchRef
  pub exists : Bool

-- The versions of one major container, as segments; three segments are a version.
unfoldable pub release_versions : ℕ → ℕ → List Release → List Version
release_versions major minor [] = []
release_versions major minor (r ∷ rs) =
    record { segments = major ∷ minor ∷ r.patch ∷ [] } ∷ release_versions major minor rs

unfoldable pub minor_versions : ℕ → List MinorContainer → List Version
minor_versions major [] = []
minor_versions major (m ∷ ms) = release_versions major m.minor m.releases ++ minor_versions major ms

unfoldable pub major_versions : List MajorContainer → List Version
major_versions [] = []
major_versions (m ∷ ms) = minor_versions m.major m.minors ++ major_versions ms

-- `allVersions`
unfoldable pub all_versions : Root → List Version
all_versions model =
    minor_versions model.main.major model.main.minors ++ major_versions model.majors

-- `[this.model.main, ...this.model.majors]`
unfoldable pub all_majors : Root → List TopContainer
all_majors model = of_main model.main ∷ map of_major model.majors

-- `findMajor`
unfoldable pub find_major : Root → ℕ → Option TopContainer
find_major model major =
    if nat_eq major model.main.major
    then some (of_main model.main)
    else elim (find (λ m. nat_eq m.major major) model.majors) [
      | none ↦ none
      | some m ↦ some (of_major m)
    ]

-- The element before an index that is at least 1.
abbrev pub elem_before {ℓ} : {A : Type ℓ} → List A → Option ℕ → Option A
elem_before xs none = none
elem_before xs (some zero) = none
elem_before xs (some (suc i)) = get_elem? xs i

-- `findNextMajor`: the container that stands before the one of the major.
unfoldable pub find_next_major : Root → ℕ → Option TopContainer
find_next_major model major =
    elem_before (all_majors model) (find_index (λ m. nat_eq (top_major m) major) (all_majors model))

unfoldable pub some_branch : Text → Option Text → Result (Option Branch)
some_branch name none = ok none
some_branch name (some sha) = do b ← create_branch name sha; ok (some b)

-- `minorContainer?.branch`
abbrev minor_branch : Option MinorContainer → Option Text
minor_branch none = none
minor_branch (some m) = truthy m.branch

unfoldable pub find_minor_branch : ℕ → ℕ → List MinorContainer → Result (Option Branch)
find_minor_branch major minor minors =
    some_branch (codes "patch-" ++ (print major ++ (codes "." ++ print minor)))
      (minor_branch (find (λ m. nat_eq m.minor minor) minors))

unfoldable pub find_branch_of : ℕ → Option ℕ → Option MajorContainer → Result (Option Branch)
find_branch_of major minor none = ok none
find_branch_of major (some minor) (some m) = find_minor_branch major minor m.minors
find_branch_of major none (some m) = some_branch (codes "patch-" ++ print major) m.branch

unfoldable pub find_main_branch : Root → Option ℕ → Result (Option Branch)
find_main_branch model (some minor) = find_minor_branch model.main.major minor model.main.minors
find_main_branch model none = some_branch model.main.main.name (some model.main.main.sha)

-- `findBranch`
unfoldable pub find_branch : Root → ℕ → Option ℕ → Result (Option Branch)
find_branch model major minor =
    if nat_eq major model.main.major
    then find_main_branch model minor
    else find_branch_of major minor (find (λ m. nat_eq m.major major) model.majors)

unfoldable pub some_sha : Option Text → Result (Option ShaRef)
some_sha none = ok none
some_sha (some sha) = do s ← create_sha sha; ok (some s)

abbrev pub start_of : TopContainer → Option Text
start_of (of_main c) = truthy c.start
start_of (of_major c) = truthy c.start

abbrev start_of_option : Option TopContainer → Option Text
start_of_option none = none
start_of_option (some c) = start_of c

-- Where the major that stands at an index of `majors` ends: the start of the one before it.
unfoldable pub next_start : Root → ℕ → Option Text
next_start model index = start_of_option (get_elem? (all_majors model) index)

unfoldable pub read_sha_of : Root → ℕ → Option Text → Result (Option ShaRef)
read_sha_of model index (some sha) = some_sha (some sha)
read_sha_of model index none = some_sha (next_start model index)

unfoldable pub read_sha_at : Root → ℕ → Option MajorContainer → Result (Option ShaRef)
read_sha_at model index none = ok none
read_sha_at model index (some m) = read_sha_of model index (truthy m.branch)

unfoldable pub read_sha_found : Root → Option ℕ → Result (Option ShaRef)
read_sha_found model none = ok none
read_sha_found model (some index) = read_sha_at model index (get_elem? model.majors index)

-- `resolveReadSha`
unfoldable pub resolve_read_sha : Root → ℕ → Result (Option ShaRef)
resolve_read_sha model major =
    if nat_eq model.main.major major
    then some_sha (some model.main.main.sha)
    else read_sha_found model (find_index (λ m. nat_eq m.major major) model.majors)

unfoldable pub write_branch : BranchRef → Bool → Option Text → Result (Option WriteBranch)
write_branch b exists none = ok none
write_branch b exists (some sha) = do
  s ← create_sha sha
  ok (some (record { sha = s; branch = b; exists = exists }))

-- The numbers that `nextVersion` gives for a container, whose minors and releases stand highest
-- first.
unfoldable pub next_in_releases : VersionType → ℕ → ℕ → Option Release → List ℕ
next_in_releases type major minor none = major ∷ minor ∷ 0 ∷ []
next_in_releases minor_version major minor (some r) = major ∷ (minor + 1) ∷ 0 ∷ []
next_in_releases patch_version major minor (some r) = major ∷ minor ∷ (r.patch + 1) ∷ []

-- `Number.MAX_SAFE_INTEGER`
abbrev max_safe_integer : ℕ
max_safe_integer = 9007199254740991

abbrev limit_of : Option ℕ → ℕ
limit_of none = max_safe_integer
limit_of (some n) = n

abbrev pub has_release : List MinorContainer → Bool
has_release [] = false
has_release (m ∷ ms) = elim m.releases [ [] ↦ false | _ ∷ _ ↦ true ]

abbrev pub first_release : ℕ → List MinorContainer → Option Version
first_release major [] = none
first_release major (m ∷ ms) = elim m.releases [
  | [] ↦ none
  | r ∷ _ ↦ some (record { segments = major ∷ m.minor ∷ r.patch ∷ [] })
]

unfoldable pub version_of_top : Option TopContainer → Option Version
version_of_top none = none
version_of_top (some c) = first_release (top_major c) (top_minors c)

module _ (lodash : Lodash) where
  -- `top`
  unfoldable pub top : Root → ℕ → List TopContainer
  top model count =
      if ltb 0 count
      then of_main model.main ∷ map of_major (lodash.take _ model.majors (count - 1))
      else []

  unfoldable pub next_in_minors : VersionType → ℕ → Option MinorContainer → List ℕ
  next_in_minors type major none = major ∷ 0 ∷ 0 ∷ []
  next_in_minors type major (some m) =
      next_in_releases type major m.minor (lodash.first _ m.releases)

  unfoldable pub get_next_release : VersionType → TopContainer → List ℕ
  get_next_release type c = next_in_minors type (top_major c) (lodash.first _ (top_minors c))

  unfoldable pub next_of_major : Text → ℕ → VersionType → Option MajorContainer → Result Version
  next_of_major name major type none = err (
      codes "Could not release from "
      ++ (name ++ (codes ". Unknown major: " ++ (print major ++ codes "."))))
  next_of_major name major type (some m) = from_segments (get_next_release type (of_major m))

  unfoldable pub next_of_ref : Root → Text → VersionType → Option NormalizedRef → Result Version
  next_of_ref model name type none = err (codes "Not a supported ref: " ++ name)
  next_of_ref model name type (some (main_branch _)) =
      from_segments (get_next_release type (of_main model.main))
  next_of_ref model name type (some (patch_branch major others)) =
      next_of_major name major type (lodash.find _ model.majors (λ m. nat_eq m.major major))
  next_of_ref model name type (some (release_tag first others)) =
      err (codes "Unknown branch type: ReleaseTagRef")
  next_of_ref model name type (some (major_tag major)) =
      err (codes "Unknown branch type: MajorTagRef")

  -- `nextVersion`
  unfoldable pub next_version : Root → BranchRef → VersionType → Result Version
  next_version model b type =
      next_of_ref model (branch_name b) type (normalize (entity (of_branch b)))

  abbrev start_of_major : Option MajorContainer → Option Text
  start_of_major none = none
  start_of_major (some m) = truthy m.start

  unfoldable pub write_start : Root → ℕ → Option Text
  write_start model zero = truthy model.main.start
  write_start model (suc i) = start_of_major (lodash.nth _ model.majors i)

  unfoldable pub write_at : Root → ℕ → ℕ → Option MajorContainer → Result (Option WriteBranch)
  write_at model major index none = ok none
  write_at model major index (some m) =
      let b = branch (codes "patch-" ++ print major) in
      elim (truthy m.branch) [
        | some sha ↦ write_branch b true (some sha)
        | none ↦ write_branch b false (write_start model index)
      ]

  unfoldable pub write_found : Root → ℕ → Option ℕ → Result (Option WriteBranch)
  write_found model major none = ok none
  write_found model major (some index) = write_at model major index (get_elem? model.majors index)

  -- `resolveWriteBranch`
  unfoldable pub resolve_write_branch : Root → ℕ → Result (Option WriteBranch)
  resolve_write_branch model major =
      if nat_eq model.main.major major
      then write_branch (branch model.main.main.name) true (some model.main.main.sha)
      else write_found model major (lodash.find_index _ model.majors (λ m. nat_eq m.major major))

  -- `highestVersion`
  unfoldable pub highest_version : Root → Option ℕ → Option Version
  highest_version model max_major = version_of_top (
      lodash.find _
        (lodash.filter _ (all_majors model) (λ c. leb (top_major c) (limit_of max_major)))
        (λ c. has_release (top_minors c)))

-- `versionSha`
abbrev sha_of_release : Option Release → Option Text
sha_of_release none = none
sha_of_release (some r) = some r.sha

unfoldable pub patch_sha : ℕ → Option MinorContainer → Option Text
patch_sha patch none = none
patch_sha patch (some m) = sha_of_release (find (λ r. nat_eq r.patch patch) m.releases)

unfoldable pub minor_sha : ℕ → ℕ → Option TopContainer → Option Text
minor_sha minor patch none = none
minor_sha minor patch (some c) = patch_sha patch (find (λ m. nat_eq m.minor minor) (top_minors c))

unfoldable pub sha_of_segments : Root → List ℕ → Option Text
sha_of_segments model (major ∷ minor ∷ patch ∷ []) = minor_sha minor patch (find_major model major)
sha_of_segments model _ = none

unfoldable pub version_sha : Root → Version → Result (Option ShaRef)
version_sha model v = some_sha (sha_of_segments model v.segments)
