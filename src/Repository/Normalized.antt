-- ===== src/Repository/Normalized.antt =====
-- backend/src/repositories/repository/normalized-model.ts: which refs of a repository mean
-- something, and what. The regular expressions are matched by splitting the name at its dots.
pub mod Names
use common_build.Common.{
  ℕ, Bool, ◌&&◌, List, [], ◌∷◌, ◌++◌, Option, none, some, if◌then◌else◌, true, false, not, length,
  map,
}
use common_build.Common.{◌==◌ as nat_eq}
use common_build.Common.Text.{Text, codes, ◌==◌, split, starts_with}
use common_build.Common.Decimal.{all_digits, parse_digits}
use common_build.Domain.Refs.{Ref, entity, of_branch, tag, of_sha, branch_name, EntityRef}

pub data NormalizedRef : Type 0 where
  -- the segments, of which there is at least one
  patch_branch : ℕ → List ℕ → NormalizedRef
  main_branch : Text → NormalizedRef
  release_tag : ℕ → List ℕ → NormalizedRef
  major_tag : ℕ → NormalizedRef

unfoldable pub is_branch : NormalizedRef → Bool
is_branch (patch_branch first others) = true
is_branch (main_branch name) = true
is_branch (release_tag first others) = false
is_branch (major_tag major) = false

-- `\d+`
abbrev pub is_number : Text → Bool
is_number [] = false
is_number (c ∷ s) = all_digits (c ∷ s)

-- The numbers of `\d+(?:\.\d+)*`, if the whole text matches.
unfoldable pub numbers_of : List Text → Option (List ℕ)
numbers_of [] = some []
numbers_of (p ∷ ps) = elim (numbers_of ps) [
  | none ↦ none
  | some ns ↦ if is_number p then some (parse_digits p ∷ ns) else none
]

abbrev pub dot : Text
dot = b'.' ∷ []

unfoldable pub numbers : Text → Option (List ℕ)
numbers s = numbers_of (split dot s)

-- What stands behind a prefix of the name.
unfoldable pub behind : Text → Text → Option Text
behind [] s = some s
behind (c ∷ p) [] = none
behind (c ∷ p) (d ∷ s) = if nat_eq c d then behind p s else none

unfoldable pub numbers_behind : Text → Text → Option (List ℕ)
numbers_behind p name = elim (behind p name) [ none ↦ none | some s ↦ numbers s ]

-- `/^v(\d+(?:\.\d+){2})$/`
abbrev as_release : Option (List ℕ) → Option NormalizedRef
as_release (some (a ∷ b ∷ c ∷ [])) = some (release_tag a (b ∷ c ∷ []))
as_release _ = none

-- `/^major-(\d+)$/`
abbrev pub as_major : Option (List ℕ) → Option NormalizedRef
as_major (some (a ∷ [])) = some (major_tag a)
as_major _ = none

-- `/^patch-(\d+(?:\.\d+)*)$/`
abbrev pub as_patch : Option (List ℕ) → Option NormalizedRef
as_patch (some (a ∷ others)) = some (patch_branch a others)
as_patch _ = none

abbrev or_else : Option NormalizedRef → Option NormalizedRef → Option NormalizedRef
or_else (some r) other = some r
or_else none other = other

unfoldable pub normalize_tag : Text → Option NormalizedRef
normalize_tag name =
    or_else (as_release (numbers_behind (codes "v") name))
      (as_major (numbers_behind (codes "major-") name))

unfoldable pub normalize_branch : Text → Option NormalizedRef
normalize_branch name =
    if name == codes "main"
    then some (main_branch name)
    else if name == codes "master"
    then some (main_branch name)
    else as_patch (numbers_behind (codes "patch-") name)

unfoldable pub normalize : Ref → Option NormalizedRef
normalize (entity (tag name)) = normalize_tag name
normalize (entity (of_branch b)) = normalize_branch (branch_name b)
normalize (of_sha s) = none
