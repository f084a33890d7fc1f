-- ===== src/Repository/Model.antt =====
-- backend/src/domain-model/repository-model/repository-model.ts and
-- backend/src/repositories/repository/raw-model.ts: the model of a repository, and the raw data
-- that it is built from. Every list of numbers comes from a match of a regular expression with at
-- least one number: it is a first number and the others.
use common_build.Common.{ℕ, List, [], ◌∷◌, ◌++◌, Option, none, some}
use common_build.Common.Text.{Text, codes}
use common_build.Common.Decimal.{print}

pub record Release : Type 0 where
  pub patch : ℕ
  pub sha : Text

pub record MinorContainer : Type 0 where
  pub minor : ℕ
  pub releases : List Release
  pub branch : Option Text

pub record MainBranch : Type 0 where
  pub name : Text
  pub sha : Text

pub record MainContainer : Type 0 where
  pub major : ℕ
  pub main : MainBranch
  pub minors : List MinorContainer
  pub start : Option Text

pub record MajorContainer : Type 0 where
  pub major : ℕ
  pub minors : List MinorContainer
  pub start : Option Text
  pub branch : Option Text

pub record Root : Type 0 where
  pub main : MainContainer
  pub majors : List MajorContainer

-- The classes that implement `TopContainer`
pub data TopContainer : Type 0 where
  of_main : MainContainer → TopContainer
  of_major : MajorContainer → TopContainer

unfoldable pub top_major : TopContainer → ℕ
top_major (of_main c) = c.major
top_major (of_major c) = c.major

unfoldable pub top_minors : TopContainer → List MinorContainer
top_minors (of_main c) = c.minors
top_minors (of_major c) = c.minors

-- `if (x)` and `x ? a : b` of a text that may be undefined: the empty text is false.
abbrev pub truthy : Option Text → Option Text
truthy none = none
truthy (some []) = none
truthy (some (c ∷ s)) = some (c ∷ s)

abbrev patch_branch_and_sha : ℕ → Option Text → Option (Text × Text)
patch_branch_and_sha major none = none
patch_branch_and_sha major (some sha) = some (codes "patch-" ++ print major, sha)

unfoldable pub branch_and_sha : TopContainer → Option (Text × Text)
branch_and_sha (of_main c) = some (c.main.name, c.main.sha)
branch_and_sha (of_major c) = patch_branch_and_sha c.major (truthy c.branch)

-- `RawModel`
pub record StringSha : Type 0 where
  pub name : Text
  pub sha : Text

pub record NumberSha : Type 0 where
  pub number : ℕ
  pub sha : Text

pub record NumbersSha : Type 0 where
  pub first : ℕ
  pub others : List ℕ
  pub sha : Text

pub record RawData : Type 0 where
  pub main : StringSha
  pub release_tags : List NumbersSha
  pub patch_branches : List NumbersSha
  pub major_tags : List NumberSha
