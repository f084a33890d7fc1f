-- ===== src/Lodash.antt =====
-- The lodash package, as far as the modelled parts call it. It is not code of the repository: each
-- function is a parameter, and its hypothesis (the field with `_law` behind its name) says that it
-- does what its documentation describes. `Lodash.Laws` proves that what holds of the documented
-- functions holds of every such package.
pub mod Functions
pub mod Laws
use common_build.Common.{ℕ, Bool, List, Option, ◌≡◌}
use common_build.Common.Text.{Text}
use common_build.Common.Int.{ℤ}
use Functions

pub record Lodash : Type 1 where
  pub take : (A : Type 0) → List A → ℕ → List A
  pub take_law : take ≡ Functions.take
  pub first : (A : Type 0) → List A → Option A
  pub first_law : first ≡ Functions.first
  pub nth : (A : Type 0) → List A → ℕ → Option A
  pub nth_law : nth ≡ Functions.nth
  pub find : (A : Type 0) → List A → (A → Bool) → Option A
  pub find_law : find ≡ Functions.find
  pub find_index : (A : Type 0) → List A → (A → Bool) → Option ℕ
  pub find_index_law : find_index ≡ Functions.find_index
  pub filter : (A : Type 0) → List A → (A → Bool) → List A
  pub filter_law : filter ≡ Functions.filter
  pub max_by : (A : Type 0) → List A → (A → ℕ) → Option A
  pub max_by_law : max_by ≡ Functions.max_by
  pub sort_by : (A : Type 0) → List A → (A → ℤ) → List A
  pub sort_by_law : sort_by ≡ Functions.sort_by
  pub includes : List Text → Text → Bool
  pub includes_law : includes ≡ Functions.includes
  pub uniq : List Text → List Text
  pub uniq_law : uniq ≡ Functions.uniq
  pub difference : List Text → List Text → List Text
  pub difference_law : difference ≡ Functions.difference
