-- ===== src/Lodash/Functions.antt =====
-- The documented results of the lodash functions that the program calls. Where lodash answers
-- `undefined` or -1, the result is `none`.
use common_build.Common.{
  ℕ, zero, suc, Bool, List, [], ◌∷◌, Option, none, some, if◌then◌else◌, ltb, not, ◌++◌,
}
use common_build.Common as Common
use common_build.Common.Text.{Text, ◌==◌}
use common_build.Common.Int.{ℤ, le_int}

abbrev pub take : (A : Type 0) → List A → ℕ → List A
take A xs n = Common.take n xs

abbrev pub first : (A : Type 0) → List A → Option A
first A xs = Common.head? xs

-- for an index that is not negative
abbrev pub nth : (A : Type 0) → List A → ℕ → Option A
nth A xs i = Common.get_elem? xs i

abbrev pub find : (A : Type 0) → List A → (A → Bool) → Option A
find A xs p = Common.find p xs

abbrev pub find_index : (A : Type 0) → List A → (A → Bool) → Option ℕ
find_index A xs p = Common.find_index p xs

abbrev pub filter : (A : Type 0) → List A → (A → Bool) → List A
filter A xs p = Common.keep p xs

-- The first element with the highest key, given the best one so far.
abbrev pub best : {A : Type 0} → (A → ℕ) → A → List A → A
best f x [] = x
best f x (y ∷ ys) = best f (if ltb (f x) (f y) then y else x) ys

abbrev pub max_by_list : {A : Type 0} → (A → ℕ) → List A → Option A
max_by_list f [] = none
max_by_list f (x ∷ xs) = some (best f x xs)

abbrev pub max_by : (A : Type 0) → List A → (A → ℕ) → Option A
max_by A xs f = max_by_list f xs

-- A stable sort by ascending keys.
abbrev pub insert_by : {A : Type 0} → (A → ℤ) → A → List A → List A
insert_by f x [] = x ∷ []
insert_by f x (y ∷ ys) =
    let later = insert_by f x ys in if le_int (f x) (f y) then x ∷ y ∷ ys else y ∷ later

abbrev pub sort_by_list : {A : Type 0} → (A → ℤ) → List A → List A
sort_by_list f [] = []
sort_by_list f (x ∷ xs) = insert_by f x (sort_by_list f xs)

abbrev pub sort_by : (A : Type 0) → List A → (A → ℤ) → List A
sort_by A xs f = sort_by_list f xs

abbrev pub includes : List Text → Text → Bool
includes xs x = Common.any (λ y. y == x) xs

abbrev uniq_from : List Text → List Text → List Text
uniq_from seen [] = seen
uniq_from seen (x ∷ xs) = uniq_from (if includes seen x then seen else seen ++ x ∷ []) xs

abbrev pub uniq : List Text → List Text
uniq xs = uniq_from [] xs

abbrev pub difference : List Text → List Text → List Text
difference xs ys = Common.keep (λ x. not (includes ys x)) xs
