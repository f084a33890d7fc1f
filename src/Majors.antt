-- ===== src/Majors.antt =====
-- backend/src/repositories/majors/majors-service.ts, with the classes of
-- backend/src/domain-model/system-config/majors.ts: the major versions of each serie, kept in a file
-- of a repository, with a copy in Redis.
pub mod Raised
pub mod Application
mod Examples
use common_build.Common.{
  ℕ, suc, zero, ◌-◌, Bool, List, [], ◌∷◌, ◌++◌, map, length, get_elem?, find, Option, none, some,
  if◌then◌else◌, ltb, leb,
}
use common_build.Common.Text.{Text, codes, ◌==◌, join}
use common_build.Common.Decimal.{print}
use common_build.Common.Int.{neg}
use common_build.Common.Result.{Result, ok, err, ◌>>=◌}
use common_build.Lodash.{Lodash}

pub record Serie : Type 0 where
  pub id : Text
  pub values : List ℕ

pub record Value : Type 0 where
  pub id : Text
  pub value : ℕ

-- What `addValue` writes to the file, what it returns, where `undefined` is `none`, and that the
-- copy in Redis is deleted: nothing is left of it.
pub record Added : Type 0 where
  pub written : List Serie
  pub returned : Option Serie
  pub cached : Option (List Serie)

-- An array element that an assignment replaces
unfoldable pub replace : ℕ → Serie → List Serie → List Serie
replace i serie [] = []
replace zero serie (s ∷ series) = serie ∷ series
replace (suc i) serie (s ∷ series) = s ∷ replace i serie series

abbrev pub too_low : ℕ → ℕ → Result (List ℕ)
too_low value highest = err (
    codes "Major value "
    ++ (print value ++ (codes " must be higher than existing major value: " ++ print highest)))

module _ (lodash : Lodash) (config_series : List Text) where
  -- `normalize`
  unfoldable normalize : List Serie → List Serie
  normalize series =
      lodash.filter _ series (λ serie. lodash.includes config_series serie.id)
      ++ map (λ id. record { id = id; values = 0 ∷ [] })
          (lodash.difference config_series (lodash.uniq (map (λ serie. serie.id) series)))

  -- `values`: the copy, if it is asked for and there, or the file's series, of which a copy is kept.
  unfoldable values :
      Bool → Option (List Serie) → Result (List Serie) → Result (List Serie × List Serie)
  values cached copy source = elim (if cached then copy else none) [
    | some series ↦ ok (normalize series, series)
    | none ↦ do series ← source; ok (normalize series, normalize series)
  ]

  -- `getValue`
  unfoldable get_value :
      Text → Bool → Option (List Serie) → Result (List Serie) → Result (Option Serie)
  get_value id cached copy source = do
    all ← values cached copy source
    ok (find (λ v. v.id == id) all.0)

  abbrev sorted : ℕ → List ℕ → List ℕ
  sorted value old = lodash.sort_by _ (value ∷ old) (λ n. neg n)

  -- The new values of a serie: `highest` is false where there is none and where it is 0.
  abbrev above_highest : ℕ → List ℕ → Option ℕ → Result (List ℕ)
  above_highest value old none = ok (sorted value old)
  above_highest value old (some zero) = ok (sorted value old)
  above_highest value old (some (suc highest)) =
      if leb value (suc highest) then too_low value (suc highest) else ok (sorted value old)

  unfoldable pub raise : ℕ → List ℕ → Result (List ℕ)
  raise value old = above_highest value old (lodash.max_by _ old (λ n. n))

  -- `if (existingIndex)`: false for 0, and true for the -1 of a serie that was not found.
  unfoldable pub returned_of : Option ℕ → List Serie → Option Serie
  returned_of none series = none
  returned_of (some zero) series = get_elem? series (length series - 1)
  returned_of (some (suc i)) series = get_elem? series (suc i)

  abbrev raise_serie : Value → ℕ → List Serie → Option Serie → Result (List Serie)
  raise_serie v i series none = err (codes "Cannot read properties of undefined (reading 'values')")
  raise_serie v i series (some serie) = do
    new ← raise v.value serie.values
    ok (replace i (record { id = serie.id; values = new }) series)

  unfoldable pub change_series : Value → Option ℕ → List Serie → Result (List Serie)
  change_series v none series = ok (series ++ record { id = v.id; values = v.value ∷ [] } ∷ [])
  change_series v (some i) series = raise_serie v i series (get_elem? series i)

  -- The part behind the guards, with the series of the file and the answer of `updateBranch`.
  unfoldable pub store_value : (List Serie → Result (Unit {0})) → Value → List Serie → Result Added
  store_value update_branch v series = do
    let index = lodash.find_index _ series (λ serie. serie.id == v.id)
    changed ← change_series v index series
    _ ← update_branch changed
    ok (record { written = changed; returned = returned_of index changed; cached = none })

  -- `addValue`
  unfoldable pub add_value :
      (List Serie → Result (Unit {0})) → Value → Result (List Serie) → Result Added
  add_value update_branch v source =
      if ltb 0 v.value
      then if lodash.includes config_series v.id
        then source >>= store_value update_branch v
        else err (
            codes "Major serie "
            ++ (v.id
                ++ (codes " is not a valid serie. Valid series are: "
                    ++ join (codes ",") config_series)))
      else err (
          codes "Input '"
          ++ (codes "MajorValue:"
              ++ (v.id ++ (codes ":" ++ (print v.value ++ codes "' is not a positive number.")))))
