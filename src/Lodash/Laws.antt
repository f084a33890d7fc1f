-- ===== src/Lodash/Laws.antt =====
-- The documented functions are a lodash package, and what holds of them holds of every one.
use mathlib.Core.Path.{contract', subst}
use common_build.Common.{◌≡◌, refl}
use common_build.Lodash.{Lodash}
use common_build.Lodash.Functions

abbrev pub documented : Lodash
documented = record {
  take = Functions.take;
  take_law = refl;
  first = Functions.first;
  first_law = refl;
  nth = Functions.nth;
  nth_law = refl;
  find = Functions.find;
  find_law = refl;
  find_index = Functions.find_index;
  find_index_law = refl;
  filter = Functions.filter;
  filter_law = refl;
  max_by = Functions.max_by;
  max_by_law = refl;
  sort_by = Functions.sort_by;
  sort_by_law = refl;
  includes = Functions.includes;
  includes_law = refl;
  uniq = Functions.uniq;
  uniq_law = refl;
  difference = Functions.difference;
  difference_law = refl;
}

documented-path : (l : Lodash) → documented ≡ l
documented-path l = λ i. record {
  take = (contract' l.take_law i).0;
  take_law = (contract' l.take_law i).1;
  first = (contract' l.first_law i).0;
  first_law = (contract' l.first_law i).1;
  nth = (contract' l.nth_law i).0;
  nth_law = (contract' l.nth_law i).1;
  find = (contract' l.find_law i).0;
  find_law = (contract' l.find_law i).1;
  find_index = (contract' l.find_index_law i).0;
  find_index_law = (contract' l.find_index_law i).1;
  filter = (contract' l.filter_law i).0;
  filter_law = (contract' l.filter_law i).1;
  max_by = (contract' l.max_by_law i).0;
  max_by_law = (contract' l.max_by_law i).1;
  sort_by = (contract' l.sort_by_law i).0;
  sort_by_law = (contract' l.sort_by_law i).1;
  includes = (contract' l.includes_law i).0;
  includes_law = (contract' l.includes_law i).1;
  uniq = (contract' l.uniq_law i).0;
  uniq_law = (contract' l.uniq_law i).1;
  difference = (contract' l.difference_law i).0;
  difference_law = (contract' l.difference_law i).1;
}

pub of_documented {ℓ} : (P : Lodash → Type ℓ) → P documented → (l : Lodash) → P l
of_documented P h l = subst P (documented-path l) h
