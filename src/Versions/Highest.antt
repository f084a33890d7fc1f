-- ===== src/Versions/Highest.antt =====
-- What the selectors pick is of the highest major within the one that they ask for.
use common_build.Common.{
  ℕ, ◌≡◌, ◌≢◌, ◌≤◌, ap, sym, ltb, length, List, [], ◌∷◌, All, keep, Bool, true, false, ◌⊎◌, refl,
  Elem, All-imp, Bool-cases, inl, inr, Option, none, some, Option-cases, arith,
}
use common_build.Common.Text.{Text}
use common_build.Common.Result.{ok}
use common_build.Lodash.{Lodash}
use common_build.Lodash.Laws.{documented, of_documented}
use common_build.Lodash.Functions.{max_by_list}
use common_build.Domain.Version.{Version, major, from_segments}
use common_build.Repository.Converter.Stores.{max_by-All, max_by-highest}
use common_build.Versions.{
  ModelComposite, composite, within, get_highest, get_highest_segments, highest_in, of_releases,
  version_of, Branches, no_branches, holder,
}
use common_build.Versions.Selectors.{Selector, bound, pick}

abbrev pub IsWithin : Option ℕ → Option ℕ → Type 0
IsWithin max none = ⊥
IsWithin none (some n) = Unit
IsWithin (some max) (some n) = n ≤ max

keep-within : {A : Type 0} (p : A → Bool) (xs : List A) → All (λ x. p x ≡ true) (keep p xs)
keep-within p [] = tt
keep-within p (x ∷ xs) = elim (Bool-cases (p x)) [
  | inl t ↦ rw t (t, keep-within p xs)
  | inr f ↦ rw f (keep-within p xs)
]

within-IsWithin : (max : Option ℕ) (n : ℕ) → within max n ≡ true → IsWithin max (some n)
within-IsWithin none n h = tt
within-IsWithin (some max) n h = ground arith

version_of-major :
    (s : ℕ) (segments : List ℕ) (v : Version)
    → version_of (s ∷ segments) ≡ ok (some v)
    → major v ≡ some s
unfolding from_segments major
version_of-major s [] v h = cc
version_of-major s (t ∷ segments) v h =
    let k : ltb 1 (length (s ∷ t ∷ segments)) ≡ true = ground arith in
    ap major (sym (injective (rw k at h)))
  where
    injective : {x y : Version} → ok (some x) ≡ ok (some y) → x ≡ y
    injective e = cc

version_of-releases : (o : Option ℕ) (v : Version) → version_of (of_releases o) ≢ ok (some v)
unfolding from_segments
version_of-releases none v h = cc
version_of-releases (some r) v h = cc

-- The majors that have a branch in the container
unfoldable pub branch_majors : Branches → List ℕ
branch_majors no_branches = []
branch_majors (holder index model rest) = index ∷ branch_majors rest

unfoldable pub majors : ModelComposite → List ℕ
majors (composite bs releases) = branch_majors bs

-- The version's major is the highest of the container's that are at most `max`, where that is given.
pub record IsHighestMajor (max : Option ℕ) (m : ModelComposite) (v : Version) : Type 0 where
  pub top : ℕ
  pub is_major : major v ≡ some top
  pub among : Elem top (majors m)
  pub is_within : IsWithin max (some top)
  pub highest : All (λ n. (within max n ≡ false) ⊎ (n ≤ top)) (majors m)

highest_in-Elem :
    (bs : Branches) → All (λ s. Elem s.0 (branch_majors bs)) (highest_in documented bs)
unfolding highest_in branch_majors
highest_in-Elem no_branches = tt
highest_in-Elem (holder index model rest) =
    (inl refl, All-imp (λ s e. inr e) _ (highest_in-Elem rest))

kept_highest :
    (max : Option ℕ) (top : ℕ) (bs : Branches)
    → All (λ s. s.0 ≤ top) (keep (λ s. within max s.0) (highest_in documented bs))
    → All (λ n. (within max n ≡ false) ⊎ (n ≤ top)) (branch_majors bs)
unfolding highest_in branch_majors
kept_highest max top no_branches h = tt
kept_highest max top (holder index model rest) h = elim (Bool-cases (within max index)) [
  | inl t ↦ let k = rw t at h in (inr k.0, kept_highest max top rest k.1)
  | inr f ↦ let k = rw f at h in (inl f, kept_highest max top rest k)
]

All-keep : {A : Type 0} (P : A → Type 0) (p : A → Bool) (xs : List A) → All P xs → All P (keep p xs)
All-keep P p [] h = tt
All-keep P p (x ∷ xs) (h, hs) = elim (Bool-cases (p x)) [
  | inl t ↦ rw t (h, All-keep P p xs hs)
  | inr f ↦ rw f (All-keep P p xs hs)
]

documented-IsHighestMajor :
    (max : Option ℕ) (m : ModelComposite) (v : Version)
    → get_highest documented max m ≡ ok (some v)
    → IsHighestMajor max m v
unfolding get_highest get_highest_segments majors
documented-IsHighestMajor max (composite bs releases) v h =
    let kept = keep (λ s. within max s.0) (highest_in documented bs) in
    elim (Option-cases (max_by_list (λ s. s.0) kept)) [
      | inl e ↦ absurd (version_of-releases (max_by_list (λ r. r) releases) v (rw e at h))
      | inr (s, e) ↦ record {
        top = s.0;
        is_major = version_of-major s.0 s.1 v (rw e at h);
        among =
            max_by-All (λ s. s.0) (λ s. Elem s.0 (branch_majors bs)) kept e
              (All-keep _ (λ s. within max s.0) _ (highest_in-Elem bs));
        is_within = within-IsWithin max s.0 (
            max_by-All (λ s. s.0) (λ s. within max s.0 ≡ true) kept e
              (keep-within (λ s. within max s.0) (highest_in documented bs)));
        highest = kept_highest max s.0 bs (max_by-highest (λ s. s.0) kept e);
      }
    ]

-- A version that a selector picks has the highest major of the container that is at most the one
-- that the selector asks for, where it asks for one.
pub pick-IsHighestMajor :
    (lodash : Lodash) (selector : Selector) (versions : ModelComposite) (current v : Version)
    (serie : Option Text)
    → pick lodash selector versions current serie ≡ ok (some v)
    → IsHighestMajor (bound selector current serie) versions v
unfolding pick
pick-IsHighestMajor lodash selector versions current v serie =
    of_documented
      (λ l.
        get_highest l (bound selector current serie) versions ≡ ok (some v)
        → IsHighestMajor (bound selector current serie) versions v)
      (documented-IsHighestMajor (bound selector current serie) versions v) lodash
