-- ===== src/Repository/Reader/Versions.antt =====
-- The versions of an ordered model, and where the highest one stands.
use common_build.Common.{
  ℕ, ◌≡◌, ◌<◌, refl, List, [], ◌∷◌, ◌++◌, map, All, Elem, All-Elem, find, Bool, true, false,
  Bool-cases, ◌⊎◌, inl, inr, arith, some,
}
use mathlib.Core.Path.{subst}
use common_build.Domain.Version.{Version, negative, same, compare, compare_segments}
use common_build.Repository.Model.{
  Root, TopContainer, of_main, of_major, top_major, top_minors, MajorContainer, MinorContainer,
  Release,
}
use common_build.Repository.Ordered.{Descending}
use common_build.Repository.Reader.{
  all_majors, all_versions, release_versions, minor_versions, major_versions,
}

abbrev pub version : ℕ → ℕ → ℕ → Version
version a b c = record { segments = a ∷ b ∷ c ∷ [] }

-- A version that a release of the container stands for.
pub record IsVersionOf (c : TopContainer) (v : Version) : Type 0 where
  pub minor : MinorContainer
  pub minor_in : Elem minor (top_minors c)
  pub release : Release
  pub release_in : Elem release minor.releases
  pub is : v ≡ version (top_major c) minor.minor release.patch

module _ {A : Type 0} where
  pub Elem-append : (a : A) (xs ys : List A) → Elem a (xs ++ ys) → Elem a xs ⊎ Elem a ys
  Elem-append a [] ys e = inr e
  Elem-append a (x ∷ xs) ys (inl e) = inl (inl e)
  Elem-append a (x ∷ xs) ys (inr e) = elim (Elem-append a xs ys e) [
    | inl l ↦ inl (inr l)
    | inr r ↦ inr r
  ]

  pub All-of-Elem : (P : A → Type 0) (xs : List A) → ((a : A) → Elem a xs → P a) → All P xs
  All-of-Elem P [] h = tt
  All-of-Elem P (x ∷ xs) h = (h x (inl refl), All-of-Elem P xs (λ a e. h a (inr e)))

  -- An element of a descending list is the first one or stands below it.
  pub Descending-first :
      (f : A → ℕ) (x : A) (xs : List A) {a : A}
      → Descending f (x ∷ xs)
      → Elem a (x ∷ xs)
      → (a ≡ x) ⊎ (f a < f x)
  Descending-first f x xs d (inl e) = inl e
  Descending-first f x xs d (inr e) = inr (All-Elem (λ y. f y < f x) xs d.0 e)

  some-injective : {a b : A} → some a ≡ some b → a ≡ b
  some-injective e = cc

  -- The first element that passes a test is the highest one that does.
  pub find-Descending :
      (f : A → ℕ) (p : A → Bool) (xs : List A) (a b : A)
      → Descending f xs
      → find p xs ≡ some a
      → Elem b xs
      → p b ≡ true
      → (b ≡ a) ⊎ (f b < f a)
  find-Descending f p [] a b d h e t = elim e [ ]
  find-Descending f p (x ∷ xs) a b d h e t = elim (Bool-cases (p x)) [
    | inl u ↦
        subst (λ z. (b ≡ z) ⊎ (f b < f z)) (some-injective (rw u at h))
          (Descending-first f x xs d e)
    | inr u ↦ later u e (λ i. find-Descending f p xs a b d.1 (rw u at h) i t)
  ]
    where
      later :
          p x ≡ false
          → Elem b (x ∷ xs)
          → (Elem b xs → (b ≡ a) ⊎ (f b < f a))
          → (b ≡ a) ⊎ (f b < f a)
      later u (inl i) k = cc
      later u (inr i) k = k i

release_versions-Elem :
    (a b : ℕ) (rs : List Release) {v : Version}
    → Elem v (release_versions a b rs)
    → (r : Release) × Elem r rs × (v ≡ version a b r.patch)
unfolding release_versions
release_versions-Elem a b [] e = elim e [ ]
release_versions-Elem a b (r ∷ rs) (inl e) = (r, inl refl, e)
release_versions-Elem a b (r ∷ rs) (inr e) =
    let (q, i, j) = release_versions-Elem a b rs e in (q, inr i, j)

minor_versions-Elem :
    (c : TopContainer) (ms : List MinorContainer) {v : Version}
    → ((m : MinorContainer) → Elem m ms → Elem m (top_minors c))
    → Elem v (minor_versions (top_major c) ms)
    → IsVersionOf c v
unfolding minor_versions
minor_versions-Elem c [] i e = elim e [ ]
minor_versions-Elem c (m ∷ ms) i e =
    elim (Elem-append _ (release_versions (top_major c) m.minor m.releases)
      (minor_versions (top_major c) ms) e) [
        | inl l ↦
            let (r, j, k) = release_versions-Elem (top_major c) m.minor m.releases l in
            record { minor = m; minor_in = i m (inl refl); release = r; release_in = j; is = k }
        | inr l ↦ minor_versions-Elem c ms (λ n j. i n (inr j)) l
      ]

major_versions-Elem :
    (ms : List MajorContainer) {v : Version}
    → Elem v (major_versions ms)
    → (c : TopContainer) × Elem c (map of_major ms) × IsVersionOf c v
unfolding major_versions top_major top_minors
major_versions-Elem [] e = elim e [ ]
major_versions-Elem (m ∷ ms) e =
    elim (Elem-append _ (minor_versions m.major m.minors) (major_versions ms) e) [
      | inl l ↦ (of_major m, inl refl, minor_versions-Elem (of_major m) m.minors (λ n j. j) l)
      | inr l ↦ let (c, i, j) = major_versions-Elem ms l in (c, inr i, j)
    ]

-- Every version of the model stands for a release of one of its containers.
pub all_versions-Elem :
    (model : Root) (v : Version)
    → Elem v (all_versions model)
    → (c : TopContainer) × Elem c (all_majors model) × IsVersionOf c v
unfolding all_versions all_majors top_major top_minors
all_versions-Elem model v e =
    elim (Elem-append v (minor_versions model.main.major model.main.minors)
      (major_versions model.majors) e) [
        | inl l ↦ (
          of_main model.main,
          inl refl,
          minor_versions-Elem (of_main model.main) model.main.minors (λ n j. j) l,
        )
        | inr l ↦ let (c, i, j) = major_versions-Elem model.majors l in (c, inr i, j)
      ]

pub compare-major : (a b c x y z : ℕ) → a < x → compare (version a b c) (version x y z) ≡ negative
unfolding compare compare_segments
compare-major a b c x y z h = ground arith

pub compare-minor : (a b c y z : ℕ) → b < y → compare (version a b c) (version a y z) ≡ negative
unfolding compare compare_segments
compare-minor a b c y z h = ground arith

pub compare-patch : (a b c z : ℕ) → c < z → compare (version a b c) (version a b z) ≡ negative
unfolding compare compare_segments
compare-patch a b c z h = ground arith

pub compare_refl : (a b c : ℕ) → compare (version a b c) (version a b c) ≡ same
unfolding compare compare_segments
compare_refl a b c = ground arith
