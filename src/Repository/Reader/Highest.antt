-- ===== src/Repository/Reader/Highest.antt =====
-- The highest version of an ordered model.
use common_build.Common.{
  ℕ, ◌≡◌, ◌≤◌, ◌<◌, refl, List, [], ◌∷◌, All, Elem, All-Elem, keep, find, find-eq-some, Bool, true,
  false, Bool-cases, ◌⊎◌, inl, inr, arith, Option, none, some, Option-cases, leb,
}
use mathlib.Core.Path.{subst}
use common_build.Lodash.{Lodash}
use common_build.Lodash.Laws.{of_documented}
use common_build.Domain.Version.{Version, negative, compare, major}
use common_build.Repository.Model.{
  Root, TopContainer, top_major, top_minors, MinorContainer, Release,
}
use common_build.Repository.Ordered.{
  Descending, IsOrdered, IsOrderedMinors, IsOrderedMinor, HasRelease,
}
use common_build.Repository.Reader.{
  all_majors, all_versions, highest_version, version_of_top, has_release,
}
use common_build.Repository.Reader.Kept.{Elem-keep, keep-Elem, Descending-keep, find-none}
use common_build.Repository.Reader.Versions.{
  version, IsVersionOf, Descending-first, find-Descending, All-of-Elem, all_versions-Elem,
  compare-major, compare-minor, compare-patch,
}

-- The container's first minor and its first release.
pub record Newest (c : TopContainer) : Type 0 where
  pub minor : MinorContainer
  pub minors : List MinorContainer
  pub release : Release
  pub releases : List Release
  pub is_minors : top_minors c ≡ minor ∷ minors
  pub is_releases : minor.releases ≡ release ∷ releases

-- A container of which there is a version has a first release.
pub first_of :
    (c : TopContainer) (ms : List MinorContainer)
    → top_minors c ≡ ms
    → All IsOrderedMinor ms
    → has_release ms ≡ true
    → Newest c
first_of c [] e h t = absurd (cc)
first_of c (m ∷ ms) e h t = go m.releases refl h.0.1
  where
    go : (rs : List Release) → m.releases ≡ rs → HasRelease m.releases → Newest c
    go [] k r = elim (rw k at r) [ ]
    go (r ∷ rs) k _ = record {
      minor = m;
      minors = ms;
      release = r;
      releases = rs;
      is_minors = e;
      is_releases = k;
    }

pub has_release-Elem :
    (ms : List MinorContainer) (m : MinorContainer)
    → All IsOrderedMinor ms
    → Elem m ms
    → has_release ms ≡ true
has_release-Elem [] m h e = elim e [ ]
has_release-Elem (n ∷ ms) m h e = go n.releases refl h.0.1
  where
    go : (rs : List Release) → n.releases ≡ rs → HasRelease n.releases → has_release (n ∷ ms) ≡ true
    go [] k r = elim (rw k at r) [ ]
    go (r ∷ rs) k _ = rw k refl

module _ (c : TopContainer) (w : Version) where
  below_releases :
      (m : MinorContainer) (r : Release) (rs : List Release) (q : Release)
      → m.releases ≡ r ∷ rs
      → Descending (λ r. r.patch) m.releases
      → Elem q m.releases
      → w ≡ version (top_major c) m.minor q.patch
      → (w ≡ version (top_major c) m.minor r.patch)
        ⊎ (compare w (version (top_major c) m.minor r.patch) ≡ negative)
  below_releases m r rs q e d i is =
      elim (Descending-first (λ r. r.patch) r rs (rw e at d) (rw e at i)) [
        | inl s ↦ inl (subst (λ x. w ≡ version (top_major c) m.minor x.patch) s is)
        | inr l ↦ inr (rw is (compare-patch (top_major c) m.minor q.patch r.patch l))
      ]

  -- A version of the container is the one of its first release or below it.
  pub IsVersionOf-below :
      (f : Newest c)
      → IsOrderedMinors (top_minors c)
      → IsVersionOf c w
      → (w ≡ version (top_major c) f.minor.minor f.release.patch)
        ⊎ (compare w (version (top_major c) f.minor.minor f.release.patch) ≡ negative)
  IsVersionOf-below f (d, h) v =
      elim (Descending-first (λ m. m.minor) f.minor f.minors (rw f.is_minors at d)
        (rw f.is_minors at v.minor_in)) [
          | inl s ↦
              below_releases f.minor f.release f.releases v.release f.is_releases
                (subst (λ m. Descending (λ r. r.patch) m.releases) s
                  (All-Elem IsOrderedMinor (top_minors c) h v.minor_in).0)
                (subst (λ m. Elem v.release m.releases) s v.release_in)
                (subst (λ m. w ≡ version (top_major c) m.minor v.release.patch) s v.is)
          | inr l ↦ inr (
              rw v.is (
                compare-minor (top_major c) v.minor.minor v.release.patch f.minor.minor
                  f.release.patch l))
        ]

abbrev pub AboveLimit : ℕ → Option ℕ → Type 0
AboveLimit limit none = ⊥
AboveLimit limit (some n) = limit < n

abbrev FitsLimit : ℕ → Option ℕ → Type 0
FitsLimit limit none = ⊥
FitsLimit limit (some n) = n ≤ limit

-- What the highest version up to a limit for the major is, and what it means that there is none.
unfoldable pub IsHighest : Root → ℕ → Option Version → Type 0
IsHighest model limit none = All (λ w. AboveLimit limit (major w)) (all_versions model)
IsHighest model limit (some v) =
    FitsLimit limit (major v)
    × ((c : TopContainer) × Elem c (all_majors model) × IsVersionOf c v)
    × All (λ w. AboveLimit limit (major w) ⊎ ((w ≡ v) ⊎ (compare w v ≡ negative)))
        (all_versions model)

module _ (model : Root) (limit : ℕ) (h : IsOrdered model) where
  abbrev within : TopContainer → Bool
  within c = leb (top_major c) limit

  abbrev released : TopContainer → Bool
  released c = has_release (top_minors c)

  ordered : (c : TopContainer) → Elem c (all_majors model) → IsOrderedMinors (top_minors c)
  unfolding IsOrdered
  ordered c i = All-Elem (λ c. IsOrderedMinors (top_minors c)) (all_majors model) h.1 i

  released-IsVersionOf :
      (c : TopContainer) (w : Version)
      → Elem c (all_majors model)
      → IsVersionOf c w
      → released c ≡ true
  released-IsVersionOf c w i v = has_release-Elem (top_minors c) v.minor (ordered c i).1 v.minor_in

  none-IsHighest :
      find released (keep within (all_majors model)) ≡ none → IsHighest model limit none
  unfolding IsHighest major
  none-IsHighest e = All-of-Elem _ (all_versions model) above
    where
      above : (w : Version) → Elem w (all_versions model) → AboveLimit limit (major w)
      above w i =
          let (c, j, v) = all_versions-Elem model w i in
          elim (Bool-cases (within c)) [
            | inl t ↦
                let u : released c ≡ false =
                  find-none released (keep within (all_majors model)) e c
                    (keep-Elem within c (all_majors model) j t) in
                absurd (let k = released-IsVersionOf c w j v in cc)
            | inr u ↦ rw v.is (ground arith)
          ]

  below :
      (c : TopContainer) (f : Newest c) (w : Version)
      → find released (keep within (all_majors model)) ≡ some c
      → Elem c (all_majors model)
      → Elem w (all_versions model)
      → AboveLimit limit (major w)
        ⊎ ((w ≡ version (top_major c) f.minor.minor f.release.patch)
            ⊎ (compare w (version (top_major c) f.minor.minor f.release.patch) ≡ negative))
  unfolding major IsOrdered
  below c f w e i j =
      let (d, k, v) = all_versions-Elem model w j in
      elim (Bool-cases (within d)) [
        | inr u ↦ inl (rw v.is (ground arith))
        | inl t ↦
            inr
              (elim (find-Descending top_major released (keep within (all_majors model)) c d
                (Descending-keep within top_major (all_majors model) h.0) e
                (keep-Elem within d (all_majors model) k t) (released-IsVersionOf d w k v)) [
                  | inl s ↦ IsVersionOf-below c w f (ordered c i) (subst (λ x. IsVersionOf x w) s v)
                  | inr l ↦ inr (
                      rw v.is (
                        compare-major (top_major d) v.minor.minor v.release.patch (top_major c)
                          f.minor.minor f.release.patch l))
                ])
      ]

  first-IsHighest :
      (c : TopContainer)
      → Newest c
      → find released (keep within (all_majors model)) ≡ some c
      → Elem c (all_majors model)
      → within c ≡ true
      → IsHighest model limit (version_of_top (some c))
  unfolding IsHighest major version_of_top
  first-IsHighest c f e i t =
      rw (f.is_minors, f.is_releases)
        (
          ground arith,
          (
            c,
            i,
            record {
              minor = f.minor;
              minor_in = rw f.is_minors (inl refl);
              release = f.release;
              release_in = rw f.is_releases (inl refl);
              is = refl;
            },
          ),
          All-of-Elem _ (all_versions model) (λ w j. below c f w e i j),
        )

  some-IsHighest :
      (c : TopContainer)
      → find released (keep within (all_majors model)) ≡ some c
      → IsHighest model limit (version_of_top (some c))
  some-IsHighest c e =
      let (t, i) = find-eq-some released (keep within (all_majors model)) e in
      let (j, u) = Elem-keep within c (all_majors model) i in
      first-IsHighest c (first_of c (top_minors c) refl (ordered c j).1 t) e j u

  found-IsHighest :
      IsHighest model limit (version_of_top (find released (keep within (all_majors model))))
  unfolding version_of_top
  found-IsHighest = elim (Option-cases (find released (keep within (all_majors model)))) [
    | inl e ↦ rw e (no_top-IsHighest (none-IsHighest e))
    | inr (c, e) ↦ rw e (some-IsHighest c e)
  ]
    where
      no_top-IsHighest : IsHighest model limit none → IsHighest model limit (version_of_top none)
      no_top-IsHighest k = k

-- For an ordered model and a limit for the major, `highestVersion` returns the version of a release
-- of the model, within the limit, such that every version of the model within the limit is this
-- one or compares as lower; it returns nothing only when every version's major is above the limit.
pub highest_version-IsHighest :
    (lodash : Lodash) (model : Root) (limit : ℕ)
    → IsOrdered model
    → IsHighest model limit (highest_version lodash model (some limit))
unfolding highest_version
highest_version-IsHighest lodash model limit h =
    of_documented (λ l. IsHighest model limit (highest_version l model (some limit)))
      (found-IsHighest model limit h) lodash
