-- ===== src/Repository/Reader/Next.antt =====
-- The next versions of an ordered model.
use common_build.Common.{
  ℕ, ◌≡◌, ◌≢◌, refl, ap, ◌∙◌, ◌+◌, List, [], ◌∷◌, map, All, Elem, All-Elem, inl, inr, arith, some,
}
use mathlib.Core.Path.{subst}
use common_build.Common.Result.{ok}
use common_build.Lodash.{Lodash}
use common_build.Lodash.Laws.{documented, of_documented}
use common_build.Domain.Refs.{BranchRef, entity, of_branch, branch_name}
use common_build.Domain.Version.{Version, Sign, same, negative, positive, compare, from_segments}
use common_build.Repository.Model.{
  Root, TopContainer, of_main, of_major, top_major, top_minors, MinorContainer,
}
use common_build.Repository.Normalized.{normalize, main_branch}
use common_build.Repository.Ordered.{IsOrdered, IsOrderedMinors, IsOrderedMinor}
use common_build.Repository.Reader.{
  VersionType, minor_version, patch_version, all_majors, all_versions, next_version, next_of_ref,
  get_next_release, next_in_minors, next_in_releases,
}
use common_build.Repository.Reader.Versions.{
  version, IsVersionOf, Descending-first, All-of-Elem, all_versions-Elem, compare-major,
  compare-minor, compare-patch,
}
use common_build.Domain.Version.Order.{compare_trans, compare-flip, flip}
use common_build.Common.Text.{Text}
use common_build.Repository.Reader.Highest.{has_release-Elem, Newest, first_of, IsVersionOf-below}

not_positive : {s : Sign} → s ≡ negative → s ≢ positive
not_positive h k = cc

lower_trans :
    (u v w : Version) → compare u v ≡ negative → compare v w ≡ negative → compare u w ≡ negative
lower_trans u v w h k = go (compare u w) refl
  where
    go : (s : Sign) → compare u w ≡ s → compare u w ≡ negative
    go negative e = e
    go positive e = absurd (compare_trans u v w (not_positive h) (not_positive k) e)
    go same e =
        let i : compare v u ≡ negative = rw ((compare-flip u w).0.0 e) k in
        let j : compare v u ≡ positive = (compare-flip u v).1 ∙ ap flip h in
        absurd (not_positive i j)

-- The numbers that come next in a container, and that they are above its versions.
pub record Successor (type : VersionType) (c : TopContainer) : Type 0 where
  pub minor : ℕ
  pub patch : ℕ
  pub is : get_next_release documented type c ≡ top_major c ∷ minor ∷ patch ∷ []
  pub above :
      (w : Version) → IsVersionOf c w → compare w (version (top_major c) minor patch) ≡ negative

module _ (c : TopContainer) (h : IsOrderedMinors (top_minors c)) where
  above_first :
      (f : Newest c) (b p : ℕ) (w : Version)
      → compare (version (top_major c) f.minor.minor f.release.patch) (version (top_major c) b p)
        ≡ negative
      → IsVersionOf c w
      → compare w (version (top_major c) b p) ≡ negative
  above_first f b p w l v = elim (IsVersionOf-below c w f h v) [
    | inl e ↦ rw e l
    | inr k ↦
        lower_trans w (version (top_major c) f.minor.minor f.release.patch)
          (version (top_major c) b p) k l
  ]

  first-Successor : (type : VersionType) → Newest c → Successor type c
  unfolding get_next_release next_in_minors next_in_releases
  first-Successor minor_version f = record {
    minor = f.minor.minor + 1;
    patch = 0;
    is = rw (f.is_minors, f.is_releases) refl;
    above = λ w v.
        above_first f (f.minor.minor + 1) 0 w
          (compare-minor (top_major c) f.minor.minor f.release.patch (f.minor.minor + 1) 0
            (omega arith))
          v;
  }
  first-Successor patch_version f = record {
    minor = f.minor.minor;
    patch = f.release.patch + 1;
    is = rw (f.is_minors, f.is_releases) refl;
    above = λ w v.
        above_first f f.minor.minor (f.release.patch + 1) w
          (compare-patch (top_major c) f.minor.minor f.release.patch (f.release.patch + 1)
            (omega arith))
          v;
  }

  no_minors-Successor : (type : VersionType) → top_minors c ≡ [] → Successor type c
  unfolding get_next_release next_in_minors
  no_minors-Successor type e = record {
    minor = 0;
    patch = 0;
    is = rw e refl;
    above = λ w v. elim (rw e at v.minor_in) [ ];
  }

  pub get_next_release-Successor : (type : VersionType) → Successor type c
  get_next_release-Successor type = go (top_minors c) refl
    where
      go : (ms : List MinorContainer) → top_minors c ≡ ms → Successor type c
      go [] e = no_minors-Successor type e
      go (m ∷ ms) e =
          let k : All IsOrderedMinor (m ∷ ms) = rw e at h.1 in
          first-Successor type (first_of c (m ∷ ms) e k (has_release-Elem (m ∷ ms) m k (inl refl)))

pub ordered :
    (model : Root) (c : TopContainer)
    → IsOrdered model
    → Elem c (all_majors model)
    → IsOrderedMinors (top_minors c)
unfolding IsOrdered
ordered model c h i = All-Elem (λ c. IsOrderedMinors (top_minors c)) (all_majors model) h.1 i

next_of_main :
    (model : Root) (name text : Text) (type : VersionType)
    → IsOrdered model
    → (v : Version) × (next_of_ref documented model text type (some (main_branch name)) ≡ ok v)
      × All (λ w. compare w v ≡ negative) (all_versions model)
unfolding next_of_ref from_segments IsOrdered all_majors
next_of_main model name text type h =
    (v, rw n.is refl, All-of-Elem (λ w. compare w v ≡ negative) (all_versions model) below)
  where
    c : TopContainer
    c = of_main model.main

    n : Successor type c
    n = get_next_release-Successor c h.1.0 type

    v : Version
    v = version (top_major c) n.minor n.patch

    below : (w : Version) → Elem w (all_versions model) → compare w v ≡ negative
    below w i =
        let (d, j, k) = all_versions-Elem model w i in
        elim (Descending-first top_major c (map of_major model.majors) h.0 j) [
          | inl e ↦ n.above w (subst (λ x. IsVersionOf x w) e k)
          | inr l ↦ rw k.is (
              compare-major (top_major d) k.minor.minor k.release.patch (top_major c) n.minor
                n.patch l)
        ]

-- For an ordered model and the main branch, `nextVersion` returns a version, and every version of
-- the model compares as lower, for both kinds of versions.
pub next_version-main :
    (lodash : Lodash) (model : Root) (b : BranchRef) (type : VersionType) (name : Text)
    → IsOrdered model
    → normalize (entity (of_branch b)) ≡ some (main_branch name)
    → (v : Version) × (next_version lodash model b type ≡ ok v)
      × All (λ w. compare w v ≡ negative) (all_versions model)
unfolding next_version
next_version-main lodash model b type name h e =
    of_documented
      (λ l.
        (v : Version) × (next_version l model b type ≡ ok v)
        × All (λ w. compare w v ≡ negative) (all_versions model))
      (rw e (next_of_main model name (branch_name b) type h)) lodash
