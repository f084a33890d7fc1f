-- ===== src/Repository/Reader/Patches.antt =====
-- The next versions on a patch branch of an ordered model.
use common_build.Common.{
  ℕ, ◌≡◌, ◌<◌, refl, sym, ap, List, [], ◌∷◌, map, All, Elem, All-Elem, find, find-eq-some, Bool,
  ◌⊎◌, inl, inr, arith, some, Option-cases,
}
use common_build.Common.{◌==◌ as nat_eq}
use mathlib.Core.Path.{subst}
use common_build.Common.Text.{Text}
use common_build.Common.Result.{ok}
use common_build.Lodash.{Lodash}
use common_build.Lodash.Laws.{documented, of_documented}
use common_build.Domain.Refs.{BranchRef, entity, of_branch, branch_name}
use common_build.Domain.Version.{
  Version, negative, positive, compare, compare_segments, major, from_segments,
}
use common_build.Repository.Model.{Root, TopContainer, of_major, top_major, MajorContainer}
use common_build.Repository.Normalized.{normalize, patch_branch}
use common_build.Repository.Ordered.{Descending, IsOrdered}
use common_build.Repository.Reader.{
  VersionType, all_majors, all_versions, next_version, next_of_ref, next_of_major,
}
use common_build.Repository.Reader.Kept.{find-none}
use common_build.Repository.Reader.Versions.{
  version, IsVersionOf, All-of-Elem, all_versions-Elem, compare-major,
}
use common_build.Repository.Reader.Highest.{AboveLimit}
use common_build.Repository.Reader.Next.{Successor, get_next_release-Successor, ordered}

Elem-map : {A B : Type 0} (f : A → B) (a : A) (xs : List A) → Elem a xs → Elem (f a) (map f xs)
Elem-map f a [] e = e
Elem-map f a (x ∷ xs) (inl e) = inl (ap f e)
Elem-map f a (x ∷ xs) (inr e) = inr (Elem-map f a xs e)

-- Elements of a descending list with the same key are the same.
Descending-unique :
    {A : Type 0} (f : A → ℕ) (a b : A) (xs : List A)
    → Descending f xs
    → Elem a xs
    → Elem b xs
    → f a ≡ f b
    → a ≡ b
Descending-unique f a b [] d i j e = elim i [ ]
Descending-unique f a b (x ∷ xs) d (inl i) (inl j) e = cc
Descending-unique f a b (x ∷ xs) d (inl i) (inr j) e =
    let l : f b < f x = All-Elem (λ y. f y < f x) xs d.0 j in
    let k : f a ≡ f x = ap f i in absurd (omega arith)
Descending-unique f a b (x ∷ xs) d (inr i) (inl j) e =
    let l : f a < f x = All-Elem (λ y. f y < f x) xs d.0 i in
    let k : f b ≡ f x = ap f j in absurd (omega arith)
Descending-unique f a b (x ∷ xs) d (inr i) (inr j) e = Descending-unique f a b xs d.1 i j e

compare-above : (a b c x y z : ℕ) → x < a → compare (version a b c) (version x y z) ≡ positive
unfolding compare compare_segments
compare-above a b c x y z h = ground arith

ℕ-cases : (a b : ℕ) → (a < b) ⊎ ((a ≡ b) ⊎ (b < a))
ℕ-cases a b = ground arith

-- Where a version stands to one that is new in a major.
abbrev pub IsLowerOrAbove : ℕ → Version → Version → Type 0
IsLowerOrAbove n v w =
    (compare w v ≡ negative) ⊎ ((compare w v ≡ positive) × AboveLimit n (major w))

module _ (model : Root) (h : IsOrdered model) (c : TopContainer)
    (i : Elem c (all_majors model)) where
  below :
      (type : VersionType) (n : Successor type c) (w : Version)
      → Elem w (all_versions model)
      → IsLowerOrAbove (top_major c) (version (top_major c) n.minor n.patch) w
  unfolding IsOrdered major
  below type n w j =
      let (d, k, l) = all_versions-Elem model w j in
      elim (ℕ-cases (top_major d) (top_major c)) [
        | inl u ↦ inl (
            rw l.is (
              compare-major (top_major d) l.minor.minor l.release.patch (top_major c) n.minor
                n.patch u))
        | inr (inl u) ↦
            let e = Descending-unique top_major d c (all_majors model) h.0 k i u in
            inl (n.above w (subst (λ x. IsVersionOf x w) e l))
        | inr (inr u) ↦ inr (
            rw l.is (
              compare-above (top_major d) l.minor.minor l.release.patch (top_major c) n.minor
                  n.patch u,
              u,
            ))
      ]

abbrev has_major : ℕ → MajorContainer → Bool
has_major n m = nat_eq m.major n

find-has_major :
    (model : Root) (n : ℕ) (c : MajorContainer)
    → Elem c model.majors
    → c.major ≡ n
    → (d : MajorContainer) × (find (has_major n) model.majors ≡ some d)
      × Elem d model.majors
      × (d.major ≡ n)
find-has_major model n c i e = elim (Option-cases (find (has_major n) model.majors)) [
  | inl k ↦ let f = find-none (has_major n) model.majors k c i in absurd (ground arith)
  | inr (d, k) ↦ let (t, j) = find-eq-some (has_major n) model.majors k in (d, k, j, ground arith)
]

next_of_patch :
    (model : Root) (n : ℕ) (others : List ℕ) (text : Text) (type : VersionType) (c : MajorContainer)
    → IsOrdered model
    → Elem c model.majors
    → c.major ≡ n
    → (v : Version) × (next_of_ref documented model text type (some (patch_branch n others)) ≡ ok v)
      × (major v ≡ some n)
      × All (IsLowerOrAbove n v) (all_versions model)
unfolding next_of_ref next_of_major from_segments top_major major all_majors
next_of_patch model n others text type c h i e =
    let (d, k, j, f) = find-has_major model n c i e in
    let l : Elem (of_major d) (all_majors model) = inr (Elem-map of_major d model.majors j) in
    let m : Successor type (of_major d) =
      get_next_release-Successor (of_major d) (ordered model (of_major d) h l) type in
    (
      version d.major m.minor m.patch,
      rw (k, m.is) refl,
      ap some f,
      All-of-Elem _ (all_versions model)
          (λ w u. rw (sym f) (below model h (of_major d) l type m w u)),
    )

-- For an ordered model and a branch that means a major of the model other than the main one,
-- `nextVersion` returns a version of that major, and every version of the model compares as lower
-- or has a higher major and compares as higher: none is the same.
pub next_version-patch :
    (lodash : Lodash) (model : Root) (b : BranchRef) (type : VersionType) (n : ℕ) (others : List ℕ)
    (c : MajorContainer)
    → IsOrdered model
    → Elem c model.majors
    → c.major ≡ n
    → normalize (entity (of_branch b)) ≡ some (patch_branch n others)
    → (v : Version) × (next_version lodash model b type ≡ ok v)
      × (major v ≡ some n)
      × All (IsLowerOrAbove n v) (all_versions model)
unfolding next_version
next_version-patch lodash model b type n others c h i e k =
    of_documented
      (λ l.
        (v : Version) × (next_version l model b type ≡ ok v)
        × (major v ≡ some n)
        × All (IsLowerOrAbove n v) (all_versions model))
      (rw k (next_of_patch model n others (branch_name b) type c h i e)) lodash
