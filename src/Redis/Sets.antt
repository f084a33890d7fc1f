-- ===== src/Redis/Sets.antt =====
-- Sorted sets: what each operation does to the score of a member, to the size, and to the rule
-- that a member stands in a set once.
use common_build.Common.{
  Bool-cases, inl, inr, All, false, suc, true, List, [], ◌∷◌, Option, none, some, if◌then◌else◌,
  ◌≡◌, refl, length, arith, Elem,
}
use common_build.Common.Text.{Text, ◌==◌, eq_iff, eq-true}
use common_build.Common.Int.{ℤ, pos, le_int}
use common_build.Redis.Commands.{zscore, zinsert, zremove, positive, zdifference, is_some, before}

-- Every member stands in the set once.
abbrev pub IsUnique : List (Text × ℤ) → Type 0
IsUnique [] = Unit
IsUnique ((n, _) ∷ l) = (zscore n l ≡ none) × IsUnique l

pub zscore-zinsert :
    (j m : Text) (s : ℤ) (l : List (Text × ℤ))
    → zscore m l ≡ none
    → zscore j (zinsert (m, s) l) ≡ (if m == j then some s else zscore j l)
unfolding zscore zinsert
zscore-zinsert j m s [] h = refl
zscore-zinsert j m s ((n, t) ∷ l) h =
    ground (arith, zscore-zinsert j m s l, eq_iff n m, eq_iff m j, eq_iff n j)

pub zscore-zremove :
    (j m : Text) (l : List (Text × ℤ))
    → zscore j (zremove m l) ≡ (if m == j then none else zscore j l)
unfolding zscore zremove
zscore-zremove j m [] = ground arith
zscore-zremove j m ((n, t) ∷ l) =
    ground (arith, zscore-zremove j m l, eq_iff n m, eq_iff m j, eq_iff n j)

pub length-zinsert : (e : Text × ℤ) (l : List (Text × ℤ)) → length (zinsert e l) ≡ suc (length l)
unfolding zinsert
length-zinsert e [] = refl
length-zinsert e (f ∷ l) = ground (arith, length-zinsert e l)

pub zinsert-IsUnique :
    (m : Text) (s : ℤ) (l : List (Text × ℤ))
    → zscore m l ≡ none
    → IsUnique l
    → IsUnique (zinsert (m, s) l)
unfolding zinsert zscore
zinsert-IsUnique m s [] h u = (refl, tt)
zinsert-IsUnique m s ((n, t) ∷ l) h u =
    ground (arith, zinsert-IsUnique m s l, zscore-zinsert n m s l, eq_iff n m, eq_iff m n)

pub zremove-IsUnique : (m : Text) (l : List (Text × ℤ)) → IsUnique l → IsUnique (zremove m l)
unfolding zremove
zremove-IsUnique m [] u = tt
zremove-IsUnique m ((n, t) ∷ l) u = ground (arith, zremove-IsUnique m l, zscore-zremove n m l)

-- What is left of a score when the scores up to 0 are removed.
abbrev pub strip : Option ℤ → Option ℤ
strip none = none
strip (some s) = if le_int s (pos 0) then none else some s

zscore-positive-none :
    (j : Text) (l : List (Text × ℤ)) → zscore j l ≡ none → zscore j (positive l) ≡ none
unfolding zscore positive
zscore-positive-none j [] h = refl
zscore-positive-none j ((n, t) ∷ l) h = ground (arith, zscore-positive-none j l)

pub zscore-positive :
    (j : Text) (l : List (Text × ℤ)) → IsUnique l → zscore j (positive l) ≡ strip (zscore j l)
unfolding zscore positive
zscore-positive j [] u = refl
zscore-positive j ((n, t) ∷ l) u =
    ground (arith, zscore-positive j l, zscore-positive-none j l, eq_iff n j)

pub positive-IsUnique : (l : List (Text × ℤ)) → IsUnique l → IsUnique (positive l)
unfolding positive
positive-IsUnique [] u = tt
positive-IsUnique ((n, t) ∷ l) u = ground (arith, positive-IsUnique l, zscore-positive-none n l)

-- The difference holds exactly the members of the first set that are not in the second.
pub zdifference-Elem :
    (m : Text) (l r : List (Text × ℤ))
    → Elem m (zdifference l r)
    → (is_some (zscore m l) ≡ true) × (zscore m r ≡ none)
unfolding zscore zdifference
zdifference-Elem m [] r e = elim e [ ]
zdifference-Elem m ((n, t) ∷ l) r e = ground (arith, zdifference-Elem m l r, eq_iff n m)

pub Elem-zdifference :
    (m : Text) (l r : List (Text × ℤ))
    → is_some (zscore m l) ≡ true
    → zscore m r ≡ none
    → Elem m (zdifference l r)
unfolding zscore zdifference
Elem-zdifference m [] r h k = cc
Elem-zdifference m ((n, t) ∷ l) r h k = ground (arith, Elem-zdifference m l r, eq_iff n m)

-- `ZADD` and `ZINCRBY` remove the member and insert it with its new score.
zscore-zremove_self : (m : Text) (l : List (Text × ℤ)) → zscore m (zremove m l) ≡ none
zscore-zremove_self m l = ground (arith, zscore-zremove m m l, eq-true m)

pub zscore-renew :
    (j m : Text) (s : ℤ) (l : List (Text × ℤ))
    → zscore j (zinsert (m, s) (zremove m l)) ≡ (if m == j then some s else zscore j l)
zscore-renew j m s l =
    ground
      (arith, zscore-zinsert j m s (zremove m l) (zscore-zremove_self m l), zscore-zremove j m l)

pub renew-IsUnique :
    (m : Text) (s : ℤ) (l : List (Text × ℤ)) → IsUnique l → IsUnique (zinsert (m, s) (zremove m l))
renew-IsUnique m s l u =
    zinsert-IsUnique m s (zremove m l) (zscore-zremove_self m l) (zremove-IsUnique m l u)

-- The members stand by their scores.
abbrev pub IsSorted : List (Text × ℤ) → Type 0
IsSorted [] = Unit
IsSorted ((_, s) ∷ l) = All (λ e. le_int s e.1 ≡ true) l × IsSorted l

le_int_trans : (a b c : ℤ) → le_int a b ≡ true → le_int b c ≡ true → le_int a c ≡ true
le_int_trans a b c h k = ground arith

All-le_trans :
    (a b : ℤ) (l : List (Text × ℤ))
    → le_int a b ≡ true
    → All (λ e. le_int b e.1 ≡ true) l
    → All (λ e. le_int a e.1 ≡ true) l
All-le_trans a b [] h k = tt
All-le_trans a b ((n, t) ∷ l) h (k, ks) = (le_int_trans a b t h k, All-le_trans a b l h ks)

All-zinsert :
    (a : ℤ) (e : Text × ℤ) (l : List (Text × ℤ))
    → le_int a e.1 ≡ true
    → All (λ f. le_int a f.1 ≡ true) l
    → All (λ f. le_int a f.1 ≡ true) (zinsert e l)
unfolding zinsert
All-zinsert a e [] h k = (h, tt)
All-zinsert a e (f ∷ l) h (k, ks) = ground (arith, All-zinsert a e l)

before-le : (e f : Text × ℤ) → before e f ≡ true → le_int e.1 f.1 ≡ true
before-le (m, s) (n, t) h = ground arith

not-before-le : (e f : Text × ℤ) → before e f ≡ false → le_int f.1 e.1 ≡ true
not-before-le (m, s) (n, t) h = ground arith

pub zinsert-IsSorted : (e : Text × ℤ) (l : List (Text × ℤ)) → IsSorted l → IsSorted (zinsert e l)
unfolding zinsert
zinsert-IsSorted e [] u = (tt, tt)
zinsert-IsSorted e (f ∷ l) (k, u) = elim (Bool-cases (before e f)) [
  | inl b ↦ rw b ((before-le e f b, All-le_trans e.1 f.1 l (before-le e f b) k), (k, u))
  | inr b ↦ rw b (All-zinsert f.1 e l (not-before-le e f b) k, zinsert-IsSorted e l u)
]
