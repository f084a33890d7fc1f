-- ===== src/Repository/Ordered.antt =====
-- Models whose majors, minors and releases stand highest first, with at least one release in every
-- minor: what the reader relies on.
use common_build.Common.{
  ℕ, zero, suc, true, false, ◌<◌, ◌≢◌, ◌≡◌, List, [], ◌∷◌, All, Bool-cases, inl, inr, arith, leb,
}
use common_build.Common.Int.{ℤ, neg, le_int}
use common_build.Lodash.Functions.{insert_by, sort_by_list}
use common_build.Repository.Model.{Root, top_major, top_minors, MinorContainer, Release}
use common_build.Repository.Reader.{all_majors}

pub le_int-neg : (a b : ℕ) → le_int (neg a) (neg b) ≡ leb b a
le_int-neg zero zero = ground arith
le_int-neg zero (suc b) = ground arith
le_int-neg (suc a) zero = ground arith
le_int-neg (suc a) (suc b) = ground arith

module _ {A : Type 0} (f : A → ℕ) where
  abbrev pub Descending : List A → Type 0
  Descending [] = Unit
  Descending (x ∷ xs) = All (λ y. f y < f x) xs × Descending xs

  pub All-insert_by :
      (g : A → ℤ) (P : A → Type 0) (x : A) (ys : List A) → P x → All P ys → All P (insert_by g x ys)
  All-insert_by g P x [] p h = (p, tt)
  All-insert_by g P x (y ∷ ys) p (q, h) = elim (Bool-cases (le_int (g x) (g y))) [
    | inl t ↦ rw t (p, (q, h))
    | inr u ↦ rw u (q, All-insert_by g P x ys p h)
  ]

  pub All-sort_by :
      (g : A → ℤ) (P : A → Type 0) (xs : List A) → All P xs → All P (sort_by_list g xs)
  All-sort_by g P [] h = tt
  All-sort_by g P (x ∷ xs) (p, h) = All-insert_by g P x (sort_by_list g xs) p (All-sort_by g P xs h)

  insert_by-below : (x y : A) → le_int (neg (f x)) (neg (f y)) ≡ true → f y ≢ f x → f y < f x
  insert_by-below x y h k = grind (arith, le_int-neg (f x) (f y))

  insert_by-above : (x y : A) → le_int (neg (f x)) (neg (f y)) ≡ false → f x < f y
  insert_by-above x y h = grind (arith, le_int-neg (f x) (f y))

  All-below : (a b : ℕ) (xs : List A) → a < b → All (λ y. f y < a) xs → All (λ y. f y < b) xs
  All-below a b [] h k = tt
  All-below a b (x ∷ xs) h (p, k) = (omega arith, All-below a b xs h k)

  insert_by-Descending :
      (x : A) (ys : List A)
      → All (λ y. f y ≢ f x) ys
      → Descending ys
      → Descending (insert_by (λ a. neg (f a)) x ys)
  insert_by-Descending x [] h d = (tt, tt)
  insert_by-Descending x (y ∷ ys) (p, h) (q, d) =
      elim (Bool-cases (le_int (neg (f x)) (neg (f y)))) [
        | inl t ↦
            let l = insert_by-below x y t p in rw t ((l, All-below (f y) (f x) ys l q), (q, d))
        | inr u ↦ rw u (
          All-insert_by (λ a. neg (f a)) (λ z. f z < f y) x ys (insert_by-above x y u) q,
          insert_by-Descending x ys h d,
        )
      ]

  -- No two elements have the same key.
  abbrev pub Distinct : List A → Type 0
  Distinct [] = Unit
  Distinct (x ∷ xs) = All (λ y. f y ≢ f x) xs × Distinct xs

  pub sort_by-Descending :
      (xs : List A) → Distinct xs → Descending (sort_by_list (λ a. neg (f a)) xs)
  sort_by-Descending [] d = tt
  sort_by-Descending (x ∷ xs) (h, d) =
      insert_by-Descending x (sort_by_list (λ a. neg (f a)) xs)
        (All-sort_by (λ a. neg (f a)) (λ y. f y ≢ f x) xs h) (sort_by-Descending xs d)

abbrev pub HasRelease : List Release → Type 0
HasRelease [] = ⊥
HasRelease (r ∷ rs) = Unit

abbrev pub IsOrderedMinor : MinorContainer → Type 0
IsOrderedMinor m = Descending (λ r. r.patch) m.releases × HasRelease m.releases

abbrev pub IsOrderedMinors : List MinorContainer → Type 0
IsOrderedMinors ms = Descending (λ m. m.minor) ms × All IsOrderedMinor ms

unfoldable pub IsOrdered : Root → Type 0
IsOrdered model =
    Descending top_major (all_majors model)
    × All (λ c. IsOrderedMinors (top_minors c)) (all_majors model)
