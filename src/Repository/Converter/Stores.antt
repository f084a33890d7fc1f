-- ===== src/Repository/Converter/Stores.antt =====
-- Lemmas on the objects of the converter that are keyed by numbers.
use common_build.Common.{
  ℕ, ◌<◌, ◌≡◌, ◌≢◌, ◌==◌, List, [], ◌∷◌, map, All, Bool-cases, inl, inr, arith, ltb, ltb→lt, ==_iff,
  sym, refl, some, ◌≤◌,
}
use mathlib.Core.Path.{subst}
use common_build.Repository.Converter.{update, values, remove}
use common_build.Lodash.Functions.{best, max_by_list}
use common_build.Repository.Ordered.{Distinct}

module _ {A : Type 0} where
  -- The keys ascend.
  abbrev pub Ascending : List (ℕ × A) → Type 0
  Ascending [] = Unit
  Ascending (e ∷ es) = All (λ d. e.0 < d.0) es × Ascending es

  pub All-update :
      (P : ℕ → A → Type 0) (create : ℕ → A) (change : A → A) (k : ℕ) (es : List (ℕ × A))
      → P k (change (create k))
      → ((a : A) → P k a → P k (change a))
      → All (λ e. P e.0 e.1) es
      → All (λ e. P e.0 e.1) (update create change k es)
  unfolding update
  All-update P create change k [] p q h = (p, tt)
  All-update P create change k ((j, a) ∷ es) p q (pa, h) = elim (Bool-cases (ltb k j)) [
    | inl t ↦ rw t (p, (pa, h))
    | inr u ↦ elim (Bool-cases (k == j)) [
      | inl t ↦
          let e = (==_iff k j).0 t in
          rw (u, t) (subst (λ i. P i (change a)) e (q a (subst (λ i. P i a) (sym e) pa)), h)
      | inr v ↦ rw (u, v) (pa, All-update P create change k es p q h)
    ]
  ]

  All-lt : (k j : ℕ) (es : List (ℕ × A)) → k < j → All (λ d. j < d.0) es → All (λ d. k < d.0) es
  All-lt k j [] l h = tt
  All-lt k j (e ∷ es) l (p, h) = (omega arith, All-lt k j es l h)

  pub update-Ascending :
      (create : ℕ → A) (change : A → A) (k : ℕ) (es : List (ℕ × A))
      → Ascending es
      → Ascending (update create change k es)
  unfolding update
  update-Ascending create change k [] h = (tt, tt)
  update-Ascending create change k ((j, a) ∷ es) (b, h) = elim (Bool-cases (ltb k j)) [
    | inl t ↦ rw t ((ltb→lt k j t, All-lt k j es (ltb→lt k j t) b), (b, h))
    | inr u ↦ elim (Bool-cases (k == j)) [
      | inl t ↦ rw (u, t) (b, h)
      | inr v ↦
          rw (u, v)
            (
              All-update (λ i _. j < i) create change k es (ground arith) (λ _ l. l) b,
              update-Ascending create change k es h,
            )
    ]
  ]

  pub Ascending-Distinct : (es : List (ℕ × A)) → Ascending es → Distinct (λ e. e.0) es
  Ascending-Distinct [] h = tt
  Ascending-Distinct (e ∷ es) (b, h) = (go e.0 es b, Ascending-Distinct es h)
    where
      go : (k : ℕ) (es : List (ℕ × A)) → All (λ d. k < d.0) es → All (λ d. d.0 ≢ k) es
      go k [] h = tt
      go k (e ∷ es) (p, h) = (omega arith, go k es h)

  pub values-All : (P : A → Type 0) (es : List (ℕ × A)) → All (λ e. P e.1) es → All P (values es)
  values-All P [] h = tt
  values-All P (e ∷ es) (p, h) = (p, values-All P es h)

  pub values-Distinct :
      (f : A → ℕ) (es : List (ℕ × A))
      → Ascending es
      → All (λ e. f e.1 ≡ e.0) es
      → Distinct f (values es)
  values-Distinct f [] h m = tt
  values-Distinct f (e ∷ es) (b, h) (q, m) = (go e.0 (f e.1) es q b m, values-Distinct f es h m)
    where
      go :
          (k n : ℕ) (es : List (ℕ × A))
          → n ≡ k
          → All (λ d. k < d.0) es
          → All (λ e. f e.1 ≡ e.0) es
          → All (λ y. f y ≢ n) (values es)
      go k n [] q h m = tt
      go k n (e ∷ es) q (p, h) (r, m) = (omega arith, go k n es q h m)

  pub All-remove : (P : ℕ × A → Type 0) (k : ℕ) (es : List (ℕ × A)) → All P es → All P (remove k es)
  All-remove P k [] h = tt
  All-remove P k (e ∷ es) (p, h) = elim (Bool-cases (k == e.0)) [
    | inl t ↦ rw t (All-remove P k es h)
    | inr u ↦ rw u (p, All-remove P k es h)
  ]

  pub remove-Ascending : (k : ℕ) (es : List (ℕ × A)) → Ascending es → Ascending (remove k es)
  remove-Ascending k [] h = tt
  remove-Ascending k (e ∷ es) (b, h) = elim (Bool-cases (k == e.0)) [
    | inl t ↦ rw t (remove-Ascending k es h)
    | inr u ↦ rw u (All-remove (λ d. e.0 < d.0) k es b, remove-Ascending k es h)
  ]

  pub remove-absent : (k : ℕ) (es : List (ℕ × A)) → All (λ e. k ≢ e.0) (remove k es)
  remove-absent k [] = tt
  remove-absent k (e ∷ es) = elim (Bool-cases (k == e.0)) [
    | inl t ↦ rw t (remove-absent k es)
    | inr u ↦ rw u (grind (arith, u), remove-absent k es)
  ]

module _ {A B : Type 0} (make : A → B) where
  pub All-map : (P : B → Type 0) (xs : List A) → All (λ a. P (make a)) xs → All P (map make xs)
  All-map P [] h = tt
  All-map P (x ∷ xs) (p, h) = (p, All-map P xs h)

  pub Distinct-map :
      (f : B → ℕ) (xs : List A) → Distinct (λ a. f (make a)) xs → Distinct f (map make xs)
  Distinct-map f [] h = tt
  Distinct-map f (x ∷ xs) (p, h) = (All-map (λ y. f y ≢ f (make x)) xs p, Distinct-map f xs h)

some-injective : {A : Type 0} {a b : A} → some a ≡ some b → a ≡ b
some-injective e = cc

module _ {A : Type 0} (f : A → ℕ) where
  best-All : (P : A → Type 0) (x : A) (xs : List A) → P x → All P xs → P (best f x xs)
  best-All P x [] p h = p
  best-All P x (y ∷ ys) p (q, h) = elim (Bool-cases (ltb (f x) (f y))) [
    | inl t ↦ rw t (best-All P y ys q h)
    | inr u ↦ rw u (best-All P x ys p h)
  ]

  best-first : (x : A) (xs : List A) → f x ≤ f (best f x xs)
  best-first x [] = omega arith
  best-first x (y ∷ ys) = elim (Bool-cases (ltb (f x) (f y))) [
    | inl t ↦ rw t (omega (arith, best-first y ys, ltb→lt (f x) (f y) t))
    | inr u ↦ rw u (best-first x ys)
  ]

  best-highest : (x : A) (xs : List A) → All (λ y. f y ≤ f (best f x xs)) xs
  best-highest x [] = tt
  best-highest x (y ∷ ys) = elim (Bool-cases (ltb (f x) (f y))) [
    | inl t ↦
        subst (λ b. All (λ z. f z ≤ f b) (y ∷ ys)) (rw t refl) (best-first y ys, best-highest y ys)
    | inr u ↦
        subst (λ b. All (λ z. f z ≤ f b) (y ∷ ys)) (rw u refl)
          (grind (arith, best-first x ys, u), best-highest x ys)
  ]

  pub max_by-All :
      (P : A → Type 0) (xs : List A) {b : A} → max_by_list f xs ≡ some b → All P xs → P b
  max_by-All P [] e h = cc
  max_by-All P (x ∷ xs) e (p, h) = subst P (some-injective e) (best-All P x xs p h)

  pub max_by-highest : (xs : List A) {b : A} → max_by_list f xs ≡ some b → All (λ y. f y ≤ f b) xs
  max_by-highest [] e = cc
  max_by-highest (x ∷ xs) e =
      subst (λ b. All (λ y. f y ≤ f b) (x ∷ xs)) (some-injective e)
        (best-first x xs, best-highest x xs)
