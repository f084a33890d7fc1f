-- ===== src/Repository/Reader/Kept.antt =====
-- Elements of a filtered list.
use common_build.Common.{
  ℕ, ◌≡◌, ◌<◌, List, [], ◌∷◌, All, Elem, keep, find, Bool, true, false, Bool-cases, inl, inr, arith,
  none,
}
use common_build.Repository.Ordered.{Descending}

module _ {A : Type 0} (q : A → Bool) where
  pub Elem-keep : (a : A) (xs : List A) → Elem a (keep q xs) → Elem a xs × (q a ≡ true)
  Elem-keep a [] e = elim e [ ]
  Elem-keep a (x ∷ xs) e = elim (Bool-cases (q x)) [
    | inl t ↦
        let i : Elem a (x ∷ keep q xs) = rw t at e in
        elim i [ inl i ↦ (inl i, cc) | inr i ↦ let (j, u) = Elem-keep a xs i in (inr j, u) ]
    | inr f ↦ let (j, u) = Elem-keep a xs (rw f at e) in (inr j, u)
  ]

  pub keep-Elem : (a : A) (xs : List A) → Elem a xs → q a ≡ true → Elem a (keep q xs)
  keep-Elem a [] e t = e
  keep-Elem a (x ∷ xs) (inl i) t = let u : q x ≡ true = cc in rw u (inl i)
  keep-Elem a (x ∷ xs) (inr i) t = elim (Bool-cases (q x)) [
    | inl u ↦ rw u (inr (keep-Elem a xs i t))
    | inr u ↦ rw u (keep-Elem a xs i t)
  ]

  All-keep : (P : A → Type 0) (xs : List A) → All P xs → All P (keep q xs)
  All-keep P [] h = tt
  All-keep P (x ∷ xs) (p, h) = elim (Bool-cases (q x)) [
    | inl u ↦ rw u (p, All-keep P xs h)
    | inr u ↦ rw u (All-keep P xs h)
  ]

  pub Descending-keep : (f : A → ℕ) (xs : List A) → Descending f xs → Descending f (keep q xs)
  Descending-keep f [] d = tt
  Descending-keep f (x ∷ xs) (b, d) = elim (Bool-cases (q x)) [
    | inl u ↦ rw u (All-keep (λ y. f y < f x) xs b, Descending-keep f xs d)
    | inr u ↦ rw u (Descending-keep f xs d)
  ]

  pub find-none : (xs : List A) → find q xs ≡ none → (a : A) → Elem a xs → q a ≡ false
  find-none [] h a e = elim e [ ]
  find-none (x ∷ xs) h a e = elim (Bool-cases (q x)) [
    | inl u ↦ absurd (ground arith)
    | inr u ↦ rest u (λ i. find-none xs (rw u at h) a i) e
  ]
    where
      rest : q x ≡ false → (Elem a xs → q a ≡ false) → Elem a (x ∷ xs) → q a ≡ false
      rest u k (inl i) = cc
      rest u k (inr i) = k i
