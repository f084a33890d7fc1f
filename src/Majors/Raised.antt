-- ===== src/Majors/Raised.antt =====
-- The values of a serie when a major is added.
use common_build.Common.{
  ℕ, suc, zero, ◌≡◌, ◌<◌, refl, ap, List, [], ◌∷◌, All, Bool, Bool-cases, inl, inr, true, false,
  arith, ltb, leb, if◌then◌else◌,
}
use common_build.Common.Text.{Text}
use common_build.Common.Int.{neg, le_int}
use common_build.Common.Result.{ok}
use common_build.Lodash.{Lodash}
use common_build.Lodash.Laws.{documented, of_documented}
use common_build.Lodash.Functions.{best, insert_by, sort_by_list}
use common_build.Repository.Ordered.{Descending, le_int-neg}
use common_build.Majors.{raise, too_low}

abbrev pub IsFalling : List ℕ → Type 0
IsFalling = Descending (λ n. n)

best-falling : (h : ℕ) (t : List ℕ) → All (λ y. y < h) t → best (λ n. n) h t ≡ h
best-falling h [] b = refl
best-falling h (y ∷ t) (l, b) = let k : ltb h y ≡ false = ground arith in rw k (best-falling h t b)

insert_by-falling : (h : ℕ) (t : List ℕ) → All (λ y. y < h) t → insert_by (λ n. neg n) h t ≡ h ∷ t
insert_by-falling h [] b = refl
insert_by-falling h (y ∷ t) (l, b) =
    let k : le_int (neg h) (neg y) ≡ true = rw (le_int-neg h y) (ground arith) in rw k refl

sort_by-falling : (xs : List ℕ) → IsFalling xs → sort_by_list (λ n. neg n) xs ≡ xs
sort_by-falling [] d = refl
sort_by-falling (x ∷ xs) (b, d) = rw (sort_by-falling xs d) (insert_by-falling x xs b)

All-less : (h v : ℕ) (xs : List ℕ) → h < v → All (λ y. y < h) xs → All (λ y. y < v) xs
All-less h v [] l b = tt
All-less h v (x ∷ xs) l (k, b) = (omega arith, All-less h v xs l b)

-- The value is above the first one, where there is one.
abbrev pub is_above : ℕ → List ℕ → Bool
is_above value [] = true
is_above value (h ∷ _) = ltb h value

-- The highest value, where there is one.
abbrev pub first_or_0 : List ℕ → ℕ
first_or_0 [] = 0
first_or_0 (h ∷ _) = h

raise-documented :
    (config : List Text) (value : ℕ) (old : List ℕ)
    → 0 < value
    → IsFalling old
    → raise documented config value old
      ≡ (if is_above value old then ok (value ∷ old) else too_low value (first_or_0 old))
unfolding raise
raise-documented config value [] p d = refl
raise-documented config value (zero ∷ t) p (b, d) =
    let k : ltb 0 value ≡ true = ground arith in
    rw (best-falling 0 t b, k)
      (ap ok (sort_by-falling (value ∷ zero ∷ t) ((p, All-less 0 value t p b), (b, d))))
raise-documented config value (suc h ∷ t) p (b, d) = elim (Bool-cases (ltb (suc h) value)) [
  | inl u ↦
      let l : suc h < value = ground arith in
      let k : leb value (suc h) ≡ false = ground arith in
      rw (best-falling (suc h) t b, k, u)
        (ap ok (sort_by-falling (value ∷ suc h ∷ t) ((l, All-less (suc h) value t l b), (b, d))))
  | inr u ↦
      let k : leb value (suc h) ≡ true = ground arith in rw (best-falling (suc h) t b, k, u) refl
]

-- Where the values of a serie fall strictly, a positive value that is above the first one is put
-- before them, and any other value is refused with the first one named.
pub raise_lem :
    (lodash : Lodash) (config : List Text) (value : ℕ) (old : List ℕ)
    → 0 < value
    → IsFalling old
    → raise lodash config value old
      ≡ (if is_above value old then ok (value ∷ old) else too_low value (first_or_0 old))
raise_lem lodash config value old p d =
    of_documented
      (λ l.
        raise l config value old
        ≡ (if is_above value old then ok (value ∷ old) else too_low value (first_or_0 old)))
      (raise-documented config value old p d) lodash
