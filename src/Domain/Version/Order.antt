-- ===== src/Domain/Version/Order.antt =====
-- `compare` is a total order on versions: the lexicographic one.
use common_build.Common.{ℕ, ◌≡◌, refl, ap, ◌↔◌, ◌<◌, List, [], ◌∷◌, arith, ◌++◌, ◌≢◌}
use common_build.Domain.Version.{Version, Sign, negative, same, positive, compare, compare_segments}

-- The opposite sign.
abbrev pub flip : Sign → Sign
flip negative = positive
flip same = same
flip positive = negative

compare_segments-flip : (xs ys : List ℕ) → compare_segments ys xs ≡ flip (compare_segments xs ys)
unfolding compare_segments
compare_segments-flip [] [] = refl
compare_segments-flip [] (y ∷ ys) = refl
compare_segments-flip (x ∷ xs) [] = refl
compare_segments-flip (x ∷ xs) (y ∷ ys) = ground (arith, compare_segments-flip xs ys)

compare_segments-same : (xs ys : List ℕ) → compare_segments xs ys ≡ same → xs ≡ ys
unfolding compare_segments
compare_segments-same [] [] h = refl
compare_segments-same [] (y ∷ ys) h = cc
compare_segments-same (x ∷ xs) [] h = cc
compare_segments-same (x ∷ xs) (y ∷ ys) h = ground (arith, compare_segments-same xs ys)

compare_segments_trans :
    (xs ys zs : List ℕ)
    → compare_segments xs ys ≢ positive
    → compare_segments ys zs ≢ positive
    → compare_segments xs zs ≢ positive
unfolding compare_segments
compare_segments_trans [] ys [] h k = λ e. cc
compare_segments_trans [] ys (z ∷ zs) h k = λ e. cc
compare_segments_trans (x ∷ xs) [] zs h k = absurd (h refl)
compare_segments_trans (x ∷ xs) (y ∷ ys) [] h k = absurd (k refl)
compare_segments_trans (x ∷ xs) (y ∷ ys) (z ∷ zs) h k =
    ground (arith, compare_segments_trans xs ys zs)

compare_segments_refl : (xs : List ℕ) → compare_segments xs xs ≡ same
unfolding compare_segments
compare_segments_refl [] = refl
compare_segments_refl (x ∷ xs) = ground (arith, compare_segments_refl xs)

-- `compare` is 0 exactly between equal versions, and exchanging its arguments changes the sign.
pub compare-flip :
    (v w : Version) → ((compare v w ≡ same) ↔ (v ≡ w)) × (compare w v ≡ flip (compare v w))
unfolding compare
compare-flip v w = (
  (
    λ h.
        ap (λ (s : List ℕ). record { segments = s })
          (compare_segments-same v.segments w.segments h),
    λ e. rw e (compare_segments_refl w.segments),
  ),
  compare_segments-flip v.segments w.segments,
)

-- What is not above is so transitively.
pub compare_trans :
    (u v w : Version) → compare u v ≢ positive → compare v w ≢ positive → compare u w ≢ positive
unfolding compare
compare_trans u v w h k = compare_segments_trans u.segments v.segments w.segments h k

-- A common prefix does not matter, the first segment in which two versions differ decides, and a
-- version that continues another is above it.
compare-prefix :
    (p xs ys : List ℕ) (x y : ℕ)
    → x < y
    → (compare (record { segments = p ++ xs }) (record { segments = p ++ ys })
        ≡ compare (record { segments = xs }) (record { segments = ys }))
      × (compare (record { segments = p ++ (x ∷ xs) }) (record { segments = p ++ (y ∷ ys) })
          ≡ negative)
      × (compare (record { segments = p }) (record { segments = p ++ (y ∷ ys) }) ≡ negative)
unfolding compare compare_segments
compare-prefix [] xs ys x y h = (refl, ground arith, refl)
compare-prefix (q ∷ p) xs ys x y h = let ih = compare-prefix p xs ys x y h in ground (arith, ih)
