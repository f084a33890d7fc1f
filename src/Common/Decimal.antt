-- ===== src/Common/Decimal.antt =====
-- Numbers as they stand in a template literal, and `parseInt` of a text of digits.
use Prim.Native.Nat.{ℕ, zero, suc, ◌+◌, ◌-◌, ◌*◌, ◌/◌, ◌%◌, ◌<◌}
use mathlib.Core.Path.{◌≡◌, refl, ap, ◌∙◌}
use mathlib.Core.Bool.{Bool, true, ◌&&◌}
use mathlib.Core.Logic.{inl, inr, ◌≢◌}
use mathlib.Core.List.{[], ◌∷◌, ◌++◌}
use native.Mathlib.Omega.{arith}
use common_build.Common.Tests.{leb, ltb, if◌then◌else◌, Bool-cases}
use common_build.Common.Text.{Text}

print_from : ℕ → ℕ → Text
print_from zero n = []
print_from (suc fuel) n =
    let high = print_from fuel (n / 10) in
    if ltb n 10 then (48 + n) ∷ [] else high ++ ((48 + n % 10) ∷ [])

-- `${n}`; a number has at most as many digits as it counts, and one.
unfoldable pub print : ℕ → Text
unfolding print_from
print n = print_from (suc n) n

abbrev pub is_digit : ℕ → Bool
is_digit c = leb b'0' c && leb c b'9'

unfoldable pub all_digits : Text → Bool
all_digits [] = true
all_digits (c ∷ s) = is_digit c && all_digits s

unfoldable pub value_from : ℕ → Text → ℕ
value_from acc [] = acc
value_from acc (c ∷ s) = value_from (acc * 10 + (c - 48)) s

-- `parseInt(s)`, for a text of digits
unfoldable pub parse_digits : Text → ℕ
unfolding value_from
parse_digits s = value_from 0 s

value_from-append :
    (acc : ℕ) (s : Text) (c : ℕ) → value_from acc (s ++ c ∷ []) ≡ value_from acc s * 10 + (c - 48)
unfolding value_from
value_from-append acc [] c = refl
value_from-append acc (d ∷ s) c = value_from-append (acc * 10 + (d - 48)) s c

value_from-print_from : (fuel n : ℕ) → n < fuel → value_from 0 (print_from fuel n) ≡ n
unfolding print_from
value_from-print_from zero n h = absurd (omega arith)
value_from-print_from (suc fuel) n h = elim (Bool-cases (ltb n 10)) [
  | inl small ↦ rw small (unfold value_from in omega arith)
  | inr large ↦ rw large (
      value_from-append 0 (print_from fuel (n / 10)) (48 + n % 10)
      ∙ ap (λ (k : ℕ). k * 10 + (48 + n % 10 - 48))
          (value_from-print_from fuel (n / 10) (ground arith))
      ∙ omega arith)
]

-- A printed number is read back.
pub parse_digits-print : (n : ℕ) → parse_digits (print n) ≡ n
unfolding parse_digits print
parse_digits-print n = value_from-print_from (suc n) n (omega arith)

all_digits-append :
    (s : Text) (c : ℕ) → all_digits s ≡ true → is_digit c ≡ true → all_digits (s ++ c ∷ []) ≡ true
unfolding all_digits
all_digits-append [] c h k = rw k refl
all_digits-append (d ∷ s) c h k = ground (arith, all_digits-append s c)

all_digits-print_from : (fuel n : ℕ) → all_digits (print_from fuel n) ≡ true
unfolding print_from
all_digits-print_from zero n = unfold all_digits in refl
all_digits-print_from (suc fuel) n = elim (Bool-cases (ltb n 10)) [
  | inl small ↦ rw small (unfold all_digits in ground arith)
  | inr large ↦ rw large (
      all_digits-append (print_from fuel (n / 10)) (48 + n % 10)
        (all_digits-print_from fuel (n / 10)) (ground arith))
]

pub all_digits-print : (n : ℕ) → all_digits (print n) ≡ true
unfolding print
all_digits-print n = all_digits-print_from (suc n) n

pub print-ne-nil : (n : ℕ) → print n ≢ []
unfolding print print_from
print-ne-nil n = elim (Bool-cases (ltb n 10)) [
  | inl small ↦ rw small (λ e. cc)
  | inr large ↦ rw large (append-ne-nil (print_from n (n / 10)) (48 + n % 10))
]
  where
    append-ne-nil : (s : Text) (c : ℕ) → s ++ c ∷ [] ≢ []
    append-ne-nil [] c = λ e. cc
    append-ne-nil (d ∷ s) c = λ e. cc
