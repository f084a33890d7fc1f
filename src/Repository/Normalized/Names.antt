-- ===== src/Repository/Normalized/Names.antt =====
-- The names that the program gives to patch branches mean the majors that they are made for.
use common_build.Common.{ℕ, ◌≡◌, ◌≢◌, refl, ap, [], ◌∷◌, ◌++◌, some, arith, true, ◌<◌}
use common_build.Common.Text.{Text, codes, ◌==◌}
use common_build.Common.Text.Split.{split-one, IsFree}
use common_build.Common.Decimal.{
  print, parse_digits-print, all_digits, all_digits-print, print-ne-nil,
}
use common_build.Domain.Refs.{branch, entity, of_branch, branch_name}
use common_build.Repository.Normalized.{
  numbers, numbers_of, numbers_behind, behind, normalize, normalize_branch, patch_branch, is_number,
  as_patch,
}

digits-IsFree : (c : ℕ) (s : Text) → c < 48 → all_digits s ≡ true → IsFree c s
unfolding all_digits
digits-IsFree c [] h k = tt
digits-IsFree c (d ∷ s) h k = ground (arith, digits-IsFree c s)

is_number-print : (n : ℕ) → is_number (print n) ≡ true
is_number-print n = go (print n) (print-ne-nil n) (all_digits-print n)
  where
    go : (s : Text) → s ≢ [] → all_digits s ≡ true → is_number s ≡ true
    go [] h k = absurd (h refl)
    go (c ∷ s) h k = k

pub numbers-print : (n : ℕ) → numbers (print n) ≡ some (n ∷ [])
unfolding numbers numbers_of
numbers-print n =
    rw
      (split-one b'.' [] (print n)
        (digits-IsFree b'.' (print n) (omega arith) (all_digits-print n)))
      (rw (is_number-print n, parse_digits-print n) refl)

-- The branch `patch-<major>` is read as the patch branch of that major.
pub normalize-patch :
    (n : ℕ)
    → normalize (entity (of_branch (branch (codes "patch-" ++ print n)))) ≡ some (patch_branch n [])
unfolding normalize normalize_branch numbers_behind behind branch_name ◌==◌
normalize-patch n = ap as_patch (numbers-print n)
