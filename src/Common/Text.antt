-- ===== src/Common/Text.antt =====
-- Text as a list of UTF-16 code units, with the language's `===`, `split` and `join`.
pub mod Split
use Prim.Native.Nat.{ℕ, zero, suc, pred}
use Prim.Native.Char.{code}
use Prim.Native.String.{String}
use mathlib.Core.Path.{◌≡◌, refl}
use mathlib.Core.Bool.{Bool, true, false, ◌&&◌}
use mathlib.Core.Logic.{◌↔◌}
use mathlib.Core.List.{List, [], ◌∷◌, ◌++◌}
use native.Mathlib.Omega.{arith}
use common_build.Common.Tests.{◌==◌ as nat_beq, if◌then◌else◌}
use common_build.Common.Lists.{length}

abbrev pub Text : Type 0
Text = List ℕ

-- A literal of the source.
abbrev pub codes : String → Text
codes String.[] = []
codes (String.◌∷◌ c s) = code c ∷ codes s

infix 50 ◌==◌
unfoldable pub ◌==◌ : Text → Text → Bool
[] == [] = true
(x ∷ xs) == (y ∷ ys) = nat_beq x y && xs == ys
_ == _ = false

pub eq-true : (s : Text) → (s == s) ≡ true
unfolding ◌==◌
eq-true [] = refl
eq-true (x ∷ xs) = ground (arith, eq-true xs)

pub eq_sound : (s t : Text) → (s == t) ≡ true → s ≡ t
unfolding ◌==◌
eq_sound [] [] h = refl
eq_sound (x ∷ xs) (y ∷ ys) h = ground (arith, eq_sound xs ys)
eq_sound _ _ h = cc

pub eq_iff : (s t : Text) → ((s == t) ≡ true) ↔ (s ≡ t)
eq_iff s t = (eq_sound s t, λ e. rw e (eq-true t))

-- `s.startsWith(p)`
unfoldable pub starts_with : Text → Text → Bool
starts_with [] s = true
starts_with (c ∷ p) [] = false
starts_with (c ∷ p) (d ∷ s) = nat_beq c d && starts_with p s

-- `parts.join(sep)`
unfoldable pub join : Text → List Text → Text
join sep [] = []
join sep (p ∷ []) = p
join sep (p ∷ q ∷ ps) = p ++ (sep ++ join sep (q ∷ ps))

-- The scan of `split`: `skip` units of a separator are still to be passed over, and `cur` has been
-- read since the last one.
pub split_from : Text → ℕ → Text → Text → List Text
split_from sep skip cur [] = cur ∷ []
split_from sep (suc skip) cur (c ∷ s) = split_from sep skip cur s
split_from sep zero cur (c ∷ s) =
    let hit = starts_with sep (c ∷ s) in
    let rest =
      split_from sep (if hit then pred (length sep) else 0) (if hit then [] else cur ++ c ∷ []) s in
    if hit then cur ∷ rest else rest

-- `s.split(sep)`, for a separator that is not empty
unfoldable pub split : Text → Text → List Text
unfolding split_from starts_with
split sep s = split_from sep 0 [] s
