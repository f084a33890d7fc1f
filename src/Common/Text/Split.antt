-- ===== src/Common/Text/Split.antt =====
-- `split` and `join` undo one another.
use mathlib.Core.List.{append-nil, append_assoc}
use Prim.Native.Nat.{ℕ, zero, suc}
use mathlib.Core.Path.{◌≡◌, refl, sym, ap, ◌∙◌}
use mathlib.Core.Bool.{true, false}
use mathlib.Core.Logic.{◌≢◌, inl, inr}
use mathlib.Core.List.{List, [], ◌∷◌, ◌++◌}
use native.Mathlib.Omega.{arith}
use common_build.Common.Tests.{Bool-cases}
use common_build.Common.Lists.{length, All}
use common_build.Common.Text.{Text, starts_with, join, split_from, split}

-- The text does not hold the unit `c`.
abbrev pub IsFree : ℕ → Text → Type 0
IsFree c s = All (λ d. d ≢ c) s

starts_with-append : (p s : Text) → starts_with p (p ++ s) ≡ true
unfolding starts_with
starts_with-append [] s = refl
starts_with-append (c ∷ p) s = ground (arith, starts_with-append p s)

split_from-walk :
    (c : ℕ) (r cur p s : Text)
    → IsFree c p
    → split_from (c ∷ r) 0 cur (p ++ s) ≡ split_from (c ∷ r) 0 (cur ++ p) s
unfolding split_from starts_with
split_from-walk c r cur [] s h = rw append-nil
split_from-walk c r cur (d ∷ p) s (n, h) =
    let miss : starts_with (c ∷ r) (d ∷ p ++ s) ≡ false = ground arith in
    rw miss (
      split_from-walk c r (cur ++ d ∷ []) p s h
      ∙ ap (λ (t : Text). split_from (c ∷ r) 0 t s) (append_assoc cur (d ∷ []) p))

split_from-skip :
    (sep cur r s : Text) → split_from sep (length r) cur (r ++ s) ≡ split_from sep 0 cur s
unfolding split_from
split_from-skip sep cur [] s = refl
split_from-skip sep cur (c ∷ r) s = split_from-skip sep cur r s

split_from-hit :
    (c : ℕ) (r cur s : Text)
    → split_from (c ∷ r) 0 cur ((c ∷ r) ++ s) ≡ cur ∷ split_from (c ∷ r) 0 [] s
unfolding split_from
split_from-hit c r cur s =
    rw (starts_with-append (c ∷ r) s)
      (ap (λ (t : List Text). cur ∷ t) (split_from-skip (c ∷ r) [] r s))

split_lem : (sep s : Text) → split sep s ≡ split_from sep 0 [] s
unfolding split
split_lem sep s = refl

split_from-last :
    (c : ℕ) (r cur p : Text) → IsFree c p → split_from (c ∷ r) 0 cur p ≡ (cur ++ p) ∷ []
split_from-last c r cur p h =
    ap (split_from (c ∷ r) 0 cur) (sym (append-nil p))
    ∙ split_from-walk c r cur p [] h
    ∙ (unfold split_from in refl)

split_from-join :
    (c : ℕ) (r p : Text) (ps : List Text)
    → All (IsFree c) (p ∷ ps)
    → split_from (c ∷ r) 0 [] (join (c ∷ r) (p ∷ ps)) ≡ p ∷ ps
unfolding join
split_from-join c r p [] (h, _) = split_from-last c r [] p h
split_from-join c r p (q ∷ ps) (h, hs) =
    split_from-walk c r [] p ((c ∷ r) ++ join (c ∷ r) (q ∷ ps)) h
    ∙ split_from-hit c r p (join (c ∷ r) (q ∷ ps))
    ∙ ap (λ (t : List Text). p ∷ t) (split_from-join c r q ps hs)

-- Parts that do not hold the separator's first unit come back as they were joined.
pub split-join :
    (c : ℕ) (r p : Text) (ps : List Text)
    → All (IsFree c) (p ∷ ps)
    → split (c ∷ r) (join (c ∷ r) (p ∷ ps)) ≡ p ∷ ps
split-join c r p ps h = split_lem (c ∷ r) _ ∙ split_from-join c r p ps h

-- The text up to the first separator is the first part.
pub split-cons :
    (c : ℕ) (r p s : Text) → IsFree c p → split (c ∷ r) (p ++ ((c ∷ r) ++ s)) ≡ p ∷ split (c ∷ r) s
split-cons c r p s h =
    split_lem (c ∷ r) _
    ∙ split_from-walk c r [] p ((c ∷ r) ++ s) h
    ∙ split_from-hit c r p s
    ∙ ap (λ (t : List Text). p ∷ t) (sym (split_lem (c ∷ r) s))

-- A text with no separator is its only part.
pub split-one : (c : ℕ) (r p : Text) → IsFree c p → split (c ∷ r) p ≡ p ∷ []
split-one c r p h = split_lem (c ∷ r) p ∙ split_from-last c r [] p h

pub join-cons :
    (sep p : Text) (ps : List Text) → ps ≢ [] → join sep (p ∷ ps) ≡ p ++ (sep ++ join sep ps)
unfolding join
join-cons sep p [] h = absurd (h refl)
join-cons sep p (q ∷ ps) h = refl

split_from-ne-nil : (sep : Text) (k : ℕ) (cur s : Text) → split_from sep k cur s ≢ []
unfolding split_from
split_from-ne-nil sep k cur [] = λ e. cc
split_from-ne-nil sep (suc k) cur (c ∷ s) = split_from-ne-nil sep k cur s
split_from-ne-nil sep zero cur (c ∷ s) = elim (Bool-cases (starts_with sep (c ∷ s))) [
  | inl e ↦ rw e (λ e. cc)
  | inr e ↦ rw e (split_from-ne-nil sep 0 (cur ++ c ∷ []) s)
]

drop_units : ℕ → Text → Text
drop_units zero s = s
drop_units (suc k) [] = []
drop_units (suc k) (c ∷ s) = drop_units k s

starts_with-drop : (p s : Text) → starts_with p s ≡ true → p ++ drop_units (length p) s ≡ s
unfolding starts_with drop_units
starts_with-drop [] s h = refl
starts_with-drop (c ∷ p) [] h = cc
starts_with-drop (c ∷ p) (d ∷ s) h = ground (arith, starts_with-drop p s)

join-split_from :
    (c : ℕ) (r : Text) (k : ℕ) (cur s : Text)
    → join (c ∷ r) (split_from (c ∷ r) k cur s) ≡ cur ++ drop_units k s
unfolding split_from drop_units join
join-split_from c r zero cur [] = sym (append-nil cur)
join-split_from c r (suc k) cur [] = sym (append-nil cur)
join-split_from c r (suc k) cur (d ∷ s) = join-split_from c r k cur s
join-split_from c r zero cur (d ∷ s) = elim (Bool-cases (starts_with (c ∷ r) (d ∷ s))) [
  | inl e ↦ rw e (
      join-cons (c ∷ r) cur _ (split_from-ne-nil (c ∷ r) (length r) [] s)
      ∙ ap (λ (t : Text). cur ++ ((c ∷ r) ++ t)) (join-split_from c r (length r) [] s)
      ∙ ap (λ (t : Text). cur ++ t) (starts_with-drop (c ∷ r) (d ∷ s) e))
  | inr e ↦ rw e (join-split_from c r 0 (cur ++ d ∷ []) s ∙ append_assoc cur (d ∷ []) s)
]

-- Joining the parts of a text gives the text, whatever it holds.
pub join-split : (c : ℕ) (r s : Text) → join (c ∷ r) (split (c ∷ r) s) ≡ s
join-split c r s =
    ap (join (c ∷ r)) (split_lem (c ∷ r) s)
    ∙ join-split_from c r 0 [] s
    ∙ (unfold drop_units in refl)

pub split-ne-nil : (sep s : Text) → split sep s ≢ []
split-ne-nil sep s = rw (split_lem sep s) (split_from-ne-nil sep 0 [] s)
