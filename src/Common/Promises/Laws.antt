-- ===== src/Common/Promises/Laws.antt =====
-- What holds of every call that is made holds through the combinations of promises; and the calls
-- that pass a test, through the same.
use mathlib.Core.Path.{◌≡◌, refl, ap, ◌∙◌}
use mathlib.Core.List.{List, [], ◌∷◌, ◌++◌, append-nil}
use mathlib.Core.Bool.{Bool, false}
use mathlib.Core.Logic.{inl, inr}
use common_build.Common.Text.{Text}
use common_build.Common.Result.{Result, ok, err}
use common_build.Common.Tests.{Bool-cases}
use common_build.Common.Lists.{All, All-append, keep}
use common_build.Common.Promises.{Promise, chain, recover}

module _ {E : Type 0} (P : E → Type 0) where
  pub All-chain :
      {A B : Type 0} (actions : List E) (answer : Result A) (f : A → Promise E B)
      → All P actions
      → ((a : A) → All P (f a).0)
      → All P (chain actions answer f).0
  All-chain actions (ok a) f h k = All-append P actions (f a).0 h (k a)
  All-chain actions (err m) f h k = h

  pub All-recover :
      {A : Type 0} (actions : List E) (answer : Result A) (f : Text → Promise E A)
      → All P actions
      → ((m : Text) → All P (f m).0)
      → All P (recover actions answer f).0
  All-recover actions (ok a) f h k = h
  All-recover actions (err m) f h k = All-append P actions (f m).0 h (k m)

pub keep-append {ℓ} :
    {A : Type ℓ} (p : A → Bool) (xs ys : List A) → keep p (xs ++ ys) ≡ keep p xs ++ keep p ys
keep-append p [] ys = refl
keep-append p (x ∷ xs) ys = elim (Bool-cases (p x)) [
  | inl h ↦ rw h (ap (λ l. x ∷ l) (keep-append p xs ys))
  | inr h ↦ rw h (keep-append p xs ys)
]

pub keep-none {ℓ} :
    {A : Type ℓ} (p : A → Bool) (xs : List A) → All (λ x. p x ≡ false) xs → keep p xs ≡ []
keep-none p [] h = refl
keep-none p (x ∷ xs) (h, hs) = rw h (keep-none p xs hs)

-- A call that does not pass, before a promise and its handler
pub keep-recover-skip :
    {E A : Type 0} (p : E → Bool) (e : E) (actions : List E) (answer : Result A)
    (f : Text → Promise E A)
    → p e ≡ false
    → keep p (recover (e ∷ actions) answer f).0 ≡ keep p (recover actions answer f).0
keep-recover-skip p e actions (ok a) f h = rw h refl
keep-recover-skip p e actions (err m) f h = rw h refl

pub chain-cons :
    {E A B : Type 0} (e : E) (actions : List E) (answer : Result A) (f : A → Promise E B)
    → chain (e ∷ actions) answer f ≡ (e ∷ (chain actions answer f).0, (chain actions answer f).1)
chain-cons e actions (ok a) f = refl
chain-cons e actions (err m) f = refl

-- A handler of which no call passes
pub keep-recover-quiet :
    {E A : Type 0} (p : E → Bool) (actions : List E) (answer : Result A) (f : Text → Promise E A)
    → ((m : Text) → keep p (f m).0 ≡ [])
    → keep p (recover actions answer f).0 ≡ keep p actions
keep-recover-quiet p actions (ok a) f h = refl
keep-recover-quiet p actions (err m) f h =
    keep-append p actions (f m).0
    ∙ ap (λ l. keep p actions ++ l) (h m)
    ∙ append-nil (keep p actions)
