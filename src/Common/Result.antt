-- ===== src/Common/Result.antt =====
-- What a call gives that may throw or reject: a value, or the message of the `Error`.
use mathlib.Core.Path.{◌≡◌, refl}
use mathlib.Core.Logic.{◌⊎◌, inl, inr}
use common_build.Common.Text.{Text}

pub data Result {ℓ} (A : Type ℓ) : Type ℓ where
  ok : A → Result A
  err : Text → Result A

-- For `do`: the rest of a block runs on the value, and an error passes it by.
infixl 5 ◌>>=◌
abbrev pub ◌>>=◌ {ℓ κ} : {A : Type ℓ} {B : Type κ} → Result A → (A → Result B) → Result B
ok value >>= rest = rest value
err message >>= rest = err message

pub Result-cases {ℓ} :
    {A : Type ℓ} (r : Result A) → ((m : Text) × (r ≡ err m)) ⊎ ((a : A) × (r ≡ ok a))
Result-cases (ok a) = inr (a, refl)
Result-cases (err m) = inl (m, refl)
