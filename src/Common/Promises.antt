-- ===== src/Common/Promises.antt =====
-- Promises: the calls that were made that change something elsewhere, in order, and the value, or the
-- message of the rejection.
pub mod Laws
use mathlib.Core.List.{List, [], ◌∷◌, ◌++◌}
use common_build.Common.Text.{Text}
use common_build.Common.Result.{Result, ok, err}

abbrev pub Promise : Type 0 → Type 0 → Type 0
Promise E A = List E × Result A

abbrev pub pure : {E A : Type 0} → A → Promise E A
pure value = ([], ok value)

abbrev pub fail : {E A : Type 0} → Text → Promise E A
fail message = ([], err message)

abbrev pub emit : {E : Type 0} → E → Promise E Unit
emit action = (action ∷ [], ok tt)

abbrev pub chain : {E A B : Type 0} → List E → Result A → (A → Promise E B) → Promise E B
chain actions (ok value) f = (actions ++ (f value).0, (f value).1)
chain actions (err message) f = (actions, err message)

-- `promise.then(f)`
infixl 5 ◌>>=◌
abbrev pub ◌>>=◌ : {E A B : Type 0} → Promise E A → (A → Promise E B) → Promise E B
a >>= f = chain a.0 a.1 f

abbrev pub recover : {E A : Type 0} → List E → Result A → (Text → Promise E A) → Promise E A
recover actions (ok value) f = (actions, ok value)
recover actions (err message) f = (actions ++ (f message).0, (f message).1)

-- `promise.catch(f)`
abbrev pub catch : {E A : Type 0} → Promise E A → (Text → Promise E A) → Promise E A
catch a f = recover a.0 a.1 f

-- An answer without a change
abbrev pub ask : {E A : Type 0} → Result A → Promise E A
ask answer = ([], answer)

-- A call that changes something, whatever it answers
abbrev pub tell : {E A : Type 0} → E → Result A → Promise E A
tell action answer = (action ∷ [], answer)

abbrev pub first_error : Result {0} Unit → Result {0} Unit → Result {0} Unit
first_error (ok tt) other = other
first_error (err message) other = err message

-- `Promise.all`: both have begun, and the first rejection is its own.
abbrev pub both : {E : Type 0} → Promise E Unit → Promise E Unit → Promise E Unit
both a b = (a.0 ++ b.0, first_error a.1 b.1)

abbrev pub done : {E A : Type 0} → Promise E A → Promise E Unit
done a = a >>= (λ _. pure tt)
