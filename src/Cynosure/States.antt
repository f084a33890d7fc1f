-- ===== src/Cynosure/States.antt =====
-- backend/src/cynosure/job-executor/processing-states.ts: how far a job is, and the text by which
-- this is stored. `JSON` is no code of the repository: it is a parameter, with the hypothesis that
-- it reads what it wrote.
use common_build.Common.{ℕ, ◌+◌, ◌≡◌, refl, List, [], ◌∷◌, ◌++◌, Option, none, some, if◌then◌else◌}
use common_build.Common.{◌==◌ as nat_eq}
use common_build.Common.Text.{Text, codes, ◌==◌}
use common_build.Common.Result.{Result, ok, err}

-- An argument of a constructor
pub data Arg : Type 0 where
  text : Text → Arg
  number : ℕ → Arg

pub record Json : Type 0 where
  pub stringify : List Arg → Text
  pub parse : Text → Option (List Arg)
  pub parse_law : (args : List Arg) → parse (stringify args) ≡ some args

pub data JobState : Type 0 where
  -- product, failures
  job_starting : Text → ℕ → JobState
  -- product, activity, failures
  job_started : Text → Text → ℕ → JobState
  job_queued : ℕ → JobState
  -- reason
  job_abort : Text → JobState

unfoldable pub failure_count : JobState → ℕ
failure_count (job_starting product failures) = failures
failure_count (job_started product activity failures) = failures
failure_count (job_queued failures) = failures
failure_count (job_abort reason) = 0

unfoldable pub state_name : JobState → Text
state_name (job_starting product failures) = codes "Starting"
state_name (job_started product activity failures) = codes "Started"
state_name (job_queued failures) = codes "Queued"
state_name (job_abort reason) = codes "Abort"

unfoldable pub with_new_failure : JobState → JobState
with_new_failure (job_starting product failures) = job_starting product (failures + 1)
with_new_failure (job_started product activity failures) =
    job_started product activity (failures + 1)
with_new_failure (job_queued failures) = job_queued (failures + 1)
with_new_failure (job_abort reason) = job_abort reason

-- `this.constructor.name`
unfoldable pub constructor_name : JobState → Text
constructor_name (job_starting product failures) = codes "JobStarting"
constructor_name (job_started product activity failures) = codes "JobStarted"
constructor_name (job_queued failures) = codes "JobQueued"
constructor_name (job_abort reason) = codes "JobAbort"

unfoldable pub constructor_args : JobState → List Arg
constructor_args (job_starting product failures) = text product ∷ number failures ∷ []
constructor_args (job_started product activity failures) =
    text product ∷ text activity ∷ number failures ∷ []
constructor_args (job_queued failures) = number failures ∷ []
constructor_args (job_abort reason) = text reason ∷ []

-- `new ProcessingStates[className](...args)`. Arguments of other types give an object that is no
-- state of its class: an error here.
unfoldable pub new_starting : List Arg → Result JobState
new_starting (text product ∷ number failures ∷ _) = ok (job_starting product failures)
new_starting _ = err (codes "ill-typed state")

unfoldable pub new_started : List Arg → Result JobState
new_started (text product ∷ text activity ∷ number failures ∷ _) =
    ok (job_started product activity failures)
new_started _ = err (codes "ill-typed state")

unfoldable pub new_queued : List Arg → Result JobState
new_queued (number failures ∷ _) = ok (job_queued failures)
new_queued _ = err (codes "ill-typed state")

unfoldable pub new_abort : List Arg → Result JobState
new_abort (text reason ∷ _) = ok (job_abort reason)
new_abort _ = err (codes "ill-typed state")

unfoldable pub new_state : Text → List Arg → Result JobState
new_state class_name args =
    if class_name == codes "JobStarting"
    then new_starting args
    else if class_name == codes "JobStarted"
    then new_started args
    else if class_name == codes "JobQueued"
    then new_queued args
    else if class_name == codes "JobAbort"
    then new_abort args
    else err (codes "ProcessingStates[className] is not a constructor")

-- The texts before and behind the first colon; without one, no text and the whole.
abbrev cons_before : ℕ → Option (Text × Text) → Option (Text × Text)
cons_before c none = none
cons_before c (some (before, rest)) = some (c ∷ before, rest)

unfoldable pub at_colon : Text → Option (Text × Text)
at_colon [] = none
at_colon (c ∷ s) =
    let later = cons_before c (at_colon s) in if nat_eq c b':' then some ([], s) else later

abbrev class_and_args : Text → Option (Text × Text) → Text × Text
class_and_args s none = ([], s)
class_and_args s (some p) = p

abbrev from_args : Text → Option (List Arg) → Result JobState
from_args class_name none = err (codes "SyntaxError")
from_args class_name (some args) = new_state class_name args

module _ (json : Json) where
  unfoldable pub serialize : JobState → Text
  serialize s = constructor_name s ++ (codes ":" ++ json.stringify (constructor_args s))

  unfoldable pub deserialize : Text → Result JobState
  deserialize s =
      let (class_name, args) = class_and_args s (at_colon s) in
      from_args class_name (json.parse args)

  at_colon-constructor_name :
      (s : JobState) (t : Text)
      → at_colon (constructor_name s ++ (codes ":" ++ t)) ≡ some (constructor_name s, t)
  unfolding at_colon constructor_name
  at_colon-constructor_name (job_starting product failures) t = refl
  at_colon-constructor_name (job_started product activity failures) t = refl
  at_colon-constructor_name (job_queued failures) t = refl
  at_colon-constructor_name (job_abort reason) t = refl

  new_state-constructor_args :
      (s : JobState) → new_state (constructor_name s) (constructor_args s) ≡ ok s
  unfolding new_state constructor_name constructor_args new_starting new_started new_queued
      new_abort ◌==◌
  new_state-constructor_args (job_starting product failures) = refl
  new_state-constructor_args (job_started product activity failures) = refl
  new_state-constructor_args (job_queued failures) = refl
  new_state-constructor_args (job_abort reason) = refl

  -- For every `JSON` that reads what it wrote, a state is read back from its serialized form.
  pub deserialize-serialize_job_state : (s : JobState) → deserialize (serialize s) ≡ ok s
  unfolding serialize deserialize
  deserialize-serialize_job_state s =
      rw
        (
          at_colon-constructor_name s (json.stringify (constructor_args s)),
          json.parse_law (constructor_args s),
        )
        (new_state-constructor_args s)
