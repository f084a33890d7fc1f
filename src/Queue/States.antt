-- ===== src/Queue/States.antt =====
-- backend/src/system/queue/queue.ts: the states of a job in the queue and the transitions between
-- them. The members of the source's enum are texts.
pub mod Chains
use common_build.Common.{
  ◌≡◌, refl, Bool, List, [], ◌∷◌, find, Option, none, some, if◌then◌else◌, true, false,
}
use common_build.Common.Text.{Text, codes, ◌==◌}

pub data State : Type 0 where
  queued starting started cancelled success failure aborted error timeout conflict dependency
        rebased :
      State

-- The value of the enum's member, as it is stored.
unfoldable pub text_of : State → Text
text_of queued = codes "queued"
text_of starting = codes "starting"
text_of started = codes "started"
text_of cancelled = codes "cancelled"
text_of success = codes "success"
text_of failure = codes "failure"
text_of aborted = codes "aborted"
text_of error = codes "error"
text_of timeout = codes "timeout"
text_of conflict = codes "conflict"
text_of dependency = codes "dependency"
text_of rebased = codes "rebased"

-- `StateTransitions`
unfoldable pub state_transitions : State → List State
state_transitions queued = starting ∷ cancelled ∷ []
state_transitions starting =
    rebased ∷ conflict ∷ aborted ∷ started ∷ error ∷ timeout ∷ failure ∷ aborted ∷ dependency ∷ []
state_transitions started = aborted ∷ failure ∷ success ∷ error ∷ timeout ∷ []
state_transitions _ = []

abbrev is_empty {ℓ} : {A : Type ℓ} → List A → Bool
is_empty [] = true
is_empty (_ ∷ _) = false

unfoldable pub is_state_terminal : State → Bool
unfolding state_transitions
is_state_terminal state = is_empty (state_transitions state)

abbrev is_found {ℓ} : {A : Type ℓ} → Option A → Bool
is_found none = false
is_found (some _) = true

unfoldable pub is_transition_valid : State → State → Bool
unfolding state_transitions
is_transition_valid from to =
    is_found (find (λ s. text_of s == text_of to) (state_transitions from))

unfoldable pub all_states : List State
all_states =
    queued ∷ starting ∷ started ∷ cancelled ∷ success ∷ failure ∷ aborted ∷ error ∷ timeout
    ∷ conflict ∷ dependency ∷ rebased ∷ []

-- The state whose text was stored. The source casts the text without a test.
unfoldable pub state_of : Text → Option State
unfolding all_states text_of ◌==◌
state_of t = find (λ s. text_of s == t) all_states

pub state_of-text_of : (s : State) → state_of (text_of s) ≡ some s
unfolding state_of
state_of-text_of queued = refl
state_of-text_of _ = refl
