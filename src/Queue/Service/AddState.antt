-- ===== src/Queue/Service/AddState.antt =====
-- `addState`: what it accepts, and what it leaves.
use common_build.Common.{
  ℕ, suc, ◌+◌, ◌≤◌, ◌≡◌, refl, Bool, true, false, List, [], ◌∷◌, Option, some, arith, if◌then◌else◌,
  Bool-cases, inl, inr, ◌&&◌, ap, ◌∙◌,
}
use common_build.Common.Text.{Text, eq-true}
use common_build.Common.Result.{Result, ok, err}
use common_build.Domain.JobRef.{JobKey, serialize_key}
use common_build.Redis.{
  Redis, Keyspace, job_status, local, local_active, last_canonical, ready, active,
}
use common_build.Redis.Laws.{documented, of_documented}
use common_build.Redis.Commands.{put, same_key, get, set}
use common_build.Queue.Scripts
use common_build.Queue.Scripts.{serialized_field}
use common_build.Queue.States.{
  State, text_of, state_of-text_of, is_state_terminal, is_transition_valid,
}
use common_build.Queue.States.Chains.{phase, phase-le, valid-phase}
use common_build.Queue.Service.{
  Outcome, add_state, add_from, enter_state, set_state, set_one, get_state, add_stored, add_parsed,
  redis_complete, get_local_queue_key,
}

-- The state that is stored for a job.
abbrev pub stored : JobKey → Keyspace → Option Text
stored job s = s.strings (job_status (serialize_key job))

complete-status :
    (q t : Text) (j : Text) (s : Keyspace)
    → (Scripts.complete documented q t s).1.strings (job_status j) ≡ s.strings (job_status j)
unfolding Scripts.complete Scripts.vacate common_build.Redis.Commands.del
    common_build.Redis.Commands.zrem common_build.Redis.Commands.zput put same_key
complete-status q t j s = ground arith

-- The keyspace that an accepted transition leaves, but for the state of the job.
abbrev pub released : Redis → JobKey → State → Keyspace → Keyspace
released r job new_state s =
    if is_state_terminal new_state
    then (Scripts.complete r (get_local_queue_key job) (serialize_key job) s).1
    else s

abbrev is_ok : Result Bool → Bool
is_ok (ok _) = true
is_ok (err _) = false

-- The value of a promise that is resolved, and `false` of one that is rejected.
abbrev ok_value : Result Bool → Bool
ok_value (ok b) = b
ok_value (err _) = false

-- What a call of `addState` does to a job that is in the state `state`.
pub record AddStateEffect (r : Redis) (job : JobKey) (state new_state : State) (s : Keyspace)
    (o : Outcome Bool) : Type 0 where
  pub accepted : is_ok o.result ≡ is_transition_valid state new_state
  pub completed :
      ok_value o.result ≡ (is_transition_valid state new_state && is_state_terminal new_state)
  pub told : o.transitions ≡ (
      if is_transition_valid state new_state
      then record { job = job; state = new_state; previous = some (text_of state) } ∷ []
      else [])
  pub after : o.after ≡ (
      if is_transition_valid state new_state
      then set (job_status (serialize_key job)) (text_of new_state) (released r job new_state s)
      else s)

module _ (job : JobKey) (state new_state : State) (s : Keyspace)
    (h : stored job s ≡ some (text_of state)) where
  add_from_lem :
      add_state documented job new_state s
      ≡ add_from documented job (text_of state) state new_state s
  unfolding add_state add_stored add_parsed get_state get
  add_from_lem =
      ap (λ o. add_stored documented job o new_state s) h
      ∙ ap (λ o. add_parsed documented job (text_of state) o new_state s) (state_of-text_of state)

  add_from-AddStateEffect :
      AddStateEffect documented job state new_state s
        (add_from documented job (text_of state) state new_state s)
  unfolding add_from enter_state set_state set_one redis_complete get
  add_from-AddStateEffect = record {
    accepted = ground arith;
    completed = ground arith;
    told = ground (
      arith,
      h,
      complete-status (get_local_queue_key job) (serialize_key job) (serialize_key job) s,
    );
    after = ground arith;
  }

-- For a job whose stored state is `state`, `addState` accepts exactly the valid transitions. It answers whether the job is completed, tells
-- the listener the old and the new state, stores the new one, and frees the job's slot if the
-- state is terminal. A transition that is not valid changes nothing and tells nobody.
pub add_state-AddStateEffect :
    (r : Redis) (job : JobKey) (state new_state : State) (s : Keyspace)
    → stored job s ≡ some (text_of state)
    → AddStateEffect r job state new_state s (add_state r job new_state s)
add_state-AddStateEffect r job state new_state s h =
    of_documented (λ r. AddStateEffect r job state new_state s (add_state r job new_state s))
      (rw (add_from_lem job state new_state s h) (add_from-AddStateEffect job state new_state s h))
      r

set-stored :
    (job : JobKey) (t : Text) (s : Keyspace)
    → stored job (set (job_status (serialize_key job)) t s) ≡ some t
unfolding set put same_key
set-stored job t s = rw (eq-true (serialize_key job)) refl

-- How many of a sequence of calls of `addState` for one job are accepted.
unfoldable pub accepted_calls : Redis → JobKey → List State → Keyspace → ℕ
accepted_calls r job [] s = 0
accepted_calls r job (new_state ∷ later) s =
    let o = add_state r job new_state s in
    let rest = accepted_calls r job later o.after in if is_ok o.result then suc rest else rest

-- Of any calls of `addState` for a job with a stored state at most three are accepted, one less for
-- each phase that the job has passed.
pub accepted_calls-phase :
    (r : Redis) (job : JobKey) (state : State) (calls : List State) (s : Keyspace)
    → stored job s ≡ some (text_of state)
    → accepted_calls r job calls s + phase state ≤ 3
unfolding accepted_calls
accepted_calls-phase r job state [] s h = omega (arith, phase-le state)
accepted_calls-phase r job state (new_state ∷ later) s h =
    let e = add_state-AddStateEffect r job state new_state s h in
    elim (Bool-cases (is_transition_valid state new_state)) [
      | inl valid ↦
          let o = add_state r job new_state s in
          let after : o.after
              ≡ set (job_status (serialize_key job)) (text_of new_state)
                  (released r job new_state s) =
            e.after ∙ (rw valid refl) in
          let known : stored job o.after ≡ some (text_of new_state) =
            ap (stored job) after
            ∙ set-stored job (text_of new_state) (released r job new_state s) in
          rw (e.accepted, valid)
            (omega (
              arith,
              accepted_calls-phase r job new_state later o.after known,
              valid-phase state new_state valid,
            ))
      | inr refused ↦
          let o = add_state r job new_state s in
          let after : o.after ≡ s = e.after ∙ (rw refused refl) in
          rw (e.accepted, refused)
            (accepted_calls-phase r job state later o.after (ap (stored job) after ∙ h))
    ]
