-- ===== src/Queue/Service.antt =====
-- backend/src/system/queue/queue-redis-impl.ts and queue-impl.ts: the queue service over the
-- scripts. A promise that is rejected is an `err`; the calls of the listener, which are made after
-- the writes, are the list of transitions.
pub mod AddState
pub mod Push
use common_build.Common.{
  ℕ, Bool, true, false, List, [], ◌∷◌, ◌++◌, Option, none, some, if◌then◌else◌, ltb,
}
use common_build.Common.Text.{Text, codes}
use common_build.Common.Int.{ℤ, pos}
use common_build.Common.Result.{Result, ok, err, ◌>>=◌}
use common_build.Domain.JobRef.{JobKey, queue_id, canonical_id, serialize_key, deserialize_key}
use common_build.Domain.JobRef
use common_build.Domain.Source
use common_build.Redis.{Redis, Keyspace, job_status}
use common_build.Queue.Scripts.{PushReply}
use common_build.Queue.Scripts
use common_build.Queue.States.{
  State, queued, starting, started, cancelled, success, failure, aborted, error, timeout, conflict,
  dependency, rebased, text_of, is_state_terminal, is_transition_valid, state_of,
}

-- The call `onQueueTransition(job, state, previousState)`. The previous state is the text that
-- was stored.
pub record Transition : Type 0 where
  pub job : JobKey
  pub state : State
  pub previous : Option Text

pub record Outcome (A : Type 0) : Type 0 where
  pub result : Result A
  pub transitions : List Transition
  pub after : Keyspace

-- `getLocalQueueKey`
unfoldable pub get_local_queue_key : JobKey → Text
get_local_queue_key job =
    codes "queue:" ++ (Source.as_string job.source ++ (codes ":local:" ++ queue_id job.job_ref))

-- `QueueRedis.PushResult`
pub record PushResult : Type 0 where
  pub local_queue_size : ℕ
  pub cancel : Option JobKey
  pub abort : Option JobKey

unfoldable pub read_key : Option Text → Result (Option JobKey)
read_key none = ok none
read_key (some t) = do k ← deserialize_key t; ok (some k)

unfoldable pub read_push_reply : PushReply → Result PushResult
read_push_reply reply = do
  cancel ← read_key reply.cancel
  abort ← read_key reply.abort
  ok (record { local_queue_size = reply.local_queue_size; cancel = cancel; abort = abort })

unfoldable pub deserialize_all : List Text → Result (List JobKey)
deserialize_all [] = ok []
deserialize_all (t ∷ ts) = do k ← deserialize_key t; ks ← deserialize_all ts; ok (k ∷ ks)

module _ (redis : Redis) where
  -- `QueueRedisImpl.push`, at the time that its `TimeProvider` gives
  unfoldable pub redis_push : JobKey → ℕ → Keyspace → Result PushResult × Keyspace
  redis_push job time s =
      let (reply, s') =
        Scripts.push redis (get_local_queue_key job) (serialize_key job) (canonical_id job.job_ref)
          (pos time) s in
      (read_push_reply reply, s')

  -- `QueueRedisImpl.start`
  unfoldable pub redis_start : ℕ → Keyspace → Result (List JobKey) × Keyspace
  redis_start max_count s =
      if ltb 0 max_count
      then (let (reply, s') = Scripts.start redis max_count s in (reply >>= deserialize_all, s'))
      else (ok [], s)

  -- `QueueRedisImpl.complete`
  unfoldable pub redis_complete : JobKey → Keyspace → Bool × Keyspace
  redis_complete job s = Scripts.complete redis (get_local_queue_key job) (serialize_key job) s

  -- `setState` of one job: `SET key state GET`, and the call of the listener.
  unfoldable pub set_one : State → JobKey → Keyspace → Transition × Keyspace
  set_one state job s =
      let k = job_status (serialize_key job) in
      (record { job = job; state = state; previous = redis.get k s }, redis.set k (text_of state) s)

  -- `setState`: one transaction for all jobs
  unfoldable pub set_state : State → List JobKey → Keyspace → List Transition × Keyspace
  set_state state [] s = ([], s)
  set_state state (job ∷ jobs) s =
      let (t, s₁) = set_one state job s in let (ts, s₂) = set_state state jobs s₁ in (t ∷ ts, s₂)

  -- `getState`; an empty text would be `undefined` too, and no state has it.
  unfoldable pub get_state : JobKey → Keyspace → Option Text
  get_state job s = redis.get (job_status (serialize_key job)) s

  unfoldable pub set_states_of : State → Result (List JobKey) × Keyspace → Outcome (List JobKey)
  set_states_of state (ok jobs, s) =
      let (ts, s') = set_state state jobs s in
      record { result = ok jobs; transitions = ts; after = s' }
  set_states_of state (err e, s) = record { result = err e; transitions = []; after = s }

  -- `start`
  unfoldable pub start : ℕ → Keyspace → Outcome (List JobKey)
  start max_count s = set_states_of starting (redis_start max_count s)

  -- A state for the job that a push replaced, if there is one.
  unfoldable pub set_replaced : State → Option JobKey → Keyspace → List Transition × Keyspace
  set_replaced state none s = ([], s)
  set_replaced state (some job) s = set_state state (job ∷ []) s

  unfoldable pub settle : JobKey → Result PushResult × Keyspace → Outcome (Unit {0})
  settle job (err e, s) = record { result = err e; transitions = []; after = s }
  settle job (ok result, s) =
      let (ts₁, s₁) = set_state queued (job ∷ []) s in
      let (ts₂, s₂) = set_replaced aborted result.abort s₁ in
      let (ts₃, s₃) = set_replaced cancelled result.cancel s₂ in
      record { result = ok tt; transitions = ts₁ ++ (ts₂ ++ ts₃); after = s₃ }

  -- `push`
  unfoldable pub push : JobKey → ℕ → Keyspace → Outcome (Unit {0})
  push job time s = settle job (redis_push job time s)

  -- The transition of `addState` once it is known to be valid.
  unfoldable pub enter_state : JobKey → State → Keyspace → Outcome Bool
  enter_state job new_state s =
      if is_state_terminal new_state
      then (let (marked, s₁) = redis_complete job s in
          let (ts, s₂) = set_state new_state (job ∷ []) s₁ in
          record { result = ok true; transitions = ts; after = s₂ })
      else (let (ts, s₁) = set_state new_state (job ∷ []) s in
          record { result = ok false; transitions = ts; after = s₁ })

  unfoldable pub add_from : JobKey → Text → State → State → Keyspace → Outcome Bool
  add_from job text state new_state s =
      if is_transition_valid state new_state then enter_state job new_state s else record {
        result = err (
            codes "State transition "
            ++ (text
                ++ (codes "->"
                    ++ (text_of new_state
                        ++ (codes " is illegal (" ++ (JobRef.key_to_string job ++ codes ")."))))));
        transitions = [];
        after = s;
      }

  -- A stored text that is no state has no transitions to search.
  unfoldable pub add_parsed : JobKey → Text → Option State → State → Keyspace → Outcome Bool
  add_parsed job text none new_state s = record {
    result = err (codes "Cannot read properties of undefined (reading 'find')");
    transitions = [];
    after = s;
  }
  add_parsed job text (some state) new_state s = add_from job text state new_state s

  unfoldable pub add_stored : JobKey → Option Text → State → Keyspace → Outcome Bool
  add_stored job none new_state s = record { result = err []; transitions = []; after = s }
  add_stored job (some text) new_state s = add_parsed job text (state_of text) new_state s

  -- `addState`
  unfoldable pub add_state : JobKey → State → Keyspace → Outcome Bool
  add_state job new_state s = add_stored job (get_state job s) new_state s
