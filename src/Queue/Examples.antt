-- ===== src/Queue/Examples.antt =====
-- The theorems about the queues at concrete jobs.
use common_build.Common.{◌≡◌, refl, true, List, [], ◌∷◌, some, arith, ◌≤◌, ◌+◌, ◌↔◌, length}
use common_build.Common.Text.{Text, codes, ◌==◌, join}
use common_build.Common.Int.{pos}
use common_build.Common.Result.{ok}
use common_build.Domain.JobRef.{JobKey, update_ref, serialize_key}
use common_build.Domain.JobRef
use common_build.Domain.JobRef.RoundTrip.{IsStorable}
use common_build.Domain.Source
use common_build.Domain.Refs.{is_sha}
use common_build.Redis.{Keyspace}
use common_build.Redis.Laws.{documented}
use common_build.Redis.Commands
use common_build.Redis.Commands.{zscore, zdifference, empty}
use common_build.Queue.Scripts.{push, start, complete}
use common_build.Queue.Scripts
use common_build.Queue.Scripts.Histories
use common_build.Queue.Scripts.Consistent.{IsConsistent}
use common_build.Queue.Scripts.Push.{push-IsConsistent}
use common_build.Queue.Scripts.Effects.{
  PushEffect, push-PushEffect, CompleteEffect, complete-CompleteEffect,
}
use common_build.Queue.Scripts.Startable.{StartEffect, start-StartEffect}
use common_build.Queue.Scripts.Histories.{
  Call, pushes, starts, completes, run, run-IsConsistent, start_progress, StartsOldest,
  empty-IsConsistent,
}
use common_build.Queue.States.{State, queued, starting, started, success, is_state_terminal}
use common_build.Queue.States.Chains.{IsChain-length, phase}
use common_build.Queue.Service.{add_state, Outcome}
use common_build.Queue.Service
use common_build.Queue.Service.AddState.{
  add_state-AddStateEffect, AddStateEffect, accepted_calls, accepted_calls-phase,
}
use common_build.Queue.Service.AddState.{stored}
use common_build.Queue.States
use common_build.Queue.Service.Push.{push-ReplaceEffect, ReplaceEffect, Waits}

abbrev queue_a : Text
queue_a = codes "queue:g/a:local:integration_main"

abbrev one_pushed : Keyspace
one_pushed = (push documented queue_a (codes "first") (codes "update-1") (pos 5) empty).1

one_pushed-IsConsistent : IsConsistent one_pushed
one_pushed-IsConsistent =
    push-IsConsistent documented queue_a (codes "first") (codes "update-1") (pos 5) empty
      empty-IsConsistent

push-PushEffect_example :
    let (reply, t) =
      push documented queue_a (codes "again") (codes "update-1") (pos 9) one_pushed in
    PushEffect queue_a (codes "again") (codes "update-1") (pos 9) one_pushed reply t
push-PushEffect_example =
    push-PushEffect documented queue_a (codes "again") (codes "update-1") (pos 9) one_pushed

complete-CompleteEffect_example :
    let (done, t) = complete documented queue_a (codes "first") one_pushed in
    CompleteEffect queue_a (codes "first") one_pushed done t
complete-CompleteEffect_example =
    complete-CompleteEffect documented queue_a (codes "first") one_pushed

start-StartEffect_example :
    let (reply, u) = start documented 10 one_pushed in
    (ts : List Text) × StartEffect 10 one_pushed ts reply u
start-StartEffect_example = start-StartEffect documented 10 one_pushed one_pushed-IsConsistent

abbrev history : List Call
history =
    pushes queue_a (codes "first") (codes "update-1") (pos 5)
    ∷ pushes queue_a (codes "second") (codes "update-2") (pos 6)
    ∷ starts 10
    ∷ completes queue_a (codes "first")
    ∷ []

run-IsConsistent_example : IsConsistent (run documented history empty)
run-IsConsistent_example = run-IsConsistent documented history

start_progress_example : StartsOldest documented 10 one_pushed queue_a
unfolding push Scripts.enqueue Commands.zadd_nx Commands.zcard Commands.get Commands.set
    Commands.zincrby Commands.zadd Commands.zput Commands.put Commands.same_key ◌==◌ Commands.hget
    zscore Commands.zinsert Commands.zremove zdifference
start_progress_example =
    start_progress documented 10 one_pushed queue_a one_pushed-IsConsistent refl (omega arith)
      (omega arith)

-- The runs of the scripts, on inputs that can be followed in the source.
start_test :
    (start documented 10 (
      run documented
        (pushes queue_a (codes "first") (codes "update-1") (pos 5)
          ∷ pushes queue_a (codes "second") (codes "update-2") (pos 6)
          ∷ [])
        empty)).0
    ≡ ok (codes "first" ∷ [])
unfolding run Histories.call start Scripts.clean_up Scripts.take_queues Scripts.take_queue
    Scripts.take_ref Scripts.activate Scripts.occupy Scripts.add_reply push Scripts.enqueue
    Commands.zadd_nx Commands.zcard Commands.get Commands.set Commands.zincrby Commands.zadd
    Commands.zput Commands.put Commands.same_key ◌==◌ Commands.hget Commands.hset Commands.del
    Commands.zdiff Commands.zpopmin Commands.zpop zscore Commands.zinsert Commands.zremove
    zdifference Commands.text_le
start_test = refl

abbrev sha_text : Text
sha_text = codes "0123456789abcdef0123456789abcdef01234567"

abbrev job_of : Text → JobKey
job_of id = record {
  source = record { id = codes "g"; path = codes "a" };
  job_ref = update_ref id (codes "main") (record { sha = sha_text });
}

abbrev job_1 : JobKey
job_1 = job_of (codes "1")

job_1-IsStorable : IsStorable job_1
unfolding Source.as_string JobRef.serialize JobRef.fields JobRef.constructor_name join is_sha
job_1-IsStorable = record {
  source_plain = record { named = λ e. cc; no_slash = omega arith };
  source_free = omega arith;
  job_clean = (omega arith, omega arith, omega arith, refl);
  job_free = omega arith;
}

IsChain-length_example :
    (length {A = State} (starting ∷ started ∷ success ∷ []) + phase queued ≤ 3)
    × ((is_state_terminal queued ≡ true) ↔ (phase queued ≡ 3))
unfolding States.is_transition_valid States.text_of ◌==◌
IsChain-length_example =
    IsChain-length queued (starting ∷ started ∷ success ∷ []) (refl, (refl, (refl, tt)))

-- A keyspace in which the job is queued.
abbrev queued_1 : Keyspace
queued_1 = (Service.push documented job_1 5 empty).after

queued_1-stored : stored job_1 queued_1 ≡ some (States.text_of queued)
unfolding Service.push Service.redis_push Service.settle Service.read_push_reply Service.read_key
    Service.set_state Service.set_one Service.set_replaced push Scripts.enqueue Commands.zadd_nx
    Commands.zcard Commands.get Commands.set Commands.zincrby Commands.zadd Commands.zput
    Commands.put Commands.same_key ◌==◌ Commands.hget zscore Commands.zinsert Commands.zremove
    serialize_key JobRef.serialize JobRef.fields JobRef.constructor_name Source.as_string join
queued_1-stored = refl

add_state-AddStateEffect_example :
    AddStateEffect documented job_1 queued starting queued_1
      (add_state documented job_1 starting queued_1)
add_state-AddStateEffect_example =
    add_state-AddStateEffect documented job_1 queued starting queued_1 queued_1-stored

accepted_calls-phase_example :
    accepted_calls documented job_1 (starting ∷ started ∷ success ∷ started ∷ []) queued_1
      + phase queued
    ≤ 3
accepted_calls-phase_example =
    accepted_calls-phase documented job_1 queued (starting ∷ started ∷ success ∷ started ∷ [])
      queued_1 queued_1-stored

-- The job is pushed a second time while it waits.
queued_1-Waits : Waits job_1 (serialize_key job_1) queued_1
unfolding Service.push Service.redis_push Service.settle Service.read_push_reply Service.read_key
    Service.set_state Service.set_one Service.set_replaced push Scripts.enqueue Commands.zadd_nx
    Commands.zcard Commands.get Commands.set Commands.zincrby Commands.zadd Commands.zput
    Commands.put Commands.same_key ◌==◌ Commands.hget zscore Commands.zinsert Commands.zremove
    serialize_key JobRef.serialize JobRef.fields JobRef.constructor_name Source.as_string join
    JobRef.canonical_id Service.get_local_queue_key JobRef.queue_id
queued_1-Waits = record { text = refl; idle = refl }

push-ReplaceEffect_example :
    ReplaceEffect job_1 job_1 queued_1 (Service.push documented job_1 6 queued_1)
push-ReplaceEffect_example =
    push-ReplaceEffect documented job_1 job_1 6 queued_1 job_1-IsStorable queued_1-Waits
