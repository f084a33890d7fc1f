-- ===== src/Queue/Service/Push.antt =====
-- `push` of the queue service: the states of the pushed job and of the one that it replaces.
use common_build.Common.{
  ℕ, ◌≡◌, refl, false, [], ◌∷◌, none, some, arith, if◌then◌else◌, ap, ◌∙◌, map,
}
use common_build.Common.Text.{Text, ◌==◌, eq-true}
use common_build.Common.Int.{pos}
use common_build.Common.Result.{ok}
use common_build.Domain.JobRef.{JobKey, serialize_key, canonical_id}
use common_build.Domain.JobRef.RoundTrip.{IsStorable, deserialize_key-serialize_key}
use common_build.Redis.{Redis, Keyspace, local_active, last_canonical}
use common_build.Redis.Laws.{documented, of_documented}
use common_build.Redis.Commands.{put, same_key, set}
use common_build.Queue.Scripts.{PushReply, canonical_field, holds, serialized_field}
use common_build.Queue.Scripts
use common_build.Queue.Scripts.Effects.{push-PushEffect}
use common_build.Queue.States.{State, queued, cancelled, text_of}
use common_build.Queue.Service.{
  Outcome, push, settle, redis_push, read_push_reply, read_key, set_state, set_one, set_replaced,
  get_local_queue_key,
}
use common_build.Queue.Service.AddState.{stored}

-- The ref of the job waits in its queue with the text `t`, and no job of the ref runs.
pub record Waits (job : JobKey) (t : Text) (s : Keyspace) : Type 0 where
  pub text :
      s.strings (last_canonical (get_local_queue_key job) (canonical_id job.job_ref)) ≡ some t
  pub idle :
      holds
        (s.hashes (local_active (get_local_queue_key job)) canonical_field)
        (canonical_id job.job_ref)
      ≡ false

read_push_reply_lem :
    (old : JobKey) (reply : PushReply)
    → IsStorable old
    → reply.cancel ≡ some (serialize_key old)
    → reply.abort ≡ none
    → read_push_reply reply
      ≡ ok (record { local_queue_size = reply.local_queue_size; cancel = some old; abort = none })
unfolding read_push_reply read_key
read_push_reply_lem old reply h c a = rw (c, a, deserialize_key-serialize_key old h) refl

-- The keyspace behind the script that `push` runs.
abbrev pub entered : Redis → JobKey → ℕ → Keyspace → Keyspace
entered r job time s =
    (Scripts.push r (get_local_queue_key job) (serialize_key job) (canonical_id job.job_ref)
      (pos time) s).1

push_lem :
    (job old : JobKey) (time : ℕ) (s : Keyspace)
    → IsStorable old
    → Waits job (serialize_key old) s
    → push documented job time s
      ≡ settle documented job (
        ok (record {
          local_queue_size =
              (Scripts.push documented
                (get_local_queue_key job)
                (serialize_key job)
                (canonical_id job.job_ref)
                (pos time)
                s).0.local_queue_size;
          cancel = some old;
          abort = none;
        }),
        entered documented job time s,
      )
unfolding push redis_push
push_lem job old time s h w =
    let e =
      push-PushEffect documented (get_local_queue_key job) (serialize_key job)
        (canonical_id job.job_ref) (pos time) s in
    ap (λ o. settle documented job (o, entered documented job time s))
      (read_push_reply_lem old _ h (e.cancel ∙ w.text) (e.abort ∙ (rw w.idle refl)))

-- What the caller of `push` sees if the text of `old` waited in the job's place.
pub record ReplaceEffect (job old : JobKey) (s : Keyspace) (o : Outcome (Unit {0})) : Type 0 where
  pub resolved : o.result ≡ ok tt
  pub cancelled_status : stored old o.after ≡ some (text_of cancelled)
  -- The pushed job is marked as queued, unless it is the very job that it replaced.
  pub status : stored job o.after ≡ (
      if serialize_key old == serialize_key job
      then some (text_of cancelled)
      else some (text_of queued))
  pub waits :
      o.after.strings (last_canonical (get_local_queue_key job) (canonical_id job.job_ref))
      ≡ some (serialize_key job)
  pub told :
      map {B = JobKey × State} (λ t. (t.job, t.state)) o.transitions
      ≡ (job, queued) ∷ (old, cancelled) ∷ []

push-ReplaceEffect-documented :
    (job old : JobKey) (time : ℕ) (s : Keyspace)
    → IsStorable old
    → Waits job (serialize_key old) s
    → ReplaceEffect job old s (push documented job time s)
unfolding settle set_state set_one set_replaced set put same_key
push-ReplaceEffect-documented job old time s h w =
    let e =
      push-PushEffect documented (get_local_queue_key job) (serialize_key job)
        (canonical_id job.job_ref) (pos time) s in
    rw (push_lem job old time s h w) (record {
      resolved = refl;
      cancelled_status = rw (eq-true (serialize_key old)) refl;
      status = ground (arith, eq-true (serialize_key job));
      waits = e.latest;
      told = refl;
    })

-- If the text of a storable job waits in the queue, no job of its ref runs and its ref is pushed again, the ref waits with its
-- new text and the job that waited is marked as cancelled. The pushed job is marked as queued,
-- except if it is the same job: then it waits, and is marked as cancelled.
pub push-ReplaceEffect :
    (r : Redis) (job old : JobKey) (time : ℕ) (s : Keyspace)
    → IsStorable old
    → Waits job (serialize_key old) s
    → ReplaceEffect job old s (push r job time s)
push-ReplaceEffect r job old time s h w =
    of_documented (λ r. ReplaceEffect job old s (push r job time s))
      (push-ReplaceEffect-documented job old time s h w) r
