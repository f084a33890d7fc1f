-- ===== src/Queue/Scripts/Effects.antt =====
-- What `push` and `complete` answer, and what they leave in the local queue.
use common_build.Common.{Bool, true, Option, none, some, ◌≡◌, ◌↔◌, length, arith, if◌then◌else◌}
use common_build.Common.Text.{Text, eq_iff, eq-true, ◌==◌}
use common_build.Common.Int.{ℤ}
use common_build.Redis.{Redis, Keyspace, ready, active, local, local_active, last_canonical}
use common_build.Redis.Laws.{documented, of_documented}
use common_build.Redis.Commands.{
  zscore, is_some, put, same_key, get, set, del, hget, zput, zadd, zadd_nx, zincrby, zrem, zcard,
  zinsert,
}
use common_build.Redis.Sets.{zscore-zinsert, zscore-zremove}
use common_build.Queue.Scripts.{
  enqueue, vacate, push, complete, holds, canonical_field, serialized_field, PushReply,
}

-- What the caller of `push` relies on.
pub record PushEffect (q serialized canonical : Text) (score : ℤ) (s : Keyspace) (reply : PushReply)
    (t : Keyspace) : Type 0 where
  -- The ref waits with its new text.
  pub latest : t.strings (last_canonical q canonical) ≡ some serialized
  pub waits : is_some (zscore canonical (t.zsets (local q))) ≡ true
  -- A ref that waited keeps its rank; a new one is placed by the given score.
  pub rank : t.zsets (local q) ≡ (
      if is_some (zscore canonical (s.zsets (local q)))
      then s.zsets (local q)
      else zinsert (canonical, score) (s.zsets (local q)))
  pub size : reply.local_queue_size ≡ length (t.zsets (local q))
  -- The text that the new one replaces is to be cancelled, and the running job of the ref, whose
  -- slot is given free, to be aborted.
  pub cancel : reply.cancel ≡ s.strings (last_canonical q canonical)
  pub abort : reply.abort ≡ (
      if holds (s.hashes (local_active q) canonical_field) canonical
      then s.hashes (local_active q) serialized_field
      else none)
  pub slot : t.hashes (local_active q) serialized_field ≡ (
      if holds (s.hashes (local_active q) canonical_field) canonical
      then none
      else s.hashes (local_active q) serialized_field)
  -- The local queue leaves the set of those that are active, so that a ref of it can be started.
  pub freed : zscore q (t.zsets active) ≡ (
      if holds (s.hashes (local_active q) canonical_field) canonical
      then none
      else zscore q (s.zsets active))
  -- Other local queues are left alone.
  pub others :
      (p : Text)
      → (t.zsets (local p) ≡ (if q == p then t.zsets (local q) else s.zsets (local p)))
        × (t.hashes (local_active p) serialized_field ≡ (
            if q == p
            then t.hashes (local_active q) serialized_field
            else s.hashes (local_active p) serialized_field))
        × (zscore p (t.zsets active)
            ≡ (if q == p then zscore q (t.zsets active) else zscore p (s.zsets active)))

push-PushEffect-documented :
    (q serialized canonical : Text) (score : ℤ) (s : Keyspace)
    → let (reply, t) = push documented q serialized canonical score s in
      PushEffect q serialized canonical score s reply t
unfolding push enqueue vacate get set del hget zput zadd zadd_nx zincrby zrem zcard put same_key
push-PushEffect-documented q serialized canonical score s = record {
  latest = ground (arith, eq-true q, eq-true canonical);
  waits = ground (
    arith,
    eq-true q,
    eq-true canonical,
    zscore-zinsert canonical canonical score (s.zsets (local q)),
  );
  rank = ground (arith, eq-true q);
  size = ground (arith, eq-true q);
  cancel = ground (arith, eq-true q, eq-true canonical);
  abort = ground (arith, eq-true q);
  slot = ground (arith, eq-true q);
  freed = ground (arith, eq-true q, zscore-zremove q q (s.zsets active));
  others = λ p. ground (arith, eq_iff q p, zscore-zremove p q (s.zsets active));
}

-- `push` enters the ref with its latest text, keeps the rank of a ref that waits already, answers
-- the text that it replaces and the running job of the same ref, frees that job's slot (its hash
-- is deleted, and the queue is no longer active), and leaves the other local queues alone.
pub push-PushEffect :
    (r : Redis) (q serialized canonical : Text) (score : ℤ) (s : Keyspace)
    → let (reply, t) = push r q serialized canonical score s in
      PushEffect q serialized canonical score s reply t
push-PushEffect r q serialized canonical score s =
    of_documented
      (λ r.
        PushEffect q serialized canonical score s (push r q serialized canonical score s).0
          (push r q serialized canonical score s).1)
      (push-PushEffect-documented q serialized canonical score s) r

holds_iff : (o : Option Text) (t : Text) → (holds o t ≡ true) ↔ (o ≡ some t)
holds_iff none t = ground arith
holds_iff (some u) t = ground (arith, eq_iff u t)

-- What the caller of `complete` relies on.
pub record CompleteEffect (q serialized : Text) (s : Keyspace) (done : Bool) (t : Keyspace)
    : Type 0 where
  pub done_iff : (done ≡ true) ↔ (s.hashes (local_active q) serialized_field ≡ some serialized)
  pub untouched : (if done then s else t) ≡ s
  pub slot :
      t.hashes (local_active q) serialized_field
      ≡ (if done then none else s.hashes (local_active q) serialized_field)
  pub freed : zscore q (t.zsets active) ≡ (if done then none else zscore q (s.zsets active))
  pub waiting : (p : Text) → t.zsets (local p) ≡ s.zsets (local p)
  pub texts : (p c : Text) → t.strings (last_canonical p c) ≡ s.strings (last_canonical p c)
  pub counts : t.zsets ready ≡ s.zsets ready

complete-CompleteEffect-documented :
    (q serialized : Text) (s : Keyspace)
    → let (done, t) = complete documented q serialized s in CompleteEffect q serialized s done t
unfolding complete vacate del hget zrem zput put same_key
complete-CompleteEffect-documented q serialized s = record {
  done_iff = ground (arith, holds_iff (s.hashes (local_active q) serialized_field) serialized);
  untouched = ground arith;
  slot = ground (arith, eq-true q);
  freed = ground (arith, eq-true q, zscore-zremove q q (s.zsets active));
  waiting = λ p. ground arith;
  texts = λ p c. ground arith;
  counts = ground arith;
}

-- `complete` answers true exactly if the job is the one that runs in its local queue; then it frees
-- the slot, and otherwise changes nothing. No waiting ref is touched.
pub complete-CompleteEffect :
    (r : Redis) (q serialized : Text) (s : Keyspace)
    → let (done, t) = complete r q serialized s in CompleteEffect q serialized s done t
complete-CompleteEffect r q serialized s =
    of_documented
      (λ r.
        CompleteEffect q serialized s (complete r q serialized s).0 (complete r q serialized s).1)
      (complete-CompleteEffect-documented q serialized s) r
