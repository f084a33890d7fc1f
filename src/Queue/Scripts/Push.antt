-- ===== src/Queue/Scripts/Push.antt =====
-- `push` and `complete` keep the keys consistent.
use common_build.Common.{Bool-cases, inl, inr, if◌then◌else◌, ◌≡◌, length, arith}
use common_build.Common.Text.{Text, eq_iff, eq-true}
use common_build.Common.Int.{ℤ, pos, ◌+ℤ◌}
use common_build.Redis.{Redis, Keyspace, ready, active, local, local_active, last_canonical}
use common_build.Redis.Laws.{documented, of_documented}
use common_build.Redis.Commands.{
  zscore, is_some, score_or_0, put, same_key, hget, get, set, del, zput, zadd, zadd_nx, zincrby,
  zrem,
}
use common_build.Redis.Sets.{
  IsUnique, IsSorted, zinsert-IsSorted, strip, zscore-zinsert, zscore-zremove, length-zinsert,
  zinsert-IsUnique, zscore-renew, renew-IsUnique,
}
use common_build.Queue.Scripts.{
  enqueue, vacate, push, complete, holds, canonical_field, serialized_field,
}
use common_build.Queue.Scripts.Consistent.{IsConsistent, score_of}

vacate-IsConsistent :
    (q : Text) (s : Keyspace) → IsConsistent s → IsConsistent (vacate documented q s)
unfolding vacate del zrem zput put same_key
vacate-IsConsistent q s h = record {
  nearly = record {
    counts = λ p. h.nearly.counts p;
    pending = λ p c. h.nearly.pending p c;
    running = λ p. ground (arith, h.nearly.running p, zscore-zremove p q (s.zsets active));
    named = λ p. ground (arith, h.nearly.named p);
    local_unique = λ p. h.nearly.local_unique p;
    local_sorted = λ p. h.nearly.local_sorted p;
    ready_unique = h.nearly.ready_unique;
  };
  no_zero = λ p. h.no_zero p;
}

module _ (q serialized canonical : Text) (score : ℤ) (s : Keyspace) (h : IsConsistent s) where
  -- The ref is new in its queue exactly if it has no text yet.
  enqueue-counts :
      (p : Text)
      → let t = enqueue documented q serialized canonical score s in
        strip (zscore p (t.zsets ready)) ≡ score_of (length (t.zsets (local p)))
  unfolding enqueue get set zadd_nx zincrby zadd zput put same_key
  enqueue-counts p = ground (
    arith,
    h.nearly.counts p,
    h.no_zero p,
    h.nearly.pending q canonical,
    eq_iff q p,
    eq-true q,
    length-zinsert (canonical, score) (s.zsets (local q)),
    zscore-renew p q (score_or_0 (zscore q (s.zsets ready)) +ℤ pos 1) (s.zsets ready),
  )

  enqueue-no_zero :
      (p : Text)
      → let t = enqueue documented q serialized canonical score s in
        strip (zscore p (t.zsets ready)) ≡ zscore p (t.zsets ready)
  unfolding enqueue get set zadd_nx zincrby zadd zput put same_key
  enqueue-no_zero p = ground (
    arith,
    h.nearly.counts p,
    h.no_zero p,
    h.nearly.pending q canonical,
    eq_iff q p,
    zscore-renew p q (score_or_0 (zscore q (s.zsets ready)) +ℤ pos 1) (s.zsets ready),
  )

  enqueue-pending :
      (p c : Text)
      → let t = enqueue documented q serialized canonical score s in
        is_some (zscore c (t.zsets (local p))) ≡ is_some (t.strings (last_canonical p c))
  unfolding enqueue get set zadd_nx zincrby zadd zput put same_key
  enqueue-pending p c = ground (
    arith,
    h.nearly.pending p c,
    h.nearly.pending q canonical,
    eq_iff q p,
    eq_iff canonical c,
    zscore-zinsert c canonical score (s.zsets (local q)),
  )

  enqueue-local-IsUnique :
      (p : Text) → IsUnique ((enqueue documented q serialized canonical score s).zsets (local p))
  unfolding enqueue get set zadd_nx zincrby zadd zput put same_key
  enqueue-local-IsUnique p = ground (
    arith,
    h.nearly.local_unique p,
    h.nearly.local_unique q,
    eq_iff q p,
    zinsert-IsUnique canonical score (s.zsets (local q)),
  )

  enqueue-local-IsSorted :
      (p : Text) → IsSorted ((enqueue documented q serialized canonical score s).zsets (local p))
  unfolding enqueue get set zadd_nx zincrby zadd zput put same_key
  enqueue-local-IsSorted p = ground (
    arith,
    h.nearly.local_sorted p,
    h.nearly.local_sorted q,
    eq_iff q p,
    zinsert-IsSorted (canonical, score) (s.zsets (local q)),
  )

  enqueue-ready-IsUnique :
      IsUnique ((enqueue documented q serialized canonical score s).zsets ready)
  unfolding enqueue get set zadd_nx zincrby zadd zput put same_key
  enqueue-ready-IsUnique = ground (
    arith,
    renew-IsUnique q (score_or_0 (zscore q (s.zsets ready)) +ℤ pos 1) (s.zsets ready)
        h.nearly.ready_unique,
    h.nearly.ready_unique,
  )

  enqueue-running :
      (p f : Text)
      → let t = enqueue documented q serialized canonical score s in
        (t.zsets active ≡ s.zsets active)
        × (t.hashes (local_active p) f ≡ s.hashes (local_active p) f)
  unfolding enqueue get set zadd_nx zincrby zadd zput put same_key
  enqueue-running p f = ground arith

  enqueue-IsConsistent : IsConsistent (enqueue documented q serialized canonical score s)
  enqueue-IsConsistent = record {
    nearly = record {
      counts = enqueue-counts;
      pending = enqueue-pending;
      running = λ p.
          rw ((enqueue-running p serialized_field).0, (enqueue-running p serialized_field).1)
            (h.nearly.running p);
      named = λ p.
          rw ((enqueue-running p canonical_field).1, (enqueue-running p serialized_field).1)
            (h.nearly.named p);
      local_unique = enqueue-local-IsUnique;
      local_sorted = enqueue-local-IsSorted;
      ready_unique = enqueue-ready-IsUnique;
    };
    no_zero = enqueue-no_zero;
  }

-- What `push` leaves: the ref is entered, and a running job of the same ref loses its slot.
push_state :
    (q serialized canonical : Text) (score : ℤ) (s : Keyspace)
    → let t = enqueue documented q serialized canonical score s in
      (push documented q serialized canonical score s).1 ≡ (
        if holds (t.hashes (local_active q) canonical_field) canonical
        then vacate documented q t
        else t)
unfolding push hget
push_state q serialized canonical score s = ground arith

push-IsConsistent-documented :
    (q serialized canonical : Text) (score : ℤ) (s : Keyspace)
    → IsConsistent s
    → IsConsistent (push documented q serialized canonical score s).1
push-IsConsistent-documented q serialized canonical score s h =
    let t = enqueue documented q serialized canonical score s in
    let k = enqueue-IsConsistent q serialized canonical score s h in
    rw (push_state q serialized canonical score s)
      (elim (Bool-cases (holds (t.hashes (local_active q) canonical_field) canonical)) [
        | inl e ↦ rw e (vacate-IsConsistent q t k)
        | inr e ↦ rw e k
      ])

-- If the keys of the queues are consistent, they are so after `push`, whatever it enters.
pub push-IsConsistent :
    (r : Redis) (q serialized canonical : Text) (score : ℤ) (s : Keyspace)
    → IsConsistent s
    → IsConsistent (push r q serialized canonical score s).1
push-IsConsistent r q serialized canonical score s h =
    of_documented (λ r. IsConsistent (push r q serialized canonical score s).1)
      (push-IsConsistent-documented q serialized canonical score s h) r

complete-IsConsistent-documented :
    (q serialized : Text) (s : Keyspace)
    → IsConsistent s
    → IsConsistent (complete documented q serialized s).1
unfolding complete
complete-IsConsistent-documented q serialized s h =
    elim (Bool-cases (holds (documented.hget (local_active q) serialized_field s) serialized)) [
      | inl e ↦ rw e (vacate-IsConsistent q s h)
      | inr e ↦ rw e h
    ]

-- If the keys of the queues are consistent, they are so after `complete`, whichever job it is called
-- for.
pub complete-IsConsistent :
    (r : Redis) (q serialized : Text) (s : Keyspace)
    → IsConsistent s
    → IsConsistent (complete r q serialized s).1
complete-IsConsistent r q serialized s h =
    of_documented (λ r. IsConsistent (complete r q serialized s).1)
      (complete-IsConsistent-documented q serialized s h) r
