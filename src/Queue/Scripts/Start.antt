-- ===== src/Queue/Scripts/Start.antt =====
-- `start`: one round of its loop, and the loop.
use mathlib.Core.Path.{subst}
use common_build.Common.{false, List, ◌∷◌, none, some, ◌≡◌, refl, arith, if◌then◌else◌}
use common_build.Common.Text.{Text, eq_iff, eq-true, ◌==◌}
use common_build.Common.Int.{ℤ, pos, negsuc, ◌+ℤ◌}
use common_build.Common.Result.{ok}
use common_build.Redis.{Keyspace, ready, active, local, local_active, last_canonical}
use common_build.Redis.Laws.{documented}
use common_build.Redis.Commands.{
  zscore, score_or_0, put, same_key, get, del, hset, zput, zadd, zincrby, zpopmin, zpop,
}
use common_build.Redis.Sets.{IsUnique, IsSorted, zscore-renew, renew-IsUnique}
use common_build.Queue.Scripts.{
  take_queue, take_ref, activate, occupy, canonical_field, serialized_field,
}
use common_build.Queue.Scripts.Consistent.{IsNearlyConsistent}

-- The slot of the queue is free, and the text of its first ref is `t`.
pub record CanStart (s : Keyspace) (q c t : Text) (score : ℤ) (rest : List (Text × ℤ))
    : Type 0 where
  pub free : zscore q (s.zsets active) ≡ none
  pub first : s.zsets (local q) ≡ (c, score) ∷ rest
  pub text : s.strings (last_canonical q c) ≡ some t

zscore_cons :
    (d c : Text) (score : ℤ) (rest : List (Text × ℤ))
    → zscore d ((c, score) ∷ rest) ≡ (if c == d then some score else zscore d rest)
unfolding zscore
zscore_cons d c score rest = refl

fields_differ :
    ((serialized_field == canonical_field) ≡ false)
    × ((canonical_field == serialized_field) ≡ false)
unfolding ◌==◌
fields_differ = (refl, refl)

module _ (s : Keyspace) (h : IsNearlyConsistent s) {q c t : Text} {score : ℤ}
    {rest : List (Text × ℤ)} (k : CanStart s q c t score rest) where
  -- The keyspace behind a round.
  abbrev pub taken : Keyspace
  taken = (take_queue documented q s).1

  pub take_queue-reply : (take_queue documented q s).0 ≡ some (ok t)
  unfolding take_queue take_ref activate zincrby zadd zpopmin zpop zput get del put same_key
  take_queue-reply = ground (arith, k.first, k.text, eq-true q)

  pub take_queue-local :
      (p : Text) → taken.zsets (local p) ≡ (if q == p then rest else s.zsets (local p))
  unfolding take_queue take_ref activate occupy zincrby zadd zpopmin zpop zput get del hset put
      same_key
  take_queue-local p = ground (arith, k.first, k.text, eq-true q, eq_iff q p)

  take_queue-ready :
      (p : Text)
      → zscore p (taken.zsets ready) ≡ (
          if q == p
          then some (score_or_0 (zscore q (s.zsets ready)) +ℤ negsuc 0)
          else zscore p (s.zsets ready))
  unfolding take_queue take_ref activate occupy zincrby zadd zpopmin zpop zput get del hset put
      same_key
  take_queue-ready p = ground (
    arith,
    k.first,
    k.text,
    eq-true q,
    zscore-renew p q (score_or_0 (zscore q (s.zsets ready)) +ℤ negsuc 0) (s.zsets ready),
  )

  take_queue-ready-IsUnique : IsUnique (taken.zsets ready)
  unfolding take_queue take_ref activate occupy zincrby zadd zpopmin zpop zput get del hset put
      same_key
  take_queue-ready-IsUnique = ground (
    arith,
    k.first,
    k.text,
    eq-true q,
    renew-IsUnique q (score_or_0 (zscore q (s.zsets ready)) +ℤ negsuc 0) (s.zsets ready)
        h.ready_unique,
  )

  pub take_queue-active :
      (p : Text)
      → zscore p (taken.zsets active) ≡ (if q == p then some (pos 1) else zscore p (s.zsets active))
  unfolding take_queue take_ref activate occupy zincrby zadd zpopmin zpop zput get del hset put
      same_key
  take_queue-active p =
      ground (arith, k.first, k.text, eq-true q, zscore-renew p q (pos 1) (s.zsets active))

  pub take_queue-strings :
      (p d : Text)
      → taken.strings (last_canonical p d) ≡ (
          if q == p
          then (if c == d then none else s.strings (last_canonical p d))
          else s.strings (last_canonical p d))
  unfolding take_queue take_ref activate occupy zincrby zadd zpopmin zpop zput get del hset put
      same_key
  take_queue-strings p d = ground (arith, k.first, k.text, eq-true q, eq_iff q p, eq_iff c d)

  pub take_queue-hash :
      (p : Text)
      → (taken.hashes (local_active p) serialized_field
          ≡ (if q == p then some t else s.hashes (local_active p) serialized_field))
        × (taken.hashes (local_active p) canonical_field
            ≡ (if q == p then some c else s.hashes (local_active p) canonical_field))
  unfolding take_queue take_ref activate occupy zincrby zadd zpopmin zpop zput get del hset put
      same_key
  take_queue-hash p = ground (
    arith,
    k.first,
    k.text,
    eq-true q,
    eq_iff q p,
    fields_differ.0,
    fields_differ.1,
    eq-true serialized_field,
    eq-true canonical_field,
  )

  -- The first ref of the queue does not stand in it again.
  first_unique : zscore c rest ≡ none
  first_unique = (subst IsUnique k.first (h.local_unique q)).0

  rest-IsSorted : IsSorted rest
  rest-IsSorted = (subst IsSorted k.first (h.local_sorted q)).1

  rest-IsUnique : IsUnique rest
  rest-IsUnique = (subst IsUnique k.first (h.local_unique q)).1

  pub take_queue-IsNearlyConsistent : IsNearlyConsistent taken
  take_queue-IsNearlyConsistent = record {
    counts = λ p. ground (
      arith,
      h.counts p,
      h.counts q,
      k.first,
      eq_iff q p,
      take_queue-ready p,
      take_queue-local p,
    );
    pending = λ p d. ground (
      arith,
      h.pending p d,
      h.pending q c,
      k.first,
      first_unique,
      zscore_cons d c score rest,
      eq_iff q p,
      eq_iff c d,
      take_queue-strings p d,
      take_queue-local p,
    );
    running = λ p. ground (arith, h.running p, take_queue-active p, take_queue-hash p);
    named = λ p. ground (arith, h.named p, take_queue-hash p);
    local_unique =
        λ p. ground (arith, h.local_unique p, rest-IsUnique, eq_iff q p, take_queue-local p);
    local_sorted =
        λ p. ground (arith, h.local_sorted p, rest-IsSorted, eq_iff q p, take_queue-local p);
    ready_unique = take_queue-ready-IsUnique;
  }
