-- ===== src/Queue/Scripts/Histories.antt =====
-- Every sequence of calls of the three scripts, from an empty keyspace: what always holds, and
-- when a waiting ref starts.
use mathlib.Core.Path.{subst}
use common_build.Common.{
  ℕ, zero, suc, true, List, [], ◌∷◌, Option, none, some, ◌≡◌, length, refl, arith, inl, inr, All,
  take, sym, ◌≤◌, ◌<◌, ap, ◌∙◌, Elem,
}
use common_build.Common.Text.{Text, eq-true}
use common_build.Common.Int.{ℤ, le_int}
use common_build.Redis.{Redis, Keyspace, ready, active, local, local_active, last_canonical}
use common_build.Redis.Commands.{zscore, is_some, zdifference, empty}
use common_build.Redis.Sets.{IsSorted, Elem-zdifference}
use common_build.Queue.Scripts.{push, start, complete, serialized_field}
use common_build.Queue.Scripts.Consistent.{IsConsistent, score_of}
use common_build.Queue.Scripts.Push.{push-IsConsistent, complete-IsConsistent}
use common_build.Queue.Scripts.Loop.{among}
use common_build.Queue.Scripts.Startable.{start-StartEffect, startable, taken_by_start}

-- A call of a script, with its arguments.
pub data Call : Type 0 where
  pushes : Text → Text → Text → ℤ → Call
  starts : ℕ → Call
  completes : Text → Text → Call

unfoldable pub call : Redis → Call → Keyspace → Keyspace
call r (pushes q serialized canonical score) s = (push r q serialized canonical score s).1
call r (starts n) s = (start r n s).1
call r (completes q serialized) s = (complete r q serialized s).1

unfoldable pub run : Redis → List Call → Keyspace → Keyspace
run r [] s = s
run r (c ∷ cs) s = run r cs (call r c s)

pub empty-IsConsistent : IsConsistent empty
unfolding zscore
empty-IsConsistent = record {
  nearly = record {
    counts = λ q. refl;
    pending = λ q c. refl;
    running = λ q. refl;
    named = λ q. refl;
    local_unique = λ q. tt;
    local_sorted = λ q. tt;
    ready_unique = tt;
  };
  no_zero = λ q. refl;
}

call-IsConsistent :
    (r : Redis) (c : Call) (s : Keyspace) → IsConsistent s → IsConsistent (call r c s)
unfolding call
call-IsConsistent r (pushes q serialized canonical score) s h =
    push-IsConsistent r q serialized canonical score s h
call-IsConsistent r (starts n) s h = (start-StartEffect r n s h).1.consistent
call-IsConsistent r (completes q serialized) s h = complete-IsConsistent r q serialized s h

run-IsConsistent_from :
    (r : Redis) (cs : List Call) (s : Keyspace) → IsConsistent s → IsConsistent (run r cs s)
unfolding run
run-IsConsistent_from r [] s h = h
run-IsConsistent_from r (c ∷ cs) s h =
    run-IsConsistent_from r cs (call r c s) (call-IsConsistent r c s h)

-- Whatever scripts ran, in whatever order and with whatever arguments, the keys are consistent.
pub run-IsConsistent : (r : Redis) (cs : List Call) → IsConsistent (run r cs empty)
run-IsConsistent r cs = run-IsConsistent_from r cs empty empty-IsConsistent

Elem-among : (q : Text) (qs : List Text) → Elem q qs → among q qs ≡ true
Elem-among q [] e = elim e [ ]
Elem-among q (p ∷ qs) (inl e) = rw (← e, eq-true q) refl
Elem-among q (p ∷ qs) (inr e) = ground (arith, Elem-among q qs e)

take_all {ℓ} : {A : Type ℓ} (n : ℕ) (xs : List A) → length xs ≤ n → take n xs ≡ xs
take_all zero [] h = refl
take_all zero (x ∷ xs) h = absurd (omega arith)
take_all (suc n) [] h = refl
take_all (suc n) (x ∷ xs) h = ap (λ t. x ∷ t) (take_all n xs (omega arith))

counted : (n : ℕ) (o : Option ℤ) → 0 < n → o ≡ score_of n → is_some o ≡ true
counted zero o h e = absurd (omega arith)
counted (suc n) o h e = rw e refl

-- The call of `start` notes the latest text of the queue's first ref as its running job, and takes
-- the ref out of the queue; all other refs of the queue were entered no earlier.
abbrev pub StartsOldest : Redis → ℕ → Keyspace → Text → Type 0
StartsOldest r n s q =
    (c t : Text) × (score : ℤ) × (rest : List (Text × ℤ)) × (s.zsets (local q) ≡ (c, score) ∷ rest)
    × All (λ e. le_int score e.1 ≡ true) rest
    × (s.strings (last_canonical q c) ≡ some t)
    × ((start r n s).1.hashes (local_active q) serialized_field ≡ some t)
    × ((start r n s).1.zsets (local q) ≡ rest)

-- If the keys are consistent, a ref waits in a queue whose slot is free, and the call may take as
-- many queues as can start, then `start` starts the oldest ref of that queue.
pub start_progress :
    (r : Redis) (n : ℕ) (s : Keyspace) (q : Text)
    → IsConsistent s
    → zscore q (s.zsets active) ≡ none
    → 0 < length (s.zsets (local q))
    → length (zdifference (s.zsets ready) (s.zsets active)) ≤ n
    → StartsOldest r n s q
start_progress r n s q h free waits room =
    let listed =
      counted (length (s.zsets (local q))) (zscore q (s.zsets ready)) waits
        (sym (h.no_zero q) ∙ h.nearly.counts q) in
    let (c, t, score, rest, k) = startable s h q listed free in
    let effect = (start-StartEffect r n s h).1 in
    let taken : among q (taken_by_start n s) ≡ true =
      rw (take_all n _ room)
        (Elem-among q _ (Elem-zdifference q (s.zsets ready) (s.zsets active) listed free)) in
    (
      c,
      t,
      score,
      rest,
      k.first,
      (subst IsSorted k.first (h.nearly.local_sorted q)).0,
      k.text,
      ground (arith, effect.started.slots q, taken, k.first, k.text),
      ground (arith, effect.started.waiting q, taken, k.first),
    )
