-- ===== src/Queue/Scripts/Startable.antt =====
-- `start`: which queues it takes, and what the whole script does to a consistent keyspace.
use common_build.Common.{
  ℕ, zero, suc, true, false, List, [], ◌∷◌, Option, none, some, ◌≡◌, length, refl, arith, inl, inr,
  All, All-take, take, map, ◌≤◌, length-take-le, ap, Option-cases,
}
use common_build.Common.Text.{Text, eq_iff, eq-true}
use common_build.Common.Int.{ℤ}
use common_build.Common.Result.{Result, ok, err}
use common_build.Redis.{Redis, Keyspace, ready, active, local, last_canonical}
use common_build.Redis.Laws.{documented, of_documented}
use common_build.Redis.Commands.{
  zscore, is_some, put, same_key, zput, zdifference, zdiff, zremrangebyscore_to_0,
}
use common_build.Redis.Sets.{IsUnique, zscore-positive, positive-IsUnique}
use common_build.Queue.Scripts.{take_queues, clean_up, start}
use common_build.Queue.Scripts.Consistent.{IsNearlyConsistent, IsConsistent}
use common_build.Queue.Scripts.Loop.{
  Started, IsStartable, IsDistinct, among, take_queues-Started, first_text, tail,
}

zscore_first :
    (c : Text) (score : ℤ) (rest : List (Text × ℤ)) → zscore c ((c, score) ∷ rest) ≡ some score
unfolding zscore
zscore_first c score rest = rw (eq-true c) refl

module _ (s : Keyspace) (h : IsConsistent s) (q : Text) where
  IsStartable-of_first :
      (l : List (Text × ℤ))
      → s.zsets (local q) ≡ l
      → is_some (zscore q (s.zsets ready)) ≡ true
      → zscore q (s.zsets active) ≡ none
      → IsStartable s q
  IsStartable-of_first [] e i f = absurd (ground (arith, h.nearly.counts q, h.no_zero q, i, e))
  IsStartable-of_first ((c, score) ∷ rest) e i f =
      elim (Option-cases (s.strings (last_canonical q c))) [
        | inl missing ↦
            let here : is_some (zscore c (s.zsets (local q))) ≡ true =
              rw (e, zscore_first c score rest) refl in
            absurd (ground (arith, h.nearly.pending q c, missing, here))
        | inr (t, found) ↦ (c, t, score, rest, record { free = f; first = e; text = found })
      ]

  -- A queue that is counted in the ready queue and not active can start.
  pub startable :
      is_some (zscore q (s.zsets ready)) ≡ true → zscore q (s.zsets active) ≡ none → IsStartable s q
  startable = IsStartable-of_first (s.zsets (local q)) refl

zdifference-All-IsStartable :
    (s : Keyspace) (h : IsConsistent s) (l : List (Text × ℤ))
    → ((q : Text) → is_some (zscore q l) ≡ true → is_some (zscore q (s.zsets ready)) ≡ true)
    → IsUnique l
    → All (IsStartable s) (zdifference l (s.zsets active))
unfolding zdifference
zdifference-All-IsStartable s h [] sub u = tt
zdifference-All-IsStartable s h ((n, score) ∷ l) sub (fresh, u) =
    let later =
      zdifference-All-IsStartable s h l (λ q i. sub q (unfold zscore in ground (arith, eq_iff n q)))
        u in
    elim (Option-cases (zscore n (s.zsets active))) [
      | inl free ↦ rw free (startable s h n (sub n (rw (zscore_first n score l) refl)) free, later)
      | inr (x, busy) ↦ rw busy later
    ]

among-zdifference :
    (m : Text) (l r : List (Text × ℤ)) → zscore m l ≡ none → among m (zdifference l r) ≡ false
unfolding zdifference zscore
among-zdifference m [] r h = refl
among-zdifference m ((n, s) ∷ l) r h = ground (arith, among-zdifference m l r)

zdifference-IsDistinct : (l r : List (Text × ℤ)) → IsUnique l → IsDistinct (zdifference l r)
unfolding zdifference
zdifference-IsDistinct [] r u = tt
zdifference-IsDistinct ((n, s) ∷ l) r (fresh, u) =
    ground (arith, among-zdifference n l r fresh, zdifference-IsDistinct l r u)

among-take : (n : ℕ) (m : Text) (qs : List Text) → among m qs ≡ false → among m (take n qs) ≡ false
among-take zero m qs h = refl
among-take (suc n) m [] h = refl
among-take (suc n) m (q ∷ qs) h = ground (arith, among-take n m qs)

take-IsDistinct : (n : ℕ) (qs : List Text) → IsDistinct qs → IsDistinct (take n qs)
take-IsDistinct zero qs d = tt
take-IsDistinct (suc n) [] d = tt
take-IsDistinct (suc n) (q ∷ qs) (f, d) = (among-take n q qs f, take-IsDistinct n qs d)

-- The queues that a call of `start` takes.
abbrev pub taken_by_start : ℕ → Keyspace → List Text
taken_by_start n s = take n (zdifference (s.zsets ready) (s.zsets active))

clean-IsConsistent :
    (u : Keyspace) → IsNearlyConsistent u → IsConsistent (zremrangebyscore_to_0 ready u)
unfolding zremrangebyscore_to_0 zput put same_key
clean-IsConsistent u h = record {
  nearly = record {
    counts = λ p. ground (arith, zscore-positive p (u.zsets ready) h.ready_unique, h.counts p);
    pending = λ p c. h.pending p c;
    running = λ p. h.running p;
    named = λ p. h.named p;
    local_unique = λ p. h.local_unique p;
    local_sorted = λ p. h.local_sorted p;
    ready_unique = positive-IsUnique (u.zsets ready) h.ready_unique;
  };
  no_zero = λ p. ground (arith, zscore-positive p (u.zsets ready) h.ready_unique);
}

clean-Started :
    (s u : Keyspace) (qs ts : List Text)
    → Started s qs ts u
    → Started s qs ts (zremrangebyscore_to_0 ready u)
unfolding zremrangebyscore_to_0 zput put same_key
clean-Started s u qs ts h = record {
  answers = h.answers;
  waiting = λ p. h.waiting p;
  slots = λ p. h.slots p;
}

clean_up-ok :
    (ts : List Text) (result : Result (List Text) × Keyspace)
    → result.0 ≡ ok ts
    → clean_up documented result ≡ (ok ts, zremrangebyscore_to_0 ready result.1)
unfolding clean_up
clean_up-ok ts (ok us, u) e = ground arith
clean_up-ok ts (err m, u) e = cc

-- What the caller of `start` relies on.
pub record StartEffect (n : ℕ) (s : Keyspace) (ts : List Text) (reply : Result (List Text))
    (u : Keyspace) : Type 0 where
  pub answers : reply ≡ ok ts
  pub started : Started s (taken_by_start n s) ts u
  pub one_each : IsDistinct (taken_by_start n s)
  pub were_free : All (λ q. zscore q (s.zsets active) ≡ none) (taken_by_start n s)
  pub at_most : length ts ≤ n
  pub consistent : IsConsistent u

length-answers :
    (f : Text → Option Text) (qs ts : List Text) → map f qs ≡ map some ts → length ts ≡ length qs
length-answers f [] [] e = refl
length-answers f [] (t ∷ ts) e = cc
length-answers f (q ∷ qs) [] e = cc
length-answers f (q ∷ qs) (t ∷ ts) e = ap suc (length-answers f qs ts (ap tail e))

All-free :
    (s : Keyspace) (qs : List Text)
    → All (IsStartable s) qs
    → All (λ q. zscore q (s.zsets active) ≡ none) qs
All-free s [] a = tt
All-free s (q ∷ qs) ((c, t, score, rest, k), a) = (k.free, All-free s qs a)

start_documented :
    (n : ℕ) (s : Keyspace)
    → IsConsistent s
    → let (reply, u) = start documented n s in (ts : List Text) × StartEffect n s ts reply u
unfolding start zdiff
start_documented n s h =
    let qs = taken_by_start n s in
    let d =
      take-IsDistinct n _
        (zdifference-IsDistinct (s.zsets ready) (s.zsets active) h.nearly.ready_unique) in
    let a =
      All-take (IsStartable s) n _
        (zdifference-All-IsStartable s h (s.zsets ready) (λ q i. i) h.nearly.ready_unique) in
    let (ts, e, near, started) = take_queues-Started s qs h.nearly d a in
    rw (clean_up-ok ts (take_queues documented qs s) e) (
      ts,
      record {
        answers = refl;
        started = clean-Started s _ qs ts started;
        one_each = d;
        were_free = All-free s qs a;
        at_most = omega (
          arith,
          length-answers (λ q. first_text s q) qs ts started.answers,
          length-take-le n (zdifference (s.zsets ready) (s.zsets active)),
        );
        consistent = clean-IsConsistent _ near;
      },
    )

-- On consistent keys `start` never fails: it answers the latest texts of the first refs of at most
-- `n` queues, all of them different and with free slots, notes each as its queue's running job,
-- takes it out of its queue, changes no other slot or queue, and leaves the keys consistent.
pub start-StartEffect :
    (r : Redis) (n : ℕ) (s : Keyspace)
    → IsConsistent s
    → let (reply, u) = start r n s in (ts : List Text) × StartEffect n s ts reply u
start-StartEffect r n s h =
    of_documented (λ r. (ts : List Text) × StartEffect n s ts (start r n s).0 (start r n s).1)
      (start_documented n s h) r
