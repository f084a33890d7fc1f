-- ===== src/Queue/Scripts/Loop.antt =====
-- `start`: the loop over the queues that can start, and the whole script.
use mathlib.Core.Path.{subst}
use common_build.Common.{
  Bool, false, List, [], ◌∷◌, Option, none, some, ◌≡◌, refl, arith, Bool-cases, inl, inr,
  if◌then◌else◌, All, sym, map, any, ◌∙◌,
}
use common_build.Common.Text.{Text, eq_iff, eq-true, ◌==◌}
use common_build.Common.Int.{ℤ}
use common_build.Common.Result.{Result, ok, err}
use common_build.Redis.{Keyspace, local, local_active, last_canonical}
use common_build.Redis.Laws.{documented}
use common_build.Queue.Scripts.{take_queue, take_queues, add_reply, serialized_field}
use common_build.Queue.Scripts.Consistent.{IsNearlyConsistent}
use common_build.Queue.Scripts.Start.{
  CanStart, take_queue-reply, take_queue-local, take_queue-active, take_queue-strings,
  take_queue-hash, take_queue-IsNearlyConsistent,
}

-- The latest text of the ref that stands first in a local queue.
abbrev pub text_of_first : Keyspace → Text → List (Text × ℤ) → Option Text
text_of_first s q [] = none
text_of_first s q ((c, _) ∷ _) = s.strings (last_canonical q c)

abbrev pub first_text : Keyspace → Text → Option Text
first_text s q = text_of_first s q (s.zsets (local q))

abbrev pub tail {ℓ} : {A : Type ℓ} → List A → List A
tail [] = []
tail (_ ∷ xs) = xs

abbrev pub among : Text → List Text → Bool
among p qs = any (λ q. q == p) qs

-- No text stands twice in the list.
abbrev pub IsDistinct : List Text → Type 0
IsDistinct [] = Unit
IsDistinct (q ∷ qs) = (among q qs ≡ false) × IsDistinct qs

-- A queue whose slot is free and in which a ref waits.
abbrev pub IsStartable : Keyspace → Text → Type 0
IsStartable s q =
    (c t : Text) × (score : ℤ) × (rest : List (Text × ℤ)) × CanStart s q c t score rest

-- What a run of `start` over the queues `qs` leaves: it answers their first refs' texts, each of
-- them is noted as the running job of its queue and leaves the queue, and nothing else changes.
pub record Started (s : Keyspace) (qs : List Text) (ts : List Text) (t : Keyspace) : Type 0 where
  pub answers : map (λ q. first_text s q) qs ≡ map some ts
  pub waiting :
      (p : Text)
      → t.zsets (local p) ≡ (if among p qs then tail (s.zsets (local p)) else s.zsets (local p))
  pub slots :
      (p : Text)
      → t.hashes (local_active p) serialized_field
        ≡ (if among p qs then first_text s p else s.hashes (local_active p) serialized_field)

IsStartable-later :
    (s : Keyspace) (h : IsNearlyConsistent s) (q p : Text) {c t : Text} {score : ℤ}
    {rest : List (Text × ℤ)} (k : CanStart s q c t score rest)
    → (q == p) ≡ false
    → IsStartable s p
    → IsStartable (take_queue documented q s).1 p
IsStartable-later s h q p k n (d, u, score', rest', k') = (
  d,
  u,
  score',
  rest',
  record {
    free = rw (take_queue-active s h k p, n) k'.free;
    first = rw (take_queue-local s h k p, n) k'.first;
    text = rw (take_queue-strings s h k p d, n) k'.text;
  },
)

All-IsStartable_later :
    (s : Keyspace) (h : IsNearlyConsistent s) (q : Text) {c t : Text} {score : ℤ}
    {rest : List (Text × ℤ)} (k : CanStart s q c t score rest) (qs : List Text)
    → among q qs ≡ false
    → All (IsStartable s) qs
    → All (IsStartable (take_queue documented q s).1) qs
All-IsStartable_later s h q k [] n a = tt
All-IsStartable_later s h q k (p ∷ qs) n (a, as') = (
  IsStartable-later s h q p k (ground (arith, eq_iff q p, eq_iff p q)) a,
  All-IsStartable_later s h q k qs (ground arith) as',
)

text_of_first_later :
    (s : Keyspace) (h : IsNearlyConsistent s) (q p : Text) {c t : Text} {score : ℤ}
    {rest : List (Text × ℤ)} (k : CanStart s q c t score rest) (l : List (Text × ℤ))
    → (q == p) ≡ false
    → text_of_first (take_queue documented q s).1 p l ≡ text_of_first s p l
text_of_first_later s h q p k [] n = refl
text_of_first_later s h q p k ((d, _) ∷ l) n = rw (take_queue-strings s h k p d, n) refl

first_text_later :
    (s : Keyspace) (h : IsNearlyConsistent s) (q p : Text) {c t : Text} {score : ℤ}
    {rest : List (Text × ℤ)} (k : CanStart s q c t score rest)
    → (q == p) ≡ false
    → first_text (take_queue documented q s).1 p ≡ first_text s p
first_text_later s h q p k n =
    rw (take_queue-local s h k p, n) (text_of_first_later s h q p k (s.zsets (local p)) n)

map-first_text_later :
    (s : Keyspace) (h : IsNearlyConsistent s) (q : Text) {c t : Text} {score : ℤ}
    {rest : List (Text × ℤ)} (k : CanStart s q c t score rest) (qs : List Text)
    → among q qs ≡ false
    → map (λ p. first_text (take_queue documented q s).1 p) qs ≡ map (λ p. first_text s p) qs
map-first_text_later s h q k [] n = refl
map-first_text_later s h q k (p ∷ qs) n =
    let here = first_text_later s h q p k (ground (arith, eq_iff q p, eq_iff p q)) in
    let later = map-first_text_later s h q k qs (ground arith) in cc (here, later)

add_reply-ok :
    (t : Text) (ts : List Text) (later : Result (List Text) × Keyspace) (s : Keyspace)
    → later.0 ≡ ok ts
    → add_reply documented (some (ok t)) later s ≡ (ok (t ∷ ts), later.1)
unfolding add_reply
add_reply-ok t ts (ok us, s') s e = ground arith
add_reply-ok t ts (err m, s') s e = cc

module _ (s : Keyspace) (h : IsNearlyConsistent s) (q : Text) (qs : List Text) {c t : Text}
    {score : ℤ} {rest : List (Text × ℤ)} (k : CanStart s q c t score rest) (n : among q qs ≡ false)
    (ts : List Text) (u : Keyspace) (later : Started (take_queue documented q s).1 qs ts u) where
  Started-waiting :
      (p : Text)
      → u.zsets (local p)
        ≡ (if among p (q ∷ qs) then tail (s.zsets (local p)) else s.zsets (local p))
  Started-waiting p = elim (Bool-cases (q == p)) [
    | inl e ↦
        subst
          (λ p.
            u.zsets (local p)
            ≡ (if among p (q ∷ qs) then tail (s.zsets (local p)) else s.zsets (local p)))
          ((eq_iff q p).0 e)
          (ground (arith, later.waiting q, take_queue-local s h k q, n, eq-true q, k.first))
    | inr e ↦ ground (arith, later.waiting p, take_queue-local s h k p, e)
  ]

  Started-slots :
      (p : Text)
      → u.hashes (local_active p) serialized_field
        ≡ (if among p (q ∷ qs) then first_text s p else s.hashes (local_active p) serialized_field)
  Started-slots p = elim (Bool-cases (q == p)) [
    | inl e ↦
        subst
          (λ p. u.hashes (local_active p) serialized_field ≡ (
            if among p (q ∷ qs)
            then first_text s p
            else s.hashes (local_active p) serialized_field))
          ((eq_iff q p).0 e)
          (ground (arith, later.slots q, take_queue-hash s h k q, n, eq-true q, k.first, k.text))
    | inr e ↦
        ground (arith, later.slots p, take_queue-hash s h k p, first_text_later s h q p k e, e)
  ]

  Started-cons : Started s (q ∷ qs) (t ∷ ts) u
  Started-cons = record {
    answers =
        let first : first_text s q ≡ some t = ground (arith, k.first, k.text) in
        let others = sym (map-first_text_later s h q k qs n) ∙ later.answers in cc (first, others);
    waiting = Started-waiting;
    slots = Started-slots;
  }

-- The loop answers, stays nearly consistent, and starts what it is given.
pub take_queues-Started :
    (s : Keyspace) (qs : List Text)
    → IsNearlyConsistent s
    → IsDistinct qs
    → All (IsStartable s) qs
    → let (reply, u) = take_queues documented qs s in
      (ts : List Text) × (reply ≡ ok ts) × IsNearlyConsistent u × Started s qs ts u
unfolding take_queues
take_queues-Started s [] h d a =
    ([], refl, h, record { answers = refl; waiting = λ p. refl; slots = λ p. refl })
take_queues-Started s (q ∷ qs) h (n, d) ((c, t, score, rest, k), a) =
    let (ts, e, near, later) =
      take_queues-Started (take_queue documented q s).1 qs (take_queue-IsNearlyConsistent s h k) d
        (All-IsStartable_later s h q k qs n a) in
    let result =
      add_reply-ok t ts (take_queues documented qs (take_queue documented q s).1)
        (take_queue documented q s).1 e in
    rw (take_queue-reply s h k, result) (t ∷ ts, refl, near, Started-cons s h q qs k n ts _ later)
