-- ===== src/Tasks/Queue/Calls.antt =====
-- The calls of several processes on one queue, in whatever order their round trips come.
use common_build.Common.{
  Bool-cases, inl, inr, ◌≡◌, refl, ap, ◌∙◌, List, [], ◌∷◌, All, All-imp, All-Elem, Elem, Bool, true,
  false, ℕ,
}
use common_build.Common.Text.{Text, ◌==◌, eq_sound}
use common_build.Tasks.Time.{Time, Duration}
use common_build.Tasks.Commands.{TaskStore, set_at, same_task_key, del, zadd, zrem, entry_key}
use common_build.Tasks.Redis.{TaskRedis, documented, of_documented}
use common_build.Tasks.Queue.{Entry, upsert, remove_all, take_expired}
use common_build.Tasks.Queue.Handled.{is_handled, take_all-keeps, take_all-IsTaken, IsTaken}

-- A round trip that changes the store: `upsert`, or the second one of `popExpired`, on the tasks
-- that the first one read at some time before.
pub data Call : Type 0 where
  upserted : Time → ℕ → Text → Duration → Text → Call
  taken : ℕ → List Text → Call

unfoldable pub call : TaskRedis → Call → TaskStore → TaskStore
call redis (upserted now rank uid wait payload) s = upsert redis now rank uid wait payload s
call redis (taken max_count uids) s = (take_expired redis max_count uids s).1

unfoldable pub run : TaskRedis → List Call → TaskStore → TaskStore
run redis [] s = s
run redis (c ∷ cs) s = run redis cs (call redis c s)

unfoldable pub upserts : Text → Call → Bool
upserts v (upserted now rank uid wait payload) = uid == v
upserts v (taken max_count uids) = false

remove_all-is_handled :
    (uids : List Text) (v : Text) (s : TaskStore)
    → is_handled v (remove_all documented uids s) ≡ is_handled v s
unfolding remove_all zrem
remove_all-is_handled [] v s = refl
remove_all-is_handled (u ∷ uids) v s = remove_all-is_handled uids v (zrem entry_key u s)

take_expired-keeps :
    (max_count : ℕ) (uids : List Text) (v : Text) (s : TaskStore)
    → is_handled v s ≡ true
    → is_handled v (take_expired documented max_count uids s).1 ≡ true
unfolding take_expired
take_expired-keeps max_count [] v s h = h
take_expired-keeps max_count (u ∷ uids) v s h =
    remove_all-is_handled (u ∷ uids) v _ ∙ take_all-keeps (u ∷ uids) v s h

pub take_expired-IsTaken :
    (max_count : ℕ) (uids : List Text) (s : TaskStore)
    → All
        (IsTaken s (take_expired documented max_count uids s).1)
        (take_expired documented max_count uids s).0.entries
unfolding take_expired
take_expired-IsTaken max_count [] s = tt
take_expired-IsTaken max_count (u ∷ uids) s =
    All-imp (λ e h. (h.0, remove_all-is_handled (u ∷ uids) e.uid _ ∙ h.1)) _
      (take_all-IsTaken (u ∷ uids) s)

call-keeps :
    (c : Call) (v : Text) (s : TaskStore)
    → upserts v c ≡ false
    → is_handled v s ≡ true
    → is_handled v (call documented c s) ≡ true
unfolding call upserts upsert del zadd set_at same_task_key
call-keeps (upserted now rank uid wait payload) v s other h = rw other h
call-keeps (taken max_count uids) v s other h = take_expired-keeps max_count uids v s h

run-keeps :
    (cs : List Call) (v : Text) (s : TaskStore)
    → All (λ c. upserts v c ≡ false) cs
    → is_handled v s ≡ true
    → is_handled v (run documented cs s) ≡ true
unfolding run
run-keeps [] v s others h = h
run-keeps (c ∷ cs) v s (other, others) h =
    run-keeps cs v (call documented c s) others (call-keeps c v s other h)

other_task :
    (u v : Text) (s : TaskStore) → is_handled v s ≡ true → is_handled u s ≡ false → (u == v) ≡ false
other_task u v s h k = elim (Bool-cases (u == v)) [
  | inl e ↦ let same = ap (λ w. is_handled w s) (eq_sound u v e) in cc
  | inr e ↦ e
]

-- A task that one call of `popExpired` returned is returned by no later one, whatever tasks that one
-- had read before, and whatever calls come between that do not `upsert` the same task again: of two
-- processes that read the same expired task at most one handles it, in every interleaving of their
-- round trips with each other's and with others' in which the task is not upserted in between.
-- Flags do not expire here.
pub taken_once :
    (redis : TaskRedis) (max_count : ℕ) (uids : List Text) (s : TaskStore) (e : Entry)
    (calls : List Call) (other_max : ℕ) (others : List Text)
    → Elem e (take_expired redis max_count uids s).0.entries
    → All (λ c. upserts e.uid c ≡ false) calls
    → All
        (λ e'. (e'.uid == e.uid) ≡ false)
        (take_expired redis other_max others
          (run redis calls (take_expired redis max_count uids s).1)).0.entries
taken_once redis max_count uids s e calls other_max others =
    of_documented
      (λ r.
        Elem e (take_expired r max_count uids s).0.entries
        → All (λ c. upserts e.uid c ≡ false) calls
        → All (λ e'. (e'.uid == e.uid) ≡ false)
            (take_expired r other_max others
              (run r calls (take_expired r max_count uids s).1)).0.entries)
      (λ taken_e none_upserts.
        let handled =
          run-keeps calls e.uid (take_expired documented max_count uids s).1 none_upserts
            (All-Elem _ _ (take_expired-IsTaken max_count uids s) taken_e).1 in
        All-imp
          (λ e' h.
            other_task e'.uid e.uid
              (run documented calls (take_expired documented max_count uids s).1) handled h.0)
          _
          (take_expired-IsTaken other_max others
            (run documented calls (take_expired documented max_count uids s).1)))
      redis
