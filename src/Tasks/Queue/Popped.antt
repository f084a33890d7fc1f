-- ===== src/Tasks/Queue/Popped.antt =====
-- A task whose time has come is returned with the data that was given for it.
use common_build.Common.{
  ◌≡◌, refl, sym, ap, ◌∙◌, List, [], ◌∷◌, All, Elem, Bool, true, false, ℕ, ◌≤◌, ◌<◌, Bool-cases,
  inl, inr, keep, length, arith, ◌&&◌,
}
use common_build.Common.Text.{Text, ◌==◌, eq_sound, eq-true}
use common_build.Common.Int.{ℤ, pos, le_int}
use common_build.Tasks.Time.{Time, Duration, add_duration}
use common_build.Redis.Commands.{is_some, zinsert, zremove}
use common_build.Tasks.Commands.{
  TaskStore, set_at, same_task_key, del, zadd, zrem, handled_key, entry_key, data_key, zrange,
  zrange_by_score, set_nx,
}
use common_build.Tasks.Redis.{TaskRedis, documented, of_documented}
use common_build.Tasks.Queue.{
  Entry, Entries, cons_if, upsert, take_one, take_all, remove_all, take_expired, read_expired,
  pop_expired,
}
use common_build.Tasks.Queue.Handled.{is_handled, take_one-handled, take_one-to_be_handled}
use common_build.Tasks.Queue.Members.{
  members, Elem-zinsert-own, length-zinsert, length-zremove, zremove-removed, Elem-members,
  Elem-keep, length-keep-le, length-members, take-all, All-zremove, Elem-zadd, All-tabulate,
}

take_one-sorted : (u : Text) (s : TaskStore) → (take_one documented u s).1.sorted ≡ s.sorted
unfolding take_one set_nx
take_one-sorted u s = elim (Bool-cases (is_some (s.strings (handled_key u)))) [
  | inl h ↦ rw h refl
  | inr h ↦ rw h refl
]

-- The entry of a task that is not handled.
pub record Returned (uid : Text) (payload : List Text) (entries : List Entry) : Type 0 where
  pub entry : Entry
  pub there : Elem entry entries
  pub same_uid : entry.uid ≡ uid
  pub same_payload : entry.payload ≡ payload

later_entry :
    (b : Bool) (e : Entry) (es : List Entry) (uid : Text) (payload : List Text)
    → Returned uid payload es
    → Returned uid payload (cons_if b e es)
later_entry true e es uid payload r = record {
  entry = r.entry;
  there = inr r.there;
  same_uid = r.same_uid;
  same_payload = r.same_payload;
}
later_entry false e es uid payload r = r

take_one-payload :
    (u : Text) (s : TaskStore) → (take_one documented u s).0.1.payload ≡ zrange (data_key u) 1001 s
unfolding take_one
take_one-payload u s = refl

own_entry :
    (u : Text) (s : TaskStore) (es : List Entry)
    → is_handled u s ≡ false
    → Returned u
        (zrange (data_key u) 1001 s)
        (cons_if (take_one documented u s).0.0 (take_one documented u s).0.1 es)
own_entry u s es h =
    let (fresh, uid) = take_one-to_be_handled u s in
    rw (fresh, h)
      record {
        entry = (take_one documented u s).0.1;
        there = inl refl;
        same_uid = uid;
        same_payload = take_one-payload u s;
      }

later_member :
    (u uid : Text) (uids : List Text) → (u == uid) ≡ false → Elem uid (u ∷ uids) → Elem uid uids
later_member u uid uids other (inl e) = let same = eq-true u in let moved = ap (λ w. u == w) e in cc
later_member u uid uids other (inr h) = h

take_all-Returned :
    (uids : List Text) (uid : Text) (s : TaskStore)
    → Elem uid uids
    → is_handled uid s ≡ false
    → Returned uid (zrange (data_key uid) 1001 s) (take_all documented uids s).0
unfolding take_all zrange take_one
take_all-Returned [] uid s e h = elim e [ ]
take_all-Returned (u ∷ uids) uid s e h = elim (Bool-cases (u == uid)) [
  | inl same ↦
      rw (sym (eq_sound u uid same))
        (own_entry u s _ (ap (λ w. is_handled w s) (eq_sound u uid same) ∙ h))
  | inr other ↦
      let later =
        take_all-Returned uids uid (take_one documented u s).1 (later_member u uid uids other e)
          (take_one-handled u uid s ∙ rw (h, other) refl) in
      later_entry _ _ _ uid _ (rw (take_one-sorted u s) at later)
]

All-remove_all :
    (P : Text → Type 0) (uids : List Text) (s : TaskStore)
    → All P (members (s.sorted entry_key))
    → All P (members ((remove_all documented uids s).sorted entry_key))
unfolding remove_all zrem set_at same_task_key
All-remove_all P [] s h = h
All-remove_all P (u ∷ uids) s h =
    All-remove_all P uids (zrem entry_key u s) (All-zremove P u (s.sorted entry_key) h)

remove_all-sorted :
    (uids : List Text) (uid : Text) (s : TaskStore)
    → Elem uid uids
    → All (λ n. (n == uid) ≡ false) (members ((remove_all documented uids s).sorted entry_key))
unfolding remove_all zrem set_at same_task_key
remove_all-sorted [] uid s h = elim h [ ]
remove_all-sorted (u ∷ uids) uid s (inl e) =
    rw e (All-remove_all _ uids (zrem entry_key u s) (zremove-removed u (s.sorted entry_key)))
remove_all-sorted (u ∷ uids) uid s (inr h) = remove_all-sorted uids uid (zrem entry_key u s) h

-- What `popExpired` gives for a task that `upsert` entered: its entry, with the data and all
-- that were kept of it before, and the task no longer waits.
pub record PopEffect (uid payload : Text) (s : TaskStore) (popped : Entries × TaskStore)
    : Type 0 where
  pub entry : Entry
  pub there : Elem entry popped.0.entries
  pub same_uid : entry.uid ≡ uid
  pub new_payload : Elem payload entry.payload
  pub earlier : All (λ d. Elem d entry.payload) (members (s.sorted (data_key uid)))
  pub removed : All (λ n. (n == uid) ≡ false) (members (popped.1.sorted entry_key))

-- A task in the reading of a round trip that is not handled
take_expired-Returned :
    (max_count : ℕ) (uids : List Text) (uid : Text) (s : TaskStore)
    → Elem uid uids
    → is_handled uid s ≡ false
    → Returned uid
        (zrange (data_key uid) 1001 s)
        (take_expired documented max_count uids s).0.entries
      × All
          (λ n. (n == uid) ≡ false)
          (members ((take_expired documented max_count uids s).1.sorted entry_key))
unfolding take_expired
take_expired-Returned max_count [] uid s e h = elim e [ ]
take_expired-Returned max_count (u ∷ uids) uid s e h =
    (take_all-Returned (u ∷ uids) uid s e h, remove_all-sorted (u ∷ uids) uid _ e)

module _ (max_count : ℕ) (now until : Time) (rank : ℕ) (uid : Text) (wait : Duration)
    (payload : Text) (s : TaskStore) where
  abbrev upserted : TaskStore
  upserted = upsert documented now rank uid wait payload s

  upserted-is_handled : is_handled uid upserted ≡ false
  unfolding upsert del zadd set_at same_task_key
  upserted-is_handled = rw (eq-true uid) refl

  abbrev entry : Text × ℤ
  entry = (uid, pos (add_duration now wait).epoch_ms)

  abbrev waiting : List (Text × ℤ)
  waiting = zinsert entry (zremove uid (s.sorted entry_key))

  abbrev in_time : Text × ℤ → Bool
  in_time e = le_int (pos 0) e.1 && le_int e.1 (pos until.epoch_ms)

  upserted-read :
      (add_duration now wait).epoch_ms ≤ until.epoch_ms
      → length (s.sorted entry_key) < max_count
      → Elem uid (read_expired documented max_count until upserted)
  unfolding upsert del zadd set_at same_task_key read_expired zrange_by_score
  upserted-read due few =
      rw
        (take-all max_count (members (keep in_time waiting)) (
          omega (
            arith,
            few,
            length-members (keep in_time waiting),
            length-keep-le in_time waiting,
            length-zinsert entry (zremove uid (s.sorted entry_key)),
            length-zremove uid (s.sorted entry_key),
          )))
        (Elem-members entry (keep in_time waiting) (
          Elem-keep in_time entry waiting (ground arith)
            (Elem-zinsert-own entry (zremove uid (s.sorted entry_key)))))

  abbrev kept : List (Text × ℤ)
  kept = zinsert (payload, pos rank) (zremove payload (s.sorted (data_key uid)))

  upserted-payload :
      length (s.sorted (data_key uid)) < 1001 → zrange (data_key uid) 1001 upserted ≡ members kept
  unfolding upsert del zadd set_at same_task_key zrange
  upserted-payload few = rw (eq-true uid) (
      take-all 1001 (members kept) (
        omega (
          arith,
          few,
          length-members kept,
          length-zinsert (payload, pos rank) (zremove payload (s.sorted (data_key uid))),
          length-zremove payload (s.sorted (data_key uid)),
        )))

  upsert-pop_documented :
      (add_duration now wait).epoch_ms ≤ until.epoch_ms
      → length (s.sorted entry_key) < max_count
      → length (s.sorted (data_key uid)) < 1001
      → PopEffect uid payload s (pop_expired documented max_count until upserted)
  unfolding pop_expired
  upsert-pop_documented due few few_kept =
      let (returned, removed) =
        take_expired-Returned max_count (read_expired documented max_count until upserted) uid
          upserted (upserted-read due few) upserted-is_handled in
      let same = returned.same_payload ∙ upserted-payload few_kept in
      record {
        entry = returned.entry;
        there = returned.there;
        same_uid = returned.same_uid;
        new_payload = rw same (
            Elem-members (payload, pos rank) kept
              (Elem-zinsert-own (payload, pos rank) (zremove payload (s.sorted (data_key uid)))));
        earlier = rw same (
            All-tabulate _ (members (s.sorted (data_key uid)))
              (λ m h. Elem-zadd payload m (pos rank) (s.sorted (data_key uid)) h));
        removed = removed;
      }

-- A task that `upsert` entered is returned by a `popExpired` at a time when its wait is over, if no
-- other call comes between, fewer tasks wait than are asked for, and fewer than 1001 data are kept
-- of the task: it is returned with the new datum, and then no longer waits. It is also returned
-- with every datum that earlier calls had given it: taking a task does not empty its data.
pub upsert-pop_expired :
    (redis : TaskRedis) (max_count : ℕ) (now until : Time) (rank : ℕ) (uid : Text) (wait : Duration)
    (payload : Text) (s : TaskStore)
    → (add_duration now wait).epoch_ms ≤ until.epoch_ms
    → length (s.sorted entry_key) < max_count
    → length (s.sorted (data_key uid)) < 1001
    → PopEffect uid payload s
        (pop_expired redis max_count until (upsert redis now rank uid wait payload s))
upsert-pop_expired redis max_count now until rank uid wait payload s due few few_kept =
    of_documented
      (λ r.
        PopEffect uid payload s
          (pop_expired r max_count until (upsert r now rank uid wait payload s)))
      (upsert-pop_documented max_count now until rank uid wait payload s due few few_kept) redis
