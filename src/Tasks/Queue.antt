-- ===== src/Tasks/Queue.antt =====
-- backend/src/task-queue/task-queue-impl.ts: tasks that wait for their time in Redis, and the data
-- that is kept of each. `popExpired` is two round trips, so that other calls can come between them:
-- `read_expired` and `take_expired`.
pub mod Handled
pub mod Calls
pub mod Members
pub mod Popped
use common_build.Common.{ℕ, ◌+◌, Bool, List, [], ◌∷◌, ◌||◌, not, false, length, if◌then◌else◌, ◌==◌}
use common_build.Common.Text.{Text, codes}
use common_build.Common.Int.{pos}
use common_build.Tasks.Time.{Duration, Time, add_duration}
use common_build.Tasks.Commands.{TaskStore, entry_key, data_key, handled_key}
use common_build.Tasks.Redis.{TaskRedis}

-- `TaskQueue.Entry`, whose `data` is `payload` here, and `TaskQueue.Entries`
pub record Entry : Type 0 where
  pub uid : Text
  pub payload : List Text

pub record Entries : Type 0 where
  pub entries : List Entry
  pub has_more : Bool

abbrev pub cons_if : Bool → Entry → List Entry → List Entry
cons_if to_be_handled entry entries = if to_be_handled then entry ∷ entries else entries

module _ (redis : TaskRedis) where
  -- `upsert`, at a time of `Time.now()`, with the score that the time provider gives to the data
  unfoldable pub upsert : Time → ℕ → Text → Duration → Text → TaskStore → TaskStore
  upsert now rank uid wait payload s = redis.del (handled_key uid) (
      redis.zadd (data_key uid) (pos rank) payload
        (redis.zadd entry_key (pos (add_duration now wait).epoch_ms) uid s))

  -- The first round trip of `popExpired`
  unfoldable pub read_expired : ℕ → Time → TaskStore → List Text
  read_expired max_count until s =
      redis.zrange_by_score entry_key (pos 0) (pos until.epoch_ms) max_count s

  -- One task of the transaction: its data are read, and its flag is set.
  unfoldable pub take_one : Text → TaskStore → (Bool × Entry) × TaskStore
  take_one uid s =
      let payload = redis.zrange (data_key uid) 1001 s in
      let (to_be_handled, s') = redis.set_nx (handled_key uid) (codes "dummy") s in
      ((to_be_handled, record { uid = uid; payload = payload }), s')

  unfoldable pub take_all : List Text → TaskStore → List Entry × TaskStore
  take_all [] s = ([], s)
  take_all (uid ∷ uids) s =
      let (one, s₁) = take_one uid s in
      let (entries, s₂) = take_all uids s₁ in (cons_if one.0 one.1 entries, s₂)

  unfoldable pub remove_all : List Text → TaskStore → TaskStore
  remove_all [] s = s
  remove_all (uid ∷ uids) s = remove_all uids (redis.zrem entry_key uid s)

  -- The second round trip
  unfoldable pub take_expired : ℕ → List Text → TaskStore → Entries × TaskStore
  take_expired max_count [] s = (record { entries = []; has_more = false }, s)
  take_expired max_count (uid ∷ uids) s =
      let (entries, s₁) = take_all (uid ∷ uids) s in
      let s₂ = remove_all (uid ∷ uids) s₁ in
      (
        record {
          entries = entries;
          has_more =
              not (length entries == length (uid ∷ uids)) || (length (uid ∷ uids) == max_count);
        },
        s₂,
      )

  -- `popExpired`, when nothing comes between its round trips
  unfoldable pub pop_expired : ℕ → Time → TaskStore → Entries × TaskStore
  pop_expired max_count until s = take_expired max_count (read_expired max_count until s) s
