-- ===== src/Queue/Scripts.antt =====
-- backend/lua/push.lua, start.lua and complete.lua: the scripts that Redis runs one at a time. A
-- local queue is named by the text of its key. `SET … GET` is a read and a write, and `HMGET` and
-- `HMSET` are one command for each field.
pub mod Consistent
pub mod Push
pub mod Effects
pub mod Start
pub mod Loop
pub mod Startable
pub mod Histories
use common_build.Common.{
  ℕ, Bool, true, false, List, [], ◌∷◌, Option, none, some, if◌then◌else◌, take,
}
use common_build.Common.Text.{Text, codes, ◌==◌}
use common_build.Common.Result.{Result, ok, err}
use common_build.Common.Int.{ℤ, pos, negsuc}
use common_build.Redis.{Redis, Keyspace, ready, active, local, local_active, last_canonical}
use common_build.Redis.Commands.{is_some}

abbrev pub canonical_field : Text
canonical_field = codes "canonical"

abbrev pub serialized_field : Text
serialized_field = codes "serialized"

-- What push.lua returns: the size of the local queue, the text to cancel and the one to abort.
pub record PushReply : Type 0 where
  pub local_queue_size : ℕ
  pub cancel : Option Text
  pub abort : Option Text

-- `activeRef and activeRef[1] == canonicalRef`
abbrev pub holds : Option Text → Text → Bool
holds none t = false
holds (some s) t = s == t

module _ (redis : Redis) where
  open redis use {
    get, set, del, hget, hset, zadd, zadd_nx, zincrby, zrem, zcard, zdiff, zpopmin,
    zremrangebyscore_to_0,
  }

  -- The entry of the new ref: its place in the local queue, its latest text, and the count of
  -- pending refs in the ready queue.
  unfoldable pub enqueue : Text → Text → Text → ℤ → Keyspace → Keyspace
  enqueue q serialized canonical score s =
      let s₁ = zadd_nx (local q) score canonical s in
      let outdated = get (last_canonical q canonical) s₁ in
      let s₂ = set (last_canonical q canonical) serialized s₁ in
      if is_some outdated then s₂ else zincrby ready (pos 1) q s₂

  -- The slot of the local queue is given free.
  unfoldable pub vacate : Text → Keyspace → Keyspace
  vacate q s = zrem active q (del (local_active q) s)

  unfoldable pub push : Text → Text → Text → ℤ → Keyspace → PushReply × Keyspace
  push q serialized canonical score s =
      let s₁ = zadd_nx (local q) score canonical s in
      let size = zcard (local q) s₁ in
      let outdated = get (last_canonical q canonical) s₁ in
      let s₃ = enqueue q serialized canonical score s in
      let executing = hget (local_active q) canonical_field s₃ in
      let abort = hget (local_active q) serialized_field s₃ in
      if holds executing canonical
      then (record { local_queue_size = size; cancel = outdated; abort = abort }, vacate q s₃)
      else (record { local_queue_size = size; cancel = outdated; abort = none }, s₃)

  -- `HMSET` of the two fields
  unfoldable pub occupy : Text → Text → Text → Keyspace → Keyspace
  occupy q canonical serialized s =
      hset (local_active q) serialized_field serialized
        (hset (local_active q) canonical_field canonical s)

  -- The command fails on a text that is not there, which stops the script.
  unfoldable pub activate : Text → Text → Option Text → Keyspace → Result Text × Keyspace
  activate q canonical none s =
      (err (codes "Lua redis() command arguments must be strings or integers"), s)
  activate q canonical (some serialized) s = (ok serialized, occupy q canonical serialized s)

  -- `takeQueue` from `ZPOPMIN` on: with no ref in the queue it adds nothing to the result.
  unfoldable pub take_ref : Text → Option Text → Keyspace → Option (Result Text) × Keyspace
  take_ref q none s = (none, s)
  take_ref q (some canonical) s =
      let serialized = get (last_canonical q canonical) s in
      let (reply, s') = activate q canonical serialized (del (last_canonical q canonical) s) in
      (some reply, s')

  unfoldable pub take_queue : Text → Keyspace → Option (Result Text) × Keyspace
  take_queue q s =
      let s₁ = zincrby ready (negsuc 0) q s in
      let s₂ = zadd active (pos 1) q s₁ in
      let popped = zpopmin (local q) s₂ in take_ref q popped.0 popped.1

  -- What one round adds to `result`; an error ends the script with the writes made so far.
  unfoldable pub add_reply :
      Option (Result Text)
      → Result (List Text) × Keyspace
      → Keyspace
      → Result (List Text) × Keyspace
  add_reply none later s = later
  add_reply (some (err e)) later s = (err e, s)
  add_reply (some (ok t)) (ok ts, s') s = (ok (t ∷ ts), s')
  add_reply (some (ok t)) (err e, s') s = (err e, s')

  unfoldable pub take_queues : List Text → Keyspace → Result (List Text) × Keyspace
  take_queues [] s = (ok [], s)
  take_queues (q ∷ qs) s =
      let taken = take_queue q s in add_reply taken.0 (take_queues qs taken.1) taken.1

  -- The ready queue is cleaned where the loop came to its end.
  unfoldable pub clean_up : Result (List Text) × Keyspace → Result (List Text) × Keyspace
  clean_up (ok ts, s) = (ok ts, zremrangebyscore_to_0 ready s)
  clean_up (err e, s) = (err e, s)

  unfoldable pub start : ℕ → Keyspace → Result (List Text) × Keyspace
  start max_count s = clean_up (take_queues (take max_count (zdiff ready active s)) s)

  unfoldable pub complete : Text → Text → Keyspace → Bool × Keyspace
  complete q serialized s =
      if holds (hget (local_active q) serialized_field s) serialized
      then (true, vacate q s)
      else (false, s)
