-- ===== src/Cynosure/Poll/Restarted.antt =====
-- An abort that was stored stays with the job, also when the job is started again.
use mathlib.Core.Path.{subst}
use common_build.Common.{
  ◌≡◌, refl, sym, ap, ◌∙◌, ℕ, ◌≤◌, ◌<◌, List, [], ◌∷◌, All-append, All-Elem, Elem, Option, none,
  some, length,
}
use common_build.Common.Text.{Text}
use common_build.Common.Result.{Result, ok, err}
use common_build.Domain.JobRef.{JobKey, deserialize_key, serialize_key}
use common_build.Tasks.Time.{Time, add_duration, no_duration}
use common_build.Tasks.Commands.{TaskStore, entry_key, data_key}
use common_build.Tasks.Redis.{TaskRedis}
use common_build.Tasks.Queue.{Entry}
use common_build.Tasks.Queue as Tasks
use common_build.Tasks.Queue.Members.{members}
use common_build.Tasks.Queue.Popped.{upsert-pop_expired}
use common_build.Cynosure.States.{Json, JobState, job_queued, job_abort, serialize}
use common_build.Cynosure.Acts.{Connector}
use common_build.Cynosure.Executor.{TaskQueue, reverse_onto, deserialize_states}
use common_build.Cynosure.Executor.Aborts.{advances, IsStill, step-IsStill}
use common_build.Cynosure.Poll.Stored.{read_state, Elem-reverse_onto, last_abort-some}
use common_build.Cynosure.Poll.Aborted.{IsReaborted, handle_entries-IsReaborted}
use common_build.Cynosure.Executor.Continues.{IsAccepting}
use common_build.Domain.JobRef.RoundTrip.{IsStorable, deserialize_key-serialize_key}
use common_build.Cynosure.Poll.{
  Connectors, stepped, with_connector, with_key, handle_entry, begun, handle_entries,
}

module _ (json : Json) (tasks : TaskQueue) (connectors : Connectors) where
  stepped-IsStill :
      (connector : Connector) (uid reason : Text) (key : JobKey) (texts : List Text)
      (states : Result (List JobState))
      → deserialize_states json texts ≡ states
      → Elem (serialize json (job_abort reason)) texts
      → IsStill
          (begun json tasks connectors
            (stepped json tasks connectors connector uid key states)
            ([], ok tt)).0
  stepped-IsStill connector uid reason key texts (err m) h e = tt
  stepped-IsStill connector uid reason key texts (ok states) h e =
      let there =
        Elem-reverse_onto (job_abort reason) states []
          (read_state json (job_abort reason) texts states e h) in
      let (r, aborted) = last_abort-some reason (reverse_onto states []) there in
      All-append _ _ [] (step-IsStill tasks connector uid key (reverse_onto states []) r aborted) tt

  module _ (entry : Entry) (reason : Text)
      (stored : Elem (serialize json (job_abort reason)) entry.payload) where
    with_connector-IsStill :
        (c : Option Connector) (key : JobKey)
        → IsStill
            (begun json tasks connectors
              (with_connector json tasks connectors c entry key)
              ([], ok tt)).0
    unfolding with_connector advances
    with_connector-IsStill none key = (refl, tt)
    with_connector-IsStill (some connector) key =
        stepped-IsStill connector entry.uid reason key entry.payload
          (deserialize_states json entry.payload) refl stored

    with_key-IsStill :
        (k : Result JobKey)
        → IsStill
            (begun json tasks connectors (with_key json tasks connectors entry k) ([], ok tt)).0
    with_key-IsStill (err m) = tt
    with_key-IsStill (ok key) = with_connector-IsStill (connectors key.source.id) key

    handle_entries-IsStill : IsStill (handle_entries json tasks connectors (entry ∷ [])).0
    unfolding handle_entries handle_entry
    handle_entries-IsStill = with_key-IsStill (deserialize_key entry.uid)

-- What a step does of a job that is started again while an abort is still stored for it
pub record RestartEffect (json : Json) (tasks : TaskQueue) (connectors : Connectors) (key : JobKey)
    (popped : Tasks.Entries × TaskStore) : Type 0 where
  pub entry : Entry
  pub there : Elem entry popped.0.entries
  pub same_uid : entry.uid ≡ serialize_key key
  pub restarted : Elem (serialize json (job_queued 0)) entry.payload
  pub still : IsStill (handle_entries json tasks connectors (entry ∷ [])).0
  pub reaborted :
      IsReaborted json tasks connectors key entry
        (connectors key.source.id)
        (handle_entries json tasks connectors (entry ∷ [])).0

-- A job that is started again while an earlier abort is among the data that the task queue keeps of
-- it is taken when the next poll comes, with its new state, but no step on what was taken starts its
-- activity or tells the listener that it was started or came to an end of its own. Without a
-- connector the job is told to be in error. Else the step does nothing if some datum cannot be read;
-- if all can, it first makes the calls that abort the job, by what Cynosure answers (the tag, and the
-- abort of an activity that is known or found), and behind them it either does nothing more, or
-- keeps the job in the task queue or tells its end, once, which it always does where there is nothing
-- to abort. Conditions as for `upsert` and `popExpired`: fewer tasks wait than the poll asks for, and
-- fewer than 1001 data are kept; the key is storable, and the task queue does not refuse a second
-- `upsert` in a step.
pub restarted_job-RestartEffect :
    (json : Json) (tasks : TaskQueue) (connectors : Connectors) (redis : TaskRedis) (max_count : ℕ)
    (now until : Time) (rank : ℕ) (key : JobKey) (reason : Text) (s : TaskStore)
    → IsStorable key
    → IsAccepting tasks (serialize_key key)
    → (add_duration now no_duration).epoch_ms ≤ until.epoch_ms
    → length (s.sorted entry_key) < max_count
    → length (s.sorted (data_key (serialize_key key))) < 1001
    → Elem (serialize json (job_abort reason)) (members (s.sorted (data_key (serialize_key key))))
    → RestartEffect json tasks connectors key (
        Tasks.pop_expired redis max_count until (
          Tasks.upsert redis now rank
            (serialize_key key)
            no_duration
            (serialize json (job_queued 0))
            s))
restarted_job-RestartEffect json tasks connectors redis max_count now until rank key reason s
      storable accepting due few few_kept stored =
    let e =
      upsert-pop_expired redis max_count now until rank (serialize_key key) no_duration
        (serialize json (job_queued 0)) s due few few_kept in
    let abort_kept = All-Elem _ _ e.earlier stored in
    record {
      entry = e.entry;
      there = e.there;
      same_uid = e.same_uid;
      restarted = e.new_payload;
      still = handle_entries-IsStill json tasks connectors e.entry reason abort_kept;
      reaborted =
          handle_entries-IsReaborted json tasks connectors key e.entry reason
            (ap deserialize_key e.same_uid ∙ deserialize_key-serialize_key key storable)
            (subst (IsAccepting tasks) (sym e.same_uid) accepting) abort_kept e.new_payload;
    }
