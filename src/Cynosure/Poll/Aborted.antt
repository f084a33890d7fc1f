-- ===== src/Cynosure/Poll/Aborted.antt =====
-- What the poll does to a job for which an abort and a start are stored.
use mathlib.Core.List.{append-nil}
use common_build.Common.{◌≡◌, refl, ◌∙◌, List, [], ◌∷◌, ◌++◌, Elem, Option, none, some}
use common_build.Common.Text.{Text}
use common_build.Common.Result.{Result, ok, err}
use common_build.Domain.JobRef.{JobKey, deserialize_key}
use common_build.Tasks.Queue.{Entry}
use common_build.Cynosure.States.{Json, JobState, job_queued, job_abort, serialize}
use common_build.Cynosure.Acts.{Action, Connector, on_job_error}
use common_build.Cynosure.Executor.{
  TaskQueue, reverse_onto, deserialize_states, last_abort, last_starting, last_started,
}
use common_build.Cynosure.Executor.Aborting.{IsAnswered, abort_calls, step-IsAnswered}
use common_build.Cynosure.Executor.Continues.{IsAccepting}
use common_build.Cynosure.Poll.{
  Connectors, stepped, with_connector, handle_entry, begun, handle_entries,
}
use common_build.Cynosure.Poll.Stored.{
  read_state, Elem-reverse_onto, last_abort-some, last_queued-some,
}

-- The calls answer an abort that is among the states.
pub record IsAbortOf (connector : Connector) (uid : Text) (key : JobKey) (states : List JobState)
    (actions : List Action) : Type 0 where
  pub reason : Text
  pub is_aborted : last_abort states ≡ some reason
  pub answered :
      IsAnswered uid key
        (abort_calls connector key reason (last_started states) (last_starting states))
        actions

abbrev pub IsReadAbort : Connector → Text → JobKey → Result (List JobState) → List Action → Type 0
IsReadAbort connector uid key (err m) actions = actions ≡ []
IsReadAbort connector uid key (ok states) actions =
    IsAbortOf connector uid key (reverse_onto states []) actions

-- By the connector, if there is one, and by what is read of the data
abbrev pub IsReaborted :
    Json → TaskQueue → Connectors → JobKey → Entry → Option Connector → List Action → Type 0
IsReaborted json tasks connectors key entry none actions = actions ≡ on_job_error key ∷ []
IsReaborted json tasks connectors key entry (some connector) actions =
    IsReadAbort connector entry.uid key (deserialize_states json entry.payload) actions

IsAnswered-append_nil :
    (uid : Text) (key : JobKey) (calls actions : List Action)
    → IsAnswered uid key calls actions
    → IsAnswered uid key calls (actions ++ [])
IsAnswered-append_nil uid key calls actions h = record {
  rest = h.rest;
  parts = append-nil actions ∙ h.parts;
  settled = h.settled;
}

module _ (json : Json) (tasks : TaskQueue) (connectors : Connectors) (key : JobKey) (entry : Entry)
    (reason : Text) (named : deserialize_key entry.uid ≡ ok key)
    (accepting : IsAccepting tasks entry.uid)
    (stored : Elem (serialize json (job_abort reason)) entry.payload)
    (restarted : Elem (serialize json (job_queued 0)) entry.payload) where
  stepped-IsReadAbort :
      (connector : Connector) (states : Result (List JobState))
      → deserialize_states json entry.payload ≡ states
      → IsReadAbort connector entry.uid key states
          (begun json tasks connectors
            (stepped json tasks connectors connector entry.uid key states)
            ([], ok tt)).0
  stepped-IsReadAbort connector (err m) h = refl
  stepped-IsReadAbort connector (ok states) h =
      let latest = reverse_onto states [] in
      let (r, aborted) = last_abort-some reason latest (
        Elem-reverse_onto (job_abort reason) states []
          (read_state json (job_abort reason) entry.payload states stored h)) in
      let (n, queued) = last_queued-some 0 latest (
        Elem-reverse_onto (job_queued 0) states []
          (read_state json (job_queued 0) entry.payload states restarted h)) in
      record {
        reason = r;
        is_aborted = aborted;
        answered =
            IsAnswered-append_nil entry.uid key _ _
              (step-IsAnswered tasks entry.uid accepting connector key latest r n aborted queued);
      }

  connected-IsReaborted :
      (c : Option Connector)
      → IsReaborted json tasks connectors key entry c
          (begun json tasks connectors
            (with_connector json tasks connectors c entry key)
            ([], ok tt)).0
  unfolding with_connector
  connected-IsReaborted none = refl
  connected-IsReaborted (some connector) =
      stepped-IsReadAbort connector (deserialize_states json entry.payload) refl

  pub handle_entries-IsReaborted :
      IsReaborted json tasks connectors key entry
        (connectors key.source.id)
        (handle_entries json tasks connectors (entry ∷ [])).0
  unfolding handle_entries handle_entry
  handle_entries-IsReaborted = rw named (connected-IsReaborted (connectors key.source.id))
