-- ===== src/Cynosure/Acts.antt =====
-- backend/src/cynosure/cynosure-api-connector/cynosure-api-connector.ts, and the listener
-- of backend/src/system/job-executor/job-executor.ts.
use common_build.Common.{Bool, Option}
use common_build.Common.Text.{Text}
use common_build.Common.Result.{Result}
use common_build.Common.Promises.{Promise}
use common_build.Domain.Refs.{ShaRef}
use common_build.Domain.JobRef.{JobKey}
use common_build.Tasks.Time.{Duration}
use common_build.Cynosure.States.{JobState}

-- `CynosureProtocol.ActivityState`
pub data ActivityState : Type 0 where
  state_unknown state_finished state_allocated state_ongoing state_queued : ActivityState

-- `CynosureProtocol.ActivityVerdict`, and a text that is none of them
pub data ActivityVerdict : Type 0 where
  verdict_passed verdict_failed verdict_errored verdict_skipped verdict_aborted : ActivityVerdict
  verdict_other : Text → ActivityVerdict

pub record Activity : Type 0 where
  pub activity_id : Text
  pub state : ActivityState
  pub verdict : ActivityVerdict

pub data TagOp : Type 0 where
  tag_add tag_remove : TagOp

pub data LogLevel : Type 0 where
  level_info level_warning : LogLevel

-- What Cynosure answers in one step of a job: `CynosureApiConnector`
pub record Connector : Type 0 where
  pub find_product_id : Text → Result (Option Text)
  pub find_activity : Text → ShaRef → Result (Option Activity)
  pub start_activity : Text → ShaRef → Result Bool
  pub change_tag : Text → ShaRef → Text → TagOp → Result Bool
  pub abort_activity : Text → ShaRef → Text → Result Bool
  pub set_info_url : Text → ShaRef → Text → Result {0} Unit

-- The calls of the executor that change something elsewhere: those of Cynosure, of the listener, and
-- the `upsert`s that the task queue took.
pub data Action : Type 0 where
  activity_started : Text → ShaRef → Action
  tag_changed : Text → ShaRef → Text → TagOp → Action
  activity_aborted : Text → ShaRef → Text → Action
  info_url_set : Text → ShaRef → Text → Action
  on_job_started on_job_failure on_job_success on_job_aborted on_job_error : JobKey → Action
  on_job_log : JobKey → Text → LogLevel → Action
  upserted : Text → Duration → JobState → Action

-- A promise of the executor
abbrev pub Act : Type 0 → Type 0
Act A = Promise Action A
