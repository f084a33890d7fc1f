-- ===== src/Cynosure/Examples.antt =====
-- The theorems about jobs at concrete values, with a concrete code in the place of `JSON`: an
-- argument is a tag, its characters raised by one, and a 0.
use common_build.Common.{
  inl, arith, true, false, ℕ, suc, zero, ◌≡◌, refl, ap, List, [], ◌∷◌, Option, none, some, length,
}
use common_build.Common.Text.{Text, codes, split, join}
use common_build.Common.Int.{ℤ, pos}
use common_build.Common.Result.{ok, err}
use common_build.Domain.Source.{create_from_string, from_parts, as_string}
use common_build.Domain.JobRef.RoundTrip.{IsStorable}
use common_build.Domain.Refs.{is_sha}
use common_build.Domain.JobRef.{
  JobKey, update_ref, serialize_key, deserialize_key, key_from_parts,
  deserialize as deserialize_ref, from_parts as ref_from_parts, serialize as serialize_ref, fields,
  constructor_name,
}
use common_build.Tasks.Time.{no_duration, add_duration}
use common_build.Tasks.Commands.{TaskStore, TaskKey, entry_key, data_key, handled_key}
use common_build.Tasks.Redis.{documented}
use common_build.Tasks.Queue.{Entry, Entries, pop_expired, upsert}
use common_build.Cynosure.Acts.{Connector}
use common_build.Cynosure.Executor.{TaskQueue, step, last_abort, last_started, last_starting}
use common_build.Cynosure.Executor.Continues.{step-IsOnce}
use common_build.Cynosure.Executor.Decisions.{IsOnce}
use common_build.Cynosure.Executor.Retries.{is_over, retries_end}
use common_build.Cynosure.Poll.{Connectors, Executor, fire, handle_entry}
use common_build.Cynosure.Poll.Restarted.{RestartEffect, restarted_job-RestartEffect}
use common_build.Cynosure.Poll.Schedule.{fire-stopped}
use common_build.Cynosure.States.{
  Arg, text, number, Json, JobState, job_started, job_starting, job_abort, job_queued, serialize,
}

abbrev units : ℕ → Text
units zero = []
units (suc n) = 1 ∷ units n

abbrev raised : Text → Text → Text
raised [] s = 0 ∷ s
raised (c ∷ t) s = suc c ∷ raised t s

abbrev written : Arg → Text → Text
written (text t) s = 1 ∷ raised t s
written (number n) s = 2 ∷ raised (units n) s

abbrev write : List Arg → Text
write [] = []
write (a ∷ args) = written a (write args)

abbrev Reading : Type 0
Reading = Option (List Arg) × Option (Text × List Arg)

abbrev tagged : ℕ → Option (Text × List Arg) → Option (List Arg)
tagged c none = none
tagged zero (some (t, args)) = some (text t ∷ args)
tagged (suc c) (some (t, args)) = some (number (length t) ∷ args)

abbrev ended : Option (List Arg) → Option (Text × List Arg)
ended none = none
ended (some args) = some ([], args)

abbrev longer : ℕ → Option (Text × List Arg) → Option (Text × List Arg)
longer c none = none
longer c (some (t, args)) = some (c ∷ t, args)

-- The text read as arguments, and as the rest of an argument.
abbrev read : Text → Reading
read [] = (some [], none)
read (zero ∷ s) = (none, ended (read s).0)
read (suc c ∷ s) = (tagged c (read s).1, longer c (read s).1)

read-raised :
    (t s : Text) (args : List Arg) → (read s).0 ≡ some args → (read (raised t s)).1 ≡ some (t, args)
read-raised [] s args h = ap ended h
read-raised (c ∷ t) s args h = ap (longer c) (read-raised t s args h)

length-units : (n : ℕ) → length (units n) ≡ n
length-units zero = refl
length-units (suc n) = ap suc (length-units n)

read-write : (args : List Arg) → (read (write args)).0 ≡ some args
read-write [] = refl
read-write (text t ∷ args) = ap (tagged 0) (read-raised t (write args) args (read-write args))
read-write (number n ∷ args) =
    rw (read-raised (units n) (write args) args (read-write args), length-units n) refl

abbrev sample_json : Json
sample_json = record { stringify = write; parse = λ s. (read s).0; parse_law = read-write }

abbrev sample_state : JobState
sample_state = job_started (codes "p1") (codes "a:2") 3

-- A job, a Cynosure that shows no activity, and a task queue that takes all
abbrev sample_key : JobKey
sample_key = record {
  source = record { id = codes "g"; path = codes "r" };
  job_ref = update_ref (codes "1") (codes "m") (record { sha = codes "ab" });
}

abbrev sample_connector : Connector
sample_connector = record {
  find_product_id = λ path. ok (some (codes "p"));
  find_activity = λ product sha. ok none;
  start_activity = λ product sha. ok true;
  change_tag = λ product sha tag op. ok true;
  abort_activity = λ activity sha reason. ok true;
  set_info_url = λ product sha url. ok tt;
}

abbrev sample_tasks : TaskQueue
sample_tasks attempt uid wait state = ok tt

abbrev sample_connectors : Connectors
sample_connectors id = some sample_connector

step-IsOnce_example : IsOnce (codes "u") sample_key (
    step sample_tasks sample_connector
      (codes "u")
      sample_key
      (job_started (codes "p") (codes "a") 3 ∷ []))
unfolding last_abort
step-IsOnce_example =
    step-IsOnce sample_tasks (codes "u") (λ wait s. refl) sample_connector sample_key
      (job_started (codes "p") (codes "a") 3) [] refl

retries_end_example :
    is_over sample_tasks
      (λ n. sample_connector)
      (codes "u")
      sample_key
      5
      (job_starting (codes "p") 96 ∷ [])
    ≡ true
unfolding last_abort last_started last_starting
retries_end_example =
    retries_end sample_tasks (codes "u") sample_key (λ n. sample_connector) (codes "p") 96 5
      (job_starting (codes "p") 96 ∷ []) (λ attempt wait s. refl) (λ n a h. cc) refl refl refl
      (omega arith) (omega arith)

-- An abort is stored for the job, in the form that `serialize` gives it.
abbrev abort_data : TaskKey → List (Text × ℤ)
abort_data entry_key = []
abort_data (data_key uid) = (serialize sample_json (job_abort (codes "stop")), pos 1) ∷ []
abort_data (handled_key uid) = []

abbrev abort_store : TaskStore
abort_store = record { sorted = abort_data; strings = λ _. none }

-- A poll that takes one job
abbrev plain_key : JobKey
plain_key = record {
  source = record { id = codes "g"; path = codes "r" };
  job_ref =
      update_ref (codes "1") (codes "m")
        (record { sha = codes "0123456789abcdef0123456789abcdef01234567" });
}

plain_key-IsStorable : IsStorable plain_key
unfolding as_string serialize_ref fields constructor_name join is_sha
plain_key-IsStorable = record {
  source_plain = record { named = λ e. cc; no_slash = omega arith };
  source_free = omega arith;
  job_clean = (omega arith, omega arith, omega arith, refl);
  job_free = omega arith;
}

restarted_job-RestartEffect_example :
    RestartEffect sample_json sample_tasks sample_connectors plain_key (
      pop_expired documented 2
        (record { epoch_ms = 7 })
        (upsert documented
          (record { epoch_ms = 7 })
          2
          (serialize_key plain_key)
          no_duration
          (serialize sample_json (job_queued 0))
          abort_store))
unfolding add_duration
restarted_job-RestartEffect_example =
    restarted_job-RestartEffect sample_json sample_tasks sample_connectors documented 2
      (record { epoch_ms = 7 }) (record { epoch_ms = 7 }) 2 plain_key (codes "stop") abort_store
      plain_key-IsStorable (λ wait s. refl) (omega arith) (omega arith) (omega arith) (inl refl)

abbrev polled_entry : Entry
polled_entry = record {
  uid = codes "g/r|UpdateRef::1::m::0123456789abcdef0123456789abcdef01234567";
  payload = serialize sample_json (job_queued 0) ∷ [];
}

abbrev sample_executor : Executor
sample_executor = record { active = true; has_listener = true; timer = none }

abbrev sample_entries : Entries
sample_entries = record { entries = polled_entry ∷ []; has_more = false }

-- A task that is no job's
abbrev bad_entry : Entry
bad_entry = record { uid = codes "u"; payload = [] }

bad_entry-thrown :
    handle_entry sample_json sample_tasks sample_connectors bad_entry
    ≡ err (codes "Could not parse u to RepositorySource")
unfolding handle_entry deserialize_key key_from_parts split create_from_string from_parts
bad_entry-thrown = refl

fire-stopped_example :
    (fire sample_json sample_tasks sample_connectors (err (codes "no answer")) sample_executor
      ≡ ([], record sample_executor { timer = none }))
    × (fire sample_json sample_tasks sample_connectors
          (ok (record { entries = bad_entry ∷ polled_entry ∷ []; has_more = false }))
          sample_executor
        ≡ ([], record sample_executor { timer = none }))
fire-stopped_example =
    fire-stopped sample_json sample_tasks sample_connectors bad_entry (polled_entry ∷ []) false
      (codes "Could not parse u to RepositorySource") (codes "no answer") sample_executor refl
      bad_entry-thrown
