-- ===== src/BuildSystem/Transition/Starting.antt =====
-- What is decided of a job that is to start.
use common_build.Common.{
  ◌≡◌, refl, ap, ◌∙◌, inl, inr, Bool, true, false, List, [], ◌∷◌, ◌++◌, Option, none, some, keep,
}
use common_build.Common.Text.{Text}
use common_build.Common.Result.{Result, ok, err, Result-cases}
use common_build.Common.Promises.{chain, recover, catch, ask, ◌>>=◌}
use common_build.Common.Promises.Laws.{keep-append, keep-recover-skip, chain-cons}
use common_build.Lodash.{Lodash}
use common_build.Domain.Refs.{ShaRef}
use common_build.Domain.JobRef.{JobKey, update_ref, sha_of}
use common_build.Queue.States.{State, rebased, conflict}
use common_build.Scanner.Graph.{Graphs, get_problems, MultipleVersionsProblem}
use common_build.BuildSystem.Effects.{Effect, Services, Run, state_added, job_started, logged}
use common_build.BuildSystem.Effects
use common_build.BuildSystem.Transition.{
  update_queue, log_problems, start_on, rebase_answered, on_starting,
}

-- The calls that decide what comes of a job that is to start
unfoldable pub decides : Effect → Bool
decides (state_added job state) = true
decides (job_started job) = true
decides _ = false

-- The decision by the answers: of the rebase, and of the dependency graph with its problems
unfoldable pub decision :
    JobKey → Result (Option ShaRef) → Result (List MultipleVersionsProblem) → Effect
decision job (err e) problems = state_added job conflict
decision job (ok (some sha)) problems = state_added job rebased
decision job (ok none) (err e) = state_added job conflict
decision job (ok none) (ok problems) = job_started job

-- The problems of the graph, where both can be had
unfoldable pub problems_in : Lodash → Result Graphs → Result (List MultipleVersionsProblem)
problems_in lodash (err e) = err e
problems_in lodash (ok gs) = get_problems lodash gs

module _ (services : Services) (lodash : Lodash) (job : JobKey) where
  update_queue-decides :
      (state : State)
      → (keep decides (update_queue services job state).0 ≡ state_added job state ∷ [])
        × ((update_queue services job state).1 ≡ ok tt)
  unfolding update_queue decides
  update_queue-decides state = elim (Result-cases (services.add_state job state)) [
    | inl (m, h) ↦ rw h (refl, refl)
    | inr (tt, h) ↦ rw h (refl, refl)
  ]

  log_problems-decides :
      (ps : List MultipleVersionsProblem)
      → (keep decides (log_problems services lodash job ps).0 ≡ [])
        × ((log_problems services lodash job ps).1 ≡ ok tt)
  unfolding log_problems decides
  log_problems-decides [] = (refl, refl)
  log_problems-decides (p ∷ ps) = (refl, refl)

  start_on-decides :
      (gs : Graphs) (problems : Result (List MultipleVersionsProblem))
      → get_problems lodash gs ≡ problems
      → keep decides
          (catch (start_on services lodash job gs) (λ e. update_queue services job conflict)).0
        ≡ decision job (ok none) problems ∷ []
  unfolding start_on decides decision
  start_on-decides gs (err e) h = rw h (update_queue-decides conflict).0
  start_on-decides gs (ok ps) h =
      let (none_yet, fine) = log_problems-decides ps in
      rw (h, fine)
        (keep-append decides (log_problems services lodash job ps).0 (job_started job ∷ [])
          ∙ ap (λ l. l ++ job_started job ∷ []) none_yet)

  rebased-decides :
      (rebase : Result (Option ShaRef)) (graph : Result Graphs)
      → services.dependency_graph job.source (sha_of job.job_ref) ≡ graph
      → keep decides
          (catch
            (ask rebase >>= (λ new_sha. rebase_answered services lodash job new_sha))
            (λ e. update_queue services job conflict)).0
        ≡ decision job rebase (problems_in lodash graph) ∷ []
  unfolding rebase_answered decides decision problems_in
  rebased-decides (err e) graph h = (update_queue-decides conflict).0
  rebased-decides (ok (some sha)) graph h =
      rw (update_queue-decides rebased).1 (update_queue-decides rebased).0
  rebased-decides (ok none) (err e) h = rw h (update_queue-decides conflict).0
  rebased-decides (ok none) (ok gs) h = rw h (
      keep-recover-skip decides _ (start_on services lodash job gs).0
        (start_on services lodash job gs).1 (λ e. update_queue services job conflict) refl
      ∙ start_on-decides gs (get_problems lodash gs) refl)

-- For a job of an update that is to start, exactly one call decides what comes of it, whatever the
-- services answer: the state REBASED if the rebase gave a new sha; the start by the executor if no
-- rebase was necessary and the dependency graph and its problems could be had, problems or not; and
-- the state CONFLICT if any of these was rejected, that of the graph included.
pub on_starting-decision :
    (services : Services) (lodash : Lodash) (job : JobKey) (update_id target : Text) (sha : ShaRef)
    → keep decides (on_starting services lodash job (update_ref update_id target sha)).0
      ≡ decision job
          (services.rebase job.source.id job.source.path update_id)
          (problems_in lodash (services.dependency_graph job.source (sha_of job.job_ref)))
        ∷ []
unfolding on_starting decides
on_starting-decision services lodash job update_id target sha =
    let rebase = services.rebase job.source.id job.source.path update_id in
    let called = Effects.rebased job.source.id job.source.path update_id in
    let handler : Text → Run Unit = λ e. update_queue services job conflict in
    let f : Option ShaRef → Run Unit = λ new_sha. rebase_answered services lodash job new_sha in
    ap (λ a. keep decides (recover a.0 a.1 handler).0) (chain-cons called [] rebase f)
    ∙ keep-recover-skip decides called (chain [] rebase f).0 (chain [] rebase f).1 handler refl
    ∙ rebased-decides services lodash job rebase
        (services.dependency_graph job.source (sha_of job.job_ref)) refl
