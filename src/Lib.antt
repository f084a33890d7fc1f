-- ===== src/Lib.antt =====
-- Common Build: a build service that queues jobs for changes to repositories, and that reads from a
-- repository's branches and tags which releases there are and which come next.
--
-- Parts, and the files that model them (paths below backend/):
-- - Domain: the values that the other parts exchange and the texts by which they are stored.
--   Domain/Source is src/domain-model/repository-model/repository-source.ts, Domain/Refs is
--   src/domain-model/refs.ts, Domain/JobRef is src/domain-model/job-ref/job-ref.ts with `Key` of
--   src/system/job-executor/job-executor.ts, and Domain/Version is src/domain-model/version.ts.
-- - Queue: the queue of jobs. Queue/Scripts is lua/push.lua, lua/start.lua and lua/complete.lua, one
--   definition for each script and for the steps that it is made of, as functions of a keyspace.
--   Queue/States is src/system/queue/queue.ts. Queue/Service is queue-redis-impl.ts and
--   queue-impl.ts beside it: it calls the scripts, stores the states of the jobs and notes the calls
--   of the listener as the transitions of an outcome. Queue/Scripts/Consistent says when the keys
--   agree, Queue/Scripts/Histories runs any sequence of scripts.
-- - Repository: Repository/Model is src/domain-model/repository-model/repository-model.ts and
--   src/repositories/repository/raw-model.ts; Repository/Normalized, Repository/Converter and
--   Repository/Reader are normalized-model.ts, raw-data-to-model-converter.ts and
--   repository-model-reader.ts of src/repositories/repository, Repository/Raw is
--   raw-model-repository.ts, which reads the refs and keeps the model. What the converter guarantees
--   (Repository/Ordered) is what the reader's theorems assume.
-- - Versions: Versions is src/repositories/scanner/version-container.ts, and Versions/Selectors is
--   dependency-lookup.ts beside it. Versions/Cache is dependency-lookup-cache-impl.ts, which keeps the
--   containers in Redis; that its keys expire is not modelled.
--   Versions/Provider is dependency-provider-impl.ts, which picks from it.
-- - Dependencies: Dependencies is src/repositories/dependency-manager/dependency-storage-impl.ts and
--   src/system/queue/active-repositories.ts, over sets of Redis (Dependencies/Sets); the refs that it
--   stores are Domain/DependencyRef, src/domain-model/system-config/dependency-ref.ts.
-- - Majors is src/repositories/majors/majors-service.ts, and Majors/Application is
--   major-application-service.ts beside it. Publisher is
--   src/repositories/publisher/publisher-manager-impl.ts.
-- - Tasks: tasks that wait for their time. Tasks/Time is src/task-queue/time.ts, Tasks/Queue is
--   task-queue-impl.ts beside it, over the commands of Redis in Tasks/Commands and Tasks/Redis. The
--   two round trips of popExpired are functions of their own, so that Tasks/Queue/Calls can put the
--   calls of other processes between them.
-- - Cynosure: the executor of jobs, which keeps them in the task queue. Cynosure/States is
--   src/cynosure/job-executor/processing-states.ts, with JSON as a parameter; Cynosure/Executor is
--   one step of a job, and Cynosure/Poll the polling and the calls of clients, of
--   cynosure-job-executor.ts beside it. Cynosure/Acts has the answers of Cynosure and the calls that
--   are made.
-- - Scanner: Scanner/Graph is src/repositories/scanner/dependency-graph-impl.ts.
-- - BuildSystem is src/system/build-system-impl.ts, which joins the queue, the executor, the
--   repositories and the publisher: BuildSystem/Transition reacts to the queue, BuildSystem/Release
--   releases, BuildSystem/Events reacts to repositories. BuildSystem/Actions is action-calculator.ts
--   beside it, with src/domain-model/system-config/repository-config.ts and src/active-system.
--   BuildSystem/Effects has the answers of the services and the calls that are made.
-- - Redis and Lodash are not code of the repository: records of the commands and functions that the
--   modelled parts call, each with its documented behaviour as a hypothesis. Redis/Laws and
--   Lodash/Laws show that the documented behaviour is such a record.
--
-- Texts are lists of character codes. Promises are plain results: a call that rejects or throws is
-- an `err`. Where it matters what was called before (Cynosure, BuildSystem), a promise is the list of
-- the calls made and a result (Common/Promises); the answers are parameters. A script runs without
-- interruption, as Redis runs it; between the calls of one service operation nothing else runs, but
-- in Tasks/Queue/Calls. Every loop of the code is a recursion on a list, so there is no fuel; the
-- repeated steps of a job are counted in Cynosure/Executor/Retries.
-- Numbers of releases and scores are natural numbers with no upper bound, where the code has floating
-- point numbers that are exact up to 2^53.
--
-- Not modelled: scanners, configuration files, access to git, Gerrit, Gitlab and Artifactory,
-- routers and the frontend; logging to the program's own log, and the life time of keys.
-- Two errors of the languages are left out: Lua's `unpack` refuses some thousands of results, which
-- `start` never asks for, and `parseInt` reads a text that begins with 0x as hexadecimal, where
-- Domain/Version reads a 0; nor does it read signs or leading spaces.
pub mod Common
pub mod Domain
pub mod Redis
pub mod Lodash
pub mod Queue
pub mod Repository
pub mod Versions
pub mod Cynosure
pub mod Tasks
pub mod Majors
pub mod Dependencies
pub mod Scanner
pub mod Publisher
pub mod BuildSystem
