-- ===== src/Lib.antt =====
-- The core of BackgroundJobs, a service that runs jobs: a job is a set of steps with dependencies
-- between them. Modelled are the validation of job definitions and their import, the graph of the
-- dependencies, the runner of the steps with the limiter of its tasks, the conditions and templates that
-- the steps use, the registry of executors, and the permissions of the roles.
--
-- Parts and files:
-- - Types: the types of src/types/index.ts and src/errors.ts that the runner uses. Error texts are
--   the data type Message, with a constructor for each template of the program.
-- - Graph: src/utils/jobGraph.ts. Graph/Cycle has findDependencyCycle (`visit`, its loop `scan`, and
--   `visit_all`), with the map of states and the path as the record Search. Graph/Closure has
--   dependencyClosure and dependentClosure, Graph/Connect canConnectDependency.
-- - Runner: src/core/JobRunner.ts. Runner/Retry has executeWithRetry, Runner/Pool the workers of
--   runStepsWithConcurrency, Runner/Steps executeStep with its condition and its fan-out, Runner/State
--   the state of `run` with skipDependencyBlocked and cancelPending, and Runner/Rounds the loop of
--   `run` and how it ends.
-- - Limiter: src/utils/ConcurrencyLimiter.ts, with `acquire`, what `releaseOnce` returns (`release`, its
--   loop `hand_over`) and `onAbort` (`on_abort`) as functions on a state, and any order of their calls
--   as a list of events.
-- - Json: the JSON values that the program reads, with src/utils/jsonOutput.ts and
--   src/utils/executionInput.ts in Json/Output. Platform: the operations of the language and of libraries
--   that the program calls on texts, numbers, URLs, cron expressions and schemas, as a record that the
--   definitions take as an argument.
-- - Validation: src/utils/jobValidator.ts. Validation/Normalize has normalizeJobDefinition,
--   Validation/Settings the rules on a job's settings with what they call of src/utils/inputSchema.ts
--   and src/utils/cron.ts, Validation/Steps those on conditions, references and dependencies of steps,
--   Validation/Parameters those for each type of step, and Validation/Definition validateJobDefinition and assertValidJobDefinition. Each
--   function returns the issues that the code appends to its list. An issue is its path and its code,
--   without the text of its message.
-- - Import: prepareJobImport of src/jobs/jobImport.ts.
-- - Workflow: src/utils/workflowExpressions.ts, the paths in the module itself, conditions and the items
--   of a fan-out in Workflow/Conditions. Templates: src/utils/contextResolver.ts.
-- - Accepted: the validator in front of the runner, as src/core/JobRunner.ts calls it, with Workflow and
--   Registry for what the runner calls. Outbound: src/utils/outboundHttp.ts. Redaction:
--   src/security/redaction.ts.
-- - Registry: src/executors/ExecutorRegistry.ts.
-- - Permissions: src/security/permissions.ts. Dashboard: paginationWindow of dashboard/src/pagination.ts.
-- - Prelude: lists over native numbers, and the maps and sets of the program as lists in the order of
--   insertion. Tests: runs on concrete inputs.
--
-- How they interact: the import and the service validate definitions, where the search for cycles and the
-- registry of executors are used; the runner works on definitions that have been validated, and the
-- result of that validation is an argument of `run`, which Accepted fills. What the runner calls of
-- other parts (conditions, fan-out items, the executor registry, JSON output, redaction) is the record
-- Services. What executors, the clock and the abort signal do is given from outside, as a list with an
-- entry for each turn of the loop (RoundEnv): the signal at its head, the tasks in the order in which
-- they settle with what each attempt gives (StepEnv, AttemptEnv), and the signal after the batch.
-- So each interleaving of the tasks of a batch is a list of events.
--
-- Fuel: findDependencyCycle and the closures recurse on fuel, which is the number of nodes, and for
-- the closures the number of ids that the nodes mention: each call marks an id that had no mark.
-- skipDependencyBlocked makes one pass more than there are pending steps, since each pass but the last
-- removes one. The loop of `run` goes on while there are turns: each turn that goes on removes a
-- pending step, so as many turns as there are steps are enough. The loop over redirects recurses on the
-- number of those that are still allowed.
--
-- Not modelled: times and durations; validateJobInput and resolveJobInput, since the schema library keeps
-- what it has compiled; the observer's calls for the start of steps and attempts, with the
-- log "running" that stands while a step is on its way; in the runner the limiter that the attempts
-- share, which decides only when an attempt starts; buildDependencyLevels; values that are no JSON, such
-- as functions or circular objects; requests that fail in the HTTP library; the presentation of plugins; and the rest of the service
-- (repositories, services, controllers, executors, dashboard), which calls the runner or is called
-- by it.
mod Prelude
pub mod Types
pub mod Graph
pub mod Runner
pub mod Limiter
pub mod Permissions
pub mod Dashboard
pub mod Json
pub mod Platform
pub mod Registry
pub mod Workflow
pub mod Validation
pub mod Import
pub mod Templates
pub mod Accepted
pub mod Outbound
pub mod Redaction
pub mod Tests
