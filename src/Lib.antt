-- ===== src/Lib.antt =====
-- A model of the distributed workflow engine. A workflow is a graph of tasks; a run of it is an
-- execution. MongoDB holds the truth about runs, tasks, attempts, approvals and the outbox, and Redis
-- only carries the ids of tasks that workers should look at.
--
-- The files and the code they model:
--   Workflow/States.antt    src/workflow/states.js: the two status machines
--   Workflow/Dag.antt       src/workflow/dag.js: structural checks and kahn
--   Workflow/Cycle.antt     src/workflow/dag.js: findCycle
--   Workflow/Validate.antt  src/workflow/dag.js: validateDag
--   Workers/Retry.antt      src/workers/retry.js: isRetryable, computeBackoff
--   Ai/CircuitBreaker.antt  src/ai/providers/circuitBreaker.js
--   Ai/Fallback.antt        src/ai/providers/fallback.js; providers and clock are parameters
--   Ai/Calculator.antt      src/ai/agent/calculator.js; floating point arithmetic is a parameter,
--                           and a printer of expressions in Ai/Calculator/Printing.antt
--   Workers/Task.antt       src/workers/runTask.js
--   Workers/Worker.antt     src/workers/queueWorker.js: processTask, a round of loop, maintenance
--   Queues/TaskQueue.antt   src/queues/taskQueue.js: the scripts on the queue of task ids
--   Queues/Lock.antt        src/queues/lock.js
--   Middleware/RateLimit.antt  src/middleware/rateLimit.js: the script and rateLimit
--   Events/Relay.antt       src/events/relay.js: createOutboxRelay and the loop of tick
--   Events/Runner.antt      src/events/relay.js: createRelayRunner
--   Events/Analytics.antt   src/events/analyticsProcessor.js
--   Services/Canonical.antt  src/services/execution.service.js: canonical
--   Services/Executions.antt  src/services/execution.service.js
--   Services/Workflows.antt  src/services/workflow.service.js: all but list
--   Scheduler/Cron.antt     src/scheduler/cron.js; the parser of cron expressions is a parameter
--   Scheduler/Due.antt      src/scheduler/scheduler.js: runDue
--   Scheduler/Slots.antt    src/scheduler/scheduler.js: the keys of slots
--   Scheduler/Tick.antt     src/scheduler/scheduler.js: tick and stop
--   Engine/Model.antt       src/models: the documents the engine reads and writes, and the store
--   Engine/Actions.antt     src/workflow/engine.js: emit, enqueueSafely, enqueueRetrySafely
--   Engine/Tasks.antt       src/repositories/task.repository.js
--   Engine/Dispatch.antt    src/workflow/engine.js: dispatchReady, dispatchTask
--   Engine/Outcome.antt     src/workflow/engine.js: afterTaskSucceeded, afterTaskFailedForGood
--   Engine/Start.antt       src/workflow/engine.js: startExecution
--   Engine/Claim.antt       src/workflow/engine.js: startTask, renewLease
--   Engine/Report.antt      src/workflow/engine.js: completeTask, failTask
--   Engine/Approve.antt     src/workflow/engine.js: suspendForApproval, resolveApproval
--   Engine/Control.antt     src/workflow/engine.js: pauseExecution, resumeExecution, cancelExecution
--   Engine/Reconcile.antt   src/workflow/engine.js: reconcile
--   Engine/Ledger.antt      the invariant on the counter pendingTasks, and below it the lemmas on
--                           each function
--   Engine/Runs.antt        the states that calls of these functions reach, and what holds in them
--
-- An engine function is a function from the store to its result and the next store, where a failure is
-- a result too. The collections of the store are lists of records. `issued` counts the ids drawn, so
-- that each id is new. Times are milliseconds and arguments: a function that calls `now()` twice takes
-- two of them. JSON values are texts, since the engine never looks into them; only canonical does, and
-- the value of a text is a parameter there, with JSON.stringify. A number is unbounded.
--
-- MongoDB is the record Mongo of Mongo/Driver.antt, and IsMongo states what its operations are
-- documented to do. Mongo/Reference.antt gives an instance. A transaction takes effect as a whole or
-- not at all, and a call of the engine is one step: the transactions of concurrent calls are
-- serialised by MongoDB, and interleavings of the parts of one call that are outside its transaction
-- are not modelled. Redis is the parameter redis_up of Deps, which says which of the calls to it get
-- through. Every function of the engine logs; the log is left out.
--
-- Redis is the record Redis of Redis.antt for lists, sets and sorted sets, Keys of Redis/Keys.antt for
-- a key with a time to live, and Expiry of Redis/Expiry.antt for a sorted set with one; IsRedis, IsKeys
-- and IsExpiry state what the commands are documented to do, and each has an instance. A Lua script is
-- one step, since Redis runs it as one command; the two commands with which the lock is acquired are
-- two. The query of the relay and the producer of Kafka are the record Deps of Events/Relay.antt: the
-- producer may throw after it wrote any messages. A run of a worker is one step over the store and the
-- queue, in which the calls of the engine to the queue come right after the engine's own. The loop of a tick of the relay has 20 rounds. MongoDB
-- may remove the markers of processed events after 30 days, or later, as a step of its own.
--
-- The scheduler and the services share the engine's store and the collection of workflows, the record
-- Site of Scheduler/Due.antt. A round of runDue takes the document as it was read, which may be old.
-- The texts of ids and times in the key of a slot, the sort of MongoDB and the cron parser are
-- parameters.
--
-- The waves of kahn and the depth of visit in findCycle run on fuel, one more than the number of
-- tasks: each wave takes a task at least, and no task is entered twice on a path. Running out of
-- fuel is the result none, which startExecution treats as a thrown error.
-- The rules of the calculator run on fuel too, eight for each character and eight more, since at most
-- five calls of rules come between two characters; without fuel they answer the error stuck.
--
-- Not modelled: the worker registry, the clients of Redis and Kafka, the timers and the polling loops
-- (src/consumers, src/events/kafka.js), which are calls of packages; the
-- other AI parts (src/ai); authentication and the rest of the HTTP layer (src/auth, src/middleware,
-- src/routes, src/controllers); the services of analytics and health (src/services) and the
-- configuration (src/config).
pub mod Ai
pub mod Base
pub mod Engine
pub mod Events
pub mod Middleware
pub mod Mongo
pub mod Queues
pub mod Redis
pub mod Scheduler
pub mod Services
pub mod Workers
pub mod Workflow
