-- ===== src/Lib.antt =====
-- A model of the runtime of the personal CFO system: the durable work queue, the workflow's state
-- machine with its checkpoints, the stores of approvals, executions and operator actions, the graph
-- of follow-up tasks, the scheduler, the service with its commits and the commands of operators, and the
-- governance of actions.
--
-- The parts and how they interact. A workflow runs under the workflow runtime, which decides the next
-- state after a failure, pauses for approval, and takes checkpoints that a token resumes. Before it
-- acts, governance classifies the risk and decides whether an action is allowed, denied or needs
-- approval. What a workflow leaves to be done later is a graph of follow-up tasks. The scheduler scans
-- each graph, saves wakeups, and turns those that are due into work items. The queue hands the items to
-- workers under a lease with a fencing token, and takes back the leases that run out. Approvals,
-- executions and operator actions are records in stores that guard their updates by a version, or by
-- the identifier of a request. The service executes a task under a capability, commits what became of it
-- to all these stores, under a worker's fence where a worker does it, and carries out what operators ask
-- for: to approve, deny, resume or retry a task, or to reevaluate a graph.
--
-- Which file models which part:
--   Base and its children: tests, texts, lists, sorting, maps, 64-bit words, float64.
--   Errors: the errors of internal/runtime/store.go, and Go's pair of a result and an error.
--   WorkQueue: InMemoryWorkQueueStore of internal/runtime/work_queue_store.go, one function to a method
--     (Enqueue is enqueue, ClaimReady is claim_ready, ...), types in WorkQueue/Types from async_types.go.
--     WorkQueue/History has lists of calls and the run of a list.
--   Workflow: internal/runtime/types.go, validation.go, controller.go, recovery.go, checkpoint_store.go,
--     timeline.go, and Checkpoint, Resume and PauseForApproval of local_runtime.go.
--   Governance: internal/governance, with Rules for approval_rules.go, Engine for validation.go, and
--     Service for phase2.go and approval_service.go.
--   Stores: approval_store.go, execution_store.go and operator_action_store.go of internal/runtime. The
--     first two share Stores/Versioned, over the interface of a record with a version.
--   TaskSpec: internal/taskspec, the types and the validation of tasks and graphs.
--   TaskGraph: internal/runtime/task_graph.go, the reevaluation of a graph, with its registration in
--     TaskGraph/Registration, and in TaskGraph/Order the topological order of the tasks. TaskGraph/Store
--     has the graph store, and the save over an expected version of service_helpers.go;
--     TaskGraph/Activation the writes to tasks of task_activation.go and the policy of task_dispatch.go.
--   Scheduler: internal/runtime/scheduler.go and the wakeup store; Scheduler/Scan has scheduleGraph and
--     Scheduler/Tick has Tick.
--   Service: Types has the stores together and the values of store.go, task_dispatch.go and commands.go;
--     Effects the steps on the stores, which may fail and keep what they have written; Persist the commits
--     of service_helpers.go and async_commit_guard.go; Execution and Attempts executeSingleFollowUp and
--     its helpers in task_activation.go; Graphs and Actions the helpers of service.go; Operator the
--     commands of operator_service.go, with Operator/Resume, Operator/Retry and Operator/Reevaluate for
--     theirs, and Operator/Commands for any number of them.
--   Worker: Registry has the in-memory stores of attempts and workers of work_queue_store.go, Work and
--     Claims processClaim of internal/runtime/worker.go, where a store of attempts is set, Reclaim and Wakeups
--     handleLeaseReclaim and handleSchedulerWakeup of async_service.go.
--
-- State is passed explicitly. Each method of a store holds the store's mutex, so a history of the
-- program is a list of calls, whatever the goroutines. A Go map is an association list with one entry
-- to a key; the order of its entries stands for the order in which `range` visits it, so that what
-- holds for every list holds for every order. A list is sorted by insertion, one of the orders that an
-- unstable sort may leave between equal elements. A time is the count of nanoseconds since Go's zero
-- time, by which 0 is the zero time. An `int`, an `int64` or a duration that the code computes with is
-- its bit pattern below 2 ^ 64, with the wrap written out. A float64 is a multiple of 2 ^ -1074, an
-- infinity or no number.
-- A task graph that is loaded from the in-memory store shares the array of its registered tasks with the
-- stored one: what a command of the service writes to a task is in the store before the graph is saved, and
-- stays there if the save fails (share_written in TaskGraph/Store, share_tasks, save_changed_graph). A scan
-- compares a graph with the one that it has reevaluated, which shares that array too (seen_after).
--
-- Bounds. Loops recurse on the list that they visit, on the attempts that are left, or on the number of
-- rounds, which the loop of retry delays counts itself. The loop of the topological order takes a bound on
-- its rounds, for which the number of tasks and dependencies is enough. The fencing token wraps at
-- 2 ^ 64, so the claims of a history are bounded where it matters; the delay of a retry is bounded by
-- 2 ^ 62 so that its double is no negative duration.
--
-- Parameters: `make_id`, the hash of its parts that names items, leases and checkpoints; `resolve`, the
-- resolver of capabilities; `rfc3339`, the text of a time; the type of the financial state's snapshots,
-- which the task graph only passes on. The clock is an argument; a command that reads it several times
-- takes a function from the reading's place to its time. The service takes its other parts from a record,
-- Deps: the printers of JSON and of %q, the check and the one field of a checkpoint payload that it reads,
-- the writer of projections, the kind of an error, and the capabilities. `check` answers the validation of
-- a fence at each place of a commit. A worker takes the service's handlers of work items, and the error
-- that the renewal of its lease ends in.
--
-- Not modelled: logs, traces, and what reads the replay log; the contents of checkpoint payloads; the
-- database stores; the workers' loop over their claims and the goroutine that renews a lease; the loop
-- that executes all ready tasks of a graph; what a capability writes by itself; agents, memory retrieval,
-- planning, reports and everything that talks to language models or to the network. The message of an
-- error that formats a value is its format, but in the failures that the service records.
pub mod Base
pub mod Errors
pub mod WorkQueue
pub mod Workflow
pub mod Governance
pub mod Stores
pub mod TaskSpec
pub mod TaskGraph
pub mod Scheduler
pub mod Service
pub mod Worker
