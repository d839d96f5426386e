-- ===== src/Lib.antt =====
-- TriMC: a model of the core of the agent controller, and what holds of it.
--
-- TriMC schedules agents: it keeps a table of agent-loop tasks, decides which tool calls an agent may
-- make, routes work to employees within a budget, and settles conflicts when nodes replay what they
-- did offline. The parts that are modelled, with the files that model them:
--
-- Tasks: the task controller (src/task-controller/controller.ts). TaskController is the table with
--   the id counter; createTask, getTask, listTasks, updateTaskStatus, completeTask, failTask,
--   acceptPlaceholder, taskCount and reset are the functions of the same names in snake case.
--   Lifecycle is about one update, Fresh about creation, Runs about sequences of calls, Listing about
--   the listing.
-- Permissions: the permission engine (src/agent-loop/permissions-engine). Permissions has the types,
--   Rules the parser of rules (rule-parser.ts), Safety the safety check (safety-check.ts), Pipeline the
--   decision (decision-pipeline.ts) and Engine the class with the rules it keeps (index.ts). The
--   engine's decisions call the pipeline, the pipeline calls the safety check and matches rules.
-- Arbitration: the arbitration of replayed events (src/comm/arbitration.ts). Its three module-level
--   tables are ArbitrationState. Ownership is about tasks and tool calls over batches of many nodes,
--   Batch about the reply to one batch.
-- Mirror: the mirror store (src/mirror/store.ts, src/mirror/types.ts), the server's copy of what the
--   nodes run and the heartbeats by which it tells that a node has fallen silent. Marking is about the
--   marking of a node's tasks, Scanning about the scan that marks silent nodes, Soundness about
--   sequences of calls and reports.
-- Contracts and Orchestration: the agent contract (src/contracts/agent-contract.ts) and the
--   orchestration layer (src/orchestration). Scheduler is employee-scheduler.ts, Cost
--   cost-controller.ts with the module-level budget as CostState, Router capability-router.ts, Registry
--   employee-registry.ts, and Dispatch with Trace dispatch-proxy.ts, which calls the others in its six
--   steps.
-- Gater: the policy gate and the tool gater (src/policy-gate/service.ts, src/tool-gater/gater.ts), with
--   the tier check of agent-core as a parameter. Layers is about what passes.
-- ConfigSync: the configuration that a development machine hands to the server
--   (src/config-sync/types.ts, apply.ts, status.ts and default-model.ts). Secrets, Checks and Validate
--   are the validator of a bundle, with Steps and Verdict on what it decides; Canonical is the content
--   hash, Apply the job that lands a bundle, in which Landing writes the files and Run is a whole run,
--   with children on its effect, on histories of runs, on repeated and on interrupted runs; Store and
--   Models are the readers with their caches, Status the status route. A bundle that the validator
--   lets through stays the JSON object that it is, as in the source, which casts it.
-- Cron: the cron service and its week arithmetic (src/cron/service.ts, week-math.ts). A run is in two
--   halves, before and after its handler, and other calls may come between the load and the save of
--   each half and while the handler runs; each other call counts as one step. Runs is about the
--   recovery at the start, Outcome about runs, Failures about the status, WeekMath is the arithmetic and Weeks is
--   about the weeks that it names.
-- SubAgents: the tools of a sub-agent (src/agent-loop/sub-agent/tools-resolve.ts, with the table of
--   built-in.ts). Names is about what a declared name stands for, Granted about which tools it gets.
-- PromptCache: the tracking of a prompt cache (src/prompt-cache/cache-control.ts). Turns is about
--   the hits that it estimates.
--
-- Prelude, Map and Json are shared: tests, lists, sorting and texts; the maps of the language; JSON
-- values and their text.
--
-- How the program is read:
-- A text is the list of its UTF-16 code units. Case mapping is that of ASCII; trimming and `\s` take
--   the white space of ECMAScript.
-- A Map or Record is an association list in insertion order, a Set a map to the unit type.
-- Mutated state, that of a module included, is passed in and out. A thrown exception, a refusal and
--   its message are constructors with what the message interpolates; a text that the program compares
--   or stores stays a text.
-- A reading of the clock is an argument, in ISO form or in milliseconds; where a call reads it more
--   than once it has an argument for each reading, but for a dispatch, whose readings count as one.
-- Numbers are natural numbers without a bound, since every counter, length and time of the program
--   stays far below 2^53. Money is in millionths of a dollar and a routing score in tenths, so that
--   what the program does in floating point is exact here, the comparisons with the caps included. A JSON number stands by its text.
-- The engine's list of rules is not shared with its caller.
-- Loops are structural recursion; no fuel is used outside the digits of a number, whose fuel is the
--   number itself.
--
-- Not modelled: the server, the command line, the agent loop and its tools, the readers of files and
-- the bridges to other processes, which are glue around agent-core and the network; the
-- listing of the cron service's log files; and the
-- spawning of sub-agents, onboarding, prompt assembly and observability. What resolveContracts reads from files and what the
-- executor of a dispatch replies are arguments. In the synchronisation Date.parse, SHA-256 and the
-- runner of git are parameters; the disk holds parsed values instead of their text, its temporary files
-- and the log lines are left out. The jobs of the cron service are those of agent-core, a record of
-- functions with laws; the tools of the tier of a sub-agent are an argument. The times of update by which the mirror store sorts
-- are compared by a rank that is an argument, since the order of localeCompare is not written out.
pub mod Prelude
pub mod Map
pub mod Json
pub mod Tasks
pub mod Permissions
pub mod Arbitration
pub mod Contracts
pub mod Orchestration
pub mod Mirror
pub mod Gater
pub mod ConfigSync
pub mod Cron
pub mod SubAgents
pub mod PromptCache
