-- ===== src/Lib.antt =====
-- The runtime kernel of murrmure: commands on aggregates, a journal of what happened, and what
-- follows from each entry (waits, reactions, projections); and, around it, the core of the hub:
-- grants and policy, runs and their capacity, flow-call cycles, and the tasks that executors
-- poll.
--
-- The program's parts, and where they are modelled. Paths are those of the repository.
--
-- Contracts has the records and unions of packages/runtime-contracts/src (types/, journal/entry-
-- types.ts, compatibility/rule-v09.ts, schemas/core.ts). A wait condition that holds a list of
-- conditions is a pair of data types. Field names are those of the source.
--
-- Store has packages/runtime-persistence/src/memory/store.ts: Store.State is MemoryStoreState,
-- Store.Transaction the operations of MemoryTransaction, Store.Commit its commit and rollback,
-- Store.Port the operations of InMemoryPersistence outside of transactions. A Map is an
-- association list in the order of insertion (Dict), a Set the list of its members.
-- Store.Outbox, Store.Locks, Store.Rollback, Store.Dedup, Store.Queue and Store.Monotone have
-- the theorems.
--
-- Kernel has packages/runtime-kernel/src: Kernel.Executor is executor/match.ts, Kernel.WaitMatch
-- and Kernel.Registry are waiters/, Kernel.ReactionMatch is reactions/matcher.ts,
-- Kernel.Projections projections/dispatcher.ts, Kernel.Entries journal/build-entry.ts,
-- Kernel.Checkpoints checkpoint/lifecycle.ts, Kernel.Fanout fanout/dispatch.ts; Kernel.Commit,
-- Kernel.Handlers, Kernel.Execute and Kernel.Verify are command/handler.ts, and Kernel.Fold is
-- journal/fold.ts of packages/runtime-contracts/src.
--
-- Hub has packages/hub-core/src, as far as it is modelled, with the operations of packages/hub-
-- persistence/src/memory.ts that it uses. Hub.Cycles is flow-engine/cycle-detect.ts. Hub.Runs is
-- run/admission.ts, run/lifecycle.ts, run/service.ts, index/run-policy.ts and session/: the rows
-- and the store in Hub.Runs, Hub.Runs.Admission, Hub.Runs.Policies, Hub.Runs.Status,
-- Hub.Runs.Sessions, createRun in Hub.Runs.Start, the guarded starts, cancelRun and retryRun in
-- Hub.Runs.Guarded, createSession in Hub.Runs.Creation, cancelSession in Hub.Runs.Cancellation,
-- and Hub.Runs.Apply for the part of packages/hub-daemon/src/routes/spaces/index.ts that
-- replaces the index of a space. Hub.Grants is grants/migrate.ts, Hub.Policy is ports/policy.ts,
-- Hub.Queue is executors/queue-store.ts, Hub.Ids is bridge/ids.ts with the copies of its
-- helpers, and Hub.Sets the Set of JavaScript.
--
-- Json and Text have the values and texts of JavaScript that these files use. A number in a
-- value is a natural number.
--
-- How they interact. Kernel.World has the state that a command changes, the store with the
-- running transaction, the registry of promises, the progress of compound waits, and how many
-- ids and clock readings were taken, and a monad of that state with rejections:
-- run_in_transaction commits when its body returns and rolls back when it rejects. The code
-- outside (policy, rules, conditions, schemas, actions, ids and clocks) is the record Ports,
-- which every definition takes as an argument; the n-th id is a function of n, and the theorems
-- that need it assume that no id comes twice. One command runs to its end before the next. The
-- policy of the kernel's ports can be that of the hub (Hub.Policy.Gate). A run start changes the
-- rows of the hub's store and the world of an interface, Services: ids, clock, command handler
-- and executors. Sections under the guard of a space run one after the other (Hub.Guard,
-- run/space-guard.ts), and the capacity theorem is about any sequence of starts, retries,
-- cancellations and applies, and counts the starts that pass by the admission, those of the
-- lanes of a matrix. The store of tasks is a state of its own, with the polls that wait and the
-- deliveries that wake them.
--
-- How the main theorems are proved. Kernel.Frame shows which programs leave the journal and the
-- snapshots alone; Kernel.Replay shows what each commit appends (Logged), states the invariant
-- (Invariant), and carries it through the commits, the handlers and execute to any list of
-- requests, as Kernel.Requests serves them (History). Kernel.Legal, Kernel.Compound and
-- Kernel.Once are about transitions, compound waits and projections. Samples has concrete ports
-- and commands, and applies the theorems to them. In the hub, Hub.Cycles.Search has the
-- invariant of the search, Hub.Cycles.Lasts carries it through the recursion and
-- Hub.Cycles.Decide draws the conclusions; Hub.Runs.Counting and Hub.Runs.Growth say how many
-- rows a filter selects and what a start adds, and Hub.Runs.Capacity follows the number of
-- active runs through every event; Hub.Queue.Named, Hub.Queue.Once and Hub.Queue.Trace do so for
-- queues and deliveries. Hub.Grants.Gives, Hub.Policy.Required and Hub.Policy.Harness state the
-- tables and tests of the policy independently of the code.
--
-- Bounds and fuel. Loops are structural recursion. Numerals are made with fuel: a decimal has no
-- more digits than the number plus one, and a 32-bit hash has at most 8 hexadecimal digits. The
-- hash keeps its wrap-around, % 2 ^ 32. The search for a cycle has as much fuel as the graph has
-- nodes, plus one: a path has each node at most once, and then perhaps a target that is no node.
-- tailJournal keeps its default limit of 1000.
--
-- Not modelled: the stores in SQLite, the rest of the hub (gates, meetings, stepping through
-- flows, events, indexes, federation, notifications, the daemon), the processes of executors,
-- transports, the command line and the user interfaces; the failing and completing of runs with
-- their notifications; texts that are replaced by regular expressions, lower case and the order
-- of localeCompare, which are parameters; interleavings of commands; handlers of projections
-- that throw; the lookup of a projection's handler by name in RuntimeKernel.rebuildProjection;
-- fields that the kernel never sets.
pub mod Prelude
pub mod Json
pub mod Dict
pub mod Contracts
pub mod Text
pub mod Store
pub mod Kernel
pub mod Hub
pub mod Samples
