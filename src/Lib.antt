-- ===== src/Lib.antt =====
-- specrails-core runs agents for other programs. This library models its agent sessions,
-- src/agent-runtime/session, and parts of the engine and the graph that run workflows. A session is
-- a journal of events, and its state is a fold over them, which refuses every event that would break
-- an invariant.
--
-- Session/Types and Session/Events: domain/types.ts, errors.ts and events.ts, the vocabulary.
-- Session/StateMachines: domain/state-machines.ts, the transition tables of the session's phase, of
--   turns, inputs and sub-agents, with `can_transition` for canTransition. Reach: how far inputs go.
-- Session/Fingerprint: domain/fingerprint.ts. Decoded: what a fingerprint stands for.
-- Session/Snapshot and Session/Reducer: domain/snapshot.ts. `apply_body` is the switch of
--   applyEvent, with a function for each case that reads the state; `apply_event` adds the test on
--   a closed session, `fold_step` the tests on the envelope, and `fold_events` is foldEvents.
--   Session/Prune: what pruneInputs keeps. The theorems stand in the modules under
--   Session/Reducer, one for each concern.
-- Session/Policy: domain/policy.ts, a host's policy resolved against a driver's capabilities.
--   Enforced: what a resolved policy asks. Normal: a resolved policy resolves to itself.
-- Session/Usage: domain/usage.ts, what a turn used. Conserved and Sums: totals.
-- Session/Interruption: domain/interruption.ts, the notice of what did not finish; what the fold
--   does with it is in Session/Reducer/Notice.
-- Session/Redaction: domain/redaction.ts, with the redaction of a text and of a JSON value as
--   parameters. Session/Reducer/Erased and ErasedFold: the fold without the free texts; Redacted: the
--   fold of a redacted journal.
-- Session/Application: application/active-session.ts. Live has the fields of ActiveSession, what the
--   journal holds of it, and the actions on them; Commit is `commit`, with `append` of
--   journal/sqlite-journal.ts, Work ends what runs, Settlement, Turns, TurnEvents, SubagentEvents,
--   Handlers and Delegated are the methods that commit. Replay, Replayed and Driven: what they leave
--   of the journal. Secrets: which texts reach the journal. Committed, Ended and Quiet: what
--   `end_running_work` commits and leaves.
-- Session/Descriptor: domain/descriptor.ts. Session/Timers: application/timers.ts.
-- Session/Drivers: ports.ts (the events of a driver) and drivers/claude/translator.ts. Claude/State
--   has the fields of ClaudeTranslator, Tasks and Messages its methods, Translate `translate`, and
--   Turns what the events say of turns. A frame is a JSON object (Prelude/Json). Codex/Rpc is
--   drivers/codex/rpc.ts, the requests that wait for an answer, and Codex/Answers what they get.
-- Session/OutputBuffer: application/output-buffer.ts, merging and capping of streamed text.
--   Accounts: what is stored and what is refused.
-- Engine/Budget: src/agent-runtime/engine/budget.ts, the limits of a workflow run; BudgetLimits says
--   what they amount to.
-- Engine/Gate: src/agent-runtime/engine/concurrency.ts, the permits of a run's branches. Permits and
--   Arrivals: what they amount to, and in which order they are given.
-- Engine/Contracts and Engine/Database: contracts.ts and checkpoint/database.ts of the engine, as far
--   as leases and controls need them. Engine/Lease: checkpoint/lease.ts. LeaseSteps: sequences of
--   its operations, with Fencing on late executors and ActiveTime on the time that is charged.
-- Engine/Inbox and Engine/Consumption: steering/inbox.ts, writing to the inbox of a run and
--   consuming from it. Delivery, InboxBounds and Retries: what it promises.
-- Graph/Convergence: src/agent-runtime/graph/convergence.ts, the guard of the correction loop, as
--   the verify node of nodes.ts uses it, with the history that state.ts bounds to 50 visits. Loops:
--   what it stops.
-- Prelude: Boolean tests, lists, results, dictionaries and texts that these share.
--
-- The live session turns the events of a driver into journaled events: it folds them into its
-- snapshot first, and appends what folds; the journal folds the same events on the snapshot that it
-- stores, and keeps redacted copies of both. The policy decides what a session may do; the
-- usage of a turn and the text of the buffer reach the journal as events.
--
-- Conventions. A thrown error is `err` of its code; the texts of messages and their details are
-- left out. A `Record` or a `Map` is an association list in the order of insertion; the names of
-- the properties of Object.prototype and keys that read as array indices are not modelled. A
-- length of a text counts its UTF-16 code units. Amounts of tokens and of money are natural
-- numbers, and the unit of a cost is a millionth of that of a rate card's prices; a value that is no
-- finite number from 0 on is `invalid`. Numbers of a policy are undefined, integers from 0 on, or
-- `other`. A number of a JSON value is natural. An event can name only the states that the type of
-- the event allows. Time stamps are texts.
--
-- The fuel of `hex_loop` is 16: a 64-bit number has 16 hexadecimal digits at most.
--
-- Not modelled: the promises of a live session (send, interrupt, update, deliver: what they ask for
-- is a request, what follows an answer is an operation of its own), the journal's database and how
-- it is read, the other drivers, the host's server, the rest of the workflow engine and of the graph,
-- the pipeline and the installer.
pub mod Prelude
pub mod Session
pub mod Engine
pub mod Graph
