-- ===== src/Lib.antt =====
-- RepoMender's server: the durable task queue, the approval gate, issue repairs, automations, the
-- logs and webhooks of CI diagnosis, and the rate limiter.
--
-- The server keeps tasks in PostgreSQL, and workers claim them under a lease. An issue repair is such
-- a task: an agent first writes a plan, which a person must approve, then a patch, which a person must
-- approve as well, and only then a draft pull request is published. A failed CI run becomes a
-- diagnosis task, whose logs are redacted and cut into chunks. Automations are templates that turn a
-- provider's events into tasks. The approvals are requests that name a digest of what they approve,
-- and consuming one is the gate before the next phase. HTTP clients pass a rate limiter first.
--
-- The files and the code they model:
--   Prelude and its children: shared names, lists, integers, byte strings with the functions of Go's
--     `strings` and `utf8` packages, rows of tables, `ORDER BY`.
--   Ids: `newID` of server/internal/tasks/store.go, a function of the sixteen random bytes.
--   Auth: the roles of server/internal/auth/auth.go.
--   Tasks: server/internal/tasks. Status and Types are types.go; Store, Queue, Supersede, Events and
--     Findings are store.go, one function for each method (`create_task` is `CreateTask`, `claim_task`
--     is `ClaimTask`, and so on), from the tables to a result and the tables. Trace is any sequence of
--     calls. Invariant, Unique, Consistent, Soundness, Claiming, Machine, Numbering, Intake and
--     Keyed hold the proofs.
--   Approvals: server/internal/approvals. Types and Validate are types.go, Store is store.go
--     (`decide_row` is `Decide`, `consume_row` is `Consume`), Service is service.go with its audit
--     entries, Trace any sequence of mutations. Machine, Single, Gate, Lifecycle, Authority and Audited
--     hold the proofs.
--   Repair: server/internal/repair. Types and Validate are types.go, Store is store.go, Service is
--     service.go; Running, Phases and Processor are processor.go with one function for each stage: a
--     run of the agent, the plan and the patch, and `Process`. World is their shared state and the code
--     they call, Trace any sequence of calls, among calls of the approval service and of
--     the task store. Backed and its children, Safety and Resuming hold the proofs.
--   Automations: server/internal/automations. Types is types.go; Store and Trigger are store.go
--     (`publish_row` is `Publish`, `trigger_row` is `Trigger`), over the tables of the automations
--     beside those of the task store; Service is service.go, Trace any sequence of its mutations and
--     of the task store's. Scheduling and Steps say how a call ends and what it does to the tables;
--     Governed and its children, Once, Revisions, Limit and Matching hold the proofs.
--   Diagnosis: server/internal/diagnosis. Redact is `redact` with its two expressions, Logs is
--     `RedactAndChunkLogs` with the variables of its loop as a record (`Builder`); Events is the way
--     from a webhook to a task, and back from its payload, of types.go and service.go. Results is
--     `ValidateResult` and what processor.go makes of a result, Storing and Processor are `Process`, where
--     each step takes what follows it as an argument. Tokens, Clean, Complete, Excerpts with its child Lines,
--     Intake, Steps and Publishing hold the proofs.
--   Worker: server/internal/worker/queue.go. `turn` is one pass of the loop of `RunQueue` over the
--     methods of the task store, `run_ticks` the loop over the ticks that come before the context is
--     done. Turns and Reporting hold the proofs.
--   RateLimit: server/internal/ratelimit/limiter.go. Quota and Retry hold the proofs.
--   The modules named Tests hold runs at concrete inputs.
--
-- How code becomes a definition. A table is the list of its rows in the order of insertion, and a
-- store method is a function from the tables to a result and the tables, those after the commit or,
-- where the method returns early, those before. A method is one transaction, so concurrent calls are a
-- sequence of them; the service methods that make several store calls run without another call
-- between. SQL constraints on keys stand in the insert operations, which then
-- refuse the row (`insert_task`, `violates_runs`, `insert_request`, `keys_fail`). A claim takes the
-- task rows that other open transactions lock as an argument (`Snapshot`) and skips them. Clocks and random bytes are arguments. A
-- time counts nanoseconds, and 0 is Go's zero time; texts are lists of bytes; Go's `int` is an integer
-- without bounds. An error is a constructor without its text. A malformed identifier, which
-- PostgreSQL refuses, is one that no row has.
--
-- Parameters are the code outside: JSON and SHA-256 (`Codec`, one of the repairs, one of the automations
-- and one of the diagnosis, which also has `Json`), the lookup of a repository (`Resolver`), the provider of pull requests
-- (`Provider`), the execution adapter (`Adapter`), the decoding of network policies (`PolicyDecoder`),
-- the text of a store error in the worker's reports (`describe`), the JSON of task payloads
-- (`PayloadReader`) and `net.SplitHostPort` (`HostSplitter`); the queue worker takes any processor.
-- Two hypotheses are made of the repairs' codec: a patch that was decoded is read back from its encoding, and
-- from what the JSONB column makes of it (`ReadsPatches`, `StoresPatches`); and one
-- of the diagnosis', where a theorem names it: that JSON gives back the payload that it encoded.
--
-- Every recursion is structural, but for `decimal`, whose fuel is one more than the number, which has
-- fewer digits than that, and for `write_pieces`, whose fuel is the number of bytes still to be written;
-- that it is enough is part of the bound on the chunks.
--
-- Not modelled: connection failures and the failure of a commit, which leave the tables as they were;
-- the text of errors, and messages made of them, which no code reads; foreign keys, but for those of
-- findings and evidence, since the rows they name are never deleted alone; a worker that stops in the
-- middle of a processor's phase; the HTTP handlers, which decode requests and turn errors into codes;
-- the clients of the providers and of the execution service, and metrics and telemetry, but for the
-- count of rejected requests, which are input and output; sessions and passwords, review, retention
-- and configuration, which the parts above do not call.
pub mod Prelude
pub mod Ids
pub mod Auth
pub mod Tasks
pub mod Approvals
pub mod Repair
pub mod RateLimit
pub mod Worker
pub mod Automations
pub mod Diagnosis
