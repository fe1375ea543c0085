-- ===== src/Lib.antt =====
-- Quorvel: durable tool calls of agents, modelled and verified.
--
-- The program. `run` (packages/core/src/run.ts) executes a tool call under an idempotency key that is
-- computed from the call (idempotency.ts), records it in a ledger (ledger.ts), asks policies
-- (policy.ts) before it executes, and lets a reviewer approve or reject what they park. A saga
-- (saga.ts, over saga-store.ts) runs its steps and their compensations through `run`. A workflow
-- (workflow.ts, over workflow-store.ts) replays its body against a recorded history. The service
-- (apps/api/src) guards its dependencies with a circuit breaker (resilience.ts), its callers with a
-- rate limiter (rateLimit.ts), its events with a job queue (queue.ts), and the plans of its organisations
-- with a usage meter (billing.ts). Its core is `QuorvelCloudService` (service.ts), which keeps the
-- actions, members and API keys of organisations (store.ts), lets actions take only legal
-- transitions, and publishes each on a bus (bus.ts), whose subscribers count usage, send alerts
-- (alerts.ts, by the rules of alertRules.ts) and keep a log (actionEvents.ts); what a subscriber fails
-- to take is kept as a dead letter (deadLetters.ts).
--
-- The files.
--   Common and its children: the libraries' names, tests and lists on native numbers, decimal text,
--     JavaScript's `Map` and stable sort.
--   Value: the JavaScript values that are passed around as `unknown`.
--   Errors, Idempotency, Policy, Run: errors.ts, idempotency.ts, policy.ts and run.ts, function by
--     function. Ledger is the interface `LedgerStore` with the laws that its callers rely on, and
--     Ledger/InMemory is `InMemoryLedger`. Everything in Run is stated over any ledger with the laws.
--   Idempotency/Order, Idempotency/Quoted, Policy/Precedence: the proofs on keys, on texts in quotation
--     marks and on the order of policies.
--   Run/Attempts, Run/Spec: the specification of the retry loop and of `run`, and the proof of it;
--     Run/Outcomes, Run/History: what follows for one call, and for histories of calls.
--   SagaStore, WorkflowStore: `InMemorySagaStore` and `InMemoryWorkflowStore`.
--   Saga/Types, Saga/Undo, Saga/Engine: the types, the rollback and the forward pass of `Saga`;
--     Saga/Rollback, Saga/Forward: the proofs.
--   Workflow/Types, Workflow/Replay, Workflow/Engine: bodies, the commands of `makeContext`, and
--     `WorkflowEngine`; Workflow/Determinism, Workflow/Repeat with its children, Workflow/Passes:
--     the proofs.
--   Breaker, RateLimit, Queue, Billing: `CircuitBreaker`, `FixedWindowRateLimiter`, `InMemoryQueue`,
--     `MemUsageStore` with `UsageMeter`; the proofs in Breaker/Safety, RateLimit/Window,
--     Queue/Delivery and Billing/Quota.
--   Cloud: the service and its in-memory store (apps/api/src/service.ts, store.ts, types.ts,
--     events.ts). Cloud/Actions is the table of actions of `MemStore`, with its lemmas in
--     Cloud/Table; Cloud/Lifecycle is insertPending and the transitions of the service, with the
--     quota and the bus; Cloud/Requests is `withIdempotency` over its table. Their proofs are in the
--     folders Cloud/Lifecycle and Cloud/Requests, each file named for what it proves. Cloud/Access is
--     the organisations, members and API keys of `MemStore`, with new keys (keys.ts) in
--     Cloud/Access/Keys, the calls of the service in Cloud/Access/Calls, histories of them in
--     Cloud/Access/History, and the proofs beside them. Cloud/Text is `trim` and its like.
--     Cloud/Pages is the keyset pages of store.ts with their cursors; its proofs go from one page
--     (Build) and the rows behind a cursor (Behind) to the walk over all pages (Walk, Listing).
--   Delivery: the in-process bus and the dead letters of its subscribers (bus.ts, deadLetters.ts,
--     the replay of wiring.ts); Delivery/Fanout: the proof of what publishing does.
--   Alerts: `MemAlertRuleStore` (alertRules.ts); Alerts/Inputs and Alerts/Calls, the calls of the
--     service on rules; Alerts/Dispatch, `AlertDispatcher` (alerts.ts); Alerts/Limit and
--     Alerts/Targets, the proofs; Alerts/Expected, what the second compares the dispatcher with.
--   ActionEvents: the log of action events and what the service lists of it (actionEvents.ts,
--     `listEvents` and `runTimeline` of service.ts); ActionEvents/Entries and
--     ActionEvents/Visible: the proof.
--   Tests: runs at small inputs, and each theorem applied to one.
--
-- How it is modelled. Asynchronous functions are state transformers that return what the promise
-- comes to: a value or an error; writes made before a throw stay. `execute`, the actions of a saga,
-- activities and job handlers are given by what their n-th call comes to, and each call is logged. A
-- workflow body is the tree of the commands it issues. A time stamp is a number of milliseconds,
-- which orders as the ISO text does; a call takes no time of its own. Costs, limits, delays and the
-- numbers in values are natural numbers. Every loop is recursion on a list or on the retries that are
-- left, so that no fuel is needed, with three exceptions: `decimal` has fuel, one more than its number,
-- and a number has no more digits than that; `with_idempotency` has the depth of its calls of itself,
-- of which two are enough (Cloud/Requests/Bound); a walk over pages has the number of pages, of which
-- one more than there are rows is enough (Cloud/Pages/Listing). What the service draws at random,
-- UUIDs and secrets, is given with each call.
--
-- What is assumed. Calls are made one after another, except of the breaker, whose calls may overlap.
-- The methods of a store do not throw, and policies neither throw nor write. The SHA-256 hash is a
-- parameter; a theorem on API keys or on repeated requests says which hashes must differ. The order of
-- `localeCompare` is a parameter, of which a theorem asks that it order texts of hexadecimal digits as
-- `<` does, and no more; so is base64url, with what is needed of it in the theorem.
-- The keys of objects are sorted by code point, which is JavaScript's order below U+10000. The history
-- of a run has one event for a position. Callbacks (`onStateChange`, the dead-letter sink) do not
-- change the state. A history of the service is one of insertions and transitions; `seedSampleData`,
-- which fills new keys through the store, is no part of it.
--
-- What is not modelled: the SQL stores, whose code is text that a database runs; the HTTP API, payments,
-- the transports of alerts and the hosted client, which are calls over the network; metrics, whose
-- rates are fractions; the framework adapters, the dashboards and the SDKs.
pub mod Common
pub mod Value
pub mod Errors
pub mod Breaker
pub mod RateLimit
pub mod Queue
pub mod Billing
pub mod Cloud
pub mod Delivery
pub mod Alerts
pub mod ActionEvents
pub mod Idempotency
pub mod Ledger
pub mod Policy
pub mod Run
pub mod SagaStore
pub mod Saga
pub mod WorkflowStore
pub mod Workflow
pub mod Tests
