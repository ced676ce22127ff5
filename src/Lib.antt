-- ===== src/Lib.antt =====
-- WordClaw: the core services of a headless content platform for agents.
--
-- The program is a TypeScript server. This library models the services that decide who may do what and
-- who owes what: the keys that requests show, the policy engine and the identities that it reads, the
-- licences and payments that sell access to content, the middleware that makes repeated requests safe, the
-- queue of background jobs, the review and the archiving of content, the runs of agents, and the events
-- that sessions subscribe to. REST, GraphQL and MCP handlers authenticate a request (src/api/auth.ts, by
-- the keys of src/services/api-key.ts), build a principal (src/services/actor-identity.ts), turn it into an
-- operation context (src/services/policy-adapters.ts) and ask the engine (src/services/policy.ts). A settled
-- payment (src/services/payment-ledger.ts) activates an entitlement (src/services/licensing.ts) and allocates
-- revenue (src/services/revenue-allocator.service.ts).
--
-- Files and code:
-- Shared.antt and Shared/: library names passed on, Boolean tests, lists, text, decimals, integers,
--   dates as text, JSON values, and tables of rows with `find_row` and `update_row` for the
--   database's select and update.
-- Access/Identity.antt: src/services/actor-identity.ts, one function for each of its functions
--   but the snapshot for display. Identity/Resolution.antt is about identities as text,
--   and Identity/Assignment.antt about the texts that name a principal.
-- Access/Keys.antt: src/services/api-key.ts. Keys/Scopes.antt and Keys/Held.antt are about scopes as text, Keys/Lookup.antt and
--   Keys/History.antt about which keys are found by their hashes, at once and over time, and
--   Keys/Rotation.antt about the key that takes the place of another.
-- Access/Auth.antt and Access/Domain.antt: src/api/auth.ts and src/api/domain-context.ts, with
--   Auth/Required.antt, Auth/Granted.antt and Auth/Grants.antt about the requests that are granted.
-- Access/AssetTokens.antt: src/services/asset-access.ts, with AssetTokens/Issued.antt.
-- Access/Policy.antt and Policy/Adapters.antt: src/services/policy.ts and
--   src/services/policy-adapters.ts. Policy/Isolation.antt holds the declarative policy, and
--   Policy/Requests.antt what requests of given principals can reach, and Policy/Degraded.antt what a
--   failing evaluation lets through.
-- Payments/Licensing.antt and Licensing/Reads.antt: src/services/licensing.ts. Licensing/Quota.antt,
--   Overlap.antt, Delegation.antt and Activation.antt are about its operations.
-- Payments/Revenue.antt: src/services/revenue-allocator.service.ts, with Revenue/Split.antt.
-- Payments/Clearing.antt: src/workers/allocation-state.worker.ts, with Clearing/Progress.antt.
-- Payments/Payouts.antt: src/workers/payout.worker.ts, with Payouts/Bounds.antt and
--   Payouts/Groups.antt.
-- Payments/Ledger.antt: src/services/payment-ledger.ts, with Ledger/Life.antt.
-- Api/Idempotency.antt: src/middleware/idempotency.ts, its hooks as functions on the cache and the set of
--   keys in flight, with Idempotency/Cache.antt, Replay.antt and Duplicate.antt.
-- Jobs/Payload.antt, Jobs/Draft.antt and Jobs/Queue.antt: src/services/jobs.ts, the parsers and the
--   queue, whose sweep is Queue/Sweep.antt, with Queue/Rows.antt, Queue/Attempts.antt, Queue/Retry.antt,
--   Queue/Settled.antt and Queue/Abort.antt.
-- Content/Lifecycle.antt: src/services/content-lifecycle.ts, and the configuration's reader from
--   src/services/content-schema.ts, with Lifecycle/Sweep.antt.
-- Content/Workflow.antt: src/services/workflow.ts, the tables of workflows, transitions and review tasks,
--   and Content/Review.antt, its submissions and decisions, with Review/Tasks.antt,
--   Review/Authority.antt and Review/Deciding.antt.
-- Runs/Status.antt, Runs/Store.antt, Runs/Plan.antt, Runs/Control.antt and Runs/Create.antt:
--   src/services/agent-runs.ts, its statuses, its tables, and `createRun` and `controlRun`, with
--   Runs/Refinement.antt, Timing.antt and Effects.antt.
-- Mcp/Topics.antt, Mcp/Matching.antt and Mcp/Session.antt: src/mcp/reactive-events.ts and
--   src/mcp/http-session-manager.ts, with Mcp/Permitted.antt, Guards.antt and Delivery.antt.
-- Access/Tests.antt, Access/KeyTests.antt, Access/AssetTests.antt, Payments/Tests.antt,
--   Payments/ClearingTests.antt, Payments/PayoutTests.antt, Api/Tests.antt, Jobs/Tests.antt,
--   Content/ReviewTests.antt, Content/Tests.antt, Runs/Tests.antt and Mcp/Tests.antt: runs and witnesses.
--
-- Conventions: a table is a list of rows, a handler a function from the tables to its result and the new
-- tables; times are milliseconds, and one operation reads the clock once. Numbers that the code never
-- makes negative are naturals, others integers over them. A throw is a value of a result type. Loops
-- over lists are structural, so that no fuel is needed. Only text of ASCII letters changes its case.
--
-- Parameters: the floor of a product of doubles in the revenue split, with the hypothesis that it does
-- not exceed the exact quotient below 2 ^ 52; the runners of a parsed job, and the payload of the webhook
-- that announces a draft's outcome; the lifecycle extension of a schema that has compiled; the hash of a key
-- and the text of a new one; the snapshot of a run's plan; JSON.parse and Number of a text;
-- JSON, base64url and the keyed hash behind the tokens of assets.
--
-- Not modelled: database failures, network calls, rendering of JSON schemas, the handlers of the
-- transports and the tools of src/mcp/server.ts, the worker that executes the steps of runs, external
-- feedback, and the other services under src/services.
pub mod Shared
pub mod Access
pub mod Payments
pub mod Api
pub mod Jobs
pub mod Content
pub mod Runs
pub mod Mcp
