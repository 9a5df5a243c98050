-- ===== src/Lib.antt =====
-- The core of ExtensionLab, a service that tests browser extensions in disposable browsers.
--
-- Programs and parts. Web requests enqueue background jobs and open interactive browser sessions; worker
-- processes claim jobs and start slots, renew leases and end them; sweeps recover what was left
-- behind. Everything meets in one SQLite database, each statement of which is atomic and each
-- transaction of which is immediate. The model is a set of tables and functions on them, each a
-- statement or a transaction of the code, and an interleaving of processes is a list of such steps.
--
--   Sql        a table as a list of rows, and SELECT, COUNT, UPDATE, DELETE, ORDER BY on it
--              (lib/db/client.ts gives the database).
--   Jobs       the job queue. Row, Updates, Queries and Claim are lib/db/repositories/jobs.ts, Queue
--              is lib/jobs/queue.ts, Retry is lib/jobs/retry.ts, Ops a history of the operations.
--   Sessions   the interactive sessions: Row, Updates and Events are
--              lib/db/repositories/browser-sessions.ts, with the rules of lib/interactive/sweep.ts.
--   Breaker    the circuit breaker of browser starts, lib/runtime/breaker.ts.
--   Gates      the gates of continuous integration, lib/ci/gates.ts.
--   Orgs       organizations: Roles is lib/organizations/types.ts, Authorization is
--              authorization.ts, Row is the rows of repository.ts, Members and Invitations are
--              service.ts, OrgHistories a history of the operations.
--   Billing    plans and quotas: Plans and Catalog are lib/billing/plans.ts, Effective and Entitlements
--              are lib/billing/entitlements.ts, Subscriptions is lib/db/repositories/billing.ts, Quota
--              is lib/db/repositories/quota.ts.
--   Idempotency  the Model of requests under a key, lib/idempotency/service.ts.
--   RateLimit  the Model of the buckets of lib/auth/rate-limit.ts.
--   Webhooks   the Model of a delivery, lib/webhooks/deliver.ts.
--   Workers    the Registry of the workers, lib/jobs/worker-registry.ts.
--   Policies   the quality gates of an organization, lib/policies/service.ts: Rules is their normal form,
--              Evaluation what a run is judged by.
--   Interactive  the interactive service on the tables above. World is its state, Starting and Stopping are
--              lib/interactive/service.ts with the viewport of limits.ts, Sweep is lib/interactive/sweep.ts.
--   Payments   what a payment provider reports. Rows is lib/billing/types.ts, Ledger the rest of
--              lib/db/repositories/billing.ts, Applying lib/billing/subscriptions.ts, Handling the `handle` of
--              lib/billing/webhooks.ts, Deliveries its processProviderEvent, Steps the steps of deliveries that
--              overlap.
--
-- A function keeps its name in snake case: claimNextJob is claim_next_job. The other modules of a part
-- are about its laws.
--
-- State and representation. Times are natural numbers of milliseconds, given as `now` where the code
-- calls Date.now(). Identifiers, hashes and addresses are compared for equality alone and are numbers; a
-- fresh identifier or token is an argument. A priority is an integer. A subtraction of times is written as
-- an addition on the other side. Rows that compare equal under ORDER BY keep the order of the table. An
-- exception of a constraint is a value, after which nothing is written.
--
-- Parameters, as code that is not here or is random: the transaction hook of enqueueJob, which may not
-- change the jobs; the jitter of a delay, at most a tenth of it; the classification of an error; the
-- plan's member limit and the comparison of slugs; the readers of the environment; the calendar month of
-- a time; the answer of a webhook's destination; the hash of a payload; whether the job of a
-- reservation is active; the numbers that raw rules convert to; the recorded runtime of a session, whether
-- its container runs, and the start job that is enqueued for it; the plan of a price, the users that
-- exist, the provider's answer to a question about a subscription, and whether a transaction on an event
-- fails for a reason that is not here.
--
-- Loops are structural recursion on lists, so there is no fuel.
--
-- Not modelled: metrics, logging and audit events, which have no influence on the state above; JSON
-- payloads and views; foreign keys to users; session artifacts; domains, single sign-on, API keys,
-- exports and publications of organizations; the providers of payments, their prices and signatures; the
-- evidence of a policy, which is read from JSON, and the texts of its checks; the worker's part of a
-- session start, navigation and input, which call a browser over HTTP, and the deletion of artifacts,
-- stray containers and directories by the sweep; the analysis of archives, the scores and comparisons of
-- test results, the sandbox and its browsers, the language model, storage, e-mail, the web routes and the
-- user interface.
pub mod Common
pub mod Sql
pub mod Jobs
pub mod Sessions
pub mod Breaker
pub mod Gates
pub mod Orgs
pub mod Billing
pub mod Idempotency
pub mod RateLimit
pub mod Webhooks
pub mod Workers
pub mod Policies
pub mod Interactive
pub mod Payments
