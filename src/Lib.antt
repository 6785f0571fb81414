-- ===== src/Lib.antt =====
-- Fare Radar, the runtime of the flight-deal service in src/*.ts: a Cloudflare worker over a D1
-- database that takes in evidence, candidates and offers, verifies fares, decides whether a candidate
-- may be acted on, and hands alerts and jobs to outside workers by leases.
--
-- How the parts fit together, and the files that model them:
-- * Requests (src/auth.ts, src/worker.ts). Auth is authorizeRequest with the nonces, the keys' roles
--   and scopes, and the worker's token. Api is one POST route of `fetch`, guard by guard, over a table
--   of routes (Api/Routes); the operations behind the routes are the interface `Operations`.
--   Api/Candidates is /candidate/evaluate and `scheduled`, over the interface `Tasks`; Api/Special is
--   /audit/evidence/readback and /candidate-priority/lease. Auth/Admission, Auth/Replay,
--   Auth/Scopes and Api/Guards hold the theorems. Audit is src/audit.ts.
-- * Alerts (src/outbox.ts). Outbox enqueues alert intents and projects them into the notification
--   outbox; Outbox/Notifications leases and acknowledges notifications; Outbox/Domain does so for
--   domain events. Outbox/Notifications/Leases and Acks are about single calls, Outbox/Traces about any
--   sequence of calls.
-- * Work (src/priority.ts, src/scheduler.ts, src/provider_jobs.ts, the lease checks of src/auth.ts).
--   Priority is the queue of candidate signals, Jobs the verification jobs of sources and providers,
--   Providers src/provider_runtime.ts.
--   Jobs/Search is enqueueProviderSearch with its budget in Jobs/Budget.
-- * Offers (src/provider_results.ts, src/offer_lifecycle.ts, part of src/direct_candidate.ts). Offers
--   has their tables and how a direct candidate's fare goes stale, Offers/Promotion the constraints of
--   a promotion, Offers/Recompute the verification of a fare from its live offers, Offers/Projecting
--   how a job's results reach the fares that wait for them; Offers/Supports and Offers/Best hold
--   theorems. Lifecycle has the events of offers that have expired; Lifecycle/Expiry and
--   Lifecycle/Tick are the turn that `scheduled` takes, and the other files below Lifecycle hold
--   theorems. projectDirectVerifiedCandidate of src/direct_candidate.ts is a parameter, whose result
--   is the candidates' tables and domain_outbox, to which it writes only for a CONFIRMED fare.
-- * Agencies (src/agency_expiry.ts, src/agency_recheck.ts, src/agency_checkout.ts,
--   src/agency_security.ts). Agencies has the rows of agencies' offers and the expiry, Agencies/Recheck
--   the leases of the sellers' rechecks, Agencies/Recheck/Settling the completion of one,
--   Agencies/Checkout the checkout jobs and their leases, Agencies/Completing the completion of one;
--   Agencies/Closing, Agencies/Outcomes, Agencies/Soldout and Agencies/Recheck/Confirming hold theorems.
-- * Decisions. Core is src/core.ts with the types of src/types.ts: the cost of a trip, readiness and
--   acceptance rules. Readiness is src/readiness_runtime.ts, Policy src/policy.ts, Verification
--   src/verification.ts, Strategy src/strategy.ts, FourLeg src/four_leg.ts,
--   Baggage src/baggage.ts.
-- * Acceptance (src/shadow_acceptance.ts, src/shadow.ts). ShadowAcceptance holds the reviews and the
--   readback, ShadowSamples the counts of src/shadow.ts.
-- Db has the rows of the shared tables, Sql the forms of SQL statement that the code sends and the laws
-- of those forms, Runtime what the code calls of JavaScript and of SQLite on texts (a parameter, of
-- which nothing is assumed), Prelude the shared tests, lists, results and integers, Tests concrete runs.
--
-- The model. A function that runs statements takes the tables and returns the new ones; a throw is
-- `err`. A table is a list of rows, its primary key the predicate `Distinct`; an UPDATE with a
-- subselect and RETURNING is `Sql.claim`; rows that tie in an ORDER BY keep the table's order. A time
-- is the number of milliseconds of its ISO text; texts that the code parses go through a parameter
-- `parse` for Date.parse, `none` for NaN. Text keys are native strings. Money and scores are whole
-- numbers. JavaScript's numbers, which may be fractional, are not modelled otherwise. HMAC and SHA-256
-- are the fields of `Auth.Platform`; the digest of a review is a parameter; nothing is assumed of them.
-- No definition runs on fuel: every loop of the code is structural recursion over a list.
--
-- A request that a key lets in has its nonce stored before anything else is looked at, whatever
-- becomes of it. The limits that a client sends unvalidated, those of leaseProviderJobs and of
-- /candidate-priority/lease, are integers, since SQLite takes a negative LIMIT for none; those of
-- the other functions are natural numbers, so that the negative ones which src/worker.ts lets through to
-- leaseNotifications, claimDomainEvents and leaseVerificationJobs are left out.
--
-- A SELECT without ORDER BY gives the table's order. A function that may throw after it has written
-- returns the tables beside its answer, so the writes before the throw stay. Foreign keys are not
-- modelled.
--
-- Not modelled: the route /health; the ingest, pricing, policy registry, profile, transfer
-- and search-planner modules of src/; the candidate intake; the periodic scheduling of sources
-- in src/scheduler.ts; the SQL of migrations/ other than the columns that the modelled statements
-- read; the Python workers and scripts.
pub mod Prelude
pub mod Sql
pub mod Db
pub mod Runtime
pub mod Outbox
pub mod Baggage
pub mod Core
pub mod Auth
pub mod Api
pub mod Policy
pub mod ShadowSamples
pub mod Providers
pub mod Audit
pub mod Readiness
pub mod ShadowAcceptance
pub mod Strategy
pub mod Jobs
pub mod Offers
pub mod Lifecycle
pub mod Agencies
pub mod Priority
pub mod FourLeg
pub mod Verification
pub mod Tests
