-- ===== src/Api/Routes.antt =====
-- src/worker.ts, the table of the POST routes of `fetch`, in the order of the code.
use fareradar.Prelude.{
  ℕ, String, true, false, Option, none, some, List, [], ◌∷◌, ◌++◌, str_eq, if◌then◌else◌,
}
use fareradar.Api.{
  signed, worker_token, Check, parse_body, parse_uncaught, in_scope, has_worker, source_lease,
  completes_lease, shadow_mode, runtime_commit, access_scope, audit_gate, provider_lease, Rule,
  equals, includes, Route, Runtime, Caller, Response, Operations, serve,
}

-- A signed route that catches its errors, with 400 where no rule fits.
abbrev signed_route : List Check → ℕ → List Rule → Route
signed_route checks success rules = record {
  guard = signed;
  role = none;
  checks = checks;
  success = success;
  catches = true;
  rules = rules;
  default = 400;
}

-- A route for one reviewer's role.
abbrev reviewed : String → Route → Route
reviewed role r = record r { role = some role }

-- Any other error is answered with 409.
abbrev conflict : Route → Route
conflict r = record r { default = 409 }

-- A route without a `try`.
abbrev uncaught : Route → Route
uncaught r = record r { catches = false }

-- A route for the worker's token.
abbrev for_worker : Route → Route
for_worker r = record r { guard = worker_token }

-- Routes of /audit/evidence.
abbrev evidence_routes : List (String × Route)
evidence_routes =
    (
      "/audit/evidence",
      signed_route (parse_body ∷ audit_gate ∷ []) 202
          (equals "AUDIT_EVIDENCE_CONFLICT" 409 ∷ equals "RUNTIME_COMMIT_UNAVAILABLE" 503 ∷ []),
    )
    ∷ []

-- Routes of discovery, profiles, policies and ingest.
abbrev intake_routes : List (String × Route)
intake_routes =
    ("/source-discovery/edge", signed_route (parse_body ∷ []) 202 [])
    ∷ ("/profiles/upsert", signed_route (parse_body ∷ []) 202 [])
    ∷ ("/profiles/entitlements/upsert", signed_route (parse_body ∷ []) 202 [])
    ∷ (
      "/policies/ingest",
      signed_route (parse_body ∷ []) 202 (equals "POLICY_RECORD_IMMUTABLE_CONFLICT" 409 ∷ []),
    )
    ∷ ("/itineraries/policy-enrich", signed_route (parse_body ∷ []) 202 [])
    ∷ (
      "/offers/ingest",
      signed_route
          (parse_body ∷ in_scope ∷ provider_lease (λ x. x.source_snapshot_id) "LIVE_REPRICE" ∷ [])
          202 (equals "OFFER_ID_CONFLICT" 409 ∷ []),
    )
    ∷ (
      "/candidate-plan/intake",
      signed_route (parse_body ∷ []) 202 (equals "IDEMPOTENCY_CONFLICT" 409 ∷ []),
    )
    ∷ ("/ingest/agency", signed_route (parse_body ∷ in_scope ∷ []) 202 [])
    ∷ ("/ingest/email", signed_route (parse_body ∷ in_scope ∷ []) 202 [])
    ∷ ("/ingest", for_worker (signed_route (parse_body ∷ source_lease ∷ []) 202 []))
    ∷ []

-- Routes of notifications, domain events, jobs and agencies.
abbrev queue_routes : List (String × Route)
queue_routes =
    ("/notifications/lease", uncaught (signed_route (parse_uncaught ∷ []) 200 []))
    ∷ ("/notifications/ack", conflict (signed_route (parse_uncaught ∷ has_worker ∷ []) 200 []))
    ∷ ("/domain/lease", uncaught (signed_route (parse_uncaught ∷ []) 200 []))
    ∷ ("/domain/ack", conflict (signed_route (parse_uncaught ∷ has_worker ∷ []) 200 []))
    ∷ (
      "/verification-jobs/lease",
      for_worker (uncaught (signed_route (parse_uncaught ∷ has_worker ∷ []) 200 [])),
    )
    ∷ (
      "/verification-jobs/complete",
      for_worker (uncaught (signed_route (parse_uncaught ∷ completes_lease ∷ []) 200 [])),
    )
    ∷ ("/agency-rechecks/lease", signed_route (parse_body ∷ in_scope ∷ []) 200 [])
    ∷ (
      "/agency-rechecks/complete",
      signed_route (parse_body ∷ in_scope ∷ []) 202
          (equals "AGENCY_RECHECK_IMMUTABLE_CONFLICT" 409 ∷ includes "LIVE_LEASE" 403 ∷ []),
    )
    ∷ ("/agency-checkouts/lease", signed_route (parse_body ∷ in_scope ∷ []) 200 [])
    ∷ (
      "/agency-checkouts/complete",
      signed_route (parse_body ∷ in_scope ∷ []) 202
          (equals "AGENCY_CHECKOUT_IMMUTABLE_CONFLICT" 409 ∷ includes "LIVE_LEASE" 403 ∷ []),
    )
    ∷ []

-- Routes of signals, reviews and providers.
abbrev review_routes : List (String × Route)
review_routes =
    ("/candidate-priority/ack", conflict (signed_route (parse_uncaught ∷ has_worker ∷ []) 200 []))
    ∷ (
      "/sources/onboarding/review",
      reviewed "ACCESS_REVIEWER" (
          signed_route (parse_body ∷ in_scope ∷ runtime_commit ∷ []) 202
            (includes "IDEMPOTENCY_CONFLICT" 409 ∷ equals "RUNTIME_COMMIT_UNAVAILABLE" 503 ∷ [])),
    )
    ∷ (
      "/providers/access/review",
      reviewed "ACCESS_REVIEWER" (
          signed_route (parse_body ∷ in_scope ∷ runtime_commit ∷ []) 202
            (includes "IDEMPOTENCY_CONFLICT" 409 ∷ equals "RUNTIME_COMMIT_UNAVAILABLE" 503 ∷ [])),
    )
    ∷ (
      "/access/reviews/readback",
      reviewed "ACCESS_REVIEWER" (signed_route (parse_body ∷ access_scope ∷ []) 200 []),
    )
    ∷ (
      "/shadow/reviews",
      reviewed "SHADOW_REVIEWER" (
          signed_route (shadow_mode ∷ runtime_commit ∷ parse_body ∷ []) 202
            (includes "CONFLICT" 409 ∷ equals "RUNTIME_COMMIT_UNAVAILABLE" 503 ∷ [])),
    )
    ∷ (
      "/shadow/reviews/readback",
      reviewed "SHADOW_REVIEWER" (signed_route (parse_body ∷ []) 200 []),
    )
    ∷ (
      "/shadow/acceptance/readback",
      reviewed "SHADOW_REVIEWER"
          (signed_route (runtime_commit ∷ []) 200 (equals "RUNTIME_COMMIT_UNAVAILABLE" 503 ∷ [])),
    )
    ∷ ("/sources/disable", signed_route (parse_body ∷ []) 202 [])
    ∷ ("/providers/runtime/readback", signed_route (parse_body ∷ in_scope ∷ []) 202 [])
    ∷ []

-- Routes of provider search, quotes, costs and four-leg cycles.
abbrev pricing_routes : List (String × Route)
pricing_routes =
    (
      "/provider-pricing/ingest",
      signed_route (parse_body ∷ []) 202 (equals "PROVIDER_PRICING_IMMUTABLE_CONFLICT" 409 ∷ []),
    )
    ∷ ("/provider-pricing/order-confirmed", signed_route (parse_body ∷ []) 202 [])
    ∷ ("/provider-search/enqueue", signed_route (parse_body ∷ []) 202 [])
    ∷ ("/payment-profiles/upsert", signed_route (parse_body ∷ []) 202 [])
    ∷ ("/checkout-reprice/enqueue", signed_route (parse_body ∷ []) 202 [])
    ∷ (
      "/pricing-quotes/ingest",
      signed_route
          (parse_body ∷ in_scope ∷ provider_lease (λ x. x.source_job_id) "CHECKOUT_REPRICE" ∷ [])
          202 (equals "PRICING_QUOTE_ID_CONFLICT" 409 ∷ []),
    )
    ∷ (
      "/fx-snapshots/ingest",
      signed_route (parse_body ∷ []) 202 (equals "FX_SNAPSHOT_ID_CONFLICT" 409 ∷ []),
    )
    ∷ (
      "/cost-evidence-snapshots/ingest",
      signed_route (parse_body ∷ []) 202 (equals "COST_EVIDENCE_ID_CONFLICT" 409 ∷ []),
    )
    ∷ ("/cost-evidence/upsert", signed_route (parse_body ∷ []) 202 [])
    ∷ ("/cost-coverage/upsert", signed_route (parse_body ∷ []) 202 [])
    ∷ ("/cost/fx-attach", signed_route (parse_body ∷ []) 202 [])
    ∷ ("/cost/recompute-direct", signed_route (parse_body ∷ []) 200 [])
    ∷ ("/four-leg/cycles/upsert", signed_route (parse_body ∷ []) 202 [])
    ∷ ("/four-leg/cycles/transition", signed_route (parse_body ∷ []) 200 [])
    ∷ ("/four-leg/cycles/summary", signed_route (parse_body ∷ []) 200 [])
    ∷ []

-- Routes of ticketing, transfers, provider jobs and search plans.
abbrev planning_routes : List (String × Route)
planning_routes =
    (
      "/ticketing-policies/ingest",
      signed_route (parse_body ∷ []) 202 (equals "TICKETING_POLICY_IMMUTABLE_CONFLICT" 409 ∷ []),
    )
    ∷ ("/ticketing/evaluate", signed_route (parse_body ∷ []) 200 [])
    ∷ (
      "/connection-buffer-policies/ingest",
      signed_route (parse_body ∷ []) 202 (equals "BUFFER_POLICY_IMMUTABLE_CONFLICT" 409 ∷ []),
    )
    ∷ (
      "/airport-change-policies/ingest",
      signed_route (parse_body ∷ []) 202
          (equals "AIRPORT_CHANGE_POLICY_IMMUTABLE_CONFLICT" 409 ∷ []),
    )
    ∷ ("/transfers/evaluate", signed_route (parse_body ∷ []) 200 [])
    ∷ ("/provider-jobs/lease", conflict (signed_route (parse_body ∷ in_scope ∷ []) 200 []))
    ∷ ("/provider-jobs/complete", signed_route (parse_body ∷ in_scope ∷ []) 200 [])
    ∷ ("/search-campaigns/upsert", signed_route (parse_body ∷ []) 202 [])
    ∷ ("/search-planner/plan", signed_route (parse_body ∷ []) 202 [])
    ∷ ("/search-planner/dispatch", signed_route (parse_body ∷ []) 202 [])
    ∷ []

abbrev pub routes : List (String × Route)
routes =
    evidence_routes ++ intake_routes ++ queue_routes ++ review_routes ++ pricing_routes
    ++ planning_routes

-- The first `if` whose pathname is the request's.
unfoldable pub lookup_route : String → List (String × Route) → Option Route
lookup_route path [] = none
lookup_route path ((k, r) ∷ rest) =
    let other = lookup_route path rest in if str_eq path k then some r else other

module _ {S B : Type 0} (ops : Operations S B) where
  -- `fetch` of a POST request to a route of the table; `none` for any other path.
  unfoldable pub post : Runtime → String → S → Caller → ℕ → Option (S × Response B)
  unfolding lookup_route
  post env path s c now = elim (lookup_route path routes) [
    | none ↦ none
    | some route ↦ some (serve ops env route path s c now)
  ]
