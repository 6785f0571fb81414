-- ===== src/Tests/Offers.antt =====
-- The theorems of the searches, the offers and their lifecycle at concrete tables.
use fareradar.Prelude.{
  ℕ, suc, ◌≤◌, String, true, false, Option, none, some, List, [], ◌∷◌, ◌≡◌, ◌≢◌, refl, ◌⊎◌, inl,
  str_eq, In, length, arith, Result, ok, find, if◌then◌else◌,
}
use fareradar.Sql.{mem}
use fareradar.Sql.Claims.{Distinct}
use fareradar.Runtime.{Runtime, Moment}
use fareradar.Verification.{State, confirmed, probable}
use fareradar.Providers.{ProviderAccess}
use fareradar.Jobs.Budget.{
  PricingSnapshot, UsageWindow, in_window, limit_for, searches_of, reserve_window,
  search_within_budget,
}
use fareradar.Jobs.Search.{
  Slice, Passenger, ExactFlightQuery, Mode, background, SearchInput, SearchTables, Enqueued, Hashes,
  enqueue_provider_search, enqueue_search_once,
}
use fareradar.Offers.{
  OfferSnapshot, OfferLink, VerificationResult, primary, Support, SearchPlan, Candidates, Offers,
  Constraint,
}
use fareradar.Offers.Recompute.{Projection, Verdict, verdict, linked, result_id_of}
use fareradar.Offers.Projecting.{Projected, Tables, recompute_candidate_verification}
use fareradar.Offers.Supports.{Counts, supports_backed}
use fareradar.Offers.Best.{best_cheapest}
use fareradar.Offers.Promotion.{promotion_constraint_for_queue}
use fareradar.Lifecycle.{
  LifecycleEvent, Life, CorrectionState, RepriceState, Finished, chosen_plans,
}
use fareradar.Lifecycle.Expiry.{Due, next_due}
use fareradar.Lifecycle.Tick.{expire_at}
use fareradar.Lifecycle.Progress.{work, turns, pending_drained}
use fareradar.Lifecycle.Withdrawn.{Withdrawn, downgrade_withdraws}
use fareradar.Lifecycle.Unseen.{lost_fare_unseen}
use fareradar.Lifecycle.Repricing.{provider_of, reprices_two_providers}
use fareradar.Tests.{empty_db}

-- "E" is the time 10, "N" the time 5000, and "2026-01-10T00:00:00Z" is a date.
abbrev pub clock : String → Option ℕ
clock t =
    if str_eq t "E"
    then some 10
    else if str_eq t "N"
    then some 5000
    else if str_eq t "2026-01-10T00:00:00Z"
    then some 9000000
    else none

abbrev pub runtime : Runtime
runtime = record {
  parse = clock;
  sql_time = clock;
  locale_le = λ a b. true;
  text_le = λ a b. true;
  upper = λ s. s;
  alphanumeric = λ s. s;
  safe = λ s. s;
  trim = λ s. s;
  month = λ s. "2026-01";
}

abbrev pub at : ℕ → Moment
at ms = record { iso = "N"; ms = ms }

abbrev access : ProviderAccess
access = record {
  provider_id = "duffel";
  terms_snapshot_at = some "E";
  kill_switch_state = "CLEAR";
  connector_state = "IMPLEMENTED";
  supported_verification = "LIVE_REPRICE" ∷ [];
  background_allowed = true;
  look_to_book_budget = some 20;
}

abbrev pricing : PricingSnapshot
pricing = record {
  pricing_snapshot_id = "s1";
  provider_id = "duffel";
  usage_window_kind = "CALENDAR_MONTH";
  search_to_book_threshold = 15;
  hard_search_cap = none;
  active = true;
  effective_from = 0;
  expires_at = 100000;
  observed_at = 0;
}

abbrev window : ℕ → UsageWindow
window n = record {
  provider_id = "duffel";
  window_key = "2026-01";
  pricing_snapshot_id = "s1";
  search_count = n;
  confirmed_order_count = 0;
  circuit_open = false;
  updated_at = 0;
}

search_within_budget_example :
    (w : UsageWindow) × (find
        (in_window "duffel" "2026-01")
        (record (window 15) { updated_at = 5 } ∷ [])
      ≡ some w)
    × (w.search_count ≡ suc (searches_of (find (in_window "duffel" "2026-01") (window 14 ∷ []))))
    × (w.search_count
        ≤ limit_for access pricing (find (in_window "duffel" "2026-01") (window 14 ∷ [])))
    × (w.circuit_open ≡ false)
unfolding reserve_window fareradar.Jobs.Budget.effective_limit fareradar.Sql.update_where
search_within_budget_example =
    search_within_budget runtime access pricing "duffel" (at 5) (window 14 ∷ [])
      (record (window 15) { updated_at = 5 } ∷ []) refl

abbrev query : ExactFlightQuery
query = record {
  slices = record { origin = "TPE"; destination = "NRT"; departure_date = "2026-01-10" } ∷ [];
  passengers = record { type = some "adult"; age = none } ∷ [];
  max_connections = none;
}

abbrev hashes : Hashes
hashes = record { fingerprint = λ q. "f1"; digest = λ s. s; payload = λ i fp. fp }

abbrev search : SearchInput
search = record {
  provider_id = "duffel";
  mode = background;
  query = query;
  refresh_key = some "e1";
}

abbrev tables0 : SearchTables
tables0 = record { verification_jobs = []; provider_usage_windows = window 3 ∷ [] }

abbrev first_answer : Enqueued
first_answer = record {
  job_id = "provider:duffel:f1:refresh:e1";
  query_fingerprint = "f1";
  idempotent = false;
}

enqueue_search_once_example :
    enqueue_provider_search runtime hashes
      (access ∷ [])
      (pricing ∷ [])
      (enqueue_provider_search runtime hashes (access ∷ []) (pricing ∷ []) tables0 search (at 5)).0
      search
      (at 90)
    ≡ (
      (enqueue_provider_search runtime hashes (access ∷ []) (pricing ∷ []) tables0 search (at 5)).0,
      ok (record first_answer { idempotent = true }),
    )
unfolding enqueue_provider_search fareradar.Jobs.Search.validate_exact_flight_query
    fareradar.Jobs.Budget.reserve_provider_search_budget fareradar.Sql.order_by
    fareradar.Jobs.Budget.effective_limit
enqueue_search_once_example =
    enqueue_search_once runtime hashes (access ∷ []) (pricing ∷ []) tables0
      (enqueue_provider_search runtime hashes (access ∷ []) (pricing ∷ []) tables0 search (at 5)).0
      search (at 5) (at 90) first_answer refl

-- A live offer of an airline, and a cheaper one of another provider.
abbrev offer : String → String → ℕ → OfferSnapshot
offer id provider total = record {
  provider_offer_id = id;
  query_fingerprint = "f1";
  provider = provider;
  offer_total = total;
  currency = "TWD";
  expires_at = some "E";
  live = true;
  source_snapshot_id = none;
  structure = none;
}

abbrev link : String → OfferLink
link id = record {
  queue_id = "q1";
  plan_id = "p1";
  job_id = "j1";
  provider_offer_id = id;
  query_fingerprint = "f1";
  created_at = 0;
}

abbrev plan : String → String → SearchPlan
plan id provider = record {
  plan_id = id;
  queue_id = "q1";
  provider_id = provider;
  query_fingerprint = "f1";
  query = ok query;
  created_at = "E";
}

abbrev offers : Offers
offers = record {
  offer_snapshots = offer "o1" "airline:br" 900 ∷ offer "o2" "duffel" 800 ∷ [];
  candidate_offer_links = link "o1" ∷ link "o2" ∷ [];
  candidate_verification_results = [];
  candidate_verification_supports = [];
  promotion_events = [];
  provider_search_plans = [];
  provider_job_consumers = [];
  candidates = record { itinerary_candidates = []; readiness_facets = [] };
}

abbrev tables : Tables
tables = record { db = empty_db; offers = offers }

abbrev no_project : Tables → Projection → Moment → Result Projected
no_project t p now =
    ok (record { candidates = t.offers.candidates; domain_outbox = t.db.domain_outbox })

abbrev confirmed_tables : Tables
confirmed_tables = (recompute_candidate_verification runtime no_project tables "q1" "f1" (at 5)).0

abbrev the_verdict : ℕ → Verdict
the_verdict ms =
    verdict runtime none (offer "o1" "airline:br" 900 ∷ offer "o2" "duffel" 800 ∷ []) (at ms)

abbrev the_support : Support
the_support = record {
  result_id = "verify:q1:f1";
  provider_offer_id = "o1";
  support_role = primary;
  created_at = 5;
}

supports_backed_example :
    ((the_verdict 5).verification_state ≡ confirmed)
    × ((o : OfferSnapshot) × Counts runtime
          (promotion_constraint_for_queue tables.db.candidate_priority_queue
            tables.offers.promotion_events "q1")
          (linked tables.offers "q1" "f1")
          (at 5)
          o
        × (o.provider_offer_id ≡ the_support.provider_offer_id))
unfolding recompute_candidate_verification fareradar.Offers.Recompute.upsert_result verdict linked
    promotion_constraint_for_queue fareradar.Sql.order_by
    fareradar.Verification.verify_multi_provider fareradar.Verification.is_live
    fareradar.Offers.Recompute.write_verification_supports
supports_backed_example =
    supports_backed runtime no_project tables confirmed_tables "q1" "f1" (at 5) (the_verdict 5)
      the_support refl (inl refl) refl

best_cheapest_example :
    Counts runtime none (linked offers "q1" "f1") (at 5) (offer "o1" "airline:br" 900)
    × ((o : OfferSnapshot)
        → Counts runtime none (linked offers "q1" "f1") (at 5) o
        → ((verdict runtime none (linked offers "q1" "f1") (at 5)).verification_state ≡ probable)
          ⊎ (mem o.provider_offer_id
                (verdict runtime none (linked offers "q1" "f1") (at 5)).supporting_offer_ids
              ≡ true)
        → 900 ≤ o.offer_total)
unfolding verdict linked fareradar.Sql.order_by fareradar.Verification.verify_multi_provider
    fareradar.Verification.is_live
best_cheapest_example =
    best_cheapest runtime (at 5) none (linked offers "q1" "f1") (offer "o1" "airline:br" 900) refl

abbrev pending_event : LifecycleEvent
pending_event = record {
  event_id = "e1";
  result_id = "verify:q1:f1";
  queue_id = "q1";
  query_fingerprint = "f1";
  itinerary_id = some "direct:q1:f1";
  provider_offer_id = "o1";
  previous_verification_state = confirmed;
  new_verification_state = probable;
  effective_at = some "E";
  support_provider_ids = "duffel" ∷ [];
  had_visible_notification = true;
  correction_state = CorrectionState.pending;
  reprice_state = RepriceState.pending;
  last_error = [];
  created_at = 0;
  updated_at = 0;
}

abbrev life : Tables → List LifecycleEvent → Life
life t events = record { tables = t; events = events; provider_usage_windows = [] }

pending_drained_example :
    work
      (turns runtime hashes
        (access ∷ [])
        (pricing ∷ [])
        no_project
        ("N" ∷ "N" ∷ [])
        (life tables (pending_event ∷ []))).events
    ≡ 0
pending_drained_example =
    pending_drained runtime hashes (access ∷ []) (pricing ∷ []) no_project ("N" ∷ "N" ∷ [])
      (life tables (pending_event ∷ [])) (refl, (refl, tt)) (omega arith)

abbrev due : Due
due = record {
  result = record {
    result_id = "verify:q1:f1";
    queue_id = "q1";
    query_fingerprint = "f1";
    verification_state = confirmed;
    reason = "AIRLINE_DIRECT";
    best_offer_id = some "o1";
    best_offer_total = some 900;
    currency = some "TWD";
    live_offer_count = 2;
    provider_count = 2;
    updated_at = 5;
  };
  offer = offer "o1" "airline:br" 900;
}

abbrev expired_answer : Finished
expired_answer = record {
  event_id = "live-life:verify:q1:f1:o1";
  reprice_state = RepriceState.failed;
  correction_state = CorrectionState.not_required;
  reprice_jobs = [];
  errors = "REPRICE_PLAN_MISSING" ∷ [];
}

downgrade_withdraws_example :
    Withdrawn runtime confirmed_tables.db due
      (expire_at runtime hashes
        (access ∷ [])
        (pricing ∷ [])
        no_project
        (life confirmed_tables [])
        (at 5000)).0
unfolding next_due expire_at recompute_candidate_verification fareradar.Sql.order_by
    fareradar.Offers.Recompute.upsert_result verdict linked promotion_constraint_for_queue
    fareradar.Verification.verify_multi_provider fareradar.Verification.is_live
    fareradar.Offers.Recompute.write_verification_supports
    fareradar.Lifecycle.finish_lifecycle_event
downgrade_withdraws_example =
    downgrade_withdraws runtime hashes (access ∷ []) (pricing ∷ []) no_project
      (life confirmed_tables [])
      (expire_at runtime hashes (access ∷ []) (pricing ∷ []) no_project (life confirmed_tables [])
        (at 5000)).0
      (at 5000) due "o1" expired_answer refl refl

abbrev lost_tables : Tables
lost_tables =
    (recompute_candidate_verification runtime no_project confirmed_tables "q1" "f1" (at 5000)).0

lost_fare_unseen_example :
    ((d : Due)
      → next_due runtime (life lost_tables []) (at 9000) ≡ some d
      → d.result.result_id ≢ result_id_of runtime "q1" "f1")
    × (lost_tables.db ≡ confirmed_tables.db)
unfolding recompute_candidate_verification fareradar.Offers.Recompute.upsert_result verdict linked
    promotion_constraint_for_queue fareradar.Sql.order_by
    fareradar.Verification.verify_multi_provider fareradar.Verification.is_live
lost_fare_unseen_example =
    lost_fare_unseen runtime no_project confirmed_tables lost_tables "q1" "f1" (at 5000) (at 9000)
      (the_verdict 5000) (life lost_tables []) refl refl refl

reprices_two_providers_example :
    (length (chosen_plans runtime pending_event (plan "p1" "duffel" ∷ plan "p2" "duffel" ∷ [])) ≤ 2)
    × Distinct provider_of
        (chosen_plans runtime pending_event (plan "p1" "duffel" ∷ plan "p2" "duffel" ∷ []))
    × ((p : SearchPlan)
        → In p (chosen_plans runtime pending_event (plan "p1" "duffel" ∷ plan "p2" "duffel" ∷ []))
        → In p (plan "p1" "duffel" ∷ plan "p2" "duffel" ∷ [])
          × (p.queue_id ≡ pending_event.queue_id)
          × (p.query_fingerprint ≡ pending_event.query_fingerprint))
reprices_two_providers_example =
    reprices_two_providers runtime pending_event (plan "p1" "duffel" ∷ plan "p2" "duffel" ∷ [])
