-- ===== src/Tests/Decisions.antt =====
-- The theorems of costs, readiness, policies, verification and strategies at concrete inputs.
use fareradar.Baggage.{
  WeightFields, Bag, Passenger, Segment, Slice, OfferStructure, BaggageQuery, pass,
  evaluate_baggage_evidence,
}
use fareradar.Baggage.Included.{OfferIncludes, baggage_pass_iff}
use fareradar.Prelude.{
  Option, ℕ, String, true, false, none, some, List, [], ◌∷◌, map, ◌≡◌, refl, ◌≤◌, ◌↔◌, ◌&&◌, inl,
  all, All, length, In,
}
use fareradar.Prelude.Int.{pos, ◌+ℤ◌}
use fareradar.Core.{
  fare_verified, document_clear, connection_acceptable, baggage_feasible, cost_complete_facet,
  coupon_sequence_clear_facet, policy_fresh, finite, InclusionState, CostComponent, cash_trip_cost,
  VerificationState, FacetStatus, RequiredFacet, required_facets, ReadinessFacet, actionable,
}
use fareradar.Core.Cash.{firsts, charges, known_cost, cash_trip_cost_lem}
use fareradar.Core.Actionable.{IsReady, actionable_iff}
use fareradar.Readiness.{
  FacetRow, ItineraryRow, facet_of, evaluate_actionable, evaluation_is_actionable,
}
use fareradar.Policy.{PolicyRecord}
use fareradar.Verification.{Kind, VerificationEvidence, confirmed, verify_multi_provider}
use fareradar.Verification.Confirmation.{Supported, confirmed_iff}
use fareradar.Strategy.{
  Costs, Candidate, Options, dominates, pareto, bounded_strategy_search, is_eligible,
}
use fareradar.Strategy.Pareto.{AtLeast, pareto_complete}
use fareradar.Strategy.Search.{search_sound}
use fareradar.Tests.{parse}

abbrev bag : ℕ → CostComponent
bag n = record {
  dedupe_key = "bag";
  inclusion_state = InclusionState.add_on;
  twd_amount = some (finite (pos n));
}

cash_trip_cost_lem_example :
    ((cash_trip_cost (pos 100) (bag 7 ∷ bag 9 ∷ [])).cash_trip_cost_twd
      ≡ pos 100 +ℤ charges (firsts [] (bag 7 ∷ bag 9 ∷ [])))
    × ((cash_trip_cost (pos 100) (bag 7 ∷ bag 9 ∷ [])).cost_complete
        ≡ all known_cost (firsts [] (bag 7 ∷ bag 9 ∷ [])))
cash_trip_cost_lem_example = cash_trip_cost_lem (pos 100) (bag 7 ∷ bag 9 ∷ [])

abbrev facet : RequiredFacet → FacetRow
facet type = record { facet_type = type; status = FacetStatus.pass; expires_at = some "later" }

abbrev rows : List FacetRow
rows = map facet required_facets

abbrev facets : List ReadinessFacet
facets = map facet_of rows

actionable_iff_example : (actionable parse VerificationState.confirmed facets 60 ≡ true) ↔ (
    (VerificationState.confirmed ≡ VerificationState.confirmed)
    × All (IsReady parse 60 facets) (
        fare_verified ∷ document_clear ∷ connection_acceptable ∷ baggage_feasible
        ∷ cost_complete_facet ∷ coupon_sequence_clear_facet ∷ policy_fresh ∷ []))
actionable_iff_example = actionable_iff parse VerificationState.confirmed facets 60

abbrev itinerary : ItineraryRow
itinerary = record { verification_state = VerificationState.confirmed; cost_complete = true }

evaluation_is_actionable_example :
    (evaluate_actionable parse (some itinerary) rows 60).actionable
    ≡ (true && actionable parse VerificationState.confirmed (map facet_of rows) 60)
evaluation_is_actionable_example = evaluation_is_actionable parse refl itinerary rows 60

abbrev policy : PolicyRecord
policy = record {
  observed_at = "soon";
  effective_from = none;
  effective_to = none;
  ttl_hours = 24;
  watch_window_hours = some 2;
  status = none;
}

abbrev offer : String → ℕ → VerificationEvidence
offer provider price = record {
  evidence_id = some "e1";
  provider = provider;
  kind = Kind.live_offer;
  price = some price;
  query_fingerprint = some "q";
  expires_at = some "later";
  coverage_allowed = none;
}

confirmed_iff_example :
    ((verify_multi_provider parse (offer "a" 100 ∷ offer "b" 102 ∷ []) 60 3 100).state ≡ confirmed)
    ↔ Supported parse (offer "a" 100 ∷ offer "b" 102 ∷ []) 60 3 100
confirmed_iff_example = confirmed_iff parse (offer "a" 100 ∷ offer "b" 102 ∷ []) 60 3 100

abbrev cheap : Costs
cheap = record { cash = 5; elapsed = 9; risk = 1 }

abbrev quick : Costs
quick = record { cash = 9; elapsed = 5; risk = 1 }

abbrev poor : Costs
poor = record { cash = 9; elapsed = 9; risk = 2 }

abbrev three : List Costs
three = poor ∷ cheap ∷ quick ∷ []

pareto_complete_example : (b : Costs) × In b (pareto (λ c. c) three) × AtLeast b poor
pareto_complete_example = pareto_complete (λ c. c) three poor (inl refl)

abbrev candidate : String → Costs → Candidate
candidate id costs = record {
  id = id;
  strategy_id = "S01";
  costs = costs;
  tickets = 1;
  estimated_saving_vs_baseline = 0;
  route_prior = none;
  self_transfers = none;
  overnights = none;
  hard_filters_pass = none;
  finite = true;
}

abbrev options : Options
options = record {
  threshold_valid = true;
  expansion_threshold = 10;
  budget_valid = true;
  max_tickets = 4;
  max_self_transfers = 1;
  max_overnights = 1;
  max_nodes = 2;
  mainland_enabled = false;
  advanced_enabled = false;
}

search_sound_example : length (candidate "a" cheap ∷ candidate "b" quick ∷ []) ≤ 2
unfolding bounded_strategy_search fareradar.Sql.order_by pareto is_eligible
    fareradar.Strategy.strategy_level dominates
search_sound_example =
    (search_sound (λ s t. true)
      (candidate "c" poor ∷ candidate "b" quick ∷ candidate "a" cheap ∷ []) options
      (candidate "a" cheap ∷ candidate "b" quick ∷ []) refl).0

abbrev no_weight : WeightFields
no_weight = record { weight_kg = none; maximum_weight_kg = none; max_weight_kg = none }

abbrev heavy_bag : Bag
heavy_bag = record {
  bag_type = some "checked";
  quantity = some 1;
  weights = record { weight_kg = some 23; maximum_weight_kg = none; max_weight_kg = none };
  metadata = no_weight;
}

abbrev light_bag : Bag
light_bag = record heavy_bag { weights = no_weight }

-- One slice with one segment and one passenger, who has one bag.
abbrev offer_with : Bag → OfferStructure
offer_with b =
    let passenger : Passenger = record { baggages = some (b ∷ []) } in
    let segment : Segment = record { passengers = some (passenger ∷ []) } in
    let slice : Slice = record { segments = some (segment ∷ []) } in
    record { slices = some (some slice ∷ []); available_services = some [] }

abbrev one_bag : BaggageQuery
one_bag = record { checked_bags_by_slice = some (some 1 ∷ []); checked_bag_kg = some 20 }

weight_proven :
    (evaluate_baggage_evidence (some (offer_with heavy_bag)) (some one_bag)).status ≡ pass
unfolding evaluate_baggage_evidence fareradar.Baggage.evaluate_requirement
    fareradar.Baggage.evaluate_slices fareradar.Baggage.slice_fault fareradar.Baggage.segment_fault
    fareradar.Baggage.passenger_fault
weight_proven = refl

weight_unknown :
    (evaluate_baggage_evidence (some (offer_with light_bag)) (some one_bag)).reason
    ≡ "INCLUDED_BAG_WEIGHT_UNKNOWN"
unfolding evaluate_baggage_evidence fareradar.Baggage.evaluate_requirement
    fareradar.Baggage.evaluate_slices fareradar.Baggage.slice_fault fareradar.Baggage.segment_fault
    fareradar.Baggage.passenger_fault
weight_unknown = refl

baggage_pass_iff_example :
    ((evaluate_baggage_evidence (some (offer_with heavy_bag)) (some one_bag)).status ≡ pass) ↔ (
      (q : BaggageQuery) × (bags : List (Option ℕ)) × (some one_bag ≡ some q)
      × (q.checked_bags_by_slice ≡ some bags)
      × OfferIncludes (some (offer_with heavy_bag)) q bags)
baggage_pass_iff_example = baggage_pass_iff (some (offer_with heavy_bag)) (some one_bag)
