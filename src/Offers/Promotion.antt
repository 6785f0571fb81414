-- ===== src/Offers/Promotion.antt =====
-- src/provider_results.ts: what a promotion asks of an offer before the offer may count for it.
use fareradar.Prelude.{
  String, Bool, true, false, Option, none, some, List, [], ◌∷◌, ◌&&◌, ◌||◌, not, str_eq, truthy,
  truthy_opt, get_or, all, filter, map, if◌then◌else◌,
}
use Prim.Native.String.{◌++◌ as str_append}
use fareradar.Sql.{mem, find_row}
use fareradar.Db.{CandidateSignal, SignalType, promotion, agency_clearance}
use fareradar.Runtime.{Runtime}
use fareradar.Offers.{
  Segment, PromotionEvidence, Structure, OfferSnapshot, Constraint, PromotionEvent,
}

pub data Status : Type 0 where
  pass mismatch unverified : Status

pub record Decision : Type 0 where
  pub status : Status
  pub reason : String

abbrev pub or_else : Option String → Option String → Option String
or_else none y = y
or_else (some x) y = some x

abbrev is_empty : List String → Bool
is_empty [] = true
is_empty (x ∷ xs) = false

-- What is null reads as an object with nothing in it.
abbrev no_evidence : PromotionEvidence
no_evidence = record { coupon_applied = false; fare_brand = none; baggage_bundle = none }

abbrev empty_structure : Structure
empty_structure = record {
  slices = none;
  fare_brand = none;
  baggage_bundle = none;
  promotion_evidence = no_evidence;
}

abbrev pub empty_constraint : Constraint
empty_constraint = record {
  eligible_flight_numbers = none;
  sales_currency = none;
  coupon_required = false;
  fare_brand = none;
  baggage_bundle = none;
}

module _ (R : Runtime) where
  unfoldable pub flight_token : Option String → String
  flight_token v = R.alphanumeric (R.upper (get_or v ""))

  unfoldable pub text_token : Option String → String
  text_token v = R.upper (R.trim (get_or v ""))

  -- A segment flies under an allowed number, with or without its carrier's code.
  unfoldable pub segment_allowed : List String → Segment → Bool
  unfolding flight_token
  segment_allowed allow s =
      let number = flight_token s.flight_number in
      let marketing = flight_token s.marketing_carrier in
      truthy number
      && (mem number allow || (truthy marketing && mem (str_append marketing number) allow))

  -- A slice is an array of segments that is not empty, each allowed.
  unfoldable pub slice_allowed : List String → Option (List Segment) → Bool
  unfolding segment_allowed
  slice_allowed allow none = false
  slice_allowed allow (some []) = false
  slice_allowed allow (some (s ∷ ss)) = all (segment_allowed allow) (s ∷ ss)

  unfoldable pub slices_allowed : List String → Option (List (Option (List Segment))) → Bool
  unfolding slice_allowed
  slices_allowed allow none = false
  slices_allowed allow (some []) = false
  slices_allowed allow (some (x ∷ xs)) = all (slice_allowed allow) (x ∷ xs)

  abbrev pub eligible_tokens : Option (List String) → List String
  eligible_tokens numbers = filter truthy (map (λ n. flight_token (some n)) (get_or numbers []))

  -- offerMatchesEligibleFlights: with no number that has a letter or a digit, every flight matches.
  unfoldable pub offer_matches_eligible_flights : Option Structure → Option (List String) → Bool
  unfolding slices_allowed
  offer_matches_eligible_flights structure eligible =
      is_empty (eligible_tokens eligible)
      || slices_allowed (eligible_tokens eligible) (get_or structure empty_structure).slices

  -- The text that is asked for, against the one observed, if it is asked for.
  abbrev asked_text : Option String → Option String → Decision → Decision → Decision → Decision
  asked_text asked observed missing wrong rest =
      if not (truthy_opt asked)
      then rest
      else if not (truthy_opt observed)
      then missing
      else if not (str_eq (text_token observed) (text_token asked))
      then wrong
      else rest

  -- evaluatePromotionOfferConstraints.
  unfoldable pub evaluate_promotion_offer_constraints : OfferSnapshot → Constraint → Decision
  unfolding offer_matches_eligible_flights text_token
  evaluate_promotion_offer_constraints o c =
      let s = get_or o.structure empty_structure in
      let bundle =
        asked_text c.baggage_bundle (or_else s.baggage_bundle s.promotion_evidence.baggage_bundle)
          (record { status = unverified; reason = "PROMOTION_BAGGAGE_BUNDLE_UNVERIFIED" })
          (record { status = mismatch; reason = "PROMOTION_BAGGAGE_BUNDLE_MISMATCH" })
          (record { status = pass; reason = "PROMOTION_CONSTRAINTS_SATISFIED" }) in
      let brand =
        asked_text c.fare_brand (or_else s.fare_brand s.promotion_evidence.fare_brand)
          (record { status = unverified; reason = "PROMOTION_FARE_BRAND_UNVERIFIED" })
          (record { status = mismatch; reason = "PROMOTION_FARE_BRAND_MISMATCH" }) bundle in
      if not (is_empty (get_or c.eligible_flight_numbers []))
        && not (offer_matches_eligible_flights o.structure c.eligible_flight_numbers)
      then record { status = mismatch; reason = "PROMOTION_FLIGHT_NUMBER_MISMATCH" }
      else if truthy_opt c.sales_currency
          && not (str_eq (text_token (some o.currency)) (text_token c.sales_currency))
      then record { status = mismatch; reason = "PROMOTION_SALES_CURRENCY_MISMATCH" }
      else if c.coupon_required && not s.promotion_evidence.coupon_applied
      then record { status = unverified; reason = "PROMOTION_COUPON_UNVERIFIED" }
      else brand

abbrev is_promotion : SignalType → Bool
is_promotion promotion = true
is_promotion agency_clearance = false

-- promotionConstraintForQueue: `none` where the signal is no promotion.
unfoldable pub promotion_constraint_for_queue :
    List CandidateSignal → List PromotionEvent → String → Option Constraint
promotion_constraint_for_queue signals events queue =
    elim (find_row (λ q. q.queue_id) queue signals) [
      | none ↦ none
      | some q ↦
          if is_promotion q.signal_type
          then elim (find_row (λ e. e.event_id) q.signal_id events) [
            | none ↦ some empty_constraint
            | some e ↦ e.constraint
          ]
          else none
    ]
