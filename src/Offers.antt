-- ===== src/Offers.antt =====
-- The tables of offers and of what is verified by them (columns from migrations/), which
-- src/provider_results.ts, src/offer_lifecycle.ts and src/direct_candidate.ts share, and the
-- statements by which a direct candidate's fare goes stale. JSON texts are the values that the code
-- reads from them.
pub mod Promotion
pub mod Recompute
pub mod Projecting
pub mod Supports
pub mod Best
use fareradar.Prelude.{
  ℕ, String, Bool, true, false, Option, none, some, List, [], ◌∷◌, ◌++◌, ◌&&◌, str_eq, find,
  is_some, if◌then◌else◌,
}
use Prim.Native.String.{◌++◌ as str_append}
use fareradar.Prelude.{Result}
use fareradar.Sql.{update_where, find_row}
use fareradar.Core.{
  VerificationState, probable, FacetStatus, stale, RequiredFacet, fare_verified, same_facet,
}
use fareradar.Db.{Db}
use fareradar.Runtime.{Runtime, Moment}
use fareradar.Verification.{State}
use fareradar.Jobs.Search.{ExactFlightQuery}
use fareradar.Jobs.Budget.{UsageWindow}

pub record Segment : Type 0 where
  pub flight_number : Option String
  pub marketing_carrier : Option String

pub record PromotionEvidence : Type 0 where
  pub coupon_applied : Bool
  pub fare_brand : Option String
  pub baggage_bundle : Option String

-- offer_structure_json: `slices`, and the segments of a slice, are `none` where they are no arrays.
pub record Structure : Type 0 where
  pub slices : Option (List (Option (List Segment)))
  pub fare_brand : Option String
  pub baggage_bundle : Option String
  pub promotion_evidence : PromotionEvidence

-- `live` is cached_or_live='LIVE'. The structure is `none` where its text is null or does not parse.
pub record OfferSnapshot : Type 0 where
  pub provider_offer_id : String
  pub query_fingerprint : String
  pub provider : String
  pub offer_total : ℕ
  pub currency : String
  pub expires_at : Option String
  pub live : Bool
  pub source_snapshot_id : Option String
  pub structure : Option Structure

pub record OfferLink : Type 0 where
  pub queue_id : String
  pub plan_id : String
  pub job_id : String
  pub provider_offer_id : String
  pub query_fingerprint : String
  pub created_at : ℕ

pub record VerificationResult : Type 0 where
  pub result_id : String
  pub queue_id : String
  pub query_fingerprint : String
  pub verification_state : State
  pub reason : String
  pub best_offer_id : Option String
  pub best_offer_total : Option ℕ
  pub currency : Option String
  pub live_offer_count : ℕ
  pub provider_count : ℕ
  pub updated_at : ℕ

pub data SupportRole : Type 0 where
  primary support : SupportRole

pub record Support : Type 0 where
  pub result_id : String
  pub provider_offer_id : String
  pub support_role : SupportRole
  pub created_at : ℕ

-- What a promotion's constraint_json asks of an offer.
pub record Constraint : Type 0 where
  pub eligible_flight_numbers : Option (List String)
  pub sales_currency : Option String
  pub coupon_required : Bool
  pub fare_brand : Option String
  pub baggage_bundle : Option String

-- `constraint` is `none` for the JSON null; a text that does not parse reads as the empty object.
pub record PromotionEvent : Type 0 where
  pub event_id : String
  pub constraint : Option Constraint

-- `query` is JSON.parse of query_json, or the error that it throws.
pub record SearchPlan : Type 0 where
  pub plan_id : String
  pub queue_id : String
  pub provider_id : String
  pub query_fingerprint : String
  pub query : Result ExactFlightQuery
  pub created_at : String

pub record JobConsumer : Type 0 where
  pub job_id : String
  pub plan_id : String
  pub queue_id : String
  pub created_at : ℕ

pub record Itinerary : Type 0 where
  pub itinerary_id : String
  pub verification_state : VerificationState
  pub cost_complete : Bool
  pub updated_at : ℕ

pub record Facet : Type 0 where
  pub itinerary_id : String
  pub facet_type : RequiredFacet
  pub status : FacetStatus
  pub reason_code : String
  pub observed_at : String
  pub expires_at : Option String
  pub authority : String
  pub evidence_id : String

-- The tables that the projection of a verified fare writes.
pub record Candidates : Type 0 where
  pub itinerary_candidates : List Itinerary
  pub readiness_facets : List Facet

-- The tables that the projection of a provider's results reads and writes.
pub record Offers : Type 0 where
  pub offer_snapshots : List OfferSnapshot
  pub candidate_offer_links : List OfferLink
  pub candidate_verification_results : List VerificationResult
  pub candidate_verification_supports : List Support
  pub promotion_events : List PromotionEvent
  pub provider_search_plans : List SearchPlan
  pub provider_job_consumers : List JobConsumer
  pub candidates : Candidates

abbrev pub offer_key : OfferSnapshot → String
offer_key o = o.provider_offer_id

unfoldable pub direct_itinerary_id : Runtime → String → String → String
direct_itinerary_id R queue fingerprint =
    str_append "direct:" (str_append (R.safe queue) (str_append ":" fingerprint))

-- UPDATE itinerary_candidates SET verification_state='PROBABLE',updated_at=? WHERE itinerary_id=?.
unfoldable pub downgrade_itinerary : String → ℕ → List Itinerary → List Itinerary
downgrade_itinerary id now =
    update_where (λ i. str_eq i.itinerary_id id)
      (λ i. record i { verification_state = probable; updated_at = now })

abbrev pub fare_facet : String → Facet → Bool
fare_facet id f = str_eq f.itinerary_id id && same_facet f.facet_type fare_verified

abbrev pub stale_facet : String → String → String → Moment → Facet
stale_facet id reason evidence now = record {
  itinerary_id = id;
  facet_type = fare_verified;
  status = stale;
  reason_code = reason;
  observed_at = now.iso;
  expires_at = some now.iso;
  authority = "SYSTEM_EVIDENCE";
  evidence_id = evidence;
}

unfoldable pub set_stale : String → String → String → Moment → List Facet → List Facet
set_stale id reason evidence now =
    update_where (fare_facet id) (λ f. stale_facet id reason evidence now)

-- INSERT … ON CONFLICT(itinerary_id,facet_type) DO UPDATE.
unfoldable pub upsert_stale : String → String → String → Moment → List Facet → List Facet
unfolding set_stale
upsert_stale id reason evidence now t =
    if is_some (find (fare_facet id) t)
    then set_stale id reason evidence now t
    else t ++ stale_facet id reason evidence now ∷ []

-- markDirectCandidateFareStale: nothing is written for an itinerary that is not there.
unfoldable pub mark_direct_candidate_fare_stale :
    Runtime → Candidates → String → String → String → String → Moment → Candidates
unfolding direct_itinerary_id downgrade_itinerary upsert_stale
mark_direct_candidate_fare_stale R c queue fingerprint reason evidence now =
    let id = direct_itinerary_id R queue fingerprint in
    if is_some (find_row (λ i. i.itinerary_id) id c.itinerary_candidates)
    then record {
      itinerary_candidates = downgrade_itinerary id now.ms c.itinerary_candidates;
      readiness_facets = upsert_stale id reason evidence now c.readiness_facets;
    }
    else c
