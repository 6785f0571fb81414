-- ===== src/Offers/Recompute.antt =====
-- src/provider_results.ts: recomputeCandidateVerification, its verdict and the supports that it writes. A
-- SELECT without an ORDER BY gives the table's order.
use fareradar.Prelude.{
  ℕ, String, Bool, true, false, Option, none, some, List, [], ◌∷◌, ◌++◌, ◌&&◌, ◌||◌, not, str_eq,
  ltb, ◌==◌, is_some, any, filter, first, length, map, if◌then◌else◌, Result, ok, err,
}
use mathlib.Core.Option
use Prim.Native.String.{◌++◌ as str_append}
use fareradar.Sql.{update_where, order_by, find_row, mem}
use fareradar.Runtime.{Runtime, Moment}
use fareradar.Verification.{
  VerificationEvidence, live_offer, State, confirmed, probable, Reason, airline_direct,
  independent_live_match, single_live_source, no_live_confirmation, Outcome, unexpired,
  verify_multi_provider,
}
use fareradar.Offers.{
  OfferSnapshot, OfferLink, VerificationResult, primary, support, Support, Offers, Constraint,
}
use fareradar.Offers.Promotion.{Status, pass, unverified, evaluate_promotion_offer_constraints}

-- The text of a reason of src/verification.ts.
abbrev pub reason_text : Reason → String
reason_text airline_direct = "AIRLINE_DIRECT"
reason_text independent_live_match = "INDEPENDENT_LIVE_MATCH"
reason_text single_live_source = "SINGLE_LIVE_SOURCE"
reason_text no_live_confirmation = "NO_LIVE_CONFIRMATION"

abbrev pub is_confirmed : State → Bool
is_confirmed confirmed = true
is_confirmed probable = false

-- `[...new Set(xs)]`, up to the order, which nothing reads.
unfoldable pub distinct : List String → List String
distinct [] = []
distinct (x ∷ xs) = let rest = distinct xs in if mem x xs then rest else x ∷ rest

-- The live offers linked to a query of a queue entry.
unfoldable pub offers_of : List OfferSnapshot → List OfferLink → List OfferSnapshot
offers_of offers [] = []
offers_of offers (l ∷ ls) =
    filter (λ o. str_eq o.provider_offer_id l.provider_offer_id && o.live) offers
    ++ offers_of offers ls

abbrev pub of_query : String → String → OfferLink → Bool
of_query queue fingerprint l = str_eq l.queue_id queue && str_eq l.query_fingerprint fingerprint

unfoldable pub linked : Offers → String → String → List OfferSnapshot
unfolding offers_of
linked t queue fingerprint =
    offers_of t.offer_snapshots (filter (of_query queue fingerprint) t.candidate_offer_links)

-- An offer as evidence for verifyMultiProvider.
abbrev pub evidence_of : OfferSnapshot → VerificationEvidence
evidence_of o = record {
  evidence_id = some o.provider_offer_id;
  provider = o.provider;
  kind = live_offer;
  price = some o.offer_total;
  query_fingerprint = some o.query_fingerprint;
  expires_at = o.expires_at;
  coverage_allowed = some true;
}

abbrev pub passes : Status → Bool
passes pass = true
passes _ = false

abbrev pub is_unverified : Status → Bool
is_unverified unverified = true
is_unverified _ = false

-- What one of the three outcomes writes: `best` and the counts are null and 0 without an eligible offer.
pub record Verdict : Type 0 where
  pub verification_state : State
  pub reason : String
  pub best : Option OfferSnapshot
  pub live_offer_count : ℕ
  pub provider_count : ℕ
  pub supporting_offer_ids : List String

abbrev pub not_confirmed : String → Verdict
not_confirmed reason = record {
  verification_state = probable;
  reason = reason;
  best = none;
  live_offer_count = 0;
  provider_count = 0;
  supporting_offer_ids = [];
}

module _ (R : Runtime) where
  -- By price, then by id.
  abbrev pub cheaper : OfferSnapshot → OfferSnapshot → Bool
  cheaper a b =
      ltb a.offer_total b.offer_total
      || (a.offer_total == b.offer_total && R.locale_le a.provider_offer_id b.provider_offer_id)

  -- An offer may count: no promotion asks for more, or the offer passes what it asks.
  unfoldable pub decide : Option Constraint → OfferSnapshot → Status
  decide none o = pass
  decide (some c) o = (evaluate_promotion_offer_constraints R o c).status

  abbrev pub fresh_offer : Moment → OfferSnapshot → Bool
  fresh_offer now o = unexpired R.parse now.ms o.expires_at

  -- The offers among which the best one is chosen.
  unfoldable pub best_pool : Outcome → List OfferSnapshot → List OfferSnapshot
  best_pool v fresh =
      if is_confirmed v.state && any (λ id. true) v.supporting_evidence_ids
      then filter (λ o. mem o.provider_offer_id v.supporting_evidence_ids) fresh
      else fresh

  unfoldable pub verdict_of : List OfferSnapshot → Moment → Verdict
  unfolding best_pool distinct
  verdict_of eligible now =
      let v = verify_multi_provider R.parse (map evidence_of eligible) now.ms 3 100 in
      let fresh = filter (fresh_offer now) eligible in
      record {
        verification_state = v.state;
        reason = reason_text v.reason;
        best = first (order_by cheaper (best_pool v fresh));
        live_offer_count = length fresh;
        provider_count = length (distinct (map (λ o. o.provider) fresh));
        supporting_offer_ids = if is_confirmed v.state then v.supporting_evidence_ids else [];
      }

  abbrev pub eligible_offers : Option Constraint → List OfferSnapshot → List OfferSnapshot
  eligible_offers c offers = filter (λ o. passes (decide c o)) offers

  abbrev pub verdict_eligible :
      Option Constraint → List OfferSnapshot → List OfferSnapshot → Moment → Verdict
  verdict_eligible c offers [] now = not_confirmed (
      if any (λ o. is_unverified (decide c o)) offers
      then "PROMOTION_CONSTRAINT_UNVERIFIED"
      else "PROMOTION_CONSTRAINT_MISMATCH")
  verdict_eligible c offers (o ∷ os) now = verdict_of (o ∷ os) now

  -- The three outcomes of a recomputation.
  unfoldable pub verdict : Option Constraint → List OfferSnapshot → Moment → Verdict
  unfolding decide verdict_of
  verdict c [] now = not_confirmed "NO_LIVE_CONFIRMATION"
  verdict c (o ∷ os) now = verdict_eligible c (o ∷ os) (eligible_offers c (o ∷ os)) now

abbrev pub same_query : String → String → VerificationResult → Bool
same_query queue fingerprint r = str_eq r.queue_id queue && str_eq r.query_fingerprint fingerprint

-- INSERT … ON CONFLICT(queue_id,query_fingerprint) DO UPDATE; a taken result_id is not covered by it.
unfoldable pub upsert_result :
    VerificationResult → List VerificationResult → Result (List VerificationResult)
upsert_result r t =
    if any (same_query r.queue_id r.query_fingerprint) t
    then ok (
        update_where (same_query r.queue_id r.query_fingerprint)
          (λ x. record r { result_id = x.result_id }) t)
    else if is_some (find_row (λ x. x.result_id) r.result_id t)
    then err "UNIQUE constraint failed: candidate_verification_results.result_id"
    else ok (t ++ r ∷ [])

abbrev pub support_of : String → Option String → ℕ → String → Support
support_of result best now id = record {
  result_id = result;
  provider_offer_id = id;
  support_role = elim best [ none ↦ support | some b ↦ if str_eq id b then primary else support ];
  created_at = now;
}

-- writeVerificationSupports: one batch.
unfoldable pub write_verification_supports :
    String → List String → Option String → ℕ → List Support → List Support
unfolding distinct
write_verification_supports result ids best now t =
    filter (λ s. not (str_eq s.result_id result)) t
    ++ map (support_of result best now) (distinct ids)

unfoldable pub result_id_of : Runtime → String → String → String
result_id_of R queue fingerprint =
    str_append "verify:" (str_append (R.safe queue) (str_append ":" fingerprint))

abbrev pub best_id : Verdict → Option String
best_id v = Option.map (λ o. o.provider_offer_id) v.best

unfoldable pub result_row : Runtime → String → String → ℕ → Verdict → VerificationResult
unfolding result_id_of
result_row R queue fingerprint now v = record {
  result_id = result_id_of R queue fingerprint;
  queue_id = queue;
  query_fingerprint = fingerprint;
  verification_state = v.verification_state;
  reason = v.reason;
  best_offer_id = best_id v;
  best_offer_total = Option.map (λ o. o.offer_total) v.best;
  currency = Option.map (λ o. o.currency) v.best;
  live_offer_count = v.live_offer_count;
  provider_count = v.provider_count;
  updated_at = now;
}

-- What projectDirectVerifiedCandidate is given.
pub record Projection : Type 0 where
  pub queue_id : String
  pub query_fingerprint : String
  pub verification_state : State
  pub best_offer_id : String
