-- ===== src/Core.antt =====
-- src/core.ts: cost of a trip, readiness facets and the acceptance rules, with the types of
-- src/types.ts that they read. A record has the fields that the modelled code reads. Money is a
-- whole number (ℤ); a JavaScript number that may be NaN or infinite is a `Number`.
pub mod Cash
pub mod Actionable
use fareradar.Prelude.{
  ℕ, String, Bool, true, false, Option, none, some, List, [], ◌∷◌, ◌&&◌, ◌||◌, not, leb, ltb,
  str_eq, any, all, truthy_opt, if◌then◌else◌, is_some,
}
use fareradar.Prelude.Int.{ℤ, ◌+ℤ◌, leb_ℤ}
use fareradar.Sql.{mem}

pub data Number : Type 0 where
  finite : ℤ → Number
  not_finite : Number

pub data InclusionState : Type 0 where
  included_in_offer add_on unknown : InclusionState

pub record CostComponent : Type 0 where
  pub dedupe_key : String
  pub inclusion_state : InclusionState
  pub twd_amount : Option Number

pub record CashTripCost : Type 0 where
  pub cash_trip_cost_twd : ℤ
  pub cost_complete : Bool

abbrev is_unknown : InclusionState → Bool
is_unknown unknown = true
is_unknown _ = false

abbrev is_add_on : InclusionState → Bool
is_add_on add_on = true
is_add_on _ = false

-- The body of the loop of cashTripCost for a key that has not been seen.
abbrev add_component : CashTripCost → CostComponent → CashTripCost
add_component r c =
    let marked : CashTripCost =
      if is_unknown c.inclusion_state then record r { cost_complete = false } else r in
    if is_add_on c.inclusion_state
    then elim c.twd_amount [
      | none ↦ record marked { cost_complete = false }
      | some n ↦ elim n [
        | not_finite ↦ record marked { cost_complete = false }
        | finite x ↦ record marked { cash_trip_cost_twd = marked.cash_trip_cost_twd +ℤ x }
      ]
    ]
    else marked

-- The loop, over the total, the flag and the set of keys seen.
cash_loop : CashTripCost → List String → List CostComponent → CashTripCost
cash_loop r seen [] = r
cash_loop r seen (c ∷ cs) =
    let known = mem c.dedupe_key seen in
    cash_loop (if known then r else add_component r c) (if known then seen else c.dedupe_key ∷ seen)
      cs

pub cash_trip_cost : ℤ → List CostComponent → CashTripCost
unfolding cash_loop
cash_trip_cost offer_total components =
    cash_loop (record { cash_trip_cost_twd = offer_total; cost_complete = true }) [] components

pub data VerificationState : Type 0 where
  detected parsed strategy_expanded cost_estimated verifying probable confirmed ghost expired
        needs_human :
      VerificationState

pub data FacetStatus : Type 0 where
  pass fail unknown stale : FacetStatus

pub data RequiredFacet : Type 0 where
  fare_verified document_clear connection_acceptable baggage_feasible cost_complete_facet
        coupon_sequence_clear_facet policy_fresh :
      RequiredFacet

-- REQUIRED_FACETS.
abbrev pub required_facets : List RequiredFacet
required_facets =
    fare_verified ∷ document_clear ∷ connection_acceptable ∷ baggage_feasible ∷ cost_complete_facet
    ∷ coupon_sequence_clear_facet ∷ policy_fresh ∷ []

pub record ReadinessFacet : Type 0 where
  pub facet_type : RequiredFacet
  pub status : FacetStatus
  pub expires_at : String

abbrev pub is_confirmed : VerificationState → Bool
is_confirmed confirmed = true
is_confirmed _ = false

abbrev pub is_pass : FacetStatus → Bool
is_pass pass = true
is_pass _ = false

unfoldable pub same_facet : RequiredFacet → RequiredFacet → Bool
same_facet fare_verified fare_verified = true
same_facet document_clear document_clear = true
same_facet connection_acceptable connection_acceptable = true
same_facet baggage_feasible baggage_feasible = true
same_facet cost_complete_facet cost_complete_facet = true
same_facet coupon_sequence_clear_facet coupon_sequence_clear_facet = true
same_facet policy_fresh policy_fresh = true
same_facet _ _ = false

-- `new Map(facets.map(f => [f.facet_type, f])).get(type)`: the last entry of a key wins.
unfoldable pub by_type : RequiredFacet → List ReadinessFacet → Option ReadinessFacet
by_type type [] = none
by_type type (f ∷ fs) = elim (by_type type fs) [
  | some g ↦ some g
  | none ↦ if same_facet f.facet_type type then some f else none
]

-- `parse` is Date.parse: the milliseconds of a text, or `none` for NaN.
module _ (parse : String → Option ℕ) where
  -- One turn of the loop of `actionable` does not return false.
  unfoldable pub facet_ready : ℕ → Option ReadinessFacet → Bool
  facet_ready now none = false
  facet_ready now (some f) =
      is_pass f.status
      && elim (parse f.expires_at) [ none ↦ false | some expires ↦ ltb now expires ]

  unfoldable pub actionable : VerificationState → List ReadinessFacet → ℕ → Bool
  unfolding facet_ready
  actionable state facets now =
      is_confirmed state && all (λ type. facet_ready now (by_type type facets)) required_facets

pub record Scenario : Type 0 where
  pub low : Number
  pub base : Number
  pub high : Number

abbrev le_number : Number → Number → Bool
le_number (finite a) (finite b) = leb_ℤ a b
le_number _ _ = false

abbrev is_finite : Number → Bool
is_finite (finite a) = true
is_finite not_finite = false

unfoldable pub validate_scenario_cost : Option Scenario → Bool
validate_scenario_cost none = true
validate_scenario_cost (some s) =
    is_finite s.low
    && is_finite s.base
    && is_finite s.high
    && le_number s.low s.base
    && le_number s.base s.high

pub record SelfTransfer : Type 0 where
  pub document_clear : Bool
  pub baggage_feasible : Bool
  pub scheduled_buffer_minutes : ℕ
  pub required_buffer_minutes : ℕ

unfoldable pub self_transfer_acceptable : SelfTransfer → Bool
self_transfer_acceptable i =
    i.document_clear
    && i.baggage_feasible
    && leb i.required_buffer_minutes i.scheduled_buffer_minutes

unfoldable pub coupon_sequence_clear : Bool → Bool → Bool
coupon_sequence_clear all_coupons_in_sequence intentional_skip =
    all_coupons_in_sequence && not intentional_skip

pub data ProtectionType : Type 0 where
  through_ticket_carrier_protected interline_protected ota_guarantee separate_unprotected unknown :
      ProtectionType

pub data ProtectionReason : Type 0 where
  evidence_required unknown_protection explicit_unprotected evidence_backed : ProtectionReason

abbrev is_unknown_protection : ProtectionType → Bool
is_unknown_protection ProtectionType.unknown = true
is_unknown_protection _ = false

abbrev is_separate : ProtectionType → Bool
is_separate separate_unprotected = true
is_separate _ = false

-- protectionClassification: `!input.evidenceId` holds of null and of the empty text.
unfoldable pub protection_classification :
    ProtectionType → Option String → Bool → Bool × ProtectionReason
protection_classification type evidence same_pnr =
    if not (truthy_opt evidence)
    then (false, evidence_required)
    else if is_unknown_protection type
    then (false, unknown_protection)
    else if same_pnr && is_separate type
    then (true, explicit_unprotected)
    else (true, evidence_backed)

pub data EvidenceKind : Type 0 where
  promotion social cached_fare live_offer seller_readback : EvidenceKind

abbrev is_live_kind : EvidenceKind → Bool
is_live_kind live_offer = true
is_live_kind seller_readback = true
is_live_kind _ = false

unfoldable pub can_confirm_from_evidence : List EvidenceKind → Bool
can_confirm_from_evidence kinds = any is_live_kind kinds
