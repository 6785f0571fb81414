-- ===== src/Baggage.antt =====
-- src/baggage.ts: whether an offer's own description proves that the bags a traveller needs are
-- included. A JSON field is `none` where it is missing or where Number gives NaN; a description is `none`
-- where parseObject gives null. Quantities and weights are whole numbers of at least 0.
pub mod Included
use fareradar.Prelude.{
  ℕ, zero, suc, ◌+◌, String, Bool, true, false, ◌&&◌, Option, none, some, List, [], ◌∷◌, map,
  if◌then◌else◌, ltb, leb, filter, any, get_or, opt_str_eq,
}

-- The three names under which a bag or its metadata may carry a weight.
pub record WeightFields : Type 0 where
  pub weight_kg : Option ℕ
  pub maximum_weight_kg : Option ℕ
  pub max_weight_kg : Option ℕ

pub record Bag : Type 0 where
  pub bag_type : Option String
  pub quantity : Option ℕ
  pub weights : WeightFields
  pub metadata : WeightFields

pub record Passenger : Type 0 where
  pub baggages : Option (List Bag)

pub record Segment : Type 0 where
  pub passengers : Option (List Passenger)

pub record Slice : Type 0 where
  pub segments : Option (List Segment)

pub record OfferStructure : Type 0 where
  pub slices : Option (List (Option Slice))
  pub available_services : Option (List (Option String))

pub record BaggageQuery : Type 0 where
  pub checked_bags_by_slice : Option (List (Option ℕ))
  pub checked_bag_kg : Option ℕ

pub data BaggageFacetStatus : Type 0 where
  pass : BaggageFacetStatus
  unknown : BaggageFacetStatus

pub record BaggageEvaluation : Type 0 where
  pub status : BaggageFacetStatus
  pub reason : String
  pub required_slices : List ℕ

abbrev pub or_else {ℓ} : {A : Type ℓ} → Option A → Option A → Option A
or_else (some a) o = some a
or_else none o = o

abbrev pub positive : Option ℕ → Option ℕ
positive none = none
positive (some n) = if ltb 0 n then some n else none

abbrev pub field_weight : WeightFields → Option ℕ
field_weight w =
    or_else (positive w.weight_kg)
      (or_else (positive w.maximum_weight_kg) (positive w.max_weight_kg))

abbrev pub known_weight_kg : Bag → Option ℕ
known_weight_kg b = or_else (field_weight b.weights) (field_weight b.metadata)

abbrev pub heavy_enough : ℕ → Bag → Bool
heavy_enough kg b = elim (known_weight_kg b) [ none ↦ false | some w ↦ leb kg w ]

abbrev pub checked_bags : Passenger → List Bag
checked_bags p = filter (λ b. opt_str_eq b.bag_type "checked") (get_or p.baggages [])

abbrev pub total_quantity : List Bag → ℕ
total_quantity [] = 0
total_quantity (b ∷ bs) = get_or b.quantity 0 + total_quantity bs

-- What is found wrong first, if anything is.
abbrev pub first_fault {ℓ} : {A : Type ℓ} → (A → Option String) → List A → Option String
first_fault f [] = none
first_fault f (x ∷ xs) = or_else (f x) (first_fault f xs)

-- The same where an empty list is a fault, `empty`, of its own.
abbrev pub first_fault_of {ℓ} : {A : Type ℓ} → String → (A → Option String) → List A → Option String
first_fault_of empty f [] = some empty
first_fault_of empty f (x ∷ xs) = first_fault f (x ∷ xs)

abbrev pub addon_available : OfferStructure → Bool
addon_available s = any (λ x. opt_str_eq x "baggage") (get_or s.available_services [])

unfoldable pub passenger_fault : OfferStructure → ℕ → ℕ → Passenger → Option String
passenger_fault s kg required p =
    if ltb (total_quantity (checked_bags p)) required
    then some (
        if addon_available s
        then "BAGGAGE_ADDON_AVAILABLE_NEEDS_PRICING"
        else "REQUIRED_CHECKED_BAG_NOT_PROVEN")
    else if ltb 0 kg && ltb (total_quantity (filter (heavy_enough kg) (checked_bags p))) required
    then some "INCLUDED_BAG_WEIGHT_UNKNOWN"
    else none

unfoldable pub segment_fault : OfferStructure → ℕ → ℕ → Segment → Option String
segment_fault s kg required g =
    first_fault_of "INCLUDED_BAGGAGE_UNKNOWN" (passenger_fault s kg required)
      (get_or g.passengers [])

abbrev pub get_elem? {ℓ} : {A : Type ℓ} → List A → ℕ → Option A
get_elem? [] i = none
get_elem? (x ∷ xs) zero = some x
get_elem? (x ∷ xs) (suc i) = get_elem? xs i

-- `s.slices[i]`, where the place may lie beyond the end or hold null.
abbrev pub slice_at : List (Option Slice) → ℕ → Option Slice
slice_at slices i = get_or (get_elem? slices i) none

abbrev pub slice_segments : Option Slice → List Segment
slice_segments none = []
slice_segments (some slice) = get_or slice.segments []

unfoldable pub slice_fault : OfferStructure → List (Option Slice) → ℕ → List ℕ → ℕ → Option String
slice_fault s slices kg required i =
    first_fault_of "OFFER_BAGGAGE_EVIDENCE_MISSING"
      (segment_fault s kg (get_or (get_elem? required i) 0)) (slice_segments (slice_at slices i))

-- The numbers of the slices that need a checked bag, counted from `i`.
abbrev pub needed_slices : ℕ → List ℕ → List ℕ
needed_slices i [] = []
needed_slices i (n ∷ ns) = let rest = needed_slices (suc i) ns in if ltb 0 n then i ∷ rest else rest

unfoldable pub evaluate_slices : Option OfferStructure → ℕ → List ℕ → List ℕ → BaggageEvaluation
evaluate_slices structure kg required [] = record {
  status = pass;
  reason = "NO_CHECKED_BAG_REQUIRED";
  required_slices = [];
}
evaluate_slices none kg required (i ∷ is) = record {
  status = unknown;
  reason = "OFFER_BAGGAGE_EVIDENCE_MISSING";
  required_slices = i ∷ is;
}
evaluate_slices (some s) kg required (i ∷ is) = elim s.slices [
  | none ↦ record {
    status = unknown;
    reason = "OFFER_BAGGAGE_EVIDENCE_MISSING";
    required_slices = i ∷ is;
  }
  | some slices ↦ elim (first_fault (slice_fault s slices kg required) (i ∷ is)) [
    | some fault ↦ record { status = unknown; reason = fault; required_slices = i ∷ is }
    | none ↦ record {
      status = pass;
      reason = "REQUIRED_CHECKED_BAG_INCLUDED";
      required_slices = i ∷ is;
    }
  ]
]

-- How many checked bags each slice needs.
abbrev pub required_bags : List (Option ℕ) → List ℕ
required_bags bags = map (λ x. get_or x 0) bags

unfoldable pub evaluate_requirement :
    Option OfferStructure → ℕ → Option (List (Option ℕ)) → BaggageEvaluation
evaluate_requirement structure kg none = record {
  status = unknown;
  reason = "BAGGAGE_PROFILE_MISSING";
  required_slices = [];
}
evaluate_requirement structure kg (some bags) =
    let required = required_bags bags in
    evaluate_slices structure kg required (needed_slices 0 required)

unfoldable pub evaluate_baggage_evidence :
    Option OfferStructure → Option BaggageQuery → BaggageEvaluation
evaluate_baggage_evidence structure none = evaluate_requirement structure 0 none
evaluate_baggage_evidence structure (some q) =
    evaluate_requirement structure (get_or q.checked_bag_kg 0) q.checked_bags_by_slice
