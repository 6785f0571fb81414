-- ===== src/Verification.antt =====
-- src/verification.ts: when evidence of several providers confirms a fare. Prices are whole
-- numbers of one currency's smallest unit, and the tolerance 0.03 is the fraction `num / den`, so
-- that |a - b| / max(a, b) <= tolerance is compared without rounding.
pub mod Confirmation
use fareradar.Prelude.{
  ℕ, ◌-◌, ◌*◌, ◌+◌, String, Bool, true, false, Option, none, some, List, [], ◌∷◌, ◌++◌, ◌&&◌, ◌||◌,
  not, leb, ltb, ◌==◌, str_eq, any, filter, find, truthy, if◌then◌else◌,
}
use text.Mathlib.Text.{starts_with}

pub data Kind : Type 0 where
  live_offer cached_fare social promotion seller_readback : Kind

pub record VerificationEvidence : Type 0 where
  pub evidence_id : Option String
  pub provider : String
  pub kind : Kind
  pub price : Option ℕ
  pub query_fingerprint : Option String
  pub expires_at : Option String
  pub coverage_allowed : Option Bool

pub data State : Type 0 where
  confirmed probable : State

pub data Reason : Type 0 where
  airline_direct independent_live_match single_live_source no_live_confirmation : Reason

pub record Outcome : Type 0 where
  pub state : State
  pub reason : Reason
  pub supporting_evidence_ids : List String

abbrev is_live_offer : Kind → Bool
is_live_offer live_offer = true
is_live_offer _ = false

-- `e.coverage_allowed !== false`.
abbrev covered : Option Bool → Bool
covered none = true
covered (some b) = b

module _ (parse : String → Option ℕ) where
  -- `!e.expires_at || Date.parse(e.expires_at) > now`: NaN is later than nothing.
  abbrev pub unexpired : ℕ → Option String → Bool
  unexpired now none = true
  unexpired now (some t) =
      not (truthy t) || elim (parse t) [ none ↦ false | some expires ↦ ltb now expires ]

  unfoldable pub is_live : ℕ → VerificationEvidence → Bool
  is_live now e = is_live_offer e.kind && covered e.coverage_allowed && unexpired now e.expires_at

abbrev pub is_direct : VerificationEvidence → Bool
is_direct e = starts_with e.provider "airline:"

-- `!a.price` holds of undefined and of 0.
abbrev pub price_of : Option ℕ → ℕ
price_of none = 0
price_of (some p) = p

abbrev pub max_price : ℕ → ℕ → ℕ
max_price a b = if ltb a b then b else a

abbrev pub distance : ℕ → ℕ → ℕ
distance a b = (a - b) + (b - a)

-- `a.query_fingerprint !== b.query_fingerprint` is false.
abbrev pub same_text : Option String → Option String → Bool
same_text none none = true
same_text (some s) (some t) = str_eq s t
same_text _ _ = false

module _ (num den : ℕ) where
  abbrev pub close : ℕ → ℕ → Bool
  close a b = leb (distance a b * den) (num * max_price a b)

  -- The body of the inner loop does not `continue`, and its comparison holds.
  unfoldable pub matches : VerificationEvidence → VerificationEvidence → Bool
  matches a b =
      not (str_eq a.provider b.provider)
      && not (price_of a.price == 0)
      && not (price_of b.price == 0)
      && same_text a.query_fingerprint b.query_fingerprint
      && close (price_of a.price) (price_of b.price)

  -- The two loops: the first pair in the order of the first element, then of the second.
  unfoldable pub first_pair :
      List VerificationEvidence → Option (VerificationEvidence × VerificationEvidence)
  first_pair [] = none
  first_pair (a ∷ rest) = elim (find (matches a) rest) [
    | some b ↦ some (a, b)
    | none ↦ first_pair rest
  ]

-- The ids that are there: `[x].filter(x => !!x)`, and `direct.evidence_id ? [direct.evidence_id] : []`.
abbrev pub ids_of : List VerificationEvidence → List String
ids_of [] = []
ids_of (e ∷ es) = elim e.evidence_id [
  | none ↦ ids_of es
  | some i ↦ if truthy i then i ∷ ids_of es else ids_of es
]

unfoldable pub verify_multi_provider :
    (String → Option ℕ) → List VerificationEvidence → ℕ → ℕ → ℕ → Outcome
unfolding first_pair
verify_multi_provider parse evidence now num den =
    let live = filter (is_live parse now) evidence in
    elim (find is_direct live) [
      | some direct ↦ record {
        state = confirmed;
        reason = airline_direct;
        supporting_evidence_ids = ids_of (direct ∷ []);
      }
      | none ↦ elim (first_pair num den live) [
        | some (a, b) ↦ record {
          state = confirmed;
          reason = independent_live_match;
          supporting_evidence_ids = ids_of (a ∷ b ∷ []);
        }
        | none ↦ elim live [
          | [] ↦ record {
            state = probable;
            reason = no_live_confirmation;
            supporting_evidence_ids = [];
          }
          | x ∷ xs ↦ record {
            state = probable;
            reason = single_live_source;
            supporting_evidence_ids = [];
          }
        ]
      ]
    ]

pub data CarrierClass : Type 0 where
  lcc full_service : CarrierClass

pub amadeus_can_confirm : CarrierClass → Bool
amadeus_can_confirm lcc = false
amadeus_can_confirm full_service = true
