-- ===== src/Readiness.antt =====
-- src/readiness_runtime.ts: whether an itinerary may be acted on, from its row and its readiness facets.
-- The theorem relates it to `actionable` of src/core.ts.
use fareradar.Prelude.{
  ℕ, String, Bool, true, false, Option, none, some, List, [], ◌∷◌, ◌≡◌, refl, ◌&&◌, not, all,
  filter, map, ltb, truthy_opt, get_or, arith, if◌then◌else◌, Bool-cases, inl, inr, str_eq, eq_iff,
  ap, sym, ◌∙◌,
}
use mathlib.Core.Option
use fareradar.Core.{
  VerificationState, FacetStatus, RequiredFacet, fare_verified, cost_complete_facet,
  required_facets, ReadinessFacet, is_confirmed, is_pass, same_facet, by_type, facet_ready,
  actionable,
}

-- A row of readiness_facets of one of the required types.
pub record FacetRow : Type 0 where
  pub facet_type : RequiredFacet
  pub status : FacetStatus
  pub expires_at : Option String

pub record ItineraryRow : Type 0 where
  pub verification_state : VerificationState
  pub cost_complete : Bool

pub data Reason : Type 0 where
  itinerary_not_found fare_not_confirmed cost_not_complete readiness_not_pass all_readiness_pass :
      Reason

pub record Evaluation : Type 0 where
  pub actionable : Bool
  pub reason : Reason
  pub failed_facets : List RequiredFacet

-- `new Map(rows.map(…)).get(type)`: the last row of a type.
unfoldable pub row_of : RequiredFacet → List FacetRow → Option FacetRow
row_of type [] = none
row_of type (r ∷ rs) = elim (row_of type rs) [
  | some s ↦ some s
  | none ↦ if same_facet r.facet_type type then some r else none
]

abbrev is_nil : List RequiredFacet → Bool
is_nil [] = true
is_nil (x ∷ xs) = false

-- A row as the facet that src/core.ts reads: a missing date is the empty text.
abbrev pub facet_of : FacetRow → ReadinessFacet
facet_of r = record {
  facet_type = r.facet_type;
  status = r.status;
  expires_at = get_or r.expires_at "";
}

module _ (parse : String → Option ℕ) where
  unfoldable pub fresh : Option String → ℕ → Bool
  fresh v now = truthy_opt v && elim (parse (get_or v "")) [ none ↦ false | some t ↦ ltb now t ]

  unfoldable pub row_ready : ℕ → Option FacetRow → Bool
  unfolding fresh
  row_ready now none = false
  row_ready now (some r) = is_pass r.status && fresh r.expires_at now

  -- The types that the loop pushes on `failed`.
  unfoldable pub failed_types : List FacetRow → ℕ → List RequiredFacet
  unfolding row_ready row_of
  failed_types rows now = filter (λ type. not (row_ready now (row_of type rows))) required_facets

  -- evaluateActionableFromDb, after the two SELECTs.
  unfoldable pub evaluate_actionable : Option ItineraryRow → List FacetRow → ℕ → Evaluation
  unfolding failed_types
  evaluate_actionable none rows now = record {
    actionable = false;
    reason = itinerary_not_found;
    failed_facets = [];
  }
  evaluate_actionable (some i) rows now =
      if not (is_confirmed i.verification_state)
      then record {
        actionable = false;
        reason = fare_not_confirmed;
        failed_facets = fare_verified ∷ [];
      }
      else if not i.cost_complete
      then record {
        actionable = false;
        reason = cost_not_complete;
        failed_facets = cost_complete_facet ∷ [];
      }
      else if not (is_nil (failed_types rows now))
      then record {
        actionable = false;
        reason = readiness_not_pass;
        failed_facets = failed_types rows now;
      }
      else record { actionable = true; reason = all_readiness_pass; failed_facets = [] }

  by_type-row_of :
      (type : RequiredFacet) (rows : List FacetRow)
      → by_type type (map facet_of rows) ≡ Option.map facet_of (row_of type rows)
  unfolding by_type row_of
  by_type-row_of type [] = refl
  by_type-row_of type (r ∷ rs) = ground (arith, by_type-row_of type rs)

  -- A date that is missing or empty is one that does not parse.
  fresh-eq :
      parse "" ≡ none
      → (now : ℕ) (v : Option String)
      → fresh v now ≡ (elim (parse (get_or v "")) [ none ↦ false | some t ↦ ltb now t ])
  unfolding fresh
  fresh-eq empty now none = rw empty refl
  fresh-eq empty now (some s) = elim (Bool-cases (str_eq s "")) [
    | inl e ↦ rw ((eq_iff s "").0 e, empty) refl
    | inr e ↦ rw e refl
  ]

  ready-eq :
      parse "" ≡ none
      → (now : ℕ) (o : Option FacetRow)
      → row_ready now o ≡ facet_ready parse now (Option.map facet_of o)
  unfolding row_ready fresh facet_ready
  ready-eq empty now none = refl
  ready-eq empty now (some r) = rw (fresh-eq empty now r.expires_at) refl

  none_failed :
      (p q : RequiredFacet → Bool)
      → ((t : RequiredFacet) → p t ≡ q t)
      → (xs : List RequiredFacet) → is_nil (filter (λ t. not (p t)) xs) ≡ all q xs
  none_failed p q e [] = refl
  none_failed p q e (x ∷ xs) = ground (arith, e x, none_failed p q e xs)

  -- The answer from the database is that of `actionable` on the same facets, where the itinerary's cost
  -- is complete, for a Date.parse that reads no date in the empty text.
  pub evaluation_is_actionable :
      parse "" ≡ none
      → (i : ItineraryRow) (rows : List FacetRow) (now : ℕ)
      → (evaluate_actionable (some i) rows now).actionable
        ≡ (i.cost_complete && actionable parse i.verification_state (map facet_of rows) now)
  unfolding evaluate_actionable failed_types actionable
  evaluation_is_actionable empty i rows now =
      let same : is_nil (failed_types rows now)
          ≡ all (λ t. facet_ready parse now (by_type t (map facet_of rows))) required_facets =
        none_failed (λ t. row_ready now (row_of t rows))
          (λ t. facet_ready parse now (by_type t (map facet_of rows)))
          (λ t.
            ready-eq empty now (row_of t rows)
            ∙ ap (facet_ready parse now) (sym (by_type-row_of t rows)))
          required_facets in
      ground (arith, same)
