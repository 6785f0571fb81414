-- ===== src/FourLeg.antt =====
-- src/four_leg.ts: the life of a four-leg cycle. The table keeps one row for each cycle; the
-- itineraries that it reads are a lookup of their strategy.
pub mod Order
use fareradar.Prelude.{
  ℕ, suc, ◌+◌, String, Bool, true, false, Option, none, some, List, [], ◌∷◌, ◌++◌, ◌&&◌, ◌||◌, not,
  ltb, ◌==◌, str_eq, is_some, get_or, truthy, truthy_opt, filter, find, length, if◌then◌else◌,
  Result, ok, err, ◌>>=◌, ◌>>◌, assert, or_throw,
}
use fareradar.Sql.{update_where, find_row}

pub data CycleState : Type 0 where
  not_started positioning_booked at_external_origin leg1_flown home_stopover main_trip_active
        leg3_flown tail_pending cycle_completed broken :
      CycleState

-- ORDER.indexOf(state): BROKEN is not in ORDER.
unfoldable pub index_of : CycleState → Option ℕ
index_of not_started = some 0
index_of positioning_booked = some 1
index_of at_external_origin = some 2
index_of leg1_flown = some 3
index_of home_stopover = some 4
index_of main_trip_active = some 5
index_of leg3_flown = some 6
index_of tail_pending = some 7
index_of cycle_completed = some 8
index_of broken = none

abbrev pub is_broken : CycleState → Bool
is_broken broken = true
is_broken _ = false

abbrev pub is_completed : CycleState → Bool
is_completed cycle_completed = true
is_completed _ = false

-- `i >= 0 && j === i + 1`.
abbrev follows : Option ℕ → Option ℕ → Bool
follows (some i) (some j) = j == i + 1
follows _ _ = false

-- fourLegTransitionAllowed.
unfoldable pub transition_allowed : CycleState → CycleState → Bool
unfolding index_of
transition_allowed from to =
    if is_broken from || is_completed from
    then false
    else if is_broken to
    then true
    else follows (index_of from) (index_of to)

-- `from === to`.
unfoldable pub same_state : CycleState → CycleState → Bool
unfolding index_of
same_state from to = elim (index_of from) [
  | none ↦ is_broken to
  | some i ↦ elim (index_of to) [ none ↦ false | some j ↦ i == j ]
]

pub record Cycle : Type 0 where
  pub cycle_id : String
  pub itinerary_id : String
  pub state : CycleState
  pub broken_reason : Option String
  pub created_at : ℕ
  pub updated_at : ℕ

pub record Answer : Type 0 where
  pub state : CycleState
  pub idempotent : Bool

abbrev pub cycle_key : Cycle → String
cycle_key c = c.cycle_id

-- `strategy` is SELECT strategy_type FROM itinerary_candidates WHERE itinerary_id = ?.
-- upsertFourLegCycle.
pub upsert_four_leg_cycle :
    (String → Option String) → List Cycle → String → String → ℕ → Result (List Cycle × Answer)
upsert_four_leg_cycle strategy t cycle itinerary now = do
  assert (truthy cycle && truthy itinerary) "FOUR_LEG_CYCLE_IDENTITY_REQUIRED"
  s ← or_throw (strategy itinerary) "ITINERARY_NOT_FOUND"
  assert (str_eq s "S14_FOREIGN_ORIGIN_FOUR_LEG" || str_eq s "S14") "FOUR_LEG_STRATEGY_REQUIRED"
  store (find (λ c. str_eq c.cycle_id cycle || str_eq c.itinerary_id itinerary) t)
  where
    store : Option Cycle → Result (List Cycle × Answer)
    store (some prior) = do
      assert (str_eq prior.cycle_id cycle && str_eq prior.itinerary_id itinerary)
          "FOUR_LEG_CYCLE_CONFLICT"
      ok (t, record { state = prior.state; idempotent = true })
    store none = ok (
      t
          ++ record {
            cycle_id = cycle;
            itinerary_id = itinerary;
            state = not_started;
            broken_reason = none;
            created_at = now;
            updated_at = now;
          }
            ∷ [],
      record { state = not_started; idempotent = false },
    )

pub record Transition : Type 0 where
  pub cycle_id : String
  pub to_state : CycleState
  pub reason : Option String

-- UPDATE four_leg_cycles … WHERE cycle_id = ? AND state = ?.
unfoldable pub move_cycle : Transition → CycleState → ℕ → List Cycle → List Cycle
move_cycle i from now =
    update_where (λ c. str_eq c.cycle_id i.cycle_id && same_state c.state from)
      (λ c. record c {
        state = i.to_state;
        broken_reason = if is_broken i.to_state then i.reason else none;
        updated_at = now;
      })

unfoldable pub transition_from :
    List Cycle → Transition → ℕ → CycleState → Result (List Cycle × Answer)
transition_from t i now from =
    if same_state from i.to_state
    then ok (t, record { state = i.to_state; idempotent = true })
    else if not (transition_allowed from i.to_state)
    then err "FOUR_LEG_ILLEGAL_TRANSITION"
    else if is_broken i.to_state && not (truthy_opt i.reason)
    then err "FOUR_LEG_BROKEN_REASON_REQUIRED"
    else ok (move_cycle i from now t, record { state = i.to_state; idempotent = false })

-- transitionFourLegCycle.
unfoldable pub transition_four_leg_cycle :
    List Cycle → Transition → ℕ → Result (List Cycle × Answer)
unfolding transition_from
transition_four_leg_cycle t i now = do
  c ← or_throw (find_row cycle_key i.cycle_id t) "FOUR_LEG_CYCLE_NOT_FOUND"
  transition_from t i now c.state

-- A row of four_leg_liabilities. `valid` is the test of the two amounts: finite, and not negative.
pub record Liability : Type 0 where
  pub cycle_id : String
  pub itinerary_id : String
  pub component_type : String
  pub valid : Bool
  pub remaining_exposure : ℕ
  pub recoverable_amount : ℕ

pub record Exposure : Type 0 where
  pub remaining : ℕ
  pub recoverable : ℕ
  pub tail : ℕ
  pub positioning : ℕ

unfoldable pub add_liability : Exposure → Liability → Exposure
add_liability x r = record {
  remaining = x.remaining + r.remaining_exposure;
  recoverable = x.recoverable + r.recoverable_amount;
  tail = if str_eq r.component_type "TAIL_RETURN" then x.tail + r.remaining_exposure else x.tail;
  positioning =
      if str_eq r.component_type "POSITIONING"
      then x.positioning + r.remaining_exposure
      else x.positioning;
}

-- The loop over the rows.
unfoldable pub sum_liabilities : Exposure → List Liability → Result Exposure
sum_liabilities x [] = ok x
sum_liabilities x (r ∷ rs) =
    let rest = sum_liabilities (add_liability x r) rs in
    if r.valid then rest else err "FOUR_LEG_LIABILITY_INVALID"

pub record Summary : Type 0 where
  pub state : CycleState
  pub exposure : Exposure
  pub unrealized_positioning_liability : Bool
  pub liability_count : ℕ

-- fourLegLiabilitySummary.
unfoldable pub four_leg_liability_summary : List Cycle → List Liability → String → Result Summary
four_leg_liability_summary cycles liabilities cycle = do
  c ← or_throw (find_row cycle_key cycle cycles) "FOUR_LEG_CYCLE_NOT_FOUND"
  let rows =
      filter (λ r. str_eq r.cycle_id cycle && str_eq r.itinerary_id c.itinerary_id) liabilities
  x ← sum_liabilities (record { remaining = 0; recoverable = 0; tail = 0; positioning = 0 }) rows
  ok (record {
    state = c.state;
    exposure = x;
    unrealized_positioning_liability =
        not (is_completed c.state) && (ltb 0 x.positioning || ltb 0 x.tail);
    liability_count = length rows;
  })
