-- ===== src/Api/Candidates.antt =====
-- src/worker.ts: /candidate/evaluate, and the periodic `scheduled`.
use fareradar.Prelude.{
  none, is_some, In, ℕ, ◌%◌, ◌==◌, String, Bool, true, false, Option, List, ◌≡◌, ◌⊎◌, ◌||◌, not,
  str_eq, get_or, if◌then◌else◌, Result, ok, ◌>>=◌, ◌>>◌, assert,
}
use Prim.Native.String.{◌++◌ as str_append}
use fareradar.Sql.{find_row}
use fareradar.Db.{Db, AlertIntent, deal, Payload}
use fareradar.Outbox.{IntentInput, enqueue_alert_intent}
use fareradar.Readiness.{ItineraryRow, FacetRow, Evaluation, evaluate_actionable}

-- The body: which of the forbidden keys it has, and the class it asks for.
pub record CandidateRequest : Type 0 where
  pub itinerary_id : String
  pub has_actionable : Bool
  pub has_provisional_trigger : Bool
  pub has_payload : Bool
  pub has_intent_id : Bool
  pub alert_class : Option String

pub record CandidateAnswer : Type 0 where
  pub queued : Bool
  pub readiness : Evaluation

abbrev deal_intent : String → Payload × String → IntentInput
deal_intent itinerary (payload, updated_at) = record {
  intent_id = str_append "deal:" (str_append itinerary (str_append ":" updated_at));
  itinerary_id = itinerary;
  alert_class = deal;
  payload = payload;
}

unfoldable pub queue_candidate :
    Db → String → Evaluation → Result (Payload × String) → ℕ → Result (Db × CandidateAnswer)
queue_candidate db itinerary readiness alert now =
    if not readiness.actionable
    then ok (db, record { queued = false; readiness = readiness })
    else (alert >>= λ built. ok (
      enqueue_alert_intent db (deal_intent itinerary built) now,
      record { queued = true; readiness = readiness },
    ))

-- What the route reads for an itinerary: its row and its facets, as evaluateActionableFromDb selects
-- them, and buildCanonicalCandidateAlert of src/alert_runtime.ts at a time: the payload and its
-- updated_at, or the error it throws.
pub record CandidateStore : Type 0 where
  pub db : Db
  pub itinerary_row : String → Option ItineraryRow
  pub facet_rows : String → List FacetRow
  pub canonical_alert : String → ℕ → Result (Payload × String)

-- evaluateActionableFromDb.
abbrev pub readiness_of : (String → Option ℕ) → CandidateStore → String → ℕ → Evaluation
readiness_of parse s id now = evaluate_actionable parse (s.itinerary_row id) (s.facet_rows id) now

-- The body of the route's `try`, for a body that parses.
unfoldable pub evaluate_candidate :
    (String → Option ℕ) → CandidateStore → CandidateRequest → ℕ → Result (Db × CandidateAnswer)
unfolding queue_candidate
evaluate_candidate parse s p now = do
  assert (not p.has_actionable) "CLIENT_ACTIONABLE_FORBIDDEN"
  assert (not p.has_provisional_trigger) "CLIENT_PROVISIONAL_TRIGGER_FORBIDDEN"
  assert (not (p.has_payload || p.has_intent_id)) "CLIENT_ALERT_CONTENT_FORBIDDEN"
  assert (str_eq (get_or p.alert_class "DEAL") "DEAL") "CANDIDATE_ALERT_CLASS_INVALID"
  queue_candidate s.db p.itinerary_id (readiness_of parse s p.itinerary_id now)
      (s.canonical_alert p.itinerary_id now) now

-- The tables after a DEAL of the service's own making is stored: at most one row is new, a DEAL of
-- the itinerary with the canonical payload that waits to be projected, a row with its id is there, and
-- no other table has changed.
pub record DealStored (itinerary : String) (payload : Payload) (updated_at : String) (db db' : Db)
    : Type 0 where
  pub rows :
      (x : AlertIntent)
      → In x db'.candidate_alert_intents
      → In x db.candidate_alert_intents
        ⊎ ((x.alert_class ≡ deal)
            × (x.itinerary_id ≡ itinerary)
            × (x.payload_json ≡ payload)
            × (x.projected_at ≡ none))
  pub there :
      is_some (
        find_row
          (λ x. x.intent_id)
          (str_append "deal:" (str_append itinerary (str_append ":" updated_at)))
          db'.candidate_alert_intents)
      ≡ true
  pub only_intents : db' ≡ record db { candidate_alert_intents = db'.candidate_alert_intents }

-- The tasks that `scheduled` calls, over the service's state; the two that expire offers say whether
-- they did anything.
pub record Tasks (S : Type 0) : Type 0 where
  pub cleanup_nonces : S → S
  pub record_runtime_day : S → S
  pub expire_agency_offers : S → S × Bool
  pub expire_live_offers : S → S × Bool
  pub plan_searches : S → S
  pub dispatch_searches : S → S
  pub evaluate_provisionals : S → S
  pub evaluate_bursts : S → S
  pub project_alerts : S → S
  pub project_events : S → S
  pub schedule_sources : S → S

module _ {S : Type 0} (t : Tasks S) where
  abbrev plan_tick : S → S
  plan_tick s =
      t.evaluate_bursts (t.evaluate_provisionals (t.dispatch_searches (t.plan_searches s)))

  abbrev live_tick : S × Bool → S
  live_tick (s, busy) = if busy then s else plan_tick s

  abbrev agency_tick : S × Bool → S
  agency_tick (s, busy) = let next = live_tick (t.expire_live_offers s) in if busy then s else next

  -- scheduled, at a minute of the hour.
  unfoldable pub scheduled : ℕ → S → S
  scheduled minute s =
      let ready = t.record_runtime_day (t.cleanup_nonces s) in
      if minute % 5 == 0
      then agency_tick (t.expire_agency_offers ready)
      else t.schedule_sources (t.project_events (t.project_alerts ready))
