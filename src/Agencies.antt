-- ===== src/Agencies.antt =====
-- The offers of agencies: their rows, and src/agency_expiry.ts, which takes an offer off the market with
-- everything that waits on it. The statements of one offer are a batch.
pub mod Closing
pub mod Checkout
pub mod Completing
pub mod Recheck
pub mod Outcomes
pub mod Soldout
use fareradar.Prelude.{
  ℕ, ◌+◌, String, Bool, true, false, Option, none, some, List, [], ◌∷◌, ◌++◌, ◌&&◌, ◌||◌, not, leb,
  ltb, ◌==◌, min, str_eq, truthy, is_some, filter, first, map, take, length, if◌then◌else◌,
}
use Prim.Native.String.{◌++◌ as str_append}
use fareradar.Sql.{update_where, order_by, insert_or_ignore, mem}
use fareradar.Db.{
  Db, deal, Payload, AlertIntent, Notification, JobState, CandidateSignal, SignalType,
  agency_clearance, promotion,
}
use fareradar.Runtime.{Runtime, Moment}
use fareradar.Outbox.{IntentInput, enqueue_alert_intent, is_null}
use fareradar.Lifecycle.Expiry.{is_unsent, cancel}

-- `listed` is a state that an ingest has written.
pub data OfferState : Type 0 where
  listed : String → OfferState
  seller_confirmed checkout_reproduced expired sold_out : OfferState

pub data ExpiryReason : Type 0 where
  booking_deadline_passed payment_deadline_passed ticketing_deadline_passed seats_exhausted :
      ExpiryReason

pub record AgencyOffer : Type 0 where
  pub agency_offer_id : String
  pub agency_id : String
  pub product_id : String
  pub tax_inclusion : String
  pub baggage : Option String
  pub seller_verification_state : String
  pub price : ℕ
  pub currency : String
  pub seats_available : Option ℕ
  pub booking_deadline : Option String
  pub payment_deadline : Option String
  pub ticketing_deadline : Option String
  pub booking_or_contact_channel : String
  pub observed_at : String
  pub state : OfferState
  pub expired_at : Option String
  pub expiry_reason : Option ExpiryReason

pub record CheckoutJob : Type 0 where
  pub job_id : String
  pub agency_offer_id : String
  pub agency_id : String
  pub state : JobState
  pub attempts : ℕ
  pub available_at : ℕ
  pub claimed_by : Option String
  pub lease_until : Option ℕ
  pub last_error : Option String
  pub created_at : ℕ
  pub updated_at : ℕ

pub record AgencyEvent : Type 0 where
  pub event_id : String
  pub agency_offer_id : String
  pub previous_state : OfferState
  pub new_state : OfferState
  pub reason : ExpiryReason
  pub effective_at : String
  pub created_at : ℕ

-- agency_partner_registry JOIN source_registry.
pub record Partner : Type 0 where
  pub agency_id : String
  pub status : String
  pub verified_business : Bool
  pub terms_snapshot_at : Option String
  pub source_domain : Option String

pub data CheckoutResult : Type 0 where
  reproduced sold_out recheck_required : CheckoutResult

pub record CheckoutEvidence : Type 0 where
  pub checkout_id : String
  pub job_id : String
  pub agency_offer_id : String
  pub agency_id : String
  pub worker_id : String
  pub content_sha256 : String
  pub final_price : ℕ
  pub currency : String
  pub result_state : CheckoutResult
  pub created_at : ℕ

pub record Agencies : Type 0 where
  pub db : Db
  pub offers : List AgencyOffer
  pub checkout_jobs : List CheckoutJob
  pub checkout_evidence : List CheckoutEvidence
  pub events : List AgencyEvent
  pub partners : List Partner

abbrev pub is_closed : OfferState → Bool
is_closed OfferState.expired = true
is_closed OfferState.sold_out = true
is_closed _ = false

-- `state IN ('PENDING','LEASED')`.
abbrev pub is_open : JobState → Bool
is_open JobState.pending = true
is_open JobState.leased = true
is_open _ = false

abbrev pub for_agencies : SignalType → Bool
for_agencies agency_clearance = true
for_agencies promotion = false

abbrev pub reason_text : ExpiryReason → String
reason_text booking_deadline_passed = "BOOKING_DEADLINE_PASSED"
reason_text payment_deadline_passed = "PAYMENT_DEADLINE_PASSED"
reason_text ticketing_deadline_passed = "TICKETING_DEADLINE_PASSED"
reason_text seats_exhausted = "SEATS_EXHAUSTED"

abbrev pub state_text : OfferState → String
state_text (listed s) = s
state_text seller_confirmed = "SELLER_CONFIRMED"
state_text checkout_reproduced = "CHECKOUT_REPRODUCED"
state_text OfferState.expired = "EXPIRED"
state_text OfferState.sold_out = "SOLD_OUT"

-- `seats_available === 0`.
abbrev pub no_seats : Option ℕ → Bool
no_seats none = false
no_seats (some n) = n == 0

-- A deadline that has passed: [t, reason, value] of the code's list.
pub record Passed : Type 0 where
  pub at : ℕ
  pub reason : ExpiryReason
  pub value : String

-- What agencyOfferExpiryReason answers.
pub record Expiry : Type 0 where
  pub reason : ExpiryReason
  pub effective_at : String
  pub new_state : OfferState

abbrev pub agency_itinerary : String → String
agency_itinerary id = str_append "agency:" id

abbrev pub intents_of : Db → String → List String
intents_of db itinerary =
    map (λ i. i.intent_id)
      (filter (λ i. str_eq i.itinerary_id itinerary) db.candidate_alert_intents)

module _ (R : Runtime) where
  -- `t !== null && t <= now`.
  abbrev pub deadline_passed : ℕ → Option String → ExpiryReason → List Passed
  deadline_passed now none reason = []
  deadline_passed now (some v) reason =
      if truthy v
      then elim (R.parse v) [
        | none ↦ []
        | some t ↦ if leb t now then record { at = t; reason = reason; value = v } ∷ [] else []
      ]
      else []

  unfoldable pub passed_deadlines : AgencyOffer → ℕ → List Passed
  passed_deadlines o now =
      deadline_passed now o.booking_deadline booking_deadline_passed
      ++ (deadline_passed now o.payment_deadline payment_deadline_passed
          ++ deadline_passed now o.ticketing_deadline ticketing_deadline_passed)

  -- agencyOfferExpiryReason: sold out first, then the earliest of the deadlines that have passed.
  unfoldable pub agency_offer_expiry_reason : AgencyOffer → Moment → Option Expiry
  unfolding passed_deadlines
  agency_offer_expiry_reason o now =
      if no_seats o.seats_available
      then some (record {
        reason = seats_exhausted;
        effective_at = now.iso;
        new_state = OfferState.sold_out;
      })
      else elim (first (order_by (λ a b. leb a.at b.at) (passed_deadlines o now.ms))) [
        | none ↦ none
        | some p ↦
            some
              (record { reason = p.reason; effective_at = p.value; new_state = OfferState.expired })
      ]

  -- `x IS NOT NULL AND datetime(x) <= datetime(now)`.
  abbrev pub sql_passed : Option String → Moment → Bool
  sql_passed none now = false
  sql_passed (some t) now = elim (R.sql_time t) [
    | none ↦ false
    | some at ↦ elim (R.sql_time now.iso) [ none ↦ false | some until ↦ leb at until ]
  ]

  abbrev pub may_expire : Moment → AgencyOffer → Bool
  may_expire now o =
      not (is_closed o.state)
      && (no_seats o.seats_available
          || sql_passed o.booking_deadline now
          || sql_passed o.payment_deadline now
          || sql_passed o.ticketing_deadline now)

  abbrev coalesce : Option String → String → String
  coalesce none d = d
  coalesce (some s) d = s

  -- COALESCE(booking_deadline,payment_deadline,ticketing_deadline,observed_at).
  abbrev due_text : AgencyOffer → String
  due_text o =
      coalesce o.booking_deadline
        (coalesce o.payment_deadline (coalesce o.ticketing_deadline o.observed_at))

  unfoldable pub due_offers : Agencies → Moment → ℕ → List AgencyOffer
  due_offers s now limit =
      take (min (if ltb limit 1 then 1 else limit) 2)
        (order_by (λ a b. R.text_le (due_text a) (due_text b)) (filter (may_expire now) s.offers))

unfoldable pub close_offer : Expiry → AgencyOffer → AgencyOffer
close_offer x o = record o {
  seller_verification_state = "REVOKED";
  state = x.new_state;
  expired_at = some x.effective_at;
  expiry_reason = some x.reason;
}

unfoldable pub close_signal : String → ℕ → CandidateSignal → CandidateSignal
close_signal reason now q = record q {
  state = JobState.dead;
  claimed_by = none;
  lease_until = none;
  last_error = some reason;
  updated_at = now;
}

unfoldable pub close_job : String → ℕ → CheckoutJob → CheckoutJob
close_job reason now j = record j {
  state = JobState.dead;
  claimed_by = none;
  lease_until = none;
  last_error = some reason;
  updated_at = now;
}

-- The statements of the batch on the shared tables.
unfoldable pub close_db : String → String → ℕ → Db → Db
unfolding close_signal cancel
close_db id reason now db = record db {
  candidate_priority_queue =
      update_where (λ q. for_agencies q.signal_type && str_eq q.signal_id id && is_open q.state)
        (close_signal reason now) db.candidate_priority_queue;
  candidate_alert_intents =
      update_where (λ i. str_eq i.itinerary_id (agency_itinerary id) && is_null i.projected_at)
        (λ i. record i { projected_at = some now }) db.candidate_alert_intents;
  notification_outbox =
      update_where
        (λ n. mem n.notification_id (intents_of db (agency_itinerary id)) && is_unsent n.state)
        (cancel reason) db.notification_outbox;
}

abbrev pub update_intent : AgencyOffer → Expiry → IntentInput
update_intent o x = record {
  intent_id =
      str_append "agency-expiry:"
        (str_append o.agency_offer_id (str_append ":" (reason_text x.reason)));
  itinerary_id = agency_itinerary o.agency_offer_id;
  alert_class = deal;
  payload =
      Payload.agency_update o.agency_offer_id (state_text x.new_state) (reason_text x.reason)
        x.effective_at;
}

abbrev expiry_event : AgencyOffer → Expiry → ℕ → AgencyEvent
expiry_event o x now = record {
  event_id = str_append "agency-life:" (
      str_append o.agency_offer_id (
        str_append ":"
          (str_append (state_text x.new_state) (str_append ":" (reason_text x.reason)))));
  agency_offer_id = o.agency_offer_id;
  previous_state = o.state;
  new_state = x.new_state;
  reason = x.reason;
  effective_at = x.effective_at;
  created_at = now;
}

-- The body of the loop for an offer with a reason: the batch, and the DEAL-UPDATE.
unfoldable pub expire_offer : Agencies → AgencyOffer → Expiry → Moment → Agencies
unfolding close_offer close_db close_job
expire_offer s o x now = record s {
  offers =
      update_where (λ a. str_eq a.agency_offer_id o.agency_offer_id && not (is_closed a.state))
        (close_offer x) s.offers;
  events = insert_or_ignore (λ e. e.event_id) (expiry_event o x now.ms) s.events;
  checkout_jobs =
      update_where (λ j. str_eq j.agency_offer_id o.agency_offer_id && is_open j.state)
        (close_job (reason_text x.reason) now.ms) s.checkout_jobs;
  db =
      enqueue_alert_intent (close_db o.agency_offer_id (reason_text x.reason) now.ms s.db)
        (update_intent o x) now.ms;
}

unfoldable pub expire_rows : Runtime → List AgencyOffer → Moment → Agencies → ℕ → Agencies × ℕ
unfolding expire_offer agency_offer_expiry_reason
expire_rows R [] now s n = (s, n)
expire_rows R (o ∷ os) now s n = elim (agency_offer_expiry_reason R o now) [
  | none ↦ expire_rows R os now s n
  | some x ↦ expire_rows R os now (expire_offer s o x now) (n + 1)
]

-- expireAgencyOffers, at a valid time: the tables, and the number expired.
unfoldable pub expire_agency_offers : Runtime → Agencies → Moment → ℕ → Agencies × ℕ
unfolding expire_rows due_offers
expire_agency_offers R s now limit = expire_rows R (due_offers R s now limit) now s 0
