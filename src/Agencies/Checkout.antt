-- ===== src/Agencies/Checkout.antt =====
-- src/agency_checkout.ts and src/agency_security.ts: the checkout jobs of agencies' offers, their leases,
-- and what a worker's readback of a checkout does to the offer. `host` is normalizeHost, the host name
-- of an https URL.
use fareradar.Prelude.{
  ℕ, suc, String, Bool, true, false, Option, none, some, List, [], ◌∷◌, ◌++◌, ◌&&◌, ◌||◌, not, leb,
  ltb, ◌==◌, min, str_eq, truthy, get_or, is_some, any, all, length, if◌then◌else◌, Result, ok,
  ◌>>=◌, ◌>>◌, assert, or_throw,
}
use Prim.Native.String.{◌++◌ as str_append}
use text.Mathlib.Text.{starts_with}
use fareradar.Prelude.Int.{pos}
use fareradar.Core.{Number, finite}
use fareradar.Sql.{update_where, find_row, insert_or_ignore, claim, mem}
use fareradar.Db.{admin, Payload, JobState, iso_after, retry_delay}
use fareradar.Runtime.{Runtime, Moment}
use fareradar.Outbox.{IntentInput, enqueue_alert_intent}
use fareradar.Outbox.Notifications.{lapsed}
use fareradar.Priority.{is_pending, is_leased}
use fareradar.Providers.{current_terms}
use fareradar.Jobs.Search.{codes, is_iata}
use fareradar.Agencies.{AgencyOffer, CheckoutJob, Partner, Agencies, is_closed, no_seats}

abbrev pub checkout_key : CheckoutJob → String
checkout_key j = j.job_id

abbrev pub offer_key : AgencyOffer → String
offer_key a = a.agency_offer_id

abbrev is_hex : ℕ → Bool
is_hex c = (leb b'0' c && leb c b'9') || (leb b'a' c && leb c b'f') || (leb b'A' c && leb c b'F')

-- /^[a-f0-9]{64}$/i.
unfoldable pub sha : String → Bool
sha s = length (codes s) == 64 && all is_hex (codes s)

-- partnerReady.
unfoldable pub partner_ready : Runtime → Agencies → String → Bool
partner_ready R s agency = elim (find_row (λ p. p.agency_id) agency s.partners) [
  | none ↦ false
  | some p ↦
      str_eq p.status "ENABLED" && p.verified_business && current_terms R.parse p.terms_snapshot_at
]

-- enqueueAgencyCheckoutJob: ON CONFLICT(agency_offer_id) DO NOTHING.
unfoldable pub enqueue_agency_checkout_job :
    List CheckoutJob → String → String → ℕ → List CheckoutJob
enqueue_agency_checkout_job t offer agency now =
    insert_or_ignore (λ j. j.agency_offer_id)
      (record {
        job_id = str_append "agency-checkout:" offer;
        agency_offer_id = offer;
        agency_id = agency;
        state = JobState.pending;
        attempts = 0;
        available_at = now;
        claimed_by = none;
        lease_until = none;
        last_error = none;
        created_at = now;
        updated_at = now;
      })
      t

unfoldable pub reclaim_checkout : CheckoutJob → CheckoutJob
reclaim_checkout j = record j { state = JobState.pending; claimed_by = none; lease_until = none }

unfoldable pub reclaim_checkouts : String → ℕ → List CheckoutJob → List CheckoutJob
unfolding reclaim_checkout
reclaim_checkouts agency now =
    update_where (λ j. is_leased j.state && lapsed j.lease_until now && str_eq j.agency_id agency)
      reclaim_checkout

unfoldable pub lease_checkout : String → ℕ → ℕ → CheckoutJob → CheckoutJob
lease_checkout worker until now j = record j {
  state = JobState.leased;
  claimed_by = some worker;
  lease_until = some until;
  attempts = suc j.attempts;
  updated_at = now;
}

-- `x IS NULL OR datetime(x) > datetime(now)`.
abbrev pub sql_ahead : Runtime → Option String → Moment → Bool
sql_ahead R none now = true
sql_ahead R (some t) now = elim (R.sql_time t) [
  | none ↦ false
  | some at ↦ elim (R.sql_time now.iso) [ none ↦ false | some until ↦ ltb until at ]
]

-- The offer is still on the market.
unfoldable pub on_market : Runtime → Moment → AgencyOffer → Bool
on_market R now a =
    not (is_closed a.state)
    && not (no_seats a.seats_available)
    && sql_ahead R a.booking_deadline now
    && sql_ahead R a.payment_deadline now
    && sql_ahead R a.ticketing_deadline now

abbrev pub checkout_due : Runtime → List AgencyOffer → String → Moment → CheckoutJob → Bool
checkout_due R offers agency now j =
    str_eq j.agency_id agency
    && is_pending j.state
    && leb j.available_at now.ms
    && elim (find_row offer_key j.agency_offer_id offers) [
      | none ↦ false
      | some a ↦ on_market R now a
    ]

-- Math.min(Math.max(limit ?? 3, 1), 3).
abbrev pub checkout_limit : Option ℕ → ℕ
checkout_limit limit = let n = get_or limit 3 in min (if ltb n 1 then 1 else n) 3

-- leaseAgencyCheckouts.
unfoldable pub lease_agency_checkouts :
    Runtime → Agencies → String → String → Option ℕ → Moment → Result (Agencies × List CheckoutJob)
unfolding partner_ready reclaim_checkouts lease_checkout
lease_agency_checkouts R s agency worker limit now = do
  assert (truthy agency && truthy worker) "AGENCY_CHECKOUT_IDENTITY_REQUIRED"
  assert (partner_ready R s agency) "AGENCY_PARTNER_NOT_ENABLED"
  ok (
      let (t, rows) =
        claim checkout_key (checkout_due R s.offers agency now)
          (λ a b. leb a.created_at b.created_at) (checkout_limit limit) (λ j. is_pending j.state)
          (lease_checkout worker (iso_after now.ms 120) now.ms)
          (reclaim_checkouts agency now.ms s.checkout_jobs) in
      (record s { checkout_jobs = t }, rows))

pub data AckState : Type 0 where
  done retry dead : AckState

abbrev write_checkout : String → (CheckoutJob → CheckoutJob) → Agencies → Agencies
write_checkout id f s = record s {
  checkout_jobs = update_where (λ j. str_eq j.job_id id) f s.checkout_jobs;
}

abbrev dead_intent : CheckoutJob → String → IntentInput
dead_intent j error = record {
  intent_id = str_append "admin-agency-checkout:" j.job_id;
  itinerary_id = j.agency_offer_id;
  alert_class = admin;
  payload = Payload.agency_checkout_dead j.job_id j.agency_offer_id error;
}

-- ackCheckoutJob: `j` is the job's row as it was read.
unfoldable pub ack_checkout_job :
    Agencies → CheckoutJob → Bool → Bool → Option String → ℕ → Agencies × AckState
ack_checkout_job s j succeeded retryable error now =
    if succeeded
    then (
      write_checkout j.job_id
          (λ x. record x {
            state = JobState.done;
            lease_until = none;
            last_error = none;
            updated_at = now;
          })
          s,
      done,
    )
    else if retryable && ltb j.attempts 5
    then (
      write_checkout j.job_id
          (λ x. record x {
            state = JobState.pending;
            claimed_by = none;
            lease_until = none;
            available_at = iso_after now (retry_delay j.attempts);
            last_error = some (get_or error "RETRYABLE");
            updated_at = now;
          })
          s,
      retry,
    )
    else (
      let s' : Agencies =
            write_checkout j.job_id
              (λ x. record x {
                state = JobState.dead;
                lease_until = none;
                last_error = some (get_or error "TERMINAL");
                updated_at = now;
              })
              s in
          record s' {
            db = enqueue_alert_intent s'.db (dead_intent j (get_or error "TERMINAL")) now;
          },
      dead,
    )

-- AgencyCheckoutInput.
pub record AgencyCheckoutInput : Type 0 where
  pub checkout_id : String
  pub job_id : String
  pub agency_offer_id : String
  pub agency_id : String
  pub worker_id : String
  pub readback_basis : String
  pub checkout_url : String
  pub content_sha256 : String
  pub observed_at : String
  pub final_price : Number
  pub currency : String
  pub seats_available : Option Number
  pub booking_deadline : Option String
  pub payment_deadline : Option String
  pub total_includes_taxes : Bool
  pub total_includes_mandatory_fees : Bool
  pub payment_dispatched : Bool

-- A number that is finite and not negative; those of the model that are finite are whole.
abbrev pub natural : Number → Option ℕ
natural (finite (pos n)) = some n
natural _ = none

abbrev pub valid_seats : Option Number → Bool
valid_seats none = true
valid_seats (some n) = is_some (natural n)

abbrev pub seats_of : Option Number → Option ℕ
seats_of none = none
seats_of (some n) = natural n

-- `Date.parse(x) <= Date.parse(now)` of a text that parses.
abbrev pub not_after : Runtime → String → ℕ → Bool
not_after R t now = elim (R.parse t) [ none ↦ false | some at ↦ leb at now ]

-- The asserts before the first SELECT.
abbrev pub valid_checkout : Runtime → AgencyCheckoutInput → Moment → Result (Unit {0})
valid_checkout R i now = do
  assert
      (truthy i.checkout_id
        && truthy i.job_id
        && truthy i.agency_offer_id
        && truthy i.agency_id
        && truthy i.worker_id)
      "AGENCY_CHECKOUT_IDENTITY_REQUIRED"
  assert
      (mem i.readback_basis
        ("PARTNER_BOOKING_API" ∷ "PARTNER_PORTAL_CHECKOUT" ∷ "OFFICIAL_CHECKOUT_PAGE" ∷ []))
      "AGENCY_CHECKOUT_BASIS_INVALID"
  assert (starts_with i.checkout_url "https://" && sha i.content_sha256)
      "AGENCY_CHECKOUT_EVIDENCE_INVALID"
  assert (not_after R i.observed_at now.ms) "AGENCY_CHECKOUT_TIME_INVALID"
  assert (is_some (natural i.final_price) && is_iata i.currency) "AGENCY_CHECKOUT_PRICE_INVALID"
  assert (valid_seats i.seats_available) "AGENCY_CHECKOUT_SEATS_INVALID"
  assert (not i.payment_dispatched) "AGENCY_CHECKOUT_PAYMENT_FORBIDDEN"

-- An https host that is one of the allowed ones, or below one of them.
same_codes : List ℕ → List ℕ → Bool
same_codes [] [] = true
same_codes (a ∷ as') (b ∷ bs) = a == b && same_codes as' bs
same_codes _ _ = false

ends_with : List ℕ → List ℕ → Bool
unfolding same_codes
ends_with [] t = same_codes [] t
ends_with (c ∷ s) t = same_codes (c ∷ s) t || ends_with s t

unfoldable pub host_matches : String → String → Bool
unfolding ends_with
host_matches host allowed =
    str_eq host allowed || ends_with (codes host) (codes (str_append "." allowed))

abbrev to_list : Option String → List String
to_list none = []
to_list (some h) = h ∷ []

abbrev host_of : (String → Option String) → Option String → Option String
host_of host none = none
host_of host (some v) = if truthy v then host v else none

-- agencyAllowedDomains; a repeated domain changes nothing, since the list is only searched.
abbrev allowed_domains : (String → Option String) → Partner → String → List String
allowed_domains host p channel =
    to_list (host_of host p.source_domain) ++ to_list (host_of host (some channel))

-- assertAgencyUrlAllowed.
unfoldable pub assert_agency_url_allowed :
    (String → Option String) → Agencies → String → String → String → Result (Unit {0})
unfolding host_matches
assert_agency_url_allowed host s agency url channel = do
  h ← or_throw (host_of host (some url)) "AGENCY_URL_INVALID"
  p ← or_throw (find_row (λ p. p.agency_id) agency s.partners) "AGENCY_PARTNER_NOT_FOUND"
  assert (any (host_matches h) (allowed_domains host p channel)) "AGENCY_URL_DOMAIN_MISMATCH"
