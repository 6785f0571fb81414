-- ===== src/Outbox/Domain.antt =====
-- src/outbox.ts, claimDomainEvents and ackDomainEvent.
use fareradar.Prelude.{
  ℕ, suc, ◌<◌, ◌≤◌, String, Bool, true, false, Option, none, some, List, ◌≡◌, refl, ◌⊎◌, inl, inr,
  ◌&&◌, arith, leb, ltb, str_eq, opt_str_eq, get_or, is_some, if◌then◌else◌, length, Result, ok,
  err, ◌>>=◌, or_throw, >>=-eq-ok, Bool-cases, Option-cases,
}
use Prim.Native.String.{◌++◌ as str_append}
use fareradar.Sql.{update_where, find_row, claim}
use fareradar.Sql.Laws.{find_row-update_where, insert_or_ignore-found}
use fareradar.Sql.Claims.{Distinct, Distinct-update_where, length-claim, find_row-claim}
use fareradar.Db.{Db, admin, Payload, AlertIntent, DomainEvent, DomainState, iso_after}
use fareradar.Outbox.{IntentInput, enqueue_alert_intent}
use fareradar.Outbox.Notifications.{lapsed, lease_runs}

abbrev is_pending : DomainState → Bool
is_pending DomainState.pending = true
is_pending _ = false

abbrev is_claimed : DomainState → Bool
is_claimed DomainState.claimed = true
is_claimed _ = false

abbrev pub event_id : DomainEvent → String
event_id r = r.id

unfoldable pub reclaim_event : DomainEvent → DomainEvent
reclaim_event r = record r { state = DomainState.pending; claimed_by = none; lease_until = none }

unfoldable pub reclaim_events : ℕ → List DomainEvent → List DomainEvent
unfolding reclaim_event
reclaim_events now =
    update_where (λ r. is_claimed r.state && lapsed r.lease_until now) reclaim_event

unfoldable pub claim_event : String → ℕ → DomainEvent → DomainEvent
claim_event worker until r = record r {
  state = DomainState.claimed;
  claimed_by = some worker;
  lease_until = some until;
  attempts = suc r.attempts;
}

-- claimDomainEvents: ORDER BY id.
unfoldable pub claim_domain_events : Db → ℕ → String → ℕ → ℕ → Db × List DomainEvent
unfolding reclaim_events claim_event
claim_domain_events db now worker limit seconds =
    let (t, rows) =
      claim event_id (λ r. is_pending r.state) (λ a b. leb a.seq b.seq) limit
        (λ r. is_pending r.state) (claim_event worker (iso_after now seconds))
        (reclaim_events now db.domain_outbox) in
    (record db { domain_outbox = t }, rows)

pub record DomainAck : Type 0 where
  pub id : String
  pub worker_id : String
  pub succeeded : Bool
  pub error : Option String

pub data DomainAnswer : Type 0 where
  done retry dead : DomainAnswer

pub data DomainDecision : Type 0 where
  repeat : DomainAnswer → DomainDecision
  finish release bury : DomainDecision

abbrev pub closed : DomainState → Option DomainAnswer
closed DomainState.done = some done
closed DomainState.dead = some dead
closed _ = none

abbrev pub holds_claim : DomainEvent → String → ℕ → Bool
holds_claim r worker now =
    is_claimed r.state && opt_str_eq r.claimed_by worker && lease_runs r.lease_until now

unfoldable pub decide_leased : DomainEvent → DomainAck → ℕ → Result DomainDecision
decide_leased r i now =
    if holds_claim r i.worker_id now
    then ok (if i.succeeded then finish else if ltb r.attempts 5 then release else bury)
    else err "DOMAIN_EVENT_LEASE_REQUIRED"

unfoldable pub decide_domain : DomainEvent → DomainAck → ℕ → Result DomainDecision
unfolding decide_leased
decide_domain r i now = elim (closed r.state) [
  | none ↦ decide_leased r i now
  | some s ↦ if opt_str_eq r.claimed_by i.worker_id then ok (repeat s) else decide_leased r i now
]

-- WHERE id = ? AND state = 'CLAIMED' AND claimed_by = ?.
abbrev domain_guard : DomainAck → DomainEvent → Bool
domain_guard i r = str_eq r.id i.id && is_claimed r.state && opt_str_eq r.claimed_by i.worker_id

unfoldable pub domain_set : DomainDecision → DomainAck → DomainEvent → DomainEvent
domain_set (repeat s) i r = r
domain_set finish i r = record r { state = DomainState.done; lease_until = none; last_error = none }
domain_set release i r = record r {
  state = DomainState.pending;
  claimed_by = none;
  lease_until = none;
  last_error = some (get_or i.error "RETRYABLE");
}
domain_set bury i r = record r {
  state = DomainState.dead;
  lease_until = none;
  last_error = some (get_or i.error "TERMINAL");
}

abbrev pub domain_intent : DomainAck → DomainEvent → IntentInput
domain_intent i r = record {
  intent_id = str_append "admin-domain-" i.id;
  itinerary_id = r.entity_id;
  alert_class = admin;
  payload = Payload.domain_event_dead r.event_type r.entity_id;
}

unfoldable pub apply_domain : DomainDecision → DomainEvent → DomainAck → ℕ → Db → Db
unfolding domain_set
apply_domain (repeat s) r i now db = db
apply_domain finish r i now db = record db {
  domain_outbox = update_where (domain_guard i) (domain_set finish i) db.domain_outbox;
}
apply_domain release r i now db = record db {
  domain_outbox = update_where (domain_guard i) (domain_set release i) db.domain_outbox;
}
apply_domain bury r i now db =
    let db' : Db = record db {
      domain_outbox = update_where (domain_guard i) (domain_set bury i) db.domain_outbox;
    } in
    enqueue_alert_intent db' (domain_intent i r) now

abbrev domain_answer : DomainDecision → DomainAnswer
domain_answer (repeat s) = s
domain_answer finish = done
domain_answer release = retry
domain_answer bury = dead

-- ackDomainEvent.
unfoldable pub ack_domain_event : Db → DomainAck → ℕ → Result (Db × DomainAnswer)
unfolding decide_domain apply_domain
ack_domain_event db i now = do
  row ← or_throw (find_row event_id i.id db.domain_outbox) "DOMAIN_EVENT_NOT_FOUND"
  d ← decide_domain row i now
  ok (apply_domain d row i now db, domain_answer d)

-- At most `limit` events are claimed, and an event whose claim still runs is left as it is.
claim_domain_safe :
    (db : Db) (now : ℕ) (worker : String) (limit seconds : ℕ)
    → Distinct event_id db.domain_outbox
    → (length (claim_domain_events db now worker limit seconds).1 ≤ limit)
      × ((k : String) (r : DomainEvent) (until : ℕ)
          → find_row event_id k db.domain_outbox ≡ some r
          → r.state ≡ DomainState.claimed
          → r.lease_until ≡ some until
          → now < until
          → find_row event_id k (claim_domain_events db now worker limit seconds).0.domain_outbox
            ≡ some r)
unfolding claim_domain_events
claim_domain_safe db now worker limit seconds d =
    let lease = claim_event worker (iso_after now seconds) in
    let d' = Distinct-update_where event_id _ reclaim_event (λ r. refl) db.domain_outbox d in
    (
      length-claim event_id (λ r. is_pending r.state) _ limit _ lease _ d',
      λ k r until e s l h.
          let kept : find_row event_id k (reclaim_events now db.domain_outbox) ≡ some r = ground (
            arith,
            find_row-update_where event_id (λ x. is_claimed x.state && lapsed x.lease_until now)
                reclaim_event (λ x. refl) k db.domain_outbox,
          ) in
          ground (
            arith,
            find_row-claim event_id (λ x. is_pending x.state) (λ a b. leb a.seq b.seq) limit
                (λ x. is_pending x.state) lease (λ x. refl) (reclaim_events now db.domain_outbox) k
                r d' kept,
          ),
    )

decide_domain_cases :
    (r : DomainEvent) (i : DomainAck) (now : ℕ) (d : DomainDecision)
    → decide_domain r i now ≡ ok d
    → ((s : DomainAnswer) × (d ≡ repeat s)
        × (closed r.state ≡ some s)
        × (opt_str_eq r.claimed_by i.worker_id ≡ true))
      ⊎ ((holds_claim r i.worker_id now ≡ true)
          × (((d ≡ finish) × (i.succeeded ≡ true))
              ⊎ ((d ≡ release) × (i.succeeded ≡ false) × (r.attempts < 5))
              ⊎ ((d ≡ bury) × (i.succeeded ≡ false) × (5 ≤ r.attempts))))
unfolding decide_domain decide_leased
decide_domain_cases r i now d h = elim (Option-cases (closed r.state)) [
  | inl open_row ↦ inr (ground arith)
  | inr (s, over) ↦ elim (Bool-cases (opt_str_eq r.claimed_by i.worker_id)) [
    | inl own ↦ inl (s, ground arith, over, own)
    | inr other ↦ inr (ground arith)
  ]
]

abbrev dead_row : DomainAck → DomainEvent → ℕ → AlertIntent
dead_row i r now = record {
  intent_id = (domain_intent i r).intent_id;
  itinerary_id = r.entity_id;
  alert_class = admin;
  payload_json = (domain_intent i r).payload;
  projected_at = none;
  created_at = now;
}

-- An acknowledgement of a domain event that is accepted comes from the worker that finished the event
-- before, and then changes nothing, or from the one whose claim runs. That one's answer is DONE on
-- success, RETRY on a failure of fewer than five attempts, and DEAD on any other failure, with an
-- ADMIN intent stored.
domain_ack_outcome :
    (db : Db) (i : DomainAck) (now : ℕ) (db' : Db) (s : DomainAnswer) (r : DomainEvent)
    → find_row event_id i.id db.domain_outbox ≡ some r
    → ack_domain_event db i now ≡ ok (db', s)
    → ((db' ≡ db) × (closed r.state ≡ some s) × (opt_str_eq r.claimed_by i.worker_id ≡ true))
      ⊎ ((holds_claim r i.worker_id now ≡ true)
          × (((s ≡ done) × (i.succeeded ≡ true))
              ⊎ ((s ≡ retry) × (i.succeeded ≡ false) × (r.attempts < 5))
              ⊎ ((s ≡ dead)
                  × (i.succeeded ≡ false)
                  × (5 ≤ r.attempts)
                  × (is_some (
                        find_row
                          (λ a. a.intent_id)
                          (domain_intent i r).intent_id
                          db'.candidate_alert_intents)
                      ≡ true))))
unfolding ack_domain_event apply_domain enqueue_alert_intent
domain_ack_outcome db i now db' s r e h =
    let (d, decided, last) = >>=-eq-ok (decide_domain r i now) _ (rw e at h) in
    let stored =
      insert_or_ignore-found (λ a. a.intent_id) (dead_row i r now) db.candidate_alert_intents in
    ground (arith, decide_domain_cases r i now d decided, last, stored)
