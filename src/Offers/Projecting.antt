-- ===== src/Offers/Projecting.antt =====
-- src/provider_results.ts, continued: what a recomputation writes, and the projection of a job's
-- results to the candidates that wait for them. The statements of a recomputation are not one
-- transaction: a throw keeps what was written before it, so the tables are returned beside the answer.
-- `project` is projectDirectVerifiedCandidate of src/direct_candidate.ts.
use fareradar.Prelude.{
  ℕ, suc, String, true, none, some, List, [], ◌∷◌, ◌++◌, ◌&&◌, str_eq, opt_str_eq, any, filter,
  if◌then◌else◌, Result, ok, err,
}
use Prim.Native.String.{◌++◌ as str_append}
use fareradar.Sql.{mem, find_row}
use fareradar.Db.{Db, DomainEvent}
use fareradar.Runtime.{Runtime, Moment}
use fareradar.Priority.{SignalAck, SignalAnswer, ack_candidate_signal}
use fareradar.Offers.{
  OfferSnapshot, OfferLink, VerificationResult, SearchPlan, JobConsumer, Candidates, Offers,
  mark_direct_candidate_fare_stale,
}
use fareradar.Offers.Promotion.{promotion_constraint_for_queue}
use fareradar.Offers.Recompute.{
  linked, verdict, Verdict, upsert_result, write_verification_supports, result_row, result_id_of,
  Projection, is_confirmed, best_id,
}

-- The tables that projecting a job's results reads and writes.
pub record Tables : Type 0 where
  pub db : Db
  pub offers : Offers

-- What projectDirectVerifiedCandidate leaves: the tables of candidates, and domain_outbox as
-- persistCandidatePlan of src/intake.ts has written it where the fare is CONFIRMED; of any other fare it
-- writes no domain event.
pub record Projected : Type 0 where
  pub candidates : Candidates
  pub domain_outbox : List DomainEvent

module _ (R : Runtime) (project : Tables → Projection → Moment → Result Projected) where
  -- The fare of the best offer is projected; without one the candidate's fare goes stale.
  unfoldable pub project_verdict : Tables → String → String → Verdict → Moment → Result Projected
  project_verdict t queue fingerprint v now = elim v.best [
    | none ↦ ok (record {
      candidates =
          mark_direct_candidate_fare_stale R t.offers.candidates queue fingerprint v.reason
            (str_append "verification:" (result_id_of R queue fingerprint)) now;
      domain_outbox = t.db.domain_outbox;
    })
    | some best ↦
        project t
          (record {
            queue_id = queue;
            query_fingerprint = fingerprint;
            verification_state = v.verification_state;
            best_offer_id = best.provider_offer_id;
          })
          now
  ]

  -- The results and the supports of a verdict, in this order.
  unfoldable pub store_verdict :
      Offers → String → String → Verdict → ℕ → List VerificationResult → Offers
  store_verdict o queue fingerprint v now results = record o {
    candidate_verification_results = results;
    candidate_verification_supports =
        write_verification_supports (result_id_of R queue fingerprint) v.supporting_offer_ids
          (best_id v) now o.candidate_verification_supports;
  }

  abbrev pub project_stored : Tables → Verdict → Result Projected → Tables × Result Verdict
  project_stored t v (err e) = (t, err e)
  project_stored t v (ok p) = (
    record {
      db =
          if is_confirmed v.verification_state
          then record t.db { domain_outbox = p.domain_outbox }
          else t.db;
      offers = record t.offers { candidates = p.candidates };
    },
    ok v,
  )

  abbrev pub write_verdict :
      Tables
      → String
      → String
      → Verdict
      → Moment
      → Result (List VerificationResult)
      → Tables × Result Verdict
  write_verdict t queue fingerprint v now (err e) = (t, err e)
  write_verdict t queue fingerprint v now (ok results) =
      let stored = record t {
        offers = store_verdict t.offers queue fingerprint v now.ms results;
      } in
      project_stored stored v (project_verdict stored queue fingerprint v now)

  abbrev pub verdict_for : Tables → String → String → Moment → Verdict
  verdict_for t queue fingerprint now =
      verdict R
        (promotion_constraint_for_queue t.db.candidate_priority_queue t.offers.promotion_events
          queue)
        (linked t.offers queue fingerprint) now

  -- recomputeCandidateVerification.
  unfoldable pub recompute_candidate_verification :
      Tables → String → String → Moment → Tables × Result Verdict
  unfolding project_verdict store_verdict result_row
  recompute_candidate_verification t queue fingerprint now =
      let v = verdict_for t queue fingerprint now in
      write_verdict t queue fingerprint v now (
        upsert_result (result_row R queue fingerprint now.ms v)
          t.offers.candidate_verification_results)

  -- INSERT OR IGNORE INTO candidate_offer_links, whose key is (queue_id, provider_offer_id).
  unfoldable pub link_offers :
      JobConsumer → String → ℕ → List OfferSnapshot → List OfferLink → List OfferLink
  link_offers c fingerprint now [] t = t
  link_offers c fingerprint now (o ∷ os) t = link_offers c fingerprint now os (
      if any (λ l. str_eq l.queue_id c.queue_id && str_eq l.provider_offer_id o.provider_offer_id) t
      then t
      else t
        ++ record {
          queue_id = c.queue_id;
          plan_id = c.plan_id;
          job_id = c.job_id;
          provider_offer_id = o.provider_offer_id;
          query_fingerprint = fingerprint;
          created_at = now;
        }
          ∷ [])

  abbrev pub job_offers : String → String → List OfferSnapshot → List OfferSnapshot
  job_offers job fingerprint offers =
      filter
        (λ o.
          opt_str_eq o.source_snapshot_id job && str_eq o.query_fingerprint fingerprint && o.live)
        offers

  abbrev success_ack : String → SignalAck
  success_ack queue = record {
    queue_id = queue;
    worker_id = none;
    succeeded = true;
    retryable = none;
    error = none;
  }

  -- A CONFIRMED fare answers its signal.
  abbrev acked : Tables → Result (Db × SignalAnswer) → Tables × Result (Unit {0})
  acked t (err e) = (t, err e)
  acked t (ok (db, a)) = (record t { db = db }, ok tt)

  abbrev pub answer_signal : String → Moment → Tables × Result Verdict → Tables × Result (Unit {0})
  answer_signal queue now (t, err e) = (t, err e)
  answer_signal queue now (t, ok v) =
      if is_confirmed v.verification_state
      then acked t (ack_candidate_signal t.db (success_ack queue) now.ms)
      else (t, ok tt)

  abbrev key_of : JobConsumer → SearchPlan → String
  key_of c p = str_append c.queue_id (str_append "|" p.query_fingerprint)

  abbrev pub linked_tables : Tables → JobConsumer → SearchPlan → Moment → Tables
  linked_tables t c p now = record t {
    offers = record t.offers {
      candidate_offer_links =
          link_offers c p.query_fingerprint now.ms
            (job_offers c.job_id p.query_fingerprint t.offers.offer_snapshots)
            t.offers.candidate_offer_links;
    };
  }

  -- The rows of provider_job_consumers JOIN provider_search_plans for a job.
  unfoldable pub consumers_of :
      String → List SearchPlan → List JobConsumer → List (JobConsumer × SearchPlan)
  consumers_of job plans [] = []
  consumers_of job plans (c ∷ cs) =
      let rest = consumers_of job plans cs in
      if str_eq c.job_id job
      then elim (find_row (λ p. p.plan_id) c.plan_id plans) [ none ↦ rest | some p ↦ (c, p) ∷ rest ]
      else rest

  -- The loop over the consumers; a key that has been seen is linked and not projected again.
  unfoldable pub project_consumers :
      List (JobConsumer × SearchPlan) → List String → Moment → ℕ → Tables → Tables × Result ℕ
  project_consumers [] seen now projected t = (t, ok projected)
  project_consumers ((c, p) ∷ cs) seen now projected t =
      let key = key_of c p in
      let t' = linked_tables t c p now in
      let again = project_consumers cs seen now projected t' in
      let (t'', r) =
        answer_signal c.queue_id now
          (recompute_candidate_verification t' c.queue_id p.query_fingerprint now) in
      let next = project_consumers cs (key ∷ seen) now (suc projected) t'' in
      if mem key seen then again else elim r [ err e ↦ (t'', err e) | ok done ↦ next ]

  -- projectProviderJobResults: the tables, and the number projected.
  unfoldable pub project_provider_job_results : Tables → String → Moment → Tables × Result ℕ
  unfolding project_consumers consumers_of link_offers
  project_provider_job_results t job now =
      project_consumers
        (consumers_of job t.offers.provider_search_plans t.offers.provider_job_consumers) [] now 0 t
