-- ===== src/Outbox/Silenced.antt =====
-- Alert intents of src/outbox.ts that are taken back before they are projected, by the batches of
-- src/offer_lifecycle.ts and src/agency_expiry.ts.
use fareradar.Prelude.{
  ℕ, String, Bool, true, false, none, some, List, [], ◌∷◌, ◌≡◌, refl, ◌&&◌, inl, inr, arith, eq_iff,
  is_some, filter, map, In,
}
use fareradar.Sql.{mem, find_row, update_where}
use fareradar.Sql.Laws.{
  In-update_where, In-insert_or_ignore, find_row-update_where, find_row-insert_or_ignore,
}
use fareradar.Db.{Db, AlertIntent}
use fareradar.Outbox.{IntentInput, enqueue_alert_intent, is_null}

abbrev pub intent_key : AlertIntent → String
intent_key x = x.intent_id

-- Of the intents `ids` that are about something, none still waits to be projected; and all of them are
-- kept, so that none can be stored anew.
pub record Silenced (about : AlertIntent → Bool) (ids : List String) (t : List AlertIntent)
    : Type 0 where
  pub none_waiting :
      (x : AlertIntent)
      → In x t
      → about x ≡ true
      → mem x.intent_id ids ≡ true
      → is_null x.projected_at ≡ false
  pub all_kept : (k : String) → mem k ids ≡ true → is_some (find_row intent_key k t) ≡ true

selected_found :
    (p : AlertIntent → Bool) (k : String) (t : List AlertIntent)
    → mem k (map intent_key (filter p t)) ≡ true
    → is_some (find_row intent_key k t) ≡ true
selected_found p k [] h = cc
selected_found p k (x ∷ t) h =
    ground (arith, h, selected_found p k t, eq_iff k x.intent_id, eq_iff x.intent_id k)

abbrev pub set_projected : ℕ → AlertIntent → AlertIntent
set_projected now x = record x { projected_at = some now }

-- The UPDATE that takes the unprojected intents back.
pub update-Silenced :
    (about selected unprojected : AlertIntent → Bool) (now : ℕ) (t : List AlertIntent)
    → ((x : AlertIntent) → about (set_projected now x) ≡ about x)
    → ((x : AlertIntent) → unprojected x ≡ (about x && is_null x.projected_at))
    → Silenced about
        (map intent_key (filter selected t))
        (update_where unprojected (set_projected now) t)
update-Silenced about selected unprojected now t same means = record {
  none_waiting = λ x i h m.
      let (q, _, e) = In-update_where unprojected (set_projected now) t x i in
      ground (arith, e, h, same q, means q);
  all_kept = λ k m.
      let kept = find_row-update_where intent_key unprojected (set_projected now) (λ y. refl) k t in
      let found = selected_found selected k t m in ground (arith, kept, found);
}

-- A new intent is none of them.
pub enqueue-Silenced :
    (about : AlertIntent → Bool) (ids : List String) (db : Db) (i : IntentInput) (now : ℕ)
    → Silenced about ids db.candidate_alert_intents
    → Silenced about ids (enqueue_alert_intent db i now).candidate_alert_intents
unfolding enqueue_alert_intent
enqueue-Silenced about ids db i now s =
    let row : AlertIntent = record {
      intent_id = i.intent_id;
      itinerary_id = i.itinerary_id;
      alert_class = i.alert_class;
      payload_json = i.payload;
      projected_at = none;
      created_at = now;
    } in
    record {
      none_waiting = λ x j h m.
          elim (In-insert_or_ignore intent_key x row db.candidate_alert_intents j) [
            | inl old ↦ s.none_waiting x old h m
            | inr (e, free) ↦ absurd (ground (arith, e, free, m, s.all_kept x.intent_id m))
          ];
      all_kept = λ k m. ground (
        arith,
        s.all_kept k m,
        find_row-insert_or_ignore intent_key k row db.candidate_alert_intents,
      );
    }
