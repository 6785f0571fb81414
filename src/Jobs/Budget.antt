-- ===== src/Jobs/Budget.antt =====
-- src/provider_pricing.ts, reserveProviderSearchBudget: the searches that a provider's price list pays
-- for, counted by usage windows. A throw keeps what was written before it, so the windows are
-- returned beside the answer.
use fareradar.Prelude.{
  ℕ, suc, ◌*◌, ◌≤◌, min, String, Bool, true, false, Option, none, some, List, [], ◌∷◌, ◌++◌, ◌≡◌,
  ◌&&◌, ◌||◌, not, ltb, leb, ◌==◌, str_eq, str_eq_refl, is_some, filter, find, first, length, arith,
  if◌then◌else◌, Result, ok, err, Option-cases, inl, inr,
}
use fareradar.Sql.{update_where, order_by, find_row}
use fareradar.Sql.Laws.{find-append}
use fareradar.Runtime.{Runtime, Moment}
use fareradar.Providers.{ProviderAccess}

pub record PricingSnapshot : Type 0 where
  pub pricing_snapshot_id : String
  pub provider_id : String
  pub usage_window_kind : String
  pub search_to_book_threshold : ℕ
  pub hard_search_cap : Option ℕ
  pub active : Bool
  pub effective_from : ℕ
  pub expires_at : ℕ
  pub observed_at : ℕ

pub record UsageWindow : Type 0 where
  pub provider_id : String
  pub window_key : String
  pub pricing_snapshot_id : String
  pub search_count : ℕ
  pub confirmed_order_count : ℕ
  pub circuit_open : Bool
  pub updated_at : ℕ

-- `a && a > 0 ? a : d`.
abbrev positive_or : Option ℕ → ℕ → ℕ
positive_or none d = d
positive_or (some a) d = if a == 0 then d else a

-- effectiveLimit, in whole searches.
unfoldable pub effective_limit : Option ℕ → ℕ → Option ℕ → ℕ → ℕ
effective_limit budget threshold cap orders =
    let ratio = (if ltb orders 1 then 1 else orders) * threshold in
    let limit = min ratio (positive_or budget ratio) in min limit (positive_or cap limit)

abbrev pub window_key_of : Runtime → String → Moment → String
window_key_of R kind now = if str_eq kind "LIFETIME" then "LIFETIME" else R.month now.iso

abbrev pub in_window : String → String → UsageWindow → Bool
in_window provider key w = str_eq w.provider_id provider && str_eq w.window_key key

-- INSERT OR IGNORE INTO provider_usage_windows.
unfoldable pub insert_window : String → String → String → ℕ → List UsageWindow → List UsageWindow
insert_window provider key snapshot now t =
    if is_some (find (in_window provider key) t)
    then t
    else t
      ++ record {
        provider_id = provider;
        window_key = key;
        pricing_snapshot_id = snapshot;
        search_count = 0;
        confirmed_order_count = 0;
        circuit_open = false;
        updated_at = now;
      }
        ∷ []

unfoldable pub open_circuit : String → String → ℕ → List UsageWindow → List UsageWindow
open_circuit provider key now =
    update_where (in_window provider key) (λ w. record w { circuit_open = true; updated_at = now })

unfoldable pub count_search : ℕ → UsageWindow → UsageWindow
count_search now w = record w { search_count = suc w.search_count; updated_at = now }

abbrev pub orders_of : Option UsageWindow → ℕ
orders_of none = 0
orders_of (some w) = w.confirmed_order_count

abbrev pub searches_of : Option UsageWindow → ℕ
searches_of none = 0
searches_of (some w) = w.search_count

abbrev pub is_open : Option UsageWindow → Bool
is_open none = false
is_open (some w) = w.circuit_open

abbrev pub countable : String → String → ℕ → UsageWindow → Bool
countable provider key limit w =
    in_window provider key w && not w.circuit_open && ltb w.search_count limit

abbrev pub limit_for : ProviderAccess → PricingSnapshot → Option UsageWindow → ℕ
limit_for a snap usage =
    effective_limit a.look_to_book_budget snap.search_to_book_threshold snap.hard_search_cap
      (orders_of usage)

-- The statements after the price list is read: `t` has the window's row.
unfoldable pub take_search :
    String → String → ℕ → ℕ → List UsageWindow → List UsageWindow × Result (Unit {0})
unfolding open_circuit count_search
take_search provider key limit now t =
    let usage = find (in_window provider key) t in
    if is_open usage || leb limit (searches_of usage)
    then (open_circuit provider key now t, err "PROVIDER_SEARCH_CIRCUIT_OPEN")
    else if length (filter (countable provider key limit) t) == 1
    then (update_where (countable provider key limit) (count_search now) t, ok tt)
    else (open_circuit provider key now t, err "PROVIDER_SEARCH_CIRCUIT_OPEN")

-- The snapshot in force: ORDER BY observed_at DESC LIMIT 1.
unfoldable pub current_pricing : String → ℕ → List PricingSnapshot → Option PricingSnapshot
current_pricing provider now pricing = first (
    order_by (λ a b. leb b.observed_at a.observed_at)
      (filter
        (λ s.
          str_eq s.provider_id provider
          && s.active
          && leb s.effective_from now
          && ltb now s.expires_at)
        pricing))

unfoldable pub reserve_window :
    Runtime
    → ProviderAccess
    → PricingSnapshot
    → String
    → Moment
    → List UsageWindow
    → List UsageWindow × Result (Unit {0})
unfolding take_search insert_window
reserve_window R a snap provider now windows =
    let key = window_key_of R snap.usage_window_kind now in
    let t = insert_window provider key snap.pricing_snapshot_id now.ms windows in
    take_search provider key (limit_for a snap (find (in_window provider key) t)) now.ms t

-- reserveProviderSearchBudget.
unfoldable pub reserve_provider_search_budget :
    Runtime
    → List ProviderAccess
    → List PricingSnapshot
    → List UsageWindow
    → String
    → Moment
    → List UsageWindow × Result (Unit {0})
unfolding reserve_window current_pricing
reserve_provider_search_budget R access pricing windows provider now =
    if not (str_eq provider "duffel")
    then (windows, ok tt)
    else elim (find_row (λ a. a.provider_id) provider access) [
      | none ↦ (windows, err "PROVIDER_ACCESS_NOT_READY")
      | some a ↦ elim (current_pricing provider now.ms pricing) [
        | none ↦ (windows, err "PROVIDER_PRICING_POLICY_MISSING")
        | some snap ↦ reserve_window R a snap provider now windows
      ]
    ]

module _ (provider key : String) where
  counted :
      (limit now : ℕ) (w : UsageWindow) (t : List UsageWindow)
      → find (in_window provider key) t ≡ some w
      → w.circuit_open ≡ false
      → ltb w.search_count limit ≡ true
      → find
          (in_window provider key)
          (update_where (countable provider key limit) (count_search now) t)
        ≡ some (count_search now w)
  unfolding count_search update_where
  counted limit now w [] e o l = cc
  counted limit now w (x ∷ t) e o l = ground (arith, counted limit now w t)

  taken :
      (limit now : ℕ) (t t' : List UsageWindow)
      → take_search provider key limit now t ≡ (t', ok tt)
      → (w : UsageWindow) → find (in_window provider key) t ≡ some w
      → (find (in_window provider key) t' ≡ some (count_search now w))
        × (suc w.search_count ≤ limit)
        × (w.circuit_open ≡ false)
  unfolding take_search
  taken limit now t t' h w e = ground (arith, counted limit now w t)

  inserted :
      (snapshot : String) (now : ℕ) (t : List UsageWindow)
      → (w : UsageWindow) × (find
            (in_window provider key)
            (insert_window provider key snapshot now t)
          ≡ some w)
        × (w.search_count ≡ searches_of (find (in_window provider key) t))
        × (w.confirmed_order_count ≡ orders_of (find (in_window provider key) t))
  unfolding insert_window
  inserted snapshot now t = elim (Option-cases (find (in_window provider key) t)) [
    | inr (w, e) ↦ (w, ground arith, ground arith, ground arith)
    | inl e ↦ (
      record {
        provider_id = provider;
        window_key = key;
        pricing_snapshot_id = snapshot;
        search_count = 0;
        confirmed_order_count = 0;
        circuit_open = false;
        updated_at = now;
      },
      rw e (
          ground (
            arith,
            str_eq_refl provider,
            str_eq_refl key,
            find-append (in_window provider key) t (
                record {
                  provider_id = provider;
                  window_key = key;
                  pricing_snapshot_id = snapshot;
                  search_count = 0;
                  confirmed_order_count = 0;
                  circuit_open = false;
                  updated_at = now;
                }
                ∷ []),
          )),
      ground arith,
      ground arith,
    )
  ]

-- A search that a provider's price list must pay for takes exactly one of the searches of the current
-- usage window, and only while the window's count stays within the limit that the price list, the
-- provider's budget and the orders confirmed in the window allow.
pub search_within_budget :
    (R : Runtime) (a : ProviderAccess) (snap : PricingSnapshot) (provider : String) (now : Moment)
    (t t' : List UsageWindow)
    → reserve_window R a snap provider now t ≡ (t', ok tt)
    → let window = in_window provider (window_key_of R snap.usage_window_kind now) in
      (w : UsageWindow) × (find window t' ≡ some w)
      × (w.search_count ≡ suc (searches_of (find window t)))
      × (w.search_count ≤ limit_for a snap (find window t))
      × (w.circuit_open ≡ false)
unfolding reserve_window count_search
search_within_budget R a snap provider now t t' h =
    let key : String = window_key_of R snap.usage_window_kind now in
    let (w, e, n, o) = inserted provider key snap.pricing_snapshot_id now.ms t in
    let (after, within, closed) =
      taken provider key
        (limit_for a snap (
          find (in_window provider key)
            (insert_window provider key snap.pricing_snapshot_id now.ms t)))
        now.ms _ t' h w e in
    (count_search now.ms w, after, ground arith, ground arith, closed)
