-- ===== src/Policy.antt =====
-- src/policy.ts: whether a policy record may be used for an event. `parse` is Date.parse, `none` for
-- NaN, with which every comparison of the source is false. Hours are whole numbers.
use fareradar.Prelude.{
  ℕ, ◌+◌, ◌*◌, ◌≤◌, min, String, Bool, true, false, Option, none, some, ◌≡◌, ◌&&◌, ◌||◌, not, leb,
  ltb, opt_str_eq, truthy_opt, get_or, arith,
}

pub record PolicyRecord : Type 0 where
  pub observed_at : String
  pub effective_from : Option String
  pub effective_to : Option String
  pub ttl_hours : ℕ
  pub watch_window_hours : Option ℕ
  pub status : Option String

module _ (parse : String → Option ℕ) where
  -- `event < Date.parse(p.effective_from)` of a date that is given.
  abbrev before_start : PolicyRecord → ℕ → Bool
  before_start p event =
      truthy_opt p.effective_from
      && elim (parse (get_or p.effective_from "")) [ none ↦ false | some t ↦ ltb event t ]

  -- `event >= Date.parse(p.effective_to)`.
  abbrev after_end : PolicyRecord → ℕ → Bool
  after_end p event =
      truthy_opt p.effective_to
      && elim (parse (get_or p.effective_to "")) [ none ↦ false | some t ↦ leb t event ]

  -- The age tests: `now - observed > hours` as `observed + hours < now`, which has no negative side.
  abbrev too_old : PolicyRecord → ℕ → ℕ → ℕ → Bool
  too_old p event now observed =
      ltb (observed + p.ttl_hours * 3600000) now
      || (ltb 0 (get_or p.watch_window_hours 0)
          && leb event (now + get_or p.watch_window_hours 0 * 3600000)
          && ltb (observed + min p.ttl_hours (get_or p.watch_window_hours 0) * 3600000) now)

  abbrev usable_at : PolicyRecord → Option ℕ → ℕ → Option ℕ → Bool
  usable_at p none now observed = false
  usable_at p (some event) now none = false
  usable_at p (some event) now (some observed) =
      not (before_start p event) && not (after_end p event) && not (too_old p event now observed)

  -- policyUsable, at a time `now` that parses.
  unfoldable pub policy_usable : PolicyRecord → String → ℕ → Bool
  policy_usable p event_at now =
      not (opt_str_eq p.status "RECHECK_REQUIRED")
      && not (opt_str_eq p.status "STALE")
      && usable_at p (parse event_at) now (parse p.observed_at)

  usable_at-earlier :
      (p : PolicyRecord) (event observed : Option ℕ) (earlier now : ℕ)
      → earlier ≤ now
      → usable_at p event now observed ≡ true
      → usable_at p event earlier observed ≡ true
  usable_at-earlier p none observed earlier now le h = cc
  usable_at-earlier p (some event) none earlier now le h = cc
  usable_at-earlier p (some event) (some observed) earlier now le h = ground arith

  -- Time only takes a policy away: one that may be used for an event could be used for it at each
  -- earlier time. This holds across the watch window too, within which the record must be younger.
  policy_usable-earlier :
      (p : PolicyRecord) (event_at : String) (earlier now : ℕ)
      → earlier ≤ now
      → policy_usable p event_at now ≡ true
      → policy_usable p event_at earlier ≡ true
  unfolding policy_usable
  policy_usable-earlier p event_at earlier now le h =
      ground (arith, usable_at-earlier p (parse event_at) (parse p.observed_at) earlier now le)
