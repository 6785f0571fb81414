-- ===== src/FourLeg/Order.antt =====
-- The order of a four-leg cycle (src/four_leg.ts), and what transitionFourLegCycle writes.
use fareradar.Prelude.{
  Option, Option-cases, or_throw-eq-ok, truthy_opt, not, ap, subst, ℕ, ◌+◌, String, true, false,
  none, some, List, [], ◌∷◌, ◌≡◌, refl, ◌⊎◌, inl, inr, ◌≢◌, arith, length, ok, err, or_throw,
  >>=-eq-ok, Bool-cases, if◌then◌else◌, ◌∙◌, sym, eq_iff, str_eq, ◌&&◌,
}
use fareradar.FourLeg.{
  CycleState, not_started, cycle_completed, broken, index_of, transition_allowed, is_broken,
  same_state, Cycle, cycle_key, Transition, Answer, move_cycle, transition_from,
  transition_four_leg_cycle,
}
use fareradar.Sql.{find_row}
use fareradar.Sql.Laws.{find_row-update_where, find_row-key}

-- A history of states, each allowed after the one before it.
pub data History (start : CycleState) : List CycleState → CycleState → Type 0 where
  begin : History start [] start
  advance :
      {states : List CycleState} {from : CycleState} (to : CycleState)
      → History start states from
      → transition_allowed from to ≡ true
      → History start (to ∷ states) to

-- The place of a state in ORDER; BROKEN stands behind them all.
abbrev pub place : CycleState → ℕ
place s = elim (index_of s) [ none ↦ 9 | some i ↦ i ]

step_place :
    (from to : CycleState)
    → transition_allowed from to ≡ true
    → (to ≡ broken) ⊎ (place to ≡ place from + 1)
unfolding transition_allowed
step_place from to h = ground arith

not_broken_from : (from to : CycleState) → transition_allowed from to ≡ true → from ≢ broken
unfolding transition_allowed
not_broken_from broken to h e = ground arith
not_broken_from _ to h e = cc

-- A cycle passes the states of ORDER one at a time: after n changes from NOT_STARTED it is BROKEN
-- or at place n. So CYCLE_COMPLETED is reached by exactly eight changes, and by no shortcut.
place_of_history :
    (states : List CycleState) (s : CycleState)
    → History not_started states s
    → (s ≡ broken) ⊎ (place s ≡ length states)
unfolding index_of
place_of_history [] s begin = inr refl
place_of_history (x ∷ states) s (advance {from = from} to h allowed) =
    elim (place_of_history states from h) [
      | inl gone ↦ absurd (not_broken_from from to allowed gone)
      | inr at_place ↦ elim (step_place from to allowed) [
        | inl e ↦ inl e
        | inr e ↦ inr (omega (arith, e, at_place))
      ]
    ]

transition_from_cases :
    (t : List Cycle) (i : Transition) (now : ℕ) (from : CycleState) (t' : List Cycle) (a : Answer)
    → transition_from t i now from ≡ ok (t', a)
    → ((t' ≡ t)
        × (same_state from i.to_state ≡ true)
        × (a ≡ record { state = i.to_state; idempotent = true }))
      ⊎ ((t' ≡ move_cycle i from now t)
          × (transition_allowed from i.to_state ≡ true)
          × ((is_broken i.to_state && not (truthy_opt i.reason)) ≡ false)
          × (a ≡ record { state = i.to_state; idempotent = false }))
unfolding transition_from
transition_from_cases t i now from t' a h = ground arith

same_state-eq : (from to : CycleState) → same_state from to ≡ true → from ≡ to
unfolding same_state
same_state-eq from to h = ground arith

same_state_refl : (s : CycleState) → same_state s s ≡ true
unfolding same_state
same_state_refl s = ground arith

-- What the row of a moved cycle keeps of its reason: none, or the reason given when it breaks.
abbrev pub Explained : Transition → Option String → Type 0
Explained i reason =
    ((i.to_state ≢ broken) × (reason ≡ none))
    ⊎ ((i.to_state ≡ broken) × ((m : String) × (i.reason ≡ some m) × (m ≢ "") × (reason ≡ some m)))

reason_kept :
    (i : Transition)
    → (is_broken i.to_state && not (truthy_opt i.reason)) ≡ false
    → Explained i (if is_broken i.to_state then i.reason else none)
reason_kept i h = elim (Bool-cases (is_broken i.to_state)) [
  | inr whole ↦ inl (λ e. absurd (ground (arith, whole, ap is_broken e)), rw whole refl)
  | inl gone ↦ elim (Option-cases i.reason) [
    | inl unsaid ↦ absurd (ground (arith, h, gone, unsaid))
    | inr (m, said) ↦ inr (
      ground (arith, gone),
      (m, said, λ e. absurd (ground (arith, h, gone, said, eq_iff m "", e)), rw (gone, said) refl),
    )
  ]
]

abbrev moved : Transition → ℕ → Cycle → Cycle
moved i now c = record c {
  state = i.to_state;
  broken_reason = if is_broken i.to_state then i.reason else none;
  updated_at = now;
}

module _ (i : Transition) (now : ℕ) (c : Cycle) (t : List Cycle) where
  own_row :
      c.cycle_id ≡ i.cycle_id
      → find_row cycle_key i.cycle_id t ≡ some c
      → find_row cycle_key i.cycle_id (move_cycle i c.state now t) ≡ some (moved i now c)
  unfolding move_cycle
  own_row same e = ground (
    arith,
    find_row-update_where cycle_key
        (λ x. str_eq x.cycle_id i.cycle_id && same_state x.state c.state) (moved i now) (λ x. refl)
        i.cycle_id t,
    e,
    same_state_refl c.state,
    (eq_iff c.cycle_id i.cycle_id).1 same,
  )

  other_row :
      (k : String) (from : CycleState)
      → str_eq c.cycle_id i.cycle_id ≡ false
      → find_row cycle_key k t ≡ some c
      → find_row cycle_key k (move_cycle i from now t) ≡ some c
  unfolding move_cycle
  other_row k from other e = ground (
    arith,
    find_row-update_where cycle_key (λ x. str_eq x.cycle_id i.cycle_id && same_state x.state from)
        (moved i now) (λ x. refl) k t,
    e,
    other,
  )

-- Each accepted transition leaves the other cycles' rows as they were. The named cycle was in the state
-- asked for already, and the answer says so and nothing is written; or its row moves along an allowed
-- edge, and keeps as its reason the non-empty text given if it breaks, and none otherwise.
pub transition_refines :
    (t : List Cycle) (i : Transition) (now : ℕ) (t' : List Cycle) (a : Answer) (k : String)
    (c : Cycle)
    → transition_four_leg_cycle t i now ≡ ok (t', a)
    → find_row cycle_key k t ≡ some c
    → ((k ≢ i.cycle_id) × (find_row cycle_key k t' ≡ some c))
      ⊎ ((k ≡ i.cycle_id)
          × (c.state ≡ i.to_state)
          × (a ≡ record { state = i.to_state; idempotent = true })
          × (t' ≡ t))
      ⊎ ((k ≡ i.cycle_id)
          × (transition_allowed c.state i.to_state ≡ true)
          × (a ≡ record { state = i.to_state; idempotent = false })
          × ((reason : Option String) × Explained i reason
              × (find_row cycle_key k t'
                  ≡ some
                      (record c { state = i.to_state; broken_reason = reason; updated_at = now }))))
unfolding transition_four_leg_cycle
transition_refines t i now t' a k c h e =
    let (d, read, rest) =
      >>=-eq-ok (or_throw (find_row cycle_key i.cycle_id t) "FOUR_LEG_CYCLE_NOT_FOUND") _ h in
    let found = or_throw-eq-ok (find_row cycle_key i.cycle_id t) "FOUR_LEG_CYCLE_NOT_FOUND" read in
    let key = find_row-key cycle_key k t c e in
    elim (Bool-cases (str_eq c.cycle_id i.cycle_id)) [
      | inr other ↦ inl (
        λ same. absurd (ground (arith, other, (eq_iff c.cycle_id i.cycle_id).1 (key ∙ same))),
        elim (transition_from_cases t i now d.state t' a rest) [
          | inl (kept, _, _) ↦ rw kept e
          | inr (written, _, _, _) ↦ rw written (other_row i now c t k d.state other e)
        ],
      )
      | inl own ↦
          let named = (eq_iff c.cycle_id i.cycle_id).0 own in
          let same_key : k ≡ i.cycle_id = sym key ∙ named in
          let here : find_row cycle_key i.cycle_id t ≡ some c =
            subst (λ x. find_row cycle_key x t ≡ some c) same_key e in
          let same_row : d ≡ c = cc (found, here) in
          elim (transition_from_cases t i now d.state t' a rest) [
            | inl (kept, same, answer) ↦ inr (
                inl (
                  same_key,
                  subst (λ x. x.state ≡ i.to_state) same_row
                      (same_state-eq d.state i.to_state same),
                  answer,
                  kept,
                ))
            | inr (written, allowed, said, answer) ↦ inr (
                inr (
                  same_key,
                  subst (λ x. transition_allowed x.state i.to_state ≡ true) same_row allowed,
                  answer,
                  (
                    if is_broken i.to_state then i.reason else none,
                    reason_kept i said,
                    rw (same_key, written, same_row) (own_row i now c t named here),
                  ),
                ))
          ]
    ]

-- A completed or broken cycle stays as it is: the only transition not refused is the one to the
-- state it is in, and it writes nothing.
terminal_refused :
    (t : List Cycle) (i : Transition) (now : ℕ) (c : Cycle)
    → find_row cycle_key i.cycle_id t ≡ some c
    → (c.state ≡ cycle_completed) ⊎ (c.state ≡ broken)
    → transition_four_leg_cycle t i now ≡ (
        if same_state c.state i.to_state
        then ok (t, record { state = i.to_state; idempotent = true })
        else err "FOUR_LEG_ILLEGAL_TRANSITION")
unfolding transition_four_leg_cycle transition_allowed
terminal_refused t i now c e h = ground arith
