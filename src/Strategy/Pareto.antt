-- ===== src/Strategy/Pareto.antt =====
-- The Pareto filter of src/strategy.ts keeps the frontier, and loses nothing.
use fareradar.Prelude.{
  ℕ, zero, suc, ◌+◌, ◌≤◌, ◌<◌, Bool, true, false, List, [], ◌∷◌, ◌++◌, ◌≡◌, refl, inl, inr, not,
  arith, any, any-In, filter-In, filter, In, length, Bool-cases, ap, sym, length-append, subst,
}
use mathlib.Core.List.{append_assoc}
use fareradar.Strategy.{Costs, dominates, some_other, undominated, pareto}

abbrev pub weight : Costs → ℕ
weight c = c.cash + c.elapsed + c.risk

-- `b` is nowhere worse than `a`.
pub record AtLeast (b a : Costs) : Type 0 where
  pub cash_le : b.cash ≤ a.cash
  pub elapsed_le : b.elapsed ≤ a.elapsed
  pub risk_le : b.risk ≤ a.risk

dominates_self : (a : Costs) → dominates a a ≡ false
unfolding dominates
dominates_self a = ground arith

dominates-AtLeast : (b a : Costs) → dominates b a ≡ true → AtLeast b a × (weight b < weight a)
unfolding dominates
dominates-AtLeast b a h = ground arith

AtLeast-refl : (a : Costs) → AtLeast a a
AtLeast-refl a = record { cash_le = omega arith; elapsed_le = omega arith; risk_le = omega arith }

AtLeast-trans : (c b a : Costs) → AtLeast c b → AtLeast b a → AtLeast c a
AtLeast-trans c b a h k = record {
  cash_le = omega (arith, h.cash_le, k.cash_le);
  elapsed_le = omega (arith, h.elapsed_le, k.elapsed_le);
  risk_le = omega (arith, h.risk_le, k.risk_le);
}

module _ {A : Type 0} (costs : A → Costs) where
  abbrev pub dominated_in : List A → A → Bool
  dominated_in xs a = any (λ b. dominates (costs b) (costs a)) xs

  -- The index test only leaves out the element itself, which does not dominate itself.
  some_other-past :
      (a : A) (i j : ℕ) (xs : List A) → i < j → some_other costs a i j xs ≡ dominated_in xs a
  unfolding some_other
  some_other-past a i j [] h = refl
  some_other-past a i j (b ∷ bs) h = ground (arith, some_other-past a i (suc j) bs)

  some_other-at :
      (a : A) (j : ℕ) (pre rest : List A)
      → some_other costs a (j + length pre) j (pre ++ a ∷ rest) ≡ dominated_in (pre ++ a ∷ rest) a
  unfolding some_other
  some_other-at a j [] rest =
      ground (arith, dominates_self (costs a), some_other-past a (j + 0) (suc j) rest)
  some_other-at a j (b ∷ pre) rest =
      let here : j + suc (length pre) ≡ suc j + length pre = omega arith in
      subst
        (λ n. (some_other costs a n j (b ∷ pre ++ a ∷ rest) ≡ dominated_in (b ∷ pre ++ a ∷ rest) a))
        (sym here) (ground (arith, some_other-at a (suc j) pre rest))

  undominated-filter :
      (pre xs : List A)
      → undominated costs (pre ++ xs) (length pre) xs
        ≡ filter (λ a. not (dominated_in (pre ++ xs) a)) xs
  unfolding undominated
  undominated-filter pre [] = refl
  undominated-filter pre (a ∷ xs) =
      let moved : ((pre ++ a ∷ []) ++ xs) ≡ (pre ++ a ∷ xs) = append_assoc pre (a ∷ []) xs in
      let rest : undominated costs (pre ++ a ∷ xs) (suc (length pre)) xs
          ≡ filter (λ x. not (dominated_in (pre ++ a ∷ xs) x)) xs =
        subst
          (λ n.
            (undominated costs (pre ++ a ∷ xs) n xs
              ≡ filter (λ x. not (dominated_in (pre ++ a ∷ xs) x)) xs))
          (omega (arith, length-append pre (a ∷ [])))
          (subst
            (λ ys.
              (undominated costs ys (length (pre ++ a ∷ [])) xs
                ≡ filter (λ x. not (dominated_in ys x)) xs))
            moved (undominated-filter (pre ++ a ∷ []) xs)) in
      let here : some_other costs a (length pre) 0 (pre ++ a ∷ xs)
          ≡ dominated_in (pre ++ a ∷ xs) a =
        subst (λ n. (some_other costs a n 0 (pre ++ a ∷ xs) ≡ dominated_in (pre ++ a ∷ xs) a))
          (omega arith) (some_other-at a 0 pre xs) in
      ground (here, rest, arith)

  -- The frontier is what no element of the input dominates, in the input's order.
  pub pareto-filter : (xs : List A) → pareto costs xs ≡ filter (λ a. not (dominated_in xs a)) xs
  unfolding pareto
  pareto-filter xs = undominated-filter [] xs

  -- Climbing from an element to one that dominates it ends, since the weight falls each time.
  climb :
      (n : ℕ) (xs : List A) (a : A)
      → weight (costs a) < n
      → In a xs
      → (b : A) × In b (filter (λ x. not (dominated_in xs x)) xs) × AtLeast (costs b) (costs a)
  climb zero xs a h i = absurd (omega arith)
  climb (suc n) xs a h i = elim (Bool-cases (dominated_in xs a)) [
    | inr e ↦
        (a, filter-In (λ x. not (dominated_in xs x)) a xs i (ap not e), AtLeast-refl (costs a))
    | inl e ↦
        let (b, j, d) = any-In (λ b. dominates (costs b) (costs a)) xs e in
        let (le, lt) = dominates-AtLeast (costs b) (costs a) d in
        let (c, k, above) = climb n xs b (omega (arith, lt, h)) j in
        (c, k, AtLeast-trans (costs c) (costs b) (costs a) above le)
  ]

  -- Every element of the input has one in the frontier that is nowhere worse: the filter never drops
  -- the last of the candidates that stand for a trade-off.
  pub pareto_complete :
      (xs : List A) (a : A)
      → In a xs
      → (b : A) × In b (pareto costs xs) × AtLeast (costs b) (costs a)
  pareto_complete xs a i =
      subst (λ ys. ((b : A) × In b ys × AtLeast (costs b) (costs a))) (sym (pareto-filter xs))
        (climb (suc (weight (costs a))) xs a (omega arith) i)
