-- ===== src/Sql/Claims.antt =====
-- Laws of UPDATE … WHERE key IN (SELECT …) RETURNING over a table with distinct primary keys.
use fareradar.Prelude.{
  ℕ, suc, ◌+◌, ◌≤◌, Bool, true, false, ◌&&◌, ◌||◌, String, some, List, [], ◌∷◌, ◌≡◌, refl, sym, ◌⊎◌,
  inl, inr, arith, map, filter, take, str_eq, eq_iff, In, All, length, In-filter, In-take,
  length-take-le, &&-left, &&-right, Bool-cases, Option-cases, none, ◌++◌, subst, ◌∙◌, ap,
}
use fareradar.Sql.{
  update_where, mem, insert_sorted, order_by, find_row, insert_or_ignore, select_keys, claimed,
  claim,
}
use fareradar.Sql.Laws.{All-update_where, find_row-update_where, keys-update_where}

module _ {A : Type 0} where
  In-insert_sorted :
      (before : A → A → Bool) (a x : A) (xs : List A)
      → In a (insert_sorted before x xs)
      → (a ≡ x) ⊎ In a xs
  unfolding insert_sorted
  In-insert_sorted before a x [] h = h
  In-insert_sorted before a x (y ∷ ys) h = ground (arith, In-insert_sorted before a x ys)

  pub In-order_by :
      (before : A → A → Bool) (a : A) (xs : List A) → In a (order_by before xs) → In a xs
  unfolding order_by
  In-order_by before a [] h = h
  In-order_by before a (x ∷ xs) h = elim (In-insert_sorted before a x (order_by before xs) h) [
    | inl e ↦ inl e
    | inr i ↦ inr (In-order_by before a xs i)
  ]

  length-filter-or :
      (p q g : A → Bool) (t : List A)
      → length (filter (λ r. (p r || q r) && g r) t)
        ≤ length (filter p t) + length (filter (λ r. q r && g r) t)
  length-filter-or p q g [] = omega arith
  length-filter-or p q g (r ∷ t) = ground (arith, length-filter-or p q g t)

  pub length-map {κ} : {B : Type κ} (f : A → B) (t : List A) → length (map f t) ≡ length t
  length-map f [] = refl
  length-map f (r ∷ t) = ap suc (length-map f t)

module _ {A : Type 0} (key : A → String) where
  -- The primary key of the table.
  abbrev pub Distinct : List A → Type 0
  Distinct [] = Unit
  Distinct (r ∷ t) = (mem (key r) (map key t) ≡ false) × Distinct t

  pub Distinct-update_where :
      (p : A → Bool) (f : A → A) (same : (r : A) → key (f r) ≡ key r) (t : List A)
      → Distinct t
      → Distinct (update_where p f t)
  unfolding update_where
  Distinct-update_where p f same [] d = tt
  Distinct-update_where p f same (r ∷ t) d =
      ground (arith, same r, keys-update_where key p f same t, Distinct-update_where p f same t d.1)

  keys-insert :
      (k : String) (r : A) (t : List A)
      → mem k (map key (t ++ r ∷ [])) ≡ (mem k (map key t) || str_eq k (key r))
  keys-insert k r [] = ground arith
  keys-insert k r (x ∷ t) = ground (arith, keys-insert k r t)

  Distinct-append :
      (r : A) (t : List A) → find_row key (key r) t ≡ none → Distinct t → Distinct (t ++ r ∷ [])
  Distinct-append r [] e d = (refl, tt)
  Distinct-append r (x ∷ t) e d = ground (
    arith,
    eq_iff (key x) (key r),
    eq_iff (key r) (key x),
    keys-insert (key x) r t,
    Distinct-append r t,
    d.0,
    d.1,
  )

  pub Distinct-insert_or_ignore :
      (r : A) (t : List A) → Distinct t → Distinct (insert_or_ignore key r t)
  Distinct-insert_or_ignore r t d = elim (Option-cases (find_row key (key r) t)) [
    | inl e ↦ ground (arith, Distinct-append r t e d)
    | inr (s, e) ↦ ground arith
  ]

  no_other :
      (k : String) (t : List A)
      → mem k (map key t) ≡ false
      → length (filter (λ r. str_eq (key r) k) t) ≡ 0
  no_other k [] h = refl
  no_other k (r ∷ t) h = ground (arith, eq_iff (key r) k, eq_iff k (key r), no_other k t)

  one_at_most :
      (k : String) (t : List A) → Distinct t → length (filter (λ r. str_eq (key r) k) t) ≤ 1
  one_at_most k [] d = omega arith
  one_at_most k (r ∷ t) d = ground (arith, eq_iff (key r) k, no_other k t, one_at_most k t d.1)

  length-claimed :
      (ids : List String) (g : A → Bool) (t : List A)
      → Distinct t
      → length (filter (claimed key ids g) t) ≤ length ids
  length-claimed [] g t d = none_left t
    where
      none_left : (u : List A) → length (filter (claimed key [] g) u) ≤ 0
      none_left [] = omega arith
      none_left (r ∷ u) = none_left u
  length-claimed (i ∷ ids) g t d = omega (
    arith,
    length-filter-or (λ r. str_eq (key r) i) (λ r. mem (key r) ids) g t,
    one_at_most i t d,
    length-claimed ids g t d,
  )

  mem-map : (k : String) (xs : List A) → mem k (map key xs) ≡ true → (r : A) × In r xs × (key r ≡ k)
  mem-map k [] h = cc
  mem-map k (x ∷ xs) h = elim (Bool-cases (str_eq k (key x))) [
    | inl e ↦ (x, inl refl, sym ((eq_iff k (key x)).0 e))
    | inr e ↦ let (r, i, q) = mem-map k xs (ground arith) in (r, inr i, q)
  ]

  mem_of_In : (r : A) (t : List A) → In r t → mem (key r) (map key t) ≡ true
  mem_of_In r [] h = elim h [ ]
  mem_of_In r (x ∷ t) (inl e) = ground (arith, eq_iff (key r) (key x), ap key e)
  mem_of_In r (x ∷ t) (inr i) = ground (arith, mem_of_In r t i)

  pub find_row-In : (r : A) (t : List A) → Distinct t → In r t → find_row key (key r) t ≡ some r
  find_row-In r [] d h = elim h [ ]
  find_row-In r (x ∷ t) d (inl e) = ground (arith, eq_iff (key x) (key r), ap key e)
  find_row-In r (x ∷ t) d (inr i) = ground (
    arith,
    eq_iff (key x) (key r),
    mem_of_In r t i,
    find_row-In r t d.1 i,
    eq_iff (key r) (key r),
  )

  pub In-find_row : (k : String) (t : List A) (r : A) → find_row key k t ≡ some r → In r t
  In-find_row k [] r h = cc
  In-find_row k (x ∷ t) r h = ground (arith, In-find_row k t r)

module _ {A : Type 0} (key : A → String) (p : A → Bool) (before : A → A → Bool) (n : ℕ)
    (guard : A → Bool) (f : A → A) where
  pub Distinct-claim :
      ((r : A) → key (f r) ≡ key r)
      → (t : List A) → Distinct key t
      → Distinct key (claim key p before n guard f t).0
  unfolding claim
  Distinct-claim same t d =
      Distinct-update_where key (claimed key (select_keys key p before n t) guard) f same t d

  -- A predicate that the SET list keeps on the rows under the guard holds of the whole table.
  pub All-claim :
      (P : A → Type 0) (t : List A)
      → ((r : A) → P r → guard r ≡ true → P (f r))
      → All P t
      → All P (claim key p before n guard f t).0
  unfolding claim
  All-claim P t h a =
      All-update_where P P (claimed key (select_keys key p before n t) guard) f t
        (λ r pr. elim (Bool-cases (claimed key (select_keys key p before n t) guard r)) [
          | inl hit ↦ rw hit (h r pr (&&-right (mem (key r) _) (guard r) hit))
          | inr miss ↦ rw miss pr
        ])
        a

  -- LIMIT n holds of the rows returned.
  pub length-claim : (t : List A) → Distinct key t → length (claim key p before n guard f t).1 ≤ n
  unfolding claim
  length-claim t d = omega (
    arith,
    length-claimed key (select_keys key p before n t) guard t d,
    length-map f (filter (claimed key (select_keys key p before n t) guard) t),
    length-map key (take n (order_by before (filter p t))),
    length-take-le n (order_by before (filter p t)),
  )

  selected :
      (t : List A) (r : A)
      → Distinct key t
      → In r t
      → mem (key r) (select_keys key p before n t) ≡ true
      → p r ≡ true
  selected t r d i h =
      let (s, j, e) = mem-map key (key r) (take n (order_by before (filter p t))) h in
      let (s_in, ps) =
        In-filter p s t
          (In-order_by before s (filter p t) (In-take n s (order_by before (filter p t)) j)) in
      let same : some s ≡ some r =
        sym (find_row-In key s t d s_in) ∙ ap (λ k. find_row key k t) e ∙ find_row-In key r t d i in
      subst (λ x. p x ≡ true) (cc) ps

  -- A row of the new table is a row of the old one; if it was written, it satisfied both clauses.
  pub find_row-claim :
      ((r : A) → key (f r) ≡ key r)
      → (t : List A) (k : String) (r : A) → Distinct key t
      → find_row key k t ≡ some r
      → (find_row key k (claim key p before n guard f t).0 ≡ some r)
        ⊎ ((find_row key k (claim key p before n guard f t).0 ≡ some (f r))
            × (p r ≡ true)
            × (guard r ≡ true))
  unfolding claim
  find_row-claim same t k r d e = ground (
    arith,
    find_row-update_where key (claimed key (select_keys key p before n t) guard) f same k t,
    selected t r d (In-find_row key k t r e),
  )

  In-map : (xs : List A) (s : A) → In s (map f xs) → (r : A) × In r xs × (s ≡ f r)
  In-map [] s h = elim h [ ]
  In-map (x ∷ xs) s (inl e) = (x, inl refl, e)
  In-map (x ∷ xs) s (inr h) = let (r, i, q) = In-map xs s h in (r, inr i, q)

  -- A row returned is `f` of a row that satisfied both clauses.
  pub In-claim :
      (t : List A) (s : A)
      → Distinct key t
      → In s (claim key p before n guard f t).1
      → (r : A) × In r t × (s ≡ f r) × (p r ≡ true) × (guard r ≡ true)
  unfolding claim
  In-claim t s d h =
      let hit : A → Bool = claimed key (select_keys key p before n t) guard in
      let (r, i, e) = In-map (filter hit t) s h in
      let (j, c) = In-filter hit r t i in
      (r, j, e, selected t r d j (&&-left _ (guard r) c), &&-right (mem (key r) _) (guard r) c)

  -- Every row returned stands in the new table as it was returned.
  pub find_row-returned :
      ((r : A) → key (f r) ≡ key r)
      → (t : List A) (s : A) → Distinct key t
      → In s (claim key p before n guard f t).1
      → find_row key (key s) (claim key p before n guard f t).0 ≡ some s
  unfolding claim
  find_row-returned same t s d h =
      let hit : A → Bool = claimed key (select_keys key p before n t) guard in
      let (r, i, e) = In-map (filter hit t) s h in
      let (j, c) = In-filter hit r t i in
      let there = find_row-update_where key hit f same (key r) t in
      let old = find_row-In key r t d j in rw (e, same r, there, old, c)
