-- ===== src/Sql/Laws.antt =====
-- Laws of single statements: what a row looks like after an UPDATE or an INSERT.
use fareradar.Prelude.{
  ◌⊎◌, Option-cases, In-append, Bool-cases, All-append, suc, Bool, true, String, none, str_eq, some,
  List, [], ◌∷◌, ◌++◌, ◌≡◌, refl, arith, eq_iff, if◌then◌else◌, All, length, is_some, map, In, inl,
  inr, Bool, find, ℕ, false, ◌≤◌, first, subst, sym,
}
use mathlib.Core.Option
use fareradar.Sql.{insert_sorted, order_by, update_where, find_row, insert_or_ignore}

module _ {A : Type 0} where
  pub length-update_where :
      (p : A → Bool) (f : A → A) (t : List A) → length (update_where p f t) ≡ length t
  unfolding update_where
  length-update_where p f [] = refl
  length-update_where p f (r ∷ t) = ground (arith, length-update_where p f t)

  pub All-update_where :
      (P Q : A → Type 0) (p : A → Bool) (f : A → A) (t : List A)
      → ((r : A) → P r → Q (if p r then f r else r))
      → All P t
      → All Q (update_where p f t)
  unfolding update_where
  All-update_where P Q p f [] h a = tt
  All-update_where P Q p f (r ∷ t) h (a, as') = (h r a, All-update_where P Q p f t h as')

  pub In-update_where :
      (p : A → Bool) (f : A → A) (t : List A) (s : A)
      → In s (update_where p f t)
      → (r : A) × In r t × (s ≡ (if p r then f r else r))
  unfolding update_where
  In-update_where p f [] s h = elim h [ ]
  In-update_where p f (r ∷ t) s (inl e) = (r, inl refl, e)
  In-update_where p f (r ∷ t) s (inr h) = let (q, i, e) = In-update_where p f t s h in (q, inr i, e)

  length-insert_sorted :
      (before : A → A → Bool) (x : A) (xs : List A)
      → length (insert_sorted before x xs) ≡ suc (length xs)
  unfolding insert_sorted
  length-insert_sorted before x [] = refl
  length-insert_sorted before x (y ∷ ys) = ground (arith, length-insert_sorted before x ys)

  pub length-order_by :
      (before : A → A → Bool) (xs : List A) → length (order_by before xs) ≡ length xs
  unfolding order_by
  length-order_by before [] = refl
  length-order_by before (x ∷ xs) =
      omega (arith, length-insert_sorted before x (order_by before xs), length-order_by before xs)

-- ORDER BY m ASC, …: the first row is one of the least.
module _ {A : Type 0} (before : A → A → Bool) (m : A → ℕ)
    (rises : (a b : A) → before a b ≡ true → m a ≤ m b)
    (falls : (a b : A) → before a b ≡ false → m b ≤ m a) where
  -- The first row is there, and not above `b`.
  abbrev Least : List A → A → Type 0
  Least ys b = (c : A) × (first ys ≡ some c) × (m c ≤ m b)

  insert_sorted-kept : (x b : A) (ys : List A) → Least ys b → Least (insert_sorted before x ys) b
  unfolding insert_sorted
  insert_sorted-kept x b [] (c, e, l) = cc
  insert_sorted-kept x b (y ∷ ys) (c, e, l) = elim (Bool-cases (before x y)) [
    | inl t ↦ (x, rw t refl, ground (arith, rises x y t))
    | inr f ↦ (y, rw f refl, ground arith)
  ]

  insert_sorted-new : (x : A) (ys : List A) → Least (insert_sorted before x ys) x
  unfolding insert_sorted
  insert_sorted-new x [] = (x, refl, omega arith)
  insert_sorted-new x (y ∷ ys) = elim (Bool-cases (before x y)) [
    | inl t ↦ (x, rw t refl, omega arith)
    | inr f ↦ (y, rw f refl, falls x y f)
  ]

  order_by-Least : (xs : List A) (b : A) → In b xs → Least (order_by before xs) b
  unfolding order_by
  order_by-Least [] b i = elim i [ ]
  order_by-Least (x ∷ xs) b (inl e) =
      subst (λ y. Least (insert_sorted before x (order_by before xs)) y) (sym e)
        (insert_sorted-new x (order_by before xs))
  order_by-Least (x ∷ xs) b (inr i) =
      insert_sorted-kept x b (order_by before xs) (order_by-Least xs b i)

  pub first-order_by-le :
      (xs : List A) (a b : A) → first (order_by before xs) ≡ some a → In b xs → m a ≤ m b
  first-order_by-le xs a b e i =
      let (c, found, least) = order_by-Least xs b i in ground (arith, found, least, e)

module _ {A : Type 0} where
  -- The first row under a test that the UPDATE does not change.
  pub find-update_where :
      (q p : A → Bool) (f : A → A)
      → ((r : A) → q (f r) ≡ q r)
      → (t : List A)
      → find q (update_where p f t) ≡ Option.map (λ r. if p r then f r else r) (find q t)
  unfolding update_where
  find-update_where q p f same [] = refl
  find-update_where q p f same (r ∷ t) = ground (arith, same r, find-update_where q p f same t)

  pub find-append :
      (q : A → Bool) (t u : List A)
      → find q (t ++ u) ≡ (if is_some (find q t) then find q t else find q u)
  find-append q [] u = refl
  find-append q (x ∷ t) u = ground (arith, find-append q t u)

module _ {A : Type 0} (key : A → String) where
  -- The row with a given key after an UPDATE that leaves the key alone.
  pub find_row-update_where :
      (p : A → Bool) (f : A → A) (same : (r : A) → key (f r) ≡ key r) (k : String) (t : List A)
      → find_row key k (update_where p f t)
        ≡ Option.map (λ r. if p r then f r else r) (find_row key k t)
  unfolding update_where
  find_row-update_where p f same k [] = refl
  find_row-update_where p f same k (r ∷ t) =
      ground (arith, same r, find_row-update_where p f same k t)

  pub keys-update_where :
      (p : A → Bool) (f : A → A) (same : (r : A) → key (f r) ≡ key r) (t : List A)
      → map key (update_where p f t) ≡ map key t
  unfolding update_where
  keys-update_where p f same [] = refl
  keys-update_where p f same (r ∷ t) = ground (arith, same r, keys-update_where p f same t)

  pub find_row-key : (k : String) (t : List A) (r : A) → find_row key k t ≡ some r → key r ≡ k
  find_row-key k [] r h = cc
  find_row-key k (x ∷ t) r h = ground (arith, eq_iff (key x) k, find_row-key k t r)

  pub find_row-append :
      (k : String) (t u : List A)
      → find_row key k (t ++ u)
        ≡ (if is_some (find_row key k t) then find_row key k t else find_row key k u)
  find_row-append k [] u = refl
  find_row-append k (x ∷ t) u = ground (arith, find_row-append k t u)

  -- After an INSERT that ignores conflicts the table has a row with the key.
  pub insert_or_ignore-found :
      (r : A) (t : List A) → is_some (find_row key (key r) (insert_or_ignore key r t)) ≡ true
  insert_or_ignore-found r t =
      ground (arith, find_row-append (key r) t (r ∷ []), eq_iff (key r) (key r))

  pub insert_or_ignore-new :
      (r : A) (t : List A)
      → find_row key (key r) t ≡ none
      → find_row key (key r) (insert_or_ignore key r t) ≡ some r
  insert_or_ignore-new r t h =
      ground (arith, h, find_row-append (key r) t (r ∷ []), eq_iff (key r) (key r))

  -- A row of the table after it was there before, or is the new one, whose key was free.
  pub In-insert_or_ignore :
      (x r : A) (t : List A)
      → In x (insert_or_ignore key r t)
      → In x t ⊎ ((x ≡ r) × (find_row key (key r) t ≡ none))
  In-insert_or_ignore x r t i = elim (Option-cases (find_row key (key r) t)) [
    | inr (y, found) ↦ inl (ground (arith, i, found))
    | inl free ↦ elim (In-append x t (r ∷ []) (rw free at i)) [
      | inl j ↦ inl j
      | inr (inl e) ↦ inr (e, free)
      | inr (inr none_left) ↦ elim none_left [ ]
    ]
  ]

  -- It keeps the row of every other key, and of its own key if there is one.
  pub find_row-insert_or_ignore :
      (k : String) (r : A) (t : List A)
      → find_row key k (insert_or_ignore key r t) ≡ (
          if is_some (find_row key k t)
          then find_row key k t
          else if str_eq (key r) k
          then some r
          else none)
  find_row-insert_or_ignore k r t = ground (arith, find_row-append k t (r ∷ []), eq_iff (key r) k)

  pub All-insert_or_ignore :
      (P : A → Type 0) (r : A) (t : List A) → P r → All P t → All P (insert_or_ignore key r t)
  All-insert_or_ignore P r t p a = elim (Bool-cases (is_some (find_row key (key r) t))) [
    | inl found ↦ rw found a
    | inr free ↦ rw free (All-append P t (r ∷ []) a (p, tt))
  ]

  pub find_row-kept :
      (k : String) (r s : A) (t : List A)
      → find_row key k t ≡ some s
      → find_row key k (insert_or_ignore key r t) ≡ some s
  find_row-kept k r s t e = ground (arith, find_row-insert_or_ignore k r t)
