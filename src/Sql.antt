-- ===== src/Sql.antt =====
-- Tables as lists of rows, and the SQL statement forms that src/*.ts sends to D1: UPDATE with a
-- WHERE clause, SELECT by primary key, ORDER BY with LIMIT, INSERT that ignores or rejects a key
-- conflict, and UPDATE … WHERE key IN (SELECT … LIMIT n) RETURNING.
pub mod Laws
pub mod Claims
use fareradar.Prelude.Int.{ℤ, pos, negsuc}
use fareradar.Prelude.{
  ℕ, length, Bool, String, Option, none, some, List, [], ◌∷◌, ◌++◌, map, ◌&&◌, any, filter, find,
  take, str_eq, if◌then◌else◌, is_some,
}

-- `x IN (…)` for texts.
abbrev pub mem : String → List String → Bool
mem k xs = any (str_eq k) xs

module _ {A : Type 0} where
  -- UPDATE t SET … WHERE …: `f` is the SET list.
  unfoldable pub update_where : (A → Bool) → (A → A) → List A → List A
  update_where p f [] = []
  update_where p f (r ∷ t) = (if p r then f r else r) ∷ update_where p f t

  unfoldable pub insert_sorted : (A → A → Bool) → A → List A → List A
  insert_sorted before x [] = x ∷ []
  insert_sorted before x (y ∷ ys) = if before x y then x ∷ y ∷ ys else y ∷ insert_sorted before x ys

  -- ORDER BY, rows that tie in the order of the table.
  unfoldable pub order_by : (A → A → Bool) → List A → List A
  unfolding insert_sorted
  order_by before [] = []
  order_by before (x ∷ xs) = insert_sorted before x (order_by before xs)

  -- SELECT … WHERE key = k, of which the source reads the first row.
  abbrev pub find_row : (A → String) → String → List A → Option A
  find_row key k t = find (λ r. str_eq (key r) k) t

  -- INSERT … ON CONFLICT(key) DO NOTHING, and INSERT OR IGNORE.
  abbrev pub insert_or_ignore : (A → String) → A → List A → List A
  insert_or_ignore key r t = if is_some (find_row key (key r) t) then t else t ++ r ∷ []

  -- LIMIT n over the rows of `t`: a negative limit is none at all.
  abbrev pub sql_limit : ℤ → List A → ℕ
  sql_limit (pos n) t = n
  sql_limit (negsuc n) t = length t

  -- The keys of SELECT key … WHERE p ORDER BY before LIMIT n.
  abbrev pub select_keys : (A → String) → (A → Bool) → (A → A → Bool) → ℕ → List A → List String
  select_keys key p before n t = map key (take n (order_by before (filter p t)))

  -- UPDATE t SET f WHERE key IN (ids) AND guard.
  abbrev pub claimed : (A → String) → List String → (A → Bool) → A → Bool
  claimed key ids guard r = mem (key r) ids && guard r

  -- UPDATE t SET f WHERE key IN (SELECT key FROM t WHERE p ORDER BY before LIMIT n) AND guard
  -- RETURNING *: the new table, and the rows returned.
  unfoldable pub claim :
      (A → String)
      → (A → Bool)
      → (A → A → Bool)
      → ℕ
      → (A → Bool)
      → (A → A)
      → List A
      → List A × List A
  claim key p before n guard f t =
      let hit = claimed key (select_keys key p before n t) guard in
      (update_where hit f t, map f (filter hit t))
