-- ===== src/Auth/Replay.antt =====
-- What a request that src/auth.ts lets in has shown, and that it is let in once.
use fareradar.Prelude.{
  ℕ, ◌+◌, ◌<◌, ◌≤◌, Bool, true, false, Option, none, some, List, [], ◌∷◌, ◌++◌, ◌≡◌, refl, subst,
  sym, arith, ◌&&◌, not, leb, any, filter, truthy, str_eq_refl, inl, inr, Bool-cases, Option-cases,
  if◌then◌else◌,
}
use fareradar.Sql.{find_row}
use fareradar.Auth.{
  Platform, Request, Principal, AuthKey, UsedNonce, AuthEnv, is_recent, same_nonce, nonce_row,
  principal_of, key_admits, signed_by, authorize_key, authorize_legacy, authorize_request,
  cleanup_expired_nonces,
}

-- The key's row, and what was tested of it.
pub record Shown (w : Platform) (env : AuthEnv) (r : Request) (now : ℕ) (p : Principal)
    (used : List UsedNonce) : Type 0 where
  pub key : AuthKey
  pub is_row : find_row (λ k. k.key_id) r.key_id env.keys ≡ some key
  pub nonce_valid : w.valid_nonce r.nonce ≡ true
  pub principal_is : p ≡ principal_of w key
  pub admits : key_admits w key r now ≡ true
  pub signed : signed_by w env key r ≡ true
  pub fresh : any (same_nonce r.key_id r.nonce) env.nonces ≡ false
  pub used_is : used ≡ env.nonces ++ nonce_row w r now ∷ []

module _ (w : Platform) (env : AuthEnv) (r : Request) (now : ℕ) where
  abbrev granted : AuthKey → Option (Principal × List UsedNonce)
  granted k = some (principal_of w k, env.nonces ++ nonce_row w r now ∷ [])

  -- The case where the key has a row, over the tests as Booleans.
  granted-Shown :
      (k : AuthKey) (p : Principal) (used : List UsedNonce) (valid : w.valid_nonce r.nonce ≡ true)
      (is_row : find_row (λ x. x.key_id) r.key_id env.keys ≡ some k) (a b c : Bool)
      (ea : key_admits w k r now ≡ a) (eb : signed_by w env k r ≡ b)
      (ec : any (same_nonce r.key_id r.nonce) env.nonces ≡ c)
      → (if a && b && not c then granted k else none) ≡ some (p, used)
      → Shown w env r now p used
  granted-Shown k p used valid is_row true true false ea eb ec h = record {
    key = k;
    is_row = is_row;
    nonce_valid = valid;
    principal_is = cc;
    admits = ea;
    signed = eb;
    fresh = ec;
    used_is = cc;
  }
  granted-Shown k p used valid is_row true true true ea eb ec h = cc
  granted-Shown k p used valid is_row true false c ea eb ec h = cc
  granted-Shown k p used valid is_row false b c ea eb ec h = cc

  authorize_key-Shown :
      (p : Principal) (used : List UsedNonce)
      → authorize_key w env r now ≡ some (p, used)
      → Shown w env r now p used
  unfolding authorize_key
  authorize_key-Shown p used h = elim (Bool-cases (w.valid_nonce r.nonce)) [
    | inr e ↦ absurd (ground (arith, h, e))
    | inl e ↦ elim (Option-cases (find_row (λ k. k.key_id) r.key_id env.keys)) [
      | inl lost ↦ absurd (ground (arith, h, e, lost))
      | inr (k, row) ↦
          granted-Shown k p used e row (key_admits w k r now) (signed_by w env k r)
            (any (same_nonce r.key_id r.nonce) env.nonces) refl refl refl
            (ground (arith, h, e, row))
    ]
  ]

  pub authorize_request-Shown :
      (p : Principal) (used : List UsedNonce)
      → authorize_request w env r now ≡ some (p, used)
      → p.legacy ≡ false
      → (is_recent (w.number r.timestamp) now ≡ true)
        × ((truthy r.key_id && truthy r.nonce && truthy r.signature) ≡ true)
        × Shown w env r now p used
  unfolding authorize_request authorize_legacy
  authorize_request-Shown p used h plain =
      elim (Bool-cases (is_recent (w.number r.timestamp) now)) [
        | inr old ↦ absurd (ground (arith, h, old))
        | inl new ↦ elim (Bool-cases (truthy r.key_id && truthy r.nonce && truthy r.signature)) [
          | inl full ↦ (new, full, authorize_key-Shown p used (ground (arith, h, new, full)))
          | inr part ↦ absurd (ground (arith, h, new, part, plain))
        ]
      ]

any-filter :
    {A : Type 0} (p q : A → Bool) (xs : List A) (u : A)
    → p u ≡ true
    → q u ≡ true
    → any p (filter q (xs ++ u ∷ [])) ≡ true
any-filter p q [] u hp hq = ground (arith, hp, hq)
any-filter p q (x ∷ xs) u hp hq = ground (arith, any-filter p q xs u hp hq)

later_bound :
    (n : Option ℕ) (now later : ℕ)
    → is_recent n now ≡ true
    → is_recent n later ≡ true
    → later ≤ now + 600000
later_bound none now later h k = cc
later_bound (some n) now later h k = ground arith

module _ (w : Platform) (env : AuthEnv) (r : Request) (now clean later : ℕ) where
  abbrev pub after_cleanup : List UsedNonce → AuthEnv
  after_cleanup used = record env { nonces = cleanup_expired_nonces clean used }

  authorize_key-used :
      (e : AuthEnv)
      → any (same_nonce r.key_id r.nonce) e.nonces ≡ true
      → authorize_key w e r later ≡ none
  unfolding authorize_key
  authorize_key-used e h = elim (Option-cases (find_row (λ k. k.key_id) r.key_id e.keys)) [
    | inl lost ↦ ground (arith, h, lost)
    | inr (k, row) ↦ ground (arith, h, row)
  ]

  -- A request that was let in by its key is refused when it comes again, at any later time: the stored
  -- nonce refuses it, or, once a cleanup before that time has deleted the nonce, its timestamp is
  -- out of date.
  pub replay_refused :
      (p : Principal) (used : List UsedNonce)
      → authorize_request w env r now ≡ some (p, used)
      → p.legacy ≡ false
      → clean < later
      → authorize_request w (after_cleanup used) r later ≡ none
  unfolding authorize_request authorize_legacy cleanup_expired_nonces
  replay_refused p used h plain before =
      elim (Bool-cases (is_recent (w.number r.timestamp) later)) [
        | inr old ↦ ground (arith, old)
        | inl new ↦
            let (first, full, shown) = authorize_request-Shown w env r now p used h plain in
            let kept : not (leb (now + 600000) clean) ≡ true =
              let bound = later_bound (w.number r.timestamp) now later first new in ground arith in
            let stored : any (same_nonce r.key_id r.nonce) (after_cleanup used).nonces ≡ true =
              subst
                (λ xs.
                  any (same_nonce r.key_id r.nonce) (filter (λ u. not (leb u.expires_at clean)) xs)
                  ≡ true)
                (sym shown.used_is)
                (any-filter (same_nonce r.key_id r.nonce) (λ u. not (leb u.expires_at clean))
                  env.nonces (nonce_row w r now)
                  (ground (arith, str_eq_refl r.key_id, str_eq_refl r.nonce)) kept) in
            ground (arith, new, full, authorize_key-used (after_cleanup used) stored)
      ]
