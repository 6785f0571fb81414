-- ===== src/Auth/Admission.antt =====
-- Which requests src/auth.ts lets in by a key, and what it stores of them.
use fareradar.Prelude.{
  ℕ, ◌+◌, ◌<◌, ◌≤◌, String, true, false, Option, none, some, List, [], ◌∷◌, ◌++◌, ◌≡◌, ◌≢◌, refl,
  arith, any, truthy, truthy_opt, eq_iff, ◌↔◌, ◌⊎◌, inl, inr, In, any-In, any_of_In, Bool-cases,
  Option-cases,
}
use fareradar.Sql.{find_row}
use fareradar.Auth.{
  Platform, Request, Principal, AuthKey, UsedNonce, AuthEnv, is_recent, same_nonce, canonical,
  nonce_row, principal_of, time_valid, path_allowed, principal_role_allows_path,
  principal_scope_allows_path, key_admits, signed_by, authorize_key, authorize_request,
}
use fareradar.Auth.Replay.{authorize_request-Shown}

-- A date of the key's row that is missing, or that holds.
abbrev pub Dated : (String → Option ℕ) → Option String → (ℕ → Type 0) → Type 0
Dated parse date P =
    (truthy_opt date ≡ false)
    ⊎ ((v : String) × (t : ℕ) × (date ≡ some v) × (truthy v ≡ true) × (parse v ≡ some t) × P t)

module _ (parse : String → Option ℕ) (now : ℕ) where
  begun-Dated :
      (date : Option String)
      → (time_valid parse date now true ≡ true) ↔ Dated parse date (λ t. (t ≤ now))
  begun-Dated none = (λ h. inl refl, λ h. refl)
  begun-Dated (some v) = (
    λ h. elim (Bool-cases (truthy v)) [
      | inr empty ↦ inl empty
      | inl given ↦ elim (Option-cases (parse v)) [
        | inl bad ↦ absurd (ground (arith, h, given, bad))
        | inr (t, parsed) ↦ inr (v, t, refl, given, parsed, ground (arith, h, given, parsed))
      ]
    ],
    λ d. elim d [
      | inl empty ↦ ground (arith, empty)
      | inr (w, t, e, given, parsed, le) ↦ ground (arith, e, given, parsed, le)
    ],
  )

  unexpired-Dated :
      (date : Option String)
      → (time_valid parse date now false ≡ true) ↔ Dated parse date (λ t. (now < t))
  unexpired-Dated none = (λ h. inl refl, λ h. refl)
  unexpired-Dated (some v) = (
    λ h. elim (Bool-cases (truthy v)) [
      | inr empty ↦ inl empty
      | inl given ↦ elim (Option-cases (parse v)) [
        | inl bad ↦ absurd (ground (arith, h, given, bad))
        | inr (t, parsed) ↦ inr (v, t, refl, given, parsed, ground (arith, h, given, parsed))
      ]
    ],
    λ d. elim d [
      | inl empty ↦ ground (arith, empty)
      | inr (w, t, e, given, parsed, le) ↦ ground (arith, e, given, parsed, le)
    ],
  )

-- What a request shows to be let in by the key `key` at `now`.
pub record Admissible (w : Platform) (env : AuthEnv) (r : Request) (now : ℕ) (key : AuthKey)
    : Type 0 where
  pub recent :
      (sent : ℕ) × (w.number r.timestamp ≡ some sent)
      × (now ≤ sent + 300000)
      × (sent ≤ now + 300000)
  pub named : (r.key_id ≢ "") × (r.nonce ≢ "") × (r.signature ≢ "")
  pub nonce_valid : w.valid_nonce r.nonce ≡ true
  pub is_row : find_row (λ k. k.key_id) r.key_id env.keys ≡ some key
  pub enabled : key.enabled ≡ true
  pub begun : Dated w.parse_date key.not_before (λ t. (t ≤ now))
  pub unexpired : Dated w.parse_date key.expires_at (λ t. (now < t))
  pub path_listed : path_allowed key.allowed_paths r.path ≡ true
  pub role_allows : principal_role_allows_path key.role r.path ≡ true
  pub scope_allows :
      principal_scope_allows_path key.role key.source_id key.agency_id key.provider_id r.path ≡ true
  pub signed :
      (secret : String) × (env.secrets key.secret_slot ≡ some secret)
      × (secret ≢ "")
      × (r.signature ≡ w.sign secret (canonical w r))
  pub fresh : (u : UsedNonce) → In u env.nonces → u.key_id ≡ r.key_id → u.nonce ≡ r.nonce → ⊥

truthy_iff : (s : String) → (truthy s ≡ true) ↔ (s ≢ "")
truthy_iff s = (
  λ h e. absurd (ground (arith, h, (eq_iff s "").1 e)),
  λ n. elim (Bool-cases (truthy s)) [
    | inl full ↦ full
    | inr empty ↦ absurd (n ((eq_iff s "").0 (ground (arith, empty))))
  ],
)

recent_iff :
    (n : Option ℕ) (now : ℕ)
    → (is_recent n now ≡ true)
      ↔ ((sent : ℕ) × (n ≡ some sent) × (now ≤ sent + 300000) × (sent ≤ now + 300000))
recent_iff none now = (λ h. cc, λ (sent, e, a, b). cc)
recent_iff (some m) now = (
  λ h. (m, refl, ground (arith, h), ground (arith, h)),
  λ (sent, e, a, b). ground (arith, e, a, b),
)

module _ (w : Platform) (env : AuthEnv) (r : Request) (now : ℕ) where
  signed_iff :
      (key : AuthKey)
      → (signed_by w env key r ≡ true) ↔ (
          (secret : String) × (env.secrets key.secret_slot ≡ some secret)
          × (secret ≢ "")
          × (r.signature ≡ w.sign secret (canonical w r)))
  unfolding signed_by
  signed_iff key = (
    λ h. elim (Option-cases (env.secrets key.secret_slot)) [
      | inl lost ↦ absurd (ground (arith, h, lost))
      | inr (secret, found) ↦ (
        secret,
        found,
        (truthy_iff secret).0 (ground (arith, h, found)),
        (eq_iff r.signature (w.sign secret (canonical w r))).0 (ground (arith, h, found)),
      )
    ],
    λ (secret, found, full, same). ground (
      arith,
      found,
      (truthy_iff secret).1 full,
      (eq_iff r.signature (w.sign secret (canonical w r))).1 same,
    ),
  )

  fresh_iff :
      (any (same_nonce r.key_id r.nonce) env.nonces ≡ false)
      ↔ ((u : UsedNonce) → In u env.nonces → u.key_id ≡ r.key_id → u.nonce ≡ r.nonce → ⊥)
  fresh_iff = (
    λ h u i k n. absurd (
        ground (
          arith,
          h,
          any_of_In (same_nonce r.key_id r.nonce) env.nonces u i
              (ground (arith, (eq_iff u.key_id r.key_id).1 k, (eq_iff u.nonce r.nonce).1 n)),
        )),
    λ none_used. elim (Bool-cases (any (same_nonce r.key_id r.nonce) env.nonces)) [
      | inr unused ↦ unused
      | inl used ↦
          let (u, i, same) = any-In (same_nonce r.key_id r.nonce) env.nonces used in
          absurd (
            none_used u i ((eq_iff u.key_id r.key_id).0 (ground (arith, same)))
              ((eq_iff u.nonce r.nonce).0 (ground (arith, same))))
    ],
  )

  shown-Admissible :
      (p : Principal) (used : List UsedNonce)
      → authorize_request w env r now ≡ some (p, used)
      → p.legacy ≡ false
      → (key : AuthKey) × Admissible w env r now key
        × (p ≡ principal_of w key)
        × (used ≡ env.nonces ++ nonce_row w r now ∷ [])
  unfolding key_admits
  shown-Admissible p used h plain =
      let (new, full, s) = authorize_request-Shown w env r now p used h plain in
      let admits : key_admits w s.key r now ≡ true = s.admits in
      (
        s.key,
        record {
          recent = (recent_iff (w.number r.timestamp) now).0 new;
          named = (
            (truthy_iff r.key_id).0 (ground (arith, full)),
            (truthy_iff r.nonce).0 (ground (arith, full)),
            (truthy_iff r.signature).0 (ground (arith, full)),
          );
          nonce_valid = s.nonce_valid;
          is_row = s.is_row;
          enabled = ground (arith, admits);
          begun = (begun-Dated w.parse_date now s.key.not_before).0 (ground (arith, admits));
          unexpired =
              (unexpired-Dated w.parse_date now s.key.expires_at).0 (ground (arith, admits));
          path_listed = ground (arith, admits);
          role_allows = ground (arith, admits);
          scope_allows = ground (arith, admits);
          signed = (signed_iff s.key).0 s.signed;
          fresh = fresh_iff.0 s.fresh;
        },
        s.principal_is,
        s.used_is,
      )

  Admissible-granted :
      (key : AuthKey)
      → Admissible w env r now key
      → authorize_request w env r now
        ≡ some (principal_of w key, env.nonces ++ nonce_row w r now ∷ [])
  unfolding authorize_request authorize_key key_admits
  Admissible-granted key a =
      let (k, n, s) = a.named in
      ground (
        arith,
        (recent_iff (w.number r.timestamp) now).1 a.recent,
        (truthy_iff r.key_id).1 k,
        (truthy_iff r.nonce).1 n,
        (truthy_iff r.signature).1 s,
        a.nonce_valid,
        a.is_row,
        a.enabled,
        (begun-Dated w.parse_date now key.not_before).1 a.begun,
        (unexpired-Dated w.parse_date now key.expires_at).1 a.unexpired,
        a.path_listed,
        a.role_allows,
        a.scope_allows,
        (signed_iff key).1 a.signed,
        fresh_iff.1 a.fresh,
      )

  -- A request is let in by a key exactly when: its timestamp is at most five minutes from now; it names a
  -- key, a valid nonce and a signature; the key has a row that is enabled, within its dates where it has
  -- them, and allows the path by its list, its role and its scope; the secret of the key's slot signs
  -- the request; and the nonce was not used with this key before. It is let in as the principal of
  -- that row, and its nonce is stored as used for the next ten minutes.
  pub authorize_request_iff :
      (p : Principal) (used : List UsedNonce)
      → p.legacy ≡ false
      → (authorize_request w env r now ≡ some (p, used)) ↔ (
          (key : AuthKey) × Admissible w env r now key
          × (p ≡ record {
            key_id = key.key_id;
            role = key.role;
            source_id = key.source_id;
            agency_id = key.agency_id;
            provider_id = key.provider_id;
            legacy = false;
          })
          × (used
              ≡ env.nonces
                ++ record {
                  key_id = r.key_id;
                  nonce = r.nonce;
                  request_sha256 = w.sha256 (canonical w r);
                  used_at = now;
                  expires_at = now + 600000;
                }
                  ∷ []))
  authorize_request_iff p used plain = (
    λ h. shown-Admissible p used h plain,
    λ (key, a, principal, stored). rw (principal, stored) (Admissible-granted key a),
  )
