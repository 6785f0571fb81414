-- ===== src/Api/Guards.antt =====
-- What src/worker.ts has checked of a request before an operation runs.
use fareradar.Prelude.{
  ℕ, String, Bool, true, false, Option, none, some, List, [], ◌∷◌, ◌≡◌, ◌&&◌, refl, arith, ◌⊎◌, inl,
  inr, In, Bool-cases, Option-cases, &&-left, &&-right, All, All-In, subst, sym, ap, ◌∙◌,
}
use fareradar.Db.{Db}
use fareradar.Auth.{Principal, principal_allows_payload, agency_scoped_paths}
use fareradar.Api.{
  Check, parse_body, in_scope, Outcome, go_on, refuse, throw, escape, Route, Runtime, Caller,
  Payload, Response, Operations, check_payload, run_check, run_checks, let_in, role_ok,
  caller_principal, after_checks, let_in_state, serve,
}
use fareradar.Api.Routes.{routes, lookup_route, post}

module _ {S B : Type 0} (ops : Operations S B) (env : Runtime) (route : Route) (path : String)
    (s : S) (c : Caller) (now : ℕ) where
  -- What has been checked when the operation runs.
  record Admitted : Type 0 where
    let_in_is : let_in route.guard c ≡ true
    role_is : role_ok route.role (caller_principal c) ≡ true
    checks_are :
        run_checks
          (ops.db (let_in_state ops route.guard s c))
          env
          path
          now
          (caller_principal c)
          c.body
          route.checks
        ≡ go_on

  after_checks_cases :
      (t : S) (o : Outcome) → ((after_checks ops route path t c now o).0 ≡ t) ⊎ (o ≡ go_on)
  unfolding after_checks
  after_checks_cases t go_on = inr refl
  after_checks_cases t (refuse code m) = inl refl
  after_checks_cases t (throw m) = inl refl
  after_checks_cases t (escape m) = inl refl

  let_in_cases :
      (next : S) → next ≡ let_in_state ops route.guard s c → (next ≡ s) ⊎ (next ≡ ops.store_nonce s)
  let_in_cases next e = ground (arith, e)

  -- A request that is refused does no more to the service's state than store its nonce.
  serve_guarded :
      ((serve ops env route path s c now).0 ≡ s)
      ⊎ ((serve ops env route path s c now).0 ≡ ops.store_nonce s)
      ⊎ Admitted
  unfolding serve
  serve_guarded =
      let t = let_in_state ops route.guard s c in
      elim (Bool-cases (let_in route.guard c)) [
        | inr out ↦ inl (ground (arith, out))
        | inl entered ↦ elim (Bool-cases (role_ok route.role (caller_principal c))) [
          | inr wrong ↦ elim (let_in_cases t refl) [
            | inl same ↦ inl (rw (entered, wrong) same)
            | inr stored ↦ inr (inl (rw (entered, wrong) stored))
          ]
          | inl role ↦
              elim (after_checks_cases t
                (run_checks (ops.db t) env path now (caller_principal c) c.body route.checks)) [
                  | inl kept ↦
                      elim (let_in_cases
                        (after_checks ops route path t c now (
                          run_checks (ops.db t) env path now (caller_principal c) c.body
                            route.checks)).0
                        kept) [
                          | inl same ↦ inl (rw (entered, role) same)
                          | inr stored ↦ inr (inl (rw (entered, role) stored))
                        ]
                  | inr passed ↦
                      inr
                        (inr (record { let_in_is = entered; role_is = role; checks_are = passed }))
                ]
        ]
      ]

abbrev is_parse : Check → Bool
is_parse parse_body = true
is_parse _ = false

abbrev is_scope : Check → Bool
is_scope in_scope = true
is_scope _ = false

is_parse-eq : (c : Check) → is_parse c ≡ true → c ≡ parse_body
is_parse-eq c h = ground (arith, h)

is_scope-eq : (c : Check) → is_scope c ≡ true → c ≡ in_scope
is_scope-eq c h = ground (arith, h)

-- The checks begin by parsing the body and comparing its scope.
abbrev begins_scoped : List Check → Bool
begins_scoped (c ∷ d ∷ rest) = is_parse c && is_scope d
begins_scoped _ = false

abbrev checks_of : Option Route → List Check
checks_of none = []
checks_of (some r) = r.checks

-- The paths of the two scopes whose routes compare the payload's scope: all but three of them.
abbrev pub compared_paths : List String
compared_paths =
    "/ingest/email" ∷ "/offers/ingest" ∷ "/pricing-quotes/ingest" ∷ "/providers/runtime/readback"
    ∷ "/provider-jobs/lease" ∷ "/provider-jobs/complete" ∷ agency_scoped_paths

compared :
    All (λ path. (begins_scoped (checks_of (lookup_route path routes)) ≡ true)) compared_paths
unfolding lookup_route
compared =
    (refl, (refl, (refl, (refl, (refl, (refl, (refl, (refl, (refl, (refl, (refl, tt)))))))))))

module _ (db : Db) (env : Runtime) (path : String) (now : ℕ) (p : Principal) where
  allowed_parsed :
      (body : Option Payload) (rest : List Check)
      → run_checks db env path now p body (parse_body ∷ in_scope ∷ rest) ≡ go_on
      → (x : Payload) × (body ≡ some x) × (principal_allows_payload p x.scope path ≡ true)
  unfolding run_checks run_check check_payload
  allowed_parsed none rest h = cc
  allowed_parsed (some x) rest h = elim (Bool-cases (principal_allows_payload p x.scope path)) [
    | inl e ↦ (x, refl, e)
    | inr e ↦ absurd (ground (arith, h, e))
  ]

  allowed_first :
      (body : Option Payload) (cs : List Check)
      → begins_scoped cs ≡ true
      → run_checks db env path now p body cs ≡ go_on
      → (x : Payload) × (body ≡ some x) × (principal_allows_payload p x.scope path ≡ true)
  allowed_first body (c ∷ d ∷ rest) b h =
      let first : c ≡ parse_body = is_parse-eq c (&&-left (is_parse c) (is_scope d) b) in
      let second : d ≡ in_scope = is_scope-eq d (&&-right (is_parse c) (is_scope d) b) in
      allowed_parsed body rest (
        subst (λ e. (run_checks db env path now p body (parse_body ∷ e ∷ rest) ≡ go_on)) second
          (subst (λ e. (run_checks db env path now p body (e ∷ d ∷ rest) ≡ go_on)) first h))
  allowed_first body (c ∷ []) b h = cc
  allowed_first body [] b h = cc

-- On a path of the agencies' and providers' scopes, less the three that the providers' keys enqueue
-- work and keep payment profiles by, no request does more to the state than store its nonce unless its
-- body parses and its scope allows the caller's key.
pub compared_scope :
    {S B : Type 0} (ops : Operations S B) (env : Runtime) (path : String) (s next : S) (c : Caller)
    (now : ℕ) (answer : Response B)
    → In path compared_paths
    → post ops env path s c now ≡ some (next, answer)
    → (next ≡ s)
      ⊎ (next ≡ ops.store_nonce s)
      ⊎ ((x : Payload) × (c.body ≡ some x)
          × (principal_allows_payload (caller_principal c) x.scope path ≡ true))
unfolding post
compared_scope ops env path s next c now answer i h =
    elim (Option-cases (lookup_route path routes)) [
      | inl lost ↦ absurd (ground (arith, h, lost))
      | inr (route, found) ↦
          let here : begins_scoped route.checks ≡ true =
            subst (λ o. (begins_scoped (checks_of o) ≡ true)) found
              (All-In (λ k. (begins_scoped (checks_of (lookup_route k routes)) ≡ true))
                compared_paths path compared i) in
          let served : serve ops env route path s c now ≡ (next, answer) =
            ground (arith, h, found) in
          elim (serve_guarded ops env route path s c now) [
            | inl kept ↦ inl (ap (λ q. q.0) (sym served) ∙ kept)
            | inr (inl stored) ↦ inr (inl (ap (λ q. q.0) (sym served) ∙ stored))
            | inr (inr passed) ↦ inr (
                inr (
                  allowed_first (ops.db (let_in_state ops route.guard s c)) env path now
                    (caller_principal c) c.body route.checks here passed.checks_are))
          ]
    ]
