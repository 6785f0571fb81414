-- ===== src/Auth/Scopes.antt =====
-- The scopes of a key in src/auth.ts: the paths and payloads that are left to it.
use fareradar.Prelude.{
  String, Bool, true, false, Option, none, some, ◌≡◌, arith, ◌&&◌, ◌||◌, str_eq, truthy, truthy_opt,
  opt_str_eq-eq, get_or, subst, &&-left, &&-right, ap, ◌∙◌, sym,
}
use fareradar.Sql.{mem}
use fareradar.Auth.{
  Principal, PayloadScope, claimed_provider, scope_holds, access_reviewer_paths,
  shadow_reviewer_paths, source_scoped_paths, agency_scoped_paths, provider_scoped_paths,
  principal_role_allows_path, principal_scope_allows_path, principal_allows_payload,
}

scope_holds-eq :
    (applies : Bool) (scope claimed : Option String) (s : String)
    → scope_holds applies scope claimed ≡ true
    → applies ≡ true
    → scope ≡ some s
    → truthy s ≡ true
    → claimed ≡ some s
scope_holds-eq false scope claimed s h a e t = cc
scope_holds-eq true none claimed s h a e t = cc
scope_holds-eq true (some u) claimed s h a e t =
    let same : u ≡ s = ap (λ o. get_or o "") e in
    opt_str_eq-eq claimed s (ground (arith, h, same, t))

-- On a path of its scope, a payload that is allowed for a scoped key names the key's own agency, source
-- or provider. The provider of a payload is provider_id, or provider where that is missing.
payload_in_scope :
    (p : Principal) (x : PayloadScope) (path s : String)
    → p.legacy ≡ false
    → principal_allows_payload p x path ≡ true
    → truthy s ≡ true
    → (p.agency_id ≡ some s → mem path agency_scoped_paths ≡ true → x.agency_id ≡ some s)
      × (p.source_id ≡ some s → mem path source_scoped_paths ≡ true → x.source_id ≡ some s)
      × (p.provider_id ≡ some s
          → mem path provider_scoped_paths ≡ true
          → claimed_provider x ≡ some s)
unfolding principal_allows_payload
payload_in_scope p x path s plain h t =
    let a = scope_holds (mem path agency_scoped_paths) p.agency_id x.agency_id in
    let b = scope_holds (mem path source_scoped_paths) p.source_id x.source_id in
    let c = scope_holds (str_eq path "/sources/onboarding/review") p.source_id x.source_id in
    let d = scope_holds (str_eq path "/providers/access/review") p.provider_id x.provider_id in
    let e = scope_holds (mem path provider_scoped_paths) p.provider_id (claimed_provider x) in
    let checks : (a && b && c && d && e) ≡ true =
      ap (λ l. l || (a && b && c && d && e)) (sym plain) ∙ h in
    let abcd = &&-left (a && b && c && d) e checks in
    let ab = &&-left (a && b) c (&&-left (a && b && c) d abcd) in
    (
      λ own here. scope_holds-eq _ p.agency_id x.agency_id s (&&-left a b ab) here own t,
      λ own here. scope_holds-eq _ p.source_id x.source_id s (&&-right a b ab) here own t,
      λ own here.
          scope_holds-eq _ p.provider_id (claimed_provider x) s
            (&&-right (a && b && c && d) e checks) here own t,
    )

-- Where its role and its scopes allow a path, an access reviewer's key reaches the five review paths
-- and a shadow reviewer's the three of the shadow review; any other key has one scope at most, and
-- with one reaches the paths of that scope only.
paths_of_scope :
    (role : String) (source agency provider : Option String) (path : String)
    → principal_role_allows_path role path ≡ true
    → principal_scope_allows_path role source agency provider path ≡ true
    → (role ≡ "ACCESS_REVIEWER" → mem path access_reviewer_paths ≡ true)
      × (role ≡ "SHADOW_REVIEWER" → mem path shadow_reviewer_paths ≡ true)
      × ((str_eq role "ACCESS_REVIEWER" || str_eq role "SHADOW_REVIEWER") ≡ false
          → (truthy_opt source ≡ true
              → ((truthy_opt agency || truthy_opt provider) ≡ false)
                × (mem path source_scoped_paths ≡ true))
            × (truthy_opt agency ≡ true
                → ((truthy_opt source || truthy_opt provider) ≡ false)
                  × (mem path agency_scoped_paths ≡ true))
            × (truthy_opt provider ≡ true
                → ((truthy_opt source || truthy_opt agency) ≡ false)
                  × (mem path provider_scoped_paths ≡ true)))
unfolding principal_role_allows_path principal_scope_allows_path
paths_of_scope role source agency provider path allowed scoped = (
  λ e. subst (λ r. (principal_role_allows_path r path ≡ true)) e allowed,
  λ e. subst (λ r. (principal_role_allows_path r path ≡ true)) e allowed,
  λ plain. (
    λ s. ground (arith, scoped, plain, s),
    λ a. ground (arith, scoped, plain, a),
    λ p. ground (arith, scoped, plain, p),
  ),
)
