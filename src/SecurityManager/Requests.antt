-- ===== src/SecurityManager/Requests.antt =====
-- Which requests `require_permission` of dependencies.py admits (kernel/src/ai_os_kernel/security_manager).
use ai_os.Prelude.{
  ◌≡◌, refl, sym, ◌∙◌, subst, true, false, ◌||◌, Option, none, some, List, [], ◌∷◌, ◌++◌, String,
  contains, arith, if_cases, eq_refl,
}
use ai_os.SecurityManager.{
  Principal, resolve_effective_roles, permissions_of, permissions_for_roles, SecurityContext,
  has_permission, Verifiers, Admission, admitted, forbidden, context_of, verified,
  authenticate_with, authenticate, checked, require_permission,
}

contains-append :
    (a b : List String) (x : String) → contains (a ++ b) x ≡ (contains a x || contains b x)
unfolding contains
contains-append [] b x = refl
contains-append (y ∷ a) b x = ground (arith, contains-append a b x)

-- A role that grants a permission.
abbrev Grantor : List String → (permission : String) → Type 0
Grantor roles permission =
    (role : String) × (contains roles role ≡ true)
    × (contains (permissions_of role) permission ≡ true)

later_Grantor :
    (role : String) (roles : List String) (permission : String)
    → Grantor roles permission
    → Grantor (role ∷ roles) permission
unfolding contains
later_Grantor role roles permission (found, has, grants) = (found, ground (arith, has), grants)

permissions_for_roles-Grantor :
    (roles : List String) (permission : String)
    → contains (permissions_for_roles roles) permission ≡ true
    → Grantor roles permission
unfolding permissions_for_roles contains
permissions_for_roles-Grantor [] permission h = ground (arith, h)
permissions_for_roles-Grantor (role ∷ roles) permission h =
    let split =
      sym (contains-append (permissions_of role) (permissions_for_roles roles) permission) ∙ h in
    elim (contains (permissions_of role) permission)
        as (λ b.
          contains (permissions_of role) permission ≡ b → Grantor (role ∷ roles) permission) [
            | true ↦ λ t. (role, ground (arith, eq_refl role), t)
            | false ↦ λ f.
                later_Grantor role roles permission
                  (permissions_for_roles-Grantor roles permission (ground (arith, split, f)))
          ]
      refl

module _ (permission : String) (verifiers : Verifiers) where
  abbrev IsEntitled : (credentials : Option String) → Admission → Type 0
  IsEntitled credentials (admitted context) =
      (verify : String → Option Principal) × (text : String) × (principal : Principal)
      × (verifiers.verify ≡ some verify)
      × (credentials ≡ some text)
      × (verify text ≡ some principal)
      × (context.principal
          ≡ resolve_effective_roles principal (verifiers.granted principal.principal_id))
      × Grantor context.principal.roles permission
  IsEntitled credentials _ = Unit

  context_is-IsEntitled :
      (verify : String → Option Principal) (text : String) (principal : Principal)
      → verifiers.verify ≡ some verify
      → verify text ≡ some principal
      → let effective =
          resolve_effective_roles principal (verifiers.granted principal.principal_id) in
        let context : SecurityContext = record {
          principal = effective;
          permissions = permissions_for_roles effective.roles;
        } in
        has_permission context permission ≡ true → IsEntitled (some text) (admitted context)
  unfolding has_permission
  context_is-IsEntitled verify text principal v e h =
      let effective =
        resolve_effective_roles principal (verifiers.granted principal.principal_id) in
      (
        verify,
        text,
        principal,
        v,
        refl,
        e,
        refl,
        permissions_for_roles-Grantor effective.roles permission h,
      )

  context_of-IsEntitled :
      (verify : String → Option Principal) (text : String) (found : Option Principal)
      → verifiers.verify ≡ some verify
      → verify text ≡ found
      → IsEntitled (some text) (checked permission (context_of found verifiers))
  context_of-IsEntitled verify text none v e = tt
  context_of-IsEntitled verify text (some principal) v e =
      let effective =
        resolve_effective_roles principal (verifiers.granted principal.principal_id) in
      let context : SecurityContext = record {
        principal = effective;
        permissions = permissions_for_roles effective.roles;
      } in
      if_cases {first = admitted context} {second = forbidden} (IsEntitled (some text))
        (has_permission context permission) (context_is-IsEntitled verify text principal v e)
        (λ _. tt)

  verified-IsEntitled :
      (verify : String → Option Principal) (credentials : Option String)
      → verifiers.verify ≡ some verify
      → IsEntitled credentials (checked permission (verified verify credentials verifiers))
  verified-IsEntitled verify none v = tt
  verified-IsEntitled verify (some text) v = context_of-IsEntitled verify text (verify text) v refl

  authenticate_with-IsEntitled :
      (configured : Option (String → Option Principal)) (credentials : Option String)
      → verifiers.verify ≡ configured
      → IsEntitled credentials
          (checked permission (authenticate_with configured credentials verifiers))
  authenticate_with-IsEntitled none credentials v = tt
  authenticate_with-IsEntitled (some verify) credentials v =
      verified-IsEntitled verify credentials v

-- A request that a route with a required permission admits has credentials that the configured verifier accepts, for a
-- principal of whose roles, the granted ones included, one grants the permission. So nothing is admitted without a verifier.
pub admitted_needs_role :
    (permission : String) (credentials : Option String) (verifiers : Verifiers)
    (context : SecurityContext)
    → require_permission permission credentials verifiers ≡ admitted context
    → (verify : String → Option Principal) × (text : String) × (principal : Principal)
      × (verifiers.verify ≡ some verify)
      × (credentials ≡ some text)
      × (verify text ≡ some principal)
      × (context.principal
          ≡ resolve_effective_roles principal (verifiers.granted principal.principal_id))
      × ((role : String) × (contains context.principal.roles role ≡ true)
          × (contains (permissions_of role) permission ≡ true))
unfolding require_permission authenticate
admitted_needs_role permission credentials verifiers context e =
    subst (IsEntitled permission verifiers credentials) e
      (authenticate_with-IsEntitled permission verifiers verifiers.verify credentials refl)
