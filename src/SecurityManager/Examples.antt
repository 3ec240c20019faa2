-- ===== src/SecurityManager/Examples.antt =====
-- An admin who grants a role and takes it back, a request of an operator, and an agent within its permissions.
use ai_os.Prelude.{
  true, ◌≡◌, refl, Option, none, some, List, [], ◌∷◌, String, str_eq, if◌then◌else◌, contains,
  lookup, has_repeats,
}
use ai_os.SecurityManager.{
  Principal, user, resolve_effective_roles, permissions_of, permissions_for_roles, SecurityContext,
  has_permission, Verifiers, authenticate, require_permission,
}
use ai_os.SecurityManager.Narrowing.{
  over_permitted_permissions, refuse_if_over_granted, intersect_declared_permissions, intersect_all,
}
use ai_os.SecurityManager.Roles.{
  RoleCall, grants, revokes, administered, active_roles_for, active_count,
}
use ai_os.SecurityManager.Standing.{stands, drawn_ids, active_roles_for-stands}
use ai_os.SecurityManager.Requests.{admitted_needs_role}

abbrev admin : Principal
admin = record { principal_id = "ada"; principal_type = user; roles = "admin" ∷ [] }

abbrev stranger : Principal
stranger = record { principal_id = "eve"; principal_type = user; roles = [] }

abbrev operator : Principal
operator = record { principal_id = "grace"; principal_type = user; roles = "operator" ∷ [] }

-- A grant, the try of a stranger to revoke it, and a second role that is revoked.
abbrev calls : List RoleCall
calls =
    revokes admin "grace" "maintainer" "left" 4
    ∷ revokes stranger "grace" "operator" "malice" 3
    ∷ grants "g2" admin "grace" "maintainer" "release" 2
    ∷ grants "g1" admin "grace" "operator" "team" 1
    ∷ []

active_roles_for-stands_example :
    (contains (active_roles_for "grace" (administered calls).grants) "operator"
      ≡ stands "grace" "operator" calls)
    × (active_count "grace" "operator" (administered calls).grants
        ≡ (if stands "grace" "operator" calls then 1 else 0))
unfolding has_repeats drawn_ids contains
active_roles_for-stands_example = active_roles_for-stands calls "grace" "operator" refl

abbrev verifiers : Verifiers
verifiers = record {
  verify = some (λ credentials. if str_eq credentials "token" then some stranger else none);
  granted = λ principal_id. some ("operator" ∷ []);
}

abbrev context : SecurityContext
context = record {
  principal = record { principal_id = "eve"; principal_type = user; roles = "operator" ∷ [] };
  permissions = permissions_of "operator";
}

admitted_needs_role_example :
    (verify : String → Option Principal) × (text : String) × (principal : Principal)
    × (verifiers.verify ≡ some verify)
    × (some "token" ≡ some text)
    × (verify text ≡ some principal)
    × (context.principal
        ≡ resolve_effective_roles principal (verifiers.granted principal.principal_id))
    × ((role : String) × (contains context.principal.roles role ≡ true)
        × (contains (permissions_of role) "workflow:start" ≡ true))
unfolding require_permission authenticate has_permission permissions_for_roles
    resolve_effective_roles contains lookup
admitted_needs_role_example =
    admitted_needs_role "workflow:start" (some "token") verifiers context refl

abbrev both : List String
both = "workflow:read" ∷ "workflow:start" ∷ []

-- A tool of which the workflow does not declare a permission.
over_workflow : refuse_if_over_granted both both none (some ("workflow:read" ∷ [])) ≡ true
unfolding refuse_if_over_granted over_permitted_permissions intersect_declared_permissions
    intersect_all contains
over_workflow = refl
