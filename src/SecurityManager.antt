-- ===== src/SecurityManager.antt =====
-- kernel/src/ai_os_kernel/security_manager: models.py, approval_authorization.py, permissions.py, `resolve_effective_roles`
-- of role_administration.py, and `authenticate` and `require_permission` of dependencies.py. A frozenset is a list, which is
-- only asked what it contains.
pub mod Narrowing
pub mod Roles
pub mod Standing
pub mod Requests
pub mod Examples
use Prim.Native.String.{◌++◌ as append}
use ai_os.Prelude.{
  ◌≡◌, refl, sym, ap, Bool, true, false, ◌||◌, Option, none, some, List, [], ◌∷◌, ◌++◌, String,
  str_eq, if◌then◌else◌, lookup, contains, is_some, arith, if_cases, eq_iff, subst, ◌∙◌,
}

pub data PrincipalType : Type 0 where
  user service_account : PrincipalType

-- `Principal` of models.py of the security manager.
pub record Principal : Type 0 where
  pub principal_id : String
  pub principal_type : PrincipalType
  pub roles : List String

-- `is_authorized_to_decide_approval`.
unfoldable pub is_authorized_to_decide_approval : Principal → (approval_class : String) → Bool
is_authorized_to_decide_approval principal approval_class =
    contains principal.roles "admin" || contains principal.roles (append "approver:" approval_class)

-- `resolve_effective_roles`: `granted` is what `active_roles_for` returns, and `none` that it failed or that there is
-- no such repository.
unfoldable pub resolve_effective_roles : Principal → (granted : Option (List String)) → Principal
resolve_effective_roles principal none = principal
resolve_effective_roles principal (some granted) = record principal {
  roles = principal.roles ++ granted;
}

-- The roles of `_ROLE_PERMISSIONS`.
abbrev pub role_permissions : List (String × List String)
role_permissions =
    ("viewer", "workflow:read" ∷ "evaluation:read" ∷ "knowledge:read" ∷ [])
    ∷ (
      "operator",
      "workflow:read" ∷ "workflow:start" ∷ "workflow:control" ∷ "evaluation:read" ∷ "experiment:run"
          ∷ "knowledge:read" ∷ [],
    )
    ∷ ("approver", "workflow:read" ∷ "evaluation:read" ∷ "approval:read" ∷ "knowledge:read" ∷ [])
    ∷ (
      "maintainer",
      "workflow:read" ∷ "workflow:start" ∷ "workflow:control" ∷ "pack:read" ∷ "pack:manage"
          ∷ "config:read" ∷ "config:manage" ∷ "evaluation:read" ∷ "experiment:run"
          ∷ "knowledge:read" ∷ [],
    )
    ∷ (
      "admin",
      "workflow:read" ∷ "workflow:start" ∷ "workflow:control" ∷ "pack:read" ∷ "pack:manage"
          ∷ "secret:access" ∷ "config:read" ∷ "config:manage" ∷ "evaluation:read" ∷ "approval:read"
          ∷ "experiment:run" ∷ "knowledge:read" ∷ [],
    )
    ∷ []

abbrev pub or_no_permissions : Option (List String) → List String
or_no_permissions none = []
or_no_permissions (some permissions) = permissions

abbrev pub permissions_of : (role : String) → List String
permissions_of role = or_no_permissions (lookup role role_permissions)

unfoldable pub permissions_for_roles : (roles : List String) → List String
permissions_for_roles [] = []
permissions_for_roles (role ∷ roles) = permissions_of role ++ permissions_for_roles roles

pub record SecurityContext : Type 0 where
  pub principal : Principal
  pub permissions : List String

unfoldable pub has_permission : SecurityContext → (permission : String) → Bool
has_permission context permission = contains context.permissions permission

-- What a request has to authenticate with: the verifier, if one is configured, and what the table of grants returns.
pub record Verifiers : Type 0 where
  pub verify : Option ((credentials : String) → Option Principal)
  pub granted : (principal_id : String) → Option (List String)

-- The status codes of a request that is denied.
pub data Admission : Type 0 where
  admitted : SecurityContext → Admission
  unavailable unauthenticated forbidden : Admission

abbrev pub context_of : Option Principal → Verifiers → Admission
context_of none verifiers = unauthenticated
context_of (some principal) verifiers =
    let effective = resolve_effective_roles principal (verifiers.granted principal.principal_id) in
    admitted (record { principal = effective; permissions = permissions_for_roles effective.roles })

abbrev pub verified :
    (String → Option Principal) → (credentials : Option String) → Verifiers → Admission
verified verify none verifiers = unauthenticated
verified verify (some credentials) verifiers = context_of (verify credentials) verifiers

abbrev pub authenticate_with :
    Option (String → Option Principal) → (credentials : Option String) → Verifiers → Admission
authenticate_with none credentials verifiers = unavailable
authenticate_with (some verify) credentials verifiers = verified verify credentials verifiers

unfoldable pub authenticate : (credentials : Option String) → Verifiers → Admission
authenticate credentials verifiers = authenticate_with verifiers.verify credentials verifiers

abbrev pub checked : (permission : String) → Admission → Admission
checked permission (admitted context) =
    if has_permission context permission then admitted context else forbidden
checked permission unavailable = unavailable
checked permission unauthenticated = unauthenticated
checked permission forbidden = forbidden

-- `require_permission`.
unfoldable pub require_permission :
    (permission : String) → (credentials : Option String) → Verifiers → Admission
require_permission permission credentials verifiers =
    checked permission (authenticate credentials verifiers)
