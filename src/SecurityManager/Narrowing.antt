-- ===== src/SecurityManager/Narrowing.antt =====
-- The narrowing of permissions: narrowing.py of kernel/src/ai_os_kernel/security_manager, permission_grant.py of
-- kernel/src/ai_os_kernel/capability_manager, and `_refuse_if_over_granted` of registry.py of
-- kernel/src/ai_os_kernel/workflow_engine.
use ai_os.Prelude.{
  ◌≡◌, refl, ap, Bool, true, false, not, ◌&&◌, ◌||◌, Option, none, some, List, [], ◌∷◌, String,
  str_eq, filter, contains, arith, eq_iff,
}
use ai_os.SecurityManager.{SecurityContext, user}

abbrev pub intersect : List String → List String → List String
intersect a b = filter (contains b) a

unfoldable pub intersect_all : List String → (others : List (List String)) → List String
intersect_all permissions [] = permissions
intersect_all permissions (other ∷ others) = intersect_all (intersect permissions other) others

unfoldable pub intersect_declared_permissions : (permission_sets : List (List String)) → List String
intersect_declared_permissions [] = []
intersect_declared_permissions (first ∷ others) = intersect_all first others

unfoldable pub narrow_permissions :
    SecurityContext
    → (workflow_permissions agent_permissions tool_permissions : List String) → List String
narrow_permissions context workflow_permissions agent_permissions tool_permissions =
    intersect_declared_permissions
      (context.permissions ∷ workflow_permissions ∷ agent_permissions ∷ tool_permissions ∷ [])

unfoldable pub is_permitted :
    SecurityContext
    → (permission : String)
    → (workflow_permissions agent_permissions tool_permissions : List String) → Bool
is_permitted context permission workflow_permissions agent_permissions tool_permissions =
    contains (narrow_permissions context workflow_permissions agent_permissions tool_permissions)
      permission

-- Also `over_granted_permissions`, of a pack's permissions.
unfoldable pub over_permitted_permissions :
    (entrypoint_permissions bounding_permissions : List String) → List String
over_permitted_permissions entrypoint_permissions bounding_permissions =
    let within_reach =
      intersect_declared_permissions (entrypoint_permissions ∷ bounding_permissions ∷ []) in
    filter (λ permission. not (contains within_reach permission)) entrypoint_permissions

abbrev pub is_empty : List String → Bool
is_empty [] = true
is_empty (x ∷ xs) = false

abbrev pub exceeds_principal :
    (required : List String) → (principal_permissions : Option (List String)) → Bool
exceeds_principal required none = false
exceeds_principal required (some permissions) =
    not (is_empty (over_permitted_permissions required permissions))

-- Whether `_refuse_if_over_granted` raises.
unfoldable pub refuse_if_over_granted :
    (required_permissions pack_permissions : List String)
    → (principal_permissions workflow_permissions : Option (List String)) → Bool
refuse_if_over_granted required pack principal none =
    not (is_empty (over_permitted_permissions required pack))
    || exceeds_principal required principal
refuse_if_over_granted required pack principal (some workflow) =
    not (is_empty (over_permitted_permissions required pack))
    || exceeds_principal required principal
    || (not (is_empty workflow) && not (is_empty (over_permitted_permissions required workflow)))

same_test : (test : String → Bool) (a b : String) → str_eq a b ≡ true → test a ≡ test b
same_test test a b h = ap test ((eq_iff a b).0 h)

contains-filter :
    (test : String → Bool) (permissions : List String) (permission : String)
    → contains (filter test permissions) permission
      ≡ (contains permissions permission && test permission)
unfolding contains
contains-filter test [] permission = refl
contains-filter test (other ∷ permissions) permission =
    ground (arith, contains-filter test permissions permission, same_test test other permission)

contains-intersect :
    (a b : List String) (permission : String)
    → contains (intersect a b) permission ≡ (contains a permission && contains b permission)
contains-intersect a b permission = contains-filter (contains b) a permission

-- A permission survives the narrowing exactly if the principal, the workflow, the agent and the tool all have it; what an
-- entrypoint has over its bound is exactly what it has and the bound does not.
pub is_permitted_iff :
    (context : SecurityContext) (permission : String) (workflow agent tool : List String)
    → (is_permitted context permission workflow agent tool ≡ (
        contains context.permissions permission
        && (contains workflow permission
            && (contains agent permission && contains tool permission))))
      × (contains (over_permitted_permissions agent workflow) permission
          ≡ (contains agent permission && not (contains workflow permission)))
unfolding is_permitted narrow_permissions intersect_declared_permissions intersect_all
    over_permitted_permissions
is_permitted_iff context permission workflow agent tool = (
  ground (
    arith,
    contains-intersect (intersect (intersect context.permissions workflow) agent) tool permission,
    contains-intersect (intersect context.permissions workflow) agent permission,
    contains-intersect context.permissions workflow permission,
  ),
  ground (
    arith,
    contains-filter (λ p. not (contains (intersect agent workflow) p)) agent permission,
    contains-intersect agent workflow permission,
  ),
)

empty-contains :
    (permissions : List String) (permission : String)
    → is_empty permissions ≡ true
    → contains permissions permission ≡ false
unfolding contains
empty-contains [] permission h = refl
empty-contains (other ∷ permissions) permission h = ground (arith, h)

within :
    (required bound : List String) (permission : String)
    → is_empty (over_permitted_permissions required bound) ≡ true
    → contains required permission ≡ true
    → contains bound permission ≡ true
within required bound permission h c = ground (
  arith,
  empty-contains (over_permitted_permissions required bound) permission h,
  (is_permitted_iff
      (record {
        principal = record { principal_id = ""; principal_type = user; roles = [] };
        permissions = [];
      })
      permission bound required []).1,
)

-- What the principal and the workflow allow: all, if the instance has captured no permissions, or if the workflow declares
-- none.
abbrev pub principal_allows : Option (List String) → (permission : String) → Bool
principal_allows none permission = true
principal_allows (some permissions) permission = contains permissions permission

abbrev pub workflow_allows : Option (List String) → (permission : String) → Bool
workflow_allows none permission = true
workflow_allows (some []) permission = true
workflow_allows (some (first ∷ rest)) permission = contains (first ∷ rest) permission
