-- ===== src/SecurityManager/Roles.antt =====
-- The table of role grants and its administration: `SqlRoleGrantRepository` and `RoleAdministrationService` of
-- role_administration.py of kernel/src/ai_os_kernel/security_manager. The writes of the audit log are taken to succeed.
use ai_os.Prelude.{
  ℕ, ◌+◌, Bool, true, false, ◌&&◌, ◌||◌, Option, none, some, List, [], ◌∷◌, String, str_eq, ◌==◌,
  if◌then◌else◌, contains,
}
use ai_os.SecurityManager.{Principal}

pub data GrantStatus : Type 0 where
  active revoked : GrantStatus

pub record RoleGrant : Type 0 where
  pub grant_id : String
  pub principal_id : String
  pub role : String
  pub status : GrantStatus
  pub granted_by : String
  pub granted_reason : String
  pub granted_at : ℕ
  pub revoked_by : Option String
  pub revoked_reason : Option String
  pub revoked_at : Option ℕ

abbrev pub is_active : GrantStatus → Bool
is_active active = true
is_active revoked = false

-- `principal_id == ... and role == ... and status == "active"`.
abbrev pub is_active_grant : (principal_id role : String) → RoleGrant → Bool
is_active_grant principal_id role row =
    is_active row.status && (str_eq row.principal_id principal_id && str_eq row.role role)

-- `active_roles_for`.
unfoldable pub active_roles_for : (principal_id : String) → List RoleGrant → List String
active_roles_for principal_id [] = []
active_roles_for principal_id (row ∷ rows) =
    let rest = active_roles_for principal_id rows in
    if str_eq row.principal_id principal_id && is_active row.status then row.role ∷ rest else rest

-- How many rows the update of `revoke` writes.
unfoldable pub active_count : (principal_id role : String) → List RoleGrant → ℕ
active_count principal_id role [] = 0
active_count principal_id role (row ∷ rows) =
    let rest = active_count principal_id role rows in
    if is_active_grant principal_id role row then rest + 1 else rest

pub data RoleError : Type 0 where
  not_authorized already_active not_active several_rows : RoleError

pub data Granted : Type 0 where
  written : List RoleGrant → Granted
  refused : RoleError → Granted

-- That the primary key or the partial unique index refuses a new row.
unfoldable pub violates_index : (grant_id principal_id role : String) → List RoleGrant → Bool
violates_index grant_id principal_id role [] = false
violates_index grant_id principal_id role (row ∷ rows) =
    str_eq row.grant_id grant_id
    || (is_active_grant principal_id role row || violates_index grant_id principal_id role rows)

-- `SqlRoleGrantRepository.grant`, with what `new_role_grant_id()` returns.
unfoldable pub grant :
    (grant_id principal_id role granted_by reason : String) → (now : ℕ) → List RoleGrant → Granted
grant grant_id principal_id role granted_by reason now rows =
    if violates_index grant_id principal_id role rows
    then refused already_active
    else written (
        record {
          grant_id = grant_id;
          principal_id = principal_id;
          role = role;
          status = active;
          granted_by = granted_by;
          granted_reason = reason;
          granted_at = now;
          revoked_by = none;
          revoked_reason = none;
          revoked_at = none;
        }
        ∷ rows)

abbrev pub revoked_values : (revoked_by reason : String) → (now : ℕ) → RoleGrant → RoleGrant
revoked_values revoked_by reason now row = record row {
  status = revoked;
  revoked_by = some revoked_by;
  revoked_reason = some reason;
  revoked_at = some now;
}

unfoldable pub revoke_rows :
    (principal_id role revoked_by reason : String) → (now : ℕ) → List RoleGrant → List RoleGrant
revoke_rows principal_id role revoked_by reason now [] = []
revoke_rows principal_id role revoked_by reason now (row ∷ rows) =
    let rest = revoke_rows principal_id role revoked_by reason now rows in
    if is_active_grant principal_id role row
    then revoked_values revoked_by reason now row ∷ rest
    else row ∷ rest

-- `SqlRoleGrantRepository.revoke`: `one_or_none` raises if several rows were written.
unfoldable pub revoke :
    (principal_id role revoked_by reason : String) → (now : ℕ) → List RoleGrant → Granted
revoke principal_id role revoked_by reason now rows =
    let count = active_count principal_id role rows in
    if count == 0
    then refused not_active
    else if count == 1
    then written (revoke_rows principal_id role revoked_by reason now rows)
    else refused several_rows

pub data RoleEvent : Type 0 where
  role_granted role_revoked grant_denied revoke_denied : RoleEvent

-- A row of the audit log, as far as these calls fill it in.
pub record AuditRow : Type 0 where
  pub event : RoleEvent
  pub principal_id : String
  pub target : String
  pub role : String

pub record RoleState : Type 0 where
  pub grants : List RoleGrant
  pub audit : List AuditRow

abbrev pub audited : RoleEvent → Principal → (target role : String) → RoleState → RoleState
audited event principal target role state = record state {
  audit =
      record { event = event; principal_id = principal.principal_id; target = target; role = role }
      ∷ state.audit;
}

-- What follows the write of the repository.
abbrev pub after_write :
    Granted → RoleEvent → Principal → (target role : String) → RoleState → RoleState
after_write (refused e) event principal target role state = state
after_write (written rows) event principal target role state =
    audited event principal target role (record state { grants = rows })

-- `_require_admin`.
abbrev pub is_admin : Principal → Bool
is_admin principal = contains principal.roles "admin"

-- `RoleAdministrationService.grant`.
unfoldable pub grant_role :
    (grant_id : String)
    → Principal
    → (target role reason : String) → (now : ℕ) → RoleState
    → RoleState
grant_role grant_id principal target role reason now state =
    if is_admin principal
    then after_write (grant grant_id target role principal.principal_id reason now state.grants)
        role_granted principal target role state
    else audited grant_denied principal target role state

-- `RoleAdministrationService.revoke`.
unfoldable pub revoke_role :
    Principal → (target role reason : String) → (now : ℕ) → RoleState → RoleState
revoke_role principal target role reason now state =
    if is_admin principal
    then after_write (revoke target role principal.principal_id reason now state.grants)
        role_revoked principal target role state
    else audited revoke_denied principal target role state

pub data RoleCall : Type 0 where
  grants : (grant_id : String) → Principal → (target role reason : String) → (now : ℕ) → RoleCall
  revokes : Principal → (target role reason : String) → (now : ℕ) → RoleCall

-- The table and the audit log after some calls, the latest first.
unfoldable pub administered : List RoleCall → RoleState
administered [] = record { grants = []; audit = [] }
administered (grants grant_id principal target role reason now ∷ earlier) =
    grant_role grant_id principal target role reason now (administered earlier)
administered (revokes principal target role reason now ∷ earlier) =
    revoke_role principal target role reason now (administered earlier)
