-- ===== src/WorkflowEngine/Approvals/Service.antt =====
-- `ApprovalService.decide` and `HumanApprovalStepExecutor.execute` of human_approval.py.
use ai_os.Prelude.{
  ℕ, Bool, true, false, not, Option, none, some, List, [], ◌∷◌, String, str_eq, if◌then◌else◌,
  lookup,
}
use ai_os.WorkflowEngine.Definition.{WorkflowStep, StepType, human_approval}
use ai_os.WorkflowEngine.Instance.{WorkflowInstance}
use ai_os.WorkflowEngine.Repository.{Clock}
use ai_os.SecurityManager.{Principal, is_authorized_to_decide_approval, resolve_effective_roles}
use ai_os.WorkflowEngine.Approvals.{
  ApprovalStatus, pending, approved, rejected, expired, Decision, ApprovalPoint, Approval,
  Approvals, ApprovalError, does_not_exist, not_authorized, several_rows, Recorded, recorded,
  refused, rows_of_step, create_pending, decide,
}

-- The decision of a principal with its effective roles, on an approval that was read in `seen`.
unfoldable pub decide_as :
    Option Approval
    → Principal
    → (approval_id : String) → Decision
    → (comment : Option String) → Clock
    → Approvals
    → Recorded
decide_as none principal approval_id decision comment clock tables = refused does_not_exist
decide_as (some row) principal approval_id decision comment clock tables =
    if is_authorized_to_decide_approval principal row.approval_class
    then decide approval_id principal.principal_id decision comment clock tables
    else refused not_authorized

-- `ApprovalService.decide`, which reads in `seen` and writes in `tables`.
unfoldable pub decide_approval :
    (approval_id : String)
    → Principal
    → (granted : Option (List String)) → Decision
    → (comment : Option String) → Clock
    → (seen tables : Approvals) → Recorded
decide_approval approval_id principal granted decision comment clock seen tables =
    decide_as (lookup approval_id seen.approvals) (resolve_effective_roles principal granted)
      approval_id decision comment clock tables

abbrev pub is_human_approval : StepType → Bool
is_human_approval human_approval = true
is_human_approval _ = false

-- `next((p for p in definition.human_approval_points if p.id == step.id), None)`.
unfoldable pub point_of : (step_id : String) → List ApprovalPoint → Option ApprovalPoint
point_of step_id [] = none
point_of step_id (point ∷ points) =
    if str_eq point.id step_id then some point else point_of step_id points

-- How the executor ends: with the outputs of an approval, or with one of its errors.
pub data Execution : Type 0 where
  passes : Approval → Execution
  awaits : Approval → Execution
  is_rejected : Approval → Execution
  not_resolved : Approval → Execution
  wrong_step no_instance no_definition no_point : Execution
  failed_by : ApprovalError → Execution

unfoldable pub execution_of : ApprovalStatus → Approval → Execution
execution_of pending row = awaits row
execution_of approved row = passes row
execution_of rejected row = is_rejected row
execution_of expired row = not_resolved row

abbrev pub after_creation : Recorded → Approvals → Execution × Approvals
after_creation (refused e) tables = (failed_by e, tables)
after_creation (recorded written row) tables = (execution_of row.status row, written)

-- What is outside the executor: the catalogue of definitions, the digest of a point, fresh ids, and the clock.
pub record Surroundings : Type 0 where
  pub approval_points : (definition_id version : String) → Option (List ApprovalPoint)
  pub digest : ApprovalPoint → String
  pub approval_id : String
  pub now : ℕ

-- `get_by_step`, and `create_pending` if there is no row.
unfoldable pub approve_step :
    List (String × Approval)
    → Surroundings
    → (workflow_id step_id : String) → ApprovalPoint
    → Approvals
    → Execution × Approvals
approve_step [] s workflow_id step_id point tables =
    after_creation (create_pending s.digest s.approval_id workflow_id step_id point s.now tables)
      tables
approve_step (entry ∷ []) s workflow_id step_id point tables =
    (execution_of entry.1.status entry.1, tables)
approve_step (entry ∷ other ∷ more) s workflow_id step_id point tables =
    (failed_by several_rows, tables)

abbrev pub approve_at_point :
    Option ApprovalPoint
    → Surroundings
    → (workflow_id step_id : String) → Approvals
    → Execution × Approvals
approve_at_point none s workflow_id step_id tables = (no_point, tables)
approve_at_point (some point) s workflow_id step_id tables =
    approve_step (rows_of_step workflow_id step_id tables.approvals) s workflow_id step_id point
      tables

abbrev pub approve_among :
    Option (List ApprovalPoint)
    → Surroundings
    → (workflow_id step_id : String) → Approvals
    → Execution × Approvals
approve_among none s workflow_id step_id tables = (no_definition, tables)
approve_among (some points) s workflow_id step_id tables =
    approve_at_point (point_of step_id points) s workflow_id step_id tables

abbrev pub approve_of :
    Option WorkflowInstance
    → Surroundings
    → (workflow_id step_id : String) → Approvals
    → Execution × Approvals
approve_of none s workflow_id step_id tables = (no_instance, tables)
approve_of (some row) s workflow_id step_id tables =
    approve_among (s.approval_points row.definition_id row.definition_version) s workflow_id step_id
      tables

-- `HumanApprovalStepExecutor.execute`.
unfoldable pub execute_approval :
    Surroundings → WorkflowStep → (workflow_id : String) → Approvals → Execution × Approvals
execute_approval s step workflow_id tables =
    if not (is_human_approval step.type)
    then (wrong_step, tables)
    else approve_of (lookup workflow_id tables.database.instances) s workflow_id step.id tables
