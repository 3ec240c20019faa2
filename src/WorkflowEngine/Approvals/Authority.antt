-- ===== src/WorkflowEngine/Approvals/Authority.antt =====
-- By whose authority a human_approval step passes (human_approval.py).
use ai_os.Prelude.{
  not, ◌≡◌, refl, sym, ap, subst, ◌∙◌, inl, inr, Option, none, some, List, [], ◌∷◌, String, str_eq,
  ◌&&◌, lookup, if_cases, is_some, arith, eq_iff,
}
use ai_os.WorkflowEngine.Definition.{WorkflowStep}
use ai_os.WorkflowEngine.Instance.{WorkflowInstance}
use ai_os.WorkflowEngine.Repository.{Database}
use ai_os.WorkflowEngine.Approvals.{
  ApprovalStatus, pending, approved, rejected, expired, ApprovalPoint, Approval, Approvals,
  Recorded, rows_of_step, is_pending, create_pending,
}
use ai_os.WorkflowEngine.Approvals.Service.{
  Execution, passes, execution_of, after_creation, Surroundings, approve_step, approve_at_point,
  approve_among, approve_of, execute_approval, point_of, is_human_approval,
}
use ai_os.WorkflowEngine.Approvals.Calls.{Call, history, HasDecided}
use ai_os.WorkflowEngine.Approvals.Changes.{Every, IsExplained}
use ai_os.WorkflowEngine.Approvals.Permanence.{history-IsExplained}

-- The decision that a step passes on, by one of the calls.
abbrev IsAuthorised : List Call → (workflow_id step_id : String) → Approval → Type 0
IsAuthorised calls workflow_id step_id row =
    (approval_id : String) × HasDecided approval_id row calls
    × (row.status ≡ approved)
    × (row.workflow_id ≡ workflow_id)
    × (row.step_id ≡ step_id)

module _ (calls : List Call) (workflow_id step_id : String) where
  abbrev Passes : Execution → Type 0
  Passes (passes row) = IsAuthorised calls workflow_id step_id row
  Passes _ = Unit

  abbrev IsOfStep : String → Approval → Type 0
  IsOfStep key row =
      IsExplained calls key row × (row.workflow_id ≡ workflow_id) × (row.step_id ≡ step_id)

  rows_of_step-IsOfStep :
      (entries : List (String × Approval))
      → Every (IsExplained calls) entries
      → Every IsOfStep (rows_of_step workflow_id step_id entries)
  unfolding rows_of_step
  rows_of_step-IsOfStep [] all = tt
  rows_of_step-IsOfStep ((name, row) ∷ entries) (first, rest) =
      let below = rows_of_step-IsOfStep entries rest in
      if_cases (Every IsOfStep) (str_eq row.workflow_id workflow_id && str_eq row.step_id step_id)
        (λ t. (
          (
            first,
            (eq_iff row.workflow_id workflow_id).0 (ground (arith, t)),
            (eq_iff row.step_id step_id).0 (ground (arith, t)),
          ),
          below,
        ))
        (λ _. below)

  execution_of-Passes :
      (key : String) (row : Approval) (status : ApprovalStatus)
      → row.status ≡ status
      → IsOfStep key row
      → Passes (execution_of status row)
  unfolding execution_of
  execution_of-Passes key row pending e h = tt
  execution_of-Passes key row rejected e h = tt
  execution_of-Passes key row expired e h = tt
  execution_of-Passes key row approved e (inl p, of_workflow, of_step) =
      ground (arith, sym (ap is_pending e) ∙ p)
  execution_of-Passes key row approved e (inr d, of_workflow, of_step) =
      (key, d, e, of_workflow, of_step)

  module _ (s : Surroundings) (tables : Approvals)
      (all : Every (IsExplained calls) tables.approvals) where
    create_pending-Passes :
        (point : ApprovalPoint)
        → Passes
            (after_creation
              (create_pending s.digest s.approval_id workflow_id step_id point s.now tables)
              tables).0
    unfolding create_pending execution_of
    create_pending-Passes point =
        if_cases (λ (r : Recorded). Passes (after_creation r tables).0)
          (is_some (lookup s.approval_id tables.approvals)) (λ _. tt) (λ _. tt)

    approve_step-Passes :
        (rows : List (String × Approval)) (point : ApprovalPoint)
        → Every IsOfStep rows
        → Passes (approve_step rows s workflow_id step_id point tables).0
    unfolding approve_step
    approve_step-Passes [] point h = create_pending-Passes point
    approve_step-Passes (entry ∷ []) point (h, rest) =
        execution_of-Passes entry.0 entry.1 entry.1.status refl h
    approve_step-Passes (entry ∷ other ∷ more) point h = tt

    approve_at_point-Passes :
        (found : Option ApprovalPoint)
        → Passes (approve_at_point found s workflow_id step_id tables).0
    approve_at_point-Passes none = tt
    approve_at_point-Passes (some point) =
        approve_step-Passes (rows_of_step workflow_id step_id tables.approvals) point
          (rows_of_step-IsOfStep tables.approvals all)

    approve_among-Passes :
        (found : Option (List ApprovalPoint))
        → Passes (approve_among found s workflow_id step_id tables).0
    approve_among-Passes none = tt
    approve_among-Passes (some points) = approve_at_point-Passes (point_of step_id points)

    approve_of-Passes :
        (found : Option WorkflowInstance) → Passes (approve_of found s workflow_id step_id tables).0
    approve_of-Passes none = tt
    approve_of-Passes (some row) =
        approve_among-Passes (s.approval_points row.definition_id row.definition_version)

execute_approval-Passes :
    (calls : List Call) (s : Surroundings) (step : WorkflowStep) (workflow_id : String)
    (tables : Approvals)
    → Every (IsExplained calls) tables.approvals
    → Passes calls workflow_id step.id (execute_approval s step workflow_id tables).0
unfolding execute_approval
execute_approval-Passes calls s step workflow_id tables all =
    if_cases (λ (r : Execution × Approvals). Passes calls workflow_id step.id r.0)
      (not (is_human_approval step.type)) (λ _. tt)
      (λ _.
        approve_of-Passes calls workflow_id step.id s tables all
          (lookup workflow_id tables.database.instances))

-- After any history of calls on a database without approvals, a step that passes does so on an approved approval of its
-- workflow and step, which one of the calls decided: a call of `ApprovalService.decide` on this very approval, by the
-- principal that the row names, whose roles with the granted ones authorise it for the class of the approval.
pub pass_needs_authority :
    (database : Database) (calls : List Call) (s : Surroundings) (step : WorkflowStep)
    (workflow_id : String) (row : Approval)
    → (execute_approval s step workflow_id (history database calls).tables).0 ≡ passes row
    → (approval_id : String) × HasDecided approval_id row calls
      × (row.status ≡ approved)
      × (row.workflow_id ≡ workflow_id)
      × (row.step_id ≡ step.id)
pass_needs_authority database calls s step workflow_id row e =
    subst (Passes calls workflow_id step.id) e (
      execute_approval-Passes calls s step workflow_id (history database calls).tables
        (history-IsExplained database calls))
