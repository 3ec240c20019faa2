-- ===== src/WorkflowEngine/Approvals/Permanence.antt =====
-- That decided approvals stay as they are, over any history of calls (human_approval.py).
use ai_os.Prelude.{
  not, ℕ, ◌≡◌, refl, sym, ap, subst, ◌∙◌, inl, inr, true, false, Option, none, some, List, [], ◌∷◌,
  ◌++◌, String, lookup, if_cases, is_some, arith,
}
use ai_os.WorkflowEngine.Instance.{WorkflowInstance}
use ai_os.WorkflowEngine.Repository.{Database, Clock}
use ai_os.SecurityManager.{Principal, is_authorized_to_decide_approval, resolve_effective_roles}
use ai_os.WorkflowEngine.Approvals.{
  approve, reject, approved, rejected, status_of, Decision, ApprovalPoint, Approval, Approvals,
  Recorded, recorded, refused, rows_of_step, is_pending, create_pending, pending_row,
}
use ai_os.WorkflowEngine.Approvals.Service.{
  decide_approval, Execution, after_creation, Surroundings, approve_step, approve_at_point,
  approve_among, approve_of, execute_approval, point_of, is_human_approval,
}
use ai_os.WorkflowEngine.Approvals.Decided.{Decides, decide_approval-Decides}
use ai_os.WorkflowEngine.Approvals.Calls.{
  Call, decides, executes, writes, tables_of, History, tables_before, perform, history, latest,
}
use ai_os.WorkflowEngine.Approvals.Changes.{
  Every, IsExplained, Changes, keeps_rows, puts, Keeps, Changes-Keeps, Changes-Every, Chain,
  Chain-Keeps,
}

one_row : (o : Option Approval) (a b : Approval) → o ≡ some a → o ≡ some b → a ≡ b
one_row o a b e f = ap (λ (o : Option Approval). elim o [ none ↦ a | some r ↦ r ]) (sym e ∙ f)

resolve_effective_roles-principal_id :
    (principal : Principal) (granted : Option (List String))
    → (resolve_effective_roles principal granted).principal_id ≡ principal.principal_id
unfolding resolve_effective_roles
resolve_effective_roles-principal_id principal none = refl
resolve_effective_roles-principal_id principal (some roles) = refl

status_of_case :
    (decision : Decision)
    → elim decision [ approve ↦ approved | reject ↦ rejected ] ≡ status_of decision
status_of_case approve = refl
status_of_case reject = refl

decision-Changes :
    (approval_id : String) (principal : Principal) (granted : Option (List String))
    (decision : Decision) (comment : Option String) (clock : Clock) (delay : ℕ) (calls : List Call)
    (seen tables : Approvals) (r : Recorded)
    → Keeps approval_id seen tables
    → Decides approval_id decision comment clock seen tables
        (resolve_effective_roles principal granted)
        r
    → Changes
        (decides approval_id principal granted decision comment clock delay ∷ calls)
        tables
        (tables_of tables r)
decision-Changes approval_id principal granted decision comment clock delay calls seen tables
      (refused e) k d =
    keeps_rows tables refl
decision-Changes approval_id principal granted decision comment clock delay calls seen tables
      (recorded written row) k
      (
        read, old, instance, reason, is_read, may, found, was_pending, row_is, approvals_are, _, _,
        _, _,
      ) =
    let (now, now_found, class, still) = k read is_read in
    let same_class : row.approval_class ≡ old.approval_class =
      ap (λ (r : Approval). r.approval_class) row_is in
    let now_is : now ≡ old =
      one_row (lookup approval_id tables.approvals) now old now_found found in
    let read_class : read.approval_class ≡ row.approval_class =
      sym class ∙ ap (λ (r : Approval). r.approval_class) now_is ∙ sym same_class in
    puts approval_id row written approvals_are
      (λ other e.
        let other_is : old ≡ other =
          one_row (lookup approval_id tables.approvals) old other found e in
        (
          same_class ∙ ap (λ (r : Approval). r.approval_class) other_is,
          sym (ap (λ (r : Approval). is_pending r.status) other_is) ∙ was_pending,
        ))
      (inr (
        latest principal granted decision comment clock delay calls
          (subst
            (λ c.
              is_authorized_to_decide_approval (resolve_effective_roles principal granted) c ≡ true)
            read_class may)
          (ap (λ (r : Approval). r.decided_by) row_is
            ∙ ap some (resolve_effective_roles-principal_id principal granted))
          (ap (λ (r : Approval). r.status) row_is ∙ status_of_case decision)))

module _ (calls : List Call) (tables : Approvals) (s : Surroundings)
    (workflow_id step_id : String) where
  create_pending-Changes :
      (point : ApprovalPoint)
      → Changes calls tables
          (after_creation
            (create_pending s.digest s.approval_id workflow_id step_id point s.now tables)
            tables).1
  unfolding create_pending
  create_pending-Changes point =
      if_cases (λ (r : Recorded). Changes calls tables (after_creation r tables).1)
        (is_some (lookup s.approval_id tables.approvals)) (λ _. keeps_rows tables refl)
        (λ fresh.
          puts s.approval_id (pending_row s.digest workflow_id step_id point s.now) _ refl
            (λ old e. ground (arith, fresh, e)) (inl refl))

  approve_step-Changes :
      (rows : List (String × Approval)) (point : ApprovalPoint)
      → Changes calls tables (approve_step rows s workflow_id step_id point tables).1
  unfolding approve_step
  approve_step-Changes [] point = create_pending-Changes point
  approve_step-Changes (entry ∷ []) point = keeps_rows tables refl
  approve_step-Changes (entry ∷ other ∷ more) point = keeps_rows tables refl

  approve_at_point-Changes :
      (found : Option ApprovalPoint)
      → Changes calls tables (approve_at_point found s workflow_id step_id tables).1
  approve_at_point-Changes none = keeps_rows tables refl
  approve_at_point-Changes (some point) =
      approve_step-Changes (rows_of_step workflow_id step_id tables.approvals) point

  approve_among-Changes :
      (found : Option (List ApprovalPoint))
      → Changes calls tables (approve_among found s workflow_id step_id tables).1
  approve_among-Changes none = keeps_rows tables refl
  approve_among-Changes (some points) = approve_at_point-Changes (point_of step_id points)

  approve_of-Changes :
      (found : Option WorkflowInstance)
      → Changes calls tables (approve_of found s workflow_id step_id tables).1
  approve_of-Changes none = keeps_rows tables refl
  approve_of-Changes (some row) =
      approve_among-Changes (s.approval_points row.definition_id row.definition_version)

perform-Changes :
    (c : Call) (calls : List Call) (h : History)
    → ((approval_id : String) → Chain approval_id h.tables h.earlier)
    → Changes (c ∷ calls) h.tables (perform c h)
unfolding perform execute_approval
perform-Changes (decides approval_id principal granted decision comment clock delay) calls h chain =
    let seen = tables_before delay h.tables h.earlier in
    decision-Changes approval_id principal granted decision comment clock delay calls seen h.tables
      (decide_approval approval_id principal granted decision comment clock seen h.tables)
      (Chain-Keeps approval_id delay h.tables h.earlier (chain approval_id))
      (decide_approval-Decides approval_id decision comment clock seen h.tables principal granted)
perform-Changes (executes s step workflow_id) calls h chain =
    let calls' = executes s step workflow_id ∷ calls in
    if_cases (λ (r : Execution × Approvals). Changes calls' h.tables r.1)
      (not (is_human_approval step.type)) (λ _. keeps_rows h.tables refl)
      (λ _.
        approve_of-Changes calls' h.tables s workflow_id step.id
          (lookup workflow_id h.tables.database.instances))
perform-Changes (writes database) calls h chain = keeps_rows (perform (writes database) h) refl

history-Chain :
    (database : Database) (calls : List Call) (approval_id : String)
    → Chain approval_id (history database calls).tables (history database calls).earlier
unfolding history
history-Chain database [] approval_id = tt
history-Chain database (c ∷ calls) approval_id =
    let h = history database calls in
    (
      Changes-Keeps (c ∷ calls) approval_id h.tables (perform c h)
          (perform-Changes c calls h (history-Chain database calls)),
      history-Chain database calls approval_id,
    )

pub history-IsExplained :
    (database : Database) (calls : List Call)
    → Every (IsExplained calls) (history database calls).tables.approvals
unfolding history
history-IsExplained database [] = tt
history-IsExplained database (c ∷ calls) =
    let h = history database calls in
    Changes-Every calls c h.tables (perform c h)
      (perform-Changes c calls h (history-Chain database calls))
      (history-IsExplained database calls)

-- An approval that is decided stays as it is, whoever decides it, whatever steps run and whatever else is written after it.
pub decided_stays :
    (database : Database) (calls earlier : List Call) (approval_id : String) (row : Approval)
    → lookup approval_id (history database earlier).tables.approvals ≡ some row
    → is_pending row.status ≡ false
    → lookup approval_id (history database (calls ++ earlier)).tables.approvals ≡ some row
unfolding history
decided_stays database [] earlier approval_id row e d = e
decided_stays database (c ∷ calls) earlier approval_id row e d =
    let h = history database (calls ++ earlier) in
    let (now, found, class, still) =
      Changes-Keeps (c ∷ (calls ++ earlier)) approval_id h.tables (perform c h)
        (perform-Changes c (calls ++ earlier) h (history-Chain database (calls ++ earlier))) row
        (decided_stays database calls earlier approval_id row e d) in
    found ∙ ap some (still d)
