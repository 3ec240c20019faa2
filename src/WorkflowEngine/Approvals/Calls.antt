-- ===== src/WorkflowEngine/Approvals/Calls.antt =====
-- Histories of decisions, executions and other writes of the database (human_approval.py). A decision may read its approval
-- in an older state than the one it writes.
use ai_os.Prelude.{ℕ, zero, suc, ◌≡◌, true, Option, some, List, [], ◌∷◌, String}
use ai_os.WorkflowEngine.Definition.{WorkflowStep}
use ai_os.WorkflowEngine.Repository.{Database, Clock}
use ai_os.SecurityManager.{Principal, is_authorized_to_decide_approval, resolve_effective_roles}
use ai_os.WorkflowEngine.Approvals.{
  Decision, status_of, Approval, Approvals, Recorded, recorded, refused,
}
use ai_os.WorkflowEngine.Approvals.Service.{decide_approval, Surroundings, execute_approval}

-- A call of the service, a run of the executor, or what else the engine writes of workflows. A decision reads the approval
-- `delay` calls before it writes.
pub data Call : Type 0 where
  decides :
      (approval_id : String)
      → Principal
      → (granted : Option (List String)) → Decision
      → (comment : Option String) → Clock
      → (delay : ℕ) → Call
  executes : Surroundings → WorkflowStep → (workflow_id : String) → Call
  writes : Database → Call

abbrev pub tables_of : Approvals → Recorded → Approvals
tables_of tables (refused e) = tables
tables_of tables (recorded written row) = written

-- The tables and what they were before each call, the latest first.
pub record History : Type 0 where
  pub tables : Approvals
  pub earlier : List Approvals

abbrev pub tables_before : ℕ → Approvals → List Approvals → Approvals
tables_before zero tables earlier = tables
tables_before (suc delay) tables [] = tables
tables_before (suc delay) tables (previous ∷ earlier) = tables_before delay previous earlier

unfoldable pub perform : Call → History → Approvals
perform (decides approval_id principal granted decision comment clock delay) h =
    tables_of h.tables (
      decide_approval approval_id principal granted decision comment clock
        (tables_before delay h.tables h.earlier) h.tables)
perform (executes s step workflow_id) h = (execute_approval s step workflow_id h.tables).1
perform (writes database) h = record h.tables { database = database }

abbrev pub without_approvals : Database → Approvals
without_approvals database = record { approvals = []; database = database }

-- What some calls make of a database without approvals, the latest first.
unfoldable pub history : Database → List Call → History
history database [] = record { tables = without_approvals database; earlier = [] }
history database (c ∷ calls) =
    let h = history database calls in
    record { tables = perform c h; earlier = h.tables ∷ h.earlier }

-- A row that a decision of the calls explains: of a principal whose roles authorise it for the class of the approval.
pub data HasDecided (approval_id : String) (row : Approval) : List Call → Type 0 where
  latest :
      (principal : Principal) (granted : Option (List String)) (decision : Decision)
      (comment : Option String) (clock : Clock) (delay : ℕ) (calls : List Call)
      → is_authorized_to_decide_approval
          (resolve_effective_roles principal granted)
          row.approval_class
        ≡ true
      → row.decided_by ≡ some principal.principal_id
      → row.status ≡ status_of decision
      → HasDecided approval_id row
          (decides approval_id principal granted decision comment clock delay ∷ calls)
  an_earlier :
      (c : Call) (calls : List Call)
      → HasDecided approval_id row calls
      → HasDecided approval_id row (c ∷ calls)
