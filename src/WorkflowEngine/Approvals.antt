-- ===== src/WorkflowEngine/Approvals.antt =====
-- kernel/src/ai_os_kernel/workflow_engine/human_approval.py: the approvals table and its repository.
pub mod Service
pub mod Decided
pub mod Calls
pub mod Changes
pub mod Permanence
pub mod Authority
pub mod Examples
use Prim.Native.String.{◌++◌ as append}
use ai_os.Prelude.{
  ℕ, ◌+◌, Bool, true, false, not, ◌&&◌, ◌||◌, Option, none, some, List, [], ◌∷◌, ◌++◌, String,
  str_eq, if◌then◌else◌, is_some, lookup, insert, contains,
}
use ai_os.PromptEngine.{Text, codes, is_space}
use ai_os.WorkflowEngine.Definition.{Json}
use ai_os.WorkflowEngine.Instance.{request_row}
use ai_os.WorkflowEngine.Repository.{Database, Clock, Written, committed, rolled_back}
use ai_os.WorkflowEngine.Repository.Statuses.{resume}

pub data ApprovalStatus : Type 0 where
  pending approved rejected expired : ApprovalStatus

-- `Decision`.
pub data Decision : Type 0 where
  approve reject : Decision

abbrev pub status_of : Decision → ApprovalStatus
status_of approve = approved
status_of reject = rejected

abbrev pub decision_text : Decision → String
decision_text approve = "approved"
decision_text reject = "rejected"

-- `HumanApprovalPoint` of models.py, as far as a request reads it.
pub record ApprovalPoint : Type 0 where
  pub id : String
  pub name : String
  pub description : String
  pub context : Json
  pub options : List String
  pub timeout : Option ℕ

pub record Approval : Type 0 where
  pub workflow_id : String
  pub step_id : String
  pub approval_class : String
  pub title : String
  pub description : String
  pub context_digest : String
  pub options : List String
  pub status : ApprovalStatus
  pub decided_by : Option String
  pub decision_comment : Option String
  pub requested_at : ℕ
  pub expires_at : Option ℕ
  pub decided_at : Option ℕ

-- The approvals, under their ids, beside the tables of the workflows.
pub record Approvals : Type 0 where
  pub approvals : List (String × Approval)
  pub database : Database

-- `WorkflowInstanceCreationError` is `database_error`; `several_rows` is the `MultipleResultsFound` of `one_or_none`.
pub data ApprovalError : Type 0 where
  does_not_exist not_pending not_waiting not_authorized blank_principal database_error
        several_rows :
      ApprovalError

pub data Recorded : Type 0 where
  recorded : Approvals → Approval → Recorded
  refused : ApprovalError → Recorded

-- The rows that `get_by_step` selects.
unfoldable pub rows_of_step :
    (workflow_id step_id : String) → List (String × Approval) → List (String × Approval)
rows_of_step workflow_id step_id [] = []
rows_of_step workflow_id step_id (entry ∷ entries) =
    let rest = rows_of_step workflow_id step_id entries in
    if str_eq entry.1.workflow_id workflow_id && str_eq entry.1.step_id step_id
    then entry ∷ rest
    else rest

abbrev pub expiry : ℕ → Option ℕ → Option ℕ
expiry requested_at none = none
expiry requested_at (some timeout) = some (requested_at + timeout)

abbrev pub pending_row :
    (digest : ApprovalPoint → String)
    → (workflow_id step_id : String) → ApprovalPoint
    → (now : ℕ) → Approval
pending_row digest workflow_id step_id point now = record {
  workflow_id = workflow_id;
  step_id = step_id;
  approval_class = point.id;
  title = point.name;
  description = point.description;
  context_digest = digest point;
  options = point.options;
  status = pending;
  decided_by = none;
  decision_comment = none;
  requested_at = now;
  expires_at = expiry now point.timeout;
  decided_at = none;
}

-- `approval_id` is what `new_approval_id()` returns, and `digest` is `_context_digest`.
unfoldable pub create_pending :
    (digest : ApprovalPoint → String)
    → (approval_id workflow_id step_id : String) → ApprovalPoint
    → (now : ℕ) → Approvals
    → Recorded
create_pending digest approval_id workflow_id step_id point now tables =
    let row = pending_row digest workflow_id step_id point now in
    if is_some (lookup approval_id tables.approvals)
    then refused database_error
    else recorded
        (record {
          approvals = insert approval_id row tables.approvals;
          database = record tables.database {
            outbox = request_row workflow_id step_id ∷ tables.database.outbox;
          };
        })
        row

abbrev pub is_blank : Text → Bool
is_blank [] = true
is_blank (c ∷ cs) = is_space c && is_blank cs

abbrev pub is_pending : ApprovalStatus → Bool
is_pending pending = true
is_pending _ = false

-- The text of a principal's decision, in the log of the workflow.
abbrev pub decision_reason : (approval_id principal_id : String) → Decision → String
decision_reason approval_id principal_id decision = append "approval '" (
    append approval_id (
      append "' decided '"
        (append (decision_text decision) (append "' by '" (append principal_id "'")))))

-- The values of the guarded update.
abbrev pub decided :
    Decision → (principal_id : String) → (comment : Option String) → (now : ℕ) → Approval → Approval
decided decision principal_id comment now row = record row {
  status = status_of decision;
  decided_by = some principal_id;
  decision_comment = comment;
  decided_at = some now;
}

-- The second update of the transaction, of the workflow that waits.
unfoldable pub decide_and_resume :
    (approval_id : String) → Approval → Written → Approvals → Recorded
decide_and_resume approval_id row (rolled_back reason) tables = refused not_waiting
decide_and_resume approval_id row (committed database instance) tables =
    recorded (record { approvals = insert approval_id row tables.approvals; database = database })
      row

-- The guard of the first update.
unfoldable pub decide_row :
    Option Approval
    → (approval_id principal_id : String) → Decision
    → (comment : Option String) → Clock
    → Approvals
    → Recorded
decide_row none approval_id principal_id decision comment clock tables = refused not_pending
decide_row (some row) approval_id principal_id decision comment clock tables =
    if is_pending row.status
    then decide_and_resume approval_id (decided decision principal_id comment clock.process row)
        (resume row.workflow_id (decision_reason approval_id principal_id decision) clock
          tables.database)
        tables
    else refused not_pending

-- `SqlApprovalRepository.decide`.
unfoldable pub decide :
    (approval_id principal_id : String)
    → Decision
    → (comment : Option String) → Clock
    → Approvals
    → Recorded
decide approval_id principal_id decision comment clock tables =
    if is_blank (codes principal_id)
    then refused blank_principal
    else decide_row (lookup approval_id tables.approvals) approval_id principal_id decision comment
        clock tables
