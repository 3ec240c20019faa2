-- ===== src/WorkflowEngine/Repository.antt =====
-- kernel/src/ai_os_kernel/workflow_engine/repository.py: each method is one transaction, so its
-- result is either the database with everything written or a rejection that wrote nothing.
pub mod Statuses
pub mod Steps
pub mod Commands
pub mod Log
pub mod Agreement
pub mod Rows
pub mod Machine
pub mod Tables
pub mod Consistency
pub mod Races
pub mod Retries
mod Examples
use ai_os.Prelude.{
  ℕ, ◌+◌, ◌-◌, Bool, true, false, not, ◌&&◌, Option, none, some, List, [], ◌∷◌, String, str_eq, leb,
  max, if◌then◌else◌, lookup, insert,
}
use ai_os.WorkflowEngine.Definition.{Json, WorkflowStep}
use ai_os.WorkflowEngine.Instance.{
  Status, WorkflowInstance, StepStatus, WorkflowStepRecord, EventBody, EventRow, OutboxRow, created,
  running, waiting_for_human, completed, failed, cancelled, step_completed, step_failed,
  workflow_started, state_transitioned, step_was_started, step_was_completed, step_has_failed,
  step_retry_scheduled, workflow_completed, completion_row, failure_row, is_running, is_created,
  is_failed, is_cancellable,
}

-- The tables. Instances have the key `workflow_id`; the latest row of the others stands first.
pub record Database : Type 0 where
  pub instances : List (String × WorkflowInstance)
  pub events : List EventRow
  pub steps : List WorkflowStepRecord
  pub outbox : List OutboxRow

-- `datetime.now(UTC)` of the process, and `now()` of the transaction.
pub record Clock : Type 0 where
  pub process : ℕ
  pub database : ℕ

-- Why a write was refused, by the value that the message quotes.
pub data Rejection : Type 0 where
  does_not_exist : Rejection
  has_status : Status → Rejection
  has_definition : (definition_id definition_version : String) → Rejection
  has_step : Option String → Rejection
  rejected : Rejection
  creation_error : Rejection

pub data Written : Type 0 where
  committed : Database → WorkflowInstance → Written
  rolled_back : Rejection → Written

abbrev pub same_step : Option String → Option String → Bool
same_step none none = true
same_step (some a) (some b) = str_eq a b
same_step _ _ = false

-- A row that the guard of an `UPDATE ... WHERE` lets through.
abbrev pub row_where : (WorkflowInstance → Bool) → Option WorkflowInstance → Option WorkflowInstance
row_where guard none = none
row_where guard (some row) = if guard row then some row else none

abbrev pub event : String → ℕ → EventBody → Option String → ℕ → EventRow
event workflow_id seq body step_id at = record {
  workflow_id = workflow_id;
  seq = seq;
  body = body;
  step_id = step_id;
  occurred_at = at;
}

-- A guarded update that returns the new row, with what is written besides.
unfoldable pub write :
    Option WorkflowInstance
    → Rejection
    → (WorkflowInstance → WorkflowInstance)
    → (WorkflowInstance → Database → Database)
    → String
    → Database
    → Written
write none rejection values log workflow_id db = rolled_back rejection
write (some row) rejection values log workflow_id db =
    let row' = values row in
    committed (log row' (record db { instances = insert workflow_id row' db.instances })) row'

-- `_describe_rejected_transition`, and the messages of `cancel`, `mark_failed` and `retry`.
abbrev pub describe_rejected_transition : Option WorkflowInstance → Rejection
describe_rejected_transition none = does_not_exist
describe_rejected_transition (some row) = has_status row.status

-- `_describe_rejected_advance`.
abbrev pub describe_rejected_advance :
    Option WorkflowInstance → String → String → Option String → Rejection
describe_rejected_advance none definition_id version expected = does_not_exist
describe_rejected_advance (some row) definition_id version expected =
    if not (is_running row.status)
    then has_status row.status
    else if not (str_eq row.definition_id definition_id && str_eq row.definition_version version)
    then has_definition row.definition_id row.definition_version
    else if not (same_step row.current_step_id expected)
    then has_step row.current_step_id
    else rejected

-- The guard that the four writes about a step share.
abbrev pub at_step : String → String → Option String → WorkflowInstance → Bool
at_step definition_id version expected row =
    is_running row.status
    && (str_eq row.definition_id definition_id
        && (str_eq row.definition_version version && same_step row.current_step_id expected))
