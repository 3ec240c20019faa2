-- ===== src/WorkflowEngine/Service/Advance.antt =====
-- `advance` and `retry_after_step_failure` of service.py, over the repository. What the optional
-- recorders write besides is left out.
use Prim.Native.String.{◌++◌ as append}
use ai_os.Prelude.{Option, none, some, List, String, str_eq, lookup, filter}
use ai_os.WorkflowEngine.Definition.{Json, WorkflowStep, WorkflowDefinition}
use ai_os.WorkflowEngine.Instance.{WorkflowInstance, WorkflowStepRecord}
use ai_os.WorkflowEngine.Repository.{Database, Clock, Written}
use ai_os.WorkflowEngine.Repository.Steps.{
  advance_workflow, mark_waiting_for_human, record_failed_attempt, reset_current_step,
}
use ai_os.WorkflowEngine.Service.{
  StepError, no_such_step, Resolution, next, finished, invalid, resolve_next_step, StepBefore,
  before, not_declared, step_before,
}

-- How the executor of a step ends.
pub data Executed : Type 0 where
  executed : (outputs : Json) → Executed
  approval_is_pending : Executed
  raised_error : (detail : Json) → Executed

-- How a call of the service ends: with what the repository wrote, or with an error. A step's own error is raised
-- again after the failed attempt was recorded.
pub data ServiceResult : Type 0 where
  wrote : Written → ServiceResult
  step_raised : (step_id : String) (detail : Json) (recorded : Written) → ServiceResult
  unresolved : StepError → ServiceResult
  no_instance : ServiceResult

-- `list_steps`.
abbrev pub rows_of : String → Database → List WorkflowStepRecord
rows_of w db = filter (λ (row : WorkflowStepRecord). str_eq row.workflow_id w) db.steps

-- The write after the step was executed.
unfoldable pub finish_step :
    Executed
    → String
    → WorkflowDefinition
    → Option String
    → WorkflowStep
    → Clock
    → Database
    → ServiceResult
finish_step (executed outputs) w definition current step clock db = wrote (
    advance_workflow w definition.definition_id definition.version current (some step) outputs clock
      db)
finish_step approval_is_pending w definition current step clock db = wrote (
    mark_waiting_for_human w definition.definition_id definition.version current
      (append "human_approval step '" (append step.id "' awaiting a real decision")) clock db)
finish_step (raised_error detail) w definition current step clock db = step_raised step.id detail (
    record_failed_attempt w definition.definition_id definition.version current step detail clock
      db)

unfoldable pub advance_to :
    Resolution
    → (WorkflowStep → Executed)
    → String
    → WorkflowDefinition
    → Option String
    → Json
    → Clock
    → Database
    → ServiceResult
advance_to (invalid e) executor w definition current empty clock db = unresolved e
advance_to finished executor w definition current empty clock db =
    wrote
      (advance_workflow w definition.definition_id definition.version current none empty clock db)
advance_to (next step) executor w definition current empty clock db =
    finish_step (executor step) w definition current step clock db

unfoldable pub advance_row :
    Option WorkflowInstance
    → (WorkflowStep → Executed)
    → String
    → WorkflowDefinition
    → List WorkflowStepRecord
    → Json
    → Clock
    → Database
    → ServiceResult
advance_row none executor w definition rows empty clock db = no_instance
advance_row (some row) executor w definition rows empty clock db =
    advance_to (resolve_next_step definition row.current_step_id rows) executor w definition
      row.current_step_id empty clock db

-- `advance`: it reads in `seen` and writes in `db`, which may differ, since the executor runs between.
-- `empty` is `{}`.
unfoldable pub advance :
    (WorkflowStep → Executed)
    → String
    → WorkflowDefinition
    → Json
    → Clock
    → (seen db : Database) → ServiceResult
advance executor w definition empty clock seen db =
    advance_row (lookup w seen.instances) executor w definition (rows_of w seen) empty clock db

unfoldable pub reset_to :
    StepBefore
    → String
    → WorkflowDefinition
    → Option String
    → String
    → Clock
    → Database
    → ServiceResult
reset_to not_declared w definition current reason clock db = unresolved no_such_step
reset_to (before previous) w definition current reason clock db = wrote (
    reset_current_step w definition.definition_id definition.version current previous reason clock
      db)

unfoldable pub retry_row :
    Option WorkflowInstance
    → String
    → WorkflowDefinition
    → String
    → String
    → Clock
    → Database
    → ServiceResult
retry_row none w definition step_id reason clock db = no_instance
retry_row (some row) w definition step_id reason clock db =
    reset_to (step_before definition step_id) w definition row.current_step_id reason clock db

-- `retry_after_step_failure`, which also reads first.
unfoldable pub retry_after_step_failure :
    String
    → WorkflowDefinition
    → (step_id reason : String) → Clock
    → (seen db : Database) → ServiceResult
retry_after_step_failure w definition step_id reason clock seen db =
    retry_row (lookup w seen.instances) w definition step_id reason clock db
