-- ===== src/WorkflowEngine/Instance.antt =====
-- The rows of the workflow tables: kernel/src/ai_os_kernel/workflow_engine/instance.py and
-- step_record.py, and the events that repository.py writes.
use ai_os.Prelude.{ℕ, Bool, true, false, Option, List, String}
use ai_os.WorkflowEngine.Definition.{Json, StepType}

pub data Status : Type 0 where
  created running waiting_for_human waiting_for_retry quality_gate_failed : Status
  compensating completed failed cancelled : Status

pub record WorkflowInstance : Type 0 where
  pub workflow_id : String
  pub definition_id : String
  pub definition_version : String
  pub status : Status
  pub current_step_id : Option String
  pub inputs : Json
  pub outputs : Option Json
  pub experiment_id : Option String
  pub run_manifest_id : Option String
  pub principal_id : String
  pub principal_permissions : Option (List String)  -- a frozenset, as its sorted list
  pub scheduled_at : Option ℕ
  pub retried_at : Option ℕ
  pub last_event_seq : ℕ
  pub error : Option String  -- `{"reason": ...}`, as the reason
  pub total_cost_usd : ℕ
  pub total_tokens : ℕ
  pub created_at : ℕ
  pub updated_at : ℕ
  pub completed_at : Option ℕ

-- `_STEP_STATUS_COMPLETED` and `_STEP_STATUS_FAILED`.
pub data StepStatus : Type 0 where
  step_completed step_failed : StepStatus

-- A `workflow_steps` row. Left out: `step_id`, a fresh identifier; `inputs` and `usage`, which are
-- empty; and `idempotency_key`, made of the workflow, the step and the attempt.
pub record WorkflowStepRecord : Type 0 where
  pub workflow_id : String
  pub step_name : String
  pub step_type : StepType
  pub status : StepStatus
  pub attempt : ℕ
  pub agent_id : Option String
  pub tool_id : Option String
  pub prompt_id : Option String
  pub prompt_version : Option String
  pub model_alias : Option String
  pub outputs : Option Json
  pub error : Option Json
  pub started_at : ℕ
  pub completed_at : Option ℕ

-- The type of an event with its payload.
pub data EventBody : Type 0 where
  workflow_started : (definition_id definition_version : String) (inputs : Json) → EventBody
  state_transitioned :
      (previous_status new_status : Status) (reason : String) (triggering_event_id : Option String)
      → EventBody
  step_was_started : (step_id : String) (step_type : StepType) (attempt : ℕ) → EventBody
  step_was_completed :
      (step_id : String) (step_type : StepType) (attempt : ℕ) (outputs : Json) → EventBody
  step_has_failed :
      (step_id : String) (step_type : StepType) (attempt : ℕ) (error : Json) → EventBody
  step_retry_scheduled :
      (previous_step_id retry_to_step_id : Option String) (reason : String) → EventBody
  workflow_completed : EventBody

-- A `workflow_events` row, without `event_id`, a fresh identifier, and the constant schema version.
pub record EventRow : Type 0 where
  pub workflow_id : String
  pub seq : ℕ
  pub body : EventBody
  pub step_id : Option String
  pub occurred_at : ℕ

-- A row that `write_outbox_event` adds for the workflow.
pub data OutboxRow : Type 0 where
  completion_row : (workflow_id : String) → OutboxRow
  failure_row : (workflow_id reason : String) → OutboxRow
  decision_row : (workflow_id : String) → OutboxRow
  request_row : (workflow_id step_id : String) → OutboxRow

abbrev pub is_running : Status → Bool
is_running running = true
is_running _ = false

abbrev pub is_created : Status → Bool
is_created created = true
is_created _ = false

abbrev pub is_failed : Status → Bool
is_failed failed = true
is_failed _ = false

abbrev pub is_waiting : Status → Bool
is_waiting waiting_for_human = true
is_waiting _ = false

-- `created`, `running` or `waiting_for_human`.
abbrev pub is_cancellable : Status → Bool
is_cancellable created = true
is_cancellable running = true
is_cancellable waiting_for_human = true
is_cancellable _ = false
