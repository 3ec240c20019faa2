-- ===== src/WorkflowEngine/Repository/Steps.antt =====
-- The writes about the step that an instance stands at (repository.py): `advance_workflow`,
-- `reset_current_step`, `mark_waiting_for_human` and `record_failed_attempt`; and the count of
-- failures, `step_failure_stats`.
use ai_os.Prelude.{
  ℕ, ◌+◌, ◌-◌, Bool, true, false, ◌&&◌, Option, none, some, List, [], ◌∷◌, String, str_eq, leb, max,
  min, if◌then◌else◌, lookup,
}
use ai_os.WorkflowEngine.Definition.{Json, WorkflowStep}
use ai_os.WorkflowEngine.Instance.{
  WorkflowInstance, StepStatus, WorkflowStepRecord, EventBody, running, waiting_for_human,
  completed, step_completed, step_failed, state_transitioned, step_was_started, step_was_completed,
  step_has_failed, step_retry_scheduled, workflow_completed, completion_row,
}
use ai_os.WorkflowEngine.Repository.{
  Database, Clock, Written, write, row_where, event, at_step, describe_rejected_advance,
}

-- `SELECT max(attempt)` of a step of a workflow, `or 0`.
unfoldable pub max_attempt : (workflow_id step_name : String) → List WorkflowStepRecord → ℕ
max_attempt workflow_id step_name [] = 0
max_attempt workflow_id step_name (row ∷ rows) =
    if str_eq row.workflow_id workflow_id && str_eq row.step_name step_name
    then max row.attempt (max_attempt workflow_id step_name rows)
    else max_attempt workflow_id step_name rows

-- The `workflow_steps` row of an attempt, which starts and ends at one time.
abbrev pub step_row :
    String → WorkflowStep → StepStatus → ℕ → Option Json → Option Json → ℕ → WorkflowStepRecord
step_row workflow_id step status attempt outputs error at = record {
  workflow_id = workflow_id;
  step_name = step.id;
  step_type = step.type;
  status = status;
  attempt = attempt;
  agent_id = step.agent_id;
  tool_id = step.tool_id;
  prompt_id = step.prompt_id;
  prompt_version = step.prompt_version;
  model_alias = step.model_alias;
  outputs = outputs;
  error = error;
  started_at = at;
  completed_at = some at;
}

abbrev pub advanced_values : WorkflowStep → Clock → WorkflowInstance → WorkflowInstance
advanced_values step clock row = record row {
  current_step_id = some step.id;
  last_event_seq = row.last_event_seq + 2;
  updated_at = clock.database;
}

-- `step.started`, then what ended the attempt, and the row of the attempt.
abbrev pub log_attempt :
    String
    → WorkflowStep
    → ℕ
    → EventBody
    → WorkflowStepRecord
    → Clock
    → WorkflowInstance
    → Database
    → Database
log_attempt workflow_id step attempt ending made clock row db = record db {
  events =
      event workflow_id row.last_event_seq ending (some step.id) clock.process
      ∷ event workflow_id (row.last_event_seq - 1) (step_was_started step.id step.type attempt)
          (some step.id) clock.process
      ∷ db.events;
  steps = made ∷ db.steps;
}

abbrev pub completed_values : Clock → WorkflowInstance → WorkflowInstance
completed_values clock row = record row {
  status = completed;
  last_event_seq = row.last_event_seq + 1;
  completed_at = some clock.database;
  updated_at = clock.database;
}

abbrev pub log_completion : String → Clock → WorkflowInstance → Database → Database
log_completion workflow_id clock row db = record db {
  events = event workflow_id row.last_event_seq workflow_completed none clock.process ∷ db.events;
  outbox = completion_row workflow_id ∷ db.outbox;
}

unfoldable pub advance_workflow :
    (workflow_id definition_id version : String)
    → Option String
    → Option WorkflowStep
    → Json
    → Clock
    → Database
    → Written
advance_workflow workflow_id definition_id version expected none outputs clock db =
    let found = lookup workflow_id db.instances in
    write (row_where (at_step definition_id version expected) found)
      (describe_rejected_advance found definition_id version expected) (completed_values clock)
      (log_completion workflow_id clock) workflow_id db
advance_workflow workflow_id definition_id version expected (some step) outputs clock db =
    let found = lookup workflow_id db.instances in
    let attempt = max_attempt workflow_id step.id db.steps + 1 in
    write (row_where (at_step definition_id version expected) found)
      (describe_rejected_advance found definition_id version expected) (advanced_values step clock)
      (log_attempt workflow_id step attempt (step_was_completed step.id step.type attempt outputs)
        (step_row workflow_id step step_completed attempt (some outputs) none clock.process) clock)
      workflow_id db

abbrev pub reset_values : Option String → Clock → WorkflowInstance → WorkflowInstance
reset_values retry_to clock row = record row {
  current_step_id = retry_to;
  last_event_seq = row.last_event_seq + 1;
  updated_at = clock.database;
}

abbrev pub log_reset :
    String → Option String → Option String → String → Clock → WorkflowInstance → Database → Database
log_reset workflow_id expected retry_to reason clock row db = record db {
  events =
      event workflow_id row.last_event_seq (step_retry_scheduled expected retry_to reason) none
        clock.process
      ∷ db.events;
}

unfoldable pub reset_current_step :
    (workflow_id definition_id version : String)
    → Option String
    → Option String
    → String
    → Clock
    → Database
    → Written
reset_current_step workflow_id definition_id version expected retry_to reason clock db =
    let found = lookup workflow_id db.instances in
    write (row_where (at_step definition_id version expected) found)
      (describe_rejected_advance found definition_id version expected) (reset_values retry_to clock)
      (log_reset workflow_id expected retry_to reason clock) workflow_id db

abbrev pub waiting_values : Clock → WorkflowInstance → WorkflowInstance
waiting_values clock row = record row {
  status = waiting_for_human;
  last_event_seq = row.last_event_seq + 1;
  updated_at = clock.database;
}

abbrev pub log_waiting : String → String → Clock → WorkflowInstance → Database → Database
log_waiting workflow_id reason clock row db = record db {
  events =
      event workflow_id row.last_event_seq
        (state_transitioned running waiting_for_human reason none) none clock.process
      ∷ db.events;
}

unfoldable pub mark_waiting_for_human :
    (workflow_id definition_id version : String)
    → Option String
    → String
    → Clock
    → Database
    → Written
mark_waiting_for_human workflow_id definition_id version expected reason clock db =
    let found = lookup workflow_id db.instances in
    write (row_where (at_step definition_id version expected) found)
      (describe_rejected_advance found definition_id version expected) (waiting_values clock)
      (log_waiting workflow_id reason clock) workflow_id db

-- This update leaves `updated_at` alone.
abbrev pub attempted_values : WorkflowInstance → WorkflowInstance
attempted_values row = record row { last_event_seq = row.last_event_seq + 2 }

unfoldable pub record_failed_attempt :
    (workflow_id definition_id version : String)
    → Option String
    → WorkflowStep
    → Json
    → Clock
    → Database
    → Written
record_failed_attempt workflow_id definition_id version expected step error clock db =
    let found = lookup workflow_id db.instances in
    let attempt = max_attempt workflow_id step.id db.steps + 1 in
    write (row_where (at_step definition_id version expected) found)
      (describe_rejected_advance found definition_id version expected) attempted_values
      (log_attempt workflow_id step attempt (step_has_failed step.id step.type attempt error)
        (step_row workflow_id step step_failed attempt none (some error) clock.process) clock)
      workflow_id db

-- `started_at >= retried_at`, or the instance was never retried.
abbrev pub counts_since : Option ℕ → ℕ → Bool
counts_since none started_at = true
counts_since (some retried_at) started_at = leb retried_at started_at

abbrev pub is_failure : StepStatus → Bool
is_failure step_failed = true
is_failure step_completed = false

-- `min`, over the rows that count so far.
abbrev pub earliest : ℕ → Option ℕ → ℕ
earliest at none = at
earliest at (some other) = min at other

-- `count` and `min(started_at)` of the failures of a step since the epoch.
unfoldable pub failures_since :
    Option ℕ → (workflow_id step_name : String) → List WorkflowStepRecord → ℕ × Option ℕ
failures_since epoch workflow_id step_name [] = (0, none)
failures_since epoch workflow_id step_name (row ∷ rows) =
    let (count, first) = failures_since epoch workflow_id step_name rows in
    if str_eq row.workflow_id workflow_id
      && (str_eq row.step_name step_name
          && (is_failure row.status && counts_since epoch row.started_at))
    then (count + 1, some (earliest row.started_at first))
    else (count, first)

-- The join with the instance: no instance, no rows.
abbrev pub failures_of :
    Option WorkflowInstance
    → (workflow_id step_name : String) → List WorkflowStepRecord
    → ℕ × Option ℕ
failures_of none workflow_id step_name rows = (0, none)
failures_of (some row) workflow_id step_name rows =
    failures_since row.retried_at workflow_id step_name rows

unfoldable pub step_failure_stats : (workflow_id step_name : String) → Database → ℕ × Option ℕ
step_failure_stats workflow_id step_name db =
    failures_of (lookup workflow_id db.instances) workflow_id step_name db.steps
