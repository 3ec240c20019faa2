-- ===== src/WorkflowEngine/Repository/Statuses.antt =====
-- The writes that move an instance between statuses (repository.py): `create`,
-- `transition_to_running`, `cancel`, `mark_failed` and `retry`; what human_approval.py and
-- run_manifest_recorder.py write of an instance.
use ai_os.Prelude.{true, ℕ, ◌+◌, Option, none, some, List, ◌∷◌, String, lookup, insert}
use ai_os.WorkflowEngine.Definition.{Json}
use ai_os.WorkflowEngine.Instance.{
  Status, WorkflowInstance, created, running, waiting_for_human, is_waiting, decision_row, failed,
  cancelled, workflow_started, state_transitioned, failure_row, is_running, is_created, is_failed,
  is_cancellable,
}
use ai_os.WorkflowEngine.Repository.{
  Database, Clock, Written, committed, rolled_back, creation_error, write, row_where, event,
  describe_rejected_transition,
}

abbrev pub new_row :
    (workflow_id definition_id version : String)
    → Json
    → String
    → Option (List String)
    → Option ℕ
    → Clock
    → WorkflowInstance
new_row workflow_id definition_id version inputs principal_id permissions scheduled_at clock =
    record {
      workflow_id = workflow_id;
      definition_id = definition_id;
      definition_version = version;
      status = created;
      current_step_id = none;
      inputs = inputs;
      outputs = none;
      experiment_id = none;
      run_manifest_id = none;
      principal_id = principal_id;
      principal_permissions = permissions;
      scheduled_at = scheduled_at;
      retried_at = none;
      last_event_seq = 1;
      error = none;
      total_cost_usd = 0;
      total_tokens = 0;
      created_at = clock.database;
      updated_at = clock.database;
      completed_at = none;
    }

-- The two inserts; `clash` is a row that has the primary key already.
unfoldable pub insert_instance :
    Option WorkflowInstance → WorkflowInstance → String → ℕ → Database → Written
insert_instance (some clash) row workflow_id at db = rolled_back creation_error
insert_instance none row workflow_id at db =
    committed
      (record db {
        instances = insert workflow_id row db.instances;
        events =
            event workflow_id 1
              (workflow_started row.definition_id row.definition_version row.inputs) none at
            ∷ db.events;
      })
      row

-- `workflow_id` is what `new_workflow_id()` returns.
unfoldable pub create :
    (workflow_id definition_id version : String)
    → Json
    → String
    → Option (List String)
    → Option ℕ
    → Clock
    → Database
    → Written
create workflow_id definition_id version inputs principal_id permissions scheduled_at clock db =
    insert_instance (lookup workflow_id db.instances)
      (new_row workflow_id definition_id version inputs principal_id permissions scheduled_at clock)
      workflow_id clock.process db

-- A `state.transitioned` event at the row's new sequence number.
abbrev pub log_transition :
    String → Status → String → Option String → Clock → WorkflowInstance → Database → Database
log_transition workflow_id previous reason trigger clock row db = record db {
  events =
      event workflow_id row.last_event_seq (state_transitioned previous row.status reason trigger)
        none clock.process
      ∷ db.events;
}

abbrev pub running_values : Clock → WorkflowInstance → WorkflowInstance
running_values clock row = record row {
  status = running;
  last_event_seq = row.last_event_seq + 1;
  updated_at = clock.database;
}

unfoldable pub transition_to_running :
    (workflow_id reason : String) → Option String → Clock → Database → Written
transition_to_running workflow_id reason trigger clock db =
    let found = lookup workflow_id db.instances in
    write (row_where (λ row. is_created row.status) found) (describe_rejected_transition found)
      (running_values clock) (log_transition workflow_id created reason trigger clock) workflow_id
      db

abbrev pub cancelled_values : Clock → WorkflowInstance → WorkflowInstance
cancelled_values clock row = record row {
  status = cancelled;
  last_event_seq = row.last_event_seq + 1;
  updated_at = clock.database;
}

-- The status that was read first, which the event quotes; no row, no event.
abbrev pub status_of : Option WorkflowInstance → Status
status_of none = created
status_of (some row) = row.status

unfoldable pub cancel : (workflow_id reason : String) → Clock → Database → Written
cancel workflow_id reason clock db =
    let found = lookup workflow_id db.instances in
    write (row_where (λ row. is_cancellable row.status) found) (describe_rejected_transition found)
      (cancelled_values clock) (log_transition workflow_id (status_of found) reason none clock)
      workflow_id db

abbrev pub failed_values : String → Clock → WorkflowInstance → WorkflowInstance
failed_values reason clock row = record row {
  status = failed;
  last_event_seq = row.last_event_seq + 1;
  error = some reason;
  updated_at = clock.database;
  completed_at = some clock.database;
}

abbrev pub log_failure : String → String → Status → Clock → WorkflowInstance → Database → Database
log_failure workflow_id reason previous clock row db =
    let logged = log_transition workflow_id previous reason none clock row db in
    record logged { outbox = failure_row workflow_id reason ∷ logged.outbox }

unfoldable pub mark_failed : (workflow_id reason : String) → Clock → Database → Written
mark_failed workflow_id reason clock db =
    let found = lookup workflow_id db.instances in
    write (row_where (λ row. is_running row.status) found) (describe_rejected_transition found)
      (failed_values reason clock) (log_failure workflow_id reason (status_of found) clock)
      workflow_id db

abbrev pub retried_values : Clock → WorkflowInstance → WorkflowInstance
retried_values clock row = record row {
  status = running;
  last_event_seq = row.last_event_seq + 1;
  retried_at = some clock.database;
  error = none;
  completed_at = none;
  updated_at = clock.database;
}

unfoldable pub retry : (workflow_id reason : String) → Clock → Database → Written
retry workflow_id reason clock db =
    let found = lookup workflow_id db.instances in
    write (row_where (λ row. is_failed row.status) found) (describe_rejected_transition found)
      (retried_values clock) (log_transition workflow_id (status_of found) reason none clock)
      workflow_id db

abbrev pub resumed_values : Clock → WorkflowInstance → WorkflowInstance
resumed_values clock row = record row {
  status = running;
  last_event_seq = row.last_event_seq + 1;
  updated_at = clock.database;
}

abbrev pub log_decision : String → String → Clock → WorkflowInstance → Database → Database
log_decision workflow_id reason clock row db =
    let logged = log_transition workflow_id waiting_for_human reason none clock row db in
    record logged { outbox = decision_row workflow_id ∷ logged.outbox }

-- What `decide` (human_approval.py) writes of the workflow, once the approval was pending.
unfoldable pub resume : (workflow_id reason : String) → Clock → Database → Written
resume workflow_id reason clock db =
    let found = lookup workflow_id db.instances in
    write (row_where (λ row. is_waiting row.status) found) creation_error (resumed_values clock)
      (log_decision workflow_id reason clock) workflow_id db

abbrev pub manifest_values : String → WorkflowInstance → WorkflowInstance
manifest_values manifest_id row = record row { run_manifest_id = some manifest_id }

-- The update of the run manifest recorder, which no guard stops and no event tells.
unfoldable pub attach_manifest : (workflow_id manifest_id : String) → Database → Written
attach_manifest workflow_id manifest_id db =
    write (row_where (λ row. true) (lookup workflow_id db.instances)) creation_error
      (manifest_values manifest_id) (λ row at. at) workflow_id db
