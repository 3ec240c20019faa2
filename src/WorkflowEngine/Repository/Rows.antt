-- ===== src/WorkflowEngine/Repository/Rows.antt =====
-- What a relation on rows must allow so that every write of repository.py respects it.
use ai_os.Prelude.{
  ◌+◌, ◌≡◌, refl, Bool, true, false, Option, none, some, List, String, ℕ, lookup, insert,
  lookup-insert, str_eq, if◌then◌else◌,
}
use ai_os.WorkflowEngine.Definition.{Json, WorkflowStep}
use ai_os.WorkflowEngine.Instance.{
  WorkflowInstance, created, is_created, is_running, is_failed, is_waiting, is_cancellable,
  step_was_completed, step_has_failed, step_completed, step_failed,
}
use ai_os.WorkflowEngine.Repository.{
  creation_error, Database, Clock, at_step, describe_rejected_advance, Rejection, write, row_where,
}
use ai_os.WorkflowEngine.Repository.Statuses.{
  create, insert_instance, new_row, transition_to_running, running_values, log_transition, cancel,
  cancelled_values, mark_failed, failed_values, log_failure, retry, retried_values, resume,
  resumed_values, log_decision, attach_manifest, manifest_values, status_of,
}
use ai_os.WorkflowEngine.Repository.Steps.{
  advance_workflow, advanced_values, completed_values, log_attempt, log_completion, step_row,
  max_attempt, reset_current_step, reset_values, log_reset, mark_waiting_for_human, waiting_values,
  log_waiting, record_failed_attempt, attempted_values,
}
use ai_os.WorkflowEngine.Repository.Commands.{
  Command, creation, start, advance, reset, wait_for_human, failed_attempt, cancellation, failure,
  retrial, decision, manifest, perform, database_after,
}
use ai_os.WorkflowEngine.Repository.Log.{write-keeps, at_key}

-- The relation holds between a row and itself, and between a row and what a write makes of it.
pub record AllowsWrites {ℓ} (Related : Option WorkflowInstance → Option WorkflowInstance → Type ℓ)
    : Type ℓ where
  pub stays : (o : Option WorkflowInstance) → Related o o
  pub creates :
      (w d v : String) (inputs : Json) (principal : String) (permissions : Option (List String))
      (at : Option ℕ) (clock : Clock)
      → Related none (some (new_row w d v inputs principal permissions at clock))
  pub starts :
      (clock : Clock) (row : WorkflowInstance)
      → is_created row.status ≡ true
      → Related (some row) (some (running_values clock row))
  pub cancels :
      (clock : Clock) (row : WorkflowInstance)
      → is_cancellable row.status ≡ true
      → Related (some row) (some (cancelled_values clock row))
  pub fails :
      (reason : String) (clock : Clock) (row : WorkflowInstance)
      → is_running row.status ≡ true
      → Related (some row) (some (failed_values reason clock row))
  pub retries :
      (clock : Clock) (row : WorkflowInstance)
      → is_failed row.status ≡ true
      → Related (some row) (some (retried_values clock row))
  pub resumes :
      (clock : Clock) (row : WorkflowInstance)
      → is_waiting row.status ≡ true
      → Related (some row) (some (resumed_values clock row))
  pub attaches :
      (manifest_id : String) (row : WorkflowInstance)
      → Related (some row) (some (manifest_values manifest_id row))
  pub completes :
      (clock : Clock) (d v : String) (expected : Option String) (row : WorkflowInstance)
      → at_step d v expected row ≡ true
      → Related (some row) (some (completed_values clock row))
  pub advances :
      (step : WorkflowStep) (clock : Clock) (d v : String) (expected : Option String)
      (row : WorkflowInstance)
      → at_step d v expected row ≡ true
      → Related (some row) (some (advanced_values step clock row))
  pub resets :
      (retry_to : Option String) (clock : Clock) (d v : String) (expected : Option String)
      (row : WorkflowInstance)
      → at_step d v expected row ≡ true
      → Related (some row) (some (reset_values retry_to clock row))
  pub waits :
      (clock : Clock) (d v : String) (expected : Option String) (row : WorkflowInstance)
      → at_step d v expected row ≡ true
      → Related (some row) (some (waiting_values clock row))
  pub attempts :
      (d v : String) (expected : Option String) (row : WorkflowInstance)
      → at_step d v expected row ≡ true
      → Related (some row) (some (attempted_values row))

module _ {ℓ} (Related : Option WorkflowInstance → Option WorkflowInstance → Type ℓ)
    (allows : AllowsWrites Related) (key workflow_id : String) (clock : Clock) (db : Database) where
  abbrev found : Option WorkflowInstance
  found = lookup workflow_id db.instances

  abbrev Follows : Database → Type ℓ
  Follows after = Related (lookup key db.instances) (lookup key after.instances)

  Related-hit :
      (hit : Bool) (o : Option WorkflowInstance) (row' : WorkflowInstance)
      → (hit ≡ true → Related o (some row'))
      → Related o (if hit then some row' else o)
  Related-hit true o row' h = h refl
  Related-hit false o row' h = allows.stays o

  Related-insert :
      (row : Option WorkflowInstance) (row' : WorkflowInstance)
      → found ≡ row
      → Related row (some row')
      → Related (lookup key db.instances) (lookup key (insert workflow_id row' db.instances))
  Related-insert row row' e h = rw lookup-insert (
      Related-hit (str_eq workflow_id key) (lookup key db.instances) row'
        (at_key key workflow_id db.instances db.events row row' e (λ o. Related o (some row')) h))

  write-Follows :
      (guard : WorkflowInstance → Bool) (rejection : Rejection)
      (values : WorkflowInstance → WorkflowInstance) (log : WorkflowInstance → Database → Database)
      → ((row : WorkflowInstance) (at : Database) → (log row at).instances ≡ at.instances)
      → ((row : WorkflowInstance) → guard row ≡ true → Related (some row) (some (values row)))
      → Follows
          (database_after db (write (row_where guard found) rejection values log workflow_id db))
  write-Follows guard rejection values log same step =
      write-keeps Follows found guard rejection values log workflow_id db
        (allows.stays (lookup key db.instances))
        (λ row e g. rw same (Related-insert (some row) (values row) e (step row g)))

  insert_instance-Follows :
      (o : Option WorkflowInstance) (d v : String) (inputs : Json) (principal : String)
      (permissions : Option (List String)) (at : Option ℕ)
      → found ≡ o
      → Follows (
          database_after db (
            insert_instance o
              (new_row workflow_id d v inputs principal permissions at clock)
              workflow_id
              clock.process
              db))
  unfolding insert_instance
  insert_instance-Follows (some clash) d v inputs principal permissions at e =
      allows.stays (lookup key db.instances)
  insert_instance-Follows none d v inputs principal permissions at e =
      Related-insert none (new_row workflow_id d v inputs principal permissions at clock) e
        (allows.creates workflow_id d v inputs principal permissions at clock)

  advance_workflow-Follows :
      (d v : String) (expected : Option String) (next_step : Option WorkflowStep) (outputs : Json)
      → Follows
          (database_after db (advance_workflow workflow_id d v expected next_step outputs clock db))
  unfolding advance_workflow
  advance_workflow-Follows d v expected none outputs =
      write-Follows (at_step d v expected) (describe_rejected_advance found d v expected)
        (completed_values clock) (log_completion workflow_id clock) (λ row at. refl)
        (allows.completes clock d v expected)
  advance_workflow-Follows d v expected (some step) outputs =
      let attempt = max_attempt workflow_id step.id db.steps + 1 in
      write-Follows (at_step d v expected) (describe_rejected_advance found d v expected)
        (advanced_values step clock)
        (log_attempt workflow_id step attempt (step_was_completed step.id step.type attempt outputs)
          (step_row workflow_id step step_completed attempt (some outputs) none clock.process)
          clock)
        (λ row at. refl) (allows.advances step clock d v expected)

  record_failed_attempt-Follows :
      (d v : String) (expected : Option String) (step : WorkflowStep) (error : Json)
      → Follows
          (database_after db (record_failed_attempt workflow_id d v expected step error clock db))
  unfolding record_failed_attempt
  record_failed_attempt-Follows d v expected step error =
      let attempt = max_attempt workflow_id step.id db.steps + 1 in
      write-Follows (at_step d v expected) (describe_rejected_advance found d v expected)
        attempted_values
        (log_attempt workflow_id step attempt (step_has_failed step.id step.type attempt error)
          (step_row workflow_id step step_failed attempt none (some error) clock.process) clock)
        (λ row at. refl) (allows.attempts d v expected)

-- Every write respects such a relation, on the row of every workflow.
pub perform-Follows {ℓ} :
    (Related : Option WorkflowInstance → Option WorkflowInstance → Type ℓ)
    (allows : AllowsWrites Related) (key : String) (c : Command) (clock : Clock) (db : Database)
    → Related
        (lookup key db.instances)
        (lookup key (database_after db (perform c clock db)).instances)
unfolding perform resume attach_manifest create transition_to_running cancel mark_failed retry
    reset_current_step mark_waiting_for_human
perform-Follows R allows key (creation w d v inputs principal permissions at) clock db =
    insert_instance-Follows R allows key w clock db (lookup w db.instances) d v inputs principal
      permissions at refl
perform-Follows R allows key (start w reason trigger) clock db =
    write-Follows R allows key w clock db (λ row. is_created row.status) _ (running_values clock)
      (log_transition w created reason trigger clock) (λ row at. refl) (allows.starts clock)
perform-Follows R allows key (advance w d v expected step outputs) clock db =
    advance_workflow-Follows R allows key w clock db d v expected step outputs
perform-Follows R allows key (reset w d v expected to reason) clock db =
    write-Follows R allows key w clock db (at_step d v expected) _ (reset_values to clock)
      (log_reset w expected to reason clock) (λ row at. refl) (allows.resets to clock d v expected)
perform-Follows R allows key (wait_for_human w d v expected reason) clock db =
    write-Follows R allows key w clock db (at_step d v expected) _ (waiting_values clock)
      (log_waiting w reason clock) (λ row at. refl) (allows.waits clock d v expected)
perform-Follows R allows key (failed_attempt w d v expected step error) clock db =
    record_failed_attempt-Follows R allows key w clock db d v expected step error
perform-Follows R allows key (cancellation w reason) clock db =
    write-Follows R allows key w clock db (λ row. is_cancellable row.status) _
      (cancelled_values clock)
      (log_transition w (status_of (lookup w db.instances)) reason none clock) (λ row at. refl)
      (allows.cancels clock)
perform-Follows R allows key (decision w reason) clock db =
    write-Follows R allows key w clock db (λ row. is_waiting row.status) creation_error
      (resumed_values clock) (log_decision w reason clock) (λ row at. refl) (allows.resumes clock)
perform-Follows R allows key (manifest w manifest_id) clock db =
    write-Follows R allows key w clock db (λ row. true) creation_error (manifest_values manifest_id)
      (λ row at. at) (λ row at. refl) (λ row g. allows.attaches manifest_id row)
perform-Follows R allows key (failure w reason) clock db =
    write-Follows R allows key w clock db (λ row. is_running row.status) _
      (failed_values reason clock) (log_failure w reason (status_of (lookup w db.instances)) clock)
      (λ row at. refl) (allows.fails reason clock)
perform-Follows R allows key (retrial w reason) clock db =
    write-Follows R allows key w clock db (λ row. is_failed row.status) _ (retried_values clock)
      (log_transition w (status_of (lookup w db.instances)) reason none clock) (λ row at. refl)
      (allows.retries clock)
