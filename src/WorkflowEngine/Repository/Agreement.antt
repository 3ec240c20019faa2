-- ===== src/WorkflowEngine/Repository/Agreement.antt =====
-- Each write of repository.py keeps the log and the snapshot in agreement.
use ai_os.Prelude.{
  ℕ, ◌+◌, ◌≡◌, refl, true, Option, none, some, List, [], ◌∷◌, String, lookup, arith,
}
use ai_os.WorkflowEngine.Definition.{Json, WorkflowStep}
use ai_os.WorkflowEngine.Instance.{
  WorkflowInstance, created, running, waiting_for_human, state_transitioned, step_was_completed,
  step_has_failed, step_retry_scheduled, workflow_completed, workflow_started, step_completed,
  step_failed, is_created, is_running, is_failed, is_waiting, is_cancellable,
}
use ai_os.WorkflowEngine.Repository.{
  Database, Clock, at_step, describe_rejected_transition, creation_error, describe_rejected_advance,
}
use ai_os.WorkflowEngine.Repository.Statuses.{
  create, insert_instance, new_row, transition_to_running, running_values, log_transition, cancel,
  cancelled_values, mark_failed, failed_values, log_failure, retry, retried_values, resume,
  resumed_values, log_decision, attach_manifest, manifest_values, status_of,
}
use ai_os.WorkflowEngine.Repository.Steps.{
  advance_workflow, advanced_values, completed_values, log_attempt, log_completion, step_row,
  max_attempt, reset_current_step, reset_values, log_reset, mark_waiting_for_human, waiting_values,
  log_waiting, record_failed_attempt, attempted_values,
}
use ai_os.WorkflowEngine.Repository.Commands.{
  Command, creation, start, advance, reset, wait_for_human, failed_attempt, cancellation, failure,
  retrial, decision, manifest, perform, database_after, history,
}
use ai_os.WorkflowEngine.Repository.Log.{
  seqs, countdown, last_seq, replayed, position, FineDatabase, write-keeps, one-IsFine,
  untold-IsFine, attempt-IsFine,
}

module _ (key workflow_id : String) (clock : Clock) (db : Database)
    (fine : FineDatabase key db) where
  abbrev found : Option WorkflowInstance
  found = lookup workflow_id db.instances

  insert_instance-Fine :
      (o : Option WorkflowInstance) (d v : String) (inputs : Json) (principal : String)
      (permissions : Option (List String)) (at : Option ℕ)
      → lookup workflow_id db.instances ≡ o
      → FineDatabase key (
          database_after db (
            insert_instance o
              (new_row workflow_id d v inputs principal permissions at clock)
              workflow_id
              clock.process
              db))
  unfolding insert_instance
  insert_instance-Fine (some clash) d v inputs principal permissions at e = fine
  insert_instance-Fine none d v inputs principal permissions at e =
      one-IsFine key workflow_id db.instances db.events none
        (new_row workflow_id d v inputs principal permissions at clock) e
        (workflow_started d v inputs) none clock.process (omega arith) refl fine

  create-Fine :
      (d v : String) (inputs : Json) (principal : String) (permissions : Option (List String))
      (at : Option ℕ)
      → FineDatabase key
          (database_after db (create workflow_id d v inputs principal permissions at clock db))
  unfolding create
  create-Fine d v inputs principal permissions at =
      insert_instance-Fine found d v inputs principal permissions at refl

  transition_to_running-Fine :
      (reason : String) (trigger : Option String)
      → FineDatabase key
          (database_after db (transition_to_running workflow_id reason trigger clock db))
  unfolding transition_to_running
  transition_to_running-Fine reason trigger =
      write-keeps (FineDatabase key) found (λ row. is_created row.status)
        (describe_rejected_transition found) (running_values clock)
        (log_transition workflow_id created reason trigger clock) workflow_id db fine
        (λ row e g.
          one-IsFine key workflow_id db.instances db.events (some row) (running_values clock row) e
            (state_transitioned created running reason trigger) none clock.process refl refl fine)

  cancel-Fine :
      (reason : String) → FineDatabase key (database_after db (cancel workflow_id reason clock db))
  unfolding cancel
  cancel-Fine reason =
      write-keeps (FineDatabase key) found (λ row. is_cancellable row.status)
        (describe_rejected_transition found) (cancelled_values clock)
        (log_transition workflow_id (status_of found) reason none clock) workflow_id db fine
        (λ row e g.
          one-IsFine key workflow_id db.instances db.events (some row) (cancelled_values clock row)
            e _ none clock.process refl refl fine)

  mark_failed-Fine :
      (reason : String)
      → FineDatabase key (database_after db (mark_failed workflow_id reason clock db))
  unfolding mark_failed
  mark_failed-Fine reason =
      write-keeps (FineDatabase key) found (λ row. is_running row.status)
        (describe_rejected_transition found) (failed_values reason clock)
        (log_failure workflow_id reason (status_of found) clock) workflow_id db fine
        (λ row e g.
          one-IsFine key workflow_id db.instances db.events (some row)
            (failed_values reason clock row) e _ none clock.process refl refl fine)

  retry-Fine :
      (reason : String) → FineDatabase key (database_after db (retry workflow_id reason clock db))
  unfolding retry
  retry-Fine reason =
      write-keeps (FineDatabase key) found (λ row. is_failed row.status)
        (describe_rejected_transition found) (retried_values clock)
        (log_transition workflow_id (status_of found) reason none clock) workflow_id db fine
        (λ row e g.
          one-IsFine key workflow_id db.instances db.events (some row) (retried_values clock row) e
            _ none clock.process refl refl fine)

  resume-Fine :
      (reason : String) → FineDatabase key (database_after db (resume workflow_id reason clock db))
  unfolding resume
  resume-Fine reason =
      write-keeps (FineDatabase key) found (λ row. is_waiting row.status) creation_error
        (resumed_values clock) (log_decision workflow_id reason clock) workflow_id db fine
        (λ row e g.
          one-IsFine key workflow_id db.instances db.events (some row) (resumed_values clock row) e
            (state_transitioned waiting_for_human running reason none) none clock.process refl refl
            fine)

  attach_manifest-Fine :
      (manifest_id : String)
      → FineDatabase key (database_after db (attach_manifest workflow_id manifest_id db))
  unfolding attach_manifest
  attach_manifest-Fine manifest_id =
      write-keeps (FineDatabase key) found (λ row. true) creation_error
        (manifest_values manifest_id) (λ row at. at) workflow_id db fine
        (λ row e g.
          untold-IsFine key workflow_id db.instances db.events row (manifest_values manifest_id row)
            e refl refl fine)

  module _ (d v : String) (expected : Option String) where
    advance_workflow-Fine :
        (next_step : Option WorkflowStep) (outputs : Json)
        → FineDatabase key (
            database_after db
              (advance_workflow workflow_id d v expected next_step outputs clock db))
    unfolding advance_workflow
    advance_workflow-Fine none outputs =
        write-keeps (FineDatabase key) found (at_step d v expected)
          (describe_rejected_advance found d v expected) (completed_values clock)
          (log_completion workflow_id clock) workflow_id db fine
          (λ row e g.
            one-IsFine key workflow_id db.instances db.events (some row)
              (completed_values clock row) e workflow_completed none clock.process refl refl fine)
    advance_workflow-Fine (some step) outputs =
        let attempt = max_attempt workflow_id step.id db.steps + 1 in
        let ending = step_was_completed step.id step.type attempt outputs in
        write-keeps (FineDatabase key) found (at_step d v expected)
          (describe_rejected_advance found d v expected) (advanced_values step clock)
          (log_attempt workflow_id step attempt ending
            (step_row workflow_id step step_completed attempt (some outputs) none clock.process)
            clock)
          workflow_id db fine
          (λ row e g.
            attempt-IsFine key workflow_id db.instances db.events (some row)
              (advanced_values step clock row) e step attempt ending clock.process refl refl fine)

    record_failed_attempt-Fine :
        (step : WorkflowStep) (error : Json)
        → FineDatabase key
            (database_after db (record_failed_attempt workflow_id d v expected step error clock db))
    unfolding record_failed_attempt
    record_failed_attempt-Fine step error =
        let attempt = max_attempt workflow_id step.id db.steps + 1 in
        let ending = step_has_failed step.id step.type attempt error in
        write-keeps (FineDatabase key) found (at_step d v expected)
          (describe_rejected_advance found d v expected) attempted_values
          (log_attempt workflow_id step attempt ending
            (step_row workflow_id step step_failed attempt none (some error) clock.process) clock)
          workflow_id db fine
          (λ row e g.
            attempt-IsFine key workflow_id db.instances db.events (some row) (attempted_values row)
              e step attempt ending clock.process refl refl fine)

    reset_current_step-Fine :
        (retry_to : Option String) (reason : String)
        → FineDatabase key (
            database_after db
              (reset_current_step workflow_id d v expected retry_to reason clock db))
    unfolding reset_current_step
    reset_current_step-Fine retry_to reason =
        write-keeps (FineDatabase key) found (at_step d v expected)
          (describe_rejected_advance found d v expected) (reset_values retry_to clock)
          (log_reset workflow_id expected retry_to reason clock) workflow_id db fine
          (λ row e g.
            one-IsFine key workflow_id db.instances db.events (some row)
              (reset_values retry_to clock row) e (step_retry_scheduled expected retry_to reason)
              none clock.process refl refl fine)

    mark_waiting_for_human-Fine :
        (reason : String)
        → FineDatabase key
            (database_after db (mark_waiting_for_human workflow_id d v expected reason clock db))
    unfolding mark_waiting_for_human
    mark_waiting_for_human-Fine reason =
        write-keeps (FineDatabase key) found (at_step d v expected)
          (describe_rejected_advance found d v expected) (waiting_values clock)
          (log_waiting workflow_id reason clock) workflow_id db fine
          (λ row e g.
            one-IsFine key workflow_id db.instances db.events (some row) (waiting_values clock row)
              e (state_transitioned running waiting_for_human reason none) none clock.process refl
              refl fine)

perform-Fine :
    (key : String) (c : Command) (clock : Clock) (db : Database)
    → FineDatabase key db
    → FineDatabase key (database_after db (perform c clock db))
unfolding perform
perform-Fine key (creation w d v inputs principal permissions at) clock db fine =
    create-Fine key w clock db fine d v inputs principal permissions at
perform-Fine key (start w reason trigger) clock db fine =
    transition_to_running-Fine key w clock db fine reason trigger
perform-Fine key (advance w d v expected step outputs) clock db fine =
    advance_workflow-Fine key w clock db fine d v expected step outputs
perform-Fine key (reset w d v expected to reason) clock db fine =
    reset_current_step-Fine key w clock db fine d v expected to reason
perform-Fine key (wait_for_human w d v expected reason) clock db fine =
    mark_waiting_for_human-Fine key w clock db fine d v expected reason
perform-Fine key (failed_attempt w d v expected step error) clock db fine =
    record_failed_attempt-Fine key w clock db fine d v expected step error
perform-Fine key (cancellation w reason) clock db fine = cancel-Fine key w clock db fine reason
perform-Fine key (failure w reason) clock db fine = mark_failed-Fine key w clock db fine reason
perform-Fine key (retrial w reason) clock db fine = retry-Fine key w clock db fine reason
perform-Fine key (decision w reason) clock db fine = resume-Fine key w clock db fine reason
perform-Fine key (manifest w manifest_id) clock db fine =
    attach_manifest-Fine key w clock db fine manifest_id

history-Fine : (key : String) (h : List (Command × Clock)) → FineDatabase key (history h)
unfolding history seqs replayed countdown lookup
history-Fine key [] = record { numbered = refl; agrees = refl }
history-Fine key ((c, clock) ∷ earlier) =
    perform-Fine key c clock (history earlier) (history-Fine key earlier)

-- After any history of writes, at any clock readings, the events of a workflow are numbered from
-- `last_event_seq` down to 1 without a gap, and replaying them gives the status and the current
-- step that its row holds (no row, no events).
pub log-agrees :
    (h : List (Command × Clock)) (key : String)
    → let db = history h in
      (seqs key db.events ≡ countdown (last_seq (lookup key db.instances)))
      × (replayed key db.events ≡ position (lookup key db.instances))
log-agrees h key = let fine = history-Fine key h in (fine.numbered, fine.agrees)
