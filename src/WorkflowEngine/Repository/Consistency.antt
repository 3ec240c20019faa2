-- ===== src/WorkflowEngine/Repository/Consistency.antt =====
-- Each write of repository.py keeps the step rows and the outbox consistent with the rest.
use ai_os.Prelude.{
  ℕ, ◌+◌, ◌≡◌, refl, true, Option, none, some, List, [], ◌∷◌, String, lookup, arith,
}
use ai_os.WorkflowEngine.Definition.{Json, WorkflowStep}
use ai_os.WorkflowEngine.Instance.{
  WorkflowInstance, created, step_was_completed, step_has_failed, workflow_completed,
  workflow_started, step_completed, step_failed, is_created, is_running, is_failed, is_waiting,
  is_cancellable,
}
use ai_os.WorkflowEngine.Repository.{
  Database, Clock, at_step, describe_rejected_transition, creation_error, describe_rejected_advance,
}
use ai_os.WorkflowEngine.Repository.Statuses.{
  create, insert_instance, new_row, transition_to_running, running_values, log_transition, cancel,
  cancelled_values, mark_failed, failed_values, log_failure, retry, retried_values, resume,
  resumed_values, log_decision, attach_manifest, manifest_values, status_of,
}
use ai_os.WorkflowEngine.Repository.Steps.{
  advance_workflow, advanced_values, completed_values, log_attempt, log_completion, step_row,
  max_attempt, reset_current_step, reset_values, log_reset, mark_waiting_for_human, waiting_values,
  log_waiting, record_failed_attempt, attempted_values,
}
use ai_os.WorkflowEngine.Repository.Commands.{
  Command, creation, start, advance, reset, wait_for_human, failed_attempt, cancellation, failure,
  retrial, decision, manifest, perform, database_after, history,
}
use ai_os.WorkflowEngine.Repository.Log.{countdown, write-keeps}
use ai_os.WorkflowEngine.Repository.Tables.{
  IsConsistent, attempts_of, completions, failures, failures_logged, completed_count, completing,
  quiet-IsConsistent, completion-IsConsistent, failure-IsConsistent, attempt-IsConsistent,
  decision-IsConsistent, untold-IsConsistent,
}

-- A row that a guard of the writes lets through is not completed.
running_count :
    (d v : String) (expected : Option String) (row : WorkflowInstance)
    → at_step d v expected row ≡ true
    → completing row.status ≡ 0
running_count d v expected row h = ground (arith, h)

module _ (key name workflow_id : String) (clock : Clock) (db : Database)
    (fine : IsConsistent key name db) where
  abbrev found : Option WorkflowInstance
  found = lookup workflow_id db.instances

  abbrev Keeps : Database → Type 0
  Keeps after = IsConsistent key name after

  insert_instance-Keeps :
      (o : Option WorkflowInstance) (d v : String) (inputs : Json) (principal : String)
      (permissions : Option (List String)) (at : Option ℕ)
      → found ≡ o
      → Keeps (
          database_after db (
            insert_instance o
              (new_row workflow_id d v inputs principal permissions at clock)
              workflow_id
              clock.process
              db))
  unfolding insert_instance
  insert_instance-Keeps (some clash) d v inputs principal permissions at e = fine
  insert_instance-Keeps none d v inputs principal permissions at e =
      quiet-IsConsistent key name workflow_id db none _ e fine 1 (workflow_started d v inputs) none
        clock.process refl refl

  transition_to_running-Keeps :
      (reason : String) (trigger : Option String)
      → Keeps (database_after db (transition_to_running workflow_id reason trigger clock db))
  unfolding transition_to_running
  transition_to_running-Keeps reason trigger =
      write-keeps Keeps found (λ row. is_created row.status) (describe_rejected_transition found)
        (running_values clock) (log_transition workflow_id created reason trigger clock) workflow_id
        db fine
        (λ row e g.
          quiet-IsConsistent key name workflow_id db (some row) (running_values clock row) e fine _
            _ none clock.process (ground (arith, g)) refl)

  cancel-Keeps : (reason : String) → Keeps (database_after db (cancel workflow_id reason clock db))
  unfolding cancel
  cancel-Keeps reason =
      write-keeps Keeps found (λ row. is_cancellable row.status)
        (describe_rejected_transition found) (cancelled_values clock)
        (log_transition workflow_id (status_of found) reason none clock) workflow_id db fine
        (λ row e g.
          quiet-IsConsistent key name workflow_id db (some row) (cancelled_values clock row) e fine
            _ _ none clock.process (ground (arith, g)) refl)

  mark_failed-Keeps :
      (reason : String) → Keeps (database_after db (mark_failed workflow_id reason clock db))
  unfolding mark_failed
  mark_failed-Keeps reason =
      write-keeps Keeps found (λ row. is_running row.status) (describe_rejected_transition found)
        (failed_values reason clock) (log_failure workflow_id reason (status_of found) clock)
        workflow_id db fine
        (λ row e g.
          failure-IsConsistent key name workflow_id db (some row) (failed_values reason clock row) e
            fine _ _ reason none clock.process (ground (arith, g)) refl)

  retry-Keeps : (reason : String) → Keeps (database_after db (retry workflow_id reason clock db))
  unfolding retry
  retry-Keeps reason =
      write-keeps Keeps found (λ row. is_failed row.status) (describe_rejected_transition found)
        (retried_values clock) (log_transition workflow_id (status_of found) reason none clock)
        workflow_id db fine
        (λ row e g.
          quiet-IsConsistent key name workflow_id db (some row) (retried_values clock row) e fine _
            _ none clock.process (ground (arith, g)) refl)

  resume-Keeps : (reason : String) → Keeps (database_after db (resume workflow_id reason clock db))
  unfolding resume
  resume-Keeps reason =
      write-keeps Keeps found (λ row. is_waiting row.status) creation_error (resumed_values clock)
        (log_decision workflow_id reason clock) workflow_id db fine
        (λ row e g.
          decision-IsConsistent key name workflow_id db (some row) (resumed_values clock row) e fine
            _ _ none clock.process (ground (arith, g)) refl)

  attach_manifest-Keeps :
      (manifest_id : String)
      → Keeps (database_after db (attach_manifest workflow_id manifest_id db))
  unfolding attach_manifest
  attach_manifest-Keeps manifest_id =
      write-keeps Keeps found (λ row. true) creation_error (manifest_values manifest_id)
        (λ row at. at) workflow_id db fine
        (λ row e g.
          untold-IsConsistent key name workflow_id db (some row) (manifest_values manifest_id row) e
            fine refl)

  module _ (d v : String) (expected : Option String) where
    advance_workflow-Keeps :
        (next_step : Option WorkflowStep) (outputs : Json)
        → Keeps (
            database_after db
              (advance_workflow workflow_id d v expected next_step outputs clock db))
    unfolding advance_workflow
    advance_workflow-Keeps none outputs =
        write-keeps Keeps found (at_step d v expected)
          (describe_rejected_advance found d v expected) (completed_values clock)
          (log_completion workflow_id clock) workflow_id db fine
          (λ row e g.
            completion-IsConsistent key name workflow_id db (some row) (completed_values clock row)
              e fine _ workflow_completed none clock.process
              (omega (arith, running_count d v expected row g)) refl)
    advance_workflow-Keeps (some step) outputs =
        let attempt = max_attempt workflow_id step.id db.steps + 1 in
        let ending = step_was_completed step.id step.type attempt outputs in
        write-keeps Keeps found (at_step d v expected)
          (describe_rejected_advance found d v expected) (advanced_values step clock)
          (log_attempt workflow_id step attempt ending
            (step_row workflow_id step step_completed attempt (some outputs) none clock.process)
            clock)
          workflow_id db fine
          (λ row e g.
            attempt-IsConsistent key name workflow_id db (some row) (advanced_values step clock row)
              e fine step step_completed (some outputs) none ending clock.process refl refl)

    record_failed_attempt-Keeps :
        (step : WorkflowStep) (error : Json)
        → Keeps
            (database_after db (record_failed_attempt workflow_id d v expected step error clock db))
    unfolding record_failed_attempt
    record_failed_attempt-Keeps step error =
        let attempt = max_attempt workflow_id step.id db.steps + 1 in
        let ending = step_has_failed step.id step.type attempt error in
        write-keeps Keeps found (at_step d v expected)
          (describe_rejected_advance found d v expected) attempted_values
          (log_attempt workflow_id step attempt ending
            (step_row workflow_id step step_failed attempt none (some error) clock.process) clock)
          workflow_id db fine
          (λ row e g.
            attempt-IsConsistent key name workflow_id db (some row) (attempted_values row) e fine
              step step_failed none (some error) ending clock.process refl refl)

    reset_current_step-Keeps :
        (retry_to : Option String) (reason : String)
        → Keeps (
            database_after db
              (reset_current_step workflow_id d v expected retry_to reason clock db))
    unfolding reset_current_step
    reset_current_step-Keeps retry_to reason =
        write-keeps Keeps found (at_step d v expected)
          (describe_rejected_advance found d v expected) (reset_values retry_to clock)
          (log_reset workflow_id expected retry_to reason clock) workflow_id db fine
          (λ row e g.
            quiet-IsConsistent key name workflow_id db (some row) (reset_values retry_to clock row)
              e fine _ _ none clock.process refl refl)

    mark_waiting_for_human-Keeps :
        (reason : String)
        → Keeps
            (database_after db (mark_waiting_for_human workflow_id d v expected reason clock db))
    unfolding mark_waiting_for_human
    mark_waiting_for_human-Keeps reason =
        write-keeps Keeps found (at_step d v expected)
          (describe_rejected_advance found d v expected) (waiting_values clock)
          (log_waiting workflow_id reason clock) workflow_id db fine
          (λ row e g.
            quiet-IsConsistent key name workflow_id db (some row) (waiting_values clock row) e fine
              _ _ none clock.process (ground (arith, running_count d v expected row g)) refl)

perform-IsConsistent :
    (key name : String) (c : Command) (clock : Clock) (db : Database)
    → IsConsistent key name db
    → IsConsistent key name (database_after db (perform c clock db))
unfolding perform create
perform-IsConsistent key name (creation w d v inputs principal permissions at) clock db fine =
    insert_instance-Keeps key name w clock db fine (lookup w db.instances) d v inputs principal
      permissions at refl
perform-IsConsistent key name (start w reason trigger) clock db fine =
    transition_to_running-Keeps key name w clock db fine reason trigger
perform-IsConsistent key name (advance w d v expected step outputs) clock db fine =
    advance_workflow-Keeps key name w clock db fine d v expected step outputs
perform-IsConsistent key name (reset w d v expected to reason) clock db fine =
    reset_current_step-Keeps key name w clock db fine d v expected to reason
perform-IsConsistent key name (wait_for_human w d v expected reason) clock db fine =
    mark_waiting_for_human-Keeps key name w clock db fine d v expected reason
perform-IsConsistent key name (failed_attempt w d v expected step error) clock db fine =
    record_failed_attempt-Keeps key name w clock db fine d v expected step error
perform-IsConsistent key name (cancellation w reason) clock db fine =
    cancel-Keeps key name w clock db fine reason
perform-IsConsistent key name (failure w reason) clock db fine =
    mark_failed-Keeps key name w clock db fine reason
perform-IsConsistent key name (retrial w reason) clock db fine =
    retry-Keeps key name w clock db fine reason
perform-IsConsistent key name (decision w reason) clock db fine =
    resume-Keeps key name w clock db fine reason
perform-IsConsistent key name (manifest w manifest_id) clock db fine =
    attach_manifest-Keeps key name w clock db fine manifest_id

history-IsConsistent :
    (key name : String) (h : List (Command × Clock)) → IsConsistent key name (history h)
unfolding history attempts_of max_attempt completions failures failures_logged countdown lookup
history-IsConsistent key name [] = record {
  numbered = refl;
  completed_once = refl;
  failures_told = refl;
}
history-IsConsistent key name ((c, clock) ∷ earlier) =
    perform-IsConsistent key name c clock (history earlier) (history-IsConsistent key name earlier)

-- After any history of writes, the attempts of a step of a workflow, completed and failed ones
-- alike, are numbered from the highest down to 1 without a gap or a repetition.
pub attempts_are_numbered :
    (h : List (Command × Clock)) (key name : String)
    → let db = history h in
      attempts_of key name db.steps ≡ countdown (max_attempt key name db.steps)
attempts_are_numbered h key name = (history-IsConsistent key name h).numbered

-- After any history of writes, the outbox has one `workflow.completed` row for a workflow that is
-- completed and none for any other, and as many `workflow.failed` rows for a workflow as its log
-- has moves to `failed`.
pub outbox_is_exact :
    (h : List (Command × Clock)) (key : String)
    → let db = history h in
      (completions key db.outbox ≡ completed_count (lookup key db.instances))
      × (failures key db.outbox ≡ failures_logged key db.events)
outbox_is_exact h key =
    let fine = history-IsConsistent key "" h in (fine.completed_once, fine.failures_told)
