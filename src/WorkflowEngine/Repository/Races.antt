-- ===== src/WorkflowEngine/Repository/Races.antt =====
-- Two callers that read the same instance (repository.py): the guard of the second write.
use ai_os.Prelude.{
  ◌+◌, ◌≡◌, refl, Bool, true, false, not, Option, none, some, String, lookup, insert,
  lookup-insert_self, arith, ap, sym, subst, ◌∙◌,
}
use ai_os.WorkflowEngine.Definition.{Json, WorkflowStep}
use ai_os.WorkflowEngine.Instance.{WorkflowInstance, completed, step_completed, step_was_completed}
use ai_os.WorkflowEngine.Repository.{
  Database, Clock, Written, committed, rolled_back, Rejection, has_status, has_step, same_step,
  at_step, write, row_where, describe_rejected_advance,
}
use ai_os.WorkflowEngine.Repository.Steps.{
  advance_workflow, advanced_values, completed_values, log_attempt, log_completion, step_row,
  max_attempt,
}
use ai_os.WorkflowEngine.Repository.Log.{row_where-found}

-- What a committed write says: a row passed the guard, and its key holds the new row afterwards.
pub record IsCommitted (guard : WorkflowInstance → Bool)
    (values : WorkflowInstance → WorkflowInstance) (log : WorkflowInstance → Database → Database)
    (workflow_id : String) (db after : Database) : Type 0 where
  pub old : WorkflowInstance
  pub found : lookup workflow_id db.instances ≡ some old
  pub guarded : guard old ≡ true
  pub written :
      after
      ≡ log (values old) (record db { instances = insert workflow_id (values old) db.instances })

database_of : Database → Written → Database
database_of d (committed db row) = db
database_of d (rolled_back r) = d

committed-some :
    (o : Option WorkflowInstance) (guard : WorkflowInstance → Bool) (rejection : Rejection)
    (values : WorkflowInstance → WorkflowInstance) (log : WorkflowInstance → Database → Database)
    (workflow_id : String) (db after : Database) (row : WorkflowInstance)
    → row_where guard (lookup workflow_id db.instances) ≡ o
    → write o rejection values log workflow_id db ≡ committed after row
    → IsCommitted guard values log workflow_id db after
unfolding write database_of
committed-some none guard rejection values log workflow_id db after row f c = ground (arith, c)
committed-some (some r) guard rejection values log workflow_id db after row f c =
    let (found, guarded) = row_where-found guard (lookup workflow_id db.instances) r f in
    record { old = r; found = found; guarded = guarded; written = sym (ap (database_of db) c) }

pub write-IsCommitted :
    (guard : WorkflowInstance → Bool) (rejection : Rejection)
    (values : WorkflowInstance → WorkflowInstance) (log : WorkflowInstance → Database → Database)
    (workflow_id : String) (db after : Database) (row : WorkflowInstance)
    → write (row_where guard (lookup workflow_id db.instances)) rejection values log workflow_id db
      ≡ committed after row
    → IsCommitted guard values log workflow_id db after
write-IsCommitted guard rejection values log workflow_id db after row e =
    committed-some (row_where guard (lookup workflow_id db.instances)) guard rejection values log
      workflow_id db after row refl e

-- A row that the guard stops: the write is rolled back.
pub write-refused :
    (found : Option WorkflowInstance) (row : WorkflowInstance) (guard : WorkflowInstance → Bool)
    (rejection : Rejection) (values : WorkflowInstance → WorkflowInstance)
    (log : WorkflowInstance → Database → Database) (workflow_id : String) (db : Database)
    → found ≡ some row
    → guard row ≡ false
    → write (row_where guard found) rejection values log workflow_id db ≡ rolled_back rejection
unfolding write
write-refused found row guard rejection values log workflow_id db e g =
    subst
      (λ o. write (row_where guard o) rejection values log workflow_id db ≡ rolled_back rejection)
      (sym e) (rw g refl)

advance_workflow-refused :
    (w d v : String) (expected : Option String) (next_step : Option WorkflowStep) (outputs : Json)
    (clock : Clock) (db : Database) (row : WorkflowInstance)
    → lookup w db.instances ≡ some row
    → at_step d v expected row ≡ false
    → advance_workflow w d v expected next_step outputs clock db
      ≡ rolled_back (describe_rejected_advance (some row) d v expected)
unfolding advance_workflow
advance_workflow-refused w d v expected none outputs clock db row e g =
    write-refused (lookup w db.instances) row (at_step d v expected) _ (completed_values clock)
      (log_completion w clock) w db e g
    ∙ ap (λ o. rolled_back (describe_rejected_advance o d v expected)) e
advance_workflow-refused w d v expected (some step) outputs clock db row e g =
    let attempt = max_attempt w step.id db.steps + 1 in
    write-refused (lookup w db.instances) row (at_step d v expected) _ (advanced_values step clock)
      (log_attempt w step attempt (step_was_completed step.id step.type attempt outputs)
        (step_row w step step_completed attempt (some outputs) none clock.process) clock)
      w db e g
    ∙ ap (λ o. rolled_back (describe_rejected_advance o d v expected)) e

-- Whether an advance leaves the step that it started from.
abbrev pub moves_on : Option WorkflowStep → Option String → Bool
moves_on none expected = true
moves_on (some step) expected = not (same_step (some step.id) expected)

-- What the row of an advance says to a caller that is late.
abbrev pub says : Option WorkflowStep → Rejection
says none = has_status completed
says (some step) = has_step (some step.id)

says-describe :
    (next_step : Option WorkflowStep) (clock : Clock) (w d v : String) (expected : Option String)
    (outputs : Json) (db after : Database) (row : WorkflowInstance)
    → moves_on next_step expected ≡ true
    → advance_workflow w d v expected next_step outputs clock db ≡ committed after row
    → (late : WorkflowInstance) × (lookup w after.instances ≡ some late)
      × (at_step d v expected late ≡ false)
      × (describe_rejected_advance (some late) d v expected ≡ says next_step)
unfolding advance_workflow
says-describe none clock w d v expected outputs db after row on e =
    let c =
      write-IsCommitted (at_step d v expected) _ (completed_values clock) (log_completion w clock) w
        db after row e in
    (
      completed_values clock c.old,
      ap (λ x. lookup w x.instances) c.written
          ∙ lookup-insert_self w (completed_values clock c.old) db.instances,
      refl,
      refl,
    )
says-describe (some step) clock w d v expected outputs db after row on e =
    let attempt = max_attempt w step.id db.steps + 1 in
    let c =
      write-IsCommitted (at_step d v expected) _ (advanced_values step clock)
        (log_attempt w step attempt (step_was_completed step.id step.type attempt outputs)
          (step_row w step step_completed attempt (some outputs) none clock.process) clock)
        w db after row e in
    (
      advanced_values step clock c.old,
      ap (λ x. lookup w x.instances) c.written
          ∙ lookup-insert_self w (advanced_values step clock c.old) db.instances,
      ground (arith, on),
      ground (arith, on, c.guarded),
    )

-- Of two callers that read the same current step, the second to advance is refused, whatever it
-- would write: it is told the step that the first one reached, or that the workflow is completed.
-- The first must have left the step that both read.
pub second_advance_is_refused :
    (w d v : String) (expected : Option String) (next_step again : Option WorkflowStep)
    (outputs outputs' : Json) (clock clock' : Clock) (db after : Database) (row : WorkflowInstance)
    → moves_on next_step expected ≡ true
    → advance_workflow w d v expected next_step outputs clock db ≡ committed after row
    → advance_workflow w d v expected again outputs' clock' after ≡ rolled_back (says next_step)
second_advance_is_refused w d v expected next_step again outputs outputs' clock clock' db after row
      on e =
    let (late, found, stopped, told) =
      says-describe next_step clock w d v expected outputs db after row on e in
    advance_workflow-refused w d v expected again outputs' clock' after late found stopped
    ∙ ap rolled_back told
