-- ===== src/WorkflowEngine/Service/Progress.antt =====
-- That `advance` and `retry_after_step_failure` of service.py make progress.
use ai_os.Prelude.{
  ◌≡◌, refl, true, false, Option, none, some, String, lookup, lookup-insert_self, arith, ap, ◌∙◌,
}
use ai_os.WorkflowEngine.Definition.{Json, WorkflowStep, WorkflowDefinition, steps_are_valid}
use ai_os.WorkflowEngine.Instance.{WorkflowInstance, running}
use ai_os.WorkflowEngine.Repository.{Database, Clock, Written, committed, at_step}
use ai_os.WorkflowEngine.Repository.Steps.{reset_current_step, reset_values, log_reset}
use ai_os.WorkflowEngine.Repository.Races.{write-IsCommitted}
use ai_os.WorkflowEngine.Service.{
  next, resolve_next_step, StepBefore, before, not_declared, step_before,
}
use ai_os.WorkflowEngine.Service.Commits.{Advances, at_own_step, advance-Advances, running-at_step}
use ai_os.WorkflowEngine.Service.Walk.{at_decision, reset_leads_to_step}
use ai_os.WorkflowEngine.Service.Advance.{
  Executed, ServiceResult, wrote, step_raised, unresolved, no_instance, rows_of, advance, reset_to,
  retry_row, retry_after_step_failure,
}

written_of : Written → ServiceResult → Written
written_of default (wrote w) = w
written_of default (step_raised id detail w) = default
written_of default (unresolved e) = default
written_of default no_instance = default

-- That the next call of `advance`, with nothing written in between, executes a step.
abbrev pub Resumes : String → WorkflowDefinition → (step_id : String) → Database → Type 0
Resumes w definition step_id db =
    (step : WorkflowStep) × (step.id ≡ step_id)
    × (row : WorkflowInstance) × (lookup w db.instances ≡ some row)
    × ((executor : WorkflowStep → Executed) (empty : Json) (clock : Clock)
        → Advances (executor step) w step clock db row
            (advance executor w definition empty clock db db))

-- What a reset that was committed leaves in the row.
reset_current_step-row :
    (w d v : String) (current previous : Option String) (reason : String) (clock : Clock)
    (db after : Database) (row : WorkflowInstance)
    → reset_current_step w d v current previous reason clock db ≡ committed after row
    → (now : WorkflowInstance) × (lookup w after.instances ≡ some now)
      × (now.current_step_id ≡ previous)
      × (at_step d v now.current_step_id now ≡ true)
unfolding reset_current_step
reset_current_step-row w d v current previous reason clock db after row e =
    let c =
      write-IsCommitted (at_step d v current) _ (reset_values previous clock)
        (log_reset w current previous reason clock) w db after row e in
    let now = reset_values previous clock c.old in
    (
      now,
      ap (λ x. lookup w x.instances) c.written ∙ lookup-insert_self w now db.instances,
      refl,
      ground (arith, c.guarded, at_own_step previous),
    )

retry_from :
    (b : StepBefore) (w : String) (definition : WorkflowDefinition) (current : Option String)
    (step_id reason : String) (clock : Clock) (db after : Database) (row : WorkflowInstance)
    → steps_are_valid definition.steps ≡ true
    → step_before definition step_id ≡ b
    → ((previous : Option String)
        → b ≡ before previous
        → at_decision previous definition.steps ≡ false)
    → reset_to b w definition current reason clock db ≡ wrote (committed after row)
    → Resumes w definition step_id after
unfolding reset_to written_of
retry_from not_declared w definition current step_id reason clock db after row valid found plain e =
    ground (arith, e)
retry_from (before previous) w definition current step_id reason clock db after row valid found
      plain e =
    let written = ap (written_of (committed after row)) e in
    let (now, at, same, passes) =
      reset_current_step-row w definition.definition_id definition.version current previous reason
        clock db after row written in
    let (step, resolves, id) =
      reset_leads_to_step definition step_id previous (rows_of w after) valid found
        (plain previous refl) in
    (
      step,
      id,
      now,
      at,
      λ executor empty later.
          advance-Advances w definition later after now at passes executor empty step
            (ap (λ p. resolve_next_step definition p (rows_of w after)) same ∙ resolves),
    )

retried :
    (o : Option WorkflowInstance) (w : String) (definition : WorkflowDefinition)
    (step_id reason : String) (clock : Clock) (db after : Database) (row : WorkflowInstance)
    → steps_are_valid definition.steps ≡ true
    → ((previous : Option String)
        → step_before definition step_id ≡ before previous
        → at_decision previous definition.steps ≡ false)
    → retry_row o w definition step_id reason clock db ≡ wrote (committed after row)
    → Resumes w definition step_id after
unfolding retry_row
retried none w definition step_id reason clock db after row valid plain e = ground (arith, e)
retried (some r) w definition step_id reason clock db after row valid plain e =
    retry_from (step_before definition step_id) w definition r.current_step_id step_id reason clock
      db after row valid refl plain e

-- In a definition that passes its validators, after a retry that was committed the next call of `advance`, with nothing
-- written in between, executes the step that is retried from, unless the step before it is a decision: whatever its executor,
-- the call advances the instance by this step.
pub retry_reexecutes_step :
    (w : String) (definition : WorkflowDefinition) (step_id reason : String) (clock : Clock)
    (seen db after : Database) (row : WorkflowInstance)
    → steps_are_valid definition.steps ≡ true
    → ((previous : Option String)
        → step_before definition step_id ≡ before previous
        → at_decision previous definition.steps ≡ false)
    → retry_after_step_failure w definition step_id reason clock seen db
      ≡ wrote (committed after row)
    → (step : WorkflowStep) × (step.id ≡ step_id)
      × (now : WorkflowInstance) × (lookup w after.instances ≡ some now)
      × ((executor : WorkflowStep → Executed) (empty : Json) (later : Clock)
          → Advances
              (executor step)
              w
              step
              later
              after
              now
              (advance executor w definition empty later after after))
unfolding retry_after_step_failure
retry_reexecutes_step w definition step_id reason clock seen db after row valid plain e =
    retried (lookup w seen.instances) w definition step_id reason clock db after row valid plain e

-- A call of `advance` on a running instance of its definition, with nothing written in between, is never refused: with a next
-- step, if its executor ends with outputs, the row of the instance moves on to the step and the rows of the steps get one
-- completed attempt of it with these outputs; if an approval is pending, the instance waits for a human and no attempt is
-- written; and if the executor raised an error, the instance keeps its status and place, the rows of the steps get one failed
-- attempt with the error, and the error is raised again. The attempt has the number after the highest one of the step.
pub advance_commits :
    (executor : WorkflowStep → Executed) (w : String) (definition : WorkflowDefinition)
    (empty : Json) (clock : Clock) (db : Database) (row : WorkflowInstance) (step : WorkflowStep)
    → lookup w db.instances ≡ some row
    → row.status ≡ running
    → row.definition_id ≡ definition.definition_id
    → row.definition_version ≡ definition.version
    → resolve_next_step definition row.current_step_id (rows_of w db) ≡ next step
    → Advances (executor step) w step clock db row (advance executor w definition empty clock db db)
advance_commits executor w definition empty clock db row step found status_is id_is version_is
      resolves =
    advance-Advances w definition clock db row found
      (running-at_step definition.definition_id definition.version row status_is id_is version_is)
      executor empty step resolves
