-- ===== src/WorkflowEngine/Service/Commits.antt =====
-- What `advance` of service.py writes around the execution of a step, where nothing stops it.
use ai_os.Prelude.{
  ◌+◌, ◌≡◌, refl, Bool, true, Option, none, some, String, lookup, insert, lookup-insert_self, arith,
  ap, ◌∙◌, sym, subst, eq_iff, eq_refl, ◌∷◌,
}
use ai_os.WorkflowEngine.Definition.{Json, WorkflowStep, WorkflowDefinition}
use ai_os.WorkflowEngine.Instance.{
  WorkflowInstance, running, waiting_for_human, is_running, step_completed, step_was_completed,
  step_has_failed, step_failed,
}
use ai_os.WorkflowEngine.Repository.{
  Database, Clock, committed, Rejection, at_step, same_step, write, row_where,
}
use ai_os.WorkflowEngine.Repository.Steps.{
  advance_workflow, advanced_values, waiting_values, attempted_values, log_attempt, log_waiting,
  step_row, max_attempt, mark_waiting_for_human, record_failed_attempt,
}
use ai_os.WorkflowEngine.Service.{next, resolve_next_step}
use ai_os.WorkflowEngine.Service.Advance.{
  Executed, executed, approval_is_pending, raised_error, ServiceResult, wrote, step_raised, rows_of,
  finish_step, advance_to, advance_row, advance,
}

write-commits :
    (found : Option WorkflowInstance) (row : WorkflowInstance) (guard : WorkflowInstance → Bool)
    (rejection : Rejection) (values : WorkflowInstance → WorkflowInstance)
    (log : WorkflowInstance → Database → Database) (w : String) (db : Database)
    → found ≡ some row
    → guard row ≡ true
    → write (row_where guard found) rejection values log w db
      ≡ committed
          (log (values row) (record db { instances = insert w (values row) db.instances }))
          (values row)
unfolding write
write-commits found row guard rejection values log w db e g =
    subst
      (λ o.
        write (row_where guard o) rejection values log w db
        ≡ committed
            (log (values row) (record db { instances = insert w (values row) db.instances }))
            (values row))
      (sym e) (rw g refl)

pub at_own_step : (o : Option String) → same_step o o ≡ true
at_own_step none = refl
at_own_step (some step_id) = eq_refl step_id

-- A running instance of a definition passes the guard of a write about the step it stands at.
pub running-at_step :
    (definition_id version : String) (row : WorkflowInstance)
    → row.status ≡ running
    → row.definition_id ≡ definition_id
    → row.definition_version ≡ version
    → at_step definition_id version row.current_step_id row ≡ true
running-at_step definition_id version row is_running_row of_definition of_version = ground (
  arith,
  ap is_running is_running_row,
  (eq_iff row.definition_id definition_id).1 of_definition,
  (eq_iff row.definition_version version).1 of_version,
  at_own_step row.current_step_id,
)

-- What a call of `advance` comes to that executes a step, by how its executor ends: the row of the instance, the rows of the
-- steps, and whether an error is raised.
abbrev pub Advances :
    Executed → String → WorkflowStep → Clock → Database → WorkflowInstance → ServiceResult → Type 0
Advances (executed outputs) w step clock db row result =
    (after : Database) × (now : WorkflowInstance) × (result ≡ wrote (committed after now))
    × (now ≡ record row {
      current_step_id = some step.id;
      last_event_seq = row.last_event_seq + 2;
      updated_at = clock.database;
    })
    × (lookup w after.instances ≡ some now)
    × (after.steps
        ≡ record {
          workflow_id = w;
          step_name = step.id;
          step_type = step.type;
          status = step_completed;
          attempt = max_attempt w step.id db.steps + 1;
          agent_id = step.agent_id;
          tool_id = step.tool_id;
          prompt_id = step.prompt_id;
          prompt_version = step.prompt_version;
          model_alias = step.model_alias;
          outputs = some outputs;
          error = none;
          started_at = clock.process;
          completed_at = some clock.process;
        }
          ∷ db.steps)
Advances approval_is_pending w step clock db row result =
    (after : Database) × (now : WorkflowInstance) × (result ≡ wrote (committed after now))
    × (now ≡ record row {
      status = waiting_for_human;
      last_event_seq = row.last_event_seq + 1;
      updated_at = clock.database;
    })
    × (lookup w after.instances ≡ some now)
    × (after.steps ≡ db.steps)
Advances (raised_error detail) w step clock db row result =
    (after : Database) × (now : WorkflowInstance) × (result
      ≡ step_raised step.id detail (committed after now))
    × (now ≡ record row { last_event_seq = row.last_event_seq + 2 })
    × (lookup w after.instances ≡ some now)
    × (after.steps
        ≡ record {
          workflow_id = w;
          step_name = step.id;
          step_type = step.type;
          status = step_failed;
          attempt = max_attempt w step.id db.steps + 1;
          agent_id = step.agent_id;
          tool_id = step.tool_id;
          prompt_id = step.prompt_id;
          prompt_version = step.prompt_version;
          model_alias = step.model_alias;
          outputs = none;
          error = some detail;
          started_at = clock.process;
          completed_at = some clock.process;
        }
          ∷ db.steps)

module _ (w : String) (definition : WorkflowDefinition) (clock : Clock) (db : Database)
    (row : WorkflowInstance) (found : lookup w db.instances ≡ some row)
    (at : at_step definition.definition_id definition.version row.current_step_id row ≡ true) where
  finish_step-Advances :
      (e : Executed) (step : WorkflowStep)
      → Advances e w step clock db row
          (finish_step e w definition row.current_step_id step clock db)
  unfolding finish_step advance_workflow mark_waiting_for_human record_failed_attempt
  finish_step-Advances (executed outputs) step =
      let attempt = max_attempt w step.id db.steps + 1 in
      let log =
        log_attempt w step attempt (step_was_completed step.id step.type attempt outputs)
          (step_row w step step_completed attempt (some outputs) none clock.process) clock in
      (
        _,
        _,
        ap wrote (
            write-commits (lookup w db.instances) row
              (at_step definition.definition_id definition.version row.current_step_id) _
              (advanced_values step clock) log w db found at),
        refl,
        lookup-insert_self w (advanced_values step clock row) db.instances,
        refl,
      )
  finish_step-Advances approval_is_pending step = (
    _,
    _,
    ap wrote (
        write-commits (lookup w db.instances) row
          (at_step definition.definition_id definition.version row.current_step_id) _
          (waiting_values clock) (log_waiting w _ clock) w db found at),
    refl,
    lookup-insert_self w (waiting_values clock row) db.instances,
    refl,
  )
  finish_step-Advances (raised_error detail) step =
      let attempt = max_attempt w step.id db.steps + 1 in
      let log =
        log_attempt w step attempt (step_has_failed step.id step.type attempt detail)
          (step_row w step step_failed attempt none (some detail) clock.process) clock in
      (
        _,
        _,
        ap (step_raised step.id detail) (
            write-commits (lookup w db.instances) row
              (at_step definition.definition_id definition.version row.current_step_id) _
              attempted_values log w db found at),
        refl,
        lookup-insert_self w (attempted_values row) db.instances,
        refl,
      )

  pub advance-Advances :
      (executor : WorkflowStep → Executed) (empty : Json) (step : WorkflowStep)
      → resolve_next_step definition row.current_step_id (rows_of w db) ≡ next step
      → Advances
          (executor step)
          w
          step
          clock
          db
          row
          (advance executor w definition empty clock db db)
  unfolding advance advance_row advance_to
  advance-Advances executor empty step resolves =
      subst (λ (result : ServiceResult). Advances (executor step) w step clock db row result)
        (sym (
          ap (λ o. advance_row o executor w definition (rows_of w db) empty clock db) found
          ∙ ap (λ r. advance_to r executor w definition row.current_step_id empty clock db)
              resolves))
        (finish_step-Advances (executor step) step)
