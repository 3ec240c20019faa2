-- ===== src/WorkflowEngine/Repository/Commands.antt =====
-- The writes on the workflow tables as commands, and what a sequence of them makes of the database.
use ai_os.Prelude.{ℕ, Option, List, [], ◌∷◌, String}
use ai_os.WorkflowEngine.Definition.{Json, WorkflowStep}
use ai_os.WorkflowEngine.Repository.{Database, Clock, Written, committed, rolled_back}
use ai_os.WorkflowEngine.Repository.Statuses.{
  create, transition_to_running, cancel, mark_failed, resume, attach_manifest, retry,
}
use ai_os.WorkflowEngine.Repository.Steps.{
  advance_workflow, reset_current_step, mark_waiting_for_human, record_failed_attempt,
}

pub data Command : Type 0 where
  creation :
      (workflow_id definition_id version : String) (inputs : Json) (principal_id : String)
      (permissions : Option (List String)) (scheduled_at : Option ℕ)
      → Command
  start : (workflow_id reason : String) (trigger : Option String) → Command
  advance :
      (workflow_id definition_id version : String) (expected : Option String)
      (next_step : Option WorkflowStep) (outputs : Json)
      → Command
  reset :
      (workflow_id definition_id version : String) (expected retry_to : Option String)
      (reason : String)
      → Command
  wait_for_human :
      (workflow_id definition_id version : String) (expected : Option String) (reason : String)
      → Command
  failed_attempt :
      (workflow_id definition_id version : String) (expected : Option String) (step : WorkflowStep)
      (error : Json)
      → Command
  cancellation failure retrial decision : (workflow_id reason : String) → Command
  manifest : (workflow_id manifest_id : String) → Command

unfoldable pub perform : Command → Clock → Database → Written
perform (creation w d v inputs principal permissions at) clock db =
    create w d v inputs principal permissions at clock db
perform (start w reason trigger) clock db = transition_to_running w reason trigger clock db
perform (advance w d v expected step outputs) clock db =
    advance_workflow w d v expected step outputs clock db
perform (reset w d v expected to reason) clock db =
    reset_current_step w d v expected to reason clock db
perform (wait_for_human w d v expected reason) clock db =
    mark_waiting_for_human w d v expected reason clock db
perform (failed_attempt w d v expected step error) clock db =
    record_failed_attempt w d v expected step error clock db
perform (cancellation w reason) clock db = cancel w reason clock db
perform (failure w reason) clock db = mark_failed w reason clock db
perform (retrial w reason) clock db = retry w reason clock db
perform (decision w reason) clock db = resume w reason clock db
perform (manifest w manifest_id) clock db = attach_manifest w manifest_id db

-- The database after the transaction.
abbrev pub database_after : Database → Written → Database
database_after before (committed db row) = db
database_after before (rolled_back reason) = before

-- The database after a history of commands, the latest first, on empty tables.
unfoldable pub history : List (Command × Clock) → Database
history [] = record { instances = []; events = []; steps = []; outbox = [] }
history ((c, clock) ∷ earlier) =
    let before = history earlier in database_after before (perform c clock before)
