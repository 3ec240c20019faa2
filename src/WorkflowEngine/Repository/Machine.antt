-- ===== src/WorkflowEngine/Repository/Machine.antt =====
-- The state machine of an instance's status, and what ends it (repository.py).
use ai_os.Prelude.{
  ◌≡◌, Bool, true, false, Option, none, some, List, [], ◌∷◌, ◌++◌, String, lookup, arith, sym, ap,
  ◌∙◌, refl, subst,
}
use ai_os.WorkflowEngine.Instance.{
  Status, created, running, waiting_for_human, completed, failed, cancelled, WorkflowInstance,
  is_created, is_running, is_failed, is_waiting, is_cancellable,
}
use ai_os.WorkflowEngine.Repository.{Database, Clock, at_step}
use ai_os.WorkflowEngine.Repository.Statuses.{
  running_values, cancelled_values, failed_values, retried_values, resumed_values, manifest_values,
}
use ai_os.WorkflowEngine.Repository.Commands.{Command, perform, database_after, history}
use ai_os.WorkflowEngine.Repository.Rows.{AllowsWrites, perform-Follows}

-- The moves between statuses.
pub data Moves : Status → Status → Type 0 where
  starts : Moves created running
  waits : Moves running waiting_for_human
  completes : Moves running completed
  fails : Moves running failed
  is_retried : Moves failed running
  is_resumed : Moves waiting_for_human running
  is_cancelled : (s : Status) → is_cancellable s ≡ true → Moves s cancelled

-- What one write does to the status of a workflow.
pub data Transition : Option Status → Option Status → Type 0 where
  stays : (o : Option Status) → Transition o o
  appears : Transition none (some created)
  moves : (s t : Status) → Moves s t → Transition (some s) (some t)

abbrev pub status? : Option WorkflowInstance → Option Status
status? none = none
status? (some row) = some row.status

is_created-created : (s : Status) → is_created s ≡ true → s ≡ created
is_created-created s h = ground arith

is_running-running : (s : Status) → is_running s ≡ true → s ≡ running
is_running-running s h = ground arith

is_failed-failed : (s : Status) → is_failed s ≡ true → s ≡ failed
is_failed-failed s h = ground arith

is_waiting-waiting_for_human : (s : Status) → is_waiting s ≡ true → s ≡ waiting_for_human
is_waiting-waiting_for_human s h = ground (arith, h)

at_step-is_running :
    (d v : String) (expected : Option String) (row : WorkflowInstance)
    → at_step d v expected row ≡ true
    → is_running row.status ≡ true
at_step-is_running d v expected row h = ground (arith, h)

from_running : (s t : Status) → Moves running t → is_running s ≡ true → Transition (some s) (some t)
from_running s t m h =
    subst (λ x. Transition (some x) (some t)) (sym (is_running-running s h)) (moves running t m)

statuses-AllowsWrites : AllowsWrites (λ before after. Transition (status? before) (status? after))
statuses-AllowsWrites = record {
  stays = λ o. stays (status? o);
  creates = λ w d v inputs principal permissions at clock. appears;
  starts = λ clock row h.
      subst (λ s. Transition (some s) (some running)) (sym (is_created-created row.status h))
        (moves created running starts);
  cancels = λ clock row h. moves row.status cancelled (is_cancelled row.status h);
  fails = λ reason clock row h. from_running row.status failed fails h;
  retries = λ clock row h.
      subst (λ s. Transition (some s) (some running)) (sym (is_failed-failed row.status h))
        (moves failed running is_retried);
  resumes = λ clock row h.
      subst (λ s. Transition (some s) (some running))
        (sym (is_waiting-waiting_for_human row.status h))
        (moves waiting_for_human running is_resumed);
  attaches = λ manifest_id row. stays (some row.status);
  completes = λ clock d v expected row h.
      from_running row.status completed completes (at_step-is_running d v expected row h);
  advances = λ step clock d v expected row h. stays (some row.status);
  resets = λ retry_to clock d v expected row h. stays (some row.status);
  waits = λ clock d v expected row h.
      from_running row.status waiting_for_human waits (at_step-is_running d v expected row h);
  attempts = λ d v expected row h. stays (some row.status);
}

-- A write leaves the status of every workflow as it is, or gives a workflow that had no row the
-- status `created`, or moves it along one of: created to running, running to waiting_for_human, completed
-- or failed, failed or waiting_for_human to running, and created, running or waiting_for_human to cancelled.
pub perform-Transition :
    (c : Command) (clock : Clock) (db : Database) (key : String)
    → let after = database_after db (perform c clock db) in
      Transition (status? (lookup key db.instances)) (status? (lookup key after.instances))
perform-Transition c clock db key =
    perform-Follows (λ before after. Transition (status? before) (status? after))
      statuses-AllowsWrites key c clock db

-- `completed` or `cancelled`.
abbrev pub is_over : Status → Bool
is_over completed = true
is_over cancelled = true
is_over _ = false

abbrev pub without_manifest : WorkflowInstance → WorkflowInstance
without_manifest row = record row { run_manifest_id = none }

row_or : WorkflowInstance → Option WorkflowInstance → WorkflowInstance
row_or default none = default
row_or default (some row) = row

-- A row whose status is over is not written again, but for its run manifest.
abbrev Keeps : Option WorkflowInstance → Option WorkflowInstance → Type 0
Keeps before after =
    (row : WorkflowInstance)
    → before ≡ some row
    → is_over row.status ≡ true
    → (row' : WorkflowInstance) × (after ≡ some row')
      × (without_manifest row' ≡ without_manifest row)

open-Keeps :
    (row row' : WorkflowInstance) → is_over row.status ≡ false → Keeps (some row) (some row')
open-Keeps row row' h r e over = ground (arith, h, over, e)

rows-AllowsWrites : AllowsWrites Keeps
unfolding row_or
rows-AllowsWrites = record {
  stays = λ o row e over. (row, e, refl);
  creates = λ w d v inputs principal permissions at clock row e over. ground (arith, e);
  starts = λ clock row h. open-Keeps row (running_values clock row) (ground (arith, h));
  cancels = λ clock row h. open-Keeps row (cancelled_values clock row) (ground (arith, h));
  fails = λ reason clock row h. open-Keeps row (failed_values reason clock row) (ground (arith, h));
  retries = λ clock row h. open-Keeps row (retried_values clock row) (ground (arith, h));
  resumes = λ clock row h. open-Keeps row (resumed_values clock row) (ground (arith, h));
  attaches = λ manifest_id row r e over.
      let same : row ≡ r = ap (row_or row) e in
      (manifest_values manifest_id row, refl, ap without_manifest same);
  completes = λ clock d v expected row h. open-Keeps row _ (ground (arith, h));
  advances = λ step clock d v expected row h. open-Keeps row _ (ground (arith, h));
  resets = λ retry_to clock d v expected row h. open-Keeps row _ (ground (arith, h));
  waits = λ clock d v expected row h. open-Keeps row _ (ground (arith, h));
  attempts = λ d v expected row h. open-Keeps row _ (ground (arith, h));
}

-- Once a workflow is completed or cancelled, its row stays as it is, but for the run manifest it
-- names, whatever writes follow.
pub over_for_good :
    (later earlier : List (Command × Clock)) (key : String) (row : WorkflowInstance)
    → lookup key (history earlier).instances ≡ some row
    → is_over row.status ≡ true
    → (row' : WorkflowInstance) × (lookup key (history (later ++ earlier)).instances ≡ some row')
      × (without_manifest row' ≡ without_manifest row)
unfolding history
over_for_good [] earlier key row e over = (row, e, refl)
over_for_good ((c, clock) ∷ later) earlier key row e over =
    let (now, found, same) = over_for_good later earlier key row e over in
    let still : is_over now.status ≡ true =
      subst (λ s. is_over s ≡ true) (sym (ap (λ (r : WorkflowInstance). r.status) same)) over in
    let (next, found', same') =
      perform-Follows Keeps rows-AllowsWrites key c clock (history (later ++ earlier)) now found
        still in
    (next, found', same' ∙ same)
