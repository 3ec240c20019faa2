-- ===== src/WorkflowEngine/Repository/Examples.antt =====
-- A workflow of one step, which fails, is retried and completes.
use ai_os.Prelude.{ℕ, ◌≡◌, refl, none, some, List, [], ◌∷◌, ◌++◌, lookup, insert, arith}
use ai_os.WorkflowEngine.Definition.{null, WorkflowStep, agent}
use ai_os.WorkflowEngine.Instance.{WorkflowInstance, running, completed}
use ai_os.WorkflowEngine.Repository.{Clock, Written, committed, rolled_back, has_step, write}
use ai_os.WorkflowEngine.Repository.Statuses.{
  create, insert_instance, transition_to_running, mark_failed, retry,
}
use ai_os.WorkflowEngine.Repository.Steps.{
  advance_workflow, record_failed_attempt, max_attempt, step_failure_stats,
}
use ai_os.WorkflowEngine.Repository.Commands.{
  Command, creation, start, advance, failed_attempt, failure, retrial, cancellation, manifest,
  perform, database_after, history,
}
use ai_os.WorkflowEngine.Repository.Log.{seqs, countdown, last_seq, replayed, position}
use ai_os.WorkflowEngine.Repository.Agreement.{log-agrees}
use ai_os.WorkflowEngine.Repository.Machine.{
  Transition, status?, perform-Transition, over_for_good, without_manifest,
}
use ai_os.WorkflowEngine.Repository.Tables.{
  attempts_of, completions, failures, completed_count, failures_logged,
}
use ai_os.WorkflowEngine.Repository.Consistency.{attempts_are_numbered, outbox_is_exact}
use ai_os.WorkflowEngine.Repository.Races.{second_advance_is_refused}
use ai_os.WorkflowEngine.Repository.Retries.{retry_restarts_count}

abbrev plan : WorkflowStep
plan = record {
  id = "plan";
  type = agent;
  join_policy = none;
  agent_id = some "planner";
  tool_id = none;
  prompt_id = none;
  prompt_version = none;
  model_alias = none;
  condition = none;
  branches = none;
  sub_workflow_id = none;
  foreach_spec = none;
}

abbrev at : ℕ → Clock
at t = record { process = t; database = t }

abbrev started : List (Command × Clock)
started =
    (start "w1" "go" none, at 2) ∷ (creation "w1" "build" "1.0.0" null "ada" none none, at 1) ∷ []

abbrev has_failed : List (Command × Clock)
has_failed =
    (failure "w1" "exhausted", at 4)
    ∷ (failed_attempt "w1" "build" "1.0.0" none plan null, at 3)
    ∷ started

abbrev was_retried : List (Command × Clock)
was_retried = (retrial "w1" "again", at 5) ∷ has_failed

abbrev is_done : List (Command × Clock)
is_done =
    (advance "w1" "build" "1.0.0" (some "plan") none null, at 7)
    ∷ (advance "w1" "build" "1.0.0" none (some plan) null, at 6)
    ∷ was_retried

log-agrees_example :
    (seqs "w1" (history is_done).events
      ≡ countdown (last_seq (lookup "w1" (history is_done).instances)))
    × (replayed "w1" (history is_done).events ≡ position (lookup "w1" (history is_done).instances))
log-agrees_example = log-agrees is_done "w1"

perform-Transition_example : Transition (status? (lookup "w1" (history has_failed).instances)) (
    status? (
      lookup "w1"
        (database_after
          (history has_failed)
          (perform (retrial "w1" "again") (at 5) (history has_failed))).instances))
perform-Transition_example =
    perform-Transition (retrial "w1" "again") (at 5) (history has_failed) "w1"

attempts_are_numbered_example :
    attempts_of "w1" "plan" (history is_done).steps
    ≡ countdown (max_attempt "w1" "plan" (history is_done).steps)
attempts_are_numbered_example = attempts_are_numbered is_done "w1" "plan"

outbox_is_exact_example :
    (completions "w1" (history is_done).outbox
      ≡ completed_count (lookup "w1" (history is_done).instances))
    × (failures "w1" (history is_done).outbox ≡ failures_logged "w1" (history is_done).events)
outbox_is_exact_example = outbox_is_exact is_done "w1"

-- The row at the end.
abbrev final : WorkflowInstance
final = record {
  workflow_id = "w1";
  definition_id = "build";
  definition_version = "1.0.0";
  status = completed;
  current_step_id = some "plan";
  inputs = null;
  outputs = none;
  experiment_id = none;
  run_manifest_id = none;
  principal_id = "ada";
  principal_permissions = none;
  scheduled_at = none;
  retried_at = some 5;
  last_event_seq = 9;
  error = none;
  total_cost_usd = 0;
  total_tokens = 0;
  created_at = 1;
  updated_at = 7;
  completed_at = some 7;
}

over_for_good_example :
    (row : WorkflowInstance) × (lookup "w1"
        (history
          ((manifest "w1" "m1", at 9) ∷ (cancellation "w1" "late", at 8) ∷ [] ++ is_done)).instances
      ≡ some row)
    × (without_manifest row ≡ without_manifest final)
unfolding history perform create insert_instance transition_to_running mark_failed retry
    advance_workflow record_failed_attempt write lookup insert max_attempt
over_for_good_example =
    over_for_good ((manifest "w1" "m1", at 9) ∷ (cancellation "w1" "late", at 8) ∷ []) is_done "w1"
      final refl refl

abbrev row_after : Written → WorkflowInstance
row_after (committed db row) = row
row_after (rolled_back reason) = final

-- Another worker advances the step that the first has just completed.
second_advance_is_refused_example :
    let before = history was_retried in
    let after =
      database_after before
        (advance_workflow "w1" "build" "1.0.0" none (some plan) null (at 6) before) in
    advance_workflow "w1" "build" "1.0.0" none (some plan) null (at 8) after
    ≡ rolled_back (has_step (some "plan"))
unfolding history perform create insert_instance transition_to_running mark_failed retry
    advance_workflow record_failed_attempt write lookup insert max_attempt
second_advance_is_refused_example =
    let before = history was_retried in
    let first = advance_workflow "w1" "build" "1.0.0" none (some plan) null (at 6) before in
    second_advance_is_refused "w1" "build" "1.0.0" none (some plan) (some plan) null null (at 6)
      (at 8) before (database_after before first) (row_after first) refl refl

retry_restarts_count_example :
    let before = history has_failed in
    let after = database_after before (retry "w1" "again" (at 5) before) in
    (step_failure_stats "w1" "plan" after ≡ (0, none))
    × ((now : WorkflowInstance) × (lookup "w1" after.instances ≡ some now)
        × (now.status ≡ running)
        × (now.retried_at ≡ some 5))
unfolding history perform create insert_instance transition_to_running mark_failed retry
    record_failed_attempt write lookup insert max_attempt
retry_restarts_count_example =
    let before = history has_failed in
    let first = retry "w1" "again" (at 5) before in
    retry_restarts_count "w1" "again" "plan" (at 5) before (database_after before first)
      (row_after first) (omega arith, tt) refl
