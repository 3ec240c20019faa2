-- ===== src/WorkflowEngine/Runner/Examples.antt =====
-- A step that fails and is retried.
use ai_os.Prelude.{
  ℕ, ◌+◌, ◌<◌, ◌≡◌, refl, true, false, none, some, [], ◌∷◌, String, arith, lookup, insert,
}
use ai_os.WorkflowEngine.Definition.{null, text, WorkflowStep, agent}
use ai_os.WorkflowEngine.Instance.{running, WorkflowInstance}
use ai_os.WorkflowEngine.Repository.{Clock, write}
use ai_os.WorkflowEngine.Repository.Statuses.{create, insert_instance, transition_to_running}
use ai_os.WorkflowEngine.Repository.Steps.{record_failed_attempt, reset_current_step, max_attempt}
use ai_os.WorkflowEngine.Repository.Commands.{creation, start, perform, history}
use ai_os.WorkflowEngine.Lease.{acquire, claim, release, delete}
use ai_os.WorkflowEngine.Service.{resolve_next_step, step_before, step_before_from}
use ai_os.WorkflowEngine.Service.Advance.{
  raised_error, advance, advance_row, advance_to, finish_step, retry_after_step_failure, retry_row,
  reset_to,
}
use ai_os.WorkflowEngine.Runner.{
  RetryPolicy, Retries, no_retries, World, Surroundings, Run, returned_of, retry_target,
  bounded_target, count_failure, is_within_bounds,
}
use ai_os.WorkflowEngine.Runner.Loop.{
  run_once, after_acquire, advance_once, release_lease, after_once, after_error, run_loop,
  run_to_completion, propagated, iterate,
}
use ai_os.WorkflowEngine.Runner.Outcome.{HonestEnd, run_to_completion-HonestEnd}
use ai_os.WorkflowEngine.Runner.Bounds.{
  Reaches, begins, goes_on, times_retried, retries_are_bounded,
}

abbrev plan : WorkflowStep
plan = record {
  id = "plan";
  type = agent;
  join_policy = none;
  agent_id = some "planner";
  tool_id = none;
  prompt_id = none;
  prompt_version = none;
  model_alias = none;
  condition = none;
  branches = none;
  sub_workflow_id = none;
  foreach_spec = none;
}

abbrev at : ℕ → Clock
at t = record { process = t; database = t }

-- Every attempt fails, with an error that can be retried, and no other worker writes.
abbrev failing : Surroundings
failing = record {
  executor = λ i step. raised_error (text "timeout");
  clock = λ i. at (10 + i);
  monotonic = λ i. i;
  is_retriable = λ i. true;
  is_skipped = λ i. false;
  lease_id = λ i. "l1";
  reason = λ i. "timeout";
  before_acquire = λ i world. world;
  before_write = λ i world. world;
  before_release = λ i world. world;
  before_retry = λ i world. world;
  before_reset = λ i world. world;
  before_look = λ i world. world;
}

abbrev policy : RetryPolicy
policy = record { max_attempts = 3; max_duration_seconds = 60 }

-- A run that retries `plan` from a step.
abbrev retrying : String → Run
retrying target = record {
  workflow_id = "w1";
  definition = record { definition_id = "build"; version = "1.0.0"; steps = plan ∷ [] };
  retry_policy = some policy;
  worker_id = "ada";
  lease_duration_seconds = 30;
  max_iterations = 5;
  step_retry_targets = ("plan", target) ∷ [];
  empty = null;
}

abbrev begun : World
begun = record {
  database = history (
      (start "w1" "go" none, at 2)
      ∷ (creation "w1" "build" "1.0.0" null "ada" none none, at 1)
      ∷ []);
  leases = [];
}

run_to_completion-HonestEnd_example :
    HonestEnd failing (retrying "plan") begun (run_to_completion failing (retrying "plan") begun).0
run_to_completion-HonestEnd_example = run_to_completion-HonestEnd failing (retrying "plan") begun

-- The state after the first retry.
abbrev after_retry : World
after_retry = (iterate failing (retrying "plan") 1 none no_retries begun).1

abbrev once_failed : Retries
once_failed = record { failure_counts = ("plan", 1) ∷ []; retry_deadlines = ("plan", 61) ∷ [] }

abbrev row : WorkflowInstance
row = record {
  workflow_id = "w1";
  definition_id = "build";
  definition_version = "1.0.0";
  status = running;
  current_step_id = none;
  inputs = null;
  outputs = none;
  experiment_id = none;
  run_manifest_id = none;
  principal_id = "ada";
  principal_permissions = none;
  scheduled_at = none;
  retried_at = none;
  last_event_seq = 5;
  error = none;
  total_cost_usd = 0;
  total_tokens = 0;
  created_at = 1;
  updated_at = 11;
  completed_at = none;
}

retried_once :
    Reaches failing (retrying "plan") begun 2 ("plan" ∷ []) (some row) once_failed after_retry
unfolding iterate run_once after_once after_error after_acquire advance_once release_lease
    returned_of retry_target bounded_target count_failure is_within_bounds acquire claim release
    delete advance advance_row advance_to finish_step retry_after_step_failure retry_row reset_to
    resolve_next_step step_before step_before_from history perform create insert_instance
    transition_to_running record_failed_attempt reset_current_step max_attempt write lookup insert
retried_once = goes_on 1 [] none no_retries once_failed begun after_retry row begins refl

retries_are_bounded_example : times_retried "plan" ("plan" ∷ []) < 3
retries_are_bounded_example =
    retries_are_bounded failing (retrying "plan") begun policy "plan" 2 ("plan" ∷ []) (some row)
      once_failed after_retry refl (omega arith) retried_once

-- The error of a reset to a step that is not declared leaves `run_to_completion`.
undeclared_target : (run_to_completion failing (retrying "missing") begun).0 ≡ propagated
unfolding run_to_completion run_loop iterate run_once after_once after_error after_acquire
    advance_once release_lease returned_of retry_target bounded_target count_failure
    is_within_bounds acquire claim release delete advance advance_row advance_to finish_step
    retry_after_step_failure retry_row reset_to resolve_next_step step_before step_before_from
    history perform create insert_instance transition_to_running record_failed_attempt
    reset_current_step max_attempt write lookup insert
undeclared_target = refl
