-- ===== src/WorkflowEngine/Service/Examples.antt =====
-- A build that is checked, and repeated or released.
use ai_os.Prelude.{
  ℕ, ◌≡◌, refl, ap, subst, true, false, none, some, List, [], ◌∷◌, String, Option, lookup, insert,
  contains,
}
use ai_os.WorkflowEngine.Definition.{
  Json, text, null, object, member, no_members, WorkflowStep, WorkflowDefinition, StepType, agent,
  decision, DecisionCondition, steps_are_valid, ids_are_unique, all_references_are_real, index_from,
}
use ai_os.WorkflowEngine.Instance.{WorkflowInstance, WorkflowStepRecord, running, step_completed}
use ai_os.WorkflowEngine.Service.{
  next, resolve_next_step, step_before, step_before_from, execute_decision, decision_output,
  latest_completed_output, latest_completed, branch_of, get_member, json_eq,
}
use ai_os.WorkflowEngine.Repository.{Database, Clock, Written, committed, rolled_back, write}
use ai_os.WorkflowEngine.Repository.Statuses.{create, insert_instance, transition_to_running}
use ai_os.WorkflowEngine.Repository.Steps.{advance_workflow, reset_current_step, max_attempt}
use ai_os.WorkflowEngine.Repository.Commands.{
  creation, start, advance, perform, history, database_after,
}
use ai_os.WorkflowEngine.Service.Walk.{at_decision, previous_of, reset_leads_to_step}
use ai_os.WorkflowEngine.Service.Commits.{Advances}
use ai_os.WorkflowEngine.Service.Progress.{retry_reexecutes_step, advance_commits}
use ai_os.WorkflowEngine.Service.Advance.{
  Executed, executed, retry_after_step_failure, retry_row, reset_to,
}
use ai_os.WorkflowEngine.Service.Advance.{advance as service_advance}
use ai_os.WorkflowEngine.Service.Branches.{decision_leads_to_branch}

abbrev step :
    String → StepType → Option DecisionCondition → Option (List (String × String)) → WorkflowStep
step id type condition branches = record {
  id = id;
  type = type;
  join_policy = none;
  agent_id = none;
  tool_id = none;
  prompt_id = none;
  prompt_version = none;
  model_alias = none;
  condition = condition;
  branches = branches;
  sub_workflow_id = none;
  foreach_spec = none;
}

abbrev check : WorkflowStep
check =
    step "check" decision
      (some (record { source_step_id = "build"; field = "result"; equals = text "ok" }))
      (some (("true", "release") ∷ ("false", "build") ∷ []))

abbrev definition : WorkflowDefinition
definition = record {
  definition_id = "build";
  version = "1.0.0";
  steps =
      step "plan" agent none none
      ∷ step "build" agent none none
      ∷ check
      ∷ step "release" agent none none
      ∷ [];
}

abbrev done : String → Json → WorkflowStepRecord
done name outputs = record {
  workflow_id = "w1";
  step_name = name;
  step_type = agent;
  status = step_completed;
  attempt = 1;
  agent_id = none;
  tool_id = none;
  prompt_id = none;
  prompt_version = none;
  model_alias = none;
  outputs = some outputs;
  error = none;
  started_at = 1;
  completed_at = some 1;
}

reset_leads_to_step_example :
    (s : WorkflowStep) × (resolve_next_step definition (some "plan") [] ≡ next s) × (s.id ≡ "build")
unfolding steps_are_valid ids_are_unique all_references_are_real index_from step_before
    step_before_from lookup insert contains
reset_leads_to_step_example = reset_leads_to_step definition "build" (some "plan") [] refl refl refl

abbrev built : List WorkflowStepRecord
built = done "build" (object (member "result" (text "ok") no_members)) ∷ []

abbrev output : Json
output = decision_output true "release"

decision_leads_to_branch_example :
    (target : WorkflowStep) × (resolve_next_step definition
        (some "check")
        (done "check" output ∷ built)
      ≡ next target)
    × (branch_of (some output) ≡ some (text target.id))
unfolding steps_are_valid ids_are_unique all_references_are_real index_from execute_decision
    latest_completed_output latest_completed get_member json_eq lookup insert contains
decision_leads_to_branch_example =
    decision_leads_to_branch definition 2 check built (done "check" output ∷ built) output refl refl
      refl refl

abbrev at : ℕ → Clock
at t = record { process = t; database = t }

abbrev plan : WorkflowStep
plan = step "plan" agent none none

-- A build that runs, before its first step and after it.
abbrev begun : Database
begun =
    history (
      (start "w1" "go" none, at 2)
      ∷ (creation "w1" "build" "1.0.0" null "ada" none none, at 1)
      ∷ [])

abbrev planned : Database
planned = history (
    (advance "w1" "build" "1.0.0" none (some plan) null, at 3)
    ∷ (start "w1" "go" none, at 2)
    ∷ (creation "w1" "build" "1.0.0" null "ada" none none, at 1)
    ∷ [])

abbrev row : WorkflowInstance
row = record {
  workflow_id = "w1";
  definition_id = "build";
  definition_version = "1.0.0";
  status = running;
  current_step_id = none;
  inputs = null;
  outputs = none;
  experiment_id = none;
  run_manifest_id = none;
  principal_id = "ada";
  principal_permissions = none;
  scheduled_at = none;
  retried_at = none;
  last_event_seq = 2;
  error = none;
  total_cost_usd = 0;
  total_tokens = 0;
  created_at = 1;
  updated_at = 2;
  completed_at = none;
}

advance_commits_example :
    Advances
      (executed null)
      "w1"
      plan
      (at 3)
      begun
      row
      (service_advance (λ s. executed null) "w1" definition null (at 3) begun begun)
unfolding history perform create insert_instance transition_to_running write lookup insert
    resolve_next_step
advance_commits_example =
    advance_commits (λ s. executed null) "w1" definition null (at 3) begun row plan refl refl refl
      refl refl

abbrev row_after : Written → WorkflowInstance
row_after (committed db r) = r
row_after (rolled_back reason) = row

retry_reexecutes_step_example :
    let at_build =
      reset_current_step "w1" "build" "1.0.0" (some "plan") (some "plan") "again" (at 4) planned in
    let after = database_after planned at_build in
    (s : WorkflowStep) × (s.id ≡ "build")
    × (now : WorkflowInstance) × (lookup "w1" after.instances ≡ some now)
    × ((executor : WorkflowStep → Executed) (empty : Json) (later : Clock)
        → Advances
            (executor s)
            "w1"
            s
            later
            after
            now
            (service_advance executor "w1" definition empty later after after))
unfolding history perform create insert_instance transition_to_running write lookup insert
    max_attempt advance_workflow reset_current_step retry_after_step_failure retry_row reset_to
    step_before step_before_from steps_are_valid ids_are_unique all_references_are_real index_from
    contains
retry_reexecutes_step_example =
    let at_build =
      reset_current_step "w1" "build" "1.0.0" (some "plan") (some "plan") "again" (at 4) planned in
    retry_reexecutes_step "w1" definition "build" "again" (at 4) planned planned
      (database_after planned at_build) (row_after at_build) refl
      (λ previous e. subst (λ p. at_decision p definition.steps ≡ false) (ap previous_of e) refl)
      refl
