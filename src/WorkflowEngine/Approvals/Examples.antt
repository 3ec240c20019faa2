-- ===== src/WorkflowEngine/Approvals/Examples.antt =====
-- An approval that is requested, decided by an approver of its class, and passed.
use ai_os.Prelude.{
  ℕ, ◌≡◌, ◌+◌, refl, true, Option, none, some, List, [], ◌∷◌, String, lookup, insert, contains,
}
use ai_os.PromptEngine.{is_space}
use ai_os.WorkflowEngine.Definition.{null, WorkflowStep, human_approval}
use ai_os.WorkflowEngine.Instance.{
  state_transitioned, WorkflowInstance, Status, running, waiting_for_human, is_waiting,
}
use ai_os.WorkflowEngine.Repository.{Database, Clock, write}
use ai_os.WorkflowEngine.Repository.Statuses.{resume}
use ai_os.SecurityManager.{
  Principal, user, is_authorized_to_decide_approval, resolve_effective_roles,
}
use ai_os.WorkflowEngine.Approvals.{
  approve, reject, approved, rejected, Approval, Approvals, rows_of_step, create_pending,
  is_pending, decide_and_resume, decide_row, decide,
}
use ai_os.WorkflowEngine.Approvals.Service.{
  decide_as, decide_approval, point_of, execution_of, Surroundings, approve_step, execute_approval,
}
use ai_os.WorkflowEngine.Approvals.Calls.{
  Call, decides, executes, writes, perform, history, HasDecided,
}
use ai_os.WorkflowEngine.Approvals.Decided.{decision_resumes}
use ai_os.WorkflowEngine.Approvals.Permanence.{decided_stays}
use ai_os.WorkflowEngine.Approvals.Authority.{pass_needs_authority}

abbrev gate : WorkflowStep
gate = record {
  id = "release";
  type = human_approval;
  join_policy = none;
  agent_id = none;
  tool_id = none;
  prompt_id = none;
  prompt_version = none;
  model_alias = none;
  condition = none;
  branches = none;
  sub_workflow_id = none;
  foreach_spec = none;
}

abbrev workflow : Status → WorkflowInstance
workflow status = record {
  workflow_id = "w1";
  definition_id = "build";
  definition_version = "1.0.0";
  status = status;
  current_step_id = none;
  inputs = null;
  outputs = none;
  experiment_id = none;
  run_manifest_id = none;
  principal_id = "ada";
  principal_permissions = none;
  scheduled_at = none;
  retried_at = none;
  last_event_seq = 3;
  error = none;
  total_cost_usd = 0;
  total_tokens = 0;
  created_at = 1;
  updated_at = 1;
  completed_at = none;
}

abbrev with_status : Status → Database
with_status status = record {
  instances = ("w1", workflow status) ∷ [];
  events = [];
  steps = [];
  outbox = [];
}

abbrev surroundings : Surroundings
surroundings = record {
  approval_points = λ definition_id version. some (
      record {
        id = "release";
        name = "Release";
        description = "Ship it?";
        context = null;
        options = [];
        timeout = some 60;
      }
      ∷ []);
  digest = λ point. point.name;
  approval_id = "a1";
  now = 2;
}

-- An approver of the class by a grant, who is nothing else.
abbrev approver : Principal
approver = record { principal_id = "grace"; principal_type = user; roles = [] }

abbrev granted : Option (List String)
granted = some ("approver:release" ∷ [])

abbrev at : ℕ → Clock
at t = record { process = t; database = t }

abbrev requested : List Call
requested = writes (with_status waiting_for_human) ∷ executes surroundings gate "w1" ∷ []

-- The decision reads the approval before the workflow waits.
abbrev is_decided : List Call
is_decided = decides "a1" approver granted approve none (at 5) 1 ∷ requested

abbrev before : Approvals
before = (history (with_status running) requested).tables

abbrev row : Approval
row = record {
  workflow_id = "w1";
  step_id = "release";
  approval_class = "release";
  title = "Release";
  description = "Ship it?";
  context_digest = "Release";
  options = [];
  status = approved;
  decided_by = some "grace";
  decision_comment = none;
  requested_at = 2;
  expires_at = some 62;
  decided_at = some 5;
}

pass_needs_authority_example :
    (approval_id : String) × HasDecided approval_id row is_decided
    × (row.status ≡ approved)
    × (row.workflow_id ≡ "w1")
    × (row.step_id ≡ "release")
unfolding history perform lookup insert execute_approval point_of approve_step rows_of_step
    create_pending execution_of decide_approval decide_as decide decide_row decide_and_resume resume
    write is_authorized_to_decide_approval contains resolve_effective_roles is_space
pass_needs_authority_example =
    pass_needs_authority (with_status running) is_decided surroundings gate "w1" row refl

decided_stays_example :
    lookup "a1"
      (history (with_status running) (
        decides "a1" approver granted reject none (at 9) 1
        ∷ executes surroundings gate "w1"
        ∷ is_decided)).tables.approvals
    ≡ some row
unfolding history perform lookup insert execute_approval point_of approve_step rows_of_step
    create_pending execution_of decide_approval decide_as decide decide_row decide_and_resume resume
    write is_authorized_to_decide_approval contains resolve_effective_roles is_space
decided_stays_example =
    decided_stays (with_status running)
      (decides "a1" approver granted reject none (at 9) 1 ∷ executes surroundings gate "w1" ∷ [])
      is_decided "a1" row refl refl

abbrev after : Approvals
after = (history (with_status running) is_decided).tables

decision_resumes_example :
    (read old : Approval) × (instance : WorkflowInstance) × (reason : String) × (lookup "a1"
        before.approvals
      ≡ some read)
    × (is_authorized_to_decide_approval
          (resolve_effective_roles approver granted)
          read.approval_class
        ≡ true)
    × (lookup "a1" before.approvals ≡ some old)
    × (is_pending old.status ≡ true)
    × (row ≡ record old {
      status = elim approve [ approve ↦ approved | reject ↦ rejected ];
      decided_by = some "grace";
      decision_comment = none;
      decided_at = some 5;
    })
    × (after.approvals ≡ insert "a1" row before.approvals)
    × (lookup old.workflow_id before.database.instances ≡ some instance)
    × (is_waiting instance.status ≡ true)
    × (lookup old.workflow_id after.database.instances
        ≡ some (record instance {
          status = running;
          last_event_seq = instance.last_event_seq + 1;
          updated_at = 5;
        }))
    × (after.database.events
        ≡ record {
          workflow_id = old.workflow_id;
          seq = instance.last_event_seq + 1;
          body = state_transitioned waiting_for_human running reason none;
          step_id = none;
          occurred_at = 5;
        }
          ∷ before.database.events)
unfolding history perform lookup insert execute_approval point_of approve_step rows_of_step
    create_pending execution_of decide_approval decide_as decide decide_row decide_and_resume resume
    write is_authorized_to_decide_approval contains resolve_effective_roles is_space
decision_resumes_example =
    decision_resumes "a1" approver granted approve none (at 5) before before after row refl
