-- ===== src/WorkflowEngine/Service.antt =====
-- kernel/src/ai_os_kernel/workflow_engine/service.py: which step comes next, and what a retry resets;
-- the decision executor of step_executor.py, and the reading of outputs of quality_gate.py.
pub mod Index
pub mod Walk
pub mod Branches
pub mod Advance
pub mod Commits
pub mod Progress
mod Examples
use ai_os.Prelude.{
  ℕ, ◌+◌, Bool, true, false, not, ◌&&◌, Option, none, some, List, [], ◌∷◌, String, str_eq, ltb,
  ◌==◌, is_some, if◌then◌else◌, get_elem?, lookup,
}
use ai_os.WorkflowEngine.Definition.{
  Json, null, boolean, number, text, array, object, Members, no_members, member, WorkflowStep,
  WorkflowDefinition, DecisionCondition, is_decision, index_by_id,
}
use ai_os.WorkflowEngine.Instance.{WorkflowStepRecord}

-- `output.get(key)` of a JSON object.
unfoldable pub get_member : String → Members → Option Json
get_member key no_members = none
get_member key (member name value rest) =
    if str_eq name key then some value else get_member key rest

abbrev pub get_field : String → Json → Option Json
get_field key (object members) = get_member key members
get_field key _ = none

-- The candidates of `_latest_completed_output`.
abbrev pub has_output : String → WorkflowStepRecord → Bool
has_output step_name row = str_eq row.step_name step_name && is_some row.outputs

-- `max(candidates, key=attempt)`: the first of the highest attempts.
unfoldable pub latest_completed : String → List WorkflowStepRecord → Option WorkflowStepRecord
latest_completed step_name [] = none
latest_completed step_name (row ∷ rows) =
    let later = latest_completed step_name rows in
    if has_output step_name row
    then elim later [
      | none ↦ some row
      | some other ↦ if ltb row.attempt other.attempt then some other else some row
    ]
    else later

abbrev pub output_of : Option WorkflowStepRecord → Option Json
output_of none = none
output_of (some row) = row.outputs

unfoldable pub latest_completed_output : String → List WorkflowStepRecord → Option Json
latest_completed_output step_name rows = output_of (latest_completed step_name rows)

-- Why no step was found (`WorkflowInvalidTransitionError`, and the errors of a decision).
pub data StepError : Type 0 where
  no_steps no_such_step unknown_branch_target no_branch_recorded branch_is_no_string : StepError
  not_a_decision no_condition no_source_output no_such_field no_such_branch : StepError

pub data Resolution : Type 0 where
  next : WorkflowStep → Resolution
  finished : Resolution
  invalid : StepError → Resolution

-- `steps[index]` after the last step means that the workflow is complete.
abbrev pub step_or_finished : Option WorkflowStep → Resolution
step_or_finished none = finished
step_or_finished (some step) = next step

-- `steps[target_index]`, for an index that is in range.
abbrev pub at_index : Option ℕ → List WorkflowStep → Resolution
at_index none steps = invalid unknown_branch_target
at_index (some index) steps = step_or_finished (get_elem? steps index)

-- `_resolve_decision_branch_target` with the jump that follows.
abbrev pub jump : Option Json → List WorkflowStep → Resolution
jump none steps = invalid no_branch_recorded
jump (some (text target)) steps = at_index (lookup target (index_by_id steps)) steps
jump (some _) steps = invalid branch_is_no_string

abbrev pub branch_of : Option Json → Option Json
branch_of none = none
branch_of (some output) = get_field "branch" output

-- What follows the step at `index`; `rows` is what `list_steps` returns.
abbrev pub after_step :
    Option WorkflowStep → ℕ → List WorkflowStep → List WorkflowStepRecord → Resolution
after_step none index steps rows = finished
after_step (some current) index steps rows =
    if is_decision current.type
    then jump (branch_of (latest_completed_output current.id rows)) steps
    else step_or_finished (get_elem? steps (index + 1))

abbrev pub after_index : Option ℕ → List WorkflowStep → List WorkflowStepRecord → Resolution
after_index none steps rows = invalid no_such_step
after_index (some index) steps rows = after_step (get_elem? steps index) index steps rows

-- The first step, where there is one.
abbrev pub first_step : List WorkflowStep → Resolution
first_step [] = invalid no_steps
first_step (step ∷ steps) = next step

-- `_resolve_next_step`.
unfoldable pub resolve_next_step :
    WorkflowDefinition → Option String → List WorkflowStepRecord → Resolution
resolve_next_step definition none rows = first_step definition.steps
resolve_next_step definition (some current) rows =
    after_index (lookup current (index_by_id definition.steps)) definition.steps rows

pub data StepBefore : Type 0 where
  before : Option String → StepBefore
  not_declared : StepBefore

-- The `for` loop of `_step_before`, with the id of the step before those that are left.
unfoldable pub step_before_from : Option String → List WorkflowStep → String → StepBefore
step_before_from previous [] step_id = not_declared
step_before_from previous (step ∷ steps) step_id =
    let rest = step_before_from (some step.id) steps step_id in
    if str_eq step.id step_id then before previous else rest

unfoldable pub step_before : WorkflowDefinition → String → StepBefore
step_before definition step_id = step_before_from none definition.steps step_id

-- Python's `==` between a value and a literal: `True == 1` and `False == 0`.
unfoldable pub json_eq : Json → Json → Bool
json_eq null null = true
json_eq (boolean true) (boolean b) = b
json_eq (boolean false) (boolean b) = not b
json_eq (number m) (number n) = m == n
json_eq (boolean true) (number n) = n == 1
json_eq (boolean false) (number n) = n == 0
json_eq (number n) (boolean true) = n == 1
json_eq (number n) (boolean false) = n == 0
json_eq (text s) (text t) = str_eq s t
json_eq _ _ = false

pub data Decided : Type 0 where
  decided : Json → Decided
  undecided : StepError → Decided

-- `{"outcome": outcome, "branch": target}`.
abbrev pub decision_output : Bool → String → Json
decision_output outcome target =
    object (member "outcome" (boolean outcome) (member "branch" (text target) no_members))

abbrev pub branch_name : Bool → String
branch_name true = "true"
branch_name false = "false"

abbrev pub take_branch : Bool → List (String × String) → Decided
take_branch outcome branches = elim (lookup (branch_name outcome) branches) [
  | none ↦ undecided no_such_branch
  | some target ↦ decided (decision_output outcome target)
]

abbrev pub decide_on : Option Json → DecisionCondition → List (String × String) → Decided
decide_on none condition branches = undecided no_source_output
decide_on (some output) condition branches = elim (get_field condition.field output) [
  | none ↦ undecided no_such_field
  | some value ↦ take_branch (json_eq value condition.equals) branches
]

abbrev pub decide_with :
    Option DecisionCondition → Option (List (String × String)) → List WorkflowStepRecord → Decided
decide_with (some condition) (some branches) rows =
    decide_on (latest_completed_output condition.source_step_id rows) condition branches
decide_with none branches rows = undecided no_condition
decide_with (some condition) none rows = undecided no_condition

-- `DecisionStepExecutor.execute`.
unfoldable pub execute_decision : WorkflowStep → List WorkflowStepRecord → Decided
execute_decision step rows =
    if not (is_decision step.type)
    then undecided not_a_decision
    else decide_with step.condition step.branches rows
