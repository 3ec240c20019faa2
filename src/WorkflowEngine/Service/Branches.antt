-- ===== src/WorkflowEngine/Service/Branches.antt =====
-- Where a decision leads (step_executor.py, service.py).
use ai_os.Prelude.{
  ℕ, zero, suc, ◌+◌, ◌≡◌, refl, Bool, true, not, Option, none, some, List, [], ◌∷◌, String, is_some,
  get_elem?, lookup, arith, ap, ◌∙◌, sym, subst, Option-cases, inl, inr, if_cases, str_eq,
}
use ai_os.WorkflowEngine.Definition.{
  Json, text, WorkflowStep, WorkflowDefinition, DecisionCondition, is_decision, index_by_id,
  steps_are_valid, all_references_are_real, references_are_real, targets_are_declared,
}
use ai_os.WorkflowEngine.Instance.{WorkflowStepRecord}
use ai_os.WorkflowEngine.Service.{
  next, resolve_next_step, step_or_finished, at_index, latest_completed_output, get_field,
  get_member, branch_of, no_such_branch, no_such_field, Decided, decided, undecided,
  execute_decision, decide_with, decide_on, take_branch, branch_name, decision_output, json_eq,
  jump,
}
use ai_os.WorkflowEngine.Service.Index.{lookup-index_by_id, get_elem-last_index}
use ai_os.WorkflowEngine.Service.Walk.{valid-IsUnique, valid-references, resolve-at}

-- What a decision made of its declaration.
pub record HasDecided (step : WorkflowStep) (output : Json) : Type 0 where
  pub condition : DecisionCondition
  pub branches : List (String × String)
  pub outcome : Bool
  pub target : String
  pub is_one : is_decision step.type ≡ true
  pub declares_condition : step.condition ≡ some condition
  pub declares_branches : step.branches ≡ some branches
  pub taken : lookup (branch_name outcome) branches ≡ some target
  pub recorded : output ≡ decision_output outcome target

json_of : Json → Decided → Json
json_of default (decided output) = output
json_of default (undecided e) = default

taken_branch :
    (o : Option String) (outcome : Bool) (output : Json)
    → (elim o [
      | none ↦ undecided no_such_branch
      | some target ↦ decided (decision_output outcome target)
    ])
      ≡ decided output
    → (target : String) × (o ≡ some target) × (output ≡ decision_output outcome target)
unfolding json_of
taken_branch none outcome output e = ground (arith, e)
taken_branch (some target) outcome output e = (target, refl, sym (ap (json_of output) e))

read_branch :
    (o : Option Json) (condition : DecisionCondition) (branches : List (String × String))
    (output : Json)
    → (elim o [
      | none ↦ undecided no_such_field
      | some value ↦ take_branch (json_eq value condition.equals) branches
    ])
      ≡ decided output
    → (outcome : Bool) × (target : String) × (lookup (branch_name outcome) branches ≡ some target)
      × (output ≡ decision_output outcome target)
read_branch none condition branches output e = ground (arith, e)
read_branch (some value) condition branches output e =
    let outcome = json_eq value condition.equals in
    let (target, taken, recorded) =
      taken_branch (lookup (branch_name outcome) branches) outcome output e in
    (outcome, target, taken, recorded)

decided_on :
    (o : Option Json) (condition : DecisionCondition) (branches : List (String × String))
    (output : Json)
    → decide_on o condition branches ≡ decided output
    → (outcome : Bool) × (target : String) × (lookup (branch_name outcome) branches ≡ some target)
      × (output ≡ decision_output outcome target)
decided_on none condition branches output e = ground (arith, e)
decided_on (some source) condition branches output e =
    read_branch (get_field condition.field source) condition branches output e

decided_with :
    (step : WorkflowStep) (c : Option DecisionCondition) (b : Option (List (String × String)))
    (rows : List WorkflowStepRecord) (output : Json)
    → is_decision step.type ≡ true
    → step.condition ≡ c
    → step.branches ≡ b
    → decide_with c b rows ≡ decided output
    → HasDecided step output
decided_with step none b rows output d ec eb e = ground (arith, e)
decided_with step (some condition) none rows output d ec eb e = ground (arith, e)
decided_with step (some condition) (some branches) rows output d ec eb e =
    let (outcome, target, taken, recorded) =
      decided_on (latest_completed_output condition.source_step_id rows) condition branches output
        e in
    record {
      condition = condition;
      branches = branches;
      outcome = outcome;
      target = target;
      is_one = d;
      declares_condition = ec;
      declares_branches = eb;
      taken = taken;
      recorded = recorded;
    }

execute_decision-HasDecided :
    (step : WorkflowStep) (rows : List WorkflowStepRecord) (output : Json)
    → execute_decision step rows ≡ decided output
    → HasDecided step output
unfolding execute_decision
execute_decision-HasDecided step rows output e =
    if_cases (λ x. x ≡ decided output → HasDecided step output) (not (is_decision step.type))
      (λ t stopped. ground (arith, stopped))
      (λ t went.
        decided_with step step.condition step.branches rows output (ground (arith, t)) refl refl
          went)
      e

references-at :
    (d : List (String × ℕ)) (steps : List WorkflowStep) (first i : ℕ) (step : WorkflowStep)
    → all_references_are_real d first steps ≡ true
    → get_elem? steps i ≡ some step
    → (index : ℕ) × (references_are_real d index step ≡ true)
unfolding all_references_are_real
references-at d [] first i step h e = ground (arith, e)
references-at d (s ∷ steps) first zero step h e = (
  first,
  subst (λ (x : WorkflowStep). references_are_real d first x ≡ true) (ap (step_or s) e)
      (ground (arith, h)),
)
  where
    step_or : WorkflowStep → Option WorkflowStep → WorkflowStep
    step_or default none = default
    step_or default (some x) = x
references-at d (s ∷ steps) first (suc i) step h e =
    references-at d steps (first + 1) i step (ground (arith, h)) e

string_or : String → Option String → String
string_or default none = default
string_or default (some s) = s

target-declared :
    (d : List (String × ℕ)) (branches : List (String × String)) (name target : String)
    → targets_are_declared d branches ≡ true
    → lookup name branches ≡ some target
    → is_some (lookup target d) ≡ true
unfolding lookup string_or
target-declared d [] name target h e = ground (arith, e)
target-declared d ((n, t) ∷ branches) name target h e =
    if_cases (λ o. o ≡ some target → is_some (lookup target d) ≡ true) (str_eq n name)
      (λ hit here.
        subst (λ (x : String). is_some (lookup x d) ≡ true) (ap (string_or t) here)
          (ground (arith, h)))
      (λ miss there. target-declared d branches name target (ground (arith, h)) there) e

declared-step :
    (steps : List WorkflowStep) (target : String)
    → is_some (lookup target (index_by_id steps)) ≡ true
    → (j : ℕ) × (step : WorkflowStep) × (lookup target (index_by_id steps) ≡ some j)
      × (get_elem? steps j ≡ some step)
      × (step.id ≡ target)
declared-step steps target h = elim (Option-cases (lookup target (index_by_id steps))) [
  | inl missing ↦ ground (arith, h, missing)
  | inr (j, found) ↦
      let (step, at, same) =
        get_elem-last_index target steps j (sym (lookup-index_by_id target steps) ∙ found) in
      (j, step, found, at, same)
]

references-declared :
    (d : List (String × ℕ)) (index : ℕ) (step : WorkflowStep) (output : Json)
    (has : HasDecided step output)
    → references_are_real d index step ≡ true
    → targets_are_declared d has.branches ≡ true
references-declared d index step output has h =
    ground (arith, h, has.is_one, has.declares_condition, has.declares_branches)

jump-target :
    (steps : List WorkflowStep) (outcome : Bool) (target : String) (j : ℕ) (step : WorkflowStep)
    → lookup target (index_by_id steps) ≡ some j
    → get_elem? steps j ≡ some step
    → jump (branch_of (some (decision_output outcome target))) steps ≡ next step
unfolding get_member
jump-target steps outcome target j step found at =
    ap (λ o. at_index o steps) found ∙ ap step_or_finished at

-- In a definition that passes its validators, once a decision's output is its latest record, the engine goes
-- on to a declared step, and it is the one that the decision took of its branches.
pub decision_leads_to_branch :
    (definition : WorkflowDefinition) (i : ℕ) (step : WorkflowStep)
    (before after : List WorkflowStepRecord) (output : Json)
    → steps_are_valid definition.steps ≡ true
    → get_elem? definition.steps i ≡ some step
    → execute_decision step before ≡ decided output
    → latest_completed_output step.id after ≡ some output
    → (target : WorkflowStep) × (resolve_next_step definition (some step.id) after ≡ next target)
      × (branch_of (some output) ≡ some (text target.id))
unfolding get_member
decision_leads_to_branch definition i step before after output valid at e recorded =
    let steps = definition.steps in
    let has = execute_decision-HasDecided step before output e in
    let (index, real) =
      references-at (index_by_id steps) steps 0 i step (valid-references steps valid) at in
    let all_declared = references-declared (index_by_id steps) index step output has real in
    let declared =
      target-declared (index_by_id steps) has.branches (branch_name has.outcome) has.target
        all_declared has.taken in
    let (j, target, found, there, same) = declared-step steps has.target declared in
    (
      target,
      resolve-at definition after i step (valid-IsUnique steps valid) at
          ∙ rw has.is_one (
              ap (λ o. jump (branch_of o) steps) (recorded ∙ ap some has.recorded)
              ∙ jump-target steps has.outcome has.target j target found there),
      ap (λ o. branch_of (some o)) has.recorded ∙ ap (λ t. some (text t)) (sym same),
    )
