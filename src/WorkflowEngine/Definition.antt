-- ===== src/WorkflowEngine/Definition.antt =====
-- kernel/src/ai_os_kernel/workflow_engine/models.py: steps and definitions, with the validators of a
-- definition's steps.
use ai_os.Prelude.{
  ℕ, ◌+◌, Bool, true, false, not, ◌&&◌, Option, none, some, List, [], ◌∷◌, String, ltb, is_some,
  if◌then◌else◌, lookup, insert, contains,
}

pub data StepType : Type 0 where
  agent tool decision parallel sub_workflow quality_gate human_approval foreach : StepType

pub data JoinPolicy : Type 0 where
  all any_one collect : JoinPolicy

-- A JSON value; numbers are natural here.
mutual
  pub data Json : Type 0 where
    null : Json
    boolean : Bool → Json
    number : ℕ → Json
    text : String → Json
    array : Items → Json
    object : Members → Json

  pub data Items : Type 0 where
    no_items : Items
    item : Json → Items → Items

  pub data Members : Type 0 where
    no_members : Members
    member : String → Json → Members → Members

pub record DecisionCondition : Type 0 where
  pub source_step_id : String
  pub field : String
  pub equals : Json

pub record ForeachSpec : Type 0 where
  pub source_step_id : String
  pub items_field : String
  pub max_fan_out : ℕ

-- `WorkflowStep` without `parallel_steps`, which nothing below reads.
pub record WorkflowStep : Type 0 where
  pub id : String
  pub type : StepType
  pub join_policy : Option JoinPolicy
  pub agent_id : Option String
  pub tool_id : Option String
  pub prompt_id : Option String
  pub prompt_version : Option String
  pub model_alias : Option String
  pub condition : Option DecisionCondition
  pub branches : Option (List (String × String))
  pub sub_workflow_id : Option String
  pub foreach_spec : Option ForeachSpec

-- `WorkflowDefinition`, as far as the engine walks it.
pub record WorkflowDefinition : Type 0 where
  pub definition_id : String
  pub version : String
  pub steps : List WorkflowStep

abbrev pub is_decision : StepType → Bool
is_decision decision = true
is_decision _ = false

-- `{step.id: index for index, step in enumerate(steps)}`, from an index on.
unfoldable pub index_from : ℕ → List WorkflowStep → List (String × ℕ) → List (String × ℕ)
index_from i [] d = d
index_from i (step ∷ steps) d = index_from (i + 1) steps (insert step.id i d)

abbrev pub index_by_id : List WorkflowStep → List (String × ℕ)
index_by_id steps = index_from 0 steps []

-- `_step_ids_are_unique`, over the steps that are left; `false` is its `ValueError`.
unfoldable pub ids_are_unique : (seen : List String) → List WorkflowStep → Bool
ids_are_unique seen [] = true
ids_are_unique seen (step ∷ steps) =
    let rest = ids_are_unique (step.id ∷ seen) steps in
    if contains seen step.id then false else rest

abbrev pub targets_are_declared : List (String × ℕ) → List (String × String) → Bool
targets_are_declared d [] = true
targets_are_declared d (branch ∷ branches) =
    is_some (lookup branch.1 d) && targets_are_declared d branches

abbrev pub is_before : Option ℕ → ℕ → Bool
is_before none index = false
is_before (some source) index = ltb source index

-- The references of one step.
abbrev pub references_are_real : List (String × ℕ) → ℕ → WorkflowStep → Bool
references_are_real d index step =
    if not (is_decision step.type) then true else elim step.condition [
      | none ↦ true
      | some condition ↦ elim step.branches [
        | none ↦ true
        | some branches ↦
            is_before (lookup condition.source_step_id d) index && targets_are_declared d branches
      ]
    ]

-- `_decision_step_references_are_real_and_not_forward`, from an index on.
unfoldable pub all_references_are_real : List (String × ℕ) → ℕ → List WorkflowStep → Bool
all_references_are_real d index [] = true
all_references_are_real d index (step ∷ steps) =
    references_are_real d index step && all_references_are_real d (index + 1) steps

-- The validators of `steps`.
unfoldable pub steps_are_valid : List WorkflowStep → Bool
steps_are_valid [] = false
steps_are_valid (step ∷ steps) =
    ids_are_unique [] (step ∷ steps)
    && all_references_are_real (index_by_id (step ∷ steps)) 0 (step ∷ steps)
