-- ===== src/CapabilityManager/Examples.antt =====
-- A pack that is registered, activated, upgraded, and fails.
use ai_os.Prelude.{
  ℕ, ◌≡◌, refl, Bool, true, false, Option, none, some, List, [], ◌∷◌, ◌++◌, String, str_eq,
  if◌then◌else◌, lookup, insert, contains, leb, traverse, has_repeats, delete_where, insert_all,
}
use ai_os.WorkflowEngine.Definition.{null}
use ai_os.CapabilityManager.{
  activated, failed, AgentEntry, PromptRow, DefinitionRow, PackRecord, Catalog,
}
use ai_os.CapabilityManager.Derive.{
  PackFiles, DerivedRows, derive_rows, derive_agent_rows, derive_agent_row, derive_prompt_rows,
  derive_prompt_row, derive_tool_rows, derive_tool_row, derive_workflow_definition_rows,
  derive_workflow_definition_row,
}
use ai_os.CapabilityManager.Lifecycle.{
  Request, Release, Versions, register, install, activate, move_locked, move_to, upgrade,
  upgrade_locked, upgrade_from, replace, has_conflict, add_all, add_all_missing, ids_conflict,
  committed, Written, rolled_back, upgraded, cannot_derive,
}
use ai_os.CapabilityManager.Reconcile.{IsReconciled, catalog_of, upgrade_reconciles}
use ai_os.CapabilityManager.Log.{
  Command, registration, activation, upgrade_of, perform, history, logged_state, state_of, IsChain,
  history-IsChain,
}
use ai_os.CapabilityManager.Published.{prompt_of, definition_of, find, published_versions_stay}
use ai_os.CapabilityManager.Polling.{
  Poll, poll_all, streak, has_reached_threshold, failures_of, polls_fail_at_threshold,
}

abbrev numbered : Versions
numbered = record {
  Version = ℕ;
  parse = λ s. if str_eq s "1" then some 1 else if str_eq s "2" then some 2 else none;
  is_at_most = leb;
  text = λ n. "v";
}

abbrev files : PackFiles
files = record {
  model_schema = λ dotted. some null;
  read_text = λ location. some location;
  sha256 = λ s. s;
  load_definition = λ location. some (record {
    definition_id = "build";
    version = "1";
    graph = null;
    inputs_schema = null;
    outputs_schema = null;
  });
}

abbrev agent : String → AgentEntry
agent id = record {
  id = id;
  version = "1";
  entrypoint = "m:A";
  input_schema = "m:I";
  output_schema = "m:O";
  permissions = "model:invoke" ∷ [];
  required_tools = [];
}

abbrev release_of : String → List AgentEntry → Release
release_of version agents = record {
  version = version;
  manifest = record {
    agents = agents;
    prompts =
        record { id = "plan"; version = "1"; location = "plan.md"; input_schema = "m:P" } ∷ [];
    tools = [];
    workflows = record { id = "build"; definition = "build.yaml"; permissions = [] } ∷ [];
  };
  sdk_version = "1";
  min_kernel_version = "1";
}

abbrev request : ℕ → Request
request t = record { pack_id = "swe"; actor = "ada"; reason = "release"; occurred_at = t }

abbrev first : Release
first = release_of "1" (agent "planner" ∷ agent "builder" ∷ [])

abbrev second : Release
second = release_of "2" (agent "builder" ∷ [])

abbrev active : List Command
active = activation (request 2) ∷ registration (some files) (request 1) first ∷ []

abbrev before : Catalog
before = history numbered active

history-IsChain_example :
    (logged_state "swe"
        (history numbered (upgrade_of files (request 3) second ∷ active)).transitions
      ≡ state_of
          (lookup "swe" (history numbered (upgrade_of files (request 3) second ∷ active)).packs))
    × IsChain "swe" (history numbered (upgrade_of files (request 3) second ∷ active)).transitions
history-IsChain_example =
    history-IsChain numbered (upgrade_of files (request 3) second ∷ active) "swe"

abbrev rows_or : Option DerivedRows → DerivedRows
rows_or none = record { agents = []; prompts = []; tools = []; definitions = [] }
rows_or (some rows) = rows

abbrev pack_of : Written → PackRecord
pack_of (committed after pack) = pack
pack_of (rolled_back e) = upgraded second (record {
  version = "1";
  state = activated;
  manifest = first.manifest;
  sdk_version = "1";
  min_kernel_version = "1";
  installed_at = some 1;
  activated_at = some 2;
  health = none;
})

abbrev new_rows : DerivedRows
new_rows = rows_or (derive_rows files "swe" second.manifest)

abbrev result : Written
result = upgrade numbered files (request 3) second before

upgrade_reconciles_example : IsReconciled "swe" new_rows before (catalog_of before result)
unfolding history perform register install activate move_locked move_to upgrade upgrade_locked
    upgrade_from replace derive_rows derive_agent_rows derive_agent_row derive_prompt_rows
    derive_prompt_row derive_tool_rows derive_tool_row derive_workflow_definition_rows
    derive_workflow_definition_row traverse has_repeats delete_where insert_all lookup insert
    contains has_conflict add_all add_all_missing ids_conflict
upgrade_reconciles_example =
    upgrade_reconciles numbered files (request 3) second new_rows before (catalog_of before result)
      (pack_of result) (refl, (refl, tt)) tt refl refl

abbrev plan_row : PromptRow
plan_row = record {
  prompt_id = "plan";
  version = "1";
  pack_id = "swe";
  content = "plan.md";
  input_schema = null;
  content_hash = "sha256:plan.md";
}

abbrev build_row : DefinitionRow
build_row = record {
  definition_id = "build";
  version = "1";
  pack_id = "swe";
  graph = null;
  inputs_schema = null;
  outputs_schema = null;
  declared_permissions = [];
}

published_versions_stay_example :
    (prompt_of "plan" "1" (history numbered ((upgrade_of files (request 3) second ∷ []) ++ active))
      ≡ some plan_row)
    × (definition_of "build" "1"
          (history numbered ((upgrade_of files (request 3) second ∷ []) ++ active))
        ≡ some build_row)
unfolding history perform register install activate move_locked move_to derive_rows
    derive_agent_rows derive_agent_row derive_prompt_rows derive_prompt_row derive_tool_rows
    derive_tool_row derive_workflow_definition_rows derive_workflow_definition_row traverse
    insert_all lookup insert contains has_conflict add_all add_all_missing ids_conflict find
published_versions_stay_example =
    published_versions_stay numbered (upgrade_of files (request 3) second ∷ []) active "plan" "1"
      "build" "1" plan_row build_row refl refl

-- Polls in which the agents of the pack resolve, or do not.
abbrev poll : Bool → Poll
poll works = record {
  actor = "kernel";
  reason = "unhealthy";
  occurred_at = 9;
  resolves = λ id. works;
}

abbrev three_failures : List Poll
three_failures = poll false ∷ poll false ∷ poll false ∷ poll true ∷ poll false ∷ []

polls_fail_at_threshold_example :
    (row : PackRecord) × (lookup "swe" (poll_all "swe" three_failures before).packs ≡ some row)
    × (failures_of (some row) ≡ 3)
    × (row.state ≡ failed)
unfolding history perform register install activate move_locked move_to derive_rows
    derive_agent_rows derive_agent_row derive_prompt_rows derive_prompt_row derive_tool_rows
    derive_tool_row derive_workflow_definition_rows derive_workflow_definition_row traverse
    insert_all lookup insert contains has_conflict add_all add_all_missing ids_conflict streak
    has_reached_threshold
polls_fail_at_threshold_example =
    polls_fail_at_threshold "swe" three_failures before
      (record (pack_of (rolled_back cannot_derive)) { version = "1"; manifest = first.manifest })
      refl refl refl
