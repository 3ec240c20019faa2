-- ===== src/CapabilityManager/Derive.antt =====
-- kernel/src/ai_os_kernel/capability_manager/manifest_catalog_installer.py: the rows that a manifest declares.
use Prim.Native.String.{◌++◌ as append}
use ai_os.Prelude.{Option, some, List, String, traverse, ◌>>=◌}
use ai_os.WorkflowEngine.Definition.{Json}
use ai_os.CapabilityManager.{
  AgentEntry, PromptEntry, ToolEntry, WorkflowEntry, Manifest, AgentRow, ToolRow, PromptRow,
  DefinitionRow,
}

-- What is read of the pack's code and files: `_resolve_model_json_schema` (by `importlib`), a prompt's file, SHA-256, and
-- `WorkflowDefinitionLoader` with the columns that are taken of the definition. `none` is a `PackRegistrationError`.
pub record LoadedDefinition : Type 0 where
  pub definition_id : String
  pub version : String
  pub graph : Json
  pub inputs_schema : Json
  pub outputs_schema : Json

pub record PackFiles : Type 0 where
  pub model_schema : (dotted : String) → Option Json
  pub read_text : (location : String) → Option String
  pub sha256 : String → String
  pub load_definition : (location : String) → Option LoadedDefinition

-- The four lists, which both writers derive before their transaction opens.
pub record DerivedRows : Type 0 where
  pub agents : List (String × AgentRow)
  pub prompts : List PromptRow
  pub tools : List (String × ToolRow)
  pub definitions : List DefinitionRow

module _ (files : PackFiles) (pack_id : String) where
  unfoldable pub derive_agent_row : AgentEntry → Option (String × AgentRow)
  derive_agent_row agent = do
    input ← files.model_schema agent.input_schema
    output ← files.model_schema agent.output_schema
    some (
      append pack_id (append "/" agent.id),
      record {
        pack_id = pack_id;
        version = agent.version;
        entrypoint = agent.entrypoint;
        input_schema = input;
        output_schema = output;
        required_permissions = agent.permissions;
        required_tools = agent.required_tools;
      },
    )

  unfoldable pub derive_agent_rows : Manifest → Option (List (String × AgentRow))
  derive_agent_rows manifest = traverse derive_agent_row manifest.agents

  unfoldable pub derive_prompt_row : PromptEntry → Option PromptRow
  derive_prompt_row prompt = do
    content ← files.read_text prompt.location
    input ← files.model_schema prompt.input_schema
    some (record {
      prompt_id = prompt.id;
      version = prompt.version;
      pack_id = pack_id;
      content = content;
      input_schema = input;
      content_hash = append "sha256:" (files.sha256 content);
    })

  unfoldable pub derive_prompt_rows : Manifest → Option (List PromptRow)
  derive_prompt_rows manifest = traverse derive_prompt_row manifest.prompts

  unfoldable pub derive_tool_row : ToolEntry → Option (String × ToolRow)
  derive_tool_row tool = do
    input ← files.model_schema tool.input_schema
    output ← files.model_schema tool.output_schema
    some (
      tool.id,
      record {
        pack_id = pack_id;
        version = tool.version;
        entrypoint = tool.entrypoint;
        trust_tier = tool.trust_tier;
        input_schema = input;
        output_schema = output;
        required_permissions = tool.permissions;
      },
    )

  unfoldable pub derive_tool_rows : Manifest → Option (List (String × ToolRow))
  derive_tool_rows manifest = traverse derive_tool_row manifest.tools

  -- `build_workflow_definition_row`.
  abbrev pub build_workflow_definition_row : LoadedDefinition → List String → DefinitionRow
  build_workflow_definition_row definition declared_permissions = record {
    definition_id = definition.definition_id;
    version = definition.version;
    pack_id = pack_id;
    graph = definition.graph;
    inputs_schema = definition.inputs_schema;
    outputs_schema = definition.outputs_schema;
    declared_permissions = declared_permissions;
  }

  unfoldable pub derive_workflow_definition_row : WorkflowEntry → Option DefinitionRow
  derive_workflow_definition_row workflow = do
    definition ← files.load_definition workflow.definition
    some (build_workflow_definition_row definition workflow.permissions)

  unfoldable pub derive_workflow_definition_rows : Manifest → Option (List DefinitionRow)
  derive_workflow_definition_rows manifest =
      traverse derive_workflow_definition_row manifest.workflows

  unfoldable pub derive_rows : Manifest → Option DerivedRows
  derive_rows manifest = do
    agents ← derive_agent_rows manifest
    prompts ← derive_prompt_rows manifest
    tools ← derive_tool_rows manifest
    definitions ← derive_workflow_definition_rows manifest
    some (record { agents = agents; prompts = prompts; tools = tools; definitions = definitions })
