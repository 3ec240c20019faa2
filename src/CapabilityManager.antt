-- ===== src/CapabilityManager.antt =====
-- The catalogue of capability packs: pack_state.py of kernel/src/ai_os_kernel/workflow_engine, the tables of
-- kernel/src/ai_os_kernel/persistence/catalog_schema.py, and what a manifest declares.
pub mod Derive
pub mod Lifecycle
mod Examples
pub mod Published
pub mod Polling
pub mod Log
pub mod Reconcile
use ai_os.Prelude.{ℕ, Option, List, String}
use ai_os.WorkflowEngine.Definition.{Json}

pub data PackState : Type 0 where
  discovered validated installed configured activated deactivated failed uninstalled : PackState

-- The entries of a manifest, whose keys its schema requires. A missing `permissions` is `[]`.
pub record AgentEntry : Type 0 where
  pub id : String
  pub version : String
  pub entrypoint : String
  pub input_schema : String
  pub output_schema : String
  pub permissions : List String
  pub required_tools : List String

pub record PromptEntry : Type 0 where
  pub id : String
  pub version : String
  pub location : String
  pub input_schema : String

pub record ToolEntry : Type 0 where
  pub id : String
  pub version : String
  pub entrypoint : String
  pub trust_tier : String
  pub input_schema : String
  pub output_schema : String
  pub permissions : List String

pub record WorkflowEntry : Type 0 where
  pub id : String
  pub definition : String
  pub permissions : List String

pub record Manifest : Type 0 where
  pub agents : List AgentEntry
  pub prompts : List PromptEntry
  pub tools : List ToolEntry
  pub workflows : List WorkflowEntry

-- Rows of `catalog.agents` and `catalog.tools`, each under its id.
pub record AgentRow : Type 0 where
  pub pack_id : String
  pub version : String
  pub entrypoint : String
  pub input_schema : Json
  pub output_schema : Json
  pub required_permissions : List String
  pub required_tools : List String

pub record ToolRow : Type 0 where
  pub pack_id : String
  pub version : String
  pub entrypoint : String
  pub trust_tier : String
  pub input_schema : Json
  pub output_schema : Json
  pub required_permissions : List String

pub record PromptRow : Type 0 where
  pub prompt_id : String
  pub version : String
  pub pack_id : String
  pub content : String
  pub input_schema : Json
  pub content_hash : String

-- A row of `catalog.workflow_definitions`, without the time of its validation.
pub record DefinitionRow : Type 0 where
  pub definition_id : String
  pub version : String
  pub pack_id : String
  pub graph : Json
  pub inputs_schema : Json
  pub outputs_schema : Json
  pub declared_permissions : List String

-- The snapshot that the poller writes, without the details and the time.
pub record Health : Type 0 where
  pub status : String
  pub consecutive_failures : ℕ

pub record PackRecord : Type 0 where
  pub version : String
  pub state : PackState
  pub manifest : Manifest
  pub sdk_version : String
  pub min_kernel_version : String
  pub installed_at : Option ℕ
  pub activated_at : Option ℕ
  pub health : Option Health

-- A row of `catalog.pack_state_transitions`.
pub record TransitionRow : Type 0 where
  pub pack_id : String
  pub from_state : PackState
  pub to_state : PackState
  pub reason : String
  pub actor : String
  pub occurred_at : ℕ

-- The tables; the transitions stand the latest first.
pub record Catalog : Type 0 where
  pub packs : List (String × PackRecord)
  pub transitions : List TransitionRow
  pub agents : List (String × AgentRow)
  pub tools : List (String × ToolRow)
  pub prompts : List PromptRow
  pub definitions : List DefinitionRow
