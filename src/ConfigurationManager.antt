-- ===== src/ConfigurationManager.antt =====
-- kernel/src/ai_os_kernel/configuration_manager/loader.py: the layers of a configuration and how they are merged.
pub mod Merge
mod Examples
pub mod Precedence
use ai_os.Prelude.{
  Bool, true, false, ◌||◌, Option, none, some, List, [], ◌∷◌, ◌++◌, String, str_eq, if◌then◌else◌,
  contains, ◌>>=◌,
}
use ai_os.WorkflowEngine.Definition.{
  Json, null, boolean, number, text, array, object, Members, no_members, member,
}
use ai_os.WorkflowEngine.Service.{get_member}

-- `result[key] = value`.
unfoldable pub set_member : String → Json → Members → Members
set_member key value no_members = member key value no_members
set_member key value (member name old rest) =
    if str_eq name key then member key value rest else member name old (set_member key value rest)

-- `_deep_merge`, with the override last to be taken apart; `merge_value` gives the value of one of its keys.
unfoldable mutual
  pub deep_merge : (base override : Members) → Members
  deep_merge base no_members = base
  deep_merge base (member key value rest) =
      deep_merge (set_member key (merge_value value (get_member key base)) base) rest

  pub merge_value : (value : Json) (existing : Option Json) → Json
  merge_value (object override) (some (object base)) = object (deep_merge base override)
  merge_value value existing = value

-- What a file of the configuration holds, as `yaml.safe_load` reads it: JSON values with keys that are texts.
pub data File : Type 0 where
  missing not_yaml empty_file : File
  document : Json → File

-- `_read_section`; `none` is a `ConfigurationError`.
unfoldable pub section_of : Option Json → Option Members
section_of none = some no_members
section_of (some (object section)) = some section
section_of (some _) = none

unfoldable pub read_section : File → Option Members
read_section missing = some no_members
read_section not_yaml = none
read_section empty_file = some no_members
read_section (document (object content)) = section_of (get_member "kernel" content)
read_section (document _) = none

-- The defaults of some properties of a schema.
unfoldable pub defaults_of : Members → Members
defaults_of no_members = no_members
defaults_of (member key (object spec) rest) = elim (get_member "default" spec) [
  | none ↦ defaults_of rest
  | some value ↦ member key value (defaults_of rest)
]
defaults_of (member key spec rest) = defaults_of rest

abbrev pub properties_of : Option Json → Option Json
properties_of (some (object schema)) = get_member "properties" schema
properties_of _ = none

abbrev pub defaults_in : Option Json → Members
defaults_in (some (object properties)) = defaults_of properties
defaults_in _ = no_members

-- `extract_pack_defaults`.
unfoldable pub extract_pack_defaults : Members → Members
extract_pack_defaults manifest = defaults_in (properties_of (get_member "configSchema" manifest))

-- The layers, the lowest first.
unfoldable pub pack_layers : List Members → List Members
pack_layers [] = []
pack_layers (manifest ∷ manifests) = extract_pack_defaults manifest ∷ pack_layers manifests

-- `merged = _deep_merge(merged, layer)` for each layer.
unfoldable pub merge_all : List Members → Members → Members
merge_all [] merged = merged
merge_all (layer ∷ layers) merged = merge_all layers (deep_merge merged layer)

abbrev pub or_empty : Option Members → Members
or_empty none = no_members
or_empty (some overrides) = overrides

-- What a load reads.
pub record Sources : Type 0 where
  pub pack_manifests : List Members
  pub platform_file : File
  pub environment_file : File
  pub runtime_overrides : Option Members
  pub pinned_conditions : Option Members

unfoldable pub layers_of : Sources → Option (List Members)
layers_of sources = do
  platform ← read_section sources.platform_file
  environment ← read_section sources.environment_file
  some (
      pack_layers sources.pack_manifests
      ++ (platform
          ∷ environment
          ∷ or_empty sources.runtime_overrides
          ∷ or_empty sources.pinned_conditions
          ∷ []))

-- `merged["env"] = ...` and `merged["role"] = ...`.
abbrev pub with_identity : (environment role : String) → Members → Members
with_identity environment role merged =
    set_member "role" (text role) (set_member "env" (text environment) merged)

abbrev pub merged_layers : (environment role : String) → Option (List Members) → Option Members
merged_layers environment role none = none
merged_layers environment role (some layers) =
    some (with_identity environment role (merge_all layers no_members))

-- `_merge_layers`.
unfoldable pub merge_layers : (environment role : String) → Sources → Option Members
merge_layers environment role sources = merged_layers environment role (layers_of sources)

-- `_VALID_ENVIRONMENTS`, and `load` with the constructor's check; `validate` is that of `PlatformConfig`.
abbrev pub valid_environments : List String
valid_environments = "local" ∷ "dev" ∷ "staging" ∷ "production" ∷ []

unfoldable pub load :
    {Config : Type 0}
    → (validate : Members → Option Config) → (environment role : String) → Sources
    → Option Config
load validate environment role sources =
    if contains valid_environments environment
    then (do merged ← merge_layers environment role sources; validate merged)
    else none
