-- ===== src/ConfigurationManager/Examples.antt =====
-- A platform file whose pool size the environment file overrides.
use ai_os.Prelude.{◌≡◌, refl, none, some, List, [], ◌∷◌, String, contains}
use ai_os.WorkflowEngine.Definition.{Json, number, text, object, Members, no_members, member}
use ai_os.WorkflowEngine.Service.{get_member}
use ai_os.ConfigurationManager.{
  Sources, document, read_section, section_of, extract_pack_defaults, defaults_of, merge_layers,
  load,
}
use ai_os.ConfigurationManager.Merge.{says, plain}
use ai_os.ConfigurationManager.Precedence.{effective, decide_over, merge_layers-effective}

abbrev pool : Json → Members
pool size = member "database" (object (member "pool" size no_members)) no_members

abbrev platform : Members
platform =
    member "database" (object (member "pool" (number 5) (member "host" (text "db") no_members)))
      (member "log" (text "info") no_members)

abbrev manifest : Members
manifest =
    member "configSchema"
      (object (
        member "properties"
          (object (member "log" (object (member "default" (text "debug") no_members)) no_members))
          no_members))
      no_members

abbrev sources : Sources
sources = record {
  pack_manifests = manifest ∷ [];
  platform_file = document (object (member "kernel" (object platform) no_members));
  environment_file = document (object (member "kernel" (object (pool (number 10))) no_members));
  runtime_overrides = none;
  pinned_conditions = some (member "role" (text "root") no_members);
}

abbrev layers : List Members
layers =
    member "log" (text "debug") no_members
    ∷ platform
    ∷ pool (number 10)
    ∷ no_members
    ∷ member "role" (text "root") no_members
    ∷ []

merge_layers-effective_example :
    (merged : Members) × (merge_layers "local" "worker" sources ≡ some merged)
    × (load (λ members. some members) "local" "worker" sources ≡ some merged)
    × ((key : String) (path : List String)
        → plain (says (key ∷ path) (object merged)) ≡ effective "local" "worker" layers key path)
unfolding read_section section_of extract_pack_defaults defaults_of get_member contains
merge_layers-effective_example =
    merge_layers-effective (λ members. some members) "local" "worker" sources platform
      (pool (number 10)) refl refl refl
      (
        (refl, tt, tt),
        (
          (refl, (refl, tt, (refl, tt, tt)), (refl, tt, tt)),
          ((refl, (refl, tt, tt), tt), (tt, ((refl, tt, tt), tt))),
        ),
      )

pool_of_environment : effective "local" "worker" layers "database" ("pool" ∷ []) ≡ some (number 10)
unfolding effective decide_over says get_member
pool_of_environment = refl

role_of_caller : effective "local" "worker" layers "role" [] ≡ some (text "worker")
unfolding effective says
role_of_caller = refl
