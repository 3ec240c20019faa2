-- ===== src/ConfigurationManager/Precedence.antt =====
-- That the merged configuration refines the order of the layers (loader.py): the highest layer that says anything of a
-- path decides.
use ai_os.Prelude.{
  ◌≡◌, Option, none, some, List, [], ◌∷◌, String, str_eq, if◌then◌else◌, All, ◌∙◌, ap, refl,
  if_cases, map, ◌++◌, contains, true,
}
use ai_os.WorkflowEngine.Definition.{Json, text, object, Members, no_members}
use ai_os.WorkflowEngine.Service.{get_member}
use ai_os.ConfigurationManager.{
  set_member, merge_all, with_identity, Sources, layers_of, merged_layers, merge_layers,
  pack_layers, extract_pack_defaults, or_empty, read_section, load, valid_environments,
}
use ai_os.ConfigurationManager.Merge.{
  says, or_silent, plain, overlay, AreDistinct, get_member-set_member, deep_merge-overlay,
}

-- The order of the layers, the lowest first: what the layers after some value of the lower ones make of it.
unfoldable pub decide_over : List String → List Members → (lower : Option Json) → Option Json
decide_over path [] lower = lower
decide_over path (layer ∷ layers) lower =
    decide_over path layers (overlay (says path (object layer)) lower)

merge_all-decide_over :
    (key : String) (path : List String) (layers : List Members) (merged : Members)
    → All AreDistinct layers
    → plain (says (key ∷ path) (object (merge_all layers merged)))
      ≡ decide_over (key ∷ path) layers (plain (says (key ∷ path) (object merged)))
unfolding merge_all decide_over
merge_all-decide_over key path [] merged h = refl
merge_all-decide_over key path (layer ∷ layers) merged (d, rest) =
    merge_all-decide_over key path layers _ rest
    ∙ ap (decide_over (key ∷ path) layers) (deep_merge-overlay key path merged layer d)

-- What a configuration has at a path: the caller's environment and role, and else what the layers decide.
unfoldable pub effective :
    (environment role : String) → List Members → (key : String) → List String → Option Json
effective environment role layers key path =
    if str_eq "role" key
    then plain (says path (text role))
    else if str_eq "env" key
    then plain (says path (text environment))
    else decide_over (key ∷ path) layers none

plain_identity :
    (key : String) (path : List String) (value : Json) (other : String) (members : Members)
    → plain (says (other ∷ path) (object (set_member key value members))) ≡ (
        if str_eq key other
        then plain (says path value)
        else plain (says (other ∷ path) (object members)))
unfolding says
plain_identity key path value other members =
    ap (λ o. plain (or_silent (says path) o)) (get_member-set_member key other value members)
    ∙ if_cases
        (λ o. plain (or_silent (says path) o) ≡ (
          if str_eq key other
          then plain (says path value)
          else plain (or_silent (says path) (get_member other members))))
        (str_eq key other) (λ t. rw t refl) (λ t. rw t refl)

pack_layers-map :
    (manifests : List Members) → pack_layers manifests ≡ map extract_pack_defaults manifests
unfolding pack_layers
pack_layers-map [] = refl
pack_layers-map (manifest ∷ manifests) =
    ap (λ rest. extract_pack_defaults manifest ∷ rest) (pack_layers-map manifests)

or_empty_case :
    (overrides : Option Members)
    → or_empty overrides ≡ elim overrides [ none ↦ no_members | some section ↦ section ]
or_empty_case none = refl
or_empty_case (some section) = refl

-- The layers of what a load reads, in their order.
layers_of-order :
    (sources : Sources) (platform environment : Members)
    → read_section sources.platform_file ≡ some platform
    → read_section sources.environment_file ≡ some environment
    → layers_of sources
      ≡ some (
          map extract_pack_defaults sources.pack_manifests
          ++ (platform
              ∷ environment
              ∷ (elim sources.runtime_overrides [ none ↦ no_members | some section ↦ section ])
              ∷ (elim sources.pinned_conditions [ none ↦ no_members | some section ↦ section ])
              ∷ []))
unfolding layers_of
layers_of-order sources platform environment p e =
    rw
      (
        p,
        e,
        pack_layers-map sources.pack_manifests,
        or_empty_case sources.runtime_overrides,
        or_empty_case sources.pinned_conditions,
      )
      refl

-- Where the sections of both files can be read, the merge of the layers is defined, and in a valid environment a load
-- validates what it gives. Whatever plain value that has at a path, or whether it has one, is decided by the layers in their
-- order (the defaults of the packs, the platform file, the environment file, the runtime overrides, the pinned conditions),
-- where each is a mapping without repeated keys: the last one that has a value, a section or the end of its branch there;
-- only the environment and the role are always the caller's.
pub merge_layers-effective :
    {Config : Type 0} (validate : Members → Option Config) (environment role : String)
    (sources : Sources) (platform_section environment_section : Members)
    → let layers =
        map extract_pack_defaults sources.pack_manifests
        ++ (platform_section
            ∷ environment_section
            ∷ (elim sources.runtime_overrides [ none ↦ no_members | some section ↦ section ])
            ∷ (elim sources.pinned_conditions [ none ↦ no_members | some section ↦ section ])
            ∷ []) in
      contains valid_environments environment ≡ true
      → read_section sources.platform_file ≡ some platform_section
      → read_section sources.environment_file ≡ some environment_section
      → All AreDistinct layers
      → (merged : Members) × (merge_layers environment role sources ≡ some merged)
        × (load validate environment role sources ≡ validate merged)
        × ((key : String) (path : List String)
            → plain (says (key ∷ path) (object merged))
              ≡ effective environment role layers key path)
unfolding merge_layers effective says get_member load
merge_layers-effective validate environment role sources platform_section environment_section valid
      p e d =
    let layers =
      map extract_pack_defaults sources.pack_manifests
      ++ (platform_section
          ∷ environment_section
          ∷ (elim sources.runtime_overrides [ none ↦ no_members | some section ↦ section ])
          ∷ (elim sources.pinned_conditions [ none ↦ no_members | some section ↦ section ])
          ∷ []) in
    let all = merge_all layers no_members in
    let order =
      ap (merged_layers environment role)
        (layers_of-order sources platform_section environment_section p e) in
    (
      with_identity environment role all,
      order,
      rw (valid, order) refl,
      λ key path.
          plain_identity "role" path (text role) key (set_member "env" (text environment) all)
          ∙ ap (λ v. if str_eq "role" key then plain (says path (text role)) else v)
              (plain_identity "env" path (text environment) key all
                ∙ ap (λ v. if str_eq "env" key then plain (says path (text environment)) else v)
                    (merge_all-decide_over key path layers no_members d)),
    )
