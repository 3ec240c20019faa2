-- ===== src/CapabilityManager/Lifecycle.antt =====
-- kernel/src/ai_os_kernel/capability_manager/repository.py: each method is one transaction. The version order of
-- `packaging.version` is a parameter.
use Prim.Native.String.{◌++◌ as append}
use ai_os.Prelude.{
  ℕ, Bool, true, false, not, ◌&&◌, ◌||◌, Option, none, some, List, [], ◌∷◌, String, str_eq,
  if◌then◌else◌, is_some, any, lookup, insert, contains, has_repeats, delete_where, insert_all,
  keys,
}
use ai_os.CapabilityManager.{
  PackState, discovered, installed, activated, deactivated, failed, Manifest, AgentRow, ToolRow,
  PromptRow, DefinitionRow, Health, PackRecord, Catalog,
}
use ai_os.CapabilityManager.Derive.{PackFiles, DerivedRows, derive_rows}

-- `already_registered` is any integrity error, `database_error` any other one of the database.
pub data PackError : Type 0 where
  already_registered cannot_derive database_error not_found invalid_version not_newer : PackError
  invalid_transition : (from_state : PackState) → PackError

pub data Written : Type 0 where
  committed : Catalog → PackRecord → Written
  rolled_back : PackError → Written

abbrev pub is_activatable : PackState → Bool
is_activatable installed = true
is_activatable deactivated = true
is_activatable _ = false

-- `_DEACTIVATABLE_FROM_STATES`, `_FAILABLE_FROM_STATES` and `_UPGRADABLE_FROM_STATES`.
abbrev pub is_activated : PackState → Bool
is_activated activated = true
is_activated _ = false

-- Who asks for a transition, why, and when.
pub record Request : Type 0 where
  pub pack_id : String
  pub actor : String
  pub reason : String
  pub occurred_at : ℕ

abbrev pub record_transition : Request → PackState → PackState → Catalog → Catalog
record_transition request from to catalog = record catalog {
  transitions =
      record {
        pack_id = request.pack_id;
        from_state = from;
        to_state = to;
        reason = request.reason;
        actor = request.actor;
        occurred_at = request.occurred_at;
      }
      ∷ catalog.transitions;
}

-- The update of the row, with its transition.
unfoldable pub move_to : Request → PackState → PackRecord → PackRecord → Catalog → Written
move_to request to pack moved catalog =
    committed
      (record_transition request pack.state to
        (record catalog { packs = insert request.pack_id moved catalog.packs }))
      moved

-- `_lock_current_state`, the test of the state, and the move.
unfoldable pub move_locked :
    Option PackRecord
    → (PackState → Bool)
    → Request
    → PackState
    → (PackRecord → PackRecord)
    → Catalog
    → Written
move_locked none allows request to values catalog = rolled_back not_found
move_locked (some pack) allows request to values catalog =
    if allows pack.state
    then move_to request to pack (values pack) catalog
    else rolled_back (invalid_transition pack.state)

abbrev pub activated_values : ℕ → PackRecord → PackRecord
activated_values occurred_at pack = record pack {
  state = activated;
  activated_at = some occurred_at;
}

abbrev pub with_state : PackState → PackRecord → PackRecord
with_state state pack = record pack { state = state }

unfoldable pub activate : Request → Catalog → Written
activate request catalog =
    move_locked (lookup request.pack_id catalog.packs) is_activatable request activated
      (activated_values request.occurred_at) catalog

unfoldable pub deactivate : Request → Catalog → Written
deactivate request catalog =
    move_locked (lookup request.pack_id catalog.packs) is_activated request deactivated
      (with_state deactivated) catalog

unfoldable pub mark_failed : Request → Catalog → Written
mark_failed request catalog =
    move_locked (lookup request.pack_id catalog.packs) is_activated request failed
      (with_state failed) catalog

abbrev pub with_health : Option PackRecord → String → Health → Catalog → Catalog
with_health none pack_id health catalog = catalog
with_health (some pack) pack_id health catalog = record catalog {
  packs = insert pack_id (record pack { health = some health }) catalog.packs;
}

-- A plain update of one column, which does nothing for a pack that is not there.
unfoldable pub record_health : String → Health → Catalog → Catalog
record_health pack_id health catalog =
    with_health (lookup pack_id catalog.packs) pack_id health catalog

-- `ON CONFLICT (prompt_id, version) DO NOTHING`, and the same for definitions.
abbrev pub is_prompt : PromptRow → PromptRow → Bool
is_prompt row other = str_eq other.prompt_id row.prompt_id && str_eq other.version row.version

abbrev pub is_definition : DefinitionRow → DefinitionRow → Bool
is_definition row other =
    str_eq other.definition_id row.definition_id && str_eq other.version row.version

module _ {ℓ} {A : Type ℓ} (same : A → A → Bool) where
  abbrev pub add_missing : A → List A → List A
  add_missing row rows = if any (same row) rows then rows else row ∷ rows

  unfoldable pub add_all_missing : List A → List A → List A
  add_all_missing [] rows = rows
  add_all_missing (row ∷ new) rows = add_all_missing new (add_missing row rows)

  -- That a plain insert of some rows violates the key.
  unfoldable pub has_conflict : List A → List A → Bool
  has_conflict [] rows = false
  has_conflict (row ∷ new) rows = any (same row) rows || has_conflict new (row ∷ rows)

  unfoldable pub add_all : List A → List A → List A
  add_all [] rows = rows
  add_all (row ∷ new) rows = add_all new (row ∷ rows)

-- The same for a table under its ids.
unfoldable pub ids_conflict {ℓ} : {V : Type ℓ} → (new table : List (String × V)) → Bool
ids_conflict [] table = false
ids_conflict ((id, row) ∷ new) table =
    is_some (lookup id table) || ids_conflict new ((id, row) ∷ table)

-- The values of a registration, and of an upgrade.
pub record Release : Type 0 where
  pub version : String
  pub manifest : Manifest
  pub sdk_version : String
  pub min_kernel_version : String

abbrev pub registered : ℕ → Release → PackRecord
registered occurred_at release = record {
  version = release.version;
  state = installed;
  manifest = release.manifest;
  sdk_version = release.sdk_version;
  min_kernel_version = release.min_kernel_version;
  installed_at = some occurred_at;
  activated_at = none;
  health = none;
}

abbrev pub upgraded : Release → PackRecord → PackRecord
upgraded release pack = record pack {
  version = release.version;
  manifest = release.manifest;
  sdk_version = release.sdk_version;
  min_kernel_version = release.min_kernel_version;
}

abbrev pub no_rows : DerivedRows
no_rows = record { agents = []; prompts = []; tools = []; definitions = [] }

-- Whether a row that `register` inserts has a key that is there.
abbrev pub violates_key : DerivedRows → Catalog → Bool
violates_key rows catalog =
    ids_conflict rows.agents catalog.agents
    || (has_conflict is_prompt rows.prompts catalog.prompts
        || ids_conflict rows.tools catalog.tools)

unfoldable pub install : Request → Release → DerivedRows → Catalog → Written
install request release rows catalog =
    let pack = registered request.occurred_at release in
    if is_some (lookup request.pack_id catalog.packs) || violates_key rows catalog
    then rolled_back already_registered
    else committed
        (record_transition request discovered installed (record catalog {
          packs = insert request.pack_id pack catalog.packs;
          agents = insert_all rows.agents catalog.agents;
          tools = insert_all rows.tools catalog.tools;
          prompts = add_all is_prompt rows.prompts catalog.prompts;
          definitions = add_all_missing is_definition rows.definitions catalog.definitions;
        }))
        pack

-- `none` is a `PackRegistrationError` of the derivation.
abbrev pub install_derived : Option DerivedRows → Request → Release → Catalog → Written
install_derived none request release catalog = rolled_back cannot_derive
install_derived (some rows) request release catalog = install request release rows catalog

-- `files` is what is below `pack_root`; with no `pack_root` no component is written.
unfoldable pub register : Option PackFiles → Request → Release → Catalog → Written
register none request release catalog = install request release no_rows catalog
register (some files) request release catalog =
    install_derived (derive_rows files request.pack_id release.manifest) request release catalog

-- The rows of the pack that the new manifest does not declare: `pack_id = ... AND id NOT IN ...`.
abbrev pub is_dropped_agent : String → DerivedRows → String → AgentRow → Bool
is_dropped_agent pack_id rows id row =
    str_eq row.pack_id pack_id && not (contains (keys rows.agents) id)

abbrev pub is_dropped_tool : String → DerivedRows → String → ToolRow → Bool
is_dropped_tool pack_id rows id row =
    str_eq row.pack_id pack_id && not (contains (keys rows.tools) id)

abbrev pub reconciled : String → DerivedRows → Catalog → Catalog
reconciled pack_id rows catalog = record catalog {
  agents = insert_all rows.agents (delete_where (is_dropped_agent pack_id rows) catalog.agents);
  tools = insert_all rows.tools (delete_where (is_dropped_tool pack_id rows) catalog.tools);
  prompts = add_all_missing is_prompt rows.prompts catalog.prompts;
  definitions = add_all_missing is_definition rows.definitions catalog.definitions;
}

-- An upsert of two rows with one id is refused by the database.
abbrev pub repeats_id : DerivedRows → Bool
repeats_id rows = has_repeats (keys rows.agents) || has_repeats (keys rows.tools)

-- The writes of `upgrade`, after its tests.
unfoldable pub replace : Request → Release → DerivedRows → PackRecord → Catalog → Written
replace request release rows pack catalog =
    let moved = upgraded release pack in
    if repeats_id rows
    then rolled_back database_error
    else committed
        (reconciled request.pack_id rows (
          record_transition request activated activated
            (record catalog { packs = insert request.pack_id moved catalog.packs })))
        moved

-- The versions of `packaging.version`: `parse` is the constructor, which may raise, and `is_at_most` is `<=`, and `text` is `str`.
pub record Versions : Type 1 where
  pub Version : Type 0
  pub parse : String → Option Version
  pub is_at_most : Version → Version → Bool
  pub text : Version → String

module _ (versions : Versions) where
  open versions use {Version, parse, is_at_most, text}

  abbrev pub upgrade_request : Version → Version → Request → Request
  upgrade_request current new request = record request {
    reason =
        append request.reason
          (append " (upgrade " (append (text current) (append " -> " (append (text new) ")"))));
  }

  -- The comparison with the version that is there.
  unfoldable pub upgrade_from :
      Option Version → Version → Request → Release → DerivedRows → PackRecord → Catalog → Written
  upgrade_from none new request release rows pack catalog = rolled_back invalid_version
  upgrade_from (some current) new request release rows pack catalog =
      if is_at_most new current
      then rolled_back not_newer
      else replace (upgrade_request current new request) release rows pack catalog

  unfoldable pub upgrade_locked :
      Option PackRecord → Version → Request → Release → DerivedRows → Catalog → Written
  upgrade_locked none new request release rows catalog = rolled_back not_found
  upgrade_locked (some pack) new request release rows catalog =
      if is_activated pack.state
      then upgrade_from (parse pack.version) new request release rows pack catalog
      else rolled_back (invalid_transition pack.state)

  abbrev pub upgrade_derived :
      Option Version → Option DerivedRows → Request → Release → Catalog → Written
  upgrade_derived none rows request release catalog = rolled_back invalid_version
  upgrade_derived (some new) none request release catalog = rolled_back cannot_derive
  upgrade_derived (some new) (some rows) request release catalog =
      upgrade_locked (lookup request.pack_id catalog.packs) new request release rows catalog

  unfoldable pub upgrade : PackFiles → Request → Release → Catalog → Written
  upgrade files request release catalog =
      upgrade_derived (parse release.version) (derive_rows files request.pack_id release.manifest)
        request release catalog
