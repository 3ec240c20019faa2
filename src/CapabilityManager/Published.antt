-- ===== src/CapabilityManager/Published.antt =====
-- That published versions of prompts and of workflow definitions are immutable (repository.py of the capability manager).
use ai_os.Prelude.{
  ◌≡◌, Bool, true, false, ◌&&◌, ◌||◌, Option, none, some, List, [], ◌∷◌, ◌++◌, String, str_eq,
  if◌then◌else◌, any, is_some, lookup, arith, if_cases, eq_iff,
}
use ai_os.CapabilityManager.{
  PackState, activated, deactivated, failed, Health, PackRecord, PromptRow, DefinitionRow, Catalog,
}
use ai_os.CapabilityManager.Derive.{PackFiles, DerivedRows}
use ai_os.CapabilityManager.Lifecycle.{
  Written, Request, Release, Versions, is_activatable, is_activated, move_to, move_locked,
  activated_values, with_state, activate, deactivate, mark_failed, with_health, record_health,
  is_prompt, is_definition, add_missing, add_all_missing, has_conflict, add_all, install,
  install_derived, register, no_rows, violates_key, repeats_id, replace, upgrade_from,
  upgrade_locked, upgrade_derived, upgrade, upgrade_request,
}
use ai_os.CapabilityManager.Reconcile.{catalog_of}
use ai_os.CapabilityManager.Log.{
  Command, registration, activation, deactivation, upgrade_of, failure, health_report, perform,
  history,
}

unfoldable pub find {ℓ} : {A : Type ℓ} → (A → Bool) → List A → Option A
find test [] = none
find test (row ∷ rows) = if test row then some row else find test rows

module _ {ℓ} {A : Type ℓ} (same : A → A → Bool) (test : A → Bool)
    (agrees : (a b : A) → test a ≡ true → test b ≡ true → same a b ≡ true) where
  any-find :
      (row found : A) (rows : List A)
      → test row ≡ true
      → find test rows ≡ some found
      → any (same row) rows ≡ true
  unfolding find
  any-find row found [] t e = ground (arith, e)
  any-find row found (other ∷ rows) t e =
      ground (arith, any-find row found rows t, agrees row other t, e)

  find-skip :
      (row found : A) (rows : List A)
      → any (same row) rows ≡ false
      → find test rows ≡ some found
      → find test (row ∷ rows) ≡ some found
  unfolding find
  find-skip row found rows fresh e =
      if_cases (λ o. o ≡ some found) (test row)
        (λ t. ground (arith, any-find row found rows t e, fresh)) (λ _. e)

  find-add_missing :
      (row found : A) (rows : List A)
      → find test rows ≡ some found
      → find test (add_missing same row rows) ≡ some found
  find-add_missing row found rows e =
      if_cases (λ l. find test l ≡ some found) (any (same row) rows) (λ _. e)
        (λ fresh. find-skip row found rows fresh e)

  find-add_all_missing :
      (new rows : List A) (found : A)
      → find test rows ≡ some found
      → find test (add_all_missing same new rows) ≡ some found
  unfolding add_all_missing
  find-add_all_missing [] rows found e = e
  find-add_all_missing (row ∷ new) rows found e =
      find-add_all_missing new (add_missing same row rows) found (find-add_missing row found rows e)

  find-add_all :
      (new rows : List A) (found : A)
      → has_conflict same new rows ≡ false
      → find test rows ≡ some found
      → find test (add_all same new rows) ≡ some found
  unfolding add_all has_conflict
  find-add_all [] rows found h e = e
  find-add_all (row ∷ new) rows found h e =
      find-add_all new (row ∷ rows) found (ground (arith, h))
        (find-skip row found rows (ground (arith, h)) e)

-- The published row of a version, as the key of the table finds it.
abbrev pub prompt_of : (prompt_id version : String) → Catalog → Option PromptRow
prompt_of prompt_id version catalog =
    find (λ (row : PromptRow). str_eq row.prompt_id prompt_id && str_eq row.version version)
      catalog.prompts

abbrev pub definition_of : (definition_id version : String) → Catalog → Option DefinitionRow
definition_of definition_id version catalog =
    find
      (λ (row : DefinitionRow).
        str_eq row.definition_id definition_id && str_eq row.version version)
      catalog.definitions

is_prompt-agrees :
    (prompt_id version : String) (a b : PromptRow)
    → (str_eq a.prompt_id prompt_id && str_eq a.version version) ≡ true
    → (str_eq b.prompt_id prompt_id && str_eq b.version version) ≡ true
    → is_prompt a b ≡ true
is_prompt-agrees prompt_id version a b s t = ground (
  arith,
  eq_iff a.prompt_id prompt_id,
  eq_iff a.version version,
  eq_iff b.prompt_id prompt_id,
  eq_iff b.version version,
  eq_iff b.prompt_id a.prompt_id,
  eq_iff b.version a.version,
)

is_definition-agrees :
    (definition_id version : String) (a b : DefinitionRow)
    → (str_eq a.definition_id definition_id && str_eq a.version version) ≡ true
    → (str_eq b.definition_id definition_id && str_eq b.version version) ≡ true
    → is_definition a b ≡ true
is_definition-agrees definition_id version a b s t = ground (
  arith,
  eq_iff a.definition_id definition_id,
  eq_iff a.version version,
  eq_iff b.definition_id definition_id,
  eq_iff b.version version,
  eq_iff b.definition_id a.definition_id,
  eq_iff b.version a.version,
)

module _ (id version : String) where
  -- What is published under a key stays published.
  abbrev Keeps : Catalog → Catalog → Type 0
  Keeps before after =
      ((row : PromptRow)
        → prompt_of id version before ≡ some row
        → prompt_of id version after ≡ some row)
      × ((row : DefinitionRow)
          → definition_of id version before ≡ some row
          → definition_of id version after ≡ some row)

  Keeps-same : (catalog : Catalog) → Keeps catalog catalog
  Keeps-same catalog = (λ row e. e, λ row e. e)

  module _ (before : Catalog) where
    -- That holds of both results of a test.
    either-Keeps :
        (test : Bool) (first second : Written)
        → (test ≡ true → Keeps before (catalog_of before first))
        → (test ≡ false → Keeps before (catalog_of before second))
        → Keeps before (catalog_of before (if test then first else second))
    either-Keeps test first second h k = if_cases (λ w. Keeps before (catalog_of before w)) test h k

    move_locked-Keeps :
        (found : Option PackRecord) (allows : PackState → Bool) (request : Request) (to : PackState)
        (values : PackRecord → PackRecord)
        → Keeps before (catalog_of before (move_locked found allows request to values before))
    unfolding move_locked move_to
    move_locked-Keeps none allows request to values = Keeps-same before
    move_locked-Keeps (some pack) allows request to values =
        either-Keeps (allows pack.state) _ _ (λ _. Keeps-same before) (λ _. Keeps-same before)

    with_health-Keeps :
        (found : Option PackRecord) (pack_id : String) (health : Health)
        → Keeps before (with_health found pack_id health before)
    with_health-Keeps none pack_id health = Keeps-same before
    with_health-Keeps (some pack) pack_id health = Keeps-same before

    install-Keeps :
        (request : Request) (release : Release) (rows : DerivedRows)
        → Keeps before (catalog_of before (install request release rows before))
    unfolding install
    install-Keeps request release rows =
        either-Keeps (is_some (lookup request.pack_id before.packs) || violates_key rows before) _ _
          (λ _. Keeps-same before)
          (λ fresh. (
            λ row.
                find-add_all is_prompt _ (is_prompt-agrees id version) rows.prompts before.prompts
                  row (ground (arith, fresh)),
            λ row.
                find-add_all_missing is_definition _ (is_definition-agrees id version)
                  rows.definitions before.definitions row,
          ))

    install_derived-Keeps :
        (rows : Option DerivedRows) (request : Request) (release : Release)
        → Keeps before (catalog_of before (install_derived rows request release before))
    install_derived-Keeps none request release = Keeps-same before
    install_derived-Keeps (some rows) request release = install-Keeps request release rows

    register-Keeps :
        (files : Option PackFiles) (request : Request) (release : Release)
        → Keeps before (catalog_of before (register files request release before))
    unfolding register
    register-Keeps none request release = install-Keeps request release no_rows
    register-Keeps (some files) request release = install_derived-Keeps _ request release

    replace-Keeps :
        (request : Request) (release : Release) (rows : DerivedRows) (pack : PackRecord)
        → Keeps before (catalog_of before (replace request release rows pack before))
    unfolding replace
    replace-Keeps request release rows pack =
        either-Keeps (repeats_id rows) _ _ (λ _. Keeps-same before)
          (λ _. (
            λ row.
                find-add_all_missing is_prompt _ (is_prompt-agrees id version) rows.prompts
                  before.prompts row,
            λ row.
                find-add_all_missing is_definition _ (is_definition-agrees id version)
                  rows.definitions before.definitions row,
          ))

    module _ (versions : Versions) where
      open versions use {Version, parse, is_at_most}

      upgrade_from-Keeps :
          (current : Option Version) (new : Version) (request : Request) (release : Release)
          (rows : DerivedRows) (pack : PackRecord)
          → Keeps before (
              catalog_of before
                (upgrade_from versions current new request release rows pack before))
      unfolding upgrade_from
      upgrade_from-Keeps none new request release rows pack = Keeps-same before
      upgrade_from-Keeps (some current) new request release rows pack =
          either-Keeps (is_at_most new current) _ _ (λ _. Keeps-same before)
            (λ _. replace-Keeps (upgrade_request versions current new request) release rows pack)

      upgrade_locked-Keeps :
          (found : Option PackRecord) (new : Version) (request : Request) (release : Release)
          (rows : DerivedRows)
          → Keeps before
              (catalog_of before (upgrade_locked versions found new request release rows before))
      unfolding upgrade_locked
      upgrade_locked-Keeps none new request release rows = Keeps-same before
      upgrade_locked-Keeps (some pack) new request release rows =
          either-Keeps (is_activated pack.state) _ _
            (λ _. upgrade_from-Keeps (parse pack.version) new request release rows pack)
            (λ _. Keeps-same before)

      upgrade_derived-Keeps :
          (new : Option Version) (rows : Option DerivedRows) (request : Request) (release : Release)
          → Keeps before
              (catalog_of before (upgrade_derived versions new rows request release before))
      upgrade_derived-Keeps none rows request release = Keeps-same before
      upgrade_derived-Keeps (some new) none request release = Keeps-same before
      upgrade_derived-Keeps (some new) (some rows) request release =
          upgrade_locked-Keeps (lookup request.pack_id before.packs) new request release rows

      perform-Keeps : (c : Command) → Keeps before (perform versions c before)
      unfolding perform activate deactivate mark_failed upgrade record_health
      perform-Keeps (registration files request release) = register-Keeps files request release
      perform-Keeps (activation request) =
          move_locked-Keeps _ is_activatable request activated
            (activated_values request.occurred_at)
      perform-Keeps (deactivation request) =
          move_locked-Keeps _ is_activated request deactivated (with_state deactivated)
      perform-Keeps (upgrade_of files request release) = upgrade_derived-Keeps _ _ request release
      perform-Keeps (failure request) =
          move_locked-Keeps _ is_activated request failed (with_state failed)
      perform-Keeps (health_report pack_id health) =
          with_health-Keeps (lookup pack_id before.packs) pack_id health

  history-Keeps :
      (versions : Versions) (calls earlier : List Command)
      → Keeps (history versions earlier) (history versions (calls ++ earlier))
  unfolding history
  history-Keeps versions [] earlier = Keeps-same (history versions earlier)
  history-Keeps versions (c ∷ calls) earlier =
      let before = history versions (calls ++ earlier) in
      let (prompts, definitions) = history-Keeps versions calls earlier in
      let (also_prompts, also_definitions) = perform-Keeps before versions c in
      (λ row e. also_prompts row (prompts row e), λ row e. also_definitions row (definitions row e))

-- What a version of a prompt is, once it is published, stays so whatever calls follow, upgrades and registrations of other
-- packs included; and the same of a version of a workflow definition.
pub published_versions_stay :
    (versions : Versions) (calls earlier : List Command) (prompt_id prompt_version : String)
    (definition_id definition_version : String) (prompt : PromptRow) (definition : DefinitionRow)
    → prompt_of prompt_id prompt_version (history versions earlier) ≡ some prompt
    → definition_of definition_id definition_version (history versions earlier) ≡ some definition
    → (prompt_of prompt_id prompt_version (history versions (calls ++ earlier)) ≡ some prompt)
      × (definition_of definition_id definition_version (history versions (calls ++ earlier))
          ≡ some definition)
published_versions_stay versions calls earlier p v d w prompt definition found also_found = (
  (history-Keeps p v versions calls earlier).0 prompt found,
  (history-Keeps d w versions calls earlier).1 definition also_found,
)
