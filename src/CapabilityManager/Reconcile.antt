-- ===== src/CapabilityManager/Reconcile.antt =====
-- What an upgrade leaves of the components of packs (repository.py of the capability manager).
use ai_os.Prelude.{
  ◌≡◌, Bool, not, ◌&&◌, Option, none, some, List, String, str_eq, if◌then◌else◌, is_some, lookup,
  contains, keys, delete_where, insert_all, Distinct, unless_deleted, or_else, lookup-delete_where,
  lookup-insert_all, is_some-contains, arith, ◌∙◌, ap, subst, refl, sym, if_cases,
}
use ai_os.CapabilityManager.{AgentRow, ToolRow, PackRecord, Catalog}
use ai_os.CapabilityManager.Derive.{PackFiles, DerivedRows, derive_rows}
use ai_os.CapabilityManager.Lifecycle.{
  Written, committed, rolled_back, Request, Release, Versions, reconciled, repeats_id, replace,
  upgrade_from, upgrade_locked, upgrade_derived, upgrade, upgrade_request, is_activated,
}

abbrev pub catalog_of : Catalog → Written → Catalog
catalog_of before (committed after pack) = after
catalog_of before (rolled_back e) = before

-- The rows that a reconciliation drops, among all rows.
abbrev is_dropped {ℓ} : {V : Type ℓ} → (V → Bool) → List String → String → V → Bool
is_dropped owned ids id row = owned row && not (contains ids id)

module _ {ℓ} {V : Type ℓ} (owned : V → Bool) where
  -- A row that is kept if it belongs to another pack.
  abbrev pub of_others : Option V → Option V
  of_others none = none
  of_others (some row) = if owned row then none else some row

  declared_or_kept :
      (new old : Option V) (ids : List String) (id : String)
      → is_some new ≡ contains ids id
      → or_else new (unless_deleted (is_dropped owned ids) id old) ≡ or_else new (of_others old)
  declared_or_kept (some row) old ids id e = refl
  declared_or_kept none none ids id e = refl
  declared_or_kept none (some row) ids id e = ground (arith, e)

  lookup-reconciled :
      (new table : List (String × V)) (id : String)
      → Distinct table
      → lookup id (insert_all new (delete_where (is_dropped owned (keys new)) table))
        ≡ or_else (lookup id new) (of_others (lookup id table))
  lookup-reconciled new table id h =
      lookup-insert_all new (delete_where (is_dropped owned (keys new)) table) id
      ∙ ap (or_else (lookup id new)) (lookup-delete_where (is_dropped owned (keys new)) id table h)
      ∙ declared_or_kept (lookup id new) (lookup id table) (keys new) id (is_some-contains id new)

abbrev pub agent_owned_by : String → AgentRow → Bool
agent_owned_by pack_id row = str_eq row.pack_id pack_id

abbrev pub tool_owned_by : String → ToolRow → Bool
tool_owned_by pack_id row = str_eq row.pack_id pack_id

-- The tables of agents and of tools after a catalogue was reconciled with the rows of a pack.
abbrev pub IsReconciled : String → DerivedRows → Catalog → Catalog → Type 0
IsReconciled pack_id rows before after =
    ((id : String)
      → lookup id after.agents
        ≡ or_else (lookup id rows.agents)
            (of_others (agent_owned_by pack_id) (lookup id before.agents)))
    × ((id : String)
        → lookup id after.tools
          ≡ or_else (lookup id rows.tools)
              (of_others (tool_owned_by pack_id) (lookup id before.tools)))

reconciled-IsReconciled :
    (pack_id : String) (rows : DerivedRows) (before : Catalog)
    → Distinct before.agents
    → Distinct before.tools
    → IsReconciled pack_id rows before (reconciled pack_id rows before)
reconciled-IsReconciled pack_id rows before agents tools = (
  λ id. lookup-reconciled (agent_owned_by pack_id) rows.agents before.agents id agents,
  λ id. lookup-reconciled (tool_owned_by pack_id) rows.tools before.tools id tools,
)

-- A result that is either refused or reconciled.
abbrev Reconciles : String → DerivedRows → Catalog → Written → Type 0
Reconciles pack_id rows before result =
    (after : Catalog) (pack : PackRecord)
    → result ≡ committed after pack
    → IsReconciled pack_id rows before after

module _ (rows : DerivedRows) (before : Catalog) (agents : Distinct before.agents)
    (tools : Distinct before.tools) where
  refused-Reconciles :
      (request : Request) (e : _) → Reconciles request.pack_id rows before (rolled_back e)
  refused-Reconciles request e after pack h = ground (arith, h)

  replace-Reconciles :
      (request : Request) (release : Release) (pack : PackRecord)
      → Reconciles request.pack_id rows before (replace request release rows pack before)
  unfolding replace
  replace-Reconciles request release pack after row =
      if_cases
        (λ result. result ≡ committed after row → IsReconciled request.pack_id rows before after)
        (repeats_id rows) (λ _. refused-Reconciles request _ after row)
        (λ _ e.
          subst (IsReconciled request.pack_id rows before) (ap (catalog_of before) e)
            (reconciled-IsReconciled request.pack_id rows before agents tools))

  module _ (versions : Versions) where
    open versions use {Version, parse, is_at_most}

    upgrade_from-Reconciles :
        (current : Option Version) (new : Version) (request : Request) (release : Release)
        (pack : PackRecord)
        → Reconciles request.pack_id rows before
            (upgrade_from versions current new request release rows pack before)
    unfolding upgrade_from
    upgrade_from-Reconciles none new request release pack after row =
        refused-Reconciles request _ after row
    upgrade_from-Reconciles (some current) new request release pack after row =
        if_cases
          (λ result. result ≡ committed after row → IsReconciled request.pack_id rows before after)
          (is_at_most new current) (λ _. refused-Reconciles request _ after row)
          (λ _.
            replace-Reconciles (upgrade_request versions current new request) release pack after
              row)

    upgrade_locked-Reconciles :
        (found : Option PackRecord) (new : Version) (request : Request) (release : Release)
        → Reconciles request.pack_id rows before
            (upgrade_locked versions found new request release rows before)
    unfolding upgrade_locked
    upgrade_locked-Reconciles none new request release after row =
        refused-Reconciles request _ after row
    upgrade_locked-Reconciles (some pack) new request release after row =
        if_cases
          (λ result. result ≡ committed after row → IsReconciled request.pack_id rows before after)
          (is_activated pack.state)
          (λ _. upgrade_from-Reconciles (parse pack.version) new request release pack after row)
          (λ _. refused-Reconciles request _ after row)

    upgrade_derived-Reconciles :
        (new : Option Version) (request : Request) (release : Release)
        → Reconciles request.pack_id rows before
            (upgrade_derived versions new (some rows) request release before)
    upgrade_derived-Reconciles none request release after row =
        refused-Reconciles request _ after row
    upgrade_derived-Reconciles (some new) request release after row =
        upgrade_locked-Reconciles (lookup request.pack_id before.packs) new request release after
          row

-- On tables whose ids are distinct, an upgrade that is committed leaves under each id the agent, and the tool, that the new
-- manifest declares; where it declares none, what stood there before, but no row of the pack itself.
pub upgrade_reconciles :
    (versions : Versions) (files : PackFiles) (request : Request) (release : Release)
    (rows : DerivedRows) (before after : Catalog) (pack : PackRecord)
    → Distinct before.agents
    → Distinct before.tools
    → derive_rows files request.pack_id release.manifest ≡ some rows
    → upgrade versions files request release before ≡ committed after pack
    → IsReconciled request.pack_id rows before after
unfolding upgrade
upgrade_reconciles versions files request release rows before after pack agents tools derived e =
    upgrade_derived-Reconciles rows before agents tools versions (versions.parse release.version)
      request release after pack
      (ap (λ o. upgrade_derived versions (versions.parse release.version) o request release before)
          (sym derived)
        ∙ e)
