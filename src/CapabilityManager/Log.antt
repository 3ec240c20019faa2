-- ===== src/CapabilityManager/Log.antt =====
-- The log of the transitions of packs (repository.py of the capability manager), over any history of calls.
use ai_os.Prelude.{
  ◌≡◌, Bool, true, false, ◌||◌, Option, none, some, List, [], ◌∷◌, String, str_eq, if◌then◌else◌,
  is_some, lookup, insert, lookup-insert, arith, ◌∙◌, ap, subst, refl, sym, if_cases, eq_iff,
}
use ai_os.CapabilityManager.{
  PackState, discovered, validated, installed, configured, activated, deactivated, failed,
  uninstalled, Health, PackRecord, TransitionRow, Catalog,
}
use ai_os.CapabilityManager.Derive.{PackFiles, DerivedRows, derive_rows}
use ai_os.CapabilityManager.Lifecycle.{
  Request, Release, Versions, is_activatable, is_activated, record_transition, move_to, move_locked,
  activated_values, with_state, activate, deactivate, mark_failed, record_health, with_health,
  install, install_derived, register, no_rows, registered, violates_key, repeats_id, replace,
  upgrade_from, upgrade_locked, upgrade_derived, upgrade, upgrade_request, upgraded,
}
use ai_os.CapabilityManager.Reconcile.{catalog_of}

-- A call of the repository that writes.
pub data Command : Type 0 where
  registration : (files : Option PackFiles) → Request → Release → Command
  activation : Request → Command
  deactivation : Request → Command
  upgrade_of : PackFiles → Request → Release → Command
  failure : Request → Command
  health_report : (pack_id : String) → Health → Command

unfoldable pub perform : Versions → Command → Catalog → Catalog
perform versions (registration files request release) catalog =
    catalog_of catalog (register files request release catalog)
perform versions (activation request) catalog = catalog_of catalog (activate request catalog)
perform versions (deactivation request) catalog = catalog_of catalog (deactivate request catalog)
perform versions (upgrade_of files request release) catalog =
    catalog_of catalog (upgrade versions files request release catalog)
perform versions (failure request) catalog = catalog_of catalog (mark_failed request catalog)
perform versions (health_report pack_id health) catalog = record_health pack_id health catalog

abbrev pub empty : Catalog
empty = record {
  packs = [];
  transitions = [];
  agents = [];
  tools = [];
  prompts = [];
  definitions = [];
}

-- The catalogue after a history of calls, the latest first.
unfoldable pub history : Versions → List Command → Catalog
history versions [] = empty
history versions (c ∷ earlier) = perform versions c (history versions earlier)

-- The moves of the lifecycle.
pub data Moves : PackState → PackState → Type 0 where
  installs : Moves discovered installed
  activates : Moves installed activated
  reactivates : Moves deactivated activated
  deactivates : Moves activated deactivated
  upgrades : Moves activated activated
  fails : Moves activated failed

-- The state of a pack, where one that has no row counts as discovered.
abbrev pub state_of : Option PackRecord → PackState
state_of none = discovered
state_of (some pack) = pack.state

-- The state that the log says a pack is in.
unfoldable pub logged_state : String → List TransitionRow → PackState
logged_state pack_id [] = discovered
logged_state pack_id (row ∷ rows) =
    if str_eq row.pack_id pack_id then row.to_state else logged_state pack_id rows

-- The transitions of a pack, each from the state that the one before it reached, by a move of the lifecycle.
pub data IsChain (pack_id : String) : List TransitionRow → Type 0 where
  starts : IsChain pack_id []
  of_another :
      (row : TransitionRow) (rows : List TransitionRow)
      → str_eq row.pack_id pack_id ≡ false
      → IsChain pack_id rows
      → IsChain pack_id (row ∷ rows)
  goes_on :
      (row : TransitionRow) (rows : List TransitionRow)
      → row.from_state ≡ logged_state pack_id rows
      → Moves row.from_state row.to_state
      → IsChain pack_id rows
      → IsChain pack_id (row ∷ rows)

abbrev Agrees : String → Catalog → Type 0
Agrees pack_id catalog =
    (logged_state pack_id catalog.transitions ≡ state_of (lookup pack_id catalog.packs))
    × IsChain pack_id catalog.transitions

-- What a call does to the packs and to the log.
data Follows (before : Catalog) : Catalog → Type 0 where
  changes_nothing : Follows before before
  moves :
      (request : Request) (from to : PackState) (pack : PackRecord) (after : Catalog)
      → after.packs ≡ insert request.pack_id pack before.packs
      → after.transitions ≡ (record_transition request from to before).transitions
      → from ≡ state_of (lookup request.pack_id before.packs)
      → pack.state ≡ to
      → Moves from to
      → Follows before after
  updates :
      (pack_id : String) (pack : PackRecord) (after : Catalog)
      → after.packs ≡ insert pack_id pack before.packs
      → after.transitions ≡ before.transitions
      → pack.state ≡ state_of (lookup pack_id before.packs)
      → Follows before after

state_of-insert :
    (key p : String) (pack : PackRecord) (packs : List (String × PackRecord))
    → state_of (lookup p (insert key pack packs))
      ≡ (if str_eq key p then pack.state else state_of (lookup p packs))
state_of-insert key p pack packs = ground (arith, lookup-insert key p pack packs)

-- The log and the row after a move, by whether it is of the same pack.
moved-Agrees :
    (p : String) (request : Request) (from to : PackState) (pack : PackRecord) (before : Catalog)
    (same : Bool)
    → str_eq request.pack_id p ≡ same
    → from ≡ state_of (lookup request.pack_id before.packs)
    → pack.state ≡ to
    → Moves from to
    → Agrees p before
    → (logged_state p (record_transition request from to before).transitions
        ≡ state_of (lookup p (insert request.pack_id pack before.packs)))
      × IsChain p (record_transition request from to before).transitions
unfolding logged_state
moved-Agrees p request from to pack before true same from_is to_is m (agree, chain) =
    let is_p : request.pack_id ≡ p = (eq_iff request.pack_id p).0 same in
    (
      rw same
          (sym to_is ∙ sym (state_of-insert request.pack_id p pack before.packs ∙ rw same refl)),
      goes_on _ before.transitions
          (from_is ∙ ap (λ k. state_of (lookup k before.packs)) is_p ∙ sym agree) m chain,
    )
moved-Agrees p request from to pack before false same from_is to_is m (agree, chain) = (
  rw same (agree ∙ sym (state_of-insert request.pack_id p pack before.packs ∙ rw same refl)),
  of_another _ before.transitions same chain,
)

Follows-Agrees :
    (p : String) (before after : Catalog) → Follows before after → Agrees p before → Agrees p after
Follows-Agrees p before _ changes_nothing h = h
Follows-Agrees p before after (moves request from to pack _ packs_are log_is from_is to_is m) h =
    subst
      (λ packs.
        (logged_state p after.transitions ≡ state_of (lookup p packs))
        × IsChain p after.transitions)
      (sym packs_are)
      (subst
        (λ log.
          (logged_state p log ≡ state_of (lookup p (insert request.pack_id pack before.packs)))
          × IsChain p log)
        (sym log_is)
        (moved-Agrees p request from to pack before (str_eq request.pack_id p) refl from_is to_is m
          h))
Follows-Agrees p before after (updates pack_id pack _ packs_are log_is same) (agree, chain) = (
  ap (logged_state p) log_is
      ∙ agree
      ∙ sym (
          ap (λ packs. state_of (lookup p packs)) packs_are
          ∙ state_of-insert pack_id p pack before.packs
          ∙ if_cases (λ s. s ≡ state_of (lookup p before.packs)) (str_eq pack_id p)
              (λ t. same ∙ ap (λ k. state_of (lookup k before.packs)) ((eq_iff pack_id p).0 t))
              (λ t. refl)),
  subst (IsChain p) (sym log_is) chain,
)

is_activatable-Moves : (s : PackState) → is_activatable s ≡ true → Moves s activated
is_activatable-Moves installed h = activates
is_activatable-Moves deactivated h = reactivates
is_activatable-Moves discovered h = ground (arith, h)
is_activatable-Moves validated h = ground (arith, h)
is_activatable-Moves configured h = ground (arith, h)
is_activatable-Moves activated h = ground (arith, h)
is_activatable-Moves failed h = ground (arith, h)
is_activatable-Moves uninstalled h = ground (arith, h)

is_activated-activated : (s : PackState) → is_activated s ≡ true → s ≡ activated
is_activated-activated s h = ground (arith, h)

from_activated :
    (to : PackState) → Moves activated to → (s : PackState) → is_activated s ≡ true → Moves s to
from_activated to m s h = subst (λ x. Moves x to) (sym (is_activated-activated s h)) m

module _ (before : Catalog) where
  move_locked-Follows :
      (found : Option PackRecord) (allows : PackState → Bool) (request : Request) (to : PackState)
      (values : PackRecord → PackRecord)
      → lookup request.pack_id before.packs ≡ found
      → ((s : PackState) → allows s ≡ true → Moves s to)
      → ((pack : PackRecord) → (values pack).state ≡ to)
      → Follows before (catalog_of before (move_locked found allows request to values before))
  unfolding move_locked move_to
  move_locked-Follows none allows request to values e m v = changes_nothing
  move_locked-Follows (some pack) allows request to values e m v =
      if_cases (λ result. Follows before (catalog_of before result)) (allows pack.state)
        (λ allowed.
          moves request pack.state to (values pack) _ refl refl (sym (ap state_of e)) (v pack)
            (m pack.state allowed))
        (λ _. changes_nothing)

  install-Follows :
      (request : Request) (release : Release) (rows : DerivedRows)
      → Follows before (catalog_of before (install request release rows before))
  unfolding install
  install-Follows request release rows =
      if_cases (λ result. Follows before (catalog_of before result))
        (is_some (lookup request.pack_id before.packs) || violates_key rows before)
        (λ _. changes_nothing)
        (λ t.
          moves request discovered installed (registered request.occurred_at release) _ refl refl
            (ground (arith, t)) refl installs)

  register-Follows :
      (files : Option PackFiles) (request : Request) (release : Release)
      → Follows before (catalog_of before (register files request release before))
  unfolding register
  register-Follows none request release = install-Follows request release no_rows
  register-Follows (some files) request release =
      elim (derive_rows files request.pack_id release.manifest)
        as (λ o. Follows before (catalog_of before (install_derived o request release before))) [
          | none ↦ changes_nothing
          | some rows ↦ install-Follows request release rows
        ]

  replace-Follows :
      (request : Request) (release : Release) (rows : DerivedRows) (pack : PackRecord)
      → lookup request.pack_id before.packs ≡ some pack
      → pack.state ≡ activated
      → Follows before (catalog_of before (replace request release rows pack before))
  unfolding replace
  replace-Follows request release rows pack e s =
      if_cases (λ result. Follows before (catalog_of before result)) (repeats_id rows)
        (λ _. changes_nothing)
        (λ _.
          moves request activated activated (upgraded release pack) _ refl refl
            (sym (ap state_of e ∙ s)) s upgrades)

  with_health-Follows :
      (found : Option PackRecord) (pack_id : String) (health : Health)
      → lookup pack_id before.packs ≡ found
      → Follows before (with_health found pack_id health before)
  with_health-Follows none pack_id health e = changes_nothing
  with_health-Follows (some pack) pack_id health e =
      updates pack_id (record pack { health = some health }) _ refl refl (sym (ap state_of e))

  module _ (versions : Versions) where
    open versions use {Version, parse, is_at_most}

    upgrade_from-Follows :
        (current : Option Version) (new : Version) (request : Request) (release : Release)
        (rows : DerivedRows) (pack : PackRecord)
        → lookup request.pack_id before.packs ≡ some pack
        → pack.state ≡ activated
        → Follows before
            (catalog_of before (upgrade_from versions current new request release rows pack before))
    unfolding upgrade_from
    upgrade_from-Follows none new request release rows pack e s = changes_nothing
    upgrade_from-Follows (some current) new request release rows pack e s =
        if_cases (λ result. Follows before (catalog_of before result)) (is_at_most new current)
          (λ _. changes_nothing)
          (λ _.
            replace-Follows (upgrade_request versions current new request) release rows pack e s)

    upgrade_locked-Follows :
        (found : Option PackRecord) (new : Version) (request : Request) (release : Release)
        (rows : DerivedRows)
        → lookup request.pack_id before.packs ≡ found
        → Follows before
            (catalog_of before (upgrade_locked versions found new request release rows before))
    unfolding upgrade_locked
    upgrade_locked-Follows none new request release rows e = changes_nothing
    upgrade_locked-Follows (some pack) new request release rows e =
        if_cases (λ result. Follows before (catalog_of before result)) (is_activated pack.state)
          (λ t.
            upgrade_from-Follows (parse pack.version) new request release rows pack e
              (is_activated-activated pack.state t))
          (λ _. changes_nothing)

    upgrade_derived-Follows :
        (new : Option Version) (rows : Option DerivedRows) (request : Request) (release : Release)
        → Follows before
            (catalog_of before (upgrade_derived versions new rows request release before))
    upgrade_derived-Follows none rows request release = changes_nothing
    upgrade_derived-Follows (some new) none request release = changes_nothing
    upgrade_derived-Follows (some new) (some rows) request release =
        upgrade_locked-Follows (lookup request.pack_id before.packs) new request release rows refl

    perform-Follows : (c : Command) → Follows before (perform versions c before)
    unfolding perform activate deactivate mark_failed upgrade record_health
    perform-Follows (registration files request release) = register-Follows files request release
    perform-Follows (activation request) =
        move_locked-Follows (lookup request.pack_id before.packs) is_activatable request activated
          (activated_values request.occurred_at) refl is_activatable-Moves (λ _. refl)
    perform-Follows (deactivation request) =
        move_locked-Follows (lookup request.pack_id before.packs) is_activated request deactivated
          (with_state deactivated) refl (from_activated deactivated deactivates) (λ _. refl)
    perform-Follows (upgrade_of files request release) = upgrade_derived-Follows _ _ request release
    perform-Follows (failure request) =
        move_locked-Follows (lookup request.pack_id before.packs) is_activated request failed
          (with_state failed) refl (from_activated failed fails) (λ _. refl)
    perform-Follows (health_report pack_id health) =
        with_health-Follows (lookup pack_id before.packs) pack_id health refl

-- After any history of calls on an empty catalogue, the log of a pack says the state that its row has (discovered, if it
-- has no row), and each of its transitions starts in the state that the one before it reached and is a move of the lifecycle.
pub history-IsChain :
    (versions : Versions) (calls : List Command) (pack_id : String)
    → (logged_state pack_id (history versions calls).transitions
        ≡ state_of (lookup pack_id (history versions calls).packs))
      × IsChain pack_id (history versions calls).transitions
unfolding history lookup logged_state
history-IsChain versions [] pack_id = (refl, starts)
history-IsChain versions (c ∷ earlier) pack_id =
    let before = history versions earlier in
    Follows-Agrees pack_id before (perform versions c before) (perform-Follows before versions c)
      (history-IsChain versions earlier pack_id)
