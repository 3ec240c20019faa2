-- ===== src/CapabilityManager/Polling.antt =====
-- kernel/src/ai_os_kernel/capability_manager/health_poller.py, `poll_pack_health`, with no other writer between its
-- reads and writes. Whether an agent resolves in time is a parameter of each poll.
use ai_os.Prelude.{
  ℕ, ◌+◌, ◌≡◌, Bool, true, false, not, ◌&&◌, ◌||◌, Option, none, some, List, [], ◌∷◌, String,
  str_eq, if◌then◌else◌, lookup, lookup-insert_self, leb, any, arith, ◌∙◌, subst, refl, sym,
  Bool-cases, inl, inr,
}
use ai_os.CapabilityManager.{activated, failed, AgentRow, Health, PackRecord, Catalog}
use ai_os.CapabilityManager.Lifecycle.{
  Request, is_activated, with_state, with_health, record_health, mark_failed, move_locked, move_to,
}
use ai_os.CapabilityManager.Reconcile.{catalog_of}

abbrev pub consecutive_failure_threshold : ℕ
consecutive_failure_threshold = 3

-- A poll: who asks, when, and which agents resolve in time.
pub record Poll : Type 0 where
  pub actor : String
  pub reason : String
  pub occurred_at : ℕ
  pub resolves : (agent_id : String) → Bool

-- That some agent of the pack is in `failed_agents`.
abbrev pub is_unhealthy : (pack_id : String) → Poll → List (String × AgentRow) → Bool
is_unhealthy pack_id poll agents =
    any
      (λ (entry : String × AgentRow). str_eq entry.1.pack_id pack_id && not (poll.resolves entry.0))
      agents

abbrev pub failures_in : Option Health → ℕ
failures_in none = 0
failures_in (some health) = health.consecutive_failures

abbrev pub failures_of : Option PackRecord → ℕ
failures_of none = 0
failures_of (some pack) = failures_in pack.health

abbrev pub health_of : (unhealthy : Bool) → (previous : ℕ) → Health
health_of true previous = record { status = "unhealthy"; consecutive_failures = previous + 1 }
health_of false previous = record { status = "healthy"; consecutive_failures = 0 }

abbrev pub failure_request : String → Poll → Request
failure_request pack_id poll = record {
  pack_id = pack_id;
  actor = poll.actor;
  reason = poll.reason;
  occurred_at = poll.occurred_at;
}

-- `mark_failed` at the threshold, its errors suppressed.
unfoldable pub fail_at_threshold : String → Poll → Health → Catalog → Catalog
fail_at_threshold pack_id poll health catalog =
    if leb consecutive_failure_threshold health.consecutive_failures
    then catalog_of catalog (mark_failed (failure_request pack_id poll) catalog)
    else catalog

unfoldable pub poll_pack_health : (pack_id : String) → Poll → Catalog → Catalog
poll_pack_health pack_id poll catalog =
    let health =
      health_of (is_unhealthy pack_id poll catalog.agents)
        (failures_of (lookup pack_id catalog.packs)) in
    fail_at_threshold pack_id poll health (record_health pack_id health catalog)

-- The catalogue after some polls of a pack, the latest first.
unfoldable pub poll_all : (pack_id : String) → List Poll → Catalog → Catalog
poll_all pack_id [] catalog = catalog
poll_all pack_id (poll ∷ earlier) catalog =
    poll_pack_health pack_id poll (poll_all pack_id earlier catalog)

-- How many polls in a row, up to the latest one, found the pack unhealthy.
unfoldable pub streak : (pack_id : String) → List (String × AgentRow) → List Poll → ℕ
streak pack_id agents [] = 0
streak pack_id agents (poll ∷ earlier) =
    let before = streak pack_id agents earlier in
    if is_unhealthy pack_id poll agents then before + 1 else 0

-- That this reached the threshold at some poll.
unfoldable pub has_reached_threshold :
    (pack_id : String) → List (String × AgentRow) → List Poll → Bool
has_reached_threshold pack_id agents [] = false
has_reached_threshold pack_id agents (poll ∷ earlier) =
    leb consecutive_failure_threshold (streak pack_id agents (poll ∷ earlier))
    || has_reached_threshold pack_id agents earlier

-- The row that `mark_failed` leaves.
abbrev marked : PackRecord → PackRecord
marked row = if is_activated row.state then with_state failed row else row

module _ (request : Request) (row : PackRecord) (before : Catalog) where
  move_locked-row :
      lookup request.pack_id before.packs ≡ some row
      → let after =
          catalog_of before
            (move_locked (some row) is_activated request failed (with_state failed) before) in
        (lookup request.pack_id after.packs ≡ some (marked row)) × (after.agents ≡ before.agents)
  unfolding move_locked move_to
  move_locked-row found = elim (Bool-cases (is_activated row.state)) [
    | inl t ↦ rw t (lookup-insert_self request.pack_id (with_state failed row) before.packs, refl)
    | inr t ↦ rw t (found, refl)
  ]

  mark_failed-row :
      lookup request.pack_id before.packs ≡ some row
      → let after = catalog_of before (mark_failed request before) in
        (lookup request.pack_id after.packs ≡ some (marked row)) × (after.agents ≡ before.agents)
  unfolding mark_failed
  mark_failed-row found =
      subst
        (λ o.
          let after =
            catalog_of before
              (move_locked o is_activated request failed (with_state failed) before) in
          (lookup request.pack_id after.packs ≡ some (marked row)) × (after.agents ≡ before.agents))
        (sym found) (move_locked-row found)

-- The row that a poll leaves.
abbrev polled : Bool → PackRecord → PackRecord
polled unhealthy row =
    let health = health_of unhealthy (failures_of (some row)) in
    if leb consecutive_failure_threshold health.consecutive_failures
    then marked (record row { health = some health })
    else record row { health = some health }

module _ (pack_id : String) (poll : Poll) (health : Health) (row : PackRecord) (before : Catalog)
    (found : lookup pack_id before.packs ≡ some row) where
  record_health-row :
      let after = record_health pack_id health before in
      (lookup pack_id after.packs ≡ some (record row { health = some health }))
      × (after.agents ≡ before.agents)
  unfolding record_health
  record_health-row =
      subst
        (λ o.
          let after = with_health o pack_id health before in
          (lookup pack_id after.packs ≡ some (record row { health = some health }))
          × (after.agents ≡ before.agents))
        (sym found)
        (lookup-insert_self pack_id (record row { health = some health }) before.packs, refl)

  fail_at_threshold-row :
      let after = fail_at_threshold pack_id poll health before in
      (lookup pack_id after.packs
        ≡ some (
            if leb consecutive_failure_threshold health.consecutive_failures
            then marked row
            else row))
      × (after.agents ≡ before.agents)
  unfolding fail_at_threshold
  fail_at_threshold-row =
      elim (Bool-cases (leb consecutive_failure_threshold health.consecutive_failures)) [
        | inl t ↦ rw t (mark_failed-row (failure_request pack_id poll) row before found)
        | inr t ↦ rw t (found, refl)
      ]

poll_pack_health-row :
    (pack_id : String) (poll : Poll) (row : PackRecord) (before : Catalog)
    → lookup pack_id before.packs ≡ some row
    → let after = poll_pack_health pack_id poll before in
      (lookup pack_id after.packs ≡ some (polled (is_unhealthy pack_id poll before.agents) row))
      × (after.agents ≡ before.agents)
unfolding poll_pack_health
poll_pack_health-row pack_id poll row before found =
    subst
      (λ o.
        let health = health_of (is_unhealthy pack_id poll before.agents) (failures_of o) in
        let after = fail_at_threshold pack_id poll health (record_health pack_id health before) in
        (lookup pack_id after.packs ≡ some (polled (is_unhealthy pack_id poll before.agents) row))
        × (after.agents ≡ before.agents))
      (sym found)
      (let health = health_of (is_unhealthy pack_id poll before.agents) (failures_of (some row)) in
        let (recorded, same) = record_health-row pack_id poll health row before found in
        let (marked_row, also) =
          fail_at_threshold-row pack_id poll health (record row { health = some health })
            (record_health pack_id health before) recorded in
        (marked_row, also ∙ same))

-- What a poll does to the count and the state of a pack that is activated or failed.
polled-counts :
    (unhealthy reached : Bool) (row : PackRecord) (n : ℕ)
    → failures_of (some row) ≡ n
    → row.state ≡ (if reached then failed else activated)
    → let after = polled unhealthy row in
      let count = if unhealthy then n + 1 else 0 in
      (failures_of (some after) ≡ count)
      × (after.state
          ≡ (if leb consecutive_failure_threshold count || reached then failed else activated))
polled-counts true true row n counted state = ground arith
polled-counts true false row n counted state = ground arith
polled-counts false true row n counted state = ground arith
polled-counts false false row n counted state = ground arith

-- The row of a pack after some polls, and the agents, which no poll changes.
record IsPolled (pack_id : String) (agents : List (String × AgentRow)) (after : Catalog)
    (polls : List Poll) : Type 0 where
  row : PackRecord
  found : lookup pack_id after.packs ≡ some row
  counted : failures_of (some row) ≡ streak pack_id agents polls
  state : row.state ≡ (if has_reached_threshold pack_id agents polls then failed else activated)
  same_agents : after.agents ≡ agents

poll_all-IsPolled :
    (pack_id : String) (polls : List Poll) (start : Catalog) (pack : PackRecord)
    → lookup pack_id start.packs ≡ some pack
    → pack.state ≡ activated
    → failures_of (some pack) ≡ 0
    → IsPolled pack_id start.agents (poll_all pack_id polls start) polls
unfolding poll_all streak has_reached_threshold
poll_all-IsPolled pack_id [] start pack found active none_yet = record {
  row = pack;
  found = found;
  counted = none_yet;
  state = active;
  same_agents = refl;
}
poll_all-IsPolled pack_id (poll ∷ earlier) start pack found active none_yet =
    let before = poll_all-IsPolled pack_id earlier start pack found active none_yet in
    let (now, same) =
      poll_pack_health-row pack_id poll before.row (poll_all pack_id earlier start) before.found in
    let (count, state) =
      polled-counts (is_unhealthy pack_id poll start.agents)
        (has_reached_threshold pack_id start.agents earlier) before.row
        (streak pack_id start.agents earlier) before.counted before.state in
    record {
      row = polled (is_unhealthy pack_id poll start.agents) before.row;
      found =
          subst
            (λ agents.
              lookup pack_id (poll_pack_health pack_id poll (poll_all pack_id earlier start)).packs
              ≡ some (polled (is_unhealthy pack_id poll agents) before.row))
            before.same_agents now;
      counted = count;
      state = state;
      same_agents = same ∙ before.same_agents;
    }

-- However the agents of an activated pack with no failure behind it resolve, after any polls of it with no other writer,
-- its row counts the failures in a row up to now, and it is failed exactly if these ever reached the threshold of
-- three; else it is still activated.
pub polls_fail_at_threshold :
    (pack_id : String) (polls : List Poll) (start : Catalog) (pack : PackRecord)
    → lookup pack_id start.packs ≡ some pack
    → pack.state ≡ activated
    → failures_of (some pack) ≡ 0
    → (row : PackRecord) × (lookup pack_id (poll_all pack_id polls start).packs ≡ some row)
      × (failures_of (some row) ≡ streak pack_id start.agents polls)
      × (row.state
          ≡ (if has_reached_threshold pack_id start.agents polls then failed else activated))
polls_fail_at_threshold pack_id polls start pack found active none_yet =
    let after = poll_all-IsPolled pack_id polls start pack found active none_yet in
    (after.row, after.found, after.counted, after.state)
