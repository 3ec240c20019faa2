-- ===== src/WorkflowEngine/Lease.antt =====
-- kernel/src/ai_os_kernel/workflow_engine/lease.py: each method is one transaction on the lease
-- table. `now` is the clock of the worker that calls.
pub mod Calls
pub mod Rows
pub mod Exclusion
mod Examples
use ai_os.Prelude.{
  ℕ, zero, suc, ◌+◌, Bool, true, false, not, ◌&&◌, Option, none, some, List, [], ◌∷◌, map, String,
  str_eq, ltb, leb, ◌==◌, if◌then◌else◌, lookup, insert, contains, filter,
}
use ai_os.WorkflowEngine.Instance.{Status, is_running}

pub record WorkflowLease : Type 0 where
  pub lease_id : String
  pub worker_id : String
  pub acquired_at : ℕ
  pub expires_at : ℕ
  pub heartbeat_at : ℕ

-- The lease table, whose key is `workflow_id`.
abbrev pub Leases : Type 0
Leases = List (String × WorkflowLease)

-- Why a call was refused (`WorkflowLeaseUnavailableError`, and the validation of its arguments).
pub data LeaseRejection : Type 0 where
  instance_does_not_exist already_leased no_lease_to_renew nothing_to_release : LeaseRejection
  duration_not_positive limit_not_positive : LeaseRejection
  not_running : Status → LeaseRejection
  held_by : (worker_id : String) → LeaseRejection
  expired_at : ℕ → LeaseRejection

pub data Leased : Type 0 where
  granted : Leases → WorkflowLease → Leased
  unavailable : LeaseRejection → Leased

-- `values(worker_id=..., acquired_at=now, expires_at=..., heartbeat_at=now)`.
abbrev pub claimed : (lease_id worker_id : String) (duration now : ℕ) → WorkflowLease
claimed lease_id worker_id duration now = record {
  lease_id = lease_id;
  worker_id = worker_id;
  acquired_at = now;
  expires_at = now + duration;
  heartbeat_at = now;
}

-- The insert, or the reclaim of the row that conflicts. `skipped` says whether another transaction has
-- that row locked, so that `SKIP LOCKED` passes over it.
unfoldable pub claim :
    Option WorkflowLease
    → Bool
    → (lease_id workflow_id worker_id : String) → (duration now : ℕ) → Leases
    → Leased
claim none skipped lease_id workflow_id worker_id duration now leases =
    let lease = claimed lease_id worker_id duration now in
    granted (insert workflow_id lease leases) lease
claim (some row) skipped lease_id workflow_id worker_id duration now leases =
    let lease = claimed row.lease_id worker_id duration now in
    if ltb row.expires_at now && not skipped
    then granted (insert workflow_id lease leases) lease
    else unavailable already_leased

-- `status` is what is read of the workflow's instance, and `lease_id` what `new_lease_id()` returns.
unfoldable pub acquire :
    Option Status
    → Bool
    → (lease_id workflow_id worker_id : String) → (duration now : ℕ) → Leases
    → Leased
acquire none skipped lease_id workflow_id worker_id duration now leases =
    unavailable instance_does_not_exist
acquire (some status) skipped lease_id workflow_id worker_id duration now leases =
    if not (is_running status)
    then unavailable (not_running status)
    else claim (lookup workflow_id leases) skipped lease_id workflow_id worker_id duration now
        leases

-- The guarded update, and `_describe_rejected_renewal`.
unfoldable pub renew_row :
    Option WorkflowLease → (workflow_id worker_id : String) → (duration now : ℕ) → Leases → Leased
renew_row none workflow_id worker_id duration now leases = unavailable no_lease_to_renew
renew_row (some row) workflow_id worker_id duration now leases =
    let lease = record row { expires_at = now + duration; heartbeat_at = now } in
    if str_eq row.worker_id worker_id && leb now row.expires_at
    then granted (insert workflow_id lease leases) lease
    else if not (str_eq row.worker_id worker_id)
    then unavailable (held_by row.worker_id)
    else unavailable (expired_at row.expires_at)

unfoldable pub renew : (workflow_id worker_id : String) → (duration now : ℕ) → Leases → Leased
renew workflow_id worker_id duration now leases =
    renew_row (lookup workflow_id leases) workflow_id worker_id duration now leases

-- `DELETE ... WHERE test`.
unfoldable pub delete : (String × WorkflowLease → Bool) → Leases → Leases
delete test [] = []
delete test (row ∷ rows) = if test row then delete test rows else row ∷ delete test rows

abbrev pub held : (workflow_id worker_id : String) → String × WorkflowLease → Bool
held workflow_id worker_id row = str_eq row.0 workflow_id && str_eq row.1.worker_id worker_id

-- `none` is the refusal: no row was deleted.
unfoldable pub release : (workflow_id worker_id : String) → Leases → Option Leases
release workflow_id worker_id leases = elim (filter (held workflow_id worker_id) leases) [
  | [] ↦ none
  | row ∷ rows ↦ some (delete (held workflow_id worker_id) leases)
]

-- `ORDER BY expires_at`.
unfoldable pub insert_by_expiry : String × WorkflowLease → Leases → Leases
insert_by_expiry row [] = row ∷ []
insert_by_expiry row (other ∷ rows) =
    if leb row.1.expires_at other.1.expires_at
    then row ∷ other ∷ rows
    else other ∷ insert_by_expiry row rows

unfoldable pub order_by_expiry : Leases → Leases
order_by_expiry [] = []
order_by_expiry (row ∷ rows) = insert_by_expiry row (order_by_expiry rows)

-- `LIMIT`.
unfoldable pub limit_to : ℕ → Leases → Leases
limit_to zero rows = []
limit_to (suc n) [] = []
limit_to (suc n) (row ∷ rows) = row ∷ limit_to n rows

abbrev pub reclaimable : List String → ℕ → String × WorkflowLease → Bool
reclaimable locked now row = ltb row.1.expires_at now && not (contains locked row.0)

abbrev pub id_of : String × WorkflowLease → String
id_of row = row.1.lease_id

-- `locked` are the workflows whose rows other transactions have locked.
unfoldable pub reap_expired : List String → (limit now : ℕ) → Leases → Leases × Leases
reap_expired locked limit now leases =
    let ids =
      map id_of (limit_to limit (order_by_expiry (filter (reclaimable locked now) leases))) in
    (
      delete (λ row. contains ids (id_of row)) leases,
      filter (λ row. contains ids (id_of row)) leases,
    )
