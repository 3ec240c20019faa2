-- ===== src/WorkflowEngine/Lease/Calls.antt =====
-- The calls on the lease table as values, and what they leave alone (lease.py).
use ai_os.Prelude.{
  ℕ, ◌≤◌, ◌≡◌, Bool, true, false, Option, none, some, List, [], ◌∷◌, String, str_eq, lookup, All,
}
use ai_os.WorkflowEngine.Instance.{Status}
use ai_os.WorkflowEngine.Lease.{
  WorkflowLease, Leases, Leased, granted, unavailable, acquire, renew, release, reap_expired,
}

-- A call on the lease table, at the clock of the worker.
pub data LeaseCall : Type 0 where
  acquires :
      (status : Option Status) (skipped : Bool) (lease_id workflow_id worker_id : String)
      (duration now : ℕ)
      → LeaseCall
  renews : (workflow_id worker_id : String) (duration now : ℕ) → LeaseCall
  releases : (workflow_id worker_id : String) → LeaseCall
  reaps : (locked : List String) (limit now : ℕ) → LeaseCall

abbrev pub leases_after : Leases → Leased → Leases
leases_after before (granted leases lease) = leases
leases_after before (unavailable reason) = before

abbrev pub or_before : Leases → Option Leases → Leases
or_before before none = before
or_before before (some leases) = leases

unfoldable pub run : LeaseCall → Leases → Leases
run (acquires status skipped lease_id w worker duration now) leases =
    leases_after leases (acquire status skipped lease_id w worker duration now leases)
run (renews w worker duration now) leases = leases_after leases (renew w worker duration now leases)
run (releases w worker) leases = or_before leases (release w worker leases)
run (reaps locked limit now) leases = (reap_expired locked limit now leases).0

-- The calls in order.
unfoldable pub run_all : List LeaseCall → Leases → Leases
run_all [] leases = leases
run_all (c ∷ calls) leases = run_all calls (run c leases)

-- A call of another worker, or of the reaper, before the lease expires by the caller's clock; a fresh
-- lease id is not the one of the lease.
abbrev pub IsForeign : WorkflowLease → LeaseCall → Type 0
IsForeign l (acquires status skipped lease_id w worker duration now) =
    (now ≤ l.expires_at) × (str_eq lease_id l.lease_id ≡ false)
IsForeign l (renews w worker duration now) = str_eq l.worker_id worker ≡ false
IsForeign l (releases w worker) = str_eq l.worker_id worker ≡ false
IsForeign l (reaps locked limit now) = now ≤ l.expires_at

-- The lease id is a key: a row that has it is the lease itself.
abbrev pub Owns : String → WorkflowLease → String × WorkflowLease → Type 0
Owns w l row = str_eq row.1.lease_id l.lease_id ≡ true → (row.0 ≡ w) × (row.1 ≡ l)

pub record IsHeld (w : String) (l : WorkflowLease) (leases : Leases) : Type 0 where
  pub found : lookup w leases ≡ some l
  pub owned : All (Owns w l) leases
