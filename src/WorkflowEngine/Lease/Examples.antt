-- ===== src/WorkflowEngine/Lease/Examples.antt =====
-- Two workers and the reaper on one lease table.
use ai_os.Prelude.{◌+◌, ◌≤◌, ◌≡◌, ◌⊎◌, refl, false, some, List, [], ◌∷◌, lookup, arith}
use ai_os.WorkflowEngine.Instance.{running}
use ai_os.WorkflowEngine.Lease.{
  WorkflowLease, Leases, claimed, acquire, unavailable, already_leased,
}
use ai_os.WorkflowEngine.Lease.Calls.{
  LeaseCall, acquires, renews, releases, reaps, run_all, leases_after,
}
use ai_os.WorkflowEngine.Lease.Exclusion.{lease_is_exclusive, acquire_grants_or_waits}

abbrev mine : WorkflowLease
mine = claimed "l1" "ada" 30 100

abbrev table : Leases
table = ("w2", claimed "l2" "bob" 10 90) ∷ ("w1", mine) ∷ []

abbrev calls : List LeaseCall
calls =
    acquires (some running) false "l3" "w1" "bob" 30 110
    ∷ reaps [] 5 120
    ∷ releases "w1" "bob"
    ∷ renews "w1" "bob" 30 125
    ∷ []

lease_is_exclusive_example : lookup "w1" (run_all calls table) ≡ some mine
unfolding lookup
lease_is_exclusive_example =
    lease_is_exclusive "w1" mine calls table
      ((omega arith, refl), (omega arith, (refl, (refl, tt)))) refl
      ((λ e. ground (arith, e)), ((λ e. (refl, refl)), tt))

acquire_grants_or_waits_example :
    let result = acquire (some running) false "l3" "w1" "bob" 30 110 table in
    ((lease : WorkflowLease) × (lookup "w1" (leases_after table result) ≡ some lease)
      × (lease.worker_id ≡ "bob")
      × (lease.expires_at ≡ 110 + 30))
    ⊎ ((row : WorkflowLease) × (lookup "w1" table ≡ some row)
        × (110 ≤ row.expires_at)
        × (result ≡ unavailable already_leased))
acquire_grants_or_waits_example = acquire_grants_or_waits "l3" "w1" "bob" 30 110 table
