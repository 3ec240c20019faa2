-- ===== src/WorkflowEngine/Lease/Exclusion.antt =====
-- No two workers hold one workflow (lease.py).
use ai_os.Prelude.{
  lookup-insert_self, ◌⊎◌, ℕ, ◌+◌, ◌≤◌, ◌≡◌, refl, Bool, true, false, not, ◌&&◌, Option, none, some,
  List, [], ◌∷◌, map, String, str_eq, ltb, leb, lookup, insert, lookup-insert_ne, contains, filter,
  All, if_cases, Bool-cases, inl, inr, ◌∙◌, arith, eq_iff, ap, sym,
}
use ai_os.WorkflowEngine.Instance.{Status, is_running, running}
use ai_os.WorkflowEngine.Lease.{
  WorkflowLease, Leases, unavailable, already_leased, claim, claimed, acquire, renew, renew_row,
  delete, held, release, order_by_expiry, limit_to, reclaimable, id_of, reap_expired,
}
use ai_os.WorkflowEngine.Lease.Calls.{
  LeaseCall, acquires, renews, releases, reaps, leases_after, or_before, run, run_all, IsForeign,
  Owns, IsHeld,
}
use ai_os.WorkflowEngine.Lease.Rows.{
  of_row, All-lookup, All-insert, All-delete, All-order_by_expiry, All-limit_to, lookup-delete,
  IsOther, filter-IsOther, contains-IsOther,
}

module _ (w : String) (l : WorkflowLease) (leases : Leases) (h : IsHeld w l leases) where
  -- A row that passes a test which the lease fails is another workflow's.
  apart :
      (test : WorkflowLease → Bool) (k : String) (row : WorkflowLease)
      → lookup k leases ≡ some row
      → test row ≡ true
      → test l ≡ false
      → str_eq k w ≡ false
  unfolding of_row
  apart test k row e passes stops = elim (Bool-cases (str_eq k w)) [
    | inr differs ↦ differs
    | inl t ↦
        let same_row : some row ≡ some l =
          sym e ∙ ap (λ i. lookup i leases) ((eq_iff k w).0 t) ∙ h.found in
        let same : test row ≡ test l = ap (λ o. test (of_row row o)) same_row in
        ground (arith, same, passes, stops)
  ]

  -- A write on the row of another workflow, under an id that is not the lease's.
  insert-IsHeld :
      (k : String) (row : WorkflowLease)
      → str_eq k w ≡ false
      → str_eq row.lease_id l.lease_id ≡ false
      → IsHeld w l (insert k row leases)
  insert-IsHeld k row differs other = record {
    found = lookup-insert_ne k w row leases differs ∙ h.found;
    owned = All-insert (Owns w l) leases k row h.owned (λ same. ground (arith, same, other));
  }

  other_id :
      (k : String) (row : WorkflowLease)
      → lookup k leases ≡ some row
      → str_eq k w ≡ false
      → str_eq row.lease_id l.lease_id ≡ false
  other_id k row e differs =
      let owns = All-lookup (Owns w l) leases k row h.owned e in
      elim (Bool-cases (str_eq row.lease_id l.lease_id)) [
        | inr other ↦ other
        | inl t ↦ ground (arith, eq_iff k w, (owns t).0, differs)
      ]

  claim-IsHeld :
      (o : Option WorkflowLease) (skipped : Bool) (lease_id k worker : String) (duration now : ℕ)
      → lookup k leases ≡ o
      → now ≤ l.expires_at
      → str_eq lease_id l.lease_id ≡ false
      → IsHeld w l (leases_after leases (claim o skipped lease_id k worker duration now leases))
  unfolding claim
  claim-IsHeld none skipped lease_id k worker duration now e early fresh =
      insert-IsHeld k (claimed lease_id worker duration now)
        (ground (arith, eq_iff k w, e, h.found)) fresh
  claim-IsHeld (some row) skipped lease_id k worker duration now e early fresh =
      if_cases (λ x. IsHeld w l (leases_after leases x)) (ltb row.expires_at now && not skipped)
        (λ expired.
          let differs =
            apart (λ x. ltb x.expires_at now) k row e (ground (arith, expired))
              (ground (arith, early)) in
          insert-IsHeld k (claimed row.lease_id worker duration now) differs
            (other_id k row e differs))
        (λ t. h)

  acquire-IsHeld :
      (status : Option Status) (skipped : Bool) (lease_id k worker : String) (duration now : ℕ)
      → now ≤ l.expires_at
      → str_eq lease_id l.lease_id ≡ false
      → IsHeld w l
          (leases_after leases (acquire status skipped lease_id k worker duration now leases))
  unfolding acquire
  acquire-IsHeld none skipped lease_id k worker duration now early fresh = h
  acquire-IsHeld (some status) skipped lease_id k worker duration now early fresh =
      if_cases (λ x. IsHeld w l (leases_after leases x)) (not (is_running status)) (λ t. h)
        (λ t.
          claim-IsHeld (lookup k leases) skipped lease_id k worker duration now refl early fresh)

  renew_row-IsHeld :
      (o : Option WorkflowLease) (k worker : String) (duration now : ℕ)
      → lookup k leases ≡ o
      → str_eq l.worker_id worker ≡ false
      → IsHeld w l (leases_after leases (renew_row o k worker duration now leases))
  unfolding renew_row
  renew_row-IsHeld none k worker duration now e foreign = h
  renew_row-IsHeld (some row) k worker duration now e foreign =
      if_cases (λ x. IsHeld w l (leases_after leases x))
        (str_eq row.worker_id worker && leb now row.expires_at)
        (λ passes.
          let differs =
            apart (λ x. str_eq x.worker_id worker) k row e (ground (arith, passes)) foreign in
          insert-IsHeld k (record row { expires_at = now + duration; heartbeat_at = now }) differs
            (other_id k row e differs))
        (λ t.
          if_cases (λ x. IsHeld w l (leases_after leases x)) (not (str_eq row.worker_id worker))
            (λ t'. h) (λ t'. h))

  delete-IsHeld :
      (test : String × WorkflowLease → Bool) → test (w, l) ≡ false → IsHeld w l (delete test leases)
  delete-IsHeld test kept = record {
    found = lookup-delete test leases w l h.found kept;
    owned = All-delete (Owns w l) test leases h.owned;
  }

  release-IsHeld :
      (k worker : String)
      → str_eq l.worker_id worker ≡ false
      → IsHeld w l (or_before leases (release k worker leases))
  unfolding release
  release-IsHeld k worker foreign = after (filter (held k worker) leases)
    where
      after :
          (rows : Leases)
          → IsHeld w l (
              or_before leases
                (elim rows [ [] ↦ none | row ∷ rows ↦ some (delete (held k worker) leases) ]))
      after [] = h
      after (row ∷ rows) = delete-IsHeld (held k worker) (ground (arith, foreign))

  reap-IsHeld :
      (locked : List String) (limit now : ℕ)
      → now ≤ l.expires_at
      → IsHeld w l (reap_expired locked limit now leases).0
  unfolding reap_expired
  reap-IsHeld locked limit now early =
      let rows = filter (reclaimable locked now) leases in
      let others = filter-IsOther w l locked now leases early h.owned in
      delete-IsHeld
        (λ row. contains (map id_of (limit_to limit (order_by_expiry rows))) (id_of row))
        (contains-IsOther l (limit_to limit (order_by_expiry rows)) (
          All-limit_to (IsOther l) limit (order_by_expiry rows)
            (All-order_by_expiry (IsOther l) rows others)))

run-IsHeld :
    (w : String) (l : WorkflowLease) (c : LeaseCall) (leases : Leases)
    → IsForeign l c
    → IsHeld w l leases
    → IsHeld w l (run c leases)
unfolding run renew
run-IsHeld w l (acquires status skipped lease_id k worker duration now) leases foreign h =
    acquire-IsHeld w l leases h status skipped lease_id k worker duration now foreign.0 foreign.1
run-IsHeld w l (renews k worker duration now) leases foreign h =
    renew_row-IsHeld w l leases h (lookup k leases) k worker duration now refl foreign
run-IsHeld w l (releases k worker) leases foreign h = release-IsHeld w l leases h k worker foreign
run-IsHeld w l (reaps locked limit now) leases foreign h =
    reap-IsHeld w l leases h locked limit now foreign

run_all-IsHeld :
    (w : String) (l : WorkflowLease) (calls : List LeaseCall) (leases : Leases)
    → All (IsForeign l) calls
    → IsHeld w l leases
    → IsHeld w l (run_all calls leases)
unfolding run_all
run_all-IsHeld w l [] leases foreign h = h
run_all-IsHeld w l (c ∷ calls) leases foreign h =
    run_all-IsHeld w l calls (run c leases) foreign.1 (run-IsHeld w l c leases foreign.0 h)

-- A lease keeps its workflow until it expires: whatever calls other workers make on the table, to acquire,
-- renew or release, and whatever the reaper removes, as long as the clock of none of them is past the
-- expiry, the workflow is leased to the same worker until the same time. New lease ids are fresh, and the
-- id of the lease names no other row.
pub lease_is_exclusive :
    (w : String) (l : WorkflowLease) (calls : List LeaseCall) (leases : Leases)
    → All (IsForeign l) calls
    → lookup w leases ≡ some l
    → All (Owns w l) leases
    → lookup w (run_all calls leases) ≡ some l
lease_is_exclusive w l calls leases foreign found owned =
    (run_all-IsHeld w l calls leases foreign (record { found = found; owned = owned })).found

claim_grants_or_waits :
    (o : Option WorkflowLease) (lease_id w worker : String) (duration now : ℕ) (leases : Leases)
    → lookup w leases ≡ o
    → let result = claim o false lease_id w worker duration now leases in
      ((lease : WorkflowLease) × (lookup w (leases_after leases result) ≡ some lease)
        × (lease.worker_id ≡ worker)
        × (lease.expires_at ≡ now + duration))
      ⊎ ((row : WorkflowLease) × (lookup w leases ≡ some row)
          × (now ≤ row.expires_at)
          × (result ≡ unavailable already_leased))
unfolding claim
claim_grants_or_waits none lease_id w worker duration now leases e =
    let lease = claimed lease_id worker duration now in
    inl (lease, lookup-insert_self w lease leases, refl, refl)
claim_grants_or_waits (some row) lease_id w worker duration now leases e =
    let lease = claimed row.lease_id worker duration now in
    if_cases
      (λ result.
        ((granted_lease : WorkflowLease) × (lookup w (leases_after leases result)
            ≡ some granted_lease)
          × (granted_lease.worker_id ≡ worker)
          × (granted_lease.expires_at ≡ now + duration))
        ⊎ ((found : WorkflowLease) × (lookup w leases ≡ some found)
            × (now ≤ found.expires_at)
            × (result ≡ unavailable already_leased)))
      (ltb row.expires_at now && not false)
      (λ t. inl (lease, lookup-insert_self w lease leases, refl, refl))
      (λ t. inr (row, e, ground (arith, t), refl))

-- A call to acquire a workflow that runs, on a row that no other transaction has locked, either
-- grants the lease to the caller until its duration from now, or finds a lease that has not
-- expired.
pub acquire_grants_or_waits :
    (lease_id w worker : String) (duration now : ℕ) (leases : Leases)
    → let result = acquire (some running) false lease_id w worker duration now leases in
      ((lease : WorkflowLease) × (lookup w (leases_after leases result) ≡ some lease)
        × (lease.worker_id ≡ worker)
        × (lease.expires_at ≡ now + duration))
      ⊎ ((row : WorkflowLease) × (lookup w leases ≡ some row)
          × (now ≤ row.expires_at)
          × (result ≡ unavailable already_leased))
unfolding acquire
acquire_grants_or_waits lease_id w worker duration now leases =
    claim_grants_or_waits (lookup w leases) lease_id w worker duration now leases refl
