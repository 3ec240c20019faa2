-- ===== src/WorkflowEngine/Lease/Rows.antt =====
-- What the operations on lease rows keep of every row (lease.py).
use ai_os.Prelude.{
  ℕ, zero, suc, ◌≤◌, ◌≡◌, refl, Bool, false, Option, none, some, List, [], ◌∷◌, map, String, str_eq,
  leb, lookup, insert, contains, filter, All, if_cases, arith, eq_iff, subst,
}
use ai_os.WorkflowEngine.Lease.{
  WorkflowLease, Leases, delete, insert_by_expiry, order_by_expiry, limit_to, reclaimable, id_of,
}
use ai_os.WorkflowEngine.Lease.Calls.{Owns}

unfoldable pub of_row : WorkflowLease → Option WorkflowLease → WorkflowLease
of_row default none = default
of_row default (some row) = row

module _ {ℓ} (P : String × WorkflowLease → Type ℓ) where
  pub All-lookup :
      (leases : Leases) (k : String) (row : WorkflowLease)
      → All P leases
      → lookup k leases ≡ some row
      → P (k, row)
  unfolding lookup of_row
  All-lookup [] k row h e = ground (arith, e)
  All-lookup ((j, x) ∷ leases) k row h e =
      if_cases (λ o. o ≡ some row → P (k, row)) (str_eq j k)
        (λ t e'. subst (λ i. P (i, row)) ((eq_iff j k).0 t) (subst (λ o. P (j, of_row x o)) e' h.0))
        (λ t e'. All-lookup leases k row h.1 e') e

  pub All-insert :
      (leases : Leases) (k : String) (row : WorkflowLease)
      → All P leases
      → P (k, row)
      → All P (insert k row leases)
  unfolding insert
  All-insert [] k row h p = (p, tt)
  All-insert ((j, x) ∷ leases) k row h p =
      if_cases (All P) (str_eq j k) (λ t. (p, h.1)) (λ t. (h.0, All-insert leases k row h.1 p))

  pub All-delete :
      (test : String × WorkflowLease → Bool) (leases : Leases)
      → All P leases
      → All P (delete test leases)
  unfolding delete
  All-delete test [] h = tt
  All-delete test (row ∷ leases) h =
      if_cases (All P) (test row) (λ t. All-delete test leases h.1)
        (λ t. (h.0, All-delete test leases h.1))

  All-insert_by_expiry :
      (row : String × WorkflowLease) (rows : Leases)
      → P row
      → All P rows
      → All P (insert_by_expiry row rows)
  unfolding insert_by_expiry
  All-insert_by_expiry row [] p h = (p, tt)
  All-insert_by_expiry row (other ∷ rows) p h =
      if_cases (All P) (leb row.1.expires_at other.1.expires_at) (λ t. (p, h))
        (λ t. (h.0, All-insert_by_expiry row rows p h.1))

  pub All-order_by_expiry : (rows : Leases) → All P rows → All P (order_by_expiry rows)
  unfolding order_by_expiry
  All-order_by_expiry [] h = tt
  All-order_by_expiry (row ∷ rows) h =
      All-insert_by_expiry row (order_by_expiry rows) h.0 (All-order_by_expiry rows h.1)

  pub All-limit_to : (n : ℕ) (rows : Leases) → All P rows → All P (limit_to n rows)
  unfolding limit_to
  All-limit_to zero rows h = tt
  All-limit_to (suc n) [] h = tt
  All-limit_to (suc n) (row ∷ rows) h = (h.0, All-limit_to n rows h.1)

-- A row that is not deleted is still found.
pub lookup-delete :
    (test : String × WorkflowLease → Bool) (leases : Leases) (w : String) (l : WorkflowLease)
    → lookup w leases ≡ some l
    → test (w, l) ≡ false
    → lookup w (delete test leases) ≡ some l
unfolding lookup delete
lookup-delete test [] w l e kept = e
lookup-delete test ((j, x) ∷ leases) w l e kept =
    ground (arith, e, kept, eq_iff j w, lookup-delete test leases w l)

-- No row with the id of the lease can be reclaimed while the lease has not expired.
unfoldable pub IsOther : WorkflowLease → String × WorkflowLease → Type 0
IsOther l row = str_eq (id_of row) l.lease_id ≡ false

pub filter-IsOther :
    (w : String) (l : WorkflowLease) (locked : List String) (now : ℕ) (leases : Leases)
    → now ≤ l.expires_at
    → All (Owns w l) leases
    → All (IsOther l) (filter (reclaimable locked now) leases)
unfolding IsOther
filter-IsOther w l locked now [] early h = tt
filter-IsOther w l locked now (row ∷ leases) early h =
    let rest = filter-IsOther w l locked now leases early h.1 in
    if_cases (All (IsOther l)) (reclaimable locked now row)
      (λ expired. (ground (arith, h.0, expired, early), rest)) (λ t. rest)

pub contains-IsOther :
    (l : WorkflowLease) (rows : Leases)
    → All (IsOther l) rows
    → contains (map id_of rows) l.lease_id ≡ false
unfolding IsOther contains
contains-IsOther l [] h = refl
contains-IsOther l (row ∷ rows) h = ground (arith, h.0, contains-IsOther l rows h.1)
