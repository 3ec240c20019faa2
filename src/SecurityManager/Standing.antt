-- ===== src/SecurityManager/Standing.antt =====
-- Which roles a principal has by grants, over any history of their administration (role_administration.py).
use ai_os.Prelude.{
  ℕ, ◌≡◌, refl, sym, ap, ◌∙◌, Bool, true, false, not, ◌&&◌, ◌||◌, List, [], ◌∷◌, String, str_eq,
  ◌==◌, if◌then◌else◌, contains, has_repeats, arith, eq_iff, if_cases,
}
use ai_os.SecurityManager.{Principal}
use ai_os.SecurityManager.Roles.{
  RoleGrant, active_roles_for, active_count, Granted, violates_index, grant, revoke_rows, revoke,
  RoleState, after_write, is_admin, grant_role, revoke_role, RoleCall, grants, revokes,
  administered, role_granted, role_revoked,
}

-- Whether the last call of an admin on a role of a principal granted it; that is what the role stands on.
unfoldable pub stands : (principal_id role : String) → List RoleCall → Bool
stands principal_id role [] = false
stands principal_id role (grants grant_id principal target granted reason now ∷ earlier) =
    (is_admin principal && (str_eq target principal_id && str_eq granted role))
    || stands principal_id role earlier
stands principal_id role (revokes principal target taken reason now ∷ earlier) =
    not (is_admin principal && (str_eq target principal_id && str_eq taken role))
    && stands principal_id role earlier

-- The ids that the calls draw.
unfoldable pub drawn_ids : List RoleCall → List String
drawn_ids [] = []
drawn_ids (grants grant_id principal target role reason now ∷ earlier) =
    grant_id ∷ drawn_ids earlier
drawn_ids (revokes principal target role reason now ∷ earlier) = drawn_ids earlier

abbrev one_if : Bool → ℕ
one_if true = 1
one_if false = 0

contains-active_roles_for :
    (principal_id role : String) (rows : List RoleGrant)
    → contains (active_roles_for principal_id rows) role
      ≡ not (active_count principal_id role rows == 0)
unfolding contains active_roles_for active_count
contains-active_roles_for principal_id role [] = refl
contains-active_roles_for principal_id role (row ∷ rows) =
    ground (arith, contains-active_roles_for principal_id role rows)

-- The same pair, where the names agree.
same_pair :
    (p q r s : String) (rows : List RoleGrant)
    → (str_eq p q && str_eq r s) ≡ true
    → active_count p r rows ≡ active_count q s rows
same_pair p q r s rows h =
    ap (λ k. active_count k r rows) ((eq_iff p q).0 (ground (arith, h)))
    ∙ ap (λ k. active_count q k rows) ((eq_iff r s).0 (ground (arith, h)))

abbrev has_id : (grant_id : String) → List RoleGrant → Bool
has_id grant_id [] = false
has_id grant_id (row ∷ rows) = str_eq row.grant_id grant_id || has_id grant_id rows

violates_index-count :
    (grant_id principal_id role : String) (rows : List RoleGrant)
    → violates_index grant_id principal_id role rows
      ≡ (has_id grant_id rows || not (active_count principal_id role rows == 0))
unfolding violates_index active_count
violates_index-count grant_id principal_id role [] = refl
violates_index-count grant_id principal_id role (row ∷ rows) =
    ground (arith, violates_index-count grant_id principal_id role rows)

module _ (p r by reason : String) (now : ℕ) where
  has_id-revoke_rows :
      (grant_id : String) (rows : List RoleGrant)
      → has_id grant_id (revoke_rows p r by reason now rows) ≡ has_id grant_id rows
  unfolding revoke_rows
  has_id-revoke_rows grant_id [] = refl
  has_id-revoke_rows grant_id (row ∷ rows) = ground (arith, has_id-revoke_rows grant_id rows)

  count-revoke_rows :
      (q s : String) (rows : List RoleGrant)
      → active_count q s (revoke_rows p r by reason now rows)
        ≡ (if str_eq p q && str_eq r s then 0 else active_count q s rows)
  unfolding revoke_rows active_count
  count-revoke_rows q s [] = ground arith
  count-revoke_rows q s (row ∷ rows) = ground (
    arith,
    count-revoke_rows q s rows,
    eq_iff row.principal_id p,
    eq_iff row.principal_id q,
    eq_iff p q,
    eq_iff row.role r,
    eq_iff row.role s,
    eq_iff r s,
  )

-- What the table says of the calls that made it.
abbrev Agrees : List RoleCall → RoleState → Type 0
Agrees calls state =
    ((p r : String) → active_count p r state.grants ≡ one_if (stands p r calls))
    × ((id : String) → has_id id state.grants ≡ true → contains (drawn_ids calls) id ≡ true)

module _ (earlier : List RoleCall) (state : RoleState) (agrees : Agrees earlier state) where
  grant_role-Agrees :
      (grant_id : String) (principal : Principal) (target role reason : String) (now : ℕ)
      → contains (drawn_ids earlier) grant_id ≡ false
      → Agrees
          (grants grant_id principal target role reason now ∷ earlier)
          (grant_role grant_id principal target role reason now state)
  unfolding grant_role grant active_count stands drawn_ids contains
  grant_role-Agrees grant_id principal target role reason now fresh =
      if_cases (Agrees (grants grant_id principal target role reason now ∷ earlier))
        (is_admin principal)
        (λ admin.
          if_cases
            (λ (g : Granted).
              Agrees (grants grant_id principal target role reason now ∷ earlier)
                (after_write g role_granted principal target role state))
            (violates_index grant_id target role state.grants)
            (λ t. (
              λ p r. ground (
                arith,
                t,
                admin,
                fresh,
                agrees.0 p r,
                agrees.0 target role,
                agrees.1 grant_id,
                violates_index-count grant_id target role state.grants,
                same_pair target p role r state.grants,
              ),
              λ id h. ground (arith, agrees.1 id, h),
            ))
            (λ t. (
              λ p r. ground (
                arith,
                t,
                admin,
                agrees.0 p r,
                agrees.0 target role,
                violates_index-count grant_id target role state.grants,
                same_pair target p role r state.grants,
              ),
              λ id h. ground (arith, agrees.1 id, h),
            )))
        (λ other.
          (λ p r. ground (arith, other, agrees.0 p r), λ id h. ground (arith, agrees.1 id, h)))

  revoke_role-Agrees :
      (principal : Principal) (target role reason : String) (now : ℕ)
      → Agrees
          (revokes principal target role reason now ∷ earlier)
          (revoke_role principal target role reason now state)
  unfolding revoke_role revoke stands drawn_ids
  revoke_role-Agrees principal target role reason now =
      let calls = revokes principal target role reason now ∷ earlier in
      if_cases (Agrees calls) (is_admin principal)
        (λ admin.
          if_cases
            (λ (g : Granted). Agrees calls (after_write g role_revoked principal target role state))
            (active_count target role state.grants == 0)
            (λ t. (
              λ p r. ground (
                arith,
                t,
                admin,
                agrees.0 p r,
                agrees.0 target role,
                same_pair target p role r state.grants,
              ),
              agrees.1,
            ))
            (λ f.
              if_cases
                (λ (g : Granted).
                  Agrees calls (after_write g role_revoked principal target role state))
                (active_count target role state.grants == 1)
                (λ t. (
                  λ p r. ground (
                    arith,
                    admin,
                    agrees.0 p r,
                    count-revoke_rows target role principal.principal_id reason now p r
                        state.grants,
                  ),
                  λ id h. agrees.1 id (
                      sym (
                        has_id-revoke_rows target role principal.principal_id reason now id
                          state.grants)
                      ∙ h),
                ))
                (λ t. (λ p r. ground (arith, f, t, agrees.0 target role), agrees.1))))
        (λ other. (λ p r. ground (arith, other, agrees.0 p r), agrees.1))

administered-Agrees :
    (calls : List RoleCall)
    → has_repeats (drawn_ids calls) ≡ false
    → Agrees calls (administered calls)
unfolding administered active_count stands drawn_ids has_repeats
administered-Agrees [] h = (λ p r. refl, λ id e. ground (arith, e))
administered-Agrees (grants grant_id principal target role reason now ∷ earlier) h =
    grant_role-Agrees earlier (administered earlier)
      (administered-Agrees earlier (ground (arith, h))) grant_id principal target role reason now
      (ground (arith, h))
administered-Agrees (revokes principal target role reason now ∷ earlier) h =
    revoke_role-Agrees earlier (administered earlier) (administered-Agrees earlier h) principal
      target role reason now

-- After any history of calls whose grants draw different ids, the roles that the table says a principal has are those whose
-- last call by an admin granted them; calls of others change none, and each such role has exactly one active row.
pub active_roles_for-stands :
    (calls : List RoleCall) (principal_id role : String)
    → has_repeats (drawn_ids calls) ≡ false
    → (contains (active_roles_for principal_id (administered calls).grants) role
        ≡ stands principal_id role calls)
      × (active_count principal_id role (administered calls).grants
          ≡ (if stands principal_id role calls then 1 else 0))
active_roles_for-stands calls principal_id role h = (
  ground (
    arith,
    contains-active_roles_for principal_id role (administered calls).grants,
    (administered-Agrees calls h).0 principal_id role,
  ),
  ground (arith, (administered-Agrees calls h).0 principal_id role),
)
