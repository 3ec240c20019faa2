-- ===== src/WorkflowEngine/Approvals/Changes.antt =====
-- What the calls of a history do to the approvals (human_approval.py).
use ai_os.Prelude.{
  ℕ, zero, suc, ◌≡◌, refl, sym, ap, subst, ◌∙◌, ◌⊎◌, inl, inr, true, false, Option, some, List, [],
  ◌∷◌, String, str_eq, ◌&&◌, lookup, insert, lookup-insert, if_cases, arith, eq_iff,
}
use ai_os.WorkflowEngine.Approvals.{Approval, Approvals, rows_of_step, is_pending}
use ai_os.WorkflowEngine.Approvals.Calls.{Call, tables_before, HasDecided, an_earlier}

module _ (Holds : String → Approval → Type 0) where
  abbrev pub Every : List (String × Approval) → Type 0
  Every [] = Unit
  Every (entry ∷ entries) = Holds entry.0 entry.1 × Every entries

  Every-insert :
      (key : String) (row : Approval) (entries : List (String × Approval))
      → Holds key row
      → Every entries
      → Every (insert key row entries)
  unfolding insert
  Every-insert key row [] h all = (h, tt)
  Every-insert key row ((name, old) ∷ entries) h (first, rest) =
      if_cases Every (str_eq name key) (λ _. (h, rest))
        (λ _. (first, Every-insert key row entries h rest))

  Every-rows_of_step :
      (workflow_id step_id : String) (entries : List (String × Approval))
      → Every entries
      → Every (rows_of_step workflow_id step_id entries)
  unfolding rows_of_step
  Every-rows_of_step workflow_id step_id [] all = tt
  Every-rows_of_step workflow_id step_id ((name, row) ∷ entries) (first, rest) =
      let below = Every-rows_of_step workflow_id step_id entries rest in
      if_cases Every (str_eq row.workflow_id workflow_id && str_eq row.step_id step_id)
        (λ _. (first, below)) (λ _. below)

Every-map :
    (P Q : String → Approval → Type 0) (entries : List (String × Approval))
    → ((key : String) (row : Approval) → P key row → Q key row)
    → Every P entries
    → Every Q entries
Every-map P Q [] f all = tt
Every-map P Q (entry ∷ entries) f (first, rest) =
    (f entry.0 entry.1 first, Every-map P Q entries f rest)

abbrev pub IsExplained : List Call → String → Approval → Type 0
IsExplained calls approval_id row =
    (is_pending row.status ≡ true) ⊎ HasDecided approval_id row calls

later-IsExplained :
    (c : Call) (calls : List Call) (key : String) (row : Approval)
    → IsExplained calls key row
    → IsExplained (c ∷ calls) key row
later-IsExplained c calls key row (inl p) = inl p
later-IsExplained c calls key row (inr h) = inr (an_earlier c calls h)

-- What a call does to the approvals: it writes one row at most, with the class that was there, over none or a pending one.
pub data Changes (calls : List Call) (before : Approvals) : Approvals → Type 0 where
  keeps_rows : (after : Approvals) → after.approvals ≡ before.approvals → Changes calls before after
  puts :
      (key : String) (row : Approval) (after : Approvals)
      → after.approvals ≡ insert key row before.approvals
      → ((old : Approval)
          → lookup key before.approvals ≡ some old
          → (row.approval_class ≡ old.approval_class) × (is_pending old.status ≡ true))
      → IsExplained calls key row
      → Changes calls before after

-- A row keeps its class, and once it is decided it does not change.
abbrev pub Keeps : (approval_id : String) → (before after : Approvals) → Type 0
Keeps approval_id before after =
    (row : Approval)
    → lookup approval_id before.approvals ≡ some row
    → (now : Approval) × (lookup approval_id after.approvals ≡ some now)
      × (now.approval_class ≡ row.approval_class)
      × (is_pending row.status ≡ false → now ≡ row)

pub Keeps-same : (approval_id : String) (tables : Approvals) → Keeps approval_id tables tables
Keeps-same approval_id tables row e = (row, e, refl, λ _. refl)

Keeps-then :
    (approval_id : String) (first second third : Approvals)
    → Keeps approval_id first second
    → Keeps approval_id second third
    → Keeps approval_id first third
Keeps-then approval_id first second third k l row e =
    let (now, found, same, still) = k row e in
    let (last, also_found, also_same, also_still) = l now found in
    (
      last,
      also_found,
      also_same ∙ same,
      λ (d : is_pending row.status ≡ false).
          also_still (ap (λ (r : Approval). is_pending r.status) (still d) ∙ d) ∙ still d,
    )

pub Changes-Keeps :
    (calls : List Call) (approval_id : String) (before after : Approvals)
    → Changes calls before after
    → Keeps approval_id before after
Changes-Keeps calls approval_id before after (keeps_rows _ same) row e =
    (row, ap (lookup approval_id) same ∙ e, refl, λ _. refl)
Changes-Keeps calls approval_id before after (puts key new _ same over _) row e =
    subst
      (λ (o : Option Approval).
        (now : Approval) × (o ≡ some now)
        × (now.approval_class ≡ row.approval_class)
        × (is_pending row.status ≡ false → now ≡ row))
      (sym (ap (lookup approval_id) same ∙ lookup-insert key approval_id new before.approvals))
      (if_cases
        (λ (o : Option Approval).
          (now : Approval) × (o ≡ some now)
          × (now.approval_class ≡ row.approval_class)
          × (is_pending row.status ≡ false → now ≡ row))
        (str_eq key approval_id)
        (λ t.
          let (class, was_pending) =
            over row (ap (λ k. lookup k before.approvals) ((eq_iff key approval_id).0 t) ∙ e) in
          (new, refl, class, λ d. ground (arith, was_pending, d)))
        (λ _. (row, e, refl, λ _. refl)))

pub Changes-Every :
    (calls : List Call) (c : Call) (before after : Approvals)
    → Changes (c ∷ calls) before after
    → Every (IsExplained calls) before.approvals
    → Every (IsExplained (c ∷ calls)) after.approvals
Changes-Every calls c before after change all =
    let later =
      Every-map (IsExplained calls) (IsExplained (c ∷ calls)) before.approvals
        (later-IsExplained c calls) all in
    elim change as (λ (after : Approvals) _. Every (IsExplained (c ∷ calls)) after.approvals) [
      | keeps_rows after same ↦ subst (Every (IsExplained (c ∷ calls))) (sym same) later
      | puts key row after same over is ↦
          subst (Every (IsExplained (c ∷ calls))) (sym same)
            (Every-insert (IsExplained (c ∷ calls)) key row before.approvals is later)
    ]

-- Each state keeps the rows of the one before it.
abbrev pub Chain : (approval_id : String) → Approvals → List Approvals → Type 0
Chain approval_id tables [] = Unit
Chain approval_id tables (previous ∷ earlier) =
    Keeps approval_id previous tables × Chain approval_id previous earlier

pub Chain-Keeps :
    (approval_id : String) (delay : ℕ) (tables : Approvals) (earlier : List Approvals)
    → Chain approval_id tables earlier
    → Keeps approval_id (tables_before delay tables earlier) tables
Chain-Keeps approval_id zero tables earlier chain = Keeps-same approval_id tables
Chain-Keeps approval_id (suc delay) tables [] chain = Keeps-same approval_id tables
Chain-Keeps approval_id (suc delay) tables (previous ∷ earlier) (k, chain) =
    Keeps-then approval_id (tables_before delay previous earlier) previous tables
      (Chain-Keeps approval_id delay previous earlier chain) k
