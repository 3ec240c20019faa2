-- ===== src/WorkflowEngine/Service/Walk.antt =====
-- Where the next step of service.py leads.
use ai_os.Prelude.{
  ℕ, zero, suc, ◌≡◌, refl, Bool, true, false, ◌&&◌, Option, none, some, List, [], ◌∷◌, String,
  str_eq, get_elem?, any, if_cases, inl, inr, ◌⊎◌, eq_refl, arith, eq_iff, ap, ◌∙◌, sym, subst,
}
use ai_os.WorkflowEngine.Definition.{
  WorkflowStep, WorkflowDefinition, is_decision, index_by_id, steps_are_valid,
  all_references_are_real,
}
use ai_os.WorkflowEngine.Instance.{WorkflowStepRecord}
use ai_os.WorkflowEngine.Service.{
  next, resolve_next_step, first_step, after_index, after_step, step_or_finished, StepBefore,
  before, not_declared, step_before, step_before_from,
}
use ai_os.WorkflowEngine.Service.Index.{
  lookup-index_by_id, IsUnique, ids_are_unique-IsUnique, last_index_unique,
}

pub valid-IsUnique : (steps : List WorkflowStep) → steps_are_valid steps ≡ true → IsUnique steps
unfolding steps_are_valid
valid-IsUnique [] h = ground (arith, h)
valid-IsUnique (step ∷ steps) h = ids_are_unique-IsUnique [] (step ∷ steps) (ground (arith, h))

pub valid-references :
    (steps : List WorkflowStep)
    → steps_are_valid steps ≡ true
    → all_references_are_real (index_by_id steps) 0 steps ≡ true
unfolding steps_are_valid
valid-references [] h = ground (arith, h)
valid-references (step ∷ steps) h = ground (arith, h)

-- The step at an index is what follows it, unless it is a decision.
pub resolve-at :
    (definition : WorkflowDefinition) (rows : List WorkflowStepRecord) (i : ℕ) (step : WorkflowStep)
    → IsUnique definition.steps
    → get_elem? definition.steps i ≡ some step
    → resolve_next_step definition (some step.id) rows
      ≡ after_step (some step) i definition.steps rows
unfolding resolve_next_step
resolve-at definition rows i step u e =
    let found =
      lookup-index_by_id step.id definition.steps ∙ last_index_unique definition.steps i step u e in
    ap (λ o. after_index o definition.steps rows) found
    ∙ ap (λ o. after_step o i definition.steps rows) e

-- The step before one that is declared stands just before it.
record IsBefore (steps : List WorkflowStep) (previous : Option String) (step_id : String)
    : Type 0 where
  index : ℕ
  earlier : WorkflowStep
  later : WorkflowStep
  earlier_at : get_elem? steps index ≡ some earlier
  later_at : get_elem? steps (suc index) ≡ some later
  earlier_id : previous ≡ some earlier.id
  later_id : later.id ≡ step_id

abbrev pub previous_of : StepBefore → Option String
previous_of not_declared = none
previous_of (before previous) = previous

step_before_from-IsBefore :
    (first : WorkflowStep) (steps : List WorkflowStep) (step_id : String) (previous : Option String)
    → step_before_from (some first.id) steps step_id ≡ before previous
    → IsBefore (first ∷ steps) previous step_id
unfolding step_before_from
step_before_from-IsBefore first [] step_id previous e = ground (arith, e)
step_before_from-IsBefore first (step ∷ steps) step_id previous e =
    if_cases (λ x. x ≡ before previous → IsBefore (first ∷ step ∷ steps) previous step_id)
      (str_eq step.id step_id)
      (λ t here. record {
        index = 0;
        earlier = first;
        later = step;
        earlier_at = refl;
        later_at = refl;
        earlier_id = sym (ap previous_of here);
        later_id = (eq_iff step.id step_id).0 t;
      })
      (λ t there.
        let rest = step_before_from-IsBefore step steps step_id previous there in
        record {
          index = suc rest.index;
          earlier = rest.earlier;
          later = rest.later;
          earlier_at = rest.earlier_at;
          later_at = rest.later_at;
          earlier_id = rest.earlier_id;
          later_id = rest.later_id;
        })
      e

-- The step that an instance stands at is a decision.
abbrev pub at_decision : Option String → List WorkflowStep → Bool
at_decision none steps = false
at_decision (some current) steps =
    any (λ (s : WorkflowStep). str_eq s.id current && is_decision s.type) steps

any-get_elem :
    (steps : List WorkflowStep) (i : ℕ) (step : WorkflowStep)
    → get_elem? steps i ≡ some step
    → any (λ (s : WorkflowStep). str_eq s.id step.id && is_decision s.type) steps ≡ false
    → is_decision step.type ≡ false
any-get_elem [] i step e h = ground (arith, e)
any-get_elem (s ∷ steps) zero step e h = ground (arith, e, h, eq_refl step.id)
any-get_elem (s ∷ steps) (suc i) step e h = ground (arith, any-get_elem steps i step e, h)

resolve-IsBefore :
    (definition : WorkflowDefinition) (step_id : String) (previous : Option String)
    (rows : List WorkflowStepRecord)
    → IsUnique definition.steps
    → at_decision previous definition.steps ≡ false
    → IsBefore definition.steps previous step_id
    → (step : WorkflowStep) × (resolve_next_step definition previous rows ≡ next step)
      × (step.id ≡ step_id)
resolve-IsBefore definition step_id previous rows u plain b =
    let steps = definition.steps in
    let same : at_decision (some b.earlier.id) steps ≡ false =
      subst (λ p. at_decision p steps ≡ false) b.earlier_id plain in
    let open_step = any-get_elem steps b.index b.earlier b.earlier_at same in
    (
      b.later,
      ap (λ p. resolve_next_step definition p rows) b.earlier_id
          ∙ resolve-at definition rows b.index b.earlier u b.earlier_at
          ∙ rw open_step (
              ap step_or_finished
                (subst (λ n. get_elem? steps n ≡ some b.later) (omega arith) b.later_at)),
      b.later_id,
    )

first-or-IsBefore :
    (steps : List WorkflowStep) (step_id : String) (previous : Option String)
    → step_before_from none steps step_id ≡ before previous
    → IsBefore steps previous step_id
      ⊎ ((previous ≡ none)
          × ((step : WorkflowStep) × (first_step steps ≡ next step) × (step.id ≡ step_id)))
unfolding step_before_from
first-or-IsBefore [] step_id previous e = ground (arith, e)
first-or-IsBefore (step ∷ steps) step_id previous e =
    if_cases
      (λ x.
        x ≡ before previous
        → IsBefore (step ∷ steps) previous step_id
          ⊎ ((previous ≡ none)
              × ((s : WorkflowStep) × (first_step (step ∷ steps) ≡ next s) × (s.id ≡ step_id))))
      (str_eq step.id step_id)
      (λ t here. inr (sym (ap previous_of here), (step, refl, (eq_iff step.id step_id).0 t)))
      (λ t there. inl (step_before_from-IsBefore step steps step_id previous there)) e

-- In a definition that passes its validators, after a reset to the step before a step (to no step, for the
-- first one) the next step is that step itself, unless the step before it is a decision.
pub reset_leads_to_step :
    (definition : WorkflowDefinition) (step_id : String) (previous : Option String)
    (rows : List WorkflowStepRecord)
    → steps_are_valid definition.steps ≡ true
    → step_before definition step_id ≡ before previous
    → at_decision previous definition.steps ≡ false
    → (step : WorkflowStep) × (resolve_next_step definition previous rows ≡ next step)
      × (step.id ≡ step_id)
unfolding step_before
reset_leads_to_step definition step_id previous rows valid e plain =
    elim (first-or-IsBefore definition.steps step_id previous e) [
      | inl b ↦
          resolve-IsBefore definition step_id previous rows (valid-IsUnique definition.steps valid)
            plain b
      | inr (start, (step, first, same)) ↦ (
        step,
        ap (λ p. resolve_next_step definition p rows) start ∙ unfold resolve_next_step in first,
        same,
      )
    ]
