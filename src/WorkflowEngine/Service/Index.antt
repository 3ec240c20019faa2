-- ===== src/WorkflowEngine/Service/Index.antt =====
-- The index of step ids that service.py and models.py build.
use ai_os.Prelude.{
  ℕ, zero, suc, ◌+◌, ◌≡◌, refl, Bool, true, false, Option, none, some, List, [], ◌∷◌, String,
  str_eq, if◌then◌else◌, get_elem?, lookup, insert, lookup-insert, lookup-nil, contains, All, arith,
  eq_iff, eq_refl, ap, subst,
}
use ai_os.WorkflowEngine.Definition.{WorkflowStep, index_from, index_by_id, ids_are_unique}

-- The last index at which an id stands.
unfoldable pub last_index : String → List WorkflowStep → Option ℕ
last_index id [] = none
last_index id (step ∷ steps) = elim (last_index id steps) [
  | some j ↦ some (suc j)
  | none ↦ if str_eq step.id id then some 0 else none
]

abbrev shifted : ℕ → Option ℕ → Option ℕ → Option ℕ
shifted i none other = other
shifted i (some j) other = some (i + j)

lookup-index_from :
    (id : String) (i : ℕ) (steps : List WorkflowStep) (d : List (String × ℕ))
    → lookup id (index_from i steps d) ≡ shifted i (last_index id steps) (lookup id d)
unfolding index_from last_index
lookup-index_from id i [] d = refl
lookup-index_from id i (step ∷ steps) d =
    ground
      (arith, lookup-index_from id (i + 1) steps (insert step.id i d), lookup-insert step.id id i d)

pub lookup-index_by_id :
    (id : String) (steps : List WorkflowStep) → lookup id (index_by_id steps) ≡ last_index id steps
lookup-index_by_id id steps = ground (arith, lookup-index_from id 0 steps [], lookup-nil {V = ℕ} id)

number_of : Option ℕ → ℕ
number_of none = 0
number_of (some n) = n

IsAt : String → List WorkflowStep → ℕ → Type 0
IsAt id steps j = (step : WorkflowStep) × (get_elem? steps j ≡ some step) × (step.id ≡ id)

located :
    (id : String) (step : WorkflowStep) (steps : List WorkflowStep) (hit : Bool) (o : Option ℕ)
    (j : ℕ)
    → (hit ≡ true → step.id ≡ id)
    → ((k : ℕ) → o ≡ some k → IsAt id steps k)
    → (elim o [ some k ↦ some (suc k) | none ↦ if hit then some 0 else none ]) ≡ some j
    → IsAt id (step ∷ steps) j
unfolding number_of IsAt
located id step steps hit (some k) j same later e =
    subst (IsAt id (step ∷ steps)) (ap number_of e) (later k refl)
located id step steps true none j same later e =
    subst (IsAt id (step ∷ steps)) (ap number_of e) (step, refl, same refl)
located id step steps false none j same later e = ground (arith, e)

pub get_elem-last_index :
    (id : String) (steps : List WorkflowStep) (j : ℕ)
    → last_index id steps ≡ some j
    → (step : WorkflowStep) × (get_elem? steps j ≡ some step) × (step.id ≡ id)
unfolding last_index IsAt
get_elem-last_index id [] j e = ground (arith, e)
get_elem-last_index id (step ∷ steps) j e =
    located id step steps (str_eq step.id id) (last_index id steps) j (eq_iff step.id id).0
      (get_elem-last_index id steps) e

-- No two steps have the same id.
unfoldable pub IsUnique : List WorkflowStep → Type 0
IsUnique [] = Unit
IsUnique (step ∷ steps) =
    All (λ (s : WorkflowStep). str_eq step.id s.id ≡ false) steps × IsUnique steps

not_seen :
    (id : String) (seen : List String) (steps : List WorkflowStep)
    → contains seen id ≡ true
    → ids_are_unique seen steps ≡ true
    → All (λ (s : WorkflowStep). str_eq id s.id ≡ false) steps
unfolding ids_are_unique contains
not_seen id seen [] c u = tt
not_seen id seen (step ∷ steps) c u = (
  ground (arith, c, u, eq_iff id step.id),
  not_seen id (step.id ∷ seen) steps (ground (arith, c)) (ground (arith, u)),
)

pub ids_are_unique-IsUnique :
    (seen : List String) (steps : List WorkflowStep)
    → ids_are_unique seen steps ≡ true
    → IsUnique steps
unfolding ids_are_unique IsUnique contains
ids_are_unique-IsUnique seen [] u = tt
ids_are_unique-IsUnique seen (step ∷ steps) u = (
  not_seen step.id (step.id ∷ seen) steps (ground (arith, eq_refl step.id)) (ground (arith, u)),
  ids_are_unique-IsUnique (step.id ∷ seen) steps (ground (arith, u)),
)

last_index-none :
    (id : String) (steps : List WorkflowStep)
    → All (λ (s : WorkflowStep). str_eq id s.id ≡ false) steps
    → last_index id steps ≡ none
unfolding last_index
last_index-none id [] h = refl
last_index-none id (step ∷ steps) h =
    ground (arith, last_index-none id steps h.1, h.0, eq_iff id step.id, eq_iff step.id id)

step_or : WorkflowStep → Option WorkflowStep → WorkflowStep
step_or default none = default
step_or default (some step) = step

-- In a list of unique ids a step stands at the index of its id.
pub last_index_unique :
    (steps : List WorkflowStep) (i : ℕ) (step : WorkflowStep)
    → IsUnique steps
    → get_elem? steps i ≡ some step
    → last_index step.id steps ≡ some i
unfolding last_index IsUnique step_or
last_index_unique [] i step u e = ground (arith, e)
last_index_unique (s ∷ steps) zero step u e =
    subst (λ (x : WorkflowStep). last_index x.id (s ∷ steps) ≡ some 0) (ap (step_or s) e)
      (ground (arith, last_index-none s.id steps u.0, eq_refl s.id))
last_index_unique (s ∷ steps) (suc i) step u e =
    ground (arith, last_index_unique steps i step u.1 e)
