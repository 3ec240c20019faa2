-- ===== src/WorkflowEngine/Runner/Bounds.antt =====
-- That the retries of advance_runner.py are bounded by attempts and by duration.
use ai_os.Prelude.{
  ℕ, ◌+◌, ◌≡◌, ◌≤◌, ◌<◌, refl, true, false, Bool, Option, none, some, List, [], ◌∷◌, String, arith,
  lookup, lookup-insert, str_eq, ap, sym, subst, ◌∙◌, if◌then◌else◌, if_cases, eq_iff, eq_refl,
}
use ai_os.WorkflowEngine.Instance.{
  Status, created, running, waiting_for_human, waiting_for_retry, quality_gate_failed, compensating,
  completed, failed, cancelled, WorkflowInstance,
}
use ai_os.WorkflowEngine.Runner.{
  RetryPolicy, Retries, no_retries, Raised, step_error, other_error, value_or_zero, count_failure,
  is_within_bounds, bounded_target, retry_target, World, Surroundings, Run, Returned, instance_of,
  raised,
}
use ai_os.WorkflowEngine.Runner.Loop.{
  Next, continue_with, stop, end_of_status, after_reset, after_error, after_once, run_once,
}

-- The step whose failure an iteration ended with, before those of earlier iterations.
abbrev pub with_failure : Returned → List String → List String
with_failure (instance_of row) steps = steps
with_failure (raised (step_error retriable step_id)) steps = step_id ∷ steps
with_failure (raised other_error) steps = steps

-- The states in which the loop of `run_to_completion` goes on to another iteration, with the steps that it has retried,
-- the latest first.
pub data Reaches (s : Surroundings) (run : Run) (start : World)
    : (iteration : ℕ) → List String → Option WorkflowInstance → Retries → World → Type 0 where
  begins : Reaches s run start 1 [] none no_retries start
  goes_on :
      (i : ℕ) (steps : List String) (last : Option WorkflowInstance) (retries counted : Retries)
      (world now : World) (row : WorkflowInstance)
      → Reaches s run start i steps last retries world
      → after_once s run i last retries (run_once s run i world) ≡ (continue_with row counted, now)
      → Reaches s run start
          (i + 1)
          (with_failure (run_once s run i world).0 steps)
          (some row)
          counted
          now

unfoldable pub times_retried : String → List String → ℕ
times_retried step_id [] = 0
times_retried step_id (step ∷ steps) =
    let rest = times_retried step_id steps in if str_eq step step_id then rest + 1 else rest

abbrev pub failures_counted : String → Retries → ℕ
failures_counted step_id retries = value_or_zero (lookup step_id retries.failure_counts)

count_failure-failures_counted :
    (policy : RetryPolicy) (step other : String) (now : ℕ) (retries : Retries)
    → failures_counted other (count_failure policy step now retries) ≡ (
        if str_eq step other
        then failures_counted step retries + 1
        else failures_counted other retries)
unfolding count_failure
count_failure-failures_counted policy step other now retries =
    ground
      (arith, lookup-insert step other (failures_counted step retries + 1) retries.failure_counts)

-- What holds of one step between iterations.
abbrev IsBounded : RetryPolicy → String → List String → Retries → Type 0
IsBounded policy step_id steps retries =
    (times_retried step_id steps ≤ failures_counted step_id retries)
    × (times_retried step_id steps < policy.max_attempts)

count_failure-IsBounded :
    (policy : RetryPolicy) (broken step_id : String) (now : ℕ) (steps : List String)
    (retries : Retries)
    → IsBounded policy step_id steps retries
    → is_within_bounds policy broken now (count_failure policy broken now retries) ≡ true
    → IsBounded policy step_id (broken ∷ steps) (count_failure policy broken now retries)
unfolding times_retried is_within_bounds
count_failure-IsBounded policy broken step_id now steps retries b within = ground (
  arith,
  count_failure-failures_counted policy broken step_id now retries,
  count_failure-failures_counted policy broken broken now retries,
  eq_iff broken step_id,
  eq_refl broken,
)

abbrev goes : Next → Bool
goes (continue_with row retries) = true
goes (stop e) = false

abbrev retries_or : Retries → Next → Retries
retries_or default (continue_with row retries) = retries
retries_or default (stop e) = default

end_of_status-retries :
    (status : Status) (i : ℕ) (row : WorkflowInstance) (retries : Retries)
    → retries_or retries (end_of_status status i row retries) ≡ retries
end_of_status-retries created i row retries = refl
end_of_status-retries running i row retries = refl
end_of_status-retries waiting_for_human i row retries = refl
end_of_status-retries waiting_for_retry i row retries = refl
end_of_status-retries quality_gate_failed i row retries = refl
end_of_status-retries compensating i row retries = refl
end_of_status-retries completed i row retries = refl
end_of_status-retries failed i row retries = refl
end_of_status-retries cancelled i row retries = refl

after_reset-retries :
    (result : Returned) (retries : Retries)
    → retries_or retries (after_reset result retries) ≡ retries
after_reset-retries (instance_of row) retries = refl
after_reset-retries (raised e) retries = refl

module _ (s : Surroundings) (run : Run) (policy : RetryPolicy) (i : ℕ)
    (last : Option WorkflowInstance) (step_id : String) (steps : List String)
    (row : WorkflowInstance) (counted : Retries) (world after : World) where
  refused-stops :
      (failures : List String) (retries : Retries)
      → after_error s run i last (none, retries) world ≡ (continue_with row counted, after)
      → IsBounded policy step_id failures counted
  unfolding after_error
  refused-stops failures retries e = ground (arith, ap (λ q. goes q.0) e)

  granted-retries :
      (target : String) (retries : Retries)
      → after_error s run i last (some target, retries) world ≡ (continue_with row counted, after)
      → retries ≡ counted
  unfolding after_error
  granted-retries target retries e =
      sym (after_reset-retries _ retries) ∙ ap (λ q. retries_or retries q.0) e

  bounded_target-IsBounded :
      (target : Option String) (broken : String) (now : ℕ) (retries : Retries)
      → IsBounded policy step_id steps retries
      → after_error s run i last (bounded_target target (some policy) broken now retries) world
        ≡ (continue_with row counted, after)
      → IsBounded policy step_id (broken ∷ steps) counted
  unfolding bounded_target
  bounded_target-IsBounded none broken now retries b e = refused-stops _ retries e
  bounded_target-IsBounded (some target) broken now retries b e =
      let c = count_failure policy broken now retries in
      if_cases
        (λ t.
          after_error s run i last (t, c) world ≡ (continue_with row counted, after)
          → IsBounded policy step_id (broken ∷ steps) counted)
        (is_within_bounds policy broken now c)
        (λ within e'.
          subst (IsBounded policy step_id (broken ∷ steps)) (granted-retries target c e')
            (count_failure-IsBounded policy broken step_id now steps retries b within))
        (λ exhausted e'. refused-stops _ c e') e

  after_error-IsBounded :
      (error : Raised) (now : ℕ) (retries : Retries)
      → IsBounded policy step_id steps retries
      → after_error s run i last
          (retry_target error run.step_retry_targets (some policy) now retries)
          world
        ≡ (continue_with row counted, after)
      → IsBounded policy step_id (with_failure (raised error) steps) counted
  unfolding retry_target
  after_error-IsBounded other_error now retries b e = refused-stops _ retries e
  after_error-IsBounded (step_error false broken) now retries b e = refused-stops _ retries e
  after_error-IsBounded (step_error true broken) now retries b e =
      bounded_target-IsBounded (lookup broken run.step_retry_targets) broken now retries b e

  after_once-IsBounded :
      (result : Returned) (retries : Retries)
      → run.retry_policy ≡ some policy
      → IsBounded policy step_id steps retries
      → after_once s run i last retries (result, world) ≡ (continue_with row counted, after)
      → IsBounded policy step_id (with_failure result steps) counted
  unfolding after_once
  after_once-IsBounded (instance_of r) retries p b e =
      subst (IsBounded policy step_id steps)
        (sym (end_of_status-retries r.status i r retries) ∙ ap (λ q. retries_or retries q.0) e) b
  after_once-IsBounded (raised error) retries p b e =
      after_error-IsBounded error (s.monotonic i) retries b (
        subst
          (λ o.
            after_error s run i last
              (retry_target error run.step_retry_targets o (s.monotonic i) retries) world
            ≡ (continue_with row counted, after))
          p e)

-- The invariant, at every iteration that is reached.
reached-IsBounded :
    (s : Surroundings) (run : Run) (start : World) (policy : RetryPolicy) (step_id : String) (i : ℕ)
    (steps : List String) (last : Option WorkflowInstance) (retries : Retries) (world : World)
    → run.retry_policy ≡ some policy
    → 0 < policy.max_attempts
    → Reaches s run start i steps last retries world
    → IsBounded policy step_id steps retries
unfolding times_retried
reached-IsBounded s run start policy step_id _ _ _ _ _ p positive begins = ground (arith, positive)
reached-IsBounded s run start policy step_id _ _ _ _ _ p positive
      (goes_on i steps last retries counted world now row earlier e) =
    let once = run_once s run i world in
    after_once-IsBounded s run policy i last step_id steps row counted once.1 now once.0 retries p
      (reached-IsBounded s run start policy step_id i steps last retries world p positive earlier) e

-- With a retry policy of a positive number of attempts, a run has retried no step that many times, in any iteration
-- that it reaches, whatever the executors, the clocks and other workers do.
pub retries_are_bounded :
    (s : Surroundings) (run : Run) (start : World) (policy : RetryPolicy) (step_id : String) (i : ℕ)
    (steps : List String) (last : Option WorkflowInstance) (retries : Retries) (world : World)
    → run.retry_policy ≡ some policy
    → 0 < policy.max_attempts
    → Reaches s run start i steps last retries world
    → times_retried step_id steps < policy.max_attempts
retries_are_bounded s run start policy step_id i steps last retries world p positive reached =
    (reached-IsBounded s run start policy step_id i steps last retries world p positive reached).1
