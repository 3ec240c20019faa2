-- ===== src/LlmGateway/CircuitBreaker/Examples.antt =====
-- Runs of the circuit breaker on small inputs.
use ai_os.Prelude.{
  ℕ, ◌+◌, ◌≤◌, ◌<◌, ◌≡◌, refl, true, [], ◌∷◌, arith, ◌↔◌, ◌⊎◌, length, List, lookup, insert,
}
use ai_os.LlmGateway.CircuitBreaker.{
  Breaker, new_breaker, is_available, record_success, record_failure, fail_circuit,
}
use ai_os.LlmGateway.CircuitBreaker.Invariant.{
  Report, asked, failed, succeeded, replay, report, failures_since, refused_needs_failures,
}
use ai_os.LlmGateway.CircuitBreaker.Trip.{fail_all, fail_all-is_available}

abbrev fragile : Breaker
fragile = record { failure_threshold = 2; reset_timeout_seconds = 30; circuits = [] }

abbrev history : List Report
history = failed 9 "local" ∷ asked 8 "local" ∷ failed 5 "local" ∷ succeeded "local" ∷ []

refused_needs_failures_example : 2 ≤ failures_since "local" history
unfolding replay report is_available record_failure record_success fail_circuit lookup insert
    new_breaker
refused_needs_failures_example = refused_needs_failures 2 30 fragile history 20 "local" refl refl

fail_all-is_available_example :
    ((is_available 20 "local" (fail_all "local" (9 ∷ 5 ∷ []) (record_success "local" fragile))).1
      ≡ true)
    ↔ ((length {A = ℕ} (9 ∷ 5 ∷ []) < 2) ⊎ (9 + 30 ≤ 20))
fail_all-is_available_example = fail_all-is_available "local" 9 (5 ∷ []) fragile 20 (omega arith)
