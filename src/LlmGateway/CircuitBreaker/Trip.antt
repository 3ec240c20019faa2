-- ===== src/LlmGateway/CircuitBreaker/Trip.antt =====
-- When the breaker opens, and when it lets a trial call through again (circuit_breaker.py).
use ai_os.Prelude.{
  ℕ, ◌+◌, ◌≤◌, ◌<◌, ◌≡◌, refl, true, false, List, [], ◌∷◌, String, leb, if◌then◌else◌,
  lookup-insert_self, lookup-insert_ne, lookup, str_eq, arith, length, some, ◌∙◌, subst, ◌↔◌, ◌⊎◌,
}
use ai_os.LlmGateway.CircuitBreaker.{
  closed, open_circuit, half_open, ProviderCircuit, Breaker, fresh_circuit, circuit_or_fresh,
  is_available, record_success, record_failure, fail_circuit,
}

-- Consecutive failures of `p`, at the times of a list, the latest first.
unfoldable pub fail_all : String → List ℕ → Breaker → Breaker
fail_all p [] b = b
fail_all p (t ∷ ts) b = record_failure t p (fail_all p ts b)

-- The entry of a provider that has failed at the times of a list since its last success.
abbrev failed_circuit : ℕ → List ℕ → ProviderCircuit
failed_circuit threshold [] = fresh_circuit
failed_circuit threshold (t ∷ ts) =
    if leb threshold (length ts + 1)
    then record { state = open_circuit; consecutive_failures = length ts + 1; opened_at = t }
    else record { state = closed; consecutive_failures = length ts + 1; opened_at = 0 }

fail_circuit-failed_circuit :
    (threshold t : ℕ) (ts : List ℕ)
    → 0 < threshold
    → fail_circuit threshold t (failed_circuit threshold ts) ≡ failed_circuit threshold (t ∷ ts)
unfolding fail_circuit
fail_circuit-failed_circuit threshold t [] h = ground arith
fail_circuit-failed_circuit threshold t (u ∷ ts) h = ground arith

-- One more failure of `p`, where its entry is known.
record_failure_entry :
    (t : ℕ) (p : String) (c : ProviderCircuit) (b : Breaker)
    → lookup p b.circuits ≡ some c
    → lookup p (record_failure t p b).circuits ≡ some (fail_circuit b.failure_threshold t c)
unfolding record_failure
record_failure_entry t p c b e = lookup-insert_self p _ b.circuits ∙ rw e

record_failure_settings :
    (t : ℕ) (p : String) (b : Breaker)
    → ((record_failure t p b).failure_threshold ≡ b.failure_threshold)
      × ((record_failure t p b).reset_timeout_seconds ≡ b.reset_timeout_seconds)
unfolding record_failure
record_failure_settings t p b = (refl, refl)

fail_all_entry :
    (p : String) (ts : List ℕ) (b : Breaker)
    → 0 < b.failure_threshold
    → let b' = fail_all p ts (record_success p b) in
      (lookup p b'.circuits ≡ some (failed_circuit b.failure_threshold ts))
      × (b'.failure_threshold ≡ b.failure_threshold)
      × (b'.reset_timeout_seconds ≡ b.reset_timeout_seconds)
unfolding fail_all record_success
fail_all_entry p [] b h = (lookup-insert_self p fresh_circuit b.circuits, refl, refl)
fail_all_entry p (t ∷ ts) b h =
    let (entry, same_threshold, same_timeout) = fail_all_entry p ts b h in
    let b' = fail_all p ts (record_success p b) in
    (
      record_failure_entry t p _ b' entry
          ∙ rw (same_threshold, fail_circuit-failed_circuit b.failure_threshold t ts h),
      (record_failure_settings t p b').0 ∙ same_threshold,
      (record_failure_settings t p b').1 ∙ same_timeout,
    )

available_failed :
    (now threshold : ℕ) (p : String) (t : ℕ) (ts : List ℕ) (b : Breaker)
    → lookup p b.circuits ≡ some (failed_circuit threshold (t ∷ ts))
    → ((is_available now p b).1 ≡ true)
      ↔ ((length (t ∷ ts) < threshold) ⊎ (t + b.reset_timeout_seconds ≤ now))
unfolding is_available
available_failed now threshold p t ts b e = rw e (ground arith)

-- After a success of `p` and then consecutive failures at the times of `ts` (the latest first):
-- `p` is available exactly when there were fewer failures than the threshold, or the reset timeout
-- has passed since the latest of them.
pub fail_all-is_available :
    (p : String) (t : ℕ) (ts : List ℕ) (b : Breaker) (now : ℕ)
    → 0 < b.failure_threshold
    → ((is_available now p (fail_all p (t ∷ ts) (record_success p b))).1 ≡ true)
      ↔ ((length (t ∷ ts) < b.failure_threshold) ⊎ (t + b.reset_timeout_seconds ≤ now))
fail_all-is_available p t ts b now h =
    let (entry, _, same_timeout) = fail_all_entry p (t ∷ ts) b h in
    let b' = fail_all p (t ∷ ts) (record_success p b) in
    subst
      (λ timeout.
        ((is_available now p b').1 ≡ true)
        ↔ ((length (t ∷ ts) < b.failure_threshold) ⊎ (t + timeout ≤ now)))
      same_timeout (available_failed now b.failure_threshold p t ts b' entry)

-- The answer depends on the provider's own entry and on the timeout.
available_same :
    (later : ℕ) (q : String) (b b' : Breaker)
    → lookup q b'.circuits ≡ lookup q b.circuits
    → b'.reset_timeout_seconds ≡ b.reset_timeout_seconds
    → (is_available later q b').1 ≡ (is_available later q b).1
unfolding is_available
available_same later q b b' e f = ground arith

asked_elsewhere :
    (now : ℕ) (p q : String) (b : Breaker)
    → str_eq p q ≡ false
    → (lookup q (is_available now p b).0.circuits ≡ lookup q b.circuits)
      × ((is_available now p b).0.reset_timeout_seconds ≡ b.reset_timeout_seconds)
unfolding is_available
asked_elsewhere now p q b other = ground (
  arith,
  lookup-insert_ne p q (record (circuit_or_fresh (lookup p b.circuits)) { state = half_open })
      b.circuits,
)

-- Reports about one provider never change whether another one is available.
pub reports_are_separate :
    (now later : ℕ) (p q : String) (b : Breaker)
    → str_eq p q ≡ false
    → ((is_available later q (record_failure now p b)).1 ≡ (is_available later q b).1)
      × ((is_available later q (record_success p b)).1 ≡ (is_available later q b).1)
      × ((is_available later q (is_available now p b).0).1 ≡ (is_available later q b).1)
unfolding record_failure record_success
reports_are_separate now later p q b other = (
  available_same later q b (record_failure now p b) (lookup-insert_ne p q _ b.circuits other) refl,
  available_same later q b (record_success p b) (lookup-insert_ne p q _ b.circuits other) refl,
  let (entry, timeout) = asked_elsewhere now p q b other in
      available_same later q b (is_available now p b).0 entry timeout,
)
