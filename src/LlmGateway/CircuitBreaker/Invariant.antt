-- ===== src/LlmGateway/CircuitBreaker/Invariant.antt =====
-- What a breaker remembers of the calls that were reported to it (circuit_breaker.py): an
-- invariant over any history of calls, and what a refusal tells of that history.
use ai_os.Prelude.{
  ℕ, ◌+◌, ◌≤◌, ◌<◌, ◌≡◌, false, some, List, [], ◌∷◌, String, if◌then◌else◌, lookup, lookup-insert,
  str_eq, arith, Bool-cases, inl, inr, ◌⊎◌, eq_iff, subst, lookup-nil,
}
use ai_os.LlmGateway.CircuitBreaker.{
  closed, open_circuit, half_open, ProviderCircuit, Breaker, fresh_circuit, new_breaker,
  circuit_or_fresh, is_available, record_success, record_failure, fail_circuit,
}

-- One call of a method, with the clock's reading where the method reads it.
pub data Report : Type 0 where
  asked : ℕ → String → Report
  succeeded : String → Report
  failed : ℕ → String → Report

unfoldable pub report : Report → Breaker → Breaker
report (asked now p) b = (is_available now p b).0
report (succeeded p) b = record_success p b
report (failed now p) b = record_failure now p b

-- A history, the latest call first.
unfoldable pub replay : List Report → Breaker → Breaker
replay [] b = b
replay (r ∷ rs) b = report r (replay rs b)

-- The failures of a provider that were reported since its last success.
unfoldable pub failures_since : String → List Report → ℕ
failures_since p [] = 0
failures_since p (asked now q ∷ rs) = failures_since p rs
failures_since p (succeeded q ∷ rs) = let n = failures_since p rs in if str_eq q p then 0 else n
failures_since p (failed now q ∷ rs) =
    let n = failures_since p rs in if str_eq q p then n + 1 else n

-- A provider's entry against the failures reported since its last success.
pub record Accounts (threshold : ℕ) (n : ℕ) (c : ProviderCircuit) : Type 0 where
  pub counted : c.consecutive_failures ≤ n
  pub below : c.state ≡ closed → c.consecutive_failures < threshold
  pub tripped : (c.state ≡ closed) ⊎ (threshold ≤ c.consecutive_failures)

fail_circuit-Accounts :
    (threshold now n : ℕ) (c : ProviderCircuit)
    → Accounts threshold n c
    → Accounts threshold (n + 1) (fail_circuit threshold now c)
unfolding fail_circuit
fail_circuit-Accounts threshold now n c a = ground arith

fresh-Accounts : (threshold n : ℕ) → 0 < threshold → Accounts threshold n fresh_circuit
fresh-Accounts threshold n h = ground arith

-- The entry of `p`, or what stands for it.
abbrev pub circuit : String → Breaker → ProviderCircuit
circuit p b = circuit_or_fresh (lookup p b.circuits)

-- A breaker accounts for a history: its settings are the ones given, and every entry fits.
pub record Remembers (threshold timeout : ℕ) (rs : List Report) (b : Breaker) : Type 0 where
  pub kept_threshold : b.failure_threshold ≡ threshold
  pub kept_timeout : b.reset_timeout_seconds ≡ timeout
  pub entries : (p : String) → Accounts threshold (failures_since p rs) (circuit p b)

module _ {threshold timeout : ℕ} (positive : 0 < threshold) where
  asked-Remembers :
      (now : ℕ) (q : String) (rs : List Report) (b : Breaker)
      → Remembers threshold timeout rs b
      → Remembers threshold timeout (asked now q ∷ rs) (is_available now q b).0
  unfolding is_available failures_since
  asked-Remembers now q rs b m = record {
    kept_threshold = ground (arith, m.kept_threshold);
    kept_timeout = ground (arith, m.kept_timeout);
    entries = λ p. ground (
      arith,
      m.entries p,
      eq_iff q p,
      lookup-insert q p
          (record {
            state = half_open;
            consecutive_failures = (circuit q b).consecutive_failures;
            opened_at = (circuit q b).opened_at;
          })
          b.circuits,
    );
  }

  succeeded-Remembers :
      (q : String) (rs : List Report) (b : Breaker)
      → Remembers threshold timeout rs b
      → Remembers threshold timeout (succeeded q ∷ rs) (record_success q b)
  unfolding record_success failures_since
  succeeded-Remembers q rs b m = record {
    kept_threshold = m.kept_threshold;
    kept_timeout = m.kept_timeout;
    entries = λ p. rw (lookup-insert q p) (elim (Bool-cases (str_eq q p)) [
      | inl same ↦ rw same (fresh-Accounts threshold _ positive)
      | inr other ↦ rw other (m.entries p)
    ]);
  }

  failed-Remembers :
      (now : ℕ) (q : String) (rs : List Report) (b : Breaker)
      → Remembers threshold timeout rs b
      → Remembers threshold timeout (failed now q ∷ rs) (record_failure now q b)
  unfolding record_failure failures_since
  failed-Remembers now q rs b m = record {
    kept_threshold = m.kept_threshold;
    kept_timeout = m.kept_timeout;
    entries = λ p. rw (lookup-insert q p) (elim (Bool-cases (str_eq q p)) [
      | inl same ↦
          rw (same, m.kept_threshold)
            (subst
              (λ r.
                Accounts threshold (failures_since r rs + 1)
                  (fail_circuit threshold now (circuit q b)))
              ((eq_iff q p).0 same)
              (fail_circuit-Accounts threshold now _ (circuit q b) (m.entries q)))
      | inr other ↦ rw other (m.entries p)
    ]);
  }

  replay-Remembers :
      (rs : List Report) (b : Breaker)
      → Remembers threshold timeout [] b
      → Remembers threshold timeout rs (replay rs b)
  unfolding replay report
  replay-Remembers [] b m = m
  replay-Remembers (asked now q ∷ rs) b m = asked-Remembers now q rs _ (replay-Remembers rs b m)
  replay-Remembers (succeeded q ∷ rs) b m = succeeded-Remembers q rs _ (replay-Remembers rs b m)
  replay-Remembers (failed now q ∷ rs) b m = failed-Remembers now q rs _ (replay-Remembers rs b m)

new_breaker_circuits :
    (threshold timeout : ℕ) {b : Breaker} → new_breaker threshold timeout ≡ some b → b.circuits ≡ []
unfolding new_breaker
new_breaker_circuits threshold timeout e = ground arith

new_breaker-Remembers :
    (threshold timeout : ℕ) {b : Breaker}
    → new_breaker threshold timeout ≡ some b
    → (0 < threshold) × (Remembers threshold timeout [] b)
unfolding new_breaker failures_since
new_breaker-Remembers threshold timeout {b} e = (
  ground arith,
  record {
    kept_threshold = ground arith;
    kept_timeout = ground arith;
    entries = λ p.
        rw (new_breaker_circuits threshold timeout e, lookup-nil)
          (fresh-Accounts threshold 0 (ground arith));
  },
)

refusal_open :
    (now : ℕ) (p : String) (b : Breaker)
    → (is_available now p b).1 ≡ false
    → ((circuit p b).state ≡ open_circuit)
      × (now < (circuit p b).opened_at + b.reset_timeout_seconds)
unfolding is_available
refusal_open now p b h = ground arith

-- After any history of calls on a new breaker, a provider that is refused has had at least
-- `failure_threshold` failures reported since its last success.
pub refused_needs_failures :
    (threshold timeout : ℕ) (b : Breaker) (rs : List Report) (now : ℕ) (p : String)
    → new_breaker threshold timeout ≡ some b
    → (is_available now p (replay rs b)).1 ≡ false
    → threshold ≤ failures_since p rs
refused_needs_failures threshold timeout b rs now p made refused =
    let start = new_breaker-Remembers threshold timeout made in
    let m = replay-Remembers start.0 rs b start.1 in
    ground (arith, m.entries p, refusal_open now p (replay rs b) refused)
