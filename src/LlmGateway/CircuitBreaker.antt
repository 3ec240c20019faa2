-- ===== src/LlmGateway/CircuitBreaker.antt =====
-- kernel/src/ai_os_kernel/llm_gateway/circuit_breaker.py. Times are natural numbers of clock ticks;
-- `now` is what `time.monotonic()` returns at that point of the call.
pub mod Invariant
pub mod Trip
mod Examples
use ai_os.Prelude.{
  ℕ, ◌+◌, ◌≡◌, Bool, true, false, Option, none, some, List, [], String, ltb, leb, ◌==◌,
  if◌then◌else◌, lookup, insert,
}

pub data CircuitState : Type 0 where
  closed open_circuit half_open : CircuitState

-- `_ProviderCircuit`.
pub record ProviderCircuit : Type 0 where
  pub state : CircuitState
  pub consecutive_failures : ℕ
  pub opened_at : ℕ

-- The defaults of the dataclass's fields.
abbrev pub fresh_circuit : ProviderCircuit
fresh_circuit = record { state = closed; consecutive_failures = 0; opened_at = 0 }

-- `InMemoryCircuitBreaker`.
pub record Breaker : Type 0 where
  pub failure_threshold : ℕ
  pub reset_timeout_seconds : ℕ
  pub circuits : List (String × ProviderCircuit)

-- The constructor. `none` is its `ValueError`.
unfoldable pub new_breaker : ℕ → ℕ → Option Breaker
new_breaker threshold timeout =
    if ltb threshold 1
    then none
    else if timeout == 0
    then none
    else some
        (record { failure_threshold = threshold; reset_timeout_seconds = timeout; circuits = [] })

-- `is_available` where the provider has the entry `c`: `now - opened_at < timeout` is written
-- without a subtraction.
check_state : CircuitState → ℕ → String → ProviderCircuit → Breaker → Breaker × Bool
check_state closed now provider c b = (b, true)
check_state half_open now provider c b = (b, true)
check_state open_circuit now provider c b =
    if ltb now (c.opened_at + b.reset_timeout_seconds)
    then (b, false)
    else (record b { circuits = insert provider (record c { state = half_open }) b.circuits }, true)

check_entry : Option ProviderCircuit → ℕ → String → Breaker → Breaker × Bool
check_entry none now provider b = (b, true)
check_entry (some c) now provider b = check_state c.state now provider c b

unfoldable pub is_available : ℕ → String → Breaker → Breaker × Bool
unfolding check_state check_entry
is_available now provider b = check_entry (lookup provider b.circuits) now provider b

unfoldable pub record_success : String → Breaker → Breaker
record_success provider b = record b { circuits = insert provider fresh_circuit b.circuits }

-- `self._circuits.setdefault(provider, _ProviderCircuit())`, as far as it is read.
abbrev pub circuit_or_fresh : Option ProviderCircuit → ProviderCircuit
circuit_or_fresh none = fresh_circuit
circuit_or_fresh (some c) = c

-- `record_failure` on the provider's entry, which it mutates.
fail_counted : ℕ → ℕ → ProviderCircuit → ProviderCircuit
fail_counted threshold now c =
    if leb threshold (c.consecutive_failures + 1)
    then record {
      state = open_circuit;
      consecutive_failures = c.consecutive_failures + 1;
      opened_at = now;
    }
    else record c { consecutive_failures = c.consecutive_failures + 1 }

fail_state : CircuitState → ℕ → ℕ → ProviderCircuit → ProviderCircuit
unfolding fail_counted
fail_state half_open threshold now c = record c { state = open_circuit; opened_at = now }
fail_state closed threshold now c = fail_counted threshold now c
fail_state open_circuit threshold now c = fail_counted threshold now c

unfoldable pub fail_circuit : ℕ → ℕ → ProviderCircuit → ProviderCircuit
unfolding fail_state
fail_circuit threshold now c = fail_state c.state threshold now c

unfoldable pub record_failure : ℕ → String → Breaker → Breaker
record_failure now provider b =
    let c = circuit_or_fresh (lookup provider b.circuits) in
    record b { circuits = insert provider (fail_circuit b.failure_threshold now c) b.circuits }
