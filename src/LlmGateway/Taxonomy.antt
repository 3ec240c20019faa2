-- ===== src/LlmGateway/Taxonomy.antt =====
-- kernel/src/ai_os_kernel/llm_gateway/error_taxonomy.py, and the exception of errors.py that carries
-- a classification. Messages are left out.
use ai_os.Prelude.{
  ℕ, ◌≤◌, ◌≡◌, Bool, true, false, ◌||◌, ◌⊎◌, ◌↔◌, Option, none, String, leb, ◌==◌, if◌then◌else◌,
  arith,
}

pub data ErrorCategory : Type 0 where
  transient permanent infrastructure budget : ErrorCategory

pub record ErrorClassification : Type 0 where
  pub category : ErrorCategory
  pub error_code : String
  pub retriable : Bool

abbrev pub classified : ErrorCategory → String → Bool → ErrorClassification
classified c code r = record { category = c; error_code = code; retriable = r }

abbrev pub chain_exhausted : ErrorClassification
chain_exhausted = classified transient "llm.chain_exhausted" true

abbrev pub circuit_is_open : ErrorClassification
circuit_is_open = classified transient "llm.circuit_open" true

abbrev pub no_route : ErrorClassification
no_route = classified permanent "llm.no_route" false

abbrev pub no_provider : ErrorClassification
no_provider = classified permanent "llm.no_provider" false

abbrev pub no_capabilities : ErrorClassification
no_capabilities = classified permanent "llm.no_capabilities" false

abbrev pub rate_limit_exceeded : ErrorClassification
rate_limit_exceeded = classified transient "llm.rate_limited" true

unfoldable pub classify_http_status : ℕ → ErrorClassification
classify_http_status code =
    if code == 429
    then classified transient "llm.rate_limited" true
    else if code == 529
    then classified transient "llm.overloaded" true
    else if code == 401 || code == 403
    then classified infrastructure "llm.auth_failed" false
    else if leb 500 code
    then classified transient "llm.provider_error" true
    else classified permanent "llm.invalid_request" false

-- A status is worth a retry of the same call exactly when it is 429 or at least 500; the category
-- is transient exactly then, infrastructure exactly for 401 and 403, and never budget.
classify_http_status_lem :
    (code : ℕ)
    → let c = classify_http_status code in
      ((c.retriable ≡ true) ↔ ((code ≡ 429) ⊎ (500 ≤ code)))
      × ((c.category ≡ transient) ↔ (c.retriable ≡ true))
      × ((c.category ≡ infrastructure) ↔ ((code ≡ 401) ⊎ (code ≡ 403)))
      × ¬ (c.category ≡ budget)
unfolding classify_http_status
classify_http_status_lem code = ground arith

-- `LLMProviderError`.
pub record ProviderError : Type 0 where
  pub category : ErrorCategory
  pub error_code : String
  pub retriable : Bool
  pub retry_after_seconds : Option ℕ

-- A raise that names one classification and no hint.
abbrev pub raised : ErrorClassification → ProviderError
raised c = record {
  category = c.category;
  error_code = c.error_code;
  retriable = c.retriable;
  retry_after_seconds = none;
}

abbrev pub is_budget : ErrorCategory → Bool
is_budget budget = true
is_budget _ = false

-- `exc.category in _CIRCUIT_BREAKER_CATEGORIES` (gateway.py).
abbrev pub counts_for_breaker : ErrorCategory → Bool
counts_for_breaker transient = true
counts_for_breaker infrastructure = true
counts_for_breaker _ = false
