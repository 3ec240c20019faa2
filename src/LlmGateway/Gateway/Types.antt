-- ===== src/LlmGateway/Gateway/Types.antt =====
-- Requests and responses (kernel/src/ai_os_kernel/llm_gateway/models.py), and the gateway's
-- collaborators and surroundings (gateway.py).
use ai_os.Prelude.{ℕ, ◌+◌, Bool, Option, List, String}
use ai_os.LlmGateway.Taxonomy.{ProviderError}
use ai_os.LlmGateway.CircuitBreaker.{Breaker}
use ai_os.LlmGateway.Budget.{SpendEnforcer, CountEnforcer}
use ai_os.LlmGateway.Backoff.{BackoffPolicy}

pub record TraceContext : Type 0 where
  pub workflow_id : Option String
  pub step_id : Option String
  pub experiment_id : Option String

pub data MessageRole : Type 0 where
  user assistant : MessageRole

pub record Message : Type 0 where
  pub role : MessageRole
  pub content : String

pub record LlmRequest : Type 0 where
  pub model_alias : String
  pub messages : List Message
  pub system : Option String
  pub system_cache_boundary_index : Option ℕ
  pub max_output_tokens : ℕ
  pub metadata : Option TraceContext

pub data StopReason : Type 0 where
  end_turn max_tokens : StopReason

pub record UsageRecord : Type 0 where
  pub input_tokens : ℕ
  pub output_tokens : ℕ
  pub cache_read_tokens : ℕ
  pub cache_write_tokens : ℕ
  pub cost_usd : ℕ  -- a `Decimal`, in its smallest unit
  pub latency_ms : ℕ
  pub provider : String
  pub model_id : String
  pub retries : ℕ
  pub fallback_used : Bool

pub record LlmResponse : Type 0 where
  pub content : String
  pub stop_reason : StopReason
  pub usage : UsageRecord
  pub provider : String
  pub model_id : String
  pub model_version : String
  pub served_from_cache : Bool

-- How a coroutine ends: by a value, by an `LLMProviderError`, or by another exception, such as
-- `LLMRefusalError`, which nothing in the gateway catches.
pub data Outcome (A : Type 0) : Type 0 where
  returned : A → Outcome A
  failed : ProviderError → Outcome A
  refused : Outcome A

pub record RateLimitResult : Type 0 where
  pub allowed : Bool
  pub retry_after_seconds : Option ℕ

-- What the gateway is built with, and what it does not control. An interaction with the outside
-- (reading the clock, drawing a delay, asking the limiter, calling a provider) takes the number of
-- the interactions before it: `elapse` is the time that passes until it, and the others its answer.
pub record Surroundings : Type 0 where
  pub gateways : List (String × (LlmRequest → ℕ → Outcome LlmResponse))
  pub backoff_policy : Option BackoffPolicy
  pub rate_limiter : Option (String → ℕ → RateLimitResult)
  pub uniform : ℕ → ℕ → ℕ
  pub elapse : ℕ → ℕ

-- The state of the collaborators, the clock, and what the gateway has asked of the outside: real
-- provider calls, and ticks slept.
pub record Context : Type 0 where
  pub clock : ℕ
  pub interactions : ℕ
  pub calls : ℕ
  pub slept : ℕ
  pub circuit_breaker : Option Breaker
  pub budget_enforcer : Option SpendEnforcer
  pub workflow_budget_enforcer : Option SpendEnforcer
  pub step_token_budget_enforcer : Option CountEnforcer
  pub step_wall_time_budget_enforcer : Option CountEnforcer

-- Time passes until the next interaction. Its clock is never behind (`time.monotonic()`).
unfoldable pub tick : Surroundings → Context → Context
tick env ctx = record ctx {
  clock = ctx.clock + env.elapse ctx.interactions;
  interactions = ctx.interactions + 1;
}
