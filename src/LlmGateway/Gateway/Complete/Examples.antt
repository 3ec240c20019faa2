-- ===== src/LlmGateway/Gateway/Complete/Examples.antt =====
-- Requests on a chain of two providers: `local`, which fails, and `echo`, which answers.
use ai_os.Prelude.{
  ℕ, ◌+◌, ◌*◌, ◌≤◌, ◌≡◌, ◌↔◌, ◌⊎◌, refl, true, false, none, some, List, [], ◌∷◌, String, Option,
  if◌then◌else◌, str_eq, lookup, Bool, subst, arith,
}
use ai_os.LlmGateway.Taxonomy.{
  ProviderError, raised, classified, transient, budget, chain_exhausted,
}
use ai_os.LlmGateway.Budget.{spend_is_within}
use ai_os.LlmGateway.Backoff.{BackoffPolicy, delay_cap}
use ai_os.LlmGateway.Router.{RoutingDecision, single, chain, resolve}
use ai_os.LlmGateway.Gateway.Types.{
  LlmRequest, LlmResponse, Outcome, returned, failed, Surroundings, Context, tick, end_turn,
}
use ai_os.LlmGateway.Gateway.Call.{
  over_budget, call, pass_limiter, pass_breaker, dispatch, dispatch_to, answered, report_success,
  report_failure,
}
use ai_os.LlmGateway.Gateway.Complete.{
  complete, complete_from, call_with_backoff, call_by_policy, attempts, end_attempts,
  continue_attempts, end_chain, fall_back, prepare_retry, planned_delay, sleep, still_available,
  retried, with_fallback_used,
}
use ai_os.LlmGateway.Gateway.Complete.Bounds.{
  complete-bounds, chain_length, attempt_limit, sleep_limit,
}
use ai_os.LlmGateway.Gateway.Complete.Spending.{complete-charges, account, cost_of}
use ai_os.LlmGateway.Gateway.Complete.Failures.{RaisedByBudget, AllFailed}
use ai_os.LlmGateway.Gateway.Complete.Fallback.{
  chain_failure, fallback_used_iff, ProvidersLeaveUnmarked,
}

abbrev request : LlmRequest
request = record {
  model_alias = "fast";
  messages = [];
  system = none;
  system_cache_boundary_index = none;
  max_output_tokens = 100;
  metadata = none;
}

abbrev unavailable : ProviderError
unavailable = raised (classified transient "llm.network" true)

abbrev answer : LlmResponse
answer = record {
  content = "hello";
  stop_reason = end_turn;
  usage = record {
    input_tokens = 3;
    output_tokens = 2;
    cache_read_tokens = 0;
    cache_write_tokens = 0;
    cost_usd = 7;
    latency_ms = 40;
    provider = "echo";
    model_id = "echo-1";
    retries = 0;
    fallback_used = false;
  };
  provider = "echo";
  model_id = "echo-1";
  model_version = "1";
  served_from_cache = false;
}

abbrev down : LlmRequest → ℕ → Outcome LlmResponse
down r n = failed unavailable

abbrev up : LlmRequest → ℕ → Outcome LlmResponse
up r n = returned answer

abbrev two_attempts : BackoffPolicy
two_attempts = record {
  max_attempts = 2;
  base_delay_seconds = 4;
  max_delay_seconds = 10;
  max_total_seconds = 30;
}

-- Each draw is the longest delay, and a tick passes before each interaction.
abbrev outside : List (String × (LlmRequest → ℕ → Outcome LlmResponse)) → Surroundings
outside gateways = record {
  gateways = gateways;
  backoff_policy = some two_attempts;
  rate_limiter = none;
  uniform = λ cap n. cap;
  elapse = λ n. 1;
}

abbrev half_down : Surroundings
half_down = outside (("local", down) ∷ ("echo", up) ∷ [])

abbrev all_down : Surroundings
all_down = outside (("local", down) ∷ ("echo", down) ∷ [])

abbrev spent_on_fast : ℕ → Context
spent_on_fast total = record {
  clock = 100;
  interactions = 0;
  calls = 0;
  slept = 0;
  circuit_breaker = none;
  budget_enforcer = some (record { ceiling_usd = 50; spend = ("fast", total) ∷ [] });
  workflow_budget_enforcer = none;
  step_token_budget_enforcer = none;
  step_wall_time_budget_enforcer = none;
}

abbrev decision : RoutingDecision
decision = chain "local" "small" (single "echo" "echo-1")

abbrev routes : List (String × RoutingDecision)
routes = ("fast", decision) ∷ []

complete-bounds_example :
    let after = (complete routes half_down request (spent_on_fast 0)).1 in
    (after.calls ≤ 0 + chain_length decision * attempt_limit (some two_attempts))
    × (after.slept ≤ 0 + chain_length decision * sleep_limit (some two_attempts))
unfolding resolve lookup
complete-bounds_example = complete-bounds routes half_down request (spent_on_fast 0) decision refl

complete-charges_example :
    let (outcome, after) = complete routes half_down request (spent_on_fast 0) in
    account "fast" after.budget_enforcer
    ≡ account "fast" (spent_on_fast 0).budget_enforcer
      + (if str_eq "fast" "fast" then cost_of outcome else 0)
complete-charges_example = complete-charges "fast" routes half_down request (spent_on_fast 0) refl

chain_failure_example :
    (((raised chain_exhausted).category ≡ budget)
      × RaisedByBudget all_down request
          (raised chain_exhausted)
          (chain "local" "small" (single "echo" "echo-1"))
          (spent_on_fast 0))
    ⊎ ((raised chain_exhausted ≡ raised chain_exhausted)
        × AllFailed all_down request
            (chain "local" "small" (single "echo" "echo-1"))
            (spent_on_fast 0))
unfolding complete_from call_with_backoff call_by_policy attempts end_attempts continue_attempts
    end_chain fall_back prepare_retry planned_delay sleep still_available call pass_limiter
    pass_breaker dispatch dispatch_to answered report_failure over_budget tick lookup delay_cap
    spend_is_within
chain_failure_example =
    chain_failure "local" "small" (single "echo" "echo-1") all_down request (spent_on_fast 0)
      (raised chain_exhausted) refl

-- `echo` leaves the mark alone, and `local` answers nothing.
abbrev LeavesUnmarked : Option (LlmRequest → ℕ → Outcome LlmResponse) → Type 0
LeavesUnmarked none = Unit
LeavesUnmarked (some answer) =
    (n : ℕ) (r : LlmResponse) → answer request n ≡ returned r → r.usage.fallback_used ≡ false

one_of_two-LeavesUnmarked :
    (is_local is_echo : Bool)
    → LeavesUnmarked (if is_local then some down else if is_echo then some up else none)
one_of_two-LeavesUnmarked true b = λ n r h. ground (arith, h)
one_of_two-LeavesUnmarked false true = λ n r h. ground (arith, h)
one_of_two-LeavesUnmarked false false = tt

half_down-ProvidersLeaveUnmarked : ProvidersLeaveUnmarked half_down request
unfolding lookup
half_down-ProvidersLeaveUnmarked provider complete n r e h =
    subst LeavesUnmarked e
      (one_of_two-LeavesUnmarked (str_eq "local" provider) (str_eq "echo" provider)) n r h

fallback_used_iff_example : ((with_fallback_used answer).usage.fallback_used ≡ true) ↔ (
    (e : ProviderError) × ((call_with_backoff half_down "local" request (spent_on_fast 0)).0
      ≡ failed e))
unfolding complete_from call_with_backoff call_by_policy attempts end_attempts continue_attempts
    end_chain fall_back prepare_retry planned_delay sleep still_available call pass_limiter
    pass_breaker dispatch dispatch_to answered report_failure report_success over_budget tick lookup
    delay_cap spend_is_within retried
fallback_used_iff_example =
    fallback_used_iff "local" "small" (single "echo" "echo-1") half_down request (spent_on_fast 0)
      (with_fallback_used answer) half_down-ProvidersLeaveUnmarked refl
