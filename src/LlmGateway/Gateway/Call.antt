-- ===== src/LlmGateway/Gateway/Call.antt =====
-- `DispatchingLLMGateway._call` (gateway.py): the gates in their order, one provider call, and what
-- is reported of it.
use ai_os.Prelude.{
  ℕ, ◌+◌, Bool, true, false, not, Option, none, some, String, if◌then◌else◌, lookup,
}
use ai_os.LlmGateway.Taxonomy.{
  ProviderError, raised, classified, budget, rate_limit_exceeded, circuit_is_open, no_provider,
  counts_for_breaker,
}
use ai_os.LlmGateway.CircuitBreaker.{Breaker, is_available, record_success, record_failure}
use ai_os.LlmGateway.Budget.{
  SpendEnforcer, CountEnforcer, spend_is_within, record_spend, count_is_within, record_usage,
  step_scope,
}
use ai_os.LlmGateway.Gateway.Types.{
  TraceContext, LlmRequest, LlmResponse, Outcome, returned, failed, refused, RateLimitResult,
  Surroundings, Context, tick,
}

abbrev pub budget_exceeded : ProviderError
budget_exceeded = raised (classified budget "llm.budget_exceeded" false)

-- `request.metadata.workflow_id if request.metadata is not None else None`.
abbrev pub workflow_id_of : Option TraceContext → Option String
workflow_id_of none = none
workflow_id_of (some t) = t.workflow_id

abbrev pub step_id_of : Option TraceContext → Option String
step_id_of none = none
step_id_of (some t) = t.step_id

-- The key of the two per-step ceilings.
abbrev pub step_key : Option String → Option String → Option String
step_key (some w) (some s) = some (step_scope w s)
step_key _ none = none
step_key none _ = none

-- `enforcer is not None and scope is not None and not enforcer.is_within_budget(scope)`.
abbrev pub over_spend : Option SpendEnforcer → Option String → Bool
over_spend (some e) (some scope) = not (spend_is_within scope e)
over_spend _ none = false
over_spend none _ = false

abbrev pub over_count : Option CountEnforcer → Option String → Bool
over_count (some e) (some scope) = not (count_is_within scope e)
over_count _ none = false
over_count none _ = false

-- Any of the four ceilings is reached, in the order in which they are tested; the verdict is one.
unfoldable pub over_budget : LlmRequest → Context → Bool
over_budget request ctx =
    let workflow = workflow_id_of request.metadata in
    let step = step_key workflow (step_id_of request.metadata) in
    if over_spend ctx.budget_enforcer (some request.model_alias)
    then true
    else if over_spend ctx.workflow_budget_enforcer workflow
    then true
    else if over_count ctx.step_token_budget_enforcer step
    then true
    else over_count ctx.step_wall_time_budget_enforcer step

abbrev pub spent : Option SpendEnforcer → Option String → ℕ → Option SpendEnforcer
spent (some e) (some scope) cost = some (record_spend scope cost e)
spent e none cost = e
spent none scope cost = none

abbrev pub used : Option CountEnforcer → Option String → ℕ → Option CountEnforcer
used (some e) (some scope) amount = some (record_usage scope amount e)
used e none amount = e
used none scope amount = none

-- The reports after a successful call.
unfoldable pub report_success : String → LlmRequest → LlmResponse → Context → Context
report_success provider request response ctx =
    let workflow = workflow_id_of request.metadata in
    let step = step_key workflow (step_id_of request.metadata) in
    let usage = response.usage in
    record ctx {
      circuit_breaker = elim ctx.circuit_breaker [
        | none ↦ none
        | some b ↦ some (record_success provider b)
      ];
      budget_enforcer = spent ctx.budget_enforcer (some request.model_alias) usage.cost_usd;
      workflow_budget_enforcer = spent ctx.workflow_budget_enforcer workflow usage.cost_usd;
      step_token_budget_enforcer =
          used ctx.step_token_budget_enforcer step (usage.input_tokens + usage.output_tokens);
      step_wall_time_budget_enforcer =
          used ctx.step_wall_time_budget_enforcer step usage.latency_ms;
    }

-- The report after an `LLMProviderError`: the breaker reads the clock.
unfoldable pub report_failure : Surroundings → String → ProviderError → Context → Context
unfolding tick
report_failure env provider e ctx = elim ctx.circuit_breaker [
  | none ↦ ctx
  | some b ↦
      if counts_for_breaker e.category
      then (let at = tick env ctx in
          record at { circuit_breaker = some (record_failure at.clock provider b) })
      else ctx
]

-- What a provider answered.
unfoldable pub answered :
    Surroundings
    → String
    → LlmRequest
    → Outcome LlmResponse
    → Context
    → Outcome LlmResponse × Context
answered env provider request (returned r) ctx = (returned r, report_success provider request r ctx)
answered env provider request (failed e) ctx = (failed e, report_failure env provider e ctx)
answered env provider request refused ctx = (refused, ctx)

-- `gateway = self._gateways.get(decision.provider)` and the rest.
unfoldable pub dispatch_to :
    Option (LlmRequest → ℕ → Outcome LlmResponse)
    → Surroundings
    → String
    → LlmRequest
    → Context
    → Outcome LlmResponse × Context
dispatch_to none env provider request ctx = (failed (raised no_provider), ctx)
dispatch_to (some complete) env provider request ctx =
    answered env provider request (complete request ctx.interactions)
      (record (tick env ctx) { calls = ctx.calls + 1 })

unfoldable pub dispatch :
    Surroundings → String → LlmRequest → Context → Outcome LlmResponse × Context
dispatch env provider request ctx =
    dispatch_to (lookup provider env.gateways) env provider request ctx

-- The circuit breaker's gate, which reads the clock.
unfoldable pub pass_breaker :
    Option Breaker → Surroundings → String → LlmRequest → Context → Outcome LlmResponse × Context
pass_breaker none env provider request ctx = dispatch env provider request ctx
pass_breaker (some b) env provider request ctx =
    let at = tick env ctx in
    let (b', available) = is_available at.clock provider b in
    let ctx' = record at { circuit_breaker = some b' } in
    if available
    then dispatch env provider request ctx'
    else (failed (raised circuit_is_open), ctx')

abbrev pub rate_limited : Option ℕ → ProviderError
rate_limited hint = record {
  category = rate_limit_exceeded.category;
  error_code = rate_limit_exceeded.error_code;
  retriable = rate_limit_exceeded.retriable;
  retry_after_seconds = hint;
}

-- The rate limiter's gate, and then the breaker's.
unfoldable pub pass_limiter :
    Option (String → ℕ → RateLimitResult)
    → Surroundings
    → String
    → LlmRequest
    → Context
    → Outcome LlmResponse × Context
pass_limiter none env provider request ctx =
    pass_breaker ctx.circuit_breaker env provider request ctx
pass_limiter (some check) env provider request ctx =
    let result = check provider ctx.interactions in
    let ctx' = tick env ctx in
    if result.allowed
    then pass_breaker ctx'.circuit_breaker env provider request ctx'
    else (failed (rate_limited result.retry_after_seconds), ctx')

unfoldable pub call : Surroundings → String → LlmRequest → Context → Outcome LlmResponse × Context
call env provider request ctx =
    if over_budget request ctx
    then (failed budget_exceeded, ctx)
    else pass_limiter env.rate_limiter env provider request ctx

-- What a run of `call` computes with.
unfoldable pub call_runs : Unit {0}
unfolding call pass_limiter pass_breaker dispatch dispatch_to answered report_success report_failure
    over_budget tick
call_runs = tt
