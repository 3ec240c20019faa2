-- ===== src/LlmGateway/Gateway/Complete/Fallback.antt =====
-- When a request falls back to the next candidate, and what it reports (gateway.py).
use ai_os.Prelude.{
  ℕ, zero, suc, ◌+◌, ◌≡◌, ◌↔◌, ◌⊎◌, refl, true, false, Option, none, some, String, arith, lookup,
}
use ai_os.LlmGateway.Taxonomy.{ProviderError, budget, raised, chain_exhausted}
use ai_os.LlmGateway.CircuitBreaker.{Breaker}
use ai_os.LlmGateway.Backoff.{BackoffPolicy}
use ai_os.LlmGateway.Router.{RoutingDecision, single, chain}
use ai_os.LlmGateway.Gateway.Types.{
  RateLimitResult, LlmRequest, LlmResponse, Outcome, returned, failed, refused, Surroundings,
  Context,
}
use ai_os.LlmGateway.Gateway.Call.{
  call, dispatch, dispatch_to, answered, pass_limiter, pass_breaker,
}
use ai_os.LlmGateway.Gateway.Complete.{
  call_with_backoff, attempts, call_by_policy, end_attempts, continue_attempts, complete_from,
}
use ai_os.LlmGateway.Gateway.Complete.Failures.{
  RaisedByBudget, AllFailed, fall_back-FailsBy, complete_from-FailsBy,
}

-- A chain with a fallback fails either by the very error of the budget that the call of some candidate raised, where those
-- before it had failed otherwise; or by `llm.chain_exhausted`, where the call of every candidate failed, by no error of the
-- budget.
pub chain_failure :
    (provider model_id : String) (fallback : RoutingDecision) (env : Surroundings)
    (request : LlmRequest) (ctx : Context) (e : ProviderError)
    → (complete_from (chain provider model_id fallback) env request false ctx).0 ≡ failed e
    → ((e.category ≡ budget) × RaisedByBudget env request e (chain provider model_id fallback) ctx)
      ⊎ ((e ≡ raised chain_exhausted)
          × AllFailed env request (chain provider model_id fallback) ctx)
unfolding complete_from
chain_failure provider model_id fallback env request ctx e h =
    let (outcome, after) = call_with_backoff env provider request ctx in
    fall_back-FailsBy env request false outcome provider model_id fallback ctx e refl h
      (complete_from-FailsBy env request fallback after e)

-- A response that is not marked, if there is one.
abbrev Unmarked : Outcome LlmResponse → Type 0
Unmarked (returned r) = r.usage.fallback_used ≡ false
Unmarked (failed e) = Unit
Unmarked refused = Unit

-- Providers leave the mark to the gateway.
abbrev pub ProvidersLeaveUnmarked : Surroundings → LlmRequest → Type 0
ProvidersLeaveUnmarked env request =
    (provider : String) (answer : LlmRequest → ℕ → Outcome LlmResponse) (n : ℕ) (r : LlmResponse)
    → lookup provider env.gateways ≡ some answer
    → answer request n ≡ returned r
    → r.usage.fallback_used ≡ false

Unmarked-of :
    (o : Outcome LlmResponse)
    → ((r : LlmResponse) → o ≡ returned r → r.usage.fallback_used ≡ false)
    → Unmarked o
Unmarked-of (returned r) h = h r refl
Unmarked-of (failed e) h = tt
Unmarked-of refused h = tt

answered-Unmarked :
    (env : Surroundings) (provider : String) (request : LlmRequest) (o : Outcome LlmResponse)
    (ctx : Context)
    → Unmarked o
    → Unmarked (answered env provider request o ctx).0
unfolding answered
answered-Unmarked env provider request (returned r) ctx h = h
answered-Unmarked env provider request (failed e) ctx h = tt
answered-Unmarked env provider request refused ctx h = tt

module _ (env : Surroundings) (provider : String) (request : LlmRequest)
    (leave : ProvidersLeaveUnmarked env request) where
  dispatch-Unmarked : (ctx : Context) → Unmarked (dispatch env provider request ctx).0
  unfolding dispatch
  dispatch-Unmarked ctx = to (lookup provider env.gateways) refl
    where
      to :
          (o : Option (LlmRequest → ℕ → Outcome LlmResponse))
          → lookup provider env.gateways ≡ o
          → Unmarked (dispatch_to o env provider request ctx).0
      to none e = unfold dispatch_to in tt
      to (some answer) e =
          unfold dispatch_to in
          answered-Unmarked env provider request (answer request ctx.interactions) _
            (Unmarked-of (answer request ctx.interactions) (λ r. leave provider answer _ r e))

  pass_breaker-Unmarked :
      (o : Option Breaker) (ctx : Context) → Unmarked (pass_breaker o env provider request ctx).0
  unfolding pass_breaker
  pass_breaker-Unmarked none ctx = dispatch-Unmarked ctx
  pass_breaker-Unmarked (some b) ctx = grind (arith, dispatch-Unmarked)

  pass_limiter-Unmarked :
      (o : Option (String → ℕ → RateLimitResult)) (ctx : Context)
      → Unmarked (pass_limiter o env provider request ctx).0
  unfolding pass_limiter
  pass_limiter-Unmarked none ctx = pass_breaker-Unmarked ctx.circuit_breaker ctx
  pass_limiter-Unmarked (some check) ctx = grind (arith, pass_breaker-Unmarked)

  call-Unmarked : (ctx : Context) → Unmarked (call env provider request ctx).0
  unfolding call
  call-Unmarked ctx = ground (arith, pass_limiter-Unmarked env.rate_limiter ctx)

  attempts-Unmarked :
      (left : ℕ) (policy : BackoffPolicy) (started n : ℕ) (ctx : Context)
      → Unmarked (attempts left env policy provider request started n ctx).0
  unfolding attempts end_attempts continue_attempts
  attempts-Unmarked zero policy started n ctx = ground (arith, call-Unmarked ctx)
  attempts-Unmarked (suc left) policy started n ctx =
      grind (arith, call-Unmarked ctx, attempts-Unmarked left policy started (n + 1))

  call_by_policy-Unmarked :
      (o : Option BackoffPolicy) (ctx : Context)
      → Unmarked (call_by_policy o env provider request ctx).0
  unfolding call_by_policy
  call_by_policy-Unmarked none ctx = call-Unmarked ctx
  call_by_policy-Unmarked (some policy) ctx = attempts-Unmarked _ policy _ 1 _

  call_with_backoff-Unmarked :
      (ctx : Context) → Unmarked (call_with_backoff env provider request ctx).0
  unfolding call_with_backoff
  call_with_backoff-Unmarked ctx = call_by_policy-Unmarked env.backoff_policy ctx

complete_from-marked :
    (d : RoutingDecision) (env : Surroundings) (request : LlmRequest) (ctx : Context)
    (r : LlmResponse)
    → (complete_from d env request true ctx).0 ≡ returned r
    → r.usage.fallback_used ≡ true
unfolding complete_from
complete_from-marked (single provider model_id) env request ctx r h = ground arith
complete_from-marked (chain provider model_id fallback) env request ctx r h =
    let after = (call_with_backoff env provider request ctx).1 in
    ground (arith, complete_from-marked fallback env request after r)

-- Where providers leave the mark to the gateway, a response says `fallback_used` exactly when the
-- primary candidate failed.
pub fallback_used_iff :
    (provider model_id : String) (fallback : RoutingDecision) (env : Surroundings)
    (request : LlmRequest) (ctx : Context) (r : LlmResponse)
    → ProvidersLeaveUnmarked env request
    → (complete_from (chain provider model_id fallback) env request false ctx).0 ≡ returned r
    → (r.usage.fallback_used ≡ true)
      ↔ ((e : ProviderError) × ((call_with_backoff env provider request ctx).0 ≡ failed e))
unfolding complete_from
fallback_used_iff provider model_id fallback env request ctx r leave h =
    let (outcome, after) = call_with_backoff env provider request ctx in
    ground (
      arith,
      call_with_backoff-Unmarked env provider request leave ctx,
      complete_from-marked fallback env request after r,
    )
