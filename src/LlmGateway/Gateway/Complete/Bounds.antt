-- ===== src/LlmGateway/Gateway/Complete/Bounds.antt =====
-- How often a request reaches providers, and how long it is delayed (gateway.py).
use ai_os.Prelude.{
  ℕ, zero, suc, ◌+◌, ◌-◌, ◌*◌, ◌≤◌, ◌≡◌, Bool, true, false, Option, none, some, List, String, arith,
}
use ai_os.LlmGateway.CircuitBreaker.{Breaker}
use ai_os.LlmGateway.Backoff.{BackoffPolicy}
use ai_os.LlmGateway.Router.{RoutingDecision, single, chain, resolve, found}
use ai_os.LlmGateway.Taxonomy.{ProviderError}
use ai_os.LlmGateway.Gateway.Types.{RateLimitResult, LlmRequest, Surroundings, Context, tick}
use ai_os.LlmGateway.Gateway.Call.{
  call, dispatch, dispatch_to, answered, pass_breaker, pass_limiter, report_success, report_failure,
}
use ai_os.LlmGateway.Gateway.Complete.{
  prepare_retry, attempts, end_attempts, continue_attempts, call_by_policy, call_with_backoff,
  complete_from, complete, still_available, sleep,
}

-- What one call does to the counters: at most one provider call, no sleep, no step back in time.
pub record OneCall (before after : Context) : Type 0 where
  pub one : after.calls ≤ before.calls + 1
  pub awake : after.slept ≡ before.slept
  pub later : before.clock ≤ after.clock

module _ (env : Surroundings) (provider : String) (request : LlmRequest) where
  dispatch-OneCall : (ctx : Context) → OneCall ctx (dispatch env provider request ctx).1
  unfolding dispatch dispatch_to answered report_success report_failure tick
  dispatch-OneCall ctx = ground arith

  pass_breaker-OneCall :
      (o : Option Breaker) (ctx : Context) → OneCall ctx (pass_breaker o env provider request ctx).1
  unfolding pass_breaker tick
  pass_breaker-OneCall none ctx = dispatch-OneCall ctx
  pass_breaker-OneCall (some b) ctx = grind (arith, dispatch-OneCall)

  pass_limiter-OneCall :
      (o : Option (String → ℕ → RateLimitResult)) (ctx : Context)
      → OneCall ctx (pass_limiter o env provider request ctx).1
  unfolding pass_limiter tick
  pass_limiter-OneCall none ctx = pass_breaker-OneCall ctx.circuit_breaker ctx
  pass_limiter-OneCall (some check) ctx = grind (arith, pass_breaker-OneCall)

  call-OneCall : (ctx : Context) → OneCall ctx (call env provider request ctx).1
  unfolding call
  call-OneCall ctx = ground (arith, pass_limiter-OneCall env.rate_limiter ctx)

  prepare_retry-calls :
      (policy : BackoffPolicy) (started n : ℕ) (e : ProviderError) (ctx : Context)
      → (prepare_retry env policy provider started n e ctx).0.calls ≡ ctx.calls
  unfolding prepare_retry still_available sleep tick
  prepare_retry-calls policy started n e ctx = ground arith

  attempts-calls :
      (left : ℕ) (policy : BackoffPolicy) (started n : ℕ) (ctx : Context)
      → (attempts left env policy provider request started n ctx).1.calls ≤ ctx.calls + suc left
  unfolding attempts end_attempts continue_attempts
  attempts-calls zero policy started n ctx = ground (arith, call-OneCall ctx)
  attempts-calls (suc left) policy started n ctx =
      grind
        (arith, call-OneCall ctx, prepare_retry-calls, attempts-calls left policy started (n + 1))

  -- From `started` on, what was slept since fits between two readings of the clock, and so a sleep
  -- is allowed only within `max_total_seconds`.
  prepare_retry-slept :
      (policy : BackoffPolicy) (started n before : ℕ) (e : ProviderError) (ctx : Context)
      → ctx.slept + started ≤ before + ctx.clock
      → ctx.slept ≤ before + policy.max_total_seconds
      → let next = (prepare_retry env policy provider started n e ctx).0 in
        (next.slept + started ≤ before + next.clock)
        × (next.slept ≤ before + policy.max_total_seconds)
  unfolding prepare_retry still_available sleep tick
  prepare_retry-slept policy started n before e ctx h k = ground arith

  attempts-slept :
      (left : ℕ) (policy : BackoffPolicy) (started n before : ℕ) (ctx : Context)
      → ctx.slept + started ≤ before + ctx.clock
      → ctx.slept ≤ before + policy.max_total_seconds
      → (attempts left env policy provider request started n ctx).1.slept
        ≤ before + policy.max_total_seconds
  unfolding attempts end_attempts continue_attempts
  attempts-slept zero policy started n before ctx h k = ground (arith, call-OneCall ctx)
  attempts-slept (suc left) policy started n before ctx h k =
      let after = (call env provider request ctx).1 in
      grind (
        arith,
        call-OneCall ctx,
        λ (e : ProviderError) (h' : after.slept + started ≤ before + after.clock)
              (k' : after.slept ≤ before + policy.max_total_seconds).
            prepare_retry-slept policy started n before e after h' k',
        attempts-slept left policy started (n + 1) before,
      )

-- The number of calls that one candidate may get, and the time that may be slept for it.
abbrev pub attempt_limit : Option BackoffPolicy → ℕ
attempt_limit none = 1
attempt_limit (some policy) = suc (policy.max_attempts - 1)

abbrev pub sleep_limit : Option BackoffPolicy → ℕ
sleep_limit none = 0
sleep_limit (some policy) = policy.max_total_seconds

module _ (env : Surroundings) (provider : String) (request : LlmRequest) (ctx : Context) where
  call_by_policy-bounds :
      (o : Option BackoffPolicy)
      → let after = (call_by_policy o env provider request ctx).1 in
        (after.calls ≤ ctx.calls + attempt_limit o) × (after.slept ≤ ctx.slept + sleep_limit o)
  unfolding call_by_policy tick
  call_by_policy-bounds none = ground (arith, call-OneCall env provider request ctx)
  call_by_policy-bounds (some policy) =
      let at = tick env ctx in
      let left = policy.max_attempts - 1 in
      ground (
        arith,
        attempts-calls env provider request left policy at.clock 1 at,
        attempts-slept env provider request left policy at.clock 1 ctx.slept at,
      )

  call_with_backoff-bounds :
      let after = (call_with_backoff env provider request ctx).1 in
      (after.calls ≤ ctx.calls + attempt_limit env.backoff_policy)
      × (after.slept ≤ ctx.slept + sleep_limit env.backoff_policy)
  unfolding call_with_backoff
  call_with_backoff-bounds = call_by_policy-bounds env.backoff_policy

-- The number of candidates of a chain.
unfoldable pub chain_length : RoutingDecision → ℕ
chain_length (single provider model_id) = 1
chain_length (chain provider model_id fallback) = 1 + chain_length fallback

complete_from-bounds :
    (d : RoutingDecision) (env : Surroundings) (request : LlmRequest) (used : Bool) (ctx : Context)
    → let after = (complete_from d env request used ctx).1 in
      (after.calls ≤ ctx.calls + chain_length d * attempt_limit env.backoff_policy)
      × (after.slept ≤ ctx.slept + chain_length d * sleep_limit env.backoff_policy)
unfolding complete_from chain_length
complete_from-bounds (single provider model_id) env request used ctx =
    ground (arith, call_with_backoff-bounds env provider request ctx)
complete_from-bounds (chain provider model_id fallback) env request used ctx =
    let first = call_with_backoff-bounds env provider request ctx in
    let after = (call_with_backoff env provider request ctx).1 in
    ground (arith, first, complete_from-bounds fallback env request true after)

-- A request makes at most `max_attempts` provider calls (one without a policy) and sleeps at most
-- `max_total_seconds` (nothing without one) for each candidate of its chain, however providers,
-- clock and random draws behave.
pub complete-bounds :
    (routes : List (String × RoutingDecision)) (env : Surroundings) (request : LlmRequest)
    (ctx : Context) (d : RoutingDecision)
    → resolve routes request.model_alias ≡ found d
    → let after = (complete routes env request ctx).1 in
      (after.calls ≤ ctx.calls + chain_length d * attempt_limit env.backoff_policy)
      × (after.slept ≤ ctx.slept + chain_length d * sleep_limit env.backoff_policy)
unfolding complete
complete-bounds routes env request ctx d e =
    rw (e, complete) (complete_from-bounds d env request false ctx)
