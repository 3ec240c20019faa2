-- ===== src/LlmGateway/Gateway/Complete.antt =====
-- `DispatchingLLMGateway.complete` and `_call_with_backoff` (gateway.py).
pub mod Bounds
pub mod Spending
pub mod Failures
pub mod Fallback
mod Examples
use ai_os.Prelude.{
  ℕ, zero, suc, ◌+◌, ◌-◌, Bool, true, false, not, ◌||◌, Option, none, some, List, String,
  if◌then◌else◌, ltb, max,
}
use ai_os.LlmGateway.Taxonomy.{ProviderError, raised, chain_exhausted, is_budget}
use ai_os.LlmGateway.CircuitBreaker.{Breaker, is_available}
use ai_os.LlmGateway.Backoff.{BackoffPolicy, delay_cap}
use ai_os.LlmGateway.Router.{RoutingDecision, single, chain, Routed, found, missing, resolve}
use ai_os.LlmGateway.Gateway.Types.{
  LlmRequest, LlmResponse, Outcome, returned, failed, refused, Surroundings, Context, tick,
}
use ai_os.LlmGateway.Gateway.Call.{call}

-- `model_copy` with `usage.retries` given anew.
abbrev pub with_retries : ℕ → LlmResponse → LlmResponse
with_retries n r = record r { usage = record (r.usage) { retries = n } }

abbrev pub with_fallback_used : LlmResponse → LlmResponse
with_fallback_used r = record r { usage = record (r.usage) { fallback_used = true } }

-- The breaker is asked whether a retry would reach the provider at all.
unfoldable pub still_available : Surroundings → String → Context → Context × Bool
still_available env provider ctx = elim ctx.circuit_breaker [
  | none ↦ (ctx, true)
  | some b ↦
      let at = tick env ctx in
      let (b', available) = is_available at.clock provider b in
      (record at { circuit_breaker = some b' }, available)
]

-- `delay = max(delay, exc.retry_after_seconds)` where there is a hint.
abbrev pub honour : Option ℕ → ℕ → ℕ
honour none delay = delay
honour (some hint) delay = max delay hint

-- The delay before retry `retry_number`, the clock read after it is drawn, and whether the time
-- that is left allows it.
unfoldable pub planned_delay : Surroundings → BackoffPolicy → Option ℕ → ℕ → Context → ℕ
planned_delay env policy hint retry_number ctx =
    honour hint (env.uniform (delay_cap policy retry_number) ctx.interactions)

-- `asyncio.sleep(delay)`.
unfoldable pub sleep : ℕ → Context → Context
sleep delay ctx = record ctx { clock = ctx.clock + delay; slept = ctx.slept + delay }

-- After the failure `e` of an attempt that was not the last: the context of the next attempt, or
-- `none` where the failure is raised. In both cases the context is the one after what was asked.
unfoldable pub prepare_retry :
    Surroundings → BackoffPolicy → String → ℕ → ℕ → ProviderError → Context → Context × Bool
prepare_retry env policy provider started retry_number e ctx =
    let (asked, available) = still_available env provider ctx in
    let delay = planned_delay env policy e.retry_after_seconds retry_number asked in
    let at = tick env (tick env asked) in
    if not available
    then (asked, false)
    else if ltb (started + policy.max_total_seconds) (at.clock + delay)
    then (at, false)
    else (sleep delay at, true)

-- The response of attempt `retry_number`.
unfoldable pub retried : ℕ → LlmResponse → LlmResponse
retried retry_number r = if ltb 1 retry_number then with_retries (retry_number - 1) r else r

abbrev pub Attempted : Type 0
Attempted = Outcome LlmResponse × Context

-- How the last attempt ends: a failure is raised.
unfoldable pub end_attempts : ℕ → Outcome LlmResponse → Context → Attempted
unfolding retried
end_attempts retry_number (returned r) after = (returned (retried retry_number r), after)
end_attempts retry_number (failed e) after = (failed e, after)
end_attempts retry_number refused after = (refused, after)

-- How another attempt ends; `rest` is what the loop does next.
unfoldable pub continue_attempts :
    (Context → Attempted)
    → Surroundings
    → BackoffPolicy
    → String
    → ℕ
    → ℕ
    → Outcome LlmResponse
    → Context
    → Attempted
unfolding retried
continue_attempts rest env policy provider started retry_number (returned r) after =
    (returned (retried retry_number r), after)
continue_attempts rest env policy provider started retry_number refused after = (refused, after)
continue_attempts rest env policy provider started retry_number (failed e) after =
    let (next, again) = prepare_retry env policy provider started retry_number e after in
    if not e.retriable then (failed e, after) else if again then rest next else (failed e, next)

-- The `while` loop, by recursion on the attempts that are left after this one: `retry_number` and
-- `left` add up to `max_attempts`, so `retry_number >= max_attempts` is `left == 0`.
unfoldable pub attempts :
    ℕ → Surroundings → BackoffPolicy → String → LlmRequest → ℕ → ℕ → Context → Attempted
attempts zero env policy provider request started retry_number ctx =
    let (outcome, after) = call env provider request ctx in end_attempts retry_number outcome after
attempts (suc left) env policy provider request started retry_number ctx =
    let (outcome, after) = call env provider request ctx in
    continue_attempts
      (λ next. attempts left env policy provider request started (retry_number + 1) next) env policy
      provider started retry_number outcome after

-- `_call_with_backoff`, with the policy that is configured.
unfoldable pub call_by_policy :
    Option BackoffPolicy → Surroundings → String → LlmRequest → Context → Attempted
call_by_policy none env provider request ctx = call env provider request ctx
call_by_policy (some policy) env provider request ctx =
    let at = tick env ctx in
    attempts (policy.max_attempts - 1) env policy provider request at.clock 1 at

unfoldable pub call_with_backoff : Surroundings → String → LlmRequest → Context → Attempted
unfolding call_by_policy
call_with_backoff env provider request ctx =
    call_by_policy env.backoff_policy env provider request ctx

abbrev pub marked : Bool → LlmResponse → LlmResponse
marked used_fallback r = if used_fallback then with_fallback_used r else r

-- What a failure of the last candidate becomes.
abbrev pub last_failure : Bool → ProviderError → ProviderError
last_failure used_fallback e =
    if is_budget e.category || not used_fallback then e else raised chain_exhausted

-- How the last candidate's call ends.
unfoldable pub end_chain : Bool → Outcome LlmResponse → Context → Attempted
end_chain used_fallback (returned r) after = (returned (marked used_fallback r), after)
end_chain used_fallback (failed e) after = (failed (last_failure used_fallback e), after)
end_chain used_fallback refused after = (refused, after)

-- How another candidate's call ends; `rest` is what the loop does next.
unfoldable pub fall_back : (Context → Attempted) → Bool → Outcome LlmResponse → Context → Attempted
fall_back rest used_fallback (returned r) after = (returned (marked used_fallback r), after)
fall_back rest used_fallback refused after = (refused, after)
fall_back rest used_fallback (failed e) after =
    if is_budget e.category then (failed e, after) else rest after

-- The `while` loop of `complete`, over the candidates that are left.
unfoldable pub complete_from :
    RoutingDecision → Surroundings → LlmRequest → Bool → Context → Attempted
unfolding end_chain fall_back
complete_from (single provider model_id) env request used_fallback ctx =
    let (outcome, after) = call_with_backoff env provider request ctx in
    end_chain used_fallback outcome after
complete_from (chain provider model_id fallback) env request used_fallback ctx =
    let (outcome, after) = call_with_backoff env provider request ctx in
    fall_back (λ next. complete_from fallback env request true next) used_fallback outcome after

unfoldable pub complete_routed :
    Routed RoutingDecision → Surroundings → LlmRequest → Context → Attempted
complete_routed (missing e) env request ctx = (failed e, ctx)
complete_routed (found decision) env request ctx = complete_from decision env request false ctx

unfoldable pub complete :
    List (String × RoutingDecision) → Surroundings → LlmRequest → Context → Attempted
unfolding complete_routed
complete routes env request ctx =
    complete_routed (resolve routes request.model_alias) env request ctx
