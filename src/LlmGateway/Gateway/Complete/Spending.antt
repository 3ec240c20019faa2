-- ===== src/LlmGateway/Gateway/Complete/Spending.antt =====
-- What a request is charged (gateway.py): the accounts of the per-alias budget enforcer.
use ai_os.Prelude.{
  ℕ, zero, suc, ◌+◌, ◌≡◌, Bool, true, false, Option, none, some, String, List, arith, str_eq,
  eq_iff, if◌then◌else◌, lookup, lookup-insert, is_some, sym, subst, not,
}
use ai_os.LlmGateway.Budget.{SpendEnforcer, total_or_zero, record_spend}
use ai_os.LlmGateway.CircuitBreaker.{Breaker, is_available}
use ai_os.LlmGateway.Backoff.{BackoffPolicy}
use ai_os.LlmGateway.Taxonomy.{ProviderError, raised, no_provider, circuit_is_open}
use ai_os.LlmGateway.Router.{RoutingDecision, single, chain, resolve, found, missing, Routed}
use ai_os.LlmGateway.Gateway.Types.{
  RateLimitResult, LlmRequest, LlmResponse, Outcome, returned, failed, refused, Surroundings,
  Context, tick,
}
use ai_os.LlmGateway.Gateway.Call.{
  call, dispatch, dispatch_to, answered, pass_limiter, pass_breaker, report_success, report_failure,
  spent, over_budget, rate_limited, budget_exceeded,
}
use ai_os.LlmGateway.Gateway.Complete.{
  Attempted, end_attempts, continue_attempts, call_by_policy, complete_routed, prepare_retry,
  attempts, retried, call_with_backoff, complete_from, complete, still_available, sleep,
}

-- The cost of a response, and nothing for a failure.
abbrev pub cost_of : Outcome LlmResponse → ℕ
cost_of (returned r) = r.usage.cost_usd
cost_of (failed e) = 0
cost_of refused = 0

abbrev pub account : String → Option SpendEnforcer → ℕ
account scope none = 0
account scope (some e) = total_or_zero (lookup scope e.spend)

-- What `scope` is charged for an outcome of a request of `alias`.
abbrev pub charge : String → String → Outcome LlmResponse → ℕ
charge scope alias o = if str_eq alias scope then cost_of o else 0

-- The enforcer is kept, and the account of `scope` grew by that charge.
pub record IsCharged (amount : ℕ) (scope : String) (before after : Option SpendEnforcer)
    : Type 0 where
  pub kept : is_some after ≡ is_some before
  pub charged : is_some before ≡ true → account scope after ≡ account scope before + amount

IsCharged-nothing :
    (scope : String) (b : Option SpendEnforcer) (amount : ℕ)
    → amount ≡ 0
    → IsCharged amount scope b b
IsCharged-nothing scope b amount h = ground arith

spent-IsCharged :
    (scope alias : String) (r : LlmResponse) (b : Option SpendEnforcer)
    → IsCharged (charge scope alias (returned r)) scope b (spent b (some alias) r.usage.cost_usd)
unfolding record_spend
spent-IsCharged scope alias r none = ground arith
spent-IsCharged scope alias r (some e) =
    let before = total_or_zero (lookup alias e.spend) in
    ground
      (arith, eq_iff alias scope, lookup-insert alias scope (before + r.usage.cost_usd) e.spend)

-- What holds of both branches holds of the conditional.
branch {κ} :
    (Holds : Attempted → Type κ) (test : Bool) {yes no : Attempted}
    → Holds yes
    → Holds no
    → Holds (if test then yes else no)
branch Holds true first second = first
branch Holds false first second = second

module _ (scope : String) (env : Surroundings) (provider : String) (request : LlmRequest) where
  abbrev alias : String
  alias = request.model_alias

  abbrev pub Charges : Context → Attempted → Type 0
  Charges ctx result =
      IsCharged (charge scope alias result.0) scope ctx.budget_enforcer result.1.budget_enforcer

  charge-failed : (e : ProviderError) → charge scope alias (failed e) ≡ 0
  charge-failed e = ground arith

  free-Charges : (e : ProviderError) (ctx : Context) → Charges ctx (failed e, ctx)
  free-Charges e ctx = IsCharged-nothing scope ctx.budget_enforcer _ (charge-failed e)

  report_failure-budget :
      (e : ProviderError) (ctx : Context)
      → (report_failure env provider e ctx).budget_enforcer ≡ ctx.budget_enforcer
  unfolding report_failure tick
  report_failure-budget e ctx = ground arith

  answered-Charges :
      (o : Outcome LlmResponse) (ctx : Context) → Charges ctx (answered env provider request o ctx)
  unfolding answered report_success
  answered-Charges (returned r) ctx = spent-IsCharged scope alias r ctx.budget_enforcer
  answered-Charges (failed e) ctx = rw (report_failure-budget e ctx) (free-Charges e ctx)
  answered-Charges refused ctx = ground arith

  dispatch_to-Charges :
      (o : Option (LlmRequest → ℕ → Outcome LlmResponse)) (ctx : Context)
      → Charges ctx (dispatch_to o env provider request ctx)
  unfolding dispatch_to tick
  dispatch_to-Charges none ctx = free-Charges (raised no_provider) ctx
  dispatch_to-Charges (some complete) ctx =
      answered-Charges (complete request ctx.interactions)
        (record (tick env ctx) { calls = ctx.calls + 1 })

  dispatch-Charges : (ctx : Context) → Charges ctx (dispatch env provider request ctx)
  unfolding dispatch
  dispatch-Charges ctx = dispatch_to-Charges (lookup provider env.gateways) ctx

  pass_breaker-Charges :
      (o : Option Breaker) (ctx : Context) → Charges ctx (pass_breaker o env provider request ctx)
  unfolding pass_breaker tick
  pass_breaker-Charges none ctx = dispatch-Charges ctx
  pass_breaker-Charges (some b) ctx =
      let at = tick env ctx in
      let (b', available) = is_available at.clock provider b in
      let ctx' = record at { circuit_breaker = some b' } in
      branch (Charges ctx) available (dispatch-Charges ctx')
        (free-Charges (raised circuit_is_open) ctx')

  pass_limiter-Charges :
      (o : Option (String → ℕ → RateLimitResult)) (ctx : Context)
      → Charges ctx (pass_limiter o env provider request ctx)
  unfolding pass_limiter tick
  pass_limiter-Charges none ctx = pass_breaker-Charges ctx.circuit_breaker ctx
  pass_limiter-Charges (some check) ctx =
      let result = check provider ctx.interactions in
      let ctx' = tick env ctx in
      branch (Charges ctx) result.allowed (pass_breaker-Charges ctx'.circuit_breaker ctx')
        (free-Charges (rate_limited result.retry_after_seconds) ctx')

  call-Charges : (ctx : Context) → Charges ctx (call env provider request ctx)
  unfolding call
  call-Charges ctx =
      branch (Charges ctx) (over_budget request ctx) (free-Charges budget_exceeded ctx)
        (pass_limiter-Charges env.rate_limiter ctx)

  -- A failed attempt cost nothing, so what follows may start from the account after it.
  prepare_retry-budget :
      (policy : BackoffPolicy) (started n : ℕ) (e : ProviderError) (ctx : Context)
      → (prepare_retry env policy provider started n e ctx).0.budget_enforcer ≡ ctx.budget_enforcer
  unfolding prepare_retry still_available sleep tick
  prepare_retry-budget policy started n e ctx = ground arith

  charge-retried :
      (n : ℕ) (r : LlmResponse)
      → charge scope alias (returned (retried n r)) ≡ charge scope alias (returned r)
  unfolding retried
  charge-retried n r = ground arith

  after_failure-Charges :
      (e : ProviderError) (ctx after next : Context) (x : Attempted)
      → Charges ctx (failed e, after)
      → next.budget_enforcer ≡ after.budget_enforcer
      → Charges next x
      → Charges ctx x
  after_failure-Charges e ctx after next x first same rest =
      ground (arith, charge-failed e, first, rest)

  end_attempts-Charges :
      (n : ℕ) (o : Outcome LlmResponse) (ctx after : Context)
      → Charges ctx (o, after)
      → Charges ctx (end_attempts n o after)
  unfolding end_attempts
  end_attempts-Charges n (returned r) ctx after h =
      subst (λ a. IsCharged a scope ctx.budget_enforcer after.budget_enforcer)
        (sym (charge-retried n r)) h
  end_attempts-Charges n (failed e) ctx after h = h
  end_attempts-Charges n refused ctx after h = h

  continue_attempts-Charges :
      (rest : Context → Attempted) (policy : BackoffPolicy) (started n : ℕ)
      (o : Outcome LlmResponse) (ctx after : Context)
      → ((next : Context) → Charges next (rest next))
      → Charges ctx (o, after)
      → Charges ctx (continue_attempts rest env policy provider started n o after)
  unfolding continue_attempts
  continue_attempts-Charges rest policy started n (returned r) ctx after later h =
      subst (λ a. IsCharged a scope ctx.budget_enforcer after.budget_enforcer)
        (sym (charge-retried n r)) h
  continue_attempts-Charges rest policy started n refused ctx after later h = h
  continue_attempts-Charges rest policy started n (failed e) ctx after later h =
      let (next, again) = prepare_retry env policy provider started n e after in
      let same = prepare_retry-budget policy started n e after in
      branch (Charges ctx) (not e.retriable) h (
        branch (Charges ctx) again
          (after_failure-Charges e ctx after next (rest next) h same (later next))
          (after_failure-Charges e ctx after next (failed e, next) h same (free-Charges e next)))

  attempts-Charges :
      (left : ℕ) (policy : BackoffPolicy) (started n : ℕ) (ctx : Context)
      → Charges ctx (attempts left env policy provider request started n ctx)
  unfolding attempts
  attempts-Charges zero policy started n ctx = end_attempts-Charges n _ ctx _ (call-Charges ctx)
  attempts-Charges (suc left) policy started n ctx =
      continue_attempts-Charges _ policy started n _ ctx _
        (attempts-Charges left policy started (n + 1)) (call-Charges ctx)

  call_by_policy-Charges :
      (o : Option BackoffPolicy) (ctx : Context)
      → Charges ctx (call_by_policy o env provider request ctx)
  unfolding call_by_policy tick
  call_by_policy-Charges none ctx = call-Charges ctx
  call_by_policy-Charges (some policy) ctx = attempts-Charges _ policy _ 1 _

  call_with_backoff-Charges :
      (ctx : Context) → Charges ctx (call_with_backoff env provider request ctx)
  unfolding call_with_backoff
  call_with_backoff-Charges ctx = call_by_policy-Charges env.backoff_policy ctx

complete_from-Charges :
    (scope : String) (d : RoutingDecision) (env : Surroundings) (request : LlmRequest) (used : Bool)
    (ctx : Context)
    → Charges scope env "" request ctx (complete_from d env request used ctx)
unfolding complete_from
complete_from-Charges scope (single provider model_id) env request used ctx =
    ground (arith, call_with_backoff-Charges scope env provider request ctx)
complete_from-Charges scope (chain provider model_id fallback) env request used ctx =
    let after = (call_with_backoff env provider request ctx).1 in
    ground (
      arith,
      call_with_backoff-Charges scope env provider request ctx,
      complete_from-Charges scope fallback env request true after,
    )

complete_routed-Charges :
    (scope : String) (o : Routed RoutingDecision) (env : Surroundings) (request : LlmRequest)
    (ctx : Context)
    → Charges scope env "" request ctx (complete_routed o env request ctx)
unfolding complete_routed
complete_routed-Charges scope (missing e) env request ctx = free-Charges scope env "" request e ctx
complete_routed-Charges scope (found d) env request ctx =
    complete_from-Charges scope d env request false ctx

-- With an alias budget, a request charges its own alias by exactly the cost of the response that is
-- returned, whatever retries and fallbacks came before it, and nothing if it fails; no other
-- alias is charged.
pub complete-charges :
    (scope : String) (routes : List (String × RoutingDecision)) (env : Surroundings)
    (request : LlmRequest) (ctx : Context)
    → is_some ctx.budget_enforcer ≡ true
    → let (outcome, after) = complete routes env request ctx in
      account scope after.budget_enforcer
      ≡ account scope ctx.budget_enforcer
        + (if str_eq request.model_alias scope then cost_of outcome else 0)
unfolding complete
complete-charges scope routes env request ctx present =
    (complete_routed-Charges scope (resolve routes request.model_alias) env request ctx).charged
      present
