-- ===== src/LlmGateway/Gateway/Complete/Failures.antt =====
-- How a chain of candidates fails (gateway.py).
use ai_os.Prelude.{◌≡◌, ◌⊎◌, refl, true, false, String, arith, inl, inr, ◌≢◌, ap, ◌∙◌, Bool}
use ai_os.LlmGateway.Taxonomy.{ProviderError, budget, raised, chain_exhausted, is_budget}
use ai_os.LlmGateway.Router.{RoutingDecision, single, chain}
use ai_os.LlmGateway.Gateway.Types.{
  LlmRequest, LlmResponse, Outcome, returned, failed, refused, Surroundings, Context,
}
use ai_os.LlmGateway.Gateway.Complete.{call_with_backoff, complete_from, end_chain, fall_back}

module _ (env : Surroundings) (request : LlmRequest) where
  -- The call of some candidate raised an error of the budget, after others had failed otherwise.
  pub data RaisedByBudget (e : ProviderError) : RoutingDecision → Context → Type 0 where
    by_last :
        (provider model_id : String) (ctx : Context)
        → (call_with_backoff env provider request ctx).0 ≡ failed e
        → e.category ≡ budget
        → RaisedByBudget e (single provider model_id) ctx
    by_candidate :
        (provider model_id : String) (fallback : RoutingDecision) (ctx : Context)
        → (call_with_backoff env provider request ctx).0 ≡ failed e
        → e.category ≡ budget
        → RaisedByBudget e (chain provider model_id fallback) ctx
    by_fallback :
        (provider model_id : String) (fallback : RoutingDecision) (ctx : Context)
        (other : ProviderError)
        → (call_with_backoff env provider request ctx).0 ≡ failed other
        → other.category ≢ budget
        → RaisedByBudget e fallback (call_with_backoff env provider request ctx).1
        → RaisedByBudget e (chain provider model_id fallback) ctx

  -- The call of each candidate failed, by another error than one of the budget.
  pub data AllFailed : RoutingDecision → Context → Type 0 where
    last_failed :
        (provider model_id : String) (ctx : Context) (e : ProviderError)
        → (call_with_backoff env provider request ctx).0 ≡ failed e
        → e.category ≢ budget
        → AllFailed (single provider model_id) ctx
    also_failed :
        (provider model_id : String) (fallback : RoutingDecision) (ctx : Context)
        (e : ProviderError)
        → (call_with_backoff env provider request ctx).0 ≡ failed e
        → e.category ≢ budget
        → AllFailed fallback (call_with_backoff env provider request ctx).1
        → AllFailed (chain provider model_id fallback) ctx

  -- Why a chain fails by an error.
  abbrev pub FailsBy : ProviderError → RoutingDecision → Context → Type 0
  FailsBy e d ctx =
      ((e.category ≡ budget) × RaisedByBudget e d ctx)
      ⊎ ((e ≡ raised chain_exhausted) × AllFailed d ctx)

  end_chain-FailsBy :
      (o : Outcome LlmResponse) (provider model_id : String) (ctx after : Context)
      (e : ProviderError)
      → (call_with_backoff env provider request ctx).0 ≡ o
      → (end_chain true o after).0 ≡ failed e
      → FailsBy e (single provider model_id) ctx
  unfolding end_chain
  end_chain-FailsBy (returned r) provider model_id ctx after e called h = ground (arith, h)
  end_chain-FailsBy refused provider model_id ctx after e called h = ground (arith, h)
  end_chain-FailsBy (failed other) provider model_id ctx after e called h =
      last_of (is_budget other.category) refl
    where
      last_of : (b : Bool) → is_budget other.category ≡ b → FailsBy e (single provider model_id) ctx
      last_of true t =
          let same : other ≡ e = ground (arith, h, t) in
          let called' = called ∙ ap failed same in
          let of_budget : e.category ≡ budget = ground (arith, t, same) in
          inl (of_budget, by_last provider model_id ctx called' of_budget)
      last_of false f = inr (
        ground (arith, h, f),
        last_failed provider model_id ctx other called (λ of_budget. ground (arith, f, of_budget)),
      )

  -- The end of a candidate that has a fallback, from what the fallback says.
  pub fall_back-FailsBy :
      (used_fallback : Bool) (o : Outcome LlmResponse) (provider model_id : String)
      (fallback : RoutingDecision) (ctx : Context) (e : ProviderError)
      → (call_with_backoff env provider request ctx).0 ≡ o
      → (fall_back
          (λ next. complete_from fallback env request true next)
          used_fallback
          o
          (call_with_backoff env provider request ctx).1).0
        ≡ failed e
      → ((complete_from fallback env request true (call_with_backoff env provider request ctx).1).0
            ≡ failed e
          → FailsBy e fallback (call_with_backoff env provider request ctx).1)
      → FailsBy e (chain provider model_id fallback) ctx
  unfolding fall_back
  fall_back-FailsBy used_fallback (returned r) provider model_id fallback ctx e called h later =
      ground (arith, h)
  fall_back-FailsBy used_fallback refused provider model_id fallback ctx e called h later =
      ground (arith, h)
  fall_back-FailsBy used_fallback (failed other) provider model_id fallback ctx e called h later =
      candidate_of (is_budget other.category) refl
    where
      through :
          other.category ≢ budget
          → FailsBy e fallback (call_with_backoff env provider request ctx).1
          → FailsBy e (chain provider model_id fallback) ctx
      through other_error (inl (of_budget, was)) =
          inl (of_budget, by_fallback provider model_id fallback ctx other called other_error was)
      through other_error (inr (exhausted, all)) =
          inr (exhausted, also_failed provider model_id fallback ctx other called other_error all)

      candidate_of :
          (b : Bool)
          → is_budget other.category ≡ b
          → FailsBy e (chain provider model_id fallback) ctx
      candidate_of true t =
          let same : other ≡ e = ground (arith, h, t) in
          let of_budget : e.category ≡ budget = ground (arith, t, same) in
          inl (
            of_budget,
            by_candidate provider model_id fallback ctx (called ∙ ap failed same) of_budget,
          )
      candidate_of false f =
          through (λ of_budget. ground (arith, f, of_budget)) (later (ground (arith, h, f)))

  pub complete_from-FailsBy :
      (d : RoutingDecision) (ctx : Context) (e : ProviderError)
      → (complete_from d env request true ctx).0 ≡ failed e
      → FailsBy e d ctx
  unfolding complete_from
  complete_from-FailsBy (single provider model_id) ctx e h =
      let (outcome, after) = call_with_backoff env provider request ctx in
      end_chain-FailsBy outcome provider model_id ctx after e refl h
  complete_from-FailsBy (chain provider model_id fallback) ctx e h =
      let (outcome, after) = call_with_backoff env provider request ctx in
      fall_back-FailsBy true outcome provider model_id fallback ctx e refl h
        (complete_from-FailsBy fallback after e)
