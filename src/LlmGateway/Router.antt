-- ===== src/LlmGateway/Router.antt =====
-- kernel/src/ai_os_kernel/llm_gateway/router.py and capability_negotiator.py.
pub mod Laws
use ai_os.Prelude.{
  ℕ, Bool, true, false, not, ◌&&◌, ◌||◌, Option, none, some, List, [], ◌∷◌, String, ◌==◌, is_some,
  is_none, if◌then◌else◌, lookup,
}
use mathlib.Core.List.{reverse}
use ai_os.LlmGateway.Taxonomy.{ProviderError, raised, no_route, no_capabilities}

-- A decision with no `fallback`, and one with a fallback.
pub data RoutingDecision : Type 0 where
  single : (provider model_id : String) → RoutingDecision
  chain : (provider model_id : String) → RoutingDecision → RoutingDecision

-- `candidates[-1]` and `candidates[:-1]` of the list `first :: rest`.
last : String × String → List (String × String) → String × String
last first [] = first
last first (second ∷ rest) = last second rest

all_but_last : String × String → List (String × String) → List (String × String)
all_but_last first [] = []
all_but_last first (second ∷ rest) = first ∷ all_but_last second rest

-- The `for` loop, over the candidates that are left.
chain_loop : List (String × String) → RoutingDecision → RoutingDecision
chain_loop [] decision = decision
chain_loop ((provider, model_id) ∷ rest) decision =
    chain_loop rest (chain provider model_id decision)

-- `none` is the `ValueError` for an empty sequence.
unfoldable pub build_routing_chain : List (String × String) → Option RoutingDecision
unfolding last all_but_last chain_loop
build_routing_chain [] = none
build_routing_chain (first ∷ rest) =
    let (provider, model_id) = last first rest in
    some (chain_loop (reverse (all_but_last first rest)) (single provider model_id))

pub data Routed (A : Type 0) : Type 0 where
  found : A → Routed A
  missing : ProviderError → Routed A

-- `StaticRouter.resolve`.
unfoldable pub resolve : List (String × RoutingDecision) → String → Routed RoutingDecision
resolve routes model_alias = elim (lookup model_alias routes) [
  | some decision ↦ found decision
  | none ↦ missing (raised no_route)
]

abbrev pub model_of : RoutingDecision → String
model_of (single provider model_id) = model_id
model_of (chain provider model_id rest) = model_id

-- `ProviderCapabilities`.
pub record ProviderCapabilities : Type 0 where
  pub supports_tools : Bool
  pub supports_parallel_tool_calls : Bool
  pub supports_strict_tools : Bool
  pub supports_structured_output : Bool
  pub supports_streaming : Bool
  pub supports_thinking : Bool
  pub supports_effort : Bool
  pub supports_prompt_caching : Bool
  pub prompt_cache_min_tokens : Option ℕ
  pub supports_vision : Bool
  pub max_input_tokens : ℕ
  pub max_output_tokens : ℕ
  pub accepts_sampling_params : Bool

-- The two `model_validator`s: `false` where one of them raises. Token counts are not negative here.
unfoldable pub capabilities_are_valid : ProviderCapabilities → Bool
capabilities_are_valid c =
    if c.supports_prompt_caching && is_none c.prompt_cache_min_tokens
    then false
    else if not c.supports_prompt_caching && is_some c.prompt_cache_min_tokens
    then false
    else not (c.max_input_tokens == 0 || c.max_output_tokens == 0)

-- `StaticCapabilityNegotiator.capabilities`.
unfoldable pub capabilities :
    List (String × RoutingDecision)
    → List (String × ProviderCapabilities)
    → String
    → Routed ProviderCapabilities
unfolding resolve
capabilities routes by_model model_alias = elim (resolve routes model_alias) [
  | missing e ↦ missing e
  | found decision ↦ elim (lookup (model_of decision) by_model) [
    | some c ↦ found c
    | none ↦ missing (raised no_capabilities)
  ]
]
