-- ===== src/LlmGateway/Budget.antt =====
-- kernel/src/ai_os_kernel/llm_gateway/budget_enforcer.py. A cost in `Decimal` dollars is a natural
-- number of a fixed smallest unit: the enforcer only adds costs and compares their sum.
pub mod Laws
mod Examples
use Prim.Native.String.{◌++◌ as append}
use ai_os.Prelude.{
  ℕ, ◌+◌, Bool, true, Option, none, some, List, [], String, ltb, ◌==◌, if◌then◌else◌, lookup,
  insert,
}

-- `total < ceiling`, where a scope that was never seen is always within budget.
within : Option ℕ → ℕ → Bool
within none ceiling = true
within (some total) ceiling = ltb total ceiling

-- `setdefault(scope, 0)`, as far as it is read.
abbrev pub total_or_zero : Option ℕ → ℕ
total_or_zero none = 0
total_or_zero (some total) = total

-- `PerScopeBudgetEnforcer`; a `_ScopeSpend` is its `total_cost_usd`.
pub record SpendEnforcer : Type 0 where
  pub ceiling_usd : ℕ
  pub spend : List (String × ℕ)

-- The constructor. `none` is its `ValueError`.
unfoldable pub new_spend_enforcer : ℕ → Option SpendEnforcer
new_spend_enforcer ceiling =
    if ceiling == 0 then none else some (record { ceiling_usd = ceiling; spend = [] })

unfoldable pub spend_is_within : String → SpendEnforcer → Bool
unfolding within
spend_is_within scope e = within (lookup scope e.spend) e.ceiling_usd

unfoldable pub record_spend : String → ℕ → SpendEnforcer → SpendEnforcer
record_spend scope cost e = record e {
  spend = insert scope (total_or_zero (lookup scope e.spend) + cost) e.spend;
}

-- `step_scope`: `f"{workflow_id}:{step_id}"`.
unfoldable pub step_scope : String → String → String
step_scope workflow_id step_id = append workflow_id (append ":" step_id)

-- `PerScopeCountBudgetEnforcer`; a `_ScopeCount` is its `total`.
pub record CountEnforcer : Type 0 where
  pub ceiling : ℕ
  pub usage : List (String × ℕ)

unfoldable pub new_count_enforcer : ℕ → Option CountEnforcer
new_count_enforcer ceiling =
    if ceiling == 0 then none else some (record { ceiling = ceiling; usage = [] })

unfoldable pub count_is_within : String → CountEnforcer → Bool
unfolding within
count_is_within scope e = within (lookup scope e.usage) e.ceiling

unfoldable pub record_usage : String → ℕ → CountEnforcer → CountEnforcer
record_usage scope amount e = record e {
  usage = insert scope (total_or_zero (lookup scope e.usage) + amount) e.usage;
}
