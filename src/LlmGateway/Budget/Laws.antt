-- ===== src/LlmGateway/Budget/Laws.antt =====
-- What the enforcers remember: the sum of the charges of each scope (budget_enforcer.py).
use Prim.Native.String.{count}
use text.Mathlib.TextLemmas.{append_inj, append_cancel_left}
use ai_os.Prelude.{
  ℕ, ◌+◌, ◌≡◌, some, List, [], ◌∷◌, String, ltb, if◌then◌else◌, str_eq, lookup, lookup-nil,
  lookup-insert, arith, eq_iff, sym,
}
use ai_os.LlmGateway.Budget.{
  SpendEnforcer, CountEnforcer, new_spend_enforcer, new_count_enforcer, spend_is_within,
  record_spend, count_is_within, record_usage, step_scope, total_or_zero,
}

-- The sum of the charges of a scope.
unfoldable pub charged : String → List (String × ℕ) → ℕ
charged scope [] = 0
charged scope ((s, amount) ∷ rest) = charged scope rest + (if str_eq s scope then amount else 0)

-- A history of charges, the latest first.
unfoldable pub spend_all : List (String × ℕ) → SpendEnforcer → SpendEnforcer
spend_all [] e = e
spend_all ((s, cost) ∷ rest) e = record_spend s cost (spend_all rest e)

unfoldable pub use_all : List (String × ℕ) → CountEnforcer → CountEnforcer
use_all [] e = e
use_all ((s, amount) ∷ rest) e = record_usage s amount (use_all rest e)

spend_all_total :
    (scope : String) (charges : List (String × ℕ)) (e : SpendEnforcer)
    → e.spend ≡ []
    → ((spend_all charges e).ceiling_usd ≡ e.ceiling_usd)
      × (total_or_zero (lookup scope (spend_all charges e).spend) ≡ charged scope charges)
unfolding spend_all charged record_spend
spend_all_total scope [] e h = ground (arith, lookup-nil {V = ℕ} scope)
spend_all_total scope ((s, cost) ∷ rest) e h =
    let before = total_or_zero (lookup s (spend_all rest e).spend) in
    ground (
      arith,
      spend_all_total scope rest e h,
      lookup-insert s scope (before + cost) (spend_all rest e).spend,
      eq_iff s scope,
    )

-- After any history of charges on a new enforcer, a scope is within budget exactly when the sum of
-- its own charges is below the ceiling: charges of other scopes do not count.
pub spend_all-is_within :
    (ceiling : ℕ) {e : SpendEnforcer} (charges : List (String × ℕ)) (scope : String)
    → new_spend_enforcer ceiling ≡ some e
    → spend_is_within scope (spend_all charges e) ≡ ltb (charged scope charges) ceiling
unfolding new_spend_enforcer spend_is_within
spend_all-is_within ceiling {e} charges scope made =
    ground (arith, spend_all_total scope charges e (ground arith))

use_all_total :
    (scope : String) (amounts : List (String × ℕ)) (e : CountEnforcer)
    → e.usage ≡ []
    → ((use_all amounts e).ceiling ≡ e.ceiling)
      × (total_or_zero (lookup scope (use_all amounts e).usage) ≡ charged scope amounts)
unfolding use_all charged record_usage
use_all_total scope [] e h = ground (arith, lookup-nil {V = ℕ} scope)
use_all_total scope ((s, amount) ∷ rest) e h =
    let before = total_or_zero (lookup s (use_all rest e).usage) in
    ground (
      arith,
      use_all_total scope rest e h,
      lookup-insert s scope (before + amount) (use_all rest e).usage,
      eq_iff s scope,
    )

-- The same for counts: after any history of usage on a new enforcer, a scope is within budget
-- exactly when the sum of its own usage is below the ceiling.
use_all-is_within :
    (ceiling : ℕ) {e : CountEnforcer} (amounts : List (String × ℕ)) (scope : String)
    → new_count_enforcer ceiling ≡ some e
    → count_is_within scope (use_all amounts e) ≡ ltb (charged scope amounts) ceiling
unfolding new_count_enforcer count_is_within
use_all-is_within ceiling {e} amounts scope made =
    ground (arith, use_all_total scope amounts e (ground arith))

step_scope_inj :
    (w w' s s' : String)
    → count w ≡ count w'
    → step_scope w s ≡ step_scope w' s'
    → (w ≡ w') × (s ≡ s')
unfolding step_scope
step_scope_inj w w' s s' same e =
    let (workflows, rest) = append_inj e same in (workflows, append_cancel_left ":" s s' rest)

-- Two steps of workflows whose ids are equally long never share a token ceiling: after any usage,
-- what the step `s` of `w` may still use depends on its own usage only.
pub steps_are_separate :
    (ceiling : ℕ) {e : CountEnforcer} (amounts : List (String × ℕ)) (w s w' s' : String) (n : ℕ)
    → new_count_enforcer ceiling ≡ some e
    → count w ≡ count w'
    → ¬ ((w ≡ w') × (s ≡ s'))
    → count_is_within (step_scope w s) (record_usage (step_scope w' s') n (use_all amounts e))
      ≡ count_is_within (step_scope w s) (use_all amounts e)
unfolding count_is_within record_usage
steps_are_separate ceiling {e} amounts w s w' s' n made same other =
    let before = total_or_zero (lookup (step_scope w' s') (use_all amounts e).usage) in
    ground (
      arith,
      step_scope_inj w' w s' s (sym same),
      eq_iff (step_scope w' s') (step_scope w s),
      lookup-insert (step_scope w' s') (step_scope w s) (before + n) (use_all amounts e).usage,
    )
