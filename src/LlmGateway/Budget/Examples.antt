-- ===== src/LlmGateway/Budget/Examples.antt =====
-- Runs of the budget enforcers on small inputs.
use ai_os.Prelude.{ℕ, ◌≡◌, refl, List, [], ◌∷◌, String, ltb}
use ai_os.LlmGateway.Budget.{SpendEnforcer, CountEnforcer, new_spend_enforcer, spend_is_within}
use ai_os.LlmGateway.Budget.Laws.{charged, spend_all, spend_all-is_within}

abbrev dollars : SpendEnforcer
dollars = record { ceiling_usd = 10; spend = [] }

abbrev tokens : CountEnforcer
tokens = record { ceiling = 10; usage = [] }

abbrev charges : List (String × ℕ)
charges = ("fast", 6) ∷ ("slow", 20) ∷ ("fast", 5) ∷ []

spend_all-is_within_example :
    spend_is_within "fast" (spend_all charges dollars) ≡ ltb (charged "fast" charges) 10
unfolding new_spend_enforcer
spend_all-is_within_example = spend_all-is_within 10 {e = dollars} charges "fast" refl
