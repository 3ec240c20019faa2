-- ===== src/LlmGateway/Backoff.antt =====
-- kernel/src/ai_os_kernel/llm_gateway/backoff.py. Durations are natural numbers of clock ticks.
use ai_os.Prelude.{ℕ, ◌-◌, ◌*◌, ◌^◌, Option, none, some, ◌||◌, min, ltb, ◌==◌, if◌then◌else◌}

pub record BackoffPolicy : Type 0 where
  pub max_attempts : ℕ
  pub base_delay_seconds : ℕ
  pub max_delay_seconds : ℕ
  pub max_total_seconds : ℕ

-- Construction with the field validators. `none` is a `ValueError`.
unfoldable pub new_policy : ℕ → ℕ → ℕ → ℕ → Option BackoffPolicy
new_policy attempts base delay total =
    if ltb attempts 1
    then none
    else if base == 0 || (delay == 0 || total == 0)
    then none
    else some (record {
      max_attempts = attempts;
      base_delay_seconds = base;
      max_delay_seconds = delay;
      max_total_seconds = total;
    })

-- `cap` of `delay_seconds`: what `random.uniform(0, cap)` is drawn below.
unfoldable pub delay_cap : BackoffPolicy → ℕ → ℕ
delay_cap policy retry_number =
    min policy.max_delay_seconds (policy.base_delay_seconds * 2 ^ (retry_number - 1))
