-- ===== src/WorkflowEngine/Runner.antt =====
-- kernel/src/ai_os_kernel/workflow_engine/advance_runner.py: one step under a lease, the loop that runs a workflow
-- to its end, and its bounded retries.
pub mod Loop
mod Examples
pub mod Bounds
pub mod Outcome
use ai_os.Prelude.{
  ℕ, zero, suc, ◌+◌, Bool, true, false, not, ◌&&◌, Option, none, some, List, [], ◌∷◌, String, ltb,
  is_some, if◌then◌else◌, lookup, insert,
}
use ai_os.WorkflowEngine.Definition.{Json, WorkflowStep, WorkflowDefinition}
use ai_os.WorkflowEngine.Instance.{
  Status, created, running, waiting_for_human, completed, failed, cancelled, WorkflowInstance,
}
use ai_os.WorkflowEngine.Repository.{Database, Clock, Written, committed, rolled_back}
use ai_os.WorkflowEngine.Lease.{Leases, Leased, granted, unavailable, acquire, release}
use ai_os.WorkflowEngine.Service.Advance.{
  Executed, ServiceResult, wrote, step_raised, unresolved, no_instance, advance,
  retry_after_step_failure,
}

-- `RetryPolicy` of models.py, with its duration in ticks of `time.monotonic()`.
pub record RetryPolicy : Type 0 where
  pub max_attempts : ℕ
  pub max_duration_seconds : ℕ

-- `step_failure_counts` and `step_retry_deadlines`.
pub record Retries : Type 0 where
  pub failure_counts : List (String × ℕ)
  pub retry_deadlines : List (String × ℕ)

abbrev pub no_retries : Retries
no_retries = record { failure_counts = []; retry_deadlines = [] }

-- An exception that `run_once` raises: only one that `advance` caught from a step has a `step_id`.
pub data Raised : Type 0 where
  step_error : (retriable : Bool) (step_id : String) → Raised
  other_error : Raised

abbrev pub value_or_zero : Option ℕ → ℕ
value_or_zero none = 0
value_or_zero (some n) = n

unfoldable pub count_failure : RetryPolicy → (step_id : String) → (now : ℕ) → Retries → Retries
count_failure policy step_id now retries = record {
  failure_counts =
      insert step_id (value_or_zero (lookup step_id retries.failure_counts) + 1)
        retries.failure_counts;
  retry_deadlines =
      if is_some (lookup step_id retries.retry_deadlines)
      then retries.retry_deadlines
      else insert step_id (now + policy.max_duration_seconds) retries.retry_deadlines;
}

-- `within_attempts and within_duration`.
unfoldable pub is_within_bounds : RetryPolicy → (step_id : String) → (now : ℕ) → Retries → Bool
is_within_bounds policy step_id now retries =
    ltb (value_or_zero (lookup step_id retries.failure_counts)) policy.max_attempts
    && ltb now (value_or_zero (lookup step_id retries.retry_deadlines))

-- The test of both bounds, after the failure was counted.
unfoldable pub bounded_target :
    Option String
    → Option RetryPolicy
    → (step_id : String) → (now : ℕ) → Retries
    → Option String × Retries
bounded_target none policy step_id now retries = (none, retries)
bounded_target (some target) none step_id now retries = (none, retries)
bounded_target (some target) (some policy) step_id now retries =
    let counted = count_failure policy step_id now retries in
    (if is_within_bounds policy step_id now counted then some target else none, counted)

-- `_maybe_retry_failed_step` up to its call of the service: the step to retry from, if a retry applies.
unfoldable pub retry_target :
    Raised
    → List (String × String)
    → Option RetryPolicy
    → (now : ℕ) → Retries
    → Option String × Retries
retry_target other_error targets policy now retries = (none, retries)
retry_target (step_error false step_id) targets policy now retries = (none, retries)
retry_target (step_error true step_id) targets policy now retries =
    bounded_target (lookup step_id targets) policy step_id now retries

-- The tables that the runner shares with other workers.
pub record World : Type 0 where
  pub database : Database
  pub leases : Leases

-- What comes from outside, at the iteration of a number: the executor, the clocks, whether an exception says that it
-- is retriable, what other transactions wrote before a call (of `acquire`, of the write of `advance`, of `release`,
-- of the write of a retry, of `get_instance`).
pub record Surroundings : Type 0 where
  pub executor : ℕ → WorkflowStep → Executed
  pub clock : ℕ → Clock
  pub monotonic : ℕ → ℕ
  pub is_retriable : ℕ → Bool
  pub is_skipped : ℕ → Bool
  pub lease_id : ℕ → String
  pub reason : ℕ → String  -- of a retry
  pub before_acquire : ℕ → World → World
  pub before_write : ℕ → World → World
  pub before_release : ℕ → World → World
  pub before_retry : ℕ → World → World
  pub before_reset : ℕ → World → World
  pub before_look : ℕ → World → World

-- The arguments of `run_to_completion`; `empty` is `{}`.
pub record Run : Type 0 where
  pub workflow_id : String
  pub definition : WorkflowDefinition
  pub retry_policy : Option RetryPolicy
  pub worker_id : String
  pub lease_duration_seconds : ℕ
  pub max_iterations : ℕ
  pub step_retry_targets : List (String × String)
  pub empty : Json

-- How a call of the service or of `run_once` ends.
pub data Returned : Type 0 where
  instance_of : WorkflowInstance → Returned
  raised : Raised → Returned

-- The error of a step goes on only if its attempt was recorded: else the repository's error takes its place.
unfoldable pub returned_of : (retriable : Bool) → ServiceResult → Returned
returned_of retriable (wrote (committed database row)) = instance_of row
returned_of retriable (wrote (rolled_back reason)) = raised other_error
returned_of retriable (step_raised step_id detail (committed database row)) =
    raised (step_error retriable step_id)
returned_of retriable (step_raised step_id detail (rolled_back reason)) = raised other_error
returned_of retriable (unresolved e) = raised other_error
returned_of retriable no_instance = raised other_error
