-- ===== src/WorkflowEngine/Runner/Loop.antt =====
-- `run_once` and `run_to_completion` of advance_runner.py.
use ai_os.Prelude.{ℕ, zero, suc, ◌+◌, false, Option, none, some, String, lookup}
use ai_os.WorkflowEngine.Instance.{Status, waiting_for_human, completed, WorkflowInstance}
use ai_os.WorkflowEngine.Repository.{Database}
use ai_os.WorkflowEngine.Repository.Commands.{database_after}
use ai_os.WorkflowEngine.Lease.{Leases, Leased, granted, unavailable, acquire, release}
use ai_os.WorkflowEngine.Service.Advance.{
  ServiceResult, wrote, step_raised, unresolved, no_instance, advance, retry_after_step_failure,
}
use ai_os.WorkflowEngine.Runner.{
  Retries, no_retries, other_error, retry_target, World, Surroundings, Run, Returned, instance_of,
  raised, returned_of,
}

abbrev pub status? : Option WorkflowInstance → Option Status
status? none = none
status? (some row) = some row.status

abbrev pub service_writes : Database → ServiceResult → Database
service_writes before (wrote w) = database_after before w
service_writes before (step_raised step_id detail w) = database_after before w
service_writes before (unresolved e) = before
service_writes before no_instance = before

-- The `finally` of `run_once`: an error of `release` takes the place of what was returned or raised.
abbrev pub after_release : Option Leases → Returned → World → Returned × World
after_release none result world = (raised other_error, world)
after_release (some leases) result world = (result, record world { leases = leases })

unfoldable pub release_lease :
    Surroundings → Run → (iteration : ℕ) → Returned × World → Returned × World
release_lease s run i (result, world) =
    let now = s.before_release i world in
    after_release (release run.workflow_id run.worker_id now.leases) result now

-- `advance`, which reads in one world and writes in a later one.
unfoldable pub advance_once : Surroundings → Run → (iteration : ℕ) → World → Returned × World
advance_once s run i seen =
    let now = s.before_write i seen in
    let result =
      advance (s.executor i) run.workflow_id run.definition run.empty (s.clock i) seen.database
        now.database in
    (
      returned_of (s.is_retriable i) result,
      record now { database = service_writes now.database result },
    )

unfoldable pub after_acquire :
    Surroundings → Run → (iteration : ℕ) → Leased → World → Returned × World
after_acquire s run i (unavailable reason) world = (raised other_error, world)
after_acquire s run i (granted leases lease) world =
    release_lease s run i (advance_once s run i (record world { leases = leases }))

unfoldable pub run_once : Surroundings → Run → (iteration : ℕ) → World → Returned × World
run_once s run i world =
    let now = s.before_acquire i world in
    let leased =
      acquire (status? (lookup run.workflow_id now.database.instances)) (s.is_skipped i)
        (s.lease_id i) run.workflow_id run.worker_id run.lease_duration_seconds (s.clock i).process
        now.leases in
    after_acquire s run i leased now

-- `WorkflowRunOutcome`.
pub data RunOutcome : Type 0 where
  run_completed max_iterations_reached run_failed run_waiting : RunOutcome

pub record RunResult : Type 0 where
  pub outcome : RunOutcome
  pub iterations : ℕ
  pub last_instance : Option WorkflowInstance

-- How `run_to_completion` ends: `invalid_input` and `propagated` are exceptions, the second one from the call of
-- the service that resets the workflow for a retry, which nothing catches.
pub data RunEnd : Type 0 where
  ended : RunResult → RunEnd
  propagated : RunEnd
  invalid_input : RunEnd

abbrev pub ends : RunOutcome → ℕ → Option WorkflowInstance → RunEnd
ends outcome iterations last =
    ended (record { outcome = outcome; iterations = iterations; last_instance = last })

-- What the loop does after an iteration.
pub data Next : Type 0 where
  continue_with : WorkflowInstance → Retries → Next
  stop : RunEnd → Next

abbrev pub end_of_status : Status → ℕ → WorkflowInstance → Retries → Next
end_of_status completed i row retries = stop (ends run_completed i (some row))
end_of_status waiting_for_human i row retries = stop (ends run_waiting i (some row))
end_of_status _ i row retries = continue_with row retries

-- The look at the instance before a failure is reported.
abbrev pub failure_of_status : Status → ℕ → WorkflowInstance → Option WorkflowInstance → RunEnd
failure_of_status waiting_for_human i current last = ends run_waiting i (some current)
failure_of_status _ i current last = ends run_failed i last

abbrev pub failure_end : Option WorkflowInstance → ℕ → Option WorkflowInstance → RunEnd
failure_end none i last = ends run_failed i last
failure_end (some current) i last = failure_of_status current.status i current last

abbrev pub after_reset : Returned → Retries → Next
after_reset (instance_of row) retries = continue_with row retries
after_reset (raised e) retries = stop propagated

-- The `except` of the loop, with what `retry_target` said.
unfoldable pub after_error :
    Surroundings
    → Run
    → (iteration : ℕ) → Option WorkflowInstance
    → Option String × Retries
    → World
    → Next × World
after_error s run i last (none, retries) world =
    let now = s.before_look i world in
    (stop (failure_end (lookup run.workflow_id now.database.instances) i last), now)
after_error s run i last (some target, retries) world =
    let seen = s.before_retry i world in
    let now = s.before_reset i seen in
    let result =
      retry_after_step_failure run.workflow_id run.definition target (s.reason i) (s.clock i)
        seen.database now.database in
    (
      after_reset (returned_of false result) retries,
      record now { database = service_writes now.database result },
    )

unfoldable pub after_once :
    Surroundings
    → Run
    → (iteration : ℕ) → Option WorkflowInstance
    → Retries
    → Returned × World
    → Next × World
after_once s run i last retries (instance_of row, world) =
    (end_of_status row.status i row retries, world)
after_once s run i last retries (raised e, world) =
    after_error s run i last
      (retry_target e run.step_retry_targets run.retry_policy (s.monotonic i) retries) world

unfoldable pub iterate :
    Surroundings → Run → (iteration : ℕ) → Option WorkflowInstance → Retries → World → Next × World
iterate s run i last retries world = after_once s run i last retries (run_once s run i world)

-- `return` or `continue`.
abbrev pub follow :
    Next × World → (WorkflowInstance → Retries → World → RunEnd × World) → RunEnd × World
follow (stop result, now) rest = (result, now)
follow (continue_with row retries, now) rest = rest row retries now

-- The `for` loop, with the number of iterations that are left.
unfoldable pub run_loop :
    Surroundings
    → Run
    → (left iteration : ℕ) → Option WorkflowInstance
    → Retries
    → World
    → RunEnd × World
run_loop s run zero i last retries world =
    (ends max_iterations_reached run.max_iterations last, world)
run_loop s run (suc left) i last retries world =
    follow (iterate s run i last retries world)
      (λ row counted now. run_loop s run left (i + 1) (some row) counted now)

-- `validate_max_iterations`, and the loop.
abbrev pub start_loop : (max : ℕ) → Surroundings → Run → World → RunEnd × World
start_loop zero s run world = (invalid_input, world)
start_loop (suc n) s run world = run_loop s run (suc n) 1 none no_retries world

unfoldable pub run_to_completion : Surroundings → Run → World → RunEnd × World
run_to_completion s run world = start_loop run.max_iterations s run world
