-- ===== src/WorkflowEngine/Runner/Outcome.antt =====
-- What `run_to_completion` of advance_runner.py reports.
use ai_os.Prelude.{
  ℕ, zero, suc, ◌+◌, ◌≡◌, ◌≤◌, ◌<◌, refl, sym, ap, subst, ◌∙◌, Bool, true, false, Option, none,
  some, String, lookup, arith,
}
use ai_os.WorkflowEngine.Instance.{
  Status, waiting_for_human, completed, WorkflowInstance, is_waiting,
}
use ai_os.WorkflowEngine.Runner.{
  Retries, no_retries, World, Surroundings, Run, Returned, instance_of, raised, Raised,
  retry_target, returned_of,
}
use ai_os.WorkflowEngine.Service.Advance.{ServiceResult, retry_after_step_failure}
use ai_os.WorkflowEngine.Runner.Loop.{
  run_completed, max_iterations_reached, run_failed, run_waiting, RunEnd, propagated, invalid_input,
  ends, Next, continue_with, stop, end_of_status, failure_of_status, failure_end, after_reset,
  after_error, after_once, iterate, follow, run_loop, start_loop, run_to_completion, run_once,
  service_writes,
}

abbrev pub is_over : Status → Bool
is_over completed = true
is_over waiting_for_human = true
is_over _ = false

abbrev pub waits_for_human : Option WorkflowInstance → Bool
waits_for_human none = false
waits_for_human (some row) = is_waiting row.status

module _ (s : Surroundings) (run : Run) (start : World) where
  -- What a failed iteration reads at its end, before it is reported.
  abbrev pub seen_at_end : ℕ → World → Option WorkflowInstance
  seen_at_end i world = lookup run.workflow_id (s.before_look i world).database.instances

  -- The write of a retry from a step.
  abbrev pub reset_of : ℕ → (target : String) → World → ServiceResult
  reset_of i target world =
      retry_after_step_failure run.workflow_id run.definition target (s.reason i) (s.clock i)
        (s.before_retry i world).database (s.before_reset i (s.before_retry i world)).database

  -- Some iterations, after each of which the run goes on: it moved an instance that is neither completed nor waits, or it
  -- raised an error after which a step is retried.
  pub data Iterated : (iterations : ℕ) → Option WorkflowInstance → Retries → World → Type 0 where
    begins : Iterated 0 none no_retries start
    moves :
        (n : ℕ) (last : Option WorkflowInstance) (retries : Retries) (world now : World)
        (row : WorkflowInstance)
        → Iterated n last retries world
        → run_once s run (n + 1) world ≡ (instance_of row, now)
        → is_over row.status ≡ false
        → Iterated (n + 1) (some row) retries now
    resets :
        (n : ℕ) (last : Option WorkflowInstance) (retries counted : Retries) (world failed : World)
        (e : Raised) (target : String) (row : WorkflowInstance)
        → Iterated n last retries world
        → run_once s run (n + 1) world ≡ (raised e, failed)
        → retry_target e run.step_retry_targets run.retry_policy (s.monotonic (n + 1)) retries
          ≡ (some target, counted)
        → returned_of false (reset_of (n + 1) target failed) ≡ instance_of row
        → Iterated
            (n + 1)
            (some row)
            counted
            (record (s.before_reset (n + 1) (s.before_retry (n + 1) failed)) {
              database =
                  service_writes
                    (s.before_reset (n + 1) (s.before_retry (n + 1) failed)).database
                    (reset_of (n + 1) target failed);
            })

  -- An end that tells what happened in the last iteration, after those before it.
  pub data HonestEnd : RunEnd → Type 0 where
    has_completed :
        (n : ℕ) (last : Option WorkflowInstance) (retries : Retries) (world now : World)
        (row : WorkflowInstance)
        → Iterated n last retries world
        → n < run.max_iterations
        → run_once s run (n + 1) world ≡ (instance_of row, now)
        → row.status ≡ completed
        → HonestEnd (ends run_completed (n + 1) (some row))
    has_to_wait :
        (n : ℕ) (last : Option WorkflowInstance) (retries : Retries) (world now : World)
        (row : WorkflowInstance)
        → Iterated n last retries world
        → n < run.max_iterations
        → run_once s run (n + 1) world ≡ (instance_of row, now)
        → row.status ≡ waiting_for_human
        → HonestEnd (ends run_waiting (n + 1) (some row))
    waits_after_error :
        (n : ℕ) (last : Option WorkflowInstance) (retries counted : Retries) (world failed : World)
        (e : Raised) (row : WorkflowInstance)
        → Iterated n last retries world
        → n < run.max_iterations
        → run_once s run (n + 1) world ≡ (raised e, failed)
        → retry_target e run.step_retry_targets run.retry_policy (s.monotonic (n + 1)) retries
          ≡ (none, counted)
        → seen_at_end (n + 1) failed ≡ some row
        → row.status ≡ waiting_for_human
        → HonestEnd (ends run_waiting (n + 1) (some row))
    has_failed :
        (n : ℕ) (last : Option WorkflowInstance) (retries counted : Retries) (world failed : World)
        (e : Raised)
        → Iterated n last retries world
        → n < run.max_iterations
        → run_once s run (n + 1) world ≡ (raised e, failed)
        → retry_target e run.step_retry_targets run.retry_policy (s.monotonic (n + 1)) retries
          ≡ (none, counted)
        → waits_for_human (seen_at_end (n + 1) failed) ≡ false
        → HonestEnd (ends run_failed (n + 1) last)
    used_all :
        (last : Option WorkflowInstance) (retries : Retries) (world : World)
        → 1 ≤ run.max_iterations
        → Iterated run.max_iterations last retries world
        → HonestEnd (ends max_iterations_reached run.max_iterations last)
    has_propagated :
        (n : ℕ) (last : Option WorkflowInstance) (retries counted : Retries) (world failed : World)
        (e error : Raised) (target : String)
        → Iterated n last retries world
        → n < run.max_iterations
        → run_once s run (n + 1) world ≡ (raised e, failed)
        → retry_target e run.step_retry_targets run.retry_policy (s.monotonic (n + 1)) retries
          ≡ (some target, counted)
        → returned_of false (reset_of (n + 1) target failed) ≡ raised error
        → HonestEnd propagated
    was_invalid : run.max_iterations ≡ 0 → HonestEnd invalid_input

  -- The same of what the loop does after an iteration.
  data HonestNext (n : ℕ) : Next × World → Type 0 where
    goes_on :
        (row : WorkflowInstance) (retries : Retries) (now : World)
        → Iterated (n + 1) (some row) retries now
        → HonestNext n (continue_with row retries, now)
    stops : (e : RunEnd) (now : World) → HonestEnd e → HonestNext n (stop e, now)

  module _ (n : ℕ) (low : n < run.max_iterations) (last : Option WorkflowInstance)
      (retries : Retries) (world : World) (earlier : Iterated n last retries world) where
    end_of_status-HonestNext :
        (status : Status) (row : WorkflowInstance) (now : World)
        → row.status ≡ status
        → run_once s run (n + 1) world ≡ (instance_of row, now)
        → HonestNext n (end_of_status status (n + 1) row retries, now)
    end_of_status-HonestNext completed row now e ran =
        stops _ now (has_completed n last retries world now row earlier low ran e)
    end_of_status-HonestNext waiting_for_human row now e ran =
        stops _ now (has_to_wait n last retries world now row earlier low ran e)
    end_of_status-HonestNext _ row now e ran =
        goes_on row retries now (moves n last retries world now row earlier ran (ap is_over e))

    module _ (e : Raised) (after : World)
        (ran : run_once s run (n + 1) world ≡ (raised e, after)) where
      module _ (counted : Retries)
          (no_target : retry_target e run.step_retry_targets run.retry_policy
              (s.monotonic (n + 1))
              retries
            ≡ (none, counted)) where
        failure_of_status-HonestEnd :
            (status : Status) (current : WorkflowInstance)
            → current.status ≡ status
            → seen_at_end (n + 1) after ≡ some current
            → HonestEnd (failure_of_status status (n + 1) current last)
        failure_of_status-HonestEnd waiting_for_human current is seen =
            waits_after_error n last retries counted world after e current earlier low ran no_target
              seen is
        failure_of_status-HonestEnd _ current is seen =
            has_failed n last retries counted world after e earlier low ran no_target
              (ap waits_for_human seen ∙ ap is_waiting is)

        failure_end-HonestEnd :
            (found : Option WorkflowInstance)
            → seen_at_end (n + 1) after ≡ found
            → HonestEnd (failure_end found (n + 1) last)
        failure_end-HonestEnd none seen =
            has_failed n last retries counted world after e earlier low ran no_target
              (ap waits_for_human seen)
        failure_end-HonestEnd (some current) seen =
            failure_of_status-HonestEnd current.status current refl seen

      after_reset-HonestNext :
          (target : String) (counted : Retries) (result : Returned) (now : World)
          → retry_target e run.step_retry_targets run.retry_policy (s.monotonic (n + 1)) retries
            ≡ (some target, counted)
          → returned_of false (reset_of (n + 1) target after) ≡ result
          → now ≡ record (s.before_reset (n + 1) (s.before_retry (n + 1) after)) {
            database =
                service_writes
                  (s.before_reset (n + 1) (s.before_retry (n + 1) after)).database
                  (reset_of (n + 1) target after);
          }
          → HonestNext n (after_reset result counted, now)
      after_reset-HonestNext target counted (instance_of row) now found is at =
          goes_on row counted now (
            subst (λ w. Iterated (n + 1) (some row) counted w) (sym at)
              (resets n last retries counted world after e target row earlier ran found is))
      after_reset-HonestNext target counted (raised error) now found is at = stops propagated now (
          has_propagated n last retries counted world after e error target earlier low ran found is)

      after_error-HonestNext :
          (target : Option String × Retries)
          → retry_target e run.step_retry_targets run.retry_policy (s.monotonic (n + 1)) retries
            ≡ target
          → HonestNext n (after_error s run (n + 1) last target after)
      unfolding after_error
      after_error-HonestNext (none, counted) found =
          stops _ _ (failure_end-HonestEnd counted found _ refl)
      after_error-HonestNext (some target, counted) found =
          after_reset-HonestNext target counted _ _ found refl refl

    after_once-HonestNext :
        (result : Returned × World)
        → run_once s run (n + 1) world ≡ result
        → HonestNext n (after_once s run (n + 1) last retries result)
    unfolding after_once
    after_once-HonestNext (instance_of row, now) ran =
        end_of_status-HonestNext row.status row now refl ran
    after_once-HonestNext (raised e, now) ran = after_error-HonestNext e now ran _ refl

  follow-HonestEnd :
      (n : ℕ) (next : Next × World) (rest : WorkflowInstance → Retries → World → RunEnd × World)
      → HonestNext n next
      → ((row : WorkflowInstance) (retries : Retries) (now : World)
          → Iterated (n + 1) (some row) retries now
          → HonestEnd (rest row retries now).0)
      → HonestEnd (follow next rest).0
  follow-HonestEnd n _ rest (goes_on row retries now earlier) h = h row retries now earlier
  follow-HonestEnd n _ rest (stops e now honest) h = honest

  run_loop-HonestEnd :
      (left n : ℕ) (last : Option WorkflowInstance) (retries : Retries) (world : World)
      → Iterated n last retries world
      → n + left ≡ run.max_iterations
      → 1 ≤ run.max_iterations
      → HonestEnd (run_loop s run left (n + 1) last retries world).0
  unfolding run_loop iterate
  run_loop-HonestEnd zero n last retries world earlier e m =
      let all : n ≡ run.max_iterations = omega arith in
      used_all last retries world m (subst (λ k. Iterated k last retries world) all earlier)
  run_loop-HonestEnd (suc left) n last retries world earlier e m =
      follow-HonestEnd n _ _
        (after_once-HonestNext n (omega arith) last retries world earlier _ refl)
        (λ row counted now next.
          run_loop-HonestEnd left (n + 1) (some row) counted now next (omega arith) m)

  start_loop-HonestEnd :
      (max : ℕ) → run.max_iterations ≡ max → HonestEnd (start_loop max s run start).0
  start_loop-HonestEnd zero e = was_invalid e
  start_loop-HonestEnd (suc n) e =
      run_loop-HonestEnd (suc n) 0 none no_retries start begins (omega arith) (omega arith)

-- Whatever the executors, the clocks and other workers do, `run_to_completion` ends, and its end tells the truth. Up to the
-- last iteration, each of them moved an instance that is neither completed nor waits for a human, or raised an error after
-- which the retry of a step was written. Completion, or a wait, is reported in the iteration that left an instance of that
-- status, and a wait also after an error that is not retried, if the instance is seen to wait then; a failure is reported
-- after an error that is not retried, and then only; exhaustion after all of at least one iterations. An error leaves the
-- run if the retry of a step cannot be written, and it is refused if `max_iterations` is zero.
pub run_to_completion-HonestEnd :
    (s : Surroundings) (run : Run) (start : World)
    → HonestEnd s run start (run_to_completion s run start).0
unfolding run_to_completion
run_to_completion-HonestEnd s run start = start_loop-HonestEnd s run start run.max_iterations refl
