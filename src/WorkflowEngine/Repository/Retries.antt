-- ===== src/WorkflowEngine/Repository/Retries.antt =====
-- What an operator's retry does to the count of failures (repository.py, `retry` and
-- `step_failure_stats`).
use ai_os.Prelude.{
  ℕ, ◌+◌, ◌<◌, ◌≡◌, refl, true, Option, none, some, List, [], ◌∷◌, String, lookup,
  lookup-insert_self, arith, ap, ◌∙◌, subst, sym, eq_refl, All,
}
use ai_os.WorkflowEngine.Definition.{Json, WorkflowStep}
use ai_os.WorkflowEngine.Instance.{
  WorkflowInstance, WorkflowStepRecord, running, is_failed, step_has_failed, step_failed,
}
use ai_os.WorkflowEngine.Repository.{Database, Clock, committed, at_step}
use ai_os.WorkflowEngine.Repository.Statuses.{retry, retried_values, log_transition, status_of}
use ai_os.WorkflowEngine.Repository.Steps.{
  record_failed_attempt, attempted_values, log_attempt, step_row, max_attempt, step_failure_stats,
  failures_of, failures_since, counts_since, earliest,
}
use ai_os.WorkflowEngine.Repository.Races.{write-IsCommitted}

failures_since-before :
    (epoch : ℕ) (w name : String) (rows : List WorkflowStepRecord)
    → All (λ row. row.started_at < epoch) rows
    → failures_since (some epoch) w name rows ≡ (0, none)
unfolding failures_since
failures_since-before epoch w name [] h = refl
failures_since-before epoch w name (row ∷ rows) h =
    ground (arith, h.0, failures_since-before epoch w name rows h.1)

-- A retry starts the count of failures anew: if every recorded attempt started before the time of
-- the retry, no step of the workflow has a failure that counts afterwards, and the workflow runs.
pub retry_restarts_count :
    (w reason name : String) (clock : Clock) (db after : Database) (row : WorkflowInstance)
    → All (λ step. step.started_at < clock.database) db.steps
    → retry w reason clock db ≡ committed after row
    → (step_failure_stats w name after ≡ (0, none))
      × ((now : WorkflowInstance) × (lookup w after.instances ≡ some now)
          × (now.status ≡ running)
          × (now.retried_at ≡ some clock.database))
unfolding retry step_failure_stats
retry_restarts_count w reason name clock db after row before e =
    let log = log_transition w (status_of (lookup w db.instances)) reason none clock in
    let c =
      write-IsCommitted (λ r. is_failed r.status) _ (retried_values clock) log w db after row e in
    let now = retried_values clock c.old in
    let found : lookup w after.instances ≡ some now =
      ap (λ x. lookup w x.instances) c.written ∙ lookup-insert_self w now db.instances in
    (
      ap (λ o. failures_of o w name after.steps) found
          ∙ ap (λ x. failures_since (some clock.database) w name x.steps) c.written
          ∙ failures_since-before clock.database w name db.steps before,
      (now, found, refl, refl),
    )

-- The time of the last retry of the instance.
abbrev pub epoch_of : Option WorkflowInstance → Option ℕ
epoch_of none = none
epoch_of (some row) = row.retried_at

failures_of-attempt :
    (o : WorkflowInstance) (w : String) (step : WorkflowStep) (error : Json) (attempt at : ℕ)
    (rows : List WorkflowStepRecord)
    → counts_since o.retried_at at ≡ true
    → let (count, first) = failures_of (some o) w step.id rows in
      failures_of
        (some (attempted_values o))
        w
        step.id
        (step_row w step step_failed attempt none (some error) at ∷ rows)
      ≡ (count + 1, some (earliest at first))
unfolding failures_since
failures_of-attempt o w step error attempt at rows h = rw (eq_refl w, eq_refl step.id, h) refl

-- A failed attempt that starts no earlier than the last retry counts: it adds one to the failures of its
-- step, and the first failure is the earlier of the first one so far and this one.
pub failed_attempt_counts :
    (w d v : String) (expected : Option String) (step : WorkflowStep) (error : Json) (clock : Clock)
    (db after : Database) (row : WorkflowInstance)
    → counts_since (epoch_of (lookup w db.instances)) clock.process ≡ true
    → record_failed_attempt w d v expected step error clock db ≡ committed after row
    → let (count, first) = step_failure_stats w step.id db in
      step_failure_stats w step.id after ≡ (count + 1, some (earliest clock.process first))
unfolding record_failed_attempt step_failure_stats
failed_attempt_counts w d v expected step error clock db after row counts e =
    let attempt = max_attempt w step.id db.steps + 1 in
    let made = step_row w step step_failed attempt none (some error) clock.process in
    let log =
      log_attempt w step attempt (step_has_failed step.id step.type attempt error) made clock in
    let c = write-IsCommitted (at_step d v expected) _ attempted_values log w db after row e in
    let found : lookup w after.instances ≡ some (attempted_values c.old) =
      ap (λ x. lookup w x.instances) c.written
      ∙ lookup-insert_self w (attempted_values c.old) db.instances in
    let counts' = subst (λ o. counts_since (epoch_of o) clock.process ≡ true) c.found counts in
    ap (λ o. failures_of o w step.id after.steps) found
    ∙ ap (λ x. failures_of (some (attempted_values c.old)) w step.id x.steps) c.written
    ∙ failures_of-attempt c.old w step error attempt clock.process db.steps counts'
    ∙ ap
        (λ o. (
          (failures_of o w step.id db.steps).0 + 1,
          some (earliest clock.process (failures_of o w step.id db.steps).1),
        ))
        (sym c.found)
