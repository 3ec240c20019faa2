-- ===== src/WorkflowEngine/Repository/Tables.antt =====
-- The step rows and the outbox against the instances and the log (repository.py).
use ai_os.Prelude.{
  ℕ, ◌+◌, ◌-◌, ◌≡◌, refl, Bool, true, false, ◌&&◌, Option, none, some, List, [], ◌∷◌, String, max,
  str_eq, if◌then◌else◌, lookup, insert, lookup-insert, eq_iff, arith, ap, ◌∙◌,
}
use ai_os.WorkflowEngine.Definition.{WorkflowStep}
use ai_os.WorkflowEngine.Instance.{
  Status, completed, failed, WorkflowInstance, WorkflowStepRecord, EventBody, EventRow, OutboxRow,
  completion_row, failure_row, decision_row, request_row, state_transitioned, step_was_started,
  StepStatus,
}
use ai_os.WorkflowEngine.Definition.{Json}
use ai_os.WorkflowEngine.Repository.{Database, event}
use ai_os.WorkflowEngine.Repository.Steps.{max_attempt, step_row}
use ai_os.WorkflowEngine.Repository.Log.{countdown, countdown-next, at_key}

-- The attempts of a step of a workflow, the latest first.
unfoldable pub attempts_of : (workflow_id step_name : String) → List WorkflowStepRecord → List ℕ
attempts_of workflow_id step_name [] = []
attempts_of workflow_id step_name (row ∷ rows) =
    let earlier = attempts_of workflow_id step_name rows in
    if str_eq row.workflow_id workflow_id && str_eq row.step_name step_name
    then row.attempt ∷ earlier
    else earlier

abbrev pub completion_of : String → OutboxRow → ℕ
completion_of key (completion_row w) = if str_eq w key then 1 else 0
completion_of key (failure_row w reason) = 0
completion_of key (decision_row w) = 0
completion_of key (request_row w step_id) = 0

-- The `workflow.completed` rows of a workflow.
unfoldable pub completions : String → List OutboxRow → ℕ
completions key [] = 0
completions key (row ∷ outbox) = completion_of key row + completions key outbox

abbrev pub failure_of : String → OutboxRow → ℕ
failure_of key (completion_row w) = 0
failure_of key (decision_row w) = 0
failure_of key (request_row w step_id) = 0
failure_of key (failure_row w reason) = if str_eq w key then 1 else 0

-- The `workflow.failed` rows of a workflow.
unfoldable pub failures : String → List OutboxRow → ℕ
failures key [] = 0
failures key (row ∷ outbox) = failure_of key row + failures key outbox

abbrev pub failing : Status → ℕ
failing failed = 1
failing _ = 0

abbrev pub fails_by : EventBody → ℕ
fails_by (state_transitioned previous new reason trigger) = failing new
fails_by _ = 0

-- The events by which a workflow became `failed`.
unfoldable pub failures_logged : String → List EventRow → ℕ
failures_logged key [] = 0
failures_logged key (e ∷ events) =
    let earlier = failures_logged key events in
    if str_eq e.workflow_id key then fails_by e.body + earlier else earlier

abbrev pub completing : Status → ℕ
completing completed = 1
completing _ = 0

-- One for a workflow that is completed.
abbrev pub completed_count : Option WorkflowInstance → ℕ
completed_count none = 0
completed_count (some row) = completing row.status

pub record IsConsistent (key step_name : String) (db : Database) : Type 0 where
  pub numbered : attempts_of key step_name db.steps ≡ countdown (max_attempt key step_name db.steps)
  pub completed_once : completions key db.outbox ≡ completed_count (lookup key db.instances)
  pub failures_told : failures key db.outbox ≡ failures_logged key db.events

count-hit :
    (hit : Bool) (n more : ℕ) (row : Option WorkflowInstance) (row' : WorkflowInstance)
    → (hit ≡ true → completing row'.status ≡ more + completed_count row)
    → n ≡ completed_count row
    → (if hit then more else 0) + n ≡ completed_count (if hit then some row' else row)
count-hit true n more row row' next h = omega (arith, next refl, h)
count-hit false n more row row' next h = omega (arith, h)

attempts-hit :
    (hit : Bool) (l : List ℕ) (m a : ℕ)
    → (hit ≡ true → a ≡ m + 1)
    → l ≡ countdown m
    → (if hit then a ∷ l else l) ≡ countdown (if hit then max a m else m)
attempts-hit true l m a next h =
    let e : a ≡ max a m = omega (arith, next refl) in
    countdown-next m a l (next refl) h ∙ ap countdown e
attempts-hit false l m a next h = h

module _ (key name workflow_id : String) (db : Database) (row : Option WorkflowInstance)
    (row' : WorkflowInstance) (found : lookup workflow_id db.instances ≡ row)
    (fine : IsConsistent key name db) where
  completed-insert :
      (more : ℕ)
      → completing row'.status ≡ more + completed_count row
      → (if str_eq workflow_id key then more else 0) + completions key db.outbox
        ≡ completed_count (lookup key (insert workflow_id row' db.instances))
  completed-insert more h = rw lookup-insert (
      count-hit (str_eq workflow_id key) (completions key db.outbox) more (lookup key db.instances)
        row'
        (at_key key workflow_id db.instances db.events row row' found
          (λ o. completing row'.status ≡ more + completed_count o) h)
        fine.completed_once)

  completed-kept :
      completing row'.status ≡ completed_count row
      → completions key db.outbox
        ≡ completed_count (lookup key (insert workflow_id row' db.instances))
  completed-kept h = ground (arith, completed-insert 0 (omega (arith, h)))

  -- A write that logs one event and nothing else.
  pub quiet-IsConsistent :
      (seq : ℕ) (body : EventBody) (step_id : Option String) (at : ℕ)
      → completing row'.status ≡ completed_count row
      → fails_by body ≡ 0
      → IsConsistent key name (record db {
        instances = insert workflow_id row' db.instances;
        events = event workflow_id seq body step_id at ∷ db.events;
      })
  unfolding failures_logged
  quiet-IsConsistent seq body step_id at same none_fails = record {
    numbered = fine.numbered;
    completed_once = completed-kept same;
    failures_told = ground (arith, fine.failures_told, none_fails);
  }

  pub decision-IsConsistent :
      (seq : ℕ) (body : EventBody) (step_id : Option String) (at : ℕ)
      → completing row'.status ≡ completed_count row
      → fails_by body ≡ 0
      → IsConsistent key name (record db {
        instances = insert workflow_id row' db.instances;
        events = event workflow_id seq body step_id at ∷ db.events;
        outbox = decision_row workflow_id ∷ db.outbox;
      })
  unfolding failures_logged completions failures
  decision-IsConsistent seq body step_id at same none_fails = record {
    numbered = fine.numbered;
    completed_once = omega (arith, completed-kept same);
    failures_told = ground (arith, fine.failures_told, none_fails);
  }

  pub untold-IsConsistent :
      completing row'.status ≡ completed_count row
      → IsConsistent key name (record db { instances = insert workflow_id row' db.instances })
  untold-IsConsistent same = record {
    numbered = fine.numbered;
    completed_once = completed-kept same;
    failures_told = fine.failures_told;
  }

  pub completion-IsConsistent :
      (seq : ℕ) (body : EventBody) (step_id : Option String) (at : ℕ)
      → completing row'.status ≡ 1 + completed_count row
      → fails_by body ≡ 0
      → IsConsistent key name (record db {
        instances = insert workflow_id row' db.instances;
        events = event workflow_id seq body step_id at ∷ db.events;
        outbox = completion_row workflow_id ∷ db.outbox;
      })
  unfolding failures_logged completions failures
  completion-IsConsistent seq body step_id at more none_fails = record {
    numbered = fine.numbered;
    completed_once = completed-insert 1 more;
    failures_told = ground (arith, fine.failures_told, none_fails);
  }

  pub failure-IsConsistent :
      (seq : ℕ) (body : EventBody) (reason : String) (step_id : Option String) (at : ℕ)
      → completing row'.status ≡ completed_count row
      → fails_by body ≡ 1
      → IsConsistent key name (record db {
        instances = insert workflow_id row' db.instances;
        events = event workflow_id seq body step_id at ∷ db.events;
        outbox = failure_row workflow_id reason ∷ db.outbox;
      })
  unfolding failures_logged completions failures
  failure-IsConsistent seq body reason step_id at same one_fails = record {
    numbered = fine.numbered;
    completed_once = omega (arith, completed-kept same);
    failures_told = ground (arith, fine.failures_told, one_fails);
  }

  same_attempt :
      (step : String)
      → str_eq workflow_id key && str_eq step name ≡ true
      → max_attempt workflow_id step db.steps + 1 ≡ max_attempt key name db.steps + 1
  same_attempt step hit =
      let w : workflow_id ≡ key = ground (arith, eq_iff workflow_id key, hit) in
      let s : step ≡ name = ground (arith, eq_iff step name, hit) in
      ap (λ k. max_attempt k step db.steps + 1) w ∙ ap (λ n. max_attempt key n db.steps + 1) s

  -- A write that logs an attempt, which has the number after the highest.
  pub attempt-IsConsistent :
      (step : WorkflowStep) (status : StepStatus) (outputs error : Option Json) (body : EventBody)
      (at : ℕ)
      → completing row'.status ≡ completed_count row
      → fails_by body ≡ 0
      → let attempt = max_attempt workflow_id step.id db.steps + 1 in
        IsConsistent key name (record db {
          instances = insert workflow_id row' db.instances;
          events =
              event workflow_id row'.last_event_seq body (some step.id) at
              ∷ event workflow_id
                  (row'.last_event_seq - 1)
                  (step_was_started step.id step.type attempt)
                  (some step.id)
                  at
              ∷ db.events;
          steps = step_row workflow_id step status attempt outputs error at ∷ db.steps;
        })
  unfolding failures_logged attempts_of max_attempt
  attempt-IsConsistent step status outputs error body at same none_fails = record {
    numbered =
        attempts-hit (str_eq workflow_id key && str_eq step.id name) (attempts_of key name db.steps)
          (max_attempt key name db.steps) (max_attempt workflow_id step.id db.steps + 1)
          (same_attempt step.id) fine.numbered;
    completed_once = completed-kept same;
    failures_told = ground (arith, fine.failures_told, none_fails);
  }
