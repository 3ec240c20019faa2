-- ===== src/WorkflowEngine/Repository/Log.antt =====
-- The event log against the snapshot (repository.py: "the snapshot can never disagree with the
-- log").
use ai_os.Prelude.{
  ℕ, zero, suc, ◌+◌, ◌-◌, ◌≡◌, refl, Bool, true, false, Option, none, some, List, [], ◌∷◌, String,
  str_eq, if◌then◌else◌, lookup, insert, lookup-insert, eq_iff, arith, sym, subst, ap, ◌∙◌,
}
use ai_os.WorkflowEngine.Definition.{WorkflowStep}
use ai_os.WorkflowEngine.Instance.{
  Status, created, completed, WorkflowInstance, EventBody, EventRow, workflow_started,
  state_transitioned, step_was_started, step_was_completed, step_has_failed, step_retry_scheduled,
  workflow_completed,
}
use ai_os.WorkflowEngine.Repository.{Database, Rejection, event, write, row_where}
use ai_os.WorkflowEngine.Repository.Commands.{database_after}

-- n, n - 1, ..., 1.
unfoldable pub countdown : ℕ → List ℕ
countdown zero = []
countdown (suc n) = suc n ∷ countdown n

-- The sequence numbers of the events of a workflow.
unfoldable pub seqs : String → List EventRow → List ℕ
seqs key [] = []
seqs key (e ∷ events) =
    if str_eq e.workflow_id key then e.seq ∷ seqs key events else seqs key events

-- What an event says of the status and the current step.
abbrev pub Position : Type 0
Position = Status × Option String

abbrev pub apply_to : EventBody → Position → Position
apply_to (workflow_started d v inputs) p = (created, none)
apply_to (state_transitioned previous new reason trigger) p = (new, p.1)
apply_to (step_was_started step type attempt) p = p
apply_to (step_was_completed step type attempt outputs) p = (p.0, some step)
apply_to (step_has_failed step type attempt error) p = p
apply_to (step_retry_scheduled previous to reason) p = (p.0, to)
apply_to workflow_completed p = (completed, p.1)

-- An event of a workflow that no event began has its effect on this position.
abbrev pub position_or_new : Option Position → Position
position_or_new none = (created, none)
position_or_new (some p) = p

-- Status and current step, from the log alone.
unfoldable pub replayed : String → List EventRow → Option Position
replayed key [] = none
replayed key (e ∷ events) =
    let before = replayed key events in
    if str_eq e.workflow_id key then some (apply_to e.body (position_or_new before)) else before

abbrev pub last_seq : Option WorkflowInstance → ℕ
last_seq none = 0
last_seq (some row) = row.last_event_seq

abbrev pub position : Option WorkflowInstance → Option Position
position none = none
position (some row) = some (row.status, row.current_step_id)

pub record IsFine (key : String) (instances : List (String × WorkflowInstance))
    (events : List EventRow) : Type 0 where
  pub numbered : seqs key events ≡ countdown (last_seq (lookup key instances))
  pub agrees : replayed key events ≡ position (lookup key instances)

pub countdown-next : (n m : ℕ) (l : List ℕ) → m ≡ n + 1 → l ≡ countdown n → m ∷ l ≡ countdown m
unfolding countdown
countdown-next n m l e h =
    let e' : m ≡ suc n = omega (arith, e) in
    subst (λ k. k ∷ l ≡ countdown k) (sym e') (ap (λ t. suc n ∷ t) h)

-- A row that replaces the one that was found, if it has the key that is asked for.
numbered-next :
    (hit : Bool) (l : List ℕ) (row : Option WorkflowInstance) (row' : WorkflowInstance)
    → (hit ≡ true → row'.last_event_seq ≡ last_seq row + 1)
    → l ≡ countdown (last_seq row)
    → (if hit then row'.last_event_seq ∷ l else l)
      ≡ countdown (last_seq (if hit then some row' else row))
numbered-next true l row row' next h =
    countdown-next (last_seq row) row'.last_event_seq l (next refl) h
numbered-next false l row row' next h = h

agrees-next :
    (hit : Bool) (p : Option Position) (row : Option WorkflowInstance) (row' : WorkflowInstance)
    (body : EventBody)
    → (hit ≡ true
        → apply_to body (position_or_new (position row)) ≡ (row'.status, row'.current_step_id))
    → p ≡ position row
    → (if hit then some (apply_to body (position_or_new p)) else p)
      ≡ position (if hit then some row' else row)
agrees-next true p row row' body next h =
    ap (λ q. some (apply_to body (position_or_new q))) h ∙ ap some (next refl)
agrees-next false p row row' body next h = h

-- The two events of an attempt.
numbered-twice :
    (hit : Bool) (l : List ℕ) (row : Option WorkflowInstance) (row' : WorkflowInstance)
    → (hit ≡ true → row'.last_event_seq ≡ last_seq row + 2)
    → l ≡ countdown (last_seq row)
    → (let first = if hit then (row'.last_event_seq - 1) ∷ l else l in
        if hit then row'.last_event_seq ∷ first else first)
      ≡ countdown (last_seq (if hit then some row' else row))
numbered-twice true l row row' next h =
    let last = row'.last_event_seq in
    countdown-next (last - 1) last ((last - 1) ∷ l) (omega (arith, next refl))
      (countdown-next (last_seq row) (last - 1) l (omega (arith, next refl)) h)
numbered-twice false l row row' next h = h

agrees-twice :
    (hit : Bool) (p : Option Position) (row : Option WorkflowInstance) (row' : WorkflowInstance)
    (body : EventBody)
    → (hit ≡ true
        → apply_to body (position_or_new (position row)) ≡ (row'.status, row'.current_step_id))
    → p ≡ position row
    → (let first = if hit then some (position_or_new p) else p in
        if hit then some (apply_to body (position_or_new first)) else first)
      ≡ position (if hit then some row' else row)
agrees-twice true p row row' body next h =
    ap (λ q. some (apply_to body (position_or_new q))) h ∙ ap some (next refl)
agrees-twice false p row row' body next h = h

module _ (key workflow_id : String) (instances : List (String × WorkflowInstance))
    (events : List EventRow) (row : Option WorkflowInstance) (row' : WorkflowInstance)
    (found : lookup workflow_id instances ≡ row) where
  -- What is asked of the row that was found is known where the keys agree.
  pub at_key {ℓ} :
      (P : Option WorkflowInstance → Type ℓ)
      → P row
      → str_eq workflow_id key ≡ true
      → P (lookup key instances)
  at_key P h hit =
      subst (λ k. P (lookup k instances)) ((eq_iff workflow_id key).0 hit) (subst P (sym found) h)

  -- One event, at the row's new number.
  pub one-IsFine :
      (body : EventBody) (step_id : Option String) (at : ℕ)
      → row'.last_event_seq ≡ last_seq row + 1
      → apply_to body (position_or_new (position row)) ≡ (row'.status, row'.current_step_id)
      → IsFine key instances events
      → IsFine key
          (insert workflow_id row' instances)
          (event workflow_id row'.last_event_seq body step_id at ∷ events)
  unfolding seqs replayed
  one-IsFine body step_id at n p h = record {
    numbered = rw lookup-insert (
        numbered-next (str_eq workflow_id key) (seqs key events) (lookup key instances) row'
          (at_key (λ o. row'.last_event_seq ≡ last_seq o + 1) n) h.numbered);
    agrees = rw lookup-insert (
        agrees-next (str_eq workflow_id key) (replayed key events) (lookup key instances) row' body
          (at_key
            (λ o.
              apply_to body (position_or_new (position o)) ≡ (row'.status, row'.current_step_id))
            p)
          h.agrees);
  }

  pub attempt-IsFine :
      (step : WorkflowStep) (attempt : ℕ) (body : EventBody) (at : ℕ)
      → row'.last_event_seq ≡ last_seq row + 2
      → apply_to body (position_or_new (position row)) ≡ (row'.status, row'.current_step_id)
      → IsFine key instances events
      → IsFine key (insert workflow_id row' instances) (
          event workflow_id row'.last_event_seq body (some step.id) at
          ∷ event workflow_id
              (row'.last_event_seq - 1)
              (step_was_started step.id step.type attempt)
              (some step.id)
              at
          ∷ events)
  unfolding seqs replayed
  attempt-IsFine step attempt body at n p h = record {
    numbered = rw lookup-insert (
        numbered-twice (str_eq workflow_id key) (seqs key events) (lookup key instances) row'
          (at_key (λ o. row'.last_event_seq ≡ last_seq o + 2) n) h.numbered);
    agrees = rw lookup-insert (
        agrees-twice (str_eq workflow_id key) (replayed key events) (lookup key instances) row' body
          (at_key
            (λ o.
              apply_to body (position_or_new (position o)) ≡ (row'.status, row'.current_step_id))
            p)
          h.agrees);
  }

-- A write that changes neither the position nor the sequence number needs no event.
same-hit {ℓ} :
    {A : Type ℓ} (f : Option WorkflowInstance → A) (hit : Bool) (row : Option WorkflowInstance)
    (row' : WorkflowInstance)
    → (hit ≡ true → f row ≡ f (some row'))
    → f row ≡ f (if hit then some row' else row)
same-hit f true row row' h = h refl
same-hit f false row row' h = refl

pub untold-IsFine :
    (key workflow_id : String) (instances : List (String × WorkflowInstance))
    (events : List EventRow) (row row' : WorkflowInstance)
    → lookup workflow_id instances ≡ some row
    → row'.last_event_seq ≡ row.last_event_seq
    → ◌≡◌ {A = Position} (row'.status, row'.current_step_id) (row.status, row.current_step_id)
    → IsFine key instances events
    → IsFine key (insert workflow_id row' instances) events
untold-IsFine key workflow_id instances events row row' found n p h =
    let before = lookup key instances in
    let hit = str_eq workflow_id key in
    record {
      numbered = rw lookup-insert (
          h.numbered
          ∙ ap countdown (
              same-hit last_seq hit before row' (
                at_key key workflow_id instances events (some row) row' found
                  (λ o. last_seq o ≡ last_seq (some row')) (sym n))));
      agrees = rw lookup-insert (
          h.agrees
          ∙ same-hit position hit before row' (
              at_key key workflow_id instances events (some row) row' found
                (λ o. position o ≡ position (some row')) (ap some (sym p))));
    }

abbrev pub FineDatabase : String → Database → Type 0
FineDatabase key db = IsFine key db.instances db.events

-- A row that passes a guard was found, and the guard holds of it.
pub row_where-found :
    (guard : WorkflowInstance → Bool) (found : Option WorkflowInstance) (row : WorkflowInstance)
    → row_where guard found ≡ some row
    → (found ≡ some row) × (guard row ≡ true)
row_where-found guard none row e = ground (arith, e)
row_where-found guard (some r) row e = guarded (guard r) refl e
  where
    guarded :
        (b : Bool)
        → guard r ≡ b
        → (if b then some r else none) ≡ some row
        → (some r ≡ some row) × (guard row ≡ true)
    guarded true g e' = (e', subst (λ o. guard (given o) ≡ true) e' g)
      where
        given : Option WorkflowInstance → WorkflowInstance
        given none = r
        given (some x) = x
    guarded false g e' = ground (arith, e')

-- What a guarded write keeps, if it keeps it for every row that the guard lets through.
pub write-keeps {ℓ} :
    (P : Database → Type ℓ) (found : Option WorkflowInstance) (guard : WorkflowInstance → Bool)
    (rejection : Rejection) (values : WorkflowInstance → WorkflowInstance)
    (log : WorkflowInstance → Database → Database) (workflow_id : String) (db : Database)
    → P db
    → ((row : WorkflowInstance)
        → found ≡ some row
        → guard row ≡ true
        → P (
            log
              (values row)
              (record db { instances = insert workflow_id (values row) db.instances })))
    → P (database_after db (write (row_where guard found) rejection values log workflow_id db))
write-keeps P found guard rejection values log workflow_id db kept step =
    of (row_where guard found) refl
  where
    of :
        (o : Option WorkflowInstance)
        → row_where guard found ≡ o
        → P (database_after db (write o rejection values log workflow_id db))
    of none e = unfold write in kept
    of (some row) e = unfold write in let (f, g) = row_where-found guard found row e in step row f g
