-- ===== src/WorkflowEngine/Approvals/Decided.antt =====
-- What a decision that `ApprovalService.decide` of human_approval.py records is, and what it writes.
use ai_os.Prelude.{
  ◌≡◌, ◌+◌, ◌∷◌, refl, subst, true, Option, none, some, List, String, lookup, insert,
  lookup-insert_self, if_cases,
}
use ai_os.PromptEngine.{codes}
use ai_os.WorkflowEngine.Instance.{
  WorkflowInstance, is_waiting, running, waiting_for_human, state_transitioned,
}
use ai_os.WorkflowEngine.Repository.{Clock, write, row_where, creation_error}
use ai_os.WorkflowEngine.Repository.Statuses.{resume, resumed_values, log_decision}
use ai_os.SecurityManager.{Principal, is_authorized_to_decide_approval, resolve_effective_roles}
use ai_os.WorkflowEngine.Approvals.{
  approved, rejected, Decision, approve, reject, Approval, Approvals, Recorded, recorded, refused,
  blank_principal, is_blank, is_pending, decided, decision_reason, decide_and_resume, decide_row,
  decide,
}
use ai_os.WorkflowEngine.Approvals.Service.{decide_as, decide_approval}

module _ (approval_id : String) (decision : Decision) (comment : Option String) (clock : Clock)
    (seen tables : Approvals) where
  -- What is so of a decision that a principal recorded, with its effective roles.
  abbrev pub Decides : Principal → Recorded → Type 0
  Decides principal (refused e) = Unit
  Decides principal (recorded written row) =
      (read old : Approval) × (instance : WorkflowInstance) × (reason : String) × (lookup
          approval_id seen.approvals
        ≡ some read)
      × (is_authorized_to_decide_approval principal read.approval_class ≡ true)
      × (lookup approval_id tables.approvals ≡ some old)
      × (is_pending old.status ≡ true)
      × (row ≡ record old {
        status = elim decision [ approve ↦ approved | reject ↦ rejected ];
        decided_by = some principal.principal_id;
        decision_comment = comment;
        decided_at = some clock.process;
      })
      × (written.approvals ≡ insert approval_id row tables.approvals)
      × (lookup old.workflow_id tables.database.instances ≡ some instance)
      × (is_waiting instance.status ≡ true)
      × (lookup old.workflow_id written.database.instances
          ≡ some (record instance {
            status = running;
            last_event_seq = instance.last_event_seq + 1;
            updated_at = clock.database;
          }))
      × (written.database.events
          ≡ record {
            workflow_id = old.workflow_id;
            seq = instance.last_event_seq + 1;
            body = state_transitioned waiting_for_human running reason none;
            step_id = none;
            occurred_at = clock.process;
          }
            ∷ tables.database.events)

  module _ (principal : Principal) (read : Approval)
      (is_read : lookup approval_id seen.approvals ≡ some read)
      (may : is_authorized_to_decide_approval principal read.approval_class ≡ true) where
    resume-Decides :
        (old : Approval) (reason : String) (found : Option WorkflowInstance)
        → lookup approval_id tables.approvals ≡ some old
        → is_pending old.status ≡ true
        → lookup old.workflow_id tables.database.instances ≡ found
        → Decides principal (
            decide_and_resume approval_id
              (decided decision principal.principal_id comment clock.process old)
              (write
                (row_where (λ row. is_waiting row.status) found)
                creation_error
                (resumed_values clock)
                (log_decision old.workflow_id reason clock)
                old.workflow_id
                tables.database)
              tables)
    unfolding decide_and_resume write
    resume-Decides old reason none e p f = tt
    resume-Decides old reason (some instance) e p f =
        if_cases
          (λ (o : Option WorkflowInstance). Decides principal (
            decide_and_resume approval_id
              (decided decision principal.principal_id comment clock.process old)
              (write o creation_error (resumed_values clock)
                (log_decision old.workflow_id reason clock) old.workflow_id tables.database)
              tables))
          (is_waiting instance.status)
          (λ t. (
            read,
            old,
            instance,
            reason,
            is_read,
            may,
            e,
            p,
            refl,
            refl,
            f,
            t,
            lookup-insert_self old.workflow_id (resumed_values clock instance)
                tables.database.instances,
            refl,
          ))
          (λ _. tt)

    decide_row-Decides :
        (found : Option Approval)
        → lookup approval_id tables.approvals ≡ found
        → Decides principal
            (decide_row found approval_id principal.principal_id decision comment clock tables)
    unfolding decide_row resume
    decide_row-Decides none e = tt
    decide_row-Decides (some old) e =
        if_cases (Decides principal) (is_pending old.status)
          (λ p.
            resume-Decides old (decision_reason approval_id principal.principal_id decision)
              (lookup old.workflow_id tables.database.instances) e p refl)
          (λ _. tt)

    decide-Decides :
        Decides principal (decide approval_id principal.principal_id decision comment clock tables)
    unfolding decide
    decide-Decides =
        if_cases {first = refused blank_principal} (Decides principal)
          (is_blank (codes principal.principal_id)) (λ _. tt)
          (λ _. decide_row-Decides (lookup approval_id tables.approvals) refl)

  decide_as-Decides :
      (principal : Principal) (found : Option Approval)
      → lookup approval_id seen.approvals ≡ found
      → Decides principal (decide_as found principal approval_id decision comment clock tables)
  unfolding decide_as
  decide_as-Decides principal none e = tt
  decide_as-Decides principal (some read) e =
      if_cases (Decides principal) (is_authorized_to_decide_approval principal read.approval_class)
        (λ may. decide-Decides principal read e may) (λ _. tt)

  pub decide_approval-Decides :
      (principal : Principal) (granted : Option (List String))
      → Decides
          (resolve_effective_roles principal granted)
          (decide_approval approval_id principal granted decision comment clock seen tables)
  unfolding decide_approval
  decide_approval-Decides principal granted =
      decide_as-Decides (resolve_effective_roles principal granted)
        (lookup approval_id seen.approvals) refl

-- A decision that `ApprovalService.decide` records is of a principal whose roles, the granted ones included, authorise it for
-- the class that it read of the approval. It finds the approval pending and its workflow waiting for a human; of the approvals
-- it writes the decision, the principal's id, the comment and the time to this one's row; and in the same transaction it moves
-- the workflow to running at the next sequence number, under which the log has the transition.
pub decision_resumes :
    (approval_id : String) (principal : Principal) (granted : Option (List String))
    (decision : Decision) (comment : Option String) (clock : Clock)
    (seen tables written : Approvals) (row : Approval)
    → decide_approval approval_id principal granted decision comment clock seen tables
      ≡ recorded written row
    → (read old : Approval) × (instance : WorkflowInstance) × (reason : String) × (lookup
          approval_id seen.approvals
        ≡ some read)
      × (is_authorized_to_decide_approval
            (resolve_effective_roles principal granted)
            read.approval_class
          ≡ true)
      × (lookup approval_id tables.approvals ≡ some old)
      × (is_pending old.status ≡ true)
      × (row ≡ record old {
        status = elim decision [ approve ↦ approved | reject ↦ rejected ];
        decided_by = some principal.principal_id;
        decision_comment = comment;
        decided_at = some clock.process;
      })
      × (written.approvals ≡ insert approval_id row tables.approvals)
      × (lookup old.workflow_id tables.database.instances ≡ some instance)
      × (is_waiting instance.status ≡ true)
      × (lookup old.workflow_id written.database.instances
          ≡ some (record instance {
            status = running;
            last_event_seq = instance.last_event_seq + 1;
            updated_at = clock.database;
          }))
      × (written.database.events
          ≡ record {
            workflow_id = old.workflow_id;
            seq = instance.last_event_seq + 1;
            body = state_transitioned waiting_for_human running reason none;
            step_id = none;
            occurred_at = clock.process;
          }
            ∷ tables.database.events)
unfolding resolve_effective_roles
decision_resumes approval_id principal none decision comment clock seen tables written row e =
    subst
      (Decides approval_id decision comment clock seen tables
        (resolve_effective_roles principal none))
      e (decide_approval-Decides approval_id decision comment clock seen tables principal none)
decision_resumes approval_id principal (some roles) decision comment clock seen tables written row
      e =
    subst
      (Decides approval_id decision comment clock seen tables
        (resolve_effective_roles principal (some roles)))
      e
      (decide_approval-Decides approval_id decision comment clock seen tables principal
        (some roles))
