-- ===== src/Observability/Audit/Examples.antt =====
-- A log of two events, under a digest that tells events apart by their id.
use ai_os.Prelude.{ℕ, ◌≡◌, refl, none, List, [], ◌∷◌, String}
use ai_os.WorkflowEngine.Definition.{null}
use ai_os.Observability.Audit.{
  Content, AuditLogRecord, valid, verify_chain, walk, sort_by_seq, insert_by_seq, record_all,
}
use ai_os.Observability.Audit.Chain.{recorded_log_verifies, reverse_onto}
use ai_os.Observability.Audit.Tampering.{last_hash_determines_log, latest_first, contents}

abbrev event : String → Content
event id = record {
  audit_id = id;
  event_type = "login";
  principal_id = "ada";
  principal_type = "user";
  resource_type = none;
  resource_id = none;
  outcome = "success";
  detail = null;
  trace_id = none;
  occurred_at = 5;
  prev_hash = none;
}

abbrev by_id : Content → String
by_id c = c.audit_id

abbrev entries : List (ℕ × Content)
entries = (3, event "b") ∷ (0, event "a") ∷ []

recorded_log_verifies_example : verify_chain by_id (record_all by_id entries) ≡ valid
recorded_log_verifies_example = recorded_log_verifies by_id entries

abbrev log : List AuditLogRecord
log = record { seq = 7; content = event "a"; row_hash = "a" } ∷ []

abbrev log' : List AuditLogRecord
log' = record { seq = 9; content = event "a"; row_hash = "a" } ∷ []

last_hash_determines_log_example : contents (latest_first log) ≡ contents (latest_first log')
unfolding verify_chain walk sort_by_seq insert_by_seq reverse_onto
last_hash_determines_log_example =
    last_hash_determines_log by_id log log' refl refl (((λ e. refl), tt), tt) refl
