-- ===== src/Observability/Audit.antt =====
-- kernel/src/ai_os_kernel/observability/audit.py: the hash chain of the audit log. `digest` stands for
-- `canonical_json_sha256`, which calls `json` and `hashlib`. An instant is a natural number.
pub mod Chain
pub mod Tampering
mod Examples
use ai_os.Prelude.{
  ℕ, ◌+◌, Bool, true, false, not, Option, none, some, List, [], ◌∷◌, String, str_eq, leb, ltb,
  if◌then◌else◌,
}
use ai_os.WorkflowEngine.Definition.{Json}

-- What `compute_row_hash` hashes.
pub record Content : Type 0 where
  pub audit_id : String
  pub event_type : String
  pub principal_id : String
  pub principal_type : String
  pub resource_type : Option String
  pub resource_id : Option String
  pub outcome : String
  pub detail : Json
  pub trace_id : Option String
  pub occurred_at : ℕ
  pub prev_hash : Option String

-- `AuditLogRecord`: the content with the row's number and hash.
pub record AuditLogRecord : Type 0 where
  pub seq : ℕ
  pub content : Content
  pub row_hash : String

pub data ChainVerificationResult : Type 0 where
  valid : ChainVerificationResult
  prev_hash_differs row_hash_differs : (broken_at_seq : ℕ) → ChainVerificationResult

abbrev pub same_hash : Option String → Option String → Bool
same_hash none none = true
same_hash (some a) (some b) = str_eq a b
same_hash _ _ = false

-- `sorted(records, key=lambda r: r.seq)`.
unfoldable pub insert_by_seq : AuditLogRecord → List AuditLogRecord → List AuditLogRecord
insert_by_seq row [] = row ∷ []
insert_by_seq row (other ∷ rows) =
    if leb row.seq other.seq then row ∷ other ∷ rows else other ∷ insert_by_seq row rows

unfoldable pub sort_by_seq : List AuditLogRecord → List AuditLogRecord
sort_by_seq [] = []
sort_by_seq (row ∷ rows) = insert_by_seq row (sort_by_seq rows)

module _ (digest : Content → String) where
  -- The `for` loop, over the rows that are left.
  unfoldable pub walk : Option String → List AuditLogRecord → ChainVerificationResult
  walk prev_hash [] = valid
  walk prev_hash (row ∷ rows) =
      if not (same_hash row.content.prev_hash prev_hash)
      then prev_hash_differs row.seq
      else if not (str_eq (digest row.content) row.row_hash)
      then row_hash_differs row.seq
      else walk (some row.row_hash) rows

  unfoldable pub verify_chain : List AuditLogRecord → ChainVerificationResult
  verify_chain records = walk none (sort_by_seq records)

  -- The row of the highest number (`ORDER BY seq DESC LIMIT 1`).
  unfoldable pub latest : List AuditLogRecord → Option AuditLogRecord
  latest [] = none
  latest (row ∷ rows) = elim (latest rows) [
    | none ↦ some row
    | some other ↦ if ltb other.seq row.seq then some row else some other
  ]

  abbrev pub hash_of : Option AuditLogRecord → Option String
  hash_of none = none
  hash_of (some row) = some row.row_hash

  -- The database numbers rows by a sequence, which never goes back and may leave gaps.
  abbrev pub next_seq : ℕ → Option AuditLogRecord → ℕ
  next_seq gap none = gap
  next_seq gap (some row) = row.seq + 1 + gap

  -- The insert, after the row that was the latest.
  unfoldable pub append_row :
      Option AuditLogRecord → ℕ → Content → List AuditLogRecord → List AuditLogRecord
  append_row previous gap entry rows =
      let content = record entry { prev_hash = hash_of previous } in
      let row : AuditLogRecord = record {
        seq = next_seq gap previous;
        content = content;
        row_hash = digest content;
      } in
      row ∷ rows

  -- `SqlAuditLogWriter.record`, with what it is called with and reads of the surroundings in `entry`;
  -- the `prev_hash` of `entry` is not read. The new row stands first.
  unfoldable pub record_event : ℕ → Content → List AuditLogRecord → List AuditLogRecord
  record_event gap entry rows = append_row (latest rows) gap entry rows

  -- A history of events, the latest first, on an empty table.
  unfoldable pub record_all : List (ℕ × Content) → List AuditLogRecord
  record_all [] = []
  record_all ((gap, entry) ∷ earlier) = record_event gap entry (record_all earlier)
