-- ===== src/Observability/Audit/Chain.antt =====
-- The chain that the writer makes is one that the verifier accepts (audit.py).
use ai_os.Prelude.{
  ℕ, ◌+◌, ◌<◌, ◌≡◌, refl, true, Option, none, some, List, [], ◌∷◌, ◌++◌, String, All, arith, eq_iff,
  eq_refl, ap, ◌∙◌, sym, subst,
}
use ai_os.Observability.Audit.{
  Content, AuditLogRecord, valid, same_hash, insert_by_seq, sort_by_seq, walk, verify_chain, latest,
  append_row, record_event, record_all,
}

-- Rows in turned order, in front of others.
unfoldable pub reverse_onto : List AuditLogRecord → List AuditLogRecord → List AuditLogRecord
reverse_onto [] done = done
reverse_onto (row ∷ rows) done = reverse_onto rows (row ∷ done)

abbrev pub head_hash : List AuditLogRecord → Option String
head_hash [] = none
head_hash (row ∷ rows) = some row.row_hash

-- Rows, the latest first, each with the hash of the one before it and of its own content.
unfoldable pub IsLinked : (Content → String) → List AuditLogRecord → Type 0
IsLinked digest [] = Unit
IsLinked digest (row ∷ rows) =
    (same_hash row.content.prev_hash (head_hash rows) ≡ true)
    × (digest row.content ≡ row.row_hash)
    × IsLinked digest rows

module _ (digest : Content → String) where
  IsLinked-rest :
      (rows done : List AuditLogRecord)
      → IsLinked digest (reverse_onto rows done)
      → IsLinked digest done
  unfolding reverse_onto IsLinked
  IsLinked-rest [] done h = h
  IsLinked-rest (row ∷ rows) done h = (IsLinked-rest rows (row ∷ done) h).2

  pub walk-IsLinked :
      (rows done : List AuditLogRecord)
      → IsLinked digest done
      → walk digest (head_hash done) rows ≡ valid
      → IsLinked digest (reverse_onto rows done)
  unfolding walk reverse_onto IsLinked
  walk-IsLinked [] done linked h = linked
  walk-IsLinked (row ∷ rows) done linked h =
      walk-IsLinked rows (row ∷ done)
        (ground (arith, h), ground (arith, h, eq_iff (digest row.content) row.row_hash), linked)
        (ground (arith, h))

  IsLinked-walk :
      (rows done : List AuditLogRecord)
      → IsLinked digest (reverse_onto rows done)
      → walk digest (head_hash done) rows ≡ valid
  unfolding walk reverse_onto IsLinked
  IsLinked-walk [] done h = refl
  IsLinked-walk (row ∷ rows) done h =
      let here = IsLinked-rest rows (row ∷ done) h in
      let rest = IsLinked-walk rows (row ∷ done) h in
      ground (arith, here.0, here.1, eq_iff (digest row.content) row.row_hash, rest)

reverse_onto-append :
    (rows done more : List AuditLogRecord)
    → reverse_onto rows (done ++ more) ≡ reverse_onto rows done ++ more
unfolding reverse_onto
reverse_onto-append [] done more = refl
reverse_onto-append (row ∷ rows) done more = reverse_onto-append rows (row ∷ done) more

All-reverse_onto :
    (P : AuditLogRecord → Type 0) (rows done : List AuditLogRecord)
    → All P rows
    → All P done
    → All P (reverse_onto rows done)
unfolding reverse_onto
All-reverse_onto P [] done h k = k
All-reverse_onto P (row ∷ rows) done h k = All-reverse_onto P rows (row ∷ done) h.1 (h.0, k)

insert_by_seq-last :
    (row : AuditLogRecord) (rows : List AuditLogRecord)
    → All (λ other. other.seq < row.seq) rows
    → insert_by_seq row rows ≡ rows ++ row ∷ []
unfolding insert_by_seq
insert_by_seq-last row [] h = refl
insert_by_seq-last row (other ∷ rows) h = ground (arith, h.0, insert_by_seq-last row rows h.1)

-- Each row has a higher number than all that stand after it.
IsFalling : List AuditLogRecord → Type 0
IsFalling [] = Unit
IsFalling (row ∷ rows) = All (λ other. other.seq < row.seq) rows × IsFalling rows

sort_by_seq-falling :
    (rows : List AuditLogRecord) → IsFalling rows → sort_by_seq rows ≡ reverse_onto rows []
unfolding sort_by_seq reverse_onto IsFalling
sort_by_seq-falling [] h = refl
sort_by_seq-falling (row ∷ rows) h =
    ap (insert_by_seq row) (sort_by_seq-falling rows h.1)
    ∙ insert_by_seq-last row (reverse_onto rows []) (All-reverse_onto _ rows [] h.0 tt)
    ∙ sym (reverse_onto-append rows [] (row ∷ []))

All-below :
    (a b : ℕ) (rows : List AuditLogRecord)
    → a < b
    → All (λ other. other.seq < a) rows
    → All (λ other. other.seq < b) rows
All-below a b [] lt h = tt
All-below a b (row ∷ rows) lt h = (omega (arith, h.0), All-below a b rows lt h.1)

module _ (digest : Content → String) where
  latest-falling :
      (row : AuditLogRecord) (rows : List AuditLogRecord)
      → IsFalling (row ∷ rows)
      → latest digest (row ∷ rows) ≡ some row
  unfolding latest IsFalling
  latest-falling row [] h = refl
  latest-falling row (other ∷ rows) h = ground (arith, latest-falling other rows h.1, h.0.0)

  append_row-fine :
      (gap : ℕ) (entry : Content) (row : AuditLogRecord) (rows : List AuditLogRecord)
      → IsFalling (row ∷ rows) × IsLinked digest (row ∷ rows)
      → let appended = append_row digest (some row) gap entry (row ∷ rows) in
        IsFalling appended × IsLinked digest appended
  unfolding append_row IsFalling IsLinked
  append_row-fine gap entry row rows (falling, linked) = (
    ((omega arith, All-below row.seq (row.seq + 1 + gap) rows (omega arith) falling.0), falling),
    (eq_refl row.row_hash, refl, linked),
  )

  first_row-fine :
      (gap : ℕ) (entry : Content)
      → IsLinked digest []
      → let appended = append_row digest (latest digest []) gap entry [] in
        IsFalling appended × IsLinked digest appended
  unfolding latest append_row IsFalling IsLinked
  first_row-fine gap entry linked = ((tt, tt), (refl, refl, linked))

  record_event-fine :
      (gap : ℕ) (entry : Content) (rows : List AuditLogRecord)
      → IsFalling rows × IsLinked digest rows
      → IsFalling (record_event digest gap entry rows)
        × IsLinked digest (record_event digest gap entry rows)
  unfolding record_event
  record_event-fine gap entry [] (falling, linked) = first_row-fine gap entry linked
  record_event-fine gap entry (row ∷ rows) (falling, linked) =
      rw (latest-falling row rows falling) (append_row-fine gap entry row rows (falling, linked))

  record_all-fine :
      (entries : List (ℕ × Content))
      → IsFalling (record_all digest entries) × IsLinked digest (record_all digest entries)
  unfolding record_all IsFalling IsLinked
  record_all-fine [] = (tt, tt)
  record_all-fine ((gap, entry) ∷ earlier) =
      record_event-fine gap entry (record_all digest earlier) (record_all-fine earlier)

append_nil : (rows : List AuditLogRecord) → rows ++ [] ≡ rows
append_nil [] = refl
append_nil (row ∷ rows) = ap (λ t. row ∷ t) (append_nil rows)

reverse_onto-reverse_onto :
    (rows done more : List AuditLogRecord)
    → reverse_onto (reverse_onto rows done) more ≡ reverse_onto done (rows ++ more)
unfolding reverse_onto
reverse_onto-reverse_onto [] done more = refl
reverse_onto-reverse_onto (row ∷ rows) done more = reverse_onto-reverse_onto rows (row ∷ done) more

turned_twice : (rows : List AuditLogRecord) → rows ≡ reverse_onto (reverse_onto rows []) []
unfolding reverse_onto
turned_twice rows = sym (reverse_onto-reverse_onto rows [] [] ∙ append_nil rows)

-- Whatever is recorded, with whatever gaps between the row numbers, the log verifies.
pub recorded_log_verifies :
    (digest : Content → String) (entries : List (ℕ × Content))
    → verify_chain digest (record_all digest entries) ≡ valid
unfolding verify_chain
recorded_log_verifies digest entries =
    let (falling, linked) = record_all-fine digest entries in
    let table = record_all digest entries in
    ap (walk digest none) (sort_by_seq-falling table falling)
    ∙ IsLinked-walk digest (reverse_onto table []) []
        (subst (IsLinked digest) (turned_twice table) linked)
