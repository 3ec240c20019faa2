-- ===== src/Observability/Audit/Tampering.antt =====
-- What the verifier detects (audit.py).
use ai_os.Prelude.{
  ◌≡◌, refl, true, Option, none, some, List, [], ◌∷◌, map, String, All, arith, eq_iff, ap, ◌∙◌, sym,
}
use ai_os.Observability.Audit.{Content, AuditLogRecord, valid, same_hash, sort_by_seq, verify_chain}
use ai_os.Observability.Audit.Chain.{reverse_onto, head_hash, IsLinked, walk-IsLinked}

-- The rows of a log, the latest first.
abbrev pub latest_first : List AuditLogRecord → List AuditLogRecord
latest_first records = reverse_onto (sort_by_seq records) []

-- The contents of the rows.
abbrev pub contents : List AuditLogRecord → List Content
contents rows = map (λ (row : AuditLogRecord). row.content) rows

-- The two logs show no collision of the digest.
abbrev pub NoCollision : (Content → String) → List AuditLogRecord → List AuditLogRecord → Type 0
NoCollision digest xs ys =
    All
      (λ (x : AuditLogRecord).
        All (λ (y : AuditLogRecord). digest x.content ≡ digest y.content → x.content ≡ y.content)
          ys)
      xs

All-rest :
    (x : AuditLogRecord) (P : AuditLogRecord → AuditLogRecord → Type 0)
    (xs ys : List AuditLogRecord)
    → All (λ a. All (P a) (x ∷ ys)) xs
    → All (λ a. All (P a) ys) xs
All-rest x P [] ys h = tt
All-rest x P (a ∷ xs) ys h = (h.0.1, All-rest x P xs ys h.1)

same_hash-eq : (a b : Option String) → same_hash a b ≡ true → a ≡ b
same_hash-eq none none h = refl
same_hash-eq (some a) (some b) h = ap some ((eq_iff a b).0 h)
same_hash-eq none (some b) h = ground (arith, h)
same_hash-eq (some a) none h = ground (arith, h)

linked_contents :
    (digest : Content → String) (xs ys : List AuditLogRecord)
    → IsLinked digest xs
    → IsLinked digest ys
    → NoCollision digest xs ys
    → head_hash xs ≡ head_hash ys
    → contents xs ≡ contents ys
unfolding IsLinked
linked_contents digest [] [] lx ly apart same = refl
linked_contents digest [] (y ∷ ys) lx ly apart same = ground (arith, same)
linked_contents digest (x ∷ xs) [] lx ly apart same = ground (arith, same)
linked_contents digest (x ∷ xs) (y ∷ ys) lx ly apart same =
    let hashes : x.row_hash ≡ y.row_hash = ground (arith, same) in
    let here : x.content ≡ y.content = apart.0.0 (lx.1 ∙ hashes ∙ sym ly.1) in
    let before : head_hash xs ≡ head_hash ys =
      sym (same_hash-eq x.content.prev_hash (head_hash xs) lx.0)
      ∙ ap (λ (c : Content). c.prev_hash) here
      ∙ same_hash-eq y.content.prev_hash (head_hash ys) ly.0 in
    let rest = linked_contents digest xs ys lx.2 ly.2 (All-rest y _ xs ys apart.1) before in
    ap (λ c. c ∷ contents xs) here ∙ ap (λ t. y.content ∷ t) rest

-- A log cannot be rewritten under its last hash: two logs that both verify, end in the same hash and show no
-- collision of the digest hold the same contents in the same order. A changed, dropped, added or
-- reordered row is therefore detected, or changes the last hash.
pub last_hash_determines_log :
    (digest : Content → String) (log log' : List AuditLogRecord)
    → verify_chain digest log ≡ valid
    → verify_chain digest log' ≡ valid
    → NoCollision digest (latest_first log) (latest_first log')
    → head_hash (latest_first log) ≡ head_hash (latest_first log')
    → contents (latest_first log) ≡ contents (latest_first log')
unfolding verify_chain IsLinked
last_hash_determines_log digest log log' v v' apart same =
    linked_contents digest (latest_first log) (latest_first log')
      (walk-IsLinked digest (sort_by_seq log) [] tt v)
      (walk-IsLinked digest (sort_by_seq log') [] tt v') apart same
