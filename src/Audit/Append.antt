-- ===== src/Audit/Append.antt =====
-- What `append` does to the ledger, in order and out of order.
use plantlens.Prelude.{◌≡◌, inl, inr, refl, true, false, List, [], ◌∷◌, ◌++◌, arith, Bool-cases}
use plantlens.Audit.{
  Entry, AuditRecord, Primitives, Outcome, ok, integrity_error, validation_error, genesis_hash,
  list_records_ordered, get_head_hash, or_genesis, seal, assert_valid_chain, append, append_after,
  append_sealed, duplicate_audit_id, id_taken,
}
use plantlens.Audit.Chain.{IsChain, verify_chain_exact}

module _ {J : Type 0} (p : Primitives J) where
  -- The record that an append of the entry would seal.
  abbrev pub next_record : List (AuditRecord J) → Entry J → AuditRecord J
  next_record rows entry = seal p entry (or_genesis (get_head_hash rows))

  -- What an append that ends with this result has done to the rows.
  abbrev pub Appended :
      List (AuditRecord J) → AuditRecord J → Outcome (AuditRecord J) → List (AuditRecord J) → Type 0
  Appended rows sealed (ok r) rows' = (r ≡ sealed) × (rows' ≡ rows ++ sealed ∷ [])
  Appended rows sealed (integrity_error i b) rows' = rows' ≡ rows
  Appended rows sealed validation_error rows' = rows' ≡ rows
  Appended rows sealed duplicate_audit_id rows' = rows' ≡ rows

  append_sealed-Appended :
      (rows : List (AuditRecord J)) (sealed : AuditRecord J)
      → Appended rows sealed (append_sealed p rows sealed).0 (append_sealed p rows sealed).1
  unfolding append_sealed
  append_sealed-Appended rows sealed = elim (Bool-cases (p.validates sealed)) [
    | inr e ↦ rw e refl
    | inl e ↦ elim (Bool-cases (id_taken rows sealed.entry.audit_id)) [
      | inl d ↦ rw (e, d) refl
      | inr d ↦ rw (e, d) (refl, refl)
    ]
  ]

  append_after-Appended :
      (o : Outcome (Unit {0})) (rows : List (AuditRecord J)) (entry : Entry J)
      → Appended rows
          (next_record rows entry)
          (append_after p o rows entry).0
          (append_after p o rows entry).1
  unfolding append_after
  append_after-Appended (ok _) rows entry = append_sealed-Appended rows (next_record rows entry)
  append_after-Appended (integrity_error i b) rows entry = refl
  append_after-Appended validation_error rows entry = refl
  append_after-Appended duplicate_audit_id rows entry = refl

  -- An append either returns the sealed record, which then stands behind all the rows that were there,
  -- or it fails and leaves the rows as they were.
  pub append-Appended :
      (rows : List (AuditRecord J)) (entry : Entry J)
      → Appended rows (next_record rows entry) (append p rows entry).0 (append p rows entry).1
  unfolding append
  append-Appended rows entry =
      append_after-Appended (assert_valid_chain p (list_records_ordered rows)) rows entry

  pub accepted :
      (rows : List (AuditRecord J))
      → IsChain p genesis_hash (list_records_ordered rows)
      → assert_valid_chain p (list_records_ordered rows) ≡ ok tt
  unfolding assert_valid_chain
  accepted rows c = ground (arith, (verify_chain_exact p (list_records_ordered rows)).0.1 c)

  pub append_accepts :
      (rows : List (AuditRecord J)) (entry : Entry J)
      → IsChain p genesis_hash (list_records_ordered rows)
      → p.validates (next_record rows entry) ≡ true
      → id_taken rows entry.audit_id ≡ false
      → append p rows entry ≡ (ok (next_record rows entry), rows ++ next_record rows entry ∷ [])
  unfolding append append_after append_sealed seal
  append_accepts rows entry c v d = ground (arith, accepted rows c)
