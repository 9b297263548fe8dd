-- ===== src/Audit/Order.antt =====
-- Whether the ledger stays a chain: `append` links the new record to the row that is last in the order
-- of (ts, audit_id), and the next verification puts the record where its own key belongs.
use plantlens.Prelude.{
  ℕ, ◌≡◌, ◌≢◌, refl, sym, ap, ◌∙◌, subst, String, true, false, some, List, [], ◌∷◌, ◌++◌, arith,
  eq_iff, All, all,
}
use plantlens.Prelude.Sorting.{sort-append_last, sort-append_first}
use plantlens.Audit.{
  Entry, AuditRecord, Primitives, ok, integrity_error, genesis_hash, wrong_hash_prev,
  compute_hash_self, verify_from, verify_chain, row_before, list_records_ordered, last_hash,
  get_head_hash, or_genesis, seal, assert_valid_chain, listed_after, append, list_verified,
  append_after, id_taken,
}
use plantlens.Audit.Chain.{IsChain}
use plantlens.Audit.Append.{next_record, append_accepts, accepted}

module _ {J : Type 0} (p : Primitives J) where
  end_hash : String → List (AuditRecord J) → String
  end_hash prev [] = prev
  end_hash prev (r ∷ rs) = end_hash r.hash_self rs

  or_genesis-some : (h : String) → h ≢ "" → or_genesis (some h) ≡ h
  or_genesis-some h ne = ground (arith, eq_iff h "", ne)

  or_genesis-last_hash :
      (prev : String) (r : AuditRecord J) (rs : List (AuditRecord J))
      → ((bytes : List ℕ) → p.sha256 bytes ≢ "")
      → IsChain p prev (r ∷ rs)
      → or_genesis (last_hash (r ∷ rs)) ≡ end_hash prev (r ∷ rs)
  unfolding end_hash compute_hash_self
  or_genesis-last_hash prev r [] ne c =
      or_genesis-some r.hash_self
        (λ e. ne (p.canonical_json r.entry prev ++ p.encode prev) (sym c.1 ∙ e))
  or_genesis-last_hash prev r (q ∷ rs) ne c = or_genesis-last_hash r.hash_self q rs ne c.2

  head_hash :
      (rs : List (AuditRecord J))
      → ((bytes : List ℕ) → p.sha256 bytes ≢ "")
      → IsChain p genesis_hash rs
      → or_genesis (last_hash rs) ≡ end_hash genesis_hash rs
  unfolding end_hash
  head_hash [] ne c = refl
  head_hash (r ∷ rs) ne c = or_genesis-last_hash genesis_hash r rs ne c

  IsChain-append :
      (prev : String) (rs : List (AuditRecord J)) (x : AuditRecord J)
      → IsChain p prev rs
      → IsChain p (end_hash prev rs) (x ∷ [])
      → IsChain p prev (rs ++ x ∷ [])
  unfolding end_hash
  IsChain-append prev [] x c d = d
  IsChain-append prev (r ∷ rs) x c d = (c.0, c.1, IsChain-append r.hash_self rs x c.2 d)

  sealed-IsChain : (entry : Entry J) (h : String) → IsChain p h (seal p entry h ∷ [])
  unfolding seal
  sealed-IsChain entry h = (refl, refl, tt)

  appended_last :
      (rows : List (AuditRecord J)) (x : AuditRecord J)
      → All (λ r. row_before x r ≡ false) rows
      → list_records_ordered (rows ++ x ∷ []) ≡ list_records_ordered rows ++ x ∷ []
  unfolding list_records_ordered
  appended_last rows x late = sort-append_last row_before rows x late

  chain_appended :
      (rows : List (AuditRecord J)) (entry : Entry J)
      → ((bytes : List ℕ) → p.sha256 bytes ≢ "")
      → IsChain p genesis_hash (list_records_ordered rows)
      → IsChain p genesis_hash (list_records_ordered rows ++ next_record p rows entry ∷ [])
  unfolding get_head_hash
  chain_appended rows entry ne c =
      IsChain-append genesis_hash (list_records_ordered rows) (next_record p rows entry) c (
        subst (λ h. IsChain p h (next_record p rows entry ∷ []))
          (head_hash (list_records_ordered rows) ne c)
          (sealed-IsChain entry (or_genesis (get_head_hash rows))))

  listed :
      (rows : List (AuditRecord J))
      → IsChain p genesis_hash (list_records_ordered rows)
      → all p.validates (list_records_ordered rows) ≡ true
      → list_verified p rows ≡ ok (list_records_ordered rows)
  unfolding list_verified
  listed rows c v =
      ap (λ o. listed_after p o (list_records_ordered rows)) (accepted p rows c) ∙ rw v refl

  all-append :
      (xs : List (AuditRecord J)) (x : AuditRecord J)
      → all p.validates xs ≡ true
      → p.validates x ≡ true
      → all p.validates (xs ++ x ∷ []) ≡ true
  all-append [] x h k = ground (arith, k)
  all-append (y ∷ xs) x h k = ground (arith, h, all-append xs x)

  -- Let the rows in the order of their keys be a chain, they and the record pass the validation, its id be
  -- new, its key not be before that of any row, and SHA-256 never give the empty text. Then `append` returns
  -- the record, the rows with it are a chain again, and `list_verified` returns the old rows in their
  -- order with the record at the end.
  pub append_in_order :
      (rows : List (AuditRecord J)) (entry : Entry J)
      → ((bytes : List ℕ) → p.sha256 bytes ≢ "")
      → IsChain p genesis_hash (list_records_ordered rows)
      → all p.validates (list_records_ordered rows) ≡ true
      → p.validates (next_record p rows entry) ≡ true
      → id_taken rows entry.audit_id ≡ false
      → All (λ r. row_before (next_record p rows entry) r ≡ false) rows
      → ((append p rows entry).0 ≡ ok (next_record p rows entry))
        × IsChain p genesis_hash (list_records_ordered (append p rows entry).1)
        × (list_verified p (append p rows entry).1
            ≡ ok (list_records_ordered rows ++ next_record p rows entry ∷ []))
  append_in_order rows entry ne c w v d late =
      let x = next_record p rows entry in
      let run : append p rows entry ≡ (ok x, rows ++ x ∷ []) = append_accepts p rows entry c v d in
      let order = appended_last rows x late in
      let chain = chain_appended rows entry ne c in
      let chain' = subst (IsChain p genesis_hash) (sym order) chain in
      rw (run) (
        refl,
        chain',
        listed (rows ++ x ∷ []) chain'
              (ap (all p.validates) order ∙ all-append (list_records_ordered rows) x w v)
            ∙ ap ok order,
      )

  refused :
      (rows : List (AuditRecord J)) (x : AuditRecord J)
      → x.hash_prev ≢ genesis_hash
      → assert_valid_chain p (x ∷ rows) ≡ integrity_error 0 wrong_hash_prev
  unfolding assert_valid_chain verify_chain verify_from
  refused rows x ne = ground (arith, eq_iff x.hash_prev genesis_hash)

  appended_first :
      (rows : List (AuditRecord J)) (x : AuditRecord J)
      → All (λ r. row_before x r ≡ true) rows
      → list_records_ordered (rows ++ x ∷ []) ≡ x ∷ list_records_ordered rows
  unfolding list_records_ordered
  appended_first rows x early = sort-append_first row_before rows x early

  refused_append :
      (rows : List (AuditRecord J)) (entry : Entry J) (i : ℕ)
      → assert_valid_chain p (list_records_ordered rows) ≡ integrity_error i wrong_hash_prev
      → append p rows entry ≡ (integrity_error i wrong_hash_prev, rows)
  unfolding append append_after
  refused_append rows entry i e = ap (λ o. append_after p o rows entry) e

  -- Let the rows in the order of their keys be a chain whose head hash is not the genesis hash, the
  -- record pass the validation, its id be new, and its key be before those of all rows. Then `append`
  -- returns the record, but from then on `list_verified` and every further `append` fail at index 0
  -- with the reason of a wrong `hash_prev`, and such an append leaves the rows as they are.
  pub append_out_of_order :
      (rows : List (AuditRecord J)) (entry : Entry J)
      → IsChain p genesis_hash (list_records_ordered rows)
      → or_genesis (get_head_hash rows) ≢ genesis_hash
      → p.validates (next_record p rows entry) ≡ true
      → id_taken rows entry.audit_id ≡ false
      → All (λ r. row_before (next_record p rows entry) r ≡ true) rows
      → ((append p rows entry).0 ≡ ok (next_record p rows entry))
        × (list_verified p (append p rows entry).1 ≡ integrity_error 0 wrong_hash_prev)
        × ((later : Entry J)
            → append p (append p rows entry).1 later
              ≡ (integrity_error 0 wrong_hash_prev, (append p rows entry).1))
  unfolding seal list_verified
  append_out_of_order rows entry c ne v d early =
      let x = next_record p rows entry in
      let run : append p rows entry ≡ (ok x, rows ++ x ∷ []) = append_accepts p rows entry c v d in
      let order = appended_first rows x early in
      let fails : assert_valid_chain p (list_records_ordered (rows ++ x ∷ []))
          ≡ integrity_error 0 wrong_hash_prev =
        ap (assert_valid_chain p) order ∙ refused (list_records_ordered rows) x ne in
      rw run (
        refl,
        ap (λ o. listed_after p o (list_records_ordered (rows ++ x ∷ []))) fails,
        λ later. refused_append (rows ++ x ∷ []) later 0 fails,
      )
