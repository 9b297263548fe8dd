-- ===== src/Audit.antt =====
-- apps/api/app/services/audit_chain.py over apps/api/app/db/repositories/audit.py: the hash-chained
-- ledger. The table is the list of its rows in the order of insertion; a row has the fields of its
-- record, so splitting a record into columns and putting it together again is left out. An instant is
-- a number of microseconds. JSON values, `json.dumps`, SHA-256 and the model's validation are
-- parameters. The append lock makes each append one step.
pub mod Chain
pub mod Append
pub mod Order
use plantlens.Prelude.{
  ℕ, zero, suc, ◌+◌, String, Bool, true, false, Option, none, some, List, [], ◌∷◌, ◌++◌, str_eq,
  ltb, ◌==◌, if◌then◌else◌, length, ◌≡◌, any, all,
}
use plantlens.Prelude.Sorting.{sort, str_lt}

-- The arguments of `append` without the hashes.
pub record Entry (J : Type 0) : Type 0 where
  pub audit_id : String
  pub ts : ℕ
  pub actor_type : String
  pub action : String
  pub entity_type : String
  pub actor_id : Option String
  pub actor_role : Option String
  pub entity_id : Option String
  pub plant_id : Option String
  pub before : Option J
  pub after : Option J
  pub reason : Option String
  pub request_id : Option String
  pub session_id : Option String
  pub source_ip : Option String

pub record AuditRecord (J : Type 0) : Type 0 where
  pub entry : Entry J
  pub hash_prev : String
  pub hash_self : String

-- What the service takes from its libraries: `canonical_json` is `json.dumps` of the record without
-- `hash_self`, `encode` and `sha256` are those of text and hashlib, `validates` is the pydantic check.
pub record Primitives (J : Type 0) : Type 0 where
  pub canonical_json : Entry J → String → List ℕ
  pub encode : String → List ℕ
  pub sha256 : List ℕ → String
  pub validates : AuditRecord J → Bool

abbrev pub genesis_hash : String
genesis_hash = "0000000000000000000000000000000000000000000000000000000000000000"

pub data BreakReason : Type 0 where
  wrong_hash_prev wrong_hash_self : BreakReason

pub record VerifyResult : Type 0 where
  pub valid : Bool
  pub checked_records : ℕ
  pub broken_index : Option ℕ
  pub reason : Option BreakReason

pub data Outcome (A : Type 0) : Type 0 where
  ok : A → Outcome A
  -- AuditIntegrityError
  integrity_error : ℕ → BreakReason → Outcome A
  -- pydantic's ValidationError
  validation_error : Outcome A
  -- the IntegrityError of the flush, when the unique `audit_id` is taken
  duplicate_audit_id : Outcome A

abbrev broken : ℕ → BreakReason → VerifyResult
broken index r = record {
  valid = false;
  checked_records = index;
  broken_index = some index;
  reason = some r;
}

-- The sort key (ts, audit_id) of `list_records_ordered`
abbrev pub row_before : {J : Type 0} → AuditRecord J → AuditRecord J → Bool
row_before a b =
    if a.entry.ts == b.entry.ts
    then str_lt a.entry.audit_id b.entry.audit_id
    else ltb a.entry.ts b.entry.ts

-- list_records_ordered
unfoldable pub list_records_ordered : {J : Type 0} → List (AuditRecord J) → List (AuditRecord J)
list_records_ordered rows = sort row_before rows

abbrev pub last_hash : {J : Type 0} → List (AuditRecord J) → Option String
last_hash [] = none
last_hash (r ∷ []) = some r.hash_self
last_hash (r ∷ q ∷ rest) = last_hash (q ∷ rest)

-- get_head_hash
unfoldable pub get_head_hash : {J : Type 0} → List (AuditRecord J) → Option String
get_head_hash rows = last_hash (list_records_ordered rows)

-- `head or GENESIS_HASH`
abbrev pub or_genesis : Option String → String
or_genesis none = genesis_hash
or_genesis (some h) = if str_eq h "" then genesis_hash else h

-- The column `audit_id` of the table is unique.
abbrev pub id_taken : {J : Type 0} → List (AuditRecord J) → String → Bool
id_taken rows audit_id = any (λ r. str_eq r.entry.audit_id audit_id) rows

module _ {J : Type 0} (p : Primitives J) where
  -- compute_hash_self
  unfoldable pub compute_hash_self : Entry J → String → String → String
  compute_hash_self entry own_prev hash_prev =
      p.sha256 (p.canonical_json entry own_prev ++ p.encode hash_prev)

  -- The loop of `verify_chain`.
  unfoldable pub verify_from : String → ℕ → List (AuditRecord J) → VerifyResult
  verify_from expected_prev index [] = record {
    valid = true;
    checked_records = index;
    broken_index = none;
    reason = none;
  }
  verify_from expected_prev index (r ∷ rest) =
      let next = verify_from r.hash_self (suc index) rest in
      if str_eq r.hash_prev expected_prev
      then (if str_eq r.hash_self (compute_hash_self r.entry r.hash_prev expected_prev)
          then next
          else broken index wrong_hash_self)
      else broken index wrong_hash_prev

  -- verify_chain
  unfoldable pub verify_chain : List (AuditRecord J) → VerifyResult
  verify_chain records = verify_from genesis_hash 0 records

  abbrev index_or_zero : Option ℕ → ℕ
  index_or_zero none = 0
  index_or_zero (some i) = i

  abbrev reason_or_default : Option BreakReason → BreakReason
  reason_or_default none = wrong_hash_self
  reason_or_default (some r) = r

  -- assert_valid_chain
  unfoldable pub assert_valid_chain : List (AuditRecord J) → Outcome (Unit {0})
  assert_valid_chain records =
      let result = verify_chain records in
      if result.valid
      then ok tt
      else integrity_error (index_or_zero result.broken_index) (reason_or_default result.reason)

  -- The record that `append` seals.
  unfoldable pub seal : Entry J → String → AuditRecord J
  seal entry hash_prev = record {
    entry = entry;
    hash_prev = hash_prev;
    hash_self = compute_hash_self entry hash_prev hash_prev;
  }

  -- The end of `append`: the pydantic check, then append_record.
  unfoldable pub append_sealed :
      List (AuditRecord J) → AuditRecord J → Outcome (AuditRecord J) × List (AuditRecord J)
  append_sealed rows sealed =
      if p.validates sealed
      then (if id_taken rows sealed.entry.audit_id
          then (duplicate_audit_id, rows)
          else (ok sealed, rows ++ sealed ∷ []))
      else (validation_error, rows)

  -- What `append` does after the check of the chain.
  unfoldable pub append_after :
      Outcome (Unit {0})
      → List (AuditRecord J)
      → Entry J
      → Outcome (AuditRecord J) × List (AuditRecord J)
  append_after (integrity_error i r) rows entry = (integrity_error i r, rows)
  append_after validation_error rows entry = (validation_error, rows)
  append_after duplicate_audit_id rows entry = (duplicate_audit_id, rows)
  append_after (ok _) rows entry = append_sealed rows (seal entry (or_genesis (get_head_hash rows)))

  -- AuditChainService.append: the record, and the rows behind it.
  unfoldable pub append :
      List (AuditRecord J) → Entry J → Outcome (AuditRecord J) × List (AuditRecord J)
  append rows entry = append_after (assert_valid_chain (list_records_ordered rows)) rows entry

  -- `model_validate` of every record
  abbrev pub validated : List (AuditRecord J) → Outcome (List (AuditRecord J))
  validated records = if all p.validates records then ok records else validation_error

  abbrev pub listed_after :
      Outcome (Unit {0}) → List (AuditRecord J) → Outcome (List (AuditRecord J))
  listed_after (integrity_error i r) records = integrity_error i r
  listed_after validation_error records = validation_error
  listed_after duplicate_audit_id records = duplicate_audit_id
  listed_after (ok _) records = validated records

  -- AuditChainService.list_verified
  unfoldable pub list_verified : List (AuditRecord J) → Outcome (List (AuditRecord J))
  list_verified rows =
      let records = list_records_ordered rows in listed_after (assert_valid_chain records) records
