-- ===== src/Tests/Audit.antt =====
-- A ledger over a small digest in place of SHA-256.
use plantlens.Prelude.{
  ℕ, zero, suc, ◌+◌, ◌≡◌, ◌≢◌, ◌↔◌, sym, ◌∙◌, refl, String, Bool, true, false, Option, none, some,
  List, [], ◌∷◌, ◌++◌, arith, length, take, All, all, str_eq, eq_iff, inl, inr, ◌⊎◌, ◌<◌,
}
use plantlens.Audit.{
  row_before, Entry, AuditRecord, Primitives, ok, integrity_error, wrong_hash_prev, genesis_hash,
  seal, append, list_verified, list_records_ordered, verify_chain, verify_from, compute_hash_self,
  get_head_hash, or_genesis,
}
use plantlens.Audit.Chain.{
  IsChain, verify_chain_exact, chains_with_one_head, BreaksAt, Apart, AllApart,
}
use plantlens.Audit.Append.{next_record, append-Appended, Appended}
use plantlens.Audit.Order.{append_in_order, append_out_of_order}

abbrev digest : List ℕ → String
digest [] = "h0"
digest (zero ∷ bytes) = "h0"
digest (suc zero ∷ bytes) = "h1"
digest (suc (suc zero) ∷ bytes) = "h2"
digest (suc (suc (suc n)) ∷ bytes) = "h3"

abbrev primitives : Primitives ℕ
primitives = record {
  canonical_json = λ entry prev. entry.ts ∷ [];
  encode = λ text. [];
  sha256 = digest;
  validates = λ r. true;
}

differ : (a b : String) → str_eq a b ≡ false → a ≢ b
differ a b h e = ground (arith, eq_iff a b, h, e)

digest_not_empty : (bytes : List ℕ) → primitives.sha256 bytes ≢ ""
digest_not_empty [] = differ "h0" "" refl
digest_not_empty (zero ∷ bytes) = differ "h0" "" refl
digest_not_empty (suc zero ∷ bytes) = differ "h1" "" refl
digest_not_empty (suc (suc zero) ∷ bytes) = differ "h2" "" refl
digest_not_empty (suc (suc (suc n)) ∷ bytes) = differ "h3" "" refl

abbrev entry_at : String → ℕ → Entry ℕ
entry_at audit_id ts = record {
  audit_id = audit_id;
  ts = ts;
  actor_type = "human";
  action = "alarm.acknowledge";
  entity_type = "alarm";
  actor_id = none;
  actor_role = none;
  entity_id = none;
  plant_id = none;
  before = none;
  after = none;
  reason = none;
  request_id = none;
  session_id = none;
  source_ip = none;
}

abbrev row : String → ℕ → String → String → AuditRecord ℕ
row audit_id ts prev own = record {
  entry = entry_at audit_id ts;
  hash_prev = prev;
  hash_self = own;
}

-- The rows in the order of insertion, and of their keys.
abbrev rows : List (AuditRecord ℕ)
rows = row "a" 1 genesis_hash "h1" ∷ row "b" 2 "h1" "h2" ∷ []

ordered : list_records_ordered rows ≡ rows
unfolding list_records_ordered plantlens.Prelude.Sorting.sort plantlens.Prelude.Sorting.insort
ordered = refl

rows-IsChain : IsChain primitives genesis_hash (list_records_ordered rows)
unfolding list_records_ordered compute_hash_self plantlens.Prelude.Sorting.sort
    plantlens.Prelude.Sorting.insort
rows-IsChain = (refl, refl, (refl, refl, tt))

-- The second row with another hash of its predecessor.
abbrev forged : List (AuditRecord ℕ)
forged = row "a" 1 genesis_hash "h1" ∷ row "b" 2 "h3" "h2" ∷ []

forged_refused : (verify_chain primitives forged).broken_index ≡ some 1
unfolding verify_chain verify_from compute_hash_self
forged_refused = refl

verify_chain_exact_example :
    (((verify_chain primitives forged).valid ≡ true) ↔ IsChain primitives genesis_hash forged)
    × (IsChain primitives genesis_hash forged
        → (verify_chain primitives forged).checked_records ≡ length forged)
    × ((verify_chain primitives forged).valid ≡ false
        → (k : ℕ) × ((verify_chain primitives forged).broken_index ≡ some k)
          × ((verify_chain primitives forged).checked_records ≡ k)
          × BreaksAt primitives genesis_hash forged k)
verify_chain_exact_example = verify_chain_exact primitives forged

same-Apart : (r : AuditRecord ℕ) → Apart primitives r r
same-Apart r = record { no_collision = λ e. refl; readable = λ e. (refl, refl) }

rows-AllApart : AllApart primitives rows rows
rows-AllApart = (
  (
    same-Apart (row "a" 1 genesis_hash "h1"),
    (
      record {
        no_collision = λ e. absurd (differ "h1" "h2" refl e);
        readable = λ e. absurd (ground (arith, e));
      },
      tt,
    ),
  ),
  (
    (
      record {
        no_collision = λ e. absurd (differ "h2" "h1" refl e);
        readable = λ e. absurd (ground (arith, e));
      },
      (same-Apart (row "b" 2 "h1" "h2"), tt),
    ),
    tt,
  ),
)

chain : IsChain primitives genesis_hash rows
unfolding compute_hash_self
chain = (refl, refl, (refl, refl, tt))

chains_with_one_head_example : rows ≡ rows
chains_with_one_head_example =
    chains_with_one_head primitives genesis_hash genesis_hash rows rows chain chain rows-AllApart
      refl refl

append-Appended_example :
    Appended primitives rows
      (next_record primitives rows (entry_at "c" 3))
      (append primitives rows (entry_at "c" 3)).0
      (append primitives rows (entry_at "c" 3)).1
append-Appended_example = append-Appended primitives rows (entry_at "c" 3)

head_of_rows : or_genesis (get_head_hash rows) ≡ "h2"
unfolding get_head_hash list_records_ordered plantlens.Prelude.Sorting.sort
    plantlens.Prelude.Sorting.insort
head_of_rows = refl

appended_late : All (λ r. row_before (next_record primitives rows (entry_at "c" 3)) r ≡ false) rows
unfolding seal
appended_late = (refl, (refl, tt))

rows_valid : all primitives.validates (list_records_ordered rows) ≡ true
unfolding list_records_ordered plantlens.Prelude.Sorting.sort plantlens.Prelude.Sorting.insort
rows_valid = refl

append_in_order_example :
    ((append primitives rows (entry_at "c" 3)).0
      ≡ ok (next_record primitives rows (entry_at "c" 3)))
    × IsChain primitives genesis_hash
        (list_records_ordered (append primitives rows (entry_at "c" 3)).1)
    × (list_verified primitives (append primitives rows (entry_at "c" 3)).1
        ≡ ok (list_records_ordered rows ++ next_record primitives rows (entry_at "c" 3) ∷ []))
append_in_order_example =
    append_in_order primitives rows (entry_at "c" 3) digest_not_empty rows-IsChain rows_valid refl
      refl appended_late

appended_early : All (λ r. row_before (next_record primitives rows (entry_at "c" 0)) r ≡ true) rows
unfolding seal
appended_early = (refl, (refl, tt))

append_out_of_order_example :
    ((append primitives rows (entry_at "c" 0)).0
      ≡ ok (next_record primitives rows (entry_at "c" 0)))
    × (list_verified primitives (append primitives rows (entry_at "c" 0)).1
        ≡ integrity_error 0 wrong_hash_prev)
    × ((later : Entry ℕ)
        → append primitives (append primitives rows (entry_at "c" 0)).1 later
          ≡ (integrity_error 0 wrong_hash_prev, (append primitives rows (entry_at "c" 0)).1))
append_out_of_order_example =
    append_out_of_order primitives rows (entry_at "c" 0) rows-IsChain
      (λ e. differ "h2" genesis_hash refl (sym head_of_rows ∙ e)) refl refl appended_early
