-- ===== src/Audit/Chain.antt =====
-- What `verify_chain` decides, and what it says of the first broken record.
use plantlens.Prelude.{
  ℕ, suc, ◌+◌, ◌≡◌, ◌↔◌, inl, inr, refl, String, true, false, none, some, List, [], ◌∷◌, arith,
  str_eq, eq_iff, Bool-cases, length, take, ap, sym, ◌∙◌, ◌++◌, ◌<◌, All,
}
use plantlens.Audit.{
  AuditRecord, Primitives, genesis_hash, VerifyResult, compute_hash_self, verify_from, verify_chain,
  last_hash,
}

module _ {J : Type 0} (p : Primitives J) where
  -- Each record names the hash of the one before it, and its own hash is that of its contents.
  abbrev pub IsChain : String → List (AuditRecord J) → Type 0
  IsChain prev [] = Unit
  IsChain prev (r ∷ rest) =
      (r.hash_prev ≡ prev)
      × (r.hash_self ≡ compute_hash_self p r.entry prev prev)
      × IsChain r.hash_self rest

  verify_from-IsChain :
      (prev : String) (n : ℕ) (rs : List (AuditRecord J))
      → (verify_from p prev n rs).valid ≡ true
      → IsChain prev rs
  unfolding verify_from
  verify_from-IsChain prev n [] h = tt
  verify_from-IsChain prev n (r ∷ rs) h = (
    ground (arith, eq_iff r.hash_prev prev),
    ground (
      arith,
      eq_iff r.hash_prev prev,
      eq_iff r.hash_self (compute_hash_self p r.entry r.hash_prev prev),
    ),
    verify_from-IsChain r.hash_self (suc n) rs (ground arith),
  )

  IsChain-verify_from :
      (prev : String) (n : ℕ) (rs : List (AuditRecord J))
      → IsChain prev rs
      → verify_from p prev n rs ≡ record {
        valid = true;
        checked_records = n + length rs;
        broken_index = none;
        reason = none;
      }
  unfolding verify_from
  IsChain-verify_from prev n [] h = ground arith
  IsChain-verify_from prev n (r ∷ rs) h = ground (
    arith,
    IsChain-verify_from r.hash_self (suc n) rs,
    eq_iff r.hash_prev prev,
    eq_iff r.hash_self (compute_hash_self p r.entry r.hash_prev prev),
  )

  -- The report of a broken chain names the first record that does not fit.
  pub record BreaksAt (prev : String) (rs : List (AuditRecord J)) (k : ℕ) : Type 0 where
    pub in_range : k < length rs
    pub before : IsChain prev (take k rs)
    pub at : ¬ IsChain prev (take (suc k) rs)

  verify_from-BreaksAt :
      (prev : String) (n : ℕ) (rs : List (AuditRecord J))
      → (verify_from p prev n rs).valid ≡ false
      → (k : ℕ) × ((verify_from p prev n rs).broken_index ≡ some (n + k))
        × ((verify_from p prev n rs).checked_records ≡ n + k)
        × BreaksAt prev rs k
  unfolding verify_from
  verify_from-BreaksAt prev n [] h = ground arith
  verify_from-BreaksAt prev n (r ∷ rs) h = elim (Bool-cases (str_eq r.hash_prev prev)) [
    | inr e ↦ (
      0,
      ground arith,
      ground arith,
      record {
        in_range = omega arith;
        before = tt;
        at = λ c. ground (arith, eq_iff r.hash_prev prev, c.0);
      },
    )
    | inl e ↦
        elim (Bool-cases (str_eq r.hash_self (compute_hash_self p r.entry r.hash_prev prev))) [
          | inr d ↦ (
            0,
            ground arith,
            ground arith,
            record {
              in_range = omega arith;
              before = tt;
              at = λ c. ground (
                arith,
                eq_iff r.hash_self (compute_hash_self p r.entry r.hash_prev prev),
                c.0,
                c.1,
              );
            },
          )
          | inl d ↦
              let (k, index, checked, b) =
                verify_from-BreaksAt r.hash_self (suc n) rs (ground arith) in
              (
                suc k,
                ground arith,
                ground arith,
                record {
                  in_range = omega (arith, b.in_range);
                  before = (
                    (eq_iff r.hash_prev prev).0 e,
                    ground (
                      arith,
                      eq_iff r.hash_prev prev,
                      eq_iff r.hash_self (compute_hash_self p r.entry r.hash_prev prev),
                    ),
                    b.before,
                  );
                  at = λ c. b.at c.2;
                },
              )
        ]
  ]

  -- `verify_chain` accepts exactly the chains from the genesis hash, with the number of their records;
  -- it refuses any other list with the index of the first record that does not fit, behind as many
  -- records that do.
  pub verify_chain_exact :
      (rs : List (AuditRecord J))
      → (((verify_chain p rs).valid ≡ true) ↔ IsChain genesis_hash rs)
        × (IsChain genesis_hash rs → (verify_chain p rs).checked_records ≡ length rs)
        × ((verify_chain p rs).valid ≡ false
            → (k : ℕ) × ((verify_chain p rs).broken_index ≡ some k)
              × ((verify_chain p rs).checked_records ≡ k)
              × BreaksAt genesis_hash rs k)
  unfolding verify_chain
  verify_chain_exact rs = (
    (
      verify_from-IsChain genesis_hash 0 rs,
      λ c. ap (λ (v : VerifyResult). v.valid) (IsChain-verify_from genesis_hash 0 rs c),
    ),
    λ c. omega (
      arith,
      ap (λ (v : VerifyResult). v.checked_records) (IsChain-verify_from genesis_hash 0 rs c),
    ),
    λ h.
        let (k, index, checked, b) = verify_from-BreaksAt genesis_hash 0 rs h in
        (k, ground arith, omega arith, b),
  )

module _ {J : Type 0} (p : Primitives J) where
  -- The bytes whose hash seals the record
  abbrev pub sealed_bytes : AuditRecord J → List ℕ
  sealed_bytes r = p.canonical_json r.entry r.hash_prev ++ p.encode r.hash_prev

  -- Between the two lists SHA-256 has no collision, and the sealed bytes tell the contents.
  pub record Apart (r q : AuditRecord J) : Type 0 where
    pub no_collision :
        p.sha256 (sealed_bytes r) ≡ p.sha256 (sealed_bytes q) → sealed_bytes r ≡ sealed_bytes q
    pub readable :
        sealed_bytes r ≡ sealed_bytes q → (r.entry ≡ q.entry) × (r.hash_prev ≡ q.hash_prev)

  abbrev pub AllApart : List (AuditRecord J) → List (AuditRecord J) → Type 0
  AllApart rs qs = All (λ r. All (λ q. Apart r q) qs) rs

  drop_first :
      (q : AuditRecord J) (rs qs : List (AuditRecord J)) → AllApart rs (q ∷ qs) → AllApart rs qs
  drop_first q [] qs h = tt
  drop_first q (r ∷ rs) qs h = (h.0.1, drop_first q rs qs h.1)

  seal_lem :
      (prev : String) (r : AuditRecord J)
      → r.hash_prev ≡ prev
      → r.hash_self ≡ compute_hash_self p r.entry prev prev
      → r.hash_self ≡ p.sha256 (sealed_bytes r)
  unfolding compute_hash_self
  seal_lem prev r e s = s ∙ ap (λ h. p.sha256 (p.canonical_json r.entry h ++ p.encode h)) (sym e)

  -- Two records that are sealed with one hash are one.
  same_record :
      (a b : String) (r q : AuditRecord J) (rs qs : List (AuditRecord J))
      → IsChain p a (r ∷ rs)
      → IsChain p b (q ∷ qs)
      → Apart r q
      → r.hash_self ≡ q.hash_self
      → r ≡ q
  same_record a b r q rs qs ca cb n e =
      let bytes = n.no_collision (sym (seal_lem a r ca.0 ca.1) ∙ (e ∙ seal_lem b q cb.0 cb.1)) in
      let (entry, prev) = n.readable bytes in record_path r q entry prev e
    where
      record_path :
          (r q : AuditRecord J)
          → r.entry ≡ q.entry
          → r.hash_prev ≡ q.hash_prev
          → r.hash_self ≡ q.hash_self
          → r ≡ q
      record_path r q x y z = cc (x, y, z)

  -- Two chains of one length with one head hash are equal, if between their records SHA-256 has no collision
  -- and the bytes that are hashed tell the contents and the previous hash.
  pub chains_with_one_head :
      (a b : String) (rs qs : List (AuditRecord J))
      → IsChain p a rs
      → IsChain p b qs
      → AllApart rs qs
      → length rs ≡ length qs
      → last_hash rs ≡ last_hash qs
      → rs ≡ qs
  chains_with_one_head a b [] [] ca cb n l e = refl
  chains_with_one_head a b [] (q ∷ qs) ca cb n l e = absurd (omega arith)
  chains_with_one_head a b (r ∷ rs) [] ca cb n l e = absurd (omega arith)
  chains_with_one_head a b (r ∷ []) (q ∷ []) ca cb n l e =
      ap (λ x. x ∷ []) (same_record a b r q [] [] ca cb n.0.0 (ground (arith, e)))
  chains_with_one_head a b (r ∷ []) (q ∷ q' ∷ qs) ca cb n l e = absurd (omega arith)
  chains_with_one_head a b (r ∷ r' ∷ rs) (q ∷ []) ca cb n l e = absurd (omega arith)
  chains_with_one_head a b (r ∷ r' ∷ rs) (q ∷ q' ∷ qs) ca cb n l e =
      let tails =
        chains_with_one_head r.hash_self q.hash_self (r' ∷ rs) (q' ∷ qs) ca.2 cb.2
          (drop_first q (r' ∷ rs) (q' ∷ qs) n.1) (omega arith) e in
      let heads : r ≡ q =
        same_record a b r q (r' ∷ rs) (q' ∷ qs) ca cb n.0.0 (ground (arith, tails, ca.2, cb.2)) in
      ground arith
