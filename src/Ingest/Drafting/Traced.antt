-- ===== src/Ingest/Drafting/Traced.antt =====
-- The ids that the gates put into quarantine.
use plantlens.Prelude.{
  String, Bool, true, false, Option, none, some, List, [], ◌∷◌, ◌++◌, ◌&&◌, ◌||◌, ◌≡◌, ◌⊎◌, refl,
  sym, ap, ◌∙◌, arith, str_eq, eq_iff, any, filter, map, if◌then◌else◌, FloatOps, Bool-cases, inl,
  inr,
}
use mathlib.Core.List.{Memᴰ}
use text.Mathlib.Text.{starts_with}
use plantlens.Prelude.Dict.{contains}
use plantlens.Ingest.{
  NormalizedRecord, GateIssue, QuarantineRecord, quarantine_from_gate_issue, blocking,
  should_quarantine, check_schema, schema_quarantine,
}
use plantlens.Ingest.Truth.{
  MappingCandidate, id_if, Sieve, sift, sift_all, candidate_ids, reviewed,
  quarantine_from_mapping_candidate, should_quarantine_truth, check_truth,
}
use plantlens.Ingest.Drafting.{with_id, quarantined_records, quarantined_raws, open_candidates}

pub any_mem :
    {A : Type 0} (p : A → Bool) (x : A) (xs : List A) → Memᴰ x xs → p x ≡ true → any p xs ≡ true
any_mem p x [] m h = elim m [ ]
any_mem p x (y ∷ xs) (Memᴰ.head e) h = ground (arith, ap p e, h)
any_mem p x (y ∷ xs) (Memᴰ.tail m) h = ground (arith, any_mem p x xs m h)

pub any_weaken :
    {A : Type 0} (p q : A → Bool)
    → ((x : A) → p x ≡ true → q x ≡ true)
    → (xs : List A) → any p xs ≡ true
    → any q xs ≡ true
any_weaken p q w [] h = h
any_weaken p q w (x ∷ xs) h = ground (arith, h, w x, any_weaken p q w xs)

pub filter_mem :
    {A : Type 0} (p : A → Bool) (x : A) (xs : List A)
    → Memᴰ x xs
    → p x ≡ true
    → Memᴰ x (filter p xs)
filter_mem p x [] m h = elim m [ ]
filter_mem p x (y ∷ xs) (Memᴰ.head e) h = rw (ap p (sym e) ∙ h) (Memᴰ.head e)
filter_mem p x (y ∷ xs) (Memᴰ.tail m) h = elim (Bool-cases (p y)) [
  | inl e ↦ rw e (Memᴰ.tail (filter_mem p x xs m h))
  | inr e ↦ rw e (filter_mem p x xs m h)
]

id_or :
    (o : Option String) (x : String) (all xs ys : List String)
    → contains x all ≡ (contains x xs || contains x ys)
    → contains x (with_id o all) ≡ (contains x (with_id o xs) || contains x ys)
id_or none x all xs ys h = h
id_or (some i) x all xs ys h = ground (arith, h)

pub records-append :
    (x : String) (a b : List QuarantineRecord)
    → contains x (quarantined_records (a ++ b))
      ≡ (contains x (quarantined_records a) || contains x (quarantined_records b))
records-append x [] b = refl
records-append x (q ∷ a) b =
    id_or q.record_id x (quarantined_records (a ++ b)) (quarantined_records a)
      (quarantined_records b) (records-append x a b)

pub raws-append :
    (x : String) (a b : List QuarantineRecord)
    → contains x (quarantined_raws (a ++ b))
      ≡ (contains x (quarantined_raws a) || contains x (quarantined_raws b))
raws-append x [] b = refl
raws-append x (q ∷ a) b =
    id_or q.raw_id x (quarantined_raws (a ++ b)) (quarantined_raws a) (quarantined_raws b)
      (raws-append x a b)

id_if_lem :
    (b : Bool) (id x : String) (ids rest : List String)
    → (contains x ids ≡ true → contains x rest ≡ true)
    → contains x (if b then id ∷ ids else ids) ≡ true
    → contains x (with_id (id_if b id) rest) ≡ true
id_if_lem true id x ids rest w h = ground (arith, h, w)
id_if_lem false id x ids rest w h = w h

-- The ids that candidates reject are in the quarantine that they make.
pub candidate_records :
    (x : String) (cs : List MappingCandidate)
    → contains x (candidate_ids "nrm_" cs) ≡ true
    → contains x (quarantined_records (map quarantine_from_mapping_candidate cs)) ≡ true
candidate_records x [] h = h
candidate_records x (c ∷ cs) h =
    id_if_lem (starts_with c.source_record_id "nrm_") c.source_record_id x (candidate_ids "nrm_" cs)
      _ (candidate_records x cs) h

pub candidate_raws :
    (x : String) (cs : List MappingCandidate)
    → contains x (candidate_ids "raw_" cs) ≡ true
    → contains x (quarantined_raws (map quarantine_from_mapping_candidate cs)) ≡ true
candidate_raws x [] h = h
candidate_raws x (c ∷ cs) h =
    id_if_lem (starts_with c.source_record_id "raw_") c.source_record_id x (candidate_ids "raw_" cs)
      _ (candidate_raws x cs) h

-- Open candidates for a review are candidates for a review.
pub open_reviewed :
    (start x : String) (cs : List MappingCandidate)
    → contains x (candidate_ids start (open_candidates cs)) ≡ true
    → contains x (candidate_ids start (reviewed cs)) ≡ true
open_reviewed start x [] h = h
open_reviewed start x (c ∷ cs) h = ground (arith, h, open_reviewed start x cs)

module _ {R : Type 0} where
  block_lem :
      (test : GateIssue → Bool) (r : NormalizedRecord R) (is : List GateIssue)
      → any test is ≡ true
      → contains r.record_id
          (quarantined_records (map (quarantine_from_gate_issue r) (filter test is)))
        ≡ true
  block_lem test r [] h = absurd (ground (arith, h))
  block_lem test r (i ∷ is) h = elim (Bool-cases (test i)) [
    | inl e ↦ rw e (ground (arith, eq_iff r.record_id r.record_id))
    | inr e ↦ rw e (block_lem test r is (ground (arith, h, e)))
  ]

module _ {R : Type 0} ⦃f : FloatOps R⦄ where
  pub schema_lem :
      (r : NormalizedRecord R) (rs : List (NormalizedRecord R))
      → Memᴰ r rs
      → any should_quarantine (check_schema r) ≡ true
      → contains r.record_id (quarantined_records (schema_quarantine rs)) ≡ true
  unfolding schema_quarantine
  schema_lem r [] m h = elim m [ ]
  schema_lem r (y ∷ rs) (Memᴰ.head e) h =
      let here : contains r.record_id
            (quarantined_records (blocking should_quarantine y (check_schema y)))
          ≡ true =
        ap
          (λ z.
            contains r.record_id
              (quarantined_records (blocking should_quarantine z (check_schema z))))
          (sym e)
        ∙ block_lem should_quarantine r (check_schema r) h in
      records-append r.record_id (blocking should_quarantine y (check_schema y))
        (schema_quarantine rs)
      ∙ ground (arith, here)
  schema_lem r (y ∷ rs) (Memᴰ.tail m) h =
      records-append r.record_id (blocking should_quarantine y (check_schema y))
        (schema_quarantine rs)
      ∙ ground (arith, schema_lem r rs m h)

  module _ (record_ids raw_ids : List String) where
    -- The ids of a quarantine: those of its records or those of its raw records
    module _ (ids : List QuarantineRecord → List String)
        (ids-append : (x : String) (a b : List QuarantineRecord)
          → contains x (ids (a ++ b)) ≡ (contains x (ids a) || contains x (ids b))) where
      -- A step keeps what is in quarantine, and rejects a record for the candidates' sake or into quarantine.
      sift-keeps :
          (r : NormalizedRecord R) (s : Sieve) (x : String)
          → contains x (ids s.quarantine) ≡ true
          → contains x (ids (sift record_ids raw_ids r s).quarantine) ≡ true
      unfolding sift
      sift-keeps r s x h = ground (
        arith,
        h,
        ids-append x s.quarantine (blocking should_quarantine_truth r (check_truth r s.seen_tags)),
      )

      pub sift_all-keeps :
          (rs : List (NormalizedRecord R)) (s : Sieve) (x : String)
          → contains x (ids s.quarantine) ≡ true
          → contains x (ids (sift_all record_ids raw_ids rs s).quarantine) ≡ true
      unfolding sift_all
      sift_all-keeps [] s x h = h
      sift_all-keeps (r ∷ rs) s x h =
          sift_all-keeps rs (sift record_ids raw_ids r s) x (sift-keeps r s x h)

    -- The candidates reject the record, or it is in quarantine.
    abbrev pub traced : List QuarantineRecord → NormalizedRecord R → Bool
    traced q r =
        contains r.record_id record_ids
        || (contains r.raw_id raw_ids || contains r.record_id (quarantined_records q))

    sift-rejected :
        (r : NormalizedRecord R) (s : Sieve) (x : String)
        → contains x (sift record_ids raw_ids r s).rejected_ids ≡ true
        → (contains x s.rejected_ids ≡ true)
          ⊎ ((str_eq r.record_id x ≡ true)
              × (traced (sift record_ids raw_ids r s).quarantine r ≡ true))
    unfolding sift
    sift-rejected r s x h =
        let found = check_truth r s.seen_tags in
        elim (Bool-cases (contains x s.rejected_ids)) [
          | inl old ↦ inl old
          | inr new ↦
              elim (Bool-cases (contains r.record_id record_ids || contains r.raw_id raw_ids)) [
                | inl skip ↦ inr (ground (arith, h, new, skip), ground (arith, skip))
                | inr kept ↦ elim (Bool-cases (any should_quarantine_truth found)) [
                  | inl bad ↦ inr (
                    ground (arith, h, new, kept, bad),
                    ground (
                      arith,
                      kept,
                      block_lem should_quarantine_truth r found bad,
                      records-append r.record_id s.quarantine
                          (blocking should_quarantine_truth r found),
                    ),
                  )
                  | inr fine ↦ absurd (ground (arith, h, new, kept, fine))
                ]
              ]
        ]

    pub sift_all-rejected :
        (rs : List (NormalizedRecord R)) (s : Sieve) (x : String)
        → contains x (sift_all record_ids raw_ids rs s).rejected_ids ≡ true
        → (contains x s.rejected_ids ≡ true)
          ⊎ (any
                (λ r.
                  str_eq r.record_id x && traced (sift_all record_ids raw_ids rs s).quarantine r)
                rs
              ≡ true)
    unfolding sift_all
    sift_all-rejected [] s x h = inl h
    sift_all-rejected (r ∷ rs) s x h =
        let t = sift record_ids raw_ids r s in
        elim (sift_all-rejected rs t x h) [
          | inl old ↦ elim (sift-rejected r s x old) [
            | inl older ↦ inl older
            | inr (e, q) ↦ inr (
                ground
                  (arith, e, q, sift_all-keeps quarantined_records records-append rs t r.record_id))
          ]
          | inr later ↦ inr (ground (arith, later))
        ]
