-- ===== src/Ingest/Drafting/Accounted.antt =====
-- What becomes of a record that the gates are given.
use plantlens.Prelude.{
  String, true, false, List, [], ◌∷◌, ◌++◌, ◌&&◌, ◌||◌, ◌≡◌, refl, sym, ◌∙◌, arith, str_eq, eq_iff,
  any, any-filter, filter, FloatOps, Bool-cases, inl, inr,
}
use mathlib.Core.List.{Memᴰ}
use plantlens.Prelude.Dict.{contains}
use plantlens.Prelude.Strings.{contains-append}
use plantlens.Ingest.{
  NormalizedRecord, QuarantineRecord, should_quarantine, check_schema, is_schema_clean,
  schema_quarantine, run_gate2_canonical_schema, check_kind, prefix_issues, low_issues,
}
use plantlens.Ingest.Truth.{
  MappingCandidate, sift_all, sifted, is_truth_clean, truth_clean, run_gate3_industrial_truth,
  candidate_ids, reviewed, first_sieve,
}
use plantlens.Ingest.Drafting.{
  Gated, quarantined_records, quarantined_raws, open_candidates, build_drafts, run_gates,
  blocked_record_ids, blocked_raw_ids,
}
use plantlens.Ingest.Drafting.Distinct.{any_right}
use plantlens.Ingest.Drafting.Sifted.{truth_clean_lem}
use plantlens.Ingest.Drafting.Traced.{
  any_mem, any_weaken, filter_mem, records-append, raws-append, candidate_records, candidate_raws,
  open_reviewed, schema_lem, traced, sift_all-keeps, sift_all-rejected,
}
use plantlens.Ingest.Drafting.Making.{
  is_draftable, is_drafted, is_held, holds_back, kind-drafts, build_drafts-drafts,
}

module _ {R : Type 0} ⦃f : FloatOps R⦄ where
  truth_quarantine_lem :
      (rs : List (NormalizedRecord R)) (cs : List MappingCandidate)
      → (run_gate3_industrial_truth rs cs).1 ≡ (sifted rs cs).quarantine
  unfolding run_gate3_industrial_truth sift_all
  truth_quarantine_lem [] [] = refl
  truth_quarantine_lem [] (c ∷ cs) = refl
  truth_quarantine_lem (r ∷ rs) cs = refl

  module _ (rs : List (NormalizedRecord R)) (cs : List MappingCandidate) where
    abbrev record_ids : List String
    record_ids = candidate_ids "nrm_" (reviewed cs)

    abbrev raw_ids : List String
    raw_ids = candidate_ids "raw_" (reviewed cs)

    candidate_record-held :
        (x : String)
        → contains x record_ids ≡ true
        → contains x (quarantined_records (sifted rs cs).quarantine) ≡ true
    candidate_record-held x h =
        sift_all-keeps record_ids raw_ids quarantined_records records-append rs (first_sieve cs) x
          (candidate_records x (reviewed cs) h)

    candidate_raw-held :
        (x : String)
        → contains x raw_ids ≡ true
        → contains x (quarantined_raws (sifted rs cs).quarantine) ≡ true
    candidate_raw-held x h =
        sift_all-keeps record_ids raw_ids quarantined_raws raws-append rs (first_sieve cs) x
          (candidate_raws x (reviewed cs) h)

    traced-held :
        (r : NormalizedRecord R)
        → traced record_ids raw_ids (sifted rs cs).quarantine r ≡ true
        → is_held (sifted rs cs).quarantine r ≡ true
    traced-held r h =
        ground (arith, h, candidate_record-held r.record_id, candidate_raw-held r.raw_id)

    -- A record that the third gate leaves out is held back.
    truth-holds_back :
        (r : NormalizedRecord R)
        → Memᴰ r rs
        → is_truth_clean (sifted rs cs).rejected_ids raw_ids r ≡ false
        → any (holds_back (sifted rs cs).quarantine r.record_id) rs ≡ true
    truth-holds_back r m h = elim (Bool-cases (contains r.raw_id raw_ids)) [
      | inl e ↦
          any_mem (holds_back (sifted rs cs).quarantine r.record_id) r rs m
            (ground (arith, eq_iff r.record_id r.record_id, candidate_raw-held r.raw_id e))
      | inr e ↦
          elim (sift_all-rejected record_ids raw_ids rs (first_sieve cs) r.record_id
            (ground (arith, h, e))) [
              | inl none_yet ↦ absurd (ground (arith, none_yet))
              | inr found ↦
                  any_weaken
                    (λ (s : NormalizedRecord R).
                      str_eq s.record_id r.record_id
                      && traced record_ids raw_ids (sifted rs cs).quarantine s)
                    (holds_back (sifted rs cs).quarantine r.record_id)
                    (λ s q. ground (arith, q, traced-held s)) rs found
            ]
    ]

  -- What happens to a record
  abbrev pub Accounted : Gated R → List (NormalizedRecord R) → NormalizedRecord R → Type 0
  Accounted run records r =
      (is_drafted r.record_id run.drafts || any (holds_back run.quarantine r.record_id) records)
      ≡ true

  module _ (first extra : List QuarantineRecord) (records : List (NormalizedRecord R))
      (cs : List MappingCandidate) where
    abbrev schema_clean : List (NormalizedRecord R)
    schema_clean = filter is_schema_clean records

    abbrev truth_quarantine : List QuarantineRecord
    truth_quarantine = (sifted schema_clean cs).quarantine

    abbrev held : List QuarantineRecord
    held = first ++ (schema_quarantine records ++ (truth_quarantine ++ extra))

    in_schema :
        (x : String)
        → contains x (quarantined_records (schema_quarantine records)) ≡ true
        → contains x (quarantined_records held) ≡ true
    in_schema x h = ground (
      arith,
      h,
      records-append x first (schema_quarantine records ++ (truth_quarantine ++ extra)),
      records-append x (schema_quarantine records) (truth_quarantine ++ extra),
    )

    record_in_truth :
        (x : String)
        → contains x (quarantined_records truth_quarantine) ≡ true
        → contains x (quarantined_records held) ≡ true
    record_in_truth x h = ground (
      arith,
      h,
      records-append x first (schema_quarantine records ++ (truth_quarantine ++ extra)),
      records-append x (schema_quarantine records) (truth_quarantine ++ extra),
      records-append x truth_quarantine extra,
    )

    raw_in_truth :
        (x : String)
        → contains x (quarantined_raws truth_quarantine) ≡ true
        → contains x (quarantined_raws held) ≡ true
    raw_in_truth x h = ground (
      arith,
      h,
      raws-append x first (schema_quarantine records ++ (truth_quarantine ++ extra)),
      raws-append x (schema_quarantine records) (truth_quarantine ++ extra),
      raws-append x truth_quarantine extra,
    )

    -- A record that blocks its own draft is held back.
    blocked-is_held :
        (r : NormalizedRecord R)
        → (contains r.record_id (blocked_record_ids held cs)
            || contains r.raw_id (blocked_raw_ids held cs))
          ≡ true
        → is_held held r ≡ true
    blocked-is_held r h = ground (
      arith,
      h,
      contains-append r.record_id (candidate_ids "nrm_" (open_candidates cs))
          (quarantined_records held),
      contains-append r.raw_id (candidate_ids "raw_" (open_candidates cs)) (quarantined_raws held),
      open_reviewed "nrm_" r.record_id cs,
      open_reviewed "raw_" r.raw_id cs,
      candidate_record-held schema_clean cs r.record_id,
      candidate_raw-held schema_clean cs r.raw_id,
      record_in_truth r.record_id,
      raw_in_truth r.raw_id,
    )

    truth_held :
        (r : NormalizedRecord R)
        → any (holds_back truth_quarantine r.record_id) schema_clean ≡ true
        → any (holds_back held r.record_id) records ≡ true
    truth_held r h =
        any_weaken
          (λ (s : NormalizedRecord R).
            is_schema_clean s && holds_back truth_quarantine r.record_id s)
          (holds_back held r.record_id)
          (λ s q. ground (arith, q, record_in_truth s.record_id, raw_in_truth s.raw_id)) records
          (sym (any-filter (holds_back truth_quarantine r.record_id) is_schema_clean records) ∙ h)

    -- A record that the second gate passes and a draft is made of, or that is held back
    clean-Accounted :
        (r : NormalizedRecord R)
        → Memᴰ r records
        → is_draftable r.record_kind ≡ true
        → is_schema_clean r ≡ true
        → (is_drafted r.record_id (
              build_drafts
                (blocked_record_ids held cs)
                (blocked_raw_ids held cs)
                (truth_clean schema_clean cs))
            || any (holds_back held r.record_id) records)
          ≡ true
    unfolding check_schema
    clean-Accounted r m k clean =
        let there : Memᴰ r schema_clean = filter_mem is_schema_clean r records m clean in
        let checked : any should_quarantine (check_schema r) ≡ false = ground (arith, clean) in
        let of_kind : any should_quarantine (check_kind r r.record_kind) ≡ false =
          any_right should_quarantine (low_issues r) _
            (any_right should_quarantine (prefix_issues r) _ checked) in
        let raws = candidate_ids "raw_" (reviewed cs) in
        let rejected = (sifted schema_clean cs).rejected_ids in
        elim (Bool-cases (is_truth_clean rejected raws r)) [
          | inr out ↦ ground (arith, truth_held r (truth-holds_back schema_clean cs r there out))
          | inl truth ↦
              elim (Bool-cases (
                contains r.record_id (blocked_record_ids held cs)
                || contains r.raw_id (blocked_raw_ids held cs))) [
                  | inl stop ↦ ground (
                    arith,
                    any_mem (holds_back held r.record_id) r records m
                        (ground (arith, eq_iff r.record_id r.record_id, blocked-is_held r stop)),
                  )
                  | inr go ↦ ground (
                    arith,
                    build_drafts-drafts (blocked_record_ids held cs) (blocked_raw_ids held cs) r
                        (truth_clean schema_clean cs)
                        (filter_mem (is_truth_clean rejected raws) r schema_clean there truth) go
                        (kind-drafts r r.record_kind k of_kind),
                  )
                ]
        ]

    -- When a record of the kind of a tag or of a register map is among those that the gates are given, the run
    -- has a draft with its record id, or one of the records with its record id is in quarantine, by its record
    -- id or by its raw id.
    pub run_gates-Accounted :
        (r : NormalizedRecord R)
        → Memᴰ r records
        → is_draftable r.record_kind ≡ true
        → Accounted (run_gates first extra records cs) records r
    unfolding run_gates run_gate2_canonical_schema
    run_gates-Accounted r m k = rw (truth_clean_lem schema_clean cs) (
        rw (truth_quarantine_lem schema_clean cs) (elim (Bool-cases (is_schema_clean r)) [
          | inl clean ↦ clean-Accounted r m k clean
          | inr bad ↦ ground (
            arith,
            any_mem (holds_back held r.record_id) r records m (
                ground (
                  arith,
                  eq_iff r.record_id r.record_id,
                  in_schema r.record_id (schema_lem r records m (ground (arith, bad))),
                )),
          )
        ]))
