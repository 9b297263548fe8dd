-- ===== src/Ingest/Drafting/Sifted.antt =====
-- What the drafts of a run rest on.
use plantlens.Prelude.{
  String, Bool, true, false, Option, none, some, List, [], ◌∷◌, ◌++◌, ◌||◌, ◌≡◌, ◌⊎◌, refl, arith,
  str_eq, any, filter, map, if◌then◌else◌, All, All-append, FloatOps, Bool-cases, inl, inr, subst,
}
use plantlens.Prelude.Dict.{contains}
use plantlens.Prelude.Strings.{NoRepeat}
use plantlens.Ingest.{
  RecordKind, tag_candidate, register_map_candidate, alarm_rule_candidate, causal_edge_candidate,
  NormalizedRecord, QuarantineRecord, tag_pattern, id_issues, missing_tag_id, invalid_tag_id,
  should_quarantine, check_tag_candidate, check_register_map_candidate, check_kind, label_issues,
  map_issues, prefix_issues, low_issues, check_schema, is_schema_clean, run_gate2_canonical_schema,
}
use plantlens.Ingest.Truth.{
  MappingCandidate, sifted, is_truth_clean, truth_clean, run_gate3_industrial_truth, add_tag,
  candidate_ids, reviewed, first_sieve,
}
use plantlens.Ingest.Drafting.{
  DraftContract, DraftType, draft_if, draft_of_kind, build_drafts, run_gates, blocked_record_ids,
  blocked_raw_ids, tag_draft, register_map_draft,
}
use plantlens.Ingest.Drafting.Distinct.{tags_of, any_left, any_right, sift_all-NoRepeat}

abbrev Within : List String → List String → Type 0
Within xs ys = (x : String) → contains x xs ≡ true → contains x ys ≡ true

add_tag-tail : (tag : Option String) (ts : List String) → NoRepeat (add_tag tag ts) → NoRepeat ts
add_tag-tail none ts n = n
add_tag-tail (some t) ts n = elim (Bool-cases (str_eq t "")) [
  | inl e ↦ subst (λ b. NoRepeat (if b then ts else t ∷ ts)) e n
  | inr e ↦ (subst (λ b. NoRepeat (if b then ts else t ∷ ts)) e n).1
]

add_tag-grows :
    (tag : Option String) (ts : List String) (x : String)
    → contains x ts ≡ true
    → contains x (add_tag tag ts) ≡ true
add_tag-grows none ts x h = h
add_tag-grows (some t) ts x h = ground (arith, h)

add_tag-Within :
    (tag : Option String) (xs ys : List String)
    → NoRepeat (add_tag tag ys)
    → NoRepeat xs
    → Within xs ys
    → NoRepeat (add_tag tag xs) × Within (add_tag tag xs) (add_tag tag ys)
add_tag-Within none xs ys n m w = (m, w)
add_tag-Within (some t) xs ys n m w = elim (Bool-cases (str_eq t "")) [
  | inl e ↦ rw e (m, w)
  | inr e ↦
      let first = (subst (λ b. NoRepeat (if b then ys else t ∷ ys)) e n).0 in
      rw e ((ground (arith, first, w t), m), λ x h. ground (arith, h, w x))
]

module _ {R : Type 0} where
  -- The record binds a tag whose id is not empty and is written in capitals, digits and underscores.
  pub record CanonicalTag (r : NormalizedRecord R) : Type 0 where
    pub tag : String
    pub bound : r.tag_id ≡ some tag
    pub not_empty : str_eq tag "" ≡ false
    pub matches : tag_pattern tag ≡ true

  tag_lem :
      (r : NormalizedRecord R) (tag : Option String)
      → r.tag_id ≡ tag
      → any should_quarantine (id_issues tag_pattern missing_tag_id invalid_tag_id tag) ≡ false
      → CanonicalTag r
  tag_lem r none e h = absurd (ground (arith, h))
  tag_lem r (some t) e h = elim (Bool-cases (str_eq t "")) [
    | inl q ↦ absurd (ground (arith, h, q))
    | inr q ↦ record { tag = t; bound = e; not_empty = q; matches = ground (arith, h, q) }
  ]

  -- The records of drafts
  abbrev pub sources : List (DraftContract R) → List (NormalizedRecord R)
  sources ds = map (λ (d : DraftContract R). d.source) ds

  All-filter :
      (p q : NormalizedRecord R → Bool) (xs : List (NormalizedRecord R))
      → All (λ x. p x ≡ true) xs
      → All (λ x. p x ≡ true) (filter q xs)
  All-filter p q [] h = tt
  All-filter p q (x ∷ xs) h = elim (Bool-cases (q x)) [
    | inl e ↦ rw e (h.0, All-filter p q xs h.1)
    | inr e ↦ rw e (All-filter p q xs h.1)
  ]

  filter-All :
      (p : NormalizedRecord R → Bool) (xs : List (NormalizedRecord R))
      → All (λ x. p x ≡ true) (filter p xs)
  filter-All p [] = tt
  filter-All p (x ∷ xs) = elim (Bool-cases (p x)) [
    | inl e ↦ rw e (e, filter-All p xs)
    | inr e ↦ rw e (filter-All p xs)
  ]

  All-drafts :
      (P : NormalizedRecord R → Type 0) (Q : DraftContract R → Type 0) (ids raws : List String)
      → ((r : NormalizedRecord R) → P r → All Q (draft_of_kind r r.record_kind))
      → (rs : List (NormalizedRecord R)) → All P rs
      → All Q (build_drafts ids raws rs)
  unfolding build_drafts
  All-drafts P Q ids raws each [] h = tt
  All-drafts P Q ids raws each (r ∷ rs) h =
      All-append Q
        (if contains r.record_id ids || contains r.raw_id raws
          then []
          else draft_of_kind r r.record_kind)
        (build_drafts ids raws rs)
        (elim (Bool-cases (contains r.record_id ids || contains r.raw_id raws)) [
          | inl e ↦ rw e tt
          | inr e ↦ rw e (each r h.0)
        ])
        (All-drafts P Q ids raws each rs h.1)

  draft_if_lem :
      (b : Bool) (t : DraftType) (r : NormalizedRecord R) (ts : List (DraftContract R))
      → (tags_of (sources (draft_if b t r ++ ts)) ≡ tags_of (sources ts))
        ⊎ (tags_of (sources (draft_if b t r ++ ts)) ≡ add_tag r.tag_id (tags_of (sources ts)))
  draft_if_lem true t r ts = inr refl
  draft_if_lem false t r ts = inl refl

  -- The drafts of one record bind its tag or nothing.
  one_draft :
      (r : NormalizedRecord R) (k : RecordKind) (ts : List (DraftContract R))
      → (tags_of (sources (draft_of_kind r k ++ ts)) ≡ tags_of (sources ts))
        ⊎ (tags_of (sources (draft_of_kind r k ++ ts)) ≡ add_tag r.tag_id (tags_of (sources ts)))
  one_draft r tag_candidate ts = draft_if_lem _ tag_draft r ts
  one_draft r register_map_candidate ts = draft_if_lem _ register_map_draft r ts
  one_draft r alarm_rule_candidate ts = inl refl
  one_draft r causal_edge_candidate ts = inl refl

  drafts-NoRepeat :
      (ids raws : List String) (rs : List (NormalizedRecord R))
      → NoRepeat (tags_of rs)
      → NoRepeat (tags_of (sources (build_drafts ids raws rs)))
        × Within (tags_of (sources (build_drafts ids raws rs))) (tags_of rs)
  unfolding build_drafts
  drafts-NoRepeat ids raws [] n = (tt, λ x h. h)
  drafts-NoRepeat ids raws (r ∷ rs) n =
      let later = build_drafts ids raws rs in
      let (m, w) = drafts-NoRepeat ids raws rs (add_tag-tail r.tag_id (tags_of rs) n) in
      let left_out : NoRepeat (tags_of (sources later))
          × Within (tags_of (sources later)) (tags_of (r ∷ rs)) =
        (m, λ x h. add_tag-grows r.tag_id (tags_of rs) x (w x h)) in
      elim (Bool-cases (contains r.record_id ids || contains r.raw_id raws)) [
        | inl e ↦ rw e left_out
        | inr e ↦ rw e (elim (one_draft r r.record_kind later) [
          | inl q ↦ rw q left_out
          | inr q ↦ rw q (add_tag-Within r.tag_id (tags_of (sources later)) (tags_of rs) n m w)
        ])
      ]

module _ {R : Type 0} ⦃f : FloatOps R⦄ where
  pub truth_clean_lem :
      (rs : List (NormalizedRecord R)) (cs : List MappingCandidate)
      → (run_gate3_industrial_truth rs cs).2 ≡ truth_clean rs cs
  unfolding run_gate3_industrial_truth
  truth_clean_lem [] [] = refl
  truth_clean_lem [] (c ∷ cs) = refl
  truth_clean_lem (r ∷ rs) cs = refl

  -- What a draft rests on
  pub record WellFounded (d : DraftContract R) : Type 0 where
    pub canonical : CanonicalTag d.source
    pub confident : f.lt d.source.confidence (f.decimal 50 2) ≡ false

  pub record Sifted (ds : List (DraftContract R)) : Type 0 where
    pub tags : NoRepeat (tags_of (sources ds))
    pub each : All WellFounded ds

  draft_if-WellFounded :
      (b : Bool) (t : DraftType) (r : NormalizedRecord R)
      → CanonicalTag r
      → f.lt r.confidence (f.decimal 50 2) ≡ false
      → All WellFounded (draft_if b t r)
  draft_if-WellFounded true t r c k = (record { canonical = c; confident = k }, tt)
  draft_if-WellFounded false t r c k = tt

  kind_lem :
      (r : NormalizedRecord R) (k : RecordKind)
      → any should_quarantine (check_kind r k) ≡ false
      → f.lt r.confidence (f.decimal 50 2) ≡ false
      → All WellFounded (draft_of_kind r k)
  unfolding check_tag_candidate check_register_map_candidate
  kind_lem r tag_candidate h c =
      draft_if-WellFounded _ tag_draft r
        (tag_lem r r.tag_id refl (
          any_left should_quarantine (id_issues tag_pattern missing_tag_id invalid_tag_id r.tag_id)
            (label_issues r) h))
        c
  kind_lem r register_map_candidate h c =
      draft_if-WellFounded _ register_map_draft r
        (tag_lem r r.tag_id refl (
          any_left should_quarantine (id_issues tag_pattern missing_tag_id invalid_tag_id r.tag_id)
            (map_issues r) h))
        c
  kind_lem r alarm_rule_candidate h c = tt
  kind_lem r causal_edge_candidate h c = tt

  record-WellFounded :
      (r : NormalizedRecord R)
      → is_schema_clean r ≡ true
      → All WellFounded (draft_of_kind r r.record_kind)
  unfolding check_schema
  record-WellFounded r h =
      let behind : any should_quarantine (low_issues r ++ check_kind r r.record_kind) ≡ false =
        any_right should_quarantine (prefix_issues r) (low_issues r ++ check_kind r r.record_kind)
          (ground (arith, h)) in
      let low : any should_quarantine (low_issues r) ≡ false =
        any_left should_quarantine (low_issues r) (check_kind r r.record_kind) behind in
      kind_lem r r.record_kind
        (any_right should_quarantine (low_issues r) (check_kind r r.record_kind) behind)
        (ground (arith, low))

  -- No two drafts of a run bind the same tag; and each draft's record has a tag id that is not empty and
  -- is written in capitals, digits and underscores, and a confidence that is not below one half.
  pub run_gates-Sifted :
      (first extra : List QuarantineRecord) (records : List (NormalizedRecord R))
      (candidates : List MappingCandidate)
      → Sifted (run_gates first extra records candidates).drafts
  unfolding run_gates run_gate2_canonical_schema
  run_gates-Sifted first extra records candidates =
      let schema_clean = filter is_schema_clean records in
      let raw_ids = candidate_ids "raw_" (reviewed candidates) in
      let s = sifted schema_clean candidates in
      let quarantine = (run_gates first extra records candidates).quarantine in
      let ids = blocked_record_ids quarantine candidates in
      let raws = blocked_raw_ids quarantine candidates in
      let clean = truth_clean schema_clean candidates in
      let distinct =
        (sift_all-NoRepeat (candidate_ids "nrm_" (reviewed candidates)) raw_ids s.rejected_ids
          schema_clean (first_sieve candidates) (λ x h. h)).0 in
      let checked : All (λ r. is_schema_clean r ≡ true) clean =
        All-filter is_schema_clean (is_truth_clean s.rejected_ids raw_ids) schema_clean
          (filter-All is_schema_clean records) in
      rw (truth_clean_lem schema_clean candidates) (record {
        tags = (drafts-NoRepeat ids raws clean distinct).0;
        each =
            All-drafts (λ r. is_schema_clean r ≡ true) WellFounded ids raws record-WellFounded clean
              checked;
      })
