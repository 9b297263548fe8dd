-- ===== src/Ingest/Drafting.antt =====
-- The drafts of the ingestion (apps/api/app/ingest/drafts/builder.py), and the stages of
-- apps/api/app/ingest/pipeline.py from the second gate to the drafts. A draft's payload and evidence are
-- views of its record.
pub mod Distinct
pub mod Sifted
pub mod Traced
pub mod Making
pub mod Accounted
use plantlens.Prelude.{
  String, Bool, true, false, Option, none, some, List, [], ◌∷◌, ◌++◌, ◌&&◌, ◌||◌, not, filter,
  if◌then◌else◌, FloatOps,
}
use plantlens.Prelude.Dict.{contains}
use plantlens.Ingest.{
  RecordKind, tag_candidate, register_map_candidate, Register, NormalizedRecord, GateReport,
  QuarantineRecord, truthy, run_gate2_canonical_schema,
}
use plantlens.Ingest.Truth.{MappingCandidate, candidate_ids, run_gate3_industrial_truth}

pub data DraftType : Type 0 where
  asset_draft tag_draft register_map_draft alarm_rule_draft causal_edge_candidate : DraftType
  action_envelope_draft scenario_seed_draft : DraftType

pub record DraftContract (R : Type 0) : Type 0 where
  pub draft_type : DraftType
  pub source : NormalizedRecord R

-- `{x for x in ... if x is not None}`
abbrev pub with_id : Option String → List String → List String
with_id none ids = ids
with_id (some id) ids = id ∷ ids

abbrev pub quarantined_records : List QuarantineRecord → List String
quarantined_records [] = []
quarantined_records (q ∷ qs) = with_id q.record_id (quarantined_records qs)

abbrev pub quarantined_raws : List QuarantineRecord → List String
quarantined_raws [] = []
quarantined_raws (q ∷ qs) = with_id q.raw_id (quarantined_raws qs)

abbrev pub open_candidates : List MappingCandidate → List MappingCandidate
open_candidates candidates =
    filter (λ (c : MappingCandidate). c.needs_human_review && c.is_open) candidates

-- _blocked_record_keys
abbrev pub blocked_record_ids : List QuarantineRecord → List MappingCandidate → List String
blocked_record_ids quarantine candidates =
    candidate_ids "nrm_" (open_candidates candidates) ++ quarantined_records quarantine

abbrev pub blocked_raw_ids : List QuarantineRecord → List MappingCandidate → List String
blocked_raw_ids quarantine candidates =
    candidate_ids "raw_" (open_candidates candidates) ++ quarantined_raws quarantine

-- A register that is there has its three keys, so it is not the empty dict.
abbrev pub has_register : Option Register → Bool
has_register none = false
has_register (some r) = true

module _ {R : Type 0} where
  abbrev pub draft_if : Bool → DraftType → NormalizedRecord R → List (DraftContract R)
  draft_if test type r = if test then record { draft_type = type; source = r } ∷ [] else []

  -- _build_draft_for_record
  abbrev pub draft_of_kind : NormalizedRecord R → RecordKind → List (DraftContract R)
  draft_of_kind r tag_candidate =
      draft_if (truthy r.tag_id && truthy r.asset_id && truthy r.unit) tag_draft r
  draft_of_kind r register_map_candidate =
      draft_if (truthy r.tag_id && has_register r.register) register_map_draft r
  draft_of_kind r kind = []

  -- The loop of build_draft_contracts
  unfoldable pub build_drafts :
      List String → List String → List (NormalizedRecord R) → List (DraftContract R)
  build_drafts record_ids raw_ids [] = []
  build_drafts record_ids raw_ids (r ∷ rs) =
      (if contains r.record_id record_ids || contains r.raw_id raw_ids
        then []
        else draft_of_kind r r.record_kind)
      ++ build_drafts record_ids raw_ids rs

  -- build_draft_contracts
  abbrev pub build_draft_contracts :
      List (NormalizedRecord R)
      → List QuarantineRecord
      → List MappingCandidate
      → List (DraftContract R)
  build_draft_contracts records quarantine candidates =
      build_drafts (blocked_record_ids quarantine candidates)
        (blocked_raw_ids quarantine candidates) records

-- What a run leaves behind the second gate.
pub record Gated (R : Type 0) : Type 0 where
  pub schema_report : GateReport
  pub truth_report : GateReport
  pub quarantine : List QuarantineRecord
  pub clean : List (NormalizedRecord R)
  pub drafts : List (DraftContract R)

module _ {R : Type 0} ⦃f : FloatOps R⦄ where
  -- The stages of run_offline_ingest_cycle behind the parser: `first` is the quarantine of the first gate,
  -- `extra` that of the records that no parser takes.
  unfoldable pub run_gates :
      List QuarantineRecord
      → List QuarantineRecord
      → List (NormalizedRecord R)
      → List MappingCandidate
      → Gated R
  run_gates first extra normalized candidates =
      let (schema_report, schema_quarantine, schema_clean) =
        run_gate2_canonical_schema normalized in
      let (truth_report, truth_quarantine, clean) =
        run_gate3_industrial_truth schema_clean candidates in
      let quarantine = first ++ (schema_quarantine ++ (truth_quarantine ++ extra)) in
      record {
        schema_report = schema_report;
        truth_report = truth_report;
        quarantine = quarantine;
        clean = clean;
        drafts = build_draft_contracts clean quarantine candidates;
      }
