-- ===== src/Tests/Ingest.antt =====
-- Two rows of a signal list, the second of which binds the tag of the first, and a register map under review.
use plantlens.Prelude.{ℕ, String, true, none, some, List, [], ◌∷◌, ◌≡◌, refl, map}
use mathlib.Core.List.{Memᴰ}
use plantlens.Prelude.Dict.{lookup}
use plantlens.Ingest.{
  tag_candidate, register_map_candidate, dc, NormalizedRecord, run_gate2_canonical_schema,
  check_schema, check_tag_candidate, check_register_map_candidate, tag_pattern, asset_pattern,
  schema_issues, schema_quarantine, schema_verdict,
}
use plantlens.Ingest.Truth.{
  MappingCandidate, ambiguous_signal, run_gate3_industrial_truth, sift, sift_all, check_truth,
  check_tag_truth, check_register_truth, unit_issues, side_truth, truth_verdict,
}
use plantlens.Ingest.Drafting.{DraftContract, run_gates, build_drafts}
use plantlens.Ingest.Drafting.Sifted.{Sifted, run_gates-Sifted}
use plantlens.Ingest.Drafting.Accounted.{Accounted, run_gates-Accounted}
use plantlens.Tests.Numbers.{thousandths}

abbrev row : String → String → NormalizedRecord ℕ
row record_id raw_id = record {
  record_id = record_id;
  run_id = "run_1";
  artifact_id = "art_1";
  raw_id = raw_id;
  record_kind = tag_candidate;
  tag_id = some "BAT_24V_V";
  asset_id = some "BAT-24V";
  asset_label = some "Battery";
  signal_label = some "Voltage";
  unit = some "V";
  side = some dc;
  signal_type = some "voltage";
  register = none;
  confidence = 900;
}

abbrev register_row : NormalizedRecord ℕ
register_row = record (row "nrm_3" "raw_3") {
  record_kind = register_map_candidate;
  tag_id = some "VFD_OUT_V";
  register =
      some
        (record { address = some "40001"; function_code = some "03"; data_type = some "uint16" });
}

abbrev rows : List (NormalizedRecord ℕ)
rows = row "nrm_1" "raw_1" ∷ row "nrm_2" "raw_2" ∷ register_row ∷ []

abbrev reviews : List MappingCandidate
reviews =
    record {
      source_record_id = "raw_3";
      issue = ambiguous_signal;
      needs_human_review = true;
      is_open = true;
    }
    ∷ []

drafted_rows :
    map (λ (d : DraftContract ℕ). d.source.record_id) (run_gates [] [] rows []).drafts
    ≡ "nrm_1" ∷ "nrm_3" ∷ []
unfolding run_gates run_gate2_canonical_schema check_schema check_tag_candidate
    check_register_map_candidate tag_pattern asset_pattern schema_issues schema_quarantine
    schema_verdict run_gate3_industrial_truth sift sift_all check_truth check_tag_truth
    check_register_truth unit_issues side_truth truth_verdict build_drafts lookup
drafted_rows = refl

drafted_under_review :
    map (λ (d : DraftContract ℕ). d.source.record_id) (run_gates [] [] rows reviews).drafts
    ≡ "nrm_1" ∷ []
unfolding run_gates run_gate2_canonical_schema check_schema check_tag_candidate
    check_register_map_candidate tag_pattern asset_pattern schema_issues schema_quarantine
    schema_verdict run_gate3_industrial_truth sift sift_all check_truth check_tag_truth
    check_register_truth unit_issues side_truth truth_verdict build_drafts lookup
drafted_under_review = refl

run_gates-Sifted_example : Sifted (run_gates [] [] rows reviews).drafts
run_gates-Sifted_example = run_gates-Sifted [] [] rows reviews

run_gates-Accounted_example : Accounted (run_gates [] [] rows reviews) rows (row "nrm_2" "raw_2")
run_gates-Accounted_example =
    run_gates-Accounted [] [] rows reviews (row "nrm_2" "raw_2") (Memᴰ.tail (Memᴰ.head refl)) refl
