-- ===== src/Ingest.antt =====
-- The records of the offline ingestion and its second gate
-- (apps/api/app/ingest/gates/gate2_canonical_schema.py, with apps/api/app/ingest/quarantine.py and the models
-- of apps/api/app/schemas/ingest). Texts of messages and fixes, source references, random ids and times are
-- left out. A register's values are texts, as the normalizers leave them.

pub mod Truth
pub mod Drafting
use plantlens.Prelude.{
  ℕ, ◌-◌, String, Bool, true, false, Option, none, some, List, [], ◌∷◌, ◌++◌, ◌&&◌, ◌||◌, not, leb,
  ◌==◌, str_eq, any, filter, length, map, if◌then◌else◌, is_some, FloatOps,
}
use Prim.Native.String as Text
use Prim.Native.Char.{Char, code}
use text.Mathlib.Text.{starts_with}

pub data RecordKind : Type 0 where
  tag_candidate register_map_candidate alarm_rule_candidate causal_edge_candidate : RecordKind

pub data Side : Type 0 where
  dc ac mechanical thermal unknown : Side

pub record Register : Type 0 where
  pub address : Option String
  pub function_code : Option String
  pub data_type : Option String

pub record NormalizedRecord (R : Type 0) : Type 0 where
  pub record_id : String
  pub run_id : String
  pub artifact_id : String
  pub raw_id : String
  pub record_kind : RecordKind
  pub tag_id : Option String
  pub asset_id : Option String
  pub asset_label : Option String
  pub signal_label : Option String
  pub unit : Option String
  pub side : Option Side
  pub signal_type : Option String
  pub register : Option Register
  pub confidence : R

pub data Severity : Type 0 where
  low medium high blocker : Severity

pub data IssueCode : Type 0 where
  invalid_record_id invalid_artifact_id invalid_run_id invalid_raw_id invalid_confidence : IssueCode
  low_confidence_record missing_tag_id invalid_tag_id missing_asset_id invalid_asset_id : IssueCode
  missing_asset_label missing_signal_label missing_unit unknown_side : IssueCode
  missing_register missing_register_address missing_function_code missing_data_type : IssueCode
  manual_review_required duplicate_tag_id unknown_signal_type unknown_unit unit_signal_mismatch :
      IssueCode
  side_mismatch invalid_register_address invalid_function_code invalid_data_type : IssueCode
  register_type_unit_mismatch : IssueCode

pub record GateIssue : Type 0 where
  pub code : IssueCode
  pub severity : Severity

pub data Verdict : Type 0 where
  pass warn fail skipped : Verdict

pub record GateReport : Type 0 where
  pub verdict : Verdict
  pub accepted : ℕ
  pub rejected : ℕ
  pub issues : List GateIssue

pub record QuarantineRecord : Type 0 where
  pub raw_id : Option String
  pub record_id : Option String
  pub severity : Severity

abbrev pub issue : IssueCode → Severity → List GateIssue
issue c s = record { code = c; severity = s } ∷ []

abbrev pub issue_if : Bool → IssueCode → Severity → List GateIssue
issue_if test c s = if test then issue c s else []

-- A text that is there and not empty
abbrev pub truthy : Option String → Bool
truthy none = false
truthy (some t) = not (str_eq t "")

abbrev pub upper_or_digit : ℕ → Bool
upper_or_digit c = (leb 65 c && leb c 90) || (leb 48 c && leb c 57)

-- `fullmatch` of a class of characters, one or more
abbrev pub all_chars : (ℕ → Bool) → String → Bool
all_chars p Text.[] = true
all_chars p (Text.◌∷◌ c cs) = p (code c) && all_chars p cs

-- _TAG_ID_PATTERN and _ASSET_ID_PATTERN, of a text that is not empty
unfoldable pub tag_pattern : String → Bool
tag_pattern t = all_chars (λ c. upper_or_digit c || c == 95) t

unfoldable pub asset_pattern : String → Bool
asset_pattern t = all_chars (λ c. upper_or_digit c || c == 45) t

-- `if not x: MISSING, elif not pattern: INVALID`
abbrev pub id_issues : (String → Bool) → IssueCode → IssueCode → Option String → List GateIssue
id_issues pattern absent invalid none = issue absent blocker
id_issues pattern absent invalid (some t) =
    if str_eq t "" then issue absent blocker else issue_if (not (pattern t)) invalid blocker

abbrev pub side_issues : Option Side → List GateIssue
side_issues none = issue unknown_side medium
side_issues (some unknown) = issue unknown_side medium
side_issues (some s) = []

abbrev pub register_issues : Option Register → List GateIssue
register_issues none = issue missing_register blocker
register_issues (some r) =
    issue_if (not (truthy r.address)) missing_register_address blocker
    ++ (issue_if (not (truthy r.function_code)) missing_function_code blocker
        ++ issue_if (not (truthy r.data_type)) missing_data_type blocker)

abbrev pub high_or_blocker : Severity → Bool
high_or_blocker high = true
high_or_blocker blocker = true
high_or_blocker s = false

abbrev pub is_low_confidence : IssueCode → Bool
is_low_confidence low_confidence_record = true
is_low_confidence c = false

module _ {R : Type 0} where
  -- The parts of `_check_tag_candidate` and `_check_register_map_candidate` behind the tag's id
  abbrev pub label_issues : NormalizedRecord R → List GateIssue
  label_issues r =
      id_issues asset_pattern missing_asset_id invalid_asset_id r.asset_id
      ++ (issue_if (not (truthy r.asset_label)) missing_asset_label blocker
          ++ (issue_if (not (truthy r.signal_label)) missing_signal_label blocker
              ++ (issue_if (not (truthy r.unit)) missing_unit high ++ side_issues r.side)))

  abbrev pub map_issues : NormalizedRecord R → List GateIssue
  map_issues r = register_issues r.register ++ issue_if (not (truthy r.unit)) missing_unit medium

  -- _check_tag_candidate
  unfoldable pub check_tag_candidate : NormalizedRecord R → List GateIssue
  check_tag_candidate r =
      id_issues tag_pattern missing_tag_id invalid_tag_id r.tag_id ++ label_issues r

  -- _check_register_map_candidate
  unfoldable pub check_register_map_candidate : NormalizedRecord R → List GateIssue
  check_register_map_candidate r =
      id_issues tag_pattern missing_tag_id invalid_tag_id r.tag_id ++ map_issues r

  abbrev pub check_kind : NormalizedRecord R → RecordKind → List GateIssue
  check_kind r tag_candidate = check_tag_candidate r
  check_kind r register_map_candidate = check_register_map_candidate r
  check_kind r kind = []

  -- quarantine_from_gate_issue
  abbrev pub quarantine_from_gate_issue : NormalizedRecord R → GateIssue → QuarantineRecord
  quarantine_from_gate_issue r i = record {
    raw_id = some r.raw_id;
    record_id = some r.record_id;
    severity = i.severity;
  }

abbrev pub is_empty : {A : Type 0} → List A → Bool
is_empty [] = true
is_empty (x ∷ xs) = false

-- _should_quarantine of the second gate
abbrev pub should_quarantine : GateIssue → Bool
should_quarantine i = high_or_blocker i.severity || is_low_confidence i.code

-- _verdict of the second gate
unfoldable pub schema_verdict : ℕ → ℕ → List GateIssue → Verdict
schema_verdict total clean issues =
    if total == 0
    then skipped
    else if clean == 0
    then fail
    else if not (clean == total) || not (is_empty issues)
    then warn
    else pass

module _ {R : Type 0} ⦃f : FloatOps R⦄ where
  -- The part of `_check_record` in front of the test for a low confidence
  abbrev pub prefix_issues : NormalizedRecord R → List GateIssue
  prefix_issues r =
      issue_if (not (starts_with r.record_id "nrm_")) invalid_record_id blocker
      ++ (issue_if (not (starts_with r.artifact_id "art_")) invalid_artifact_id blocker
          ++ (issue_if (not (starts_with r.run_id "run_")) invalid_run_id blocker
              ++ (issue_if (not (starts_with r.raw_id "raw_")) invalid_raw_id blocker
                  ++ issue_if
                      (f.lt r.confidence (f.decimal 0 1) || f.lt (f.decimal 10 1) r.confidence)
                      invalid_confidence blocker)))

  abbrev pub low_issues : NormalizedRecord R → List GateIssue
  low_issues r = issue_if (f.lt r.confidence (f.decimal 50 2)) low_confidence_record high

  -- _check_record of the second gate
  unfoldable pub check_schema : NormalizedRecord R → List GateIssue
  check_schema r = prefix_issues r ++ (low_issues r ++ check_kind r r.record_kind)

  abbrev pub blocking :
      (GateIssue → Bool) → NormalizedRecord R → List GateIssue → List QuarantineRecord
  blocking test r issues = map (quarantine_from_gate_issue r) (filter test issues)

  -- The loop of the second gate: its issues, its quarantine and the clean records.
  unfoldable pub schema_issues : List (NormalizedRecord R) → List GateIssue
  schema_issues [] = []
  schema_issues (r ∷ rs) = check_schema r ++ schema_issues rs

  unfoldable pub schema_quarantine : List (NormalizedRecord R) → List QuarantineRecord
  schema_quarantine [] = []
  schema_quarantine (r ∷ rs) = blocking should_quarantine r (check_schema r) ++ schema_quarantine rs

  abbrev pub is_schema_clean : NormalizedRecord R → Bool
  is_schema_clean r = not (any should_quarantine (check_schema r))

  -- run_gate2_canonical_schema
  unfoldable pub run_gate2_canonical_schema :
      List (NormalizedRecord R) → GateReport × List QuarantineRecord × List (NormalizedRecord R)
  run_gate2_canonical_schema records =
      let clean = filter is_schema_clean records in
      let issues = schema_issues records in
      (
        record {
          verdict = schema_verdict (length records) (length clean) issues;
          accepted = length clean;
          rejected = length records - length clean;
          issues = issues;
        },
        schema_quarantine records,
        clean,
      )
