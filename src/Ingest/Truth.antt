-- ===== src/Ingest/Truth.antt =====
-- The third gate of the ingestion (apps/api/app/ingest/gates/gate3_industrial_truth.py). `isdigit` is that of
-- ASCII texts.
use plantlens.Prelude.{
  ℕ, ◌-◌, String, Bool, true, false, Option, none, some, List, [], ◌∷◌, ◌++◌, ◌&&◌, ◌||◌, not, leb,
  ◌==◌, str_eq, any, filter, length, map, if◌then◌else◌, FloatOps,
}
use plantlens.Prelude.Dict.{Dict, lookup, contains}
use Prim.Native.String as Text
use Prim.Native.Char.{code}
use text.Mathlib.Text.{starts_with}
use plantlens.Ingest.{
  RecordKind, tag_candidate, register_map_candidate, Side, dc, ac, mechanical, thermal, unknown,
  Register, NormalizedRecord, Severity, medium, high, manual_review_required, duplicate_tag_id,
  unknown_signal_type, unknown_unit, unit_signal_mismatch, side_mismatch, low_confidence_record,
  invalid_register_address, invalid_function_code, invalid_data_type, register_type_unit_mismatch,
  GateIssue, Verdict, pass, warn, fail, skipped, GateReport, QuarantineRecord, issue, issue_if,
  truthy, all_chars, high_or_blocker, is_low_confidence, is_empty, blocking,
}

pub data MappingIssue : Type 0 where
  unknown_tag unknown_asset ambiguous_signal duplicate_tag unsafe_suggestion : MappingIssue

pub record MappingCandidate : Type 0 where
  pub source_record_id : String
  pub issue : MappingIssue
  pub needs_human_review : Bool
  -- status == "OPEN"
  pub is_open : Bool

abbrev valid_function_codes : List String
valid_function_codes = "1" ∷ "2" ∷ "3" ∷ "4" ∷ "5" ∷ "6" ∷ "15" ∷ "16" ∷ []

abbrev valid_data_types : List String
valid_data_types = "int16" ∷ "uint16" ∷ "int32" ∷ "uint32" ∷ "float32" ∷ "bool" ∷ []

abbrev analog_units : List String
analog_units = "V" ∷ "kV" ∷ "mV" ∷ "A" ∷ "mA" ∷ "W" ∷ "kW" ∷ []

-- _EXPECTED_SIDES
abbrev pub expected_sides : Dict Side
expected_sides =
    ("CHG_SOLAR_OUT_V", dc)
    ∷ ("CHG_SOLAR_OUT_I", dc)
    ∷ ("CHG_SOLAR_OUT_P", dc)
    ∷ ("CHG_MAINS_OUT_V", dc)
    ∷ ("CHG_MAINS_OUT_I", dc)
    ∷ ("CHG_MAINS_OUT_P", dc)
    ∷ ("BAT_24V_V", dc)
    ∷ ("BAT_24V_I", dc)
    ∷ ("BAT_24V_P", dc)
    ∷ ("INV_AC_OUT_V", ac)
    ∷ ("INV_AC_OUT_I", ac)
    ∷ ("INV_AC_OUT_P", ac)
    ∷ ("VFD_OUT_V", ac)
    ∷ ("VFD_OUT_I", ac)
    ∷ ("VFD_OUT_P", ac)
    ∷ ("MTR_FHP_SPEED", mechanical)
    ∷ ("MTR_FHP_VIB", mechanical)
    ∷ ("MTR_FHP_TEMP", thermal)
    ∷ []

-- _SIGNAL_UNITS, for a unit that is not empty
abbrev pub signal_units : Dict (List String)
signal_units =
    ("voltage", "V" ∷ "kV" ∷ "mV" ∷ [])
    ∷ ("current", "A" ∷ "mA" ∷ [])
    ∷ ("power", "W" ∷ "kW" ∷ [])
    ∷ ("speed", "rpm" ∷ [])
    ∷ ("vibration", "mm/s" ∷ [])
    ∷ ("temperature", "degC" ∷ "degF" ∷ [])
    ∷ ("state", "bool" ∷ [])
    ∷ []

-- _IMPOSSIBLE_UNIT_SIGNAL
abbrev pub impossible_units : Dict (List String)
impossible_units =
    ("vibration", "V" ∷ "kV" ∷ "mV" ∷ [])
    ∷ ("temperature", "A" ∷ "mA" ∷ [])
    ∷ ("voltage", "rpm" ∷ [])
    ∷ ("current", "degC" ∷ "degF" ∷ [])
    ∷ ("power", "mm/s" ∷ [])
    ∷ []

abbrev pub impossible : String → String → Bool
impossible signal_type unit =
    any (λ (p : String × List String). str_eq signal_type p.0 && contains unit p.1) impossible_units

abbrev pub unusual : Option (List String) → String → Bool
unusual none unit = false
unusual (some allowed) unit = not (contains unit allowed)

abbrev pub text_or : String → Option String → String
text_or d none = d
text_or d (some t) = if str_eq t "" then d else t

-- The tests of a unit that is there
unfoldable pub unit_issues : String → String → List GateIssue
unit_issues signal_type unit =
    if str_eq signal_type "unknown"
    then []
    else if impossible signal_type unit
    then issue unit_signal_mismatch high
    else issue_if (unusual (lookup signal_type signal_units) unit) unit_signal_mismatch medium

abbrev pub same_side : Side → Side → Bool
same_side dc dc = true
same_side ac ac = true
same_side mechanical mechanical = true
same_side thermal thermal = true
same_side unknown unknown = true
same_side a b = false

abbrev pub mismatched : Option Side → Side → Bool
mismatched none side = false
mismatched (some expected) side = not (same_side side expected)

unfoldable pub side_truth : Option String → Option Side → List GateIssue
side_truth (some tag) (some side) =
    issue_if (not (str_eq tag "") && mismatched (lookup tag expected_sides) side) side_mismatch high
side_truth tag side = []

abbrev pub is_digit : ℕ → Bool
is_digit c = leb 48 c && leb c 57

-- value.lstrip("0")
abbrev pub strip_zeros : String → String
strip_zeros Text.[] = ""
strip_zeros (Text.◌∷◌ c cs) =
    let rest = strip_zeros cs in if code c == 48 then rest else Text.◌∷◌ c cs

abbrev pub address_issues : Option String → List GateIssue
address_issues none = []
address_issues (some a) =
    issue_if (str_eq a "" || not (all_chars is_digit a)) invalid_register_address high

abbrev pub known_function_code : String → Bool
known_function_code c =
    contains (text_or "0" (some (strip_zeros c))) valid_function_codes
    || contains c valid_function_codes

abbrev pub function_code_issues : Option String → Option String → List GateIssue
function_code_issues none data_type = []
function_code_issues (some c) data_type =
    if not (known_function_code c)
    then issue invalid_function_code high
    else issue_if
        ((str_eq c "1" || str_eq c "2")
          && truthy data_type
          && not (str_eq (text_or "" data_type) "bool"))
        register_type_unit_mismatch medium

abbrev pub data_type_issues : Option String → String → List GateIssue
data_type_issues none unit = []
data_type_issues (some t) unit =
    issue_if (not (contains t valid_data_types)) invalid_data_type high
    ++ issue_if (str_eq t "bool" && contains unit analog_units) register_type_unit_mismatch high

-- _check_register_truth of the register and the unit
unfoldable pub check_register_truth : Option Register → Option String → List GateIssue
check_register_truth none unit = []
check_register_truth (some r) unit =
    address_issues r.address
    ++ (function_code_issues r.function_code r.data_type
        ++ data_type_issues r.data_type (text_or "" unit))

abbrev pub duplicate_issue : Option String → List String → List GateIssue
duplicate_issue none seen = []
duplicate_issue (some t) seen =
    issue_if (not (str_eq t "") && contains t seen) duplicate_tag_id high

-- The tags seen behind a record
abbrev pub add_tag : Option String → List String → List String
add_tag none seen = seen
add_tag (some t) seen = if str_eq t "" then seen else t ∷ seen

abbrev pub is_high : Severity → Bool
is_high high = true
is_high s = false

-- _should_quarantine of the third gate
abbrev pub should_quarantine_truth : GateIssue → Bool
should_quarantine_truth i =
    if is_low_confidence i.code then is_high i.severity else high_or_blocker i.severity

-- _verdict of the third gate
unfoldable pub truth_verdict : ℕ → ℕ → List GateIssue → Verdict
truth_verdict total clean issues =
    if total == 0 && is_empty issues
    then skipped
    else if not (total == 0) && clean == 0
    then fail
    else if not (is_empty issues)
    then warn
    else pass

module _ {R : Type 0} where
  -- _check_tag_truth
  unfoldable pub check_tag_truth : NormalizedRecord R → List GateIssue
  check_tag_truth r =
      issue_if (str_eq (text_or "unknown" r.signal_type) "unknown") unknown_signal_type medium
      ++ ((if truthy r.unit
            then unit_issues (text_or "unknown" r.signal_type) (text_or "" r.unit)
            else issue unknown_unit medium)
          ++ side_truth r.tag_id r.side)

  abbrev pub check_truth_kind : NormalizedRecord R → RecordKind → List GateIssue
  check_truth_kind r tag_candidate = check_tag_truth r
  check_truth_kind r register_map_candidate = check_register_truth r.register r.unit
  check_truth_kind r kind = []

-- quarantine_from_mapping_candidate, with its severity
abbrev pub mapping_severity : MappingIssue → Severity
mapping_severity duplicate_tag = high
mapping_severity unsafe_suggestion = Severity.blocker
mapping_severity i = medium

abbrev pub id_if : Bool → String → Option String
id_if test id = if test then some id else none

abbrev pub quarantine_from_mapping_candidate : MappingCandidate → QuarantineRecord
quarantine_from_mapping_candidate c = record {
  raw_id = id_if (starts_with c.source_record_id "raw_") c.source_record_id;
  record_id = id_if (starts_with c.source_record_id "nrm_") c.source_record_id;
  severity = mapping_severity c.issue;
}

abbrev pub reviewed : List MappingCandidate → List MappingCandidate
reviewed candidates = filter (λ (c : MappingCandidate). c.needs_human_review) candidates

-- The ids that candidates reject: rejected_record_ids with "nrm_", rejected_raw_ids with "raw_"
abbrev pub candidate_ids : String → List MappingCandidate → List String
candidate_ids start [] = []
candidate_ids start (c ∷ cs) =
    let rest = candidate_ids start cs in
    if starts_with c.source_record_id start then c.source_record_id ∷ rest else rest

-- What the loop over the records collects.
pub record Sieve : Type 0 where
  pub seen_tags : List String
  pub rejected_ids : List String
  pub issues : List GateIssue
  pub quarantine : List QuarantineRecord

-- The sieve behind the loop over the candidates
abbrev pub first_sieve : List MappingCandidate → Sieve
first_sieve candidates = record {
  seen_tags = [];
  rejected_ids = [];
  issues =
      map (λ (c : MappingCandidate). record { code = manual_review_required; severity = medium })
        (reviewed candidates);
  quarantine = map quarantine_from_mapping_candidate (reviewed candidates);
}

module _ {R : Type 0} ⦃f : FloatOps R⦄ where
  abbrev pub confidence_issues : R → List GateIssue
  confidence_issues c =
      if f.lt c (f.decimal 50 2)
      then issue low_confidence_record high
      else issue_if (f.lt c (f.decimal 70 2)) low_confidence_record medium

  -- _check_record of the third gate, with the tags seen before
  unfoldable pub check_truth : NormalizedRecord R → List String → List GateIssue
  check_truth r seen =
      duplicate_issue r.tag_id seen
      ++ (check_truth_kind r r.record_kind ++ confidence_issues r.confidence)

  -- One round of the loop over the records
  unfoldable pub sift : List String → List String → NormalizedRecord R → Sieve → Sieve
  sift record_ids raw_ids r s =
      let found = check_truth r s.seen_tags in
      if contains r.record_id record_ids || contains r.raw_id raw_ids
      then record s { rejected_ids = r.record_id ∷ s.rejected_ids }
      else record {
        seen_tags = add_tag r.tag_id s.seen_tags;
        rejected_ids =
            if any should_quarantine_truth found
            then r.record_id ∷ s.rejected_ids
            else s.rejected_ids;
        issues = s.issues ++ found;
        quarantine = s.quarantine ++ blocking should_quarantine_truth r found;
      }

  unfoldable pub sift_all : List String → List String → List (NormalizedRecord R) → Sieve → Sieve
  sift_all record_ids raw_ids [] s = s
  sift_all record_ids raw_ids (r ∷ rs) s =
      sift_all record_ids raw_ids rs (sift record_ids raw_ids r s)

  abbrev pub sifted : List (NormalizedRecord R) → List MappingCandidate → Sieve
  sifted records candidates =
      sift_all (candidate_ids "nrm_" (reviewed candidates))
        (candidate_ids "raw_" (reviewed candidates)) records (first_sieve candidates)

  abbrev pub is_truth_clean : List String → List String → NormalizedRecord R → Bool
  is_truth_clean rejected_ids raw_ids r =
      not (contains r.record_id rejected_ids) && not (contains r.raw_id raw_ids)

  abbrev pub truth_clean :
      List (NormalizedRecord R) → List MappingCandidate → List (NormalizedRecord R)
  truth_clean records candidates =
      filter
        (is_truth_clean (sifted records candidates).rejected_ids
          (candidate_ids "raw_" (reviewed candidates)))
        records

  -- run_gate3_industrial_truth
  unfoldable pub run_gate3_industrial_truth :
      List (NormalizedRecord R)
      → List MappingCandidate
      → GateReport × List QuarantineRecord × List (NormalizedRecord R)
  run_gate3_industrial_truth records candidates =
      if is_empty records && is_empty candidates
      then (record { verdict = skipped; accepted = 0; rejected = 0; issues = [] }, [], [])
      else (let s = sifted records candidates in
          let clean = truth_clean records candidates in
          (
            record {
              verdict = truth_verdict (length records) (length clean) s.issues;
              accepted = length clean;
              rejected = length records - length clean;
              issues = s.issues;
            },
            s.quarantine,
            clean,
          ))
