-- ===== src/Hmi/Faults.antt =====
-- apps/api/app/hmi/fault_rules.py: the causes that the demo bench's signals point at. A cause stands
-- for its id, which decides the title and the asset. The texts that describe an evidence item and a
-- rejected alternative are left out; which alternatives are rejected is kept. Here are the data and the tests
-- of the signals.
pub mod Candidates
pub mod Shown
pub mod Listed
pub mod Grounded
use plantlens.Prelude.{
  ℕ, zero, suc, ◌+◌, String, Bool, true, false, Option, none, some, List, [], ◌∷◌, ◌++◌, ◌&&◌, ◌||◌,
  not, ltb, ◌==◌, str_eq, any, all, length, filter, if◌then◌else◌, FloatOps,
}
use plantlens.Prelude.Dict.{Dict, lookup, insert}
use plantlens.Prelude.Sorting.{sort}
use plantlens.Frame.{TagValue}
use plantlens.Hmi.Status.{HmiSignalStatus, SignalHmiState, normal, warning, fault}
use plantlens.Hmi.Quality.{DataQualityState, clamp_confidence}

pub data Cause : Type 0 where
  supply_voltage_sag motor_mechanical_obstruction downstream_airflow_blockage : Cause

-- CAUSE_PRIORITY
abbrev pub cause_priority : Cause → ℕ
cause_priority supply_voltage_sag = 1
cause_priority motor_mechanical_obstruction = 2
cause_priority downstream_airflow_blockage = 3

-- CRITICAL_SIGNALS
abbrev pub critical_signals : List String
critical_signals =
    "PSU_VOLTAGE" ∷ "MTR_CURRENT" ∷ "MTR_RPM" ∷ "MTR_VIBRATION" ∷ "MTR_TEMP" ∷ "FAN_RPM"
    ∷ "BLW_AIRFLOW" ∷ []

-- DOWNSTREAM_SUPPLY_SIGNALS
abbrev pub downstream_supply_signals : List String
downstream_supply_signals = "MTR_CURRENT" ∷ "MTR_RPM" ∷ "FAN_RPM" ∷ "BLW_AIRFLOW" ∷ []

-- MOTOR_SIDE_SIGNALS
abbrev pub motor_side_signals : List String
motor_side_signals = "MTR_CURRENT" ∷ "MTR_RPM" ∷ "MTR_VIBRATION" ∷ []

pub record EvidenceItem (R : Type 0) : Type 0 where
  pub cause : Cause
  pub signal : SignalHmiState R
  pub weight : R

pub data Note : Type 0 where
  supply_normal airflow_explained_upstream rpm_unavailable : Note
  vibration_normal supply_explains_downstream motor_not_faulted : Note

pub record RootCauseCandidate (R : Type 0) : Type 0 where
  pub cause : Cause
  pub confidence : R
  pub evidence : List (EvidenceItem R)
  pub rejected_alternatives : List Note

abbrev pub fault_status : HmiSignalStatus → Bool
fault_status fault = true
fault_status _ = false

abbrev pub warning_status : HmiSignalStatus → Bool
warning_status warning = true
warning_status _ = false

abbrev pub normal_status : HmiSignalStatus → Bool
normal_status normal = true
normal_status _ = false

abbrev pub warning_or_fault_status : HmiSignalStatus → Bool
warning_or_fault_status s = warning_status s || fault_status s

abbrev pub good_status : HmiSignalStatus → Bool
good_status s = normal_status s || warning_status s || fault_status s

abbrev pub unusable_status : HmiSignalStatus → Bool
unusable_status HmiSignalStatus.stale = true
unusable_status HmiSignalStatus.missing = true
unusable_status _ = false

-- The tuples that the loops over a candidate's evidence run through
abbrev pub motor_signals : List String
motor_signals =
    "MTR_CURRENT" ∷ "MTR_RPM" ∷ "MTR_VIBRATION" ∷ "MTR_TEMP" ∷ "FAN_RPM" ∷ "BLW_AIRFLOW" ∷ []

abbrev pub airflow_signals : List String
airflow_signals =
    "BLW_AIRFLOW" ∷ "PSU_VOLTAGE" ∷ "MTR_CURRENT" ∷ "MTR_RPM" ∷ "FAN_RPM" ∷ "MTR_VIBRATION" ∷ []

-- How many of the signals pass the test.
abbrev pub count_of : (String → Bool) → List String → ℕ
count_of test ids = length (filter test ids)

-- `rejected.append` under a test
abbrev pub note_if : Bool → Note → List Note
note_if test n = if test then n ∷ [] else []

module _ {R : Type 0} where
  abbrev pub with_status : (HmiSignalStatus → Bool) → Option (SignalHmiState R) → Bool
  with_status test none = false
  with_status test (some s) = test s.status

  -- _as_signal_map of a list
  unfoldable pub as_signal_map :
      List (SignalHmiState R) → Dict (SignalHmiState R) → Dict (SignalHmiState R)
  as_signal_map [] d = d
  as_signal_map (x ∷ xs) d = as_signal_map xs (insert x.signal_id x d)

  -- _is_fault, and the other tests of a signal by its status
  abbrev pub is_fault : Dict (SignalHmiState R) → String → Bool
  is_fault m id = with_status fault_status (lookup id m)

  abbrev pub is_warning : Dict (SignalHmiState R) → String → Bool
  is_warning m id = with_status warning_status (lookup id m)

  abbrev pub is_warning_or_fault : Dict (SignalHmiState R) → String → Bool
  is_warning_or_fault m id = with_status warning_or_fault_status (lookup id m)

  abbrev pub is_normal : Dict (SignalHmiState R) → String → Bool
  is_normal m id = with_status normal_status (lookup id m)

  abbrev pub is_good_evidence : Dict (SignalHmiState R) → String → Bool
  is_good_evidence m id = with_status good_status (lookup id m)

  abbrev pub is_unusable : Dict (SignalHmiState R) → String → Bool
  is_unusable m id = with_status unusable_status (lookup id m)

  -- _is_healthy_no_fault
  unfoldable pub is_healthy_no_fault : Dict (SignalHmiState R) → Bool
  is_healthy_no_fault m = all (is_normal m) critical_signals

  -- _is_missing_vibration_only_healthy
  unfoldable pub is_missing_vibration_only_healthy : Dict (SignalHmiState R) → Bool
  is_missing_vibration_only_healthy m =
      is_unusable m "MTR_VIBRATION"
      && all (is_normal m) (filter (λ id. not (str_eq id "MTR_VIBRATION")) critical_signals)

  -- _has_usable_fault_evidence
  unfoldable pub has_usable_fault_evidence : Dict (SignalHmiState R) → Bool
  has_usable_fault_evidence m = any (is_fault m) (filter (is_good_evidence m) critical_signals)

  -- The `continue`s of the loop over the motor's evidence.
  unfoldable pub keep_motor : Dict (SignalHmiState R) → String → Bool
  keep_motor m id =
      not (str_eq id "MTR_VIBRATION" && is_unusable m "MTR_VIBRATION")
      && not (str_eq id "MTR_RPM" && is_unusable m "MTR_RPM")
      && not (str_eq id "MTR_TEMP" && not (is_warning_or_fault m "MTR_TEMP"))
      && not (str_eq id "FAN_RPM" && not (is_fault m id))
      && not (str_eq id "BLW_AIRFLOW" && not (is_fault m id))
      && not (
          (str_eq id "MTR_CURRENT" || str_eq id "MTR_RPM" || str_eq id "MTR_VIBRATION")
          && not (is_fault m id))

  -- The tests that `_build_motor_obstruction_candidate` makes before it builds a candidate.
  unfoldable pub motor_applies : Dict (SignalHmiState R) → Bool
  motor_applies m =
      let vibration_or_temp = is_fault m "MTR_VIBRATION" || is_warning_or_fault m "MTR_TEMP" in
      is_fault m "MTR_CURRENT"
      && (is_fault m "MTR_RPM" || (is_unusable m "MTR_RPM" && vibration_or_temp))
      && vibration_or_temp

  abbrev pub degraded : Dict (SignalHmiState R) → String → Bool
  degraded m id = is_good_evidence m id && is_warning_or_fault m id

  -- The `continue`s of the loop over the airflow's evidence.
  unfoldable pub keep_airflow : Dict (SignalHmiState R) → String → Bool
  keep_airflow m id =
      is_good_evidence m id
      && not (str_eq id "BLW_AIRFLOW" && not (is_fault m id))
      && not (not (str_eq id "BLW_AIRFLOW") && not (is_normal m id || is_warning m id))

  -- The tests that `_build_airflow_blockage_candidate` makes before it builds a candidate.
  unfoldable pub airflow_applies : Dict (SignalHmiState R) → Bool
  airflow_applies m =
      is_fault m "BLW_AIRFLOW"
      && not (is_fault m "PSU_VOLTAGE")
      && not (is_fault m "MTR_CURRENT")
      && not (is_fault m "MTR_RPM")
