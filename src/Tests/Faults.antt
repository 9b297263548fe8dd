-- ===== src/Tests/Faults.antt =====
-- A bench whose motor is blocked while its vibration sensor is gone.
use plantlens.Prelude.{ℕ, String, ◌≡◌, refl, none, List, [], ◌∷◌, All, any, map}
use plantlens.Prelude.Dict.{Dict, lookup, insert}
use plantlens.Prelude.Sorting.{IsSorted, sort, insort}
use plantlens.Frame.{num}
use plantlens.Hmi.Status.{HmiSignalStatus, SignalHmiState, normal, warning, fault}
use plantlens.Hmi.Quality.{DataQualityState, build_data_quality, clamp_confidence}
use plantlens.Hmi.Faults.{
  supply_voltage_sag, RootCauseCandidate, as_signal_map, keep_motor, motor_applies, keep_airflow,
  airflow_applies, is_healthy_no_fault, is_missing_vibration_only_healthy,
  has_usable_fault_evidence,
}
use plantlens.Hmi.Faults.Candidates.{
  classify_bench_faults, build_supply_voltage_sag_candidate, build_motor_obstruction_candidate,
  build_airflow_blockage_candidate, penalize_confidence, collect,
}
use plantlens.Hmi.Faults.Grounded.{
  IsGrounded, NotLess, classify_bench_faults-IsGrounded, classify_bench_faults-IsSorted,
}
use plantlens.Hmi.Faults.Listed.{is_of, points_at, classify_bench_faults-points_at}
use plantlens.Tests.Numbers.{thousandths, thousandths-IsOrdered}

abbrev signal : String → HmiSignalStatus → SignalHmiState ℕ
signal id status = record {
  signal_id = id;
  asset_id = "MTR-12V";
  name = id;
  value = num 1000;
  unit = "";
  status = status;
  expected_range = none;
  evidence_weight = 1000;
  timestamp = none;
}

abbrev bench : List (SignalHmiState ℕ)
bench =
    signal "PSU_VOLTAGE" fault
    ∷ signal "MTR_CURRENT" fault
    ∷ signal "MTR_RPM" fault
    ∷ signal "MTR_VIBRATION" HmiSignalStatus.missing
    ∷ signal "MTR_TEMP" warning
    ∷ signal "FAN_RPM" normal
    ∷ signal "BLW_AIRFLOW" fault
    ∷ []

abbrev signals : Dict (SignalHmiState ℕ)
signals = as_signal_map bench []

abbrev quality : DataQualityState ℕ
quality = build_data_quality bench

quality_penalty : quality.confidence_penalty ≡ 250
unfolding build_data_quality sort insort
quality_penalty = refl

-- The supply comes first, with 92 + 6 - 25 percent, then the motor with 78 + 5 + 3 - 25 - 10.
ranking :
    map (λ (c : RootCauseCandidate ℕ). c.confidence) (classify_bench_faults signals quality)
    ≡ 730 ∷ 510 ∷ []
unfolding classify_bench_faults build_supply_voltage_sag_candidate build_motor_obstruction_candidate
    build_airflow_blockage_candidate keep_motor motor_applies keep_airflow airflow_applies
    is_healthy_no_fault is_missing_vibration_only_healthy has_usable_fault_evidence
    penalize_confidence collect as_signal_map build_data_quality clamp_confidence sort insort insert
    lookup
ranking = refl

classify_bench_faults-points_at_example :
    any (is_of supply_voltage_sag) (classify_bench_faults signals quality)
    ≡ points_at signals supply_voltage_sag
classify_bench_faults-points_at_example =
    classify_bench_faults-points_at signals quality supply_voltage_sag

classify_bench_faults-IsGrounded_example :
    All (IsGrounded signals) (classify_bench_faults signals quality)
classify_bench_faults-IsGrounded_example = classify_bench_faults-IsGrounded signals quality

classify_bench_faults-IsSorted_example : IsSorted NotLess (classify_bench_faults signals quality)
classify_bench_faults-IsSorted_example =
    classify_bench_faults-IsSorted thousandths-IsOrdered signals quality
