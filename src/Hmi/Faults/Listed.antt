-- ===== src/Hmi/Faults/Listed.antt =====
-- Which causes `classify_bench_faults` lists.
use plantlens.Prelude.{
  ◌≡◌, String, Bool, true, false, not, ◌++◌, refl, arith, FloatOps, Bool-cases, inl, inr, ◌==◌,
  any-filter, sym, ap, ◌∙◌, any, any-append, ◌&&◌, ◌||◌,
}
use plantlens.Prelude.Dict.{Dict}
use plantlens.Prelude.Sorting.{sort, any-sort}
use plantlens.Hmi.Status.{SignalHmiState}
use plantlens.Hmi.Quality.{DataQualityState}
use plantlens.Hmi.Faults.{
  Cause, supply_voltage_sag, motor_mechanical_obstruction, downstream_airflow_blockage,
  RootCauseCandidate, critical_signals, degraded, count_of, is_fault, is_good_evidence, is_unusable,
  is_warning_or_fault, motor_applies, airflow_applies, downstream_supply_signals,
  is_healthy_no_fault, is_missing_vibration_only_healthy, has_usable_fault_evidence,
}
use plantlens.Hmi.Faults.Shown.{fault_good, abnormal_good, fault_not_normal}
use plantlens.Hmi.Faults.Grounded.{classify_cases, classify_passes}
use plantlens.Hmi.Faults.Candidates.{
  build_motor_obstruction_candidate, build_supply_voltage_sag_candidate,
  build_airflow_blockage_candidate, ranked_before, if_there, classify_bench_faults,
}

abbrev pub is_cause : Cause → Cause → Bool
is_cause supply_voltage_sag supply_voltage_sag = true
is_cause motor_mechanical_obstruction motor_mechanical_obstruction = true
is_cause downstream_airflow_blockage downstream_airflow_blockage = true
is_cause _ _ = false

and_false : (a : Bool) → (a && false) ≡ false
and_false a = ground arith

or_false : (a : Bool) → (a || false) ≡ a
or_false a = ground arith

or_true : (a : Bool) → (a || true) ≡ true
or_true a = ground arith

none_counted :
    (test : String → Bool)
    → (count_of test downstream_supply_signals == 0)
      ≡ not (test "MTR_CURRENT" || test "MTR_RPM" || test "FAN_RPM" || test "BLW_AIRFLOW")
none_counted test = ground arith

module _ {R : Type 0} where
  -- What the signals must show for each cause.
  abbrev pub points_at : Dict (SignalHmiState R) → Cause → Bool
  points_at m supply_voltage_sag =
      is_fault m "PSU_VOLTAGE"
      && (is_warning_or_fault m "MTR_CURRENT"
          || is_warning_or_fault m "MTR_RPM"
          || is_warning_or_fault m "FAN_RPM"
          || is_warning_or_fault m "BLW_AIRFLOW")
  points_at m motor_mechanical_obstruction =
      is_fault m "MTR_CURRENT"
      && (is_fault m "MTR_RPM" || is_unusable m "MTR_RPM")
      && (is_fault m "MTR_VIBRATION" || is_warning_or_fault m "MTR_TEMP")
  points_at m downstream_airflow_blockage =
      is_fault m "BLW_AIRFLOW"
      && not (is_fault m "PSU_VOLTAGE" || is_fault m "MTR_CURRENT" || is_fault m "MTR_RPM")

  abbrev pub is_of : Cause → RootCauseCandidate R → Bool
  is_of cause c = is_cause cause c.cause

  degraded_abnormal :
      (m : Dict (SignalHmiState R)) (id : String) → degraded m id ≡ is_warning_or_fault m id
  degraded_abnormal m id = ground (arith, abnormal_good m id)

  supply_count :
      (m : Dict (SignalHmiState R))
      → (count_of (degraded m) downstream_supply_signals == 0)
        ≡ not (
            is_warning_or_fault m "MTR_CURRENT"
            || is_warning_or_fault m "MTR_RPM"
            || is_warning_or_fault m "FAN_RPM"
            || is_warning_or_fault m "BLW_AIRFLOW")
  supply_count m =
      ap (λ test. count_of test downstream_supply_signals == 0) (λ i id. degraded_abnormal m id i)
      ∙ none_counted (is_warning_or_fault m)

  motor_applies_points :
      (m : Dict (SignalHmiState R)) → motor_applies m ≡ points_at m motor_mechanical_obstruction
  unfolding motor_applies
  motor_applies_points m = ground arith

  airflow_applies_points :
      (m : Dict (SignalHmiState R)) → airflow_applies m ≡ points_at m downstream_airflow_blockage
  unfolding airflow_applies
  airflow_applies_points m = ground arith

  -- A fault of one of these signals passes the early returns.
  abbrev Passes : Dict (SignalHmiState R) → Type 0
  Passes m =
      (is_healthy_no_fault m ≡ false)
      × ((is_missing_vibration_only_healthy m ≡ false) × (has_usable_fault_evidence m ≡ true))

  supply-Passes : (m : Dict (SignalHmiState R)) → is_fault m "PSU_VOLTAGE" ≡ true → Passes m
  unfolding is_healthy_no_fault is_missing_vibration_only_healthy has_usable_fault_evidence
  supply-Passes m h =
      let n = fault_not_normal m "PSU_VOLTAGE" h in
      (ground (arith, n), (ground (arith, n), ground (arith, h, fault_good m "PSU_VOLTAGE" h)))

  current-Passes : (m : Dict (SignalHmiState R)) → is_fault m "MTR_CURRENT" ≡ true → Passes m
  unfolding is_healthy_no_fault is_missing_vibration_only_healthy has_usable_fault_evidence
  current-Passes m h =
      let n = fault_not_normal m "MTR_CURRENT" h in
      (ground (arith, n), (ground (arith, n), ground (arith, h, fault_good m "MTR_CURRENT" h)))

  airflow-Passes : (m : Dict (SignalHmiState R)) → is_fault m "BLW_AIRFLOW" ≡ true → Passes m
  unfolding is_healthy_no_fault is_missing_vibration_only_healthy has_usable_fault_evidence
  airflow-Passes m h =
      let n = fault_not_normal m "BLW_AIRFLOW" h in
      (
        simp (n, and_false),
        (
          simp (n, and_false),
          any-filter (is_fault m) (is_good_evidence m) critical_signals
              ∙ simp (h, fault_good m "BLW_AIRFLOW" h, or_true),
        ),
      )

  pointed-Passes : (m : Dict (SignalHmiState R)) (c : Cause) → points_at m c ≡ true → Passes m
  pointed-Passes m supply_voltage_sag h = supply-Passes m (ground (arith, h))
  pointed-Passes m motor_mechanical_obstruction h = current-Passes m (ground (arith, h))
  pointed-Passes m downstream_airflow_blockage h = airflow-Passes m (ground (arith, h))

module _ {R : Type 0} ⦃f : FloatOps R⦄ where
  supply-is_of :
      (m : Dict (SignalHmiState R)) (q : DataQualityState R) (c : Cause)
      → any (is_of c) (if_there (build_supply_voltage_sag_candidate m q))
        ≡ (is_cause c supply_voltage_sag && points_at m supply_voltage_sag)
  unfolding build_supply_voltage_sag_candidate
  supply-is_of m q c = elim (Bool-cases (is_fault m "PSU_VOLTAGE")) [
    | inl e ↦ elim (Bool-cases (count_of (degraded m) downstream_supply_signals == 0)) [
      | inl z ↦ rw (e, z) (ground (arith, supply_count m, e, z))
      | inr z ↦ rw (e, z) (ground (arith, supply_count m, e, z))
    ]
    | inr e ↦ rw e (ground (arith, e))
  ]

  motor-is_of :
      (m : Dict (SignalHmiState R)) (q : DataQualityState R) (c : Cause)
      → any (is_of c) (if_there (build_motor_obstruction_candidate m q))
        ≡ (is_cause c motor_mechanical_obstruction && points_at m motor_mechanical_obstruction)
  unfolding build_motor_obstruction_candidate
  motor-is_of m q c = elim (Bool-cases (motor_applies m)) [
    | inl e ↦ rw e (ground (arith, motor_applies_points m, e))
    | inr e ↦ rw e (ground (arith, motor_applies_points m, e))
  ]

  airflow-is_of :
      (m : Dict (SignalHmiState R)) (q : DataQualityState R) (c : Cause)
      → any (is_of c) (if_there (build_airflow_blockage_candidate m q))
        ≡ (is_cause c downstream_airflow_blockage && points_at m downstream_airflow_blockage)
  unfolding build_airflow_blockage_candidate
  airflow-is_of m q c = elim (Bool-cases (airflow_applies m)) [
    | inl e ↦ rw e (ground (arith, airflow_applies_points m, e))
    | inr e ↦ rw e (ground (arith, airflow_applies_points m, e))
  ]

  sum_of_causes :
      (m : Dict (SignalHmiState R)) (c : Cause)
      → ((is_cause c supply_voltage_sag && points_at m supply_voltage_sag)
          || ((is_cause c motor_mechanical_obstruction && points_at m motor_mechanical_obstruction)
              || (is_cause c downstream_airflow_blockage
                  && points_at m downstream_airflow_blockage)))
        ≡ points_at m c
  sum_of_causes m supply_voltage_sag = simp or_false
  sum_of_causes m motor_mechanical_obstruction = simp or_false
  sum_of_causes m downstream_airflow_blockage = refl

  candidates-points_at :
      (m : Dict (SignalHmiState R)) (q : DataQualityState R) (c : Cause)
      → any (is_of c) (
          sort ranked_before (
            if_there (build_supply_voltage_sag_candidate m q)
            ++ (if_there (build_motor_obstruction_candidate m q)
                ++ if_there (build_airflow_blockage_candidate m q))))
        ≡ points_at m c
  candidates-points_at m q c =
      let supply = if_there (build_supply_voltage_sag_candidate m q) in
      let motor = if_there (build_motor_obstruction_candidate m q) in
      let airflow = if_there (build_airflow_blockage_candidate m q) in
      any-sort ranked_before (is_of c) (supply ++ (motor ++ airflow))
      ∙ any-append (is_of c) supply (motor ++ airflow)
      ∙ (λ i. supply-is_of m q c i || any-append (is_of c) motor airflow i)
      ∙ (λ i.
          (is_cause c supply_voltage_sag && points_at m supply_voltage_sag)
          || (motor-is_of m q c i || airflow-is_of m q c i))
      ∙ sum_of_causes m c

  -- Whether `classify_bench_faults` lists a cause is decided by what the signals point at: none of the
  -- early returns hides a cause that is pointed at, and no other cause is listed.
  pub classify_bench_faults-points_at :
      (m : Dict (SignalHmiState R)) (q : DataQualityState R) (c : Cause)
      → any (is_of c) (classify_bench_faults m q) ≡ points_at m c
  classify_bench_faults-points_at m q c = elim (Bool-cases (points_at m c)) [
    | inl e ↦
        let (healthy, (spared, usable)) = pointed-Passes m c e in
        ap (any (is_of c)) (classify_passes m q healthy spared usable) ∙ candidates-points_at m q c
    | inr e ↦
        classify_cases (λ xs. any (is_of c) xs ≡ points_at m c) m q (sym e)
          (candidates-points_at m q c)
  ]
