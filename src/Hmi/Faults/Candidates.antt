-- ===== src/Hmi/Faults/Candidates.antt =====
-- The candidates of apps/api/app/hmi/fault_rules.py: `_build_*_candidate`, their confidence and their
-- ranking.
use plantlens.Prelude.{
  ℕ, String, Bool, Option, none, some, List, [], ◌∷◌, ◌++◌, ◌&&◌, ◌||◌, not, ltb, ◌==◌, any,
  if◌then◌else◌, FloatOps,
}
use plantlens.Prelude.Dict.{Dict, lookup}
use plantlens.Prelude.Sorting.{sort}
use plantlens.Hmi.Status.{HmiSignalStatus, SignalHmiState, warning, fault}
use plantlens.Hmi.Quality.{DataQualityState, clamp_confidence}
use plantlens.Hmi.Faults.{
  Cause, supply_voltage_sag, motor_mechanical_obstruction, downstream_airflow_blockage,
  cause_priority, downstream_supply_signals, motor_side_signals, EvidenceItem, supply_normal,
  airflow_explained_upstream, rpm_unavailable, vibration_normal, supply_explains_downstream,
  motor_not_faulted, RootCauseCandidate, motor_signals, airflow_signals, count_of, note_if,
  is_fault, is_warning, is_warning_or_fault, is_normal, is_unusable, is_healthy_no_fault,
  is_missing_vibration_only_healthy, has_usable_fault_evidence, keep_motor, motor_applies, degraded,
  keep_airflow, airflow_applies,
}

module _ {R : Type 0} ⦃f : FloatOps R⦄ where
  -- _evidence_weight_for_status
  abbrev pub evidence_weight : HmiSignalStatus → R
  evidence_weight fault = f.decimal 10 1
  evidence_weight warning = f.decimal 5 1
  evidence_weight _ = f.decimal 25 2

  -- _evidence_item of the signal, if it is there
  abbrev pub evidence_of : Cause → Option (SignalHmiState R) → List (EvidenceItem R)
  evidence_of cause none = []
  evidence_of cause (some s) =
      record { cause = cause; signal = s; weight = evidence_weight s.status } ∷ []

  -- The loops that collect evidence: the listed signals that are there and pass the test.
  unfoldable pub collect :
      Cause → (String → Bool) → Dict (SignalHmiState R) → List String → List (EvidenceItem R)
  collect cause keep m [] = []
  collect cause keep m (id ∷ ids) =
      (if keep id then evidence_of cause (lookup id m) else []) ++ collect cause keep m ids

  -- _penalize_confidence
  unfoldable pub penalize_confidence : R → DataQualityState R → R → R
  penalize_confidence base q extra =
      f.round (clamp_confidence (f.sub (f.sub base q.confidence_penalty) extra)) 4

  -- `confidence += n / 100` under a test
  abbrev pub bonus : Bool → ℕ → R → R
  bonus test n c = if test then f.add c (f.decimal n 2) else c

  abbrev pub motor_base : Dict (SignalHmiState R) → R
  motor_base m =
      if is_fault m "MTR_RPM" && is_fault m "MTR_VIBRATION"
      then f.decimal 90 2
      else if is_fault m "MTR_RPM"
          && is_warning_or_fault m "MTR_TEMP"
          && is_unusable m "MTR_VIBRATION"
      then f.decimal 78 2
      else f.decimal 70 2

  -- _build_motor_obstruction_candidate
  unfoldable pub build_motor_obstruction_candidate :
      Dict (SignalHmiState R) → DataQualityState R → Option (RootCauseCandidate R)
  build_motor_obstruction_candidate m q =
      if motor_applies m
      then some (record {
        cause = motor_mechanical_obstruction;
        confidence =
            penalize_confidence
              (bonus (is_fault m "BLW_AIRFLOW") 3 (
                bonus (is_fault m "FAN_RPM") 3
                  (bonus (is_warning_or_fault m "MTR_TEMP") 5 (motor_base m))))
              q (if is_unusable m "MTR_VIBRATION" then f.decimal 10 2 else f.decimal 0 1);
        evidence = collect motor_mechanical_obstruction (keep_motor m) m motor_signals;
        rejected_alternatives =
            note_if (is_normal m "PSU_VOLTAGE") supply_normal
            ++ (note_if
                  (is_fault m "BLW_AIRFLOW" && (is_fault m "MTR_CURRENT" || is_fault m "MTR_RPM"))
                  airflow_explained_upstream
                ++ note_if (is_unusable m "MTR_RPM") rpm_unavailable);
      })
      else none

  abbrev pub supply_base : ℕ → R
  supply_base n =
      if n == 1 then f.decimal 70 2 else if n == 2 then f.decimal 85 2 else f.decimal 92 2

  -- _build_supply_voltage_sag_candidate
  unfoldable pub build_supply_voltage_sag_candidate :
      Dict (SignalHmiState R) → DataQualityState R → Option (RootCauseCandidate R)
  build_supply_voltage_sag_candidate m q =
      let degraded_count = count_of (degraded m) downstream_supply_signals in
      if not (is_fault m "PSU_VOLTAGE")
      then none
      else if degraded_count == 0
      then none
      else some (record {
        cause = supply_voltage_sag;
        confidence =
            penalize_confidence
              (bonus (is_fault m "BLW_AIRFLOW") 3 (
                bonus (is_fault m "FAN_RPM") 3
                  (bonus (is_fault m "MTR_RPM") 3 (supply_base degraded_count))))
              q (f.decimal 0 1);
        evidence =
            evidence_of supply_voltage_sag (lookup "PSU_VOLTAGE" m)
            ++ collect supply_voltage_sag (degraded m) m downstream_supply_signals;
        rejected_alternatives =
            note_if (is_normal m "MTR_VIBRATION") vibration_normal
            ++ supply_explains_downstream ∷ [];
      })

  abbrev pub airflow_base : Dict (SignalHmiState R) → R
  airflow_base m =
      if is_normal m "PSU_VOLTAGE" && is_normal m "MTR_CURRENT" && is_normal m "MTR_RPM"
      then f.decimal 82 2
      else if not (count_of (is_warning m) motor_side_signals == 0)
      then f.decimal 74 2
      else if any (is_unusable m) motor_side_signals
      then f.decimal 62 2
      else f.decimal 82 2

  -- _build_airflow_blockage_candidate
  unfoldable pub build_airflow_blockage_candidate :
      Dict (SignalHmiState R) → DataQualityState R → Option (RootCauseCandidate R)
  build_airflow_blockage_candidate m q =
      if airflow_applies m
      then some (record {
        cause = downstream_airflow_blockage;
        confidence =
            penalize_confidence
              (bonus (is_normal m "MTR_VIBRATION") 3
                (bonus (is_normal m "FAN_RPM") 3 (airflow_base m)))
              q (f.decimal 0 1);
        evidence = collect downstream_airflow_blockage (keep_airflow m) m airflow_signals;
        rejected_alternatives = motor_not_faulted ∷ supply_normal ∷ [];
      })
      else none

  -- `(-confidence, priority)` as a sort key; the priorities differ.
  abbrev pub ranked_before : RootCauseCandidate R → RootCauseCandidate R → Bool
  ranked_before a b =
      if f.eq a.confidence b.confidence
      then ltb (cause_priority a.cause) (cause_priority b.cause)
      else f.lt b.confidence a.confidence

  abbrev pub if_there : Option (RootCauseCandidate R) → List (RootCauseCandidate R)
  if_there none = []
  if_there (some c) = c ∷ []

  -- classify_bench_faults of a dict of signals
  unfoldable pub classify_bench_faults :
      Dict (SignalHmiState R) → DataQualityState R → List (RootCauseCandidate R)
  classify_bench_faults m q =
      if is_healthy_no_fault m
      then []
      else if is_missing_vibration_only_healthy m
      then []
      else if not (has_usable_fault_evidence m)
      then []
      else sort ranked_before (
          if_there (build_supply_voltage_sag_candidate m q)
          ++ (if_there (build_motor_obstruction_candidate m q)
              ++ if_there (build_airflow_blockage_candidate m q)))
