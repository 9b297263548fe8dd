-- ===== src/Hmi/Faults/Grounded.antt =====
-- What the evidence of the candidates rests on, and their order.
use plantlens.Prelude.{
  ◌≡◌, String, Bool, true, false, Option, none, some, List, [], ◌∷◌, ◌++◌, refl, arith, FloatOps,
  IsOrdered, if◌then◌else◌, Bool-cases, All, All-append, All_of, inl, inr, ◌==◌,
}
use plantlens.Prelude.Dict.{Dict, lookup}
use plantlens.Prelude.Sorting.{IsSorted, sort, sort-IsSorted, All-sort}
use plantlens.Hmi.Status.{SignalHmiState}
use plantlens.Hmi.Quality.{DataQualityState}
use plantlens.Hmi.Faults.{
  Cause, supply_voltage_sag, motor_mechanical_obstruction, downstream_airflow_blockage,
  EvidenceItem, RootCauseCandidate, with_status, good_status, motor_applies, airflow_applies,
  is_fault, is_good_evidence, motor_signals, airflow_signals, keep_motor, keep_airflow, degraded,
  downstream_supply_signals, count_of, is_healthy_no_fault, is_missing_vibration_only_healthy,
  has_usable_fault_evidence,
}
use plantlens.Hmi.Faults.Shown.{fault_good, abnormal_good}
use plantlens.Hmi.Faults.Candidates.{
  evidence_weight, evidence_of, collect, build_motor_obstruction_candidate,
  build_supply_voltage_sag_candidate, build_airflow_blockage_candidate, ranked_before, if_there,
  classify_bench_faults,
}

module _ {R : Type 0} ⦃f : FloatOps R⦄ where
  -- The item is evidence for the cause, shows a signal that is there and neither stale nor missing, and
  -- weighs what its status weighs.
  pub record IsUsable (m : Dict (SignalHmiState R)) (cause : Cause) (e : EvidenceItem R)
      : Type 0 where
    pub same_cause : e.cause ≡ cause
    pub key : String
    pub shown : lookup key m ≡ some e.signal
    pub good : good_status e.signal.status ≡ true
    pub weighed : e.weight ≡ evidence_weight e.signal.status

  abbrev pub IsGrounded : Dict (SignalHmiState R) → RootCauseCandidate R → Type 0
  IsGrounded m c = All (IsUsable m c.cause) c.evidence

  evidence_of-IsUsable :
      (m : Dict (SignalHmiState R)) (cause : Cause) (id : String)
      → is_good_evidence m id ≡ true
      → (o : Option (SignalHmiState R)) → lookup id m ≡ o
      → with_status good_status o ≡ true
      → All (IsUsable m cause) (evidence_of cause o)
  evidence_of-IsUsable m cause id g none e h = tt
  evidence_of-IsUsable m cause id g (some s) e h =
      (record { same_cause = refl; key = id; shown = e; good = h; weighed = refl }, tt)

  shown-IsUsable :
      (m : Dict (SignalHmiState R)) (cause : Cause) (id : String)
      → is_good_evidence m id ≡ true
      → All (IsUsable m cause) (evidence_of cause (lookup id m))
  shown-IsUsable m cause id g = evidence_of-IsUsable m cause id g (lookup id m) refl g

  collect-IsUsable :
      (m : Dict (SignalHmiState R)) (cause : Cause) (keep : String → Bool) (ids : List String)
      → All (λ id. keep id ≡ true → is_good_evidence m id ≡ true) ids
      → All (IsUsable m cause) (collect cause keep m ids)
  unfolding collect
  collect-IsUsable m cause keep [] h = tt
  collect-IsUsable m cause keep (id ∷ ids) h =
      All-append (IsUsable m cause) (if keep id then evidence_of cause (lookup id m) else [])
        (collect cause keep m ids)
        (elim (Bool-cases (keep id)) [
          | inl e ↦ rw e (shown-IsUsable m cause id (h.0 e))
          | inr e ↦ rw e tt
        ])
        (collect-IsUsable m cause keep ids h.1)

  motor_evidence :
      (m : Dict (SignalHmiState R))
      → All (λ id. keep_motor m id ≡ true → is_good_evidence m id ≡ true) motor_signals
  unfolding keep_motor
  motor_evidence m = (
    λ h. fault_good m "MTR_CURRENT" (ground (arith, h)),
    (
      λ h. fault_good m "MTR_RPM" (ground (arith, h)),
      (
        λ h. fault_good m "MTR_VIBRATION" (ground (arith, h)),
        (
          λ h. abnormal_good m "MTR_TEMP" (ground (arith, h)),
          (
            λ h. fault_good m "FAN_RPM" (ground (arith, h)),
            (λ h. fault_good m "BLW_AIRFLOW" (ground (arith, h)), tt),
          ),
        ),
      ),
    ),
  )

  airflow_keeps_good :
      (m : Dict (SignalHmiState R)) (id : String)
      → keep_airflow m id ≡ true
      → is_good_evidence m id ≡ true
  unfolding keep_airflow
  airflow_keeps_good m id h = ground (arith, h)

  degraded_good :
      (m : Dict (SignalHmiState R)) (id : String)
      → degraded m id ≡ true
      → is_good_evidence m id ≡ true
  degraded_good m id h = ground (arith, h)

  supply-IsGrounded :
      (m : Dict (SignalHmiState R)) (q : DataQualityState R)
      → All (IsGrounded m) (if_there (build_supply_voltage_sag_candidate m q))
  unfolding build_supply_voltage_sag_candidate
  supply-IsGrounded m q = elim (Bool-cases (is_fault m "PSU_VOLTAGE")) [
    | inl e ↦ elim (Bool-cases (count_of (degraded m) downstream_supply_signals == 0)) [
      | inl z ↦ rw (e, z) tt
      | inr z ↦
          rw (e, z)
            (
              All-append (IsUsable m supply_voltage_sag)
                  (evidence_of supply_voltage_sag (lookup "PSU_VOLTAGE" m))
                  (collect supply_voltage_sag (degraded m) m downstream_supply_signals)
                  (shown-IsUsable m supply_voltage_sag "PSU_VOLTAGE" (fault_good m "PSU_VOLTAGE" e))
                  (collect-IsUsable m supply_voltage_sag (degraded m) downstream_supply_signals (
                    All_of (λ id. degraded m id ≡ true → is_good_evidence m id ≡ true)
                      (degraded_good m) downstream_supply_signals)),
              tt,
            )
    ]
    | inr e ↦ rw e tt
  ]

  motor-IsGrounded :
      (m : Dict (SignalHmiState R)) (q : DataQualityState R)
      → All (IsGrounded m) (if_there (build_motor_obstruction_candidate m q))
  unfolding build_motor_obstruction_candidate
  motor-IsGrounded m q = elim (Bool-cases (motor_applies m)) [
    | inl e ↦ rw e (
      collect-IsUsable m motor_mechanical_obstruction (keep_motor m) motor_signals
          (motor_evidence m),
      tt,
    )
    | inr e ↦ rw e tt
  ]

  airflow-IsGrounded :
      (m : Dict (SignalHmiState R)) (q : DataQualityState R)
      → All (IsGrounded m) (if_there (build_airflow_blockage_candidate m q))
  unfolding build_airflow_blockage_candidate
  airflow-IsGrounded m q = elim (Bool-cases (airflow_applies m)) [
    | inl e ↦ rw e (
      collect-IsUsable m downstream_airflow_blockage (keep_airflow m) airflow_signals (
          All_of (λ id. keep_airflow m id ≡ true → is_good_evidence m id ≡ true)
            (airflow_keeps_good m) airflow_signals),
      tt,
    )
    | inr e ↦ rw e tt
  ]

  -- The result is empty or the sorted candidates.
  pub classify_cases :
      (P : List (RootCauseCandidate R) → Type 0) (m : Dict (SignalHmiState R))
      (q : DataQualityState R)
      → P []
      → P (
          sort ranked_before (
            if_there (build_supply_voltage_sag_candidate m q)
            ++ (if_there (build_motor_obstruction_candidate m q)
                ++ if_there (build_airflow_blockage_candidate m q))))
      → P (classify_bench_faults m q)
  unfolding classify_bench_faults
  classify_cases P m q none_ some_ = elim (Bool-cases (is_healthy_no_fault m)) [
    | inl e ↦ rw e none_
    | inr e ↦ elim (Bool-cases (is_missing_vibration_only_healthy m)) [
      | inl k ↦ rw (e, k) none_
      | inr k ↦ elim (Bool-cases (has_usable_fault_evidence m)) [
        | inl u ↦ rw (e, k, u) some_
        | inr u ↦ rw (e, k, u) none_
      ]
    ]
  ]

  pub classify_passes :
      (m : Dict (SignalHmiState R)) (q : DataQualityState R)
      → is_healthy_no_fault m ≡ false
      → is_missing_vibration_only_healthy m ≡ false
      → has_usable_fault_evidence m ≡ true
      → classify_bench_faults m q
        ≡ sort ranked_before (
            if_there (build_supply_voltage_sag_candidate m q)
            ++ (if_there (build_motor_obstruction_candidate m q)
                ++ if_there (build_airflow_blockage_candidate m q)))
  unfolding classify_bench_faults
  classify_passes m q healthy spared usable = rw (healthy, spared, usable)

  -- No candidate behind is more certain than the one in front.
  abbrev pub NotLess : RootCauseCandidate R → RootCauseCandidate R → Type 0
  NotLess a b = f.lt a.confidence b.confidence ≡ false

  -- Each evidence item of a candidate of `classify_bench_faults` is evidence for the candidate's cause
  -- and shows a signal of the dict that is neither stale nor missing, with the weight of its status.
  pub classify_bench_faults-IsGrounded :
      (m : Dict (SignalHmiState R)) (q : DataQualityState R)
      → All (IsGrounded m) (classify_bench_faults m q)
  classify_bench_faults-IsGrounded m q =
      let supply = if_there (build_supply_voltage_sag_candidate m q) in
      let motor = if_there (build_motor_obstruction_candidate m q) in
      let airflow = if_there (build_airflow_blockage_candidate m q) in
      classify_cases (All (IsGrounded m)) m q tt (
        All-sort ranked_before (IsGrounded m) (supply ++ (motor ++ airflow)) (
          All-append (IsGrounded m) supply (motor ++ airflow) (supply-IsGrounded m q) (
            All-append (IsGrounded m) motor airflow (motor-IsGrounded m q)
              (airflow-IsGrounded m q))))

  ranked_first : IsOrdered f → (a b : RootCauseCandidate R) → ranked_before a b ≡ true → NotLess a b
  ranked_first o a b h = elim (Bool-cases (f.eq a.confidence b.confidence)) [
    | inl e ↦ o.eq_left a.confidence b.confidence e
    | inr e ↦ o.asym b.confidence a.confidence (ground (arith, h, e))
  ]

  ranked_second :
      IsOrdered f → (a b : RootCauseCandidate R) → ranked_before a b ≡ false → NotLess b a
  ranked_second o a b h = elim (Bool-cases (f.eq a.confidence b.confidence)) [
    | inl e ↦ o.eq_right a.confidence b.confidence e
    | inr e ↦ ground (arith, h, e)
  ]

  -- Where the confidences are ordered, no candidate is less certain than one behind it.
  pub classify_bench_faults-IsSorted :
      IsOrdered f
      → (m : Dict (SignalHmiState R)) (q : DataQualityState R)
      → IsSorted NotLess (classify_bench_faults m q)
  classify_bench_faults-IsSorted o m q = classify_cases (IsSorted NotLess) m q tt (
      sort-IsSorted ranked_before NotLess (ranked_first o) (ranked_second o)
        (λ a b c. o.not_below_trans a.confidence b.confidence c.confidence)
        (if_there (build_supply_voltage_sag_candidate m q)
          ++ (if_there (build_motor_obstruction_candidate m q)
              ++ if_there (build_airflow_blockage_candidate m q))))
