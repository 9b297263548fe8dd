-- ===== src/Hmi/Faults/Shown.antt =====
-- How the tests of a signal's status relate.
use plantlens.Prelude.{◌≡◌, String, Bool, true, false, Option, none, some, refl, arith}
use plantlens.Prelude.Dict.{Dict, lookup}
use plantlens.Hmi.Status.{HmiSignalStatus, SignalHmiState}
use plantlens.Hmi.Faults.{
  with_status, good_status, fault_status, warning_or_fault_status, normal_status, is_fault,
  is_good_evidence, is_normal, is_warning_or_fault,
}

module _ {R : Type 0} where
  with_status-pass :
      (p r : HmiSignalStatus → Bool)
      → ((s : HmiSignalStatus) → p s ≡ true → r s ≡ true)
      → (o : Option (SignalHmiState R)) → with_status p o ≡ true
      → with_status r o ≡ true
  with_status-pass p r h none e = e
  with_status-pass p r h (some s) e = h s.status e

  with_status-fail :
      (p r : HmiSignalStatus → Bool)
      → ((s : HmiSignalStatus) → p s ≡ true → r s ≡ false)
      → (o : Option (SignalHmiState R)) → with_status p o ≡ true
      → with_status r o ≡ false
  with_status-fail p r h none e = refl
  with_status-fail p r h (some s) e = h s.status e

  module _ (m : Dict (SignalHmiState R)) (id : String) where
    pub fault_good : is_fault m id ≡ true → is_good_evidence m id ≡ true
    fault_good = with_status-pass fault_status good_status (λ s h. ground (arith, h)) (lookup id m)

    pub fault_abnormal : is_fault m id ≡ true → is_warning_or_fault m id ≡ true
    fault_abnormal =
        with_status-pass fault_status warning_or_fault_status (λ s h. ground (arith, h))
          (lookup id m)

    pub abnormal_good : is_warning_or_fault m id ≡ true → is_good_evidence m id ≡ true
    abnormal_good =
        with_status-pass warning_or_fault_status good_status (λ s h. ground (arith, h))
          (lookup id m)

    pub fault_not_normal : is_fault m id ≡ true → is_normal m id ≡ false
    fault_not_normal =
        with_status-fail fault_status normal_status (λ s h. ground (arith, h)) (lookup id m)
