-- ===== src/Hmi/Status/Verdict.antt =====
-- When a signal is shown as a fault.
use plantlens.Prelude.{ℕ, ◌≡◌, ◌↔◌, ◌⊎◌, inl, inr, refl, ◌||◌, true, false, Option, arith, FloatOps}
use plantlens.Frame.{TagValue, num, text, flag, null}
use plantlens.Hmi.Status.{
  BenchSignalQuality, HmiSignalStatus, BenchSignal, is_old, is_fault, under, over, status_of,
  evaluate_signal_status,
}

module _ {R : Type 0} ⦃f : FloatOps R⦄ where
  -- A good, recent number outside the signal's limits.
  pub record IsOutside (s : BenchSignal R) (now stale_after_seconds : ℕ) : Type 0 where
    pub value : R
    pub is_number : s.value ≡ num value
    pub good : s.quality ≡ BenchSignalQuality.good
    pub recent : is_old s.timestamp now stale_after_seconds ≡ false
    pub beyond : (under s.expected_min value || over s.expected_max value) ≡ true

  number_or_no_fault :
      (v : TagValue R) (lo hi : Option R) → ((x : R) × (v ≡ num x)) ⊎ (is_fault v lo hi ≡ false)
  number_or_no_fault (num x) lo hi = inl (x, refl)
  number_or_no_fault (text t) lo hi = inr refl
  number_or_no_fault (flag b) lo hi = inr refl
  number_or_no_fault null lo hi = inr refl

  fault-IsOutside :
      (s : BenchSignal R) (now stale_after_seconds : ℕ)
      → (evaluate_signal_status s now stale_after_seconds).status ≡ HmiSignalStatus.fault
      → IsOutside s now stale_after_seconds
  unfolding evaluate_signal_status status_of
  fault-IsOutside s now stale_after_seconds h =
      elim (number_or_no_fault s.value s.expected_min s.expected_max) [
        | inl (x, e) ↦ record {
          value = x;
          is_number = e;
          good = ground (arith, e);
          recent = ground (arith, e);
          beyond = ground (arith, e);
        }
        | inr e ↦ ground (arith, e)
      ]

  outside_fault :
      (s : BenchSignal R) (now stale_after_seconds : ℕ)
      → IsOutside s now stale_after_seconds
      → (evaluate_signal_status s now stale_after_seconds).status ≡ HmiSignalStatus.fault
  unfolding evaluate_signal_status status_of
  outside_fault s now stale_after_seconds o =
      ground (arith, o.is_number, o.good, o.recent, o.beyond)

  -- A signal is shown as a fault exactly when it is a good number, not older than the limit, that is
  -- below the expected minimum or above the expected maximum.
  pub status_fault_iff :
      (s : BenchSignal R) (now stale_after_seconds : ℕ)
      → ((evaluate_signal_status s now stale_after_seconds).status ≡ HmiSignalStatus.fault)
        ↔ IsOutside s now stale_after_seconds
  status_fault_iff s now stale_after_seconds =
      (fault-IsOutside s now stale_after_seconds, outside_fault s now stale_after_seconds)
