-- ===== src/Tests/Signals.antt =====
-- A bench signal of a supply voltage.
use plantlens.Prelude.{ℕ, ◌≡◌, ◌↔◌, refl, some}
use plantlens.Frame.{num}
use plantlens.Hmi.Status.{
  BenchSignal, BenchSignalQuality, HmiSignalStatus, near_boundary, status_of,
  evaluate_signal_status,
}
use plantlens.Hmi.Status.Verdict.{IsOutside, status_fault_iff}
use plantlens.Tests.Numbers.{thousandths}

-- 19.5 V where 22 V to 26 V are expected
abbrev supply : BenchSignal ℕ
supply = record {
  signal_id = "PSU_V";
  asset_id = "PSU-1";
  name = "Supply voltage";
  value = num 19500;
  unit = "V";
  expected_min = some 22000;
  expected_max = some 26000;
  quality = BenchSignalQuality.good;
  timestamp = some 1000000;
}

shown_as_fault : (evaluate_signal_status supply 2000000 5).status ≡ HmiSignalStatus.fault
unfolding evaluate_signal_status status_of
shown_as_fault = refl

shown_as_stale : (evaluate_signal_status supply 9000000 5).status ≡ HmiSignalStatus.stale
unfolding evaluate_signal_status status_of
shown_as_stale = refl

shown_as_warning :
    (evaluate_signal_status (record supply { value = num 22300 }) 2000000 5).status
    ≡ HmiSignalStatus.warning
unfolding evaluate_signal_status status_of near_boundary
shown_as_warning = refl

status_fault_iff_example :
    ((evaluate_signal_status supply 2000000 5).status ≡ HmiSignalStatus.fault)
    ↔ IsOutside supply 2000000 5
status_fault_iff_example = status_fault_iff supply 2000000 5
