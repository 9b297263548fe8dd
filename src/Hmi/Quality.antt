-- ===== src/Hmi/Quality.antt =====
-- `build_data_quality`, `confidence_after_data_quality` and `clamp_confidence` of
-- apps/api/app/hmi/status.py. The notes are left out: one text for each listed signal.
use plantlens.Prelude.{
  String, Bool, true, false, List, map, length, filter, FloatOps, float_max, float_min,
}
use plantlens.Prelude.Sorting.{sort, str_lt}
use plantlens.Hmi.Status.{HmiSignalStatus, SignalHmiState}

pub record DataQualityState (R : Type 0) : Type 0 where
  pub missing_signals : List String
  pub stale_signals : List String
  pub confidence_penalty : R

abbrev pub is_missing_status : HmiSignalStatus → Bool
is_missing_status HmiSignalStatus.missing = true
is_missing_status _ = false

abbrev pub is_stale_status : HmiSignalStatus → Bool
is_stale_status HmiSignalStatus.stale = true
is_stale_status _ = false

-- `sorted(signal.signal_id for signal in signals if ...)`
abbrev pub ids_with :
    {R : Type 0} → (HmiSignalStatus → Bool) → List (SignalHmiState R) → List String
ids_with test signals = sort str_lt (
    map (λ (x : SignalHmiState _). x.signal_id)
      (filter (λ (x : SignalHmiState _). test x.status) signals))

module _ {R : Type 0} ⦃f : FloatOps R⦄ where
  -- build_data_quality
  unfoldable pub build_data_quality : List (SignalHmiState R) → DataQualityState R
  build_data_quality signals =
      let missing = ids_with is_missing_status signals in
      let stale = ids_with is_stale_status signals in
      let raw_penalty =
        f.add (f.mul (f.of_nat (length missing)) (f.decimal 25 2))
          (f.mul (f.of_nat (length stale)) (f.decimal 15 2)) in
      record {
        missing_signals = missing;
        stale_signals = stale;
        confidence_penalty = f.round (float_min raw_penalty (f.decimal 6 1)) 4;
      }

  -- clamp_confidence
  unfoldable pub clamp_confidence : R → R
  clamp_confidence value = float_min (f.decimal 10 1) (float_max (f.decimal 0 1) value)

  -- confidence_after_data_quality
  unfoldable pub confidence_after_data_quality : R → DataQualityState R → R
  confidence_after_data_quality base q =
      f.round (clamp_confidence (f.sub (clamp_confidence base) q.confidence_penalty)) 4
