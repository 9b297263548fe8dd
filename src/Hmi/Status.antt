-- ===== src/Hmi/Status.antt =====
-- `evaluate_signal_status` and its tests in apps/api/app/hmi/status.py, with BenchSignal of
-- bench_adapter.py and SignalHMIState of contracts.py. An instant is a number of microseconds.
pub mod Verdict
use plantlens.Prelude.{
  ℕ, ◌+◌, ◌*◌, String, Bool, true, false, Option, none, some, List, map, ltb, if◌then◌else◌, ◌&&◌,
  ◌||◌, FloatOps,
}
use plantlens.Frame.{TagValue, num, null}

pub data BenchSignalQuality : Type 0 where
  good stale missing bad : BenchSignalQuality

pub data HmiSignalStatus : Type 0 where
  normal warning fault stale missing : HmiSignalStatus

pub record BenchSignal (R : Type 0) : Type 0 where
  pub signal_id : String
  pub asset_id : String
  pub name : String
  pub value : TagValue R
  pub unit : String
  pub expected_min : Option R
  pub expected_max : Option R
  pub quality : BenchSignalQuality
  pub timestamp : Option ℕ

pub record ExpectedRange (R : Type 0) : Type 0 where
  pub min : Option R
  pub max : Option R

pub record SignalHmiState (R : Type 0) : Type 0 where
  pub signal_id : String
  pub asset_id : String
  pub name : String
  pub value : TagValue R
  pub unit : String
  pub status : HmiSignalStatus
  pub expected_range : Option (ExpectedRange R)
  pub evidence_weight : R
  pub timestamp : Option ℕ

-- _is_missing
abbrev pub is_missing : {R : Type 0} → BenchSignalQuality → TagValue R → Bool
is_missing BenchSignalQuality.missing v = true
is_missing q null = true
is_missing q v = false

-- `(now - timestamp).total_seconds() > stale_after_seconds`
abbrev pub is_old : Option ℕ → ℕ → ℕ → Bool
is_old none now stale_after_seconds = false
is_old (some t) now stale_after_seconds = ltb (t + stale_after_seconds * 1000000) now

-- _is_stale
abbrev pub is_stale : BenchSignalQuality → Option ℕ → ℕ → ℕ → Bool
is_stale BenchSignalQuality.stale timestamp now stale_after_seconds = true
is_stale BenchSignalQuality.bad timestamp now stale_after_seconds = true
is_stale q timestamp now stale_after_seconds = is_old timestamp now stale_after_seconds

-- _build_expected_range
abbrev pub build_expected_range : {R : Type 0} → Option R → Option R → Option (ExpectedRange R)
build_expected_range none none = none
build_expected_range lo hi = some (record { min = lo; max = hi })

module _ {R : Type 0} ⦃f : FloatOps R⦄ where
  abbrev pub under : Option R → R → Bool
  under none x = false
  under (some lo) x = f.lt x lo

  abbrev pub over : Option R → R → Bool
  over none x = false
  over (some hi) x = f.lt hi x

  -- _is_fault
  abbrev pub is_fault : TagValue R → Option R → Option R → Bool
  is_fault (num x) lo hi = under lo x || over hi x
  is_fault v lo hi = false

  -- _near_boundary
  unfoldable pub near_boundary : R → Option R → Option R → Bool
  near_boundary x (some lo) (some hi) =
      let warning_band = f.mul (f.sub hi lo) (f.decimal 10 2) in
      f.le x (f.add lo warning_band) || f.le (f.sub hi warning_band) x
  near_boundary x (some lo) none =
      if f.eq lo (f.of_nat 0)
      then f.le (f.decimal 0 1) x && f.le x (f.decimal 1 1)
      else f.le lo x && f.le x (f.mul lo (f.add (f.decimal 10 1) (f.decimal 10 2)))
  near_boundary x none (some hi) =
      if f.eq hi (f.of_nat 0)
      then f.le (f.sub hi (f.decimal 1 1)) x && f.le x hi
      else f.le (f.mul hi (f.sub (f.decimal 10 1) (f.decimal 10 2))) x && f.le x hi
  near_boundary x none none = false

  -- _is_warning
  abbrev pub is_warning : TagValue R → Option R → Option R → Bool
  is_warning (num x) lo hi = near_boundary x lo hi
  is_warning v lo hi = false

  -- The tests of `evaluate_signal_status`, in their order.
  unfoldable pub status_of : BenchSignal R → ℕ → ℕ → HmiSignalStatus
  status_of s now stale_after_seconds =
      if is_missing s.quality s.value
      then HmiSignalStatus.missing
      else if is_stale s.quality s.timestamp now stale_after_seconds
      then HmiSignalStatus.stale
      else if is_fault s.value s.expected_min s.expected_max
      then fault
      else if is_warning s.value s.expected_min s.expected_max
      then warning
      else normal

  abbrev pub weight_of : HmiSignalStatus → R
  weight_of HmiSignalStatus.missing = f.decimal 0 1
  weight_of HmiSignalStatus.stale = f.decimal 0 1
  weight_of fault = f.decimal 10 1
  weight_of warning = f.decimal 5 1
  weight_of normal = f.decimal 2 1

  -- evaluate_signal_status
  unfoldable pub evaluate_signal_status : BenchSignal R → ℕ → ℕ → SignalHmiState R
  evaluate_signal_status s now stale_after_seconds =
      let status = status_of s now stale_after_seconds in
      record {
        signal_id = s.signal_id;
        asset_id = s.asset_id;
        name = s.name;
        value = s.value;
        unit = s.unit;
        status = status;
        expected_range = build_expected_range s.expected_min s.expected_max;
        evidence_weight = weight_of status;
        timestamp = s.timestamp;
      }

  -- evaluate_signals
  abbrev pub evaluate_signals : List (BenchSignal R) → ℕ → ℕ → List (SignalHmiState R)
  evaluate_signals signals now stale_after_seconds =
      map (λ s. evaluate_signal_status s now stale_after_seconds) signals
