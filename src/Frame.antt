-- ===== src/Frame.antt =====
-- The telemetry envelope that every source emits: apps/api/app/schemas/tag_frame.py and
-- apps/api/app/schemas/common.py. A `datetime` is a number of microseconds since a fixed origin
-- (all are aware, so the branches that add a time zone do nothing). Python's floats are the
-- parameter `R`.
use plantlens.Prelude.{ℕ, String, Bool, true, false, Option, none, some, FloatOps}

pub data TagQuality : Type 0 where
  good uncertain bad stale missing : TagQuality

pub data TagSource : Type 0 where
  simulator modbus_rtu modbus_tcp manual backfill : TagSource

pub data Severity : Type 0 where
  info warning critical : Severity

pub data TagValue (R : Type 0) : Type 0 where
  num : R → TagValue R
  text : String → TagValue R
  flag : Bool → TagValue R
  null : TagValue R

pub record TagFrame (R : Type 0) : Type 0 where
  pub tag_id : String
  pub asset_id : String
  pub value : TagValue R
  pub quality : TagQuality
  pub timestamp : ℕ
  pub source : TagSource
  pub seq : Option ℕ
  pub ingest_ts : Option ℕ

pub TagQuality-discrete : Discrete TagQuality
TagQuality-discrete = hlevel

abbrev pub is_good : TagQuality → Bool
is_good good = true
is_good _ = false

-- `frame.quality in {"STALE", "MISSING", "BAD"}`
abbrev pub is_degraded : TagQuality → Bool
is_degraded stale = true
is_degraded missing = true
is_degraded bad = true
is_degraded _ = false

abbrev pub is_simulator : TagSource → Bool
is_simulator simulator = true
is_simulator _ = false

abbrev pub is_null : {R : Type 0} → TagValue R → Bool
is_null null = true
is_null _ = false

module _ {R : Type 0} ⦃f : FloatOps R⦄ where
  -- `float(value)` under `isinstance(value, (int, float))`; a Python bool is an int.
  abbrev pub as_number : TagValue R → Option R
  as_number (num x) = some x
  as_number (flag true) = some (f.of_nat 1)
  as_number (flag false) = some (f.of_nat 0)
  as_number _ = none
