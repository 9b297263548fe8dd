-- ===== src/Tests/Telemetry.antt =====
-- Frames, their quality, and the store of the latest frames.
use plantlens.Prelude.{ℕ, ◌≡◌, ◌↔◌, refl, none, some}
use plantlens.Frame.{TagFrame, num, good, modbus_rtu}
use plantlens.Quality.{
  QualityClass, Policy, Reading, classify_tag, default_stale_after_ms, default_missing_after_ms,
}
use plantlens.Quality.Verdict.{IsTrusted, classify_good_iff}
use plantlens.State.{RuntimeState, init}
use plantlens.Tests.Numbers.{thousandths}

abbrev policy : Policy ℕ
policy = record {
  stale_after_ms = default_stale_after_ms;
  missing_after_ms = default_missing_after_ms;
  min_value = some 0;
  max_value = some 60000;
  max_rate_per_s = some 5000;
}

-- 44.2 V, 0.2 s old, after 43.9 V a second before
abbrev reading : Reading ℕ
reading = record {
  value = num 44200;
  raw_quality = good;
  timestamp = 2000000;
  now = 2200000;
  previous_value = some 43900;
  previous_ts = some 1000000;
}

classify_reading : (classify_tag policy reading).quality ≡ QualityClass.good
unfolding classify_tag
classify_reading = refl

classify_old : (classify_tag policy (record reading { now = 4000000 })).quality ≡ QualityClass.stale
unfolding classify_tag
classify_old = refl

classify_jump :
    (classify_tag policy (record reading { value = num 59000 })).quality ≡ QualityClass.suspect
unfolding classify_tag
classify_jump = refl

classify_good_iff_example :
    ((classify_tag policy reading).quality ≡ QualityClass.good) ↔ IsTrusted policy reading
classify_good_iff_example = classify_good_iff policy reading

abbrev frame : TagFrame ℕ
frame = record {
  tag_id = "BUS_101_V";
  asset_id = "BUS-101";
  value = num 44200;
  quality = good;
  timestamp = 2000000;
  source = modbus_rtu;
  seq = some 7;
  ingest_ts = none;
}

abbrev empty : RuntimeState ℕ
empty = init
