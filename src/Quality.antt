-- ===== src/Quality.antt =====
-- apps/api/app/runtime/quality.py: the class of a reading, from its source's quality, its age, its
-- physical range and its rate of change. An age in milliseconds is compared exactly, in
-- microseconds. The reason's text is its template; the numbers that the text quotes are left out.
pub mod Verdict
use plantlens.Prelude.{
  ℕ, ◌+◌, ◌*◌, ◌-◌, Bool, true, false, Option, none, some, ltb, FloatOps, if◌then◌else◌,
}
use plantlens.Frame.{TagQuality, TagValue, null, as_number}

pub data QualityClass : Type 0 where
  good suspect stale missing bad out_of_range : QualityClass

pub data Reason : Type 0 where
  gateway_bad gateway_stale no_value no_update last_update source_uncertain : Reason
  below_min above_max rate_limit fresh : Reason

pub record QualityResult : Type 0 where
  pub quality : QualityClass
  pub reason : Reason

abbrev result : QualityClass → Reason → QualityResult
result q r = record { quality = q; reason = r }

abbrev pub default_stale_after_ms : ℕ
default_stale_after_ms = 1500

abbrev pub default_missing_after_ms : ℕ
default_missing_after_ms = 5000

-- The keyword arguments of `classify_tag` that come from the tag's quality policy.
pub record Policy (R : Type 0) : Type 0 where
  pub stale_after_ms : ℕ
  pub missing_after_ms : ℕ
  pub min_value : Option R
  pub max_value : Option R
  pub max_rate_per_s : Option R

-- Those that describe the reading, and the one before it.
pub record Reading (R : Type 0) : Type 0 where
  pub value : TagValue R
  pub raw_quality : TagQuality
  pub timestamp : ℕ
  pub now : ℕ
  pub previous_value : Option R
  pub previous_ts : Option ℕ

-- `(now - timestamp).total_seconds() * 1000 > limit_ms`
abbrev pub older_than : ℕ → ℕ → ℕ → Bool
older_than limit_ms timestamp now = ltb (timestamp + limit_ms * 1000) now

module _ {R : Type 0} ⦃f : FloatOps R⦄ where
  abbrev pub below : Option R → R → Bool
  below none x = false
  below (some lo) x = f.lt x lo

  abbrev pub above : Option R → R → Bool
  above none x = false
  above (some hi) x = f.lt hi x

  -- Whether the change since the previous reading is too fast.
  abbrev pub too_fast : Option R → Option R → Option ℕ → R → ℕ → Bool
  too_fast (some limit) (some v) (some t) x timestamp =
      if ltb t timestamp
      then f.lt limit (f.div (f.abs (f.sub x v)) (f.seconds (timestamp - t)))
      else false
  too_fast _ _ _ x timestamp = false

  -- The part under `isinstance(value, (int, float))`, and the last `return`.
  pub classify_number : Policy R → Reading R → Option R → QualityResult
  classify_number p r none = result QualityClass.good fresh
  classify_number p r (some x) =
      if below p.min_value x
      then result out_of_range below_min
      else if above p.max_value x
      then result out_of_range above_max
      else if too_fast p.max_rate_per_s r.previous_value r.previous_ts x r.timestamp
      then result suspect rate_limit
      else result QualityClass.good fresh

  -- The tests on the age, then those on the source's doubt and on the number.
  pub classify_aged : Policy R → Reading R → TagQuality → QualityResult
  unfolding classify_number
  classify_aged p r q =
      if older_than p.missing_after_ms r.timestamp r.now
      then result QualityClass.missing no_update
      else if older_than p.stale_after_ms r.timestamp r.now
      then result QualityClass.stale last_update
      else elim q [
        | TagQuality.uncertain ↦ result suspect source_uncertain
        | _ ↦ classify_number p r (as_number r.value)
      ]

  -- `raw_quality == "MISSING" or value is None`
  pub classify_value : Policy R → Reading R → TagQuality → TagValue R → QualityResult
  unfolding classify_aged
  classify_value p r TagQuality.missing v = result QualityClass.missing no_value
  classify_value p r q null = result QualityClass.missing no_value
  classify_value p r q v = classify_aged p r q

  pub classify_raw : Policy R → Reading R → TagQuality → QualityResult
  unfolding classify_value
  classify_raw p r TagQuality.bad = result QualityClass.bad gateway_bad
  classify_raw p r TagQuality.stale = result QualityClass.stale gateway_stale
  classify_raw p r q = classify_value p r q r.value

  unfoldable pub classify_tag : Policy R → Reading R → QualityResult
  unfolding classify_raw
  classify_tag p r = classify_raw p r r.raw_quality

-- is_process_evidence_usable
abbrev pub is_process_evidence_usable : TagQuality → Bool
is_process_evidence_usable TagQuality.good = true
is_process_evidence_usable _ = false
