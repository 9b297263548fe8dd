-- ===== src/Projection.antt =====
-- apps/api/app/runtime/projection.py: the advisory time to a threshold, from a smoothed slope. The
-- histories are a dict from tag to history; a sample's time is a number of microseconds. `window` has
-- its default, 8. The label, and the texts of the reasons, are left out.
pub mod History
use plantlens.Prelude.{
  ℕ, zero, suc, ◌+◌, ◌-◌, ◌*◌, String, Bool, true, false, Option, none, some, List, [], ◌∷◌, ◌++◌,
  ◌&&◌, ltb, leb, length, drop, if◌then◌else◌, FloatOps, float_max, float_min,
}
use plantlens.Prelude.Dict.{Dict, lookup, insert}
use plantlens.Frame.{TagQuality, is_good}

pub record TagHistory (R : Type 0) : Type 0 where
  pub samples : List (ℕ × R)
  pub ema_value : Option R
  pub ema_slope : Option R
  pub last_ts : Option ℕ

abbrev pub no_history : {R : Type 0} → TagHistory R
no_history = record { samples = []; ema_value = none; ema_slope = none; last_ts = none }

pub data Trend : Type 0 where
  -- too little is known, for the reason
  no_value unusable_quality not_monotonic too_few_samples invalid_interval insufficient_samples :
      Trend
  exceeded rate_near_zero not_approaching : Trend
  approaching_limit : Trend

pub record Forecast (R : Type 0) : Type 0 where
  pub trend : Trend
  pub seconds_low : Option R
  pub seconds_mid : Option R
  pub seconds_high : Option R
  pub confidence : R

abbrev pub window : ℕ
window = 8

-- `xs[-n:]` for a positive n
abbrev pub last_of {ℓ} : {A : Type ℓ} → ℕ → List A → List A
last_of n xs = drop (length xs - n) xs

-- `xs[-2]`, where the list has two elements
abbrev pub second_last {ℓ} : {A : Type ℓ} → List A → Option A
second_last [] = none
second_last (x ∷ []) = none
second_last (x ∷ y ∷ []) = some x
second_last (x ∷ y ∷ z ∷ rest) = second_last (y ∷ z ∷ rest)

-- `history.last_ts is not None and ts <= history.last_ts`
abbrev pub not_after : Option ℕ → ℕ → Bool
not_after none ts = false
not_after (some last) ts = leb ts last

module _ {R : Type 0} ⦃f : FloatOps R⦄ where
  abbrev pub ema_alpha : R
  ema_alpha = f.decimal 35 2

  -- The first value, and then `EMA_ALPHA * x + (1.0 - EMA_ALPHA) * ema`
  abbrev pub smooth : Option R → R → R
  smooth none x = x
  smooth (some ema) x = f.add (f.mul ema_alpha x) (f.mul (f.sub (f.decimal 10 1) ema_alpha) ema)

  abbrev pub plain : Trend → R → Forecast R
  plain trend confidence = record {
    trend = trend;
    seconds_low = none;
    seconds_mid = none;
    seconds_high = none;
    confidence = confidence;
  }

  abbrev pub unknown : Trend → Forecast R
  unknown trend = plain trend (f.decimal 0 1)

  -- The end, with the number of samples, the smoothed value and the slope.
  unfoldable pub forecast : ℕ → R → R → R → Forecast R
  forecast n smoothed rate threshold =
      if f.le threshold smoothed
      then record {
        trend = exceeded;
        seconds_low = some (f.decimal 0 1);
        seconds_mid = some (f.decimal 0 1);
        seconds_high = some (f.decimal 0 1);
        confidence = f.decimal 9 1;
      }
      else if f.lt (f.abs rate) (f.decimal 1 9)
      then plain rate_near_zero (f.decimal 7 1)
      else let seconds = f.div (f.sub threshold smoothed) rate in
        let band = float_max (f.decimal 50 1) (f.mul seconds (f.decimal 25 2)) in
        if f.le seconds (f.of_nat 0) then plain not_approaching (f.decimal 6 1) else record {
          trend = approaching_limit;
          seconds_low = some (float_max (f.decimal 0 1) (f.sub seconds band));
          seconds_mid = some seconds;
          seconds_high = some (f.add seconds band);
          confidence =
              float_min (f.decimal 85 2)
                (f.add (f.decimal 4 1) (f.mul (f.of_nat n) (f.decimal 5 2)));
        }

  abbrev pub set_slope : TagHistory R → R → TagHistory R
  set_slope h slope = record h { ema_slope = some slope }

  -- From the sample before the new one on.
  unfoldable pub with_previous :
      TagHistory R → R → ℕ → R → R → Option (ℕ × R) → Forecast R × TagHistory R
  with_previous h numeric ts smoothed threshold none = (unknown too_few_samples, h)
  with_previous h numeric ts smoothed threshold (some (prev_ts, prev_val)) =
      let slope = smooth h.ema_slope (f.div (f.sub numeric prev_val) (f.seconds (ts - prev_ts))) in
      if leb ts prev_ts
      then (unknown invalid_interval, h)
      else if ltb (length h.samples) 3
      then (unknown insufficient_samples, set_slope h slope)
      else (forecast (length h.samples) smoothed slope threshold, set_slope h slope)

  abbrev pub add_sample : TagHistory R → ℕ → R → TagHistory R
  add_sample h ts numeric = record h {
    last_ts = some ts;
    samples = last_of window (h.samples ++ (ts, numeric) ∷ []);
    ema_value = some (smooth h.ema_value numeric);
  }

  unfoldable pub update_history : TagHistory R → R → ℕ → R → Forecast R × TagHistory R
  update_history h numeric ts threshold =
      if not_after h.last_ts ts
      then (unknown not_monotonic, h)
      else let h1 = add_sample h ts numeric in
        with_previous h1 numeric ts (smooth h.ema_value numeric) threshold (second_last h1.samples)

  abbrev pub history_or_new : Option (TagHistory R) → TagHistory R
  history_or_new none = no_history
  history_or_new (some h) = h

  -- update_projection, with the histories that it leaves
  unfoldable pub update_projection :
      Dict (TagHistory R)
      → String
      → Option R
      → ℕ
      → R
      → TagQuality
      → Forecast R × Dict (TagHistory R)
  update_projection histories tag_id none ts threshold quality = (unknown no_value, histories)
  update_projection histories tag_id (some value) ts threshold quality =
      if is_good quality
      then (let (result, h) =
            update_history (history_or_new (lookup tag_id histories)) value ts threshold in
          (result, insert tag_id h histories))
      else (unknown unusable_quality, histories)
