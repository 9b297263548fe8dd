-- ===== src/Runtime.antt =====
-- apps/api/app/runtime/runtime_tick.py: the stages put together. A tick classes the stored frames
-- anew (here), evaluates the alarms, finds the situation, projects it, and derives the status of the
-- assets (Stages). The evidence packet and the calm card, which are views of these results, are left out.
pub mod Stages
pub mod Intake
pub mod Stale
pub mod Tick
use plantlens.Prelude.{
  ℕ, String, Bool, true, false, Option, none, some, List, [], ◌∷◌, ◌&&◌, not, str_eq, map,
  if◌then◌else◌, FloatOps,
}
use plantlens.Prelude.Dict.{Dict, lookup, insert, values}
use plantlens.Frame.{
  TagFrame, TagQuality, TagValue, null, is_null, is_good, is_simulator, is_degraded, as_number,
  TagQuality-discrete,
}
use plantlens.Records.{AlarmRule, AlarmRecord}
use plantlens.Quality.{
  QualityClass, Policy, Reading, QualityResult, classify_tag, default_stale_after_ms,
  default_missing_after_ms,
}
use plantlens.State.{RuntimeState, get_tag, update_tag, refresh_tag}
use plantlens.Alarm.Condition.{Outcome, ok, float_error}
use plantlens.Alarm.Engine.{AlarmEngineState, evaluate_alarms}
use plantlens.Dag.Graph.{GraphIndex}
use plantlens.Dag.Trace.{RootCauseTrace}
use plantlens.Situation.{SituationSpec, ProjectionConfig, Situation, by_id}
use plantlens.Situation.Engine.{Result, evaluate_situations}
use plantlens.Projection.{TagHistory, Forecast, update_projection}
use plantlens.Assets.{AssetStatus, SituationAssets, derive_asset_status}

-- RuntimeConfig, as far as the tick reads it. The tag index has the quality policies with their
-- defaults, the asset index its keys.
pub record RuntimeConfig (R : Type 0) : Type 0 where
  pub alarm_rules : List (AlarmRule R)
  pub asset_index : List String
  pub tag_index : Dict (Policy R)
  pub graph_index : GraphIndex R
  pub situation_types : List (SituationSpec R)

-- The runtime state with the memories of the engines.
pub record Runtime (R : Type 0) : Type 0 where
  pub state : RuntimeState R
  pub engine : AlarmEngineState
  pub histories : Dict (TagHistory R)
  pub active_situations : Dict (Situation R)
  pub asset_status : Dict AssetStatus

-- _to_tag_quality
abbrev pub to_tag_quality : QualityClass → TagQuality
to_tag_quality QualityClass.suspect = TagQuality.uncertain
to_tag_quality QualityClass.out_of_range = TagQuality.bad
to_tag_quality QualityClass.good = TagQuality.good
to_tag_quality QualityClass.stale = TagQuality.stale
to_tag_quality QualityClass.missing = TagQuality.missing
to_tag_quality QualityClass.bad = TagQuality.bad

abbrev pub default_policy : {R : Type 0} → Policy R
default_policy = record {
  stale_after_ms = default_stale_after_ms;
  missing_after_ms = default_missing_after_ms;
  min_value = none;
  max_value = none;
  max_rate_per_s = none;
}

abbrev pub policy_or_default : {R : Type 0} → Option (Policy R) → Policy R
policy_or_default none = default_policy
policy_or_default (some p) = p

-- `frame.ingest_ts or frame.timestamp`
abbrev pub ingest_or : Option ℕ → ℕ → ℕ
ingest_or none t = t
ingest_or (some i) t = i

abbrev pub same_quality : TagQuality → TagQuality → Bool
same_quality TagQuality.good TagQuality.good = true
same_quality TagQuality.uncertain TagQuality.uncertain = true
same_quality TagQuality.bad TagQuality.bad = true
same_quality TagQuality.stale TagQuality.stale = true
same_quality TagQuality.missing TagQuality.missing = true
same_quality _ _ = false

module _ {R : Type 0} ⦃f : FloatOps R⦄ where
  -- The number of the previous frame, and its time if there is one.
  abbrev pub previous_number : Option (TagFrame R) → Option R
  previous_number none = none
  previous_number (some frame) = as_number frame.value

  abbrev pub time_if : Option R → Option (TagFrame R) → Option ℕ
  time_if (some x) (some frame) = some frame.timestamp
  time_if _ _ = none

  abbrev pub received_at : TagFrame R → ℕ → ℕ
  received_at frame now =
      if is_simulator frame.source then now else ingest_or frame.ingest_ts frame.timestamp

  abbrev pub reading_of : TagFrame R → RuntimeState R → ℕ → Reading R
  reading_of frame s now =
      let previous = get_tag s frame.tag_id in
      record {
        value = frame.value;
        raw_quality = frame.quality;
        timestamp = received_at frame now;
        now = now;
        previous_value = previous_number previous;
        previous_ts = time_if (previous_number previous) previous;
      }

  -- normalize_tag_quality; a frame that keeps its quality is returned as it is
  unfoldable pub normalize_tag_quality :
      TagFrame R → RuntimeConfig R → RuntimeState R → ℕ → TagFrame R
  normalize_tag_quality frame config s now =
      let policy = policy_or_default (lookup frame.tag_id config.tag_index) in
      record frame {
        quality = to_tag_quality (classify_tag policy (reading_of frame s now)).quality;
      }

  -- One round of `_refresh_tag_qualities`, with the frame under the key.
  unfoldable pub refresh_frame :
      RuntimeConfig R → ℕ → Option (TagFrame R) → RuntimeState R → RuntimeState R
  refresh_frame config now none s = s
  refresh_frame config now (some frame) s =
      let refreshed = normalize_tag_quality frame config s now in
      if is_simulator frame.source
      then s
      else if same_quality refreshed.quality frame.quality
      then s
      else refresh_tag s refreshed

  unfoldable pub refresh_keys : RuntimeConfig R → ℕ → List String → RuntimeState R → RuntimeState R
  refresh_keys config now [] s = s
  refresh_keys config now (k ∷ ks) s =
      refresh_keys config now ks (refresh_frame config now (get_tag s k) s)

  -- _refresh_tag_qualities
  unfoldable pub refresh_tag_qualities : RuntimeConfig R → ℕ → RuntimeState R → RuntimeState R
  refresh_tag_qualities config now s =
      refresh_keys config now (map (λ (p : String × TagFrame R). p.0) s.tags) s
