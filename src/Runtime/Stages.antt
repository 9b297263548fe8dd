-- ===== src/Runtime/Stages.antt =====
-- The stages of apps/api/app/runtime/runtime_tick.py behind the refresh of the qualities, and the
-- intake of a frame.
use plantlens.Prelude.{
  ℕ, String, Option, none, some, List, [], ◌∷◌, str_eq, map, if◌then◌else◌, FloatOps,
}
use plantlens.Prelude.Dict.{Dict, insert, values}
use plantlens.Frame.{TagFrame, TagQuality, null, is_good, is_simulator, is_degraded, as_number}
use plantlens.Records.{AlarmRule, AlarmRecord}
use plantlens.State.{RuntimeState, get_tag, update_tag}
use plantlens.Alarm.Condition.{Outcome, ok, float_error}
use plantlens.Alarm.Engine.{evaluate_alarms}
use plantlens.Dag.Trace.{RootCauseTrace}
use plantlens.Situation.{SituationSpec, ProjectionConfig, Situation, by_id}
use plantlens.Situation.Engine.{Result, evaluate_situations}
use plantlens.Projection.{TagHistory, Forecast, update_projection}
use plantlens.Assets.{SituationAssets, derive_asset_status}
use plantlens.Runtime.{Runtime, RuntimeConfig, normalize_tag_quality, refresh_tag_qualities}

module _ {R : Type 0} ⦃f : FloatOps R⦄ where
  -- _situation_spec
  unfoldable pub situation_spec : List (SituationSpec R) → String → Option (SituationSpec R)
  situation_spec [] situation_type = none
  situation_spec (spec ∷ specs) situation_type =
      let later = situation_spec specs situation_type in
      if str_eq spec.id situation_type then some spec else later

  -- `next((r for r in config.alarm_rules if r.id == alarm_id), None)`
  abbrev pub rule_of : String → List (AlarmRule R) → Option (AlarmRule R)
  rule_of id [] = none
  rule_of id (rule ∷ rules) =
      let later = rule_of id rules in if str_eq rule.id id then some rule else later

  abbrev pub rule_threshold : Option (AlarmRule R) → R → R
  rule_threshold none default = default
  rule_threshold (some rule) default = elim rule.condition.threshold [ none ↦ default | some t ↦ t ]

  abbrev pub threshold_of : ProjectionConfig R → List (AlarmRule R) → R
  threshold_of p rules =
      if str_eq p.alarm_id ""
      then p.threshold
      else rule_threshold (rule_of p.alarm_id rules) p.threshold

  -- The part of `_resolve_projection` behind the frame's tests.
  abbrev pub project_value :
      RuntimeConfig R
      → ProjectionConfig R
      → Dict (TagHistory R)
      → ℕ
      → TagQuality
      → Option R
      → Option (Forecast R) × Dict (TagHistory R)
  project_value config p histories now quality none = (none, histories)
  project_value config p histories now quality (some x) =
      let (forecast, after) =
        update_projection histories p.tag_id (some x) now (threshold_of p config.alarm_rules)
          quality in
      (some forecast, after)

  abbrev pub project_frame :
      RuntimeConfig R
      → ProjectionConfig R
      → Dict (TagHistory R)
      → ℕ
      → Option (TagFrame R)
      → Option (Forecast R) × Dict (TagHistory R)
  project_frame config p histories now none = (none, histories)
  project_frame config p histories now (some frame) =
      if is_good frame.quality
      then project_value config p histories now frame.quality (as_number frame.value)
      else (none, histories)

  abbrev pub project_spec :
      RuntimeConfig R
      → RuntimeState R
      → Dict (TagHistory R)
      → ℕ
      → Option (SituationSpec R)
      → Option (Forecast R) × Dict (TagHistory R)
  project_spec config s histories now none = (none, histories)
  project_spec config s histories now (some spec) =
      if str_eq spec.projection.tag_id ""
      then (none, histories)
      else project_frame config spec.projection histories now (get_tag s spec.projection.tag_id)

  -- _resolve_projection of the first situation, with the histories that it leaves
  unfoldable pub resolve_projection :
      RuntimeConfig R
      → RuntimeState R
      → Dict (TagHistory R)
      → ℕ
      → List (Situation R)
      → Option (Forecast R) × Dict (TagHistory R)
  resolve_projection config s histories now [] = (none, histories)
  resolve_projection config s histories now (situation ∷ rest) =
      if str_eq situation.situation_type ""
      then (none, histories)
      else project_spec config s histories now
          (situation_spec config.situation_types situation.situation_type)

-- What `derive_asset_status` reads of a situation.
abbrev pub assets_of : {R : Type 0} → Situation R → SituationAssets
assets_of situation = record {
  root_asset_id = some situation.root_asset_id;
  affected_asset_ids = situation.affected_asset_ids;
}

-- `{situation["situation_id"]: situation for situation in situations}`
abbrev pub index_situations :
    {R : Type 0} → List (Situation R) → Dict (Situation R) → Dict (Situation R)
index_situations [] d = d
index_situations (x ∷ xs) d = index_situations xs (insert x.situation_id x d)

pub data TickResult (R : Type 0) : Type 0 where
  ticked :
      List (AlarmRecord R)
      → List (Situation R)
      → Option (RootCauseTrace R)
      → Option (Forecast R)
      → TickResult R
  -- an exception of `float` in the alarm engine
  raised : TickResult R
  -- a diagnosis out of fuel
  stuck : TickResult R

module _ {R : Type 0} ⦃f : FloatOps R⦄ where
  -- The stages behind the situations: the projection, and the status of the assets.
  unfoldable pub finish :
      RuntimeConfig R
      → ℕ
      → Runtime R
      → List (AlarmRecord R)
      → Option (Result R)
      → TickResult R × Runtime R
  finish config now r alarms none = (stuck, r)
  finish config now r alarms (some (situations, trace)) =
      let (forecast, histories) = resolve_projection config r.state r.histories now situations in
      let by_situation = index_situations situations [] in
      (
        ticked alarms situations trace forecast,
        record r {
          histories = histories;
          active_situations = by_situation;
          asset_status =
              derive_asset_status config.asset_index r.state.active_alarms
                (map assets_of (values by_situation)) r.state.tags;
        },
      )

  -- The stages behind the alarms, on the state with the new alarms.
  unfoldable pub after_alarms :
      RuntimeConfig R → ℕ → Runtime R → Outcome (List (AlarmRecord R)) → TickResult R × Runtime R
  after_alarms config now r float_error = (raised, r)
  after_alarms config now r (ok alarms) =
      let s = record r.state { active_alarms = by_id alarms } in
      let (result, t) =
        evaluate_situations config.graph_index config.situation_types now s alarms in
      finish config now (record r { state = t }) alarms result

  -- evaluate_runtime_tick
  unfoldable pub evaluate_runtime_tick : Runtime R → RuntimeConfig R → ℕ → TickResult R × Runtime R
  evaluate_runtime_tick r config now =
      let s = refresh_tag_qualities config now r.state in
      let (alarms, engine) = evaluate_alarms s config.alarm_rules now r.engine in
      after_alarms config now (record r { state = s; engine = engine }) alarms

  -- _sanitize_unusable_values
  unfoldable pub sanitize_unusable_values : TagFrame R → TagFrame R
  sanitize_unusable_values frame =
      if is_degraded frame.quality then record frame { value = null } else frame

  -- `normalized.ingest_ts is None and frame.source != "simulator"`
  abbrev pub stamp : ℕ → TagFrame R → TagFrame R
  stamp now frame = elim frame.ingest_ts [
    | some i ↦ frame
    | none ↦ if is_simulator frame.source then frame else record frame { ingest_ts = some now }
  ]

  -- The frame that `on_tag_frame` stores.
  unfoldable pub prepare : TagFrame R → RuntimeConfig R → RuntimeState R → TagFrame R
  prepare frame config s =
      stamp frame.timestamp
        (normalize_tag_quality (sanitize_unusable_values frame) config s frame.timestamp)

  -- on_tag_frame
  unfoldable pub on_tag_frame : Runtime R → TagFrame R → RuntimeConfig R → TickResult R × Runtime R
  on_tag_frame r frame config =
      let (s, _) = update_tag r.state (prepare frame config r.state) in
      evaluate_runtime_tick (record r { state = s }) config frame.timestamp
