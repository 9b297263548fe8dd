-- ===== src/Tests/Situations.antt =====
-- The situation of the motor overload, its projection, and the tick that finds it.
use plantlens.Prelude.{
  ℕ, ◌≡◌, ◌↔◌, ◌≤◌, refl, arith, true, false, none, some, List, [], ◌∷◌, All, length, map, subst,
  eq_iff,
}
use plantlens.Prelude.Dict.{Dict, lookup, insert}
use plantlens.Prelude.Strings.{occurs}
use plantlens.Frame.{TagFrame, TagQuality, num, null, good, stale, Severity, is_degraded}
use plantlens.Records.{AlarmOp, AlarmRule, AlarmRecord}
use plantlens.Quality.{Policy, classify_tag}
use plantlens.Quality.Verdict.{IsTrusted}
use plantlens.Alarm.Engine.{initial, evaluate_alarms}
use plantlens.Assets.{AssetStatus}
use plantlens.Situation.{
  SituationSpec, EvidenceItem, alarm_ids, build_evidence, build_causal_path, by_id,
}
use plantlens.Situation.Engine.{Result, evaluate_situations}
use plantlens.Situation.Path.{IsPathFrom, on_asset, build_causal_path-IsPathFrom}
use plantlens.Situation.Evidence.{build_evidence-occurs}
use plantlens.Situation.Founded.{FoundedIn, left_by, evaluate_situations-IsFounded}
use plantlens.Projection.{TagHistory, update_projection}
use plantlens.Projection.History.{Histories, IsHistory, update_projection-Histories}
use plantlens.Runtime.{RuntimeConfig, Runtime, reading_of, normalize_tag_quality}
use plantlens.Runtime.Stages.{ticked, prepare, evaluate_runtime_tick, sanitize_unusable_values}
use plantlens.Runtime.Intake.{policy_of, prepare_sound, prepare-above_max}
use plantlens.Runtime.Stale.{KeysMatch, after_ticks, stale_stays_stale}
use plantlens.Runtime.Tick.{TickAgrees, evaluate_runtime_tick-TickAgrees, tick_critical_shows}
use plantlens.Tests.Numbers.{thousandths}
use plantlens.Tests.Causes.{graph, alarm, frame, overload}

abbrev current_high : AlarmRecord ℕ
current_high = alarm "MOTOR_CURRENT_HIGH" "MTR-301" "MOTOR_301_CURRENT" 1000000

abbrev bus_low : AlarmRecord ℕ
bus_low = alarm "DC_BUS_LOW" "BUS-101" "BUS_101_V" 2500000

abbrev bus_sag : SituationSpec ℕ
bus_sag = record {
  id = "bus_sag";
  root_asset_id = some "MTR-301";
  min_root_score = 100;
  required_alarms = "MOTOR_CURRENT_HIGH" ∷ [];
  require_all_alarms = true;
  extra_conditions = [];
  evidence_order = "DC_BUS_LOW" ∷ "FAN_STOPPED" ∷ "MOTOR_CURRENT_HIGH" ∷ [];
  projection = record { tag_id = "BUS_101_V"; alarm_id = ""; threshold = 75000 };
}

abbrev alarms : List (AlarmRecord ℕ)
alarms = current_high ∷ bus_low ∷ []

path : build_causal_path "MTR-301" alarms bus_sag.evidence_order ≡ "MTR-301" ∷ "BUS-101" ∷ []
unfolding build_causal_path plantlens.Situation.root_first plantlens.Situation.path_assets
    plantlens.Situation.index_alarms lookup insert
path = refl

build_causal_path-IsPathFrom_example :
    IsPathFrom "MTR-301"
      (λ a. on_asset alarms a ≡ true)
      (build_causal_path "MTR-301" alarms bus_sag.evidence_order)
build_causal_path-IsPathFrom_example =
    build_causal_path-IsPathFrom "MTR-301" alarms bus_sag.evidence_order

build_evidence-occurs_example :
    occurs "DC_BUS_LOW"
      (map (λ (i : EvidenceItem). i.alarm_id) (build_evidence alarms bus_sag.evidence_order))
    ≡ occurs "DC_BUS_LOW" (alarm_ids alarms)
build_evidence-occurs_example =
    build_evidence-occurs alarms bus_sag.evidence_order "DC_BUS_LOW" (refl, (refl, tt))
      (refl, (refl, (refl, tt)))

evaluate_situations-IsFounded_example :
    (r : Result ℕ) × ((evaluate_situations graph (bus_sag ∷ []) 3000000 overload alarms).0 ≡ some r)
    × All (FoundedIn graph (bus_sag ∷ []) 3000000 overload alarms) r.0
    × (length r.0 ≤ 1)
    × ((evaluate_situations graph (bus_sag ∷ []) 3000000 overload alarms).1
        ≡ left_by overload alarms)
evaluate_situations-IsFounded_example =
    evaluate_situations-IsFounded graph (bus_sag ∷ []) 3000000 overload alarms

abbrev warm : TagHistory ℕ
warm = record {
  samples = (1000000, 40000) ∷ (2000000, 45000) ∷ [];
  ema_value = some 42000;
  ema_slope = some 5000;
  last_ts = some 2000000;
}

abbrev histories : Dict (TagHistory ℕ)
histories = ("T", warm) ∷ []

warm-IsHistory : IsHistory warm
warm-IsHistory = record { rising = (omega arith, refl); bounded = omega arith }

histories-Histories : Histories histories
unfolding lookup
histories-Histories = record { each = λ k h e. subst IsHistory (ground (arith, e)) warm-IsHistory }

update_projection-Histories_example :
    Histories (update_projection histories "T" (some 50000) 3000000 75000 good).1
update_projection-Histories_example =
    update_projection-Histories histories "T" (some 50000) 3000000 75000 good histories-Histories

-- The seconds until the limit
abbrev ahead : ℕ
ahead = 6040

-- The bus voltage may be 60 V at most. A latching critical alarm watches the motor.
abbrev policy : Policy ℕ
policy = record {
  stale_after_ms = 1500;
  missing_after_ms = 5000;
  min_value = some 0;
  max_value = some 60000;
  max_rate_per_s = none;
}

abbrev motor_stopped : AlarmRule ℕ
motor_stopped = record {
  id = "MOTOR_STOPPED";
  tag = "MOTOR_301_CURRENT";
  severity = Severity.critical;
  condition = record {
    op = AlarmOp.lt;
    threshold = some 100;
    warning = none;
    critical = none;
    for_ms = 0;
  };
  message = "Motor stopped";
  asset_id = some "MTR-301";
  priority = none;
  deadband = 0;
  delay_ms = 0;
  latching = true;
  requires_ack = false;
}

abbrev config : RuntimeConfig ℕ
config = record {
  alarm_rules = motor_stopped ∷ [];
  asset_index = "MTR-301" ∷ "BUS-101" ∷ [];
  tag_index = ("BUS_101_V", policy) ∷ [];
  graph_index = graph;
  situation_types = bus_sag ∷ [];
}

abbrev bus_frame : TagFrame ℕ
bus_frame = record (frame "BUS_101_V" "BUS-101") { value = num 75000 }

abbrev dead_frame : TagFrame ℕ
dead_frame = record bus_frame { quality = TagQuality.bad }

prepare_sound_example :
    (((prepare dead_frame config overload).quality ≡ good)
      ↔ IsTrusted (policy_of config dead_frame) (reading_of dead_frame overload 1000000))
    × (is_degraded TagQuality.bad ≡ true
        → ((prepare dead_frame config overload).value ≡ null)
          × ((prepare dead_frame config overload).quality ≡ TagQuality.bad))
prepare_sound_example = prepare_sound dead_frame config overload

prepare-above_max_example :
    ((prepare bus_frame config overload).quality ≡ TagQuality.bad)
    × ((prepare bus_frame config overload).value ≡ num 75000)
unfolding lookup
prepare-above_max_example =
    prepare-above_max bus_frame config overload 75000 refl refl refl refl refl

abbrev old_frame : TagFrame ℕ
old_frame = record (frame "MOTOR_301_CURRENT" "MTR-301") { quality = stale }

abbrev stopped : AlarmRecord ℕ
stopped = record (alarm "MOTOR_STOPPED" "MTR-301" "MOTOR_301_CURRENT" 500000) {
  severity = Severity.critical;
}

abbrev runtime : Runtime ℕ
runtime = record {
  state = record {
    tags = ("MOTOR_301_CURRENT", old_frame) ∷ [];
    active_alarms = ("MOTOR_STOPPED", stopped) ∷ [];
    seen_identity_keys = [];
  };
  engine = initial;
  histories = [];
  active_situations = [];
  asset_status = [];
}

runtime-KeysMatch : KeysMatch runtime.state
unfolding lookup
runtime-KeysMatch k g e = ground (arith, e, eq_iff "MOTOR_301_CURRENT" k)

stale_stays_stale_example :
    lookup "MOTOR_301_CURRENT" (after_ticks config (9000000 ∷ 99000000 ∷ []) runtime).state.tags
    ≡ some old_frame
unfolding lookup
stale_stays_stale_example =
    stale_stays_stale config (9000000 ∷ 99000000 ∷ []) runtime "MOTOR_301_CURRENT" old_frame
      runtime-KeysMatch refl refl

evaluate_runtime_tick-TickAgrees_example :
    TickAgrees config (evaluate_runtime_tick runtime config 2000000)
evaluate_runtime_tick-TickAgrees_example = evaluate_runtime_tick-TickAgrees runtime config 2000000

latched_tick : (evaluate_runtime_tick runtime config 2000000).0 ≡ ticked (stopped ∷ []) [] none none
unfolding evaluate_runtime_tick plantlens.Runtime.Stages.after_alarms evaluate_alarms
    plantlens.Alarm.Engine.step_rule lookup plantlens.Runtime.refresh_tag_qualities
    plantlens.Runtime.refresh_keys plantlens.Runtime.refresh_frame normalize_tag_quality
    classify_tag plantlens.Runtime.Stages.finish evaluate_situations
    plantlens.Runtime.Stages.resolve_projection
latched_tick = refl

tick_critical_shows_example :
    lookup "MTR-301" (evaluate_runtime_tick runtime config 2000000).1.asset_status
    ≡ some AssetStatus.critical
unfolding plantlens.Situation.index_alarms insert
tick_critical_shows_example =
    tick_critical_shows runtime config 2000000 "MTR-301" (stopped ∷ []) [] none none latched_tick
      refl refl refl
