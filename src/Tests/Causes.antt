-- ===== src/Tests/Causes.antt =====
-- The motor overload of the demo plant: the bus voltage sags after the motor current rose.
use plantlens.Prelude.{
  ℕ, String, ◌≡◌, ◌↔◌, ◌⊎◌, refl, Bool, true, false, none, some, List, [], ◌∷◌, All,
}
use plantlens.Prelude.Dict.{lookup, contains, setdefault}
use plantlens.Prelude.Sorting.{IsSorted, sort, insort}
use plantlens.Frame.{TagFrame, num, null, good, stale, modbus_rtu, Severity}
use plantlens.Records.{AlarmOp, AlarmRecord}
use plantlens.State.{RuntimeState}
use plantlens.Dag.Graph.{
  GraphEdge, GraphNode, GraphIndex, evaluate_conditions, evaluate_condition,
  violates_temporal_window, edge_penalty,
}
use plantlens.Dag.Fingerprint.{alarm_active, evaluate_node_fingerprint}
use plantlens.Dag.Walk.{
  Search, done, walk, walk_fuel, seed, expand, assess, cross_all, cross, find_alarm_for_asset,
  edge_not_approved, lower_rank,
}
use plantlens.Dag.Walk.Paths.{IsSound, Reachable, walk_correct}
use plantlens.Dag.Trace.{
  RootCauseTrace, high, because, diagnose_trace, collect_data_quality_notes, rank,
  confidence_bucket_of,
}
use plantlens.Dag.Trace.Root.{
  IsFounded, symptom_of, diagnose_trace-IsFounded, diagnose_trace_fails_closed,
}
use plantlens.Dag.Trace.Best.{NotBeaten, diagnose_trace_best_first}
use plantlens.Tests.Numbers.{thousandths, thousandths-IsOrdered}

abbrev edge : String → String → String → Bool → ℕ → GraphEdge ℕ
edge id from to approved lag = record {
  id = id;
  from_node = from;
  to_node = to;
  approved = approved;
  lag_min = 0;
  lag_max = lag;
  edge_type = "structural_power";
  weight = 800;
}

abbrev node : List String → GraphNode ℕ
node tags = record { evidence_tags = tags; fingerprint_rules = []; score_adjustments = [] }

-- MTR-301 → BUS-101 is approved, PV-101 → BUS-101 is not
abbrev pub graph : GraphIndex ℕ
graph = record {
  nodes =
      ("MTR-301", node ("MOTOR_301_CURRENT" ∷ []))
      ∷ ("BUS-101", node ("BUS_101_V" ∷ []))
      ∷ ("PV-101", node [])
      ∷ [];
  reverse_adjacency =
      ("MTR-301", [])
      ∷ ("PV-101", [])
      ∷ (
        "BUS-101",
        edge "E5" "MTR-301" "BUS-101" true 4000 ∷ edge "E9" "PV-101" "BUS-101" false 4000 ∷ [],
      )
      ∷ [];
  root_cause_rules = [];
}

abbrev pub alarm : String → String → String → ℕ → AlarmRecord ℕ
alarm id asset tag at = record {
  alarm_id = id;
  asset_id = asset;
  tag_id = tag;
  severity = Severity.warning;
  message = id;
  raised_at = at;
  value = num 3400;
  acked = false;
  priority = none;
  quality = good;
  evidence = record {
    tag_id = tag;
    observed_value = num 3400;
    comparator = AlarmOp.gt;
    threshold = none;
    quality = good;
  };
}

abbrev pub frame : String → String → TagFrame ℕ
frame tag asset = record {
  tag_id = tag;
  asset_id = asset;
  value = num 3400;
  quality = good;
  timestamp = 1000000;
  source = modbus_rtu;
  seq = none;
  ingest_ts = none;
}

abbrev pub overload : RuntimeState ℕ
overload = record {
  tags =
      ("MOTOR_301_CURRENT", frame "MOTOR_301_CURRENT" "MTR-301")
      ∷ ("BUS_101_V", frame "BUS_101_V" "BUS-101")
      ∷ [];
  active_alarms =
      ("MOTOR_CURRENT_HIGH", alarm "MOTOR_CURRENT_HIGH" "MTR-301" "MOTOR_301_CURRENT" 1000000)
      ∷ ("DC_BUS_LOW", alarm "DC_BUS_LOW" "BUS-101" "BUS_101_V" 2500000)
      ∷ [];
  seen_identity_keys = [];
}

abbrev overload_trace : RootCauseTrace ℕ
overload_trace = record {
  selected_root = some "BUS-101";
  confidence = 1000;
  confidence_bucket = high;
  confidence_reason = because (alarm_active "BUS_101_V" ∷ []);
  candidates =
      record {
        node_id = "BUS-101";
        score = 1000;
        reasons = alarm_active "BUS_101_V" ∷ [];
        traversed_edges = [];
      }
      ∷ record {
        node_id = "MTR-301";
        score = 998;
        reasons = alarm_active "MOTOR_301_CURRENT" ∷ [];
        traversed_edges = "E5" ∷ [];
      }
      ∷ [];
  rejected_candidates =
      record {
        asset_id = "PV-101";
        reason = edge_not_approved "E9";
        score = 0;
        contradicted_by = [];
      }
      ∷ record {
        asset_id = "MTR-301";
        reason = lower_rank "BUS-101";
        score = 998;
        contradicted_by = [];
      }
      ∷ [];
  data_quality_notes = [];
}

diagnose_overload : diagnose_trace "DC_BUS_LOW" graph overload 100 ≡ some overload_trace
unfolding diagnose_trace collect_data_quality_notes walk expand assess cross_all cross rank
    evaluate_node_fingerprint evaluate_conditions evaluate_condition violates_temporal_window
    edge_penalty find_alarm_for_asset confidence_bucket_of sort insort lookup setdefault
diagnose_overload = refl

diagnose_trace_best_first_example : IsSorted NotBeaten overload_trace.candidates
diagnose_trace_best_first_example =
    diagnose_trace_best_first thousandths-IsOrdered "DC_BUS_LOW" graph overload 100 overload_trace
      diagnose_overload

diagnose_trace-IsFounded_example :
    (tr : RootCauseTrace ℕ) × (diagnose_trace "DC_BUS_LOW" graph overload 100 ≡ some tr)
    × ((tr.candidates ≡ []) × (tr.selected_root ≡ none)
        ⊎ ((symptom : AlarmRecord ℕ) × (symptom_of "DC_BUS_LOW" overload.active_alarms
              ≡ some symptom)
            × IsFounded graph overload 100 symptom tr))
diagnose_trace-IsFounded_example = diagnose_trace-IsFounded graph overload 100 "DC_BUS_LOW"

walk_correct_example :
    (t : Search ℕ) × (walk graph overload.active_alarms overload.tags 2500000 100
        (walk_fuel graph)
        (seed "BUS-101")
      ≡ done t)
    × ((n : String)
        → (contains n t.visited ≡ true)
          ↔ Reachable graph overload.active_alarms 2500000 "BUS-101" n)
    × All
        (IsSound graph overload.active_alarms overload.tags 2500000 100 "BUS-101" t.visited)
        t.candidates
walk_correct_example = walk_correct graph overload.active_alarms overload.tags 2500000 100 "BUS-101"

abbrev bus_frame : TagFrame ℕ
bus_frame = record (frame "BUS_101_V" "BUS-101") { quality = stale; value = null }

abbrev blind : RuntimeState ℕ
blind = record {
  tags = ("BUS_101_V", bus_frame) ∷ [];
  active_alarms = ("DC_BUS_LOW", alarm "DC_BUS_LOW" "BUS-101" "BUS_101_V" 2500000) ∷ [];
  seen_identity_keys = [];
}

diagnose_trace_fails_closed_example :
    (tr : RootCauseTrace ℕ) × (diagnose_trace "DC_BUS_LOW" graph blind 100 ≡ some tr)
    × (tr.selected_root ≡ none)
    × (tr.candidates ≡ [])
unfolding lookup
diagnose_trace_fails_closed_example =
    diagnose_trace_fails_closed graph blind 100 "DC_BUS_LOW" "BUS_101_V" bus_frame refl refl
      (refl, tt)
