-- ===== src/Tests/Graphs.antt =====
-- A motor that drives a fan, and the fan a blower, whose airflow cools the motor.
use plantlens.Prelude.{ℕ, String, true, false, ◌≡◌, ◌↔◌, refl, List, [], ◌∷◌}
use plantlens.Prelude.Integers.{pos, negsuc}
use plantlens.Prelude.Dict.{lookup, insert}
use plantlens.Prelude.Sorting.{sort, insort}
use plantlens.Prelude.Strings.{distinct}
use plantlens.GraphCompile.{
  Edge, CausalGraph, PlantIds, cycle, unknown_to, negative_lag, adjacency, each, dfs, roots,
  detect_cycle, node_errors, edge_error, edge_errors, situation_errors, rule_errors,
  validate_and_compile_graph,
}
use plantlens.GraphCompile.Cycle.{Decides, detect_cycle-Decides}
use plantlens.GraphCompile.Verdict.{IsSound, validate_and_compile_graph-IsSound}

abbrev plant : PlantIds
plant = record { asset_ids = "MTR" ∷ "FAN" ∷ "BLW" ∷ []; tag_ids = []; alarm_ids = [] }

abbrev edge : String → String → String → Edge
edge id a b = record {
  id = id;
  from_node = a;
  to_node = b;
  approved = true;
  lag_min = pos 0;
  lag_max = pos 5000;
}

abbrev graph : List Edge → CausalGraph ℕ
graph edges = record {
  nodes = "MTR" ∷ "FAN" ∷ "BLW" ∷ [];
  edges = edges;
  situation_types = [];
  root_cause_rules = [];
}

abbrev line : List Edge
line = edge "E1" "MTR" "FAN" ∷ edge "E2" "FAN" "BLW" ∷ []

abbrev ring : List Edge
ring = edge "E1" "MTR" "FAN" ∷ edge "E2" "FAN" "BLW" ∷ edge "E3" "BLW" "MTR" ∷ []

-- An edge to a missing asset, with a negative lag, that is not approved
abbrev broken : Edge
broken = record (edge "E4" "FAN" "PMP") { approved = false; lag_min = negsuc 2 }

line_passes : (validate_and_compile_graph plant (graph line)).ok ≡ true
unfolding validate_and_compile_graph node_errors edge_errors edge_error situation_errors rule_errors
    detect_cycle roots dfs each adjacency sort insort distinct lookup insert
line_passes = refl

errors_found :
    (validate_and_compile_graph plant (graph (broken ∷ ring))).errors
    ≡ unknown_to "E4" ∷ negative_lag "E4" ∷ cycle ("BLW" ∷ "MTR" ∷ "FAN" ∷ "BLW" ∷ []) ∷ []
unfolding validate_and_compile_graph node_errors edge_errors edge_error situation_errors rule_errors
    detect_cycle roots dfs each adjacency sort insort distinct lookup insert
errors_found = refl

detect_cycle-Decides_example : Decides ring (detect_cycle ring)
detect_cycle-Decides_example = detect_cycle-Decides ring

validate_and_compile_graph-IsSound_example :
    ((validate_and_compile_graph plant (graph line)).ok ≡ true) ↔ IsSound plant (graph line)
validate_and_compile_graph-IsSound_example = validate_and_compile_graph-IsSound plant (graph line)
