-- ===== src/GraphCompile.antt =====
-- apps/api/app/runtime/graph_compile.py: the checks that a causal graph passes before it becomes the
-- runtime's, and the index of its approved edges. The keys that the contract requires are there; the others
-- have their defaults already. A node stands for its id, an error for its field and message. The hash of
-- the graph's text, its version and the dict of its situation types are left out.
pub mod Arcs
pub mod Fresh
pub mod Walk
pub mod Cycle
pub mod Errors
pub mod Verdict
use plantlens.Prelude.{
  ℕ, zero, suc, String, Bool, true, false, Option, none, some, List, [], ◌∷◌, ◌++◌, not, ◌||◌, ◌&&◌,
  str_eq, any, all, length, filter, if◌then◌else◌,
}
use plantlens.Prelude.Integers.{ℤ, is_negative}
use plantlens.Prelude.Dict.{Dict, lookup, insert, contains}
use plantlens.Prelude.Sorting.{sort, str_lt}
use plantlens.Prelude.Strings.{distinct}
use plantlens.Dag.Graph.{Condition, tag_threshold, RootCauseRule}
use plantlens.Situation.{SituationSpec}
use mathlib.Core.List.{map, reverse}

pub record Edge : Type 0 where
  pub id : String
  pub from_node : String
  pub to_node : String
  pub approved : Bool
  pub lag_min : ℤ
  pub lag_max : ℤ

pub record CausalGraph (R : Type 0) : Type 0 where
  pub nodes : List String
  pub edges : List Edge
  pub situation_types : List (SituationSpec R)
  pub root_cause_rules : List (RootCauseRule R)

-- The ids of the assets, of the tags and of the alarm rules of a plant
pub record PlantIds : Type 0 where
  pub asset_ids : List String
  pub tag_ids : List String
  pub alarm_ids : List String

pub data CompileError : Type 0 where
  unknown_asset duplicate_edge unknown_from unknown_to negative_lag : String → CompileError
  cycle : List String → CompileError
  unknown_alarm unknown_tag unknown_rule_tag : String → String → CompileError

-- `d.get(key, [])`
abbrev pub list_or_empty : {A : Type 0} → Option (List A) → List A
list_or_empty none = []
list_or_empty (some xs) = xs

abbrev pub neighbors : Dict (List String) → String → List String
neighbors adj node = list_or_empty (lookup node adj)

-- `d.setdefault(key, []).append(value)`
abbrev pub append_to : String → String → Dict (List String) → Dict (List String)
append_to key value d = insert key (neighbors d key ++ value ∷ []) d

-- The `adj` of _detect_cycle
unfoldable pub adjacency : List Edge → Dict (List String) → Dict (List String)
adjacency [] adj = adj
adjacency (e ∷ es) adj = adjacency es (append_to e.from_node e.to_node adj)

-- The `nodes` of _detect_cycle, with repetitions
abbrev pub endpoints : List Edge → List String
endpoints [] = []
endpoints (e ∷ es) = e.from_node ∷ e.to_node ∷ endpoints es

-- The variables that `dfs` shares. The path is kept with its last node first.
pub record Search : Type 0 where
  pub visited : List String
  pub stack : List String
  pub path : List String

-- `found` is a return of True, `finished` one of False.
pub data Walked : Type 0 where
  found finished : Search → Walked
  out_of_fuel : Walked

abbrev pub enter : String → Search → Search
enter node s = record { visited = node ∷ s.visited; stack = node ∷ s.stack; path = node ∷ s.path }

abbrev pub pop : List String → List String
pop [] = []
pop (x ∷ xs) = xs

-- The end of `dfs`, behind its loop.
abbrev pub leave : String → Walked → Walked
leave node (finished s) =
    finished (record s { stack = filter (λ x. not (str_eq x node)) s.stack; path = pop s.path })
leave node w = w

-- What follows a call that returned False.
abbrev pub and_then : Walked → (Search → Walked) → Walked
and_then (finished t) later = later t
and_then (found t) later = found t
and_then out_of_fuel later = out_of_fuel

-- The loop over the neighbors.
unfoldable pub each : (String → Search → Walked) → List String → Search → Walked
each go [] s = finished s
each go (k ∷ ks) s =
    let later = each go ks in
    let inner = and_then (go k s) later in
    let rest = later s in
    if not (contains k s.visited)
    then inner
    else if contains k s.stack
    then found (record s { path = k ∷ s.path })
    else rest

-- dfs, on fuel for the depth of its recursion
unfoldable pub dfs : ℕ → Dict (List String) → String → Search → Walked
dfs zero adj node s = out_of_fuel
dfs (suc n) adj node s = leave node (each (dfs n adj) (neighbors adj node) (enter node s))

-- The loop over all nodes.
unfoldable pub roots : (String → Search → Walked) → List String → Search → Walked
roots go [] s = finished s
roots go (k ∷ ks) s =
    let later = roots go ks in
    let inner = and_then (go k s) later in
    let rest = later s in if not (contains k s.visited) then inner else rest

-- _detect_cycle; the nodes are fuel enough
unfoldable pub detect_cycle : List Edge → Walked
detect_cycle approved_edges =
    let nodes = sort str_lt (distinct (endpoints approved_edges)) in
    roots (dfs (length nodes) (adjacency approved_edges [])) nodes
      (record { visited = []; stack = []; path = [] })

abbrev pub approved_of : List Edge → List Edge
approved_of edges = filter (λ (e : Edge). e.approved) edges

-- `errors.append(e)` under a test
abbrev pub error_if : Bool → CompileError → List CompileError
error_if test e = if test then e ∷ [] else []

unfoldable pub node_errors : List String → List String → List CompileError
node_errors assets [] = []
node_errors assets (n ∷ ns) =
    error_if (not (contains n assets)) (unknown_asset n) ++ node_errors assets ns

-- The errors of one round of the loop over the edges, with the edge ids before it.
unfoldable pub edge_error : List String → List String → Edge → List CompileError
edge_error assets seen e =
    error_if (contains e.id seen) (duplicate_edge e.id)
    ++ (error_if (not (contains e.from_node assets)) (unknown_from e.id)
        ++ (error_if (not (contains e.to_node assets)) (unknown_to e.id)
            ++ error_if (is_negative e.lag_min || is_negative e.lag_max) (negative_lag e.id)))

unfoldable pub edge_errors : List String → List String → List Edge → List CompileError
edge_errors assets seen [] = []
edge_errors assets seen (e ∷ es) = edge_error assets seen e ++ edge_errors assets (e.id ∷ seen) es

abbrev pub cycle_error : Walked → List CompileError
cycle_error (found s) = cycle (reverse s.path) ∷ []
cycle_error w = []

unfoldable pub alarm_errors : List String → String → List String → List CompileError
alarm_errors alarms spec [] = []
alarm_errors alarms spec (a ∷ as_) =
    error_if (not (contains a alarms)) (unknown_alarm spec a) ++ alarm_errors alarms spec as_

module _ {R : Type 0} where
  abbrev pub known_tag : List String → Condition R → Bool
  known_tag tags (tag_threshold tag op value) = contains tag tags
  known_tag tags c = true

  abbrev pub tag_of : Condition R → String
  tag_of (tag_threshold tag op value) = tag
  tag_of c = ""

  unfoldable pub tag_errors :
      List String → (String → CompileError) → List (Condition R) → List CompileError
  tag_errors tags e [] = []
  tag_errors tags e (c ∷ cs) =
      error_if (not (known_tag tags c)) (e (tag_of c)) ++ tag_errors tags e cs

  unfoldable pub situation_errors : PlantIds → List (SituationSpec R) → List CompileError
  situation_errors ids [] = []
  situation_errors ids (s ∷ ss) =
      alarm_errors ids.alarm_ids s.id s.required_alarms
      ++ (tag_errors ids.tag_ids (unknown_tag s.id) s.extra_conditions ++ situation_errors ids ss)

  unfoldable pub rule_errors : PlantIds → List (RootCauseRule R) → List CompileError
  rule_errors ids [] = []
  rule_errors ids (r ∷ rs) =
      tag_errors ids.tag_ids (unknown_rule_tag r.target_node) r.conditions ++ rule_errors ids rs

-- `{nid: [] for nid in nodes}`
abbrev pub empty_lists : List String → Dict (List String) → Dict (List String)
empty_lists [] d = d
empty_lists (n ∷ ns) d = empty_lists ns (insert n [] d)

-- `approved_edge_index[eid] = edge`
unfoldable pub index_edges : List Edge → Dict Edge → Dict Edge
index_edges [] d = d
index_edges (e ∷ es) d = index_edges es (insert e.id e d)

unfoldable pub reverse_edges : List Edge → Dict (List String) → Dict (List String)
reverse_edges [] d = d
reverse_edges (e ∷ es) d = reverse_edges es (append_to e.to_node e.from_node d)

pub record GraphCompileResult : Type 0 where
  pub ok : Bool
  pub errors : List CompileError
  pub approved_edge_index : Dict Edge
  pub reverse_adjacency : Dict (List String)

abbrev pub no_errors : List CompileError → Bool
no_errors [] = true
no_errors (e ∷ es) = false

-- validate_and_compile_graph, with the walk of _detect_cycle
unfoldable pub validate_and_compile_graph :
    {R : Type 0} → PlantIds → CausalGraph R → GraphCompileResult
validate_and_compile_graph ids g =
    let approved_edges = approved_of g.edges in
    let errors =
      node_errors ids.asset_ids (distinct g.nodes)
      ++ (edge_errors ids.asset_ids [] g.edges
          ++ (cycle_error (detect_cycle approved_edges)
              ++ (situation_errors ids g.situation_types ++ rule_errors ids g.root_cause_rules))) in
    record {
      ok = no_errors errors;
      errors = errors;
      approved_edge_index = index_edges approved_edges [];
      reverse_adjacency = reverse_edges approved_edges (empty_lists g.nodes []);
    }
