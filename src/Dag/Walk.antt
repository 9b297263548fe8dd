-- ===== src/Dag/Walk.antt =====
-- The loop of `diagnose_trace` in apps/api/app/runtime/dag_runtime.py: a priority walk from the
-- symptom's asset against the edges. The loop runs on fuel; `walk_fuel` is always enough
-- (Dag/Walk/Ends.antt). A reason keeps its parts: the code puts them into a text.
pub mod Ends
pub mod Cross
pub mod Paths
use plantlens.Prelude.{
  ℕ, zero, suc, ◌+◌, String, Bool, true, false, Option, none, some, List, [], ◌∷◌, ◌++◌, ◌||◌, not,
  str_eq, if◌then◌else◌, FloatOps, length,
}
use plantlens.Prelude.Dict.{Dict, lookup, values, contains}
use plantlens.Prelude.Sorting.{sort, str_lt}
use plantlens.Frame.{TagFrame}
use plantlens.Records.{AlarmRecord}
use plantlens.Dag.Graph.{GraphEdge, GraphIndex, violates_temporal_window, edge_penalty}
use plantlens.Dag.Fingerprint.{Reason, evaluate_node_fingerprint}

pub record Candidate (R : Type 0) : Type 0 where
  pub node_id : String
  pub score : R
  pub reasons : List Reason
  pub traversed_edges : List String

pub data RejectReason : Type 0 where
  below_threshold edge_not_approved temporal_window_violated lower_rank : String → RejectReason

pub record RejectedCandidateRecord (R : Type 0) : Type 0 where
  pub asset_id : String
  pub reason : RejectReason
  pub score : R
  pub contradicted_by : List String

-- An entry of the frontier: the node, its priority, and the ids of the edges that led there.
pub record Item (R : Type 0) : Type 0 where
  pub node : String
  pub priority : R
  pub path : List String

pub record Search (R : Type 0) : Type 0 where
  pub frontier : List (Item R)
  pub visited : List String
  pub candidates : List (Candidate R)
  pub rejected : List (RejectedCandidateRecord R)

pub data Outcome (R : Type 0) : Type 0 where
  done : Search R → Outcome R
  out_of_fuel : Outcome R

-- _find_alarm_for_asset
unfoldable pub find_alarm_for_asset :
    {R : Type 0} → List (AlarmRecord R) → String → Option (AlarmRecord R)
find_alarm_for_asset [] asset = none
find_alarm_for_asset (a ∷ rest) asset =
    if str_eq a.asset_id asset then some a else find_alarm_for_asset rest asset

abbrev pub raised_at_of : {R : Type 0} → Option (AlarmRecord R) → Option ℕ
raised_at_of none = none
raised_at_of (some a) = some a.raised_at

-- `graph_index["reverse_adjacency"].get(current, [])`
abbrev pub edges_or_none : {R : Type 0} → Option (List (GraphEdge R)) → List (GraphEdge R)
edges_or_none none = []
edges_or_none (some es) = es

module _ {R : Type 0} where
  abbrev pub edges_into : GraphIndex R → String → List (GraphEdge R)
  edges_into g node = edges_or_none (lookup node g.reverse_adjacency)

  -- One round for the seed and one for each edge.
  abbrev pub count_edges : Dict (List (GraphEdge R)) → ℕ
  count_edges [] = 0
  count_edges ((node, edges) ∷ rest) = length edges + count_edges rest

  abbrev pub walk_fuel : GraphIndex R → ℕ
  walk_fuel g = suc (count_edges g.reverse_adjacency)

  abbrev pub reject : RejectedCandidateRecord R → Search R → Search R
  reject r s = record s { rejected = s.rejected ++ r ∷ [] }

module _ {R : Type 0} ⦃f : FloatOps R⦄ where
  -- `(priority, node)` as a sort key
  abbrev pub item_before : Item R → Item R → Bool
  item_before a b =
      if f.eq a.priority b.priority then str_lt a.node b.node else f.lt a.priority b.priority

  abbrev pub seed : String → Search R
  seed asset = record {
    frontier = record { node = asset; priority = f.decimal 0 1; path = [] } ∷ [];
    visited = [];
    candidates = [];
    rejected = [];
  }

module _ {R : Type 0} ⦃f : FloatOps R⦄ (alarms : Dict (AlarmRecord R)) (effect_ts : ℕ) where
  -- Whether the walk may cross the edge: it is approved, and the cause's alarm, if there is one, came
  -- within the edge's lags before the symptom.
  abbrev pub timely : GraphEdge R → Bool
  timely edge = not (
      violates_temporal_window edge
        (raised_at_of (find_alarm_for_asset (values alarms) edge.from_node)) (some effect_ts))

  -- The body of the loop over the edges into `item.node`.
  unfoldable pub cross : Item R → Search R → GraphEdge R → Search R
  cross item s edge =
      if not edge.approved
      then reject
          (record {
            asset_id = edge.from_node;
            reason = edge_not_approved edge.id;
            score = f.decimal 0 1;
            contradicted_by = [];
          })
          s
      else if not (timely edge)
      then reject
          (record {
            asset_id = edge.from_node;
            reason = temporal_window_violated edge.id;
            score = f.decimal 0 1;
            contradicted_by = edge.id ∷ [];
          })
          s
      else record s {
        frontier =
            s.frontier
            ++ record {
              node = edge.from_node;
              priority = f.add item.priority (edge_penalty edge);
              path = item.path ++ edge.id ∷ [];
            }
              ∷ [];
      }

  unfoldable pub cross_all : Item R → Search R → List (GraphEdge R) → Search R
  cross_all item s [] = s
  cross_all item s (edge ∷ edges) = cross_all item (cross item s edge) edges

module _ {R : Type 0} ⦃f : FloatOps R⦄ (g : GraphIndex R) (alarms : Dict (AlarmRecord R))
    (tags : Dict (TagFrame R)) (effect_ts : ℕ) (min_root_score : R) where
  -- `score - priority * 0.01`
  abbrev pub adjusted : Item R → R
  adjusted item =
      f.sub (evaluate_node_fingerprint alarms tags item.node g).0
        (f.mul item.priority (f.decimal 1 2))

  -- The node becomes a candidate, or is rejected by its score.
  unfoldable pub assess : Item R → Search R → Search R
  assess item s =
      let (score, reasons) = evaluate_node_fingerprint alarms tags item.node g in
      if f.le min_root_score (adjusted item)
      then record s {
        candidates =
            s.candidates
            ++ record {
              node_id = item.node;
              score = adjusted item;
              reasons = reasons;
              traversed_edges = item.path;
            }
              ∷ [];
      }
      else if f.lt (f.of_nat 0) score
      then reject
          (record {
            asset_id = item.node;
            reason = below_threshold item.node;
            score = adjusted item;
            contradicted_by = [];
          })
          s
      else s

  -- One round, after `item` was popped.
  unfoldable pub expand : Item R → Search R → Search R
  expand item s =
      if contains item.node s.visited
      then s
      else cross_all alarms effect_ts item
          (assess item (record s { visited = item.node ∷ s.visited })) (edges_into g item.node)

  -- `while frontier: frontier.sort(...); current = frontier.pop(0); ...`
  unfoldable pub walk : ℕ → Search R → Outcome R
  walk zero s = elim s.frontier [ [] ↦ done s | _ ∷ _ ↦ out_of_fuel ]
  walk (suc fuel) s = elim (sort item_before s.frontier) [
    | [] ↦ done s
    | item ∷ rest ↦ walk fuel (expand item (record s { frontier = rest }))
  ]
