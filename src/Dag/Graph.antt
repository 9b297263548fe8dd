-- ===== src/Dag/Graph.antt =====
-- The causal graph as the runtime indexes it (apps/api/app/runtime/config_loader.py), and the tests
-- of dag_runtime.py on edges and on authored conditions. The keys that a condition leaves out have
-- their defaults already. Lags are not negative: graph_compile.py refuses a graph with one that is.
use plantlens.Prelude.{
  ℕ, String, Bool, true, false, Option, none, some, List, [], ◌∷◌, ◌||◌, ◌+◌, ◌*◌, not, ltb, leb,
  any, all, if◌then◌else◌, FloatOps, float_max,
}
use plantlens.Prelude.Dict.{Dict, lookup, has_key}
use plantlens.Frame.{TagFrame, as_number, is_good}
use plantlens.Records.{AlarmRecord}

pub record GraphEdge (R : Type 0) : Type 0 where
  pub id : String
  pub from_node : String
  pub to_node : String
  pub approved : Bool
  pub lag_min : ℕ
  pub lag_max : ℕ
  pub edge_type : String
  pub weight : R

-- `delta_ms < lag_min or delta_ms > lag_max`
abbrev pub outside_lag : {R : Type 0} → GraphEdge R → ℕ → ℕ → Bool
outside_lag edge cause effect =
    ltb effect (cause + edge.lag_min * 1000) || ltb (cause + edge.lag_max * 1000) effect

-- violates_temporal_window
unfoldable pub violates_temporal_window : {R : Type 0} → GraphEdge R → Option ℕ → Option ℕ → Bool
violates_temporal_window edge cause none = true
violates_temporal_window edge none (some effect) = false
violates_temporal_window edge (some cause) (some effect) = outside_lag edge cause effect

-- edge_penalty
unfoldable pub edge_penalty : {R : Type 0} ⦃f : FloatOps R⦄ → GraphEdge R → R
edge_penalty ⦃f⦄ edge = float_max (f.decimal 5 2) (f.sub (f.decimal 10 1) edge.weight)

pub data ThresholdOp : Type 0 where
  lt lte gt gte eq unknown_op : ThresholdOp

pub data Condition (R : Type 0) : Type 0 where
  alarms_all alarms_any alarms_absent : List String → Condition R
  alarm_before : String → String → Condition R
  tag_threshold : String → ThresholdOp → R → Condition R
  tag_quality_good : String → Condition R
  -- a type that the code does not list
  unknown_type : Condition R

pub record ScoreRule (R : Type 0) : Type 0 where
  pub conditions : List (Condition R)
  -- `score_bonus`, or `multiply` of an adjustment
  pub amount : R
  pub reason : String

pub record RootCauseRule (R : Type 0) : Type 0 where
  pub target_node : String
  pub conditions : List (Condition R)
  pub score_bonus : R
  pub logic : String

pub record GraphNode (R : Type 0) : Type 0 where
  pub evidence_tags : List String
  pub fingerprint_rules : List (ScoreRule R)
  pub score_adjustments : List (ScoreRule R)

pub record GraphIndex (R : Type 0) : Type 0 where
  pub nodes : Dict (GraphNode R)
  pub reverse_adjacency : Dict (List (GraphEdge R))
  pub root_cause_rules : List (RootCauseRule R)

module _ {R : Type 0} ⦃f : FloatOps R⦄ where
  compare_threshold : ThresholdOp → R → R → Bool
  compare_threshold lt v t = f.lt v t
  compare_threshold lte v t = f.le v t
  compare_threshold gt v t = f.lt t v
  compare_threshold gte v t = f.le t v
  compare_threshold eq v t = f.eq v t
  compare_threshold unknown_op v t = false

  threshold_met : ThresholdOp → R → Option (TagFrame R) → Bool
  unfolding compare_threshold
  threshold_met op t none = false
  threshold_met op t (some frame) =
      if is_good frame.quality
      then elim (as_number frame.value) [ none ↦ false | some v ↦ compare_threshold op v t ]
      else false

  good_frame : Option (TagFrame R) → Bool
  good_frame none = false
  good_frame (some frame) = is_good frame.quality

  before : Option (AlarmRecord R) → Option (AlarmRecord R) → Bool
  before (some a) (some b) = leb a.raised_at b.raised_at
  before _ _ = false

  -- evaluate_condition
  unfoldable pub evaluate_condition : Condition R → Dict (AlarmRecord R) → Dict (TagFrame R) → Bool
  unfolding threshold_met good_frame before
  evaluate_condition (alarms_all ids) alarms tags = all (λ id. has_key id alarms) ids
  evaluate_condition (alarms_any ids) alarms tags = any (λ id. has_key id alarms) ids
  evaluate_condition (alarms_absent ids) alarms tags = not (any (λ id. has_key id alarms) ids)
  evaluate_condition (alarm_before first second) alarms tags =
      before (lookup first alarms) (lookup second alarms)
  evaluate_condition (tag_threshold tag op t) alarms tags = threshold_met op t (lookup tag tags)
  evaluate_condition (tag_quality_good tag) alarms tags = good_frame (lookup tag tags)
  evaluate_condition unknown_type alarms tags = false

  -- evaluate_conditions: no condition at all does not count as met
  unfoldable pub evaluate_conditions :
      List (Condition R) → Dict (AlarmRecord R) → Dict (TagFrame R) → Bool
  evaluate_conditions [] alarms tags = false
  evaluate_conditions (c ∷ cs) alarms tags =
      all (λ cond. evaluate_condition cond alarms tags) (c ∷ cs)
