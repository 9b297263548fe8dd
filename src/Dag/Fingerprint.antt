-- ===== src/Dag/Fingerprint.antt =====
-- `evaluate_node_fingerprint` of apps/api/app/runtime/dag_runtime.py. A reason keeps its parts: the
-- code puts them into a text.
use plantlens.Prelude.{
  ℕ, suc, String, Bool, true, false, Option, none, some, List, [], ◌∷◌, ◌++◌, str_eq, any,
  if◌then◌else◌, FloatOps, length, float_max, float_min,
}
use plantlens.Prelude.Dict.{Dict, lookup, values}
use plantlens.Frame.{TagFrame, is_good}
use plantlens.Records.{AlarmRecord}
use plantlens.Dag.Graph.{ScoreRule, RootCauseRule, GraphNode, GraphIndex, evaluate_conditions}

pub data Reason : Type 0 where
  alarm_active quality_degraded rule_matched authored : String → Reason

-- The loop's variables.
pub record Tally (R : Type 0) : Type 0 where
  pub score : R
  pub matched : ℕ
  pub reasons : List Reason

abbrev pub empty_node : {R : Type 0} → GraphNode R
empty_node = record { evidence_tags = []; fingerprint_rules = []; score_adjustments = [] }

-- `graph_index["nodes"].get(node_id, {})`
abbrev pub node_or_empty : {R : Type 0} → Option (GraphNode R) → GraphNode R
node_or_empty none = empty_node
node_or_empty (some n) = n

abbrev pub degraded_frame : {R : Type 0} → Option (TagFrame R) → Bool
degraded_frame none = false
degraded_frame (some frame) = if is_good frame.quality then false else true

module _ {R : Type 0} ⦃f : FloatOps R⦄ (alarms : Dict (AlarmRecord R))
    (tags : Dict (TagFrame R)) where
  -- `tag_id in alarm_by_tag`
  abbrev tag_in_alarm : String → Bool
  tag_in_alarm tag = any (λ (a : AlarmRecord R). str_eq a.tag_id tag) (values alarms)

  count_match : Tally R → String → Tally R
  count_match t tag =
      if tag_in_alarm tag
      then record t { matched = suc t.matched; reasons = t.reasons ++ alarm_active tag ∷ [] }
      else t

  degrade : Tally R → String → Tally R
  degrade t tag =
      if degraded_frame (lookup tag tags)
      then record t {
        score = f.sub t.score (f.decimal 5 1);
        reasons = t.reasons ++ quality_degraded tag ∷ [];
      }
      else t

  evidence_loop : Tally R → List String → Tally R
  unfolding count_match degrade
  evidence_loop t [] = t
  evidence_loop t (tag ∷ rest) = evidence_loop (degrade (count_match t tag) tag) rest

  -- `if evidence_tags: score += matched / len(evidence_tags)`
  share : List String → Tally R → Tally R
  share [] t = t
  share (tag ∷ rest) t = record t {
    score = f.add t.score (f.div (f.of_nat t.matched) (f.of_nat (length (tag ∷ rest))));
  }

  rule_loop : String → Tally R → List (RootCauseRule R) → Tally R
  rule_loop node t [] = t
  rule_loop node t (rule ∷ rest) =
      rule_loop node
        (if str_eq rule.target_node node
          then (if evaluate_conditions rule.conditions alarms tags
              then record t {
                score = f.add t.score rule.score_bonus;
                reasons = t.reasons ++ rule_matched rule.logic ∷ [];
              }
              else t)
          else t)
        rest

  -- an empty reason is not kept
  abbrev keep_reason : String → List Reason → List Reason
  keep_reason reason rs = if str_eq reason "" then rs else rs ++ authored reason ∷ []

  bonus_loop : Tally R → List (ScoreRule R) → Tally R
  bonus_loop t [] = t
  bonus_loop t (rule ∷ rest) =
      bonus_loop
        (if evaluate_conditions rule.conditions alarms tags
          then record t {
            score = f.add t.score rule.amount;
            reasons = keep_reason rule.reason t.reasons;
          }
          else t)
        rest

  adjust_loop : Tally R → List (ScoreRule R) → Tally R
  adjust_loop t [] = t
  adjust_loop t (rule ∷ rest) =
      adjust_loop
        (if evaluate_conditions rule.conditions alarms tags
          then record t {
            score = f.mul t.score rule.amount;
            reasons = keep_reason rule.reason t.reasons;
          }
          else t)
        rest

  abbrev start_tally : Tally R
  start_tally = record { score = f.of_nat 0; matched = 0; reasons = [] }

  tally : String → GraphIndex R → GraphNode R → Tally R
  unfolding evidence_loop share rule_loop bonus_loop adjust_loop
  tally node g spec =
      adjust_loop
        (bonus_loop
          (rule_loop node (share spec.evidence_tags (evidence_loop start_tally spec.evidence_tags))
            g.root_cause_rules)
          spec.fingerprint_rules)
        spec.score_adjustments

  abbrev clamp : R → R
  clamp x = float_max (f.decimal 0 1) (float_min (f.decimal 10 1) x)

  -- evaluate_node_fingerprint
  unfoldable pub evaluate_node_fingerprint : String → GraphIndex R → R × List Reason
  unfolding tally
  evaluate_node_fingerprint node g =
      let t = tally node g (node_or_empty (lookup node g.nodes)) in (clamp t.score, t.reasons)
