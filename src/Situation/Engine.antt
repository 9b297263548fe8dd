-- ===== src/Situation/Engine.antt =====
-- `evaluate_situations` of apps/api/app/runtime/situation_engine.py: the spec that matches the diagnosis,
-- and the situation of it.
use Prim.Native.String
use plantlens.Prelude.{
  ℕ, String, Bool, true, false, Option, none, some, List, [], ◌∷◌, ◌&&◌, not, str_eq, any, all, map,
  filter, if◌then◌else◌, FloatOps,
}
use plantlens.Prelude.Strings.{distinct}
use plantlens.Prelude.Dict.{contains}
use plantlens.Prelude.Sorting.{sort, str_lt}
use plantlens.Frame.{Severity}
use plantlens.Records.{AlarmRecord}
use plantlens.State.{RuntimeState}
use plantlens.Dag.Graph.{GraphIndex, Condition, evaluate_conditions}
use plantlens.Dag.Walk.{Candidate}
use plantlens.Dag.Trace.{RootCauseTrace, confidence_bucket_of, diagnose_trace}
use plantlens.Situation.{
  Situation, SituationSpec, alarm_ids, build_causal_path, build_evidence, by_id,
  has_non_good_evidence, on_good_tag, raised_before, worst_severity,
}

abbrev pub Result : Type 0 → Type 0
Result R = List (Situation R) × Option (RootCauseTrace R)

abbrev pub is_root : Option String → String → Bool
is_root none root = false
is_root (some r) root = str_eq r root

module _ {R : Type 0} where
  abbrev pub extra_met : List (Condition R) → (List (Condition R) → Bool) → Bool
  extra_met [] test = true
  extra_met (c ∷ cs) test = test (c ∷ cs)

abbrev pub alarms_present : Bool → List String → List String → Bool
alarms_present true required alarm_ids = all (λ r. contains r alarm_ids) required
alarms_present false required alarm_ids = any (λ r. contains r alarm_ids) required

module _ {R : Type 0} ⦃f : FloatOps R⦄ where
  -- Whether the loop of `_match_situation_type` returns this spec.
  abbrev pub matches : RuntimeState R → String → R → List String → SituationSpec R → Bool
  matches s root score alarm_ids spec =
      is_root spec.root_asset_id root
      && not (f.lt score spec.min_root_score)
      && alarms_present spec.require_all_alarms spec.required_alarms alarm_ids
      && extra_met spec.extra_conditions (λ cs. evaluate_conditions cs s.active_alarms s.tags)

  -- _match_situation_type
  unfoldable pub match_situation_type :
      RuntimeState R → String → R → List String → List (SituationSpec R) → Option (SituationSpec R)
  match_situation_type s root score alarm_ids [] = none
  match_situation_type s root score alarm_ids (spec ∷ specs) =
      let later = match_situation_type s root score alarm_ids specs in
      if matches s root score alarm_ids spec then some spec else later

  -- `next((c for c in candidates if c.node_id == root), None)`
  abbrev pub candidate_of : String → List (Candidate R) → Option (Candidate R)
  candidate_of root [] = none
  candidate_of root (c ∷ cs) =
      let later = candidate_of root cs in if str_eq c.node_id root then some c else later

  abbrev pub score_of : RootCauseTrace R → Option (Candidate R) → R
  score_of trace none = trace.confidence
  score_of trace (some c) = c.score

  abbrev pub edges_of : Option (Candidate R) → List String
  edges_of none = []
  edges_of (some c) = c.traversed_edges

  -- The situation of a spec that matched.
  unfoldable pub make_situation :
      ℕ
      → List (AlarmRecord R)
      → Severity
      → RootCauseTrace R
      → String
      → SituationSpec R
      → Situation R
  make_situation now alarms worst trace root spec =
      let candidate = candidate_of root trace.candidates in
      record {
        situation_id = String.◌++◌ "SIT_" spec.id;
        situation_type = spec.id;
        severity = worst;
        root_asset_id = root;
        confidence = confidence_bucket_of (score_of trace candidate);
        confidence_score = score_of trace candidate;
        confidence_reason = trace.confidence_reason;
        created_at = now;
        grouped_alarm_ids = sort str_lt (distinct (alarm_ids alarms));
        affected_asset_ids = sort str_lt (
            distinct
              (filter (λ a. not (str_eq a "")) (map (λ (x : AlarmRecord R). x.asset_id) alarms)));
        causal_path = build_causal_path root alarms spec.evidence_order;
        traversed_edges = edges_of candidate;
        evidence = build_evidence alarms spec.evidence_order;
      }

  abbrev pub with_spec :
      ℕ
      → List (AlarmRecord R)
      → Severity
      → RootCauseTrace R
      → String
      → Option (SituationSpec R)
      → Result R
  with_spec now alarms worst trace root none = ([], some trace)
  with_spec now alarms worst trace root (some spec) =
      (make_situation now alarms worst trace root spec ∷ [], some trace)

  -- What follows the diagnosis.
  abbrev pub with_root :
      ℕ
      → RuntimeState R
      → List (AlarmRecord R)
      → Severity
      → List (SituationSpec R)
      → RootCauseTrace R
      → Option String
      → Result R
  with_root now s alarms worst specs trace none = ([], some trace)
  with_root now s alarms worst specs trace (some root) = with_spec now alarms worst trace root (
      match_situation_type s root (score_of trace (candidate_of root trace.candidates))
        (alarm_ids alarms) specs)

  abbrev pub from_trace :
      ℕ
      → RuntimeState R
      → List (AlarmRecord R)
      → Severity
      → List (SituationSpec R)
      → Option (RootCauseTrace R)
      → Option (Result R)
  from_trace now s alarms worst specs none = none
  from_trace now s alarms worst specs (some trace) =
      some (with_root now s alarms worst specs trace trace.selected_root)

  -- `sorted(active_alarms, key=...)[0]` of the alarm and those behind it
  abbrev pub first_of : AlarmRecord R → List (AlarmRecord R) → AlarmRecord R
  first_of default [] = default
  first_of default (x ∷ xs) = x

  abbrev pub default_min_root_score : R
  default_min_root_score = f.decimal 1 1

  -- evaluate_situations, with the state that it leaves
  unfoldable pub evaluate_situations :
      GraphIndex R
      → List (SituationSpec R)
      → ℕ
      → RuntimeState R
      → List (AlarmRecord R)
      → Option (Result R) × RuntimeState R
  evaluate_situations g specs now s [] = (some ([], none), s)
  evaluate_situations g specs now s (x ∷ xs) =
      let t = record s { active_alarms = by_id (x ∷ xs) } in
      if has_non_good_evidence t && not (any (on_good_tag t) (x ∷ xs))
      then (some ([], none), t)
      else (
        from_trace now t (x ∷ xs) (worst_severity x.severity xs) specs (
            diagnose_trace (first_of x (sort raised_before (x ∷ xs))).alarm_id g t
              default_min_root_score),
        t,
      )
