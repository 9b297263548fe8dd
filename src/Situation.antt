-- ===== src/Situation.antt =====
-- apps/api/app/runtime/situation_engine.py: the active alarms collapse into one situation around the
-- root cause. Here are its records, the evidence and the causal path; Engine has the match of the types
-- and `evaluate_situations`. Its `none` stands for a diagnosis out of fuel, which does not happen
-- (Situation/Founded.antt). The names that only decorate a situation (`title`, `root_asset_name`), the
-- copy of the rejected candidates and the trace's id are left out.

pub mod Engine
pub mod Path
pub mod Evidence
pub mod Founded
use Prim.Native.String
use plantlens.Prelude.{
  ℕ, String, Bool, true, false, Option, none, some, List, [], ◌∷◌, ◌++◌, ◌&&◌, not, ltb, leb, ◌==◌,
  str_eq, any, all, map, filter, if◌then◌else◌, FloatOps,
}
use plantlens.Prelude.Dict.{Dict, lookup, insert, values, contains}
use plantlens.Prelude.Sorting.{sort, str_lt}
use plantlens.Frame.{TagFrame, Severity, is_degraded}
use plantlens.Records.{AlarmRecord}
use plantlens.State.{RuntimeState, get_tag}
use plantlens.Dag.Graph.{GraphIndex, Condition, evaluate_conditions}
use plantlens.Dag.Walk.{Candidate}
use plantlens.Dag.Trace.{
  ConfidenceBucket, ConfidenceReason, RootCauseTrace, good_tag, confidence_bucket_of,
  diagnose_trace,
}

-- `projection` of an entry, with the default of `threshold`; a text that is left out is empty, which
-- the code treats alike. The label is left out.
pub record ProjectionConfig (R : Type 0) : Type 0 where
  pub tag_id : String
  pub alarm_id : String
  pub threshold : R

-- An entry of `situation_types`, with the defaults of `min_root_score` and `require_all_alarms`.
pub record SituationSpec (R : Type 0) : Type 0 where
  pub id : String
  pub root_asset_id : Option String
  pub min_root_score : R
  pub required_alarms : List String
  pub require_all_alarms : Bool
  pub extra_conditions : List (Condition R)
  pub evidence_order : List String
  pub projection : ProjectionConfig R

pub data Role : Type 0 where
  first_signal evidence : Role

pub record EvidenceItem : Type 0 where
  pub alarm_id : String
  pub asset_id : String
  pub timestamp : ℕ
  pub reason : String
  pub role : Role

pub record Situation (R : Type 0) : Type 0 where
  pub situation_id : String
  pub situation_type : String
  pub severity : Severity
  pub root_asset_id : String
  pub confidence : ConfidenceBucket
  pub confidence_score : R
  pub confidence_reason : ConfidenceReason
  pub created_at : ℕ
  pub grouped_alarm_ids : List String
  pub affected_asset_ids : List String
  pub causal_path : List String
  pub traversed_edges : List String
  pub evidence : List EvidenceItem

abbrev pub severity_order : Severity → ℕ
severity_order Severity.info = 0
severity_order Severity.warning = 1
severity_order Severity.critical = 2

-- `max` keeps the first of equals.
abbrev pub worse : Severity → Severity → Severity
worse a b = if ltb (severity_order a) (severity_order b) then b else a

abbrev pub option_list {ℓ} : {A : Type ℓ} → Option A → List A
option_list none = []
option_list (some a) = a ∷ []

module _ {R : Type 0} where
  -- _worst_severity of `a` and the alarms behind it
  unfoldable pub worst_severity : Severity → List (AlarmRecord R) → Severity
  worst_severity a [] = a
  worst_severity a (x ∷ xs) = worst_severity (worse a x.severity) xs

  abbrev pub alarm_ids : List (AlarmRecord R) → List String
  alarm_ids alarms = map (λ (x : AlarmRecord R). x.alarm_id) alarms

  -- `{alarm["alarm_id"]: alarm for alarm in alarms}`
  unfoldable pub index_alarms : List (AlarmRecord R) → Dict (AlarmRecord R) → Dict (AlarmRecord R)
  index_alarms [] d = d
  index_alarms (x ∷ xs) d = index_alarms xs (insert x.alarm_id x d)

  abbrev pub by_id : List (AlarmRecord R) → Dict (AlarmRecord R)
  by_id alarms = index_alarms alarms []

  -- `(raised_at, alarm_id)` as a sort key
  abbrev pub raised_before : AlarmRecord R → AlarmRecord R → Bool
  raised_before a b =
      if a.raised_at == b.raised_at
      then str_lt a.alarm_id b.alarm_id
      else ltb a.raised_at b.raised_at

  -- _has_non_good_evidence
  abbrev pub has_non_good_evidence : RuntimeState R → Bool
  has_non_good_evidence s = any (λ (x : TagFrame R). is_degraded x.quality) (values s.tags)

  abbrev pub on_good_tag : RuntimeState R → AlarmRecord R → Bool
  on_good_tag s alarm = good_tag (get_tag s alarm.tag_id)

  -- `[d[k] for k in keys if k in d]`
  unfoldable pub look_all : Dict (AlarmRecord R) → List String → List (AlarmRecord R)
  look_all d [] = []
  look_all d (k ∷ ks) = option_list (lookup k d) ++ look_all d ks

  -- The order of the evidence: the listed alarms first, then the others by the time that they came.
  unfoldable pub order_alarms : List (AlarmRecord R) → List String → List (AlarmRecord R)
  order_alarms alarms [] = sort raised_before alarms
  order_alarms alarms (k ∷ ks) =
      look_all (by_id alarms) (k ∷ ks)
      ++ sort raised_before
          (filter (λ (x : AlarmRecord R). not (contains x.alarm_id (k ∷ ks))) alarms)

  abbrev pub item : Role → AlarmRecord R → EvidenceItem
  item role alarm = record {
    alarm_id = alarm.alarm_id;
    asset_id = alarm.asset_id;
    timestamp = alarm.raised_at;
    reason = alarm.message;
    role = role;
  }

  abbrev pub items : List (AlarmRecord R) → List EvidenceItem
  items [] = []
  items (x ∷ xs) = item first_signal x ∷ map (item Role.evidence) xs

  -- _build_evidence
  unfoldable pub build_evidence : List (AlarmRecord R) → List String → List EvidenceItem
  build_evidence alarms evidence_order = items (order_alarms alarms evidence_order)

  -- The loop over `evidence_order` in `_build_causal_path`.
  abbrev pub add_asset : Option (AlarmRecord R) → List String → List String
  add_asset none path = path
  add_asset (some a) path =
      if not (str_eq a.asset_id "") && not (contains a.asset_id path)
      then path ++ a.asset_id ∷ []
      else path

  unfoldable pub path_assets : Dict (AlarmRecord R) → List String → List String → List String
  path_assets d [] path = path
  path_assets d (k ∷ ks) path = path_assets d ks (add_asset (lookup k d) path)

-- `path[0] != root`, where the path has the root somewhere
abbrev pub starts_with : String → List String → Bool
starts_with root [] = false
starts_with root (x ∷ xs) = str_eq x root

-- The end of `_build_causal_path`: the root goes to the front.
unfoldable pub root_first : String → List String → List String
root_first root path =
    if not (contains root path)
    then root ∷ path
    else if not (starts_with root path)
    then root ∷ filter (λ a. not (str_eq a root)) path
    else path

module _ {R : Type 0} where
  -- _build_causal_path
  unfoldable pub build_causal_path : String → List (AlarmRecord R) → List String → List String
  build_causal_path root alarms evidence_order =
      root_first root (path_assets (by_id alarms) evidence_order [])
