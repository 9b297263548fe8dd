-- ===== src/Dag/Trace.antt =====
-- `diagnose_trace` of apps/api/app/runtime/dag_runtime.py around its walk: the early returns, the
-- ranking, and the trace. `none` stands for a walk out of fuel, which does not happen
-- (Dag/Trace/Root.antt). The trace's random id is left out.
pub mod Root
pub mod Best
use plantlens.Prelude.{
  ℕ, String, Bool, true, false, Option, none, some, List, [], ◌∷◌, ◌++◌, ◌&&◌, not, str_eq, any,
  take, map, if◌then◌else◌, FloatOps,
}
use plantlens.Prelude.Dict.{Dict, lookup, setdefault, values}
use plantlens.Prelude.Sorting.{sort, str_lt}
use plantlens.Frame.{TagFrame, TagQuality, is_good, is_degraded}
use plantlens.Records.{AlarmRecord}
use plantlens.State.{RuntimeState}
use plantlens.Dag.Graph.{GraphIndex}
use plantlens.Dag.Fingerprint.{Reason}
use plantlens.Dag.Walk.{
  Candidate, RejectedCandidateRecord, below_threshold, lower_rank, Search, Outcome, done,
  out_of_fuel, walk, walk_fuel, seed,
}

pub data ConfidenceBucket : Type 0 where
  high medium low : ConfidenceBucket

pub data ConfidenceReason : Type 0 where
  no_active_alarms only_degraded_evidence no_symptom_asset none_met fingerprint_match :
      ConfidenceReason
  because : List Reason → ConfidenceReason

pub record RootCauseTrace (R : Type 0) : Type 0 where
  pub selected_root : Option String
  pub confidence : R
  pub confidence_bucket : ConfidenceBucket
  pub confidence_reason : ConfidenceReason
  pub candidates : List (Candidate R)
  pub rejected_candidates : List (RejectedCandidateRecord R)
  pub data_quality_notes : List (String × TagQuality)

-- _collect_data_quality_notes
unfoldable pub collect_data_quality_notes :
    {R : Type 0} → Dict (TagFrame R) → List (String × TagQuality)
collect_data_quality_notes [] = []
collect_data_quality_notes ((tag, frame) ∷ rest) =
    let notes = collect_data_quality_notes rest in
    if is_degraded frame.quality then (tag, frame.quality) ∷ notes else notes

abbrev pub good_tag : {R : Type 0} → Option (TagFrame R) → Bool
good_tag none = false
good_tag (some tag) = is_good tag.quality

-- Some active alarm stands on a good frame.
abbrev pub any_good_alarm : {R : Type 0} → RuntimeState R → Bool
any_good_alarm s =
    any (λ (a : AlarmRecord _). good_tag (lookup a.tag_id s.tags)) (values s.active_alarms)

-- `active_alarms.get(id) or next(iter(active_alarms.values()))`
abbrev pub symptom_or_first : {R : Type 0} → Option (AlarmRecord R) → AlarmRecord R → AlarmRecord R
symptom_or_first none a = a
symptom_or_first (some s) a = s

abbrev pub reasons_or_match : List Reason → ConfidenceReason
reasons_or_match [] = fingerprint_match
reasons_or_match (r ∷ rs) = because (r ∷ rs)

abbrev pub is_empty : List (String × TagQuality) → Bool
is_empty [] = true
is_empty (_ ∷ _) = false

module _ {R : Type 0} ⦃f : FloatOps R⦄ where
  -- _confidence_bucket
  unfoldable pub confidence_bucket_of : R → ConfidenceBucket
  confidence_bucket_of score =
      if f.le (f.decimal 75 2) score
      then high
      else if f.le (f.decimal 45 2) score
      then medium
      else low

  -- `(-score, node_id)` as a sort key
  abbrev pub better : Candidate R → Candidate R → Bool
  better a b = if f.eq a.score b.score then str_lt a.node_id b.node_id else f.lt b.score a.score

  pub dedupe : Dict (Candidate R) → List (Candidate R) → Dict (Candidate R)
  dedupe d [] = d
  dedupe d (c ∷ cs) = dedupe (setdefault c.node_id c d) cs

  -- The best five candidates.
  unfoldable pub rank : List (Candidate R) → List (Candidate R)
  unfolding dedupe
  rank cs = take 5 (sort better (values (dedupe [] (sort better cs))))

  abbrev pub failed : ConfidenceReason → List (String × TagQuality) → RootCauseTrace R
  failed reason notes = record {
    selected_root = none;
    confidence = f.decimal 0 1;
    confidence_bucket = low;
    confidence_reason = reason;
    candidates = [];
    rejected_candidates = [];
    data_quality_notes = notes;
  }

  abbrev outranked : String → List (Candidate R) → List (RejectedCandidateRecord R)
  outranked winner cs =
      map
        (λ c. record {
          asset_id = c.node_id;
          reason = lower_rank winner;
          score = c.score;
          contradicted_by = [];
        })
        cs

  -- The part behind the ranking.
  pub conclude :
      R
      → List (RejectedCandidateRecord R)
      → List (String × TagQuality)
      → List (Candidate R)
      → RootCauseTrace R
  unfolding confidence_bucket_of
  conclude min_root_score rejected notes [] = record (failed none_met notes) {
    confidence_bucket = confidence_bucket_of (f.decimal 0 1);
    rejected_candidates = rejected;
  }
  conclude min_root_score rejected notes (top ∷ rest) =
      if f.le min_root_score top.score
      then record {
        selected_root = some top.node_id;
        confidence = top.score;
        confidence_bucket = confidence_bucket_of top.score;
        confidence_reason = reasons_or_match top.reasons;
        candidates = top ∷ rest;
        rejected_candidates = rejected ++ outranked top.node_id rest;
        data_quality_notes = notes;
      }
      else record {
        selected_root = none;
        confidence = f.decimal 0 1;
        confidence_bucket = confidence_bucket_of (f.decimal 0 1);
        confidence_reason = none_met;
        candidates = top ∷ rest;
        rejected_candidates =
            (rejected
              ++ record {
                asset_id = top.node_id;
                reason = below_threshold top.node_id;
                score = top.score;
                contradicted_by = [];
              }
                ∷ [])
            ++ outranked "none" rest;
        data_quality_notes = notes;
      }

  abbrev pub finish : R → List (String × TagQuality) → Outcome R → Option (RootCauseTrace R)
  finish min_root_score notes (done t) =
      some (conclude min_root_score t.rejected notes (rank t.candidates))
  finish min_root_score notes out_of_fuel = none

  -- The walk from the symptom, if it has an asset.
  pub trace_from :
      GraphIndex R
      → RuntimeState R
      → R
      → AlarmRecord R
      → List (String × TagQuality)
      → Option (RootCauseTrace R)
  unfolding conclude
  trace_from g s min_root_score symptom notes =
      if str_eq symptom.asset_id ""
      then some (failed no_symptom_asset notes)
      else finish min_root_score notes (
          walk g s.active_alarms s.tags symptom.raised_at min_root_score (walk_fuel g)
            (seed symptom.asset_id))

  pub trace_active :
      String
      → GraphIndex R
      → RuntimeState R
      → R
      → Dict (AlarmRecord R)
      → List (String × TagQuality)
      → Option (RootCauseTrace R)
  unfolding trace_from
  trace_active symptom_alarm_id g s min_root_score [] notes = some (failed no_active_alarms notes)
  trace_active symptom_alarm_id g s min_root_score ((id, first) ∷ rest) notes =
      if not (is_empty notes) && not (any_good_alarm s)
      then some (failed only_degraded_evidence notes)
      else trace_from g s min_root_score
          (symptom_or_first (lookup symptom_alarm_id s.active_alarms) first) notes

  -- diagnose_trace
  unfoldable pub diagnose_trace :
      String → GraphIndex R → RuntimeState R → R → Option (RootCauseTrace R)
  unfolding trace_active
  diagnose_trace symptom_alarm_id g s min_root_score =
      trace_active symptom_alarm_id g s min_root_score s.active_alarms
        (collect_data_quality_notes s.tags)
