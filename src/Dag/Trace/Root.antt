-- ===== src/Dag/Trace/Root.antt =====
-- What a selected root cause rests on, and when none is selected.
use plantlens.Prelude.{
  String, ◌≡◌, refl, sym, ap, subst, true, false, Option, none, some, List, [], ◌∷◌, ◌&&◌, not, ◌⊎◌,
  inl, inr, arith, str_eq, any, FloatOps, All, All-map, All-take, Bool-cases, length, ◌≤◌,
  length-take,
}
use plantlens.Prelude.Dict.{Dict, lookup, setdefault, values}
use plantlens.Prelude.Sorting.{sort, All-sort}
use plantlens.Frame.{TagFrame, TagQuality, is_degraded}
use plantlens.Records.{AlarmRecord}
use plantlens.State.{RuntimeState}
use plantlens.Dag.Graph.{GraphIndex}
use plantlens.Dag.Walk.{Candidate, RejectedCandidateRecord}
use plantlens.Dag.Walk.Paths.{Walked, IsSound, walk_correct}
use plantlens.Dag.Trace.{
  ConfidenceReason, no_active_alarms, only_degraded_evidence, no_symptom_asset, failed, is_empty,
  RootCauseTrace, collect_data_quality_notes, good_tag, any_good_alarm, symptom_or_first, better,
  dedupe, rank, conclude, trace_from, trace_active, diagnose_trace,
}

module _ {R : Type 0} ⦃f : FloatOps R⦄ (P : Candidate R → Type 0) where
  All-setdefault :
      (k : String) (c : Candidate R) (d : Dict (Candidate R))
      → P c
      → All P (values d)
      → All P (values (setdefault k c d))
  unfolding setdefault
  All-setdefault k c [] p h = (p, tt)
  All-setdefault k c ((j, w) ∷ d) p h = elim (Bool-cases (str_eq j k)) [
    | inl e ↦ rw e h
    | inr e ↦ rw e (h.0, All-setdefault k c d p h.1)
  ]

  All-dedupe :
      (d : Dict (Candidate R)) (cs : List (Candidate R))
      → All P (values d)
      → All P cs
      → All P (values (dedupe d cs))
  unfolding rank
  All-dedupe d [] hd hc = hd
  All-dedupe d (c ∷ cs) hd hc =
      All-dedupe (setdefault c.node_id c d) cs (All-setdefault c.node_id c d hc.0 hd) hc.1

  pub All-rank : (cs : List (Candidate R)) → All P cs → All P (rank cs)
  unfolding rank
  All-rank cs h = All-take P 5 (sort better (values (dedupe [] (sort better cs)))) (
      All-sort better P (values (dedupe [] (sort better cs)))
        (All-dedupe [] (sort better cs) tt (All-sort better P cs h)))

module _ {R : Type 0} ⦃f : FloatOps R⦄ where
  pub conclude_candidates :
      (min_root_score : R) (rejected : List (RejectedCandidateRecord R))
      (notes : List (String × TagQuality)) (cs : List (Candidate R))
      → (conclude min_root_score rejected notes cs).candidates ≡ cs
  unfolding conclude
  conclude_candidates min_root_score rejected notes [] = refl
  conclude_candidates min_root_score rejected notes (top ∷ rest) = ground arith

-- The alarm that the walk starts from: the one that was asked for, if it is active, or the first.
abbrev pub symptom_of : {R : Type 0} → String → Dict (AlarmRecord R) → Option (AlarmRecord R)
symptom_of id [] = none
symptom_of id ((k, first) ∷ rest) = some (symptom_or_first (lookup id ((k, first) ∷ rest)) first)

module _ {R : Type 0} ⦃f : FloatOps R⦄ (g : GraphIndex R) (s : RuntimeState R)
    (min_root_score : R) where
  -- The candidate was reached from the symptom's asset over the edges that it names, all approved and
  -- timely, and its score is not below the threshold.
  pub record IsExplained (symptom : AlarmRecord R) (c : Candidate R) : Type 0 where
    pub reached :
        Walked g s.active_alarms symptom.raised_at symptom.asset_id c.node_id c.traversed_edges
    pub scored : f.le min_root_score c.score ≡ true

  -- What a trace may claim: its candidates, five at most, are explained, and the root that it selects is
  -- the first of them.
  pub record IsFounded (symptom : AlarmRecord R) (tr : RootCauseTrace R) : Type 0 where
    pub explained : All (IsExplained symptom) tr.candidates
    pub at_most_five : length tr.candidates ≤ 5
    pub root_first :
        (root : String)
        → tr.selected_root ≡ some root
        → (top : Candidate R) × (rest : List (Candidate R)) × (tr.candidates ≡ top ∷ rest)
          × (top.node_id ≡ root)
          × (tr.confidence ≡ top.score)

  conclude_root :
      (rejected : List (RejectedCandidateRecord R)) (notes : List (String × TagQuality))
      (cs : List (Candidate R)) (root : String)
      → (conclude min_root_score rejected notes cs).selected_root ≡ some root
      → (top : Candidate R) × (rest : List (Candidate R)) × ((conclude min_root_score rejected notes
            cs).candidates
          ≡ top ∷ rest)
        × (top.node_id ≡ root)
        × ((conclude min_root_score rejected notes cs).confidence ≡ top.score)
  unfolding conclude
  conclude_root rejected notes [] root h = ground arith
  conclude_root rejected notes (top ∷ rest) root h =
      (top, rest, ground arith, ground arith, ground arith)

  failed-IsFounded :
      (symptom : AlarmRecord R) (reason : ConfidenceReason) (notes : List (String × TagQuality))
      → IsFounded symptom (failed reason notes)
  failed-IsFounded symptom reason notes = record {
    explained = tt;
    at_most_five = omega arith;
    root_first = λ root h. cc;
  }

  conclude-IsFounded :
      (symptom : AlarmRecord R) (rejected : List (RejectedCandidateRecord R))
      (notes : List (String × TagQuality)) (cs : List (Candidate R))
      → All (IsExplained symptom) cs
      → length cs ≤ 5
      → IsFounded symptom (conclude min_root_score rejected notes cs)
  conclude-IsFounded symptom rejected notes cs h five =
      let same = conclude_candidates min_root_score rejected notes cs in
      record {
        explained = subst (All (IsExplained symptom)) (sym same) h;
        at_most_five = rw same five;
        root_first = conclude_root rejected notes cs;
      }

  length-rank : (cs : List (Candidate R)) → length (rank cs) ≤ 5
  unfolding rank
  length-rank cs =
      omega (arith, length-take {0} 5 (sort better (values (dedupe [] (sort better cs)))))

  -- A symptom gives a trace, and the trace is founded.
  trace_from-IsFounded :
      (symptom : AlarmRecord R) (notes : List (String × TagQuality))
      → (tr : RootCauseTrace R) × (trace_from g s min_root_score symptom notes ≡ some tr)
        × IsFounded symptom tr
  unfolding diagnose_trace
  trace_from-IsFounded symptom notes = elim (Bool-cases (str_eq symptom.asset_id "")) [
    | inl e ↦ (
      failed no_symptom_asset notes,
      ground arith,
      failed-IsFounded symptom no_symptom_asset notes,
    )
    | inr e ↦
        let (t, ends, _, sound) =
          walk_correct g s.active_alarms s.tags symptom.raised_at min_root_score symptom.asset_id in
        (
          conclude min_root_score t.rejected notes (rank t.candidates),
          rw e (rw ends),
          conclude-IsFounded symptom t.rejected notes (rank t.candidates)
              (All-rank (IsExplained symptom) t.candidates (
                All-map
                  (IsSound g s.active_alarms s.tags symptom.raised_at min_root_score
                    symptom.asset_id t.visited)
                  (IsExplained symptom) (λ c h. record { reached = h.reached; scored = h.scored })
                  t.candidates sound))
              (length-rank t.candidates),
        )
  ]

  trace_active-IsFounded :
      (id : String) (alarms : Dict (AlarmRecord R)) (notes : List (String × TagQuality))
      → s.active_alarms ≡ alarms
      → (tr : RootCauseTrace R) × (trace_active id g s min_root_score alarms notes ≡ some tr)
        × ((tr.candidates ≡ []) × (tr.selected_root ≡ none)
            ⊎ ((symptom : AlarmRecord R) × (symptom_of id alarms ≡ some symptom)
                × IsFounded symptom tr))
  unfolding diagnose_trace
  trace_active-IsFounded id [] notes e = (failed no_active_alarms notes, refl, inl (refl, refl))
  trace_active-IsFounded id ((k, first) ∷ rest) notes e =
      elim (Bool-cases (not (is_empty notes) && not (any_good_alarm s))) [
        | inl b ↦ (failed only_degraded_evidence notes, rw b, inl (refl, refl))
        | inr b ↦
            let (tr, same, founded) =
              trace_from-IsFounded (symptom_or_first (lookup id s.active_alarms) first) notes in
            (
              tr,
              rw b same,
              inr (
                symptom_or_first (lookup id s.active_alarms) first,
                ap (λ d. some (symptom_or_first (lookup id d) first)) (sym e),
                founded,
              ),
            )
      ]

  -- `diagnose_trace` always returns a trace. Either it has no candidate and selects no root, or, from
  -- the symptom that it starts at, it has at most five candidates, each reached backwards from the
  -- symptom's asset over approved and timely edges, by the edges that it names, with a score that is
  -- not below the threshold; a selected root is the first candidate, with its score as confidence.
  pub diagnose_trace-IsFounded :
      (id : String)
      → (tr : RootCauseTrace R) × (diagnose_trace id g s min_root_score ≡ some tr)
        × ((tr.candidates ≡ []) × (tr.selected_root ≡ none)
            ⊎ ((symptom : AlarmRecord R) × (symptom_of id s.active_alarms ≡ some symptom)
                × IsFounded symptom tr))
  unfolding diagnose_trace
  diagnose_trace-IsFounded id =
      trace_active-IsFounded id s.active_alarms (collect_data_quality_notes s.tags) refl

  notes-ne-nil :
      (tags : Dict (TagFrame R)) (tag : String) (frame : TagFrame R)
      → lookup tag tags ≡ some frame
      → is_degraded frame.quality ≡ true
      → is_empty (collect_data_quality_notes tags) ≡ false
  unfolding collect_data_quality_notes lookup
  notes-ne-nil [] tag frame l d = ground arith
  notes-ne-nil ((j, w) ∷ tags) tag frame l d = ground (arith, notes-ne-nil tags tag frame)

  no_good_alarm :
      (l : List (AlarmRecord R))
      → All (λ a. good_tag (lookup a.tag_id s.tags) ≡ false) l
      → any (λ a. good_tag (lookup a.tag_id s.tags)) l ≡ false
  no_good_alarm [] h = refl
  no_good_alarm (a ∷ l) h = ground (arith, no_good_alarm l h.1)

  trace_active_closed :
      (id : String) (alarms : Dict (AlarmRecord R)) (notes : List (String × TagQuality))
      → is_empty notes ≡ false
      → any_good_alarm s ≡ false
      → (tr : RootCauseTrace R) × (trace_active id g s min_root_score alarms notes ≡ some tr)
        × (tr.selected_root ≡ none)
        × (tr.candidates ≡ [])
  unfolding diagnose_trace
  trace_active_closed id [] notes n a = (failed no_active_alarms notes, refl, refl, refl)
  trace_active_closed id ((k, first) ∷ rest) notes n a =
      (failed only_degraded_evidence notes, ground arith, refl, refl)

  -- With a stale, missing or bad frame among the tags, and no active alarm on a good frame, the
  -- diagnosis selects no root and lists no candidate.
  pub diagnose_trace_fails_closed :
      (id tag : String) (frame : TagFrame R)
      → lookup tag s.tags ≡ some frame
      → is_degraded frame.quality ≡ true
      → All (λ a. good_tag (lookup a.tag_id s.tags) ≡ false) (values s.active_alarms)
      → (tr : RootCauseTrace R) × (diagnose_trace id g s min_root_score ≡ some tr)
        × (tr.selected_root ≡ none)
        × (tr.candidates ≡ [])
  unfolding diagnose_trace
  diagnose_trace_fails_closed id tag frame l d h =
      trace_active_closed id s.active_alarms (collect_data_quality_notes s.tags)
        (notes-ne-nil s.tags tag frame l d) (no_good_alarm (values s.active_alarms) h)
