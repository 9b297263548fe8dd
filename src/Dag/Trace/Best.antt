-- ===== src/Dag/Trace/Best.antt =====
-- The order of the candidates.
use plantlens.Prelude.{
  String, ◌≡◌, sym, subst, true, false, Option, none, some, List, [], ◌∷◌, ◌&&◌, not, inl, inr,
  arith, str_eq, FloatOps, IsOrdered, Bool-cases,
}
use plantlens.Prelude.Dict.{Dict, lookup, values}
use plantlens.Prelude.Sorting.{sort, IsSorted, sort-IsSorted, take-IsSorted}
use plantlens.Frame.{TagQuality}
use plantlens.Records.{AlarmRecord}
use plantlens.State.{RuntimeState}
use plantlens.Dag.Graph.{GraphIndex}
use plantlens.Dag.Walk.{
  Candidate, RejectedCandidateRecord, Outcome, done, out_of_fuel, walk, walk_fuel, seed,
}
use plantlens.Dag.Trace.Root.{conclude_candidates}
use plantlens.Dag.Trace.{
  RootCauseTrace, any_good_alarm, symptom_or_first, better, dedupe, rank, conclude, finish,
  trace_from, trace_active, is_empty, collect_data_quality_notes, diagnose_trace,
}

module _ {R : Type 0} ⦃f : FloatOps R⦄ where
  -- The second candidate does not beat the first.
  abbrev pub NotBeaten : Candidate R → Candidate R → Type 0
  NotBeaten a b = f.lt a.score b.score ≡ false

module _ {R : Type 0} ⦃f : FloatOps R⦄ (ord : IsOrdered f) where
  better_first : (x y : Candidate R) → better x y ≡ true → NotBeaten x y
  better_first x y h = ground (arith, ord.asym y.score x.score, ord.eq_left x.score y.score)

  better_second : (x y : Candidate R) → better x y ≡ false → NotBeaten y x
  better_second x y h = ground (arith, ord.eq_right x.score y.score)

  NotBeaten-trans : (x y z : Candidate R) → NotBeaten x y → NotBeaten y z → NotBeaten x z
  NotBeaten-trans x y z h k = ord.not_below_trans x.score y.score z.score h k

  rank-IsSorted : (cs : List (Candidate R)) → IsSorted NotBeaten (rank cs)
  unfolding rank
  rank-IsSorted cs =
      take-IsSorted better NotBeaten better_first better_second NotBeaten-trans 5
        (sort better (values (dedupe [] (sort better cs))))
        (sort-IsSorted better NotBeaten better_first better_second NotBeaten-trans
          (values (dedupe [] (sort better cs))))

  conclude-IsSorted :
      (m : R) (rejected : List (RejectedCandidateRecord R)) (notes : List (String × TagQuality))
      (cs : List (Candidate R))
      → IsSorted NotBeaten cs
      → IsSorted NotBeaten (conclude m rejected notes cs).candidates
  conclude-IsSorted m rejected notes cs h =
      subst (IsSorted NotBeaten) (sym (conclude_candidates m rejected notes cs)) h

  -- Every trace of the parts of `diagnose_trace` has its candidates in order.
  abbrev Ordered : Option (RootCauseTrace R) → Type 0
  Ordered none = Unit
  Ordered (some tr) = IsSorted NotBeaten tr.candidates

  finish-Ordered :
      (m : R) (notes : List (String × TagQuality)) (o : Outcome R) → Ordered (finish m notes o)
  finish-Ordered m notes out_of_fuel = tt
  finish-Ordered m notes (done t) =
      conclude-IsSorted m t.rejected notes (rank t.candidates) (rank-IsSorted t.candidates)

  trace_from-Ordered :
      (g : GraphIndex R) (s : RuntimeState R) (m : R) (symptom : AlarmRecord R)
      (notes : List (String × TagQuality))
      → Ordered (trace_from g s m symptom notes)
  unfolding diagnose_trace
  trace_from-Ordered g s m symptom notes = elim (Bool-cases (str_eq symptom.asset_id "")) [
    | inl e ↦ rw e tt
    | inr e ↦ rw e (
        finish-Ordered m notes
          (walk g s.active_alarms s.tags symptom.raised_at m (walk_fuel g) (seed symptom.asset_id)))
  ]

  trace_active-Ordered :
      (id : String) (g : GraphIndex R) (s : RuntimeState R) (m : R) (alarms : Dict (AlarmRecord R))
      (notes : List (String × TagQuality))
      → Ordered (trace_active id g s m alarms notes)
  unfolding diagnose_trace
  trace_active-Ordered id g s m [] notes = tt
  trace_active-Ordered id g s m ((k, first) ∷ rest) notes =
      elim (Bool-cases (not (is_empty notes) && not (any_good_alarm s))) [
        | inl e ↦ rw e tt
        | inr e ↦
            rw e
              (trace_from-Ordered g s m (symptom_or_first (lookup id s.active_alarms) first) notes)
      ]

  -- Where floats are ordered, no candidate of a diagnosis has a lower score than one behind it; so a
  -- selected root, the first candidate, has the best score of all.
  pub diagnose_trace_best_first :
      (id : String) (g : GraphIndex R) (s : RuntimeState R) (m : R) (tr : RootCauseTrace R)
      → diagnose_trace id g s m ≡ some tr
      → IsSorted NotBeaten tr.candidates
  unfolding diagnose_trace
  diagnose_trace_best_first id g s m tr h =
      subst Ordered h
        (trace_active-Ordered id g s m s.active_alarms (collect_data_quality_notes s.tags))
