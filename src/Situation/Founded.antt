-- ===== src/Situation/Founded.antt =====
-- What stands behind a situation.
use plantlens.Prelude.{
  ℕ, ◌≡◌, ◌⊎◌, String, true, false, Option, none, some, List, [], ◌∷◌, ◌++◌, ◌&&◌, not, refl, arith,
  inl, inr, any, Bool-cases, FloatOps, All, ap, length, ◌≤◌, sym, ◌∙◌,
}
use plantlens.Prelude.Sorting.{sort}
use plantlens.Records.{AlarmRecord}
use plantlens.State.{RuntimeState}
use plantlens.Dag.Graph.{GraphIndex}
use plantlens.Dag.Trace.{RootCauseTrace, diagnose_trace}
use plantlens.Dag.Trace.Root.{diagnose_trace-IsFounded}
use plantlens.Situation.{
  SituationSpec, Situation, by_id, raised_before, worst_severity, has_non_good_evidence,
  on_good_tag, alarm_ids,
}
use plantlens.Situation.Engine.{
  Result, matches, match_situation_type, candidate_of, score_of, make_situation, with_spec,
  with_root, first_of, default_min_root_score, evaluate_situations,
}

module _ {R : Type 0} ⦃f : FloatOps R⦄ where
  -- The spec stands in the list, it matches, and none before it does.
  pub record IsFirstMatch (s : RuntimeState R) (root : String) (score : R) (ids : List String)
      (specs : List (SituationSpec R)) (spec : SituationSpec R) : Type 0 where
    pub before : List (SituationSpec R)
    pub after : List (SituationSpec R)
    pub place : specs ≡ before ++ spec ∷ after
    pub fits : matches s root score ids spec ≡ true
    pub unfit : All (λ x. matches s root score ids x ≡ false) before

  match-IsFirstMatch :
      (s : RuntimeState R) (root : String) (score : R) (ids : List String)
      (specs : List (SituationSpec R)) (spec : SituationSpec R)
      → match_situation_type s root score ids specs ≡ some spec
      → IsFirstMatch s root score ids specs spec
  unfolding match_situation_type
  match-IsFirstMatch s root score ids [] spec h = ground arith
  match-IsFirstMatch s root score ids (x ∷ xs) spec h =
      elim (Bool-cases (matches s root score ids x)) [
        | inl e ↦
            let same : x ≡ spec = ground (arith, e) in
            record {
              before = [];
              after = xs;
              place = ap (λ y. y ∷ xs) same;
              fits = ap (matches s root score ids) (sym same) ∙ e;
              unfit = tt;
            }
        | inr e ↦
            let m = match-IsFirstMatch s root score ids xs spec (ground (arith, e)) in
            record {
              before = x ∷ m.before;
              after = m.after;
              place = ap (λ l. x ∷ l) m.place;
              fits = m.fits;
              unfit = (e, m.unfit);
            }
      ]

  -- The state that the engine works on: its alarms are the given ones.
  abbrev pub with_alarms : RuntimeState R → List (AlarmRecord R) → RuntimeState R
  with_alarms s alarms = record s { active_alarms = by_id alarms }

  -- The situation is that of the first spec that matches the root, which the diagnosis of the earliest
  -- alarm selected; and if some tag is degraded, one of the alarms stands on a good tag.
  pub record IsFounded (g : GraphIndex R) (specs : List (SituationSpec R)) (now : ℕ)
      (s : RuntimeState R) (alarm : AlarmRecord R) (alarms : List (AlarmRecord R))
      (sit : Situation R) : Type 0 where
    pub trusted :
        (has_non_good_evidence (with_alarms s (alarm ∷ alarms)) ≡ false)
        ⊎ (any (on_good_tag (with_alarms s (alarm ∷ alarms))) (alarm ∷ alarms) ≡ true)
    pub trace : RootCauseTrace R
    pub spec : SituationSpec R
    pub diagnosed :
        diagnose_trace
          (first_of alarm (sort raised_before (alarm ∷ alarms))).alarm_id
          g
          (with_alarms s (alarm ∷ alarms))
          default_min_root_score
        ≡ some trace
    pub selected : trace.selected_root ≡ some sit.root_asset_id
    pub matched :
        IsFirstMatch
          (with_alarms s (alarm ∷ alarms))
          sit.root_asset_id
          (score_of trace (candidate_of sit.root_asset_id trace.candidates))
          (alarm_ids (alarm ∷ alarms))
          specs
          spec
    pub made :
        sit
        ≡ make_situation now
            (alarm ∷ alarms)
            (worst_severity alarm.severity alarms)
            trace
            sit.root_asset_id
            spec

  module _ (g : GraphIndex R) (specs : List (SituationSpec R)) (now : ℕ) (s : RuntimeState R)
      (alarm : AlarmRecord R) (alarms : List (AlarmRecord R))
      (trusted : (has_non_good_evidence (with_alarms s (alarm ∷ alarms)) ≡ false)
        ⊎ (any (on_good_tag (with_alarms s (alarm ∷ alarms))) (alarm ∷ alarms) ≡ true))
      (trace : RootCauseTrace R)
      (diagnosed : diagnose_trace
          (first_of alarm (sort raised_before (alarm ∷ alarms))).alarm_id
          g
          (with_alarms s (alarm ∷ alarms))
          default_min_root_score
        ≡ some trace) where
    with_spec_lem :
        (root : String) (o : Option (SituationSpec R))
        → trace.selected_root ≡ some root
        → match_situation_type
            (with_alarms s (alarm ∷ alarms))
            root
            (score_of trace (candidate_of root trace.candidates))
            (alarm_ids (alarm ∷ alarms))
            specs
          ≡ o
        → let r =
            with_spec now (alarm ∷ alarms) (worst_severity alarm.severity alarms) trace root o in
          All (IsFounded g specs now s alarm alarms) r.0 × (length r.0 ≤ 1)
    unfolding make_situation
    with_spec_lem root none sel m = (tt, omega arith)
    with_spec_lem root (some spec) sel m = (
      (
        record {
          trusted = trusted;
          trace = trace;
          spec = spec;
          diagnosed = diagnosed;
          selected = sel;
          matched = match-IsFirstMatch _ _ _ _ specs spec m;
          made = refl;
        },
        tt,
      ),
      omega arith,
    )

    with_root_lem :
        (o : Option String)
        → trace.selected_root ≡ o
        → let r =
            with_root now
              (with_alarms s (alarm ∷ alarms))
              (alarm ∷ alarms)
              (worst_severity alarm.severity alarms)
              specs
              trace
              o in
          All (IsFounded g specs now s alarm alarms) r.0 × (length r.0 ≤ 1)
    with_root_lem none sel = (tt, omega arith)
    with_root_lem (some root) sel = with_spec_lem root _ sel refl

  some_alarms :
      (g : GraphIndex R) (specs : List (SituationSpec R)) (now : ℕ) (s : RuntimeState R)
      (alarm : AlarmRecord R) (alarms : List (AlarmRecord R))
      → (r : Result R) × ((evaluate_situations g specs now s (alarm ∷ alarms)).0 ≡ some r)
        × All (IsFounded g specs now s alarm alarms) r.0
        × (length r.0 ≤ 1)
        × ((evaluate_situations g specs now s (alarm ∷ alarms)).1 ≡ with_alarms s (alarm ∷ alarms))
  unfolding evaluate_situations
  some_alarms g specs now s alarm alarms =
      let t = with_alarms s (alarm ∷ alarms) in
      let (trace, diagnosed, _) =
        diagnose_trace-IsFounded g t default_min_root_score
          (first_of alarm (sort raised_before (alarm ∷ alarms))).alarm_id in
      elim (Bool-cases (has_non_good_evidence t && not (any (on_good_tag t) (alarm ∷ alarms)))) [
        | inl e ↦ rw e (([], none), refl, tt, omega arith, refl)
        | inr e ↦
            let (founded, one) =
              with_root_lem g specs now s alarm alarms (ground (arith, e)) trace diagnosed
                trace.selected_root refl in
            rw (e, diagnosed) (_, refl, founded, one, refl)
      ]

  -- No alarms found no situation.
  abbrev pub FoundedIn :
      GraphIndex R
      → List (SituationSpec R)
      → ℕ
      → RuntimeState R
      → List (AlarmRecord R)
      → Situation R
      → Type 0
  FoundedIn g specs now s [] sit = ⊥
  FoundedIn g specs now s (alarm ∷ alarms) sit = IsFounded g specs now s alarm alarms sit

  -- The state that the evaluation leaves: without alarms it keeps the alarms that it had.
  abbrev pub left_by : RuntimeState R → List (AlarmRecord R) → RuntimeState R
  left_by s [] = s
  left_by s (alarm ∷ alarms) = with_alarms s (alarm ∷ alarms)

  -- `evaluate_situations` always returns, with at most one situation, and with none for no alarms. The
  -- situation is founded: the diagnosis of the earliest alarm selected its root, its spec is the first that
  -- matches that root, and if some tag is degraded one of the alarms stands on a good tag. The alarms of
  -- the state that it leaves are the given ones, if there are any; otherwise the state stays as it was.
  pub evaluate_situations-IsFounded :
      (g : GraphIndex R) (specs : List (SituationSpec R)) (now : ℕ) (s : RuntimeState R)
      (alarms : List (AlarmRecord R))
      → (r : Result R) × ((evaluate_situations g specs now s alarms).0 ≡ some r)
        × All (FoundedIn g specs now s alarms) r.0
        × (length r.0 ≤ 1)
        × ((evaluate_situations g specs now s alarms).1 ≡ left_by s alarms)
  unfolding evaluate_situations
  evaluate_situations-IsFounded g specs now s [] = (([], none), refl, tt, omega arith, refl)
  evaluate_situations-IsFounded g specs now s (alarm ∷ alarms) =
      some_alarms g specs now s alarm alarms
