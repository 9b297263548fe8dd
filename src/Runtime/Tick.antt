-- ===== src/Runtime/Tick.antt =====
-- What a tick leaves behind.
use plantlens.Prelude.{
  ℕ, ◌≡◌, ◌≤◌, String, true, false, Option, none, some, List, [], ◌∷◌, refl, arith, FloatOps,
  str_eq, map, length, sym, ◌∙◌, ap, subst,
}
use plantlens.Prelude.Dict.{lookup, values, contains}
use plantlens.Records.{AlarmRecord}
use plantlens.State.{RuntimeState}
use plantlens.Alarm.Condition.{Outcome, ok, float_error}
use plantlens.Alarm.Engine.{evaluate_alarms}
use plantlens.Dag.Trace.{RootCauseTrace}
use plantlens.Situation.{Situation, by_id, index_alarms}
use plantlens.Situation.Engine.{Result, evaluate_situations}
use plantlens.Situation.Founded.{evaluate_situations-IsFounded, with_alarms}
use plantlens.Projection.{Forecast}
use plantlens.Assets.{AssetStatus, derive_asset_status}
use plantlens.Assets.Verdict.{has_critical, critical_alarm_shows}
use plantlens.Runtime.{RuntimeConfig, Runtime, refresh_tag_qualities}
use plantlens.Runtime.Stages.{
  TickResult, ticked, raised, stuck, index_situations, assets_of, finish, after_alarms,
  evaluate_runtime_tick,
}

module _ {R : Type 0} ⦃f : FloatOps R⦄ where
  -- The state agrees with what the tick reported: its alarms are the reported ones, its situations are
  -- the reported one or none, and the statuses are derived from these.
  pub record Agrees (config : RuntimeConfig R) (alarms : List (AlarmRecord R))
      (situations : List (Situation R)) (r : Runtime R) : Type 0 where
    pub alarms_kept : r.state.active_alarms ≡ by_id alarms
    pub no_alarms : alarms ≡ [] → situations ≡ []
    pub one : length situations ≤ 1
    pub situations_kept : r.active_situations ≡ index_situations situations []
    pub derived :
        r.asset_status
        ≡ derive_asset_status config.asset_index r.state.active_alarms
            (map assets_of (values r.active_situations))
            r.state.tags

  abbrev pub TickAgrees : RuntimeConfig R → TickResult R × Runtime R → Type 0
  TickAgrees config (ticked alarms situations trace forecast, r) = Agrees config alarms situations r
  TickAgrees config (raised, r) = Unit
  TickAgrees config (stuck, r) = ⊥

  finish-TickAgrees :
      (config : RuntimeConfig R) (now : ℕ) (r : Runtime R) (alarms : List (AlarmRecord R))
      (result : Result R)
      → r.state.active_alarms ≡ by_id alarms
      → (alarms ≡ [] → result.0 ≡ [])
      → length result.0 ≤ 1
      → TickAgrees config (finish config now r alarms (some result))
  unfolding finish
  finish-TickAgrees config now r alarms (situations, trace) e n one = record {
    alarms_kept = e;
    no_alarms = n;
    one = one;
    situations_kept = refl;
    derived = refl;
  }

  some_alarms-TickAgrees :
      (config : RuntimeConfig R) (now : ℕ) (r : Runtime R) (x : AlarmRecord R)
      (xs : List (AlarmRecord R))
      → TickAgrees config (after_alarms config now r (ok (x ∷ xs)))
  unfolding after_alarms
  some_alarms-TickAgrees config now r x xs =
      let s = with_alarms r.state (x ∷ xs) in
      let (result, e, founded, one, after) =
        evaluate_situations-IsFounded config.graph_index config.situation_types now s (x ∷ xs) in
      let es = evaluate_situations config.graph_index config.situation_types now s (x ∷ xs) in
      let same : es ≡ (some result, s) = λ i. (e i, after i) in
      subst
        (λ (p : Option (Result R) × RuntimeState R).
          TickAgrees config (finish config now (record r { state = p.1 }) (x ∷ xs) p.0))
        (sym same)
        (finish-TickAgrees config now (record r { state = s }) (x ∷ xs) result refl
          (λ h. absurd (omega (arith, ap (length {A = AlarmRecord R}) h))) one)

  after_alarms-TickAgrees :
      (config : RuntimeConfig R) (now : ℕ) (r : Runtime R) (o : Outcome (List (AlarmRecord R)))
      → TickAgrees config (after_alarms config now r o)
  unfolding after_alarms evaluate_situations index_alarms
  after_alarms-TickAgrees config now r float_error = tt
  after_alarms-TickAgrees config now r (ok []) =
      finish-TickAgrees config now (record r { state = record r.state { active_alarms = [] } }) []
        ([], none) refl (λ _. refl) (omega arith)
  after_alarms-TickAgrees config now r (ok (x ∷ xs)) = some_alarms-TickAgrees config now r x xs

  -- A tick is never stuck, in whatever state it starts. If it does not raise an exception, the state
  -- agrees with what it reports: its active alarms are the reported ones by their ids, there is at most
  -- one situation, and none without alarms, and the statuses of the assets are derived from these.
  pub evaluate_runtime_tick-TickAgrees :
      (r : Runtime R) (config : RuntimeConfig R) (now : ℕ)
      → TickAgrees config (evaluate_runtime_tick r config now)
  unfolding evaluate_runtime_tick
  evaluate_runtime_tick-TickAgrees r config now =
      let s = refresh_tag_qualities config now r.state in
      let (alarms, engine) = evaluate_alarms s config.alarm_rules now r.engine in
      after_alarms-TickAgrees config now (record r { state = s; engine = engine }) alarms

  -- After a tick that raises no exception, an asset of the index with a critical active alarm has the
  -- status critical, if its id is not empty.
  pub tick_critical_shows :
      (r : Runtime R) (config : RuntimeConfig R) (now : ℕ) (a : String)
      (alarms : List (AlarmRecord R)) (situations : List (Situation R))
      (trace : Option (RootCauseTrace R)) (forecast : Option (Forecast R))
      → (evaluate_runtime_tick r config now).0 ≡ ticked alarms situations trace forecast
      → str_eq a "" ≡ false
      → contains a config.asset_index ≡ true
      → has_critical a (values (by_id alarms)) ≡ true
      → lookup a (evaluate_runtime_tick r config now).1.asset_status ≡ some AssetStatus.critical
  tick_critical_shows r config now a alarms situations trace forecast e ne known c =
      let after = (evaluate_runtime_tick r config now).1 in
      let agrees : Agrees config alarms situations after =
        subst (λ (t : TickResult R). TickAgrees config (t, after)) e
          (evaluate_runtime_tick-TickAgrees r config now) in
      ap (lookup a) agrees.derived
      ∙ critical_alarm_shows a config.asset_index after.state.active_alarms
          (map assets_of (values after.active_situations)) after.state.tags ne known
          (ap (λ d. has_critical a (values d)) agrees.alarms_kept ∙ c)
