-- ===== src/Runtime/Stale.antt =====
-- Ticks never turn a stale frame into a missing one.
use plantlens.Prelude.{
  ℕ, ◌≡◌, String, Option, none, some, List, [], ◌∷◌, refl, arith, inl, inr, Option-cases,
  Bool-cases, FloatOps, eq_iff, map, sym, ◌∙◌, ap,
}
use plantlens.Prelude.Dict.{lookup, lookup-insert}
use plantlens.Frame.{TagFrame, TagQuality, is_simulator}
use plantlens.Quality.{classify_tag}
use plantlens.State.{RuntimeState, get_tag, refresh_tag}
use plantlens.Alarm.Condition.{Outcome, ok, float_error}
use plantlens.Alarm.Engine.{evaluate_alarms}
use plantlens.Dag.Graph.{GraphIndex}
use plantlens.Records.{AlarmRecord}
use plantlens.Situation.{SituationSpec, by_id}
use plantlens.Situation.Engine.{Result, evaluate_situations}
use plantlens.Runtime.{
  RuntimeConfig, Runtime, normalize_tag_quality, same_quality, refresh_frame, refresh_keys,
  refresh_tag_qualities,
}
use plantlens.Runtime.Stages.{finish, after_alarms, evaluate_runtime_tick}

module _ {R : Type 0} ⦃f : FloatOps R⦄ where
  -- Each frame is stored under its own tag.
  abbrev pub KeysMatch : RuntimeState R → Type 0
  KeysMatch s = (k : String) (frame : TagFrame R) → lookup k s.tags ≡ some frame → frame.tag_id ≡ k

  refresh_tag-KeysMatch :
      (s : RuntimeState R) (frame : TagFrame R) → KeysMatch s → KeysMatch (refresh_tag s frame)
  unfolding refresh_tag
  refresh_tag-KeysMatch s frame m k g h =
      ground (arith, h, m k g, lookup-insert frame.tag_id k frame s.tags, eq_iff frame.tag_id k)

  refresh_frame-KeysMatch :
      (config : RuntimeConfig R) (now : ℕ) (o : Option (TagFrame R)) (s : RuntimeState R)
      → KeysMatch s
      → KeysMatch (refresh_frame config now o s)
  unfolding refresh_frame
  refresh_frame-KeysMatch config now none s m = m
  refresh_frame-KeysMatch config now (some frame) s m =
      let refreshed = normalize_tag_quality frame config s now in
      elim (Bool-cases (is_simulator frame.source)) [
        | inl e ↦ rw e m
        | inr e ↦ elim (Bool-cases (same_quality refreshed.quality frame.quality)) [
          | inl d ↦ rw (e, d) m
          | inr d ↦ rw (e, d) (refresh_tag-KeysMatch s refreshed m)
        ]
      ]

  normalize_stale :
      (frame : TagFrame R) (config : RuntimeConfig R) (s : RuntimeState R) (now : ℕ)
      → frame.quality ≡ TagQuality.stale
      → (normalize_tag_quality frame config s now).quality ≡ TagQuality.stale
  unfolding normalize_tag_quality classify_tag
  normalize_stale frame config s now h = ground (arith, h)

  normalize_tag :
      (frame : TagFrame R) (config : RuntimeConfig R) (s : RuntimeState R) (now : ℕ)
      → (normalize_tag_quality frame config s now).tag_id ≡ frame.tag_id
  unfolding normalize_tag_quality
  normalize_tag frame config s now = refl

  -- A round at any key leaves a stale frame alone.
  refresh_frame_stale :
      (config : RuntimeConfig R) (now : ℕ) (j k : String) (s : RuntimeState R) (frame : TagFrame R)
      → KeysMatch s
      → lookup k s.tags ≡ some frame
      → frame.quality ≡ TagQuality.stale
      → lookup k (refresh_frame config now (get_tag s j) s).tags ≡ some frame
  unfolding refresh_frame refresh_tag
  refresh_frame_stale config now j k s frame m h q = elim (Option-cases (get_tag s j)) [
    | inl e ↦ rw e h
    | inr (g, e) ↦ ground (
      arith,
      e,
      h,
      q,
      m j g e,
      normalize_stale g config s now,
      normalize_tag g config s now,
      eq_iff j k,
      lookup-insert (normalize_tag_quality g config s now).tag_id k
          (normalize_tag_quality g config s now) s.tags,
      eq_iff (normalize_tag_quality g config s now).tag_id k,
    )
  ]

  refresh_keys_stale :
      (config : RuntimeConfig R) (now : ℕ) (ks : List String) (k : String) (s : RuntimeState R)
      (frame : TagFrame R)
      → KeysMatch s
      → lookup k s.tags ≡ some frame
      → frame.quality ≡ TagQuality.stale
      → (lookup k (refresh_keys config now ks s).tags ≡ some frame)
        × KeysMatch (refresh_keys config now ks s)
  unfolding refresh_keys
  refresh_keys_stale config now [] k s frame m h q = (h, m)
  refresh_keys_stale config now (j ∷ ks) k s frame m h q =
      refresh_keys_stale config now ks k (refresh_frame config now (get_tag s j) s) frame
        (refresh_frame-KeysMatch config now (get_tag s j) s m)
        (refresh_frame_stale config now j k s frame m h q) q

  refresh_stale :
      (config : RuntimeConfig R) (now : ℕ) (k : String) (s : RuntimeState R) (frame : TagFrame R)
      → KeysMatch s
      → lookup k s.tags ≡ some frame
      → frame.quality ≡ TagQuality.stale
      → (lookup k (refresh_tag_qualities config now s).tags ≡ some frame)
        × KeysMatch (refresh_tag_qualities config now s)
  unfolding refresh_tag_qualities
  refresh_stale config now k s frame m h q =
      refresh_keys_stale config now (map (λ (p : String × TagFrame R). p.0) s.tags) k s frame m h q

  -- The stages behind the refresh do not write tags.
  evaluate_situations-tags :
      (g : GraphIndex R) (specs : List (SituationSpec R)) (now : ℕ) (s : RuntimeState R)
      (alarms : List (AlarmRecord R))
      → (evaluate_situations g specs now s alarms).1.tags ≡ s.tags
  unfolding evaluate_situations
  evaluate_situations-tags g specs now s [] = refl
  evaluate_situations-tags g specs now s (x ∷ xs) = ground arith

  finish-state :
      (config : RuntimeConfig R) (now : ℕ) (r : Runtime R) (alarms : List (AlarmRecord R))
      (o : Option (Result R))
      → (finish config now r alarms o).1.state ≡ r.state
  unfolding finish
  finish-state config now r alarms none = refl
  finish-state config now r alarms (some (situations, trace)) = refl

  after_alarms-tags :
      (config : RuntimeConfig R) (now : ℕ) (r : Runtime R) (o : Outcome (List (AlarmRecord R)))
      → (after_alarms config now r o).1.state.tags ≡ r.state.tags
  unfolding after_alarms
  after_alarms-tags config now r float_error = refl
  after_alarms-tags config now r (ok alarms) =
      let s = record r.state { active_alarms = by_id alarms } in
      let (result, t) =
        evaluate_situations config.graph_index config.situation_types now s alarms in
      ap (λ (x : RuntimeState R). x.tags)
        (finish-state config now (record r { state = t }) alarms result)
      ∙ evaluate_situations-tags config.graph_index config.situation_types now s alarms

  pub tick-tags :
      (r : Runtime R) (config : RuntimeConfig R) (now : ℕ)
      → (evaluate_runtime_tick r config now).1.state.tags
        ≡ (refresh_tag_qualities config now r.state).tags
  unfolding evaluate_runtime_tick
  tick-tags r config now =
      let s = refresh_tag_qualities config now r.state in
      let (alarms, engine) = evaluate_alarms s config.alarm_rules now r.engine in
      after_alarms-tags config now (record r { state = s; engine = engine }) alarms

  -- The runtime after ticks at these instants.
  abbrev pub after_ticks : RuntimeConfig R → List ℕ → Runtime R → Runtime R
  after_ticks config [] r = r
  after_ticks config (now ∷ later) r =
      after_ticks config later (evaluate_runtime_tick r config now).1

  -- Once the frame of a tag is stored as stale, no sequence of ticks changes it, at whatever instants
  -- they come; so it never becomes missing. Each frame is to be stored under its own tag.
  pub stale_stays_stale :
      (config : RuntimeConfig R) (times : List ℕ) (r : Runtime R) (k : String) (frame : TagFrame R)
      → KeysMatch r.state
      → lookup k r.state.tags ≡ some frame
      → frame.quality ≡ TagQuality.stale
      → lookup k (after_ticks config times r).state.tags ≡ some frame
  stale_stays_stale config [] r k frame m h q = h
  stale_stays_stale config (now ∷ later) r k frame m h q =
      let (kept, match) = refresh_stale config now k r.state frame m h q in
      let e = tick-tags r config now in
      stale_stays_stale config later (evaluate_runtime_tick r config now).1 k frame
        (λ j g l. match j g (ap (lookup j) (sym e) ∙ l)) (ap (lookup k) e ∙ kept) q
