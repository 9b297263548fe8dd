-- ===== src/Runtime/Intake.antt =====
-- What the runtime stores of an incoming frame.
use plantlens.Prelude.{
  ℕ, ◌≡◌, ◌↔◌, true, false, none, arith, sym, ◌∙◌, inl, inr, Bool-cases, FloatOps,
}
use plantlens.Prelude.Dict.{lookup}
use plantlens.Frame.{TagFrame, TagQuality, TagValue, null, is_degraded}
use plantlens.Quality.{Policy, QualityClass, classify_tag, above, below}
use plantlens.Quality.Verdict.{IsTrusted, classify_good_iff}
use plantlens.State.{RuntimeState}
use plantlens.Runtime.{
  RuntimeConfig, to_tag_quality, policy_or_default, reading_of, normalize_tag_quality,
}
use plantlens.Runtime.Stages.{sanitize_unusable_values, stamp, prepare}

good_class : (q : QualityClass) → (to_tag_quality q ≡ TagQuality.good) ↔ (q ≡ QualityClass.good)
good_class q = ground arith

module _ {R : Type 0} ⦃f : FloatOps R⦄ where
  stamp_keeps :
      (now : ℕ) (frame : TagFrame R)
      → ((stamp now frame).value ≡ frame.value) × ((stamp now frame).quality ≡ frame.quality)
  stamp_keeps now frame = ground arith

  prepare_degraded :
      (frame : TagFrame R) (config : RuntimeConfig R) (s : RuntimeState R)
      → is_degraded frame.quality ≡ true
      → ((prepare frame config s).value ≡ null) × ((prepare frame config s).quality ≡ frame.quality)
  unfolding prepare normalize_tag_quality sanitize_unusable_values classify_tag
  prepare_degraded frame config s h = ground (arith, h)

  abbrev pub policy_of : RuntimeConfig R → TagFrame R → Policy R
  policy_of config frame = policy_or_default (lookup frame.tag_id config.tag_index)

  prepare_quality :
      (frame : TagFrame R) (config : RuntimeConfig R) (s : RuntimeState R)
      → is_degraded frame.quality ≡ false
      → (prepare frame config s).quality
        ≡ to_tag_quality
            (classify_tag (policy_of config frame) (reading_of frame s frame.timestamp)).quality
  unfolding prepare normalize_tag_quality sanitize_unusable_values
  prepare_quality frame config s h =
      rw h (stamp_keeps frame.timestamp (normalize_tag_quality frame config s frame.timestamp)).1

  prepare_good_iff :
      (frame : TagFrame R) (config : RuntimeConfig R) (s : RuntimeState R)
      → is_degraded frame.quality ≡ false
      → ((prepare frame config s).quality ≡ TagQuality.good)
        ↔ IsTrusted (policy_of config frame) (reading_of frame s frame.timestamp)
  prepare_good_iff frame config s h =
      let reading = reading_of frame s frame.timestamp in
      let quality = prepare_quality frame config s h in
      let class = good_class (classify_tag (policy_of config frame) reading).quality in
      let trusted = classify_good_iff (policy_of config frame) reading in
      (λ g. trusted.0 (class.0 (sym quality ∙ g)), λ g. quality ∙ class.1 (trusted.1 g))

  -- A frame is stored as good exactly when its reading is trusted under the tag's policy; and a frame
  -- that its source calls bad, stale or missing is stored with that quality and without its value.
  pub prepare_sound :
      (frame : TagFrame R) (config : RuntimeConfig R) (s : RuntimeState R)
      → (((prepare frame config s).quality ≡ TagQuality.good)
          ↔ IsTrusted (policy_of config frame) (reading_of frame s frame.timestamp))
        × (is_degraded frame.quality ≡ true
            → ((prepare frame config s).value ≡ null)
              × ((prepare frame config s).quality ≡ frame.quality))
  prepare_sound frame config s = elim (Bool-cases (is_degraded frame.quality)) [
    | inr e ↦ (prepare_good_iff frame config s e, prepare_degraded frame config s)
    | inl e ↦
        let (gone, same) = prepare_degraded frame config s e in
        (
          ((λ g. ground (arith, e, g, same)), (λ t. ground (arith, e, t.raw))),
          prepare_degraded frame config s,
        )
  ]

  -- A good number in a frame without an ingest time, above the
  -- policy's maximum and not below its minimum, is stored as bad with its value.
  pub prepare-above_max :
      (frame : TagFrame R) (config : RuntimeConfig R) (s : RuntimeState R) (x : R)
      → frame.quality ≡ TagQuality.good
      → frame.ingest_ts ≡ none
      → frame.value ≡ TagValue.num x
      → below (policy_of config frame).min_value x ≡ false
      → above (policy_of config frame).max_value x ≡ true
      → ((prepare frame config s).quality ≡ TagQuality.bad)
        × ((prepare frame config s).value ≡ TagValue.num x)
  unfolding prepare normalize_tag_quality sanitize_unusable_values classify_tag
  prepare-above_max frame config s x q i v lo hi = ground (arith, q, i, v, lo, hi)
