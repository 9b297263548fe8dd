-- ===== src/Quality/Verdict.antt =====
-- When a reading is classed as good, and what each doubt gives.
use plantlens.Prelude.{
  Option-cases, inl, inr, ◌+◌, ◌*◌, ◌≤◌, ◌≡◌, ◌≢◌, ◌↔◌, arith, false, some, FloatOps,
}
use plantlens.Frame.{good, null, as_number}
use plantlens.Quality.{QualityClass, Policy, Reading, below, above, too_fast, classify_tag}

module _ {R : Type 0} ⦃f : FloatOps R⦄ where
  -- What makes a reading trustworthy: its source says so, it carries a value, it is neither missing
  -- nor stale by its age, and a number is in its range and has not jumped.
  pub record IsTrusted (p : Policy R) (r : Reading R) : Type 0 where
    pub raw : r.raw_quality ≡ good
    pub present : r.value ≢ null
    pub not_missing : r.now ≤ r.timestamp + p.missing_after_ms * 1000
    pub not_stale : r.now ≤ r.timestamp + p.stale_after_ms * 1000
    pub above_min : (x : R) → as_number r.value ≡ some x → below p.min_value x ≡ false
    pub below_max : (x : R) → as_number r.value ≡ some x → above p.max_value x ≡ false
    pub steady :
        (x : R)
        → as_number r.value ≡ some x
        → too_fast p.max_rate_per_s r.previous_value r.previous_ts x r.timestamp ≡ false

  good-IsTrusted :
      (p : Policy R) (r : Reading R)
      → (classify_tag p r).quality ≡ QualityClass.good
      → IsTrusted p r
  unfolding classify_tag
  good-IsTrusted p r h = record {
    raw = ground arith;
    present = λ e. ground arith;
    not_missing = ground arith;
    not_stale = ground arith;
    above_min = λ x e. ground arith;
    below_max = λ x e. ground arith;
    steady = λ x e. ground arith;
  }

  trusted_good :
      (p : Policy R) (r : Reading R)
      → IsTrusted p r
      → (classify_tag p r).quality ≡ QualityClass.good
  unfolding classify_tag
  trusted_good p r h = elim (Option-cases (as_number r.value)) [
    | inl e ↦ ground arith
    | inr (x, e) ↦ ground (arith, h.above_min x e, h.below_max x e, h.steady x e)
  ]

  -- A reading is classed as good exactly when it is trusted: its source says good, it has a value,
  -- its age is within both limits, and a number is within its range and its rate limit.
  pub classify_good_iff :
      (p : Policy R) (r : Reading R)
      → ((classify_tag p r).quality ≡ QualityClass.good) ↔ IsTrusted p r
  classify_good_iff p r = (good-IsTrusted p r, trusted_good p r)
