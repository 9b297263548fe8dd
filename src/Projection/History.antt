-- ===== src/Projection/History.antt =====
-- What a history keeps, and when there is a forecast.
use plantlens.Prelude.{
  ℕ, zero, suc, ◌-◌, ◌≤◌, ◌<◌, ◌≡◌, ◌⊎◌, inl, inr, String, true, false, Option, none, some, List,
  [], ◌∷◌, ◌++◌, ltb, leb, length, length-drop, drop, refl, arith, Bool-cases, Option-cases,
  FloatOps, subst, str_eq,
}
use plantlens.Prelude.Dict.{Dict, lookup, lookup-insert}
use plantlens.Frame.{TagQuality, is_good}
use plantlens.Projection.{
  TagHistory, exceeded, approaching_limit, Forecast, window, not_after, add_sample, with_previous,
  update_history, history_or_new, update_projection,
}

module _ {R : Type 0} where
  -- Each sample is later than the one before it, and the last one is at the time given.
  abbrev pub Rising : List (ℕ × R) → Option ℕ → Type 0
  Rising [] last = Unit
  Rising ((t, x) ∷ []) last = last ≡ some t
  Rising ((t, x) ∷ (u, y) ∷ rest) last = (t < u) × Rising ((u, y) ∷ rest) last

  -- The samples rise to `last_ts`, and there are no more than the window holds.
  pub record IsHistory (h : TagHistory R) : Type 0 where
    pub rising : Rising h.samples h.last_ts
    pub bounded : length h.samples ≤ window

  Rising-append :
      (xs : List (ℕ × R)) (last : Option ℕ) (ts : ℕ) (x : R)
      → not_after last ts ≡ false
      → Rising xs last
      → Rising (xs ++ (ts, x) ∷ []) (some ts)
  Rising-append [] last ts x n r = refl
  Rising-append ((t, y) ∷ []) last ts x n r = (ground (arith, r), refl)
  Rising-append ((t, y) ∷ (u, z) ∷ rest) last ts x n r =
      (r.0, Rising-append ((u, z) ∷ rest) last ts x n r.1)

  Rising-drop :
      (k : ℕ) (xs : List (ℕ × R)) (last : Option ℕ) → Rising xs last → Rising (drop k xs) last
  Rising-drop zero xs last r = r
  Rising-drop (suc k) [] last r = r
  Rising-drop (suc k) ((t, x) ∷ []) last r = Rising-drop k [] last tt
  Rising-drop (suc k) ((t, x) ∷ (u, y) ∷ rest) last r = Rising-drop k ((u, y) ∷ rest) last r.1

module _ {R : Type 0} ⦃f : FloatOps R⦄ where
  add_sample-IsHistory :
      (h : TagHistory R) (ts : ℕ) (x : R)
      → not_after h.last_ts ts ≡ false
      → IsHistory h
      → IsHistory (add_sample h ts x)
  add_sample-IsHistory h ts x n i = record {
    rising =
        Rising-drop (length (h.samples ++ (ts, x) ∷ []) - window) (h.samples ++ (ts, x) ∷ [])
          (some ts) (Rising-append h.samples h.last_ts ts x n i.rising);
    bounded = omega (
      arith,
      length-drop (length (h.samples ++ (ts, x) ∷ []) - window) (h.samples ++ (ts, x) ∷ []),
    );
  }

  with_previous-IsHistory :
      (h : TagHistory R) (x : R) (ts : ℕ) (smoothed threshold : R) (o : Option (ℕ × R))
      → IsHistory h
      → IsHistory (with_previous h x ts smoothed threshold o).1
  unfolding with_previous
  with_previous-IsHistory h x ts smoothed threshold none i = i
  with_previous-IsHistory h x ts smoothed threshold (some (p, v)) i = elim (Bool-cases (leb ts p)) [
    | inl e ↦ rw e i
    | inr e ↦ elim (Bool-cases (ltb (length h.samples) 3)) [
      | inl d ↦ rw (e, d) (record { rising = i.rising; bounded = i.bounded })
      | inr d ↦ rw (e, d) (record { rising = i.rising; bounded = i.bounded })
    ]
  ]

  update_history-IsHistory :
      (h : TagHistory R) (x : R) (ts : ℕ) (threshold : R)
      → IsHistory h
      → IsHistory (update_history h x ts threshold).1
  unfolding update_history
  update_history-IsHistory h x ts threshold i = elim (Bool-cases (not_after h.last_ts ts)) [
    | inl e ↦ rw e i
    | inr e ↦ rw e (
        with_previous-IsHistory (add_sample h ts x) x ts _ threshold _
          (add_sample-IsHistory h ts x e i))
  ]

  pub record Histories (d : Dict (TagHistory R)) : Type 0 where
    pub each : (k : String) (h : TagHistory R) → lookup k d ≡ some h → IsHistory h

  new-IsHistory :
      (d : Dict (TagHistory R)) (k : String) → Histories d → IsHistory (history_or_new (lookup k d))
  new-IsHistory d k i = elim (Option-cases (lookup k d)) [
    | inl e ↦ rw e (record { rising = tt; bounded = omega arith })
    | inr (h, e) ↦ rw e (i.each k h e)
  ]

  -- Well-formed histories stay so under any update: the samples of each are strictly later one after
  -- the other up to `last_ts`, and there are at most eight of them.
  pub update_projection-Histories :
      (d : Dict (TagHistory R)) (tag_id : String) (value : Option R) (ts : ℕ) (threshold : R)
      (quality : TagQuality)
      → Histories d
      → Histories (update_projection d tag_id value ts threshold quality).1
  unfolding update_projection
  update_projection-Histories d tag_id none ts threshold quality i = i
  update_projection-Histories d tag_id (some value) ts threshold quality i =
      elim (Bool-cases (is_good quality)) [
        | inr e ↦ rw e i
        | inl e ↦ rw e (record {
          each = λ k h l.
              let updated =
                update_history-IsHistory (history_or_new (lookup tag_id d)) value ts threshold
                  (new-IsHistory d tag_id i) in
              let next = (update_history (history_or_new (lookup tag_id d)) value ts threshold).1 in
              elim (Bool-cases (str_eq tag_id k)) [
                | inl s ↦
                    subst IsHistory (ground (arith, l, s, lookup-insert tag_id k next d)) updated
                | inr s ↦ i.each k h (ground (arith, l, s, lookup-insert tag_id k next d))
              ];
        })
      ]

  -- The threshold is reached, or it is ahead at a time that is not zero or less.
  abbrev pub TimeTo : R → R → Forecast R → R → Type 0
  TimeTo threshold smoothed result seconds =
      ((f.le threshold smoothed ≡ true) × (result.trend ≡ exceeded) × (seconds ≡ f.decimal 0 1))
      ⊎ ((f.le threshold smoothed ≡ false)
          × (result.trend ≡ approaching_limit)
          × (f.le seconds (f.of_nat 0) ≡ false))

  -- The history that an update of the tag leaves.
  abbrev pub updated : Dict (TagHistory R) → String → R → ℕ → R → Forecast R × TagHistory R
  updated d tag_id value ts threshold =
      update_history (history_or_new (lookup tag_id d)) value ts threshold
