-- ===== src/Assets/Verdict.antt =====
-- An alarm shows in the status of its asset.
use plantlens.Prelude.{
  ℕ, ◌≡◌, String, Bool, true, false, Option, none, some, List, [], ◌∷◌, ◌&&◌, leb, any, str_eq,
  eq_iff, arith, inl, inr, refl, Bool-cases, Option-cases,
}
use plantlens.Prelude.Dict.{Dict, contains, lookup, lookup-insert, values}
use plantlens.Frame.{TagFrame, Severity, is_degraded}
use plantlens.Records.{AlarmRecord}
use plantlens.Assets.{
  AssetStatus, normal, unknown, offline, sensor_bad, precedence, escalate, escalate_at,
  apply_affected, apply_root, apply_situations, apply_alarms, alarm_status, apply_tags, group,
  all_normal, derive_asset_status, SituationAssets,
}

-- The asset has a status, which is at least this urgent.
abbrev at_least : ℕ → Option AssetStatus → Bool
at_least n none = false
at_least n (some s) = leb n (precedence s)

at_least_critical : (o : Option AssetStatus) → at_least 5 o ≡ true → o ≡ some AssetStatus.critical
at_least_critical none h = ground arith
at_least_critical (some AssetStatus.critical) h = refl
at_least_critical (some AssetStatus.warning) h = ground arith
at_least_critical (some normal) h = ground arith
at_least_critical (some unknown) h = ground arith
at_least_critical (some offline) h = ground arith
at_least_critical (some sensor_bad) h = ground arith

-- A status is never lowered.
keeps :
    (n : ℕ) (a b : String) (new_status : AssetStatus) (d : Dict AssetStatus)
    → at_least n (lookup b d) ≡ true
    → at_least n (lookup b (escalate_at a new_status d)) ≡ true
unfolding escalate_at
keeps n a b new_status d h = elim (Option-cases (lookup a d)) [
  | inl e ↦ rw e h
  | inr (c, e) ↦
      rw e (ground (arith, e, h, eq_iff a b, lookup-insert a b (escalate c new_status) d))
]

raises :
    (a : String) (new_status : AssetStatus) (d : Dict AssetStatus)
    → at_least 0 (lookup a d) ≡ true
    → at_least (precedence new_status) (lookup a (escalate_at a new_status d)) ≡ true
unfolding escalate_at
raises a new_status d h = elim (Option-cases (lookup a d)) [
  | inl e ↦ ground (arith, e, h)
  | inr (c, e) ↦ rw e (ground (arith, eq_iff a a, lookup-insert a a (escalate c new_status) d))
]

module _ (n : ℕ) (b : String) where
  affected_keeps :
      (l : List String) (d : Dict AssetStatus)
      → at_least n (lookup b d) ≡ true
      → at_least n (lookup b (apply_affected l d)) ≡ true
  unfolding apply_affected
  affected_keeps [] d h = h
  affected_keeps (a ∷ l) d h = affected_keeps l _ (keeps n a b AssetStatus.warning d h)

  root_keeps :
      (r : Option String) (d : Dict AssetStatus)
      → at_least n (lookup b d) ≡ true
      → at_least n (lookup b (apply_root r d)) ≡ true
  root_keeps none d h = h
  root_keeps (some a) d h = elim (Bool-cases (str_eq a "")) [
    | inl e ↦ rw e h
    | inr e ↦ rw e (keeps n a b AssetStatus.critical d h)
  ]

  situations_keep :
      (l : List SituationAssets) (d : Dict AssetStatus)
      → at_least n (lookup b d) ≡ true
      → at_least n (lookup b (apply_situations l d)) ≡ true
  unfolding apply_situations
  situations_keep [] d h = h
  situations_keep (s ∷ l) d h =
      situations_keep l _ (affected_keeps s.affected_asset_ids _ (root_keeps s.root_asset_id d h))

  module _ {R : Type 0} where
    alarm_keeps :
        (x : AlarmRecord R) (d : Dict AssetStatus)
        → at_least n (lookup b d) ≡ true
        → at_least n (lookup b (alarm_status x d)) ≡ true
    alarm_keeps x d h = ground (
      arith,
      keeps n x.asset_id b AssetStatus.critical d h,
      keeps n x.asset_id b AssetStatus.warning d h,
    )

    alarms_keep :
        (l : List (AlarmRecord R)) (d : Dict AssetStatus)
        → at_least n (lookup b d) ≡ true
        → at_least n (lookup b (apply_alarms l d)) ≡ true
    unfolding apply_alarms
    alarms_keep [] d h = h
    alarms_keep (x ∷ l) d h = alarms_keep l _ (alarm_keeps x d h)

    tags_keep :
        (l : Dict (List (TagFrame R))) (d : Dict AssetStatus)
        → at_least n (lookup b d) ≡ true
        → at_least n (lookup b (apply_tags l d)) ≡ true
    unfolding apply_tags
    tags_keep [] d h = h
    tags_keep ((a, []) ∷ l) d h = tags_keep l _ (keeps n a b offline d h)
    tags_keep ((a, frame ∷ frames) ∷ l) d h =
        elim (Bool-cases (any (λ (x : TagFrame R). is_degraded x.quality) (frame ∷ frames))) [
          | inl e ↦ tags_keep l _ (rw e (keeps n a b sensor_bad d h))
          | inr e ↦ tags_keep l _ (rw e h)
        ]

all_normal_lem :
    (a : String) (l : List String)
    → contains a l ≡ true
    → at_least 0 (lookup a (all_normal l)) ≡ true
unfolding all_normal lookup
all_normal_lem a [] h = ground arith
all_normal_lem a (b ∷ l) h = ground (arith, all_normal_lem a l)

abbrev pub is_critical : Severity → Bool
is_critical Severity.critical = true
is_critical _ = false

module _ {R : Type 0} where
  -- Whether there is a critical alarm on the asset.
  abbrev pub has_critical : String → List (AlarmRecord R) → Bool
  has_critical a l = any (λ (x : AlarmRecord R). str_eq x.asset_id a && is_critical x.severity) l

  alarms_raise :
      (a : String) (l : List (AlarmRecord R)) (d : Dict AssetStatus)
      → str_eq a "" ≡ false
      → has_critical a l ≡ true
      → at_least 0 (lookup a d) ≡ true
      → at_least 5 (lookup a (apply_alarms l d)) ≡ true
  unfolding apply_alarms
  alarms_raise a [] d ne c h = ground arith
  alarms_raise a (x ∷ l) d ne c h =
      elim (Bool-cases (str_eq x.asset_id a && is_critical x.severity)) [
        | inl e ↦
            alarms_keep 5 a l _
              (ground (arith, e, ne, eq_iff x.asset_id a, raises a AssetStatus.critical d h))
        | inr e ↦ alarms_raise a l _ ne (ground (arith, e)) (alarm_keeps 0 a x d h)
      ]

  -- An asset of the index with a critical active alarm has the status critical, whatever the tags, the
  -- other alarms and the situations are, if its id is not empty.
  pub critical_alarm_shows :
      (a : String) (asset_index : List String) (active_alarms : Dict (AlarmRecord R))
      (situations : List SituationAssets) (tags : Dict (TagFrame R))
      → str_eq a "" ≡ false
      → contains a asset_index ≡ true
      → has_critical a (values active_alarms) ≡ true
      → lookup a (derive_asset_status asset_index active_alarms situations tags)
        ≡ some AssetStatus.critical
  unfolding derive_asset_status
  critical_alarm_shows a asset_index active_alarms situations tags ne known c =
      at_least_critical _ (
        situations_keep 5 a situations _ (
          alarms_raise a (values active_alarms) _ ne c
            (tags_keep 0 a (group (values tags) []) _ (all_normal_lem a asset_index known))))
