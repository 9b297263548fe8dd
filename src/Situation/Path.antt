-- ===== src/Situation/Path.antt =====
-- The causal path of a situation.
use plantlens.Prelude.{
  ◌≡◌, String, Bool, true, some, List, [], ◌∷◌, ◌&&◌, not, refl, arith, str_eq, eq_iff, inl, inr,
  ◌⊎◌, any, filter, Bool-cases, Option-cases, All, All-append, ap,
}
use plantlens.Prelude.Dict.{Dict, lookup, insert, lookup-insert, contains}
use plantlens.Prelude.Strings.{NoRepeat, NoRepeat-snoc, NoRepeat-filter, contains-filter}
use plantlens.Records.{AlarmRecord}
use plantlens.Situation.{
  index_alarms, by_id, add_asset, path_assets, starts_with, root_first, build_causal_path,
}

module _ {R : Type 0} where
  -- Some of the alarms is on the asset.
  abbrev pub on_asset : List (AlarmRecord R) → String → Bool
  on_asset alarms a = any (λ (x : AlarmRecord R). str_eq x.asset_id a) alarms

  found :
      (k : String) (xs : List (AlarmRecord R)) (d : Dict (AlarmRecord R)) (a : AlarmRecord R)
      → lookup k (index_alarms xs d) ≡ some a
      → (on_asset xs a.asset_id ≡ true) ⊎ (lookup k d ≡ some a)
  unfolding index_alarms
  found k [] d a h = inr h
  found k (x ∷ xs) d a h = ground (
    arith,
    found k xs (insert x.alarm_id x d) a h,
    lookup-insert x.alarm_id k x d,
    eq_iff x.asset_id a.asset_id,
    eq_iff x.alarm_id k,
  )

  -- What the loop over the evidence order keeps: no repetition, and assets of the alarms only.
  abbrev Walked : List (AlarmRecord R) → List String → Type 0
  Walked alarms path = NoRepeat path × All (λ a. on_asset alarms a ≡ true) path

  add_asset-Walked :
      (alarms : List (AlarmRecord R)) (k : String) (path : List String)
      → Walked alarms path
      → Walked alarms (add_asset (lookup k (by_id alarms)) path)
  unfolding lookup
  add_asset-Walked alarms k path w = elim (Option-cases (lookup k (by_id alarms))) [
    | inl e ↦ rw e w
    | inr (a, e) ↦
        elim (Bool-cases (not (str_eq a.asset_id "") && not (contains a.asset_id path))) [
          | inr t ↦ rw (e, t) w
          | inl t ↦
              rw (e, t)
                (
                  NoRepeat-snoc a.asset_id path (ground arith) w.0,
                  All-append (λ b. on_asset alarms b ≡ true) path (a.asset_id ∷ []) w.1
                      (ground (arith, found k alarms [] a e), tt),
                )
        ]
  ]

  path_assets-Walked :
      (alarms : List (AlarmRecord R)) (order path : List String)
      → Walked alarms path
      → Walked alarms (path_assets (by_id alarms) order path)
  unfolding path_assets
  path_assets-Walked alarms [] path w = w
  path_assets-Walked alarms (k ∷ ks) path w =
      path_assets-Walked alarms ks _ (add_asset-Walked alarms k path w)

All-filter :
    (P : String → Type 0) (p : String → Bool) (xs : List String) → All P xs → All P (filter p xs)
All-filter P p [] h = tt
All-filter P p (x ∷ xs) h = elim (Bool-cases (p x)) [
  | inl e ↦ rw e (h.0, All-filter P p xs h.1)
  | inr e ↦ rw e (All-filter P p xs h.1)
]

-- The path from the root: it starts there, names no asset twice, and all that follows has the
-- property.
pub record IsPathFrom (root : String) (P : String → Type 0) (path : List String) : Type 0 where
  pub rest : List String
  pub starts : path ≡ root ∷ rest
  pub once : NoRepeat path
  pub others : All P rest

starting_there :
    (P : String → Type 0) (root : String) (path : List String)
    → starts_with root path ≡ true
    → NoRepeat path
    → All P path
    → IsPathFrom root P path
starting_there P root [] s n h = ground arith
starting_there P root (x ∷ xs) s n h = record {
  rest = xs;
  starts = ap (λ y. y ∷ xs) ((eq_iff x root).0 s);
  once = n;
  others = h.1;
}

root_first-IsPathFrom :
    (P : String → Type 0) (root : String) (path : List String)
    → NoRepeat path
    → All P path
    → IsPathFrom root P (root_first root path)
unfolding root_first
root_first-IsPathFrom P root path n h = elim (Bool-cases (contains root path)) [
  | inr e ↦ rw e (record { rest = path; starts = refl; once = (e, n); others = h })
  | inl e ↦ elim (Bool-cases (starts_with root path)) [
    | inr s ↦
        rw (e, s)
          (record {
            rest = filter (λ a. not (str_eq a root)) path;
            starts = refl;
            once = (
              ground
                  (arith, contains-filter (λ a. not (str_eq a root)) root path, eq_iff root root),
              NoRepeat-filter (λ a. not (str_eq a root)) path n,
            );
            others = All-filter P (λ a. not (str_eq a root)) path h;
          })
    | inl s ↦ rw (e, s) (starting_there P root path s n h)
  ]
]

module _ {R : Type 0} where
  -- The causal path of a situation starts at its root asset, names no asset twice, and each asset
  -- behind the root has an active alarm.
  pub build_causal_path-IsPathFrom :
      (root : String) (alarms : List (AlarmRecord R)) (evidence_order : List String)
      → IsPathFrom root
          (λ a. on_asset alarms a ≡ true)
          (build_causal_path root alarms evidence_order)
  unfolding build_causal_path
  build_causal_path-IsPathFrom root alarms evidence_order =
      let w = path_assets-Walked alarms evidence_order [] (tt, tt) in
      root_first-IsPathFrom (λ a. on_asset alarms a ≡ true) root
        (path_assets (by_id alarms) evidence_order []) w.0 w.1
