-- ===== src/Situation/Evidence.antt =====
-- The evidence of a situation lists its alarms.
use plantlens.Prelude.{
  ℕ, ◌+◌, ◌≡◌, String, true, some, List, [], ◌∷◌, ◌++◌, not, refl, arith, inl, inr, str_eq, eq_iff,
  map, filter, if◌then◌else◌, Bool-cases, Option-cases, ap, ◌∙◌, is_some,
}
use plantlens.Prelude.Dict.{Dict, lookup, insert, lookup-insert, contains}
use plantlens.Prelude.Sorting.{sort, insort}
use plantlens.Prelude.Strings.{NoRepeat, occurs, occurs-NoRepeat}
use plantlens.Records.{AlarmRecord}
use plantlens.Situation.{
  Role, EvidenceItem, alarm_ids, index_alarms, by_id, raised_before, option_list, look_all,
  order_alarms, item, items, build_evidence,
}

module _ {R : Type 0} where
  abbrev times : String → List (AlarmRecord R) → ℕ
  times k xs = occurs k (alarm_ids xs)

  times-append :
      (k : String) (xs ys : List (AlarmRecord R)) → times k (xs ++ ys) ≡ times k xs + times k ys
  times-append k [] ys = omega arith
  times-append k (x ∷ xs) ys = omega (arith, times-append k xs ys)

  times-insort :
      (k : String) (x : AlarmRecord R) (xs : List (AlarmRecord R))
      → times k (insort raised_before x xs) ≡ times k (x ∷ xs)
  unfolding insort
  times-insort k x [] = refl
  times-insort k x (y ∷ ys) = elim (Bool-cases (raised_before y x)) [
    | inl e ↦ rw e (omega (arith, times-insort k x ys))
    | inr e ↦ rw e refl
  ]

  times-sort :
      (k : String) (xs : List (AlarmRecord R)) → times k (sort raised_before xs) ≡ times k xs
  unfolding sort
  times-sort k [] = refl
  times-sort k (x ∷ xs) = omega (arith, times-insort k x (sort raised_before xs), times-sort k xs)

  times-filter :
      (k : String) (ks : List String) (xs : List (AlarmRecord R))
      → times k (filter (λ (x : AlarmRecord R). not (contains x.alarm_id ks)) xs)
        ≡ (if contains k ks then 0 else times k xs)
  times-filter k ks [] = ground arith
  times-filter k ks (x ∷ xs) = ground (arith, times-filter k ks xs, eq_iff x.alarm_id k)

  -- Under its key the dictionary has an alarm with that id.
  index_alarms-id :
      (k : String) (xs : List (AlarmRecord R)) (d : Dict (AlarmRecord R)) (a : AlarmRecord R)
      → ((b : AlarmRecord R) → lookup k d ≡ some b → b.alarm_id ≡ k)
      → lookup k (index_alarms xs d) ≡ some a
      → a.alarm_id ≡ k
  unfolding index_alarms
  index_alarms-id k [] d a h e = h a e
  index_alarms-id k (x ∷ xs) d a h e =
      index_alarms-id k xs (insert x.alarm_id x d) a
        (λ b q. ground (arith, h b, q, lookup-insert x.alarm_id k x d, eq_iff x.alarm_id k)) e

  by_id-id :
      (k : String) (xs : List (AlarmRecord R)) (a : AlarmRecord R)
      → lookup k (by_id xs) ≡ some a
      → a.alarm_id ≡ k
  unfolding lookup
  by_id-id k xs a e = index_alarms-id k xs [] a (λ b q. ground arith) e

  has-index_alarms :
      (k : String) (xs : List (AlarmRecord R)) (d : Dict (AlarmRecord R))
      → is_some (lookup k (index_alarms xs d))
        ≡ (if contains k (alarm_ids xs) then true else is_some (lookup k d))
  unfolding index_alarms
  has-index_alarms k [] d = refl
  has-index_alarms k (x ∷ xs) d = ground (
    arith,
    has-index_alarms k xs (insert x.alarm_id x d),
    lookup-insert x.alarm_id k x d,
    eq_iff x.alarm_id k,
  )

  has-by_id :
      (k : String) (xs : List (AlarmRecord R))
      → is_some (lookup k (by_id xs)) ≡ contains k (alarm_ids xs)
  unfolding lookup
  has-by_id k xs = ground (arith, has-index_alarms k xs [])

  times-option :
      (k j : String) (xs : List (AlarmRecord R))
      → times k (option_list (lookup j (by_id xs)))
        ≡ (if str_eq j k then (if contains j (alarm_ids xs) then 1 else 0) else 0)
  times-option k j xs = elim (Option-cases (lookup j (by_id xs))) [
    | inl e ↦ ground (arith, e, has-by_id j xs)
    | inr (a, e) ↦
        ground (arith, e, has-by_id j xs, by_id-id j xs a e, eq_iff a.alarm_id k, eq_iff j k)
  ]

  times-look_all :
      (k : String) (xs : List (AlarmRecord R)) (ks : List String)
      → NoRepeat ks
      → times k (look_all (by_id xs) ks)
        ≡ (if contains k ks then (if contains k (alarm_ids xs) then 1 else 0) else 0)
  unfolding look_all
  times-look_all k xs [] n = refl
  times-look_all k xs (j ∷ ks) n = ground (
    arith,
    times-append k (option_list (lookup j (by_id xs))) (look_all (by_id xs) ks),
    times-option k j xs,
    times-look_all k xs ks n.1,
    eq_iff j k,
  )

  rest_ids :
      (xs : List (AlarmRecord R))
      → map (λ (i : EvidenceItem). i.alarm_id) (map (item Role.evidence) xs) ≡ alarm_ids xs
  rest_ids [] = refl
  rest_ids (x ∷ xs) = ap (λ l. x.alarm_id ∷ l) (rest_ids xs)

  items-ids :
      (xs : List (AlarmRecord R)) → map (λ (i : EvidenceItem). i.alarm_id) (items xs) ≡ alarm_ids xs
  items-ids [] = refl
  items-ids (x ∷ xs) = ap (λ l. x.alarm_id ∷ l) (rest_ids xs)

  -- Where no two alarms have one id and the evidence order repeats none, the evidence of a situation
  -- lists every alarm just once, whatever ids the evidence order names, and lists nothing else.
  pub build_evidence-occurs :
      (alarms : List (AlarmRecord R)) (evidence_order : List String) (k : String)
      → NoRepeat (alarm_ids alarms)
      → NoRepeat evidence_order
      → occurs k (map (λ (i : EvidenceItem). i.alarm_id) (build_evidence alarms evidence_order))
        ≡ occurs k (alarm_ids alarms)
  unfolding build_evidence order_alarms
  build_evidence-occurs alarms [] k n m =
      ap (occurs k) (items-ids (sort raised_before alarms)) ∙ times-sort k alarms
  build_evidence-occurs alarms (j ∷ js) k n m =
      let others = filter (λ (x : AlarmRecord R). not (contains x.alarm_id (j ∷ js))) alarms in
      let listed = look_all (by_id alarms) (j ∷ js) in
      ap (occurs k) (items-ids (listed ++ sort raised_before others))
      ∙ ground (
        arith,
        times-append k listed (sort raised_before others),
        times-look_all k alarms (j ∷ js) m,
        times-sort k others,
        times-filter k (j ∷ js) alarms,
        occurs-NoRepeat k (alarm_ids alarms) n,
      )
