-- ===== src/Ingest/Drafting/Distinct.antt =====
-- What holds of the records that become drafts.
use plantlens.Prelude.{
  String, Bool, true, false, Option, none, some, List, [], ◌∷◌, ◌++◌, ◌≡◌, refl, arith, str_eq,
  eq_iff, any, any-append, filter, if◌then◌else◌, All, All-map, FloatOps, Bool-cases, inl, inr,
  subst,
}
use plantlens.Prelude.Dict.{contains}
use plantlens.Prelude.Strings.{NoRepeat}
use plantlens.Ingest.{NormalizedRecord}
use plantlens.Ingest.Truth.{
  Sieve, add_tag, duplicate_issue, check_truth, sift, sift_all, is_truth_clean,
  should_quarantine_truth,
}

pub any_left :
    {A : Type 0} (p : A → Bool) (xs ys : List A) → any p (xs ++ ys) ≡ false → any p xs ≡ false
any_left p xs ys h = ground (arith, any-append p xs ys, h)

pub any_right :
    {A : Type 0} (p : A → Bool) (xs ys : List A) → any p (xs ++ ys) ≡ false → any p ys ≡ false
any_right p xs ys h = ground (arith, any-append p xs ys, h)

module _ {R : Type 0} where
  -- The tags that the records bind
  abbrev pub tags_of : List (NormalizedRecord R) → List String
  tags_of [] = []
  tags_of (r ∷ rs) = add_tag r.tag_id (tags_of rs)

-- None of the texts is in the list.
abbrev Absent : List String → List String → Type 0
Absent seen ts = All (λ t. contains t seen ≡ false) ts

tag_seen :
    (tag : Option String) (seen : List String) (x : String)
    → contains x (add_tag tag seen) ≡ false
    → contains x seen ≡ false
tag_seen none seen x h = h
tag_seen (some t) seen x h = ground (arith, h)

Absent-first : (t : String) (seen ts : List String) → Absent (t ∷ seen) ts → contains t ts ≡ false
Absent-first t seen [] h = refl
Absent-first t seen (x ∷ xs) h =
    ground (arith, h.0, Absent-first t seen xs h.1, eq_iff x t, eq_iff t x)

-- The tag of a record that stays, in front of those of the records behind it
add_tag-NoRepeat :
    (tag : Option String) (seen ts : List String)
    → any should_quarantine_truth (duplicate_issue tag seen) ≡ false
    → NoRepeat ts
    → Absent (add_tag tag seen) ts
    → NoRepeat (add_tag tag ts) × Absent seen (add_tag tag ts)
add_tag-NoRepeat none seen ts h n a = (n, a)
add_tag-NoRepeat (some t) seen ts h n a = elim (Bool-cases (str_eq t "")) [
  | inl e ↦ rw e (n, subst (λ b. Absent (if b then seen else t ∷ seen) ts) e a)
  | inr e ↦
      let apart : Absent (t ∷ seen) ts =
        subst (λ b. Absent (if b then seen else t ∷ seen) ts) e a in
      rw e (
        (Absent-first t seen ts apart, n),
        (
          ground (arith, h, e),
          All-map (λ y. contains y (t ∷ seen) ≡ false) (λ y. contains y seen ≡ false)
              (λ y q. ground (arith, q)) ts apart,
        ),
      )
]

module _ {R : Type 0} ⦃f : FloatOps R⦄ (record_ids raw_ids : List String) where
  sift-rejects :
      (r : NormalizedRecord R) (s : Sieve) (x : String)
      → contains x s.rejected_ids ≡ true
      → contains x (sift record_ids raw_ids r s).rejected_ids ≡ true
  unfolding sift
  sift-rejects r s x h = ground (arith, h)

  sift_all-rejects :
      (rs : List (NormalizedRecord R)) (s : Sieve) (x : String)
      → contains x s.rejected_ids ≡ true
      → contains x (sift_all record_ids raw_ids rs s).rejected_ids ≡ true
  unfolding sift_all
  sift_all-rejects [] s x h = h
  sift_all-rejects (r ∷ rs) s x h =
      sift_all-rejects rs (sift record_ids raw_ids r s) x (sift-rejects r s x h)

  -- A record that is not rejected is checked, has a new tag, and the tag is seen from then on.
  passed :
      (r : NormalizedRecord R) (s : Sieve)
      → contains r.record_id (sift record_ids raw_ids r s).rejected_ids ≡ false
      → contains r.raw_id raw_ids ≡ false
      → (any should_quarantine_truth (check_truth r s.seen_tags) ≡ false)
        × ((sift record_ids raw_ids r s).seen_tags ≡ add_tag r.tag_id s.seen_tags)
  unfolding sift
  passed r s h k = ground (arith, h, k, eq_iff r.record_id r.record_id)

  sift-seen :
      (r : NormalizedRecord R) (s : Sieve) (x : String)
      → contains x (sift record_ids raw_ids r s).seen_tags ≡ false
      → contains x s.seen_tags ≡ false
  unfolding sift
  sift-seen r s x h = ground (arith, h, tag_seen r.tag_id s.seen_tags x)

  pub sift_all-NoRepeat :
      (rejected : List String) (rs : List (NormalizedRecord R)) (s : Sieve)
      → ((x : String)
          → contains x (sift_all record_ids raw_ids rs s).rejected_ids ≡ true
          → contains x rejected ≡ true)
      → NoRepeat (tags_of (filter (is_truth_clean rejected raw_ids) rs))
        × Absent s.seen_tags (tags_of (filter (is_truth_clean rejected raw_ids) rs))
  unfolding sift_all check_truth
  sift_all-NoRepeat rejected [] s h = (tt, tt)
  sift_all-NoRepeat rejected (r ∷ rs) s h =
      let t = sift record_ids raw_ids r s in
      let (n, a) = sift_all-NoRepeat rejected rs t h in
      let rest = tags_of (filter (is_truth_clean rejected raw_ids) rs) in
      elim (Bool-cases (is_truth_clean rejected raw_ids r)) [
        | inl clean ↦
            let kept : contains r.record_id t.rejected_ids ≡ false =
              ground (arith, clean, h r.record_id, sift_all-rejects rs t r.record_id) in
            let (fine, seen) = passed r s kept (ground (arith, clean)) in
            rw clean (
              add_tag-NoRepeat r.tag_id s.seen_tags rest
                (any_left should_quarantine_truth (duplicate_issue r.tag_id s.seen_tags) _ fine) n
                (subst (λ v. Absent v rest) seen a))
        | inr out ↦ rw out (
          n,
          All-map (λ y. contains y t.seen_tags ≡ false) (λ y. contains y s.seen_tags ≡ false)
              (λ y q. sift-seen r s y q) rest a,
        )
      ]
