-- ===== src/GraphCompile/Errors.antt =====
-- When the parts of the list of errors are empty.
use plantlens.Prelude.{
  String, Bool, true, false, List, [], ◌∷◌, ◌++◌, ◌&&◌, ◌||◌, ◌≡◌, refl, ap, ◌∙◌, arith, not,
  str_eq, eq_iff, all, map, filter, All, All-map, Bool-cases, inl, inr,
}
use plantlens.Prelude.Integers.{is_negative}
use plantlens.Prelude.Dict.{contains}
use plantlens.Prelude.Strings.{distinct, NoRepeat}
use plantlens.Dag.Graph.{Condition, RootCauseRule}
use plantlens.Situation.{SituationSpec}
use plantlens.GraphCompile.{
  Edge, PlantIds, CompileError, Walked, found, finished, out_of_fuel, error_if, unknown_tag,
  unknown_rule_tag, node_errors, edge_error, edge_errors, cycle_error, alarm_errors, known_tag,
  tag_errors, situation_errors, rule_errors, no_errors,
}
use plantlens.GraphCompile.Arcs.{Acyclic}
use plantlens.GraphCompile.Fresh.{loop-Route}
use plantlens.GraphCompile.Cycle.{Decides}

pub no_errors-append :
    (xs ys : List CompileError) → no_errors (xs ++ ys) ≡ (no_errors xs && no_errors ys)
no_errors-append [] ys = refl
no_errors-append (x ∷ xs) ys = refl

no_errors-if : (b : Bool) (e : CompileError) → no_errors (error_if b e) ≡ not b
no_errors-if true e = refl
no_errors-if false e = refl

pub and_split : (a b : Bool) → (a && b) ≡ true → (a ≡ true) × (b ≡ true)
and_split a b h = (ground (arith, h), ground (arith, h))

pub and_true : {a b : Bool} → a ≡ true → b ≡ true → (a && b) ≡ true
and_true h k = ground (arith, h, k)

-- A loop that checks every item of a list
module _ {A : Type 0} (p : A → Bool) where
  pub all-All : (xs : List A) → all p xs ≡ true → All (λ x. p x ≡ true) xs
  all-All [] h = tt
  all-All (x ∷ xs) h = (ground (arith, h), all-All xs (ground (arith, h)))

  pub All-all : (xs : List A) → All (λ x. p x ≡ true) xs → all p xs ≡ true
  All-all [] h = refl
  All-all (x ∷ xs) h = ground (arith, h.0, All-all xs h.1)

pub node_lem :
    (assets ns : List String) → no_errors (node_errors assets ns) ≡ all (λ n. contains n assets) ns
unfolding node_errors
node_lem assets [] = refl
node_lem assets (n ∷ ns) = elim (Bool-cases (contains n assets)) [
  | inl e ↦ rw e (node_lem assets ns)
  | inr e ↦ rw e
]

alarm_lem :
    (alarms : List String) (spec : String) (as_ : List String)
    → no_errors (alarm_errors alarms spec as_) ≡ all (λ a. contains a alarms) as_
unfolding alarm_errors
alarm_lem alarms spec [] = refl
alarm_lem alarms spec (a ∷ as_) = elim (Bool-cases (contains a alarms)) [
  | inl e ↦ rw e (alarm_lem alarms spec as_)
  | inr e ↦ rw e
]

all-filter :
    (p : String → Bool) (x : String) (ns : List String)
    → p x ≡ true
    → all p (filter (λ y. not (str_eq y x)) ns) ≡ all p ns
all-filter p x [] h = refl
all-filter p x (n ∷ ns) h = elim (Bool-cases (str_eq n x)) [
  | inl e ↦
      let same : p n ≡ true = ap p ((eq_iff n x).0 e) ∙ h in rw (e, same) (all-filter p x ns h)
  | inr e ↦ rw e (ap (λ b. p n && b) (all-filter p x ns h))
]

pub all-distinct : (p : String → Bool) (ns : List String) → all p (distinct ns) ≡ all p ns
unfolding distinct
all-distinct p [] = refl
all-distinct p (x ∷ xs) = elim (Bool-cases (p x)) [
  | inl e ↦ rw e (all-filter p x (distinct xs) e ∙ all-distinct p xs)
  | inr e ↦ rw e
]

abbrev pub edge_ok : List String → Edge → Bool
edge_ok assets e =
    contains e.from_node assets
    && contains e.to_node assets
    && not (is_negative e.lag_min || is_negative e.lag_max)

abbrev pub new_ids : List String → List Edge → Bool
new_ids seen [] = true
new_ids seen (e ∷ es) = not (contains e.id seen) && new_ids (e.id ∷ seen) es

pub edge_lem :
    (assets seen : List String) (es : List Edge)
    → no_errors (edge_errors assets seen es) ≡ (new_ids seen es && all (edge_ok assets) es)
unfolding edge_errors edge_error
edge_lem assets seen [] = refl
edge_lem assets seen (e ∷ es) = ground (arith, edge_lem assets (e.id ∷ seen) es)

module _ {R : Type 0} where
  tag_lem :
      (tags : List String) (e : String → CompileError) (cs : List (Condition R))
      → no_errors (tag_errors tags e cs) ≡ all (known_tag tags) cs
  unfolding tag_errors
  tag_lem tags e [] = refl
  tag_lem tags e (c ∷ cs) = elim (Bool-cases (known_tag tags c)) [
    | inl k ↦ rw k (tag_lem tags e cs)
    | inr k ↦ rw k
  ]

  abbrev pub specs_ok : PlantIds → SituationSpec R → Bool
  specs_ok ids s =
      all (λ a. contains a ids.alarm_ids) s.required_alarms
      && all (known_tag ids.tag_ids) s.extra_conditions

  pub situation_lem :
      (ids : PlantIds) (ss : List (SituationSpec R))
      → no_errors (situation_errors ids ss) ≡ all (specs_ok ids) ss
  unfolding situation_errors
  situation_lem ids [] = refl
  situation_lem ids (s ∷ ss) =
      let alarms = alarm_errors ids.alarm_ids s.id s.required_alarms in
      let tags = tag_errors ids.tag_ids (unknown_tag s.id) s.extra_conditions in
      let rest = situation_errors ids ss in
      ground (
        arith,
        no_errors-append alarms (tags ++ rest),
        no_errors-append tags rest,
        alarm_lem ids.alarm_ids s.id s.required_alarms,
        tag_lem ids.tag_ids (unknown_tag s.id) s.extra_conditions,
        situation_lem ids ss,
      )

  pub rule_lem :
      (ids : PlantIds) (rs : List (RootCauseRule R))
      → no_errors (rule_errors ids rs)
        ≡ all (λ (r : RootCauseRule R). all (known_tag ids.tag_ids) r.conditions) rs
  unfolding rule_errors
  rule_lem ids [] = refl
  rule_lem ids (r ∷ rs) =
      no_errors-append (tag_errors ids.tag_ids (unknown_rule_tag r.target_node) r.conditions)
        (rule_errors ids rs)
      ∙ (λ i.
          tag_lem ids.tag_ids (unknown_rule_tag r.target_node) r.conditions i && rule_lem ids rs i)

-- The ids that the loop over the edges has not seen before
pub new_ids-NoRepeat :
    (seen : List String) (es : List Edge)
    → new_ids seen es ≡ true
    → NoRepeat (map (λ (e : Edge). e.id) es) × All (λ (e : Edge). contains e.id seen ≡ false) es
new_ids-NoRepeat seen [] h = (tt, tt)
new_ids-NoRepeat seen (e ∷ es) h =
    let (rest, others) = new_ids-NoRepeat (e.id ∷ seen) es (ground (arith, h)) in
    (
      (apart e.id seen es others, rest),
      (
        ground (arith, h),
        All-map (λ (x : Edge). contains x.id (e.id ∷ seen) ≡ false)
            (λ x. contains x.id seen ≡ false) (λ x q. ground (arith, q)) es others,
      ),
    )
  where
    apart :
        (i : String) (s : List String) (xs : List Edge)
        → All (λ (x : Edge). contains x.id (i ∷ s) ≡ false) xs
        → contains i (map (λ (x : Edge). x.id) xs) ≡ false
    apart i s [] q = refl
    apart i s (x ∷ xs) q = ground (arith, q.0, apart i s xs q.1, eq_iff x.id i, eq_iff i x.id)

pub NoRepeat-new_ids :
    (seen : List String) (es : List Edge)
    → NoRepeat (map (λ (e : Edge). e.id) es)
    → All (λ (e : Edge). contains e.id seen ≡ false) es
    → new_ids seen es ≡ true
NoRepeat-new_ids seen [] h k = refl
NoRepeat-new_ids seen (e ∷ es) h k =
    ground (arith, k.0, NoRepeat-new_ids (e.id ∷ seen) es h.1 (apart es h.0 k.1))
  where
    apart :
        (xs : List Edge)
        → contains e.id (map (λ (x : Edge). x.id) xs) ≡ false
        → All (λ (x : Edge). contains x.id seen ≡ false) xs
        → All (λ (x : Edge). contains x.id (e.id ∷ seen) ≡ false) xs
    apart [] q r = tt
    apart (x ∷ xs) q r = (
      ground (arith, q, r.0, eq_iff x.id e.id, eq_iff e.id x.id),
      apart xs (ground (arith, q)) r.1,
    )

pub passes-Acyclic :
    (edges : List Edge) (w : Walked)
    → Decides edges w
    → no_errors (cycle_error w) ≡ true
    → Acyclic edges
passes-Acyclic edges out_of_fuel d h = absurd d
passes-Acyclic edges (found t) d h = absurd (ground (arith, h))
passes-Acyclic edges (finished t) d h = d

pub Acyclic-passes :
    (edges : List Edge) (w : Walked)
    → Decides edges w
    → Acyclic edges
    → no_errors (cycle_error w) ≡ true
Acyclic-passes edges out_of_fuel d h = absurd d
Acyclic-passes edges (found t) d h = let (n, p) = loop-Route edges t.path d in absurd (h n p)
Acyclic-passes edges (finished t) d h = refl
