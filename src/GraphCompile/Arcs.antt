-- ===== src/GraphCompile/Arcs.antt =====
-- The arcs of a graph, the paths along them, and an order that leaves no room for a cycle.
use plantlens.Prelude.{
  String, Bool, true, false, List, [], ◌∷◌, ◌++◌, ◌&&◌, ◌||◌, ◌≡◌, ◌⊎◌, refl, sym, ap, ◌∙◌, arith,
  any, str_eq, eq_iff, Bool-cases, inl, inr, subst,
}
use plantlens.Prelude.Dict.{Dict, lookup, lookup-insert, contains}
use plantlens.Prelude.Strings.{contains-append}
use plantlens.GraphCompile.{Edge, neighbors, append_to, adjacency, endpoints}

-- Some edge leads from the one node to the other.
abbrev pub arc : List Edge → String → String → Bool
arc edges a b = any (λ (e : Edge). str_eq e.from_node a && str_eq e.to_node b) edges

-- A path of one arc or more.
pub data Route (edges : List Edge) : String → String → Type 0 where
  last : {a b : String} → arc edges a b ≡ true → Route edges a b
  next :
      {a : String} (b : String) {c : String}
      → arc edges a b ≡ true
      → Route edges b c
      → Route edges a c

abbrev pub Acyclic : List Edge → Type 0
Acyclic edges = (n : String) → Route edges n n → ⊥

-- Each node's arcs lead to nodes behind it in the list, in which no node stands twice.
abbrev pub Ordered : List Edge → List String → Type 0
Ordered edges [] = Unit
Ordered edges (x ∷ xs) =
    (contains x xs ≡ false)
    × (((y : String) → arc edges x y ≡ true → contains y xs ≡ true) × Ordered edges xs)

module _ (edges : List Edge) where
  pub append-Route : {a b c : String} → Route edges a b → arc edges b c ≡ true → Route edges a c
  append-Route (last e) h = next _ e (last h)
  append-Route (next d e p) h = next d e (append-Route p h)

  Ordered-arc :
      (xs : List String)
      → Ordered edges xs
      → (a b : String) → contains a xs ≡ true
      → arc edges a b ≡ true
      → contains b xs ≡ true
  Ordered-arc [] o a b h e = ground (arith, h)
  Ordered-arc (x ∷ xs) o a b h e = elim (Bool-cases (str_eq x a)) [
    | inl q ↦
        let same : x ≡ a = (eq_iff x a).0 q in
        let behind : contains b xs ≡ true =
          o.1.0 b (subst (λ n. arc edges n b ≡ true) (sym same) e) in
        ground (arith, behind)
    | inr q ↦ ground (arith, Ordered-arc xs o.1.1 a b (ground (arith, h, q)) e)
  ]

  Ordered-Route :
      (xs : List String)
      → Ordered edges xs
      → (a b : String) → contains a xs ≡ true
      → Route edges a b
      → contains b xs ≡ true
  Ordered-Route xs o a b h (last e) = Ordered-arc xs o a b h e
  Ordered-Route xs o a c h (next b e p) = Ordered-Route xs o b c (Ordered-arc xs o a b h e) p

  first_arc :
      (a c : String)
      → Route edges a c
      → (b : String) × (arc edges a b ≡ true) × ((b ≡ c) ⊎ Route edges b c)
  first_arc a b (last e) = (b, e, inl refl)
  first_arc a c (next b e p) = (b, e, inr p)

  no_return :
      (xs : List String)
      → Ordered edges xs
      → (a : String) → contains a xs ≡ true
      → Route edges a a
      → ⊥
  no_return [] o a h p = ground (arith, h)
  no_return (x ∷ xs) o a h p = elim (Bool-cases (str_eq x a)) [
    | inl q ↦
        let same : x ≡ a = (eq_iff x a).0 q in
        let (b, e, rest) = first_arc a a p in
        let behind : contains b xs ≡ true =
          o.1.0 b (subst (λ n. arc edges n b ≡ true) (sym same) e) in
        let back : contains a xs ≡ true = elim rest [
          | inl here ↦ subst (λ n. contains n xs ≡ true) here behind
          | inr r ↦ Ordered-Route xs o.1.1 b a behind r
        ] in
        ground (arith, back, subst (λ n. contains n xs ≡ false) same o.0)
    | inr q ↦ no_return xs o.1.1 a (ground (arith, h, q)) p
  ]

  -- A list that has every node with an arc, ordered, shows that there is no cycle.
  pub Ordered-Acyclic :
      (xs : List String)
      → Ordered edges xs
      → ((a b : String) → arc edges a b ≡ true → contains a xs ≡ true)
      → Acyclic edges
  Ordered-Acyclic xs o all n p =
      let (b, e, rest) = first_arc n n p in no_return xs o n (all n b e) p

-- What the dict of _detect_cycle lists for a node are the ends of its arcs.
neighbors-append_to :
    (key value node : String) (d : Dict (List String)) (b : String)
    → contains b (neighbors (append_to key value d) node)
      ≡ (contains b (neighbors d node) || (str_eq key node && str_eq value b))
neighbors-append_to key value node d b = elim (Bool-cases (str_eq key node)) [
  | inl q ↦
      let same : key ≡ node = (eq_iff key node).0 q in
      rw (lookup-insert key node (neighbors d key ++ value ∷ []) d, q)
        (contains-append b (neighbors d key) (value ∷ [])
          ∙ ground (arith, ap (λ n. contains b (neighbors d n)) same))
  | inr q ↦ rw (lookup-insert key node (neighbors d key ++ value ∷ []) d, q) (ground arith)
]

adjacency_from :
    (edges : List Edge) (d : Dict (List String)) (a b : String)
    → contains b (neighbors (adjacency edges d) a) ≡ (contains b (neighbors d a) || arc edges a b)
unfolding adjacency
adjacency_from [] d a b = ground arith
adjacency_from (e ∷ es) d a b = ground (
  arith,
  adjacency_from es (append_to e.from_node e.to_node d) a b,
  neighbors-append_to e.from_node e.to_node a d b,
)

pub neighbors-adjacency :
    (edges : List Edge) (a b : String)
    → contains b (neighbors (adjacency edges []) a) ≡ arc edges a b
unfolding lookup
neighbors-adjacency edges a b = adjacency_from edges [] a b

pub arc-endpoints :
    (edges : List Edge) (a b : String)
    → arc edges a b ≡ true
    → (contains a (endpoints edges) ≡ true) × (contains b (endpoints edges) ≡ true)
arc-endpoints [] a b h = ground (arith, h)
arc-endpoints (e ∷ es) a b h = elim (Bool-cases (arc es a b)) [
  | inl q ↦ let ih = arc-endpoints es a b q in (ground (arith, ih.0), ground (arith, ih.1))
  | inr q ↦ (ground (arith, h, q), ground (arith, h, q))
]
