-- ===== src/GraphCompile/Cycle.antt =====
-- `_detect_cycle` decides whether the graph has a cycle.
use plantlens.Prelude.{
  String, true, List, [], ◌∷◌, ◌≡◌, refl, sym, ◌∙◌, arith, not, str_eq, eq_iff, any, length,
}
use plantlens.Prelude.Dict.{contains}
use plantlens.Prelude.Sorting.{sort, str_lt, any-sort}
use plantlens.Prelude.Strings.{distinct, contains-filter}
use plantlens.GraphCompile.{
  Edge, Search, Walked, found, finished, out_of_fuel, endpoints, adjacency, dfs, detect_cycle,
}
use plantlens.GraphCompile.Arcs.{arc, Acyclic, Ordered-Acyclic, arc-endpoints}
use plantlens.GraphCompile.Fresh.{fresh-nil, IsLoop}
use plantlens.GraphCompile.Walk.{Ends, AllIn, all_contains, dfs-Ends, roots-Ends}

contains-any : (k : String) (xs : List String) → contains k xs ≡ any (λ x. str_eq x k) xs
contains-any k [] = refl
contains-any k (x ∷ xs) = ground (arith, contains-any k xs)

contains-sort : (k : String) (xs : List String) → contains k (sort str_lt xs) ≡ contains k xs
contains-sort k xs =
    contains-any k (sort str_lt xs) ∙ any-sort str_lt (λ x. str_eq x k) xs ∙ sym (contains-any k xs)

pub contains-distinct : (k : String) (xs : List String) → contains k (distinct xs) ≡ contains k xs
unfolding distinct
contains-distinct k [] = refl
contains-distinct k (x ∷ xs) = ground (
  arith,
  contains-filter (λ y. not (str_eq y x)) k (distinct xs),
  contains-distinct k xs,
  eq_iff x k,
  eq_iff k x,
)

AllIn-self :
    (xs ys : List String)
    → ((k : String) → contains k xs ≡ true → contains k ys ≡ true)
    → AllIn xs ys
AllIn-self [] ys h = tt
AllIn-self (x ∷ xs) ys h =
    (h x (ground (arith, eq_iff x x)), AllIn-self xs ys (λ k e. h k (ground (arith, e))))

-- What the walk decides: it does not run out of fuel, a path that it finds is a loop along arcs, and if it
-- finds none, no node has a path to itself.
abbrev pub Decides : List Edge → Walked → Type 0
Decides edges out_of_fuel = ⊥
Decides edges (found t) = IsLoop edges t.path
Decides edges (finished t) = Acyclic edges

ended-Decides :
    (edges : List Edge) (nodes : List String)
    → ((a b : String) → arc edges a b ≡ true → contains a nodes ≡ true)
    → (w : Walked) → Ends edges (record { visited = []; stack = []; path = [] }) [] (AllIn nodes) w
    → Decides edges w
ended-Decides edges nodes starts out_of_fuel h = h
ended-Decides edges nodes starts (found t) h = h
ended-Decides edges nodes starts (finished t) (f, a, all) =
    Ordered-Acyclic edges f a.ready.ordered (λ x y e. all_contains nodes f all x (starts x y e))

-- The search for a cycle always ends within its fuel. A path that it reports runs along arcs of the edges and
-- comes back to a node that it has passed; if it reports none, no path along arcs leads from a node back
-- to it.
pub detect_cycle-Decides : (edges : List Edge) → Decides edges (detect_cycle edges)
unfolding detect_cycle
detect_cycle-Decides edges =
    let nodes = sort str_lt (distinct (endpoints edges)) in
    let start : Search = record { visited = []; stack = []; path = [] } in
    let listed : (k : String) → contains k nodes ≡ contains k (endpoints edges) =
      λ k. contains-sort k (distinct (endpoints edges)) ∙ contains-distinct k (endpoints edges) in
    let closed : (a b : String) → arc edges a b ≡ true → contains b nodes ≡ true =
      λ a b e. listed b ∙ (arc-endpoints edges a b e).1 in
    ended-Decides edges nodes (λ a b e. listed a ∙ (arc-endpoints edges a b e).0) _
      (roots-Ends edges nodes (length nodes) (dfs (length nodes) (adjacency edges []))
        (dfs-Ends edges nodes closed (length nodes)) nodes start []
        (record { ordered = tt; split = λ x. refl; apart = λ x h. refl; on_path = λ x h. h }) refl
        refl (AllIn-self nodes nodes (λ k e. e)) (omega (arith, fresh-nil nodes)))
