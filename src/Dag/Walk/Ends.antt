-- ===== src/Dag/Walk/Ends.antt =====
-- The walk ends: a node is expanded once, so it makes one round for the seed and at most one for each
-- edge.
use plantlens.Prelude.{
  ℕ, zero, suc, ◌+◌, ◌≤◌, ◌≡◌, refl, ap, ◌∙◌, String, false, List, [], ◌∷◌, ◌++◌, arith, str_eq,
  eq_iff, if◌then◌else◌, FloatOps, length, length-append, List-cases, inl, inr, Bool-cases,
}
use plantlens.Prelude.Dict.{Dict, lookup, contains}
use plantlens.Prelude.Sorting.{sort, length-sort}
use plantlens.Frame.{TagFrame}
use plantlens.Records.{AlarmRecord}
use plantlens.Dag.Graph.{GraphEdge, GraphIndex, edge_penalty}
use plantlens.Dag.Walk.{
  Item, Search, done, edges_or_none, edges_into, item_before, cross, cross_all, assess, expand,
  walk, count_edges, walk_fuel, seed,
}

module _ {R : Type 0} where
  -- The edges into the nodes that were not visited yet.
  abbrev open_edges : Dict (List (GraphEdge R)) → List String → ℕ
  open_edges [] v = 0
  open_edges ((node, edges) ∷ rest) v =
      (if contains node v then 0 else length edges) + open_edges rest v

  open_edges_mono :
      (adj : Dict (List (GraphEdge R))) (n : String) (v : List String)
      → open_edges adj (n ∷ v) ≤ open_edges adj v
  open_edges_mono [] n v = omega arith
  open_edges_mono ((j, es) ∷ rest) n v = ground (arith, open_edges_mono rest n v)

  open_edges_visit :
      (adj : Dict (List (GraphEdge R))) (n : String) (v : List String)
      → contains n v ≡ false
      → open_edges adj (n ∷ v) + length (edges_or_none (lookup n adj)) ≤ open_edges adj v
  unfolding lookup
  open_edges_visit [] n v h = omega arith
  open_edges_visit ((j, es) ∷ rest) n v h = elim (Bool-cases (str_eq j n)) [
    | inl e ↦
        let same : j ≡ n = (eq_iff j n).0 e in
        ground (arith, open_edges_mono rest n v, eq_iff n j, ap (λ x. contains x v) same)
    | inr e ↦ ground (arith, open_edges_visit rest n v, eq_iff n j, eq_iff j n)
  ]

  open_edges_start : (adj : Dict (List (GraphEdge R))) → open_edges adj [] ≡ count_edges adj
  open_edges_start [] = refl
  open_edges_start ((j, es) ∷ rest) = omega (arith, open_edges_start rest)

module _ {R : Type 0} ⦃f : FloatOps R⦄ (alarms : Dict (AlarmRecord R)) (effect_ts : ℕ) where
  cross_bound :
      (item : Item R) (s : Search R) (edge : GraphEdge R)
      → (length (cross alarms effect_ts item s edge).frontier ≤ suc (length s.frontier))
        × ((cross alarms effect_ts item s edge).visited ≡ s.visited)
  unfolding cross
  cross_bound item s edge = ground (
    arith,
    length-append {0} s.frontier (
        record {
          node = edge.from_node;
          priority = f.add item.priority (edge_penalty edge);
          path = item.path ++ edge.id ∷ [];
        }
        ∷ []),
  )

  cross_all_bound :
      (item : Item R) (s : Search R) (edges : List (GraphEdge R))
      → (length (cross_all alarms effect_ts item s edges).frontier
          ≤ length s.frontier + length edges)
        × ((cross_all alarms effect_ts item s edges).visited ≡ s.visited)
  unfolding cross_all
  cross_all_bound item s [] = (omega arith, refl)
  cross_all_bound item s (edge ∷ edges) = ground (
    arith,
    cross_bound item s edge,
    cross_all_bound item (cross alarms effect_ts item s edge) edges,
  )

module _ {R : Type 0} ⦃f : FloatOps R⦄ (g : GraphIndex R) (alarms : Dict (AlarmRecord R))
    (tags : Dict (TagFrame R)) (effect_ts : ℕ) (min_root_score : R) where
  abbrev work : Search R → ℕ
  work s = length s.frontier + open_edges g.reverse_adjacency s.visited

  pub assess_keeps :
      (item : Item R) (s : Search R)
      → ((assess g alarms tags effect_ts min_root_score item s).frontier ≡ s.frontier)
        × ((assess g alarms tags effect_ts min_root_score item s).visited ≡ s.visited)
  unfolding assess
  assess_keeps item s = ground arith

  expand_bound :
      (item : Item R) (s : Search R)
      → work (expand g alarms tags effect_ts min_root_score item s) ≤ work s
  unfolding expand
  expand_bound item s = elim (Bool-cases (contains item.node s.visited)) [
    | inl e ↦ rw e (omega arith)
    | inr e ↦
        let s' = record s { visited = item.node ∷ s.visited } in
        let t = assess g alarms tags effect_ts min_root_score item s' in
        let a = assess_keeps item s' in
        let c = cross_all_bound alarms effect_ts item t (edges_into g item.node) in
        let seen = c.1 ∙ a.1 in
        rw e (
          rw seen (
            omega (
              arith,
              open_edges_visit g.reverse_adjacency item.node s.visited e,
              c.0,
              ap (length {A = Item R}) a.0,
            )))
  ]

  pub walk_ends :
      (fuel : ℕ) (s : Search R)
      → work s ≤ fuel
      → (t : Search R) × (walk g alarms tags effect_ts min_root_score fuel s ≡ done t)
  unfolding walk
  walk_ends zero s h = (s, ground arith)
  walk_ends (suc fuel) s h = elim (List-cases (sort item_before s.frontier)) [
    | inl e ↦ (s, rw (e, walk))
    | inr (item, rest, e) ↦
        let s' = record s { frontier = rest } in
        let (t, ends) =
          walk_ends fuel (expand g alarms tags effect_ts min_root_score item s') (
            omega (arith, expand_bound item s', length-sort item_before s.frontier, ap length e)) in
        (t, rw (e, walk) ends)
  ]

  -- The walk from any asset ends within `walk_fuel` rounds.
  pub walk_returns :
      (asset : String)
      → (t : Search R) × (walk g alarms tags effect_ts min_root_score (walk_fuel g) (seed asset)
          ≡ done t)
  walk_returns asset =
      walk_ends (walk_fuel g) (seed asset) (omega (arith, open_edges_start g.reverse_adjacency))
