-- ===== src/Dag/Walk/Cross.antt =====
-- The loop over the edges into a node: what it adds to the frontier.
use mathlib.Core.List.{Memᴰ}
use plantlens.Prelude.{
  ℕ, ◌≡◌, refl, sym, subst, String, Bool, true, List, [], ◌∷◌, ◌++◌, ◌⊎◌, inl, inr, arith, str_eq,
  eq_iff, FloatOps, any, any-append, All, All-append, Bool-cases,
}
use plantlens.Prelude.Dict.{Dict}
use plantlens.Records.{AlarmRecord}
use plantlens.Dag.Graph.{GraphEdge, edge_penalty}
use plantlens.Dag.Walk.{Item, Search, timely, cross, cross_all}

-- `queued n frontier`: some entry waits for the node
abbrev pub queued : {R : Type 0} → String → List (Item R) → Bool
queued n = any (λ i. str_eq i.node n)

module _ {R : Type 0} ⦃f : FloatOps R⦄ (alarms : Dict (AlarmRecord R)) (effect_ts : ℕ) where
  -- The edge may be crossed by a walk from the symptom.
  pub record Crossable (edge : GraphEdge R) : Type 0 where
    pub approved : edge.approved ≡ true
    pub in_time : timely alarms effect_ts edge ≡ true

  abbrev pub next_item : Item R → GraphEdge R → Item R
  next_item item edge = record {
    node = edge.from_node;
    priority = f.add item.priority (edge_penalty edge);
    path = item.path ++ edge.id ∷ [];
  }

  cross_frontier :
      (item : Item R) (s : Search R) (edge : GraphEdge R)
      → ((cross alarms effect_ts item s edge).frontier ≡ s.frontier)
        ⊎ (Crossable edge
            × ((cross alarms effect_ts item s edge).frontier
                ≡ s.frontier ++ next_item item edge ∷ []))
  unfolding cross
  cross_frontier item s edge = elim (Bool-cases edge.approved) [
    | inr n ↦ inl (ground arith)
    | inl a ↦ elim (Bool-cases (timely alarms effect_ts edge)) [
      | inr n ↦ inl (ground arith)
      | inl t ↦ inr (record { approved = a; in_time = t }, ground arith)
    ]
  ]

  cross_push :
      (item : Item R) (s : Search R) (edge : GraphEdge R)
      → Crossable edge
      → (cross alarms effect_ts item s edge).frontier ≡ s.frontier ++ next_item item edge ∷ []
  unfolding cross
  cross_push item s edge c = ground arith

  pub cross_all_candidates :
      (item : Item R) (s : Search R) (edges : List (GraphEdge R))
      → ((cross_all alarms effect_ts item s edges).candidates ≡ s.candidates)
        × ((cross_all alarms effect_ts item s edges).visited ≡ s.visited)
  unfolding cross_all cross
  cross_all_candidates item s [] = (refl, refl)
  cross_all_candidates item s (edge ∷ edges) =
      ground (arith, cross_all_candidates item (cross alarms effect_ts item s edge) edges)

  pub cross_all-All :
      (P : Item R → Type 0) (item : Item R) (s : Search R) (edges : List (GraphEdge R))
      → ((edge : GraphEdge R) → Memᴰ edge edges → Crossable edge → P (next_item item edge))
      → All P s.frontier
      → All P (cross_all alarms effect_ts item s edges).frontier
  unfolding cross_all
  cross_all-All P item s [] new h = h
  cross_all-All P item s (edge ∷ edges) new h =
      cross_all-All P item (cross alarms effect_ts item s edge) edges
        (λ e m c. new e (Memᴰ.tail m) c)
        (elim (cross_frontier item s edge) [
          | inl same ↦ subst (All P) (sym same) h
          | inr (c, more) ↦ subst (All P) (sym more) (
              All-append P s.frontier (next_item item edge ∷ []) h
                (new edge (Memᴰ.head refl) c, tt))
        ])

  cross-queued :
      (item : Item R) (s : Search R) (edge : GraphEdge R) (n : String)
      → queued n s.frontier ≡ true
      → queued n (cross alarms effect_ts item s edge).frontier ≡ true
  cross-queued item s edge n h = elim (cross_frontier item s edge) [
    | inl same ↦ rw same h
    | inr (c, more) ↦ rw more (
        ground (
          arith,
          any-append {0} (λ (i : Item R). str_eq i.node n) s.frontier (next_item item edge ∷ []),
        ))
  ]

  pub cross_all-queued :
      (item : Item R) (s : Search R) (edges : List (GraphEdge R)) (n : String)
      → queued n s.frontier ≡ true
      → queued n (cross_all alarms effect_ts item s edges).frontier ≡ true
  unfolding cross_all
  cross_all-queued item s [] n h = h
  cross_all-queued item s (edge ∷ edges) n h =
      cross_all-queued item (cross alarms effect_ts item s edge) edges n
        (cross-queued item s edge n h)

  push_self :
      (item : Item R) (s : Search R) (edge : GraphEdge R)
      → Crossable edge
      → queued edge.from_node (cross alarms effect_ts item s edge).frontier ≡ true
  push_self item s edge c = rw (cross_push item s edge c) (
      ground (
        arith,
        any-append {0} (λ (i : Item R). str_eq i.node edge.from_node) s.frontier
            (next_item item edge ∷ []),
        eq_iff edge.from_node edge.from_node,
      ))

  pub cross_all_push :
      (item : Item R) (s : Search R) (edges : List (GraphEdge R)) (edge : GraphEdge R)
      → Memᴰ edge edges
      → Crossable edge
      → queued edge.from_node (cross_all alarms effect_ts item s edges).frontier ≡ true
  unfolding cross_all
  cross_all_push item s [] edge m c = elim m [ ]
  cross_all_push item s (e ∷ edges) edge (Memᴰ.head p) c =
      cross_all-queued item (cross alarms effect_ts item s e) edges edge.from_node (
        subst (λ z. queued edge.from_node (cross alarms effect_ts item s z).frontier ≡ true) p
          (push_self item s edge c))
  cross_all_push item s (e ∷ edges) edge (Memᴰ.tail m) c =
      cross_all_push item (cross alarms effect_ts item s e) edges edge m c
