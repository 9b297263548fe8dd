-- ===== src/Dag/Walk/Paths.antt =====
-- Where the walk goes: backwards over approved, timely edges, over all of them, and to each node once.
use mathlib.Core.List.{Memᴰ}
use plantlens.Prelude.{
  ℕ, zero, suc, ◌≡◌, refl, sym, ap, ◌∙◌, subst, String, true, false, List, [], ◌∷◌, ◌++◌, ◌||◌, ◌↔◌,
  inl, inr, arith, str_eq, eq_iff, FloatOps, All, All-append, All-map, List-cases, Bool-cases,
}
use plantlens.Prelude.Dict.{Dict, contains}
use plantlens.Prelude.Sorting.{sort, All-sort, any-sort, sort-nil}
use plantlens.Frame.{TagFrame}
use plantlens.Records.{AlarmRecord}
use plantlens.Dag.Graph.{GraphEdge, GraphIndex}
use plantlens.Dag.Walk.{
  Candidate, Item, Search, done, edges_into, item_before, cross_all, adjusted, assess, expand, walk,
  walk_fuel, seed,
}
use plantlens.Dag.Walk.Ends.{assess_keeps, walk_returns}
use plantlens.Dag.Fingerprint.{evaluate_node_fingerprint}
use plantlens.Dag.Walk.Cross.{
  queued, Crossable, cross_all_candidates, cross_all-All, cross_all-queued, cross_all_push,
}

module _ {R : Type 0} ⦃f : FloatOps R⦄ (g : GraphIndex R) (alarms : Dict (AlarmRecord R))
    (effect_ts : ℕ) (asset : String) where
  -- A backward walk from the symptom's asset over approved, timely edges, with the ids of its edges.
  pub data Walked : String → List String → Type 0 where
    at : {n : String} → n ≡ asset → Walked n []
    back :
        {n m : String} {p q : List String} (edge : GraphEdge R)
        → Walked n p
        → Memᴰ edge (edges_into g n)
        → Crossable alarms effect_ts edge
        → m ≡ edge.from_node
        → q ≡ p ++ edge.id ∷ []
        → Walked m q

  -- A backward walk over approved, timely edges leads from the symptom's asset to the node.
  abbrev pub Reachable : String → Type 0
  Reachable n = (p : List String) × Walked n p

module _ {R : Type 0} ⦃f : FloatOps R⦄ (g : GraphIndex R) (alarms : Dict (AlarmRecord R))
    (tags : Dict (TagFrame R)) (effect_ts : ℕ) (min_root_score : R) (asset : String) where
  -- A candidate was reached by its edges, its score passed the threshold, and it was visited.
  pub record IsSound (v : List String) (c : Candidate R) : Type 0 where
    pub reached : Walked g alarms effect_ts asset c.node_id c.traversed_edges
    pub scored : f.le min_root_score c.score ≡ true
    pub visited : contains c.node_id v ≡ true

  -- Between two rounds of the walk.
  pub record Inv (s : Search R) : Type 0 where
    pub waiting : All (λ i. Walked g alarms effect_ts asset i.node i.path) s.frontier
    pub sound : All (IsSound s.visited) s.candidates
    pub seen : All (Reachable g alarms effect_ts asset) s.visited
    pub source : (contains asset s.visited || queued asset s.frontier) ≡ true
    pub closed :
        (u : String) (edge : GraphEdge R)
        → contains u s.visited ≡ true
        → Memᴰ edge (edges_into g u)
        → Crossable alarms effect_ts edge
        → (contains edge.from_node s.visited || queued edge.from_node s.frontier) ≡ true

  Inv-seed : Inv (seed asset)
  Inv-seed = record {
    waiting = (at refl, tt);
    sound = tt;
    seen = tt;
    source = ground (arith, eq_iff asset asset);
    closed = λ u edge v m c. ground arith;
  }

  popped :
      (s : Search R) (item : Item R) (rest : List (Item R))
      → sort item_before s.frontier ≡ item ∷ rest
      → (n : String) → queued n (item ∷ rest) ≡ queued n s.frontier
  popped s item rest e n =
      ap (queued n) (sym e) ∙ any-sort item_before (λ (i : Item R). str_eq i.node n) s.frontier

  Inv-sort :
      (s : Search R) (item : Item R) (rest : List (Item R))
      → sort item_before s.frontier ≡ item ∷ rest
      → Inv s
      → Inv (record s { frontier = item ∷ rest })
  Inv-sort s item rest e h = record {
    waiting = subst (All (λ i. Walked g alarms effect_ts asset i.node i.path)) e (
        All-sort item_before (λ i. Walked g alarms effect_ts asset i.node i.path) s.frontier
          h.waiting);
    sound = h.sound;
    seen = h.seen;
    source = ground (arith, popped s item rest e asset, h.source);
    closed =
        λ u edge v m c. ground (arith, popped s item rest e edge.from_node, h.closed u edge v m c);
  }

  -- The entry of a node that was visited already may be dropped.
  drop_entry :
      (v : List String) (item : Item R) (rest : List (Item R)) (n : String)
      → contains item.node v ≡ true
      → (contains n v || queued n (item ∷ rest)) ≡ true
      → (contains n v || queued n rest) ≡ true
  drop_entry v item rest n d h = elim (Bool-cases (str_eq item.node n)) [
    | inl e ↦ ground (arith, ap (λ z. contains z v) ((eq_iff item.node n).0 e))
    | inr e ↦ ground arith
  ]

  Inv-skip :
      (s : Search R) (item : Item R) (rest : List (Item R))
      → contains item.node s.visited ≡ true
      → Inv (record s { frontier = item ∷ rest })
      → Inv (record s { frontier = rest })
  Inv-skip s item rest d h = record {
    waiting = h.waiting.1;
    sound = h.sound;
    seen = h.seen;
    source = drop_entry s.visited item rest asset d h.source;
    closed =
        λ u edge v m c. drop_entry s.visited item rest edge.from_node d (h.closed u edge v m c);
  }

  IsSound-visit : (n : String) (v : List String) (c : Candidate R) → IsSound v c → IsSound (n ∷ v) c
  IsSound-visit n v c h = record { reached = h.reached; scored = h.scored; visited = ground arith }

  assess-IsSound :
      (item : Item R) (s : Search R)
      → Walked g alarms effect_ts asset item.node item.path
      → contains item.node s.visited ≡ true
      → All (IsSound s.visited) s.candidates
      → All (IsSound s.visited) (assess g alarms tags effect_ts min_root_score item s).candidates
  unfolding assess
  assess-IsSound item s w v h =
      elim (Bool-cases
        (f.le min_root_score (adjusted g alarms tags effect_ts min_root_score item))) [
          | inl e ↦ rw e (
              All-append (IsSound s.visited) s.candidates
                (record {
                  node_id = item.node;
                  score = adjusted g alarms tags effect_ts min_root_score item;
                  reasons = (evaluate_node_fingerprint alarms tags item.node g).1;
                  traversed_edges = item.path;
                }
                  ∷ [])
                h (record { reached = w; scored = e; visited = v }, tt))
          | inr e ↦ subst (All (IsSound s.visited)) {x = s.candidates} (ground arith) h
        ]

  carry :
      (v : List String) (item : Item R) (rest next : List (Item R)) (n : String)
      → (queued n rest ≡ true → queued n next ≡ true)
      → (contains n v || queued n (item ∷ rest)) ≡ true
      → (contains n (item.node ∷ v) || queued n next) ≡ true
  carry v item rest next n still h = ground arith

  was_visited :
      (x u : String) (v : List String)
      → str_eq x u ≡ false
      → contains u (x ∷ v) ≡ true
      → contains u v ≡ true
  was_visited x u v e h = ground arith

  -- A new node: it is assessed, and the edges into it are crossed.
  Inv-visit :
      (s : Search R) (item : Item R) (rest : List (Item R))
      → Inv (record s { frontier = item ∷ rest })
      → Inv (
          cross_all alarms effect_ts item
            (assess g alarms tags effect_ts min_root_score item
              (record s { frontier = rest; visited = item.node ∷ s.visited }))
            (edges_into g item.node))
  Inv-visit s item rest h =
      let s' = record s { frontier = rest; visited = item.node ∷ s.visited } in
      let t = assess g alarms tags effect_ts min_root_score item s' in
      let (front, seen) = assess_keeps g alarms tags effect_ts min_root_score item s' in
      let edges = edges_into g item.node in
      let r = cross_all alarms effect_ts item t edges in
      let (found, seen') = cross_all_candidates alarms effect_ts item t edges in
      let all_seen : r.visited ≡ item.node ∷ s.visited = seen' ∙ seen in
      let here : contains item.node (item.node ∷ s.visited) ≡ true =
        ground (arith, eq_iff item.node item.node) in
      let still = λ (n : String) (q : queued n rest ≡ true).
        cross_all-queued alarms effect_ts item t edges n (ap (queued n) front ∙ q) in
      record {
        waiting =
            cross_all-All alarms effect_ts (λ i. Walked g alarms effect_ts asset i.node i.path) item
              t edges (λ edge m c. back edge h.waiting.0 m c refl refl)
              (subst (All (λ i. Walked g alarms effect_ts asset i.node i.path)) (sym front)
                h.waiting.1);
        sound =
            subst (λ v. All (IsSound v) r.candidates) (sym all_seen)
              (subst (All (IsSound s'.visited)) (sym found) (
                assess-IsSound item s' h.waiting.0 here (
                  All-map (IsSound s.visited) (IsSound s'.visited)
                    (IsSound-visit item.node s.visited) s.candidates h.sound)));
        seen =
            subst (All (Reachable g alarms effect_ts asset)) (sym all_seen)
              ((item.path, h.waiting.0), h.seen);
        source = rw all_seen (carry s.visited item rest r.frontier asset (still asset) h.source);
        closed = λ u edge v m c. rw all_seen (elim (Bool-cases (str_eq item.node u)) [
          | inl e ↦
              let same : u ≡ item.node = sym ((eq_iff item.node u).0 e) in
              let pushed : queued edge.from_node r.frontier ≡ true =
                cross_all_push alarms effect_ts item t edges edge
                  (subst (λ z. Memᴰ edge (edges_into g z)) same m) c in
              ground arith
          | inr e ↦
              let old : contains u s.visited ≡ true =
                was_visited item.node u s.visited e (ap (contains u) (sym all_seen) ∙ v) in
              carry s.visited item rest r.frontier edge.from_node (still edge.from_node)
                (h.closed u edge old m c)
        ]);
      }

  Inv-expand :
      (s : Search R) (item : Item R) (rest : List (Item R))
      → Inv (record s { frontier = item ∷ rest })
      → Inv (expand g alarms tags effect_ts min_root_score item (record s { frontier = rest }))
  unfolding expand
  Inv-expand s item rest h = elim (Bool-cases (contains item.node s.visited)) [
    | inl e ↦ rw e (Inv-skip s item rest e h)
    | inr e ↦ rw e (Inv-visit s item rest h)
  ]

  ended : (s t : Search R) → s ≡ t → s.frontier ≡ [] → Inv s → Inv t × (t.frontier ≡ [])
  ended s t e n h = (subst Inv e h, ap (λ (z : Search R). z.frontier) (sym e) ∙ n)

  walk-Inv :
      (fuel : ℕ) (s t : Search R)
      → Inv s
      → walk g alarms tags effect_ts min_root_score fuel s ≡ done t
      → Inv t × (t.frontier ≡ [])
  unfolding walk
  walk-Inv zero s t h e = elim (List-cases s.frontier) [
    | inl n ↦ ended s t (ground arith) n h
    | inr (item, rest, n) ↦ ground arith
  ]
  walk-Inv (suc fuel) s t h e = elim (List-cases (sort item_before s.frontier)) [
    | inl n ↦ ended s t (ground arith) (sort-nil item_before s.frontier n) h
    | inr (item, rest, n) ↦
        walk-Inv fuel
          (expand g alarms tags effect_ts min_root_score item (record s { frontier = rest })) t
          (Inv-expand s item rest (Inv-sort s item rest n h)) (rw (n, walk) at e)
  ]

  -- With an empty frontier the visited nodes are closed under crossing.
  complete :
      (t : Search R)
      → Inv t
      → t.frontier ≡ []
      → {n : String} {p : List String} → Walked g alarms effect_ts asset n p
      → contains n t.visited ≡ true
  complete t h e (at q) = ground (arith, h.source)
  complete t h e (back {n} {m} edge w mem c q r) =
      rw q (ground (arith, h.closed n edge (complete t h e w) mem c))

  Reachable-visited :
      (v : List String) (n : String)
      → All (Reachable g alarms effect_ts asset) v
      → contains n v ≡ true
      → Reachable g alarms effect_ts asset n
  Reachable-visited [] n h c = ground arith
  Reachable-visited (x ∷ v) n h c = elim (Bool-cases (str_eq x n)) [
    | inl e ↦ subst (Reachable g alarms effect_ts asset) ((eq_iff x n).0 e) h.0
    | inr e ↦ Reachable-visited v n h.1 (ground arith)
  ]

  -- The walk from the symptom's asset ends within its fuel; it visits exactly the nodes that a backward
  -- walk over approved, timely edges reaches; and each of its candidates is such a node, reached by the
  -- edges that it names, with a score that is not below the threshold.
  pub walk_correct :
      (t : Search R) × (walk g alarms tags effect_ts min_root_score (walk_fuel g) (seed asset)
        ≡ done t)
      × ((n : String) → (contains n t.visited ≡ true) ↔ Reachable g alarms effect_ts asset n)
      × All (IsSound t.visited) t.candidates
  walk_correct =
      let (t, ends) = walk_returns g alarms tags effect_ts min_root_score asset in
      let (h, empty) = walk-Inv (walk_fuel g) (seed asset) t Inv-seed ends in
      (t, ends, λ n. (Reachable-visited t.visited n h.seen, λ w. complete t h empty w.1), h.sound)
