-- ===== src/GraphCompile/Walk.antt =====
-- What `dfs` finds: with fuel for the nodes that are not visited, a loop, or an order of the nodes that it
-- is done with.
use plantlens.Prelude.{
  ℕ, zero, suc, ◌≤◌, String, true, false, List, [], ◌∷◌, ◌||◌, ◌≡◌, refl, sym, ap, ◌∙◌, arith, not,
  str_eq, eq_iff, Bool-cases, inl, inr, subst, filter, All,
}
use plantlens.Prelude.Dict.{contains}
use plantlens.GraphCompile.{
  Edge, Search, Walked, found, finished, out_of_fuel, enter, leave, pop, and_then, each, dfs, roots,
  adjacency, neighbors,
}
use plantlens.GraphCompile.Arcs.{arc, Ordered, neighbors-adjacency}
use plantlens.GraphCompile.Fresh.{fresh, fresh-grows, fresh-enter, Chain, IsLoop}

-- The nodes that the search is done with are ordered, and the visited ones are these and those on the
-- stack.
pub record Ready (edges : List Edge) (s : Search) (done : List String) : Type 0 where
  pub ordered : Ordered edges done
  pub split : (x : String) → contains x s.visited ≡ (contains x done || contains x s.stack)
  pub apart : (x : String) → contains x done ≡ true → contains x s.stack ≡ false
  pub on_path : (x : String) → contains x s.stack ≡ true → contains x s.path ≡ true

pub record Kept (edges : List Edge) (s : Search) (done : List String) (t : Search)
    (done' : List String) : Type 0 where
  pub ready : Ready edges t done'
  pub stack : t.stack ≡ s.stack
  pub path : t.path ≡ s.path
  pub visited : (x : String) → contains x s.visited ≡ true → contains x t.visited ≡ true
  pub grown : (x : String) → contains x done ≡ true → contains x done' ≡ true

-- The walk ends, with a loop or with more nodes done, of which the goal holds.
abbrev pub Ends : List Edge → Search → List String → (List String → Type 0) → Walked → Type 0
Ends edges s done Goal out_of_fuel = ⊥
Ends edges s done Goal (found t) = IsLoop edges t.path
Ends edges s done Goal (finished t) = (done' : List String) × Kept edges s done t done' × Goal done'

abbrev pub AllIn : List String → List String → Type 0
AllIn ks xs = All (λ k. contains k xs ≡ true) ks

drop_lem :
    (node : String) (xs : List String)
    → contains node xs ≡ false
    → filter (λ x. not (str_eq x node)) xs ≡ xs
drop_lem node [] h = refl
drop_lem node (x ∷ xs) h = ground (arith, drop_lem node xs, h)

drop_first :
    (node : String) (xs : List String)
    → contains node xs ≡ false
    → filter (λ x. not (str_eq x node)) (node ∷ xs) ≡ xs
drop_first node xs h = ground (arith, drop_lem node xs h, eq_iff node node)

pub all_contains :
    (ks xs : List String) → AllIn ks xs → (y : String) → contains y ks ≡ true → contains y xs ≡ true
all_contains [] xs h y e = ground (arith, e)
all_contains (k ∷ ks) xs h y e = elim (Bool-cases (str_eq k y)) [
  | inl q ↦ subst (λ z. contains z xs ≡ true) ((eq_iff k y).0 q) h.0
  | inr q ↦ all_contains ks xs h.1 y (ground (arith, e, q))
]

module _ (edges : List Edge) where
  Kept-refl : (s : Search) (d : List String) → Ready edges s d → Kept edges s d s d
  Kept-refl s d r = record {
    ready = r;
    stack = refl;
    path = refl;
    visited = λ x h. h;
    grown = λ x h. h;
  }

  Kept-trans :
      (s t u : Search) (d e f : List String)
      → Kept edges s d t e
      → Kept edges t e u f
      → Kept edges s d u f
  Kept-trans s t u d e f a b = record {
    ready = b.ready;
    stack = b.stack ∙ a.stack;
    path = b.path ∙ a.path;
    visited = λ x h. b.visited x (a.visited x h);
    grown = λ x h. b.grown x (a.grown x h);
  }

  Ends-map :
      (s : Search) (d : List String) (G H : List String → Type 0) (w : Walked)
      → ((f : List String) (t : Search) → Kept edges s d t f → G f → H f)
      → Ends edges s d G w
      → Ends edges s d H w
  Ends-map s d G H out_of_fuel k h = h
  Ends-map s d G H (found t) k h = h
  Ends-map s d G H (finished t) k (f, a, g) = (f, a, k f t a g)

  -- What follows a walk, if it ends well from wherever the walk leads.
  and_then-Ends :
      (s : Search) (d : List String) (G H : List String → Type 0) (later : Search → Walked)
      → ((t : Search) (e : List String)
          → Kept edges s d t e
          → G e
          → Ends edges t e (λ f. (G f → H f)) (later t))
      → (w : Walked) → Ends edges s d G w
      → ((e f : List String)
          → ((x : String) → contains x e ≡ true → contains x f ≡ true)
          → G e
          → G f)
      → Ends edges s d H (and_then w later)
  and_then-Ends s d G H later rest out_of_fuel h mono = h
  and_then-Ends s d G H later rest (found t) h mono = h
  and_then-Ends s d G H later rest (finished t) (e, a, g) mono = follow (later t) (rest t e a g)
    where
      follow : (w : Walked) → Ends edges t e (λ f. (G f → H f)) w → Ends edges s d H w
      follow out_of_fuel h = h
      follow (found u) h = h
      follow (finished u) (f, b, k) = (f, Kept-trans s t u d e f a b, k (mono e f b.grown g))

  module _ (nodes : List String) (n : ℕ) (go : String → Search → Walked)
      (visit : (k : String) (s : Search) (d : List String)
        → Ready edges s d
        → contains k nodes ≡ true
        → contains k s.visited ≡ false
        → Chain edges (k ∷ s.path)
        → fresh nodes s.visited ≤ n
        → Ends edges s d (λ d'. contains k d' ≡ true) (go k s)) where
    each-Ends :
        (p ks : List String) (s : Search) (d : List String)
        → Ready edges s d
        → s.path ≡ p
        → All (λ k. (contains k nodes ≡ true) × Chain edges (k ∷ p)) ks
        → fresh nodes s.visited ≤ n
        → Ends edges s d (AllIn ks) (each go ks s)
    unfolding each
    each-Ends p [] s d r e h b = (d, Kept-refl s d r, tt)
    each-Ends p (k ∷ ks) s d r e h b = elim (Bool-cases (contains k s.visited)) [
      | inl seen ↦ elim (Bool-cases (contains k s.stack)) [
        | inl open_ ↦
            rw (seen, open_) (subst (λ q. Chain edges (k ∷ q)) (sym e) h.0.1, r.on_path k open_)
        | inr closed ↦
            rw (seen, closed)
              (Ends-map s d (AllIn ks) (AllIn (k ∷ ks)) _
                (λ f t a g. (a.grown k (ground (arith, r.split k, seen, closed)), g))
                (each-Ends p ks s d r e h.1 b))
      ]
      | inr new ↦ rw new (
          and_then-Ends s d (λ f. contains k f ≡ true) (AllIn (k ∷ ks)) (each go ks)
            (λ t f a g.
              Ends-map t f (AllIn ks) (λ x. (contains k x ≡ true → AllIn (k ∷ ks) x)) _
                (λ x u c all in_. (in_, all))
                (each-Ends p ks t f a.ready (a.path ∙ e) h.1
                  (omega (arith, b, fresh-grows nodes s.visited t.visited a.visited))))
            (go k s) (visit k s d r h.0.0 new (subst (λ q. Chain edges (k ∷ q)) (sym e) h.0.1) b)
            (λ e' f' grow in_. grow k in_))
    ]

    pub roots-Ends :
        (ks : List String) (s : Search) (d : List String)
        → Ready edges s d
        → s.stack ≡ []
        → s.path ≡ []
        → AllIn ks nodes
        → fresh nodes s.visited ≤ n
        → Ends edges s d (AllIn ks) (roots go ks s)
    unfolding roots
    roots-Ends [] s d r e p h b = (d, Kept-refl s d r, tt)
    roots-Ends (k ∷ ks) s d r e p h b = elim (Bool-cases (contains k s.visited)) [
      | inl seen ↦
          let off : contains k s.stack ≡ false = ap (contains k) e in
          rw seen (
            Ends-map s d (AllIn ks) (AllIn (k ∷ ks)) _
              (λ f t a g. (a.grown k (ground (arith, r.split k, seen, off)), g))
              (roots-Ends ks s d r e p h.1 b))
      | inr new ↦ rw new (
          and_then-Ends s d (λ f. contains k f ≡ true) (AllIn (k ∷ ks)) (roots go ks)
            (λ t f a g.
              Ends-map t f (AllIn ks) (λ x. (contains k x ≡ true → AllIn (k ∷ ks) x)) _
                (λ x u c all in_. (in_, all))
                (roots-Ends ks t f a.ready (a.stack ∙ e) (a.path ∙ p) h.1
                  (omega (arith, b, fresh-grows nodes s.visited t.visited a.visited))))
            (go k s) (visit k s d r h.0 new (subst (λ q. Chain edges (k ∷ q)) (sym p) tt) b)
            (λ e' f' grow in_. grow k in_))
    ]

  enter-Ready :
      (node : String) (s : Search) (d : List String)
      → Ready edges s d
      → contains node s.visited ≡ false
      → Ready edges (enter node s) d
  enter-Ready node s d r new = record {
    ordered = r.ordered;
    split = λ x. ground (arith, r.split x);
    apart = λ x h. elim (Bool-cases (str_eq node x)) [
      | inl q ↦
          let known : contains x s.visited ≡ false =
            subst (λ z. contains z s.visited ≡ false) ((eq_iff node x).0 q) new in
          ground (arith, r.split x, h, known)
      | inr q ↦ ground (arith, r.apart x h, q)
    ];
    on_path = λ x h. ground (arith, h, r.on_path x);
  }

  leave-Ends :
      (node : String) (s : Search) (d : List String) (ks : List String)
      → contains node s.visited ≡ false
      → Ready edges s d
      → ((y : String) → arc edges node y ≡ true → contains y ks ≡ true)
      → (w : Walked) → Ends edges (enter node s) d (AllIn ks) w
      → Ends edges s d (λ f. contains node f ≡ true) (leave node w)
  leave-Ends node s d ks new r arcs out_of_fuel h = h
  leave-Ends node s d ks new r arcs (found t) h = h
  leave-Ends node s d ks new r arcs (finished t) (f, a, all) =
      let off : contains node s.stack ≡ false = ground (arith, r.split node, new) in
      let back : filter (λ x. not (str_eq x node)) t.stack ≡ s.stack =
        ap (filter (λ x. not (str_eq x node))) a.stack ∙ drop_first node s.stack off in
      let undone : contains node f ≡ false =
        ground (arith, a.ready.apart node, ap (contains node) a.stack, eq_iff node node) in
      (
        node ∷ f,
        record {
          ready = record {
            ordered = (undone, ((λ y e. all_contains ks f all y (arcs y e)), a.ready.ordered));
            split =
                λ x. ground (arith, a.ready.split x, ap (contains x) a.stack, ap (contains x) back);
            apart = λ x h. elim (Bool-cases (str_eq node x)) [
              | inl q ↦
                  ap (contains x) back
                  ∙ subst (λ z. contains z s.stack ≡ false) ((eq_iff node x).0 q) off
              | inr q ↦
                  ap (contains x) back
                  ∙ ground
                      (arith, a.ready.apart x (ground (arith, h, q)), ap (contains x) a.stack, q)
            ];
            on_path = λ x h.
                ap (contains x) (ap pop a.path) ∙ r.on_path x (sym (ap (contains x) back) ∙ h);
          };
          stack = back;
          path = ap pop a.path;
          visited = λ x h. a.visited x (ground (arith, h));
          grown = λ x h. ground (arith, a.grown x h);
        },
        ground (arith, eq_iff node node),
      )

  module _ (nodes : List String)
      (closed : (a b : String) → arc edges a b ≡ true → contains b nodes ≡ true) where
    arcs_next :
        (node : String) (p ks : List String)
        → Chain edges (node ∷ p)
        → ((y : String) → contains y ks ≡ true → arc edges node y ≡ true)
        → All (λ k. (contains k nodes ≡ true) × Chain edges (k ∷ node ∷ p)) ks
    arcs_next node p [] c h = tt
    arcs_next node p (k ∷ ks) c h =
        let e : arc edges node k ≡ true = h k (ground (arith, eq_iff k k)) in
        ((closed node k e, (e, c)), arcs_next node p ks c (λ y m. h y (ground (arith, m))))

    pub dfs-Ends :
        (n : ℕ) (node : String) (s : Search) (d : List String)
        → Ready edges s d
        → contains node nodes ≡ true
        → contains node s.visited ≡ false
        → Chain edges (node ∷ s.path)
        → fresh nodes s.visited ≤ n
        → Ends edges s d (λ d'. contains node d' ≡ true) (dfs n (adjacency edges []) node s)
    unfolding dfs
    dfs-Ends zero node s d r in_ new c b =
        absurd (omega (arith, b, fresh-enter nodes s.visited node in_ new))
    dfs-Ends (suc n) node s d r in_ new c b =
        let ks = neighbors (adjacency edges []) node in
        leave-Ends node s d ks new r (λ y e. neighbors-adjacency edges node y ∙ e) _
          (each-Ends nodes n (dfs n (adjacency edges [])) (dfs-Ends n) (node ∷ s.path) ks
            (enter node s) d (enter-Ready node s d r new) refl
            (arcs_next node s.path ks c (λ y e. sym (neighbors-adjacency edges node y) ∙ e))
            (omega (arith, b, fresh-enter nodes s.visited node in_ new)))
