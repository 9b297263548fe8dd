-- ===== src/GraphCompile/Fresh.antt =====
-- How many nodes a search has not visited, and the chains that its path keeps.
use plantlens.Prelude.{
  ℕ, ◌≤◌, ◌<◌, String, true, false, List, [], ◌∷◌, ◌≡◌, refl, sym, arith, not, str_eq, eq_iff,
  Bool-cases, inl, inr, subst, filter, length,
}
use plantlens.Prelude.Dict.{contains}
use plantlens.GraphCompile.{Edge}
use plantlens.GraphCompile.Arcs.{arc, Route, last, append-Route}

abbrev pub fresh : List String → List String → ℕ
fresh nodes visited = length (filter (λ n. not (contains n visited)) nodes)

pub fresh-grows :
    (nodes v w : List String)
    → ((x : String) → contains x v ≡ true → contains x w ≡ true)
    → fresh nodes w ≤ fresh nodes v
fresh-grows [] v w h = omega arith
fresh-grows (n ∷ ns) v w h = ground (arith, fresh-grows ns v w h, h n)

pub fresh-enter :
    (nodes v : List String) (n : String)
    → contains n nodes ≡ true
    → contains n v ≡ false
    → fresh nodes (n ∷ v) < fresh nodes v
fresh-enter [] v n h k = ground (arith, h)
fresh-enter (x ∷ xs) v n h k = elim (Bool-cases (str_eq x n)) [
  | inl q ↦
      let same : x ≡ n = (eq_iff x n).0 q in
      let less = fresh-grows xs v (n ∷ v) (λ y e. ground (arith, e)) in
      let out : contains x v ≡ false = subst (λ y. contains y v ≡ false) (sym same) k in
      ground (arith, less, out, q, eq_iff n x, same)
  | inr q ↦ ground (arith, fresh-enter xs v n (ground (arith, h, q)) k, q, eq_iff n x, eq_iff x n)
]

pub fresh-nil : (nodes : List String) → fresh nodes [] ≡ length nodes
fresh-nil [] = refl
fresh-nil (x ∷ xs) = omega (arith, fresh-nil xs)

-- Each item is reached by an arc from the one behind it.
abbrev pub Chain : List Edge → List String → Type 0
Chain edges [] = Unit
Chain edges (x ∷ []) = Unit
Chain edges (x ∷ y ∷ r) = (arc edges y x ≡ true) × Chain edges (y ∷ r)

-- A chain whose first item stands again behind it.
abbrev pub IsLoop : List Edge → List String → Type 0
IsLoop edges [] = ⊥
IsLoop edges (x ∷ r) = Chain edges (x ∷ r) × (contains x r ≡ true)

Chain-Route :
    (edges : List Edge) (x z : String) (r : List String)
    → Chain edges (x ∷ r)
    → contains z r ≡ true
    → Route edges z x
Chain-Route edges x z [] c h = absurd (ground (arith, h))
Chain-Route edges x z (y ∷ r) c h = elim (Bool-cases (str_eq y z)) [
  | inl q ↦ subst (λ n. Route edges n x) ((eq_iff y z).0 q) (last c.0)
  | inr q ↦ append-Route edges (Chain-Route edges y z r c.1 (ground (arith, h, q))) c.0
]

pub loop-Route :
    (edges : List Edge) (p : List String) → IsLoop edges p → (n : String) × Route edges n n
loop-Route edges [] h = absurd h
loop-Route edges (x ∷ r) h = (x, Chain-Route edges x x r h.0 h.1)
