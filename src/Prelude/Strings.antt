-- ===== src/Prelude/Strings.antt =====
-- Lists of texts as sets: members, repetition, and how often a text occurs.
use mathlib.Core.Path.{◌≡◌, refl}
use mathlib.Core.Logic.{inl, inr}
use mathlib.Core.Bool.{Bool, false, not, ◌&&◌, ◌||◌}
use mathlib.Core.List.{List, [], ◌∷◌, ◌++◌}
use Prim.Native.Nat.{ℕ, ◌+◌}
use Prim.Native.String.{String}
use text.Mathlib.Text.{◌==◌ as str_eq}
use text.Mathlib.TextEquality.{eq_iff}
use native.Mathlib.Omega.{arith}
use plantlens.Prelude.Tests.{if◌then◌else◌, Bool-cases}
use plantlens.Prelude.Lists.{filter}
use plantlens.Prelude.Dict.{contains}

-- No text stands twice in the list.
abbrev pub NoRepeat : List String → Type 0
NoRepeat [] = Unit
NoRepeat (x ∷ xs) = (contains x xs ≡ false) × NoRepeat xs

-- How often a text stands in the list.
abbrev pub occurs : String → List String → ℕ
occurs k [] = 0
occurs k (x ∷ xs) = (if str_eq x k then 1 else 0) + occurs k xs

pub contains-append :
    (k : String) (xs ys : List String) → contains k (xs ++ ys) ≡ (contains k xs || contains k ys)
contains-append k [] ys = refl
contains-append k (x ∷ xs) ys = ground (arith, contains-append k xs ys)

pub NoRepeat-snoc :
    (y : String) (xs : List String) → contains y xs ≡ false → NoRepeat xs → NoRepeat (xs ++ y ∷ [])
NoRepeat-snoc y [] h n = (refl, tt)
NoRepeat-snoc y (x ∷ xs) h n = (
  ground (arith, contains-append x xs (y ∷ []), eq_iff x y, eq_iff y x),
  NoRepeat-snoc y xs (ground arith) n.1,
)

pub contains-filter :
    (p : String → Bool) (k : String) (xs : List String)
    → contains k (filter p xs) ≡ (contains k xs && p k)
contains-filter p k [] = refl
contains-filter p k (x ∷ xs) = ground (arith, contains-filter p k xs, eq_iff x k)

pub NoRepeat-filter : (p : String → Bool) (xs : List String) → NoRepeat xs → NoRepeat (filter p xs)
NoRepeat-filter p [] n = tt
NoRepeat-filter p (x ∷ xs) n = elim (Bool-cases (p x)) [
  | inl e ↦ rw e (ground (arith, contains-filter p x xs), NoRepeat-filter p xs n.1)
  | inr e ↦ rw e (NoRepeat-filter p xs n.1)
]

-- Without repetition a text occurs once or not at all.
pub occurs-NoRepeat :
    (k : String) (xs : List String) → NoRepeat xs → occurs k xs ≡ (if contains k xs then 1 else 0)
occurs-NoRepeat k [] n = refl
occurs-NoRepeat k (x ∷ xs) n = ground (arith, occurs-NoRepeat k xs n.1, eq_iff x k)

pub occurs-append :
    (k : String) (xs ys : List String) → occurs k (xs ++ ys) ≡ occurs k xs + occurs k ys
occurs-append k [] ys = omega arith
occurs-append k (x ∷ xs) ys = omega (arith, occurs-append k xs ys)

-- The elements of `set(l)`, in the order of their first appearance.
unfoldable pub distinct : List String → List String
distinct [] = []
distinct (x ∷ xs) = x ∷ filter (λ y. not (str_eq y x)) (distinct xs)
