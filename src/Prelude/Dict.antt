-- ===== src/Prelude/Dict.antt =====
-- Python's `dict` with text keys, in insertion order: a new key goes to the end, and a key that is
-- there keeps its place.
use mathlib.Core.Path.{◌≡◌, refl}
use mathlib.Core.Bool.{Bool, true, false}
use mathlib.Core.Option.{Option, none, some}
use mathlib.Core.List.{List, [], ◌∷◌, map}
use native.Mathlib.Omega.{arith}
use Prim.Native.String.{String}
use text.Mathlib.Text.{◌==◌}
use text.Mathlib.TextEquality.{eq_iff}
use plantlens.Prelude.Tests.{if◌then◌else◌, is_some}

abbrev pub Dict {ℓ} : Type ℓ → Type ℓ
Dict V = List (String × V)

module _ {ℓ} {V : Type ℓ} where
  -- d.get(key)
  unfoldable pub lookup : String → Dict V → Option V
  lookup key [] = none
  lookup key ((name, value) ∷ d) = if name == key then some value else lookup key d

  -- d.pop(key, None)
  unfoldable pub remove : String → Dict V → Dict V
  remove key [] = []
  remove key ((name, value) ∷ d) =
      let rest = remove key d in if name == key then rest else (name, value) ∷ rest

  -- d.setdefault(key, value)
  unfoldable pub setdefault : String → V → Dict V → Dict V
  setdefault key value [] = (key, value) ∷ []
  setdefault key value ((name, old) ∷ d) =
      (name, old) ∷ (if name == key then d else setdefault key value d)

  -- d[key] = value
  unfoldable pub insert : String → V → Dict V → Dict V
  insert key value [] = (key, value) ∷ []
  insert key value ((name, old) ∷ d) =
      if name == key then (name, value) ∷ d else (name, old) ∷ insert key value d

  -- key in d
  abbrev pub has_key : String → Dict V → Bool
  has_key key d = is_some (lookup key d)

  -- list(d.values())
  abbrev pub values : Dict V → List V
  values d = map (λ p. p.1) d

  pub lookup-remove :
      (key other : String) (d : Dict V)
      → lookup other (remove key d) ≡ (if key == other then none else lookup other d)
  unfolding lookup remove
  lookup-remove key other [] = ground arith
  lookup-remove key other ((name, value) ∷ d) =
      ground
        (arith, lookup-remove key other d, eq_iff name other, eq_iff name key, eq_iff key other)

  pub lookup-insert :
      (key other : String) (value : V) (d : Dict V)
      → lookup other (insert key value d) ≡ (if key == other then some value else lookup other d)
  unfolding lookup insert
  lookup-insert key other value [] = refl
  lookup-insert key other value ((name, old) ∷ d) =
      ground (
        arith,
        lookup-insert key other value d,
        eq_iff name other,
        eq_iff name key,
        eq_iff key other,
      )

-- `s in xs`
abbrev pub contains : String → List String → Bool
contains k [] = false
contains k (x ∷ xs) = if x == k then true else contains k xs
