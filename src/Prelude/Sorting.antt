-- ===== src/Prelude/Sorting.antt =====
-- Python's `sorted` and `list.sort`: a stable insertion sort by a test `before x y` that says
-- whether the key of `x` is strictly below the key of `y`.
use mathlib.Core.Bool.{Bool, true, false, ◌||◌}
use mathlib.Core.List.{List, [], ◌∷◌, ◌++◌}
use Prim.Native.Nat.{ℕ, zero, suc, Ordering}
use Prim.Native.String.{String}
use Prim.Native.String
use mathlib.Core.Path.{◌≡◌, refl, ap}
use mathlib.Core.Logic.{inl, inr}
use native.Mathlib.Omega.{arith}
use plantlens.Prelude.Tests.{if◌then◌else◌, Bool-cases}
use plantlens.Prelude.Lists.{length, any, take, All, All-map, All-take}

-- `a < b` on texts, by code points
abbrev pub str_lt : String → String → Bool
str_lt a b = elim (String.compare a b) [ Ordering.lt ↦ true | _ ↦ false ]

module _ {ℓ} {A : Type ℓ} (before : A → A → Bool) where
  -- `x` stood in front, so it stays in front of the items with an equal key.
  unfoldable pub insort : A → List A → List A
  insort x [] = x ∷ []
  insort x (y ∷ ys) = if before y x then y ∷ insort x ys else x ∷ y ∷ ys

  unfoldable pub sort : List A → List A
  sort [] = []
  sort (x ∷ xs) = insort x (sort xs)

  -- A property of all items is one of all items of the sorted list, and the length stays.
  pub All-insort {κ} : (P : A → Type κ) (x : A) (ys : List A) → P x → All P ys → All P (insort x ys)
  unfolding insort
  All-insort P x [] p h = (p, tt)
  All-insort P x (y ∷ ys) p h = elim (Bool-cases (before y x)) [
    | inl e ↦ rw e (h.0, All-insort P x ys p h.1)
    | inr e ↦ rw e (p, (h.0, h.1))
  ]

  pub All-sort {κ} : (P : A → Type κ) (xs : List A) → All P xs → All P (sort xs)
  unfolding sort
  All-sort P [] h = tt
  All-sort P (x ∷ xs) h = All-insort P x (sort xs) h.0 (All-sort P xs h.1)

  pub length-insort : (x : A) (ys : List A) → length (insort x ys) ≡ suc (length ys)
  unfolding insort
  length-insort x [] = refl
  length-insort x (y ∷ ys) = ground (arith, length-insort x ys)

  pub length-sort : (xs : List A) → length (sort xs) ≡ length xs
  unfolding sort
  length-sort [] = refl
  length-sort (x ∷ xs) = omega (arith, length-insort x (sort xs), length-sort xs)

  any-insort : (p : A → Bool) (x : A) (ys : List A) → any p (insort x ys) ≡ (p x || any p ys)
  unfolding insort
  any-insort p x [] = refl
  any-insort p x (y ∷ ys) = ground (arith, any-insort p x ys)

  pub any-sort : (p : A → Bool) (xs : List A) → any p (sort xs) ≡ any p xs
  unfolding sort
  any-sort p [] = refl
  any-sort p (x ∷ xs) = ground (arith, any-insort p x (sort xs), any-sort p xs)

  pub sort-nil : (xs : List A) → sort xs ≡ [] → xs ≡ []
  sort-nil [] h = refl
  sort-nil (x ∷ xs) h = absurd (omega (arith, ap (length {A = A}) h, length-sort (x ∷ xs)))

-- Each item has the relation to all the items behind it.
abbrev pub IsSorted {ℓ κ} : {A : Type ℓ} → (A → A → Type κ) → List A → Type κ
IsSorted Below [] = Unit
IsSorted Below (x ∷ xs) = All (Below x) xs × IsSorted Below xs

-- Where `before` decides a relation that is transitive, the sorted list has it from each item to all
-- the items behind it.
module _ {ℓ κ} {A : Type ℓ} (before : A → A → Bool) (Below : A → A → Type κ)
    (first : (x y : A) → before x y ≡ true → Below x y)
    (second : (x y : A) → before x y ≡ false → Below y x)
    (Below_trans : (x y z : A) → Below x y → Below y z → Below x z) where
  insort-IsSorted : (x : A) (ys : List A) → IsSorted Below ys → IsSorted Below (insort before x ys)
  unfolding insort
  insort-IsSorted x [] h = (tt, tt)
  insort-IsSorted x (y ∷ ys) h = elim (Bool-cases (before y x)) [
    | inl e ↦ rw e (All-insort before (Below y) x ys (first y x e) h.0, insort-IsSorted x ys h.1)
    | inr e ↦
        let le : Below x y = second y x e in
        rw e ((le, All-map (Below y) (Below x) (λ z b. Below_trans x y z le b) ys h.0), h)
  ]

  pub sort-IsSorted : (xs : List A) → IsSorted Below (sort before xs)
  unfolding sort
  sort-IsSorted [] = tt
  sort-IsSorted (x ∷ xs) = insort-IsSorted x (sort before xs) (sort-IsSorted xs)

  pub take-IsSorted : (n : ℕ) (xs : List A) → IsSorted Below xs → IsSorted Below (take n xs)
  take-IsSorted zero xs h = tt
  take-IsSorted (suc n) [] h = tt
  take-IsSorted (suc n) (x ∷ xs) h = (All-take (Below x) n xs h.0, take-IsSorted n xs h.1)

module _ {ℓ} {A : Type ℓ} (before : A → A → Bool) where
  insort-append :
      (y x : A) (zs : List A)
      → before x y ≡ false
      → insort before y (zs ++ x ∷ []) ≡ insort before y zs ++ x ∷ []
  unfolding insort
  insort-append y x [] h = rw h
  insort-append y x (z ∷ zs) h = elim (Bool-cases (before z y)) [
    | inl e ↦ rw (e, insort-append y x zs h)
    | inr e ↦ rw e
  ]

  -- An item that is before none of the others goes to the end.
  pub sort-append_last :
      (xs : List A) (x : A)
      → All (λ y. before x y ≡ false) xs
      → sort before (xs ++ x ∷ []) ≡ sort before xs ++ x ∷ []
  unfolding sort insort
  sort-append_last [] x h = refl
  sort-append_last (y ∷ xs) x h =
      rw (sort-append_last xs x h.1) (insort-append y x (sort before xs) h.0)

  -- An item that is before all of the others goes to the front.
  pub sort-append_first :
      (xs : List A) (x : A)
      → All (λ y. before x y ≡ true) xs
      → sort before (xs ++ x ∷ []) ≡ x ∷ sort before xs
  unfolding sort insort
  sort-append_first [] x h = refl
  sort-append_first (y ∷ xs) x h = rw (sort-append_first xs x h.1) (rw h.0)
