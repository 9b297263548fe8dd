-- ===== src/Prelude/Floats.antt =====
-- Python's `float`: the type and the operations that the program applies are parameters, since the
-- number format is the platform's. `ltb`, `leb` and `eqb` are `<`, `<=` and `==`.
use mathlib.Core.Path.{◌≡◌}
use mathlib.Core.Bool.{Bool, true, false}
use mathlib.Core.Option.{Option}
use Prim.Native.Nat.{ℕ}
use Prim.Native.String.{String}
use plantlens.Prelude.Tests.{if◌then◌else◌}

pub record FloatOps (R : Type 0) : Type 0 where
  pub lt : R → R → Bool
  pub le : R → R → Bool
  pub eq : R → R → Bool
  pub add : R → R → R
  pub sub : R → R → R
  pub mul : R → R → R
  pub div : R → R → R
  pub abs : R → R
  -- `timedelta(microseconds=n).total_seconds()`
  pub seconds : ℕ → R
  -- `float(n)` of an integer
  pub of_nat : ℕ → R
  -- The literal with the digits `n`, `k` of them behind the point: `decimal 5 2` is 0.05.
  pub decimal : ℕ → ℕ → R
  -- `round(x, n)`
  pub round : R → ℕ → R
  -- `float(s)` of a text; `none` stands for the `ValueError`
  pub parse : String → Option R

module _ {R : Type 0} ⦃f : FloatOps R⦄ where
  -- `max(a, b)` and `min(a, b)`: the first, unless the second is beyond it
  abbrev pub float_max : R → R → R
  float_max a b = if f.lt a b then b else a

  abbrev pub float_min : R → R → R
  float_min a b = if f.lt b a then b else a

-- The order of floats, none of which is NaN: `<` is asymmetric, equal numbers are not below one
-- another, and what is not below composes.
pub record IsOrdered {R : Type 0} (f : FloatOps R) : Type 0 where
  pub asym : (a b : R) → f.lt a b ≡ true → f.lt b a ≡ false
  pub eq_left : (a b : R) → f.eq a b ≡ true → f.lt a b ≡ false
  pub eq_right : (a b : R) → f.eq a b ≡ true → f.lt b a ≡ false
  pub not_below_trans : (a b c : R) → f.lt a b ≡ false → f.lt b c ≡ false → f.lt a c ≡ false
