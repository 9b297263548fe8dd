-- ===== src/Tests/Numbers.antt =====
-- A number format for the tests: thousandths, from 0 up.
use plantlens.Prelude.{ℕ, ◌+◌, ◌-◌, ◌*◌, ◌/◌, ◌^◌, none, arith, FloatOps, IsOrdered, ltb, leb, ◌==◌}

instance abbrev pub thousandths : FloatOps ℕ
thousandths = record {
  lt = ltb;
  le = leb;
  eq = λ a b. a == b;
  add = λ a b. a + b;
  sub = λ a b. a - b;
  mul = λ a b. a * b / 1000;
  div = λ a b. a * 1000 / b;
  abs = λ a. a;
  seconds = λ n. n / 1000;
  of_nat = λ n. n * 1000;
  decimal = λ n k. n * 1000 / 10 ^ k;
  round = λ a n. a;
  parse = λ s. none;
}

pub thousandths-IsOrdered : IsOrdered thousandths
thousandths-IsOrdered = record {
  asym = λ a b h. ground arith;
  eq_left = λ a b h. ground arith;
  eq_right = λ a b h. ground arith;
  not_below_trans = λ a b c h k. ground arith;
}
