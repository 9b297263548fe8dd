-- ===== src/Tests/Registers.antt =====
-- Registers with whole numbers in the place of floats.
use plantlens.Prelude.{
  List, ℕ, zero, suc, ◌+◌, ◌-◌, ◌*◌, ◌/◌, ◌≡◌, refl, Bool, false, Option, none, some, [], ◌∷◌,
  arith, ltb, ◌==◌, if◌then◌else◌,
}
use plantlens.Prelude.Integers.{ℤ, pos, negsuc}
use plantlens.Registers.{RegisterFloats, encode, float, int, ok, codec_error, decode, scaled_number}
use plantlens.Registers.Survive.{encode-float32_be, decode-float32_le}

abbrev minus : ℕ → ℤ
minus zero = pos 0
minus (suc n) = negsuc n

abbrev plus : ℤ → ℤ → ℤ
plus (pos a) (pos b) = pos (a + b)
plus (pos a) (negsuc b) = if ltb b a then pos (a - suc b) else minus (suc b - a)
plus (negsuc a) (pos b) = if ltb a b then pos (b - suc a) else minus (suc a - b)
plus (negsuc a) (negsuc b) = negsuc (suc (a + b))

abbrev opposite : ℤ → ℤ
opposite (pos n) = minus n
opposite (negsuc n) = pos (suc n)

abbrev times : ℤ → ℤ → ℤ
times (pos a) (pos b) = pos (a * b)
times (pos a) (negsuc b) = minus (a * suc b)
times (negsuc a) (pos b) = minus (suc a * b)
times (negsuc a) (negsuc b) = pos (suc a * suc b)

abbrev over : ℤ → ℤ → ℤ
over (pos a) (pos b) = pos (a / b)
over (pos a) (negsuc b) = minus (a / suc b)
over (negsuc a) (pos b) = minus (suc a / b)
over (negsuc a) (negsuc b) = pos (suc a / suc b)

abbrev same : ℤ → ℤ → Bool
same (pos a) (pos b) = a == b
same (negsuc a) (negsuc b) = a == b
same _ _ = false

abbrev single_bits : ℤ → Option ℕ
single_bits (pos n) = if ltb n 4294967296 then some n else none
single_bits (negsuc n) = none

instance abbrev whole : RegisterFloats ℤ
whole = record {
  of_int = λ n. n;
  eq = same;
  add = plus;
  sub = λ a b. plus a (opposite b);
  mul = times;
  div = over;
  zero = pos 0;
  one = pos 1;
  truncate = some;
  rounded = some;
  of_single = pos;
  to_single = single_bits;
}

minus_two_read : decode (65534 ∷ []) "int16" (pos 1) (pos 0) ≡ ok (int (negsuc 1))
unfolding decode scaled_number
minus_two_read = refl

short_read : decode (1 ∷ []) "uint32_be" (pos 1) (pos 0) ≡ codec_error
unfolding decode
short_read = refl

decode-float32_le_example :
    decode (16457 ∷ 4059 ∷ []) "float32_le" (pos 1) (pos 0)
    ≡ decode (16457 ∷ 4059 ∷ []) "float32_be" (pos 1) (pos 0)
decode-float32_le_example = decode-float32_le (16457 ∷ 4059 ∷ []) (pos 1) (pos 0)

encode-float32_be_example :
    (registers : List ℕ) × (encode (float (pos 5)) "float32_be" (pos 2) (pos 3) ≡ ok registers)
    × (decode registers "float32_be" (pos 2) (pos 3)
        ≡ ok (float (plus (times (pos 5) (pos 2)) (pos 3))))
encode-float32_be_example = encode-float32_be (pos 5) 5 (pos 2) (pos 3) (omega arith) refl refl
