-- ===== src/Registers/Survive.antt =====
-- What comes back from the registers that a value was written to.
use plantlens.Prelude.{
  ℕ, ◌/◌, ◌%◌, ◌<◌, ◌≡◌, refl, ap, ◌∙◌, String, Bool, true, false, some, List, [], ◌∷◌, arith,
}
use plantlens.Prelude.Integers.{ℤ, pos, negsuc}
use plantlens.Registers.{
  RegisterFloats, Value, bool, int, float, ok, bits_be, bits_le, pack_be, pack_le, scaled_float,
  decode, encode,
}

abbrev pub IsSmall : ℤ → Type 0
IsSmall (pos n) = n < 4294967296
IsSmall (negsuc n) = n < 4294967296

-- The floats hold integers of 32 bits exactly: such a number times one plus zero, or minus zero divided by
-- one, is itself.
pub record IsExact {R : Type 0} (f : RegisterFloats R) : Type 0 where
  pub one_is_one : f.eq f.one f.one ≡ true
  pub zero_is_zero : f.eq f.zero f.zero ≡ true
  pub one_is_not_zero : f.eq f.one f.zero ≡ false
  pub read : (n : ℤ) → IsSmall n → f.truncate (f.add (f.mul (f.of_int n) f.one) f.zero) ≡ some n
  pub written : (n : ℤ) → IsSmall n → f.rounded (f.div (f.sub (f.of_int n) f.zero) f.one) ≡ some n

bits_agree : (a b : ℕ) → a < 65536 → b < 65536 → bits_le (pack_le b a) ≡ bits_be (pack_be a b)
bits_agree a b h k = omega (arith, h, k)

module _ {R : Type 0} ⦃f : RegisterFloats R⦄ where
  -- The values that a codec can hold: an integer within its bits, a flag, and a number of single precision
  -- that scaling by one leaves alone.
  pub data Fits : String → Value R → Type 0 where
    uint16 : (n : ℕ) → n < 65536 → Fits "uint16" (int (pos n))
    int16 : (n : ℕ) → n < 32768 → Fits "int16" (int (pos n))
    int16_below : (n : ℕ) → n < 32768 → Fits "int16" (int (negsuc n))
    uint32 : (n : ℕ) → n < 4294967296 → Fits "uint32_be" (int (pos n))
    flag : (b : Bool) → Fits "bool" (bool b)
    single :
        (x : R) (bits : ℕ)
        → bits < 4294967296
        → f.to_single x ≡ some bits
        → f.of_single bits ≡ x
        → f.add (f.mul x f.one) f.zero ≡ x
        → Fits "float32_be" (float x)

  -- At scale one and offset zero the value is written, and what is read from the registers is the value.
  pub record Survives (codec : String) (value : Value R) : Type 0 where
    pub registers : List ℕ
    pub written : encode value codec f.one f.zero ≡ ok registers
    pub read : decode registers codec f.one f.zero ≡ ok value

module _ {R : Type 0} ⦃f : RegisterFloats R⦄ where
  -- The codec float32_le reads every sequence of registers as float32_be does, at every scale and offset.
  pub decode-float32_le :
      (registers : List ℕ) (scale offset : R)
      → decode registers "float32_le" scale offset ≡ decode registers "float32_be" scale offset
  unfolding decode
  decode-float32_le [] scale offset = refl
  decode-float32_le (a ∷ []) scale offset = refl
  decode-float32_le (a ∷ b ∷ rest) scale offset =
      ap (λ n. scaled_float scale offset (f.of_single n))
        (bits_agree (a % 65536) (b % 65536) (omega arith) (omega arith))

  -- A number of single precision that is written as float32_be comes back, at any scale and offset, as itself
  -- times the scale plus the offset: only the reading applies them.
  pub encode-float32_be :
      (x : R) (bits : ℕ) (scale offset : R)
      → bits < 4294967296
      → f.to_single x ≡ some bits
      → f.of_single bits ≡ x
      → (registers : List ℕ) × (encode (float x) "float32_be" scale offset ≡ ok registers)
        × (decode registers "float32_be" scale offset ≡ ok (float (f.add (f.mul x scale) offset)))
  unfolding encode decode
  encode-float32_be x bits scale offset small to of = (
    bits / 65536 ∷ bits % 65536 ∷ [],
    rw to refl,
    ap (λ n. scaled_float scale offset (f.of_single n)) (omega (arith, small))
        ∙ ap (scaled_float scale offset) of,
  )
