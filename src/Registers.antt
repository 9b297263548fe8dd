-- ===== src/Registers.antt =====
-- apps/gateway/gateway/register_codec.py: the values that Modbus registers hold. A register is a number
-- that is not negative; a mask `& 0xFFFF` is a remainder, and `|` of disjoint bits is a sum. The platform's
-- floats are an instance argument; a single-precision number is known by its 32 bits.

pub mod Survive
use plantlens.Prelude.{
  ℕ, zero, suc, ◌+◌, ◌-◌, ◌*◌, ◌/◌, ◌%◌, String, Bool, true, false, Option, none, some, List, [],
  ◌∷◌, ltb, ◌==◌, not, ◌&&◌, ◌||◌, str_eq, if◌then◌else◌,
}
use plantlens.Prelude.Integers.{ℤ, pos, negsuc}

pub record RegisterFloats (R : Type 0) : Type 0 where
  pub of_int : ℤ → R
  pub eq : R → R → Bool
  pub add : R → R → R
  pub sub : R → R → R
  pub mul : R → R → R
  pub div : R → R → R
  pub zero : R
  pub one : R
  -- `int(x)` and `int(round(x))`; `none` stands for the exception of an infinity or NaN
  pub truncate : R → Option ℤ
  pub rounded : R → Option ℤ
  -- The number with the 32 bits, and the bits of the nearest number; `none` stands for the
  -- `OverflowError` of `struct.pack`
  pub of_single : ℕ → R
  pub to_single : R → Option ℕ

pub data Value (R : Type 0) : Type 0 where
  bool : Bool → Value R
  int : ℤ → Value R
  float : R → Value R

-- What `decode` and `encode` leave: a result, a `CodecError`, or another exception of a conversion.
pub data Outcome (A : Type 0) : Type 0 where
  ok : A → Outcome A
  codec_error conversion_error : Outcome A

abbrev pub converted : {A B : Type 0} → (A → B) → Option A → Outcome B
converted g none = conversion_error
converted g (some a) = ok (g a)

-- n & 0xFFFF
abbrev pub low_word : ℤ → ℕ
low_word (pos n) = n % 65536
low_word (negsuc n) = 65535 - n % 65536

-- (n >> 16) & 0xFFFF
abbrev pub high_word : ℤ → ℕ
high_word (pos n) = n / 65536 % 65536
high_word (negsuc n) = 65535 - n / 65536 % 65536

pub record Bytes : Type 0 where
  pub b0 : ℕ
  pub b1 : ℕ
  pub b2 : ℕ
  pub b3 : ℕ

-- struct.pack(">HH", a, b) and struct.pack("<HH", a, b) of two 16-bit numbers
abbrev pub pack_be : ℕ → ℕ → Bytes
pack_be a b = record { b0 = a / 256; b1 = a % 256; b2 = b / 256; b3 = b % 256 }

abbrev pub pack_le : ℕ → ℕ → Bytes
pack_le a b = record { b0 = a % 256; b1 = a / 256; b2 = b % 256; b3 = b / 256 }

-- The 32 bits that struct.unpack reads with ">" and with "<"
abbrev pub bits_be : Bytes → ℕ
bits_be s = s.b0 * 16777216 + s.b1 * 65536 + s.b2 * 256 + s.b3

abbrev pub bits_le : Bytes → ℕ
bits_le s = s.b0 + s.b1 * 256 + s.b2 * 65536 + s.b3 * 16777216

-- The two's complement of 32 bits
abbrev pub signed32 : ℕ → ℤ
signed32 n = if ltb n 2147483648 then pos n else negsuc (4294967295 - n)

-- The `raw` of the codec int16
abbrev pub signed16 : ℕ → ℤ
signed16 n =
    if ltb 32767 n then (if ltb n 65536 then negsuc (65535 - n) else pos (n - 65536)) else pos n

-- _require_length: the first one or two registers
abbrev pub one_word : {A : Type 0} → (ℕ → Outcome A) → List ℕ → Outcome A
one_word k [] = codec_error
one_word k (a ∷ rest) = k a

abbrev pub two_words : {A : Type 0} → (ℕ → ℕ → Outcome A) → List ℕ → Outcome A
two_words k [] = codec_error
two_words k (a ∷ []) = codec_error
two_words k (a ∷ b ∷ rest) = k a b

module _ {R : Type 0} ⦃f : RegisterFloats R⦄ where
  -- _scaled_number
  unfoldable pub scaled_number : R → R → ℤ → Outcome (Value R)
  scaled_number scale offset raw =
      let value = f.add (f.mul (f.of_int raw) scale) offset in
      if f.eq scale f.one && f.eq offset f.zero
      then converted int (f.truncate value)
      else ok (float value)

  -- `float(raw * scale + offset)`
  abbrev pub scaled_float : R → R → R → Outcome (Value R)
  scaled_float scale offset raw = ok (float (f.add (f.mul raw scale) offset))

  -- decode
  unfoldable pub decode : List ℕ → String → R → R → Outcome (Value R)
  decode registers codec scale offset =
      if str_eq codec "uint16"
      then one_word (λ a. scaled_number scale offset (pos (a % 65536))) registers
      else if str_eq codec "int16"
      then one_word (λ a. scaled_number scale offset (signed16 a)) registers
      else if str_eq codec "uint32_be"
      then two_words (λ a b. scaled_number scale offset (pos (a * 65536 + b % 65536))) registers
      else if str_eq codec "int32_be"
      then two_words
          (λ a b. scaled_number scale offset (signed32 (bits_be (pack_be (a % 65536) (b % 65536)))))
          registers
      else if str_eq codec "float32_be"
      then two_words
          (λ a b.
            scaled_float scale offset (f.of_single (bits_be (pack_be (a % 65536) (b % 65536)))))
          registers
      else if str_eq codec "float32_cdab"
      then two_words
          (λ a b.
            scaled_float scale offset (f.of_single (bits_be (pack_be (b % 65536) (a % 65536)))))
          registers
      else if str_eq codec "float32_le"
      then two_words
          (λ a b.
            scaled_float scale offset (f.of_single (bits_le (pack_le (b % 65536) (a % 65536)))))
          registers
      else if str_eq codec "bool"
      then one_word (λ a. ok (bool (not (a == 0)))) registers
      else codec_error

  abbrev pub is_true : Value R → Bool
  is_true (bool b) = b
  is_true (int (pos n)) = not (n == 0)
  is_true (int (negsuc n)) = true
  is_true (float x) = not (f.eq x f.zero)

  -- float(value)
  abbrev pub as_float : Value R → R
  as_float (bool b) = f.of_int (pos (if b then 1 else 0))
  as_float (int n) = f.of_int n
  as_float (float x) = x

  -- int(value)
  abbrev pub as_int : Value R → Option ℤ
  as_int (bool b) = some (pos (if b then 1 else 0))
  as_int (int n) = some n
  as_int (float x) = f.truncate x

  -- The `raw` of the integer codecs
  abbrev pub raw_of : Value R → R → R → Option ℤ
  raw_of value scale offset =
      if not (f.eq scale f.zero)
      then f.rounded (f.div (f.sub (as_float value) offset) scale)
      else as_int value

  -- encode
  unfoldable pub encode : Value R → String → R → R → Outcome (List ℕ)
  encode value codec scale offset =
      if str_eq codec "bool"
      then ok ((if is_true value then 1 else 0) ∷ [])
      else if str_eq codec "uint16" || str_eq codec "int16"
      then converted (λ raw. low_word raw ∷ []) (raw_of value scale offset)
      else if str_eq codec "float32_be"
      then converted (λ bits. bits / 65536 ∷ bits % 65536 ∷ []) (f.to_single (as_float value))
      else if str_eq codec "uint32_be"
      then converted (λ raw. high_word raw ∷ low_word raw ∷ []) (raw_of value scale offset)
      else codec_error
