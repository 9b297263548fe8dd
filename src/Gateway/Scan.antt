-- ===== src/Gateway/Scan.antt =====
-- `modbus_crc`, `_has_valid_crc` and `scan_rtu_frames` of
-- deploy/uno-q/plantlens_app/python/passive_gateway.py. A scan of n bytes runs on fuel n; it takes at
-- least one byte in each round (Gateway/Recover.antt).
use Prim.Native.Nat.{bit_and, bit_or, bit_xor}
use plantlens.Prelude.{
  ℕ, zero, suc, ◌+◌, ◌-◌, ◌*◌, ◌/◌, ◌%◌, Bool, false, Option, none, some, List, [], ◌∷◌, ◌&&◌, ◌||◌,
  leb, ltb, ◌==◌, length, get_or, take, drop, if◌then◌else◌,
}

-- `((crc >> 1) ^ 0xA001) if crc & 1 else crc >> 1`
abbrev pub crc_shift : ℕ → ℕ
crc_shift crc = if bit_and crc 1 == 0 then crc / 2 else bit_xor (crc / 2) 0xA001

abbrev pub repeat : ℕ → (ℕ → ℕ) → ℕ → ℕ
repeat zero f x = x
repeat (suc n) f x = repeat n f (f x)

-- modbus_crc
unfoldable pub crc_from : ℕ → List ℕ → ℕ
crc_from crc [] = crc
crc_from crc (value ∷ bytes) = crc_from (repeat 8 crc_shift (bit_xor crc value)) bytes

unfoldable pub modbus_crc : List ℕ → ℕ
modbus_crc bytes = crc_from 0xFFFF bytes

-- _has_valid_crc
unfoldable pub has_valid_crc : List ℕ → Bool
has_valid_crc frame =
    let n = length frame in
    if ltb n 4
    then false
    else modbus_crc (take (n - 2) frame)
      == bit_or (get_or frame (n - 2) 0) (get_or frame (n - 1) 0 * 256)

-- The lengths that a frame with this byte count may have, the response's first.
abbrev pub frame_lengths : ℕ → List ℕ
frame_lengths byte_count =
    if leb 2 byte_count && (byte_count % 2 == 0) then (5 + byte_count) ∷ 8 ∷ [] else 8 ∷ []

-- The first of the lengths at which a frame with a valid CRC starts.
unfoldable pub first_valid : List ℕ → List ℕ → Option (List ℕ)
first_valid [] rest = none
first_valid (n ∷ lengths) rest =
    let later = first_valid lengths rest in
    if leb n (length rest) && has_valid_crc (take n rest) then some (take n rest) else later

abbrev pub is_read : ℕ → ℕ → Bool
is_read slave function = leb 1 slave && leb slave 247 && (function == 3 || function == 4)

-- One round of the loop: the frame that starts at the offset.
unfoldable pub matched : List ℕ → Option (List ℕ)
matched (slave ∷ function ∷ byte_count ∷ more) =
    if is_read slave function
    then first_valid (frame_lengths byte_count) (slave ∷ function ∷ byte_count ∷ more)
    else none
matched _ = none

-- The loop, with the bytes from the offset on.
unfoldable pub scan_from : ℕ → List ℕ → List (List ℕ)
scan_from zero rest = []
scan_from (suc fuel) rest = if ltb (length rest) 5 then [] else elim (matched rest) [
  | none ↦ scan_from fuel (drop 1 rest)
  | some frame ↦ frame ∷ scan_from fuel (drop (length frame) rest)
]

-- scan_rtu_frames
unfoldable pub scan_rtu_frames : List ℕ → List (List ℕ)
scan_rtu_frames raw = scan_from (length raw) raw
