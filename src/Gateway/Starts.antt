-- ===== src/Gateway/Starts.antt =====
-- Where a frame starts in a captured stream, described apart from the scan, and what a round of the scan
-- decides about it.
use plantlens.Prelude.{
  ℕ, ◌+◌, ◌%◌, ◌≤◌, ◌<◌, ◌≡◌, ◌⊎◌, inl, inr, refl, true, none, some, List, [], ◌∷◌, arith, length,
  take, drop, leb, Bool-cases, ◌&&◌, ◌==◌, subst, Bool, false,
}
use plantlens.Gateway.Scan.{has_valid_crc, first_valid, is_read, matched}

-- A slave that may answer, asked for holding or input registers
abbrev pub IsRead : ℕ → ℕ → Type 0
IsRead slave function = (1 ≤ slave) × (slave ≤ 247) × ((function ≡ 3) ⊎ (function ≡ 4))

-- The first n bytes are there, are the frame, and end with their CRC.
abbrev pub Fronts : ℕ → List ℕ → List ℕ → Type 0
Fronts n rest frame =
    (n ≤ length rest) × (frame ≡ take n rest) × (has_valid_crc (take n rest) ≡ true)

-- The bytes start with the response that is as long as its third byte says.
abbrev pub StartsResponse : List ℕ → List ℕ → Type 0
StartsResponse [] frame = ⊥
StartsResponse (slave ∷ []) frame = ⊥
StartsResponse (slave ∷ function ∷ []) frame = ⊥
StartsResponse (slave ∷ function ∷ byte_count ∷ more) frame =
    IsRead slave function
    × ((2 ≤ byte_count) × (byte_count % 2 ≡ 0))
    × Fronts (5 + byte_count) (slave ∷ function ∷ byte_count ∷ more) frame

-- The bytes start with a request, which has eight bytes.
abbrev pub StartsRequest : List ℕ → List ℕ → Type 0
StartsRequest [] frame = ⊥
StartsRequest (slave ∷ []) frame = ⊥
StartsRequest (slave ∷ function ∷ []) frame = ⊥
StartsRequest (slave ∷ function ∷ byte_count ∷ more) frame =
    IsRead slave function × Fronts 8 (slave ∷ function ∷ byte_count ∷ more) frame

-- Where both would fit, it is the response.
abbrev pub Starts : List ℕ → List ℕ → Type 0
Starts rest frame =
    StartsResponse rest frame
    ⊎ (StartsRequest rest frame × ((other : List ℕ) → ¬ StartsResponse rest other))

-- The stream is read from its front: a frame is taken wherever one starts, another byte is skipped, and
-- fewer than five bytes end it.
pub data Reads : List ℕ → List (List ℕ) → Type 0 where
  ends : {rest : List ℕ} → length rest < 5 → Reads rest []
  skips :
      {b : ℕ} {rest : List ℕ} {frames : List (List ℕ)}
      → 5 ≤ length (b ∷ rest)
      → ((frame : List ℕ) → ¬ StartsResponse (b ∷ rest) frame)
      → ((frame : List ℕ) → ¬ StartsRequest (b ∷ rest) frame)
      → Reads rest frames
      → Reads (b ∷ rest) frames
  takes :
      {rest frame : List ℕ} {frames : List (List ℕ)}
      → 5 ≤ length rest
      → Starts rest frame
      → Reads (drop (length frame) rest) frames
      → Reads rest (frame ∷ frames)

-- What one round decides, in the terms of the description
module _ (slave function byte_count : ℕ) (more : List ℕ) where
  abbrev rest : List ℕ
  rest = slave ∷ function ∷ byte_count ∷ more

  abbrev fits : ℕ → Bool
  fits n = leb n (length rest) && has_valid_crc (take n rest)

  is_read-IsRead : is_read slave function ≡ true → IsRead slave function
  is_read-IsRead h = ground (arith, h)

  IsRead-is_read : IsRead slave function → is_read slave function ≡ true
  IsRead-is_read h = ground (arith, h.0, h.1, h.2)

  Fronts-fits : (n : ℕ) (frame : List ℕ) → Fronts n rest frame → fits n ≡ true
  Fronts-fits n frame h = ground (arith, h.0, h.2)

  fits-Fronts : (n : ℕ) → fits n ≡ true → Fronts n rest (take n rest)
  fits-Fronts n h = (ground (arith, h), refl, ground (arith, h))

  abbrev is_even : Bool
  is_even = leb 2 byte_count && (byte_count % 2 == 0)

  no_response :
      (is_read slave function && (is_even && fits (5 + byte_count))) ≡ false
      → (frame : List ℕ) → ¬ StartsResponse rest frame
  no_response h frame (read, (two, even), front) =
      ground (arith, h, IsRead-is_read read, two, even, Fronts-fits (5 + byte_count) frame front)

  no_request :
      (is_read slave function && fits 8) ≡ false → (frame : List ℕ) → ¬ StartsRequest rest frame
  no_request h frame (read, front) =
      ground (arith, h, IsRead-is_read read, Fronts-fits 8 frame front)

  matched-Starts : (frame : List ℕ) → matched rest ≡ some frame → Starts rest frame
  unfolding matched first_valid
  matched-Starts frame e = elim (Bool-cases (is_read slave function)) [
    | inr r ↦ absurd (ground (arith, e, r))
    | inl r ↦ elim (Bool-cases (is_even && fits (5 + byte_count))) [
      | inl b ↦
          let front : take (5 + byte_count) rest ≡ frame = ground (arith, e, r, b) in
          subst (Starts rest) front (
            inl (
              is_read-IsRead r,
              (ground (arith, b), ground (arith, b)),
              fits-Fronts (5 + byte_count) (ground (arith, b)),
            ))
      | inr b ↦ elim (Bool-cases (fits 8)) [
        | inl c ↦
            let front : take 8 rest ≡ frame = ground (arith, e, r, b, c) in
            subst (Starts rest) front
              (inr ((is_read-IsRead r, fits-Fronts 8 c), no_response (ground (arith, b))))
        | inr c ↦ absurd (ground (arith, e, r, b, c))
      ]
    ]
  ]

  unmatched-none :
      matched rest ≡ none
      → ((is_read slave function && (is_even && fits (5 + byte_count))) ≡ false)
        × ((is_read slave function && fits 8) ≡ false)
  unfolding matched first_valid
  unmatched-none e = elim (Bool-cases (is_read slave function)) [
    | inr r ↦ (ground (arith, r), ground (arith, r))
    | inl r ↦ elim (Bool-cases (is_even && fits (5 + byte_count))) [
      | inl b ↦ absurd (ground (arith, e, r, b))
      | inr b ↦ elim (Bool-cases (fits 8)) [
        | inl c ↦ absurd (ground (arith, e, r, b, c))
        | inr c ↦ (ground (arith, b), ground (arith, c))
      ]
    ]
  ]

pub all-Starts : (rest frame : List ℕ) → matched rest ≡ some frame → Starts rest frame
unfolding matched
all-Starts [] frame e = ground arith
all-Starts (slave ∷ []) frame e = ground arith
all-Starts (slave ∷ function ∷ []) frame e = ground arith
all-Starts (slave ∷ function ∷ byte_count ∷ more) frame e =
    matched-Starts slave function byte_count more frame e

pub unmatched-no_response :
    (rest : List ℕ) → matched rest ≡ none → (frame : List ℕ) → ¬ StartsResponse rest frame
unmatched-no_response [] e frame h = h
unmatched-no_response (slave ∷ []) e frame h = h
unmatched-no_response (slave ∷ function ∷ []) e frame h = h
unmatched-no_response (slave ∷ function ∷ byte_count ∷ more) e frame h =
    no_response slave function byte_count more (unmatched-none slave function byte_count more e).0
      frame h

pub unmatched-no_request :
    (rest : List ℕ) → matched rest ≡ none → (frame : List ℕ) → ¬ StartsRequest rest frame
unmatched-no_request [] e frame h = h
unmatched-no_request (slave ∷ []) e frame h = h
unmatched-no_request (slave ∷ function ∷ []) e frame h = h
unmatched-no_request (slave ∷ function ∷ byte_count ∷ more) e frame h =
    no_request slave function byte_count more (unmatched-none slave function byte_count more e).1
      frame h
