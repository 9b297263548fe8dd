-- ===== src/Gateway/Recover.antt =====
-- The scan of a captured stream against a description of what is to be found in it.
use plantlens.Prelude.{
  ℕ, zero, suc, ◌+◌, ◌%◌, ◌≤◌, ◌<◌, ◌≡◌, ◌⊎◌, inl, inr, refl, true, some, List, [], ◌∷◌, arith,
  length, take, drop, get_elem?, leb, ltb, Bool-cases, Option-cases, All, length-take, length-drop,
  ltb→lt, ◌&&◌, ◌==◌, ap, sym, ◌∙◌,
}
use plantlens.Gateway.Scan.{
  has_valid_crc, first_valid, frame_lengths, is_read, matched, scan_from, scan_rtu_frames,
}
use plantlens.Gateway.Starts.{
  Reads, ends, skips, takes, all-Starts, unmatched-no_response, unmatched-no_request,
}

-- A request, or the response of as many bytes as its byte count announces, with a valid CRC.
pub record IsFrame (frame : List ℕ) : Type 0 where
  pub crc : has_valid_crc frame ≡ true
  pub slave : ℕ
  pub at_slave : get_elem? frame 0 ≡ some slave
  pub function : ℕ
  pub at_function : get_elem? frame 1 ≡ some function
  pub read : is_read slave function ≡ true
  pub size : (length frame ≡ 8) ⊎ ((n : ℕ) × (get_elem? frame 2 ≡ some n) × (length frame ≡ 5 + n))

get_elem?-take : (n i : ℕ) (xs : List ℕ) → i < n → get_elem? (take n xs) i ≡ get_elem? xs i
get_elem?-take zero i xs h = absurd (omega (arith, h))
get_elem?-take (suc n) i [] h = refl
get_elem?-take (suc n) zero (x ∷ xs) h = refl
get_elem?-take (suc n) (suc i) (x ∷ xs) h = get_elem?-take n i xs (omega (arith, h))

byte_at :
    (n : ℕ) (rest frame : List ℕ)
    → frame ≡ take n rest
    → (i : ℕ) → i < n
    → get_elem? frame i ≡ get_elem? rest i
byte_at n rest frame front i h = ap (λ l. get_elem? l i) front ∙ get_elem?-take n i rest h

first_valid_lem :
    (P : ℕ → Type 0) (lengths rest frame : List ℕ)
    → All P lengths
    → first_valid lengths rest ≡ some frame
    → (n : ℕ) × P n × (frame ≡ take n rest) × (n ≤ length rest) × (has_valid_crc frame ≡ true)
unfolding first_valid
first_valid_lem P [] rest frame h e = ground arith
first_valid_lem P (n ∷ lengths) rest frame h e =
    elim (Bool-cases (leb n (length rest) && has_valid_crc (take n rest))) [
      | inl t ↦ (n, h.0, ground arith, ground arith, ground arith)
      | inr f ↦ first_valid_lem P lengths rest frame h.1 (ground arith)
    ]

frame_lengths-All :
    (byte_count : ℕ) → All (λ n. (n ≡ 8) ⊎ (n ≡ 5 + byte_count)) (frame_lengths byte_count)
frame_lengths-All byte_count = elim (Bool-cases (leb 2 byte_count && (byte_count % 2 == 0))) [
  | inl e ↦ rw e (inr refl, (inl refl, tt))
  | inr e ↦ rw e (inl refl, tt)
]

-- What the scan takes for a frame is the front of the bytes that are left.
matched-IsFrame :
    (rest frame : List ℕ)
    → matched rest ≡ some frame
    → IsFrame frame × (take (length frame) rest ≡ frame) × (1 ≤ length frame)
unfolding matched
matched-IsFrame [] frame e = ground arith
matched-IsFrame (slave ∷ []) frame e = ground arith
matched-IsFrame (slave ∷ function ∷ []) frame e = ground arith
matched-IsFrame (slave ∷ function ∷ byte_count ∷ more) frame e =
    let rest = slave ∷ function ∷ byte_count ∷ more in
    let (n, size, front, fits, crc) =
      first_valid_lem (λ n. (n ≡ 8) ⊎ (n ≡ 5 + byte_count)) (frame_lengths byte_count) rest frame
        (frame_lengths-All byte_count) (ground arith) in
    let third : get_elem? frame 2 ≡ some byte_count =
      byte_at n rest frame front 2 (ground (arith, size)) in
    let long : length frame ≡ n = ground (arith, length-take n rest) in
    (
      record {
        crc = crc;
        slave = slave;
        at_slave = byte_at n rest frame front 0 (ground (arith, size));
        function = function;
        at_function = byte_at n rest frame front 1 (ground (arith, size));
        read = elim (Bool-cases (is_read slave function)) [ inl r ↦ r | inr r ↦ ground arith ];
        size = elim size [ inl s ↦ inl (long ∙ s) | inr s ↦ inr (byte_count, third, long ∙ s) ];
      },
      ap (λ k. take k rest) long ∙ sym front,
      ground (arith, long, size),
    )

scan_from-Reads : (fuel : ℕ) (rest : List ℕ) → length rest ≤ fuel → Reads rest (scan_from fuel rest)
unfolding scan_from
scan_from-Reads zero rest h = ends (omega (arith, h))
scan_from-Reads (suc fuel) [] h = ends (omega arith)
scan_from-Reads (suc fuel) (b ∷ rest) h = elim (Bool-cases (ltb (length (b ∷ rest)) 5)) [
  | inl e ↦ rw e (ends (ltb→lt _ _ e))
  | inr e ↦ elim (Option-cases (matched (b ∷ rest))) [
    | inl m ↦
        rw (e, m)
          (skips (ground arith) (unmatched-no_response (b ∷ rest) m)
            (unmatched-no_request (b ∷ rest) m) (scan_from-Reads fuel rest (omega (arith, h))))
    | inr (frame, m) ↦
        let (_, front, some_bytes) = matched-IsFrame (b ∷ rest) frame m in
        rw (e, m)
          (takes (ground arith) (all-Starts (b ∷ rest) frame m) (
            scan_from-Reads fuel (drop (length frame) (b ∷ rest))
              (omega (arith, h, some_bytes, length-drop (length frame) (b ∷ rest)))))
  ]
]

scan_from-IsFrame : (fuel : ℕ) (rest : List ℕ) → All IsFrame (scan_from fuel rest)
unfolding scan_from
scan_from-IsFrame zero rest = tt
scan_from-IsFrame (suc fuel) rest = elim (Bool-cases (ltb (length rest) 5)) [
  | inl e ↦ rw e tt
  | inr e ↦ elim (Option-cases (matched rest)) [
    | inl m ↦ rw (e, m) (scan_from-IsFrame fuel (drop 1 rest))
    | inr (frame, m) ↦
        rw (e, m)
          ((matched-IsFrame rest frame m).0, scan_from-IsFrame fuel (drop (length frame) rest))
  ]
]

-- The scan reads the captured bytes from the front to the end: where a request or a response starts, its
-- bytes with a valid CRC, it takes it, the response where both would fit; elsewhere it skips one byte, and
-- it stops with fewer than five bytes left. And everything that it takes is a read request or response
-- with a valid CRC and the length of its kind.
pub scan_rtu_frames-Reads :
    (raw : List ℕ) → Reads raw (scan_rtu_frames raw) × All IsFrame (scan_rtu_frames raw)
unfolding scan_rtu_frames
scan_rtu_frames-Reads raw =
    let r : Reads raw (scan_from (length raw) raw) =
      scan_from-Reads (length raw) raw (omega arith) in
    (r, scan_from-IsFrame (length raw) raw)
