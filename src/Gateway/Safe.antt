-- ===== src/Gateway/Safe.antt =====
-- The listener never reads past the end of a frame that its scan found, and numbers its observations.
use Prim.Native.Nat.{bit_or}
use plantlens.Prelude.{
  ℕ, zero, suc, ◌+◌, ◌*◌, ◌≤◌, ◌<◌, ◌≡◌, inl, inr, refl, Option, none, some, List, [], ◌∷◌, ◌++◌,
  arith, length, length-append, get_elem?, ◌==◌, ◌&&◌, Bool-cases, All, ap, sym, subst,
}
use plantlens.Gateway.Scan.{scan_rtu_frames}
use plantlens.Gateway.Decode.{
  RegisterTable, TagId, store_word, Observation, PassiveGateway, Request, Decoded, word_at,
  store_words, note_request, answer, decode_frame, decode, pending_of, table_of, then_do, ◌>>=◌,
}
use plantlens.Gateway.Recover.{IsFrame, scan_rtu_frames-Reads}

-- The sequence numbers are those that follow n.
abbrev pub Numbered : ℕ → List Observation → Type 0
Numbered n [] = Unit
Numbered n (o ∷ more) = (o.seq ≡ suc n) × Numbered (suc n) more

pub record Publishes (s t : PassiveGateway) (out : List Observation) : Type 0 where
  pub seq : t.seq ≡ s.seq + length out
  pub updates : t.register_updates ≡ s.register_updates + length out
  pub numbered : Numbered s.seq out

pub record Returns (s : PassiveGateway) (r : Option Decoded) : Type 0 where
  pub after : PassiveGateway
  pub out : List Observation
  pub result : r ≡ some (after, out)
  pub publishes : Publishes s after out

Numbered-append :
    (n : ℕ) (a b : List Observation)
    → Numbered n a
    → Numbered (n + length a) b
    → Numbered n (a ++ b)
Numbered-append n [] b h k = subst (λ m. Numbered m b) (omega arith) k
Numbered-append n (o ∷ a) b h k =
    (h.0, Numbered-append (suc n) a b h.1 (subst (λ m. Numbered m b) (omega arith) k))

Publishes-append :
    (s t u : PassiveGateway) (a b : List Observation)
    → Publishes s t a
    → Publishes t u b
    → Publishes s u (a ++ b)
Publishes-append s t u a b h k = record {
  seq = omega (arith, h.seq, k.seq, length-append a b);
  updates = omega (arith, h.updates, k.updates, length-append a b);
  numbered = Numbered-append s.seq a b h.numbered (subst (λ m. Numbered m b) h.seq k.numbered);
}

then_do-Returns :
    (s t : PassiveGateway) (a : List Observation) (next : PassiveGateway → Option Decoded)
    → Publishes s t a
    → Returns t (next t)
    → Returns s (then_do (t, a) next)
then_do-Returns s t a next h k = record {
  after = k.after;
  out = a ++ k.out;
  result = ap (λ r. r >>= λ d. some (d.0, a ++ d.1)) k.result;
  publishes = Publishes-append s t k.after a k.out h k.publishes;
}

bind-Returns :
    {A : Type 0} (s : PassiveGateway) (o : Option A) (a : A) (k : A → Option Decoded)
    → o ≡ some a
    → Returns s (k a)
    → Returns s (o >>= k)
bind-Returns s o a k e r = subst (λ m. Returns s (m >>= k)) (sym e) r

nothing :
    (s t : PassiveGateway)
    → t.seq ≡ s.seq
    → t.register_updates ≡ s.register_updates
    → Publishes s t []
nothing s t e d = record { seq = omega (arith, e); updates = omega (arith, d); numbered = tt }

get_elem?-some : (xs : List ℕ) (i : ℕ) → i < length xs → (x : ℕ) × (get_elem? xs i ≡ some x)
get_elem?-some [] i h = absurd (omega (arith, h))
get_elem?-some (x ∷ xs) zero h = (x, refl)
get_elem?-some (x ∷ xs) (suc i) h = get_elem?-some xs i (omega (arith, h))

word_at-some :
    (frame : List ℕ) (pos : ℕ) → suc pos < length frame → (w : ℕ) × (word_at frame pos ≡ some w)
word_at-some frame pos h =
    let (hi, e) = get_elem?-some frame pos (omega (arith, h)) in
    let (lo, d) = get_elem?-some frame (suc pos) h in (bit_or (hi * 256) lo, rw (e, d) refl)

store_words-Returns :
    (now slave : ℕ) (table : RegisterTable) (address : ℕ) (frame : List ℕ) (index left : ℕ)
    (s : PassiveGateway)
    → 3 + (index + left) * 2 ≤ length frame
    → Returns s (store_words now slave table address frame index left s)
unfolding store_words
store_words-Returns now slave table address frame index zero s h = record {
  after = s;
  out = [];
  result = refl;
  publishes = nothing s s refl refl;
}
store_words-Returns now slave table address frame index (suc left) s h =
    let (w, e) = word_at-some frame (3 + index * 2) (omega (arith, h)) in
    let tag : TagId = record { slave = slave; table = table; register = address + index } in
    let d = store_word now tag w s in
    bind-Returns s (word_at frame (3 + index * 2)) w _ e (
      then_do-Returns s d.0 d.1 (λ t. store_words now slave table address frame (suc index) left t)
        (record { seq = omega arith; updates = omega arith; numbered = (refl, tt) })
        (store_words-Returns now slave table address frame (suc index) left d.0 (omega (arith, h))))

note_request-Returns :
    (slave function : ℕ) (frame : List ℕ) (s : PassiveGateway)
    → length frame ≡ 8
    → Returns s (note_request slave function frame s)
unfolding note_request
note_request-Returns slave function frame s h =
    let (address, e) = word_at-some frame 2 (omega (arith, h)) in
    let (count, d) = word_at-some frame 4 (omega (arith, h)) in
    bind-Returns s (word_at frame 2) address _ e (
      bind-Returns s (word_at frame 4) count _ d
        (record { after = _; out = []; result = refl; publishes = nothing s _ refl refl }))

-- A response is read only if its byte count is that of the requested words, all of which are there.
answer-Returns :
    (now slave function : ℕ) (frame : List ℕ) (n : ℕ) (request : Option Request)
    (s : PassiveGateway)
    → get_elem? frame 2 ≡ some n
    → length frame ≡ 5 + n
    → Returns s (answer now slave function frame request s)
unfolding answer
answer-Returns now slave function frame n none s e size = record {
  after = s;
  out = [];
  result = refl;
  publishes = nothing s s refl refl;
}
answer-Returns now slave function frame n (some r) s e size =
    bind-Returns s (get_elem? frame 2) n _ e
      (elim (Bool-cases ((function == r.function) && (n == r.count * 2))) [
        | inl t ↦
            let s' = record s { response_frames = suc s.response_frames } in
            let k =
              store_words-Returns now slave (table_of function) r.address frame 0 r.count s'
                (ground (arith, size)) in
            rw t (record {
              after = k.after;
              out = k.out;
              result = k.result;
              publishes = record {
                seq = k.publishes.seq;
                updates = k.publishes.updates;
                numbered = k.publishes.numbered;
              };
            })
        | inr t ↦
            rw t (record { after = s; out = []; result = refl; publishes = nothing s s refl refl })
      ])

decode_frame-Returns :
    (now : ℕ) (frame : List ℕ) (s : PassiveGateway)
    → IsFrame frame
    → Returns s (decode_frame now frame s)
unfolding decode_frame
decode_frame-Returns now frame s f = bind-Returns s (get_elem? frame 0) f.slave _ f.at_slave (
    bind-Returns s (get_elem? frame 1) f.function _ f.at_function
      (elim (Bool-cases (length frame == 8)) [
        | inl e ↦ rw e (note_request-Returns f.slave f.function frame s (ground arith))
        | inr e ↦ rw e (elim f.size [
          | inl size ↦ ground (arith, size)
          | inr (n, third, size) ↦
              answer-Returns now f.slave f.function frame n (pending_of f.slave s.pending) s third
                size
        ])
      ]))

decode-Returns :
    (now : ℕ) (frames : List (List ℕ)) (s : PassiveGateway)
    → All IsFrame frames
    → Returns s (decode now frames s)
unfolding decode
decode-Returns now [] s h = record {
  after = s;
  out = [];
  result = refl;
  publishes = nothing s s refl refl;
}
decode-Returns now (frame ∷ frames) s h =
    let first = decode_frame-Returns now frame s h.0 in
    bind-Returns s (decode_frame now frame s) (first.after, first.out) _ first.result
      (then_do-Returns s first.after first.out (λ t. decode now frames t) first.publishes
        (decode-Returns now frames first.after h.1))

-- Whatever bytes were captured and whatever requests are pending, decoding the frames that the scan
-- finds never reads past the end of a frame; the sequence numbers of the observations that it returns
-- are the next ones in a row, and the gateway's sequence number and its count of updates grow by the
-- number of the observations.
pub captured_decode-Returns :
    (now : ℕ) (raw : List ℕ) (s : PassiveGateway) → Returns s (decode now (scan_rtu_frames raw) s)
captured_decode-Returns now raw s =
    decode-Returns now (scan_rtu_frames raw) s (scan_rtu_frames-Reads raw).1
