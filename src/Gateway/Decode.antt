-- ===== src/Gateway/Decode.antt =====
-- `PassiveGateway._decode` of deploy/uno-q/plantlens_app/python/passive_gateway.py with the attributes
-- that it changes. A tag id is the triple that the code formats into a text; the constant fields of an
-- observation and those that follow from the triple are left out. `none` stands for an IndexError.
use Prim.Native.Nat.{bit_or}
use plantlens.Prelude.{
  ℕ, zero, suc, ◌+◌, ◌*◌, Option, none, some, List, [], ◌∷◌, ◌++◌, ◌&&◌, ◌==◌, length, get_elem?,
  if◌then◌else◌,
}

infixl 20 ◌>>=◌
abbrev pub ◌>>=◌ : {A B : Type 0} → Option A → (A → Option B) → Option B
none >>= k = none
(some a) >>= k = k a

pub data RegisterTable : Type 0 where
  holding input : RegisterTable

pub record TagId : Type 0 where
  pub slave : ℕ
  pub table : RegisterTable
  pub register : ℕ

pub record Observation : Type 0 where
  pub tag_id : TagId
  pub value : ℕ
  pub timestamp : ℕ
  pub seq : ℕ

pub record Request : Type 0 where
  pub function : ℕ
  pub address : ℕ
  pub count : ℕ

-- A dictionary is the list of its writes, the last one in front.
pub record PassiveGateway : Type 0 where
  pub pending : List (ℕ × Request)
  pub registers : List (TagId × Observation)
  pub seq : ℕ
  pub request_frames : ℕ
  pub response_frames : ℕ
  pub register_updates : ℕ

abbrev pub pending_of : ℕ → List (ℕ × Request) → Option Request
pending_of slave [] = none
pending_of slave ((s, r) ∷ more) = if s == slave then some r else pending_of slave more

abbrev pub table_of : ℕ → RegisterTable
table_of function = if function == 3 then holding else input

abbrev pub Decoded : Type 0
Decoded = PassiveGateway × List Observation

-- One round of the loop over the words of a response.
abbrev pub store_word : ℕ → TagId → ℕ → PassiveGateway → Decoded
store_word now tag word s =
    let row : Observation = record {
      tag_id = tag;
      value = word;
      timestamp = now;
      seq = suc s.seq;
    } in
    (
      record s {
        seq = suc s.seq;
        registers = (tag, row) ∷ s.registers;
        register_updates = suc s.register_updates;
      },
      row ∷ [],
    )

abbrev pub then_do : Decoded → (PassiveGateway → Option Decoded) → Option Decoded
then_do (s, out) next = do (t, more) ← next s; some (t, out ++ more)

-- `(frame[pos] << 8) | frame[pos + 1]`
abbrev pub word_at : List ℕ → ℕ → Option ℕ
word_at frame pos = do
  hi ← get_elem? frame pos
  lo ← get_elem? frame (suc pos)
  some (bit_or (hi * 256) lo)

-- The loop over the words from `index` on, `left` of them.
unfoldable pub store_words :
    ℕ → ℕ → RegisterTable → ℕ → List ℕ → ℕ → ℕ → PassiveGateway → Option Decoded
store_words now slave table address frame index zero s = some (s, [])
store_words now slave table address frame index (suc left) s = do
  word ← word_at frame (3 + index * 2)
  then_do
      (store_word now (record { slave = slave; table = table; register = address + index }) word s)
      (λ t. store_words now slave table address frame (suc index) left t)

-- A frame of eight bytes is a request.
unfoldable pub note_request : ℕ → ℕ → List ℕ → PassiveGateway → Option Decoded
note_request slave function frame s = do
  address ← word_at frame 2
  count ← word_at frame 4
  some (
    record s {
      pending =
          (slave, record { function = function; address = address; count = count }) ∷ s.pending;
      request_frames = suc s.request_frames;
    },
    [],
  )

-- A response counts only against the last request to its slave.
unfoldable pub answer : ℕ → ℕ → ℕ → List ℕ → Option Request → PassiveGateway → Option Decoded
answer now slave function frame none s = some (s, [])
answer now slave function frame (some r) s = do
  byte_count ← get_elem? frame 2
  (if (function == r.function) && (byte_count == r.count * 2)
      then store_words now slave (table_of function) r.address frame 0 r.count
          (record s { response_frames = suc s.response_frames })
      else some (s, []))

-- The body of the loop over the frames.
unfoldable pub decode_frame : ℕ → List ℕ → PassiveGateway → Option Decoded
decode_frame now frame s = do
  slave ← get_elem? frame 0
  function ← get_elem? frame 1
  (if length frame == 8
      then note_request slave function frame s
      else answer now slave function frame (pending_of slave s.pending) s)

-- _decode
unfoldable pub decode : ℕ → List (List ℕ) → PassiveGateway → Option Decoded
decode now [] s = some (s, [])
decode now (frame ∷ frames) s = do
  d ← decode_frame now frame s
  then_do d (λ t. decode now frames t)
