-- ===== src/State.antt =====
-- apps/api/app/runtime/runtime_state.py: the latest frame of each tag, the identity keys that were
-- seen, and the active alarms. The situations, the calm card, the evidence packet and the asset
-- status, which the stages behind the alarms write, are not part of this model of the state.
pub mod Dedupe
use plantlens.Prelude.{
  ℕ, String, Bool, true, false, Option, none, some, List, [], ◌∷◌, ◌&&◌, ◌+◌, ◌*◌, ltb, ◌==◌,
  str_eq, any, if◌then◌else◌,
}
use plantlens.Prelude.Dict.{Dict, lookup, insert}
use plantlens.Frame.{
  TagSource, TagFrame, simulator, modbus_rtu, modbus_tcp, manual, backfill, is_degraded,
}
use plantlens.Records.{AlarmRecord}

-- (source, tag_id, seq, timestamp)
pub record IdentityKey : Type 0 where
  pub source : TagSource
  pub tag_id : String
  pub seq : Option ℕ
  pub timestamp : ℕ

-- TagFrame.identity_key
abbrev pub identity_key : {R : Type 0} → TagFrame R → IdentityKey
identity_key frame = record {
  source = frame.source;
  tag_id = frame.tag_id;
  seq = frame.seq;
  timestamp = frame.timestamp;
}

abbrev pub source_eq : TagSource → TagSource → Bool
source_eq simulator simulator = true
source_eq modbus_rtu modbus_rtu = true
source_eq modbus_tcp modbus_tcp = true
source_eq manual manual = true
source_eq backfill backfill = true
source_eq _ _ = false

abbrev pub seq_eq : Option ℕ → Option ℕ → Bool
seq_eq none none = true
seq_eq (some a) (some b) = a == b
seq_eq _ _ = false

-- `==` on the key tuples
unfoldable pub key_eq : IdentityKey → IdentityKey → Bool
key_eq a b =
    source_eq a.source b.source
    && str_eq a.tag_id b.tag_id
    && seq_eq a.seq b.seq
    && (a.timestamp == b.timestamp)

-- `key in self._seen_identity_keys`
unfoldable pub seen_key : IdentityKey → List IdentityKey → Bool
seen_key k [] = false
seen_key k (j ∷ js) = if key_eq j k then true else seen_key k js

pub record RuntimeState (R : Type 0) : Type 0 where
  pub tags : Dict (TagFrame R)
  pub active_alarms : Dict (AlarmRecord R)
  pub seen_identity_keys : List IdentityKey

module _ {R : Type 0} where
  -- RuntimeState.get_tag
  abbrev pub get_tag : RuntimeState R → String → Option (TagFrame R)
  get_tag s tag_id = lookup tag_id s.tags

  -- RuntimeState.update_tag
  unfoldable pub update_tag : RuntimeState R → TagFrame R → RuntimeState R × Bool
  update_tag s frame =
      let key = identity_key frame in
      if seen_key key s.seen_identity_keys then (s, false) else (
        record s {
          seen_identity_keys = key ∷ s.seen_identity_keys;
          tags = insert frame.tag_id frame s.tags;
        },
        true,
      )

  -- RuntimeState.refresh_tag
  unfoldable pub refresh_tag : RuntimeState R → TagFrame R → RuntimeState R
  refresh_tag s frame = record s { tags = insert frame.tag_id frame s.tags }

  stale_frame : ℕ → ℕ → Option (TagFrame R) → Bool
  stale_frame now stale_after_ms none = true
  stale_frame now stale_after_ms (some frame) =
      if is_degraded frame.quality then true else ltb (frame.timestamp + stale_after_ms * 1000) now

  -- RuntimeState.is_stale
  unfoldable pub is_stale : RuntimeState R → String → ℕ → ℕ → Bool
  unfolding stale_frame
  is_stale s tag_id now stale_after_ms = stale_frame now stale_after_ms (get_tag s tag_id)

  -- RuntimeState.reset, and the state that `__init__` makes
  abbrev pub init : RuntimeState R
  init = record { tags = []; active_alarms = []; seen_identity_keys = [] }
