-- ===== src/State/Dedupe.antt =====
-- The store keeps the first frame of each identity key: a replayed frame changes nothing.
use plantlens.Prelude.{
  ℕ, String, true, false, Option, none, some, ◌≡◌, refl, arith, str_eq, eq_iff, if◌then◌else◌,
}
use plantlens.Prelude.Dict.{lookup-insert}
use plantlens.Frame.{TagFrame, TagSource, simulator}
use plantlens.State.{
  IdentityKey, identity_key, source_eq, seq_eq, key_eq, seen_key, RuntimeState, get_tag, update_tag,
}

source_eq_refl : (a : TagSource) → source_eq a a ≡ true
source_eq_refl simulator = refl
source_eq_refl _ = refl

seq_eq_refl : (a : Option ℕ) → seq_eq a a ≡ true
seq_eq_refl none = refl
seq_eq_refl (some a) = ground arith

key_eq_refl : (k : IdentityKey) → key_eq k k ≡ true
unfolding key_eq
key_eq_refl k = ground (arith, source_eq_refl k.source, seq_eq_refl k.seq, eq_iff k.tag_id k.tag_id)

module _ {R : Type 0} where
  -- Storing the same frame twice is storing it once: the second call is refused and changes nothing.
  update_tag_twice :
      (s : RuntimeState R) (frame : TagFrame R)
      → update_tag (update_tag s frame).0 frame ≡ ((update_tag s frame).0, false)
  unfolding update_tag seen_key
  update_tag_twice s frame = ground (arith, key_eq_refl (identity_key frame))

  -- The frame that a store call leaves for a tag: the new one, if the call was accepted and the tag
  -- is its own, and the old one otherwise.
  get_tag-update_tag :
      (s : RuntimeState R) (frame : TagFrame R) (tag : String)
      → get_tag (update_tag s frame).0 tag ≡ (
          if (update_tag s frame).1
          then (if str_eq frame.tag_id tag then some frame else get_tag s tag)
          else get_tag s tag)
  unfolding update_tag
  get_tag-update_tag s frame tag = ground (arith, lookup-insert frame.tag_id tag frame s.tags)
