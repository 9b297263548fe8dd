-- ===== src/Ingest/Drafting/Making.antt =====
-- What drafts a checked record makes.
use plantlens.Prelude.{
  String, Bool, true, false, Option, none, some, List, [], ◌∷◌, ◌++◌, ◌&&◌, ◌||◌, ◌≡◌, refl, sym,
  ap, ◌∙◌, arith, not, str_eq, eq_iff, any, any-append, if◌then◌else◌, Bool-cases, inl, inr,
}
use mathlib.Core.List.{Memᴰ}
use plantlens.Prelude.Dict.{contains}
use plantlens.Ingest.{
  RecordKind, tag_candidate, register_map_candidate, alarm_rule_candidate, causal_edge_candidate,
  Register, NormalizedRecord, IssueCode, QuarantineRecord, should_quarantine, truthy, id_issues,
  tag_pattern, asset_pattern, missing_tag_id, invalid_tag_id, missing_asset_id, invalid_asset_id,
  missing_asset_label, missing_signal_label, missing_unit, blocker, high, issue_if, side_issues,
  check_tag_candidate, check_register_map_candidate, label_issues, map_issues, check_kind,
  register_issues,
}
use plantlens.Ingest.Drafting.{
  DraftContract, DraftType, tag_draft, register_map_draft, draft_if, has_register,
  quarantined_records, quarantined_raws, draft_of_kind, build_drafts,
}
use plantlens.Ingest.Drafting.Distinct.{any_left, any_right}

-- The kinds that drafts are made of
abbrev pub is_draftable : RecordKind → Bool
is_draftable tag_candidate = true
is_draftable register_map_candidate = true
is_draftable k = false

id_lem :
    (pattern : String → Bool) (absent invalid : IssueCode) (id : Option String)
    → any should_quarantine (id_issues pattern absent invalid id) ≡ false
    → truthy id ≡ true
id_lem pattern absent invalid none h = absurd (ground (arith, h))
id_lem pattern absent invalid (some t) h = elim (Bool-cases (str_eq t "")) [
  | inl e ↦ absurd (ground (arith, h, e))
  | inr e ↦ ground (arith, e)
]

register_lem :
    (r : Option Register)
    → any should_quarantine (register_issues r) ≡ false
    → has_register r ≡ true
register_lem none h = absurd (ground (arith, h))
register_lem (some r) h = refl

module _ {R : Type 0} where
  abbrev pub is_drafted : String → List (DraftContract R) → Bool
  is_drafted id ds = any (λ (d : DraftContract R). str_eq d.source.record_id id) ds

  -- The quarantine names the record, by its id or by its raw id.
  abbrev pub is_held : List QuarantineRecord → NormalizedRecord R → Bool
  is_held q r =
      contains r.record_id (quarantined_records q) || contains r.raw_id (quarantined_raws q)

  abbrev pub holds_back : List QuarantineRecord → String → NormalizedRecord R → Bool
  holds_back q id r = str_eq r.record_id id && is_held q r

  draft_if-drafts :
      (b : Bool) (t : DraftType) (r : NormalizedRecord R)
      → b ≡ true
      → is_drafted r.record_id (draft_if b t r) ≡ true
  draft_if-drafts b t r h = rw h (ground (arith, eq_iff r.record_id r.record_id))

  label_unit :
      (r : NormalizedRecord R)
      → any should_quarantine (label_issues r) ≡ false
      → truthy r.unit ≡ true
  label_unit r h =
      let a =
        any_right should_quarantine
          (id_issues asset_pattern missing_asset_id invalid_asset_id r.asset_id) _ h in
      let b =
        any_right should_quarantine
          (issue_if (not (truthy r.asset_label)) missing_asset_label blocker) _ a in
      let c =
        any_right should_quarantine
          (issue_if (not (truthy r.signal_label)) missing_signal_label blocker) _ b in
      let d =
        any_left should_quarantine (issue_if (not (truthy r.unit)) missing_unit high)
          (side_issues r.side) c in
      elim (Bool-cases (truthy r.unit)) [ inl e ↦ e | inr e ↦ absurd (ground (arith, d, e)) ]

  pub kind-drafts :
      (r : NormalizedRecord R) (k : RecordKind)
      → is_draftable k ≡ true
      → any should_quarantine (check_kind r k) ≡ false
      → is_drafted r.record_id (draft_of_kind r k) ≡ true
  unfolding check_tag_candidate check_register_map_candidate
  kind-drafts r tag_candidate k h =
      let ids = id_issues tag_pattern missing_tag_id invalid_tag_id r.tag_id in
      let labels = any_right should_quarantine ids (label_issues r) h in
      let tag =
        id_lem tag_pattern missing_tag_id invalid_tag_id r.tag_id
          (any_left should_quarantine ids (label_issues r) h) in
      let asset = id_lem asset_pattern missing_asset_id invalid_asset_id r.asset_id (
        any_left should_quarantine
          (id_issues asset_pattern missing_asset_id invalid_asset_id r.asset_id) _ labels) in
      draft_if-drafts _ tag_draft r (ground (arith, tag, asset, label_unit r labels))
  kind-drafts r register_map_candidate k h =
      let ids = id_issues tag_pattern missing_tag_id invalid_tag_id r.tag_id in
      let maps = any_right should_quarantine ids (map_issues r) h in
      let tag =
        id_lem tag_pattern missing_tag_id invalid_tag_id r.tag_id
          (any_left should_quarantine ids (map_issues r) h) in
      let register =
        register_lem r.register (any_left should_quarantine (register_issues r.register) _ maps) in
      draft_if-drafts _ register_map_draft r (ground (arith, tag, register))
  kind-drafts r alarm_rule_candidate k h = absurd (ground (arith, k))
  kind-drafts r causal_edge_candidate k h = absurd (ground (arith, k))

  -- A record that no key blocks makes its draft.
  pub build_drafts-drafts :
      (ids raws : List String) (r : NormalizedRecord R) (rs : List (NormalizedRecord R))
      → Memᴰ r rs
      → (contains r.record_id ids || contains r.raw_id raws) ≡ false
      → is_drafted r.record_id (draft_of_kind r r.record_kind) ≡ true
      → is_drafted r.record_id (build_drafts ids raws rs) ≡ true
  unfolding build_drafts
  build_drafts-drafts ids raws r [] m h d = elim m [ ]
  build_drafts-drafts ids raws r (y ∷ rs) (Memᴰ.head e) h d =
      ap
        (λ z. is_drafted r.record_id (
          (if contains z.record_id ids || contains z.raw_id raws
            then []
            else draft_of_kind z z.record_kind)
          ++ build_drafts ids raws rs))
        (sym e)
      ∙ rw h (
          any-append (λ (d : DraftContract R). str_eq d.source.record_id r.record_id)
            (draft_of_kind r r.record_kind) (build_drafts ids raws rs)
          ∙ ground (arith, d))
  build_drafts-drafts ids raws r (y ∷ rs) (Memᴰ.tail m) h d =
      any-append (λ (d : DraftContract R). str_eq d.source.record_id r.record_id)
        (if contains y.record_id ids || contains y.raw_id raws
          then []
          else draft_of_kind y y.record_kind)
        (build_drafts ids raws rs)
      ∙ ground (arith, build_drafts-drafts ids raws r rs m h d)
