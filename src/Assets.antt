-- ===== src/Assets.antt =====
-- apps/api/app/runtime/asset_status.py. The statuses are a dict from the assets of the index.
pub mod Verdict
use plantlens.Prelude.{
  ℕ, String, Bool, true, false, Option, none, some, List, [], ◌∷◌, ◌++◌, leb, any, map, str_eq,
  if◌then◌else◌,
}
use plantlens.Prelude.Dict.{Dict, lookup, insert, values}
use plantlens.Frame.{TagFrame, Severity, is_degraded}
use plantlens.Records.{AlarmRecord}

pub data AssetStatus : Type 0 where
  normal unknown offline sensor_bad warning critical : AssetStatus

-- STATUS_PRECEDENCE
abbrev pub precedence : AssetStatus → ℕ
precedence normal = 0
precedence unknown = 1
precedence offline = 2
precedence sensor_bad = 3
precedence AssetStatus.warning = 4
precedence AssetStatus.critical = 5

-- _escalate
abbrev pub escalate : AssetStatus → AssetStatus → AssetStatus
escalate current new_status =
    if leb (precedence current) (precedence new_status) then new_status else current

-- `statuses[a] = _escalate(statuses[a], new_status)`, where the key is there
abbrev pub escalate_from :
    Option AssetStatus → String → AssetStatus → Dict AssetStatus → Dict AssetStatus
escalate_from none a new_status d = d
escalate_from (some current) a new_status d = insert a (escalate current new_status) d

unfoldable pub escalate_at : String → AssetStatus → Dict AssetStatus → Dict AssetStatus
escalate_at a new_status d = escalate_from (lookup a d) a new_status d

-- The parts of a situation that the function reads.
pub record SituationAssets : Type 0 where
  pub root_asset_id : Option String
  pub affected_asset_ids : List String

module _ {R : Type 0} where
  abbrev pub frames_or_none : Option (List (TagFrame R)) → List (TagFrame R)
  frames_or_none none = []
  frames_or_none (some fs) = fs

  -- `tag_by_asset.setdefault(frame.asset_id, []).append(frame)` for each frame
  unfoldable pub group : List (TagFrame R) → Dict (List (TagFrame R)) → Dict (List (TagFrame R))
  group [] d = d
  group (frame ∷ frames) d =
      group frames
        (insert frame.asset_id (frames_or_none (lookup frame.asset_id d) ++ frame ∷ []) d)

  abbrev pub status_of_frames : String → List (TagFrame R) → Dict AssetStatus → Dict AssetStatus
  status_of_frames a [] d = escalate_at a offline d
  status_of_frames a (frame ∷ frames) d =
      if any (λ (x : TagFrame R). is_degraded x.quality) (frame ∷ frames)
      then escalate_at a sensor_bad d
      else d

  unfoldable pub apply_tags : Dict (List (TagFrame R)) → Dict AssetStatus → Dict AssetStatus
  apply_tags [] d = d
  apply_tags ((a, frames) ∷ more) d = apply_tags more (status_of_frames a frames d)

  -- The severity of an alarm as a status; an asset id "" is skipped.
  abbrev pub alarm_status : AlarmRecord R → Dict AssetStatus → Dict AssetStatus
  alarm_status alarm d = if str_eq alarm.asset_id "" then d else elim alarm.severity [
    | Severity.critical ↦ escalate_at alarm.asset_id AssetStatus.critical d
    | Severity.warning ↦ escalate_at alarm.asset_id AssetStatus.warning d
    | _ ↦ d
  ]

  unfoldable pub apply_alarms : List (AlarmRecord R) → Dict AssetStatus → Dict AssetStatus
  apply_alarms [] d = d
  apply_alarms (alarm ∷ alarms) d = apply_alarms alarms (alarm_status alarm d)

unfoldable pub apply_affected : List String → Dict AssetStatus → Dict AssetStatus
apply_affected [] d = d
apply_affected (a ∷ more) d = apply_affected more (escalate_at a AssetStatus.warning d)

abbrev pub apply_root : Option String → Dict AssetStatus → Dict AssetStatus
apply_root none d = d
apply_root (some root) d = if str_eq root "" then d else escalate_at root AssetStatus.critical d

unfoldable pub apply_situations : List SituationAssets → Dict AssetStatus → Dict AssetStatus
apply_situations [] d = d
apply_situations (s ∷ more) d =
    apply_situations more (apply_affected s.affected_asset_ids (apply_root s.root_asset_id d))

-- `{asset_id: "normal" for asset_id in asset_index}`
unfoldable pub all_normal : List String → Dict AssetStatus
all_normal [] = []
all_normal (a ∷ more) = (a, normal) ∷ all_normal more

-- derive_asset_status
unfoldable pub derive_asset_status :
    {R : Type 0}
    → List String
    → Dict (AlarmRecord R)
    → List SituationAssets
    → Dict (TagFrame R)
    → Dict AssetStatus
derive_asset_status asset_index active_alarms situations tags = apply_situations situations (
    apply_alarms (values active_alarms)
      (apply_tags (group (values tags) []) (all_normal asset_index)))
