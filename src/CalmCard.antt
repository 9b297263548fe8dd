-- ===== src/CalmCard.antt =====
-- The actions on a calm card (apps/api/app/runtime/calm_card_engine.py): the recommended one and the blocked
-- ones. A set of alarms is a list of their ids.
pub mod Advice
use plantlens.Prelude.{
  String, Bool, true, false, Option, none, some, List, [], ◌∷◌, not, str_eq, filter, if◌then◌else◌,
}
use plantlens.Prelude.Dict.{contains}
use plantlens.Prelude.Sorting.{sort, str_lt}
use plantlens.Prelude.Strings.{distinct}

-- An entry of `actions`, with the defaults of `risk_level`, `requires_isolation` and the two lists.
pub record Action : Type 0 where
  pub id : String
  pub label : String
  pub risk_level : String
  pub requires_isolation : Bool
  pub situation_ids : List String
  pub blocked_if : List String
  pub blocked_message : Option String

pub record RecommendedCheck : Type 0 where
  pub action_id : String
  pub label : String
  pub risk_level : String
  pub requires_isolation : Bool

-- The message of the action, or the text that lists the alarms that block it.
pub data Reason : Type 0 where
  message : String → Reason
  while_active : List String → Reason

pub record BlockedAction : Type 0 where
  pub action_id : String
  pub label : String
  pub reason : Reason

-- _fallback_action
abbrev pub fallback_action : RecommendedCheck
fallback_action = record {
  action_id = "REVIEW_RAW_ALARMS";
  label = "Review raw alarms and evidence chain";
  risk_level = "low";
  requires_isolation = false;
}

-- The loop of select_recommended_action
unfoldable pub recommend : String → List Action → RecommendedCheck
recommend situation_type [] = fallback_action
recommend situation_type (a ∷ as_) =
    let later = recommend situation_type as_ in
    if contains situation_type a.situation_ids
    then record {
      action_id = a.id;
      label = a.label;
      risk_level = a.risk_level;
      requires_isolation = a.requires_isolation;
    }
    else later

-- select_recommended_action
unfoldable pub select_recommended_action : Option String → List Action → RecommendedCheck
select_recommended_action none actions = fallback_action
select_recommended_action (some t) actions =
    if str_eq t "" then fallback_action else recommend t actions

-- blocked_if & active_alarm_ids
abbrev pub overlap : List String → Action → List String
overlap active a = filter (λ x. contains x active) a.blocked_if

abbrev pub reason_of : Option String → List String → Reason
reason_of none alarms = while_active (sort str_lt (distinct alarms))
reason_of (some m) alarms = message m

-- Appends the action if an alarm blocks it.
abbrev pub block : Action → List String → List BlockedAction → List BlockedAction
block a [] later = later
block a (x ∷ xs) later =
    record { action_id = a.id; label = a.label; reason = reason_of a.blocked_message (x ∷ xs) }
    ∷ later

-- The loop of find_blocked_actions
unfoldable pub blocked_from : String → List String → List Action → List BlockedAction
blocked_from situation_type active [] = []
blocked_from situation_type active (a ∷ as_) =
    let later = blocked_from situation_type active as_ in
    if not (contains situation_type a.situation_ids)
    then later
    else block a (overlap active a) later

-- find_blocked_actions
unfoldable pub find_blocked_actions : Option String → List String → List Action → List BlockedAction
find_blocked_actions none active actions = []
find_blocked_actions (some t) active actions =
    if str_eq t "" then [] else blocked_from t active actions
