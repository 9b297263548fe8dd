-- ===== src/Tests/Cards.antt =====
-- An envelope with two actions for one situation; the second is free of alarms.
use plantlens.Prelude.{String, true, false, none, some, List, [], ◌∷◌, ◌≡◌, refl, any, str_eq}
use plantlens.CalmCard.{
  Action, BlockedAction, recommend, select_recommended_action, blocked_from, find_blocked_actions,
}
use plantlens.CalmCard.Advice.{first_is_blocked, select_recommended_action-is_blocked}

abbrev action : String → List String → Action
action id blocked_if = record {
  id = id;
  label = id;
  risk_level = "low";
  requires_isolation = false;
  situation_ids = "MOTOR_HOT" ∷ [];
  blocked_if = blocked_if;
  blocked_message = none;
}

abbrev envelope : List Action
envelope = action "STOP" ("TEMP_HIHI" ∷ []) ∷ action "INSPECT" [] ∷ []

recommends_blocked :
    any
      (λ (b : BlockedAction).
        str_eq b.action_id (select_recommended_action (some "MOTOR_HOT") envelope).action_id)
      (find_blocked_actions (some "MOTOR_HOT") ("TEMP_HIHI" ∷ []) envelope)
    ≡ true
unfolding select_recommended_action find_blocked_actions recommend blocked_from
recommends_blocked = refl

select_recommended_action-is_blocked_example :
    any
      (λ (b : BlockedAction).
        str_eq b.action_id (select_recommended_action (some "MOTOR_HOT") envelope).action_id)
      (find_blocked_actions (some "MOTOR_HOT") ("TEMP_HIHI" ∷ []) envelope)
    ≡ first_is_blocked "MOTOR_HOT" ("TEMP_HIHI" ∷ []) envelope
select_recommended_action-is_blocked_example =
    select_recommended_action-is_blocked "MOTOR_HOT" ("TEMP_HIHI" ∷ []) envelope refl
      (refl, (refl, tt))
