-- ===== src/CalmCard/Advice.antt =====
-- When a card recommends what it blocks.
use plantlens.Prelude.{
  String, Bool, false, some, List, [], ◌∷◌, ◌&&◌, ◌||◌, ◌≡◌, ◌∙◌, refl, arith, str_eq, eq_iff, any,
  filter, map, if◌then◌else◌, Bool-cases, inl, inr,
}
use plantlens.Prelude.Dict.{contains}
use plantlens.Prelude.Strings.{NoRepeat}
use plantlens.CalmCard.{
  Action, BlockedAction, recommend, select_recommended_action, block, blocked_from,
  find_blocked_actions,
}

abbrev action_ids : List Action → List String
action_ids actions = map (λ (a : Action). a.id) actions

abbrev is_listed : String → List BlockedAction → Bool
is_listed id bs = any (λ (b : BlockedAction). str_eq b.action_id id) bs

-- An active alarm is among those that block the first action for the situation's type.
abbrev pub first_is_blocked : String → List String → List Action → Bool
first_is_blocked t active [] = false
first_is_blocked t active (a ∷ as_) =
    let later = first_is_blocked t active as_ in
    if contains t a.situation_ids then any (λ x. contains x active) a.blocked_if else later

block-listed :
    (id : String) (a : Action) (active xs : List String) (later : List BlockedAction)
    → is_listed id (block a (filter (λ x. contains x active) xs) later)
      ≡ ((any (λ x. contains x active) xs && str_eq a.id id) || is_listed id later)
block-listed id a active [] later = refl
block-listed id a active (x ∷ xs) later = elim (Bool-cases (contains x active)) [
  | inl e ↦ rw e refl
  | inr e ↦ rw e (block-listed id a active xs later)
]

-- A blocked action is one of the envelope's.
blocked_from-listed :
    (t id : String) (active : List String) (as_ : List Action)
    → contains id (action_ids as_) ≡ false
    → is_listed id (blocked_from t active as_) ≡ false
unfolding blocked_from
blocked_from-listed t id active [] h = refl
blocked_from-listed t id active (a ∷ as_) h = elim (Bool-cases (contains t a.situation_ids)) [
  | inl e ↦ rw e (
      block-listed id a active a.blocked_if (blocked_from t active as_)
      ∙ ground (arith, h, eq_iff a.id id, eq_iff id a.id, blocked_from-listed t id active as_))
  | inr e ↦ rw e (blocked_from-listed t id active as_ (ground (arith, h)))
]

recommend-listed :
    (t : String) (active : List String) (as_ : List Action)
    → NoRepeat (action_ids as_)
    → is_listed (recommend t as_).action_id (blocked_from t active as_)
      ≡ first_is_blocked t active as_
unfolding recommend blocked_from
recommend-listed t active [] n = refl
recommend-listed t active (a ∷ as_) n = elim (Bool-cases (contains t a.situation_ids)) [
  | inl e ↦ rw e (
      block-listed a.id a active a.blocked_if (blocked_from t active as_)
      ∙ ground (arith, eq_iff a.id a.id, blocked_from-listed t a.id active as_ n.0))
  | inr e ↦ rw e (recommend-listed t active as_ n.1)
]

-- In an envelope of actions with distinct ids, the action that is recommended for a situation with a type
-- is among its blocked ones exactly when an active alarm blocks the first action for the type.
pub select_recommended_action-is_blocked :
    (t : String) (active : List String) (actions : List Action)
    → str_eq t "" ≡ false
    → NoRepeat (action_ids actions)
    → any
        (λ (b : BlockedAction).
          str_eq b.action_id (select_recommended_action (some t) actions).action_id)
        (find_blocked_actions (some t) active actions)
      ≡ first_is_blocked t active actions
unfolding select_recommended_action find_blocked_actions
select_recommended_action-is_blocked t active actions typed n =
    rw typed (recommend-listed t active actions n)
