-- ===== src/Alarm/Silent.antt =====
-- A rule that the engine can never raise: the operator `bool_false` without a threshold.
use plantlens.Prelude.{ℕ, Bool, false, none, some, ◌≡◌, arith, FloatOps, inl, inr, Option-cases}
use plantlens.Prelude.Dict.{lookup, has_key}
use plantlens.Frame.{TagValue}
use plantlens.Records.{AlarmOp, AlarmRule, AlarmRecord}
use plantlens.State.{RuntimeState, get_tag}
use plantlens.Alarm.Condition.{ok, evaluate_condition}
use plantlens.Alarm.Engine.{AlarmEngineState, step_rule}

module _ {R : Type 0} ⦃f : FloatOps R⦄ where
  -- A rule with `bool_false` and no threshold is clear, whatever the value: the operator is read
  -- only behind the test that there is a threshold, while `bool_true` is read in front of it.
  bool_false_needs_threshold :
      (rule : AlarmRule R) (v : TagValue R) (active : Bool)
      → rule.condition.op ≡ AlarmOp.bool_false
      → rule.condition.threshold ≡ none
      → evaluate_condition rule v active ≡ ok (false, rule.severity)
  unfolding evaluate_condition
  bool_false_needs_threshold rule v active op th = ground arith

  -- A rule with `bool_false` and no threshold never raises an alarm, in whatever state: a record that
  -- its step reports was active before.
  pub bool_false_never_raises :
      (s : RuntimeState R) (rule : AlarmRule R) (now : ℕ) (st : AlarmEngineState)
      (a : AlarmRecord R)
      → rule.condition.op ≡ AlarmOp.bool_false
      → rule.condition.threshold ≡ none
      → (step_rule s rule now st).0 ≡ ok (some a)
      → lookup rule.id s.active_alarms ≡ some a
  unfolding step_rule
  bool_false_never_raises s rule now st a op th h = elim (Option-cases (get_tag s rule.tag)) [
    | inl n ↦ ground arith
    | inr (tag, g) ↦
        ground
          (arith, bool_false_needs_threshold rule tag.value (has_key rule.id s.active_alarms) op th)
  ]
