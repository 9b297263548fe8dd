-- ===== src/Alarm/Condition.antt =====
-- `_compare` and `_evaluate_condition` of apps/api/app/runtime/alarm_engine.py: the test of one
-- rule's condition, with the deadband that holds an active alarm. `float(value)` of a text that is
-- no number, or of None, raises: `float_error`.
use plantlens.Prelude.{Bool, true, false, Option, none, some, ◌&&◌, not, if◌then◌else◌, FloatOps}
use plantlens.Frame.{TagValue, num, text, flag, null, Severity}
use plantlens.Records.{AlarmOp, AlarmRule}

pub data Outcome {ℓ} (A : Type ℓ) : Type ℓ where
  ok : A → Outcome A
  -- TypeError or ValueError of `float(...)`
  float_error : Outcome A

abbrev pub with_severity : Severity → Outcome Bool → Outcome (Bool × Severity)
with_severity s (ok b) = ok (b, s)
with_severity s float_error = float_error

module _ {R : Type 0} ⦃f : FloatOps R⦄ where
  -- `float(value)`
  abbrev pub to_float : TagValue R → Outcome R
  to_float (num x) = ok x
  to_float (flag b) = ok (f.of_nat (if b then 1 else 0))
  to_float (text s) = elim (f.parse s) [ none ↦ float_error | some x ↦ ok x ]
  to_float null = float_error

  -- A test on `float(value)`.
  abbrev pub on_float : (R → Bool) → TagValue R → Outcome Bool
  on_float p v = elim (to_float v) [ ok x ↦ ok (p x) | float_error ↦ float_error ]

  -- `value == threshold`, which never raises
  abbrev pub value_eq : TagValue R → R → Bool
  value_eq (num x) t = f.eq x t
  value_eq (flag b) t = f.eq (f.of_nat (if b then 1 else 0)) t
  value_eq (text s) t = false
  value_eq null t = false

  abbrev pub is_flag : Bool → TagValue R → Bool
  is_flag true (flag b) = b
  is_flag false (flag b) = not b
  is_flag _ _ = false

  abbrev pub is_none : TagValue R → Bool
  is_none null = true
  is_none _ = false

  compare_some : AlarmOp → TagValue R → R → Outcome Bool
  compare_some AlarmOp.gt v t = on_float (λ x. f.lt t x) v
  compare_some AlarmOp.ge v t = on_float (λ x. f.le t x) v
  compare_some AlarmOp.lt v t = on_float (λ x. f.lt x t) v
  compare_some AlarmOp.le v t = on_float (λ x. f.le x t) v
  compare_some AlarmOp.eq v t = ok (value_eq v t)
  compare_some AlarmOp.ne v t = ok (not (value_eq v t))
  compare_some AlarmOp.bool_true v t = ok (is_flag true v)
  compare_some AlarmOp.bool_false v t = ok (is_flag false v)

  -- _compare
  pub compare_op : AlarmOp → TagValue R → R → Outcome Bool
  unfolding compare_some
  compare_op op v t = if is_none v then ok false else compare_some op v t

  -- The band of `warning` and `critical` under "<", with its deadband.
  pub band : AlarmRule R → R → R → Bool → R → Bool × Severity
  band rule w c currently_active x =
      if f.lt x c
      then (true, Severity.critical)
      else if f.lt x w
      then (true, Severity.warning)
      else if currently_active && f.lt (f.of_nat 0) rule.deadband && f.lt x (f.add w rule.deadband)
      then (true, Severity.warning)
      else (false, rule.severity)

  -- The level that an active alarm must leave before it clears.
  pub hold : AlarmOp → TagValue R → R → R → Outcome Bool
  hold AlarmOp.gt v t d = on_float (λ x. f.lt (f.sub t d) x) v
  hold AlarmOp.ge v t d = on_float (λ x. f.lt (f.sub t d) x) v
  hold AlarmOp.lt v t d = on_float (λ x. f.lt x (f.add t d)) v
  hold AlarmOp.le v t d = on_float (λ x. f.lt x (f.add t d)) v
  hold _ v t d = ok false

  -- The single threshold, with its deadband.
  pub with_deadband : AlarmRule R → TagValue R → R → Bool → Outcome Bool → Outcome Bool
  unfolding hold
  with_deadband rule v t currently_active float_error = float_error
  with_deadband rule v t currently_active (ok active) =
      if currently_active && f.lt (f.of_nat 0) rule.deadband && not active
      then hold rule.condition.op v t rule.deadband
      else ok active

  pub single : AlarmRule R → TagValue R → Bool → Option R → Outcome (Bool × Severity)
  unfolding compare_op with_deadband
  single rule v currently_active none = ok (false, rule.severity)
  single rule v currently_active (some t) =
      with_severity rule.severity
        (with_deadband rule v t currently_active (compare_op rule.condition.op v t))

  -- The band's branch: `if value is None`, then `float(value)`.
  pub banded : AlarmRule R → R → R → TagValue R → Bool → Outcome (Bool × Severity)
  unfolding band
  banded rule w c v currently_active =
      if is_none v then ok (false, rule.severity) else elim (to_float v) [
        | ok x ↦ ok (band rule w c currently_active x)
        | float_error ↦ float_error
      ]

  pub dispatch :
      AlarmRule R → AlarmOp → Option R → Option R → TagValue R → Bool → Outcome (Bool × Severity)
  unfolding single banded
  dispatch rule AlarmOp.bool_true w c v a = ok (is_flag true v, rule.severity)
  dispatch rule AlarmOp.lt (some w) (some c) v a = banded rule w c v a
  dispatch rule _ w c v a = single rule v a rule.condition.threshold

  -- _evaluate_condition
  unfoldable pub evaluate_condition : AlarmRule R → TagValue R → Bool → Outcome (Bool × Severity)
  unfolding dispatch
  evaluate_condition rule v currently_active =
      dispatch rule rule.condition.op rule.condition.warning rule.condition.critical v
        currently_active
