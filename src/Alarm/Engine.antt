-- ===== src/Alarm/Engine.antt =====
-- The engine of apps/api/app/runtime/alarm_engine.py: its memory, the step for one rule, the loop over
-- the rules, and the acknowledgement. What was written before an exception stays written, so each
-- step returns the memory beside its result. An age in milliseconds is compared exactly, in
-- microseconds.
use plantlens.Prelude.{
  ℕ, String, Bool, true, false, Option, none, some, List, [], ◌∷◌, ◌&&◌, ◌||◌, ◌+◌, ◌*◌, not, ltb,
  str_eq, if◌then◌else◌, FloatOps,
}
use plantlens.Prelude.Dict.{Dict, lookup, insert, remove, has_key, contains}
use plantlens.Frame.{TagFrame, Severity, is_good}
use plantlens.Records.{AlarmRule, AlarmRecord}
use plantlens.State.{RuntimeState, get_tag}
use plantlens.Alarm.Condition.{Outcome, ok, float_error, evaluate_condition}

-- AlarmEngineState. `cleared_pending` is never read or written.
pub record AlarmEngineState : Type 0 where
  pub condition_true_since : Dict ℕ
  pub acked : List String
  pub shelved_until : Dict ℕ

-- reset_alarm_engine_state, and the memory at the start
abbrev pub initial : AlarmEngineState
initial = record { condition_true_since = []; acked = []; shelved_until = [] }

abbrev pub or_asset : Option String → String → String
or_asset none a = a
or_asset (some r) a = if str_eq r "" then a else r

module _ {R : Type 0} ⦃f : FloatOps R⦄ where
  -- `x or y` on optional floats: None and 0.0 are false
  abbrev pub or_else : Option R → Option R → Option R
  or_else none y = y
  or_else (some x) y = if f.eq x (f.of_nat 0) then y else some x

  -- The record that a breach gives.
  pub new_record : AlarmRule R → TagFrame R → Severity → Bool → AlarmRecord R
  new_record rule tag severity acked = record {
    alarm_id = rule.id;
    asset_id = or_asset rule.asset_id tag.asset_id;
    tag_id = rule.tag;
    severity = severity;
    message = rule.message;
    raised_at = tag.timestamp;
    value = tag.value;
    acked = acked;
    priority = rule.priority;
    quality = tag.quality;
    evidence = record {
      tag_id = rule.tag;
      observed_value = tag.value;
      comparator = rule.condition.op;
      threshold =
          or_else rule.condition.threshold (or_else rule.condition.critical rule.condition.warning);
      quality = tag.quality;
    };
  }

-- `condition_true_since.pop(rule.id, None)`
abbrev pub stop_timer : String → AlarmEngineState → AlarmEngineState
stop_timer id st = record st { condition_true_since = remove id st.condition_true_since }

abbrev pub start_timer : String → ℕ → AlarmEngineState → AlarmEngineState
start_timer id now st = record st { condition_true_since = insert id now st.condition_true_since }

abbrev pub is_acked : AlarmEngineState → String → Bool
is_acked st id = contains id st.acked

-- `now < shelved_until[id]`, where the key is there
abbrev pub is_shelved : AlarmEngineState → String → ℕ → Bool
is_shelved st id now = elim (lookup id st.shelved_until) [ none ↦ false | some t ↦ ltb now t ]

abbrev pub Step : Type 0 → Type 0
Step A = Outcome A × AlarmEngineState

module _ {R : Type 0} ⦃f : FloatOps R⦄ where
  -- The active record of the rule, if `keep` says so and there is one.
  abbrev pub retained : RuntimeState R → AlarmRule R → Bool → Option (AlarmRecord R)
  retained s rule keep = if keep then lookup rule.id s.active_alarms else none

  -- No usable tag: the timer stops, and only a latched alarm stays.
  pub no_evidence : RuntimeState R → AlarmRule R → AlarmEngineState → Step (Option (AlarmRecord R))
  no_evidence s rule st =
      (ok (retained s rule (rule.latching && not (is_acked st rule.id))), stop_timer rule.id st)

  abbrev pub delay_ms : AlarmRule R → ℕ
  delay_ms rule = rule.delay_ms + rule.condition.for_ms

  -- The breach has lasted since `first_true`: before the delay has passed only an active alarm that
  -- latches or wants an acknowledgement stays.
  pub breached_since :
      RuntimeState R
      → AlarmRule R
      → TagFrame R
      → Severity
      → ℕ
      → ℕ
      → AlarmEngineState
      → Step (Option (AlarmRecord R))
  unfolding new_record
  breached_since s rule tag severity now first_true st =
      if ltb now (first_true + delay_ms rule * 1000)
      then (ok (retained s rule (rule.latching || rule.requires_ack)), st)
      else (ok (some (new_record rule tag severity (is_acked st rule.id))), st)

  pub on_breach :
      RuntimeState R
      → AlarmRule R
      → TagFrame R
      → Severity
      → ℕ
      → Option ℕ
      → AlarmEngineState
      → Step (Option (AlarmRecord R))
  unfolding breached_since
  on_breach s rule tag severity now none st =
      breached_since s rule tag severity now now (start_timer rule.id now st)
  on_breach s rule tag severity now (some t) st = breached_since s rule tag severity now t st

  pub on_clear : RuntimeState R → AlarmRule R → AlarmEngineState → Step (Option (AlarmRecord R))
  on_clear s rule st = (
    ok (retained s rule ((rule.latching || rule.requires_ack) && not (is_acked st rule.id))),
    stop_timer rule.id st,
  )

  pub judge :
      RuntimeState R
      → AlarmRule R
      → TagFrame R
      → ℕ
      → AlarmEngineState
      → Outcome (Bool × Severity)
      → Step (Option (AlarmRecord R))
  unfolding on_breach on_clear
  judge s rule tag now st float_error = (float_error, st)
  judge s rule tag now st (ok (true, severity)) =
      on_breach s rule tag severity now (lookup rule.id st.condition_true_since) st
  judge s rule tag now st (ok (false, severity)) = on_clear s rule st

  pub with_tag :
      RuntimeState R
      → AlarmRule R
      → ℕ
      → AlarmEngineState
      → Option (TagFrame R)
      → Step (Option (AlarmRecord R))
  unfolding no_evidence judge
  with_tag s rule now st none = no_evidence s rule st
  with_tag s rule now st (some tag) =
      if is_good tag.quality
      then judge s rule tag now st
          (evaluate_condition rule tag.value (has_key rule.id s.active_alarms))
      else no_evidence s rule st

  -- The body of the loop of `evaluate_alarms`.
  unfoldable pub step_rule :
      RuntimeState R → AlarmRule R → ℕ → AlarmEngineState → Step (Option (AlarmRecord R))
  unfolding with_tag
  step_rule s rule now st =
      if is_shelved st rule.id now
      then (ok none, st)
      else with_tag s rule now st (get_tag s rule.tag)

  abbrev pub append_record :
      Option (AlarmRecord R) → Outcome (List (AlarmRecord R)) → Outcome (List (AlarmRecord R))
  append_record none rest = rest
  append_record (some a) (ok l) = ok (a ∷ l)
  append_record (some a) float_error = float_error

  -- evaluate_alarms. An exception ends the loop.
  unfoldable pub evaluate_alarms :
      RuntimeState R → List (AlarmRule R) → ℕ → AlarmEngineState → Step (List (AlarmRecord R))
  evaluate_alarms s [] now st = (ok [], st)
  evaluate_alarms s (rule ∷ rules) now st =
      let (r, st1) = step_rule s rule now st in
      elim r [
        | float_error ↦ (float_error, st1)
        | ok a ↦ let (rest, st2) = evaluate_alarms s rules now st1 in (append_record a rest, st2)
      ]

  -- `active_alarms[alarm_id]["acked"] = True`, where the key is there
  abbrev pub mark_acked : Option (AlarmRecord R) → String → RuntimeState R → RuntimeState R
  mark_acked none id s = s
  mark_acked (some a) id s = record s {
    active_alarms = insert id (record a { acked = true }) s.active_alarms;
  }

  -- acknowledge_alarm
  unfoldable pub acknowledge_alarm :
      RuntimeState R → String → AlarmEngineState → RuntimeState R × AlarmEngineState
  acknowledge_alarm s id st =
      (mark_acked (lookup id s.active_alarms) id s, record st { acked = id ∷ st.acked })
