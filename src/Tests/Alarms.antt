-- ===== src/Tests/Alarms.antt =====
-- A motor current alarm with a deadband, a breaker, and a run of the engine.
use plantlens.Prelude.{ℕ, ◌≡◌, refl, true, false, none, some, List, [], ◌∷◌}
use plantlens.Prelude.Dict.{lookup}
use plantlens.Frame.{TagFrame, num, good, modbus_rtu, Severity}
use plantlens.Records.{AlarmOp, AlarmRule, AlarmRecord}
use plantlens.State.{RuntimeState}
use plantlens.Alarm.Condition.{ok, evaluate_condition}
use plantlens.Alarm.Silent.{bool_false_never_raises}
use plantlens.Alarm.Engine.{AlarmEngineState, initial, step_rule}
use plantlens.Alarm.Evidenced.{Evidenced}
use plantlens.Alarm.History.{Tick}
use plantlens.Tests.Numbers.{thousandths}

-- over 3 A for half a second, with a deadband of 0.2 A
abbrev current_high : AlarmRule ℕ
current_high = record {
  id = "MOTOR_CURRENT_HIGH";
  tag = "MOTOR_301_CURRENT";
  severity = Severity.warning;
  condition = record {
    op = AlarmOp.gt;
    threshold = some 3000;
    warning = none;
    critical = none;
    for_ms = 500;
  };
  message = "Motor current high";
  asset_id = some "MTR-301";
  priority = some 2;
  deadband = 200;
  delay_ms = 0;
  latching = false;
  requires_ack = false;
}

abbrev breaker_open : AlarmRule ℕ
breaker_open = record current_high {
  latching = true;
  condition = record {
    op = AlarmOp.bool_false;
    threshold = none;
    warning = none;
    critical = none;
    for_ms = 0;
  };
}

abbrev current_frame : TagFrame ℕ
current_frame = record {
  tag_id = "MOTOR_301_CURRENT";
  asset_id = "MTR-301";
  value = num 3400;
  quality = good;
  timestamp = 1000000;
  source = modbus_rtu;
  seq = some 1;
  ingest_ts = none;
}

abbrev overloaded : RuntimeState ℕ
overloaded = record {
  tags = ("MOTOR_301_CURRENT", current_frame) ∷ [];
  active_alarms = [];
  seen_identity_keys = [];
}

abbrev rules : List (AlarmRule ℕ)
rules = current_high ∷ []

-- the timer runs from the first tick on
abbrev timed : AlarmEngineState
timed = record initial { condition_true_since = ("MOTOR_CURRENT_HIGH", 1000000) ∷ [] }

abbrev fired : AlarmRecord ℕ
fired = record {
  alarm_id = "MOTOR_CURRENT_HIGH";
  asset_id = "MTR-301";
  tag_id = "MOTOR_301_CURRENT";
  severity = Severity.warning;
  message = "Motor current high";
  raised_at = 1000000;
  value = num 3400;
  acked = false;
  priority = some 2;
  quality = good;
  evidence = record {
    tag_id = "MOTOR_301_CURRENT";
    observed_value = num 3400;
    comparator = AlarmOp.gt;
    threshold = some 3000;
    quality = good;
  };
}

abbrev report : List (AlarmRecord ℕ)
report = fired ∷ []

abbrev tick_at : ℕ → Tick ℕ
tick_at now = record { state = overloaded; now = now; raised = false }

-- The rule's own record from before, on a motor that needs an acknowledgement.
abbrev latched : RuntimeState ℕ
latched = record overloaded { active_alarms = ("MOTOR_CURRENT_HIGH", fired) ∷ [] }

latched_report : (step_rule latched breaker_open 2000000 initial).0 ≡ ok (some fired)
unfolding step_rule evaluate_condition lookup
latched_report = refl

bool_false_never_raises_example : lookup "MOTOR_CURRENT_HIGH" latched.active_alarms ≡ some fired
unfolding lookup
bool_false_never_raises_example =
    bool_false_never_raises latched breaker_open 2000000 initial fired refl refl latched_report
