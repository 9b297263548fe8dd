-- ===== src/Records.antt =====
-- The dictionaries that pass between the stages of the runtime, as records: the alarm records of
-- apps/api/app/runtime/alarm_engine.py, and the rules of apps/api/app/schemas/alarm.py.
-- `raised_at` is kept as the instant: the code prints it and reads it back.
use plantlens.Prelude.{ℕ, String, Bool, Option}
use plantlens.Frame.{TagQuality, TagValue, Severity}

pub data AlarmOp : Type 0 where
  lt le gt ge eq ne bool_true bool_false : AlarmOp

pub record AlarmCondition (R : Type 0) : Type 0 where
  pub op : AlarmOp
  pub threshold : Option R
  pub warning : Option R
  pub critical : Option R
  pub for_ms : ℕ

-- The fields that the runtime never reads (shelvable, max_shelve_seconds, suggested_actions) are
-- left out.
pub record AlarmRule (R : Type 0) : Type 0 where
  pub id : String
  pub tag : String
  pub severity : Severity
  pub condition : AlarmCondition R
  pub message : String
  pub asset_id : Option String
  pub priority : Option ℕ
  pub deadband : R
  pub delay_ms : ℕ
  pub latching : Bool
  pub requires_ack : Bool

pub record AlarmEvidence (R : Type 0) : Type 0 where
  pub tag_id : String
  pub observed_value : TagValue R
  pub comparator : AlarmOp
  pub threshold : Option R
  pub quality : TagQuality

pub record AlarmRecord (R : Type 0) : Type 0 where
  pub alarm_id : String
  pub asset_id : String
  pub tag_id : String
  pub severity : Severity
  pub message : String
  pub raised_at : ℕ
  pub value : TagValue R
  pub acked : Bool
  pub priority : Option ℕ
  pub quality : TagQuality
  pub evidence : AlarmEvidence R
