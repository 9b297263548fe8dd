-- ===== src/Alarm.antt =====
-- apps/api/app/runtime/alarm_engine.py.
pub mod Condition
pub mod Engine
pub mod Raise
pub mod Loop
pub mod History
pub mod Evidenced
pub mod Run
pub mod Silent
