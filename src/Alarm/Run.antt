-- ===== src/Alarm/Run.antt =====
-- The life of the engine: ticks and acknowledgements in any order, and what its reports rest on.

use plantlens.Prelude.{ℕ, String, true, false, List, [], ◌∷◌, ◌≡◌, FloatOps}
use plantlens.Prelude.Dict.{Dict}
use plantlens.Records.{AlarmRule, AlarmRecord}
use plantlens.State.{RuntimeState}
use plantlens.Alarm.Condition.{ok, float_error}
use plantlens.Alarm.Engine.{AlarmEngineState, evaluate_alarms, acknowledge_alarm}
use plantlens.Alarm.History.{Tick}

-- The engine's life, with the ticks that it saw: it starts with no timer, evaluates its rules at a
-- tick, which may raise an exception, and takes acknowledgements.
pub data Run {R : Type 0} ⦃f : FloatOps R⦄ (rules : List (AlarmRule R)) (shelved : Dict ℕ)
    : List (Tick R) → AlarmEngineState → Type 0 where
  start :
      {st : AlarmEngineState}
      → st.condition_true_since ≡ []
      → st.shelved_until ≡ shelved
      → Run rules shelved [] st
  tick :
      {h : List (Tick R)} {st st' : AlarmEngineState} (k : Tick R) (l : List (AlarmRecord R))
      → Run rules shelved h st
      → evaluate_alarms k.state rules k.now st ≡ (ok l, st')
      → k.raised ≡ false
      → Run rules shelved (k ∷ h) st'
  raise :
      {h : List (Tick R)} {st : AlarmEngineState} (k : Tick R)
      → Run rules shelved h st
      → (evaluate_alarms k.state rules k.now st).0 ≡ float_error
      → k.raised ≡ true
      → Run rules shelved (k ∷ h) (evaluate_alarms k.state rules k.now st).1
  ack :
      {h : List (Tick R)} {st : AlarmEngineState} (s : RuntimeState R) (id : String)
      → Run rules shelved h st
      → Run rules shelved h (acknowledge_alarm s id st).1
