-- ===== src/Alarm/Loop.antt =====
-- The loop of the engine over the rules, step by step.
use plantlens.Prelude.{
  ℕ, String, Option, none, some, List, [], ◌∷◌, ◌≡◌, ◌≢◌, refl, sym, arith, FloatOps, ◌⊎◌, inl, inr,
  All,
}
use plantlens.Prelude.Dict.{lookup}
use plantlens.Records.{AlarmRule, AlarmRecord}
use plantlens.State.{RuntimeState}
use plantlens.Alarm.Condition.{Outcome, ok, float_error}
use plantlens.Alarm.Engine.{AlarmEngineState, append_record, step_rule, evaluate_alarms}
use plantlens.Alarm.Raise.{step_rule_frame, step_rule_keeps, step_rule-float_error}

pub Outcome-cases : {A : Type 0} (o : Outcome A) → (o ≡ float_error) ⊎ ((a : A) × (o ≡ ok a))
Outcome-cases float_error = inl refl
Outcome-cases (ok a) = inr (a, refl)

-- A loop over `rule ∷ rules` that did not fail.
pub record Cons {R : Type 0} ⦃f : FloatOps R⦄ (s : RuntimeState R) (rule : AlarmRule R)
    (rules : List (AlarmRule R)) (now : ℕ) (st : AlarmEngineState) (l : List (AlarmRecord R))
    (st' : AlarmEngineState) : Type 0 where
  pub first : Option (AlarmRecord R)
  pub middle : AlarmEngineState
  pub rest : List (AlarmRecord R)
  pub step : step_rule s rule now st ≡ (ok first, middle)
  pub loop : evaluate_alarms s rules now middle ≡ (ok rest, st')
  pub joined : append_record first (ok rest) ≡ ok l

module _ {R : Type 0} ⦃f : FloatOps R⦄ where
  pub evaluate-Cons :
      (s : RuntimeState R) (rule : AlarmRule R) (rules : List (AlarmRule R)) (now : ℕ)
      (st : AlarmEngineState) (l : List (AlarmRecord R)) (st' : AlarmEngineState)
      → evaluate_alarms s (rule ∷ rules) now st ≡ (ok l, st')
      → Cons s rule rules now st l st'
  unfolding evaluate_alarms
  evaluate-Cons s rule rules now st l st' h = go (step_rule s rule now st).0 refl
    where
      last :
          (a : AlarmRecord R)
          → (step_rule s rule now st).0 ≡ ok (some a)
          → (q : Outcome (List (AlarmRecord R)))
          → (evaluate_alarms s rules now (step_rule s rule now st).1).0 ≡ q
          → Cons s rule rules now st l st'
      last a e float_error d = ground arith
      last a e (ok rest) d = record {
        first = some a;
        middle = (step_rule s rule now st).1;
        rest = rest;
        step = ground arith;
        loop = ground arith;
        joined = ground arith;
      }

      go :
          (r : Outcome (Option (AlarmRecord R)))
          → (step_rule s rule now st).0 ≡ r
          → Cons s rule rules now st l st'
      go float_error e = ground arith
      go (ok none) e = record {
        first = none;
        middle = (step_rule s rule now st).1;
        rest = l;
        step = ground arith;
        loop = ground arith;
        joined = refl;
      }
      go (ok (some a)) e = last a e (evaluate_alarms s rules now (step_rule s rule now st).1).0 refl

  -- The loop leaves the shelving and the acknowledgements alone, and the timers of other ids.
  pub evaluate_keeps :
      (s : RuntimeState R) (rules : List (AlarmRule R)) (now : ℕ) (st : AlarmEngineState)
      → ((evaluate_alarms s rules now st).1.acked ≡ st.acked)
        × ((evaluate_alarms s rules now st).1.shelved_until ≡ st.shelved_until)
  unfolding evaluate_alarms
  evaluate_keeps s [] now st = (refl, refl)
  evaluate_keeps s (rule ∷ rules) now st =
      ground (
        arith,
        step_rule_keeps s rule now st,
        evaluate_keeps s rules now (step_rule s rule now st).1,
      )

  pub evaluate_alarms-fails :
      (s : RuntimeState R) (rule : AlarmRule R) (rules : List (AlarmRule R)) (now : ℕ)
      (st : AlarmEngineState)
      → (step_rule s rule now st).0 ≡ float_error
      → (evaluate_alarms s (rule ∷ rules) now st).1 ≡ st
  unfolding evaluate_alarms
  evaluate_alarms-fails s rule rules now st h =
      ground (arith, h, step_rule-float_error s rule now st h)

  pub evaluate_alarms-runs :
      (s : RuntimeState R) (rule : AlarmRule R) (rules : List (AlarmRule R)) (now : ℕ)
      (st : AlarmEngineState) (o : Option (AlarmRecord R))
      → (step_rule s rule now st).0 ≡ ok o
      → (evaluate_alarms s (rule ∷ rules) now st).1
        ≡ (evaluate_alarms s rules now (step_rule s rule now st).1).1
  unfolding evaluate_alarms
  evaluate_alarms-runs s rule rules now st o h = ground (arith, h)

  pub evaluate_frame :
      (s : RuntimeState R) (rules : List (AlarmRule R)) (now : ℕ) (st : AlarmEngineState)
      (id : String)
      → All (λ (r : AlarmRule R). id ≢ r.id) rules
      → lookup id (evaluate_alarms s rules now st).1.condition_true_since
        ≡ lookup id st.condition_true_since
  unfolding evaluate_alarms
  evaluate_frame s [] now st id h = refl
  evaluate_frame s (rule ∷ rules) now st id h = ground (
    arith,
    step_rule_frame s rule now st id (λ e. h.0 (sym e)),
    evaluate_frame s rules now (step_rule s rule now st).1 id h.1,
  )
