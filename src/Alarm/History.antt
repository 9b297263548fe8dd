-- ===== src/Alarm/History.antt =====
-- Runs of the engine: the ticks that it saw, newest first, and what its timers say of them.
use mathlib.Core.List.{Memᴰ}
use plantlens.Prelude.{
  ℕ, String, ◌+◌, ◌*◌, ◌≤◌, Bool, true, false, Option, none, some, List, [], ◌∷◌, ◌≡◌, ◌≢◌, refl,
  sym, ap, ◌∙◌, subst, arith, FloatOps, ◌⊎◌, inl, inr, ltb, All, All-map,
}
use plantlens.Prelude.Dict.{Dict, lookup}
use plantlens.Records.{AlarmRule, AlarmRecord}
use plantlens.State.{RuntimeState}
use plantlens.Alarm.Condition.{ok}
use plantlens.Alarm.Engine.{AlarmEngineState, delay_ms, append_record, step_rule, evaluate_alarms}
use plantlens.Alarm.Raise.{
  Breached, Kept, step_rule-some, step_rule_timer, step_rule_frame, step_rule_keeps,
}
use plantlens.Alarm.Loop.{
  Outcome-cases, evaluate-Cons, evaluate_alarms-fails, evaluate_alarms-runs, evaluate_frame,
}

-- A tick of the engine, and whether it raised an exception.
pub record Tick (R : Type 0) : Type 0 where
  pub state : RuntimeState R
  pub now : ℕ
  pub raised : Bool

-- The rules' ids are distinct.
abbrev pub Distinct : {R : Type 0} → List (AlarmRule R) → Type 0
Distinct [] = Unit
Distinct (rule ∷ rules) = All (λ r. rule.id ≢ r.id) rules × Distinct rules

abbrev pub shelved_at : Dict ℕ → String → ℕ → Bool
shelved_at shelved id now = elim (lookup id shelved) [ none ↦ false | some t ↦ ltb now t ]

-- The shelving is the caller's: no function of the engine writes it.
module _ {R : Type 0} ⦃f : FloatOps R⦄ (shelved : Dict ℕ) where
  -- At every tick from the one at `t` on the rule was in breach, or was shelved, or the tick raised an
  -- exception; at the one at `t` it was in breach. The newest tick stands first.
  abbrev pub Held : AlarmRule R → ℕ → List (Tick R) → Type 0
  Held rule t [] = ⊥
  Held rule t (k ∷ h) =
      ((shelved_at shelved rule.id k.now ≡ true) ⊎ (k.raised ≡ true)) × Held rule t h
      ⊎ Breached k.state rule × ((k.now ≡ t) ⊎ Held rule t h)

  -- The timer of the rule, if it runs, tells since when the rule is held.
  abbrev pub TimerOk : List (Tick R) → AlarmEngineState → AlarmRule R → Type 0
  TimerOk h st rule = (t : ℕ) → lookup rule.id st.condition_true_since ≡ some t → Held rule t h

  -- What a reported record rests on, at the tick `k` after the ticks `h`: it was active and is kept for
  -- a rule that latches or wants an acknowledgement, or its rule has been held for its delay.
  pub record Justified (k : Tick R) (h : List (Tick R)) (rules : List (AlarmRule R))
      (a : AlarmRecord R) : Type 0 where
    pub rule : AlarmRule R
    pub listed : Memᴰ rule rules
    pub since :
        Kept k.state rule a ⊎ ((t : ℕ) × (t + delay_ms rule * 1000 ≤ k.now) × Held rule t (k ∷ h))

  step_TimerOk :
      (k : Tick R) (h : List (Tick R)) (rule : AlarmRule R) (st st' : AlarmEngineState)
      (o : Option (AlarmRecord R))
      → step_rule k.state rule k.now st ≡ (ok o, st')
      → st.shelved_until ≡ shelved
      → TimerOk h st rule
      → TimerOk (k ∷ h) st' rule
  step_TimerOk k h rule st st' o e hs timer t l =
      elim (step_rule_timer k.state rule k.now t st st' o e l) [
        | inl (sh, l') ↦
            inl (inl (subst (λ d. shelved_at d rule.id k.now ≡ true) hs sh), timer t l')
        | inr (b, inl l') ↦ inr (b, inr (timer t l'))
        | inr (b, inr (n, now)) ↦ inr (b, inl now)
      ]

  step_Justified :
      (k : Tick R) (h : List (Tick R)) (rules : List (AlarmRule R)) (rule : AlarmRule R)
      (st st' : AlarmEngineState) (a : AlarmRecord R)
      → step_rule k.state rule k.now st ≡ (ok (some a), st')
      → TimerOk (k ∷ h) st' rule
      → Justified k h (rule ∷ rules) a
  step_Justified k h rules rule st st' a e timer = record {
    rule = rule;
    listed = Memᴰ.head refl;
    since = elim (step_rule-some k.state rule k.now st a st' e) [
      | inl kept ↦ inl kept
      | inr r ↦ inr (r.since, r.delayed, timer r.since r.timer)
    ];
  }

  Justified-cons :
      (k : Tick R) (h : List (Tick R)) (rule : AlarmRule R) (rules : List (AlarmRule R))
      (a : AlarmRecord R)
      → Justified k h rules a
      → Justified k h (rule ∷ rules) a
  Justified-cons k h rule rules a j = record {
    rule = j.rule;
    listed = Memᴰ.tail j.listed;
    since = j.since;
  }

module _ {R : Type 0} ⦃f : FloatOps R⦄ (shelved : Dict ℕ) where
  TimerOk-frame :
      (h : List (Tick R)) (st st' : AlarmEngineState) (rule : AlarmRule R)
      → lookup rule.id st'.condition_true_since ≡ lookup rule.id st.condition_true_since
      → TimerOk shelved h st rule
      → TimerOk shelved h st' rule
  TimerOk-frame h st st' rule e timer t l = timer t (sym e ∙ l)

  step_others :
      (k : Tick R) (h : List (Tick R)) (rule : AlarmRule R) (rules : List (AlarmRule R))
      (st : AlarmEngineState)
      → All (λ (r : AlarmRule R). rule.id ≢ r.id) rules
      → All (TimerOk shelved h st) rules
      → All (TimerOk shelved h (step_rule k.state rule k.now st).1) rules
  step_others k h rule [] st d ok_all = tt
  step_others k h rule (r ∷ rules) st d ok_all = (
    TimerOk-frame h st (step_rule k.state rule k.now st).1 r
        (step_rule_frame k.state rule k.now st r.id d.0) ok_all.0,
    step_others k h rule rules st d.1 ok_all.1,
  )

  first_Justified :
      (k : Tick R) (h : List (Tick R)) (rule : AlarmRule R) (rules : List (AlarmRule R))
      (st st' : AlarmEngineState) (o : Option (AlarmRecord R)) (rest l : List (AlarmRecord R))
      → step_rule k.state rule k.now st ≡ (ok o, st')
      → TimerOk shelved (k ∷ h) st' rule
      → append_record o (ok rest) ≡ ok l
      → All (Justified shelved k h (rule ∷ rules)) rest
      → All (Justified shelved k h (rule ∷ rules)) l
  first_Justified k h rule rules st st' none rest l e timer j all_rest =
      subst (All (Justified shelved k h (rule ∷ rules))) (cc) all_rest
  first_Justified k h rule rules st st' (some a) rest l e timer j all_rest =
      subst (All (Justified shelved k h (rule ∷ rules))) {x = a ∷ rest} (cc)
        (step_Justified shelved k h rules rule st st' a e timer, all_rest)

  -- One tick keeps the timers right, and every record that it reports is justified.
  pub tick_lem :
      (k : Tick R) (h : List (Tick R)) (rules : List (AlarmRule R)) (st st' : AlarmEngineState)
      (l : List (AlarmRecord R))
      → evaluate_alarms k.state rules k.now st ≡ (ok l, st')
      → Distinct rules
      → st.shelved_until ≡ shelved
      → All (TimerOk shelved h st) rules
      → All (TimerOk shelved (k ∷ h) st') rules × All (Justified shelved k h rules) l
  unfolding evaluate_alarms
  tick_lem k h [] st st' l e d hs timers =
      (tt, subst (All (Justified shelved k h [])) {x = []} (ground arith) tt)
  tick_lem k h (rule ∷ rules) st st' l e d hs timers =
      let c = evaluate-Cons k.state rule rules k.now st l st' e in
      let st1 = (step_rule k.state rule k.now st).1 in
      let here : TimerOk shelved (k ∷ h) c.middle rule =
        step_TimerOk shelved k h rule st c.middle c.first c.step hs timers.0 in
      let others : All (TimerOk shelved h c.middle) rules =
        subst (λ z. All (TimerOk shelved h z) rules) (ap (λ p. p.1) c.step)
          (step_others k h rule rules st d.0 timers.1) in
      let kept : c.middle.shelved_until ≡ shelved =
        ap (λ p. p.1.shelved_until) (sym c.step)
        ∙ ((step_rule_keeps k.state rule k.now st).1 ∙ hs) in
      let (rest_timers, rest_justified) =
        tick_lem k h rules c.middle st' c.rest c.loop d.1 kept others in
      (
        (
          TimerOk-frame (k ∷ h) c.middle st' rule
              (ap (λ p. lookup rule.id p.1.condition_true_since) (sym c.loop)
                ∙ evaluate_frame k.state rules k.now c.middle rule.id d.0)
              here,
          rest_timers,
        ),
        first_Justified k h rule rules st c.middle c.first c.rest l c.step here c.joined (
            All-map (Justified shelved k h rules) (Justified shelved k h (rule ∷ rules))
              (Justified-cons shelved k h rule rules) c.rest rest_justified),
      )

  TimerOk-skip :
      (k : Tick R) (h : List (Tick R)) (st : AlarmEngineState) (rule : AlarmRule R)
      → k.raised ≡ true
      → TimerOk shelved h st rule
      → TimerOk shelved (k ∷ h) st rule
  TimerOk-skip k h st rule e timer t l = inl (inr e, timer t l)

  -- A tick that raises an exception has passed the rules in front of the one that raised it.
  pub failed_tick_lem :
      (k : Tick R) (h : List (Tick R)) (rules : List (AlarmRule R)) (st : AlarmEngineState)
      → k.raised ≡ true
      → Distinct rules
      → st.shelved_until ≡ shelved
      → All (TimerOk shelved h st) rules
      → All (TimerOk shelved (k ∷ h) (evaluate_alarms k.state rules k.now st).1) rules
  failed_tick_lem k h [] st e d hs timers = tt
  failed_tick_lem k h (rule ∷ rules) st e d hs timers =
      elim (Outcome-cases (step_rule k.state rule k.now st).0) [
        | inl fails ↦
            subst (λ z. All (TimerOk shelved (k ∷ h) z) (rule ∷ rules))
              (sym (evaluate_alarms-fails k.state rule rules k.now st fails))
              (All-map (TimerOk shelved h st) (TimerOk shelved (k ∷ h) st)
                (λ r timer. TimerOk-skip k h st r e timer) (rule ∷ rules) timers)
        | inr (o, runs) ↦
            let st1 = (step_rule k.state rule k.now st).1 in
            let here : TimerOk shelved (k ∷ h) st1 rule =
              step_TimerOk shelved k h rule st st1 o (ground (arith, runs)) hs timers.0 in
            let after =
              failed_tick_lem k h rules st1 e d.1 ((step_rule_keeps k.state rule k.now st).1 ∙ hs)
                (step_others k h rule rules st d.0 timers.1) in
            subst (λ z. All (TimerOk shelved (k ∷ h) z) (rule ∷ rules))
              (sym (evaluate_alarms-runs k.state rule rules k.now st o runs))
              (
                TimerOk-frame (k ∷ h) st1 (evaluate_alarms k.state rules k.now st1).1 rule
                    (evaluate_frame k.state rules k.now st1 rule.id d.0) here,
                after,
              )
      ]

  pub no_timers :
      (rs : List (AlarmRule R)) (st : AlarmEngineState)
      → st.condition_true_since ≡ []
      → All (TimerOk shelved [] st) rs
  unfolding lookup
  no_timers [] st e = tt
  no_timers (rule ∷ rs) st e = (λ t l. cc (ap (lookup rule.id) e), no_timers rs st e)
