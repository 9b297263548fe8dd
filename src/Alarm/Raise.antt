-- ===== src/Alarm/Raise.antt =====
-- What one step of the engine may report, and what it leaves in the timers.
use plantlens.Prelude.{
  ℕ, String, ◌+◌, ◌*◌, ◌≤◌, Bool, true, false, Option, none, some, ◌≡◌, ◌≢◌, refl, arith, FloatOps,
  ◌⊎◌, inl, inr, ◌||◌, eq_iff, Bool-cases, Option-cases,
}
use plantlens.Prelude.Dict.{lookup, has_key, contains, lookup-insert, lookup-remove}
use plantlens.Frame.{TagFrame, Severity, is_good}
use plantlens.Records.{AlarmRule, AlarmRecord}
use plantlens.State.{RuntimeState, get_tag}
use plantlens.Alarm.Condition.{Outcome, ok, float_error, evaluate_condition}
use plantlens.Alarm.Engine.{
  AlarmEngineState, is_shelved, is_acked, delay_ms, new_record, start_timer, breached_since, judge,
  step_rule,
}

module _ {R : Type 0} ⦃f : FloatOps R⦄ where
  -- The rule's condition holds on a good frame of its tag.
  pub record Breached (s : RuntimeState R) (rule : AlarmRule R) : Type 0 where
    pub tag : TagFrame R
    pub severity : Severity
    pub latest : get_tag s rule.tag ≡ some tag
    pub usable : is_good tag.quality ≡ true
    pub breached :
        evaluate_condition rule tag.value (has_key rule.id s.active_alarms) ≡ ok (true, severity)

  -- A record that was active already, kept for a rule that latches or wants an acknowledgement.
  pub record Kept (s : RuntimeState R) (rule : AlarmRule R) (a : AlarmRecord R) : Type 0 where
    pub was_active : lookup rule.id s.active_alarms ≡ some a
    pub wanted : (rule.latching || rule.requires_ack) ≡ true

  -- A record that this step made: the condition holds, and has held since `since`, for the delay.
  pub record Raised (s : RuntimeState R) (rule : AlarmRule R) (now : ℕ) (st : AlarmEngineState)
      (a : AlarmRecord R) : Type 0 where
    pub breach : Breached s rule
    pub since : ℕ
    pub timer : lookup rule.id st.condition_true_since ≡ some since
    pub delayed : since + delay_ms rule * 1000 ≤ now
    pub content : a ≡ new_record rule breach.tag breach.severity (is_acked st rule.id)

  breached_since-some :
      (s : RuntimeState R) (rule : AlarmRule R) (tag : TagFrame R) (v : Severity) (now t : ℕ)
      (st : AlarmEngineState) (a : AlarmRecord R) (st' : AlarmEngineState)
      → breached_since s rule tag v now t st ≡ (ok (some a), st')
      → Kept s rule a
        ⊎ ((t + delay_ms rule * 1000 ≤ now)
            × (a ≡ new_record rule tag v (is_acked st rule.id))
            × (st' ≡ st))
  unfolding step_rule
  breached_since-some s rule tag v now t st a st' h = ground arith

  judge-some :
      (s : RuntimeState R) (rule : AlarmRule R) (tag : TagFrame R) (now : ℕ) (st : AlarmEngineState)
      (r : Outcome (Bool × Severity)) (a : AlarmRecord R) (st' : AlarmEngineState)
      → get_tag s rule.tag ≡ some tag
      → is_good tag.quality ≡ true
      → evaluate_condition rule tag.value (has_key rule.id s.active_alarms) ≡ r
      → judge s rule tag now st r ≡ (ok (some a), st')
      → Kept s rule a ⊎ Raised s rule now st' a
  unfolding step_rule
  judge-some s rule tag now st float_error a st' g q e h = ground arith
  judge-some s rule tag now st (ok (false, v)) a st' g q e h = ground arith
  judge-some s rule tag now st (ok (true, v)) a st' g q e h =
      elim (Option-cases (lookup rule.id st.condition_true_since)) [
        | inl n ↦
            elim (breached_since-some s rule tag v now now (start_timer rule.id now st) a st'
              (rw (n, step_rule) at h)) [
                | inl k ↦ inl k
                | inr (d, c, e') ↦ inr (record {
                  breach = record { tag = tag; severity = v; latest = g; usable = q; breached = e };
                  since = now;
                  timer = ground (
                    arith,
                    lookup-insert rule.id rule.id now st.condition_true_since,
                    eq_iff rule.id rule.id,
                  );
                  delayed = d;
                  content = ground arith;
                })
              ]
        | inr (t, n) ↦
            elim (breached_since-some s rule tag v now t st a st' (rw (n, step_rule) at h)) [
              | inl k ↦ inl k
              | inr (d, c, e') ↦ inr (record {
                breach = record { tag = tag; severity = v; latest = g; usable = q; breached = e };
                since = t;
                timer = ground arith;
                delayed = d;
                content = ground arith;
              })
            ]
      ]

  -- A record that a step reports was active and is kept, or is raised by a breach that has lasted for
  -- the delay.
  pub step_rule-some :
      (s : RuntimeState R) (rule : AlarmRule R) (now : ℕ) (st : AlarmEngineState)
      (a : AlarmRecord R) (st' : AlarmEngineState)
      → step_rule s rule now st ≡ (ok (some a), st')
      → Kept s rule a ⊎ Raised s rule now st' a
  unfolding step_rule
  step_rule-some s rule now st a st' h = elim (Option-cases (get_tag s rule.tag)) [
    | inl n ↦ ground arith
    | inr (tag, g) ↦ elim (Bool-cases (is_good tag.quality)) [
      | inl q ↦
          judge-some s rule tag now st
            (evaluate_condition rule tag.value (has_key rule.id s.active_alarms)) a st' g q refl
            (ground arith)
      | inr q ↦ ground arith
    ]
  ]

  -- An exception is raised before the step writes anything.
  judge-float_error :
      (s : RuntimeState R) (rule : AlarmRule R) (tag : TagFrame R) (now : ℕ) (st : AlarmEngineState)
      (r : Outcome (Bool × Severity))
      → (judge s rule tag now st r).0 ≡ float_error
      → (judge s rule tag now st r).1 ≡ st
  unfolding step_rule
  judge-float_error s rule tag now st float_error h = refl
  judge-float_error s rule tag now st (ok (false, v)) h = ground (arith, h)
  judge-float_error s rule tag now st (ok (true, v)) h =
      elim (Option-cases (lookup rule.id st.condition_true_since)) [
        | inl n ↦ ground (arith, h, n)
        | inr (t, n) ↦ ground (arith, h, n)
      ]

  pub step_rule-float_error :
      (s : RuntimeState R) (rule : AlarmRule R) (now : ℕ) (st : AlarmEngineState)
      → (step_rule s rule now st).0 ≡ float_error
      → (step_rule s rule now st).1 ≡ st
  unfolding step_rule
  step_rule-float_error s rule now st h = elim (Bool-cases (is_shelved st rule.id now)) [
    | inl sh ↦ rw sh refl
    | inr sh ↦ elim (Option-cases (get_tag s rule.tag)) [
      | inl n ↦ ground (arith, h, sh, n)
      | inr (tag, g) ↦ elim (Bool-cases (is_good tag.quality)) [
        | inl q ↦
            rw (sh, g, q)
              (judge-float_error s rule tag now st
                (evaluate_condition rule tag.value (has_key rule.id s.active_alarms))
                (ground (arith, h, sh, g, q)))
        | inr q ↦ ground (arith, h, sh, g, q)
      ]
    ]
  ]

  -- A record that a step reports stands on a good frame, or is a latched one.
  pub step_rule_evidence :
      (s : RuntimeState R) (rule : AlarmRule R) (now : ℕ) (st : AlarmEngineState)
      (a : AlarmRecord R) (st' : AlarmEngineState)
      → step_rule s rule now st ≡ (ok (some a), st')
      → ((tag : TagFrame R) × (get_tag s rule.tag ≡ some tag) × (is_good tag.quality ≡ true))
        ⊎ ((lookup rule.id s.active_alarms ≡ some a)
            × (rule.latching ≡ true)
            × (contains rule.id st.acked ≡ false))
  unfolding step_rule
  step_rule_evidence s rule now st a st' h = elim (Option-cases (get_tag s rule.tag)) [
    | inl n ↦ inr (ground arith, ground arith, ground arith)
    | inr (tag, g) ↦ elim (Bool-cases (is_good tag.quality)) [
      | inl q ↦ inl (tag, g, q)
      | inr q ↦ inr (ground arith, ground arith, ground arith)
    ]
  ]

  -- A shelved rule reports nothing and leaves the engine as it was.
  pub step_rule_shelved :
      (s : RuntimeState R) (rule : AlarmRule R) (now : ℕ) (st : AlarmEngineState)
      → is_shelved st rule.id now ≡ true
      → step_rule s rule now st ≡ (ok none, st)
  unfolding step_rule
  step_rule_shelved s rule now st h = ground arith

  judge_timer :
      (s : RuntimeState R) (rule : AlarmRule R) (tag : TagFrame R) (now t : ℕ)
      (st st' : AlarmEngineState) (r : Outcome (Bool × Severity)) (o : Option (AlarmRecord R))
      → get_tag s rule.tag ≡ some tag
      → is_good tag.quality ≡ true
      → evaluate_condition rule tag.value (has_key rule.id s.active_alarms) ≡ r
      → judge s rule tag now st r ≡ (ok o, st')
      → lookup rule.id st'.condition_true_since ≡ some t
      → Breached s rule
        × ((lookup rule.id st.condition_true_since ≡ some t)
            ⊎ ((lookup rule.id st.condition_true_since ≡ none) × (now ≡ t)))
  unfolding step_rule
  judge_timer s rule tag now t st st' float_error o g q e h l = ground arith
  judge_timer s rule tag now t st st' (ok (false, v)) o g q e h l =
      ground (arith, lookup-remove rule.id rule.id st.condition_true_since, eq_iff rule.id rule.id)
  judge_timer s rule tag now t st st' (ok (true, v)) o g q e h l = (
    record { tag = tag; severity = v; latest = g; usable = q; breached = e },
    ground
        (arith, lookup-insert rule.id rule.id now st.condition_true_since, eq_iff rule.id rule.id),
  )

  -- The timer that a step leaves for its rule: of a shelved rule the old one, and otherwise the rule is
  -- in breach, and the timer is the old one or, where there was none, starts now.
  pub step_rule_timer :
      (s : RuntimeState R) (rule : AlarmRule R) (now t : ℕ) (st st' : AlarmEngineState)
      (o : Option (AlarmRecord R))
      → step_rule s rule now st ≡ (ok o, st')
      → lookup rule.id st'.condition_true_since ≡ some t
      → ((is_shelved st rule.id now ≡ true) × (lookup rule.id st.condition_true_since ≡ some t))
        ⊎ (Breached s rule
            × ((lookup rule.id st.condition_true_since ≡ some t)
                ⊎ ((lookup rule.id st.condition_true_since ≡ none) × (now ≡ t))))
  unfolding step_rule
  step_rule_timer s rule now t st st' o h l = elim (Bool-cases (is_shelved st rule.id now)) [
    | inl sh ↦ inl (sh, ground arith)
    | inr sh ↦ elim (Option-cases (get_tag s rule.tag)) [
      | inl n ↦
          ground
            (arith, lookup-remove rule.id rule.id st.condition_true_since, eq_iff rule.id rule.id)
      | inr (tag, g) ↦ elim (Bool-cases (is_good tag.quality)) [
        | inl q ↦ inr (
            judge_timer s rule tag now t st st'
              (evaluate_condition rule tag.value (has_key rule.id s.active_alarms)) o g q refl
              (ground arith) l)
        | inr q ↦
            ground
              (arith, lookup-remove rule.id rule.id st.condition_true_since, eq_iff rule.id rule.id)
      ]
    ]
  ]

  -- A step leaves the timers of the other rules, the acknowledgements and the shelving alone.
  pub step_rule_frame :
      (s : RuntimeState R) (rule : AlarmRule R) (now : ℕ) (st : AlarmEngineState) (k : String)
      → rule.id ≢ k
      → lookup k (step_rule s rule now st).1.condition_true_since ≡ lookup k st.condition_true_since
  unfolding step_rule
  step_rule_frame s rule now st k h = ground (
    arith,
    lookup-insert rule.id k now st.condition_true_since,
    lookup-remove rule.id k st.condition_true_since,
    eq_iff rule.id k,
  )

  pub step_rule_keeps :
      (s : RuntimeState R) (rule : AlarmRule R) (now : ℕ) (st : AlarmEngineState)
      → ((step_rule s rule now st).1.acked ≡ st.acked)
        × ((step_rule s rule now st).1.shelved_until ≡ st.shelved_until)
  unfolding step_rule
  step_rule_keeps s rule now st = ground arith
