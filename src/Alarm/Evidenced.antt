-- ===== src/Alarm/Evidenced.antt =====
-- What a report of the engine stands on at its own tick.
use mathlib.Core.List.{Memᴰ}
use plantlens.Prelude.{String, true, false, some, List, ◌≡◌, FloatOps, ◌⊎◌}
use plantlens.Prelude.Dict.{lookup, contains}
use plantlens.Records.{AlarmRule, AlarmRecord}
use plantlens.State.{RuntimeState}
use plantlens.Frame.{TagFrame, is_good}
use plantlens.State.{get_tag}

module _ {R : Type 0} ⦃f : FloatOps R⦄ where
  -- The record stands for a listed rule whose tag has a good frame, or for a latching rule that was active
  -- with it and that nobody acknowledged.
  pub record Evidenced (s : RuntimeState R) (rules : List (AlarmRule R)) (acked : List String)
      (a : AlarmRecord R) : Type 0 where
    pub rule : AlarmRule R
    pub listed : Memᴰ rule rules
    pub evidence :
        ((tag : TagFrame R) × (get_tag s rule.tag ≡ some tag) × (is_good tag.quality ≡ true))
        ⊎ ((lookup rule.id s.active_alarms ≡ some a)
            × (rule.latching ≡ true)
            × (contains rule.id acked ≡ false))
