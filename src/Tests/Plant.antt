-- ===== src/Tests/Plant.antt =====
-- Two assets, one of them with a critical alarm.
use plantlens.Prelude.{ℕ, String, some, none, false, List, [], ◌∷◌}
use plantlens.Prelude.Dict.{Dict}
use plantlens.Frame.{TagFrame, num, good, Severity}
use plantlens.Records.{AlarmOp, AlarmRecord}
use plantlens.Assets.{SituationAssets}

abbrev tripped : AlarmRecord ℕ
tripped = record {
  alarm_id = "BUS_VOLTAGE_LOW";
  asset_id = "BUS-101";
  tag_id = "BUS_101_V";
  severity = Severity.critical;
  message = "Bus voltage low";
  raised_at = 1000000;
  value = num 36000;
  acked = false;
  priority = some 1;
  quality = good;
  evidence = record {
    tag_id = "BUS_101_V";
    observed_value = num 36000;
    comparator = AlarmOp.lt;
    threshold = some 38000;
    quality = good;
  };
}

abbrev assets : List String
assets = "MTR-301" ∷ "BUS-101" ∷ []

abbrev alarms : Dict (AlarmRecord ℕ)
alarms = ("BUS_VOLTAGE_LOW", tripped) ∷ []

abbrev situations : List SituationAssets
situations = record { root_asset_id = none; affected_asset_ids = "BUS-101" ∷ [] } ∷ []

abbrev no_tags : Dict (TagFrame ℕ)
no_tags = []
