-- ===== src/Core/Models/Enums.antt =====
-- core/models.py, the literals and enumerations. A `datetime` is an instant, in microseconds since
-- the epoch: the program compares aware datetimes only, which `astimezone` does not move.
use btc_bot.Prelude.{ℕ, ◌/◌, ◌%◌, ◌*◌}

abbrev pub Time : Type 0
Time = ℕ

abbrev pub second : ℕ
second = 1_000_000

-- `timedelta(minutes=m)` and `timedelta(hours=h)`
abbrev pub minutes : ℕ → ℕ
minutes m = m * 60 * second

abbrev pub hours : ℕ → ℕ
hours h = h * 3600 * second

-- `datetime.hour` in UTC
abbrev pub hour_of : Time → ℕ
hour_of t = t / hours 1 % 24

pub data Direction : Type 0 where
  long short : Direction

pub data PositionStatus : Type 0 where
  opened partial closed : PositionStatus

pub data BotMode : Type 0 where
  paper live : BotMode

pub data QualityStatus : Type 0 where
  ready degraded unavailable : QualityStatus

pub data SessionBucket : Type 0 where
  asia eu eu_us us : SessionBucket

pub data VolatilityBucket : Type 0 where
  low normal high : VolatilityBucket

pub data RegimeState : Type 0 where
  normal uptrend downtrend compression crowded_leverage post_liquidation : RegimeState

-- `sweep_side`: the strings "LOW" and "HIGH"
pub data SweepSide : Type 0 where
  low high : SweepSide
