-- ===== src/Time.antt =====
-- `src/api/utils/time.py` and the day arithmetic of `src/worker/limits.py` and
-- `src/api/functions.py`. An instant is the number of microseconds since 1970 in UTC.
use mail_tester.Prelude.{ℕ, ◌+◌, ◌-◌, ◌%◌, ◌≤◌, ◌<◌, ◌≡◌, Option, none, some, arith}

-- A `datetime`: one with no zone has the wall clock that it shows, one with a zone is an instant.
pub data Datetime : Type 0 where
  naive : ℕ → Datetime
  aware : ℕ → Datetime

-- What a field of a document may hold where a date is expected. A text stands by what
-- `datetime.fromisoformat` makes of it, `none` where it raises.
pub data DateValue : Type 0 where
  null : DateValue
  text : Option Datetime → DateValue
  date : Datetime → DateValue
  other : DateValue

abbrev from_datetime : Datetime → ℕ
from_datetime (naive wall) = wall
from_datetime (aware instant) = instant

unfoldable pub ensure_utc_aware : DateValue → Option ℕ
ensure_utc_aware null = none
ensure_utc_aware (text none) = none
ensure_utc_aware (text (some dt)) = some (from_datetime dt)
ensure_utc_aware (date dt) = some (from_datetime dt)
ensure_utc_aware other = none

abbrev pub second : ℕ
second = 1_000_000

abbrev pub minute : ℕ
minute = 60_000_000

abbrev pub day : ℕ
day = 86_400_000_000

unfoldable pub utc_day_start : ℕ → ℕ
utc_day_start dt = dt - dt % day

unfoldable pub get_utc_tomorrow_start : ℕ → ℕ
unfolding utc_day_start
get_utc_tomorrow_start now = utc_day_start now + day

-- The version of `src/api/functions.py`, which adds the day first.
unfoldable pub utc_tomorrow_start : ℕ → ℕ
utc_tomorrow_start now = let tomorrow = now + day in tomorrow - tomorrow % day

-- Both computations of the next reset agree, and it lies after now, by at most a day.
pub tomorrow_starts :
    (now : ℕ)
    → (get_utc_tomorrow_start now ≡ utc_tomorrow_start now)
      × (now < get_utc_tomorrow_start now)
      × (get_utc_tomorrow_start now ≤ now + day)
      × (get_utc_tomorrow_start now % day ≡ 0)
unfolding get_utc_tomorrow_start utc_tomorrow_start
tomorrow_starts now = omega arith
