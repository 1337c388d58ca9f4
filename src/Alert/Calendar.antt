-- ===== src/Alert/Calendar.antt =====
-- `WeekendOnlyCalendar` (backend/app/adapters/weekend_calendar.py) and
-- `AlertEvaluationService._latest_completed` (backend/app/services/alerts.py), on dates as the number
-- of days from 0001-01-01, a Monday, which is day 1.
use tw_stock_android_spec.Base.{
  ℕ, zero, suc, ◌+◌, ◌-◌, ◌%◌, ◌≤◌, ◌<◌, ◌≡◌, Bool, true, false, ltb, arith,
}

-- `value.weekday() < 5`
unfoldable pub is_trading_day : ℕ → Bool
is_trading_day d = ltb ((d + 6) % 7) 5

-- The loop of `previous_trading_day`; a weekend is two days, so two rounds are enough.
unfoldable pub back : ℕ → ℕ → ℕ
back zero d = d
back (suc fuel) d = elim (is_trading_day d) [ true ↦ d | false ↦ back fuel (d - 1) ]

unfoldable pub previous_trading_day : ℕ → ℕ
previous_trading_day d = back 2 (d - 1)

-- `_latest_completed`, whose loop makes at most one round.
unfoldable pub latest_from : ℕ → ℕ → ℕ
latest_from zero d = d
latest_from (suc fuel) d = elim (is_trading_day d) [
  | true ↦ d
  | false ↦ latest_from fuel (previous_trading_day d)
]

unfoldable pub latest_completed : ℕ → ℕ
latest_completed d = latest_from 1 d

-- From the first Monday on, the latest completed day is a trading day, is no later than today, and no
-- trading day lies between the two.
pub latest_completed_lem :
    (today day : ℕ)
    → 1 ≤ today
    → (is_trading_day (latest_completed today) ≡ true)
      × (latest_completed today ≤ today)
      × (latest_completed today < day → day ≤ today → is_trading_day day ≡ false)
unfolding is_trading_day back previous_trading_day latest_from latest_completed
latest_completed_lem today day h = ground arith
