-- ===== src/Indicator/Averages.antt =====
-- `sma`, `ema` and `macd` (backend/app/services/technical_indicators.py). A period is at least 1.
use tw_stock_android_spec.Base.{
  ℕ, zero, suc, ◌+◌, ◌-◌, Option, none, some, List, [], ◌∷◌, ◌++◌, ltb, if◌then◌else◌, length, take,
  drop,
}
use tw_stock_android_spec.Base.Decimal.{Decimal, of_nat, ◌+ᴰ◌, ◌-ᴰ◌, ◌*ᴰ◌}
use tw_stock_android_spec.Outcome.{Result, ok, err, value_error, ◌>>=◌}
use tw_stock_android_spec.Indicator.Series.{ratio, mean, item, window, blanks, scan}

abbrev pub Line : Type 0
Line = List (Option Decimal)

-- One of the values that a step writes, for each index
unfoldable pub project {ℓ} : {A : Type ℓ} → (A → Decimal) → List (Option A) → Line
project part [] = []
project part (none ∷ rest) = none ∷ project part rest
project part (some x ∷ rest) = some (part x) ∷ project part rest

unfoldable pub sma_step : List Decimal → ℕ → ℕ → Unit {0} → Result (Unit {0} × Option Decimal)
sma_step values period index s =
    if ltb (index + 1) period
    then ok (tt, none)
    else (mean (window period index values) >>= λ m. ok (tt, some m))

unfoldable pub sma : List Decimal → ℕ → Result Line
sma values period = scan (sma_step values period) tt 0 (length values)

-- `(value - current) * alpha + current`
abbrev pub smoothed : Decimal → Decimal → Decimal → Decimal
smoothed alpha current value = (value -ᴰ current) *ᴰ alpha +ᴰ current

unfoldable pub ema_step : Decimal → List Decimal → ℕ → Decimal → Result (Decimal × Option Decimal)
ema_step alpha values index current = do
  value ← item values index
  ok (smoothed alpha current value, some (smoothed alpha current value))

-- `Decimal(2) / Decimal(period + 1)`
abbrev pub alpha_of : ℕ → Result Decimal
alpha_of period = ratio (of_nat 2) (of_nat (period + 1))

unfoldable pub ema_seeded : List Decimal → ℕ → Result Line
ema_seeded values period = do
  current ← mean (take period values)
  alpha ← alpha_of period
  rest ← scan (ema_step alpha values) current period (length values - period)
  ok (blanks (period - 1) ++ some current ∷ rest)

unfoldable pub ema : List Decimal → ℕ → Result Line
ema values period =
    if ltb (length values) period then ok (blanks (length values)) else ema_seeded values period

-- `a - b`, where both are there
unfoldable pub difference : Option Decimal → Option Decimal → Option Decimal
difference none b = none
difference (some a) none = none
difference (some a) (some b) = some (a -ᴰ b)

-- `zip(a, b, strict=True)`
unfoldable pub differences : Line → Line → Result Line
differences [] [] = ok []
differences [] (b ∷ bs) = err value_error
differences (a ∷ as') [] = err value_error
differences (a ∷ as') (b ∷ bs) = differences as' bs >>= λ rest. ok (difference a b ∷ rest)

-- The values that are there, with their indices.
unfoldable pub available_from : ℕ → Line → List (ℕ × Decimal)
available_from index [] = []
available_from index (none ∷ line) = available_from (index + 1) line
available_from index (some v ∷ line) = (index, v) ∷ available_from (index + 1) line

-- `xs[index] = x`
unfoldable pub write_at : ℕ → Option Decimal → Line → Line
write_at index x [] = []
write_at zero x (y ∷ ys) = x ∷ ys
write_at (suc index) x (y ∷ ys) = y ∷ write_at index x ys

unfoldable pub write_smoothed : Decimal → Decimal → List (ℕ × Decimal) → Line → Line
write_smoothed alpha current [] signal = signal
write_smoothed alpha current ((index, value) ∷ later) signal =
    write_smoothed alpha (smoothed alpha current value) later
      (write_at index (some (smoothed alpha current value)) signal)

abbrev pub second_values : List (ℕ × Decimal) → List Decimal
second_values [] = []
second_values ((index, value) ∷ rest) = value ∷ second_values rest

-- The seed stands at the index of the last value that it averages.
unfoldable pub signal_seeded : ℕ → List (ℕ × Decimal) → Line → Result Line
signal_seeded period available blank = do
  seed ← item available (period - 1)
  current ← mean (second_values (take period available))
  alpha ← alpha_of period
  ok (write_smoothed alpha current (drop period available) (write_at seed.0 (some current) blank))

unfoldable pub signal_line : ℕ → Line → Result Line
signal_line period line =
    let available = available_from 0 line in
    if ltb (length available) period
    then ok (blanks (length line))
    else signal_seeded period available (blanks (length line))

pub record Macd : Type 0 where
  pub line : Line
  pub signal : Line
  pub histogram : Line

unfoldable pub macd : List Decimal → ℕ → ℕ → ℕ → Result Macd
macd values fast_period slow_period signal_period = do
  fast ← ema values fast_period
  slow ← ema values slow_period
  line ← differences fast slow
  signal ← signal_line signal_period line
  histogram ← differences line signal
  ok (record { line = line; signal = signal; histogram = histogram })
