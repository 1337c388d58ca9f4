-- ===== src/Indicator/Oscillators.antt =====
-- `rsi`, `stochastic` and `williams_r` (backend/app/services/technical_indicators.py). A period is at
-- least 1.
use Prim.Native.Nat.{min}
use tw_stock_android_spec.Base.{
  ℕ, ◌-◌, Option, none, some, List, [], ◌∷◌, ◌++◌, ltb, leb, if◌then◌else◌, length, take,
}
use tw_stock_android_spec.Base.Decimal.{
  Decimal, of_nat, of_int, ◌+ᴰ◌, ◌-ᴰ◌, ◌*ᴰ◌, max_ᴰ, min_ᴰ, is_zero,
}
use tw_stock_android_spec.Base.Int.{negsuc}
use tw_stock_android_spec.Outcome.{Result, ok, err, value_error, ◌>>=◌}
use tw_stock_android_spec.Candle.Aggregation.{Candle}
use tw_stock_android_spec.Indicator.Series.{ratio, same, mean, item, window, blanks, scan}
use tw_stock_android_spec.Indicator.Averages.{Line}

unfoldable pub changes_from : Decimal → List Decimal → List Decimal
changes_from previous [] = []
changes_from previous (v ∷ values) = (v -ᴰ previous) ∷ changes_from v values

-- `[values[i] - values[i - 1] for i in range(1, len(values))]`
unfoldable pub changes_of : List Decimal → List Decimal
changes_of [] = []
changes_of (v ∷ values) = changes_from v values

abbrev pub gain_of : Decimal → Decimal
gain_of change = max_ᴰ change (of_nat 0)

abbrev pub loss_of : Decimal → Decimal
loss_of change = max_ᴰ (of_nat 0 -ᴰ change) (of_nat 0)

abbrev pub map_decimals : (Decimal → Decimal) → List Decimal → List Decimal
map_decimals f [] = []
map_decimals f (v ∷ values) = f v ∷ map_decimals f values

-- `(average * Decimal(period - 1) + value) / Decimal(period)`
abbrev pub averaged : ℕ → Decimal → Decimal → Result Decimal
averaged period average value = ratio (average *ᴰ of_nat (period - 1) +ᴰ value) (of_nat period)

unfoldable pub next_averages : List Decimal → ℕ → ℕ → Decimal × Decimal → Result (Decimal × Decimal)
next_averages changes period index averages =
    if ltb period index
    then (do
      change ← item changes (index - 1)
      gain ← averaged period averages.0 (gain_of change)
      loss ← averaged period averages.1 (loss_of change)
      ok (gain, loss))
    else ok averages

unfoldable pub rsi_value : Decimal × Decimal → Result Decimal
rsi_value averages = if is_zero averages.1 then ok (of_nat 100) else (do
  strength ← ratio averages.0 averages.1
  part ← ratio (of_nat 100) (of_nat 1 +ᴰ strength)
  ok (of_nat 100 -ᴰ part))

unfoldable pub rsi_step :
    List Decimal → ℕ → ℕ → Decimal × Decimal → Result ((Decimal × Decimal) × Option Decimal)
rsi_step changes period index averages = do
  next ← next_averages changes period index averages
  value ← rsi_value next
  ok (next, some value)

unfoldable pub rsi_seeded : List Decimal → ℕ → ℕ → Result Line
rsi_seeded changes period size = do
  gain ← mean (map_decimals gain_of (take period changes))
  loss ← mean (map_decimals loss_of (take period changes))
  rest ← scan (rsi_step changes period) (gain, loss) period (size - period)
  ok (blanks period ++ rest)

unfoldable pub rsi : List Decimal → ℕ → Result Line
rsi values period =
    if leb (length values) period
    then ok (blanks (length values))
    else rsi_seeded (changes_of values) period (length values)

abbrev pub highest_from : Decimal → List Candle → Decimal
highest_from best [] = best
highest_from best (c ∷ candles) = highest_from (max_ᴰ best c.high) candles

abbrev pub lowest_from : Decimal → List Candle → Decimal
lowest_from best [] = best
lowest_from best (c ∷ candles) = lowest_from (min_ᴰ best c.low) candles

-- The highest and the lowest price of a window; of an empty one there is none.
unfoldable pub extremes : List Candle → Result (Decimal × Decimal)
extremes [] = err value_error
extremes (c ∷ candles) = ok (highest_from c.high candles, lowest_from c.low candles)

-- The running averages, and the two values that the step writes
abbrev pub Kd : Type 0
Kd = Decimal × Decimal

unfoldable pub smooth_kd : ℕ → ℕ → Kd → Decimal → Result (Kd × Option Kd)
smooth_kd k_smoothing d_smoothing s rsv = do
  k ← averaged k_smoothing s.0 rsv
  d ← averaged d_smoothing s.1 k
  ok ((k, d), some (k, d))

-- A window without a range is passed over.
unfoldable pub kd_within : ℕ → ℕ → Kd → Decimal → Decimal × Decimal → Result (Kd × Option Kd)
kd_within k_smoothing d_smoothing s close range = if same range.0 range.1 then ok (s, none) else (do
  share ← ratio (close -ᴰ range.1) (range.0 -ᴰ range.1)
  smooth_kd k_smoothing d_smoothing s (share *ᴰ of_nat 100))

unfoldable pub kd_step : List Candle → ℕ → ℕ → ℕ → ℕ → Kd → Result (Kd × Option Kd)
kd_step candles period k_smoothing d_smoothing index s = do
  range ← extremes (window period index candles)
  candle ← item candles index
  kd_within k_smoothing d_smoothing s candle.close range

-- The two lists are kept as one, of pairs.
unfoldable pub stochastic : List Candle → ℕ → ℕ → ℕ → Result (List (Option Kd))
stochastic candles period k_smoothing d_smoothing = do
  rest ←
      scan (kd_step candles period k_smoothing d_smoothing) (of_nat 50, of_nat 50) (period - 1)
        (length candles - (period - 1))
  ok (blanks (min (length candles) (period - 1)) ++ rest)

unfoldable pub williams_within : Decimal → Decimal × Decimal → Result (Option Decimal)
williams_within close range = if same range.0 range.1 then ok none else (do
  share ← ratio (range.0 -ᴰ close) (range.0 -ᴰ range.1)
  ok (some (share *ᴰ of_int (negsuc 99))))

unfoldable pub williams_step : List Candle → ℕ → ℕ → Unit {0} → Result (Unit {0} × Option Decimal)
williams_step candles period index s = do
  range ← extremes (window period index candles)
  candle ← item candles index
  value ← williams_within candle.close range
  ok (tt, value)

unfoldable pub williams_r : List Candle → ℕ → Result Line
williams_r candles period = do
  rest ← scan (williams_step candles period) tt (period - 1) (length candles - (period - 1))
  ok (blanks (min (length candles) (period - 1)) ++ rest)
