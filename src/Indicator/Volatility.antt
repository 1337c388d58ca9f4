-- ===== src/Indicator/Volatility.antt =====
-- `atr`, `obv` and `bollinger` (backend/app/services/technical_indicators.py). A period is at least 1.
use Prim.Native.Nat.{min}
use tw_stock_android_spec.Base.{
  ℕ, ◌-◌, Option, none, some, List, [], ◌∷◌, ◌++◌, ltb, if◌then◌else◌, length, take,
}
use tw_stock_android_spec.Base.Decimal.{Decimal, of_nat, ◌+ᴰ◌, ◌-ᴰ◌, max_ᴰ, ltb_ᴰ, abs}
use tw_stock_android_spec.Outcome.{Result, ok, err, assertion_error, ◌>>=◌}
use tw_stock_android_spec.Candle.Aggregation.{Candle}
use tw_stock_android_spec.Indicator.Series.{mean, item, window, blanks, scan}
use tw_stock_android_spec.Indicator.Averages.{Line, sma, project}
use tw_stock_android_spec.Indicator.Oscillators.{averaged}

unfoldable pub ranges_from : Candle → List Candle → List Decimal
ranges_from previous [] = []
ranges_from previous (c ∷ candles) =
    max_ᴰ (max_ᴰ (c.high -ᴰ c.low) (abs (c.high -ᴰ previous.close))) (abs (c.low -ᴰ previous.close))
    ∷ ranges_from c candles

unfoldable pub true_ranges : List Candle → List Decimal
true_ranges [] = []
true_ranges (c ∷ candles) = (c.high -ᴰ c.low) ∷ ranges_from c candles

unfoldable pub atr_step : List Decimal → ℕ → ℕ → Decimal → Result (Decimal × Option Decimal)
atr_step ranges period index current = do
  range ← item ranges index
  next ← averaged period current range
  ok (next, some next)

unfoldable pub atr_seeded : List Decimal → ℕ → Result Line
atr_seeded ranges period = do
  current ← mean (take period ranges)
  rest ← scan (atr_step ranges period) current period (length ranges - period)
  ok (blanks (period - 1) ++ some current ∷ rest)

unfoldable pub atr : List Candle → ℕ → Result Line
atr candles period =
    let ranges = true_ranges candles in
    if ltb (length ranges) period then ok (blanks (length candles)) else atr_seeded ranges period

-- What a day adds to the balance
abbrev pub signed_volume : Decimal → Decimal → Decimal → Decimal
signed_volume previous close volume =
    if ltb_ᴰ previous close
    then volume
    else if ltb_ᴰ close previous
    then of_nat 0 -ᴰ volume
    else of_nat 0

-- A day without a volume has no value and leaves the balance.
unfoldable pub obv_next : Decimal → Candle → Option ℕ → Decimal → Decimal × Option Decimal
obv_next previous c none current = (current, none)
obv_next previous c (some shares) current =
    let next = current +ᴰ signed_volume previous c.close (of_nat shares) in (next, some next)

unfoldable pub obv_from : Decimal → Decimal → List Candle → Line
obv_from previous current [] = []
obv_from previous current (c ∷ candles) =
    let next = obv_next previous c c.volume_shares current in
    next.1 ∷ obv_from c.close next.0 candles

unfoldable pub obv : List Candle → Line
obv [] = []
obv (c ∷ candles) = some (of_nat 0) ∷ obv_from c.close (of_nat 0) candles

pub record Bands : Type 0 where
  pub upper : Line
  pub middle : Line
  pub lower : Line

abbrev pub Band : Type 0
Band = Decimal × Decimal

-- `band` is the arithmetic of 34 digits on a window, its mean and the multiplier: the upper and the
-- lower band.
module _ (band : List Decimal → Decimal → Decimal → Band) where
  unfoldable pub band_at : List Decimal → Decimal → Option Decimal → Result (Unit {0} × Option Band)
  band_at values multiplier none = err assertion_error
  band_at values multiplier (some m) = ok (tt, some (band values m multiplier))

  unfoldable pub band_step :
      List Decimal → Line → ℕ → Decimal → ℕ → Unit {0} → Result (Unit {0} × Option Band)
  band_step values middle period multiplier index s = do
    m ← item middle index
    band_at (window period index values) multiplier m

  unfoldable pub bands_of : List Decimal → Line → ℕ → Decimal → Result (List (Option Band))
  bands_of values middle period multiplier = do
    rest ←
        scan (band_step values middle period multiplier) tt (period - 1)
          (length values - (period - 1))
    ok (blanks (min (length values) (period - 1)) ++ rest)

  unfoldable pub bollinger : List Decimal → ℕ → Decimal → Result Bands
  bollinger values period multiplier = do
    middle ← sma values period
    written ← bands_of values middle period multiplier
    ok (record {
      upper = project (λ b. b.0) written;
      middle = middle;
      lower = project (λ b. b.1) written;
    })
