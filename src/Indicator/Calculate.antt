-- ===== src/Indicator/Calculate.antt =====
-- `TechnicalParameters.validate` and `TechnicalIndicatorService.calculate`
-- (backend/app/services/technical_indicators.py).
use tw_stock_android_spec.Base.{ℕ, Bool, false, ◌&&◌, ◌||◌, Option, List, [], ◌∷◌, ◌++◌, any}
use tw_stock_android_spec.Base.Assoc.{Pair, pair_eq, put}
use tw_stock_android_spec.Base.Int.{ℤ, pos, pos_part, leb_ℤ}
use tw_stock_android_spec.Base.Decimal.{Decimal, of_nat, leb_ᴰ}
use tw_stock_android_spec.Outcome.{Result, ok, err, value_error, ◌>>=◌, ◌>>◌, raise_if}
use tw_stock_android_spec.Candle.Aggregation.{Candle}
use tw_stock_android_spec.Indicator.Averages.{Line, sma, ema, macd, project}
use tw_stock_android_spec.Indicator.Oscillators.{rsi, Kd, stochastic, williams_r}
use tw_stock_android_spec.Indicator.Volatility.{atr, obv, Band, bollinger}

pub record TechnicalParameters : Type 0 where
  pub ma_periods : List ℤ
  pub ema_periods : List ℤ
  pub rsi_period : ℤ
  pub macd_fast : ℤ
  pub macd_slow : ℤ
  pub macd_signal : ℤ
  pub kd_period : ℤ
  pub kd_k_smoothing : ℤ
  pub kd_d_smoothing : ℤ
  pub bollinger_period : ℤ
  pub bollinger_stddev : Decimal
  pub atr_period : ℤ
  pub williams_period : ℤ

abbrev pub periods_of : TechnicalParameters → List ℤ
periods_of p =
    p.ma_periods
    ++ (p.ema_periods
        ++ (p.rsi_period ∷ p.macd_fast ∷ p.macd_slow ∷ p.macd_signal ∷ p.kd_period
            ∷ p.kd_k_smoothing ∷ p.kd_d_smoothing ∷ p.bollinger_period ∷ p.atr_period
            ∷ p.williams_period ∷ []))

-- `value <= 0`
abbrev pub is_not_positive : ℤ → Bool
is_not_positive z = leb_ℤ z (pos 0)

-- `len(set(periods)) != len(periods)`
unfoldable pub has_duplicates : List ℤ → Bool
has_duplicates [] = false
has_duplicates (p ∷ periods) = any (λ q. leb_ℤ p q && leb_ℤ q p) periods || has_duplicates periods

unfoldable pub validate : TechnicalParameters → Result (Unit {0})
validate p = do
  raise_if (any is_not_positive (periods_of p)) value_error
  raise_if (has_duplicates p.ma_periods) value_error
  raise_if (leb_ℤ p.macd_slow p.macd_fast) value_error
  raise_if (leb_ᴰ p.bollinger_stddev (of_nat 0)) value_error

-- A day's values by the name of the column: the kind of indicator and its period.
abbrev pub IndicatorRow : Type 0
IndicatorRow = List (Pair × Option Decimal)

abbrev pub ma_column : ℕ → Pair
ma_column period = (0, period)

abbrev pub ema_column : ℕ → Pair
ema_column period = (1, period)

abbrev pub rsi_column : ℕ → Pair
rsi_column period = (2, period)

abbrev pub atr_column : ℕ → Pair
atr_column period = (3, period)

-- The columns without a period in their name, by their order
abbrev pub named_column : ℕ → Pair
named_column n = (4, n)

-- `for row, value in zip(values, series, strict=True): row[name] = value`
unfoldable pub write_column : Pair → Line → List IndicatorRow → Result (List IndicatorRow)
write_column name [] [] = ok []
write_column name [] (row ∷ rows) = err value_error
write_column name (v ∷ series) [] = err value_error
write_column name (v ∷ series) (row ∷ rows) =
    write_column name series rows >>= λ rest. ok (put name v row ∷ rest)

unfoldable pub write_columns : List (Pair × Line) → List IndicatorRow → Result (List IndicatorRow)
write_columns [] rows = ok rows
write_columns ((name, series) ∷ columns) rows =
    write_column name series rows >>= write_columns columns

-- A loop over periods: the series of each is written as its column.
unfoldable pub write_series :
    (List Decimal → ℕ → Result Line)
    → (ℕ → Pair)
    → List Decimal
    → List ℤ
    → List IndicatorRow
    → Result (List IndicatorRow)
write_series series column closes [] rows = ok rows
write_series series column closes (period ∷ periods) rows = do
  values ← series closes (pos_part period)
  next ← write_column (column (pos_part period)) values rows
  write_series series column closes periods next

abbrev pub closes_of : List Candle → List Decimal
closes_of [] = []
closes_of (c ∷ candles) = c.close ∷ closes_of candles

abbrev pub empty_rows : List Candle → List IndicatorRow
empty_rows [] = []
empty_rows (c ∷ candles) = [] ∷ empty_rows candles

module _ (band : List Decimal → Decimal → Decimal → Band) where
  -- The columns of `named`, in its order
  unfoldable pub named_columns :
      TechnicalParameters → List Candle → List Decimal → Result (List (Pair × Line))
  named_columns p candles closes = do
    m ← macd closes (pos_part p.macd_fast) (pos_part p.macd_slow) (pos_part p.macd_signal)
    kd ←
        stochastic candles (pos_part p.kd_period) (pos_part p.kd_k_smoothing)
          (pos_part p.kd_d_smoothing)
    bands ← bollinger band closes (pos_part p.bollinger_period) p.bollinger_stddev
    range ← atr candles (pos_part p.atr_period)
    williams ← williams_r candles (pos_part p.williams_period)
    ok (
        (named_column 0, m.line)
        ∷ (named_column 1, m.signal)
        ∷ (named_column 2, m.histogram)
        ∷ (named_column 3, project (λ (kd : Kd). kd.0) kd)
        ∷ (named_column 4, project (λ (kd : Kd). kd.1) kd)
        ∷ (atr_column (pos_part p.atr_period), range)
        ∷ (named_column 5, obv candles)
        ∷ (named_column 6, bands.upper)
        ∷ (named_column 7, bands.middle)
        ∷ (named_column 8, bands.lower)
        ∷ (named_column 9, williams)
        ∷ [])

  unfoldable pub calculate_valid : TechnicalParameters → List Candle → Result (List IndicatorRow)
  calculate_valid p candles =
      let closes = closes_of candles in
      do
        averages ← write_series sma ma_column closes p.ma_periods (empty_rows candles)
        exponential ← write_series ema ema_column closes p.ema_periods averages
        strength ← rsi closes (pos_part p.rsi_period)
        rows ← write_column (rsi_column (pos_part p.rsi_period)) strength exponential
        columns ← named_columns p candles closes
        write_columns columns rows

  unfoldable pub calculate : TechnicalParameters → List Candle → Result (List IndicatorRow)
  calculate p candles = validate p >> calculate_valid p candles
