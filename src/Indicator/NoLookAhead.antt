-- ===== src/Indicator/NoLookAhead.antt =====
-- The rows that `calculate` gives up to a day depend on the candles up to that day only
-- (backend/app/services/technical_indicators.py).
use tw_stock_android_spec.Base.{ℕ, ◌≤◌, ◌≡◌, refl, List, length, take, arith}
use tw_stock_android_spec.Base.Int.{pos_part}
use tw_stock_android_spec.Base.Decimal.{Decimal}
use tw_stock_android_spec.Outcome.{ok, >>=-eq-ok, Follows, Follows-ok, Follows-bind}
use tw_stock_android_spec.Candle.Aggregation.{Candle}
use tw_stock_android_spec.Indicator.Averages.{sma, ema, macd}
use tw_stock_android_spec.Indicator.Oscillators.{rsi, Kd, stochastic, williams_r}
use tw_stock_android_spec.Indicator.Volatility.{atr, Band, Bands, bands_of, bollinger}
use tw_stock_android_spec.Indicator.Calculate.{
  TechnicalParameters, validate, IndicatorRow, ma_column, ema_column, rsi_column, write_column,
  write_series, closes_of, empty_rows, named_columns, calculate_valid, calculate,
}
use tw_stock_android_spec.Indicator.Causal.{sma-take, ema-take}
use tw_stock_android_spec.Indicator.CausalPrices.{rsi-take, stochastic-take, williams_r-take}
use tw_stock_android_spec.Indicator.CausalRanges.{atr-take, obv-take, bands_of-take}
use tw_stock_android_spec.Indicator.CausalMacd.{front_macd, macd-take}
use tw_stock_android_spec.Indicator.Columns.{
  front_columns, write_column-take, write_columns-take, write_series-take, closes_of-take,
  empty_rows-take, length-closes_of, project-take, HasPeriods, validate-HasPeriods,
}

module _ (band : List Decimal → Decimal → Decimal → Band) where
  front_bands : ℕ → Bands → Bands
  front_bands k b = record {
    upper = take k b.upper;
    middle = take k b.middle;
    lower = take k b.lower;
  }

  bollinger-take :
      (values : List Decimal) (period k : ℕ) (multiplier : Decimal)
      → k ≤ length values
      → Follows
          (front_bands k)
          (bollinger band values period multiplier)
          (bollinger band (take k values) period multiplier)
  unfolding bollinger front_bands
  bollinger-take values period k multiplier le =
      Follows-bind (take k) (front_bands k) (sma values period) _ _ _ (sma-take values period k le)
        (λ middle.
          Follows-bind (take k) (front_bands k) (bands_of band values middle period multiplier) _ _
            _ (bands_of-take band values middle period k multiplier le)
            (λ written. Follows-ok (front_bands k) _ _ (
              rw
                (
                  project-take (λ (b : Band). b.0) k written,
                  project-take (λ (b : Band). b.1) k written,
                )
                refl)))

  module _ (p : TechnicalParameters) (candles : List Candle) (k : ℕ) (le : k ≤ length candles)
      (periods : HasPeriods p) where
    abbrev closes : List Decimal
    closes = closes_of candles

    fits : k ≤ length closes
    fits = omega (arith, length-closes_of candles)

    named_columns-take :
        Follows
          (front_columns k)
          (named_columns band p candles closes)
          (named_columns band p (take k candles) (take k closes))
    unfolding named_columns front_columns front_bands
    named_columns-take =
        Follows-bind (front_macd k) (front_columns k)
          (macd closes (pos_part p.macd_fast) (pos_part p.macd_slow) (pos_part p.macd_signal)) _ _ _
          (macd-take closes (pos_part p.macd_fast) (pos_part p.macd_slow) (pos_part p.macd_signal) k
            fits periods.fast periods.slow periods.signal)
          (λ m.
            Follows-bind (take k) (front_columns k)
              (stochastic candles (pos_part p.kd_period) (pos_part p.kd_k_smoothing)
                (pos_part p.kd_d_smoothing))
              _ _ _
              (stochastic-take candles (pos_part p.kd_period) k le (pos_part p.kd_k_smoothing)
                (pos_part p.kd_d_smoothing))
              (λ kd.
                Follows-bind (front_bands k) (front_columns k)
                  (bollinger band closes (pos_part p.bollinger_period) p.bollinger_stddev) _ _ _
                  (bollinger-take closes (pos_part p.bollinger_period) k p.bollinger_stddev fits)
                  (λ bands.
                    Follows-bind (take k) (front_columns k) (atr candles (pos_part p.atr_period)) _
                      _ _ (atr-take candles (pos_part p.atr_period) k le periods.range)
                      (λ range.
                        Follows-bind (take k) (front_columns k)
                          (williams_r candles (pos_part p.williams_period)) _ _ _
                          (williams_r-take candles (pos_part p.williams_period) k le)
                          (λ williams. Follows-ok (front_columns k) _ _ (
                            rw
                              (
                                project-take (λ (x : Kd). x.0) k kd,
                                project-take (λ (x : Kd). x.1) k kd,
                                obv-take k candles,
                              )
                              refl))))))

    calculate_valid-take :
        Follows (take k) (calculate_valid band p candles) (calculate_valid band p (take k candles))
    unfolding calculate_valid
    calculate_valid-take =
        rw (closes_of-take k candles, empty_rows-take k candles)
          (Follows-bind (take k) (take k)
            (write_series sma ma_column closes p.ma_periods (empty_rows candles)) _ _ _
            (write_series-take sma ma_column closes k
              (λ period least. sma-take closes period k fits) p.ma_periods (empty_rows candles)
              periods.ma)
            (λ averages.
              Follows-bind (take k) (take k)
                (write_series ema ema_column closes p.ema_periods averages) _ _ _
                (write_series-take ema ema_column closes k
                  (λ period least. ema-take closes period k fits least) p.ema_periods averages
                  periods.ema)
                (λ exponential.
                  Follows-bind (take k) (take k) (rsi closes (pos_part p.rsi_period)) _ _ _
                    (rsi-take closes (pos_part p.rsi_period) k fits)
                    (λ strength.
                      Follows-bind (take k) (take k)
                        (write_column (rsi_column (pos_part p.rsi_period)) strength exponential) _ _
                        _
                        (write_column-take k (rsi_column (pos_part p.rsi_period)) strength
                          exponential)
                        (λ rows.
                          Follows-bind (front_columns k) (take k)
                            (named_columns band p candles closes) _ _ _ named_columns-take
                            (λ columns. write_columns-take k columns rows))))))

  -- Where the indicators of some days can be calculated, the first `k` rows are what is calculated
  -- from the first `k` days alone.
  pub calculate-take :
      (p : TechnicalParameters) (candles : List Candle) (k : ℕ) (rows : List IndicatorRow)
      → k ≤ length candles
      → calculate band p candles ≡ ok rows
      → calculate band p (take k candles) ≡ ok (take k rows)
  unfolding calculate
  calculate-take p candles k rows le h =
      let valid =
        >>=-eq-ok (validate p) (λ (passed : Unit {0}). calculate_valid band p candles) h in
      rw valid.1 (calculate_valid-take p candles k le (validate-HasPeriods p valid.1) rows valid.2)
