-- ===== src/Indicator/Examples.antt =====
-- Four days of candles, and each theorem on indicators there.

use tw_stock_android_spec.Base.{
  ℕ, ◌≡◌, refl, true, All, none, some, List, [], ◌∷◌, length, take, arith,
}
use tw_stock_android_spec.Base.Int.{pos}
use tw_stock_android_spec.Base.Decimal.{
  Decimal, of_nat, ◌+ᴰ◌, ◌-ᴰ◌, ◌*ᴰ◌, div, divided, abs, max_ᴰ, min_ᴰ,
}
use tw_stock_android_spec.Outcome.{Result, ok, err, value_error}
use tw_stock_android_spec.Candle.Aggregation.{Candle}
use tw_stock_android_spec.Indicator.Series.{sum_decimals, mean, get_elem?, blanks, scan}
use tw_stock_android_spec.Indicator.Averages.{
  project, sma_step, sma, ema_step, ema_seeded, ema, difference, differences, available_from,
  write_at, write_smoothed, signal_seeded, signal_line, macd,
}
use tw_stock_android_spec.Indicator.Oscillators.{
  changes_from, changes_of, next_averages, rsi_value, rsi_step, rsi_seeded, rsi, extremes,
  smooth_kd, kd_within, kd_step, stochastic, williams_within, williams_step, williams_r,
}
use tw_stock_android_spec.Indicator.Volatility.{
  ranges_from, true_ranges, atr_step, atr_seeded, atr, obv_next, obv_from, obv, Band, band_at,
  band_step, bands_of, bollinger,
}
use tw_stock_android_spec.Indicator.Calculate.{
  TechnicalParameters, has_duplicates, validate, IndicatorRow, ma_column, write_column,
  write_columns, write_series, named_columns, calculate_valid, calculate,
}
use tw_stock_android_spec.Indicator.NoLookAhead.{calculate-take}
use tw_stock_android_spec.Indicator.Parameters.{put_each, put_periods, response_parameters}
use tw_stock_android_spec.Indicator.Described.{calculate-described}
use tw_stock_android_spec.Base.Assoc.{pair_eq, contains, keys}

program : Unit {0}
unfolding ◌+ᴰ◌ ◌-ᴰ◌ ◌*ᴰ◌ div divided abs max_ᴰ min_ᴰ sum_decimals mean get_elem? blanks scan project
    sma_step sma ema_step ema_seeded ema difference differences available_from write_at
    write_smoothed signal_seeded signal_line macd changes_from changes_of next_averages rsi_value
    rsi_step rsi_seeded rsi extremes smooth_kd kd_within kd_step stochastic williams_within
    williams_step williams_r ranges_from true_ranges atr_step atr_seeded atr obv_next obv_from obv
    band_at band_step bands_of bollinger has_duplicates validate write_column write_columns
    write_series named_columns calculate_valid calculate put_each put_periods response_parameters
program = tt

abbrev candle : ℕ → ℕ → ℕ → ℕ → Candle
candle day low high close = record {
  trade_date = day;
  opening = of_nat low;
  high = of_nat high;
  low = of_nat low;
  close = of_nat close;
  volume_shares = some 1000;
  turnover_amount = none;
}

abbrev candles : List Candle
candles = candle 1 9 12 10 ∷ candle 2 10 14 13 ∷ candle 3 11 13 12 ∷ candle 4 12 16 15 ∷ []

abbrev parameters : TechnicalParameters
parameters = record {
  ma_periods = pos 2 ∷ pos 3 ∷ [];
  ema_periods = pos 2 ∷ [];
  rsi_period = pos 2;
  macd_fast = pos 1;
  macd_slow = pos 2;
  macd_signal = pos 2;
  kd_period = pos 2;
  kd_k_smoothing = pos 3;
  kd_d_smoothing = pos 3;
  bollinger_period = pos 2;
  bollinger_stddev = of_nat 2;
  atr_period = pos 2;
  williams_period = pos 2;
}

-- Bands of no width
abbrev band : List Decimal → Decimal → Decimal → Band
band values mean multiplier = (mean, mean)

abbrev rows_of : Result (List IndicatorRow) → List IndicatorRow
rows_of (err e) = []
rows_of (ok rows) = rows

abbrev rows : List IndicatorRow
rows = rows_of (calculate band parameters candles)

calculated : calculate band parameters candles ≡ ok rows
unfolding program
calculated = refl

four_rows : length rows ≡ 4
unfolding program
four_rows = refl

duplicate_periods :
    calculate band record parameters { ma_periods = pos 2 ∷ pos 2 ∷ [] } candles ≡ err value_error
unfolding program
duplicate_periods = refl

calculate-take_example : calculate band parameters (take 3 candles) ≡ ok (take 3 rows)
calculate-take_example = calculate-take band parameters candles 3 rows (omega arith) calculated

calculate-described_example :
    All
      (λ (row : IndicatorRow).
        contains (ma_column 2) (keys row)
        ≡ contains (ma_column 2) (keys (response_parameters parameters)))
      rows
calculate-described_example =
    calculate-described band parameters candles rows calculated (ma_column 2)

is_described : contains (ma_column 2) (keys (response_parameters parameters)) ≡ true
unfolding program
is_described = refl
