-- ===== src/Indicator/Parameters.antt =====
-- `TechnicalParameters.response_parameters` (backend/app/services/technical_indicators.py). The names
-- of columns are the ones of Calculate, and the multiplier stands in place of its text.
use tw_stock_android_spec.Base.{ℕ, List, [], ◌∷◌}
use tw_stock_android_spec.Base.Assoc.{Pair, pair_eq, put}
use tw_stock_android_spec.Base.Int.{ℤ, pos_part}
use tw_stock_android_spec.Base.Decimal.{Decimal}
use tw_stock_android_spec.Indicator.Calculate.{
  TechnicalParameters, ma_column, ema_column, rsi_column, atr_column, named_column,
}

-- The dictionaries of the answer, one constructor for each set of keys
pub data ColumnParameters : Type 0 where
  period : ℤ → ColumnParameters
  spans : (fast slow signal : ℤ) → ColumnParameters
  smoothings : (days k d : ℤ) → ColumnParameters
  deviations : ℤ → Decimal → ColumnParameters
  nothing : ColumnParameters

abbrev pub Described : Type 0
Described = List (Pair × ColumnParameters)

-- `result.update({name: value for name in names})`
unfoldable pub put_each : List Pair → ColumnParameters → Described → Described
put_each [] value d = d
put_each (name ∷ names) value d = put_each names value (put name value d)

unfoldable pub put_periods : (ℕ → Pair) → List ℤ → Described → Described
put_periods column [] d = d
put_periods column (p ∷ periods) d =
    put_periods column periods (put (column (pos_part p)) (period p) d)

abbrev pub macd_names : List Pair
macd_names = named_column 0 ∷ named_column 1 ∷ named_column 2 ∷ []

abbrev pub kd_names : List Pair
kd_names = named_column 3 ∷ named_column 4 ∷ []

abbrev pub band_names : List Pair
band_names = named_column 6 ∷ named_column 7 ∷ named_column 8 ∷ []

unfoldable pub response_parameters : TechnicalParameters → Described
response_parameters p =
    let averages = put_periods ma_column p.ma_periods [] in
    let exponential = put_periods ema_column p.ema_periods averages in
    let strength = put (rsi_column (pos_part p.rsi_period)) (period p.rsi_period) exponential in
    let macds = put_each macd_names (spans p.macd_fast p.macd_slow p.macd_signal) strength in
    let kds = put_each kd_names (smoothings p.kd_period p.kd_k_smoothing p.kd_d_smoothing) macds in
    let bands = put_each band_names (deviations p.bollinger_period p.bollinger_stddev) kds in
    let ranges = put (atr_column (pos_part p.atr_period)) (period p.atr_period) bands in
    let williams = put (named_column 9) (period p.williams_period) ranges in
    put (named_column 5) nothing williams
