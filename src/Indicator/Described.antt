-- ===== src/Indicator/Described.antt =====
-- The columns that `calculate` writes and the ones that `response_parameters` describes
-- (backend/app/services/technical_indicators.py).
use tw_stock_android_spec.Base.{
  ℕ, ◌≡◌, refl, sym, ap, ◌∙◌, Bool, true, false, ◌||◌, List, [], ◌∷◌, All, inl, inr, Bool-cases,
  subst, arith,
}
use tw_stock_android_spec.Base.Assoc.{Pair, pair_eq, put, keys, contains, beq_eq}
use tw_stock_android_spec.Base.Int.{ℤ, pos_part}
use tw_stock_android_spec.Base.Decimal.{Decimal}
use tw_stock_android_spec.Outcome.{Result, ok, >>=-eq-ok, ok-injective}
use tw_stock_android_spec.Candle.Aggregation.{Candle}
use tw_stock_android_spec.Indicator.Averages.{Line, sma, ema, macd}
use tw_stock_android_spec.Indicator.Oscillators.{rsi, stochastic, williams_r}
use tw_stock_android_spec.Indicator.Volatility.{atr, Band, bollinger}
use tw_stock_android_spec.Indicator.Calculate.{
  TechnicalParameters, validate, IndicatorRow, ma_column, ema_column, rsi_column, atr_column,
  named_column, write_column, write_columns, write_series, closes_of, empty_rows, named_columns,
  calculate_valid, calculate,
}
use tw_stock_android_spec.Indicator.Parameters.{
  ColumnParameters, put_each, put_periods, macd_names, kd_names, band_names, response_parameters,
}

contains-keys-put :
    {V : Type 0} (i k : Pair) (v : V) (d : List (Pair × V))
    → contains i (keys (put k v d)) ≡ (pair_eq.beq k i || contains i (keys d))
contains-keys-put i k v [] = refl
contains-keys-put i k v ((j, w) ∷ d) = elim (Bool-cases (pair_eq.beq j k)) [
  | inl t ↦ rw t (
      subst
        (λ z.
          (pair_eq.beq j i || contains i (keys d))
          ≡ (pair_eq.beq z i || (pair_eq.beq j i || contains i (keys d))))
        (beq_eq j k t) (ground arith))
  | inr t ↦ rw (t, contains-keys-put i k v d) (ground arith)
]

module _ (i : Pair) where
  abbrev has : {V : Type 0} → List (Pair × V) → Bool
  has d = contains i (keys d)

  abbrev RowsHave : Bool → List IndicatorRow → Type 0
  RowsHave b = All (λ row. has row ≡ b)

  -- A name is among some names, or was there.
  abbrev named : List Pair → Bool → Bool
  named [] b = b
  named (name ∷ names) b = named names (pair_eq.beq name i || b)

  abbrev for_periods : (ℕ → Pair) → List ℤ → Bool → Bool
  for_periods column [] b = b
  for_periods column (p ∷ periods) b =
      for_periods column periods (pair_eq.beq (column (pos_part p)) i || b)

  put_each-has :
      (names : List Pair) (value : ColumnParameters) (d : List (Pair × ColumnParameters))
      → has (put_each names value d) ≡ named names (has d)
  unfolding put_each
  put_each-has [] value d = refl
  put_each-has (name ∷ names) value d =
      put_each-has names value (put name value d)
      ∙ ap (named names) (contains-keys-put i name value d)

  put_periods-has :
      (column : ℕ → Pair) (periods : List ℤ) (d : List (Pair × ColumnParameters))
      → has (put_periods column periods d) ≡ for_periods column periods (has d)
  unfolding put_periods
  put_periods-has column [] d = refl
  put_periods-has column (p ∷ periods) d =
      put_periods-has column periods _
      ∙ ap (for_periods column periods) (contains-keys-put i (column (pos_part p)) _ d)

  write_column-RowsHave :
      (name : Pair) (series : Line) (rows out : List IndicatorRow) (b : Bool)
      → RowsHave b rows
      → write_column name series rows ≡ ok out
      → RowsHave (pair_eq.beq name i || b) out
  unfolding write_column
  write_column-RowsHave name [] [] out b h w =
      subst (RowsHave (pair_eq.beq name i || b)) (ok-injective w) tt
  write_column-RowsHave name [] (row ∷ rows) out b h w = cc
  write_column-RowsHave name (v ∷ series) [] out b h w = cc
  write_column-RowsHave name (v ∷ series) (row ∷ rows) out b h w =
      let (rest, wrote, same) = >>=-eq-ok (write_column name series rows) _ w in
      subst (RowsHave (pair_eq.beq name i || b)) (ok-injective same) (
        contains-keys-put i name v row ∙ ap (λ c. pair_eq.beq name i || c) h.0,
        write_column-RowsHave name series rows rest b h.1 wrote,
      )

  write_columns-RowsHave :
      (columns : List (Pair × Line)) (rows out : List IndicatorRow) (b : Bool)
      → RowsHave b rows
      → write_columns columns rows ≡ ok out
      → RowsHave (named (keys columns) b) out
  unfolding write_columns
  write_columns-RowsHave [] rows out b h w = subst (RowsHave b) (ok-injective w) h
  write_columns-RowsHave ((name, series) ∷ columns) rows out b h w =
      let (next, wrote, rest) = >>=-eq-ok (write_column name series rows) _ w in
      write_columns-RowsHave columns next out _
        (write_column-RowsHave name series rows next b h wrote) rest

  write_series-RowsHave :
      (series : List Decimal → ℕ → Result Line) (column : ℕ → Pair) (closes : List Decimal)
      (periods : List ℤ) (rows out : List IndicatorRow) (b : Bool)
      → RowsHave b rows
      → write_series series column closes periods rows ≡ ok out
      → RowsHave (for_periods column periods b) out
  unfolding write_series
  write_series-RowsHave series column closes [] rows out b h w =
      subst (RowsHave b) (ok-injective w) h
  write_series-RowsHave series column closes (p ∷ periods) rows out b h w =
      let (values, computed, after) = >>=-eq-ok (series closes (pos_part p)) _ w in
      let (next, wrote, rest) =
        >>=-eq-ok (write_column (column (pos_part p)) values rows) _ after in
      write_series-RowsHave series column closes periods next out _
        (write_column-RowsHave (column (pos_part p)) values rows next b h wrote) rest

  empty_rows-RowsHave : (candles : List Candle) → RowsHave false (empty_rows candles)
  empty_rows-RowsHave [] = tt
  empty_rows-RowsHave (c ∷ candles) = (refl, empty_rows-RowsHave candles)

abbrev written_names : TechnicalParameters → List Pair
written_names p =
    named_column 0
    ∷ named_column 1
    ∷ named_column 2
    ∷ named_column 3
    ∷ named_column 4
    ∷ atr_column (pos_part p.atr_period)
    ∷ named_column 5
    ∷ named_column 6
    ∷ named_column 7
    ∷ named_column 8
    ∷ named_column 9
    ∷ []

module _ (band : List Decimal → Decimal → Decimal → Band) (p : TechnicalParameters)
    (candles : List Candle) where
  keys-named_columns :
      (closes : List Decimal) (columns : List (Pair × Line))
      → named_columns band p candles closes ≡ ok columns
      → keys columns ≡ written_names p
  unfolding named_columns
  keys-named_columns closes columns h =
      let (m, a, h1) =
        >>=-eq-ok
          (macd closes (pos_part p.macd_fast) (pos_part p.macd_slow) (pos_part p.macd_signal)) _
          h in
      let (kd, b, h2) =
        >>=-eq-ok
          (stochastic candles (pos_part p.kd_period) (pos_part p.kd_k_smoothing)
            (pos_part p.kd_d_smoothing))
          _ h1 in
      let (bands, c, h3) =
        >>=-eq-ok (bollinger band closes (pos_part p.bollinger_period) p.bollinger_stddev) _ h2 in
      let (range, d, h4) = >>=-eq-ok (atr candles (pos_part p.atr_period)) _ h3 in
      let (williams, e, done) = >>=-eq-ok (williams_r candles (pos_part p.williams_period)) _ h4 in
      sym (ap keys (ok-injective done))

-- The order of some names does not matter.
reordered :
    (b5 b6 b7 b8 b9 r b : Bool)
    → (b9 || (b8 || (b7 || (b6 || (b5 || (r || b))))))
      ≡ (b5 || (b9 || (r || (b8 || (b7 || (b6 || b))))))
reordered true b6 b7 b8 b9 r b = ground arith
reordered false b6 b7 b8 b9 true b = ground arith
reordered false b6 b7 b8 b9 false b = ground arith

module _ (p : TechnicalParameters) (i : Pair) where
  abbrev first_columns : Bool
  first_columns =
      pair_eq.beq (rsi_column (pos_part p.rsi_period)) i
      || for_periods i ema_column p.ema_periods (for_periods i ma_column p.ma_periods false)

  abbrev is_named : ℕ → Bool
  is_named n = pair_eq.beq (named_column n) i

  response_parameters-has : has i (response_parameters p) ≡ named i (written_names p) first_columns
  unfolding response_parameters
  response_parameters-has =
      rw
        (
          contains-keys-put i (named_column 5),
          contains-keys-put i (named_column 9),
          contains-keys-put i (atr_column (pos_part p.atr_period)),
          put_each-has i band_names,
          put_each-has i kd_names,
          put_each-has i macd_names,
          contains-keys-put i (rsi_column (pos_part p.rsi_period)),
          put_periods-has i ema_column p.ema_periods,
          put_periods-has i ma_column p.ma_periods [],
        )
        (sym (
          reordered (is_named 5) (is_named 6) (is_named 7) (is_named 8) (is_named 9)
            (pair_eq.beq (atr_column (pos_part p.atr_period)) i)
            (named i kd_names (named i macd_names first_columns))))

-- In what `calculate` gives, the columns of every day are exactly those that `response_parameters`
-- describes.
pub calculate-described :
    (band : List Decimal → Decimal → Decimal → Band) (p : TechnicalParameters)
    (candles : List Candle) (rows : List IndicatorRow)
    → calculate band p candles ≡ ok rows
    → (name : Pair)
    → All (λ row. contains name (keys row) ≡ contains name (keys (response_parameters p))) rows
unfolding calculate calculate_valid
calculate-described band p candles rows h i =
    let closes = closes_of candles in
    let (checked, fine, valid) = >>=-eq-ok (validate p) _ h in
    let (averages, wrote_ma, h1) =
      >>=-eq-ok (write_series sma ma_column closes p.ma_periods (empty_rows candles)) _ valid in
    let (exponential, wrote_ema, h2) =
      >>=-eq-ok (write_series ema ema_column closes p.ema_periods averages) _ h1 in
    let (strength, computed, h3) = >>=-eq-ok (rsi closes (pos_part p.rsi_period)) _ h2 in
    let (first, wrote_rsi, h4) =
      >>=-eq-ok (write_column (rsi_column (pos_part p.rsi_period)) strength exponential) _ h3 in
    let (columns, made, wrote) = >>=-eq-ok (named_columns band p candles closes) _ h4 in
    let ma =
      write_series-RowsHave i sma ma_column closes p.ma_periods _ averages false
        (empty_rows-RowsHave i candles) wrote_ma in
    let both =
      write_series-RowsHave i ema ema_column closes p.ema_periods averages exponential _ ma
        wrote_ema in
    let three =
      write_column-RowsHave i (rsi_column (pos_part p.rsi_period)) strength exponential first _ both
        wrote_rsi in
    let all = write_columns-RowsHave i columns first rows _ three wrote in
    subst (λ b. RowsHave i b rows)
      (ap (λ names. named i names (first_columns p i))
          (keys-named_columns band p candles closes columns made)
        ∙ sym (response_parameters-has p i))
      all
