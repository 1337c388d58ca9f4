-- ===== src/Indicator/Columns.antt =====
-- The columns of `calculate` and the periods that `validate` lets through
-- (backend/app/services/technical_indicators.py).
use tw_stock_android_spec.Base.{
  ℕ, zero, suc, ◌<◌, ◌≡◌, refl, sym, ap, ◌∙◌, Bool, true, false, Option, none, some, List, [], ◌∷◌,
  ◌++◌, any, length, take, take-nil, All, arith,
}
use tw_stock_android_spec.Base.Assoc.{Pair, pair_eq, put}
use tw_stock_android_spec.Base.Int.{ℤ, pos, negsuc, pos_part}
use tw_stock_android_spec.Base.Decimal.{Decimal}
use tw_stock_android_spec.Outcome.{
  Result, ok, value_error, ◌>>◌, raise_if, Follows, Follows-ok, Follows-bind, ok-injective,
}
use tw_stock_android_spec.Candle.Aggregation.{Candle}
use tw_stock_android_spec.Indicator.Averages.{Line, project}
use tw_stock_android_spec.Indicator.Calculate.{
  TechnicalParameters, periods_of, is_not_positive, validate, IndicatorRow, write_column,
  write_columns, write_series, closes_of, empty_rows,
}

pub write_column-take :
    (k : ℕ) (name : Pair) (series : Line) (rows : List IndicatorRow)
    → Follows
        (take k)
        (write_column name series rows)
        (write_column name (take k series) (take k rows))
unfolding write_column
write_column-take zero name series rows out h = refl
write_column-take (suc k) name [] [] out h =
    ap ok (sym (take-nil (suc k)) ∙ ap (take (suc k)) (ok-injective h))
write_column-take (suc k) name [] (row ∷ rows) out h = cc
write_column-take (suc k) name (v ∷ series) [] out h = cc
write_column-take (suc k) name (v ∷ series) (row ∷ rows) out h =
    Follows-bind (take k) (take (suc k)) (write_column name series rows) _ _ _
      (write_column-take k name series rows)
      (λ rest. Follows-ok (take (suc k)) (put name v row ∷ rest) _ refl) out h

unfoldable pub front_columns : ℕ → List (Pair × Line) → List (Pair × Line)
front_columns k [] = []
front_columns k ((name, series) ∷ columns) = (name, take k series) ∷ front_columns k columns

pub write_columns-take :
    (k : ℕ) (columns : List (Pair × Line)) (rows : List IndicatorRow)
    → Follows
        (take k)
        (write_columns columns rows)
        (write_columns (front_columns k columns) (take k rows))
unfolding write_columns front_columns
write_columns-take k [] rows = Follows-ok (take k) rows _ refl
write_columns-take k ((name, series) ∷ columns) rows =
    Follows-bind (take k) (take k) (write_column name series rows) _ _ _
      (write_column-take k name series rows) (write_columns-take k columns)

abbrev pub IsPositive : ℤ → Type 0
IsPositive z = 0 < pos_part z

module _ (series : List Decimal → ℕ → Result Line) (column : ℕ → Pair) (closes : List Decimal)
    (k : ℕ)
    (causal : (period : ℕ)
      → 0 < period
      → Follows (take k) (series closes period) (series (take k closes) period)) where
  pub write_series-take :
      (periods : List ℤ) (rows : List IndicatorRow)
      → All IsPositive periods
      → Follows
          (take k)
          (write_series series column closes periods rows)
          (write_series series column (take k closes) periods (take k rows))
  unfolding write_series
  write_series-take [] rows positive = Follows-ok (take k) rows _ refl
  write_series-take (period ∷ periods) rows positive =
      Follows-bind (take k) (take k) (series closes (pos_part period)) _ _ _
        (causal (pos_part period) positive.0)
        (λ values.
          Follows-bind (take k) (take k) (write_column (column (pos_part period)) values rows) _ _ _
            (write_column-take k (column (pos_part period)) values rows)
            (λ next. write_series-take periods next positive.1))

pub closes_of-take :
    (k : ℕ) (candles : List Candle) → closes_of (take k candles) ≡ take k (closes_of candles)
closes_of-take zero candles = refl
closes_of-take (suc k) [] = refl
closes_of-take (suc k) (c ∷ candles) = ap (◌∷◌ c.close) (closes_of-take k candles)

pub empty_rows-take :
    (k : ℕ) (candles : List Candle) → empty_rows (take k candles) ≡ take k (empty_rows candles)
empty_rows-take zero candles = refl
empty_rows-take (suc k) [] = refl
empty_rows-take (suc k) (c ∷ candles) = ap (◌∷◌ []) (empty_rows-take k candles)

pub length-closes_of : (candles : List Candle) → length (closes_of candles) ≡ length candles
length-closes_of [] = refl
length-closes_of (c ∷ candles) = ap suc (length-closes_of candles)

pub project-take {ℓ} :
    {A : Type ℓ} (part : A → Decimal) (k : ℕ) (xs : List (Option A))
    → project part (take k xs) ≡ take k (project part xs)
unfolding project
project-take part zero xs = refl
project-take part (suc k) [] = refl
project-take part (suc k) (none ∷ xs) = ap (◌∷◌ none) (project-take part k xs)
project-take part (suc k) (some x ∷ xs) = ap (◌∷◌ (some (part x))) (project-take part k xs)

-- What `validate` lets through
pub record HasPeriods (p : TechnicalParameters) : Type 0 where
  pub ma : All IsPositive p.ma_periods
  pub ema : All IsPositive p.ema_periods
  pub fast : IsPositive p.macd_fast
  pub slow : IsPositive p.macd_slow
  pub signal : IsPositive p.macd_signal
  pub range : IsPositive p.atr_period

pub any_append :
    (xs ys : List ℤ)
    → any is_not_positive (xs ++ ys) ≡ false
    → All IsPositive xs × (any is_not_positive ys ≡ false)
any_append [] ys h = (tt, h)
any_append (pos n ∷ xs) ys h =
    let rest = any_append xs ys (ground arith) in ((ground arith, rest.0), rest.1)
any_append (negsuc n ∷ xs) ys h = ground arith

raise_if-first :
    (test : Bool) (rest : Result (Unit {0}))
    → (raise_if test value_error >> rest) ≡ ok tt
    → test ≡ false
raise_if-first true rest h = cc
raise_if-first false rest h = refl

validate-no_bad_period :
    (p : TechnicalParameters) → validate p ≡ ok tt → any is_not_positive (periods_of p) ≡ false
unfolding validate
validate-no_bad_period p h = raise_if-first (any is_not_positive (periods_of p)) _ h

pub validate-HasPeriods : (p : TechnicalParameters) → validate p ≡ ok tt → HasPeriods p
validate-HasPeriods p h =
    let ma = any_append p.ma_periods _ (validate-no_bad_period p h) in
    let ema = any_append p.ema_periods _ ma.1 in
    let rest =
      any_append
        (p.rsi_period ∷ p.macd_fast ∷ p.macd_slow ∷ p.macd_signal ∷ p.kd_period ∷ p.kd_k_smoothing
          ∷ p.kd_d_smoothing ∷ p.bollinger_period ∷ p.atr_period ∷ p.williams_period ∷ [])
        [] ema.1 in
    record {
      ma = ma.0;
      ema = ema.0;
      fast = rest.0.1.0;
      slow = rest.0.1.1.0;
      signal = rest.0.1.1.1.0;
      range = rest.0.1.1.1.1.1.1.1.1.0;
    }
