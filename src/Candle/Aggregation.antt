-- ===== src/Candle/Aggregation.antt =====
-- `price_candle` and `CandleAggregationService` (backend/app/services/candle_aggregation.py). Shares
-- are counted by natural numbers.
use tw_stock_android_spec.Base.{
  ℕ, ◌+◌, ◌-◌, String, Option, none, some, List, [], ◌∷◌, ◌++◌, if◌then◌else◌, ltb, sort_by,
}
use tw_stock_android_spec.Base.Assoc.{Pair, pair_eq, string_eq, find_key, put}
use tw_stock_android_spec.Base.Decimal.{Decimal, of_nat, ◌+ᴰ◌, max_ᴰ, min_ᴰ}
use tw_stock_android_spec.Outcome.{Result, ok, err, key_error, arithmetic_error}

pub data PriceBasis : Type 0 where
  raw adjusted : PriceBasis

pub data CandleInterval : Type 0 where
  day week month : CandleInterval

-- The columns of `DailyPriceRecord` that candles are made of.
pub record DailyPrice : Type 0 where
  pub trade_date : ℕ
  pub opening : Option Decimal
  pub high : Option Decimal
  pub low : Option Decimal
  pub close : Option Decimal
  pub adjusted_opening : Option Decimal
  pub adjusted_high : Option Decimal
  pub adjusted_low : Option Decimal
  pub adjusted_close : Option Decimal
  pub volume_shares : Option ℕ
  pub turnover_amount : Option Decimal

pub record Candle : Type 0 where
  pub trade_date : ℕ
  pub opening : Decimal
  pub high : Decimal
  pub low : Decimal
  pub close : Decimal
  pub volume_shares : Option ℕ
  pub turnover_amount : Option Decimal

-- A candle of the four prices, where all are there.
unfoldable pub candle_of :
    DailyPrice → Option Decimal → Option Decimal → Option Decimal → Option Decimal → Option Candle
candle_of r (some opening) (some high) (some low) (some close) = some (record {
  trade_date = r.trade_date;
  opening = opening;
  high = high;
  low = low;
  close = close;
  volume_shares = r.volume_shares;
  turnover_amount = r.turnover_amount;
})
candle_of r _ _ _ _ = none

unfoldable pub price_candle : PriceBasis → DailyPrice → Option Candle
price_candle raw r = candle_of r r.opening r.high r.low r.close
price_candle adjusted r =
    candle_of r r.adjusted_opening r.adjusted_high r.adjusted_low r.adjusted_close

abbrev pub and_then : Option Candle → List Candle → List Candle
and_then none candles = candles
and_then (some c) candles = c ∷ candles

unfoldable pub candles_of : PriceBasis → List DailyPrice → List Candle
candles_of basis [] = []
candles_of basis (r ∷ records) = and_then (price_candle basis r) (candles_of basis records)

unfoldable pub daily : PriceBasis → List DailyPrice → List Candle
daily basis records = candles_of basis (sort_by (λ a b. ltb a.trade_date b.trade_date) records)

-- A list of candles that is not empty: its first and the others.
abbrev pub Group : Type 0
Group = Candle × List Candle

-- `groups[key].append(candle)`
abbrev pub with_candle : Option Group → Candle → Group
with_candle none c = (c, [])
with_candle (some g) c = (g.0, g.1 ++ c ∷ [])

abbrev pub last_of : Candle → List Candle → Candle
last_of c [] = c
last_of c (d ∷ ds) = last_of d ds

-- `None if any(...) else sum(...)`
abbrev pub add_volume : Option ℕ → Option ℕ → Option ℕ
add_volume (some a) (some b) = some (a + b)
add_volume _ _ = none

unfoldable pub volume_from : Option ℕ → List Candle → Option ℕ
volume_from total [] = total
volume_from total (c ∷ cs) = volume_from (add_volume total c.volume_shares) cs

abbrev pub add_turnover : Option Decimal → Option Decimal → Option Decimal
add_turnover (some a) (some b) = some (a +ᴰ b)
add_turnover _ _ = none

unfoldable pub turnover_from : Option Decimal → List Candle → Option Decimal
turnover_from total [] = total
turnover_from total (c ∷ cs) = turnover_from (add_turnover total c.turnover_amount) cs

unfoldable pub high_from : Decimal → List Candle → Decimal
high_from high [] = high
high_from high (c ∷ cs) = high_from (max_ᴰ high c.high) cs

unfoldable pub low_from : Decimal → List Candle → Decimal
low_from low [] = low
low_from low (c ∷ cs) = low_from (min_ᴰ low c.low) cs

-- `_merge`
unfoldable pub merge : Group → Candle
merge (first, rest) = record {
  trade_date = (last_of first rest).trade_date;
  opening = first.opening;
  high = high_from first.high rest;
  low = low_from first.low rest;
  close = (last_of first rest).close;
  volume_shares = volume_from (some 0) (first ∷ rest);
  turnover_amount = turnover_from (some (of_nat 0)) (first ∷ rest);
}

abbrev pub merge_all : List (Pair × Group) → List Candle
merge_all [] = []
merge_all ((k, g) ∷ groups) = merge g ∷ merge_all groups

-- `iso_week` is a date's ISO year and week, and `year_month` its year and month.
module _ (iso_week year_month : ℕ → Pair) where
  abbrev pub key_of : CandleInterval → Candle → Pair
  key_of week c = iso_week c.trade_date
  key_of _ c = year_month c.trade_date

  unfoldable pub group_from :
      CandleInterval → List Candle → List (Pair × Group) → List (Pair × Group)
  group_from interval [] groups = groups
  group_from interval (c ∷ cs) groups =
      let key = key_of interval c in
      group_from interval cs (put key (with_candle (find_key key groups) c) groups)

  unfoldable pub merged : CandleInterval → List Candle → List Candle
  merged day candles = candles
  merged interval candles = merge_all (group_from interval candles [])

  unfoldable pub aggregate : List DailyPrice → CandleInterval → PriceBasis → List Candle
  aggregate records interval basis = merged interval (daily basis records)

-- The days of a range by its name
abbrev pub range_days : List (String × ℕ)
range_days = ("1D", 10) ∷ ("5D", 20) ∷ ("10D", 30) ∷ ("30D", 60) ∷ ("1Y", 370) ∷ ("5Y", 1835) ∷ []

-- `end - timedelta(days)`, of the ordinal of a date, which is one at least
unfoldable pub days_before : ℕ → Option ℕ → Result ℕ
days_before end none = err key_error
days_before end (some days) = if ltb days end then ok (end - days) else err arithmetic_error

unfoldable pub range_start : ℕ → String → Result ℕ
range_start end name = days_before end (find_key name range_days)
