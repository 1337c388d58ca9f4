-- ===== src/Candle/Examples.antt =====
-- Three days of prices in two weeks, and each theorem on candles at that input.
use tw_stock_android_spec.Base.{ℕ, ◌+◌, ◌/◌, ◌≡◌, refl, none, some, List, [], ◌∷◌, All, map, arith}
use tw_stock_android_spec.Base.Assoc.{Pair}
use tw_stock_android_spec.Base.Int.{◌+ℤ◌, ◌*ℤ◌}
use tw_stock_android_spec.Base.Decimal.{
  Decimal, of_nat, max_ᴰ, min_ᴰ, digits, round_half_even, fit, rounded, ◌+ᴰ◌,
}
use tw_stock_android_spec.Outcome.{ok, err, arithmetic_error, key_error}
use tw_stock_android_spec.Candle.Aggregation.{
  raw, week, DailyPrice, Candle, candle_of, price_candle, candles_of, daily, volume_from,
  turnover_from, high_from, low_from, merge, group_from, merged, aggregate, days_before,
  range_start,
}
use tw_stock_android_spec.Candle.Bounds.{IsOrdered, aggregate-IsOrdered}
use tw_stock_android_spec.Candle.Volume.{volume_of, aggregate-volume}

program : Unit {0}
unfolding ◌+ℤ◌ ◌*ℤ◌ max_ᴰ min_ᴰ digits round_half_even fit rounded ◌+ᴰ◌ candle_of price_candle
    candles_of daily volume_from turnover_from high_from low_from merge group_from merged aggregate
program = tt

abbrev price : ℕ → ℕ → ℕ → ℕ → ℕ → DailyPrice
price date first top bottom last = record {
  trade_date = date;
  opening = some (of_nat first);
  high = some (of_nat top);
  low = some (of_nat bottom);
  close = some (of_nat last);
  adjusted_opening = none;
  adjusted_high = none;
  adjusted_low = none;
  adjusted_close = none;
  volume_shares = some 1000;
  turnover_amount = some (of_nat 50000);
}

abbrev prices : List DailyPrice
prices = price 8 52 53 50 51 ∷ price 2 48 55 47 54 ∷ price 1 50 51 47 48 ∷ []

abbrev week_of : ℕ → Pair
week_of d = (1, (d + 6) / 7)

abbrev month_of : ℕ → Pair
month_of d = (1, 1)

weeks :
    map {B = ℕ × Decimal × Decimal}
      (λ c. (c.trade_date, c.high, c.low))
      (aggregate week_of month_of prices week raw)
    ≡ (2, of_nat 55, of_nat 47) ∷ (8, of_nat 53, of_nat 50) ∷ []
unfolding program
weeks = refl

three_thousand : volume_of (aggregate week_of month_of prices week raw) ≡ some 3000
unfolding program
three_thousand = refl

prices-IsOrdered : All IsOrdered (daily raw prices)
unfolding program
prices-IsOrdered = (
  (omega arith, omega arith, omega arith, omega arith),
  (
    (omega arith, omega arith, omega arith, omega arith),
    ((omega arith, omega arith, omega arith, omega arith), tt),
  ),
)

aggregate-IsOrdered_example : All IsOrdered (aggregate week_of month_of prices week raw)
aggregate-IsOrdered_example = aggregate-IsOrdered week_of month_of prices week raw prices-IsOrdered

aggregate-volume_example :
    volume_of (aggregate week_of month_of prices week raw) ≡ volume_of (daily raw prices)
aggregate-volume_example = aggregate-volume week_of month_of prices week raw

abbrev monday : Candle
monday = record {
  trade_date = 1;
  opening = of_nat 50;
  high = of_nat 51;
  low = of_nat 47;
  close = of_nat 48;
  volume_shares = none;
  turnover_amount = none;
}

a_year : range_start 739000 "1Y" ≡ ok 738630
unfolding range_start days_before
a_year = refl

before_the_first_date : range_start 300 "1Y" ≡ err arithmetic_error
unfolding range_start days_before
before_the_first_date = refl

unknown_range : range_start 739000 "2Y" ≡ err key_error
unfolding range_start days_before
unknown_range = refl
