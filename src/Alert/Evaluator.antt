-- ===== src/Alert/Evaluator.antt =====
-- `evaluate` (backend/app/services/alert_evaluators.py): whether a rule fires on a security's points,
-- the last of which is the current one.
use tw_stock_android_spec.Base.{
  zero, suc, ◌-◌, Bool, true, false, not, ◌&&◌, Option, none, some, List, [], ◌∷◌, ltb,
  if◌then◌else◌, length, drop, get_last?,
}
use tw_stock_android_spec.Base.Int.{ℤ, pos, negsuc}
use tw_stock_android_spec.Base.Decimal.{Decimal, of_nat, ltb_ᴰ, leb_ᴰ, ◌-ᴰ◌, ◌*ᴰ◌, div, abs}
use tw_stock_android_spec.Outcome.{
  Result, ok, err, assertion_error, arithmetic_error, type_error, ◌>>=◌, or_raise,
}
use tw_stock_android_spec.Market.{DataStatus, is_unavailable}
use tw_stock_android_spec.Alert.Types.{
  RuleType, price_target, ma_near, ma_touch, ma_cross_above, ma_cross_below, ma_close_above,
  ma_close_below, ma_consecutive_above, is_price, AlertRule, MarketPoint, ReferenceType, price_of,
  ma, AlertOccurrence,
}

-- `history[-2] if len(history) > 1 else None`
abbrev pub previous_of : List MarketPoint → Option MarketPoint
previous_of [] = none
previous_of (p ∷ []) = none
previous_of (p ∷ q ∷ []) = some p
previous_of (p ∷ q ∷ r ∷ ps) = previous_of (q ∷ r ∷ ps)

-- The close of a point that can be used.
abbrev pub usable_close : Option MarketPoint → Option Decimal
usable_close none = none
usable_close (some p) = if is_unavailable p.data_status then none else p.close

-- `not hit` gives nothing.
abbrev pub occurs :
    Bool → RuleType → Decimal → Decimal → ReferenceType → DataStatus → Option AlertOccurrence
occurs hit kind close reference reference_type status =
    if hit
    then some (record {
      event_type = kind;
      trigger_price = close;
      reference_value = reference;
      reference_type = reference_type;
      data_status = status;
    })
    else none

-- A target is reached from below, and a stop or an addition from above.
unfoldable pub price_hit : RuleType → Decimal → Decimal → Decimal → Bool
price_hit price_target before reference close = ltb_ᴰ before reference && leb_ᴰ reference close
price_hit _ before reference close = ltb_ᴰ reference before && leb_ᴰ close reference

unfoldable pub evaluate_price :
    RuleType → Option Decimal → Option Decimal → Decimal → DataStatus → Option AlertOccurrence
evaluate_price kind (some before) (some reference) close status =
    occurs (price_hit kind before reference close) kind close reference (price_of kind) status
evaluate_price kind _ _ close status = none

-- `abs(close - reference) / reference * 100 <= threshold_percent`
unfoldable pub near_hit : Decimal → Decimal → Option Decimal → Result Bool
near_hit close reference percent = do
  ratio ← or_raise (div (abs (close -ᴰ reference)) reference) arithmetic_error
  limit ← or_raise percent type_error
  ok (leb_ᴰ (ratio *ᴰ of_nat 100) limit)

unfoldable pub touch_hit : Option Decimal → Option Decimal → Decimal → Bool
touch_hit (some low) (some high) reference = leb_ᴰ low reference && leb_ᴰ reference high
touch_hit _ _ reference = false

unfoldable pub cross_hit : Bool → Decimal → Decimal → Decimal → Decimal → Bool
cross_hit true before before_ma close reference = leb_ᴰ before before_ma && ltb_ᴰ reference close
cross_hit false before before_ma close reference = leb_ᴰ before_ma before && ltb_ᴰ close reference

-- The previous point gives nothing where its close or its average is not there.
unfoldable pub cross_hit_from : Bool → Option Decimal → Option Decimal → Decimal → Decimal → Bool
cross_hit_from above (some before) (some before_ma) close reference =
    cross_hit above before before_ma close reference
cross_hit_from above _ _ close reference = false

unfoldable pub evaluate_cross : Bool → ℤ → Option MarketPoint → Decimal → Decimal → Bool
evaluate_cross above period none close reference = false
evaluate_cross above period (some p) close reference =
    cross_hit_from above (usable_close (some p)) (p.moving_averages period) close reference

-- `close > ma if above else close < ma`
abbrev pub is_beyond : Bool → Decimal → Decimal → Bool
is_beyond true close average = ltb_ᴰ average close
is_beyond false close average = ltb_ᴰ close average

-- `rule.consecutive_days or 0`
abbrev pub days_of : Option ℤ → ℤ
days_of none = pos 0
days_of (some d) = d

-- `history[-count:]`: the whole list for 0, and all but the first for a negative count
unfoldable pub last_points : ℤ → List MarketPoint → List MarketPoint
last_points (pos zero) points = points
last_points (pos (suc n)) points = drop (length points - suc n) points
last_points (negsuc n) points = drop (suc n) points

abbrev pub too_few : ℤ → List MarketPoint → Bool
too_few (pos n) points = ltb (length points) n
too_few (negsuc n) points = false

-- One point of a run beyond its average; a point that cannot be used ends the run.
unfoldable pub both_hit : Bool → Option Decimal → Option Decimal → Bool
both_hit above (some close) (some average) = is_beyond above close average
both_hit above _ _ = false

unfoldable pub point_hit : Bool → ℤ → MarketPoint → Bool
point_hit above period p = both_hit above (usable_close (some p)) (p.moving_averages period)

unfoldable pub all_hit : Bool → ℤ → List MarketPoint → Bool
all_hit above period [] = true
all_hit above period (p ∷ ps) = point_hit above period p && all_hit above period ps

unfoldable pub consecutive_hit : Bool → ℤ → ℤ → List MarketPoint → Bool
consecutive_hit above period days history =
    not (too_few days history) && all_hit above period (last_points days history)

-- The hit of a rule on an average, from the close and the average of the current point.
unfoldable pub ma_hit :
    AlertRule → RuleType → ℤ → List MarketPoint → MarketPoint → Decimal → Decimal → Result Bool
ma_hit rule ma_near period history current close reference =
    near_hit close reference rule.threshold_percent
ma_hit rule ma_touch period history current close reference =
    ok (touch_hit current.low current.high reference)
ma_hit rule ma_cross_above period history current close reference =
    ok (evaluate_cross true period (previous_of history) close reference)
ma_hit rule ma_cross_below period history current close reference =
    ok (evaluate_cross false period (previous_of history) close reference)
ma_hit rule ma_close_above period history current close reference =
    ok (is_beyond true close reference)
ma_hit rule ma_close_below period history current close reference =
    ok (is_beyond false close reference)
ma_hit rule ma_consecutive_above period history current close reference =
    ok (consecutive_hit true period (days_of rule.consecutive_days) history)
ma_hit rule _ period history current close reference =
    ok (consecutive_hit false period (days_of rule.consecutive_days) history)

unfoldable pub evaluate_ma :
    AlertRule
    → ℤ
    → List MarketPoint
    → MarketPoint
    → Decimal
    → Option Decimal
    → Result (Option AlertOccurrence)
evaluate_ma rule period history current close none = ok none
evaluate_ma rule period history current close (some reference) = do
  hit ← ma_hit rule rule.rule_type period history current close reference
  ok (occurs hit rule.rule_type close reference (ma period) current.data_status)

-- A rule on an average must have a period.
unfoldable pub evaluate_period :
    AlertRule
    → List MarketPoint
    → MarketPoint
    → Decimal
    → Option ℤ
    → Result (Option AlertOccurrence)
evaluate_period rule history current close none = err assertion_error
evaluate_period rule history current close (some period) =
    evaluate_ma rule period history current close (current.moving_averages period)

unfoldable pub evaluate_at :
    AlertRule → List MarketPoint → MarketPoint → Decimal → Result (Option AlertOccurrence)
evaluate_at rule history current close =
    if is_price rule.rule_type
    then ok (
        evaluate_price rule.rule_type (usable_close (previous_of history)) rule.threshold_price
          close current.data_status)
    else evaluate_period rule history current close rule.ma_period

-- The current point gives nothing where its close is not there or cannot be used.
unfoldable pub evaluate_closed :
    AlertRule → List MarketPoint → MarketPoint → Option Decimal → Result (Option AlertOccurrence)
evaluate_closed rule history current none = ok none
evaluate_closed rule history current (some close) = evaluate_at rule history current close

unfoldable pub evaluate_current :
    AlertRule → List MarketPoint → Option MarketPoint → Result (Option AlertOccurrence)
evaluate_current rule history none = ok none
evaluate_current rule history (some current) =
    evaluate_closed rule history current (usable_close (some current))

unfoldable pub evaluate : AlertRule → List MarketPoint → Result (Option AlertOccurrence)
evaluate rule history = evaluate_current rule history (get_last? history)
