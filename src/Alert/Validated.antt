-- ===== src/Alert/Validated.antt =====
-- What the validation of a rule buys its evaluation (backend/app/domain/alert.py,
-- backend/app/services/alert_evaluators.py).
use tw_stock_android_spec.Base.{
  ◌≡◌, refl, true, false, Option, none, some, List, All, All-get_last?, get_last?, inl, inr,
  Bool-cases, arith,
}
use tw_stock_android_spec.Base.Int.{ℤ}
use tw_stock_android_spec.Base.Decimal.{
  Decimal, is_zero, div-some, divided, of_nat, ◌*ᴰ◌, leb_ᴰ, ◌-ᴰ◌, abs,
}
use tw_stock_android_spec.Outcome.{Result, ok}
use tw_stock_android_spec.Alert.Types.{
  RuleType, price_target, price_stop, price_add, ma_near, ma_touch, ma_cross_above, ma_cross_below,
  ma_close_above, ma_close_below, ma_consecutive_above, ma_consecutive_below, is_price, is_near,
  is_consecutive, ma, AlertRule, MarketPoint,
}
use tw_stock_android_spec.Alert.Rule.{
  validate_rule, price_refused, period_refused, percent_refused, days_refused, is_supported_period,
}
use tw_stock_android_spec.Alert.Evaluator.{
  evaluate, evaluate_current, evaluate_at, evaluate_closed, evaluate_period, evaluate_ma, ma_hit,
  near_hit, usable_close, occurs,
}

-- A call that comes to a value.
abbrev pub Returns {ℓ} : {A : Type ℓ} → Result A → Type ℓ
Returns {A = A} m = (a : A) × (m ≡ ok a)

-- The average of every period that a point has is not zero.
abbrev pub IsPriced : MarketPoint → Type 0
IsPriced p = (period : ℤ) (d : Decimal) → p.moving_averages period ≡ some d → is_zero d ≡ false

true-false : true ≡ false → ⊥
true-false e = cc

validated :
    (rule : AlertRule)
    → validate_rule rule ≡ ok tt
    → (price_refused (is_price rule.rule_type) rule.threshold_price ≡ false)
      × (period_refused (is_price rule.rule_type) rule.ma_period ≡ false)
      × (percent_refused (is_near rule.rule_type) rule.threshold_percent ≡ false)
      × (days_refused (is_consecutive rule.rule_type) rule.consecutive_days ≡ false)
unfolding validate_rule
validated rule h = ground arith

near-Returns :
    (close reference : Decimal) (percent : Option Decimal)
    → is_zero reference ≡ false
    → percent_refused true percent ≡ false
    → Returns (near_hit close reference percent)
unfolding near_hit percent_refused
near-Returns close reference none h k = absurd (true-false k)
near-Returns close reference (some p) h k = (
  leb_ᴰ (divided (abs (close -ᴰ reference)) reference *ᴰ of_nat 100) p,
  rw (div-some (abs (close -ᴰ reference)) reference h) refl,
)

ma_hit-Returns :
    (rule : AlertRule) (kind : RuleType) (period : ℤ) (history : List MarketPoint)
    (current : MarketPoint) (close reference : Decimal)
    → percent_refused (is_near kind) rule.threshold_percent ≡ false
    → is_zero reference ≡ false
    → Returns (ma_hit rule kind period history current close reference)
unfolding ma_hit
ma_hit-Returns rule ma_near period history current close reference v z =
    near-Returns close reference rule.threshold_percent z v
ma_hit-Returns rule ma_touch period history current close reference v z = (_, refl)
ma_hit-Returns rule ma_cross_above period history current close reference v z = (_, refl)
ma_hit-Returns rule ma_cross_below period history current close reference v z = (_, refl)
ma_hit-Returns rule ma_close_above period history current close reference v z = (_, refl)
ma_hit-Returns rule ma_close_below period history current close reference v z = (_, refl)
ma_hit-Returns rule ma_consecutive_above period history current close reference v z = (_, refl)
ma_hit-Returns rule ma_consecutive_below period history current close reference v z = (_, refl)
ma_hit-Returns rule price_target period history current close reference v z = (_, refl)
ma_hit-Returns rule price_stop period history current close reference v z = (_, refl)
ma_hit-Returns rule price_add period history current close reference v z = (_, refl)

evaluate_ma-Returns :
    (rule : AlertRule) (period : ℤ) (history : List MarketPoint) (current : MarketPoint)
    (close : Decimal) (average : Option Decimal)
    → percent_refused (is_near rule.rule_type) rule.threshold_percent ≡ false
    → ((d : Decimal) → average ≡ some d → is_zero d ≡ false)
    → Returns (evaluate_ma rule period history current close average)
unfolding evaluate_ma
evaluate_ma-Returns rule period history current close none v z = (_, refl)
evaluate_ma-Returns rule period history current close (some reference) v z =
    let hit =
      ma_hit-Returns rule rule.rule_type period history current close reference v
        (z reference refl) in
    (occurs hit.0 rule.rule_type close reference (ma period) current.data_status, rw hit.1 refl)

evaluate_period-Returns :
    (rule : AlertRule) (history : List MarketPoint) (current : MarketPoint) (close : Decimal)
    (period : Option ℤ)
    → period_refused false period ≡ false
    → percent_refused (is_near rule.rule_type) rule.threshold_percent ≡ false
    → IsPriced current
    → Returns (evaluate_period rule history current close period)
unfolding evaluate_period period_refused is_supported_period
evaluate_period-Returns rule history current close none r v z = absurd (true-false r)
evaluate_period-Returns rule history current close (some n) r v z =
    evaluate_ma-Returns rule n history current close (current.moving_averages n) v (z n)

evaluate_closed-Returns :
    (rule : AlertRule) (history : List MarketPoint) (current : MarketPoint) (close : Option Decimal)
    → period_refused (is_price rule.rule_type) rule.ma_period ≡ false
    → percent_refused (is_near rule.rule_type) rule.threshold_percent ≡ false
    → IsPriced current
    → Returns (evaluate_closed rule history current close)
unfolding evaluate_closed evaluate_at
evaluate_closed-Returns rule history current none r v z = (none, refl)
evaluate_closed-Returns rule history current (some close) r v z =
    elim (Bool-cases (is_price rule.rule_type)) [
      | inl t ↦ rw t (_, refl)
      | inr t ↦
          rw t (evaluate_period-Returns rule history current close rule.ma_period (rw t at r) v z)
    ]

evaluate_current-Returns :
    (rule : AlertRule) (history : List MarketPoint) (current : Option MarketPoint)
    → period_refused (is_price rule.rule_type) rule.ma_period ≡ false
    → percent_refused (is_near rule.rule_type) rule.threshold_percent ≡ false
    → ((p : MarketPoint) → current ≡ some p → IsPriced p)
    → Returns (evaluate_current rule history current)
unfolding evaluate_current
evaluate_current-Returns rule history none r v z = (none, refl)
evaluate_current-Returns rule history (some p) r v z =
    evaluate_closed-Returns rule history p (usable_close (some p)) r v (z p refl)

-- A rule that passed its validation is evaluated without an exception, to an occurrence or to nothing,
-- on any history whose moving averages are not zero.
pub evaluate-Returns :
    (rule : AlertRule) (history : List MarketPoint)
    → validate_rule rule ≡ ok tt
    → All IsPriced history
    → Returns (evaluate rule history)
unfolding evaluate
evaluate-Returns rule history h priced =
    let v = validated rule h in
    evaluate_current-Returns rule history (get_last? history) v.1 v.2
      (λ p last. All-get_last? IsPriced history last priced)
