-- ===== src/Alert/Examples.antt =====
-- A rule on an average and a day's points, and each theorem on alerts at such an input.
use Prim.Native.Nat.{max}
use tw_stock_android_spec.Base.{
  ℕ, ◌≤◌, ◌<◌, ◌≡◌, refl, sym, some_eq, if◌then◌else◌, ◌==◌, true, false, none, some, List, [], ◌∷◌,
  map, arith,
}
use tw_stock_android_spec.Base.Int.{ℤ, pos}
use tw_stock_android_spec.Base.Decimal.{Decimal, of_nat, is_zero}
use tw_stock_android_spec.Outcome.{ok, err, value_error}
use tw_stock_android_spec.Market.{final}
use tw_stock_android_spec.Alert.Types.{
  price_target, ma_close_above, security, eod, regular, AlertRule, MarketPoint,
}
use tw_stock_android_spec.Alert.Rule.{
  validate_rule, scope_fits, is_supported_period, price_refused, period_refused, percent_refused,
  days_refused, mode_refused,
}
use tw_stock_android_spec.Alert.Calendar.{
  is_trading_day, back, previous_trading_day, latest_from, latest_completed, latest_completed_lem,
}
use tw_stock_android_spec.Alert.Evaluator.{
  price_hit, evaluate_price, near_hit, touch_hit, cross_hit, cross_hit_from, evaluate_cross,
  last_points, both_hit, point_hit, all_hit, consecutive_hit, ma_hit, evaluate_ma, evaluate_period,
  evaluate_at, evaluate_closed, evaluate_current, evaluate,
}
use tw_stock_android_spec.Alert.Service.{
  counts_from, is_selected, event_state, cooling, eligible, record_event, fire, occurred, points_of,
  visit, visit_all, is_eod, Evaluation, target_of, rules_of, max_cooldown, visits_for, visits_of,
  evaluate_all,
}
use tw_stock_android_spec.Alert.Service
use tw_stock_android_spec.Alert.Calendar
use tw_stock_android_spec.Alert.Validated.{Returns, evaluate-Returns}
use tw_stock_android_spec.Alert.Limits.{notified, evaluate_all_within_limit}
use tw_stock_android_spec.Alert.Fingerprints.{IsTallied, evaluate_all-IsTallied}

program : Unit {0}
unfolding validate_rule scope_fits is_supported_period price_refused period_refused percent_refused
    days_refused mode_refused is_trading_day back previous_trading_day Calendar.latest_from
    latest_completed price_hit evaluate_price near_hit touch_hit cross_hit cross_hit_from
    evaluate_cross last_points both_hit point_hit all_hit consecutive_hit ma_hit evaluate_ma
    evaluate_period evaluate_at evaluate_closed evaluate_current evaluate counts_from
    Service.latest_from is_selected event_state cooling eligible record_event fire occurred
    points_of visit visit_all is_eod target_of rules_of max_cooldown visits_for visits_of
    evaluate_all
program = tt

abbrev above : AlertRule
above = record {
  id = 1;
  rule_type = ma_close_above;
  scope_type = security;
  security_id = some 8;
  portfolio_id = none;
  watchlist_id = none;
  ma_period = some (pos 5);
  threshold_price = none;
  threshold_percent = none;
  consecutive_days = none;
  enabled = true;
  cooldown_minutes = pos 0;
  daily_limit = pos 1;
  evaluation_mode = eod;
  session_scope = regular;
}

abbrev point : ℕ → ℕ → MarketPoint
point day close = record {
  trade_date = day;
  high = some (of_nat 12);
  low = some (of_nat 8);
  close = some (of_nat close);
  moving_averages = λ period. some (of_nat 10);
  data_status = final;
}

abbrev points : List MarketPoint
points = point 1 9 ∷ point 2 11 ∷ []

above_valid : validate_rule above ≡ ok tt
unfolding program
above_valid = refl

price_without_threshold :
    validate_rule (record above { rule_type = price_target; ma_period = none }) ≡ err value_error
unfolding program
price_without_threshold = refl

fires : Returns (evaluate above points)
unfolding program
fires = (_, refl)

averages_not_zero : (period : ℤ) (d : Decimal) → some (of_nat 10) ≡ some d → is_zero d ≡ false
averages_not_zero period d e = rw (sym (some_eq e)) refl

evaluate-Returns_example : Returns (evaluate above points)
evaluate-Returns_example =
    evaluate-Returns above points above_valid (averages_not_zero, (averages_not_zero, tt))

latest_completed_lem_example :
    (is_trading_day (latest_completed 7) ≡ true)
    × (latest_completed 7 ≤ 7)
    × (latest_completed 7 < 6 → 6 ≤ 7 → is_trading_day 6 ≡ false)
latest_completed_lem_example = latest_completed_lem 7 6 (omega arith)

-- Two securities fire, and one notification is the day's limit.
abbrev evening : Evaluation
evening = record {
  target_date = none;
  today = 2;
  started_at = 1000;
  enabled_rules = above ∷ [];
  membership = λ r. 8 ∷ 9 ∷ [];
  reads = λ r s. record { now = 1000; later = 1001; event_id = s };
  owner = λ r. some 3;
  digest = λ r s d t. if s == 8 then "eight" else "nine";
  history = λ s. points;
}

one_notification :
    map (λ e. e.notification_eligible) (evaluate_all evening [] []).events ≡ true ∷ false ∷ []
unfolding program
one_notification = refl

evaluate_all_within_limit_example :
    notified 1 (target_of evening) (evaluate_all evening [] []).events
    ≤ max (notified 1 (target_of evening) []) 1
unfolding rules_of is_eod
evaluate_all_within_limit_example =
    evaluate_all_within_limit evening [] [] 1 1 refl ((λ e. refl), tt)

evaluate_all-IsTallied_example : IsTallied 0 0 (evaluate_all evening [] [])
unfolding event_state
evaluate_all-IsTallied_example = evaluate_all-IsTallied evening [] [] tt
