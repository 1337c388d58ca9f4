-- ===== src/Alert/Rule.antt =====
-- `validate_rule` (backend/app/domain/alert.py).
use tw_stock_android_spec.Base.{ℕ, Bool, true, false, not, ◌&&◌, ◌||◌, Option, none, some, is_some}
use tw_stock_android_spec.Base.Int.{ℤ, pos, leb_ℤ, ltb_ℤ, eqb_ℤ}
use tw_stock_android_spec.Base.Decimal.{Decimal, of_nat, ltb_ᴰ, leb_ᴰ}
use tw_stock_android_spec.Outcome.{Result, value_error, ◌>>◌, raise_if}
use tw_stock_android_spec.Alert.Types.{
  RuleType, is_price, is_near, is_consecutive, is_end_of_day, ScopeType, security, portfolio,
  watchlist, EvaluationMode, eod, realtime, AlertRule,
}

-- Exactly one scope target is there, and it is that of the scope type.
unfoldable pub scope_fits : ScopeType → Option ℕ → Option ℕ → Option ℕ → Bool
scope_fits security (some s) none none = true
scope_fits portfolio none (some p) none = true
scope_fits watchlist none none (some w) = true
scope_fits _ _ _ _ = false

unfoldable pub is_supported_period : Option ℤ → Bool
is_supported_period none = false
is_supported_period (some p) =
    eqb_ℤ p (pos 5)
    || eqb_ℤ p (pos 10)
    || eqb_ℤ p (pos 20)
    || eqb_ℤ p (pos 60)
    || eqb_ℤ p (pos 120)
    || eqb_ℤ p (pos 240)

-- `is_price != (threshold_price is not None) or threshold_price is not None and threshold_price <= 0`
unfoldable pub price_refused : Bool → Option Decimal → Bool
price_refused true none = true
price_refused false none = false
price_refused false (some p) = true
price_refused true (some p) = leb_ᴰ p (of_nat 0)

unfoldable pub period_refused : Bool → Option ℤ → Bool
period_refused true period = is_some period
period_refused false period = not (is_supported_period period)

unfoldable pub percent_refused : Bool → Option Decimal → Bool
percent_refused false percent = is_some percent
percent_refused true none = true
percent_refused true (some p) = not (ltb_ᴰ (of_nat 0) p && leb_ᴰ p (of_nat 20))

unfoldable pub days_refused : Bool → Option ℤ → Bool
days_refused false days = is_some days
days_refused true none = true
days_refused true (some d) = not (leb_ℤ (pos 2) d && leb_ℤ d (pos 60))

unfoldable pub mode_refused : EvaluationMode → RuleType → Bool
mode_refused eod t = false
mode_refused realtime t = is_end_of_day t

-- A session scope other than the regular one, which is the only one there is, would be refused too.
unfoldable pub validate_rule : AlertRule → Result (Unit {0})
validate_rule rule = do
  raise_if (not (scope_fits rule.scope_type rule.security_id rule.portfolio_id rule.watchlist_id))
      value_error
  raise_if (price_refused (is_price rule.rule_type) rule.threshold_price) value_error
  raise_if (period_refused (is_price rule.rule_type) rule.ma_period) value_error
  raise_if (percent_refused (is_near rule.rule_type) rule.threshold_percent) value_error
  raise_if (days_refused (is_consecutive rule.rule_type) rule.consecutive_days) value_error
  raise_if (ltb_ℤ rule.cooldown_minutes (pos 0) || ltb_ℤ rule.daily_limit (pos 1)) value_error
  raise_if (mode_refused rule.evaluation_mode rule.rule_type) value_error
