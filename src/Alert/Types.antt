-- ===== src/Alert/Types.antt =====
-- The rules, market points and events of backend/app/domain/alert.py.
use tw_stock_android_spec.Base.{ℕ, String, Bool, true, false, Option}
use tw_stock_android_spec.Base.Int.{ℤ}
use tw_stock_android_spec.Base.Decimal.{Decimal}
use tw_stock_android_spec.Market.{DataStatus}

pub data RuleType : Type 0 where
  price_target price_stop price_add : RuleType
  ma_near ma_touch ma_cross_above ma_cross_below ma_close_above ma_close_below : RuleType
  ma_consecutive_above ma_consecutive_below : RuleType

-- `rule_type.value.startswith("PRICE_")`; every other type starts with "MA_".
abbrev pub is_price : RuleType → Bool
is_price price_target = true
is_price price_stop = true
is_price price_add = true
is_price _ = false

abbrev pub is_near : RuleType → Bool
is_near ma_near = true
is_near _ = false

abbrev pub is_consecutive : RuleType → Bool
is_consecutive ma_consecutive_above = true
is_consecutive ma_consecutive_below = true
is_consecutive _ = false

-- The types that need the close of the day.
abbrev pub is_end_of_day : RuleType → Bool
is_end_of_day ma_close_above = true
is_end_of_day ma_close_below = true
is_end_of_day ma_consecutive_above = true
is_end_of_day ma_consecutive_below = true
is_end_of_day _ = false

pub data ScopeType : Type 0 where
  security portfolio watchlist : ScopeType

pub data EvaluationMode : Type 0 where
  eod realtime : EvaluationMode

pub data SessionScope : Type 0 where
  regular : SessionScope

pub record AlertRule : Type 0 where
  pub id : ℕ
  pub rule_type : RuleType
  pub scope_type : ScopeType
  pub security_id : Option ℕ
  pub portfolio_id : Option ℕ
  pub watchlist_id : Option ℕ
  pub ma_period : Option ℤ
  pub threshold_price : Option Decimal
  pub threshold_percent : Option Decimal
  pub consecutive_days : Option ℤ
  pub enabled : Bool
  pub cooldown_minutes : ℤ
  pub daily_limit : ℤ
  pub evaluation_mode : EvaluationMode
  pub session_scope : SessionScope

-- `moving_averages` is `none` on a period that is missing or has no value.
pub record MarketPoint : Type 0 where
  pub trade_date : ℕ
  pub high : Option Decimal
  pub low : Option Decimal
  pub close : Option Decimal
  pub moving_averages : ℤ → Option Decimal
  pub data_status : DataStatus

-- "TARGET_PRICE", "STOP_PRICE", "ADD_PRICE", or "MA" and the period.
pub data ReferenceType : Type 0 where
  price_of : RuleType → ReferenceType
  ma : ℤ → ReferenceType

-- The event's type and numbers; its message is the security's code, a text of the event's type and
-- the reference type.
pub record AlertOccurrence : Type 0 where
  pub event_type : RuleType
  pub trigger_price : Decimal
  pub reference_value : Decimal
  pub reference_type : ReferenceType
  pub data_status : DataStatus

-- `AlertEventModel`
pub record AlertEvent : Type 0 where
  pub id : ℕ
  pub alert_rule_id : ℕ
  pub security_id : ℕ
  pub triggered_at : ℕ
  pub trade_date : ℕ
  pub occurrence : AlertOccurrence
  pub fingerprint : String
  pub notification_eligible : Bool

-- `PushEventModel`
pub record PushEvent : Type 0 where
  pub id : ℕ
  pub user_id : Option ℕ
  pub event_type : RuleType
