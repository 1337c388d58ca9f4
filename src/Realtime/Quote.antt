-- ===== src/Realtime/Quote.antt =====
-- The quotes, quote types, sessions and intraday candles of backend/app/domain/realtime.py.
use tw_stock_android_spec.Base.{ℕ, String, ◌≡◌, ◌↔◌, Bool, true, false, ◌&&◌, str_eq, eq_iff, arith}
use tw_stock_android_spec.Base.Assoc.{Eq}

pub data QuoteType : Type 0 where
  tick bid_ask : QuoteType

abbrev pub same_type : QuoteType → QuoteType → Bool
same_type tick tick = true
same_type bid_ask bid_ask = true
same_type _ _ = false

-- A broker subscription's identity: the upper-case security key and the quote type.
abbrev pub Identity : Type 0
Identity = String × QuoteType

abbrev pub same_identity : Identity → Identity → Bool
same_identity (s, q) (t, r) = str_eq s t && same_type q r

pub same_identity_iff : (a b : Identity) → (same_identity a b ≡ true) ↔ (a ≡ b)
same_identity_iff (s, q) (t, r) = ground (arith, eq_iff s t)

instance abbrev pub identity_eq : Eq Identity
identity_eq = record { beq = same_identity; beq_iff = same_identity_iff }

pub data DataStatus : Type 0 where
  live stale delayed unavailable : DataStatus

pub data TradingSession : Type 0 where
  regular after_hours unknown : TradingSession

pub data EventKind : Type 0 where
  snapshot update : EventKind

pub data Interval : Type 0 where
  one_minute five_minutes : Interval

-- `IntradayInterval.minutes`
unfoldable pub minutes : Interval → ℕ
minutes one_minute = 1
minutes five_minutes = 5
