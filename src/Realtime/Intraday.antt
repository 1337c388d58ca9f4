-- ===== src/Realtime/Intraday.antt =====
-- `IntradayCandleAggregator.accept` and `_update_one_minute`
-- (backend/app/services/intraday_candle_aggregator.py) on what the cache keeps of one security and
-- session (backend/app/services/realtime_cache.py). Times are in microseconds. The five-minute candle
-- that `accept` derives from the saved ones is in Five.
pub mod Prices
pub mod Late
pub mod Session
pub mod Conserved
pub mod Arrival
pub mod Ingest
pub mod Five
pub mod FiveFound
pub mod FiveBounds
mod Examples
use tw_stock_android_spec.Base.{
  ℕ, ◌+◌, ◌-◌, ◌*◌, ◌%◌, Bool, true, false, not, ◌&&◌, ◌||◌, Option, none, some, List, [], ◌∷◌,
  filter, ltb, leb, ◌==◌, if◌then◌else◌,
}
use tw_stock_android_spec.Base.Assoc.{put, nat_eq}
use tw_stock_android_spec.Base.Decimal.{Decimal, ◌+ᴰ◌, ◌-ᴰ◌, leb_ᴰ, max_ᴰ, min_ᴰ}
use tw_stock_android_spec.Realtime.Quote.{
  DataStatus, stale, EventKind, snapshot, update, Interval, one_minute, minutes,
}

-- The fields of `RealtimeQuote` that the aggregator reads.
pub record Quote : Type 0 where
  pub exchange_timestamp : ℕ
  pub received_at : ℕ
  pub last_price : Decimal
  pub total_volume : ℕ
  pub turnover_amount : Option Decimal
  pub sequence : Option ℕ
  pub data_status : DataStatus
  pub event_kind : EventKind

pub record IntradayCandle : Type 0 where
  pub bucket_start : ℕ
  pub bucket_end : ℕ
  pub opening : Decimal
  pub high : Decimal
  pub low : Decimal
  pub close : Decimal
  pub volume : ℕ
  pub turnover_amount : Option Decimal
  pub first_sequence : Option ℕ
  pub last_sequence : Option ℕ
  pub quote_count : ℕ
  pub is_final : Bool
  pub data_status : DataStatus
  pub created_at : ℕ
  pub updated_at : ℕ

-- The current one-minute candle, the saved ones by their start, and the volume baseline; the time
-- that the clock shows in a call, and until when the current candle and the baseline are kept.
pub record Cache : Type 0 where
  pub current : Option IntradayCandle
  pub candles : List (ℕ × IntradayCandle)
  pub baseline : Option (ℕ × Option Decimal)
  pub clock : ℕ
  pub current_until : ℕ
  pub baseline_until : ℕ

-- `ex=86400`, in microseconds
abbrev pub one_day : ℕ
one_day = 86400000000

-- `timedelta(days=self.intraday_retention_days + 2)`, of 5 days
abbrev pub retention : ℕ
retention = 604800000000

-- A value, until the clock passes the end of its time to live
abbrev pub unexpired {ℓ} : {A : Type ℓ} → ℕ → ℕ → Option A → Option A
unexpired now until value = if ltb now until then value else none

-- What the cache holds at a time
unfoldable pub at_time : ℕ → Cache → Cache
at_time now cache = record cache {
  clock = now;
  current = unexpired now cache.current_until cache.current;
  baseline = unexpired now cache.baseline_until cache.baseline;
}

-- `zremrangebyscore` leaves the starts that are past the cutoff. The history as a whole expires a
-- week after its last candle was saved, when no start is left that is not in the future.
abbrev pub is_retained : ℕ → ℕ × IntradayCandle → Bool
is_retained now entry = ltb now (entry.0 + retention)

-- `bucket`: Taipei is a whole number of hours from UTC, so its minutes are those of UTC.
unfoldable pub bucket_start_of : Interval → ℕ → ℕ
bucket_start_of interval t = t - t % (minutes interval * 60000000)

unfoldable pub save_candle : IntradayCandle → Cache → Cache
save_candle c cache = record cache {
  candles = filter (is_retained cache.clock) (put c.bucket_start c cache.candles);
  current = if c.is_final then none else some c;
  current_until = cache.clock + one_day;
}

unfoldable pub set_baseline : Quote → Cache → Cache
set_baseline q cache = record cache {
  baseline = some (q.total_volume, q.turnover_amount);
  baseline_until = cache.clock + one_day;
}

-- What a quote adds: its volume and turnover over the baseline, and whether the volume went back.
pub record Delta : Type 0 where
  pub volume : ℕ
  pub turnover : Option Decimal
  pub partial : Bool

unfoldable pub turnover_delta : Option Decimal → Option Decimal → Option Decimal
turnover_delta (some now) (some previous) =
    if leb_ᴰ previous now then some (now -ᴰ previous) else none
turnover_delta _ _ = none

unfoldable pub delta_of : Option (ℕ × Option Decimal) → Quote → Delta
delta_of none q = record { volume = 0; turnover = none; partial = false }
delta_of (some (volume, turnover)) q = record {
  volume = q.total_volume - volume;
  turnover = turnover_delta q.turnover_amount turnover;
  partial = ltb q.total_volume volume;
}

unfoldable pub not_after : Option ℕ → Option ℕ → Bool
not_after (some sequence) (some last) = leb sequence last
not_after _ _ = false

-- The quote is out of order for the candle.
unfoldable pub is_late : Quote → IntradayCandle → Bool
is_late q c = not_after q.sequence c.last_sequence || ltb q.exchange_timestamp c.updated_at

unfoldable pub new_candle : Quote → Delta → IntradayCandle
new_candle q d =
    let start = bucket_start_of one_minute q.exchange_timestamp in
    record {
      bucket_start = start;
      bucket_end = start + minutes one_minute * 60000000;
      opening = q.last_price;
      high = q.last_price;
      low = q.last_price;
      close = q.last_price;
      volume = d.volume;
      turnover_amount = d.turnover;
      first_sequence = q.sequence;
      last_sequence = q.sequence;
      quote_count = 1;
      is_final = false;
      data_status = if d.partial then stale else q.data_status;
      created_at = q.received_at;
      updated_at = q.exchange_timestamp;
    }

abbrev pub add_turnover : Option Decimal → Option Decimal → Option Decimal
add_turnover (some a) (some b) = some (a +ᴰ b)
add_turnover _ _ = none

unfoldable pub extend_candle : Quote → Delta → IntradayCandle → IntradayCandle
extend_candle q d c = record c {
  high = max_ᴰ c.high q.last_price;
  low = min_ᴰ c.low q.last_price;
  close = q.last_price;
  volume = c.volume + d.volume;
  turnover_amount = add_turnover c.turnover_amount d.turnover;
  last_sequence = q.sequence;
  quote_count = c.quote_count + 1;
  data_status = if d.partial then stale else q.data_status;
  updated_at = q.exchange_timestamp;
}

unfoldable pub finalize : ℕ → IntradayCandle → IntradayCandle
finalize now c = record c { is_final = true; updated_at = now }

abbrev pub saved : IntradayCandle → Cache → Option IntradayCandle × Cache
saved c cache = (some c, save_candle c cache)

-- `_update_one_minute`, from the current candle: a late quote is dropped, one of another minute
-- closes the candle and opens one, and one of the same minute extends it.
unfoldable pub update_one_minute :
    Quote → Delta → Option IntradayCandle → Cache → Option IntradayCandle × Cache
update_one_minute q d none cache = saved (new_candle q d) cache
update_one_minute q d (some c) cache =
    if is_late q c
    then (none, cache)
    else if not (c.bucket_start == bucket_start_of one_minute q.exchange_timestamp)
    then saved (new_candle q d) (save_candle (finalize q.received_at c) cache)
    else saved (extend_candle q d c) cache

-- `accept`: the baseline is moved before the quote's order is looked at.
unfoldable pub accept_kind : EventKind → Quote → Cache → Option IntradayCandle × Cache
accept_kind snapshot q cache = (none, set_baseline q cache)
accept_kind update q cache =
    update_one_minute q (delta_of cache.baseline q) cache.current (set_baseline q cache)

unfoldable pub accept : Quote → Cache → Option IntradayCandle × Cache
accept q cache = accept_kind q.event_kind q cache
