-- ===== src/Realtime/Intraday/Prices.antt =====
-- The prices of one-minute candles (backend/app/services/intraday_candle_aggregator.py).
use tw_stock_android_spec.Base.{Option, none, some, All, All-filter, ◌==◌, if_both, not}
use tw_stock_android_spec.Base.Assoc.{nat_eq, All-put}
use tw_stock_android_spec.Base.Decimal.{
  ◌≤ᴰ◌, ≤ᴰ_refl, ≤ᴰ_trans, max_ᴰ, min_ᴰ, max_ᴰ_bounds, min_ᴰ_bounds,
}
use tw_stock_android_spec.Realtime.Quote.{EventKind, snapshot, update, one_minute}
use tw_stock_android_spec.Realtime.Intraday.{
  Quote, IntradayCandle, Cache, Delta, save_candle, set_baseline, delta_of, is_late, new_candle,
  extend_candle, finalize, update_one_minute, accept_kind, accept, bucket_start_of, is_retained,
}

-- The open and the close lie between the low and the high.
abbrev pub IsOrdered : IntradayCandle → Type 0
IsOrdered c =
    (c.low ≤ᴰ c.opening) × (c.opening ≤ᴰ c.high) × (c.low ≤ᴰ c.close) × (c.close ≤ᴰ c.high)

abbrev pub OrderedCurrent : Option IntradayCandle → Type 0
OrderedCurrent none = Unit
OrderedCurrent (some c) = IsOrdered c

abbrev pub IsOrderedCache : Cache → Type 0
IsOrderedCache cache = OrderedCurrent cache.current × All (λ entry. IsOrdered entry.1) cache.candles

new_candle-IsOrdered : (q : Quote) (d : Delta) → IsOrdered (new_candle q d)
unfolding new_candle
new_candle-IsOrdered q d =
    (≤ᴰ_refl q.last_price, ≤ᴰ_refl q.last_price, ≤ᴰ_refl q.last_price, ≤ᴰ_refl q.last_price)

extend_candle-IsOrdered :
    (q : Quote) (d : Delta) (c : IntradayCandle) → IsOrdered c → IsOrdered (extend_candle q d c)
unfolding extend_candle
extend_candle-IsOrdered q d c h =
    let low = min_ᴰ_bounds c.low q.last_price in
    let high = max_ᴰ_bounds c.high q.last_price in
    (
      ≤ᴰ_trans (min_ᴰ c.low q.last_price) c.low c.opening low.0 h.0,
      ≤ᴰ_trans c.opening c.high (max_ᴰ c.high q.last_price) h.1 high.0,
      low.1,
      high.1,
    )

pub save_candle-IsOrdered :
    (c : IntradayCandle) (cache : Cache)
    → IsOrdered c
    → IsOrderedCache cache
    → IsOrderedCache (save_candle c cache)
unfolding save_candle
save_candle-IsOrdered c cache p h = (
  if_both OrderedCurrent c.is_final none (some c) tt p,
  All-filter (λ entry. IsOrdered entry.1) (is_retained cache.clock) _
      (All-put IsOrdered c.bucket_start c cache.candles h.1 p),
)

update-IsOrdered :
    (q : Quote) (d : Delta) (o : Option IntradayCandle) (cache : Cache)
    → OrderedCurrent o
    → IsOrderedCache cache
    → IsOrderedCache (update_one_minute q d o cache).1
unfolding update_one_minute finalize
update-IsOrdered q d none cache p h =
    save_candle-IsOrdered (new_candle q d) cache (new_candle-IsOrdered q d) h
update-IsOrdered q d (some c) cache p h =
    if_both {A = Option IntradayCandle × Cache} (λ out. IsOrderedCache out.1) (is_late q c)
      (none, cache) _ h
      (if_both {A = Option IntradayCandle × Cache} (λ out. IsOrderedCache out.1)
        (not (c.bucket_start == bucket_start_of one_minute q.exchange_timestamp)) _ _
        (save_candle-IsOrdered (new_candle q d) (save_candle (finalize q.received_at c) cache)
          (new_candle-IsOrdered q d) (save_candle-IsOrdered (finalize q.received_at c) cache p h))
        (save_candle-IsOrdered (extend_candle q d c) cache (extend_candle-IsOrdered q d c p) h))

-- Whatever quote is accepted, late ones included, the open and the close of the current candle and of
-- every saved one stay between its low and its high.
pub accept-IsOrderedCache :
    (q : Quote) (cache : Cache) → IsOrderedCache cache → IsOrderedCache (accept q cache).1
unfolding accept accept_kind set_baseline
accept-IsOrderedCache q cache h = by_kind q.event_kind
  where
    by_kind : (kind : EventKind) → IsOrderedCache (accept_kind kind q cache).1
    by_kind snapshot = h
    by_kind update =
        update-IsOrdered q (delta_of cache.baseline q) cache.current (set_baseline q cache) h.0 h
