-- ===== src/Realtime/Intraday/Late.antt =====
-- The volume of one-minute candles, and what a quote that comes late does to it
-- (backend/app/services/intraday_candle_aggregator.py).
use tw_stock_android_spec.Base.{
  ℕ, ◌+◌, ◌-◌, ◌≡◌, refl, ap, ◌∙◌, true, false, Option, none, some, ◌==◌, ==_iff,
}
use tw_stock_android_spec.Base.Decimal.{Decimal}
use tw_stock_android_spec.Realtime.Quote.{update, one_minute}
use tw_stock_android_spec.Realtime.Intraday.{
  Quote, IntradayCandle, Cache, Delta, save_candle, set_baseline, delta_of, is_late, new_candle,
  finalize, extend_candle, update_one_minute, accept_kind, accept, bucket_start_of,
}

-- The volume of the candle that a call gives back, or 0.
abbrev pub volume_of : Option IntradayCandle → ℕ
volume_of none = 0
volume_of (some c) = c.volume

pub accept_update :
    (q : Quote) (cache : Cache) (o : Option IntradayCandle)
    → q.event_kind ≡ update
    → cache.current ≡ o
    → accept q cache ≡ update_one_minute q (delta_of cache.baseline q) o (set_baseline q cache)
unfolding accept accept_kind
accept_update q cache o kind current =
    ap (λ k. accept_kind k q cache) kind
    ∙ ap (λ p. update_one_minute q (delta_of cache.baseline q) p (set_baseline q cache)) current

pub update_in_order :
    (q : Quote) (d : Delta) (c : IntradayCandle) (cache : Cache)
    → is_late q c ≡ false
    → c.bucket_start ≡ bucket_start_of one_minute q.exchange_timestamp
    → update_one_minute q d (some c) cache
      ≡ (some (extend_candle q d c), save_candle (extend_candle q d c) cache)
unfolding update_one_minute
update_in_order q d c cache on_time minute =
    rw (on_time, (==_iff c.bucket_start (bucket_start_of one_minute q.exchange_timestamp)).1 minute)
      refl

-- An update in order, in a later minute.
pub update_next_minute :
    (q : Quote) (d : Delta) (c : IntradayCandle) (cache : Cache)
    → is_late q c ≡ false
    → c.bucket_start == bucket_start_of one_minute q.exchange_timestamp ≡ false
    → (update_one_minute q d (some c) cache).1
      ≡ save_candle (new_candle q d) (save_candle (finalize q.received_at c) cache)
unfolding update_one_minute
update_next_minute q d c cache on_time other = rw (on_time, other) refl

update_late :
    (q : Quote) (d : Delta) (c : IntradayCandle) (cache : Cache)
    → is_late q c ≡ true
    → update_one_minute q d (some c) cache ≡ (none, cache)
unfolding update_one_minute
update_late q d c cache late = rw late refl

-- An update in order, in the minute of the current candle.
accept_in_order :
    (q : Quote) (cache : Cache) (c : IntradayCandle)
    → q.event_kind ≡ update
    → cache.current ≡ some c
    → is_late q c ≡ false
    → c.bucket_start ≡ bucket_start_of one_minute q.exchange_timestamp
    → accept q cache ≡ (
      some (extend_candle q (delta_of cache.baseline q) c),
      save_candle (extend_candle q (delta_of cache.baseline q) c) (set_baseline q cache),
    )
accept_in_order q cache c kind current on_time minute =
    accept_update q cache (some c) kind current
    ∙ update_in_order q (delta_of cache.baseline q) c (set_baseline q cache) on_time minute

pub delta_of-volume :
    (o : Option (ℕ × Option Decimal)) (q : Quote) (total : ℕ) (turnover : Option Decimal)
    → o ≡ some (total, turnover)
    → (delta_of o q).volume ≡ q.total_volume - total
unfolding delta_of
delta_of-volume o q total turnover e = ap (λ b. (delta_of b q).volume) e

-- A late quote makes no candle and changes none, yet its total becomes the baseline, also where that
-- is below the baseline before: the next update in order in the same minute adds its total less the
-- late quote's, so the shares between the late total and the one before it are counted again.
pub late_quote-volume :
    (late next : Quote) (cache : Cache) (c : IntradayCandle)
    → late.event_kind ≡ update
    → next.event_kind ≡ update
    → cache.current ≡ some c
    → is_late late c ≡ true
    → is_late next c ≡ false
    → c.bucket_start ≡ bucket_start_of one_minute next.exchange_timestamp
    → ((accept late cache).0 ≡ none)
      × ((accept late cache).1.candles ≡ cache.candles)
      × (volume_of (accept next (accept late cache).1).0
          ≡ c.volume + (next.total_volume - late.total_volume))
unfolding extend_candle set_baseline
late_quote-volume late next cache c lk nk current is_l in_order minute =
    let dropped =
      accept_update late cache (some c) lk current
      ∙ update_late late (delta_of cache.baseline late) c (set_baseline late cache) is_l in
    let then_next = accept_in_order next (set_baseline late cache) c nk current in_order minute in
    (
      ap (λ out. out.0) dropped,
      ap (λ out. out.1.candles) dropped,
      ap (λ out. volume_of (accept next out.1).0) dropped
          ∙ ap (λ out. volume_of out.0) then_next
          ∙ ap (◌+◌ c.volume) (
              delta_of-volume (set_baseline late cache).baseline next late.total_volume
                late.turnover_amount refl),
    )
