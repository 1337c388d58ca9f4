-- ===== src/Realtime/Intraday/Arrival.antt =====
-- The way of a quote into the candles: saved where it is newer than the one that is cached
-- (`save_and_publish_quote` of backend/app/services/realtime_cache.py), and then aggregated
-- (`_ingestion_loop` of backend/app/services/realtime_provider_manager.py). A quote comes with the time
-- that the clock shows, in microseconds.
use tw_stock_android_spec.Base.{
  ℕ, ◌+◌, ◌<◌, ◌≡◌, Bool, true, not, Option, none, some, List, [], ◌∷◌, leb, if◌then◌else◌, ◌⊎◌,
}
use tw_stock_android_spec.Realtime.Intraday.{
  Quote, Cache, retention, unexpired, at_time, not_after, accept,
}
use tw_stock_android_spec.Realtime.Intraday.Session.{new_cache}

-- The quote that was saved last, and until when the cache keeps it
pub record Ingestion : Type 0 where
  pub quote : Option Quote
  pub quote_until : ℕ
  pub cache : Cache

-- By sequence where both have one, and else by the time of the exchange
unfoldable pub is_outdated : Option ℕ → Option ℕ → ℕ → ℕ → Bool
is_outdated (some sequence) (some existing) time existing_time = leb sequence existing
is_outdated _ _ time existing_time = leb time existing_time

unfoldable pub is_saved : Quote → Option Quote → Bool
is_saved q none = true
is_saved q (some e) =
    not (is_outdated q.sequence e.sequence q.exchange_timestamp e.exchange_timestamp)

-- `default_ttl_seconds`, in microseconds
abbrev pub default_ttl : ℕ
default_ttl = 120000000

-- `get_quote`
abbrev pub cached_quote : ℕ → Ingestion → Option Quote
cached_quote now s = unexpired now s.quote_until s.quote

unfoldable pub ingest : ℕ → Quote → Ingestion → Ingestion
ingest now q s =
    if is_saved q (cached_quote now s)
    then record {
      quote = some q;
      quote_until = now + default_ttl;
      cache = (accept q (at_time now s.cache)).1;
    }
    else s

unfoldable pub ingest_all : List (ℕ × Quote) → Ingestion → Ingestion
ingest_all [] s = s
ingest_all ((now, q) ∷ arrivals) s = ingest_all arrivals (ingest now q s)

abbrev pub nothing_yet : Ingestion
nothing_yet = record { quote = none; quote_until = 0; cache = new_cache }

-- The quote has a newer sequence than the last one that was saved.
abbrev pub is_newer : Quote → Option Quote → Bool
is_newer q none = true
is_newer q (some e) = not (not_after q.sequence e.sequence)

-- A quote that comes while the last one is still cached, or is newer; the baseline and the current
-- candle have not expired, and candles from `base` on are still retained.
pub record IsTimely (base now : ℕ) (q : Quote) (s : Ingestion) : Type 0 where
  pub compared : (now < s.quote_until) ⊎ (is_newer q s.quote ≡ true)
  pub kept : at_time now s.cache ≡ record s.cache { clock = now }
  pub retained : now < base + retention

abbrev pub AllTimely : ℕ → List (ℕ × Quote) → Ingestion → Type 0
AllTimely base [] s = Unit
AllTimely base ((now, q) ∷ arrivals) s =
    IsTimely base now q s × AllTimely base arrivals (ingest now q s)
