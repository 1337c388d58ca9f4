-- ===== src/Realtime/Intraday/Five.antt =====
-- `_derive_five_minute`, the whole of `accept`, and `finalize_session`
-- (backend/app/services/intraday_candle_aggregator.py), and `get_candles`
-- (backend/app/services/realtime_cache.py).
use tw_stock_android_spec.Base.{
  ℕ, ◌+◌, ◌-◌, ◌*◌, Bool, true, false, map, not, ◌&&◌, Option, none, some, List, [], ◌∷◌, ◌++◌, ltb,
  leb, ◌==◌, if◌then◌else◌, length, drop, sort_by,
}
use tw_stock_android_spec.Base.Assoc.{nat_eq}
use tw_stock_android_spec.Base.Decimal.{Decimal, of_nat, max_ᴰ, min_ᴰ}
use tw_stock_android_spec.Outcome.{Result, ok, err, index_error}
use tw_stock_android_spec.Realtime.Quote.{five_minutes, minutes}
use tw_stock_android_spec.Realtime.Intraday.{
  Quote, IntradayCandle, Cache, bucket_start_of, save_candle, finalize, add_turnover, accept,
}

-- The candles with a start from `minimum` to `maximum`
unfoldable pub between : ℕ → ℕ → List (ℕ × IntradayCandle) → List IntradayCandle
between minimum maximum [] = []
between minimum maximum ((start, c) ∷ candles) =
    if leb minimum start && leb start maximum
    then c ∷ between minimum maximum candles
    else between minimum maximum candles

abbrev pub last_candle : IntradayCandle → List IntradayCandle → IntradayCandle
last_candle c [] = c
last_candle c (d ∷ ds) = last_candle d ds

unfoldable pub highest : Decimal → List IntradayCandle → Decimal
highest high [] = high
highest high (c ∷ cs) = highest (max_ᴰ high c.high) cs

unfoldable pub lowest : Decimal → List IntradayCandle → Decimal
lowest low [] = low
lowest low (c ∷ cs) = lowest (min_ᴰ low c.low) cs

abbrev pub volumes : List IntradayCandle → ℕ
volumes [] = 0
volumes (c ∷ cs) = c.volume + volumes cs

abbrev pub counts : List IntradayCandle → ℕ
counts [] = 0
counts (c ∷ cs) = c.quote_count + counts cs

unfoldable pub turnovers : Option Decimal → List IntradayCandle → Option Decimal
turnovers total [] = total
turnovers total (c ∷ cs) = turnovers (add_turnover total c.turnover_amount) cs

unfoldable pub five_minutes_of :
    IntradayCandle → IntradayCandle → List IntradayCandle → IntradayCandle
five_minutes_of one first rest =
    let start = bucket_start_of five_minutes one.bucket_start in
    let end = start + minutes five_minutes * 60000000 in
    let last = last_candle first rest in
    record {
      bucket_start = start;
      bucket_end = end;
      opening = first.opening;
      high = highest first.high rest;
      low = lowest first.low rest;
      close = last.close;
      volume = volumes (first ∷ rest);
      turnover_amount = turnovers (some (of_nat 0)) (first ∷ rest);
      first_sequence = first.first_sequence;
      last_sequence = last.last_sequence;
      quote_count = counts (first ∷ rest);
      is_final = one.is_final && one.bucket_end == end;
      data_status = one.data_status;
      created_at = first.created_at;
      updated_at = one.updated_at;
    }

-- The cached candles of both intervals, as a call finds them; the baseline stands with those of one
-- minute. The other sessions of the security have one-minute candles too: those before this one in
-- `TradingSession`, and those after it.
pub record Caches : Type 0 where
  pub one : Cache
  pub five : Cache
  pub earlier : List (ℕ × IntradayCandle)
  pub later : List (ℕ × IntradayCandle)

-- A candle, and whether it is of this session
abbrev pub SessionRow : Type 0
SessionRow = Bool × IntradayCandle

abbrev pub starts_before : SessionRow → SessionRow → Bool
starts_before a b = ltb a.1.bucket_start b.1.bucket_start

abbrev pub tagged : Bool → List IntradayCandle → List SessionRow
tagged own cs = map (λ c. (own, c)) cs

-- `[c for c in minutes if c.session == one.session]`
abbrev pub own_rows : List SessionRow → List IntradayCandle
own_rows [] = []
own_rows ((own, c) ∷ rows) = if own then c ∷ own_rows rows else own_rows rows

-- `sorted(rows)[-limit:]`, of the rows of all sessions
unfoldable pub get_candles : ℕ → ℕ → ℕ → Caches → List SessionRow
get_candles start end limit s =
    let rows = sort_by starts_before (
      tagged false (between start end s.earlier)
      ++ (tagged true (between start end s.one.candles)
          ++ tagged false (between start end s.later))) in
    drop (length rows - limit) rows

-- A current candle of another five minutes is closed.
abbrev pub close_other : ℕ → ℕ → Option IntradayCandle → Cache → Cache
close_other start now none cache = cache
close_other start now (some c) cache =
    if not (c.bucket_start == start) then save_candle (finalize now c) cache else cache

unfoldable pub derived :
    IntradayCandle → List IntradayCandle → Caches → Result (List IntradayCandle × Caches)
derived one [] s = err index_error
derived one (first ∷ rest) s =
    let candle = five_minutes_of one first rest in
    let closed = close_other candle.bucket_start one.updated_at s.five.current s.five in
    ok (one ∷ candle ∷ [], record s { five = save_candle candle closed })

unfoldable pub derive_five_minute : IntradayCandle → Caches → Result (List IntradayCandle × Caches)
derive_five_minute one s =
    let start = bucket_start_of five_minutes one.bucket_start in
    derived one (own_rows (get_candles start (start + minutes five_minutes * 60000000) 5 s)) s

abbrev pub after_minute : Option IntradayCandle → Caches → Result (List IntradayCandle × Caches)
after_minute none s = ok ([], s)
after_minute (some one) s = derive_five_minute one s

unfoldable pub accept_quote : Quote → Caches → Result (List IntradayCandle × Caches)
accept_quote q s = let r = accept q s.one in after_minute r.0 (record s { one = r.1 })

-- The open candle of an interval is closed.
unfoldable pub finalize_open : ℕ → Option IntradayCandle → Cache → List IntradayCandle × Cache
finalize_open closed_at none cache = ([], cache)
finalize_open closed_at (some c) cache =
    (finalize closed_at c ∷ [], save_candle (finalize closed_at c) cache)

unfoldable pub finalize_session : ℕ → Caches → List IntradayCandle × Caches
finalize_session closed_at s =
    let one = finalize_open closed_at s.one.current s.one in
    let five = finalize_open closed_at s.five.current s.five in
    (one.0 ++ five.0, record s { one = one.1; five = five.1 })
