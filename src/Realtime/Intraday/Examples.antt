-- ===== src/Realtime/Intraday/Examples.antt =====
-- Three quotes of one minute, and each theorem on one-minute candles at that input.
use tw_stock_android_spec.Base.{
  ℕ, ◌+◌, ◌-◌, ◌*◌, ◌≤◌, ◌≡◌, refl, true, false, Option, none, some, List, [], ◌∷◌, map, inl, inr,
  arith,
}
use tw_stock_android_spec.Base.Decimal.{of_nat, max_ᴰ, min_ᴰ}
use tw_stock_android_spec.Realtime.Quote.{live, snapshot, update, one_minute, minutes}
use tw_stock_android_spec.Realtime.Intraday.{
  Quote, IntradayCandle, Cache, at_time, bucket_start_of, save_candle, set_baseline, turnover_delta,
  delta_of, not_after, is_late, new_candle, extend_candle, finalize, update_one_minute, accept_kind,
  accept,
}
use tw_stock_android_spec.Realtime.Intraday.Prices.{IsOrderedCache}
use tw_stock_android_spec.Realtime.Intraday.Late.{volume_of, late_quote-volume}
use tw_stock_android_spec.Realtime.Intraday.Arrival.{
  is_outdated, is_saved, ingest, ingest_all, nothing_yet, AllTimely,
}
use tw_stock_android_spec.Realtime.Intraday.Ingest.{IsStamped, IsBalanced, session_volume}
use tw_stock_android_spec.Outcome.{Result, ok, err}
use tw_stock_android_spec.Realtime.Intraday.Session.{new_cache}
use tw_stock_android_spec.Realtime.Intraday.Five.{
  between, get_candles, highest, lowest, turnovers, five_minutes_of, Caches, derived,
  derive_five_minute, accept_quote, finalize_open, finalize_session,
}
use tw_stock_android_spec.Realtime.Intraday.FiveBounds.{IsAnswered, accept_quote-IsAnswered}

program : Unit {0}
unfolding max_ᴰ min_ᴰ minutes at_time bucket_start_of save_candle set_baseline turnover_delta
    delta_of not_after is_late new_candle extend_candle finalize update_one_minute accept_kind
    accept between get_candles highest lowest turnovers five_minutes_of derived derive_five_minute
    accept_quote finalize_open finalize_session
program = tt

-- A quote at a second of the first minute.
abbrev quote : ℕ → ℕ → ℕ → ℕ → Quote
quote second price total sequence = record {
  exchange_timestamp = second;
  received_at = second;
  last_price = of_nat price;
  total_volume = total;
  turnover_amount = none;
  sequence = some sequence;
  data_status = live;
  event_kind = update;
}

abbrev opened : Option IntradayCandle × Cache
unfolding program
opened = accept (quote 10 50 100 1) (record new_cache { baseline = some (90, none) })

abbrev candle : IntradayCandle
unfolding program
candle = new_candle (quote 10 50 100 1) (record { volume = 10; turnover = none; partial = false })

opens : opened.1.current ≡ some candle
unfolding program
opens = refl

-- The second quote is late: its sequence is newer and its time is not.
counted_twice : volume_of (accept (quote 30 52 120 3) (accept (quote 5 51 105 2) opened.1).1).0 ≡ 25
unfolding program
counted_twice = refl

ordered : IsOrderedCache opened.1
unfolding program
ordered = (
  (omega arith, omega arith, omega arith, omega arith),
  ((omega arith, omega arith, omega arith, omega arith), tt),
)

on_time : is_late (quote 30 52 120 3) candle ≡ false
unfolding program
on_time = refl

late : is_late (quote 5 51 105 2) candle ≡ true
unfolding program
late = refl

same_minute : candle.bucket_start ≡ bucket_start_of one_minute 30
unfolding program
same_minute = refl

late_quote-volume_example :
    ((accept (quote 5 51 105 2) opened.1).0 ≡ none)
    × ((accept (quote 5 51 105 2) opened.1).1.candles ≡ opened.1.candles)
    × (volume_of (accept (quote 30 52 120 3) (accept (quote 5 51 105 2) opened.1).1).0
        ≡ candle.volume + (120 - 105))
late_quote-volume_example =
    late_quote-volume (quote 5 51 105 2) (quote 30 52 120 3) opened.1 candle refl refl opens late
      on_time same_minute

abbrev volumes_of : Result (List IntradayCandle × Caches) → List ℕ
volumes_of (err e) = []
volumes_of (ok out) = map (λ (c : IntradayCandle). c.volume) out.0

abbrev caches_of : Result (List IntradayCandle × Caches) → Caches
caches_of (err e) = record { one = new_cache; five = new_cache; earlier = []; later = [] }
caches_of (ok out) = out.1

-- Quotes every half minute, of twenty shares each
abbrev time_of : ℕ → ℕ
time_of n = n * 30000000

abbrev total_of : ℕ → ℕ
total_of n = n * 20 + 90

time_mono : (m n : ℕ) → m ≤ n → time_of m ≤ time_of n
time_mono m n h = omega (arith, h)

total_mono : (m n : ℕ) → m ≤ n → total_of m ≤ total_of n
total_mono m n h = omega (arith, h)

abbrev tick_of : ℕ → Quote
tick_of n = quote (time_of n) 50 (total_of n) n

abbrev opening : Quote
opening = record (tick_of 0) { event_kind = snapshot }

-- The second comes after the third, and the third twice.
abbrev session : List (ℕ × Quote)
session =
    (30000000, tick_of 1)
    ∷ (90000000, tick_of 3)
    ∷ (91000000, tick_of 2)
    ∷ (92000000, tick_of 3)
    ∷ []

two_minutes :
    map
      (λ (e : ℕ × IntradayCandle). e.1.volume)
      (ingest_all ((1000000, opening) ∷ session) nothing_yet).cache.candles
    ≡ 20 ∷ 40 ∷ []
unfolding program is_outdated is_saved ingest ingest_all
two_minutes = refl

tick-IsUpdate :
    (n : ℕ)
    → (update ≡ update) × ((m : ℕ) × IsStamped time_of total_of time_mono total_mono m (tick_of n))
tick-IsUpdate n = (refl, (n, record { numbered = refl; timed = refl; counted = refl }))

-- Each comes while the last one is cached, or is newer.
timely :
    AllTimely
      (bucket_start_of one_minute opening.exchange_timestamp)
      session
      (ingest 1000000 opening nothing_yet)
unfolding program is_outdated is_saved ingest ingest_all
timely = (
  record { compared = inl (omega arith); kept = refl; retained = omega arith },
  (
    record { compared = inr refl; kept = refl; retained = omega arith },
    (
      record { compared = inl (omega arith); kept = refl; retained = omega arith },
      (record { compared = inl (omega arith); kept = refl; retained = omega arith }, tt),
    ),
  ),
)

-- Once the last one has expired, an older one is saved again, and its shares count twice.
abbrev redelivered : List (ℕ × Quote)
redelivered =
    (30000000, tick_of 1)
    ∷ (90000000, tick_of 3)
    ∷ (300000000, tick_of 1)
    ∷ (301000000, tick_of 4)
    ∷ []

counted_again :
    map
      (λ (e : ℕ × IntradayCandle). e.1.volume)
      (ingest_all ((1000000, opening) ∷ redelivered) nothing_yet).cache.candles
    ≡ 20 ∷ 40 ∷ 60 ∷ []
unfolding program is_outdated is_saved ingest ingest_all
counted_again = refl

session_volume_example :
    IsBalanced time_of total_of time_mono total_mono opening 0 session
      (ingest_all ((1000000, opening) ∷ session) nothing_yet)
session_volume_example =
    session_volume time_of total_of time_mono total_mono opening 0 1000000 session refl
      (record { numbered = refl; timed = refl; counted = refl })
      (tick-IsUpdate 1, (tick-IsUpdate 3, (tick-IsUpdate 2, (tick-IsUpdate 3, tt)))) timely

abbrev caches : Caches
caches = record { one = opened.1; five = new_cache; earlier = []; later = [] }

-- The first quote after those of a minute
abbrev both : Result (List IntradayCandle × Caches)
both = accept_quote (quote 70000000 52 120 3) caches

minutes_together : volumes_of both ≡ 20 ∷ 30 ∷ []
unfolding program
minutes_together = refl

closed_both : (finalize_session 300000000 (caches_of both)).1.five.current ≡ none
unfolding program
closed_both = refl

accept_quote-IsAnswered_example : IsAnswered both
unfolding program
accept_quote-IsAnswered_example =
    accept_quote-IsAnswered (quote 70000000 52 120 3) caches (omega arith) (refl, refl) ordered
      (tt, tt)
