-- ===== src/Realtime/Feed/Examples.antt =====
-- A run of the ingestion loop with failures, and each theorem on it there.
use tw_stock_android_spec.Base.{
  ℕ, ◌+◌, ◌*◌, ◌≤◌, ◌≡◌, refl, true, false, Option, none, some, List, [], ◌∷◌, map, inl, inr, arith,
}
use tw_stock_android_spec.Base.Decimal.{of_nat, max_ᴰ, min_ᴰ}
use tw_stock_android_spec.Outcome.{ok, err, capacity_error}
use tw_stock_android_spec.Realtime.Quote.{unavailable, snapshot, update, one_minute, minutes}
use tw_stock_android_spec.Realtime.Subscription.{Capabilities, budget_exceeded}
use tw_stock_android_spec.Realtime.Intraday.{
  Quote, IntradayCandle, at_time, bucket_start_of, save_candle, set_baseline, turnover_delta,
  delta_of, not_after, is_late, new_candle, extend_candle, finalize, update_one_minute, accept_kind,
  accept,
}
use tw_stock_android_spec.Realtime.Intraday.Arrival.{
  is_outdated, is_saved, ingest, ingest_all, nothing_yet, AllTimely,
}
use tw_stock_android_spec.Realtime.Intraday.Ingest.{IsStamped}
use tw_stock_android_spec.Realtime.Feed.{
  connected, unconfigured, live, fake, Feed, is_live_eligible, first_status, alert_status_of,
  start_manager, stop_manager, seen, broken, StreamEvent, handled, aggregated, failed, ended,
  stopped, on_event, run_events,
}
use tw_stock_android_spec.Realtime.Feed.Fed.{quotes_of, IsFed, run_events-IsFed}

program : Unit {0}
unfolding max_ᴰ min_ᴰ minutes at_time bucket_start_of save_candle set_baseline turnover_delta
    delta_of not_after is_late new_candle extend_candle finalize update_one_minute accept_kind
    accept is_outdated is_saved ingest ingest_all budget_exceeded is_live_eligible first_status
    alert_status_of start_manager stop_manager seen broken on_event run_events
program = tt

abbrev caps : Capabilities
caps = record {
  source_type = "WEBSOCKET";
  realtime_available = true;
  authorized = true;
  configured = true;
  subscription_hard_limit = some 200;
}

abbrev simulator : Capabilities
simulator = record caps { source_type = "FAKE_SIMULATOR" }

abbrev new_feed : Option ℕ → Feed
new_feed budget = record {
  manager = record {
    subscription_budget = budget;
    provider_hard_limit = none;
    capacity_rejections = 0;
    subscription_owners = [];
    broker = [];
  };
  running = false;
  ingesting = false;
  reconnect_count = 0;
  hub_status = live;
  alert_status = some unconfigured;
  ingestion = nothing_yet;
}

abbrev started : Feed
unfolding program
started = (start_manager caps (new_feed none)).1

starts : start_manager caps (new_feed none) ≡ (ok tt, started)
unfolding program
starts = refl

over_budget : start_manager caps (new_feed (some 300)) ≡ (err capacity_error, new_feed (some 300))
unfolding program
over_budget = refl

-- Quotes every half minute, of twenty shares each
abbrev time_of : ℕ → ℕ
time_of n = n * 30000000

abbrev total_of : ℕ → ℕ
total_of n = n * 20 + 90

time_mono : (m n : ℕ) → m ≤ n → time_of m ≤ time_of n
time_mono m n h = omega (arith, h)

total_mono : (m n : ℕ) → m ≤ n → total_of m ≤ total_of n
total_mono m n h = omega (arith, h)

abbrev tick_of : ℕ → Quote
tick_of n = record {
  exchange_timestamp = time_of n;
  received_at = time_of n;
  last_price = of_nat 50;
  total_volume = total_of n;
  turnover_amount = none;
  sequence = some n;
  data_status = unavailable;
  event_kind = update;
}

abbrev opening : Quote
opening = record (tick_of 0) { event_kind = snapshot }

-- A stream ends, a call raises after the third quote, and the first comes again.
abbrev events : List StreamEvent
events =
    handled caps 31000000 (tick_of 1)
    ∷ ended
    ∷ failed
    ∷ aggregated caps 91000000 (tick_of 3)
    ∷ handled caps 92000000 (tick_of 1)
    ∷ []

abbrev fed : Feed
unfolding program
fed = run_events (handled caps 1000000 opening ∷ events) started

twice_again :
    (fed.reconnect_count ≡ 2) × (fed.hub_status ≡ connected) × (fed.alert_status ≡ some live)
unfolding program
twice_again = (refl, refl, refl)

two_minutes :
    map (λ (e : ℕ × IntradayCandle). e.1.volume) fed.ingestion.cache.candles ≡ 20 ∷ 40 ∷ []
unfolding program
two_minutes = refl

after_stop :
    (run_events (stopped ∷ handled caps 121000000 (tick_of 4) ∷ []) fed).ingestion ≡ fed.ingestion
unfolding program
after_stop = refl

-- A simulator that says that it is authorized is shown as a live provider from its first quote on.
simulator_live :
    ((start_manager simulator (new_feed none)).1.alert_status ≡ some fake)
    × ((run_events
          (handled simulator 1000000 opening ∷ [])
          (start_manager simulator (new_feed none)).1).hub_status
        ≡ connected)
    × ((run_events
          (handled simulator 1000000 opening ∷ [])
          (start_manager simulator (new_feed none)).1).alert_status
        ≡ some live)
unfolding program
simulator_live = (refl, refl, refl)

tick-IsUpdate :
    (n : ℕ)
    → (update ≡ update) × ((m : ℕ) × IsStamped time_of total_of time_mono total_mono m (tick_of n))
tick-IsUpdate n = (refl, (n, record { numbered = refl; timed = refl; counted = refl }))

-- Each comes while the last one is cached, or is newer.
timely :
    AllTimely
      (bucket_start_of one_minute opening.exchange_timestamp)
      (quotes_of events)
      (ingest 1000000 opening nothing_yet)
unfolding program
timely = (
  record { compared = inl (omega arith); kept = refl; retained = omega arith },
  (
    record { compared = inr refl; kept = refl; retained = omega arith },
    (record { compared = inl (omega arith); kept = refl; retained = omega arith }, tt),
  ),
)

run_events-IsFed_example :
    IsFed time_of total_of time_mono total_mono opening 0
      (quotes_of events)
      (run_events (handled caps 1000000 opening ∷ events) started)
run_events-IsFed_example =
    run_events-IsFed time_of total_of time_mono total_mono opening caps caps (new_feed none) started
      0 1000000 events starts refl refl refl
      (record { numbered = refl; timed = refl; counted = refl }) (tt, (tt, (tt, (tt, (tt, tt)))))
      (tick-IsUpdate 1, (tick-IsUpdate 3, (tick-IsUpdate 1, tt))) timely
