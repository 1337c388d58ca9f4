-- ===== src/Realtime/Feed.antt =====
-- `start`, `stop` and `_ingestion_loop` of `RealtimeProviderManager`
-- (backend/app/services/realtime_provider_manager.py), with an aggregator, on the quotes of one
-- security. What the stream and the calls of the loop do is a list of events. A call of the aggregator
-- goes through or does not begin; the rankings and the evaluation of alerts are only calls that
-- may raise.
pub mod Fed
mod Examples
use tw_stock_android_spec.Base.{
  ℕ, ◌+◌, Bool, true, false, not, ◌&&◌, ◌||◌, Option, none, some, List, [], ◌∷◌, str_eq,
  if◌then◌else◌,
}
use tw_stock_android_spec.Outcome.{Result, ok, err, capacity_error}
use tw_stock_android_spec.Realtime.Subscription.{Capabilities, Manager, budget_exceeded}
use tw_stock_android_spec.Realtime.Intraday.{Quote}
use tw_stock_android_spec.Realtime.Intraday.Arrival.{
  Ingestion, is_saved, default_ttl, cached_quote, ingest,
}

pub data ProviderStatus : Type 0 where
  connected simulated disconnected unconfigured live fake : ProviderStatus

-- `alert_status` is there where the manager has an evaluator of alerts.
pub record Feed : Type 0 where
  pub manager : Manager
  pub running : Bool
  pub ingesting : Bool
  pub reconnect_count : ℕ
  pub hub_status : ProviderStatus
  pub alert_status : Option ProviderStatus
  pub ingestion : Ingestion

unfoldable pub is_live_eligible : Capabilities → Bool
is_live_eligible caps = caps.authorized && (caps.configured && caps.realtime_available)

abbrev pub is_simulator : Capabilities → Bool
is_simulator caps = str_eq caps.source_type "FAKE_SIMULATOR"

unfoldable pub first_status : Capabilities → ProviderStatus
first_status caps =
    if is_live_eligible caps && not (is_simulator caps)
    then connected
    else if is_simulator caps
    then simulated
    else if caps.configured
    then disconnected
    else unconfigured

-- What the evaluator shows for a status of the hub
unfoldable pub alert_status_of : ProviderStatus → ProviderStatus
alert_status_of simulated = fake
alert_status_of connected = live
alert_status_of status = status

-- `if self.alert_evaluator is not None`
abbrev pub told : ProviderStatus → Option ProviderStatus → Option ProviderStatus
told status none = none
told status (some previous) = some status

unfoldable pub start_manager : Capabilities → Feed → Result (Unit {0}) × Feed
start_manager caps f =
    if budget_exceeded f.manager.subscription_budget caps.subscription_hard_limit
    then (err capacity_error, f)
    else (
      ok tt,
      record f {
        manager = record f.manager { provider_hard_limit = caps.subscription_hard_limit };
        running = true;
        ingesting = f.ingesting || (caps.realtime_available || caps.configured);
        hub_status = first_status caps;
        alert_status = told (alert_status_of (first_status caps)) f.alert_status;
      },
    )

-- The task is cancelled, which ends the loop.
unfoldable pub stop_manager : Feed → Feed
stop_manager f = record f { running = false; ingesting = false }

-- Before a quote is saved
unfoldable pub seen : Capabilities → Feed → Feed
seen caps f =
    if is_live_eligible caps
    then record f { hub_status = connected; alert_status = told live f.alert_status }
    else f

-- `except Exception`
unfoldable pub broken : Feed → Feed
broken f = record f {
  reconnect_count = f.reconnect_count + 1;
  hub_status = disconnected;
  alert_status = told disconnected f.alert_status;
}

-- A quote that is handled in whole, at a time that the clock shows; one after whose aggregation a
-- call raises, or before it, once the quote is saved; a stream or a call that raises before; a
-- stream that ends, after which it is asked for again; and the manager's `stop`.
pub data StreamEvent : Type 0 where
  handled aggregated saved : Capabilities → (now : ℕ) → Quote → StreamEvent
  failed ended stopped : StreamEvent

abbrev pub with_quote : ℕ → Quote → Ingestion → Ingestion
with_quote now q s = record s { quote = some q; quote_until = now + default_ttl }

unfoldable pub on_event : StreamEvent → Feed → Feed
on_event (handled caps now q) f = record (seen caps f) { ingestion = ingest now q f.ingestion }
on_event (aggregated caps now q) f =
    let whole = record (seen caps f) { ingestion = ingest now q f.ingestion } in
    if is_saved q (cached_quote now f.ingestion) then broken whole else whole
on_event (saved caps now q) f =
    if is_saved q (cached_quote now f.ingestion)
    then broken (record (seen caps f) { ingestion = with_quote now q f.ingestion })
    else seen caps f
on_event failed f = broken f
on_event ended f = f
on_event stopped f = stop_manager f

-- Where the loop does not run, only `stop` does something.
abbrev pub outside : StreamEvent → Feed → Feed
outside stopped f = stop_manager f
outside _ f = f

unfoldable pub run_events : List StreamEvent → Feed → Feed
run_events [] f = f
run_events (e ∷ events) f =
    run_events events (if f.running && f.ingesting then on_event e f else outside e f)
