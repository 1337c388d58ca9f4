-- ===== src/Lib.antt =====
-- TW Market Ledger, the backend (backend/app/): a verification library over an executable model.
--
-- The backend is a FastAPI application over PostgreSQL and Redis. A request reaches a service
-- through a router; the services keep the rules of the program, and read and write the tables
-- through a SQLAlchemy session or a repository. Authentication gives each call its user; cloud sync
-- pushes and pulls that user's rows; the realtime side takes quotes from a broker's provider; alert
-- rules are evaluated on the day's prices and make notifications; the screener asks for securities
-- by a tree of conditions; the portfolio replays its transactions.
--
-- A call of a service is a function from its arguments and the tables to a result: a value with the
-- new tables, or the exception that left it. A call that raises commits nothing, so an error
-- carries no tables. The clock, uuid4 and token_urlsafe are arguments of a call. Code that is not
-- in the repository (argon2, PyJWT, the hashes, the broker, the conversions of Python's library,
-- the constraints that the database checks) is a parameter.
--
-- Base     lists, dictionaries and integers over the native numbers, and Python's Decimal of 28
--          digits, half to even (Base/Decimal)
-- Outcome  AppError and the Python exceptions (backend/app/core/errors.py)
-- Value    JSON values and dictionaries
-- Market   DataStatus (backend/app/domain/market_data.py)
-- Sync     CloudSyncService (backend/app/services/cloud_sync.py): Types the rows and tables, Build
--          _validate_and_build_model, Payload _payload, Update _update_row, Push push, _apply and
--          _mutate, Pull changes and bootstrap; Built, Effect and Step the lemmas on one
--          operation; Isolation, Replay, Log, Paging and Races what they come to
-- Realtime Quote the types of backend/app/domain/realtime.py; Subscription the calls
--          acquire_subscription, release_subscription and capacity_status of
--          RealtimeProviderManager (backend/app/services/realtime_provider_manager.py), each run
--          under the manager's lock and so in one step; Intraday accept and _update_one_minute of
--          IntradayCandleAggregator (backend/app/services/intraday_candle_aggregator.py) on what
--          the cache (backend/app/services/realtime_cache.py) keeps of one security and session, and
--          for how long; Arrival save_and_publish_quote of that cache before it, Session, Conserved
--          and Ingest the shares; Late and Prices what one quote does to them and to the prices;
--          Five _derive_five_minute and finalize_session, FiveFound and FiveBounds what they come to;
--          Feed start, stop and _ingestion_loop of the manager, Fed what runs of the loop come to;
--          Hub RealtimeQuoteHub (backend/app/services/realtime_hub.py): Targets what a connection asks
--          for and the table of listeners, Interface what the hub relies on of a subscription
--          manager, Owned and Handlers the loops that acquire, roll back and release, Endpoint
--          websocket_quotes_endpoint (backend/app/api/realtime.py), Provider the provider manager as
--          the hub's, Dispatch the routing and the coalesced dispatch of quotes,
--          Server any number of connections at a time. A set of sessions or identities is a list in
--          the order of insertion, and the hub has a manager
-- Auth     AuthService (backend/app/services/auth.py): Service its calls, Revocation and Keeps runs
--          of calls, Access what they come to
-- Alert    Rule validate_rule (backend/app/domain/alert.py), Evaluator evaluate
--          (backend/app/services/alert_evaluators.py), Calendar WeekendOnlyCalendar
--          (backend/app/adapters/weekend_calendar.py), Service AlertEvaluationService
--          (backend/app/services/alerts.py) with event_state and add_event
--          (backend/app/repositories/sql_alert.py), Validated, Limits and
--          Fingerprints
-- Screener Types the registry of fields (backend/app/domain/screener.py), Ast reading, writing and
--          validating a tree (backend/app/services/screener_ast.py), Roundtrip and Whitelist
-- Portfolio Replay PortfolioAccountingService, Service the two calls that write, Holdings the two
--          that read (backend/app/services/portfolio.py), Quantity, Closed and Ledger
-- Push     PushNotificationService, drain_outbox and PushOutboxDispatcher
--          (backend/app/services/push_notifications.py) on the tables of
--          backend/app/repositories/push_models.py: Tokens the registration, Materialize the rows
--          of an event, Delivery the attempts at one row, Outbox what loops over rows, Fcm the
--          provider over Firebase (backend/app/adapters/fcm_push.py), Calls sequences of calls;
--          Machine the abstract life of a delivery, Attempts, Coherent and Refinement how the
--          service follows it, Induction, History, Served, Drained, TokenKeys and Unique what runs
--          of calls come to. The provider's answers are a function of the calls before; a
--          cancelled task leaves a row as it was last committed
-- Indicator TechnicalIndicatorService (backend/app/services/technical_indicators.py): Series the
--          loops, Averages, Oscillators and Volatility the indicators, Calculate the service; Front
--          and Writes front parts of lists, the Causal modules one lemma for each indicator,
--          Columns and NoLookAhead the service, Parameters and Described what the answer says of
--          its columns. A period is a positive number, as validate requires; the 34-digit
--          arithmetic of the Bollinger bands is a parameter
-- Candle   CandleAggregationService (backend/app/services/candle_aggregation.py): Aggregation its
--          calls, Bounds and Volume
-- Watchlist WatchlistService (backend/app/services/watchlist.py): Repository the calls of
--          SqlWatchlistRepository (backend/app/repositories/sql_watchlist.py), Rows the
--          reordering that groups and items share, Service the service's own calls, Overview what
--          it writes into the rows of the overview's query; Calls puts the calls into one function
--          on the tables; Counted, Placed and Places what a reordering comes to, Kept, Apart,
--          Effects, Keys, Invariant, Fresh and Isolation what calls leave alone. An id and the
--          time are arguments
--
-- Bounds and fuel: the digits of a number are counted on fuel of the number itself; the search for
-- a trading day runs on fuel of two days for a weekend and one round around it, which its theorem
-- shows to be enough; pulling all pages runs on fuel that its theorem bounds. Every other loop is
-- structural.
-- The times to live of the cache are those of its code: 120 seconds for a quote, a day for a baseline
-- and a current candle, seven days for the candles of a session. The clock stands still in a call.
--
-- Not modelled: the text of messages, logging, the other queries of the repositories, the network
-- adapters, the routers, the command line, the migrations, and the Android application, which is
-- Kotlin. The hub's snapshots, its routing of candles and rankings,
-- the cached snapshots of markets and industries, and the other services (realtime alerts, data
-- quality, import and export, industry strength, read models) are not modelled. The
-- database is one session's view: calls of several sessions are sequences of calls.
pub mod Base
pub mod Outcome
pub mod Value
pub mod Sync
pub mod Realtime
pub mod Auth
pub mod Market
pub mod Alert
pub mod Screener
pub mod Portfolio
pub mod Push
pub mod Candle
pub mod Indicator
pub mod Watchlist
