-- ===== src/Realtime/Hub/Examples.antt =====
-- Runs of the hub on the provider's manager, and each theorem at such an input.
mod Connections
use tw_stock_android_spec.Base.{
  ◌≡◌, refl, arith, ℕ, Bool, map, str_eq, String, true, false, none, some, List, [], ◌∷◌,
}
use tw_stock_android_spec.Base.Assoc.{string_eq}
use tw_stock_android_spec.Realtime.Quote.{tick, bid_ask, Identity, identity_eq}
use tw_stock_android_spec.Realtime.Subscription.{
  Capabilities, budget_exceeded, limit_of, is_full, subscribe_first, acquire_first, acquire_owned,
  acquire_subscription, release_last, release_left, release_owned, release_subscription,
}
use tw_stock_android_spec.Realtime.Hub.Session.{add_key}
use tw_stock_android_spec.Realtime.Hub.Targets.{
  Target, Texts, raw_types, type_of, add_type, parse_types, channels_of, valid_security_target,
  requested, Hub, add_session, link, unlink_from, unlink, unlink_all, register_connection,
}
use tw_stock_android_spec.Realtime.Hub.Owned.{
  acquired, acquire_one, released, release_one, then_do, roll_back, raise_again, refused,
  acquire_next, acquire_types, release_types, after_release, release_all,
}
use tw_stock_android_spec.Realtime.Hub.Handlers.{
  subscribed, subscribe_key, unsubscribed, release_named, subscribe_target, unsubscribe_target,
  next_target, for_targets, handle_subscribe, handle_unsubscribe, unregistered,
  unregister_connection,
}
use tw_stock_android_spec.Realtime.Hub.Endpoint.{
  ClientMessage, subscribe, next_request, handle, handle_all, websocket_quotes,
}
use tw_stock_android_spec.Realtime.Hub.Provider.{Serving, IsKept, provider_manager}
use tw_stock_android_spec.Realtime.Hub.Leaving.{LeavesNothing, connection-LeavesNothing}
use tw_stock_android_spec.Realtime.Hub.Dispatch.{
  Listener, Fanout, hear, route_quote, route_all, send_one, send_all, flush, dispatch_pending,
}
use tw_stock_android_spec.Realtime.Hub.Coalesced.{Each}
use tw_stock_android_spec.Realtime.Hub.Latest.{Told, dispatch_pending-Told}

program : Unit {0}
unfolding budget_exceeded limit_of is_full subscribe_first acquire_first acquire_owned
    acquire_subscription release_last release_left release_owned release_subscription add_key
    raw_types type_of add_type parse_types channels_of valid_security_target requested add_session
    link unlink_from unlink unlink_all register_connection acquired acquire_one released release_one
    then_do roll_back raise_again refused acquire_next acquire_types release_types after_release
    release_all subscribed subscribe_key unsubscribed release_named subscribe_target
    unsubscribe_target next_target for_targets handle_subscribe handle_unsubscribe unregistered
    unregister_connection hear route_quote route_all send_one send_all flush dispatch_pending handle
    next_request handle_all
program = tt

abbrev ascii : Texts
ascii = record {
  upper = λ s. s;
  lower = λ s. s;
  isdigit = λ s. true;
  len = λ s. 4;
  join = λ market code. code;
}

abbrev caps : Capabilities
caps = record {
  source_type = "WEBSOCKET";
  realtime_available = true;
  authorized = true;
  configured = true;
  subscription_hard_limit = none;
}

-- Another connection owns one identity, and the budget has room for two.
abbrev shared : Hub Serving
shared = record {
  sessions = 7 ∷ [];
  key_to_sessions = ("2330", 7 ∷ []) ∷ [];
  manager = record {
    manager = record {
      subscription_budget = some 2;
      provider_hard_limit = none;
      capacity_rejections = 0;
      subscription_owners = (("2330", tick), "ws:7" ∷ []) ∷ [];
      broker = ("2330", tick) ∷ [];
    };
    answers = true ∷ true ∷ true ∷ true ∷ true ∷ true ∷ true ∷ [];
  };
  messages = [];
}

abbrev both : String → Target
both code = record {
  market = some "TWSE";
  code = some code;
  quote_type = none;
  quote_types = some ("tick" ∷ "bid_ask" ∷ []);
}

-- The second request would be one identity too many, and is rolled back.
abbrev requests : List ClientMessage
requests =
    subscribe (both "2330" ∷ []) none ∷ subscribe (both "2317" ∷ []) (some ("alert" ∷ [])) ∷ []

held :
    (handle_all
      (provider_manager caps)
      ascii
      requests
      (register_connection 8 "ws:8" 100 shared)).0.provider_subscriptions
    ≡ ("2330", tick) ∷ ("2330", bid_ask) ∷ []
unfolding program
held = refl

owners_then :
    (handle_all
      (provider_manager caps)
      ascii
      requests
      (register_connection 8 "ws:8" 100 shared)).1.manager.manager.subscription_owners
    ≡ (("2330", tick), "ws:7" ∷ "ws:8" ∷ []) ∷ (("2330", bid_ask), "ws:8" ∷ []) ∷ []
unfolding program
owners_then = refl

owners_left :
    (websocket_quotes
      (provider_manager caps)
      ascii
      8
      "ws:8"
      100
      requests
      shared).1.1.manager.manager.subscription_owners
    ≡ (("2330", tick), "ws:7" ∷ []) ∷ []
unfolding program
owners_left = refl

-- A release that raises: the connection stays in the table of listeners.
abbrev deaf : Hub Serving
deaf = record shared { manager = record (shared.manager) { answers = true ∷ true ∷ [] } }

stays :
    (unregister_connection (provider_manager caps) (
      handle_all
        (provider_manager caps)
        ascii
        (subscribe (both "2330" ∷ []) none ∷ [])
        (register_connection 8 "ws:8" 100 deaf))).1.1.key_to_sessions
    ≡ ("2330", 7 ∷ 8 ∷ []) ∷ []
unfolding program
stays = refl

shared-IsKept : IsKept shared.manager.manager
shared-IsKept = record {
  table = record { identities = (refl, tt); owners = ((refl, tt), tt) };
  valid = record { in_step = refl; owned = (tt, tt) };
}

connection-LeavesNothing_example :
    LeavesNothing
      (provider_manager caps)
      "ws:8"
      shared.manager
      (websocket_quotes (provider_manager caps) ascii 8 "ws:8" 100 requests shared).1.1.manager
unfolding program
connection-LeavesNothing_example =
    connection-LeavesNothing (provider_manager caps) ascii 8 "ws:8" 100 shared requests
      shared-IsKept fresh refl
  where
    fresh : (j : Identity) → (provider_manager caps).owns shared.manager "ws:8" j ≡ false
    fresh j = ground arith

-- Quotes as a security and a price
abbrev Priced : Type 0
Priced = String × ℕ

abbrev security_of : Priced → String
security_of q = q.0

abbrev listener : ℕ → List String → Bool → Listener Priced
listener id channels is_alive = record {
  id = id;
  channels = channels;
  is_alive = is_alive;
  pending_coalesced = [];
  sent = [];
}

abbrev floor : Fanout Priced
floor = record {
  sessions =
      listener 7 ("quote" ∷ []) true
      ∷ listener 8 ("alert" ∷ []) true
      ∷ listener 9 ("quote" ∷ []) false
      ∷ [];
  key_to_sessions = ("2330", 7 ∷ 8 ∷ 9 ∷ []) ∷ ("2317", 7 ∷ []) ∷ [];
  quotes_coalesced = 0;
  quotes_published = 0;
}

abbrev ticks : List Priced
ticks = ("2330", 580) ∷ ("2317", 104) ∷ ("1101", 40) ∷ ("2330", 581) ∷ []

abbrev all_sent : ℕ → Priced → Bool
all_sent id q = true

two_sent :
    map (λ l. l.sent) (dispatch_pending all_sent (route_all security_of ticks floor)).sessions
    ≡ (("2330", 581) ∷ ("2317", 104) ∷ []) ∷ [] ∷ [] ∷ []
unfolding program
two_sent = refl

counted :
    ((dispatch_pending all_sent (route_all security_of ticks floor)).quotes_coalesced ≡ 1)
    × ((dispatch_pending all_sent (route_all security_of ticks floor)).quotes_published ≡ 2)
unfolding program
counted = (refl, refl)

-- A send that raises ends the session, and the quotes that follow are sent all the same.
one_refused :
    map
      (λ l. l.sent)
      (dispatch_pending (λ id q. str_eq q.0 "2317") (route_all security_of ticks floor)).sessions
    ≡ (("2317", 104) ∷ []) ∷ [] ∷ [] ∷ []
unfolding program
one_refused = refl

dispatch_pending-Told_example :
    Each
      (Told security_of all_sent (λ id q. refl) floor.key_to_sessions ticks)
      floor.sessions
      (dispatch_pending all_sent (route_all security_of ticks floor)).sessions
dispatch_pending-Told_example =
    dispatch_pending-Told security_of all_sent (λ id q. refl) floor ticks
      ((refl, refl), ((refl, refl), ((refl, refl), tt)))
