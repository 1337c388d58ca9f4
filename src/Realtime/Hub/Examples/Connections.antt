-- ===== src/Realtime/Hub/Examples/Connections.antt =====
-- Two connections of one hub, and each theorem at such an input.
use tw_stock_android_spec.Base.{ℕ, ◌≡◌, refl, true, none, some, [], ◌∷◌}
use tw_stock_android_spec.Base.Assoc.{contains}
use tw_stock_android_spec.Realtime.Quote.{tick, bid_ask, identity_eq}
use tw_stock_android_spec.Realtime.Hub.Targets.{Hub}
use tw_stock_android_spec.Realtime.Hub.Endpoint.{ClientMessage, subscribe}
use tw_stock_android_spec.Realtime.Hub.Provider.{Serving, IsKept, provider_manager}
use tw_stock_android_spec.Realtime.Hub.Server.{
  Server, arrive, server_of, receive, departed, depart, connect, send, disconnect, Reach, begin,
  later,
}
use tw_stock_android_spec.Realtime.Hub.Brokered.{is_wanted, Reach-broker}
use tw_stock_android_spec.Realtime.Hub.Examples.{program, ascii, caps, both}

served : Unit {0}
unfolding program receive departed depart
served = tt

abbrev idle : Hub Serving
idle = record {
  sessions = [];
  key_to_sessions = [];
  manager = record {
    manager = record {
      subscription_budget = some 4;
      provider_hard_limit = none;
      capacity_rejections = 0;
      subscription_owners = [];
      broker = [];
    };
    answers = true ∷ true ∷ true ∷ true ∷ true ∷ true ∷ true ∷ true ∷ true ∷ true ∷ true ∷ [];
  };
  messages = [];
}

idle-IsKept : IsKept idle.manager.manager
idle-IsKept = record {
  table = record { identities = tt; owners = tt };
  valid = record { in_step = refl; owned = tt };
}

abbrev start : Server Serving
start = record { hub = idle; connections = [] }

abbrev after_seven : Server Serving
after_seven = arrive (provider_manager caps) ascii 7 "ws:7" 100 start

abbrev after_eight : Server Serving
after_eight = arrive (provider_manager caps) ascii 8 "ws:8" 100 after_seven

abbrev said : ℕ → ClientMessage → Server Serving → Server Serving
said id message s =
    server_of (provider_manager caps) ascii
      (receive (provider_manager caps) ascii id message s.connections s.hub)

abbrev after_messages : Server Serving
after_messages =
    said 8 (subscribe (both "2330" ∷ []) none)
      (said 7 (subscribe (both "2330" ∷ both "2317" ∷ []) none) after_eight)

abbrev after_leaving : Server Serving
after_leaving =
    server_of (provider_manager caps) ascii
      (depart (provider_manager caps) ascii 7 after_messages.connections after_messages.hub).1

reached : Reach (provider_manager caps) ascii idle after_leaving
unfolding served
reached =
    later
      (later
        (later
          (later (later begin (connect 7 "ws:7" 100 start refl))
            (connect 8 "ws:8" 100 after_seven refl))
          (send 7 (subscribe (both "2330" ∷ both "2317" ∷ []) none) after_eight))
        (send 8 (subscribe (both "2330" ∷ []) none)
          (said 7 (subscribe (both "2330" ∷ both "2317" ∷ []) none) after_eight)))
      (disconnect 7 after_messages refl)

four_held :
    after_messages.hub.manager.manager.broker
    ≡ ("2330", tick) ∷ ("2330", bid_ask) ∷ ("2317", tick) ∷ ("2317", bid_ask) ∷ []
unfolding served
four_held = refl

two_left : after_leaving.hub.manager.manager.broker ≡ ("2330", tick) ∷ ("2330", bid_ask) ∷ []
unfolding served
two_left = refl

Reach-broker_example :
    contains ("2317", tick) after_leaving.hub.manager.manager.broker
    ≡ is_wanted ("2317", tick) after_leaving.connections
Reach-broker_example =
    Reach-broker caps ascii idle after_leaving idle-IsKept refl reached ("2317", tick)
