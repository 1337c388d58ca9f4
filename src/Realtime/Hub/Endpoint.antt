-- ===== src/Realtime/Hub/Endpoint.antt =====
-- A client's connection from its first message to its last (`websocket_quotes_endpoint` of
-- backend/app/api/realtime.py), without the texts that are sent.
use tw_stock_android_spec.Base.{ℕ, String, Bool, false, Option, List, [], ◌∷◌, if◌then◌else◌}
use tw_stock_android_spec.Outcome.{Result, ok, err, Error}
use tw_stock_android_spec.Realtime.Hub.Interface.{SubscriptionManager}
use tw_stock_android_spec.Realtime.Hub.Targets.{Target, Texts, Hub, register_connection}
use tw_stock_android_spec.Realtime.Hub.Owned.{is_capacity}
use tw_stock_android_spec.Realtime.Hub.Handlers.{
  Conn, handle_subscribe, handle_unsubscribe, unregister_connection,
}

-- What a client asks for
pub data ClientMessage : Type 0 where
  subscribe : List Target → Option (List String) → ClientMessage
  unsubscribe : List Target → ClientMessage

module _ {M : Type 0} (manager : SubscriptionManager M) (texts : Texts) where
  unfoldable pub handle : ClientMessage → Conn manager → Result (Unit {0}) × Conn manager
  handle (subscribe targets channels) c = handle_subscribe manager texts targets channels c
  handle (unsubscribe targets) c = handle_unsubscribe manager texts targets c

  -- A client is told of a lack of capacity, and goes on; any other exception ends the connection.
  abbrev pub is_caught : ClientMessage → Error → Bool
  is_caught (subscribe targets channels) e = is_capacity e
  is_caught (unsubscribe targets) e = false

  unfoldable pub next_request :
      (Conn manager → Conn manager)
      → ClientMessage
      → Result (Unit {0}) × Conn manager
      → Conn manager
  next_request next r (ok done, c) = next c
  next_request next r (err e, c) = if is_caught r e then next c else c

  unfoldable pub handle_all : List ClientMessage → Conn manager → Conn manager
  handle_all [] c = c
  handle_all (r ∷ requests) c = next_request (handle_all requests) r (handle r c)

  -- The client disconnects after its requests.
  abbrev pub websocket_quotes :
      ℕ → String → ℕ → List ClientMessage → Hub M → Result (Unit {0}) × Conn manager
  websocket_quotes id owner max_subscriptions requests h =
      unregister_connection manager
        (handle_all requests (register_connection id owner max_subscriptions h))
