-- ===== src/Realtime/Hub/Server.antt =====
-- The hub with any number of connections at a time: they open, send and close in any order, and each
-- message is handled before the next one is (backend/app/api/realtime.py,
-- backend/app/services/realtime_hub.py).
use tw_stock_android_spec.Base.{ℕ, ◌≡◌, String, false, List, [], ◌∷◌, ◌==◌, if◌then◌else◌}
use tw_stock_android_spec.Base.Assoc.{string_eq, contains}
use tw_stock_android_spec.Outcome.{Result, ok}
use tw_stock_android_spec.Realtime.Hub.Interface.{SubscriptionManager}
use tw_stock_android_spec.Realtime.Hub.Session.{ConnectionSession}
use tw_stock_android_spec.Realtime.Hub.Targets.{Texts, Hub, register_connection}
use tw_stock_android_spec.Realtime.Hub.Handlers.{Conn, unregister_connection}
use tw_stock_android_spec.Realtime.Hub.Endpoint.{ClientMessage, handle}

pub record Server (M : Type 0) : Type 0 where
  pub hub : Hub M
  pub connections : List ConnectionSession

abbrev pub owners_of : List ConnectionSession → List String
owners_of [] = []
owners_of (s ∷ ss) = s.owner_id ∷ owners_of ss

module _ {M : Type 0} (manager : SubscriptionManager M) (texts : Texts) where
  abbrev pub Served : Type 0
  Served = List ConnectionSession × Hub M

  unfoldable pub receive : ℕ → ClientMessage → List ConnectionSession → Hub M → Served
  receive id message [] h = ([], h)
  receive id message (s ∷ ss) h =
      let (_, c) = handle manager texts message (s, h) in
      let rest = receive id message ss h in
      if s.id == id then (c.0 ∷ ss, c.1) else (s ∷ rest.0, rest.1)

  unfoldable pub departed :
      List ConnectionSession → Result (Unit {0}) × Conn manager → Result (Unit {0}) × Served
  departed ss (r, c) = (r, (ss, c.1))

  abbrev pub stays : ConnectionSession → Result (Unit {0}) × Served → Result (Unit {0}) × Served
  stays s (r, v) = (r, (s ∷ v.0, v.1))

  unfoldable pub depart : ℕ → List ConnectionSession → Hub M → Result (Unit {0}) × Served
  depart id [] h = (ok tt, ([], h))
  depart id (s ∷ ss) h =
      let rest = depart id ss h in
      if s.id == id then departed ss (unregister_connection manager (s, h)) else stays s rest

  abbrev pub arrive : ℕ → String → ℕ → Server M → Server M
  arrive id owner max_subscriptions s =
      let c = register_connection id owner max_subscriptions s.hub in
      record { hub = c.1; connections = c.0 ∷ s.connections }

  abbrev pub server_of : Served → Server M
  server_of v = record { hub = v.1; connections = v.0 }

  -- What may happen next. The owner of a connection is `id(self)` of its session, which no other
  -- session has as long as it lives.
  pub data ServerStep : Server M → Server M → Type 0 where
    connect :
        (id : ℕ) (owner : String) (max_subscriptions : ℕ) (s : Server M)
        → contains owner (owners_of s.connections) ≡ false
        → ServerStep s (arrive id owner max_subscriptions s)
    send :
        (id : ℕ) (message : ClientMessage) (s : Server M)
        → ServerStep s (server_of (receive id message s.connections s.hub))
    disconnect :
        (id : ℕ) (s : Server M)
        → (depart id s.connections s.hub).0 ≡ ok tt
        → ServerStep s (server_of (depart id s.connections s.hub).1)

  -- The servers that a hub without connections comes to
  pub data Reach (h : Hub M) : Server M → Type 0 where
    begin : Reach h (record { hub = h; connections = [] })
    later : {s t : Server M} → Reach h s → ServerStep s t → Reach h t
