-- ===== src/Realtime/Hub/Runs.antt =====
-- What a connection leaves at the manager after any requests
-- (backend/app/services/realtime_hub.py).
use tw_stock_android_spec.Base.{String, not, List, [], ◌∷◌, str_eq, leb, if_both, any, length}
use tw_stock_android_spec.Outcome.{Result, ok, err}
use tw_stock_android_spec.Realtime.Quote.{QuoteType, Identity, identity_eq}
use tw_stock_android_spec.Realtime.Hub.Interface.{SubscriptionManager}
use tw_stock_android_spec.Realtime.Hub.Targets.{
  Target, Texts, market_of, code_of, types_of, requested, valid_security_target, channels_of, Step,
  go_on, leave,
}
use tw_stock_android_spec.Realtime.Hub.Owned.{Owned, acquire_types, release_types}
use tw_stock_android_spec.Realtime.Hub.Handlers.{
  Conn, owned_of, subscribed, subscribe_key, unsubscribed, release_named, subscribe_target,
  unsubscribe_target, next_target, for_targets, handle_subscribe, handle_unsubscribe,
}
use tw_stock_android_spec.Realtime.Hub.Endpoint.{
  ClientMessage, subscribe, unsubscribe, handle, is_caught, next_request, handle_all,
}
use tw_stock_android_spec.Realtime.Hub.Agrees.{Keeps, Keeps-refl, Keeps-trans}
use tw_stock_android_spec.Realtime.Hub.OwnedKeeps.{acquire_types-Keeps, release_types-Keeps}

module _ {M : Type 0} (manager : SubscriptionManager M) where
  -- The rest of a connection has no part in it.
  abbrev KeepsConn : Conn manager → Conn manager → Type 0
  KeepsConn c d = Keeps manager (owned_of manager c) (owned_of manager d)

  keys_only :
      (o : Owned manager) (v : Owned manager) (keys : List String)
      → Keeps manager o v
      → Keeps manager o (record (v.0) { subscriptions = keys }, v.1)
  keys_only o v keys k = record {
    same_owner = k.same_owner;
    agrees = λ g.
        let a = k.agrees g in record { sound = a.sound; distinct = a.distinct; owned = a.owned };
    others = k.others;
  }

  subscribed-Keeps :
      (key : String) (c : Conn manager) (r : Result (Unit {0}) × Owned manager)
      → Keeps manager (owned_of manager c) r.1
      → KeepsConn c (subscribed manager key c r).1
  unfolding subscribed
  subscribed-Keeps key c (err e, o) k = k
  subscribed-Keeps key c (ok done, o) k = keys_only (owned_of manager c) o _ k

  subscribe_key-Keeps :
      (key : String) (types : Result (List QuoteType)) (c : Conn manager)
      → KeepsConn c (subscribe_key manager key types c).1
  unfolding subscribe_key
  subscribe_key-Keeps key (err e) c = Keeps-refl manager (owned_of manager c)
  subscribe_key-Keeps key (ok types) c =
      subscribed-Keeps key c (acquire_types manager key [] types (owned_of manager c))
        (acquire_types-Keeps manager key [] types (owned_of manager c))

  unsubscribed-Keeps :
      (key : String) (c : Conn manager) (r : Result (Unit {0}) × Owned manager)
      → Keeps manager (owned_of manager c) r.1
      → KeepsConn c (unsubscribed manager key c r).1
  unfolding unsubscribed
  unsubscribed-Keeps key c (err e, o) k = k
  unsubscribed-Keeps key c (ok done, o) k =
      if_both (λ (r : Result Step × Conn manager). KeepsConn c r.1)
        (any (λ (i : Identity). str_eq i.0 key) o.0.provider_subscriptions) _ _ k
        (keys_only (owned_of manager c) o _ k)

  release_named-Keeps :
      (key : String) (named : Result (List Identity)) (c : Conn manager)
      → KeepsConn c (release_named manager key named c).1
  unfolding release_named
  release_named-Keeps key (err e) c = Keeps-refl manager (owned_of manager c)
  release_named-Keeps key (ok is) c =
      unsubscribed-Keeps key c (release_types manager is (owned_of manager c))
        (release_types-Keeps manager is (owned_of manager c))

  module _ (texts : Texts) where
    subscribe_target-Keeps :
        (t : Target) (c : Conn manager) → KeepsConn c (subscribe_target manager texts t c).1
    unfolding subscribe_target
    subscribe_target-Keeps t c =
        if_both (λ (r : Result Step × Conn manager). KeepsConn c r.1)
          (not (valid_security_target texts (market_of texts t) (code_of texts t))) _ _
          (Keeps-refl manager (owned_of manager c))
          (if_both (λ (r : Result Step × Conn manager). KeepsConn c r.1)
            (leb c.0.max_subscriptions (length c.0.subscriptions)) _ _
            (Keeps-refl manager (owned_of manager c))
            (subscribe_key-Keeps (texts.join (market_of texts t) (code_of texts t))
              (types_of texts t) c))

    unsubscribe_target-Keeps :
        (t : Target) (c : Conn manager) → KeepsConn c (unsubscribe_target manager texts t c).1
    unfolding unsubscribe_target
    unsubscribe_target-Keeps t c =
        let key = texts.join (market_of texts t) (code_of texts t) in
        if_both (λ (r : Result Step × Conn manager). KeepsConn c r.1)
          (not (valid_security_target texts (market_of texts t) (code_of texts t))) _ _
          (Keeps-refl manager (owned_of manager c))
          (release_named-Keeps key (requested texts t c.0 key) c)

    next_target-Keeps :
        (c : Conn manager) (next : Conn manager → Result (Unit {0}) × Conn manager)
        (r : Result Step × Conn manager)
        → KeepsConn c r.1
        → ((d : Conn manager) → KeepsConn d (next d).1)
        → KeepsConn c (next_target manager texts next r).1
    unfolding next_target
    next_target-Keeps c next (err e, d) k h = k
    next_target-Keeps c next (ok leave, d) k h = k
    next_target-Keeps c next (ok go_on, d) k h = Keeps-trans manager k (h d)

    for_targets-Keeps :
        (body : Target → Conn manager → Result Step × Conn manager)
        → ((t : Target) (c : Conn manager) → KeepsConn c (body t c).1)
        → (targets : List Target) (c : Conn manager)
        → KeepsConn c (for_targets manager texts body targets c).1
    unfolding for_targets
    for_targets-Keeps body h [] c = Keeps-refl manager (owned_of manager c)
    for_targets-Keeps body h (t ∷ targets) c =
        next_target-Keeps c (for_targets manager texts body targets) (body t c) (h t c)
          (for_targets-Keeps body h targets)

    pub handle-Keeps :
        (r : ClientMessage) (c : Conn manager) → KeepsConn c (handle manager texts r c).1
    unfolding handle handle_subscribe handle_unsubscribe
    handle-Keeps (subscribe targets channels) c =
        let k =
          for_targets-Keeps (subscribe_target manager texts) subscribe_target-Keeps targets
            (record (c.0) { channels = channels_of channels }, c.1) in
        record {
          same_owner = k.same_owner;
          agrees = λ g. k.agrees record { sound = g.sound; distinct = g.distinct; owned = g.owned };
          others = λ g. k.others record { sound = g.sound; distinct = g.distinct; owned = g.owned };
        }
    handle-Keeps (unsubscribe targets) c =
        for_targets-Keeps (unsubscribe_target manager texts) unsubscribe_target-Keeps targets c

    next_request-Keeps :
        (c : Conn manager) (next : Conn manager → Conn manager) (r : ClientMessage)
        (answer : Result (Unit {0}) × Conn manager)
        → KeepsConn c answer.1
        → ((d : Conn manager) → KeepsConn d (next d))
        → KeepsConn c (next_request manager texts next r answer)
    unfolding next_request
    next_request-Keeps c next r (ok done, d) k h = Keeps-trans manager k (h d)
    next_request-Keeps c next r (err e, d) k h =
        if_both (KeepsConn c) (is_caught manager texts r e) _ _ (Keeps-trans manager k (h d)) k

    pub handle_all-Keeps :
        (requests : List ClientMessage) (c : Conn manager)
        → KeepsConn c (handle_all manager texts requests c)
    unfolding handle_all
    handle_all-Keeps [] c = Keeps-refl manager (owned_of manager c)
    handle_all-Keeps (r ∷ requests) c =
        next_request-Keeps c (handle_all manager texts requests) r (handle manager texts r c)
          (handle-Keeps r c) (handle_all-Keeps requests)
