-- ===== src/Realtime/Hub/Handlers.antt =====
-- The handlers of the hub (backend/app/services/realtime_hub.py).
use tw_stock_android_spec.Base.{
  String, false, not, Option, List, [], ◌∷◌, ◌++◌, str_eq, leb, if◌then◌else◌, any, length,
}
use tw_stock_android_spec.Base.Assoc.{nat_eq, string_eq, erase}
use tw_stock_android_spec.Outcome.{Result, ok, err}
use tw_stock_android_spec.Realtime.Quote.{QuoteType, Identity}
use tw_stock_android_spec.Realtime.Hub.Interface.{SubscriptionManager}
use tw_stock_android_spec.Realtime.Hub.Session.{
  ConnectionSession, add_key, Message, invalid_target, limit_reached,
}
use tw_stock_android_spec.Realtime.Hub.Targets.{
  Target, Texts, market_of, code_of, valid_security_target, types_of, requested, channels_of, Hub,
  link, unlink, unlink_all, Step, go_on, leave,
}
use tw_stock_android_spec.Realtime.Hub.Owned.{Owned, acquire_types, release_types, release_all}

module _ {M : Type 0} (manager : SubscriptionManager M) where
  abbrev pub Conn : Type 0
  Conn = ConnectionSession × Hub M

  abbrev pub say : Message → Conn → Conn
  say message (s, h) = (s, record h { messages = h.messages ++ message ∷ [] })

  abbrev pub owned_of : Conn → Owned manager
  owned_of (s, h) = (s, h.manager)

  abbrev pub with_owned : Conn → Owned manager → Conn
  with_owned (s, h) (s', m) = (s', record h { manager = m })

  unfoldable pub subscribed : String → Conn → Result (Unit {0}) × Owned manager → Result Step × Conn
  subscribed key c (err e, o) = (err e, with_owned c o)
  subscribed key c (ok done, (s, m)) = (
    ok go_on,
    (
      record s { subscriptions = add_key key s.subscriptions },
      record (c.1) { manager = m; key_to_sessions = link key s.id c.1.key_to_sessions },
    ),
  )

  unfoldable pub subscribe_key : String → Result (List QuoteType) → Conn → Result Step × Conn
  subscribe_key key (err e) c = (err e, c)
  subscribe_key key (ok types) c =
      subscribed key c (acquire_types manager key [] types (owned_of c))

  unfoldable pub unsubscribed :
      String → Conn → Result (Unit {0}) × Owned manager → Result Step × Conn
  unsubscribed key c (err e, o) = (err e, with_owned c o)
  unsubscribed key c (ok done, (s, m)) =
      if any (λ (i : Identity). str_eq i.0 key) s.provider_subscriptions
      then (ok go_on, with_owned c (s, m))
      else (
        ok go_on,
        (
          record s { subscriptions = erase key s.subscriptions },
          record (c.1) { manager = m; key_to_sessions = unlink key s.id c.1.key_to_sessions },
        ),
      )

  unfoldable pub release_named : String → Result (List Identity) → Conn → Result Step × Conn
  release_named key (err e) c = (err e, c)
  release_named key (ok requested) c =
      unsubscribed key c (release_types manager requested (owned_of c))

  module _ (texts : Texts) where
    unfoldable pub subscribe_target : Target → Conn → Result Step × Conn
    subscribe_target t c =
        if not (valid_security_target texts (market_of texts t) (code_of texts t))
        then (ok go_on, say invalid_target c)
        else if leb c.0.max_subscriptions (length c.0.subscriptions)
        then (ok leave, say (limit_reached c.0.max_subscriptions) c)
        else subscribe_key (texts.join (market_of texts t) (code_of texts t)) (types_of texts t) c

    unfoldable pub unsubscribe_target : Target → Conn → Result Step × Conn
    unsubscribe_target t c =
        if not (valid_security_target texts (market_of texts t) (code_of texts t))
        then (ok go_on, say invalid_target c)
        else let key = texts.join (market_of texts t) (code_of texts t) in
          release_named key (requested texts t c.0 key) c

    unfoldable pub next_target :
        (Conn → Result (Unit {0}) × Conn) → Result Step × Conn → Result (Unit {0}) × Conn
    next_target next (err e, c) = (err e, c)
    next_target next (ok leave, c) = (ok tt, c)
    next_target next (ok go_on, c) = next c

    unfoldable pub for_targets :
        (Target → Conn → Result Step × Conn) → List Target → Conn → Result (Unit {0}) × Conn
    for_targets body [] c = (ok tt, c)
    for_targets body (t ∷ targets) c = next_target (for_targets body targets) (body t c)

    -- The snapshots that follow are read from the cache and only sent.
    unfoldable pub handle_subscribe :
        List Target → Option (List String) → Conn → Result (Unit {0}) × Conn
    handle_subscribe targets channels c =
        for_targets subscribe_target targets (record (c.0) { channels = channels_of channels }, c.1)

    unfoldable pub handle_unsubscribe : List Target → Conn → Result (Unit {0}) × Conn
    handle_unsubscribe targets c = for_targets unsubscribe_target targets c

  unfoldable pub unregistered : Conn → Result (Unit {0}) × M → Result (Unit {0}) × Conn
  unregistered (s, h) (err e, m) = (err e, (s, record h { manager = m }))
  unregistered (s, h) (ok done, m) = (
    ok tt,
    (
      record s { provider_subscriptions = [] },
      record h { manager = m; key_to_sessions = unlink_all s.subscriptions s.id h.key_to_sessions },
    ),
  )

  unfoldable pub unregister_connection : Conn → Result (Unit {0}) × Conn
  unregister_connection (s, h) =
      unregistered (record s { is_alive = false }, record h { sessions = erase s.id h.sessions })
        (release_all manager s.owner_id s.provider_subscriptions h.manager)
