-- ===== src/Push/Materialize.antt =====
-- `materialize_event_deliveries` (backend/app/services/push_notifications.py).
use tw_stock_android_spec.Base.{
  ℕ, Bool, ◌&&◌, Option, none, some, List, [], ◌∷◌, ◌++◌, map, ◌==◌, if◌then◌else◌, find?, filter,
  any,
}
use tw_stock_android_spec.Push.Types.{
  PushTokenModel, PushEventModel, pending, PushDeliveryModel, Outbox,
}

abbrev pub ids_in : List PushDeliveryModel → List ℕ
ids_in rows = map (λ d. d.id) rows

unfoldable pub is_between : ℕ → ℕ → PushDeliveryModel → Bool
is_between event token d = d.event_id == event && d.token_id == token

abbrev pub new_delivery : ℕ → ℕ → ℕ → PushDeliveryModel
new_delivery id event token = record {
  id = id;
  event_id = event;
  token_id = token;
  status = pending;
  attempts = 0;
  last_attempt_at = none;
  message_id = none;
  error = none;
}

-- The table of deliveries, and the rows that were added to it.
pub record Batch : Type 0 where
  pub deliveries : List PushDeliveryModel
  pub materialized : List PushDeliveryModel

abbrev pub add_row : PushDeliveryModel → Batch → Batch
add_row d b = record {
  deliveries = b.deliveries ++ d ∷ [];
  materialized = b.materialized ++ d ∷ [];
}

unfoldable pub is_active_of : ℕ → PushTokenModel → Bool
is_active_of user t = t.user_id == user && t.active

-- `uuid4` draws an id, given those in use.
module _ (uuid4 : List ℕ → ℕ) where
  unfoldable pub add_delivery : ℕ → PushTokenModel → Batch → Batch
  add_delivery event t b =
      if any (is_between event t.id) b.deliveries
      then b
      else add_row (new_delivery (uuid4 (ids_in b.deliveries)) event t.id) b

  unfoldable pub add_deliveries : ℕ → List PushTokenModel → Batch → Batch
  add_deliveries event [] b = b
  add_deliveries event (t ∷ tokens) b = add_deliveries event tokens (add_delivery event t b)

  unfoldable pub materialize_for : Outbox → PushEventModel → Option ℕ → Batch
  materialize_for w event none = record { deliveries = w.deliveries; materialized = [] }
  materialize_for w event (some user) =
      add_deliveries event.id (filter (is_active_of user) w.tokens)
        record { deliveries = w.deliveries; materialized = [] }

  unfoldable pub materialize_found : Outbox → Option PushEventModel → Batch
  materialize_found w none = record { deliveries = w.deliveries; materialized = [] }
  materialize_found w (some event) = materialize_for w event event.user_id

  unfoldable pub materialize_event_deliveries : ℕ → Outbox → Outbox × List PushDeliveryModel
  materialize_event_deliveries event_id w =
      let b = materialize_found w (find? (λ e. e.id == event_id) w.events) in
      (record w { deliveries = b.deliveries }, b.materialized)

  unfoldable pub materialize_all : List ℕ → Outbox → Outbox
  materialize_all [] w = w
  materialize_all (event ∷ events) w =
      materialize_all events (materialize_event_deliveries event w).0
