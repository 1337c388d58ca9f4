-- ===== src/Push/Outbox.antt =====
-- Events and their deliveries: `deliver_event`, `dispatch_alert_event`, `drain_outbox` and the dispatcher's loop
-- (backend/app/services/push_notifications.py).
use tw_stock_android_spec.Base.{
  ◌+◌, ℕ, String, Bool, true, false, not, ◌&&◌, ◌||◌, Option, none, some, List, [], ◌∷◌, ◌++◌, map,
  ◌==◌, if◌then◌else◌, find?, filter, any, is_some, length, take, sort_by, by_key,
}
use tw_stock_android_spec.Base.Int.{ℤ, pos, ltb_ℤ, ◌-ℤ◌}
use tw_stock_android_spec.Push.Types.{
  take_text, PushDeliveryResult, PushEventModel, DeliveryStatus, pending, sending, sent,
  invalid_token, failed, disabled, PushDeliveryModel, PushNotificationProvider, Outbox,
}
use tw_stock_android_spec.Push.Delivery.{deliver_single_delivery}
use tw_stock_android_spec.Push.Materialize.{ids_in, materialize_event_deliveries, materialize_all}

abbrev pub is_pending : DeliveryStatus → Bool
is_pending pending = true
is_pending sending = false
is_pending sent = false
is_pending invalid_token = false
is_pending failed = false
is_pending disabled = false

abbrev pub is_sending : DeliveryStatus → Bool
is_sending sending = true
is_sending pending = false
is_sending sent = false
is_sending invalid_token = false
is_sending failed = false
is_sending disabled = false

-- What an alert is dispatched with, and the time that is read.
pub record Dispatch : Type 0 where
  pub user_id : ℕ
  pub event_id : ℕ
  pub alert_type : String
  pub now : ℕ

abbrev pub dispatched_event : Dispatch → PushEventModel
dispatched_event a = record {
  id = a.event_id;
  user_id = some a.user_id;
  event_type = take_text 64 a.alert_type;
  title = "TW Market Ledger 提醒";
  body = "有新的提醒，請開啟通知中心查看。";
  created_at = a.now;
}

-- A result for each delivery, unless the task was cancelled.
unfoldable pub add_result :
    Option PushDeliveryResult → Option (List PushDeliveryResult) → Option (List PushDeliveryResult)
add_result none rest = none
add_result (some r) none = none
add_result (some r) (some rest) = some (r ∷ rest)

unfoldable pub after_delivery :
    (Outbox → Outbox × Option (List PushDeliveryResult))
    → Outbox × Option PushDeliveryResult
    → Outbox × Option (List PushDeliveryResult)
after_delivery next (w, none) = (w, none)
after_delivery next (w, some r) = let (v, rest) = next w in (v, add_result (some r) rest)

unfoldable pub is_undelivered : ℕ → PushDeliveryModel → Bool
is_undelivered event d = d.event_id == event && (is_pending d.status || is_sending d.status)

-- Events of a user that have no delivery
unfoldable pub is_unmaterialized : List PushDeliveryModel → PushEventModel → Bool
is_unmaterialized deliveries e = is_some e.user_id && not (any (λ d. d.event_id == e.id) deliveries)

unfoldable pub events_to_materialize : ℕ → Outbox → List ℕ
events_to_materialize batch_size w =
    map (λ e. e.id)
      (take batch_size
        (sort_by (by_key (λ e. e.created_at)) (filter (is_unmaterialized w.deliveries) w.events)))

unfoldable pub is_stale : ℤ → Option ℕ → Bool
is_stale cutoff none = false
is_stale cutoff (some at) = ltb_ℤ (pos at) cutoff

unfoldable pub is_eligible : ℤ → PushDeliveryModel → Bool
is_eligible cutoff d =
    is_pending d.status || (is_sending d.status && is_stale cutoff d.last_attempt_at)

unfoldable pub claimed : ℕ → ℤ → Outbox → List ℕ
claimed batch_size cutoff w =
    ids_in
      (take batch_size (sort_by (by_key (λ d. d.id)) (filter (is_eligible cutoff) w.deliveries)))

unfoldable pub processed : Outbox × Option (List PushDeliveryResult) → Outbox × Option ℕ
processed (w, none) = (w, none)
processed (w, some results) = (w, some (length results))

unfoldable pub next_turn : (Outbox → Outbox) → Outbox × Option ℕ → Outbox
next_turn next (w, none) = w
next_turn next (w, some n) = next w

module _ (provider : PushNotificationProvider) (clock : ℕ → ℕ) where
  -- The loops over deliveries that were selected before
  unfoldable pub deliver_all : ℤ → List ℕ → Outbox → Outbox × Option (List PushDeliveryResult)
  deliver_all max_retries [] w = (w, some [])
  deliver_all max_retries (id ∷ ids) w =
      after_delivery (deliver_all max_retries ids)
        (deliver_single_delivery provider clock id max_retries w)

  abbrev pub deliver_materialized : ℕ → ℤ → Outbox → Outbox × Option (List PushDeliveryResult)
  deliver_materialized event max_retries w =
      deliver_all max_retries (ids_in (filter (is_undelivered event) w.deliveries)) w

-- `uuid4` draws an id, given those in use.
module _ (provider : PushNotificationProvider) (clock : ℕ → ℕ) (uuid4 : List ℕ → ℕ) where
  unfoldable pub deliver_event :
      PushEventModel → ℤ → Outbox → Outbox × Option (List PushDeliveryResult)
  deliver_event event max_retries w =
      if is_some event.user_id
      then deliver_materialized provider clock event.id max_retries
          (materialize_event_deliveries uuid4 event.id w).0
      else (w, some [])

  unfoldable pub dispatch_new : Dispatch → Outbox → Outbox × Option (List PushDeliveryResult)
  dispatch_new a w =
      deliver_event (dispatched_event a) (pos 3)
        record w { events = w.events ++ dispatched_event a ∷ [] }

  unfoldable pub dispatch_alert_event :
      Dispatch → Outbox → Outbox × Option (List PushDeliveryResult)
  dispatch_alert_event a w =
      if is_some (find? (λ e. e.id == a.event_id) w.events) then (w, some []) else dispatch_new a w

  module _ (batch_size : ℕ) (max_retries : ℤ) (stale_seconds : ℕ) where
    unfoldable pub drain_claimed : ℕ → Outbox → Outbox × Option ℕ
    drain_claimed now w = processed (
        deliver_all provider clock max_retries (claimed batch_size (pos now -ℤ pos stale_seconds) w)
          w)

    unfoldable pub drain_outbox : ℕ → Outbox → Outbox × Option ℕ
    drain_outbox now w =
        if provider.configured
        then drain_claimed now (materialize_all uuid4 (events_to_materialize batch_size w) w)
        else (w, some 0)

    -- `_run_loop` over the times at which its turns start; a cancellation ends it.
    unfoldable pub run_loop : List ℕ → Outbox → Outbox
    run_loop [] w = w
    run_loop (now ∷ times) w = next_turn (run_loop times) (drain_outbox now w)

-- The dispatcher: its flag, its task, and the number of tasks that were created.
pub record PushOutboxDispatcher : Type 0 where
  pub running : Bool
  pub task : Option ℕ
  pub created : ℕ

unfoldable pub start_dispatcher : PushOutboxDispatcher → PushOutboxDispatcher
start_dispatcher d =
    if d.running
    then d
    else record { running = true; task = some d.created; created = d.created + 1 }

unfoldable pub stop_dispatcher : PushOutboxDispatcher → PushOutboxDispatcher
stop_dispatcher d = if d.running then record d { running = false; task = none } else d

-- `done` is what the task says of itself.
unfoldable pub is_running : Bool → PushOutboxDispatcher → Bool
is_running done d = d.running && is_some d.task && not done
