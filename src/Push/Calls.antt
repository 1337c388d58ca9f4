-- ===== src/Push/Calls.antt =====
-- Sequences of calls of the push notification service, in any order
-- (backend/app/services/push_notifications.py), with the events that alerts add to the table
-- (backend/app/repositories/sql_alert.py).
use tw_stock_android_spec.Base.{ℕ, String, List, [], ◌∷◌, ◌++◌}
use tw_stock_android_spec.Base.Int.{ℤ}
use tw_stock_android_spec.Outcome.{Result, ok, err}
use tw_stock_android_spec.Auth.Types.{UserDevice}
use tw_stock_android_spec.Push.Types.{
  PushTokenModel, PushEventModel, PushNotificationProvider, Outbox,
}
use tw_stock_android_spec.Push.Tokens.{Registration, register_token, unregister_token}
use tw_stock_android_spec.Push.Delivery.{deliver_single_delivery}
use tw_stock_android_spec.Push.Materialize.{materialize_event_deliveries}
use tw_stock_android_spec.Push.Outbox.{Dispatch, deliver_event, dispatch_alert_event, drain_outbox}

pub data Call : Type 0 where
  register : Registration → List UserDevice → Call
  unregister : ℕ → String → ℕ → Call
  add_event : PushEventModel → Call
  materialize : ℕ → Call
  deliver : ℕ → ℤ → Call
  deliver_for : PushEventModel → ℤ → Call
  dispatch : Dispatch → Call
  drain : ℕ → ℤ → ℕ → ℕ → Call

-- A call that raises changes nothing.
abbrev pub with_tokens : Outbox → Result (List PushTokenModel) → Outbox
with_tokens w (err e) = w
with_tokens w (ok tokens) = record w { tokens = tokens }

module _ (provider : PushNotificationProvider) (clock : ℕ → ℕ) (uuid4 : List ℕ → ℕ) where
  unfoldable pub call : Call → Outbox → Outbox
  call (register r devices) w = with_tokens w (register_token r devices w.tokens)
  call (unregister user device now) w = record w {
    tokens = unregister_token user device now w.tokens;
  }
  call (add_event event) w = record w { events = w.events ++ event ∷ [] }
  call (materialize event) w = (materialize_event_deliveries uuid4 event w).0
  call (deliver id max_retries) w = (deliver_single_delivery provider clock id max_retries w).0
  call (deliver_for event max_retries) w =
      (deliver_event provider clock uuid4 event max_retries w).0
  call (dispatch a) w = (dispatch_alert_event provider clock uuid4 a w).0
  call (drain batch_size max_retries stale_seconds now) w =
      (drain_outbox provider clock uuid4 batch_size max_retries stale_seconds now w).0

  unfoldable pub run_calls : List Call → Outbox → Outbox
  run_calls [] w = w
  run_calls (c ∷ calls) w = run_calls calls (call c w)
