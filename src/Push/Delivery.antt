-- ===== src/Push/Delivery.antt =====
-- One delivery: `deliver_single_delivery` (backend/app/services/push_notifications.py).
use Prim.Native.Nat.{min}
use tw_stock_android_spec.Base.{
  ℕ, zero, suc, ◌+◌, ◌^◌, Bool, true, false, not, ◌||◌, Option, none, some, List, [], ◌∷◌, ◌++◌,
  ◌==◌, if◌then◌else◌, find?, length,
}
use tw_stock_android_spec.Base.Int.{ℤ, pos, negsuc}
use tw_stock_android_spec.Push.Types.{
  PushNotificationPayload, PushDeliveryResult, refusal, value_of, PushTokenModel, PushEventModel,
  DeliveryStatus, pending, sending, sent, invalid_token, failed, disabled, PushDeliveryModel,
  SentMessage, Answer, returned, raised, cancelled, PushNotificationProvider, Outbox, write_row,
}

-- `min(max(max_retries, 0), 5) + 1`
unfoldable pub rounds_of : ℤ → ℕ
rounds_of (pos n) = min n 5 + 1
rounds_of (negsuc n) = 1

-- `attempt == max_retries`
abbrev pub is_last : ℕ → ℤ → Bool
is_last attempt (pos n) = attempt == n
is_last attempt (negsuc n) = false

-- `status in ("SENT", "INVALID_TOKEN")`
abbrev pub is_final : DeliveryStatus → Bool
is_final sent = true
is_final invalid_token = true
is_final pending = false
is_final sending = false
is_final failed = false
is_final disabled = false

abbrev pub is_sent : DeliveryStatus → Bool
is_sent sent = true
is_sent invalid_token = false
is_sent pending = false
is_sent sending = false
is_sent failed = false
is_sent disabled = false

-- The rows that the loop holds, what it did, and the last result; a cancelled task has none.
pub record Attempt : Type 0 where
  pub delivery : PushDeliveryModel
  pub token : PushTokenModel
  pub calls : List SentMessage
  pub slept : ℕ
  pub result : Option PushDeliveryResult

-- The row as it is committed before the provider is called.
abbrev pub begin_attempt : ℕ → PushDeliveryModel → PushDeliveryModel
begin_attempt now d = record d {
  status = sending;
  attempts = d.attempts + 1;
  last_attempt_at = some now;
}

unfoldable pub outcome : PushDeliveryResult → DeliveryStatus
outcome r = if r.success then sent else if r.invalid_token then invalid_token else failed

unfoldable pub settle : PushDeliveryResult → PushDeliveryModel → PushDeliveryModel
settle r d = record d { error = r.error; message_id = r.message_id; status = outcome r }

unfoldable pub settle_token : PushDeliveryResult → PushTokenModel → PushTokenModel
settle_token r t =
    if not r.success then if r.invalid_token then record t { active = false } else t else t

abbrev pub push_payload : PushEventModel → PushNotificationPayload
push_payload event = record {
  event_id = event.id;
  alert_type = event.event_type;
  security_code = "";
  title = event.title;
  body = event.body;
}

unfoldable pub settled : Option PushDeliveryResult → Attempt → Attempt
settled none s = record s { result = none }
settled (some r) s = record s {
  delivery = settle r s.delivery;
  token = settle_token r s.token;
  result = some r;
}

-- `result.success or not result.retryable or attempt == max_retries`, or the task is cancelled.
unfoldable pub is_over : ℕ → ℤ → Option PushDeliveryResult → Bool
is_over attempt max_retries none = true
is_over attempt max_retries (some r) = r.success || not r.retryable || is_last attempt max_retries

unfoldable pub go_on : ℕ → ℤ → (Attempt → Attempt) → Attempt → Attempt
go_on attempt max_retries next s =
    if is_over attempt max_retries s.result
    then s
    else next record s { slept = s.slept + 2 ^ attempt }

unfoldable pub write_attempt : Outbox → Attempt → Outbox
write_attempt w s = record {
  tokens = write_row (λ t. t.id) s.token w.tokens;
  events = w.events;
  deliveries = write_row (λ d. d.id) s.delivery w.deliveries;
  calls = s.calls;
  slept = s.slept;
}

-- The row is written before the call returns.
abbrev pub write_delivery : Outbox → PushDeliveryModel → Outbox
write_delivery w d = record w { deliveries = write_row (λ x. x.id) d w.deliveries }

-- An exception of the provider is a result; a cancellation passes through.
unfoldable pub result_of : PushNotificationProvider → Answer → Option PushDeliveryResult
result_of provider (returned r) = some r
result_of provider raised =
    some (refusal (value_of provider.provider_type) (some "PROVIDER_ERROR") 1)
result_of provider cancelled = none

-- `clock` is the time read after so many calls of the provider.
module _ (provider : PushNotificationProvider) (clock : ℕ → ℕ) where
  -- The body of the loop up to the test that leaves it
  unfoldable pub try_once : PushNotificationPayload → Attempt → Attempt
  try_once payload s =
      settled (result_of provider (provider.send s.calls s.token.token payload)) record s {
        delivery = begin_attempt (clock (length s.calls)) s.delivery;
        calls = s.calls ++ record { device_token = s.token.token; payload = payload } ∷ [];
      }

  -- The loop, with the rounds that are left
  unfoldable pub try_all : ℤ → PushNotificationPayload → ℕ → ℕ → Attempt → Attempt
  try_all max_retries payload zero attempt s = s
  try_all max_retries payload (suc rounds) attempt s =
      go_on attempt max_retries (try_all max_retries payload rounds (attempt + 1))
        (try_once payload s)

  abbrev pub not_attempted : PushDeliveryResult
  not_attempted = refusal (value_of provider.provider_type) (some "NOT_ATTEMPTED") 1

  abbrev pub start_attempt : Outbox → PushDeliveryModel → PushTokenModel → Attempt
  start_attempt w d t = record {
    delivery = d;
    token = t;
    calls = w.calls;
    slept = w.slept;
    result = some not_attempted;
  }

  unfoldable pub attempt_delivery :
      ℤ → Outbox → PushDeliveryModel → PushEventModel → PushTokenModel → Attempt
  attempt_delivery max_retries w d event t =
      try_all max_retries (push_payload event) (rounds_of max_retries) 0 (start_attempt w d t)

  unfoldable pub deliver_configured :
      Bool
      → ℤ
      → Outbox
      → PushDeliveryModel
      → PushEventModel
      → PushTokenModel
      → Outbox × Option PushDeliveryResult
  deliver_configured false max_retries w d event t = (
    write_delivery w record d { status = disabled },
    some (refusal (value_of provider.provider_type) (some "DISABLED") 0),
  )
  deliver_configured true max_retries w d event t =
      let s = attempt_delivery max_retries w d event t in (write_attempt w s, s.result)

  abbrev pub lose_delivery : Outbox → PushDeliveryModel → Outbox × Option PushDeliveryResult
  lose_delivery w d = (
    write_delivery w record d { status = failed; error = some "MISSING_EVENT_OR_TOKEN" },
    some (refusal (value_of provider.provider_type) (some "MISSING_EVENT_OR_TOKEN") d.attempts),
  )

  unfoldable pub deliver_open :
      ℤ
      → Outbox
      → PushDeliveryModel
      → Option PushEventModel
      → Option PushTokenModel
      → Outbox × Option PushDeliveryResult
  deliver_open max_retries w d none token = lose_delivery w d
  deliver_open max_retries w d (some event) none = lose_delivery w d
  deliver_open max_retries w d (some event) (some t) =
      deliver_configured provider.configured max_retries w d event t

  -- A delivery that is over is reported as it was.
  abbrev pub report : PushDeliveryModel → PushDeliveryResult
  report d = record (refusal (value_of provider.provider_type) d.error d.attempts) {
    success = is_sent d.status;
  }

  unfoldable pub deliver_found :
      ℤ → Outbox → Option PushDeliveryModel → Outbox × Option PushDeliveryResult
  deliver_found max_retries w none =
      (w, some (refusal (value_of provider.provider_type) (some "DELIVERY_NOT_FOUND") 1))
  deliver_found max_retries w (some d) =
      if is_final d.status
      then (w, some (report d))
      else deliver_open max_retries w d (find? (λ e. e.id == d.event_id) w.events)
          (find? (λ t. t.id == d.token_id) w.tokens)

  -- No result: the task was cancelled while the provider was called.
  unfoldable pub deliver_single_delivery : ℕ → ℤ → Outbox → Outbox × Option PushDeliveryResult
  deliver_single_delivery delivery_id max_retries w =
      deliver_found max_retries w (find? (λ d. d.id == delivery_id) w.deliveries)
