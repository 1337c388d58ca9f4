-- ===== src/Push/Examples.antt =====
-- A user with two installations and an event, and each theorem on push notifications there.

use tw_stock_android_spec.Base.{
  ℕ, ◌+◌, ◌≡◌, refl, String, true, none, some, [], ◌∷◌, map, length, arith,
}
use tw_stock_android_spec.Base.Int.{pos}
use tw_stock_android_spec.Outcome.{ok, err, app_error}
use tw_stock_android_spec.Auth.Types.{UserDevice}
use tw_stock_android_spec.Push.Types.{
  PushNotificationProvider, fcm, returned, refusal, PushTokenModel, PushEventModel,
  PushDeliveryModel, pending, sent, Outbox, fake_push_provider,
}
use tw_stock_android_spec.Push.Tokens.{
  is_owned, is_installation, has_token, conflicts, Registration, new_setting, save_setting,
  require_device, refuse_conflict, save_registration, register_token, deactivate, unregister_token,
}
use tw_stock_android_spec.Push.Materialize.{
  is_between, is_active_of, add_delivery, add_deliveries, materialize_for, materialize_found,
  materialize_event_deliveries, materialize_all,
}
use tw_stock_android_spec.Push.Delivery.{
  rounds_of, outcome, settle, settle_token, result_of, settled, is_over, go_on, write_attempt,
  try_once, try_all, attempt_delivery, deliver_configured, deliver_open, deliver_found,
  deliver_single_delivery,
}
use tw_stock_android_spec.Push.Outbox.{
  add_result, after_delivery, is_undelivered, is_unmaterialized, events_to_materialize, is_stale,
  is_eligible, claimed, processed, next_turn, deliver_all, deliver_event, dispatch_new,
  dispatch_alert_event, drain_claimed, drain_outbox, run_loop,
}
use tw_stock_android_spec.Push.Calls.{drain, call, run_calls}
use tw_stock_android_spec.Push.Coherent.{fake_push_provider-IsCoherent}
use tw_stock_android_spec.Push.Refinement.{Refines}
use tw_stock_android_spec.Push.History.{OnePerToken, run_calls-Refines, run_calls-OnePerToken}
use tw_stock_android_spec.Push.Served.{IsServed}
use tw_stock_android_spec.Push.Drained.{drain_outbox-IsServed}
use tw_stock_android_spec.Push.TokenKeys.{IsUnique}

program : Unit {0}
unfolding fake_push_provider is_owned is_installation has_token conflicts save_setting
    require_device refuse_conflict save_registration register_token deactivate unregister_token
    is_between is_active_of add_delivery add_deliveries materialize_for materialize_found
    materialize_event_deliveries materialize_all rounds_of outcome settle settle_token result_of
    settled is_over go_on write_attempt try_once try_all attempt_delivery deliver_configured
    deliver_open deliver_found deliver_single_delivery add_result after_delivery is_undelivered
    is_unmaterialized events_to_materialize is_stale is_eligible claimed processed next_turn
    deliver_all deliver_event dispatch_new dispatch_alert_event drain_claimed drain_outbox run_loop
    call run_calls
program = tt

abbrev phone : UserDevice
phone = record {
  id = 1;
  user_id = 7;
  device_public_id = "phone";
  name = none;
  platform = "ANDROID";
  app_version = none;
  created_at = 1;
  last_seen_at = 1;
  revoked_at = none;
}

abbrev registration : String → String → Registration
registration device token = record {
  user_id = 7;
  device_public_id = device;
  token = token;
  platform = "ANDROID";
  now = 10;
  id = 2;
}

abbrev tablet_token : PushTokenModel
tablet_token = record (new_setting (registration "tablet" "t1")) { id = 1 }

abbrev phone_token : PushTokenModel
phone_token = new_setting (registration "phone" "p1")

tablet_IsUnique : IsUnique (tablet_token ∷ [])
tablet_IsUnique = record { ids = (refl, tt); installations = (refl, tt); texts = (refl, tt) }

registers :
    register_token (registration "phone" "p1") (phone ∷ []) (tablet_token ∷ [])
    ≡ ok (tablet_token ∷ phone_token ∷ [])
unfolding program
registers = refl

token_conflict :
    register_token (registration "phone" "t1") (phone ∷ []) (tablet_token ∷ [])
    ≡ err (app_error "TOKEN_CONFLICT" 409)
unfolding program
token_conflict = refl

abbrev event : PushEventModel
event = record {
  id = 5;
  user_id = some 7;
  event_type = "MA";
  title = "title";
  body = "body";
  created_at = 3;
}

abbrev start : Outbox
start = record {
  tokens = tablet_token ∷ phone_token ∷ [];
  events = event ∷ [];
  deliveries = [];
  calls = [];
  slept = 0;
}

abbrev drawn : ℕ → String
drawn n = "message"

abbrev clock : ℕ → ℕ
clock n = 100 + n

abbrev drained : Outbox
drained = (drain_outbox (fake_push_provider drawn) clock length 10 (pos 3) 300 20 start).0

both_sent : map (λ d. d.status) drained.deliveries ≡ sent ∷ sent ∷ []
unfolding program
both_sent = refl

-- A provider that always fails for a time
abbrev busy : PushNotificationProvider
busy = record {
  provider_type = fcm;
  configured = true;
  send = λ calls token payload.
      returned record (refusal "FCM" (some "TRANSIENT") 1) { retryable = true };
}

abbrev tried : ℕ → Outbox
tried max_retries = (drain_outbox busy clock length 1 (pos max_retries) 300 20 start).0

-- Five retries wait for 1 + 2 + 4 + 8 + 16 seconds; six make the same calls and wait for 32 more.
five_retries : (length (tried 5).calls ≡ 6) × ((tried 5).slept ≡ 31)
unfolding program
five_retries = (refl, refl)

six_retries : (length (tried 6).calls ≡ 6) × ((tried 6).slept ≡ 63)
unfolding program
six_retries = (refl, refl)

run_calls-Refines_example : Refines start (
    run_calls
      (fake_push_provider drawn)
      clock
      length
      (drain 10 (pos 3) 300 20 ∷ drain 10 (pos 3) 300 21 ∷ [])
      start)
run_calls-Refines_example =
    run_calls-Refines (fake_push_provider drawn) clock length (fake_push_provider-IsCoherent drawn)
      (drain 10 (pos 3) 300 20 ∷ drain 10 (pos 3) 300 21 ∷ []) start

run_calls-OnePerToken_example : OnePerToken (
    run_calls
      (fake_push_provider drawn)
      clock
      length
      (drain 10 (pos 3) 300 20 ∷ drain 10 (pos 3) 300 21 ∷ [])
      start)
run_calls-OnePerToken_example =
    run_calls-OnePerToken (fake_push_provider drawn) clock length
      (fake_push_provider-IsCoherent drawn) (drain 10 (pos 3) 300 20 ∷ drain 10 (pos 3) 300 21 ∷ [])
      start tt

abbrev second_pending : PushDeliveryModel
second_pending = record {
  id = 1;
  event_id = 5;
  token_id = 2;
  status = pending;
  attempts = 0;
  last_attempt_at = none;
  message_id = none;
  error = none;
}

drain_outbox-IsServed_example : IsServed 1 drained.deliveries
unfolding program
drain_outbox-IsServed_example =
    drain_outbox-IsServed (fake_push_provider drawn) clock length
      (fake_push_provider-IsCoherent drawn) (λ calls token payload. cc) 10 (pos 3) 300 20 start 1
      second_pending refl (omega arith) refl
