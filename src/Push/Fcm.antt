-- ===== src/Push/Fcm.antt =====
-- `FcmPushProvider` (backend/app/adapters/fcm_push.py). Firebase and the file system are parameters.
use tw_stock_android_spec.Base.{
  ℕ, String, Bool, true, false, ◌||◌, Option, none, some, List, str_eq, if◌then◌else◌,
}
use tw_stock_android_spec.Push.Types.{
  fcm, PushNotificationPayload, PushDeliveryResult, refusal, SentMessage, Answer, returned,
  cancelled, PushNotificationProvider, take_text,
}

pub record FcmSettings : Type 0 where
  pub fcm_enabled : Bool
  pub fcm_project_id : Option String
  pub fcm_credentials_file : Option String

-- `not text` of an optional text
abbrev pub is_empty : Option String → Bool
is_empty none = true
is_empty (some s) = str_eq s ""

unfoldable pub status_with : (String → Bool) → Bool → Option String → String
status_with is_file true file = "UNCONFIGURED"
status_with is_file false none = "UNCONFIGURED"
status_with is_file false (some file) =
    if str_eq file "" then "UNCONFIGURED" else if is_file file then "READY" else "UNCONFIGURED"

unfoldable pub fcm_status : (String → Bool) → FcmSettings → String
fcm_status is_file settings =
    if settings.fcm_enabled
    then status_with is_file (is_empty settings.fcm_project_id) settings.fcm_credentials_file
    else "DISABLED"

-- The message that Firebase is given
pub record FcmMessage : Type 0 where
  pub token : String
  pub title : String
  pub body : String
  pub event_id : ℕ
  pub event_type : String

-- What sending it comes to: a message id, an exception of some type, or a cancelled task.
pub data Sending : Type 0 where
  accepted : String → Sending
  exception : String → Sending
  interrupted : Sending

abbrev pub message_of : String → PushNotificationPayload → FcmMessage
message_of token payload = record {
  token = token;
  title = take_text 120 payload.title;
  body = take_text 500 payload.body;
  event_id = payload.event_id;
  event_type = take_text 64 payload.alert_type;
}

abbrev pub is_unregistered : String → Bool
is_unregistered category = str_eq category "UnregisteredError"

abbrev pub is_transient : String → Bool
is_transient category =
    str_eq category "UnavailableError"
    || str_eq category "InternalError"
    || str_eq category "DeadlineExceededError"

unfoldable pub categorised : Bool → Bool → PushDeliveryResult
categorised invalid transient =
    record (refusal "FCM"
      (some (if invalid then "INVALID_TOKEN" else if transient then "TRANSIENT" else "PERMANENT"))
      1) { retryable = transient; invalid_token = invalid }

unfoldable pub fcm_result : Sending → Answer
fcm_result (accepted id) =
    returned record (refusal "FCM" none 1) { success = true; message_id = some id }
fcm_result (exception category) =
    returned (categorised (is_unregistered category) (is_transient category))
fcm_result interrupted = cancelled

unfoldable pub fcm_push_provider :
    (String → Bool)
    → FcmSettings
    → (List SentMessage → FcmMessage → Sending)
    → PushNotificationProvider
fcm_push_provider is_file settings firebase =
    let ready = str_eq (fcm_status is_file settings) "READY" in
    record {
      provider_type = fcm;
      configured = ready;
      send = λ calls token payload.
          if ready
          then fcm_result (firebase calls (message_of token payload))
          else returned (refusal "FCM" (some "FCM_UNCONFIGURED") 0);
    }
