-- ===== src/Push/Types.antt =====
-- The rows, payloads and answers of push notifications (backend/app/repositories/push_models.py,
-- backend/app/domain/push.py) and the providers of backend/app/services/push_notifications.py.
use tw_stock_android_spec.Base.{
  ℕ, zero, suc, String, Bool, true, false, Option, none, some, List, [], ◌∷◌, ◌==◌, if◌then◌else◌,
  length,
}

pub data PushProviderType : Type 0 where
  unconfigured fake fcm : PushProviderType

-- The value of the enumeration's member
abbrev pub value_of : PushProviderType → String
value_of unconfigured = "UNCONFIGURED"
value_of fake = "FAKE"
value_of fcm = "FCM"

-- An id stands for its text.
pub record PushNotificationPayload : Type 0 where
  pub event_id : ℕ
  pub alert_type : String
  pub security_code : String
  pub title : String
  pub body : String

pub record PushDeliveryResult : Type 0 where
  pub success : Bool
  pub provider : String
  pub message_id : Option String
  pub error : Option String
  pub retryable : Bool
  pub invalid_token : Bool
  pub attempts : ℕ

-- `PushDeliveryResult(False, provider, error=error)`
abbrev pub refusal : String → Option String → ℕ → PushDeliveryResult
refusal provider error attempts = record {
  success = false;
  provider = provider;
  message_id = none;
  error = error;
  retryable = false;
  invalid_token = false;
  attempts = attempts;
}

pub record PushTokenModel : Type 0 where
  pub id : ℕ
  pub user_id : ℕ
  pub device_public_id : String
  pub token : String
  pub platform : String
  pub active : Bool
  pub created_at : ℕ
  pub updated_at : ℕ
  pub last_seen_at : ℕ

pub record PushEventModel : Type 0 where
  pub id : ℕ
  pub user_id : Option ℕ
  pub event_type : String
  pub title : String
  pub body : String
  pub created_at : ℕ

-- The texts of a delivery's status
pub data DeliveryStatus : Type 0 where
  pending sending sent invalid_token failed disabled : DeliveryStatus

pub record PushDeliveryModel : Type 0 where
  pub id : ℕ
  pub event_id : ℕ
  pub token_id : ℕ
  pub status : DeliveryStatus
  pub attempts : ℕ
  pub last_attempt_at : Option ℕ
  pub message_id : Option String
  pub error : Option String

-- A call of `send`: the token and the payload.
pub record SentMessage : Type 0 where
  pub device_token : String
  pub payload : PushNotificationPayload

-- What a call of `send` does: it returns, raises an exception, or its task is cancelled.
pub data Answer : Type 0 where
  returned : PushDeliveryResult → Answer
  raised cancelled : Answer

-- A provider answers in the light of the calls before.
pub record PushNotificationProvider : Type 0 where
  pub provider_type : PushProviderType
  pub configured : Bool
  pub send : List SentMessage → String → PushNotificationPayload → Answer

unfoldable pub unconfigured_push_provider : PushNotificationProvider
unconfigured_push_provider = record {
  provider_type = unconfigured;
  configured = false;
  send = λ calls device_token payload.
      returned (refusal "UNCONFIGURED" (some "PUSH_PROVIDER_UNCONFIGURED") 1);
}

-- `uuid4().hex[:8]` is drawn by the number of calls before.
unfoldable pub fake_push_provider : (ℕ → String) → PushNotificationProvider
fake_push_provider drawn = record {
  provider_type = fake;
  configured = true;
  send = λ calls device_token payload. returned record {
    success = true;
    provider = "FAKE";
    message_id = some (drawn (length calls));
    error = none;
    retryable = false;
    invalid_token = false;
    attempts = 1;
  };
}

-- The tables, the calls of the provider, and the seconds slept between attempts.
pub record Outbox : Type 0 where
  pub tokens : List PushTokenModel
  pub events : List PushEventModel
  pub deliveries : List PushDeliveryModel
  pub calls : List SentMessage
  pub slept : ℕ

-- `text[:n]`
abbrev pub take_text : ℕ → String → String
take_text zero s = ""
take_text (suc n) String.[] = ""
take_text (suc n) (String.◌∷◌ c s) = String.◌∷◌ c (take_text n s)

-- A changed row is written to the row with its id.
module _ {ℓ} {A : Type ℓ} (key : A → ℕ) where
  abbrev pub write_row : A → List A → List A
  write_row row [] = []
  write_row row (x ∷ rows) = if key x == key row then row ∷ rows else x ∷ write_row row rows
