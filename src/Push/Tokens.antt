-- ===== src/Push/Tokens.antt =====
-- `register_token` and `unregister_token` (backend/app/services/push_notifications.py).
use tw_stock_android_spec.Base.{
  ℕ, String, Bool, true, false, not, ◌&&◌, Option, none, some, List, [], ◌∷◌, ◌++◌, ◌==◌, str_eq,
  find?, is_some,
}
use tw_stock_android_spec.Outcome.{Result, ok, app_error, ◌>>◌, raise_if}
use tw_stock_android_spec.Auth.Types.{UserDevice}
use tw_stock_android_spec.Push.Types.{PushTokenModel, write_row}

unfoldable pub is_owned : ℕ → String → UserDevice → Bool
is_owned user device d =
    d.user_id == user && str_eq d.device_public_id device && not (is_some d.revoked_at)

unfoldable pub is_installation : ℕ → String → PushTokenModel → Bool
is_installation user device t = t.user_id == user && str_eq t.device_public_id device

unfoldable pub has_token : String → PushTokenModel → Bool
has_token token t = str_eq t.token token

-- The row that holds the token is of another installation.
unfoldable pub conflicts : ℕ → String → Option PushTokenModel → Bool
conflicts user device none = false
conflicts user device (some existing) = not (is_installation user device existing)

-- What a registration is called with, and the time and the id that it draws.
pub record Registration : Type 0 where
  pub user_id : ℕ
  pub device_public_id : String
  pub token : String
  pub platform : String
  pub now : ℕ
  pub id : ℕ

abbrev pub renewed : Registration → PushTokenModel → PushTokenModel
renewed r setting = record setting {
  token = r.token;
  platform = r.platform;
  active = true;
  updated_at = r.now;
  last_seen_at = r.now;
}

abbrev pub new_setting : Registration → PushTokenModel
new_setting r = record {
  id = r.id;
  user_id = r.user_id;
  device_public_id = r.device_public_id;
  token = r.token;
  platform = r.platform;
  active = true;
  created_at = r.now;
  updated_at = r.now;
  last_seen_at = r.now;
}

unfoldable pub save_setting :
    Registration → Option PushTokenModel → List PushTokenModel → List PushTokenModel
save_setting r none tokens = tokens ++ new_setting r ∷ []
save_setting r (some setting) tokens = write_row (λ t. t.id) (renewed r setting) tokens

unfoldable pub require_device : Registration → List UserDevice → Result (Unit {0})
require_device r devices =
    raise_if (not (is_some (find? (is_owned r.user_id r.device_public_id) devices)))
      (app_error "DEVICE_NOT_OWNED" 403)

unfoldable pub refuse_conflict : Registration → List PushTokenModel → Result (Unit {0})
refuse_conflict r tokens =
    raise_if (conflicts r.user_id r.device_public_id (find? (has_token r.token) tokens))
      (app_error "TOKEN_CONFLICT" 409)

unfoldable pub save_registration : Registration → List PushTokenModel → List PushTokenModel
save_registration r tokens =
    save_setting r (find? (is_installation r.user_id r.device_public_id) tokens) tokens

unfoldable pub register_token :
    Registration → List UserDevice → List PushTokenModel → Result (List PushTokenModel)
register_token r devices tokens = do
  require_device r devices
  refuse_conflict r tokens
  ok (save_registration r tokens)

unfoldable pub deactivate : ℕ → Option PushTokenModel → List PushTokenModel → List PushTokenModel
deactivate now none tokens = tokens
deactivate now (some setting) tokens =
    write_row (λ t. t.id) record setting { active = false; updated_at = now } tokens

unfoldable pub unregister_token : ℕ → String → ℕ → List PushTokenModel → List PushTokenModel
unregister_token user device now tokens =
    deactivate now (find? (is_installation user device) tokens) tokens
