-- ===== src/Auth/Service.antt =====
-- `AuthService` (backend/app/services/auth.py). A call that raises leaves the tables as they were,
-- since its database session is rolled back.
use tw_stock_android_spec.Base.{
  ℕ, ◌+◌, ◌*◌, String, Bool, true, not, ◌&&◌, ◌||◌, Option, none, some, List, [], ◌∷◌, ◌++◌, ◌==◌,
  leb, if◌then◌else◌, str_eq, find?, is_some,
}
use tw_stock_android_spec.Outcome.{
  Result, ok, Error, app_error, integrity_error, attribute_error, ◌>>=◌, ◌>>◌, raise_if, or_raise,
}
use tw_stock_android_spec.Auth.Types.{
  User, AuthSession, UserDevice, Tables, TokenPair, Drawn, Config,
}

abbrev pub unauthenticated : Error
unauthenticated = app_error "UNAUTHENTICATED" 401

abbrev pub forbidden : Error
forbidden = app_error "FORBIDDEN" 403

abbrev pub has_id : ℕ → AuthSession → Bool
has_id i s = s.id == i

abbrev pub has_hash : String → AuthSession → Bool
has_hash h s = str_eq s.refresh_token_hash h

unfoldable pub find_user : ℕ → List User → Option User
find_user i users = find? (λ u. u.id == i) users

unfoldable pub find_login : String → List User → Option User
find_login name users = find? (λ u. str_eq u.login_identifier name) users

-- `session.get(AuthSessionModel, id)`
unfoldable pub find_session : ℕ → List AuthSession → Option AuthSession
find_session i [] = none
find_session i (s ∷ sessions) = if has_id i s then some s else find_session i sessions

-- The session whose `refresh_token_hash` is the one given.
unfoldable pub find_hash : String → List AuthSession → Option AuthSession
find_hash h [] = none
find_hash h (s ∷ sessions) = if has_hash h s then some s else find_hash h sessions

-- A session with its revocation written, in the row that has the hash.
unfoldable pub revoke : ℕ → Option ℕ → String → List AuthSession → List AuthSession
revoke now rotated h [] = []
revoke now rotated h (s ∷ sessions) =
    if has_hash h s
    then record s { revoked_at = some now; rotated_at = rotated } ∷ sessions
    else s ∷ revoke now rotated h sessions

-- `current is None or current.revoked_at is not None or current.expires_at <= now`
unfoldable pub refused_at : ℕ → Option AuthSession → Bool
refused_at now none = true
refused_at now (some s) = is_some s.revoked_at || leb s.expires_at now

-- `auth_session is None or auth_session.revoked_at is not None`
unfoldable pub is_revoked : Option AuthSession → Bool
is_revoked none = true
is_revoked (some s) = is_some s.revoked_at

module _ (config : Config) where
  unfoldable pub validate_password : String → Result (Unit {0})
  validate_password password =
      raise_if (not (leb 10 (config.len password) && leb (config.len password) 256))
        (app_error "VALIDATION_ERROR" 422)

  -- The insertion of a user, whose identifier and key are unique.
  unfoldable pub register : String → String → Drawn → Tables → Result (User × Tables)
  register identifier password drawn db = do
    let normalized = config.strip_casefold identifier
    validate_password password
    raise_if (str_eq normalized "") (app_error "VALIDATION_ERROR" 422)
    raise_if (is_some (find_login normalized db.users)) (app_error "ACCOUNT_EXISTS" 409)
    raise_if (is_some (find_user drawn.id db.users)) integrity_error
    let user : User = record {
      id = drawn.id;
      login_identifier = normalized;
      password_hash = config.hash_password password;
      status = "ACTIVE";
      created_at = drawn.now;
      updated_at = drawn.now;
    }
    ok (user, record db { users = db.users ++ user ∷ [] })

  unfoldable pub access : ℕ → ℕ → Drawn → String
  access user session drawn = config.encode (record {
    sub = user;
    sid = session;
    jti = drawn.jti;
    iat = drawn.now;
    exp = drawn.now + config.access_minutes * 60;
  })

  unfoldable pub new_session : User → Drawn → AuthSession
  new_session user drawn = record {
    id = drawn.id;
    user_id = user.id;
    refresh_token_hash = config.sha256 drawn.token;
    expires_at = drawn.now + config.refresh_days * 86400;
    created_at = drawn.now;
    rotated_at = none;
    revoked_at = none;
  }

  -- `_issue`: the key and the hash of the new session are unique.
  unfoldable pub issue : User → Drawn → Tables → Result (TokenPair × Tables)
  issue user drawn db = do
    raise_if (is_some (find_session drawn.id db.sessions)) integrity_error
    raise_if (is_some (find_hash (config.sha256 drawn.token) db.sessions)) integrity_error
    let pair : TokenPair = record {
      access_token = access user.id drawn.id drawn;
      refresh_token = drawn.token;
      expires_in = config.access_minutes * 60;
    }
    ok (pair, record db { sessions = db.sessions ++ new_session user drawn ∷ [] })

  unfoldable pub login : String → String → Drawn → Tables → Result (TokenPair × Tables)
  login identifier password drawn db = do
    user ← or_raise (find_login (config.strip_casefold identifier) db.users) unauthenticated
    raise_if (not (str_eq user.status "ACTIVE")) forbidden
    raise_if (not (config.verify_password user.password_hash password)) unauthenticated
    issue user drawn db

  unfoldable pub authenticate : ℕ → String → Tables → Result User
  authenticate now token db = do
    ids ← or_raise (config.decode now token) unauthenticated
    raise_if (is_revoked (find_session ids.1 db.sessions)) unauthenticated
    user ← or_raise (find_user ids.0 db.users) unauthenticated
    raise_if (not (str_eq user.status "ACTIVE")) forbidden
    ok user

  -- The session is rotated: the old one is revoked and a new one issued, at times of their own.
  unfoldable pub refresh : ℕ → String → Drawn → Tables → Result (TokenPair × Tables)
  refresh now token drawn db = do
    let h = config.sha256 token
    raise_if (refused_at now (find_hash h db.sessions)) unauthenticated
    current ← or_raise (find_hash h db.sessions) unauthenticated
    user ← or_raise (find_user current.user_id db.users) attribute_error
    issue user drawn (record db { sessions = revoke now (some now) h db.sessions })

  -- A logout leaves `rotated_at` as it is.
  unfoldable pub logout_found : ℕ → String → Option AuthSession → Tables → Tables
  logout_found now h none db = db
  logout_found now h (some s) db =
      if is_some s.revoked_at
      then db
      else record db { sessions = revoke now s.rotated_at h db.sessions }

  unfoldable pub logout : ℕ → String → Tables → Tables
  logout now token db =
      let h = config.sha256 token in logout_found now h (find_hash h db.sessions) db

-- What a device says of itself.
pub record DeviceInfo : Type 0 where
  pub public_id : String
  pub name : Option String
  pub platform : String
  pub app_version : Option String

abbrev pub is_device : ℕ → String → UserDevice → Bool
is_device user public_id d = d.user_id == user && str_eq d.device_public_id public_id

unfoldable pub new_device : ℕ → DeviceInfo → ℕ → ℕ → UserDevice
new_device user info id now = record {
  id = id;
  user_id = user;
  device_public_id = info.public_id;
  name = info.name;
  platform = info.platform;
  app_version = info.app_version;
  created_at = now;
  last_seen_at = now;
  revoked_at = none;
}

unfoldable pub seen_again : DeviceInfo → ℕ → UserDevice → UserDevice
seen_again info now d = record d {
  name = info.name;
  platform = info.platform;
  app_version = info.app_version;
  last_seen_at = now;
  revoked_at = none;
}

-- The devices with the one of the user and public id written or, where there is none, added.
unfoldable pub upsert_device : ℕ → DeviceInfo → ℕ → ℕ → List UserDevice → List UserDevice
upsert_device user info id now [] = new_device user info id now ∷ []
upsert_device user info id now (d ∷ devices) =
    if is_device user info.public_id d
    then seen_again info now d ∷ devices
    else d ∷ upsert_device user info id now devices

unfoldable pub find_device : ℕ → String → List UserDevice → Option UserDevice
find_device user public_id [] = none
find_device user public_id (d ∷ devices) =
    if is_device user public_id d then some d else find_device user public_id devices
