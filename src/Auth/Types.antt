-- ===== src/Auth/Types.antt =====
-- The rows that the auth service keeps, and the hashing and signing that it calls
-- (backend/app/services/auth.py, backend/app/repositories/models.py).
use tw_stock_android_spec.Base.{ℕ, String, Bool, Option, List}

pub record User : Type 0 where
  pub id : ℕ
  pub login_identifier : String
  pub password_hash : String
  pub status : String
  pub created_at : ℕ
  pub updated_at : ℕ

pub record AuthSession : Type 0 where
  pub id : ℕ
  pub user_id : ℕ
  pub refresh_token_hash : String
  pub expires_at : ℕ
  pub created_at : ℕ
  pub rotated_at : Option ℕ
  pub revoked_at : Option ℕ

pub record UserDevice : Type 0 where
  pub id : ℕ
  pub user_id : ℕ
  pub device_public_id : String
  pub name : Option String
  pub platform : String
  pub app_version : Option String
  pub created_at : ℕ
  pub last_seen_at : ℕ
  pub revoked_at : Option ℕ

pub record Tables : Type 0 where
  pub users : List User
  pub sessions : List AuthSession
  pub devices : List UserDevice

-- What an access token says; times are in seconds.
pub record Claims : Type 0 where
  pub sub : ℕ
  pub sid : ℕ
  pub jti : ℕ
  pub iat : ℕ
  pub exp : ℕ

pub record TokenPair : Type 0 where
  pub access_token : String
  pub refresh_token : String
  pub expires_in : ℕ

-- What a call draws from the clock and the random generators.
pub record Drawn : Type 0 where
  pub now : ℕ
  pub id : ℕ
  pub token : String
  pub jti : ℕ

-- The service's settings, and the functions of Python's library, argon2 and PyJWT. `decode` takes the
-- time, and gives nothing where the signature, the expiry or the identifiers do not stand.
pub record Config : Type 0 where
  pub access_minutes : ℕ
  pub refresh_days : ℕ
  pub strip_casefold : String → String
  pub len : String → ℕ
  pub hash_password : String → String
  pub verify_password : String → String → Bool
  pub sha256 : String → String
  pub encode : Claims → String
  pub decode : ℕ → String → Option (ℕ × ℕ)
