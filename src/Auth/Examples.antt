-- ===== src/Auth/Examples.antt =====
-- One account with a login, and each theorem on the auth service at such an input.
use tw_stock_android_spec.Base.{
  ◌≤◌, ℕ, ◌<◌, ◌≡◌, refl, String, none, some, [], ◌∷◌, str_eq, if◌then◌else◌, arith, map,
}
use tw_stock_android_spec.Outcome.{Result, ok, err, app_error}
use tw_stock_android_spec.Auth.Types.{Tables, TokenPair, Drawn, Config, User, UserDevice, Claims}
use tw_stock_android_spec.Auth.Service.{
  find_session, find_hash, find_user, find_login, revoke, new_session, issue, login, refresh,
  register, logout, logout_found, DeviceInfo, upsert_device, authenticate, refused_at, is_revoked,
  unauthenticated, access, new_device, seen_again, find_device, validate_password,
}
use tw_stock_android_spec.Auth.Revocation.{refresh_call, logout_call, step, run}
use tw_stock_android_spec.Auth.Access.{refresh_once, logout_ends_access, login_authenticates}

program : Unit {0}
unfolding find_session find_hash find_user find_login revoke new_session issue login refresh
    register logout logout_found upsert_device authenticate refused_at is_revoked access new_device
    seen_again find_device validate_password step run
program = tt

abbrev config : Config
config = record {
  access_minutes = 15;
  refresh_days = 30;
  strip_casefold = λ s. s;
  len = λ s. 12;
  hash_password = λ s. s;
  verify_password = λ h s. str_eq h s;
  sha256 = λ s. s;
  encode = λ c. "jwt";
  decode = λ t s. if str_eq s "jwt" then some (1, 50) else none;
}

abbrev drawn : ℕ → ℕ → String → Drawn
drawn now id token = record { now = now; id = id; token = token; jti = 9 }

abbrev ann : User
ann = record {
  id = 1;
  login_identifier = "ann";
  password_hash = "correct horse";
  status = "ACTIVE";
  created_at = 0;
  updated_at = 0;
}

abbrev phone : UserDevice
phone = record {
  id = 70;
  user_id = 1;
  device_public_id = "phone";
  name = none;
  platform = "ANDROID";
  app_version = none;
  created_at = 1;
  last_seen_at = 1;
  revoked_at = some 2;
}

abbrev start : Tables
start = record { users = ann ∷ []; sessions = []; devices = phone ∷ [] }

abbrev value_or : Result (TokenPair × Tables) → Tables → TokenPair × Tables
value_or (ok out) db = out
value_or (err e) db = (record { access_token = ""; refresh_token = ""; expires_in = 0 }, db)

abbrev logged_in : TokenPair × Tables
unfolding program
logged_in = value_or (login config "ann" "correct horse" (drawn 100 50 "r1") start) start

abbrev refreshed : TokenPair × Tables
unfolding program
refreshed = value_or (refresh config 200 "r1" (drawn 200 51 "r2") logged_in.1) start

login_runs : login config "ann" "correct horse" (drawn 100 50 "r1") start ≡ ok logged_in
unfolding program
login_runs = refl

wrong_password :
    login config "ann" "wrong" (drawn 100 50 "r1") start ≡ err (app_error "UNAUTHENTICATED" 401)
unfolding program
wrong_password = refl

refresh_runs : refresh config 200 "r1" (drawn 200 51 "r2") logged_in.1 ≡ ok refreshed
unfolding program
refresh_runs = refl

register_taken :
    register config "ann" "long enough." (drawn 5 60 "") start
    ≡ err (app_error "ACCOUNT_EXISTS" 409)
unfolding program
register_taken = refl

rotation : map (λ s. s.revoked_at) refreshed.1.sessions ≡ some 200 ∷ none ∷ []
unfolding program
rotation = refl

refresh_once_example :
    refresh config 300 "r1"
      (drawn 300 53 "r4")
      (run config (refresh_call 250 "r2" (drawn 250 52 "r3") ∷ []) refreshed.1)
    ≡ err unauthenticated
refresh_once_example =
    refresh_once config 200 300 "r1" (drawn 200 51 "r2") (drawn 300 53 "r4")
      (refresh_call 250 "r2" (drawn 250 52 "r3") ∷ []) logged_in.1 refresh_runs

logout_ends_access_example :
    authenticate config 160 "jwt" (
      run config (logout_call 155 "other" ∷ []) (
        logout config 150 logged_in.0.refresh_token
          (run config (refresh_call 120 "unknown" (drawn 120 52 "r3") ∷ []) logged_in.1)))
    ≡ err unauthenticated
logout_ends_access_example =
    logout_ends_access config "ann" "correct horse" (drawn 100 50 "r1") start
      (refresh_call 120 "unknown" (drawn 120 52 "r3") ∷ []) (logout_call 155 "other" ∷ []) 150 160 1
      "jwt" login_runs refl

found_login : find_login (config.strip_casefold "ann") start.users ≡ some ann
unfolding program
found_login = refl

found_user : find_user 1 start.users ≡ some ann
unfolding program
found_user = refl

reads_back :
    (c : Claims)
    → c.sub ≡ 1
    → c.sid ≡ 50
    → c.iat ≤ 500
    → 500 < c.exp
    → config.decode 500 (config.encode c) ≡ some (c.sub, c.sid)
reads_back c p q begun early = cc

login_authenticates_example : authenticate config 500 logged_in.0.access_token logged_in.1 ≡ ok ann
login_authenticates_example =
    login_authenticates config "ann" "correct horse" (drawn 100 50 "r1") start 500 ann login_runs
      found_login found_user reads_back (omega arith) (omega arith)

abbrev hello : DeviceInfo
hello = record {
  public_id = "phone";
  name = some "Pixel";
  platform = "ANDROID";
  app_version = some "2.0";
}
