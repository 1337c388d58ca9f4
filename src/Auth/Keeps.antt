-- ===== src/Auth/Keeps.antt =====
-- How each call of the auth service ends, and what every run of its calls keeps (backend/app/services/auth.py).
use tw_stock_android_spec.Base.{
  ℕ, ◌≡◌, refl, String, true, Option, none, some, List, [], ◌∷◌, is_some, str_eq, inl, inr, if_both,
  Option-cases, arith,
}
use tw_stock_android_spec.Outcome.{Result, ok, err}
use tw_stock_android_spec.Auth.Types.{AuthSession, Tables, TokenPair, Drawn, Config, User}
use tw_stock_android_spec.Auth.Service.{
  find_hash, find_user, find_login, revoke, new_session, issue, login, refresh, register, logout,
  logout_found,
}
use tw_stock_android_spec.Auth.Revocation.{
  after, Call, register_call, login_call, refresh_call, logout_call, device_call, step, run, Kept,
  issue-ok,
}

module _ (config : Config) (Q : List AuthSession → Type 0) (kept : Kept Q) where
  pub issue-keeps :
      (user : User) (drawn : Drawn) (db : Tables) (out : TokenPair × Tables)
      → issue config user drawn db ≡ ok out
      → Q db.sessions
      → Q out.1.sessions
  issue-keeps user drawn db out h q =
      rw (issue-ok config user drawn db out h).2
        (kept.added (new_session config user drawn) db.sessions q)

  logout-keeps :
      (now : ℕ) (token : String) (db : Tables)
      → Q db.sessions
      → Q (logout config now token db).sessions
  unfolding logout logout_found
  logout-keeps now token db q = found (find_hash (config.sha256 token) db.sessions)
    where
      found :
          (o : Option AuthSession) → Q (logout_found config now (config.sha256 token) o db).sessions
      found none = q
      found (some s) =
          if_both (λ t. Q t.sessions) (is_some s.revoked_at) db _ q
            (kept.revoked now s.rotated_at (config.sha256 token) db.sessions q)

module _ (config : Config) where
  pub login-ok :
      (identifier password : String) (drawn : Drawn) (db : Tables) (out : TokenPair × Tables)
      → login config identifier password drawn db ≡ ok out
      → (user : User) × (find_login (config.strip_casefold identifier) db.users ≡ some user)
        × (str_eq user.status "ACTIVE" ≡ true)
        × (issue config user drawn db ≡ ok out)
  unfolding login
  login-ok identifier password drawn db out h =
      elim (Option-cases (find_login (config.strip_casefold identifier) db.users)) [
        | inl none' ↦ ground arith
        | inr (user, found) ↦ (user, found, ground arith, ground arith)
      ]

  pub refresh-ok :
      (now : ℕ) (token : String) (drawn : Drawn) (db : Tables) (out : TokenPair × Tables)
      → refresh config now token drawn db ≡ ok out
      → (s : AuthSession) × (user : User) × (find_hash (config.sha256 token) db.sessions ≡ some s)
        × (issue config user drawn
              (record db { sessions = revoke now (some now) (config.sha256 token) db.sessions })
            ≡ ok out)
  unfolding refresh
  refresh-ok now token drawn db out h =
      elim (Option-cases (find_hash (config.sha256 token) db.sessions)) [
        | inl missing ↦ ground arith
        | inr (s, found) ↦ elim (Option-cases (find_user s.user_id db.users)) [
          | inl missing ↦ ground arith
          | inr (user, there) ↦ (s, user, found, ground arith)
        ]
      ]

module _ (config : Config) (Q : List AuthSession → Type 0) (kept : Kept Q) where
  after-keeps :
      {A : Type 0} (m : Result (A × Tables)) (db : Tables)
      → ((out : A × Tables) → m ≡ ok out → Q out.1.sessions)
      → Q db.sessions
      → Q (after m db).sessions
  after-keeps (ok out) db f q = f out refl
  after-keeps (err e) db f q = q

  register-keeps :
      (i p : String) (drawn : Drawn) (db : Tables) (out : User × Tables)
      → register config i p drawn db ≡ ok out
      → out.1.sessions ≡ db.sessions
  unfolding register
  register-keeps i p drawn db out h = ground arith

  pub step-keeps : (c : Call) (db : Tables) → Q db.sessions → Q (step config c db).sessions
  unfolding step
  step-keeps (register_call i p drawn) db q =
      after-keeps _ db (λ out h. rw (register-keeps i p drawn db out h) q) q
  step-keeps (login_call i p drawn) db q =
      after-keeps _ db
        (λ out h.
          let l = login-ok config i p drawn db out h in
          issue-keeps config Q kept l.0 drawn db out l.3 q)
        q
  step-keeps (refresh_call now token drawn) db q =
      after-keeps _ db
        (λ out h.
          let r = refresh-ok config now token drawn db out h in
          issue-keeps config Q kept r.1 drawn _ out r.3
            (kept.revoked now (some now) (config.sha256 token) db.sessions q))
        q
  step-keeps (logout_call now token) db q = logout-keeps config Q kept now token db q
  step-keeps (device_call user info id now) db q = q

  pub run-keeps : (cs : List Call) (db : Tables) → Q db.sessions → Q (run config cs db).sessions
  unfolding run
  run-keeps [] db q = q
  run-keeps (c ∷ cs) db q = run-keeps cs (step config c db) (step-keeps c db q)
