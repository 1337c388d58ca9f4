-- ===== src/Auth/Access.antt =====
-- What the auth service promises of its tokens and devices (backend/app/services/auth.py).
use tw_stock_android_spec.Base.{
  ◌≤◌, ℕ, ◌+◌, ◌*◌, ◌<◌, ◌≡◌, refl, sym, ◌∙◌, String, true, none, some, List, [], ◌∷◌, ◌++◌,
  is_some, str_eq, inl, inr, ==_refl, Bool-cases, subst, some_eq, arith,
}
use tw_stock_android_spec.Outcome.{ok, err}
use tw_stock_android_spec.Auth.Types.{AuthSession, Tables, TokenPair, Drawn, Config, User, Claims}
use tw_stock_android_spec.Auth.Service.{
  has_id, has_hash, find_session, find_user, find_login, new_session, issue, login, refresh, logout,
  logout_found, authenticate, is_revoked, unauthenticated, access,
}
use tw_stock_android_spec.Auth.Revocation.{
  Call, run, Found, Linked, issue-ok, Found-Kept-hash, Found-Kept-id, Linked-Kept, Linked-new,
  Linked-Found, revoke-Found, Found-refused, Found-is_revoked, Linked-find,
}
use tw_stock_android_spec.Auth.Keeps.{issue-keeps, login-ok, refresh-ok, run-keeps}

find_session-append_one :
    (i : ℕ) (s : AuthSession) (ss : List AuthSession)
    → find_session i ss ≡ none
    → s.id ≡ i
    → find_session i (ss ++ s ∷ []) ≡ some s
unfolding find_session
find_session-append_one i s [] f p = ground (arith, ==_refl i)
find_session-append_one i s (t ∷ ss) f p = ground (arith, find_session-append_one i s ss)

module _ (config : Config) where
  -- A refresh token is good for one refresh: whatever calls follow one that went through, presenting
  -- the token again is refused as unauthenticated.
  pub refresh_once :
      (now later : ℕ) (token : String) (drawn again : Drawn) (cs : List Call) (db : Tables)
      {out : TokenPair × Tables}
      → refresh config now token drawn db ≡ ok out
      → refresh config later token again (run config cs out.1) ≡ err unauthenticated
  unfolding refresh
  refresh_once now later token drawn again cs db {out} h =
      let r = refresh-ok config now token drawn db out h in
      let hash = config.sha256 token in
      let kept = Found-Kept-hash hash in
      rw
        (Found-refused later hash (run config cs out.1).sessions (
          run-keeps config (Found (has_hash hash)) kept cs out.1 (
            issue-keeps config (Found (has_hash hash)) kept r.1 drawn _ out r.3
              (revoke-Found hash now (some now) db.sessions r.0 r.2))))
        refl

  -- The session that a login opens carries the token it gave out.
  login-Linked :
      (identifier password : String) (drawn : Drawn) (db : Tables) (out : TokenPair × Tables)
      → login config identifier password drawn db ≡ ok out
      → Linked drawn.id (config.sha256 out.0.refresh_token) out.1.sessions
  unfolding new_session
  login-Linked identifier password drawn db out h =
      let l = login-ok config identifier password drawn db out h in
      let i = issue-ok config l.0 drawn db out l.3 in
      rw (i.2, i.3)
        (Linked-new drawn.id (config.sha256 drawn.token) (new_session config l.0 drawn) db.sessions
          i.0 i.1 refl refl)

  logout-Found :
      (now i : ℕ) (token : String) (db : Tables)
      → Linked i (config.sha256 token) db.sessions
      → Found (has_id i) (logout config now token db).sessions
  unfolding logout logout_found
  logout-Found now i token db q =
      let l = Linked-find i (config.sha256 token) db.sessions q in
      rw l.1 (elim (Bool-cases (is_some l.0.revoked_at)) [
        | inl t ↦ rw t (l.2 t)
        | inr t ↦ rw t (Linked-Found i (config.sha256 token) now l.0.rotated_at db.sessions q)
      ])

  -- A logout ends the access tokens too: an access token that names the session a login opened is
  -- refused once the login's refresh token has been logged out, whatever calls came between and came
  -- after.
  pub logout_ends_access :
      (identifier password : String) (drawn : Drawn) (db : Tables) (before since : List Call)
      (now later user : ℕ) (jwt : String) {out : TokenPair × Tables}
      → login config identifier password drawn db ≡ ok out
      → config.decode later jwt ≡ some (user, drawn.id)
      → authenticate config later jwt
          (run config since (logout config now out.0.refresh_token (run config before out.1)))
        ≡ err unauthenticated
  unfolding authenticate
  logout_ends_access identifier password drawn db before since now later user jwt {out} h d =
      let i = drawn.id in
      let hash = config.sha256 out.0.refresh_token in
      let opened =
        run-keeps config (Linked i hash) (Linked-Kept i hash) before out.1
          (login-Linked identifier password drawn db out h) in
      let closed =
        run-keeps config (Found (has_id i)) (Found-Kept-id i) since _
          (logout-Found now i out.0.refresh_token (run config before out.1) opened) in
      rw (d, Found-is_revoked i _ closed) refl

  issued-authenticates :
      (user : User) (drawn : Drawn) (db : Tables) (now : ℕ) (out : TokenPair × Tables)
      → issue config user drawn db ≡ ok out
      → str_eq user.status "ACTIVE" ≡ true
      → find_user user.id db.users ≡ some user
      → ((c : Claims)
          → c.sub ≡ user.id
          → c.sid ≡ drawn.id
          → c.iat ≤ now
          → now < c.exp
          → config.decode now (config.encode c) ≡ some (c.sub, c.sid))
      → drawn.now ≤ now
      → now < drawn.now + config.access_minutes * 60
      → authenticate config now out.0.access_token out.1 ≡ ok user
  unfolding authenticate access is_revoked new_session
  issued-authenticates user drawn db now out h active here jwt begun early =
      let i = issue-ok config user drawn db out h in
      rw
        (
          i.2,
          i.3,
          jwt
              (record {
                sub = user.id;
                sid = drawn.id;
                jti = drawn.jti;
                iat = drawn.now;
                exp = drawn.now + config.access_minutes * 60;
              })
              refl refl begun early,
          find_session-append_one drawn.id (new_session config user drawn) db.sessions i.0 refl,
          here,
          active,
        )
        refl

  -- The pair that a login gives out lets its user in: the access token names the user under whose
  -- identifier the login was made and passes from the login until it expires, where the user stands
  -- under its id and PyJWT reads back the claims it signed for that session from their time of
  -- issue until they expire.
  pub login_authenticates :
      (identifier password : String) (drawn : Drawn) (db : Tables) (now : ℕ) (user : User)
      {out : TokenPair × Tables}
      → login config identifier password drawn db ≡ ok out
      → find_login (config.strip_casefold identifier) db.users ≡ some user
      → find_user user.id db.users ≡ some user
      → ((c : Claims)
          → c.sub ≡ user.id
          → c.sid ≡ drawn.id
          → c.iat ≤ now
          → now < c.exp
          → config.decode now (config.encode c) ≡ some (c.sub, c.sid))
      → drawn.now ≤ now
      → now < drawn.now + config.access_minutes * 60
      → authenticate config now out.0.access_token out.1 ≡ ok user
  login_authenticates identifier password drawn db now user {out} h found here jwt begun early =
      let l = login-ok config identifier password drawn db out h in
      let same = some_eq (sym l.1 ∙ found) in
      issued-authenticates user drawn db now out
        (subst (λ u. issue config u drawn db ≡ ok out) same l.3)
        (subst (λ u. str_eq u.status "ACTIVE" ≡ true) same l.2) here jwt begun early
