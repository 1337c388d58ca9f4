-- ===== src/Auth/Revocation.antt =====
-- Sessions over any run of the auth service's calls (backend/app/services/auth.py): a revoked session
-- stays revoked, and a session keeps its id and its token.
use tw_stock_android_spec.Base.{
  ℕ, ◌≡◌, ◌*◌, eq_iff, if◌then◌else◌, refl, String, Bool, true, false, Option, none, some, List, [],
  ◌∷◌, ◌++◌, is_some, inl, inr, Bool-cases, arith,
}
use tw_stock_android_spec.Outcome.{Result, ok, err}
use tw_stock_android_spec.Auth.Types.{AuthSession, Tables, TokenPair, Drawn, Config, User}
use tw_stock_android_spec.Auth.Service.{
  has_id, has_hash, find_session, find_hash, revoke, new_session, issue, login, refresh, register,
  logout, access, refused_at, is_revoked, DeviceInfo, upsert_device,
}

-- The calls that write, with what each draws.
pub data Call : Type 0 where
  register_call login_call : (identifier password : String) (drawn : Drawn) → Call
  refresh_call : (now : ℕ) (token : String) (drawn : Drawn) → Call
  logout_call : (now : ℕ) (token : String) → Call
  device_call : (user : ℕ) (info : DeviceInfo) (id now : ℕ) → Call

some-none : {s : AuthSession} → some s ≡ none → ⊥
some-none e = cc

none-some : {s : AuthSession} → none ≡ some s → ⊥
none-some e = cc

-- The tables after a call, which are the ones before where it raises.
abbrev pub after {ℓ} : {A : Type ℓ} → Result (A × Tables) → Tables → Tables
after (ok out) db = out.1
after (err e) db = db

module _ (config : Config) where
  unfoldable pub step : Call → Tables → Tables
  step (register_call i p drawn) db = after (register config i p drawn db) db
  step (login_call i p drawn) db = after (login config i p drawn db) db
  step (refresh_call now token drawn) db = after (refresh config now token drawn db) db
  step (logout_call now token) db = logout config now token db
  step (device_call user info id now) db = record db {
    devices = upsert_device user info id now db.devices;
  }

  unfoldable pub run : List Call → Tables → Tables
  run [] db = db
  run (c ∷ cs) db = run cs (step c db)

module _ (config : Config) where
  pub issue-ok :
      (user : User) (drawn : Drawn) (db : Tables) (out : TokenPair × Tables)
      → issue config user drawn db ≡ ok out
      → (find_session drawn.id db.sessions ≡ none)
        × (find_hash (config.sha256 drawn.token) db.sessions ≡ none)
        × (out.1 ≡ record db { sessions = db.sessions ++ new_session config user drawn ∷ [] })
        × (out.0 ≡ record {
          access_token = access config user.id drawn.id drawn;
          refresh_token = drawn.token;
          expires_in = config.access_minutes * 60;
        })
  unfolding issue
  issue-ok user drawn db out h = ground arith

-- The session found by a test on columns that no call changes has the property.
abbrev pub Found : (AuthSession → Bool) → List AuthSession → Type 0
Found p [] = ⊥
Found p (s ∷ ss) = if p s then is_some s.revoked_at ≡ true else Found p ss

-- The row of an id has the hash, and no row before it has it.
abbrev pub Linked : ℕ → String → List AuthSession → Type 0
Linked i h [] = ⊥
Linked i h (s ∷ ss) =
    if has_id i s then has_hash h s ≡ true else (has_hash h s ≡ false) × Linked i h ss

-- A property of the sessions that revoking one and adding one keep.
pub record Kept (Q : List AuthSession → Type 0) : Type 0 where
  pub revoked :
      (now : ℕ) (rotated : Option ℕ) (k : String) (ss : List AuthSession)
      → Q ss
      → Q (revoke now rotated k ss)
  pub added : (s : AuthSession) (ss : List AuthSession) → Q ss → Q (ss ++ s ∷ [])

Found-revoke :
    (p : AuthSession → Bool)
    → ((s : AuthSession) (a b : Option ℕ) → p (record s { revoked_at = a; rotated_at = b }) ≡ p s)
    → (now : ℕ) (rotated : Option ℕ) (k : String) (ss : List AuthSession) → Found p ss
    → Found p (revoke now rotated k ss)
unfolding revoke
Found-revoke p same now rotated k [] q = q
Found-revoke p same now rotated k (s ∷ ss) q = elim (Bool-cases (has_hash k s)) [
  | inl t ↦ elim (Bool-cases (p s)) [
    | inl u ↦ rw (t, same, u) refl
    | inr u ↦ rw (t, same, u) (rw u at q)
  ]
  | inr t ↦ elim (Bool-cases (p s)) [
    | inl u ↦ rw (t, u) (rw u at q)
    | inr u ↦ rw (t, u) (Found-revoke p same now rotated k ss (rw u at q))
  ]
]

Found-append : (p : AuthSession → Bool) (ss ts : List AuthSession) → Found p ss → Found p (ss ++ ts)
Found-append p [] ts q = absurd q
Found-append p (s ∷ ss) ts q = elim (Bool-cases (p s)) [
  | inl u ↦ rw u (rw u at q)
  | inr u ↦ rw u (Found-append p ss ts (rw u at q))
]

pub Found-Kept-hash : (h : String) → Kept (Found (has_hash h))
Found-Kept-hash h = record {
  revoked = Found-revoke (has_hash h) (λ s a b. refl);
  added = λ s ss q. Found-append (has_hash h) ss (s ∷ []) q;
}

pub Found-Kept-id : (i : ℕ) → Kept (Found (has_id i))
Found-Kept-id i = record {
  revoked = Found-revoke (has_id i) (λ s a b. refl);
  added = λ s ss q. Found-append (has_id i) ss (s ∷ []) q;
}

Linked-revoke :
    (i : ℕ) (h : String) (now : ℕ) (rotated : Option ℕ) (k : String) (ss : List AuthSession)
    → Linked i h ss
    → Linked i h (revoke now rotated k ss)
unfolding revoke
Linked-revoke i h now rotated k [] q = q
Linked-revoke i h now rotated k (s ∷ ss) q = elim (Bool-cases (has_hash k s)) [
  | inl t ↦ rw t q
  | inr t ↦ elim (Bool-cases (has_id i s)) [
    | inl u ↦ rw (t, u) (rw u at q)
    | inr u ↦ rw (t, u) ((rw u at q).0, Linked-revoke i h now rotated k ss (rw u at q).1)
  ]
]

pub Linked-append :
    (i : ℕ) (h : String) (ss ts : List AuthSession) → Linked i h ss → Linked i h (ss ++ ts)
Linked-append i h [] ts q = absurd q
Linked-append i h (s ∷ ss) ts q = elim (Bool-cases (has_id i s)) [
  | inl u ↦ rw u (rw u at q)
  | inr u ↦ rw u ((rw u at q).0, Linked-append i h ss ts (rw u at q).1)
]

pub Linked-Kept : (i : ℕ) (h : String) → Kept (Linked i h)
Linked-Kept i h = record {
  revoked = Linked-revoke i h;
  added = λ s ss q. Linked-append i h ss (s ∷ []) q;
}

-- A session just added under an id and a hash that nothing had is linked.
pub Linked-new :
    (i : ℕ) (h : String) (s : AuthSession) (ss : List AuthSession)
    → find_session i ss ≡ none
    → find_hash h ss ≡ none
    → s.id ≡ i
    → s.refresh_token_hash ≡ h
    → Linked i h (ss ++ s ∷ [])
unfolding find_session find_hash
Linked-new i h s [] f g p q = ground (arith, eq_iff s.refresh_token_hash h)
Linked-new i h s (t ∷ ss) f g p q = elim (Bool-cases (has_id i t)) [
  | inl u ↦ absurd (some-none (rw u at f))
  | inr u ↦ elim (Bool-cases (has_hash h t)) [
    | inl v ↦ absurd (some-none (rw v at g))
    | inr v ↦ rw u (v, Linked-new i h s ss (rw u at f) (rw v at g) p q)
  ]
]

-- Revoking by its hash revokes the session that an id names.
pub Linked-Found :
    (i : ℕ) (h : String) (now : ℕ) (rotated : Option ℕ) (ss : List AuthSession)
    → Linked i h ss
    → Found (has_id i) (revoke now rotated h ss)
unfolding revoke
Linked-Found i h now rotated [] q = absurd q
Linked-Found i h now rotated (s ∷ ss) q = elim (Bool-cases (has_id i s)) [
  | inl u ↦ rw (rw u at q, u) refl
  | inr u ↦ rw ((rw u at q).0, u) (Linked-Found i h now rotated ss (rw u at q).1)
]

pub revoke-Found :
    (h : String) (now : ℕ) (rotated : Option ℕ) (ss : List AuthSession) (s : AuthSession)
    → find_hash h ss ≡ some s
    → Found (has_hash h) (revoke now rotated h ss)
unfolding revoke find_hash
revoke-Found h now rotated [] s f = absurd (none-some f)
revoke-Found h now rotated (t ∷ ss) s f = elim (Bool-cases (has_hash h t)) [
  | inl u ↦ rw (u, u) refl
  | inr u ↦ rw (u, u) (revoke-Found h now rotated ss s (rw u at f))
]

pub Found-refused :
    (now : ℕ) (h : String) (ss : List AuthSession)
    → Found (has_hash h) ss
    → refused_at now (find_hash h ss) ≡ true
unfolding find_hash refused_at
Found-refused now h [] q = absurd q
Found-refused now h (s ∷ ss) q = elim (Bool-cases (has_hash h s)) [
  | inl u ↦ rw (u, rw u at q) refl
  | inr u ↦ rw u (Found-refused now h ss (rw u at q))
]

pub Found-is_revoked :
    (i : ℕ) (ss : List AuthSession) → Found (has_id i) ss → is_revoked (find_session i ss) ≡ true
unfolding find_session is_revoked
Found-is_revoked i [] q = absurd q
Found-is_revoked i (s ∷ ss) q = elim (Bool-cases (has_id i s)) [
  | inl u ↦ rw u (rw u at q)
  | inr u ↦ rw u (Found-is_revoked i ss (rw u at q))
]

-- The session that has the hash is the one of the id.
pub Linked-find :
    (i : ℕ) (h : String) (ss : List AuthSession)
    → Linked i h ss
    → (s : AuthSession) × (find_hash h ss ≡ some s)
      × (is_some s.revoked_at ≡ true → Found (has_id i) ss)
unfolding find_hash
Linked-find i h [] q = absurd q
Linked-find i h (s ∷ ss) q = elim (Bool-cases (has_id i s)) [
  | inl u ↦ (s, rw (rw u at q) refl, λ r. rw u r)
  | inr u ↦
      let rest = Linked-find i h ss (rw u at q).1 in
      (rest.0, rw (rw u at q).0 rest.1, λ r. rw u (rest.2 r))
]
