-- ===== src/Realtime/Hub/Brokered.antt =====
-- What the broker is subscribed to, against the connections of the hub
-- (backend/app/services/realtime_hub.py, backend/app/services/realtime_provider_manager.py).
use tw_stock_android_spec.Base.{
  ◌≡◌, refl, sym, ap, ◌∙◌, String, Bool, true, false, List, [], ◌∷◌, str_eq, eq_iff, eq_refl, All,
  inl, inr, Bool-cases, any, subst, arith,
}
use tw_stock_android_spec.Base.Assoc.{string_eq, contains, keys}
use tw_stock_android_spec.Realtime.Quote.{Identity, identity_eq, same_identity}
use tw_stock_android_spec.Realtime.Subscription.{Capabilities}
use tw_stock_android_spec.Realtime.Subscription.Invariant.{IsOwned}
use tw_stock_android_spec.Realtime.Hub.Session.{ConnectionSession}
use tw_stock_android_spec.Realtime.Hub.Targets.{Texts, Hub}
use tw_stock_android_spec.Realtime.Hub.Tables.{Table, owners_at, find_key-absent}
use tw_stock_android_spec.Realtime.Hub.Calls.{owns}
use tw_stock_android_spec.Realtime.Hub.Provider.{Serving, IsKept, provider_manager}
use tw_stock_android_spec.Realtime.Hub.Server.{Server, owners_of, Reach}
use tw_stock_android_spec.Realtime.Hub.Serves.{AllAgree, IsServing}
use tw_stock_android_spec.Realtime.Hub.Reached.{Reach-IsServing}

-- Every identity of the table has an owner.
owner_of_key :
    (j : Identity) (table : Table)
    → All (λ e. IsOwned e.1) table
    → contains j (keys table) ≡ true
    → (p : String) × (contains p (owners_at j table) ≡ true)
owner_of_key j [] h c = cc
owner_of_key j ((i, os) ∷ table) h c = elim (Bool-cases (same_identity i j)) [
  | inl t ↦ rw t (first os h.0)
  | inr t ↦ rw t (owner_of_key j table h.1 (rw t at c))
]
  where
    first : (os : List String) → IsOwned os → (p : String) × (contains p os ≡ true)
    first [] g = absurd g
    first (o ∷ os) g = (o, rw (eq_refl o) refl)

key_of_owner :
    (p : String) (j : Identity) (table : Table)
    → contains p (owners_at j table) ≡ true
    → contains j (keys table) ≡ true
key_of_owner p j table h = elim (Bool-cases (contains j (keys table))) [
  | inl t ↦ t
  | inr t ↦ let none_of = rw (find_key-absent j table t) at h in cc
]

-- Some connection has the identity.
abbrev pub is_wanted : Identity → List ConnectionSession → Bool
is_wanted j ss = any (λ (s : ConnectionSession). contains j s.provider_subscriptions) ss

module _ (caps : Capabilities) (m : Serving) (j : Identity) where
  wanted_by :
      (p : String) (ss : List ConnectionSession)
      → AllAgree (provider_manager caps) ss m
      → contains p (owners_of ss) ≡ true
      → owns m.manager p j ≡ true
      → is_wanted j ss ≡ true
  wanted_by p [] a c h = cc
  wanted_by p (s ∷ ss) a c h = elim (Bool-cases (str_eq s.owner_id p)) [
    | inl t ↦
        let has =
          sym (a.0.owned j)
          ∙ subst (λ o. owns m.manager o j ≡ true) (sym ((eq_iff s.owner_id p).0 t)) h in
        rw has refl
    | inr t ↦ let rest = wanted_by p ss a.1 (rw t at c) h in ground (arith, rest)
  ]

  owner_of_wanted :
      (ss : List ConnectionSession)
      → AllAgree (provider_manager caps) ss m
      → is_wanted j ss ≡ true
      → (p : String) × (owns m.manager p j ≡ true)
  owner_of_wanted [] a h = cc
  owner_of_wanted (s ∷ ss) a h = elim (Bool-cases (contains j s.provider_subscriptions)) [
    | inl t ↦ (s.owner_id, a.0.owned j ∙ t)
    | inr t ↦ owner_of_wanted ss a.1 (rw t at h)
  ]

  wanted_iff :
      (ss : List ConnectionSession)
      → IsServing (provider_manager caps) ss m
      → contains j (keys m.manager.subscription_owners) ≡ is_wanted j ss
  wanted_iff ss i = elim (Bool-cases (contains j (keys m.manager.subscription_owners))) [
    | inl t ↦
        rw t (sym (some_one (owner_of_key j m.manager.subscription_owners i.sound.valid.owned t)))
    | inr t ↦ elim (Bool-cases (is_wanted j ss)) [
      | inl w ↦ absurd (no_one t (owner_of_wanted ss i.agree w))
      | inr w ↦ rw (t, w) refl
    ]
  ]
    where
      some_one :
          (p : String) × (contains p (owners_at j m.manager.subscription_owners) ≡ true)
          → is_wanted j ss ≡ true
      some_one (p, h) = elim (Bool-cases (contains p (owners_of ss))) [
        | inl t ↦ wanted_by p ss i.agree t h
        | inr t ↦ let nobody = i.others p j t in absurd (true_false (sym h ∙ nobody))
      ]
        where
          true_false : true ≡ false → ⊥
          true_false p = cc

      no_one :
          contains j (keys m.manager.subscription_owners) ≡ false
          → (p : String) × (owns m.manager p j ≡ true)
          → ⊥
      no_one t (p, h) = let key = key_of_owner p j m.manager.subscription_owners h in cc

-- From a hub without connections and a manager without owners: after any opening, messages and
-- closing of connections, in any order, with the broker refusing wherever it may, where every
-- closing went through, the broker is subscribed to exactly what the open connections have.
pub Reach-broker :
    (caps : Capabilities) (texts : Texts) (h : Hub Serving) (s : Server Serving)
    → IsKept h.manager.manager
    → h.manager.manager.subscription_owners ≡ []
    → Reach (provider_manager caps) texts h s
    → (j : Identity) → contains j s.hub.manager.manager.broker ≡ is_wanted j s.connections
Reach-broker caps texts h s kept empty r j =
    let i = Reach-IsServing (provider_manager caps) texts kept (λ p k. rw empty refl) r in
    ap (contains j) (sym i.sound.valid.in_step) ∙ wanted_iff caps s.hub.manager j s.connections i
