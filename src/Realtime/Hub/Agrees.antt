-- ===== src/Realtime/Hub/Agrees.antt =====
-- What a connection has and what its owner owns at the manager
-- (backend/app/services/realtime_hub.py).
use tw_stock_android_spec.Base.{
  ◌≡◌, refl, sym, ◌∙◌, String, false, [], ◌∷◌, ◌++◌, str_eq, eq_refl, inl, inr, Bool-cases, subst,
  arith,
}
use tw_stock_android_spec.Base.Assoc.{
  contains, erase, Distinct, Distinct-append_one, Distinct-erase, contains-erase,
  contains-append_one_eq,
}
use tw_stock_android_spec.Outcome.{Result, ok, err}
use tw_stock_android_spec.Realtime.Quote.{Identity, identity_eq}
use tw_stock_android_spec.Realtime.Hub.Interface.{SubscriptionManager}
use tw_stock_android_spec.Realtime.Hub.Session.{ConnectionSession}
use tw_stock_android_spec.Realtime.Hub.Owned.{Owned, acquired, acquire_one, released, release_one}

module _ {M : Type 0} (manager : SubscriptionManager M) where
  -- The owner owns at the manager exactly what the connection has.
  pub record Agrees (o : Owned manager) : Type 0 where
    pub sound : manager.IsSound o.1
    pub distinct : Distinct o.0.provider_subscriptions
    pub owned :
        (j : Identity) → manager.owns o.1 o.0.owner_id j ≡ contains j o.0.provider_subscriptions

  -- A call keeps that, and leaves what others own.
  pub record Keeps (o o' : Owned manager) : Type 0 where
    pub same_owner : o'.0.owner_id ≡ o.0.owner_id
    pub agrees : Agrees o → Agrees o'
    pub others :
        Agrees o
        → (p : String) (j : Identity) → str_eq o.0.owner_id p ≡ false
        → manager.owns o'.1 p j ≡ manager.owns o.1 p j

  pub Keeps-refl : (o : Owned manager) → Keeps o o
  Keeps-refl o = record { same_owner = refl; agrees = λ a. a; others = λ a p j other. refl }

  pub Keeps-trans : {a b c : Owned manager} → Keeps a b → Keeps b c → Keeps a c
  Keeps-trans k l = record {
    same_owner = l.same_owner ∙ k.same_owner;
    agrees = λ g. l.agrees (k.agrees g);
    others = λ g p j other.
        l.others (k.agrees g) p j (subst (λ o. str_eq o p ≡ false) (sym k.same_owner) other)
        ∙ k.others g p j other;
  }

  module _ (i : Identity) (s : ConnectionSession) (m : M) where
    abbrev acq : Result (Unit {0}) × M
    acq = manager.acquire s.owner_id i m

    abbrev rel : Result (Unit {0}) × M
    rel = manager.release s.owner_id i m

    owned_after :
        (g : Agrees (s, m)) (j : Identity)
        → acq.0 ≡ ok tt
        → manager.owns acq.1 s.owner_id j ≡ contains j (s.provider_subscriptions ++ i ∷ [])
    owned_after g j e =
        let law = manager.acquire_ok s.owner_id i m g.sound e s.owner_id j in
        let here = eq_refl s.owner_id in
        let known = g.owned j in
        let list = contains-append_one_eq j i s.provider_subscriptions in
        ground (arith, law, here, known, list)

    acquired-Keeps :
        (r : Result (Unit {0}))
        → acq.0 ≡ r
        → contains i s.provider_subscriptions ≡ false
        → Keeps (s, m) (acquired manager i s (r, acq.1)).1
    unfolding acquired
    acquired-Keeps (err e) h new = record {
      same_owner = refl;
      agrees = λ g. record {
        sound = manager.acquire-IsSound s.owner_id i m g.sound;
        distinct = g.distinct;
        owned = λ j. manager.acquire_err s.owner_id i m e g.sound h s.owner_id j ∙ g.owned j;
      };
      others = λ g p j other. manager.acquire_err s.owner_id i m e g.sound h p j;
    }
    acquired-Keeps (ok done) h new = record {
      same_owner = refl;
      agrees = λ g. record {
        sound = manager.acquire-IsSound s.owner_id i m g.sound;
        distinct = Distinct-append_one s.provider_subscriptions i g.distinct new;
        owned = λ j. owned_after g j h;
      };
      others = λ g p j other. manager.acquire_ok s.owner_id i m g.sound h p j ∙ rw other refl;
    }

    pub acquire_one-Keeps : Keeps (s, m) (acquire_one manager i (s, m)).1
    unfolding acquire_one
    acquire_one-Keeps = elim (Bool-cases (contains i s.provider_subscriptions)) [
      | inl t ↦ rw t (Keeps-refl (s, m))
      | inr t ↦ rw t (acquired-Keeps acq.0 refl t)
    ]

    left_after :
        (g : Agrees (s, m)) (j : Identity)
        → rel.0 ≡ ok tt
        → manager.owns rel.1 s.owner_id j ≡ contains j (erase i s.provider_subscriptions)
    left_after g j e =
        let law = manager.release_ok s.owner_id i m g.sound e s.owner_id j in
        let here = eq_refl s.owner_id in
        let known = g.owned j in
        let list = contains-erase j i s.provider_subscriptions g.distinct in
        ground (arith, law, here, known, list)

    released-Keeps :
        (r : Result (Unit {0})) → rel.0 ≡ r → Keeps (s, m) (released manager i s (r, rel.1)).1
    unfolding released
    released-Keeps (err e) h = record {
      same_owner = refl;
      agrees = λ g. record {
        sound = manager.release-IsSound s.owner_id i m g.sound;
        distinct = g.distinct;
        owned = λ j. manager.release_err s.owner_id i m e g.sound h s.owner_id j ∙ g.owned j;
      };
      others = λ g p j other. manager.release_err s.owner_id i m e g.sound h p j;
    }
    released-Keeps (ok done) h = record {
      same_owner = refl;
      agrees = λ g. record {
        sound = manager.release-IsSound s.owner_id i m g.sound;
        distinct = Distinct-erase i s.provider_subscriptions g.distinct;
        owned = λ j. left_after g j h;
      };
      others = λ g p j other. manager.release_ok s.owner_id i m g.sound h p j ∙ rw other refl;
    }

    pub release_one-Keeps : Keeps (s, m) (release_one manager i (s, m)).1
    unfolding release_one
    release_one-Keeps = released-Keeps rel.0 refl
