-- ===== src/Realtime/Hub/Leaving.antt =====
-- A connection that has left owns nothing at the manager
-- (`unregister_connection` of backend/app/services/realtime_hub.py).
use tw_stock_android_spec.Base.{
  ℕ, ◌≡◌, refl, sym, ◌∙◌, String, false, not, ◌&&◌, List, [], ◌∷◌, str_eq, eq_refl, subst, arith,
}
use tw_stock_android_spec.Base.Assoc.{contains, nat_eq, erase}
use tw_stock_android_spec.Outcome.{Result, ok, err}
use tw_stock_android_spec.Realtime.Quote.{Identity, identity_eq}
use tw_stock_android_spec.Realtime.Hub.Interface.{SubscriptionManager}
use tw_stock_android_spec.Realtime.Hub.Targets.{Texts, Hub, register_connection}
use tw_stock_android_spec.Realtime.Hub.Owned.{after_release, release_all}
use tw_stock_android_spec.Realtime.Hub.Handlers.{
  Conn, owned_of, unregistered, unregister_connection,
}
use tw_stock_android_spec.Realtime.Hub.Agrees.{Agrees, Keeps}
use tw_stock_android_spec.Realtime.Hub.Endpoint.{ClientMessage, handle_all, websocket_quotes}
use tw_stock_android_spec.Realtime.Hub.Runs.{handle_all-Keeps}

module _ {M : Type 0} (manager : SubscriptionManager M) where
  -- Releasing all of some identities
  pub record Released (owner : String) (is : List Identity) (m m' : M) : Type 0 where
    pub sound : manager.IsSound m'
    pub left :
        (j : Identity) → manager.owns m' owner j ≡ (not (contains j is) && manager.owns m owner j)
    pub others :
        (p : String) (j : Identity)
        → str_eq owner p ≡ false
        → manager.owns m' p j ≡ manager.owns m p j

  module _ (owner : String) (i : Identity) (is : List Identity) (m : M)
      (sound : manager.IsSound m) where
    abbrev rel : Result (Unit {0}) × M
    rel = manager.release owner i m

    Released-cons :
        (m' : M) → rel.0 ≡ ok tt → Released owner is rel.1 m' → Released owner (i ∷ is) m m'
    Released-cons m' e r = record {
      sound = r.sound;
      left = λ j.
          let law = manager.release_ok owner i m sound e owner j in
          let rest = r.left j in let here = eq_refl owner in ground (arith, law, rest, here);
      others = λ p j other.
          r.others p j other ∙ manager.release_ok owner i m sound e p j ∙ rw other refl;
    }

  after_release-Released :
      (owner : String) (i : Identity) (is : List Identity) (m : M) (r : Result (Unit {0}))
      → manager.IsSound m
      → (manager.release owner i m).0 ≡ r
      → ((v : M)
          → manager.IsSound v
          → (release_all manager owner is v).0 ≡ ok tt
          → Released owner is v (release_all manager owner is v).1)
      → (after_release manager (release_all manager owner is) (r, (manager.release owner i m).1)).0
        ≡ ok tt
      → Released owner
          (i ∷ is)
          m
          (after_release manager
            (release_all manager owner is)
            (r, (manager.release owner i m).1)).1
  unfolding after_release
  after_release-Released owner i is m (err e) sound h rest through = cc
  after_release-Released owner i is m (ok done) sound h rest through =
      Released-cons owner i is m sound _ h
        (rest (manager.release owner i m).1 (manager.release-IsSound owner i m sound) through)

  release_all-Released :
      (owner : String) (is : List Identity) (m : M)
      → manager.IsSound m
      → (release_all manager owner is m).0 ≡ ok tt
      → Released owner is m (release_all manager owner is m).1
  unfolding release_all
  release_all-Released owner [] m sound through = record {
    sound = sound;
    left = λ j. refl;
    others = λ p j other. refl;
  }
  release_all-Released owner (i ∷ is) m sound through =
      after_release-Released owner i is m (manager.release owner i m).0 sound refl
        (release_all-Released owner is) through

  unregistered_ok :
      (c : Conn manager) (r : Result (Unit {0}) × M)
      → (unregistered manager c r).0 ≡ ok tt
      → (r.0 ≡ ok tt) × ((unregistered manager c r).1.1.manager ≡ r.1)
  unfolding unregistered
  unregistered_ok c (err e, m) h = cc
  unregistered_ok c (ok done, m) h = (refl, refl)

  pub opened-Agrees :
      (id : ℕ) (owner : String) (max_subscriptions : ℕ) (h : Hub M)
      → manager.IsSound h.manager
      → ((j : Identity) → manager.owns h.manager owner j ≡ false)
      → Agrees manager (owned_of manager (register_connection id owner max_subscriptions h))
  unfolding register_connection
  opened-Agrees id owner max_subscriptions h sound fresh = record {
    sound = sound;
    distinct = tt;
    owned = fresh;
  }

  -- What the manager holds in the end, against what it held before
  pub record LeavesNothing (owner : String) (before after : M) : Type 0 where
    pub sound : manager.IsSound after
    pub nothing : (j : Identity) → manager.owns after owner j ≡ false
    pub others :
        (p : String) (j : Identity)
        → str_eq owner p ≡ false
        → manager.owns after p j ≡ manager.owns before p j

  module _ (texts : Texts) where
    pub ended :
        (c d : Conn manager)
        → Agrees manager (owned_of manager c)
        → Keeps manager (owned_of manager c) (owned_of manager d)
        → (unregister_connection manager d).0 ≡ ok tt
        → LeavesNothing c.0.owner_id c.1.manager (unregister_connection manager d).1.1.manager
    unfolding unregister_connection
    ended c d g k through =
        let a = k.agrees g in
        let out =
          unregistered_ok
            (
              record (d.0) { is_alive = false },
              record (d.1) { sessions = erase d.0.id d.1.sessions },
            )
            (release_all manager d.0.owner_id d.0.provider_subscriptions d.1.manager) through in
        let released =
          release_all-Released d.0.owner_id d.0.provider_subscriptions d.1.manager a.sound out.0 in
        rw out.1 record {
          sound = released.sound;
          nothing = λ j.
              let left = released.left j in
              let had = a.owned j in
              subst
                (λ o.
                  manager.owns
                    (release_all manager d.0.owner_id d.0.provider_subscriptions d.1.manager).1 o j
                  ≡ false)
                k.same_owner (ground (arith, left, had));
          others = λ p j other.
              released.others p j (subst (λ o. str_eq o p ≡ false) (sym k.same_owner) other)
              ∙ k.others g p j other;
        }

    -- Where nothing is owned in the name of a new connection, then nothing is when it is served and
    -- its unregistration goes through, whatever its client asks for and whatever is refused, and what
    -- others own is as it was.
    pub connection-LeavesNothing :
        (id : ℕ) (owner : String) (max_subscriptions : ℕ) (h : Hub M)
        (requests : List ClientMessage)
        → manager.IsSound h.manager
        → ((j : Identity) → manager.owns h.manager owner j ≡ false)
        → (websocket_quotes manager texts id owner max_subscriptions requests h).0 ≡ ok tt
        → LeavesNothing owner h.manager
            (websocket_quotes manager texts id owner max_subscriptions requests h).1.1.manager
    unfolding register_connection
    connection-LeavesNothing id owner max_subscriptions h requests sound fresh through =
        let c = register_connection id owner max_subscriptions h in
        ended c (handle_all manager texts requests c)
          (opened-Agrees id owner max_subscriptions h sound fresh)
          (handle_all-Keeps manager texts requests c) through
