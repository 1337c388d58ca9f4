-- ===== src/Realtime/Hub/Owned.antt =====
-- The calls of the subscription manager that the hub makes for a connection
-- (backend/app/services/realtime_hub.py).
use tw_stock_android_spec.Base.{String, Bool, true, false, List, [], ◌∷◌, ◌++◌, if◌then◌else◌}
use tw_stock_android_spec.Base.Assoc.{contains, erase}
use tw_stock_android_spec.Outcome.{Result, ok, err, Error, capacity_error}
use tw_stock_android_spec.Realtime.Quote.{QuoteType, Identity, identity_eq}
use tw_stock_android_spec.Realtime.Hub.Interface.{SubscriptionManager}
use tw_stock_android_spec.Realtime.Hub.Session.{ConnectionSession, add_identity}

abbrev pub is_capacity : Error → Bool
is_capacity e = elim e [ capacity_error ↦ true | _ ↦ false ]

module _ {M : Type 0} (manager : SubscriptionManager M) where
  -- A connection and the manager, as a call leaves them.
  abbrev pub Owned : Type 0
  Owned = ConnectionSession × M

  unfoldable pub acquired :
      Identity → ConnectionSession → Result (Unit {0}) × M → Result (Unit {0}) × Owned
  acquired i s (err e, m) = (err e, (s, m))
  acquired i s (ok done, m) = (ok tt, (add_identity i s, m))

  -- An identity that the connection has is not asked for again.
  unfoldable pub acquire_one : Identity → Owned → Result (Unit {0}) × Owned
  acquire_one i (s, m) =
      if contains i s.provider_subscriptions
      then (ok tt, (s, m))
      else acquired i s (manager.acquire s.owner_id i m)

  unfoldable pub released :
      Identity → ConnectionSession → Result (Unit {0}) × M → Result (Unit {0}) × Owned
  released i s (err e, m) = (err e, (s, m))
  released i s (ok done, m) =
      (ok tt, (record s { provider_subscriptions = erase i s.provider_subscriptions }, m))

  unfoldable pub release_one : Identity → Owned → Result (Unit {0}) × Owned
  release_one i (s, m) = released i s (manager.release s.owner_id i m)

  unfoldable pub then_do :
      (Owned → Result (Unit {0}) × Owned) → Result (Unit {0}) × Owned → Result (Unit {0}) × Owned
  then_do next (err e, o) = (err e, o)
  then_do next (ok done, o) = next o

  -- What was acquired for the target is released again.
  unfoldable pub roll_back : List Identity → Owned → Result (Unit {0}) × Owned
  roll_back [] o = (ok tt, o)
  roll_back (i ∷ is) o = then_do (roll_back is) (release_one i o)

  -- `raise`, unless the rollback raises itself
  unfoldable pub raise_again : Error → Result (Unit {0}) × Owned → Result (Unit {0}) × Owned
  raise_again e (err e', o) = (err e', o)
  raise_again e (ok done, o) = (err e, o)

  unfoldable pub refused : List Identity → Error → Owned → Result (Unit {0}) × Owned
  refused new e o = if is_capacity e then raise_again e (roll_back new o) else (err e, o)

  -- `new` are the identities acquired before, of this target.
  unfoldable pub acquire_next :
      List Identity
      → (Owned → Result (Unit {0}) × Owned)
      → Result (Unit {0}) × Owned
      → Result (Unit {0}) × Owned
  acquire_next new next (err e, o) = refused new e o
  acquire_next new next (ok done, o) = next o

  unfoldable pub acquire_types :
      String → List Identity → List QuoteType → Owned → Result (Unit {0}) × Owned
  acquire_types key new [] o = (ok tt, o)
  acquire_types key new (q ∷ qs) o =
      let i : Identity = (key, q) in
      let new' = if contains i o.0.provider_subscriptions then new else new ++ i ∷ [] in
      acquire_next new (acquire_types key new' qs) (acquire_one i o)

  unfoldable pub release_types : List Identity → Owned → Result (Unit {0}) × Owned
  release_types [] o = (ok tt, o)
  release_types (i ∷ is) o =
      if contains i o.0.provider_subscriptions
      then then_do (release_types is) (release_one i o)
      else release_types is o

  unfoldable pub after_release :
      (M → Result (Unit {0}) × M) → Result (Unit {0}) × M → Result (Unit {0}) × M
  after_release next (err e, m) = (err e, m)
  after_release next (ok done, m) = next m

  unfoldable pub release_all : String → List Identity → M → Result (Unit {0}) × M
  release_all owner [] m = (ok tt, m)
  release_all owner (i ∷ is) m = after_release (release_all owner is) (manager.release owner i m)
