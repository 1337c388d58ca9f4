-- ===== src/Realtime/Hub/OwnedKeeps.antt =====
-- What the calls of the subscription manager that are made for a connection leave of its agreement
-- with the manager (backend/app/services/realtime_hub.py).
use tw_stock_android_spec.Base.{
  ◌≡◌, refl, sym, String, List, [], ◌∷◌, ◌++◌, if◌then◌else◌, if_both, subst,
}
use tw_stock_android_spec.Base.Assoc.{contains}
use tw_stock_android_spec.Outcome.{Result, ok, err, Error}
use tw_stock_android_spec.Realtime.Quote.{QuoteType, Identity, identity_eq}
use tw_stock_android_spec.Realtime.Hub.Interface.{SubscriptionManager}
use tw_stock_android_spec.Realtime.Hub.Owned.{
  Owned, acquire_one, release_one, then_do, roll_back, is_capacity, raise_again, refused,
  acquire_next, acquire_types, release_types,
}
use tw_stock_android_spec.Realtime.Hub.Agrees.{
  Keeps, Keeps-refl, Keeps-trans, acquire_one-Keeps, release_one-Keeps,
}

module _ {M : Type 0} (manager : SubscriptionManager M) where
  then_do-Keeps :
      (o : Owned manager) (next : Owned manager → Result (Unit {0}) × Owned manager)
      (r : Result (Unit {0}) × Owned manager)
      → Keeps manager o r.1
      → ((v : Owned manager) → Keeps manager v (next v).1)
      → Keeps manager o (then_do manager next r).1
  unfolding then_do
  then_do-Keeps o next (err e, v) k h = k
  then_do-Keeps o next (ok done, v) k h = Keeps-trans manager k (h v)

  roll_back-Keeps :
      (is : List Identity) (o : Owned manager) → Keeps manager o (roll_back manager is o).1
  unfolding roll_back
  roll_back-Keeps [] o = Keeps-refl manager o
  roll_back-Keeps (i ∷ is) o =
      then_do-Keeps o (roll_back manager is) (release_one manager i o)
        (release_one-Keeps manager i o.0 o.1) (roll_back-Keeps is)

  raise_again_same :
      (e : Error) (r : Result (Unit {0}) × Owned manager) → (raise_again manager e r).1 ≡ r.1
  unfolding raise_again
  raise_again_same e (err e', o) = refl
  raise_again_same e (ok done, o) = refl

  refused-Keeps :
      (new : List Identity) (e : Error) (o : Owned manager)
      → Keeps manager o (refused manager new e o).1
  unfolding refused
  refused-Keeps new e o =
      if_both (λ (r : Result (Unit {0}) × Owned manager). Keeps manager o r.1) (is_capacity e) _ _
        (subst (Keeps manager o) (sym (raise_again_same e (roll_back manager new o)))
          (roll_back-Keeps new o))
        (Keeps-refl manager o)

  acquire_next-Keeps :
      (o : Owned manager) (new : List Identity)
      (next : Owned manager → Result (Unit {0}) × Owned manager)
      (r : Result (Unit {0}) × Owned manager)
      → Keeps manager o r.1
      → ((v : Owned manager) → Keeps manager v (next v).1)
      → Keeps manager o (acquire_next manager new next r).1
  unfolding acquire_next
  acquire_next-Keeps o new next (err e, v) k h = Keeps-trans manager k (refused-Keeps new e v)
  acquire_next-Keeps o new next (ok done, v) k h = Keeps-trans manager k (h v)

  pub acquire_types-Keeps :
      (key : String) (new : List Identity) (types : List QuoteType) (o : Owned manager)
      → Keeps manager o (acquire_types manager key new types o).1
  unfolding acquire_types
  acquire_types-Keeps key new [] o = Keeps-refl manager o
  acquire_types-Keeps key new (q ∷ qs) o =
      let i : Identity = (key, q) in
      let new' = if contains i o.0.provider_subscriptions then new else new ++ i ∷ [] in
      acquire_next-Keeps o new (acquire_types manager key new' qs) (acquire_one manager i o)
        (acquire_one-Keeps manager i o.0 o.1) (acquire_types-Keeps key new' qs)

  pub release_types-Keeps :
      (is : List Identity) (o : Owned manager) → Keeps manager o (release_types manager is o).1
  unfolding release_types
  release_types-Keeps [] o = Keeps-refl manager o
  release_types-Keeps (i ∷ is) o =
      if_both (λ (r : Result (Unit {0}) × Owned manager). Keeps manager o r.1)
        (contains i o.0.provider_subscriptions) _ _
        (then_do-Keeps o (release_types manager is) (release_one manager i o)
          (release_one-Keeps manager i o.0 o.1) (release_types-Keeps is))
        (release_types-Keeps is o)
