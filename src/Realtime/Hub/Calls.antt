-- ===== src/Realtime/Hub/Calls.antt =====
-- What a call of the subscription manager does to who owns what
-- (backend/app/services/realtime_provider_manager.py).
use tw_stock_android_spec.Base.{
  ◌≡◌, refl, sym, ap, ◌∙◌, String, Bool, some, List, [], or_else, if◌then◌else◌, inl, inr,
  Bool-cases, subst,
}
use tw_stock_android_spec.Base.Assoc.{string_eq, contains, find_key}
use tw_stock_android_spec.Outcome.{Result, ok, err, Error}
use tw_stock_android_spec.Realtime.Quote.{Identity, identity_eq, same_identity, same_identity_iff}
use tw_stock_android_spec.Realtime.Subscription.{Manager}
use tw_stock_android_spec.Realtime.Hub.Interface.{is_call}
use tw_stock_android_spec.Realtime.Hub.Tables.{owners_at, IsTable}

abbrev pub owns : Manager → String → Identity → Bool
owns m p j = contains p (owners_at j m.subscription_owners)

-- What a call that would take an identity, or leave it, comes to
pub record Calls (held : Bool) (o : String) (i : Identity) (m : Manager)
    (r : Result (Unit {0}) × Manager) : Type 0 where
  pub table : IsTable r.1.subscription_owners
  pub through :
      r.0 ≡ ok tt
      → (p : String) (j : Identity) → owns r.1 p j ≡ (if is_call o i p j then held else owns m p j)
  pub refused : (e : Error) → r.0 ≡ err e → (p : String) (j : Identity) → owns r.1 p j ≡ owns m p j

module _ (o : String) (i : Identity) (m : Manager) (t : IsTable m.subscription_owners) where
  -- The call was refused and the table is as it was.
  pub unchanged :
      (held : Bool) (e : Error) (m' : Manager)
      → m'.subscription_owners ≡ m.subscription_owners
      → Calls held o i m (err e, m')
  unchanged held e m' same = record {
    table = subst IsTable (sym same) t;
    through = λ h. cc;
    refused = λ f h p j. ap (λ x. contains p (owners_at j x)) same;
  }

  pub owned_here :
      (os : List String) (j : Identity)
      → owners_at i m.subscription_owners ≡ os
      → owners_at j m.subscription_owners
        ≡ (if same_identity i j then os else owners_at j m.subscription_owners)
  owned_here os j here = elim (Bool-cases (same_identity i j)) [
    | inl s ↦
        rw s
          (ap (λ k. owners_at k m.subscription_owners) (sym ((same_identity_iff i j).0 s)) ∙ here)
    | inr s ↦ rw s refl
  ]

  pub at_found :
      (os : List String)
      → find_key i m.subscription_owners ≡ some os
      → owners_at i m.subscription_owners ≡ os
  at_found os f = ap (λ x. or_else x []) f
