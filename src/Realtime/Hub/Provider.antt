-- ===== src/Realtime/Hub/Provider.antt =====
-- `RealtimeProviderManager` as the hub's manager (backend/app/services/realtime_provider_manager.py),
-- on texts in upper case, as the hub's keys are.
use tw_stock_android_spec.Base.{String, Bool, false, List, [], ◌∷◌}
use tw_stock_android_spec.Base.Assoc.{string_eq}
use tw_stock_android_spec.Outcome.{Result}
use tw_stock_android_spec.Realtime.Quote.{Identity, identity_eq}
use tw_stock_android_spec.Realtime.Subscription.{
  Capabilities, Manager, acquire_subscription, release_subscription,
}
use tw_stock_android_spec.Realtime.Subscription.Invariant.{IsValid, acquire, release, step-IsValid}
use tw_stock_android_spec.Realtime.Hub.Interface.{SubscriptionManager}
use tw_stock_android_spec.Realtime.Hub.Tables.{IsTable}
use tw_stock_android_spec.Realtime.Hub.Calls.{owns}
use tw_stock_android_spec.Realtime.Hub.Acquire.{acquire_subscription-Calls}
use tw_stock_android_spec.Realtime.Hub.Release.{release_subscription-Calls}

-- The manager, and for each of its calls to come whether the broker would let it through.
pub record Serving : Type 0 where
  pub manager : Manager
  pub answers : List Bool

-- Once the answers have run out the broker refuses.
abbrev pub answer : List Bool → Bool
answer [] = false
answer (b ∷ bs) = b

abbrev pub tail : List Bool → List Bool
tail [] = []
tail (b ∷ bs) = bs

abbrev pub serve :
    List Bool
    → (Bool → Manager → Result (Unit {0}) × Manager)
    → Manager
    → Result (Unit {0}) × Serving
serve bs call m = let r = call (answer bs) m in (r.0, record { manager = r.1; answers = tail bs })

-- The table has no key and no owner twice, and the broker is subscribed to what it has.
pub record IsKept (m : Manager) : Type 0 where
  pub table : IsTable m.subscription_owners
  pub valid : IsValid m

module _ (caps : Capabilities) where
  pub acquire-IsKept :
      (o : String) (i : Identity) (s : Serving)
      → IsKept s.manager
      → IsKept (acquire_subscription (λ k. k) caps o i.0 i.1 (answer s.answers) s.manager).1
  acquire-IsKept o i s k = record {
    table = (acquire_subscription-Calls o i s.manager k.table caps (answer s.answers)).table;
    valid = step-IsValid (λ k. k) (acquire caps o i.0 i.1 (answer s.answers)) s.manager k.valid;
  }

  pub release-IsKept :
      (o : String) (i : Identity) (s : Serving)
      → IsKept s.manager
      → IsKept (release_subscription (λ k. k) o i.0 i.1 (answer s.answers) s.manager).1
  release-IsKept o i s k = record {
    table = (release_subscription-Calls o i s.manager k.table (answer s.answers)).table;
    valid = step-IsValid (λ k. k) (release o i.0 i.1 (answer s.answers)) s.manager k.valid;
  }

  abbrev pub provider_manager : SubscriptionManager Serving
  provider_manager = record {
    acquire = λ o i s. serve s.answers (acquire_subscription (λ k. k) caps o i.0 i.1) s.manager;
    release = λ o i s. serve s.answers (release_subscription (λ k. k) o i.0 i.1) s.manager;
    owns = λ s. owns s.manager;
    IsSound = λ s. IsKept s.manager;
    acquire-IsSound = acquire-IsKept;
    release-IsSound = release-IsKept;
    acquire_ok = λ o i s t.
        (acquire_subscription-Calls o i s.manager t.table caps (answer s.answers)).through;
    acquire_err = λ o i s e t.
        (acquire_subscription-Calls o i s.manager t.table caps (answer s.answers)).refused e;
    release_ok =
        λ o i s t. (release_subscription-Calls o i s.manager t.table (answer s.answers)).through;
    release_err = λ o i s e t.
        (release_subscription-Calls o i s.manager t.table (answer s.answers)).refused e;
  }
