-- ===== src/Realtime/Subscription/Return.antt =====
-- Giving a subscription back (backend/app/services/realtime_provider_manager.py).
use mathlib.Core.Path.{subst}
use tw_stock_android_spec.Base.{
  ◌≡◌, refl, sym, length, ◌∙◌, ap, String, true, false, Option, none, some, List, [], ◌∷◌, ◌++◌,
  if◌then◌else◌,
}
use tw_stock_android_spec.Base.Assoc.{
  contains, contains-append_one, contains-keys, erase, erase-append_one, find_key, put, delete,
  find_key-put_self, put-append_one, put_back, delete-append_one, All-find_key, beq_refl, string_eq,
}
use tw_stock_android_spec.Outcome.{Result, ok}
use tw_stock_android_spec.Realtime.Quote.{QuoteType, Identity, identity_eq}
use tw_stock_android_spec.Realtime.Subscription.{
  Capabilities, Manager, budget_exceeded, limit_of, is_full, subscribe_first, acquire_first,
  acquire_owned, join, acquire_subscription, release_last, release_left, release_owned,
  release_subscription,
}
use tw_stock_android_spec.Realtime.Subscription.Invariant.{IsOwned, IsValid}

-- The owner does not own the identity.
abbrev pub IsNew : String → Option (List String) → Type 0
IsNew owner none = Unit {0}
IsNew owner (some os) = contains owner os ≡ false

-- The tables of two managers agree.
abbrev pub SameTables : Manager → Manager → Type 0
SameTables m n = (m.subscription_owners ≡ n.subscription_owners) × (m.broker ≡ n.broker)

release_single :
    (id : Identity) (owner : String) (n : Manager)
    → release_owned id owner true (some (owner ∷ [])) n ≡ (
      ok tt,
      record n {
        subscription_owners = delete id n.subscription_owners;
        broker = erase id n.broker;
      },
    )
unfolding release_owned release_left release_last
release_single id owner n = rw (beq_refl owner)

release_one_more :
    (id : Identity) (owner o : String) (os : List String) (n : Manager)
    → contains owner (o ∷ os) ≡ false
    → release_owned id owner true (some ((o ∷ os) ++ owner ∷ [])) n
      ≡ (ok tt, record n { subscription_owners = put id (o ∷ os) n.subscription_owners })
unfolding release_owned release_left
release_one_more id owner o os n new =
    rw (contains-append_one owner (o ∷ os), erase-append_one owner (o ∷ os) new)

-- What a release by the owner does to a manager that the owner has just joined.
release_after :
    (id : Identity) (owner : String) (o : Option (List String)) (m n : Manager)
    → find_key id n.subscription_owners ≡ o
    → (r : Result (Unit {0}) × Manager) → release_owned id owner true o n ≡ r
    → SameTables r.1 m
    → SameTables (release_owned id owner true (find_key id n.subscription_owners) n).1 m
release_after id owner o m n found r done same =
    subst (λ x. SameTables x.1 m) (sym (ap (λ x. release_owned id owner true x n) found ∙ done))
      same

return_first :
    (id : Identity) (owner : String) (m : Manager)
    → find_key id m.subscription_owners ≡ none
    → IsValid m
    → let n = (subscribe_first id owner true m).1 in
      SameTables (release_owned id owner true (find_key id n.subscription_owners) n).1 m
unfolding subscribe_first
return_first id owner m new v =
    let d = m.subscription_owners in
    let n = record m {
      subscription_owners = put id (owner ∷ []) d;
      broker = m.broker ++ id ∷ [];
    } in
    release_after id owner (some (owner ∷ [])) m n (find_key-put_self id (owner ∷ []) d) _
      (release_single id owner n)
      (
        ap (delete id) (put-append_one id (owner ∷ []) d new)
            ∙ delete-append_one id (owner ∷ []) d new,
        erase-append_one id m.broker (ap (contains id) (sym v.in_step) ∙ contains-keys id d new),
      )

return_joined :
    (id : Identity) (owner o : String) (os : List String) (m : Manager)
    → find_key id m.subscription_owners ≡ some (o ∷ os)
    → contains owner (o ∷ os) ≡ false
    → let n = (join id owner (o ∷ os) m).1 in
      SameTables (release_owned id owner true (find_key id n.subscription_owners) n).1 m
return_joined id owner o os m there new =
    let d = m.subscription_owners in
    let more = (o ∷ os) ++ owner ∷ [] in
    let n = record m { subscription_owners = put id more d } in
    release_after id owner (some more) m n (find_key-put_self id more d) _
      (release_one_more id owner o os n new) (put_back id (o ∷ os) more d there, refl)

abbrev Returns : Identity → String → Manager → Manager → Type 0
Returns id owner m n =
    SameTables (release_owned id owner true (find_key id n.subscription_owners) n).1 m

return_owned :
    (caps : Capabilities) (id : Identity) (owner : String) (o : Option (List String)) (m : Manager)
    → find_key id m.subscription_owners ≡ o
    → IsValid m
    → budget_exceeded m.subscription_budget caps.subscription_hard_limit ≡ false
    → is_full
        (limit_of m.subscription_budget caps.subscription_hard_limit)
        (length m.subscription_owners)
      ≡ false
    → IsNew owner o
    → Returns id owner m (acquire_owned caps id owner true o m).1
unfolding acquire_owned acquire_first
return_owned caps id owner none m f v within room new =
    let m' = record m { provider_hard_limit = caps.subscription_hard_limit } in
    let done : acquire_first caps id owner true m ≡ subscribe_first id owner true m' =
      rw (within, room) in
    subst (λ r. Returns id owner m r.1) (sym done)
      (return_first id owner m' f (record { in_step = v.in_step; owned = v.owned }))
return_owned caps id owner (some []) m f v within room new =
    absurd (All-find_key IsOwned id [] m.subscription_owners v.owned f)
return_owned caps id owner (some (o ∷ os)) m f v within room new =
    subst (λ r. Returns id owner m r.1)
      (sym (ap (λ b. if b then (ok tt, m) else join id owner (o ∷ os) m) new))
      (return_joined id owner o os m f new)

-- An owner that takes a subscription and gives it back leaves the table of owners and the broker's
-- subscriptions as they were, whether it was the first owner of the identity or one more. The limit
-- must not be reached, and the provider must go along.
acquire_release :
    (upper : String → String) (caps : Capabilities) (owner key : String) (q : QuoteType)
    (m : Manager)
    → IsValid m
    → caps.configured ≡ true
    → budget_exceeded m.subscription_budget caps.subscription_hard_limit ≡ false
    → is_full
        (limit_of m.subscription_budget caps.subscription_hard_limit)
        (length m.subscription_owners)
      ≡ false
    → IsNew owner (find_key (upper key, q) m.subscription_owners)
    → SameTables
        (release_subscription upper owner key q true
          (acquire_subscription upper caps owner key q true m).1).1
        m
unfolding acquire_subscription release_subscription
acquire_release upper caps owner key q m v on within room new =
    let id : Identity = (upper key, q) in
    let done : acquire_subscription upper caps owner key q true m
        ≡ acquire_owned caps id owner true (find_key id m.subscription_owners) m =
      simp on in
    subst (λ r. Returns id owner m r.1) (sym done)
      (return_owned caps id owner _ m refl v within room new)
