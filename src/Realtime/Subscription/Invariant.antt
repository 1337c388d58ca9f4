-- ===== src/Realtime/Subscription/Invariant.antt =====
-- What every sequence of calls keeps of the manager's subscriptions
-- (backend/app/services/realtime_provider_manager.py).
use tw_stock_android_spec.Base.{
  ◌≡◌, refl, ◌∙◌, ap, String, Bool, true, false, not, Option, none, some, List, [], ◌∷◌, ◌++◌, inl,
  inr, length, All, Bool-cases, if_both,
}
use tw_stock_android_spec.Base.Assoc.{
  contains, erase, find_key, put, delete, keys, keys-put_there, put-append_one, keys-append,
  delete-append_one, keys-delete, All-find_key, All-put, All-delete, string_eq,
}
use tw_stock_android_spec.Outcome.{Result}
use tw_stock_android_spec.Realtime.Quote.{QuoteType, Identity, identity_eq}
use tw_stock_android_spec.Realtime.Subscription.{
  Capabilities, Manager, budget_exceeded, limit_of, is_full, subscribe_first, acquire_first,
  acquire_owned, acquire_subscription, release_last, release_left, release_owned,
  release_subscription,
}

abbrev pub IsOwned : List String → Type 0
IsOwned [] = ⊥
IsOwned (o ∷ os) = Unit {0}

-- The broker is subscribed to exactly the identities in the table, in their order, and every
-- identity in the table has an owner.
pub record IsValid (m : Manager) : Type 0 where
  pub in_step : keys m.subscription_owners ≡ m.broker
  pub owned : All (λ e. IsOwned e.1) m.subscription_owners

subscribe_first-IsValid :
    (id : Identity) (owner : String) (done : Bool) (m : Manager)
    → find_key id m.subscription_owners ≡ none
    → IsValid m
    → IsValid (subscribe_first id owner done m).1
unfolding subscribe_first
subscribe_first-IsValid id owner true m new v = record {
  in_step =
      ap keys (put-append_one id (owner ∷ []) m.subscription_owners new)
      ∙ keys-append m.subscription_owners ((id, owner ∷ []) ∷ [])
      ∙ ap (λ ks. ks ++ id ∷ []) v.in_step;
  owned = All-put IsOwned id (owner ∷ []) m.subscription_owners v.owned tt;
}
subscribe_first-IsValid id owner false m new v =
    let same : delete id (put id [] m.subscription_owners) ≡ m.subscription_owners =
      ap (delete id) (put-append_one id [] m.subscription_owners new)
      ∙ delete-append_one id [] m.subscription_owners new in
    record { in_step = ap keys same ∙ v.in_step; owned = rw same v.owned }

acquire_first-IsValid :
    (caps : Capabilities) (id : Identity) (owner : String) (done : Bool) (m : Manager)
    → find_key id m.subscription_owners ≡ none
    → IsValid m
    → IsValid (acquire_first caps id owner done m).1
unfolding acquire_first
acquire_first-IsValid caps id owner done m new v =
    elim (Bool-cases (budget_exceeded m.subscription_budget caps.subscription_hard_limit)) [
      | inl over ↦ rw over v
      | inr fits ↦
          elim (Bool-cases (
            is_full (limit_of m.subscription_budget caps.subscription_hard_limit)
              (length m.subscription_owners))) [
                | inl full ↦ rw (fits, full) (record { in_step = v.in_step; owned = v.owned })
                | inr room ↦
                    rw (fits, room)
                      (subscribe_first-IsValid id owner done
                        (record m { provider_hard_limit = caps.subscription_hard_limit }) new
                        (record { in_step = v.in_step; owned = v.owned }))
              ]
    ]

put_there-IsValid :
    (id : Identity) (os : List String) (old : List String) (m : Manager)
    → find_key id m.subscription_owners ≡ some old
    → IsOwned os
    → IsValid m
    → IsValid (record m { subscription_owners = put id os m.subscription_owners })
put_there-IsValid id os old m there some_owner v = record {
  in_step = keys-put_there id os old m.subscription_owners there ∙ v.in_step;
  owned = All-put IsOwned id os m.subscription_owners v.owned some_owner;
}

append-IsOwned : (os : List String) (o : String) → IsOwned (os ++ o ∷ [])
append-IsOwned [] o = tt
append-IsOwned (x ∷ os) o = tt

acquire_owned-IsValid :
    (caps : Capabilities) (id : Identity) (owner : String) (done : Bool) (o : Option (List String))
    (m : Manager)
    → find_key id m.subscription_owners ≡ o
    → IsValid m
    → IsValid (acquire_owned caps id owner done o m).1
unfolding acquire_owned
acquire_owned-IsValid caps id owner done none m f v = acquire_first-IsValid caps id owner done m f v
acquire_owned-IsValid caps id owner done (some []) m f v =
    absurd (All-find_key IsOwned id [] m.subscription_owners v.owned f)
acquire_owned-IsValid caps id owner done (some (o ∷ os)) m f v =
    elim (Bool-cases (contains owner (o ∷ os))) [
      | inl there ↦ rw there v
      | inr new ↦ rw new (put_there-IsValid id ((o ∷ os) ++ owner ∷ []) (o ∷ os) m f tt v)
    ]

release_left-IsValid :
    (id : Identity) (owner : String) (done : Bool) (left old : List String) (m : Manager)
    → find_key id m.subscription_owners ≡ some old
    → IsValid m
    → IsValid (release_left id owner done left m).1
unfolding release_left release_last
release_left-IsValid id owner true [] old m f v = record {
  in_step = keys-delete id m.subscription_owners ∙ ap (erase id) v.in_step;
  owned = All-delete IsOwned id m.subscription_owners v.owned;
}
release_left-IsValid id owner false [] old m f v = put_there-IsValid id (owner ∷ []) old m f tt v
release_left-IsValid id owner done (o ∷ os) old m f v = put_there-IsValid id (o ∷ os) old m f tt v

release_owned-IsValid :
    (id : Identity) (owner : String) (done : Bool) (o : Option (List String)) (m : Manager)
    → find_key id m.subscription_owners ≡ o
    → IsValid m
    → IsValid (release_owned id owner done o m).1
unfolding release_owned
release_owned-IsValid id owner done none m f v = v
release_owned-IsValid id owner done (some os) m f v = elim (Bool-cases (contains owner os)) [
  | inl there ↦ rw there (release_left-IsValid id owner done (erase owner os) os m f v)
  | inr absent ↦ rw absent v
]

-- A call of the manager, with what the provider does if it is reached.
pub data Call : Type 0 where
  acquire :
      (caps : Capabilities) (owner key : String) (quote_type : QuoteType) (provider_ok : Bool)
      → Call
  release : (owner key : String) (quote_type : QuoteType) (provider_ok : Bool) → Call

abbrev pub step : (String → String) → Call → Manager → Manager
step upper (acquire caps owner key q done) m =
    (acquire_subscription upper caps owner key q done m).1
step upper (release owner key q done) m = (release_subscription upper owner key q done m).1

abbrev pub steps : (String → String) → List Call → Manager → Manager
steps upper [] m = m
steps upper (c ∷ cs) m = steps upper cs (step upper c m)

pub step-IsValid :
    (upper : String → String) (c : Call) (m : Manager) → IsValid m → IsValid (step upper c m)
unfolding acquire_subscription release_subscription
step-IsValid upper (acquire caps owner key q done) m v =
    if_both {A = Result (Unit {0}) × Manager} (λ r. IsValid r.1) (not caps.configured) _ _ v
      (acquire_owned-IsValid caps (upper key, q) owner done _ m refl v)
step-IsValid upper (release owner key q done) m v =
    release_owned-IsValid (upper key, q) owner done _ m refl v

-- After any calls, with the provider failing wherever it may, the broker is subscribed to exactly the
-- identities in the table of owners, and each of these has an owner.
pub steps-IsValid :
    (upper : String → String) (cs : List Call) (m : Manager)
    → IsValid m
    → IsValid (steps upper cs m)
steps-IsValid upper [] m v = v
steps-IsValid upper (c ∷ cs) m v =
    steps-IsValid upper cs (step upper c m) (step-IsValid upper c m v)
