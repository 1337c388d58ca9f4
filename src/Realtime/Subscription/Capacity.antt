-- ===== src/Realtime/Subscription/Capacity.antt =====
-- The capacity of the broker's subscriptions, and giving one back
-- (backend/app/services/realtime_provider_manager.py).
use tw_stock_android_spec.Base.{
  ℕ, ◌≤◌, ◌<◌, ◌≡◌, refl, ◌∙◌, ap, String, Bool, true, false, not, Option, none, some, List, [],
  ◌∷◌, ◌++◌, inl, inr, length, length-append, All, Bool-cases, if_both, arith,
}
use tw_stock_android_spec.Base.Assoc.{
  contains, erase, find_key, put, put-append_one, delete-append_one, length-delete-le,
  length-put_there, All-find_key, string_eq,
}
use tw_stock_android_spec.Outcome.{Result}
use tw_stock_android_spec.Realtime.Quote.{Identity, identity_eq}
use tw_stock_android_spec.Realtime.Subscription.{
  Capabilities, Manager, budget_exceeded, limit_of, is_full, subscribe_first, acquire_first,
  acquire_owned, acquire_subscription, release_last, release_left, release_owned,
  release_subscription,
}
use tw_stock_android_spec.Realtime.Subscription.Invariant.{
  IsOwned, IsValid, step-IsValid, Call, acquire, release, step, steps,
}

-- The provider that the call meets has the hard limit.
abbrev pub HasLimit : Option ℕ → Call → Type 0
HasLimit hard (acquire caps owner key q done) = caps.subscription_hard_limit ≡ hard
HasLimit hard (release owner key q done) = Unit {0}

-- The budget is untouched, and the table within the limit.
pub record Within (budget : Option ℕ) (limit : ℕ) (m : Manager) : Type 0 where
  pub same_budget : m.subscription_budget ≡ budget
  pub bounded : length m.subscription_owners ≤ limit

module _ (budget hard : Option ℕ) (limit : ℕ) (effective : limit_of budget hard ≡ some limit) where
  subscribe_first-Within :
      (id : Identity) (owner : String) (done : Bool) (m : Manager)
      → find_key id m.subscription_owners ≡ none
      → length m.subscription_owners < limit
      → Within budget limit m
      → Within budget limit (subscribe_first id owner done m).1
  unfolding subscribe_first
  subscribe_first-Within id owner true m new room w = record {
    same_budget = w.same_budget;
    bounded =
        rw (put-append_one id (owner ∷ []) m.subscription_owners new)
          (omega (arith, length-append m.subscription_owners ((id, owner ∷ []) ∷ [])));
  }
  subscribe_first-Within id owner false m new room w = record {
    same_budget = w.same_budget;
    bounded =
        rw
          (
            put-append_one id [] m.subscription_owners new,
            delete-append_one id [] m.subscription_owners new,
          )
          w.bounded;
  }

  put_there-Within :
      (id : Identity) (os old : List String) (m : Manager)
      → find_key id m.subscription_owners ≡ some old
      → Within budget limit m
      → Within budget limit (record m { subscription_owners = put id os m.subscription_owners })
  put_there-Within id os old m there w = record {
    same_budget = w.same_budget;
    bounded = rw (length-put_there id os old m.subscription_owners there) w.bounded;
  }

  -- The table that is not full has room under the limit.
  room_left :
      (m : Manager) (caps : Capabilities)
      → caps.subscription_hard_limit ≡ hard
      → Within budget limit m
      → is_full
          (limit_of m.subscription_budget caps.subscription_hard_limit)
          (length m.subscription_owners)
        ≡ false
      → length m.subscription_owners < limit
  unfolding is_full
  room_left m caps same w room =
      let e : limit_of m.subscription_budget caps.subscription_hard_limit ≡ some limit =
        ap (λ b. limit_of b caps.subscription_hard_limit) w.same_budget
        ∙ ap (limit_of budget) same
        ∙ effective in
      ground (arith, ap (λ l. is_full l (length m.subscription_owners)) e)

  acquire_first-Within :
      (caps : Capabilities) (id : Identity) (owner : String) (done : Bool) (m : Manager)
      → caps.subscription_hard_limit ≡ hard
      → find_key id m.subscription_owners ≡ none
      → Within budget limit m
      → Within budget limit (acquire_first caps id owner done m).1
  unfolding acquire_first
  acquire_first-Within caps id owner done m same new w =
      elim (Bool-cases (budget_exceeded m.subscription_budget caps.subscription_hard_limit)) [
        | inl over ↦ rw over w
        | inr fits ↦
            let test =
              is_full (limit_of m.subscription_budget caps.subscription_hard_limit)
                (length m.subscription_owners) in
            elim (Bool-cases test) [
              | inl full ↦
                  rw (fits, full) (record { same_budget = w.same_budget; bounded = w.bounded })
              | inr room ↦
                  rw (fits, room)
                    (subscribe_first-Within id owner done
                      (record m { provider_hard_limit = caps.subscription_hard_limit }) new
                      (room_left m caps same w room)
                      (record { same_budget = w.same_budget; bounded = w.bounded }))
            ]
      ]

  acquire_owned-Within :
      (caps : Capabilities) (id : Identity) (owner : String) (done : Bool)
      (o : Option (List String)) (m : Manager)
      → caps.subscription_hard_limit ≡ hard
      → find_key id m.subscription_owners ≡ o
      → IsValid m
      → Within budget limit m
      → Within budget limit (acquire_owned caps id owner done o m).1
  unfolding acquire_owned
  acquire_owned-Within caps id owner done none m same f v w =
      acquire_first-Within caps id owner done m same f w
  acquire_owned-Within caps id owner done (some []) m same f v w =
      absurd (All-find_key IsOwned id [] m.subscription_owners v.owned f)
  acquire_owned-Within caps id owner done (some (o ∷ os)) m same f v w =
      elim (Bool-cases (contains owner (o ∷ os))) [
        | inl there ↦ rw there w
        | inr new ↦ rw new (put_there-Within id ((o ∷ os) ++ owner ∷ []) (o ∷ os) m f w)
      ]

  release_left-Within :
      (id : Identity) (owner : String) (done : Bool) (left old : List String) (m : Manager)
      → find_key id m.subscription_owners ≡ some old
      → Within budget limit m
      → Within budget limit (release_left id owner done left m).1
  unfolding release_left release_last
  release_left-Within id owner true [] old m f w = record {
    same_budget = w.same_budget;
    bounded = omega (arith, w.bounded, length-delete-le id m.subscription_owners);
  }
  release_left-Within id owner false [] old m f w = put_there-Within id (owner ∷ []) old m f w
  release_left-Within id owner done (o ∷ os) old m f w = put_there-Within id (o ∷ os) old m f w

  release_owned-Within :
      (id : Identity) (owner : String) (done : Bool) (o : Option (List String)) (m : Manager)
      → find_key id m.subscription_owners ≡ o
      → Within budget limit m
      → Within budget limit (release_owned id owner done o m).1
  unfolding release_owned
  release_owned-Within id owner done none m f w = w
  release_owned-Within id owner done (some os) m f w = elim (Bool-cases (contains owner os)) [
    | inl there ↦ rw there (release_left-Within id owner done (erase owner os) os m f w)
    | inr absent ↦ rw absent w
  ]

  step-Within :
      (upper : String → String) (c : Call) (m : Manager)
      → HasLimit hard c
      → IsValid m
      → Within budget limit m
      → Within budget limit (step upper c m)
  unfolding acquire_subscription release_subscription
  step-Within upper (acquire caps owner key q done) m same v w =
      if_both {A = Result (Unit {0}) × Manager} (λ r. Within budget limit r.1) (not caps.configured)
        _ _ w (acquire_owned-Within caps (upper key, q) owner done _ m same refl v w)
  step-Within upper (release owner key q done) m same v w =
      release_owned-Within (upper key, q) owner done _ m refl w

  steps-Within :
      (upper : String → String) (cs : List Call) (m : Manager)
      → All (HasLimit hard) cs
      → IsValid m
      → Within budget limit m
      → Within budget limit (steps upper cs m)
  steps-Within upper [] m h v w = w
  steps-Within upper (c ∷ cs) m h v w =
      steps-Within upper cs (step upper c m) h.1 (step-IsValid upper c m v)
        (step-Within upper c m h.0 v w)

-- Under a provider's hard limit and a budget whose effective limit is `limit`, no sequence of calls
-- takes the subscriptions past it.
pub steps_within_limit :
    (upper : String → String) (cs : List Call) (m : Manager) (hard : Option ℕ) (limit : ℕ)
    → IsValid m
    → All (HasLimit hard) cs
    → limit_of m.subscription_budget hard ≡ some limit
    → length m.subscription_owners ≤ limit
    → length (steps upper cs m).subscription_owners ≤ limit
steps_within_limit upper cs m hard limit v uses effective fits =
    (steps-Within m.subscription_budget hard limit effective upper cs m uses v
      (record { same_budget = refl; bounded = fits })).bounded
