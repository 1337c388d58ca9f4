-- ===== src/Realtime/Subscription.antt =====
-- `RealtimeProviderManager` (backend/app/services/realtime_provider_manager.py): the owners of each
-- broker subscription, under the manager's lock.
pub mod Invariant
pub mod Capacity
pub mod Return
mod Examples
use Prim.Native.Nat.{max}
use tw_stock_android_spec.Base.{
  ℕ, ◌+◌, ◌-◌, String, Bool, true, false, not, ◌&&◌, ◌||◌, Option, none, some, List, [], ◌∷◌, ◌++◌,
  ◌==◌, ltb, leb, if◌then◌else◌, length,
}
use tw_stock_android_spec.Base.Assoc.{Eq, contains, erase, find_key, put, delete, string_eq}
use tw_stock_android_spec.Outcome.{Result, ok, err, Error, subscription_error, capacity_error}
use tw_stock_android_spec.Realtime.Quote.{QuoteType, Identity, identity_eq}

-- The fields of `ProviderCapabilities` that the manager reads.
pub record Capabilities : Type 0 where
  pub source_type : String
  pub realtime_available : Bool
  pub authorized : Bool
  pub configured : Bool
  pub subscription_hard_limit : Option ℕ

-- `broker` is what the provider is subscribed to; the manager reaches it by its calls alone.
pub record Manager : Type 0 where
  pub subscription_budget : Option ℕ
  pub provider_hard_limit : Option ℕ
  pub capacity_rejections : ℕ
  pub subscription_owners : List (Identity × List String)
  pub broker : List Identity

-- `_validate_budget`
unfoldable pub budget_exceeded : Option ℕ → Option ℕ → Bool
budget_exceeded (some budget) (some hard) = ltb hard budget
budget_exceeded _ _ = false

-- `self.subscription_budget or hard_limit`, by which a budget of 0 is none
unfoldable pub limit_of : Option ℕ → Option ℕ → Option ℕ
limit_of none hard = hard
limit_of (some budget) hard = if budget == 0 then hard else some budget

-- `limit is not None and len(self._subscription_owners) >= limit`
unfoldable pub is_full : Option ℕ → ℕ → Bool
is_full none active = false
is_full (some limit) active = leb limit active

-- The call of the provider, which goes through or raises; one that raises subscribes to nothing.
unfoldable pub subscribe_first : Identity → String → Bool → Manager → Result (Unit {0}) × Manager
subscribe_first identity owner true m = (
  ok tt,
  record m {
    subscription_owners = put identity (owner ∷ []) m.subscription_owners;
    broker = m.broker ++ identity ∷ [];
  },
)
subscribe_first identity owner false m = (
  err subscription_error,
  record m { subscription_owners = delete identity (put identity [] m.subscription_owners) },
)

-- The first owner of an identity, after the test of the capacity.
unfoldable pub acquire_first :
    Capabilities → Identity → String → Bool → Manager → Result (Unit {0}) × Manager
acquire_first caps identity owner provider_ok m =
    if budget_exceeded m.subscription_budget caps.subscription_hard_limit
    then (err capacity_error, m)
    else let m' = record m { provider_hard_limit = caps.subscription_hard_limit } in
      if is_full (limit_of m.subscription_budget caps.subscription_hard_limit)
        (length m.subscription_owners)
      then (err capacity_error, record m' { capacity_rejections = m.capacity_rejections + 1 })
      else subscribe_first identity owner provider_ok m'

-- One more owner of an identity that has some.
abbrev pub join : Identity → String → List String → Manager → Result (Unit {0}) × Manager
join identity owner owners m = (
  ok tt,
  record m { subscription_owners = put identity (owners ++ owner ∷ []) m.subscription_owners },
)

-- From the owners that the table has for the identity: the first owner, one that owns it already,
-- or one more.
unfoldable pub acquire_owned :
    Capabilities
    → Identity
    → String
    → Bool
    → Option (List String)
    → Manager
    → Result (Unit {0}) × Manager
acquire_owned caps identity owner provider_ok none m =
    acquire_first caps identity owner provider_ok m
acquire_owned caps identity owner provider_ok (some []) m =
    acquire_first caps identity owner provider_ok m
acquire_owned caps identity owner provider_ok (some (o ∷ os)) m =
    if contains owner (o ∷ os) then (ok tt, m) else join identity owner (o ∷ os) m

-- The last owner leaves: the provider is told, and an owner whose call raises is put back.
unfoldable pub release_last : Identity → String → Bool → Manager → Result (Unit {0}) × Manager
release_last identity owner true m = (
  ok tt,
  record m {
    subscription_owners = delete identity m.subscription_owners;
    broker = erase identity m.broker;
  },
)
release_last identity owner false m = (
  err subscription_error,
  record m { subscription_owners = put identity (owner ∷ []) m.subscription_owners },
)

-- `owners.remove(owner)` has left these.
unfoldable pub release_left :
    Identity → String → Bool → List String → Manager → Result (Unit {0}) × Manager
release_left identity owner provider_ok [] m = release_last identity owner provider_ok m
release_left identity owner provider_ok (o ∷ os) m =
    (ok tt, record m { subscription_owners = put identity (o ∷ os) m.subscription_owners })

unfoldable pub release_owned :
    Identity → String → Bool → Option (List String) → Manager → Result (Unit {0}) × Manager
release_owned identity owner provider_ok none m = (ok tt, m)
release_owned identity owner provider_ok (some owners) m =
    if not (contains owner owners)
    then (ok tt, m)
    else release_left identity owner provider_ok (erase owner owners) m

module _ (upper : String → String) where
  -- `acquire_subscription`; `provider_ok` says whether the provider's call goes through.
  unfoldable pub acquire_subscription :
      Capabilities → String → String → QuoteType → Bool → Manager → Result (Unit {0}) × Manager
  acquire_subscription caps owner security_key quote_type provider_ok m =
      let identity : Identity = (upper security_key, quote_type) in
      if not caps.configured
      then (err subscription_error, m)
      else acquire_owned caps identity owner provider_ok (find_key identity m.subscription_owners) m

  unfoldable pub release_subscription :
      String → String → QuoteType → Bool → Manager → Result (Unit {0}) × Manager
  release_subscription owner security_key quote_type provider_ok m =
      let identity : Identity = (upper security_key, quote_type) in
      release_owned identity owner provider_ok (find_key identity m.subscription_owners) m

pub record CapacityStatus : Type 0 where
  pub budget : Option ℕ
  pub provider_hard_limit : Option ℕ
  pub active_resources : ℕ
  pub remaining_slots : Option ℕ
  pub capacity_rejections : ℕ

-- `max(limit - active, 0) if limit is not None else None`
abbrev pub slots : Option ℕ → ℕ → Option ℕ
slots none active = none
slots (some limit) active = some (limit - active)

unfoldable pub capacity_status : Manager → CapacityStatus
capacity_status m =
    let active = length m.subscription_owners in
    record {
      budget = m.subscription_budget;
      provider_hard_limit = m.provider_hard_limit;
      active_resources = active;
      remaining_slots = slots (limit_of m.subscription_budget m.provider_hard_limit) active;
      capacity_rejections = m.capacity_rejections;
    }
