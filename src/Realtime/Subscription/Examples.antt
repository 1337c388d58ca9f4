-- ===== src/Realtime/Subscription/Examples.antt =====
-- Runs of the subscription manager, and each theorem at such an input.
use tw_stock_android_spec.Base.{
  ◌≤◌, ◌≡◌, refl, String, true, false, none, some, List, [], ◌∷◌, length, arith,
}
use tw_stock_android_spec.Base.Assoc.{string_eq}
use tw_stock_android_spec.Realtime.Quote.{tick, bid_ask, identity_eq}
use tw_stock_android_spec.Realtime.Subscription.{
  Capabilities, Manager, budget_exceeded, limit_of, is_full, subscribe_first, acquire_first,
  acquire_owned, acquire_subscription, release_last, release_left, release_owned,
  release_subscription, capacity_status,
}
use tw_stock_android_spec.Realtime.Subscription.Invariant.{
  IsValid, Call, acquire, release, steps, steps-IsValid,
}
use tw_stock_android_spec.Realtime.Subscription.Capacity.{steps_within_limit}

program : Unit {0}
unfolding budget_exceeded limit_of is_full subscribe_first acquire_first acquire_owned
    acquire_subscription release_last release_left release_owned release_subscription
    capacity_status
program = tt

abbrev same : String → String
same s = s

abbrev caps : Capabilities
caps = record {
  source_type = "WEBSOCKET";
  realtime_available = true;
  authorized = true;
  configured = true;
  subscription_hard_limit = some 200;
}

abbrev idle : Manager
idle = record {
  subscription_budget = some 2;
  provider_hard_limit = none;
  capacity_rejections = 0;
  subscription_owners = [];
  broker = [];
}

abbrev calls : List Call
calls =
    acquire caps "a" "TWSE:2330" tick true
    ∷ acquire caps "b" "TWSE:2330" tick true
    ∷ acquire caps "a" "TWSE:2317" tick false
    ∷ acquire caps "a" "TWSE:2454" bid_ask true
    ∷ acquire caps "c" "TWSE:1101" tick true
    ∷ release "a" "TWSE:2330" tick true
    ∷ release "a" "TWSE:2454" bid_ask false
    ∷ []

after : steps same calls idle ≡ record {
  subscription_budget = some 2;
  provider_hard_limit = some 200;
  capacity_rejections = 1;
  subscription_owners = (("TWSE:2330", tick), "b" ∷ []) ∷ (("TWSE:2454", bid_ask), "a" ∷ []) ∷ [];
  broker = ("TWSE:2330", tick) ∷ ("TWSE:2454", bid_ask) ∷ [];
}
unfolding program
after = refl

-- A budget of 0 is no budget: the provider's limit holds.
zero_budget : limit_of (some 0) (some 200) ≡ some 200
unfolding program
zero_budget = refl

idle-IsValid : IsValid idle
idle-IsValid = record { in_step = refl; owned = tt }

steps-IsValid_example : IsValid (steps same calls idle)
steps-IsValid_example = steps-IsValid same calls idle idle-IsValid

steps_within_limit_example : length (steps same calls idle).subscription_owners ≤ 2
unfolding limit_of
steps_within_limit_example =
    steps_within_limit same calls idle (some 200) 2 idle-IsValid
      (refl, (refl, (refl, (refl, (refl, (tt, (tt, tt))))))) refl (omega arith)
