-- ===== src/Realtime/Hub/Session.antt =====
-- A connection of the hub (backend/app/services/realtime_hub.py).
use tw_stock_android_spec.Base.{ℕ, String, Bool, List, [], ◌∷◌, ◌++◌, if◌then◌else◌}
use tw_stock_android_spec.Base.Assoc.{string_eq, contains}
use tw_stock_android_spec.Realtime.Quote.{Identity, identity_eq}

pub record ConnectionSession : Type 0 where
  pub id : ℕ
  pub owner_id : String
  pub max_subscriptions : ℕ
  pub subscriptions : List String
  pub provider_subscriptions : List Identity
  pub channels : List String
  pub is_alive : Bool

abbrev pub add_identity : Identity → ConnectionSession → ConnectionSession
add_identity i s = record s { provider_subscriptions = s.provider_subscriptions ++ i ∷ [] }

unfoldable pub add_key : String → List String → List String
add_key key keys = if contains key keys then keys else keys ++ key ∷ []

-- The errors that a connection is sent
pub data Message : Type 0 where
  invalid_target : Message
  limit_reached : ℕ → Message
