-- ===== src/Sync/Built.antt =====
-- What `_validate_and_build_model` promises of the row that it makes
-- (backend/app/services/cloud_sync.py).
use tw_stock_android_spec.Base.{ℕ, ◌≡◌, refl, none, some, arith}
use tw_stock_android_spec.Outcome.{ok}
use tw_stock_android_spec.Value.{Fields}
use tw_stock_android_spec.Sync.Types.{
  Entity, Row, Db, Runtime, watchlist, user_setting, alert_rule, saved_screener, watchlist_item,
  portfolio, portfolio_transaction,
}
use tw_stock_android_spec.Sync.Build.{
  new_row, build_watchlist, build_portfolio, build_screener, build_setting, build_item,
  transaction_row, build_transaction, alert_row, build_alert, validate_and_build,
}

-- The row that a valid payload makes: it has the key that was asked for, is the user's, and lives.
pub record IsBuilt (user : ℕ) (e : Entity) (id version : ℕ) (row : Row) : Type 0 where
  pub entity : row.entity ≡ e
  pub key : row.id ≡ id
  pub owner : row.user_id ≡ user
  pub first : row.version ≡ version
  pub alive : row.deleted_at ≡ none

new_row-IsBuilt :
    (e : Entity) (id user version now : ℕ) (a : Fields)
    → IsBuilt user e id version (new_row e id user version now a)
unfolding new_row
new_row-IsBuilt e id user version now a = record {
  entity = refl;
  key = refl;
  owner = refl;
  first = refl;
  alive = refl;
}

module _ (rt : Runtime) where
  build_item-IsBuilt :
      (db : Db) (user id : ℕ) (p : Fields) (v now : ℕ) {row : Row}
      → build_item rt db user id p v now ≡ ok (some row)
      → IsBuilt user watchlist_item id v row
  unfolding build_item new_row
  build_item-IsBuilt db user id p v now h = ground arith

  build_transaction-IsBuilt :
      (db : Db) (user id : ℕ) (p : Fields) (v now : ℕ) {row : Row}
      → build_transaction rt db user id p v now ≡ ok (some row)
      → IsBuilt user portfolio_transaction id v row
  unfolding build_transaction transaction_row new_row
  build_transaction-IsBuilt db user id p v now h = ground arith

  build_alert-IsBuilt :
      (db : Db) (user id : ℕ) (p : Fields) (v now : ℕ) {row : Row}
      → build_alert rt db user id p v now ≡ ok (some row)
      → IsBuilt user alert_rule id v row
  unfolding build_alert alert_row new_row
  build_alert-IsBuilt db user id p v now h = ground arith

  pub validate_and_build-IsBuilt :
      (db : Db) (user : ℕ) (e : Entity) (id : ℕ) (p : Fields) (v now : ℕ) {row : Row}
      → validate_and_build rt db user e id p v now ≡ ok (some row)
      → IsBuilt user e id v row
  unfolding validate_and_build build_watchlist build_portfolio build_screener build_setting new_row
  validate_and_build-IsBuilt db user watchlist id p v now h = ground arith
  validate_and_build-IsBuilt db user watchlist_item id p v now h =
      build_item-IsBuilt db user id p v now h
  validate_and_build-IsBuilt db user portfolio id p v now h = ground arith
  validate_and_build-IsBuilt db user portfolio_transaction id p v now h =
      build_transaction-IsBuilt db user id p v now h
  validate_and_build-IsBuilt db user alert_rule id p v now h =
      build_alert-IsBuilt db user id p v now h
  validate_and_build-IsBuilt db user saved_screener id p v now h = ground arith
  validate_and_build-IsBuilt db user user_setting id p v now h = ground arith
