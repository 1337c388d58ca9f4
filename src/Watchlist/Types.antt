-- ===== src/Watchlist/Types.antt =====
-- The tables of watchlists and their items (backend/app/repositories/models.py).
use tw_stock_android_spec.Base.{ℕ, String, Option, List}
use tw_stock_android_spec.Base.Decimal.{Decimal}

pub record Watchlist : Type 0 where
  pub id : ℕ
  pub name : String
  pub sort_order : ℕ
  pub updated_at : ℕ
  pub user_id : Option ℕ
  pub deleted_at : Option ℕ

pub record WatchlistItem : Type 0 where
  pub id : ℕ
  pub watchlist_id : ℕ
  pub security_id : ℕ
  pub sort_order : ℕ
  pub note : Option String
  pub target_price : Option Decimal
  pub stop_price : Option Decimal
  pub add_price : Option Decimal
  pub updated_at : ℕ
  pub user_id : Option ℕ
  pub deleted_at : Option ℕ

pub record WatchlistTables : Type 0 where
  pub watchlists : List Watchlist
  pub items : List WatchlistItem
