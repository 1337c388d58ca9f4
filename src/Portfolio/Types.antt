-- ===== src/Portfolio/Types.antt =====
-- The transactions, positions and holdings of backend/app/domain/portfolio.py.
use tw_stock_android_spec.Base.{ℕ, String, Option}
use tw_stock_android_spec.Base.Int.{ℤ}
use tw_stock_android_spec.Base.Decimal.{Decimal}
use tw_stock_android_spec.Market.{DataStatus}

pub data Side : Type 0 where
  buy sell : Side

pub data LotType : Type 0 where
  round_lot board_lot odd_lot : LotType

-- A security's id, its key and its name.
pub record Security : Type 0 where
  pub id : ℕ
  pub market : String
  pub code : String
  pub name : String

-- `created_at` and `id` are the stamp that the repository gives.
pub record Transaction : Type 0 where
  pub id : ℕ
  pub portfolio_id : ℕ
  pub security : Security
  pub side : Side
  pub executed_at : ℕ
  pub quantity_shares : ℤ
  pub price : Decimal
  pub fee : Decimal
  pub lot_type : LotType
  pub created_at : ℕ

pub record Position : Type 0 where
  pub security : Security
  pub quantity_shares : ℤ
  pub average_cost : Option Decimal
  pub cost_basis : Decimal
  pub realized_pnl : Decimal

pub record Holding : Type 0 where
  pub position : Position
  pub latest_price : Option Decimal
  pub price_as_of : Option ℕ
  pub price_data_status : DataStatus
  pub market_value : Option Decimal
  pub unrealized_pnl : Option Decimal
  pub unrealized_return_percent : Option Decimal
  pub allocation_percent : Option Decimal
