-- ===== src/Portfolio/Service.antt =====
-- `PortfolioService.create_transaction` and `delete_transaction` (backend/app/services/portfolio.py),
-- on the transactions of one portfolio as the repository lists them.
use tw_stock_android_spec.Base.{ℕ, Bool, not, ◌||◌, List, [], ◌∷◌, ◌++◌, ◌==◌, filter, length}
use tw_stock_android_spec.Base.Int.{ℤ, pos, leb_ℤ}
use tw_stock_android_spec.Base.Decimal.{Decimal, ltb_ᴰ, leb_ᴰ}
use tw_stock_android_spec.Outcome.{Result, ok, err, Error, app_error, ◌>>=◌, ◌>>◌, raise_if}
use tw_stock_android_spec.Portfolio.Types.{Side, LotType, Security, Transaction}
use tw_stock_android_spec.Portfolio.Replay.{zero_amount, replay_states}

-- What a caller asks to record.
pub record Request : Type 0 where
  pub side : Side
  pub executed_at : ℕ
  pub quantity_shares : ℤ
  pub price : Decimal
  pub fee : Decimal
  pub lot_type : LotType

abbrev pub not_found : Error
not_found = app_error "PORTFOLIO_NOT_FOUND" 404

-- `require_portfolio`, from whether the repository has the portfolio
unfoldable pub require_portfolio : Bool → Result (Unit {0})
require_portfolio there = raise_if (not there) not_found

-- The one security of a code, where the repository finds one.
unfoldable pub only_match : List Security → Result Security
only_match [] = err (app_error "SECURITY_NOT_FOUND" 404)
only_match (s ∷ []) = ok s
only_match (s ∷ t ∷ rest) = err (app_error "AMBIGUOUS_SECURITY" 409)

unfoldable pub is_invalid : Request → Bool
is_invalid r =
    leb_ℤ r.quantity_shares (pos 0) || leb_ᴰ r.price zero_amount || ltb_ᴰ r.fee zero_amount

-- A request as a transaction with the stamp `created_at` and `id`.
unfoldable pub transaction_of : ℕ → Security → Request → ℕ → ℕ → Transaction
transaction_of portfolio security r created_at id = record {
  id = id;
  portfolio_id = portfolio;
  security = security;
  side = r.side;
  executed_at = r.executed_at;
  quantity_shares = r.quantity_shares;
  price = r.price;
  fee = r.fee;
  lot_type = r.lot_type;
  created_at = created_at;
}

-- `latest` and `max_id` are the stamp of the candidate, `datetime.max` and the largest id. The
-- repository stores the request under a stamp of its own.
unfoldable pub create_transaction :
    ℕ
    → Bool
    → List Security
    → Request
    → (latest max_id : ℕ) → (now id : ℕ) → List Transaction
    → Result (Transaction × List Transaction)
create_transaction portfolio there matches r latest max_id now id ts = do
  require_portfolio there
  security ← only_match matches
  raise_if (is_invalid r) (app_error "PORTFOLIO_INVALID_TRANSACTION" 422)
  _ ← replay_states (ts ++ transaction_of portfolio security r latest max_id ∷ [])
  let stored = transaction_of portfolio security r now id
  ok (stored, ts ++ stored ∷ [])

abbrev pub without : ℕ → List Transaction → List Transaction
without id ts = filter (λ t. not (t.id == id)) ts

unfoldable pub delete_transaction : Bool → ℕ → List Transaction → Result (List Transaction)
delete_transaction there id ts = do
  require_portfolio there
  let remaining = without id ts
  raise_if (length remaining == length ts) (app_error "PORTFOLIO_TRANSACTION_NOT_FOUND" 404)
  _ ← replay_states remaining
  ok remaining
