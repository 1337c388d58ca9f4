-- ===== src/Portfolio/Holdings.antt =====
-- `PortfolioService.holdings` and `summary` (backend/app/services/portfolio.py).
use Prim.Native.Nat.{min}
use tw_stock_android_spec.Base.{
  ℕ, Bool, false, not, ◌||◌, Option, none, some, List, [], ◌∷◌, ◌==◌, if◌then◌else◌, map, any, all,
  is_some, length,
}
use tw_stock_android_spec.Base.Int.{magnitude_zero}
use tw_stock_android_spec.Base.Decimal.{Decimal, of_int, of_nat, ◌+ᴰ◌, ◌-ᴰ◌, ◌*ᴰ◌, div}
use tw_stock_android_spec.Outcome.{Result, ok, ◌>>=◌, ◌>>◌}
use tw_stock_android_spec.Market.{
  DataStatus, live, delayed, preliminary, final, stale, partial, unavailable,
}
use tw_stock_android_spec.Portfolio.Types.{Security, Transaction, Position, Holding}
use tw_stock_android_spec.Portfolio.Replay.{zero_amount, replay}
use tw_stock_android_spec.Portfolio.Service.{require_portfolio}

-- The fields of a daily price that the holdings read.
pub record Price : Type 0 where
  pub close : Option Decimal
  pub as_of : ℕ
  pub data_status : DataStatus

-- The last price that has a close, with that close.
unfoldable pub latest_price_from : List Price → Option (Price × Decimal) → Option (Price × Decimal)
latest_price_from [] found = found
latest_price_from (p ∷ ps) found =
    latest_price_from ps (elim p.close [ none ↦ found | some close ↦ some (p, close) ])

-- `a / b * 100 if b else None`
unfoldable pub percent_of : Decimal → Decimal → Option Decimal
percent_of a b = elim (div a b) [ none ↦ none | some ratio ↦ some (ratio *ᴰ of_nat 100) ]

unfoldable pub holding_of : Position → Option (Price × Decimal) → Holding
holding_of position none = record {
  position = position;
  latest_price = none;
  price_as_of = none;
  price_data_status = unavailable;
  market_value = none;
  unrealized_pnl = none;
  unrealized_return_percent = none;
  allocation_percent = none;
}
holding_of position (some (latest, close)) =
    let value = close *ᴰ of_int position.quantity_shares in
    let unrealized = value -ᴰ position.cost_basis in
    record {
      position = position;
      latest_price = some close;
      price_as_of = some latest.as_of;
      price_data_status = latest.data_status;
      market_value = some value;
      unrealized_pnl = some unrealized;
      unrealized_return_percent = percent_of unrealized position.cost_basis;
      allocation_percent = none;
    }

-- The positions that are open, valued.
unfoldable pub value_positions : (Security → List Price) → List Position → List Holding
value_positions prices [] = []
value_positions prices (p ∷ ps) =
    let rest = value_positions prices ps in
    if magnitude_zero p.quantity_shares
    then rest
    else holding_of p (latest_price_from (prices p.security) none) ∷ rest

-- `sum(..., ZERO)` of what is there
unfoldable pub sum_from : Decimal → List (Option Decimal) → Decimal
sum_from total [] = total
sum_from total (none ∷ xs) = sum_from total xs
sum_from total (some x ∷ xs) = sum_from (total +ᴰ x) xs

unfoldable pub share_of : Decimal → Option Decimal → Option Decimal
share_of total none = none
share_of total (some value) = percent_of value total

unfoldable pub allocate : Decimal → List Holding → List Holding
allocate total [] = []
allocate total (h ∷ hs) =
    record h { allocation_percent = share_of total h.market_value } ∷ allocate total hs

unfoldable pub holdings_of : (Security → List Price) → List Position → List Holding
holdings_of prices positions =
    let valued = value_positions prices positions in
    allocate (sum_from zero_amount (map (λ h. h.market_value) valued)) valued

unfoldable pub holdings :
    (Security → Security → Bool)
    → (Security → List Price)
    → Bool
    → List Transaction
    → Result (List Holding)
holdings key_before prices there ts = do
  require_portfolio there
  positions ← replay key_before ts
  ok (holdings_of prices positions)

unfoldable pub status_index : DataStatus → ℕ
status_index live = 0
status_index delayed = 1
status_index preliminary = 2
status_index final = 3
status_index stale = 4
status_index partial = 5
status_index unavailable = 6

-- `len(set(xs)) > 1`
unfoldable pub has_two : List ℕ → Bool
has_two [] = false
has_two (x ∷ xs) = any (λ y. not (y == x)) xs

abbrev pub present : List (Option ℕ) → List ℕ
present [] = []
present (none ∷ xs) = present xs
present (some x ∷ xs) = x ∷ present xs

-- `min(dates) if dates else None`
unfoldable pub earliest : List ℕ → Option ℕ
earliest [] = none
earliest (x ∷ []) = some x
earliest (x ∷ y ∷ xs) = earliest (min x y ∷ xs)

unfoldable pub is_complete : List Holding → Bool
is_complete hs = all (λ h. is_some h.market_value) hs

unfoldable pub status_of : List Holding → DataStatus
status_of hs =
    if any (λ h. status_index h.price_data_status == 4) hs
    then stale
    else if not (is_complete hs)
        || has_two (present (map (λ h. h.price_as_of) hs))
        || has_two (map (λ h. status_index h.price_data_status) hs)
    then partial
    else final

pub record Summary : Type 0 where
  pub total_market_value : Option Decimal
  pub total_cost_basis : Decimal
  pub total_unrealized_pnl : Option Decimal
  pub total_realized_pnl : Decimal
  pub total_return_percent : Option Decimal
  pub holding_count : ℕ
  pub price_as_of : Option ℕ
  pub data_status : DataStatus

abbrev pub total : (Holding → Option Decimal) → List Holding → Decimal
total f hs = sum_from zero_amount (map f hs)

unfoldable pub total_value : List Holding → Option Decimal
total_value hs = if is_complete hs then some (total (λ h. h.market_value) hs) else none

abbrev pub gain : Option Decimal → Decimal → Option Decimal
gain none cost = none
gain (some value) cost = some (value -ᴰ cost)

unfoldable pub summary_of : List Position → List Holding → Summary
summary_of positions hs =
    let cost = total (λ h. some h.position.cost_basis) hs in
    record {
      total_market_value = total_value hs;
      total_cost_basis = cost;
      total_unrealized_pnl = gain (total_value hs) cost;
      total_realized_pnl = sum_from zero_amount (map (λ p. some p.realized_pnl) positions);
      total_return_percent = share_of cost (gain (total_value hs) cost);
      holding_count = length hs;
      price_as_of = earliest (present (map (λ h. h.price_as_of) hs));
      data_status = status_of hs;
    }

unfoldable pub summary :
    (Security → Security → Bool)
    → (Security → List Price)
    → Bool
    → List Transaction
    → Result Summary
summary key_before prices there ts = do
  require_portfolio there
  positions ← replay key_before ts
  hs ← holdings key_before prices there ts
  ok (summary_of positions hs)
