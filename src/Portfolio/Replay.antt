-- ===== src/Portfolio/Replay.antt =====
-- `PortfolioAccountingService.replay` (backend/app/services/portfolio.py).
use tw_stock_android_spec.Base.{
  ℕ, Bool, ◌&&◌, ◌||◌, Option, none, some, List, [], ◌∷◌, map, ltb, ◌==◌, if◌then◌else◌, or_else,
  sort_by,
}
use tw_stock_android_spec.Base.Assoc.{find_key, put, nat_eq}
use tw_stock_android_spec.Base.Int.{ℤ, pos, ltb_ℤ, ◌+ℤ◌, ◌-ℤ◌, magnitude_zero}
use tw_stock_android_spec.Base.Decimal.{Decimal, of_int, of_nat, ◌+ᴰ◌, ◌-ᴰ◌, ◌*ᴰ◌, div}
use tw_stock_android_spec.Outcome.{
  Result, ok, Error, app_error, arithmetic_error, ◌>>=◌, ◌>>◌, raise_if, or_raise,
}
use tw_stock_android_spec.Portfolio.Types.{Side, buy, sell, Security, Transaction, Position}

abbrev pub zero_amount : Decimal
zero_amount = of_nat 0

abbrev pub insufficient : Error
insufficient = app_error "PORTFOLIO_INSUFFICIENT_POSITION" 422

-- `a / b`, where a division by zero raises
abbrev pub divide : Decimal → Decimal → Result Decimal
divide a b = or_raise (div a b) arithmetic_error

-- `transaction.price * transaction.quantity_shares`
abbrev pub amount : Transaction → Decimal
amount t = t.price *ᴰ of_int t.quantity_shares

unfoldable pub apply_buy : Transaction → Position → Result Position
apply_buy t p = do
  let quantity = p.quantity_shares +ℤ t.quantity_shares
  let basis = p.cost_basis +ᴰ amount t +ᴰ t.fee
  average ← divide basis (of_int quantity)
  ok (record p { quantity_shares = quantity; cost_basis = basis; average_cost = some average })

-- `None if quantity == 0 else basis / quantity`
unfoldable pub average_of : ℤ → Decimal → Result (Option Decimal)
average_of quantity basis =
    if magnitude_zero quantity
    then ok none
    else (do average ← divide basis (of_int quantity); ok (some average))

unfoldable pub apply_sell : Transaction → Position → Result Position
apply_sell t p = do
  raise_if (ltb_ℤ p.quantity_shares t.quantity_shares) insufficient
  average ← divide p.cost_basis (of_int p.quantity_shares)
  let sold_basis = average *ᴰ of_int t.quantity_shares
  let quantity = p.quantity_shares -ℤ t.quantity_shares
  let basis = if magnitude_zero quantity then zero_amount else p.cost_basis -ᴰ sold_basis
  next ← average_of quantity basis
  ok (record p {
    quantity_shares = quantity;
    cost_basis = basis;
    average_cost = next;
    realized_pnl = p.realized_pnl +ᴰ amount t -ᴰ t.fee -ᴰ sold_basis;
  })

unfoldable pub apply : Side → Transaction → Position → Result Position
apply buy t p = apply_buy t p
apply sell t p = apply_sell t p

abbrev pub opening : Security → Position
opening security = record {
  security = security;
  quantity_shares = pos 0;
  average_cost = none;
  cost_basis = zero_amount;
  realized_pnl = zero_amount;
}

abbrev pub Positions : Type 0
Positions = List (ℕ × Position)

abbrev pub position_of : Security → Positions → Position
position_of security states = or_else (find_key security.id states) (opening security)

-- `(executed_at, created_at, id.hex)`, in order
unfoldable pub is_before : Transaction → Transaction → Bool
is_before a b =
    ltb a.executed_at b.executed_at
    || a.executed_at == b.executed_at
      && (ltb a.created_at b.created_at || a.created_at == b.created_at && ltb a.id b.id)

-- The loop, from the positions so far.
unfoldable pub replay_from : List Transaction → Positions → Result Positions
replay_from [] states = ok states
replay_from (t ∷ ts) states = do
  next ← apply t.side t (position_of t.security states)
  replay_from ts (put t.security.id next states)

unfoldable pub replay_states : List Transaction → Result Positions
replay_states ts = replay_from (sort_by is_before ts) []

-- `replay`, whose answer is sorted by market and code; `key_before` compares those.
unfoldable pub replay : (Security → Security → Bool) → List Transaction → Result (List Position)
replay key_before ts = do
  states ← replay_states ts
  ok (sort_by (λ p q. key_before p.security q.security) (map (λ s. s.1) states))
