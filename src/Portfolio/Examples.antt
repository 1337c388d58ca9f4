-- ===== src/Portfolio/Examples.antt =====
-- A portfolio with one security, and each theorem on the accounting at such an input.
use tw_stock_android_spec.Base.{ℕ, ◌+◌, ◌≡◌, refl, true, ◌&&◌, List, [], ◌∷◌, ◌++◌, All, map, arith}
use tw_stock_android_spec.Base.Int.{pos, pos_part, neg_part, ◌+ℤ◌, ◌-ℤ◌, ◌*ℤ◌}
use tw_stock_android_spec.Base.Decimal.{
  of_nat, leb_ᴰ, round_half_even, fit, rounded, digits, divided, div, ◌+ᴰ◌, ◌-ᴰ◌, ◌*ᴰ◌,
}
use tw_stock_android_spec.Outcome.{Result, ok, err, app_error}
use tw_stock_android_spec.Portfolio.Types.{Side, buy, sell, odd_lot, Security, Transaction}
use tw_stock_android_spec.Portfolio.Replay.{
  apply_buy, average_of, apply_sell, apply, Positions, is_before, replay_from, replay_states,
}
use tw_stock_android_spec.Portfolio.Service.{
  Request, require_portfolio, only_match, is_invalid, transaction_of, create_transaction,
  delete_transaction,
}
use tw_stock_android_spec.Portfolio.Quantity.{shares, bought, sold, replay_states-shares}
use tw_stock_android_spec.Portfolio.Closed.{IsSettled, replay_states-IsSettled}
use tw_stock_android_spec.Portfolio.Ledger.{IsReplayable, create_transaction-IsReplayable}

program : Unit {0}
unfolding ◌+ℤ◌ ◌-ℤ◌ ◌*ℤ◌ round_half_even fit rounded digits divided div ◌+ᴰ◌ ◌-ᴰ◌ ◌*ᴰ◌ apply_buy
    average_of apply_sell apply is_before replay_from replay_states require_portfolio only_match
    is_invalid transaction_of create_transaction delete_transaction
program = tt

abbrev tsmc : Security
tsmc = record { id = 5; market = "TWSE"; code = "2330"; name = "TSMC" }

abbrev transaction : ℕ → Side → ℕ → ℕ → ℕ → Transaction
transaction id side at quantity price = record {
  id = id;
  portfolio_id = 1;
  security = tsmc;
  side = side;
  executed_at = at;
  quantity_shares = pos quantity;
  price = of_nat price;
  fee = of_nat 1;
  lot_type = odd_lot;
  created_at = at;
}

abbrev ledger : List Transaction
ledger = transaction 2 sell 20 10 120 ∷ transaction 1 buy 10 10 100 ∷ []

abbrev value_or : Result Positions → Positions
value_or (ok out) = out
value_or (err e) = []

abbrev positions : Positions
unfolding program
positions = value_or (replay_states ledger)

ledger_replays : replay_states ledger ≡ ok positions
unfolding program
ledger_replays = refl

-- 10 bought for 1001 in all and sold for 1199.
realized :
    map (λ s. leb_ᴰ s.1.realized_pnl (of_nat 198) && leb_ᴰ (of_nat 198) s.1.realized_pnl) positions
    ≡ true ∷ []
unfolding program
realized = refl

oversold :
    replay_states (transaction 1 sell 10 1 100 ∷ [])
    ≡ err (app_error "PORTFOLIO_INSUFFICIENT_POSITION" 422)
unfolding program
oversold = refl

replay_states-shares_example :
    pos_part (shares 5 positions) + sold 5 ledger ≡ neg_part (shares 5 positions) + bought 5 ledger
replay_states-shares_example = replay_states-shares 5 ledger ledger_replays

replay_states-IsSettled_example : All (λ s. IsSettled s.1) positions
replay_states-IsSettled_example =
    replay_states-IsSettled ledger (omega arith, (omega arith, tt)) ledger_replays

abbrev more : Request
more = record {
  side = buy;
  executed_at = 15;
  quantity_shares = pos 3;
  price = of_nat 90;
  fee = of_nat 0;
  lot_type = odd_lot;
}

abbrev created_or : Result (Transaction × List Transaction) → Transaction × List Transaction
created_or (ok out) = out
created_or (err e) = (transaction 0 buy 0 0 0, [])

abbrev created : Transaction × List Transaction
unfolding program
created = created_or (create_transaction 1 true (tsmc ∷ []) more 1000 9999 30 3 ledger)

creates : create_transaction 1 true (tsmc ∷ []) more 1000 9999 30 3 ledger ≡ ok created
unfolding program
creates = refl

create_transaction-IsReplayable_example :
    IsReplayable created.1 × (created.1 ≡ ledger ++ created.0 ∷ [])
create_transaction-IsReplayable_example =
    create_transaction-IsReplayable 1 true (tsmc ∷ []) more 1000 9999 30 3 ledger creates
      ((omega arith, omega arith), ((omega arith, omega arith), tt))

deletes : delete_transaction true 2 ledger ≡ ok (transaction 1 buy 10 10 100 ∷ [])
unfolding program
deletes = refl

delete_refused :
    delete_transaction true 1 ledger ≡ err (app_error "PORTFOLIO_INSUFFICIENT_POSITION" 422)
unfolding program
delete_refused = refl
