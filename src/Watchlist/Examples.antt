-- ===== src/Watchlist/Examples.antt =====
-- Runs of the watchlists, and each theorem at such an input.
use tw_stock_android_spec.Base.{ℕ, ◌≡◌, refl, true, some, none, List, [], ◌∷◌, ◌++◌, length, map}
use tw_stock_android_spec.Outcome.{ok, err, app_error}
use tw_stock_android_spec.Watchlist.Types.{Watchlist, WatchlistItem, WatchlistTables}
use tw_stock_android_spec.Watchlist.Repository.{
  get_watchlist, create_watchlist, delete_watchlist, list_items, add_item, reorder_rows,
}
use tw_stock_android_spec.Watchlist.Rows.{place_rows, reorder}
use tw_stock_android_spec.Watchlist.Service.{
  NoteTexts, clean_name, create_group, delete_group, require_watchlist, has_twice, reorder_items,
  one_match, add_security, invalid_reorder,
}
use tw_stock_android_spec.Watchlist.Places.{placed_item, reorder_items_lem}
use tw_stock_android_spec.Base.Decimal.{of_nat}
use tw_stock_android_spec.Market.{final, stale, partial, unavailable}
use tw_stock_android_spec.Watchlist.Overview.{
  OverviewRow, row_status, price_above, overview_of, overviews, overview,
}
use tw_stock_android_spec.Watchlist.Calls.{
  WatchlistCall, create, add, delete, place_items, run_call, run_all,
}
use tw_stock_android_spec.Watchlist.Apart.{IsApart, KeepsUsers}
use tw_stock_android_spec.Watchlist.Isolation.{run_all-KeepsUsers}
use tw_stock_android_spec.Watchlist.Fresh.{AllFresh}

program : Unit {0}
unfolding get_watchlist list_items add_item place_rows reorder reorder_rows require_watchlist
    has_twice reorder_items one_match create_watchlist delete_watchlist clean_name create_group
    delete_group add_security run_call run_all row_status price_above overview_of overviews overview
program = tt

abbrev plain_group : ℕ → Watchlist
plain_group id = record {
  id = id;
  name = "core";
  sort_order = 0;
  updated_at = 0;
  user_id = none;
  deleted_at = none;
}

abbrev stock_item : ℕ → ℕ → ℕ → ℕ → WatchlistItem
stock_item id watchlist_id security_id sort_order = record {
  id = id;
  watchlist_id = watchlist_id;
  security_id = security_id;
  sort_order = sort_order;
  note = none;
  target_price = none;
  stop_price = none;
  add_price = none;
  updated_at = 0;
  user_id = none;
  deleted_at = none;
}

abbrev tables : WatchlistTables
tables = record {
  watchlists = plain_group 1 ∷ plain_group 2 ∷ [];
  items = stock_item 10 1 2330 0 ∷ stock_item 11 1 2317 1 ∷ stock_item 20 2 2330 0 ∷ [];
}

abbrev swap : List (ℕ × ℕ)
swap = (10, 1) ∷ (11, 0) ∷ []

abbrev swapped : WatchlistTables
swapped = record tables {
  items =
      record (stock_item 10 1 2330 1) { updated_at = 9 }
      ∷ record (stock_item 11 1 2317 0) { updated_at = 9 }
      ∷ stock_item 20 2 2330 0
      ∷ [];
}

swaps : reorder_items 9 1 swap tables ≡ ok swapped
unfolding program
swaps = refl

-- An item of another list refuses the whole order.
foreign : reorder_items 9 1 ((10, 1) ∷ (20, 0) ∷ []) tables ≡ err invalid_reorder
unfolding program
foreign = refl

twice : reorder_items 9 1 ((10, 1) ∷ (10, 0) ∷ []) tables ≡ err invalid_reorder
unfolding program
twice = refl

there_already : add_security 12 9 1 (2330 ∷ []) tables ≡ err (app_error "WATCHLIST_ITEM_EXISTS" 409)
unfolding program
there_already = refl

added :
    add_security 12 9 2 (2317 ∷ []) tables
    ≡ ok record tables {
      items =
          stock_item 10 1 2330 0
          ∷ stock_item 11 1 2317 1
          ∷ stock_item 20 2 2330 0
          ∷ record (stock_item 12 2 2317 1) { updated_at = 9 }
          ∷ [];
    }
unfolding program
added = refl

reorder_items_lem_example :
    swapped ≡ record tables { items = map (placed_item 9 swap 1) tables.items }
unfolding program
reorder_items_lem_example =
    reorder_items_lem 9 swap 1 tables swapped (refl, (refl, (refl, tt))) refl

-- A group of a user with an item
abbrev shared : WatchlistTables
shared = record tables {
  watchlists = tables.watchlists ++ record (plain_group 3) { user_id = some 7 } ∷ [];
  items = tables.items ++ record (stock_item 30 3 2330 0) { user_id = some 7 } ∷ [];
}

abbrev plain : NoteTexts
plain = record { strip = λ text. text; len = λ text. 0 }

shared-IsApart : IsApart shared
unfolding program
shared-IsApart = record {
  groups = (refl, (refl, (refl, tt)));
  items = (refl, (refl, (refl, (refl, tt))));
  apart = (λ h. cc, (λ h. cc, (λ h. cc, (λ h. refl, tt))));
}

abbrev calls : List WatchlistCall
calls =
    create 4 9 "growth"
    ∷ add 12 9 4 (2330 ∷ [])
    ∷ place_items 9 1 swap
    ∷ place_items 9 1 ((10, 1) ∷ (30, 0) ∷ [])
    ∷ delete 2
    ∷ []

calls_fresh : AllFresh plain calls shared
unfolding program
calls_fresh = ((refl, (refl, (refl, (refl, (refl, tt))))), (refl, (tt, (tt, (tt, tt)))))

run_all-KeepsUsers_example : KeepsUsers shared (run_all plain calls shared)
run_all-KeepsUsers_example = run_all-KeepsUsers plain calls shared shared-IsApart calls_fresh

-- The calls leave two lists, three items of theirs and the rows of the user.
after_calls :
    (length (run_all plain calls shared).watchlists ≡ 3)
    × (length (run_all plain calls shared).items ≡ 4)
unfolding program
after_calls = (refl, refl)

abbrev row : OverviewRow
row = record {
  price_status = some final;
  technical_status = some stale;
  credit_status = some final;
  close = some (of_nat 12);
  ma20 = some (of_nat 10);
  ma60 = none;
}

old_technicals :
    overview 1 (row ∷ record row { credit_status = none } ∷ record row { close = none } ∷ []) tables
    ≡ ok (
        record {
          row = row;
          data_status = stale;
          price_above_ma20 = some true;
          price_above_ma60 = none;
        }
        ∷ record {
          row = record row { credit_status = none };
          data_status = partial;
          price_above_ma20 = some true;
          price_above_ma60 = none;
        }
        ∷ record {
          row = record row { close = none };
          data_status = unavailable;
          price_above_ma20 = none;
          price_above_ma60 = none;
        }
        ∷ [])
unfolding program
old_technicals = refl
