-- ===== src/Watchlist/Calls.antt =====
-- The calls of `WatchlistService` on its tables (backend/app/services/watchlist.py).
use tw_stock_android_spec.Base.{ℕ, String, List, [], ◌∷◌}
use tw_stock_android_spec.Outcome.{Result, ok, err}
use tw_stock_android_spec.Watchlist.Types.{WatchlistTables}
use tw_stock_android_spec.Watchlist.Repository.{ItemValues}
use tw_stock_android_spec.Watchlist.Service.{
  NoteTexts, create_group, rename_group, delete_group, add_security, update_item, remove_item,
  reorder_groups, reorder_items,
}

-- The time and the ids that a call draws stand first.
pub data WatchlistCall : Type 0 where
  create : (id now : ℕ) → String → WatchlistCall
  rename : (now watchlist_id : ℕ) → String → WatchlistCall
  delete : (watchlist_id : ℕ) → WatchlistCall
  add : (id now watchlist_id : ℕ) → List ℕ → WatchlistCall
  change : (now watchlist_id item_id : ℕ) → ItemValues → WatchlistCall
  remove : (watchlist_id item_id : ℕ) → WatchlistCall
  place_groups : (now : ℕ) → List (ℕ × ℕ) → WatchlistCall
  place_items : (now watchlist_id : ℕ) → List (ℕ × ℕ) → WatchlistCall

-- A call that raises leaves the tables as they are.
abbrev pub after_call : WatchlistTables → Result WatchlistTables → WatchlistTables
after_call t (err e) = t
after_call t (ok t') = t'

unfoldable pub run_call : NoteTexts → WatchlistCall → WatchlistTables → WatchlistTables
run_call texts (create id now name) t = after_call t (create_group texts id now name t)
run_call texts (rename now watchlist_id name) t =
    after_call t (rename_group texts now watchlist_id name t)
run_call texts (delete watchlist_id) t = after_call t (delete_group watchlist_id t)
run_call texts (add id now watchlist_id matches) t =
    after_call t (add_security id now watchlist_id matches t)
run_call texts (change now watchlist_id item_id v) t =
    (update_item texts now watchlist_id item_id v t).1
run_call texts (remove watchlist_id item_id) t = after_call t (remove_item watchlist_id item_id t)
run_call texts (place_groups now orders) t = after_call t (reorder_groups now orders t)
run_call texts (place_items now watchlist_id orders) t =
    after_call t (reorder_items now watchlist_id orders t)

unfoldable pub run_all : NoteTexts → List WatchlistCall → WatchlistTables → WatchlistTables
run_all texts [] t = t
run_all texts (c ∷ calls) t = run_all texts calls (run_call texts c t)
