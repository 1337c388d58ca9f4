-- ===== src/Watchlist/Isolation.antt =====
-- The calls of the watchlists without a user and the rows of users (backend/app/services/watchlist.py).
use tw_stock_android_spec.Base.{ℕ, ◌≡◌, refl, sym, ◌∙◌, List, [], ◌∷◌, subst}
use tw_stock_android_spec.Outcome.{ok}
use tw_stock_android_spec.Watchlist.Types.{WatchlistTables}
use tw_stock_android_spec.Watchlist.Service.{NoteTexts, reorder_groups, reorder_items}
use tw_stock_android_spec.Watchlist.Places.{
  placed_item, placed_group, reorder_items_lem, reorder_groups_lem,
}
use tw_stock_android_spec.Watchlist.Calls.{WatchlistCall, run_call, run_all}
use tw_stock_android_spec.Watchlist.Kept.{Spares, filter-map, every}
use tw_stock_android_spec.Watchlist.Apart.{
  has_user_group, has_user_item, IsApart, KeepsUsers, KeepsUsers-refl, create_watchlist-KeepsUsers,
  rename_watchlist-KeepsUsers, delete_watchlist-KeepsUsers, add_item-KeepsUsers,
  delete_item-KeepsUsers, write_found-KeepsUsers, placed_item-Spares, placed_group-Spares,
}
use tw_stock_android_spec.Watchlist.Effects.{
  Effect, unchanged, created, renamed, deleted, added, written, removed, groups_placed,
  items_placed, run_call-Effect,
}
use tw_stock_android_spec.Watchlist.Fresh.{AllFresh, run_call-IsApart}

module _ (t : WatchlistTables) (a : IsApart t) where
  reorder_items-KeepsUsers :
      (now watchlist_id : ℕ) (orders : List (ℕ × ℕ)) (t' : WatchlistTables)
      → reorder_items now watchlist_id orders t ≡ ok t'
      → KeepsUsers t t'
  reorder_items-KeepsUsers now watchlist_id orders t' h =
      subst (KeepsUsers t) (sym (reorder_items_lem now orders watchlist_id t t' a.items h))
        (record {
          groups = refl;
          items = filter-map has_user_item (placed_item now orders watchlist_id) t.items (
              every (Spares has_user_item (placed_item now orders watchlist_id)) t.items
                (placed_item-Spares now watchlist_id orders));
        })

  reorder_groups-KeepsUsers :
      (now : ℕ) (orders : List (ℕ × ℕ)) (t' : WatchlistTables)
      → reorder_groups now orders t ≡ ok t'
      → KeepsUsers t t'
  reorder_groups-KeepsUsers now orders t' h =
      subst (KeepsUsers t) (sym (reorder_groups_lem now orders t t' a.groups h)) (record {
        groups = filter-map has_user_group (placed_group now orders) t.watchlists (
            every (Spares has_user_group (placed_group now orders)) t.watchlists
              (placed_group-Spares now orders));
        items = refl;
      })

  Effect-KeepsUsers : {c : WatchlistCall} {t' : WatchlistTables} → Effect t c t' → KeepsUsers t t'
  Effect-KeepsUsers unchanged = KeepsUsers-refl t
  Effect-KeepsUsers (created {id} {now} value) = create_watchlist-KeepsUsers id now value t
  Effect-KeepsUsers (renamed {now} {id} value) = rename_watchlist-KeepsUsers id now value t
  Effect-KeepsUsers (deleted {id} {w} there) = delete_watchlist-KeepsUsers id t w there a
  Effect-KeepsUsers (added {id} {now} {watchlist_id} security_id {t'} h) =
      add_item-KeepsUsers id now watchlist_id security_id t t' h
  Effect-KeepsUsers (written {now} {watchlist_id} {id} values) =
      write_found-KeepsUsers now watchlist_id id values _ t a refl
  Effect-KeepsUsers (removed {watchlist_id} {id} {t'} h) =
      delete_item-KeepsUsers watchlist_id id t t' h
  Effect-KeepsUsers (groups_placed {now} {orders} {t'} h) =
      reorder_groups-KeepsUsers now orders t' h
  Effect-KeepsUsers (items_placed {now} {watchlist_id} {orders} {t'} h) =
      reorder_items-KeepsUsers now watchlist_id orders t' h

KeepsUsers-trans : {s t u : WatchlistTables} → KeepsUsers s t → KeepsUsers t u → KeepsUsers s u
KeepsUsers-trans p q = record { groups = q.groups ∙ p.groups; items = q.items ∙ p.items }

-- Where ids stand once and no item of a user is in a list without one, and the ids that calls draw
-- are new, no sequence of calls of the service, refused ones among them, adds, changes, removes or
-- reorders a row of a user.
pub run_all-KeepsUsers :
    (texts : NoteTexts) (calls : List WatchlistCall) (t : WatchlistTables)
    → IsApart t
    → AllFresh texts calls t
    → KeepsUsers t (run_all texts calls t)
unfolding run_all
run_all-KeepsUsers texts [] t a new = KeepsUsers-refl t
run_all-KeepsUsers texts (c ∷ calls) t a new =
    KeepsUsers-trans (Effect-KeepsUsers t a (run_call-Effect texts t c)) (
      run_all-KeepsUsers texts calls (run_call texts c t) (run_call-IsApart texts c t a new.0)
        new.1)
