-- ===== src/Watchlist/Fresh.antt =====
-- The ids and the owners of rows over calls of the watchlists (backend/app/services/watchlist.py).
use tw_stock_android_spec.Base.{ℕ, ◌≡◌, refl, sym, false, List, [], ◌∷◌, ◌==◌, All, subst}
use tw_stock_android_spec.Base.Assoc.{nat_eq, contains}
use tw_stock_android_spec.Outcome.{ok}
use tw_stock_android_spec.Watchlist.Types.{Watchlist, WatchlistItem, WatchlistTables}
use tw_stock_android_spec.Watchlist.Rows.{keys_of}
use tw_stock_android_spec.Watchlist.Repository.{
  is_local, is_item_of, move_item, move_group, is_unowned,
}
use tw_stock_android_spec.Watchlist.Service.{NoteTexts, reorder_groups, reorder_items}
use tw_stock_android_spec.Watchlist.Placed.{placed_mine_same}
use tw_stock_android_spec.Watchlist.Places.{
  placed_item, placed_group, reorder_items_lem, reorder_groups_lem,
}
use tw_stock_android_spec.Watchlist.Calls.{WatchlistCall, create, add, run_call}
use tw_stock_android_spec.Watchlist.Apart.{has_user_item, IsApart}
use tw_stock_android_spec.Watchlist.Effects.{
  Effect, unchanged, created, renamed, deleted, added, written, removed, groups_placed,
  items_placed, run_call-Effect,
}
use tw_stock_android_spec.Watchlist.Invariant.{
  group_key, item_key, map_items-IsApart, map_groups-IsApart, create_watchlist-IsApart,
  rename_watchlist-IsApart, delete_watchlist-IsApart, add_item-IsApart, delete_item-IsApart,
  write_found-IsApart,
}

-- An id that a call draws is of no row, and no item is in a list with the id of a new one.
abbrev pub IsFresh : WatchlistCall → WatchlistTables → Type 0
IsFresh (create id now name) t =
    (contains id (keys_of (λ (w : Watchlist). w.id) t.watchlists) ≡ false)
    × All (λ (i : WatchlistItem). i.watchlist_id == id ≡ false) t.items
IsFresh (add id now watchlist_id matches) t =
    contains id (keys_of (λ (i : WatchlistItem). i.id) t.items) ≡ false
IsFresh _ t = Unit

module _ (t : WatchlistTables) (a : IsApart t) where
  reorder_items-IsApart :
      (now watchlist_id : ℕ) (orders : List (ℕ × ℕ)) (t' : WatchlistTables)
      → reorder_items now watchlist_id orders t ≡ ok t'
      → IsApart t'
  reorder_items-IsApart now watchlist_id orders t' h =
      subst IsApart (sym (reorder_items_lem now orders watchlist_id t t' a.items h)) (
        map_items-IsApart t a (placed_item now orders watchlist_id)
          (placed_mine_same item_key (move_item now) (λ n i. refl) (is_item_of watchlist_id) orders
            item_key (λ n i. refl))
          (placed_mine_same item_key (move_item now) (λ n i. refl) (is_item_of watchlist_id) orders
            has_user_item (λ n i. refl))
          (placed_mine_same item_key (move_item now) (λ n i. refl) (is_item_of watchlist_id) orders
            (λ (i : WatchlistItem). i.watchlist_id) (λ n i. refl)))

  reorder_groups-IsApart :
      (now : ℕ) (orders : List (ℕ × ℕ)) (t' : WatchlistTables)
      → reorder_groups now orders t ≡ ok t'
      → IsApart t'
  reorder_groups-IsApart now orders t' h =
      subst IsApart (sym (reorder_groups_lem now orders t t' a.groups h)) (
        map_groups-IsApart t a (placed_group now orders)
          (placed_mine_same group_key (move_group now) (λ n w. refl) is_unowned orders group_key
            (λ n w. refl))
          (placed_mine_same group_key (move_group now) (λ n w. refl) is_unowned orders
            (λ (w : Watchlist). is_local w.user_id w.deleted_at) (λ n w. refl)))

  Effect-IsApart :
      {c : WatchlistCall} {t' : WatchlistTables} → Effect t c t' → IsFresh c t → IsApart t'
  Effect-IsApart unchanged new = a
  Effect-IsApart (created {id} {now} value) new =
      create_watchlist-IsApart t a id now value new.0 new.1
  Effect-IsApart (renamed {now} {id} value) new = rename_watchlist-IsApart t a id now value
  Effect-IsApart (deleted {id} there) new = delete_watchlist-IsApart t a id
  Effect-IsApart (added {id} {now} {watchlist_id} security_id {t'} h) new =
      add_item-IsApart t a id now watchlist_id security_id t' new h
  Effect-IsApart (written {now} values) new = write_found-IsApart t a now values _
  Effect-IsApart (removed {watchlist_id} {id} {t'} h) new =
      delete_item-IsApart t a watchlist_id id t' h
  Effect-IsApart (groups_placed {now} {orders} {t'} h) new = reorder_groups-IsApart now orders t' h
  Effect-IsApart (items_placed {now} {watchlist_id} {orders} {t'} h) new =
      reorder_items-IsApart now watchlist_id orders t' h

pub run_call-IsApart :
    (texts : NoteTexts) (c : WatchlistCall) (t : WatchlistTables)
    → IsApart t
    → IsFresh c t
    → IsApart (run_call texts c t)
run_call-IsApart texts c t a new = Effect-IsApart t a (run_call-Effect texts t c) new

-- The ids of every call are new when it is made.
abbrev pub AllFresh : NoteTexts → List WatchlistCall → WatchlistTables → Type 0
AllFresh texts [] t = Unit
AllFresh texts (c ∷ calls) t = IsFresh c t × AllFresh texts calls (run_call texts c t)
