-- ===== src/Watchlist/Places.antt =====
-- What a reordering of items comes to (backend/app/services/watchlist.py).
use tw_stock_android_spec.Base.{
  ℕ, ◌≡◌, refl, ap, ◌∙◌, Bool, true, false, Option, none, some, List, [], ◌∷◌, map, arith,
}
use tw_stock_android_spec.Base.Assoc.{nat_eq, Distinct}
use tw_stock_android_spec.Outcome.{Result, ok, err, raise_if, ◌>>◌, ◌>>=◌}
use tw_stock_android_spec.Watchlist.Types.{Watchlist, WatchlistItem, WatchlistTables}
use tw_stock_android_spec.Watchlist.Rows.{order_ids, keys_of, reorder}
use tw_stock_android_spec.Watchlist.Placed.{placed_mine, reorder-placed}
use tw_stock_android_spec.Watchlist.Repository.{
  is_item_of, is_unowned, move_item, move_group, with_items, with_groups, reorder_rows,
  reorder_watchlists,
}
use tw_stock_android_spec.Watchlist.Service.{
  expect, require_watchlist, invalid_reorder, has_twice, reorder_items, reorder_groups,
}

has_twice-Distinct : (ns : List ℕ) → has_twice ns ≡ false → Distinct ns
unfolding has_twice
has_twice-Distinct [] h = tt
has_twice-Distinct (n ∷ ns) h = (ground (arith, h), has_twice-Distinct ns (ground (arith, h)))

-- A check of the orders before the rows are written
ordered_ok :
    (b : Bool) (o : Option WatchlistTables) (t' : WatchlistTables)
    → (raise_if b invalid_reorder >> expect invalid_reorder o) ≡ ok t'
    → (b ≡ false) × (o ≡ some t')
ordered_ok true o t' h = cc
ordered_ok false none t' h = cc
ordered_ok false (some t) t' h = (refl, cc)

with_items-some :
    (t t' : WatchlistTables) (o : Option (List WatchlistItem))
    → with_items t o ≡ some t'
    → (items : List WatchlistItem) × ((o ≡ some items) × (t' ≡ record t { items = items }))
with_items-some t t' none h = cc
with_items-some t t' (some items) h = (items, (refl, cc))

with_groups-some :
    (t t' : WatchlistTables) (o : Option (List Watchlist))
    → with_groups t o ≡ some t'
    → (groups : List Watchlist) × ((o ≡ some groups) × (t' ≡ record t { watchlists = groups }))
with_groups-some t t' none h = cc
with_groups-some t t' (some groups) h = (groups, (refl, cc))

required :
    (r : Result Watchlist) (next : Result WatchlistTables) (t' : WatchlistTables)
    → (r >>= λ w. next) ≡ ok t'
    → next ≡ ok t'
required (err e) next t' h = cc
required (ok w) next t' h = h

module _ (now : ℕ) (orders : List (ℕ × ℕ)) where
  abbrev pub placed_item : ℕ → WatchlistItem → WatchlistItem
  placed_item watchlist_id =
      placed_mine (λ (i : WatchlistItem). i.id) (move_item now) (λ n i. refl)
        (is_item_of watchlist_id) orders

  abbrev pub placed_group : Watchlist → Watchlist
  placed_group =
      placed_mine (λ (w : Watchlist). w.id) (move_group now) (λ n w. refl) is_unowned orders

  -- A reordering that goes through, where the ids of items are distinct, gives every item of the
  -- list that the orders name its new place, and changes no other row of the tables, whatever
  -- other items the orders were to name.
  pub reorder_items_lem :
      (watchlist_id : ℕ) (t t' : WatchlistTables)
      → Distinct (keys_of (λ (i : WatchlistItem). i.id) t.items)
      → reorder_items now watchlist_id orders t ≡ ok t'
      → t' ≡ record t { items = map (placed_item watchlist_id) t.items }
  unfolding reorder_items reorder_rows
  reorder_items_lem watchlist_id t t' d h =
      let (fine, written) =
        ordered_ok (has_twice (order_ids orders)) (reorder_rows now watchlist_id orders t) t'
          (required (require_watchlist watchlist_id t) _ t' h) in
      let (items, (found, same)) =
        with_items-some t t'
          (reorder (λ (i : WatchlistItem). i.id) (move_item now) (is_item_of watchlist_id) orders
            t.items)
          written in
      same
      ∙ ap (λ is. record t { items = is })
          (reorder-placed (λ (i : WatchlistItem). i.id) (move_item now) (λ n i. refl)
            (is_item_of watchlist_id) orders t.items items d
            (has_twice-Distinct (order_ids orders) fine) found)

  -- So too the groups.
  pub reorder_groups_lem :
      (t t' : WatchlistTables)
      → Distinct (keys_of (λ (w : Watchlist). w.id) t.watchlists)
      → reorder_groups now orders t ≡ ok t'
      → t' ≡ record t { watchlists = map placed_group t.watchlists }
  unfolding reorder_groups reorder_watchlists
  reorder_groups_lem t t' d h =
      let (fine, written) =
        ordered_ok (has_twice (order_ids orders)) (reorder_watchlists now orders t) t' h in
      let (groups, (found, same)) =
        with_groups-some t t'
          (reorder (λ (w : Watchlist). w.id) (move_group now) is_unowned orders t.watchlists)
          written in
      same
      ∙ ap (λ ws. record t { watchlists = ws })
          (reorder-placed (λ (w : Watchlist). w.id) (move_group now) (λ n w. refl) is_unowned orders
            t.watchlists groups d (has_twice-Distinct (order_ids orders) fine) found)
