-- ===== src/Watchlist/Repository.antt =====
-- `SqlWatchlistRepository` (backend/app/repositories/sql_watchlist.py). The time and the id of a new
-- row are arguments. The order of a row is a natural number, as the routes ask.
use tw_stock_android_spec.Base.{
  ℕ, ◌+◌, String, Bool, not, ◌&&◌, Option, none, some, List, [], ◌∷◌, ◌++◌, ◌==◌, map, is_some,
  filter, any, find?, if◌then◌else◌,
}
use Prim.Native.Nat.{max}
use tw_stock_android_spec.Base.Assoc.{nat_eq}
use tw_stock_android_spec.Base.Decimal.{Decimal}
use tw_stock_android_spec.Outcome.{Result, ok, integrity_error, raise_if, ◌>>◌}
use tw_stock_android_spec.Watchlist.Rows.{reorder}
use tw_stock_android_spec.Watchlist.Types.{Watchlist, WatchlistItem, WatchlistTables}

-- Rows without a user that are not deleted
abbrev pub is_local : Option ℕ → Option ℕ → Bool
is_local user_id deleted_at = not (is_some user_id) && not (is_some deleted_at)

unfoldable pub get_watchlist : ℕ → WatchlistTables → Option Watchlist
get_watchlist id t = find? (λ w. w.id == id && is_local w.user_id w.deleted_at) t.watchlists

-- `coalesce(max(sort_order), -1) + 1`
abbrev pub next_order : List ℕ → ℕ
next_order [] = 0
next_order (n ∷ ns) = max (n + 1) (next_order ns)

unfoldable pub create_watchlist : ℕ → ℕ → String → WatchlistTables → WatchlistTables
create_watchlist id now name t =
    let local = filter (λ (w : Watchlist). is_local w.user_id w.deleted_at) t.watchlists in
    let row : Watchlist = record {
      id = id;
      name = name;
      sort_order = next_order (map (λ (w : Watchlist). w.sort_order) local);
      updated_at = now;
      user_id = none;
      deleted_at = none;
    } in
    record t { watchlists = t.watchlists ++ row ∷ [] }

unfoldable pub rename_watchlist : ℕ → ℕ → String → WatchlistTables → WatchlistTables
rename_watchlist id now name t = record t {
  watchlists =
      map
        (λ (w : Watchlist).
          if w.id == id && is_local w.user_id w.deleted_at
          then record w { name = name; updated_at = now }
          else w)
        t.watchlists;
}

-- The items of a deleted row go with it (`ondelete="CASCADE"`).
unfoldable pub delete_watchlist : ℕ → WatchlistTables → WatchlistTables
delete_watchlist id t =
    let gone = λ (w : Watchlist). w.id == id && not (is_some w.user_id) in
    if any gone t.watchlists
    then record t {
      watchlists = filter (λ w. not (gone w)) t.watchlists;
      items = filter (λ (i : WatchlistItem). not (i.watchlist_id == id)) t.items;
    }
    else t

abbrev pub is_item_of : ℕ → WatchlistItem → Bool
is_item_of watchlist_id i = i.watchlist_id == watchlist_id && not (is_some i.user_id)

unfoldable pub list_items : ℕ → WatchlistTables → List WatchlistItem
list_items watchlist_id t =
    filter (λ i. is_item_of watchlist_id i && not (is_some i.deleted_at)) t.items

-- A list has a security once, which the table's constraint sees to, rows that `list_items` passes over
-- included.
unfoldable pub add_item : ℕ → ℕ → ℕ → ℕ → WatchlistTables → Result WatchlistTables
add_item id now watchlist_id security_id t =
    let those = filter (λ (i : WatchlistItem). i.watchlist_id == watchlist_id) t.items in
    let row : WatchlistItem = record {
      id = id;
      watchlist_id = watchlist_id;
      security_id = security_id;
      sort_order = next_order (map (λ (i : WatchlistItem). i.sort_order) those);
      note = none;
      target_price = none;
      stop_price = none;
      add_price = none;
      updated_at = now;
      user_id = none;
      deleted_at = none;
    } in
    raise_if
      (any (λ (i : WatchlistItem). i.watchlist_id == watchlist_id && i.security_id == security_id)
        t.items)
      integrity_error
    >> ok (record t { items = t.items ++ row ∷ [] })

unfoldable pub delete_item : ℕ → ℕ → WatchlistTables → Option WatchlistTables
delete_item watchlist_id id t =
    let gone = λ (i : WatchlistItem). i.id == id && is_item_of watchlist_id i in
    if any gone t.items
    then some (record t { items = filter (λ i. not (gone i)) t.items })
    else none

abbrev pub move_item : ℕ → ℕ → WatchlistItem → WatchlistItem
move_item now place i = record i { sort_order = place; updated_at = now }

abbrev pub move_group : ℕ → ℕ → Watchlist → Watchlist
move_group now place w = record w { sort_order = place; updated_at = now }

abbrev pub is_unowned : Watchlist → Bool
is_unowned w = not (is_some w.user_id)

abbrev pub with_items : WatchlistTables → Option (List WatchlistItem) → Option WatchlistTables
with_items t none = none
with_items t (some items) = some (record t { items = items })

abbrev pub with_groups : WatchlistTables → Option (List Watchlist) → Option WatchlistTables
with_groups t none = none
with_groups t (some groups) = some (record t { watchlists = groups })

unfoldable pub reorder_rows : ℕ → ℕ → List (ℕ × ℕ) → WatchlistTables → Option WatchlistTables
reorder_rows now watchlist_id orders t =
    with_items t (
      reorder (λ (i : WatchlistItem). i.id) (move_item now) (is_item_of watchlist_id) orders
        t.items)

unfoldable pub reorder_watchlists : ℕ → List (ℕ × ℕ) → WatchlistTables → Option WatchlistTables
reorder_watchlists now orders t =
    with_groups t
      (reorder (λ (w : Watchlist). w.id) (move_group now) is_unowned orders t.watchlists)

-- The fields of an item that its user sets
pub record ItemValues : Type 0 where
  pub note : Option String
  pub target_price : Option Decimal
  pub stop_price : Option Decimal
  pub add_price : Option Decimal

unfoldable pub write_item : ℕ → ℕ → ItemValues → WatchlistItem → WatchlistItem
write_item now id v i =
    if i.id == id
    then record i {
      note = v.note;
      target_price = v.target_price;
      stop_price = v.stop_price;
      add_price = v.add_price;
      updated_at = now;
    }
    else i

-- The row is written and then read again, which a deleted row is not.
unfoldable pub write_found :
    ℕ → ItemValues → Option WatchlistItem → WatchlistTables → Option WatchlistItem × WatchlistTables
write_found now v none t = (none, t)
write_found now v (some i) t = (
  if is_some i.deleted_at then none else some (write_item now i.id v i),
  record t { items = map (write_item now i.id v) t.items },
)

unfoldable pub update_row :
    ℕ → ℕ → ℕ → ItemValues → WatchlistTables → Option WatchlistItem × WatchlistTables
update_row now watchlist_id id v t =
    write_found now v (find? (λ i. i.id == id && is_item_of watchlist_id i) t.items) t
