-- ===== src/Watchlist/Service.antt =====
-- `WatchlistService` (backend/app/services/watchlist.py), without `overview`. What
-- `SecurityRepository` finds is an argument.
use tw_stock_android_spec.Base.{
  ℕ, String, Bool, false, ◌||◌, Option, none, some, List, [], ◌∷◌, ◌==◌, str_eq, ltb, any,
  if◌then◌else◌,
}
use tw_stock_android_spec.Base.Assoc.{nat_eq, contains}
use tw_stock_android_spec.Base.Decimal.{Decimal, of_nat, leb_ᴰ}
use tw_stock_android_spec.Outcome.{Result, ok, err, Error, app_error, ◌>>=◌, ◌>>◌, raise_if}
use tw_stock_android_spec.Watchlist.Types.{Watchlist, WatchlistItem, WatchlistTables}
use tw_stock_android_spec.Watchlist.Rows.{order_ids}
use tw_stock_android_spec.Watchlist.Repository.{
  get_watchlist, create_watchlist, rename_watchlist, delete_watchlist, list_items, add_item,
  delete_item, reorder_rows, reorder_watchlists, ItemValues, update_row,
}

-- `strip`, and `len` of a text
pub record NoteTexts : Type 0 where
  pub strip : String → String
  pub len : String → ℕ

-- `if row is None: raise`
abbrev pub expect : {A : Type 0} → Error → Option A → Result A
expect e none = err e
expect e (some a) = ok a

unfoldable pub require_watchlist : ℕ → WatchlistTables → Result Watchlist
require_watchlist watchlist_id t =
    expect (app_error "WATCHLIST_NOT_FOUND" 404) (get_watchlist watchlist_id t)

unfoldable pub delete_group : ℕ → WatchlistTables → Result WatchlistTables
delete_group watchlist_id t =
    require_watchlist watchlist_id t >>= λ w. ok (delete_watchlist watchlist_id t)

abbrev pub invalid_reorder : Error
invalid_reorder = app_error "WATCHLIST_INVALID_REORDER" 422

-- `len({item[0] for item in orders}) != len(orders)`
unfoldable pub has_twice : List ℕ → Bool
has_twice [] = false
has_twice (n ∷ ns) = contains n ns || has_twice ns

unfoldable pub reorder_items : ℕ → ℕ → List (ℕ × ℕ) → WatchlistTables → Result WatchlistTables
reorder_items now watchlist_id orders t = require_watchlist watchlist_id t >>= λ w.
    raise_if (has_twice (order_ids orders)) invalid_reorder
    >> expect invalid_reorder (reorder_rows now watchlist_id orders t)

unfoldable pub reorder_groups : ℕ → List (ℕ × ℕ) → WatchlistTables → Result WatchlistTables
reorder_groups now orders t =
    raise_if (has_twice (order_ids orders)) invalid_reorder
    >> expect invalid_reorder (reorder_watchlists now orders t)

unfoldable pub remove_item : ℕ → ℕ → WatchlistTables → Result WatchlistTables
remove_item watchlist_id item_id t = require_watchlist watchlist_id t >>= λ w.
    expect (app_error "WATCHLIST_ITEM_NOT_FOUND" 404) (delete_item watchlist_id item_id t)

-- The one security that was found
unfoldable pub one_match : List ℕ → Result ℕ
one_match [] = err (app_error "SECURITY_NOT_FOUND" 404)
one_match (s ∷ []) = ok s
one_match (s ∷ r ∷ rest) = err (app_error "AMBIGUOUS_SECURITY" 409)

unfoldable pub add_security : ℕ → ℕ → ℕ → List ℕ → WatchlistTables → Result WatchlistTables
add_security id now watchlist_id matches t = require_watchlist watchlist_id t >>= λ w.
    one_match matches >>= λ security_id.
    raise_if (any (λ (i : WatchlistItem). i.security_id == security_id) (list_items watchlist_id t))
      (app_error "WATCHLIST_ITEM_EXISTS" 409)
    >> add_item id now watchlist_id security_id t

module _ (texts : NoteTexts) where
  unfoldable pub clean_name : String → Result String
  clean_name name =
      if str_eq (texts.strip name) ""
      then err (app_error "WATCHLIST_INVALID_NAME" 422)
      else ok (texts.strip name)

  unfoldable pub create_group : ℕ → ℕ → String → WatchlistTables → Result WatchlistTables
  create_group id now name t = clean_name name >>= λ value. ok (create_watchlist id now value t)

  unfoldable pub rename_group : ℕ → ℕ → String → WatchlistTables → Result WatchlistTables
  rename_group now watchlist_id name t = require_watchlist watchlist_id t >>= λ w.
      clean_name name >>= λ value. ok (rename_watchlist watchlist_id now value t)

  -- `note.strip() if note else None`, and `normalized or None`
  unfoldable pub normalized : Option String → Option String
  normalized none = none
  normalized (some note) =
      if str_eq note "" || str_eq (texts.strip note) "" then none else some (texts.strip note)

  abbrev pub is_too_long : Option String → Bool
  is_too_long none = false
  is_too_long (some note) = ltb 500 (texts.len note)

  abbrev pub is_invalid_price : Option Decimal → Bool
  is_invalid_price none = false
  is_invalid_price (some price) = leb_ᴰ price (of_nat 0)

  unfoldable pub updated :
      Result (Unit {0})
      → (WatchlistTables → Option WatchlistItem × WatchlistTables)
      → WatchlistTables
      → Result WatchlistItem × WatchlistTables
  updated (err e) write t = (err e, t)
  updated (ok checked) write t =
      let r = write t in (expect (app_error "WATCHLIST_ITEM_NOT_FOUND" 404) r.0, r.1)

  unfoldable pub update_item :
      ℕ → ℕ → ℕ → ItemValues → WatchlistTables → Result WatchlistItem × WatchlistTables
  update_item now watchlist_id item_id v t =
      updated
        (require_watchlist watchlist_id t >>= λ w.
          raise_if
            (is_invalid_price v.target_price
              || is_invalid_price v.stop_price
              || is_invalid_price v.add_price)
            (app_error "WATCHLIST_INVALID_PRICE" 422)
          >> raise_if (is_too_long (normalized v.note)) (app_error "WATCHLIST_NOTE_TOO_LONG" 422))
        (update_row now watchlist_id item_id (record v { note = normalized v.note })) t
