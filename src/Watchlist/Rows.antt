-- ===== src/Watchlist/Rows.antt =====
-- Reordering the rows of a table: every named id must be found among the rows that may be moved, and
-- then each row is written by its id (`reorder_watchlists` and `reorder_items` of
-- backend/app/repositories/sql_watchlist.py).
use tw_stock_android_spec.Base.{
  ℕ, Bool, ◌&&◌, Option, none, some, List, [], ◌∷◌, ◌==◌, map, filter, length, if◌then◌else◌,
}
use tw_stock_android_spec.Base.Assoc.{nat_eq, contains}

abbrev pub order_ids : List (ℕ × ℕ) → List ℕ
order_ids [] = []
order_ids (o ∷ os) = o.0 ∷ order_ids os

module _ {A : Type 0} (key : A → ℕ) where
  abbrev pub keys_of : List A → List ℕ
  keys_of [] = []
  keys_of (a ∷ rows) = key a ∷ keys_of rows

-- `move` writes the place and the time of a row.
module _ {A : Type 0} (key : A → ℕ) (move : ℕ → A → A) where
  -- `UPDATE ... WHERE id = item_id`
  abbrev pub place_row : ℕ × ℕ → A → A
  place_row o a = if key a == o.0 then move o.1 a else a

  unfoldable pub place_rows : List (ℕ × ℕ) → List A → List A
  place_rows [] rows = rows
  place_rows (o ∷ orders) rows = place_rows orders (map (place_row o) rows)

  unfoldable pub reorder : (A → Bool) → List (ℕ × ℕ) → List A → Option (List A)
  reorder is_mine orders rows =
      if length (filter (λ a. contains (key a) (order_ids orders) && is_mine a) rows)
        == length (order_ids orders)
      then some (place_rows orders rows)
      else none
