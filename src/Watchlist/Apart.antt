-- ===== src/Watchlist/Apart.antt =====
-- What an operation of the repository leaves of the rows of users
-- (backend/app/repositories/sql_watchlist.py).
use tw_stock_android_spec.Base.{
  ℕ, ◌≡◌, refl, String, Bool, true, false, not, ◌&&◌, Option, none, some, some_eq, List, ◌==◌,
  filter, find?, is_some, any, All, All-then, inl, inr, Bool-cases, if_both, subst, arith,
}
use tw_stock_android_spec.Base.Assoc.{nat_eq, Distinct, find_key}
use tw_stock_android_spec.Outcome.{ok}
use tw_stock_android_spec.Watchlist.Types.{Watchlist, WatchlistItem, WatchlistTables}
use tw_stock_android_spec.Watchlist.Rows.{keys_of}
use tw_stock_android_spec.Watchlist.Repository.{
  get_watchlist, create_watchlist, rename_watchlist, delete_watchlist, is_item_of, is_unowned,
  add_item, delete_item, ItemValues, write_item, write_found, move_item, move_group,
}
use tw_stock_android_spec.Watchlist.Placed.{placed_at}
use tw_stock_android_spec.Watchlist.Places.{placed_item, placed_group}
use tw_stock_android_spec.Watchlist.Kept.{
  Spares, filter-map, filter-filter, filter-append_other, every, found_only,
}

abbrev pub has_user_group : Watchlist → Bool
has_user_group w = is_some w.user_id

abbrev pub has_user_item : WatchlistItem → Bool
has_user_item i = is_some i.user_id

-- Ids stand once, and no item of a user is in a list without one.
pub record IsApart (t : WatchlistTables) : Type 0 where
  pub groups : Distinct (keys_of (λ (w : Watchlist). w.id) t.watchlists)
  pub items : Distinct (keys_of (λ (i : WatchlistItem). i.id) t.items)
  pub apart : All (λ i. has_user_item i ≡ true → get_watchlist i.watchlist_id t ≡ none) t.items

-- The rows of users are the same, in the same order.
pub record KeepsUsers (t t' : WatchlistTables) : Type 0 where
  pub groups : filter has_user_group t'.watchlists ≡ filter has_user_group t.watchlists
  pub items : filter has_user_item t'.items ≡ filter has_user_item t.items

pub KeepsUsers-refl : (t : WatchlistTables) → KeepsUsers t t
KeepsUsers-refl t = record { groups = refl; items = refl }

pub create_watchlist-KeepsUsers :
    (id now : ℕ) (name : String) (t : WatchlistTables)
    → KeepsUsers t (create_watchlist id now name t)
unfolding create_watchlist
create_watchlist-KeepsUsers id now name t = record {
  groups = filter-append_other has_user_group t.watchlists _ refl;
  items = refl;
}

pub rename_watchlist-KeepsUsers :
    (id now : ℕ) (name : String) (t : WatchlistTables)
    → KeepsUsers t (rename_watchlist id now name t)
unfolding rename_watchlist
rename_watchlist-KeepsUsers id now name t = record {
  groups =
      filter-map has_user_group _ t.watchlists (
        every (Spares has_user_group _) t.watchlists (λ w. (ground arith, λ h. ground (arith, h))));
  items = refl;
}

pub delete_watchlist-KeepsUsers :
    (id : ℕ) (t : WatchlistTables) (w : Watchlist)
    → get_watchlist id t ≡ some w
    → IsApart t
    → KeepsUsers t (delete_watchlist id t)
unfolding delete_watchlist
delete_watchlist-KeepsUsers id t w there a =
    if_both (KeepsUsers t)
      (any (λ (w : Watchlist). w.id == id && not (is_some w.user_id)) t.watchlists) _ _
      record {
        groups = filter-filter has_user_group _ t.watchlists (
            every
              (λ w. has_user_group w ≡ true → not (w.id == id && not (is_some w.user_id)) ≡ true)
              t.watchlists (λ w h. ground (arith, h)));
        items = filter-filter has_user_item _ t.items (
            All-then (λ i. has_user_item i ≡ true → get_watchlist i.watchlist_id t ≡ none)
              (λ i. has_user_item i ≡ true → not (i.watchlist_id == id) ≡ true) t.items elsewhere
              a.apart);
      }
      (KeepsUsers-refl t)
  where
    elsewhere :
        (i : WatchlistItem)
        → (has_user_item i ≡ true → get_watchlist i.watchlist_id t ≡ none)
        → has_user_item i ≡ true
        → not (i.watchlist_id == id) ≡ true
    elsewhere i h u = elim (Bool-cases (i.watchlist_id == id)) [
      | inl s ↦
          let same : i.watchlist_id ≡ id = ground (arith, s) in
          let gone = subst (λ k. get_watchlist k t ≡ none) same (h u) in cc
      | inr s ↦ rw s refl
    ]

pub add_item-KeepsUsers :
    (id now watchlist_id security_id : ℕ) (t t' : WatchlistTables)
    → add_item id now watchlist_id security_id t ≡ ok t'
    → KeepsUsers t t'
unfolding add_item
add_item-KeepsUsers id now watchlist_id security_id t t' h =
    elim (Bool-cases (
      any (λ (i : WatchlistItem). i.watchlist_id == watchlist_id && i.security_id == security_id)
        t.items)) [
          | inl s ↦ let no = rw s at h in cc
          | inr s ↦
              let done = rw s at h in
              subst (KeepsUsers t) (ok_is done)
                (record { groups = refl; items = filter-append_other has_user_item t.items _ refl })
        ]
  where
    ok_is : {a b : WatchlistTables} → ok a ≡ ok b → a ≡ b
    ok_is p = cc

pub delete_item-KeepsUsers :
    (watchlist_id id : ℕ) (t t' : WatchlistTables)
    → delete_item watchlist_id id t ≡ some t'
    → KeepsUsers t t'
unfolding delete_item
delete_item-KeepsUsers watchlist_id id t t' h =
    elim (Bool-cases
      (any (λ (i : WatchlistItem). i.id == id && is_item_of watchlist_id i) t.items)) [
        | inl s ↦
            let done = rw s at h in
            subst (KeepsUsers t) (some_eq done) (record {
              groups = refl;
              items = filter-filter has_user_item _ t.items (
                  every
                    (λ i.
                      has_user_item i ≡ true → not (i.id == id && is_item_of watchlist_id i) ≡ true)
                    t.items (λ i h. ground (arith, h)));
            })
        | inr s ↦ let no = rw s at h in cc
      ]

pub write_item-Spares :
    (now id watchlist_id : ℕ) (v : ItemValues) (i : WatchlistItem)
    → (i.id == id ≡ true → is_item_of watchlist_id i ≡ true)
    → Spares has_user_item (write_item now id v) i
unfolding write_item
write_item-Spares now id watchlist_id v i h = (ground arith, λ u. ground (arith, h, u))

pub write_found-KeepsUsers :
    (now watchlist_id id : ℕ) (v : ItemValues) (o : Option WatchlistItem) (t : WatchlistTables)
    → IsApart t
    → find? (λ i. i.id == id && is_item_of watchlist_id i) t.items ≡ o
    → KeepsUsers t (write_found now v o t).1
unfolding write_found
write_found-KeepsUsers now watchlist_id id v none t a h = KeepsUsers-refl t
write_found-KeepsUsers now watchlist_id id v (some i) t a h = record {
  groups = refl;
  items = filter-map has_user_item (write_item now i.id v) t.items (
      All-then (λ j. j.id == i.id ≡ true → is_item_of watchlist_id j ≡ true)
        (Spares has_user_item (write_item now i.id v)) t.items
        (write_item-Spares now i.id watchlist_id v)
        (found_only (λ (j : WatchlistItem). j.id) (is_item_of watchlist_id) id t.items i a.items
          h));
}

pub placed_item-Spares :
    (now watchlist_id : ℕ) (orders : List (ℕ × ℕ)) (i : WatchlistItem)
    → Spares has_user_item (placed_item now orders watchlist_id) i
placed_item-Spares now watchlist_id orders i = elim (Bool-cases (is_item_of watchlist_id i)) [
  | inl t ↦
      let mine : has_user_item i ≡ false = ground (arith, t) in
      rw t (moved (find_key i.id orders), λ h. cc)
  | inr t ↦ rw t (refl, λ h. refl)
]
  where
    moved :
        (o : Option ℕ)
        → has_user_item (placed_at (λ (j : WatchlistItem). j.id) (move_item now) o i)
          ≡ has_user_item i
    moved none = refl
    moved (some n) = refl

pub placed_group-Spares :
    (now : ℕ) (orders : List (ℕ × ℕ)) (w : Watchlist)
    → Spares has_user_group (placed_group now orders) w
placed_group-Spares now orders w = elim (Bool-cases (is_unowned w)) [
  | inl t ↦
      let mine : has_user_group w ≡ false = ground (arith, t) in
      rw t (moved (find_key w.id orders), λ h. cc)
  | inr t ↦ rw t (refl, λ h. refl)
]
  where
    moved :
        (o : Option ℕ)
        → has_user_group (placed_at (λ (v : Watchlist). v.id) (move_group now) o w)
          ≡ has_user_group w
    moved none = refl
    moved (some n) = refl
