-- ===== src/Watchlist/Invariant.antt =====
-- The ids and the owners of rows after an operation (backend/app/repositories/sql_watchlist.py).
use tw_stock_android_spec.Base.{
  ℕ, ◌≡◌, refl, String, Bool, true, false, not, ◌&&◌, Option, none, some, some_eq, [], ◌∷◌, ◌++◌,
  ◌==◌, map, filter, is_some, any, All, All-append, All-filter, All-then, inl, inr, Bool-cases,
  if_both, subst, arith,
}
use tw_stock_android_spec.Base.Assoc.{nat_eq, contains, Distinct-append_one}
use tw_stock_android_spec.Outcome.{ok, ok-injective}
use tw_stock_android_spec.Watchlist.Types.{Watchlist, WatchlistItem, WatchlistTables}
use tw_stock_android_spec.Watchlist.Rows.{keys_of}
use tw_stock_android_spec.Watchlist.Repository.{
  is_local, get_watchlist, create_watchlist, rename_watchlist, delete_watchlist, is_item_of,
  add_item, delete_item, ItemValues, write_item, write_found,
}
use tw_stock_android_spec.Watchlist.Keys.{
  keys_of-map, keys_of-append_one, Distinct-filter, find?-map, find?-filter, find?-append_one,
  All-map, All-both,
}
use tw_stock_android_spec.Watchlist.Apart.{has_user_item, IsApart}
use tw_stock_android_spec.Watchlist.Effects.{after_check}

abbrev pub group_key : Watchlist → ℕ
group_key w = w.id

abbrev pub item_key : WatchlistItem → ℕ
item_key i = i.id

-- What an item must be where the tables are apart
abbrev IsElsewhere : WatchlistTables → WatchlistItem → Type 0
IsElsewhere t i = has_user_item i ≡ true → get_watchlist i.watchlist_id t ≡ none

module _ (t : WatchlistTables) (a : IsApart t) where
  pub map_items-IsApart :
      (f : WatchlistItem → WatchlistItem)
      → ((i : WatchlistItem) → (f i).id ≡ i.id)
      → ((i : WatchlistItem) → has_user_item (f i) ≡ has_user_item i)
      → ((i : WatchlistItem) → (f i).watchlist_id ≡ i.watchlist_id)
      → IsApart (record t { items = map f t.items })
  unfolding get_watchlist
  map_items-IsApart f same_id same_user same_list = record {
    groups = a.groups;
    items = rw (keys_of-map item_key f t.items same_id) a.items;
    apart = All-map (IsElsewhere t) f t.items (
        All-then (IsElsewhere t) (λ i. IsElsewhere t (f i)) t.items
          (λ i h u.
            let user : has_user_item i ≡ true = rw (same_user i) at u in rw (same_list i) (h user))
          a.apart);
  }

  pub map_groups-IsApart :
      (f : Watchlist → Watchlist)
      → ((w : Watchlist) → (f w).id ≡ w.id)
      → ((w : Watchlist)
          → is_local (f w).user_id (f w).deleted_at ≡ is_local w.user_id w.deleted_at)
      → IsApart (record t { watchlists = map f t.watchlists })
  unfolding get_watchlist
  map_groups-IsApart f same_id same_local = record {
    groups = rw (keys_of-map group_key f t.watchlists same_id) a.groups;
    items = a.items;
    apart =
        All-then (IsElsewhere t) (IsElsewhere (record t { watchlists = map f t.watchlists }))
          t.items
          (λ i h u. find?-map _ f t.watchlists (λ w. rw (same_id w, same_local w) refl) (h u))
          a.apart;
  }

  filter_items-IsApart :
      (q : WatchlistItem → Bool) → IsApart (record t { items = filter q t.items })
  unfolding get_watchlist
  filter_items-IsApart q = record {
    groups = a.groups;
    items = Distinct-filter item_key q t.items a.items;
    apart = All-filter (IsElsewhere t) q t.items a.apart;
  }

  append_group-IsApart :
      (w : Watchlist)
      → contains w.id (keys_of group_key t.watchlists) ≡ false
      → All (λ (i : WatchlistItem). i.watchlist_id == w.id ≡ false) t.items
      → IsApart (record t { watchlists = t.watchlists ++ w ∷ [] })
  unfolding get_watchlist
  append_group-IsApart w new unused = record {
    groups =
        rw (keys_of-append_one group_key t.watchlists w)
          (Distinct-append_one (keys_of group_key t.watchlists) w.id a.groups new);
    items = a.items;
    apart =
        All-both (λ (i : WatchlistItem). i.watchlist_id == w.id ≡ false) (IsElsewhere t)
          (IsElsewhere (record t { watchlists = t.watchlists ++ w ∷ [] })) t.items
          (λ i n h u. find?-append_one _ t.watchlists w (h u) (ground (arith, n))) unused a.apart;
  }

  append_item-IsApart :
      (i : WatchlistItem)
      → contains i.id (keys_of item_key t.items) ≡ false
      → has_user_item i ≡ false
      → IsApart (record t { items = t.items ++ i ∷ [] })
  unfolding get_watchlist
  append_item-IsApart i new unowned = record {
    groups = a.groups;
    items =
        rw (keys_of-append_one item_key t.items i)
          (Distinct-append_one (keys_of item_key t.items) i.id a.items new);
    apart = All-append (IsElsewhere t) t.items (i ∷ []) a.apart (λ u. cc, tt);
  }

  pub create_watchlist-IsApart :
      (id now : ℕ) (name : String)
      → contains id (keys_of group_key t.watchlists) ≡ false
      → All (λ (i : WatchlistItem). i.watchlist_id == id ≡ false) t.items
      → IsApart (create_watchlist id now name t)
  unfolding create_watchlist
  create_watchlist-IsApart id now name new unused = append_group-IsApart _ new unused

  pub rename_watchlist-IsApart :
      (id now : ℕ) (name : String) → IsApart (rename_watchlist id now name t)
  unfolding rename_watchlist
  rename_watchlist-IsApart id now name =
      map_groups-IsApart _ (λ w. ground arith) (λ w. ground arith)

  pub delete_watchlist-IsApart : (id : ℕ) → IsApart (delete_watchlist id t)
  unfolding delete_watchlist get_watchlist
  delete_watchlist-IsApart id =
      if_both IsApart (any (λ (w : Watchlist). w.id == id && not (is_some w.user_id)) t.watchlists)
        _ _
        record {
          groups = Distinct-filter group_key _ t.watchlists a.groups;
          items = Distinct-filter item_key _ t.items a.items;
          apart = All-filter _ _ t.items (
              All-then (IsElsewhere t) _ t.items (λ i h u. find?-filter _ _ t.watchlists (h u))
                a.apart);
        }
        a

  pub add_item-IsApart :
      (id now watchlist_id security_id : ℕ) (t' : WatchlistTables)
      → contains id (keys_of item_key t.items) ≡ false
      → add_item id now watchlist_id security_id t ≡ ok t'
      → IsApart t'
  unfolding add_item
  add_item-IsApart id now watchlist_id security_id t' new h =
      subst IsApart (ok-injective (after_check _ _ _ t' h)) (append_item-IsApart _ new refl)

  pub delete_item-IsApart :
      (watchlist_id id : ℕ) (t' : WatchlistTables)
      → delete_item watchlist_id id t ≡ some t'
      → IsApart t'
  unfolding delete_item
  delete_item-IsApart watchlist_id id t' h =
      elim (Bool-cases
        (any (λ (i : WatchlistItem). i.id == id && is_item_of watchlist_id i) t.items)) [
          | inl s ↦ let done = rw s at h in subst IsApart (some_eq done) (filter_items-IsApart _)
          | inr s ↦ let no = rw s at h in cc
        ]

  pub write_found-IsApart :
      (now : ℕ) (v : ItemValues) (o : Option WatchlistItem) → IsApart (write_found now v o t).1
  unfolding write_found write_item
  write_found-IsApart now v none = a
  write_found-IsApart now v (some i) =
      map_items-IsApart (write_item now i.id v) (λ j. ground arith) (λ j. ground arith)
        (λ j. ground arith)
