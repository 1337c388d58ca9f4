-- ===== src/Watchlist/Effects.antt =====
-- What a call of the watchlists does to the tables: nothing, or one operation of the repository
-- (backend/app/services/watchlist.py).
use tw_stock_android_spec.Base.{
  ℕ, ◌≡◌, refl, String, Bool, true, false, ◌&&◌, Option, none, some, List, ◌==◌, find?, subst,
}
use tw_stock_android_spec.Base.Assoc.{nat_eq}
use tw_stock_android_spec.Outcome.{Result, ok, err, Error, raise_if, ◌>>◌, ok-injective, >>=-eq-ok}
use tw_stock_android_spec.Watchlist.Types.{Watchlist, WatchlistItem, WatchlistTables}
use tw_stock_android_spec.Watchlist.Repository.{
  get_watchlist, create_watchlist, rename_watchlist, delete_watchlist, is_item_of, add_item,
  delete_item, ItemValues, write_found, update_row,
}
use tw_stock_android_spec.Watchlist.Service.{
  NoteTexts, expect, require_watchlist, one_match, clean_name, create_group, rename_group,
  delete_group, add_security, updated, update_item, remove_item, reorder_groups, reorder_items,
}
use tw_stock_android_spec.Watchlist.Calls.{
  WatchlistCall, create, rename, delete, add, change, remove, place_groups, place_items, after_call,
  run_call,
}

abbrev pub found : ℕ → ℕ → WatchlistTables → Option WatchlistItem
found watchlist_id id t = find? (λ i. i.id == id && is_item_of watchlist_id i) t.items

pub data Effect (t : WatchlistTables) : WatchlistCall → WatchlistTables → Type 0 where
  unchanged : {c : WatchlistCall} → Effect t c t
  created :
      {id now : ℕ} {name : String} (value : String)
      → Effect t (create id now name) (create_watchlist id now value t)
  renamed :
      {now id : ℕ} {name : String} (value : String)
      → Effect t (rename now id name) (rename_watchlist id now value t)
  deleted :
      {id : ℕ} {w : Watchlist}
      → get_watchlist id t ≡ some w
      → Effect t (delete id) (delete_watchlist id t)
  added :
      {id now watchlist_id : ℕ} {matches : List ℕ} (security_id : ℕ) {t' : WatchlistTables}
      → add_item id now watchlist_id security_id t ≡ ok t'
      → Effect t (add id now watchlist_id matches) t'
  written :
      {now watchlist_id id : ℕ} {v : ItemValues} (values : ItemValues)
      → Effect t
          (change now watchlist_id id v)
          (write_found now values (found watchlist_id id t) t).1
  removed :
      {watchlist_id id : ℕ} {t' : WatchlistTables}
      → delete_item watchlist_id id t ≡ some t'
      → Effect t (remove watchlist_id id) t'
  groups_placed :
      {now : ℕ} {orders : List (ℕ × ℕ)} {t' : WatchlistTables}
      → reorder_groups now orders t ≡ ok t'
      → Effect t (place_groups now orders) t'
  items_placed :
      {now watchlist_id : ℕ} {orders : List (ℕ × ℕ)} {t' : WatchlistTables}
      → reorder_items now watchlist_id orders t ≡ ok t'
      → Effect t (place_items now watchlist_id orders) t'

after_call-Effect :
    (t : WatchlistTables) (c : WatchlistCall) (r : Result WatchlistTables)
    → ((t' : WatchlistTables) → r ≡ ok t' → Effect t c t')
    → Effect t c (after_call t r)
after_call-Effect t c (err e) h = unchanged
after_call-Effect t c (ok t') h = h t' refl

expect-some :
    {A : Type 0} (e : Error) (o : Option A) (value : A) → expect e o ≡ ok value → o ≡ some value
expect-some e none value h = cc
expect-some e (some a) value h = cc

pub after_check :
    (b : Bool) (e : Error) (next : Result WatchlistTables) (t' : WatchlistTables)
    → (raise_if b e >> next) ≡ ok t'
    → next ≡ ok t'
after_check true e next t' h = cc
after_check false e next t' h = h

module _ (texts : NoteTexts) (t : WatchlistTables) where
  updated-Effect :
      (now watchlist_id id : ℕ) (v values : ItemValues) (r : Result (Unit {0}))
      → Effect t
          (change now watchlist_id id v)
          (updated texts r (update_row now watchlist_id id values) t).1
  unfolding updated update_row
  updated-Effect now watchlist_id id v values (err e) = unchanged
  updated-Effect now watchlist_id id v values (ok checked) = written values

  create_group-Effect :
      (id now : ℕ) (name : String) (t' : WatchlistTables)
      → create_group texts id now name t ≡ ok t'
      → Effect t (create id now name) t'
  unfolding create_group
  create_group-Effect id now name t' h =
      let (value, clean, done) = >>=-eq-ok (clean_name texts name) _ h in
      subst (Effect t (create id now name)) (ok-injective done) (created value)

  rename_group-Effect :
      (now id : ℕ) (name : String) (t' : WatchlistTables)
      → rename_group texts now id name t ≡ ok t'
      → Effect t (rename now id name) t'
  unfolding rename_group
  rename_group-Effect now id name t' h =
      let (w, there, next) = >>=-eq-ok (require_watchlist id t) _ h in
      let (value, clean, done) = >>=-eq-ok (clean_name texts name) _ next in
      subst (Effect t (rename now id name)) (ok-injective done) (renamed value)

  delete_group-Effect :
      (id : ℕ) (t' : WatchlistTables) → delete_group id t ≡ ok t' → Effect t (delete id) t'
  unfolding delete_group require_watchlist
  delete_group-Effect id t' h =
      let (w, there, done) = >>=-eq-ok (require_watchlist id t) _ h in
      subst (Effect t (delete id)) (ok-injective done) (deleted (expect-some _ _ w there))

  add_security-Effect :
      (id now watchlist_id : ℕ) (matches : List ℕ) (t' : WatchlistTables)
      → add_security id now watchlist_id matches t ≡ ok t'
      → Effect t (add id now watchlist_id matches) t'
  unfolding add_security
  add_security-Effect id now watchlist_id matches t' h =
      let (w, there, next) = >>=-eq-ok (require_watchlist watchlist_id t) _ h in
      let (security_id, one, last) = >>=-eq-ok (one_match matches) _ next in
      added security_id (after_check _ _ _ t' last)

  remove_item-Effect :
      (watchlist_id id : ℕ) (t' : WatchlistTables)
      → remove_item watchlist_id id t ≡ ok t'
      → Effect t (remove watchlist_id id) t'
  unfolding remove_item
  remove_item-Effect watchlist_id id t' h =
      let (w, there, done) = >>=-eq-ok (require_watchlist watchlist_id t) _ h in
      removed (expect-some _ _ t' done)

  pub run_call-Effect : (c : WatchlistCall) → Effect t c (run_call texts c t)
  unfolding run_call update_item
  run_call-Effect (create id now name) = after_call-Effect t _ _ (create_group-Effect id now name)
  run_call-Effect (rename now id name) = after_call-Effect t _ _ (rename_group-Effect now id name)
  run_call-Effect (delete id) = after_call-Effect t _ _ (delete_group-Effect id)
  run_call-Effect (add id now watchlist_id matches) =
      after_call-Effect t _ _ (add_security-Effect id now watchlist_id matches)
  run_call-Effect (change now watchlist_id id v) =
      updated-Effect now watchlist_id id v (record v { note = _ }) _
  run_call-Effect (remove watchlist_id id) =
      after_call-Effect t _ _ (remove_item-Effect watchlist_id id)
  run_call-Effect (place_groups now orders) = after_call-Effect t _ _ (λ t' h. groups_placed h)
  run_call-Effect (place_items now watchlist_id orders) =
      after_call-Effect t _ _ (λ t' h. items_placed h)
