-- ===== src/Watchlist/Placed.antt =====
-- What a reordering of rows comes to (backend/app/repositories/sql_watchlist.py).
use tw_stock_android_spec.Base.{
  ℕ, ◌≡◌, refl, sym, ◌∙◌, Bool, true, false, ◌&&◌, Option, none, some, some_eq, List, [], ◌∷◌, ◌==◌,
  map, map-map, map-All, map-same, All-then, filter, All, length, if◌then◌else◌, inl, inr,
  Bool-cases, if_both, subst, arith,
}
use tw_stock_android_spec.Base.Assoc.{nat_eq, contains, Distinct, find_key}
use tw_stock_android_spec.Watchlist.Rows.{order_ids, keys_of, place_row, place_rows, reorder}
use tw_stock_android_spec.Watchlist.Keys.{Distinct-filter}
use tw_stock_android_spec.Watchlist.Counted.{Within, length-Within, none_dropped}

find_key-absent :
    (id : ℕ) (orders : List (ℕ × ℕ))
    → contains id (order_ids orders) ≡ false
    → find_key id orders ≡ none
find_key-absent id [] h = refl
find_key-absent id ((j, n) ∷ orders) h = ground (arith, find_key-absent id orders)

module _ {A : Type 0} (key : A → ℕ) (move : ℕ → A → A) where
  abbrev pub placed_at : Option ℕ → A → A
  placed_at none a = a
  placed_at (some n) a = move n a

  -- The place that the orders give a row
  abbrev pub placed : List (ℕ × ℕ) → A → A
  placed orders a = placed_at (find_key (key a) orders) a

  module _ (moved_key : (n : ℕ) (a : A) → key (move n a) ≡ key a) where
    placed-place_row :
        (o : ℕ × ℕ) (orders : List (ℕ × ℕ)) (a : A)
        → contains o.0 (order_ids orders) ≡ false
        → placed orders (place_row key move o a) ≡ placed (o ∷ orders) a
    placed-place_row o orders a new = elim (Bool-cases (key a == o.0)) [
      | inl t ↦
          let same : o.0 == key a ≡ true = ground (arith, t) in
          let here : key a ≡ o.0 = ground (arith, t) in
          let gone : find_key (key a) orders ≡ none =
            find_key-absent (key a) orders
              (subst (λ k. contains k (order_ids orders) ≡ false) (sym here) new) in
          rw (t, same, moved_key o.1 a, gone) refl
      | inr t ↦ let other : o.0 == key a ≡ false = ground (arith, t) in rw (t, other) refl
    ]

    place_rows-placed :
        (orders : List (ℕ × ℕ)) (rows : List A)
        → Distinct (order_ids orders)
        → place_rows key move orders rows ≡ map (placed orders) rows
    unfolding place_rows
    place_rows-placed [] rows d = sym (map-same rows)
    place_rows-placed (o ∷ orders) rows d =
        place_rows-placed orders (map (place_row key move o) rows) d.1
        ∙ map-map (place_row key move o) (placed orders) (placed (o ∷ orders)) rows
            (λ a. placed-place_row o orders a d.0)

    module _ (is_mine : A → Bool) (orders : List (ℕ × ℕ)) where
      abbrev is_named : A → Bool
      is_named a = contains (key a) (order_ids orders)

      named-Within :
          (rows : List A) → Within (keys_of key (filter is_named rows)) (order_ids orders)
      named-Within [] k h = cc
      named-Within (a ∷ rows) k h = elim (Bool-cases (is_named a)) [
        | inl t ↦ elim (Bool-cases (key a == k)) [
          | inl u ↦
              let same : key a ≡ k = ground (arith, u) in
              subst (λ k. contains k (order_ids orders) ≡ true) same t
          | inr u ↦ named-Within rows k (rw (t, u) at h)
        ]
        | inr t ↦ named-Within rows k (rw t at h)
      ]

      length-keys_of : (rows : List A) → length (keys_of key rows) ≡ length rows
      length-keys_of [] = refl
      length-keys_of (a ∷ rows) = omega (arith, length-keys_of rows)

      -- A row that may not be moved is not named, where as many rows were found as are named.
      all_mine :
          (rows : List A)
          → Distinct (keys_of key rows)
          → Distinct (order_ids orders)
          → length (filter (λ a. is_named a && is_mine a) rows) ≡ length (order_ids orders)
          → All (λ a. is_named a ≡ true → is_mine a ≡ true) rows
      all_mine rows d c n = none_dropped is_named is_mine rows (
          omega (
            arith,
            n,
            length-keys_of (filter is_named rows),
            length-Within (keys_of key (filter is_named rows)) (order_ids orders)
                (Distinct-filter key is_named rows d) c (named-Within rows),
          ))

      abbrev pub placed_mine : A → A
      placed_mine a = if is_mine a then placed orders a else a

      placed_here :
          (a : A) → (is_named a ≡ true → is_mine a ≡ true) → placed orders a ≡ placed_mine a
      placed_here a h = elim (Bool-cases (is_mine a)) [
        | inl t ↦ rw t refl
        | inr t ↦
            let absent : is_named a ≡ false = ground (arith, h, t) in
            rw (t, find_key-absent (key a) orders absent) refl
      ]

      -- What a move leaves alone, a placing does.
      pub placed_mine_same :
          {B : Type 0} (g : A → B)
          → ((n : ℕ) (a : A) → g (move n a) ≡ g a)
          → (a : A) → g (placed_mine a) ≡ g a
      placed_mine_same g same a =
          if_both (λ b. g b ≡ g a) (is_mine a) _ _ (moved (find_key (key a) orders)) refl
        where
          moved : (o : Option ℕ) → g (placed_at o a) ≡ g a
          moved none = refl
          moved (some n) = same n a

      pub reorder-placed :
          (rows rows' : List A)
          → Distinct (keys_of key rows)
          → Distinct (order_ids orders)
          → reorder key move is_mine orders rows ≡ some rows'
          → rows' ≡ map placed_mine rows
      unfolding reorder
      reorder-placed rows rows' d c h =
          elim (Bool-cases
            (length (filter (λ a. is_named a && is_mine a) rows) == length (order_ids orders))) [
              | inl e ↦
                  let done = rw e at h in
                  sym (some_eq done)
                  ∙ place_rows-placed orders rows c
                  ∙ map-All (placed orders) placed_mine rows (
                      All-then (λ a. is_named a ≡ true → is_mine a ≡ true)
                        (λ a. placed orders a ≡ placed_mine a) rows placed_here
                        (all_mine rows d c (ground (arith, e))))
              | inr e ↦ let done = rw e at h in cc
            ]
